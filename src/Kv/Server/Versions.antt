-- ===== src/Kv/Server/Versions.antt =====
-- Versions only grow, so that a put which succeeded cannot succeed again.
use Prim.Native.String.{String}
use text.Mathlib.Text.{◌==◌ as same_key}
use text.Mathlib.TextEquality.{eq_iff}
use distributed_systems_mit.Base.{
  ℕ, ◌+◌, ◌≤◌, ◌<◌, ◌≡◌, ◌≢◌, inl, inr, ◌↔◌, Option-cases, Option, none, some, List, [], ◌∷◌, arith,
  if◌then◌else◌,
}
use distributed_systems_mit.Kv.Rpc.{ok, PutArgs, u64, version_mod}
use distributed_systems_mit.Kv.Server.{Entry, KvServer, write, get, put, puts}

abbrev pub version_of : Option Entry → ℕ
version_of none = 0
version_of (some e) = e.version

-- A put whose next version still fits in a uint64.
abbrev pub NoWrap : PutArgs → Type 0
NoWrap args = args.version + 1 < version_mod

-- A put is a compare-and-swap: it succeeds exactly when it names the key's version, where a key
-- that is not there has version 0.
pub put_ok_iff :
    (s : KvServer) (args : PutArgs)
    → ((put s args).1 ≡ ok) ↔ (args.version ≡ version_of (s.kv args.key))
unfolding put
put_ok_iff s args = elim (Option-cases (s.kv args.key)) [
  | inl absent ↦ rw absent (ground arith)
  | inr (e, present) ↦ rw present (ground arith)
]

-- A put that fails changes nothing.
pub put_failed : (s : KvServer) (args : PutArgs) → (put s args).1 ≢ ok → (put s args).0 ≡ s
unfolding put
put_failed s args h = ground arith

-- After a put that succeeded a get of its key returns its value under the next version, and a get
-- of any other key returns what it returned before.
pub get-put :
    (s : KvServer) (args : PutArgs) (key : String)
    → (put s args).1 ≡ ok
    → get (put s args).0 key ≡ (
        if same_key key args.key
        then record { value = args.value; version = u64 (args.version + 1); err = ok }
        else get s key)
unfolding put write get
get-put s args key h = ground (arith, eq_iff key args.key)

pub put-version_le :
    (s : KvServer) (args : PutArgs) (key : String)
    → NoWrap args
    → version_of (s.kv key) ≤ version_of ((put s args).0.kv key)
unfolding put write
put-version_le s args key fits = ground (arith, eq_iff key args.key)

pub put-version_lt :
    (s : KvServer) (args : PutArgs)
    → NoWrap args
    → (put s args).1 ≡ ok
    → args.version < version_of ((put s args).0.kv args.key)
unfolding put write
put-version_lt s args fits h = ground (arith, eq_iff args.key args.key)

-- All of a list of puts fit.
abbrev pub AllFit : List PutArgs → Type 0
AllFit [] = Unit {0}
AllFit (args ∷ rest) = NoWrap args × AllFit rest

pub puts-version_le :
    (s : KvServer) (all : List PutArgs) (key : String)
    → AllFit all
    → version_of (s.kv key) ≤ version_of ((puts s all).kv key)
unfolding puts
puts-version_le s [] key fit = omega arith
puts-version_le s (args ∷ rest) key fit =
    omega (arith, put-version_le s args key fit.0, puts-version_le (put s args).0 rest key fit.1)

-- A put that succeeded fails when it is sent again, whatever puts came in between, while no
-- version wraps around.
pub put_once :
    (s : KvServer) (args : PutArgs) (between : List PutArgs)
    → NoWrap args
    → AllFit between
    → (put s args).1 ≡ ok
    → (put (puts (put s args).0 between) args).1 ≢ ok
put_once s args between fits fit first again =
    let s' = puts (put s args).0 between in
    omega (
      arith,
      (put_ok_iff s' args).0 again,
      put-version_lt s args fits first,
      puts-version_le (put s args).0 between args.key fit,
    )
