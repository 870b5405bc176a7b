-- ===== src/Kv/Lock.antt =====
-- The lock over the key/value service (src/kvsrv1/lock/lock.go). A call of its clerk runs over the
-- attempts of that call, and `none` is a lock that is still trying when the granted calls run out.
-- Acquire's and Release's loops are on fuel, one round each.
pub mod Entries
pub mod Holding
use Prim.Native.String.{String}
use text.Mathlib.Text.{◌==◌ as same_text}
use distributed_systems_mit.Base.{
  ℕ, zero, suc, ◌+◌, Bool, true, false, Option, none, some, List, [], ◌∷◌, ◌==◌, not, if◌then◌else◌,
  ◌>>=◌,
}
use distributed_systems_mit.Kv.Rpc.{
  Err, ok, err_no_key, err_version, err_maybe, err_wrong_leader, err_wrong_group, PutArgs, GetReply,
  u64,
}
use distributed_systems_mit.Kv.Server.{KvServer}
use distributed_systems_mit.Kv.Clerk.{Attempt, clerk_get, clerk_put}

pub record Lock : Type 0 where
  pub client_id : String
  pub lock_name : String
  pub lock_version : ℕ

-- The server, and the attempts of the clerk calls to come.
pub record World : Type 0 where
  pub server : KvServer
  pub calls : List (List Attempt)

unfoldable pub make_lock : String → String → Lock
make_lock client_id lock_name = record {
  client_id = client_id;
  lock_name = lock_name;
  lock_version = 0;
}

abbrev get_by : KvServer → String → List (List Attempt) → Option (World × GetReply)
get_by s key [] = none
get_by s key (attempts ∷ rest) = do
  (s', r) ← clerk_get s key attempts
  some (record { server = s'; calls = rest }, r)

-- `lk.ck.Get`
unfoldable pub ck_get : World → String → Option (World × GetReply)
ck_get w key = get_by w.server key w.calls

abbrev put_by : KvServer → PutArgs → List (List Attempt) → Option (World × Err)
put_by s args [] = none
put_by s args (attempts ∷ rest) = do
  (s', e) ← clerk_put s args true attempts
  some (record { server = s'; calls = rest }, e)

-- `lk.ck.Put`
unfoldable pub ck_put : World → PutArgs → Option (World × Err)
ck_put w args = put_by w.server args w.calls

unfoldable pub refresh_state : Lock → World → Option (World × String × ℕ)
refresh_state lk w = do (w', r) ← ck_get w lk.lock_name; some (w', r.value, r.version)

unfoldable pub acquired_after_maybe : Lock → World → Option (World × Lock × Bool)
unfolding refresh_state
acquired_after_maybe lk w = do
  (w', state, ver) ← refresh_state lk w
  some (
      if same_text state lk.client_id
      then (w', record lk { lock_version = ver }, true)
      else (w', lk, false))

unfoldable pub released_after_maybe : Lock → World → Option (World × Lock × Bool)
unfolding refresh_state
released_after_maybe lk w = do
  (w', state, ver) ← refresh_state lk w
  some (w', record lk { lock_version = ver }, not (same_text state lk.client_id))

-- What follows the Put of a round, which named version `ver`. The Boolean tells whether Acquire
-- returns.
unfoldable pub after_put : Lock → ℕ → World × Err → Option (World × Lock × Bool)
unfolding acquired_after_maybe
after_put lk ver (w, err_maybe) = acquired_after_maybe lk w
after_put lk ver (w, ok) = some (w, record lk { lock_version = u64 (ver + 1) }, true)
after_put lk ver (w, _) = some (w, lk, false)

abbrev pub claim : Lock → ℕ → PutArgs
claim lk ver = record { key = lk.lock_name; value = lk.client_id; version = ver }

-- A round from the reply of its Get on.
unfoldable pub after_get : Lock → World → GetReply → Err → Option (World × Lock × Bool)
unfolding after_put
after_get lk w r err_no_key = do p ← ck_put w (claim lk 0); after_put lk 0 p
after_get lk w r ok =
    if same_text r.value lk.client_id
    then some (w, record lk { lock_version = r.version }, true)
    else if not (same_text r.value "0")
    then some (w, lk, false)
    else (do p ← ck_put w (claim lk r.version); after_put lk r.version p)
after_get lk w r _ = some (w, lk, false)

-- One round of Acquire.
unfoldable pub acquire_round : Lock → World → Option (World × Lock × Bool)
unfolding after_get
acquire_round lk w = do (w', r) ← ck_get w lk.lock_name; after_get lk w' r r.err

unfoldable pub acquire : ℕ → Lock → World → Option (World × Lock)
acquire zero lk w = none
acquire (suc fuel) lk w = do
  (w', lk', returned) ← acquire_round lk w
  let again = acquire fuel lk' w'
  if returned then some (w', lk') else again

unfoldable pub after_free : Lock → World × Err → Option (World × Lock × Bool)
unfolding released_after_maybe
after_free lk (w, err_maybe) = released_after_maybe lk w
after_free lk (w, ok) = some (w, lk, true)
after_free lk (w, _) = some (w, lk, false)

abbrev pub freeing : Lock → PutArgs
freeing lk = record { key = lk.lock_name; value = "0"; version = lk.lock_version }

-- One round of Release.
unfoldable pub release_round : Lock → World → Option (World × Lock × Bool)
unfolding after_free
release_round lk w = do p ← ck_put w (freeing lk); after_free lk p

unfoldable pub release_loop : ℕ → Lock → World → Option (World × Lock)
release_loop zero lk w = none
release_loop (suc fuel) lk w = do
  (w', lk', returned) ← release_round lk w
  let again = release_loop fuel lk' w'
  if returned then some (w', lk') else again

unfoldable pub release : ℕ → Lock → World → Option (World × Lock)
release fuel lk w = if lk.lock_version == 0 then some (w, lk) else release_loop fuel lk w
