-- ===== src/Kv/Server.antt =====
-- The key/value server (src/kvsrv1/server.go). Each handler holds the lock, so it is one step. The
-- map is a function from keys to entries; a write replaces one key.
pub mod Versions
use Prim.Native.String.{String}
use text.Mathlib.Text.{◌==◌ as same_key}
use distributed_systems_mit.Base.{
  ℕ, ◌+◌, Bool, Option, none, some, List, [], ◌∷◌, ◌==◌, if◌then◌else◌,
}
use distributed_systems_mit.Kv.Rpc.{Err, ok, err_no_key, err_version, PutArgs, GetReply, u64}

pub record Entry : Type 0 where
  pub value : String
  pub version : ℕ

pub record KvServer : Type 0 where
  pub kv : String → Option Entry

unfoldable pub make_kv_server : KvServer
make_kv_server = record { kv = λ key. none }

-- `kv.kv[key] = entry`
unfoldable pub write : KvServer → String → Entry → KvServer
write s key e = record { kv = λ other. if same_key other key then some e else s.kv other }

abbrev read_entry : Option Entry → GetReply
read_entry (some e) = record { value = e.value; version = e.version; err = ok }
read_entry none = record { value = ""; version = 0; err = err_no_key }

unfoldable pub get : KvServer → String → GetReply
get s key = read_entry (s.kv key)

abbrev put_entry : KvServer → PutArgs → Option Entry → KvServer × Err
put_entry s args (some e) =
    if args.version == e.version
    then (write s args.key (record { value = args.value; version = u64 (args.version + 1) }), ok)
    else (s, err_version)
put_entry s args none =
    if args.version == 0
    then (write s args.key (record { value = args.value; version = 1 }), ok)
    else (s, err_no_key)

unfoldable pub put : KvServer → PutArgs → KvServer × Err
put s args = put_entry s args (s.kv args.key)

-- The puts of any clients, one after another.
unfoldable pub puts : KvServer → List PutArgs → KvServer
puts s [] = s
puts s (args ∷ rest) = puts (put s args).0 rest
