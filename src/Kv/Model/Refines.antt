-- ===== src/Kv/Model/Refines.antt =====
-- The server, seen one key at a time, against the model that the tests use.
use Prim.Native.String.{String}
use text.Mathlib.TextPositions.{eq_refl}
use distributed_systems_mit.Base.{
  ◌≡◌, ◌≢◌, inl, inr, ◌↔◌, true, Option, none, some, Option-cases, arith,
}
use distributed_systems_mit.Kv.Rpc.{Err, err_no_key, PutArgs}
use distributed_systems_mit.Kv.Server.{Entry, KvServer, get, put, write}
use distributed_systems_mit.Kv.Model.{get_op, put_op, KvInput, KvOutput, KvState, init, model_step}

-- The model's state of an entry; a key that is not there is the initial state.
unfoldable pub state_of : Option Entry → KvState
unfolding init
state_of none = init
state_of (some e) = record { value = e.value; version = e.version }

abbrev get_input : String → KvInput
get_input key = record { op = get_op; key = key; value = ""; version = 0 }

abbrev pub put_input : PutArgs → KvInput
put_input args = record { op = put_op; key = args.key; value = args.value; version = args.version }

abbrev get_output : KvServer → String → KvOutput
get_output s key = let r = get s key in record { value = r.value; version = r.version; err = r.err }

abbrev pub put_output : Err → KvOutput
put_output e = record { value = ""; version = 0; err = e }

-- The model accepts every get of the server, and keeps its state.
get_refines :
    (s : KvServer) (key : String)
    → model_step (state_of (s.kv key)) (get_input key) (get_output s key)
      ≡ (true, state_of (s.kv key))
unfolding model_step get state_of
get_refines s key = elim (Option-cases (s.kv key)) [
  | inl absent ↦ rw absent (ground (arith, eq_refl ""))
  | inr (e, present) ↦ rw present (ground (arith, eq_refl e.value))
]

-- The model follows every put: its next state is the server's entry for the key. It accepts the
-- server's reply unless that is ErrNoKey.
pub put_refines :
    (s : KvServer) (args : PutArgs)
    → let r = put s args in
      let m = model_step (state_of (s.kv args.key)) (put_input args) (put_output r.1) in
      (m.1 ≡ state_of (r.0.kv args.key)) × ((m.0 ≡ true) ↔ (r.1 ≢ err_no_key))
unfolding model_step put write state_of
put_refines s args = elim (Option-cases (s.kv args.key)) [
  | inl absent ↦ rw absent (ground (arith, eq_refl args.key))
  | inr (e, present) ↦ rw present (ground (arith, eq_refl args.key))
]
