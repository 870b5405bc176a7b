-- ===== src/Kv/Model.antt =====
-- The sequential model of one key that the tests check histories against (src/models1/kv.go).
pub mod Refines
use Prim.Native.String.{String}
use text.Mathlib.Text.{◌==◌ as same_text}
use distributed_systems_mit.Base.{ℕ, ◌+◌, Bool, true, false, ◌||◌, ◌==◌, if◌then◌else◌}
use distributed_systems_mit.Kv.Rpc.{
  Err, ok, err_no_key, err_version, err_maybe, err_wrong_leader, err_wrong_group, u64,
}

pub data Op : Type 0 where
  get_op put_op : Op

pub record KvInput : Type 0 where
  pub op : Op
  pub key : String
  pub value : String
  pub version : ℕ

pub record KvOutput : Type 0 where
  pub value : String
  pub version : ℕ
  pub err : Err

pub record KvState : Type 0 where
  pub value : String
  pub version : ℕ

abbrev pub is_ok_or_maybe : Err → Bool
is_ok_or_maybe ok = true
is_ok_or_maybe err_maybe = true
is_ok_or_maybe _ = false

abbrev pub is_version_or_maybe : Err → Bool
is_version_or_maybe err_version = true
is_version_or_maybe err_maybe = true
is_version_or_maybe _ = false

unfoldable pub init : KvState
init = record { value = ""; version = 0 }

-- The case of `Step` for each operation.
abbrev step_op : Op → KvState → KvInput → KvOutput → Bool × KvState
step_op get_op st inp out = (same_text out.value st.value, st)
step_op put_op st inp out =
    if st.version == inp.version
    then (is_ok_or_maybe out.err, record { value = inp.value; version = u64 (st.version + 1) })
    else (is_version_or_maybe out.err, st)

unfoldable pub model_step : KvState → KvInput → KvOutput → Bool × KvState
model_step st inp out = step_op inp.op st inp out
