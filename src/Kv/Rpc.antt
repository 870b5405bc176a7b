-- ===== src/Kv/Rpc.antt =====
-- The messages of src/kvsrv1/rpc/rpc.go. The strings of `Err` are the constructors; a version is a
-- uint64, kept below 2^64 by the wrap-around at each write.
use Prim.Native.String.{String}
use distributed_systems_mit.Base.{ℕ, ◌%◌}

pub data Err : Type 0 where
  ok err_no_key err_version err_maybe err_wrong_leader err_wrong_group : Err

abbrev pub version_mod : ℕ
version_mod = 18446744073709551616

abbrev pub u64 : ℕ → ℕ
u64 n = n % version_mod

pub record PutArgs : Type 0 where
  pub key : String
  pub value : String
  pub version : ℕ

pub record GetReply : Type 0 where
  pub value : String
  pub version : ℕ
  pub err : Err
