-- ===== src/Kv/Clerk.antt =====
-- The clerk (src/kvsrv1/client.go) over an unreliable network. A call of tester1's `Clnt.Call` is
-- one attempt: puts of other clients reach the server first; then the request is lost, or it is
-- served and its reply is lost, or the reply arrives. The clerk's loop runs over the attempts that
-- the network grants, and `none` is a clerk that is still trying when they run out.
pub mod AtMostOnce
use Prim.Native.String.{String}
use distributed_systems_mit.Base.{
  ℕ, Bool, true, false, Option, none, some, List, [], ◌∷◌, if◌then◌else◌,
}
use distributed_systems_mit.Kv.Rpc.{
  Err, ok, err_no_key, err_version, err_maybe, err_wrong_leader, err_wrong_group, PutArgs, GetReply,
}
use distributed_systems_mit.Kv.Server.{KvServer, get, put, puts}

pub data Delivery : Type 0 where
  request_lost reply_lost delivered : Delivery

-- What becomes of one call: the puts of other clients that the server performs before it would serve
-- this one, and how far the call gets. Puts between one call and the next belong to the next.
pub record Attempt : Type 0 where
  pub before : List PutArgs
  pub delivery : Delivery

-- The server after an attempt, and the reply if the clerk hears one.
abbrev deliver_put : Delivery → KvServer × Err → KvServer → KvServer × Option Err
deliver_put request_lost served s = (s, none)
deliver_put reply_lost (s', e) s = (s', none)
deliver_put delivered (s', e) s = (s', some e)

unfoldable pub call_put : KvServer → PutArgs → Attempt → KvServer × Option Err
call_put s args a = let s' = puts s a.before in deliver_put a.delivery (put s' args) s'

-- What a reply makes the clerk return, if it makes it return.
unfoldable pub put_verdict : Bool → Option Err → Option Err
put_verdict is_first none = none
put_verdict is_first (some err_version) = some (if is_first then err_version else err_maybe)
put_verdict is_first (some err_no_key) = some err_no_key
put_verdict is_first (some ok) = some ok
put_verdict is_first (some _) = none

unfoldable pub clerk_put : KvServer → PutArgs → Bool → List Attempt → Option (KvServer × Err)
clerk_put s args is_first [] = none
clerk_put s args is_first (a ∷ rest) =
    let r = call_put s args a in
    let again = clerk_put r.0 args false rest in
    elim (put_verdict is_first r.1) [ none ↦ again | some e ↦ some (r.0, e) ]

abbrev pub deliver_get : Delivery → GetReply → Option GetReply
deliver_get request_lost reply = none
deliver_get reply_lost reply = none
deliver_get delivered reply = some reply

unfoldable pub get_verdict : Option GetReply → Option GetReply
get_verdict none = none
get_verdict (some r) = elim r.err [
  | err_no_key ↦ some (record { value = ""; version = 0; err = err_no_key })
  | ok ↦ some r
  | _ ↦ none
]

unfoldable pub clerk_get : KvServer → String → List Attempt → Option (KvServer × GetReply)
clerk_get s key [] = none
clerk_get s key (a ∷ rest) =
    let s' = puts s a.before in
    let again = clerk_get s' key rest in
    elim (get_verdict (deliver_get a.delivery (get s' key))) [
      | none ↦ again
      | some r ↦ some (s', r)
    ]
