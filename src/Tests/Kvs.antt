-- ===== src/Tests/Kvs.antt =====
-- Puts and gets of the key/value service, direct and through the clerk.
use distributed_systems_mit.Base.{◌≡◌, ◌≢◌, ◌↔◌, true, refl, some, List, [], ◌∷◌, arith}
use distributed_systems_mit.Kv.Rpc.{ok, err_no_key, err_version, PutArgs}
use distributed_systems_mit.Kv.Server.{KvServer, make_kv_server, write, get, put, puts}
use distributed_systems_mit.Kv.Server.Versions.{put_ok_iff, get-put, put_once, version_of}
use distributed_systems_mit.Kv.Model.{model_step}
use distributed_systems_mit.Kv.Model.Refines.{state_of, put_input, put_output, put_refines}
use distributed_systems_mit.Kv.Clerk.{
  Attempt, request_lost, delivered, clerk_put, call_put, put_verdict,
}
use distributed_systems_mit.Kv.Clerk.AtMostOnce.{performed, clerk_put_ok, clerk_put_version}

abbrev put_a : PutArgs
put_a = record { key = "k"; value = "a"; version = 0 }

abbrev put_b : PutArgs
put_b = record { key = "k"; value = "b"; version = 1 }

abbrev put_c : PutArgs
put_c = record { key = "k"; value = "c"; version = 1 }

-- A server with one key at version 1.
abbrev one_key : KvServer
one_key = (put make_kv_server put_a).0

put_ok_iff_example : ((put one_key put_b).1 ≡ ok) ↔ (1 ≡ version_of (one_key.kv "k"))
put_ok_iff_example = put_ok_iff one_key put_b

b_succeeds : (put one_key put_b).1 ≡ ok
unfolding put write make_kv_server
b_succeeds = refl

get-put_example : get (put one_key put_b).0 "k" ≡ record { value = "b"; version = 2; err = ok }
get-put_example = get-put one_key put_b "k" b_succeeds

put_once_example : (put (puts (put one_key put_b).0 (put_c ∷ [])) put_b).1 ≢ ok
put_once_example = put_once one_key put_b (put_c ∷ []) (omega arith) (omega arith, tt) b_succeeds

put_refines_example :
    let r = put one_key put_b in
    let m = model_step (state_of (one_key.kv "k")) (put_input put_b) (put_output r.1) in
    (m.1 ≡ state_of (r.0.kv "k")) × ((m.0 ≡ true) ↔ (r.1 ≢ err_no_key))
put_refines_example = put_refines one_key put_b

-- The first request is lost, the second is heard.
abbrev lossy : List Attempt
lossy =
    record { before = []; delivery = request_lost }
    ∷ record { before = []; delivery = delivered }
    ∷ []

lossy_ok : clerk_put one_key put_b true lossy ≡ some ((put one_key put_b).0, ok)
unfolding clerk_put call_put put_verdict puts put write make_kv_server
lossy_ok = refl

clerk_put_ok_example : performed one_key put_b lossy ≡ 1
clerk_put_ok_example =
    clerk_put_ok one_key (put one_key put_b).0 put_b lossy (omega arith) (tt, (tt, tt)) lossy_ok

-- Another client's put comes first.
abbrev overtaken : List Attempt
overtaken = record { before = put_c ∷ []; delivery = delivered } ∷ []

overtaken_version :
    clerk_put one_key put_b true overtaken ≡ some (puts one_key (put_c ∷ []), err_version)
unfolding clerk_put call_put put_verdict puts put write make_kv_server
overtaken_version = refl

clerk_put_version_example :
    (a : Attempt) × (rest : List Attempt) × (overtaken ≡ a ∷ rest)
    × (puts one_key (put_c ∷ []) ≡ puts one_key a.before)
clerk_put_version_example =
    clerk_put_version one_key (puts one_key (put_c ∷ [])) put_b overtaken overtaken_version
