-- ===== src/Kv/Lock/Entries.antt =====
-- A key's entry after a clerk's call, and after the puts of other clients.
use Prim.Native.String.{String}
use text.Mathlib.Text.{◌==◌ as same_text}
use text.Mathlib.TextEquality.{eq_iff}
use distributed_systems_mit.Base.{
  ℕ, ◌+◌, ◌≡◌, ◌≢◌, sym, ap, subst, ◌∙◌, ◌⊎◌, inl, inr, Bool, true, false, Option, some, List, [],
  ◌∷◌, arith, Bool-cases, ◌==◌, ==→eq, ==→ne,
}
use distributed_systems_mit.Kv.Rpc.{ok, PutArgs, GetReply, u64}
use distributed_systems_mit.Kv.Server.{Entry, KvServer, get, put, puts, write}
use distributed_systems_mit.Kv.Server.Versions.{version_of, put_ok_iff, put_failed}
use distributed_systems_mit.Kv.Clerk.{
  Delivery, Attempt, deliver_get, get_verdict, clerk_get, call_put, put_verdict, clerk_put,
}
use distributed_systems_mit.Kv.Clerk.AtMostOnce.{clerk_put_cases}
use distributed_systems_mit.Kv.Lock.{World, get_by, put_by, ck_get, ck_put}

abbrev pub holds : String → ℕ → Option Entry
holds value version = some (record { value = value; version = version })

heard_get :
    (s : KvServer) (key : String) (d : Delivery) (r : GetReply)
    → get_verdict (deliver_get d (get s key)) ≡ some r
    → r.value ≢ ""
    → s.kv key ≡ holds r.value r.version
unfolding get get_verdict
heard_get s key d r h ne = ground arith

clerk_get_value :
    (s s' : KvServer) (key : String) (attempts : List Attempt) (r : GetReply)
    → clerk_get s key attempts ≡ some (s', r)
    → r.value ≢ ""
    → s'.kv key ≡ holds r.value r.version
unfolding clerk_get
clerk_get_value s s' key [] r h ne = absurd (ground arith)
clerk_get_value s s' key (a ∷ rest) r h ne = ground (
  arith,
  heard_get (puts s a.before) key a.delivery r,
  clerk_get_value (puts s a.before) s' key rest r,
)

put_entry_ok :
    (s : KvServer) (args : PutArgs)
    → (put s args).1 ≡ ok
    → (put s args).0.kv args.key ≡ holds args.value (u64 (args.version + 1))
unfolding put write
put_entry_ok s args h = ground (arith, eq_iff args.key args.key)

heard_put :
    (s : KvServer) (args : PutArgs) (a : Attempt) (is_first : Bool)
    → put_verdict is_first (call_put s args a).1 ≡ some ok
    → (call_put s args a).0.kv args.key ≡ holds args.value (u64 (args.version + 1))
unfolding call_put put_verdict
heard_put s args a is_first h = ground (arith, put_entry_ok (puts s a.before) args)

clerk_put_entry :
    (s s' : KvServer) (args : PutArgs) (is_first : Bool) (attempts : List Attempt)
    → clerk_put s args is_first attempts ≡ some (s', ok)
    → s'.kv args.key ≡ holds args.value (u64 (args.version + 1))
clerk_put_entry s s' args is_first [] h = absurd (unfold clerk_put in ground arith)
clerk_put_entry s s' args is_first (a ∷ rest) h =
    elim (clerk_put_cases s s' args is_first ok a rest h) [
      | inl (silent, again) ↦ clerk_put_entry (call_put s args a).0 s' args false rest again
      | inr (told, same) ↦
          subst (λ t. t.kv args.key ≡ holds args.value (u64 (args.version + 1))) same
            (heard_put s args a is_first told)
    ]

pub ck_get_value :
    (w w' : World) (key : String) (r : GetReply)
    → ck_get w key ≡ some (w', r)
    → r.value ≢ ""
    → w'.server.kv key ≡ holds r.value r.version
unfolding ck_get
ck_get_value w w' key r h ne = by_calls w.calls h
  where
    by_calls :
        (calls : List (List Attempt))
        → get_by w.server key calls ≡ some (w', r)
        → w'.server.kv key ≡ holds r.value r.version
    by_calls [] h = ground arith
    by_calls (attempts ∷ rest) h = ground (arith, clerk_get_value w.server w'.server key attempts r)

pub ck_put_entry :
    (w w' : World) (args : PutArgs)
    → ck_put w args ≡ some (w', ok)
    → w'.server.kv args.key ≡ holds args.value (u64 (args.version + 1))
unfolding ck_put
ck_put_entry w w' args h = by_calls w.calls h
  where
    by_calls :
        (calls : List (List Attempt))
        → put_by w.server args calls ≡ some (w', ok)
        → w'.server.kv args.key ≡ holds args.value (u64 (args.version + 1))
    by_calls [] h = ground arith
    by_calls (attempts ∷ rest) h =
        ground (arith, clerk_put_entry w.server w'.server args true attempts)

-- One of the puts is to `key` and names `version`.
abbrev pub IsNamed : String → ℕ → List PutArgs → Type 0
IsNamed key version [] = ⊥
IsNamed key version (args ∷ rest) =
    ((args.key ≡ key) × (args.version ≡ version)) ⊎ IsNamed key version rest

put_kept :
    (s : KvServer) (args : PutArgs) (key value : String) (version : ℕ)
    → s.kv key ≡ holds value version
    → ((put s args).0.kv key ≡ holds value version) ⊎ ((args.key ≡ key) × (args.version ≡ version))
put_kept s args key value version h = elim (Bool-cases (same_text key args.key)) [
  | inr other ↦ inl (unfold put write in ground (arith, eq_iff key args.key))
  | inl same ↦
      let at : key ≡ args.key = (eq_iff key args.key).0 same in
      let here : s.kv args.key ≡ holds value version = sym (ap s.kv at) ∙ h in
      elim (Bool-cases (args.version == version)) [
        | inl names ↦ inr (sym at, ==→eq args.version version names)
        | inr old ↦
            let ne = ==→ne args.version version old in
            let fails : (put s args).1 ≢ ok =
              λ done. ne ((put_ok_iff s args).0 done ∙ ap version_of here) in
            inl (ap (λ (t : KvServer). t.kv key) (put_failed s args fails) ∙ h)
      ]
]

pub puts_kept :
    (s : KvServer) (later : List PutArgs) (key value : String) (version : ℕ)
    → s.kv key ≡ holds value version
    → ((puts s later).kv key ≡ holds value version) ⊎ IsNamed key version later
unfolding puts
puts_kept s [] key value version h = inl h
puts_kept s (args ∷ rest) key value version h = elim (put_kept s args key value version h) [
  | inr names ↦ inr (inl names)
  | inl kept ↦ elim (puts_kept (put s args).0 rest key value version kept) [
    | inl on ↦ inl on
    | inr names ↦ inr (inr names)
  ]
]
