-- ===== src/Kv/Clerk/AtMostOnce.antt =====
-- What the clerk's answers say about the server: a put is performed at most once, and the answer
-- tells whether it was, except for ErrMaybe.
use distributed_systems_mit.Base.{
  ℕ, ◌+◌, ◌≤◌, ◌<◌, ◌≡◌, ◌≢◌, refl, sym, ap, ◌∙◌, ◌⊎◌, inl, inr, Bool, true, false, Option, none,
  some, Option-cases, eq_of_some, List, [], ◌∷◌, arith,
}
use distributed_systems_mit.Kv.Rpc.{Err, ok, err_version, PutArgs}
use distributed_systems_mit.Kv.Server.{KvServer, put, puts}
use distributed_systems_mit.Kv.Server.Versions.{
  NoWrap, AllFit, version_of, put_ok_iff, put_failed, puts-version_le, put-version_le,
  put-version_lt,
}
use distributed_systems_mit.Kv.Clerk.{
  Delivery, request_lost, Attempt, call_put, put_verdict, clerk_put,
}

abbrev is_ok : Err → ℕ
is_ok ok = 1
is_ok _ = 0

abbrev served : Delivery → Err → ℕ
served request_lost e = 0
served _ e = is_ok e

-- How often the server performs the put over the attempts.
pub performed : KvServer → PutArgs → List Attempt → ℕ
performed s args [] = 0
performed s args (a ∷ rest) =
    served a.delivery (put (puts s a.before) args).1 + performed (call_put s args a).0 args rest

abbrev pub AttemptsFit : List Attempt → Type 0
AttemptsFit [] = Unit {0}
AttemptsFit (a ∷ rest) = AllFit a.before × AttemptsFit rest

-- The version of the put's key after an attempt.
call_put-version_le :
    (s : KvServer) (args : PutArgs) (a : Attempt)
    → NoWrap args
    → AllFit a.before
    → version_of (s.kv args.key) ≤ version_of ((call_put s args a).0.kv args.key)
unfolding call_put
call_put-version_le s args a fits fit = ground (
  arith,
  puts-version_le s a.before args.key fit,
  put-version_le (puts s a.before) args args.key fits,
)

served_past :
    (s : KvServer) (args : PutArgs) (a : Attempt)
    → AllFit a.before
    → args.version < version_of (s.kv args.key)
    → served a.delivery (put (puts s a.before) args).1 ≡ 0
served_past s args a fit past =
    ground (arith, puts-version_le s a.before args.key fit, (put_ok_iff (puts s a.before) args).0)

-- Once the key's version is past the put's, the server never performs it.
performed_past :
    (s : KvServer) (args : PutArgs) (attempts : List Attempt)
    → NoWrap args
    → AttemptsFit attempts
    → args.version < version_of (s.kv args.key)
    → performed s args attempts ≡ 0
unfolding performed
performed_past s args [] fits fit past = refl
performed_past s args (a ∷ rest) fits fit past = omega (
  arith,
  served_past s args a fit.0 past,
  performed_past (call_put s args a).0 args rest fits fit.1
      (omega (arith, call_put-version_le s args a fits fit.0)),
)

served_cases :
    (s : KvServer) (args : PutArgs) (a : Attempt)
    → NoWrap args
    → (served a.delivery (put (puts s a.before) args).1 ≡ 0)
      ⊎ ((served a.delivery (put (puts s a.before) args).1 ≡ 1)
          × (args.version < version_of ((call_put s args a).0.kv args.key)))
unfolding call_put
served_cases s args a fits = ground (arith, put-version_lt (puts s a.before) args fits)

-- However often the clerk retries, the server performs its put at most once, while no version
-- wraps around.
pub performed-le-one :
    (s : KvServer) (args : PutArgs) (attempts : List Attempt)
    → NoWrap args
    → AttemptsFit attempts
    → performed s args attempts ≤ 1
unfolding performed
performed-le-one s args [] fits fit = omega arith
performed-le-one s args (a ∷ rest) fits fit = elim (served_cases s args a fits) [
  | inl unserved ↦
      omega (arith, unserved, performed-le-one (call_put s args a).0 args rest fits fit.1)
  | inr (once, past) ↦
      omega (arith, once, performed_past (call_put s args a).0 args rest fits fit.1 past)
]

ok_served :
    (s : KvServer) (args : PutArgs) (a : Attempt) (is_first : Bool)
    → put_verdict is_first (call_put s args a).1 ≡ some ok
    → served a.delivery (put (puts s a.before) args).1 ≡ 1
unfolding call_put put_verdict
ok_served s args a is_first h = ground arith

-- A clerk that returns does so on this attempt's reply, or goes on without a verdict.
pub clerk_put_cases :
    (s s' : KvServer) (args : PutArgs) (is_first : Bool) (e : Err) (a : Attempt)
    (rest : List Attempt)
    → clerk_put s args is_first (a ∷ rest) ≡ some (s', e)
    → ((put_verdict is_first (call_put s args a).1 ≡ none)
        × (clerk_put (call_put s args a).0 args false rest ≡ some (s', e)))
      ⊎ ((put_verdict is_first (call_put s args a).1 ≡ some e) × ((call_put s args a).0 ≡ s'))
unfolding clerk_put
clerk_put_cases s s' args is_first e a rest h =
    elim (Option-cases (put_verdict is_first (call_put s args a).1)) [
      | inl silent ↦ inl (silent, rw (silent, clerk_put) at h)
      | inr (e', told) ↦
          let done : some ((call_put s args a).0, e') ≡ some (s', e) = rw (told, clerk_put) at h in
          let pair = eq_of_some done in
          inr (
            told ∙ ap some (ap (λ (p : KvServer × Err). p.1) pair),
            ap (λ (p : KvServer × Err). p.0) pair,
          )
    ]

ok-le-performed :
    (s s' : KvServer) (args : PutArgs) (is_first : Bool) (attempts : List Attempt)
    → clerk_put s args is_first attempts ≡ some (s', ok)
    → 1 ≤ performed s args attempts
unfolding performed
ok-le-performed s s' args is_first [] h = absurd (unfold clerk_put in ground arith)
ok-le-performed s s' args is_first (a ∷ rest) h =
    elim (clerk_put_cases s s' args is_first ok a rest h) [
      | inl (silent, again) ↦
          omega (arith, ok-le-performed (call_put s args a).0 s' args false rest again)
      | inr (told, _) ↦ omega (arith, ok_served s args a is_first told)
    ]

-- A put that the clerk reports as done was performed by the server exactly once, however many of
-- its requests and replies were lost, while no version wraps around.
pub clerk_put_ok :
    (s s' : KvServer) (args : PutArgs) (attempts : List Attempt)
    → NoWrap args
    → AttemptsFit attempts
    → clerk_put s args true attempts ≡ some (s', ok)
    → performed s args attempts ≡ 1
clerk_put_ok s s' args attempts fits fit h =
    omega
      (arith, performed-le-one s args attempts fits fit, ok-le-performed s s' args true attempts h)

retry_never_version :
    (s s' : KvServer) (args : PutArgs) (attempts : List Attempt)
    → clerk_put s args false attempts ≢ some (s', err_version)
retry_never_version s s' args [] h = unfold clerk_put in ground arith
retry_never_version s s' args (a ∷ rest) h =
    elim (clerk_put_cases s s' args false err_version a rest h) [
      | inl (silent, again) ↦ retry_never_version (call_put s args a).0 s' args rest again
      | inr (told, _) ↦ never (call_put s args a).1 told
    ]
  where
    never : (r : Option Err) → put_verdict false r ≢ some err_version
    never r h = unfold put_verdict in ground arith

first_version :
    (s : KvServer) (args : PutArgs) (a : Attempt)
    → put_verdict true (call_put s args a).1 ≡ some err_version
    → (call_put s args a).0 ≡ puts s a.before
unfolding call_put put_verdict
first_version s args a h = ground (arith, put_failed (puts s a.before) args)

-- ErrVersion is returned on the first attempt only, and then the clerk's put changed nothing: the
-- server is as the other clients' puts left it.
pub clerk_put_version :
    (s s' : KvServer) (args : PutArgs) (attempts : List Attempt)
    → clerk_put s args true attempts ≡ some (s', err_version)
    → (a : Attempt) × (rest : List Attempt) × (attempts ≡ a ∷ rest) × (s' ≡ puts s a.before)
clerk_put_version s s' args [] h = absurd (unfold clerk_put in ground arith)
clerk_put_version s s' args (a ∷ rest) h =
    elim (clerk_put_cases s s' args true err_version a rest h) [
      | inl (silent, again) ↦ absurd (retry_never_version (call_put s args a).0 s' args rest again)
      | inr (told, same) ↦ (a, rest, refl, sym same ∙ first_version s args a told)
    ]
