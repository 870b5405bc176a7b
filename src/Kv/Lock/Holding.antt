-- ===== src/Kv/Lock/Holding.antt =====
-- What the server holds when Acquire and Release return.
use Prim.Native.String.{String}
use text.Mathlib.Text.{◌==◌ as same_text}
use text.Mathlib.TextEquality.{eq_iff}
use distributed_systems_mit.Base.{
  ℕ, zero, suc, ◌+◌, ◌≡◌, ◌≢◌, refl, ap, subst, ◌∙◌, ◌⊎◌, inl, inr, Bool, true, false, Option, none,
  some, Option-cases, eq_of_some, List, [], ◌∷◌, arith, Bool-cases, eq→==, >>=-eq-some,
  if◌then◌else◌, ◌>>=◌,
}
use distributed_systems_mit.Kv.Rpc.{
  Err, ok, err_no_key, err_version, err_maybe, err_wrong_leader, err_wrong_group, PutArgs, GetReply,
  u64,
}
use distributed_systems_mit.Kv.Server.{KvServer, get, put, puts, write}
use distributed_systems_mit.Kv.Clerk.{
  delivered, Attempt, get_verdict, clerk_get, call_put, put_verdict, clerk_put,
}
use distributed_systems_mit.Kv.Lock.{
  Lock, World, ck_get, ck_put, refresh_state, acquired_after_maybe, after_put, claim, after_get,
  acquire_round, acquire,
}
use distributed_systems_mit.Kv.Lock.Entries.{holds, ck_get_value, ck_put_entry, IsNamed, puts_kept}

-- The lock `lk'` is held by its client, at its version.
pub record Held (w : World) (lk lk' : Lock) : Type 0 where
  pub same_client : lk'.client_id ≡ lk.client_id
  pub same_name : lk'.lock_name ≡ lk.lock_name
  pub entry_is : w.server.kv lk.lock_name ≡ holds lk.client_id lk'.lock_version

abbrev own_or_not : Lock → World → String → ℕ → World × Lock × Bool
own_or_not lk w state ver =
    if same_text state lk.client_id
    then (w, record lk { lock_version = ver }, true)
    else (w, lk, false)

found_own :
    (lk lk' : Lock) (w w' : World) (state : String) (ver : ℕ)
    → lk.client_id ≢ ""
    → (state ≢ "" → w.server.kv lk.lock_name ≡ holds state ver)
    → own_or_not lk w state ver ≡ (w', lk', true)
    → Held w' lk lk'
found_own lk lk' w w' state ver ne entry h = record {
  same_client = ground arith;
  same_name = ground arith;
  entry_is = ground (arith, eq_iff state lk.client_id);
}

refresh_state_value :
    (lk : Lock) (w w' : World) (state : String) (ver : ℕ)
    → refresh_state lk w ≡ some (w', state, ver)
    → state ≢ ""
    → w'.server.kv lk.lock_name ≡ holds state ver
unfolding refresh_state
refresh_state_value lk w w' state ver h ne = elim (Option-cases (ck_get w lk.lock_name)) [
  | inl silent ↦ absurd (ground arith)
  | inr ((w1, r), got) ↦ ground (arith, ck_get_value w w1 lk.lock_name r)
]

acquired_after_maybe-Held :
    (lk lk' : Lock) (w w' : World)
    → lk.client_id ≢ ""
    → acquired_after_maybe lk w ≡ some (w', lk', true)
    → Held w' lk lk'
unfolding acquired_after_maybe
acquired_after_maybe-Held lk lk' w w' ne h =
    let ((w1, state, ver), got, done) =
      >>=-eq-some (refresh_state lk w) (λ p. some (own_or_not lk p.0 p.1 p.2)) h in
    found_own lk lk' w1 w' state ver ne (refresh_state_value lk w w1 state ver got)
      (eq_of_some done)

-- A round's Put, when the round makes Acquire return.
claimed-Held :
    (lk lk' : Lock) (w w' : World) (ver : ℕ)
    → lk.client_id ≢ ""
    → (ck_put w (claim lk ver) >>= λ p. after_put lk ver p) ≡ some (w', lk', true)
    → Held w' lk lk'
claimed-Held lk lk' w w' ver ne h =
    let ((w1, e), sent, done) = >>=-eq-some (ck_put w (claim lk ver)) (λ p. after_put lk ver p) h in
    by_answer w1 e sent done
  where
    by_answer :
        (w1 : World) (e : Err)
        → ck_put w (claim lk ver) ≡ some (w1, e)
        → after_put lk ver (w1, e) ≡ some (w', lk', true)
        → Held w' lk lk'
    by_answer w1 ok sent done = record {
      same_client = unfold after_put in ground arith;
      same_name = unfold after_put in ground arith;
      entry_is = unfold after_put in ground (arith, ck_put_entry w w1 (claim lk ver));
    }
    by_answer w1 err_maybe sent done =
        acquired_after_maybe-Held lk lk' w1 w' ne (unfold after_put in done)
    by_answer w1 err_no_key sent done = absurd (unfold after_put in ground arith)
    by_answer w1 err_version sent done = absurd (unfold after_put in ground arith)
    by_answer w1 err_wrong_leader sent done = absurd (unfold after_put in ground arith)
    by_answer w1 err_wrong_group sent done = absurd (unfold after_put in ground arith)

after_get-Held :
    (lk lk' : Lock) (w w' : World) (r : GetReply) (e : Err)
    → lk.client_id ≢ ""
    → (r.value ≢ "" → w.server.kv lk.lock_name ≡ holds r.value r.version)
    → after_get lk w r e ≡ some (w', lk', true)
    → Held w' lk lk'
unfolding after_get
after_get-Held lk lk' w w' r err_no_key ne entry h = claimed-Held lk lk' w w' 0 ne h
after_get-Held lk lk' w w' r ok ne entry h = elim (Bool-cases (same_text r.value lk.client_id)) [
  | inl own ↦ record {
    same_client = ground arith;
    same_name = ground arith;
    entry_is = ground (arith, eq_iff r.value lk.client_id);
  }
  | inr other ↦ elim (Bool-cases (same_text r.value "0")) [
    | inl free ↦ claimed-Held lk lk' w w' r.version ne (rw (other, free) at h)
    | inr taken ↦ absurd (ground arith)
  ]
]
after_get-Held lk lk' w w' r err_version ne entry h = absurd (ground arith)
after_get-Held lk lk' w w' r err_maybe ne entry h = absurd (ground arith)
after_get-Held lk lk' w w' r err_wrong_leader ne entry h = absurd (ground arith)
after_get-Held lk lk' w w' r err_wrong_group ne entry h = absurd (ground arith)

acquire_round-Held :
    (lk lk' : Lock) (w w' : World)
    → lk.client_id ≢ ""
    → acquire_round lk w ≡ some (w', lk', true)
    → Held w' lk lk'
unfolding acquire_round
acquire_round-Held lk lk' w w' ne h =
    let ((w1, r), got, done) =
      >>=-eq-some (ck_get w lk.lock_name) (λ p. after_get lk p.0 p.1 p.1.err) h in
    after_get-Held lk lk' w1 w' r r.err ne (ck_get_value w w1 lk.lock_name r got) done

put_not_done :
    (lk lk' : Lock) (w w' : World) (ver : ℕ)
    → (ck_put w (claim lk ver) >>= λ p. after_put lk ver p) ≡ some (w', lk', false)
    → lk' ≡ lk
put_not_done lk lk' w w' ver h =
    let ((w1, e), sent, done) = >>=-eq-some (ck_put w (claim lk ver)) (λ p. after_put lk ver p) h in
    by_answer w1 e done
  where
    by_answer : (w1 : World) (e : Err) → after_put lk ver (w1, e) ≡ some (w', lk', false) → lk' ≡ lk
    by_answer w1 e done = unfold after_put acquired_after_maybe in ground arith

after_get_not_done :
    (lk lk' : Lock) (w w' : World) (r : GetReply) (e : Err)
    → after_get lk w r e ≡ some (w', lk', false)
    → lk' ≡ lk
unfolding after_get
after_get_not_done lk lk' w w' r e h =
    ground (arith, put_not_done lk lk' w w' 0, put_not_done lk lk' w w' r.version)

-- A round that does not return leaves the lock's fields alone.
acquire_round_not_done :
    (lk lk' : Lock) (w w' : World) → acquire_round lk w ≡ some (w', lk', false) → lk' ≡ lk
unfolding acquire_round
acquire_round_not_done lk lk' w w' h =
    let ((w1, r), got, done) =
      >>=-eq-some (ck_get w lk.lock_name) (λ p. after_get lk p.0 p.1 p.1.err) h in
    after_get_not_done lk lk' w1 w' r r.err done

-- What the server holds once it has served the last call of an Acquire that returns.
acquire_served-Held :
    (fuel : ℕ) (lk lk' : Lock) (w w' : World)
    → lk.client_id ≢ ""
    → acquire fuel lk w ≡ some (w', lk')
    → Held w' lk lk'
unfolding acquire
acquire_served-Held zero lk lk' w w' ne h = absurd (ground arith)
acquire_served-Held (suc fuel) lk lk' w w' ne h =
    let ((w1, lk1, returned), first, done) =
      >>=-eq-some (acquire_round lk w) (λ p. next p.0 p.1 p.2) h in
    by_result (λ w1 later. acquire_served-Held fuel lk lk' w1 w' ne later) w1 lk1 returned first
      done
  where
    next : World → Lock → Bool → Option (World × Lock)
    next w1 lk1 returned =
        let again = acquire fuel lk1 w1 in if returned then some (w1, lk1) else again

    by_result :
        ((w1 : World) → acquire fuel lk w1 ≡ some (w', lk') → Held w' lk lk')
        → (w1 : World) (lk1 : Lock) (returned : Bool)
        → acquire_round lk w ≡ some (w1, lk1, returned)
        → next w1 lk1 returned ≡ some (w', lk')
        → Held w' lk lk'
    by_result later w1 lk1 true first done =
        let pair = eq_of_some done in
        acquire_round-Held lk lk' w w' ne
          (first ∙ ap (λ (p : World × Lock). some (p.0, p.1, true)) pair)
    by_result later w1 lk1 false first done = later w1 (
        subst (λ l. acquire fuel l w1 ≡ some (w', lk')) (acquire_round_not_done lk lk1 w w1 first)
          done)

-- When Acquire returns, over any network and whatever other clients put before each of its calls is
-- served, the server's entry for the lock was, once the last call was served, this client's name at
-- the version that the lock has noted for Release; and after any puts of other clients since, those
-- before the return included, it still is, unless one of them was to the lock's key and named that
-- version. The name is not empty.
pub acquire-Held :
    (fuel : ℕ) (lk lk' : Lock) (w w' : World) (later : List PutArgs)
    → lk.client_id ≢ ""
    → acquire fuel lk w ≡ some (w', lk')
    → Held w' lk lk'
      × (((puts w'.server later).kv lk.lock_name ≡ holds lk.client_id lk'.lock_version)
          ⊎ IsNamed lk.lock_name lk'.lock_version later)
acquire-Held fuel lk lk' w w' later ne h =
    let held = acquire_served-Held fuel lk lk' w w' ne h in
    (held, puts_kept w'.server later lk.lock_name lk.client_id lk'.lock_version held.entry_is)

-- A call that is served and answered at once.
abbrev pub clean : List Attempt
clean = record { before = []; delivery = delivered } ∷ []

-- A world in which the next two calls are clean.
abbrev pub quiet : KvServer → List (List Attempt) → World
quiet s rest = record { server = s; calls = clean ∷ clean ∷ rest }

free_returns :
    (fuel : ℕ) (lk : Lock) (s : KvServer) (rest : List (List Attempt))
    → lk.client_id ≢ "0"
    → (s.kv lk.lock_name ≡ none) ⊎ ((v : ℕ) × (s.kv lk.lock_name ≡ holds "0" v))
    → (w' : World) × (lk' : Lock) × (acquire (suc fuel) lk (quiet s rest) ≡ some (w', lk'))
unfolding acquire acquire_round after_get ck_get ck_put after_put clerk_get clerk_put get_verdict
    put_verdict get put call_put puts
free_returns fuel lk s rest ne (inl absent) = (
  record {
    server = write s lk.lock_name (record { value = lk.client_id; version = 1 });
    calls = rest;
  },
  record lk { lock_version = 1 },
  rw absent (rw absent (rw absent refl)),
)
free_returns fuel lk s rest ne (inr (v, free)) = (
  record {
    server = write s lk.lock_name (record { value = lk.client_id; version = u64 (v + 1) });
    calls = rest;
  },
  record lk { lock_version = u64 (v + 1) },
  rw free (
      rw free (
        rw free (
          rw free
            (rw not_own (rw (eq→== v v refl) (rw free (rw free (rw (eq→== v v refl) refl)))))))),
)
  where
    not_own : same_text "0" lk.client_id ≡ false
    not_own = ground (arith, eq_iff "0" lk.client_id)

-- A lock that was never taken, or that was freed, is acquired in one round when the network answers
-- at once and no other client comes between: Acquire returns, and the server's entry for the lock is
-- then the client's name, at the version that the lock has noted. The client's name is neither empty
-- nor "0".
pub acquire_free :
    (fuel : ℕ) (lk : Lock) (s : KvServer) (rest : List (List Attempt))
    → lk.client_id ≢ ""
    → lk.client_id ≢ "0"
    → (s.kv lk.lock_name ≡ none) ⊎ ((v : ℕ) × (s.kv lk.lock_name ≡ holds "0" v))
    → (w' : World) × (lk' : Lock) × (acquire (suc fuel) lk (quiet s rest) ≡ some (w', lk'))
      × Held w' lk lk'
acquire_free fuel lk s rest named ne free =
    let (w', lk', done) = free_returns fuel lk s rest ne free in
    (w', lk', done, acquire_served-Held (suc fuel) lk lk' (quiet s rest) w' named done)
