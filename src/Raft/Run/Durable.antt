-- ===== src/Raft/Run/Durable.antt =====
-- What a crash can lose: nothing of the term, the vote and the log.
use distributed_systems_mit.Base.{
  ℕ, ◌+◌, ◌≡◌, ◌≢◌, refl, sym, ap, subst, eq_of_some, ◌∙◌, inl, inr, false, none, some, List, [],
  ◌∷◌, arith, >>=-eq-some, ltb, if◌then◌else◌,
}
use distributed_systems_mit.Persister.{read_raft_state, Bytes, Persister, make_persister}
use distributed_systems_mit.Raft.Log.{new_raft_log, restore_log}
use distributed_systems_mit.Raft.Server.{
  follower, Gob, Raft, is_empty, encode_raft_state, make, read_persist, persist,
}
use distributed_systems_mit.Raft.Handlers.{request_vote, append_entries, handle_install_snapshot}
use distributed_systems_mit.Raft.Replication.{apply_command}
use distributed_systems_mit.Raft.Run.{
  Event, on_request_vote, on_append_entries, on_install_snapshot, on_election_timeout,
  on_vote_reply, on_append_reply, on_snapshot_reply, on_start, on_snapshot, on_commit, on_crash,
  step, run,
}
use distributed_systems_mit.Raft.Run.Effects.{
  Effect, KeepsVote, KeepsVote-trans, request_vote-Effect, append_entries-Effect,
  handle_install_snapshot-Effect, snapshot-Effect, start-Effect, start_election-Effect,
  vote_reply-Effect, append_reply-Effect, snapshot_reply-Effect, apply_command-Effect,
}

module _ {C : Type 0} (gob : Gob C) where
  -- The storage holds the durable values, or nothing was ever saved and they are the initial ones.
  pub data IsDurable (rf : Raft C) : Type 0 where
    synced : rf.persister.raftstate ≡ encode_raft_state gob rf → IsDurable rf
    blank :
        rf.persister.raftstate ≡ []
        → rf.current_term ≡ 0
        → rf.voted_for ≡ none
        → rf.log ≡ new_raft_log
        → IsDurable rf

  -- Two states agree on what must survive a crash.
  pub record SameDurable (rf rf' : Raft C) : Type 0 where
    pub same_term : rf'.current_term ≡ rf.current_term
    pub same_vote : rf'.voted_for ≡ rf.voted_for
    pub same_log : rf'.log ≡ rf.log

  pub Effect-IsDurable : (rf rf' : Raft C) → Effect gob rf rf' → IsDurable rf → IsDurable rf'
  unfolding encode_raft_state
  Effect-IsDurable rf rf' (inr s, votes) d = synced s
  Effect-IsDurable rf rf' (inl (t, v, l, p), votes) (synced s) = synced (ground arith)
  Effect-IsDurable rf rf' (inl (t, v, l, p), votes) (blank s t0 v0 l0) =
      blank (p ∙ s) (t ∙ t0) (v ∙ v0) (l ∙ l0)

  not_empty : (bs : Bytes) → bs ≢ [] → is_empty bs ≡ false
  not_empty [] h = absurd (h refl)
  not_empty (b ∷ bs) h = refl

  -- The state that `readPersist` makes of `s` when `rf` was saved.
  reread : Raft C → Raft C → Raft C
  reread s rf =
      let s' = record s {
        current_term = rf.current_term;
        voted_for = rf.voted_for;
        log = rf.log;
      } in
      if ltb 0 rf.log.snap_index
      then record s' { commit_index = rf.log.snap_index; last_applied = rf.log.snap_index }
      else s'

  -- Reading back what was written: the encoding is undone.
  read_persist-encode :
      (s rf : Raft C) → read_persist gob s (encode_raft_state gob rf) ≡ some (reread s rf)
  unfolding read_persist encode_raft_state reread restore_log
  read_persist-encode s rf =
      let l = rf.log in
      rw
        (
          not_empty (gob.encode rf.current_term rf.voted_for l.entries l.snap_index l.snap_term)
              (gob.encode_nonempty rf.current_term rf.voted_for l.entries l.snap_index l.snap_term),
          gob.decode-encode rf.current_term rf.voted_for l.entries l.snap_index l.snap_term,
        )
        refl

  reread-Same :
      (s rf : Raft C) → SameDurable rf (reread s rf) × ((reread s rf).persister ≡ s.persister)
  unfolding reread
  reread-Same s rf = ground arith

  -- Whatever a peer saves, `readPersist` reads back into any other: term, vote and log are the saved
  -- ones, and the commit index and the last applied index are the saved log's snapshot index, or
  -- those that the reader had if that is 0.
  pub read_persist-persist :
      (s rf : Raft C)
      → (s' : Raft C) × (read_persist gob s (read_raft_state (persist gob rf).persister) ≡ some s')
        × SameDurable rf s'
        × (s'.commit_index
            ≡ (if ltb 0 rf.log.snap_index then rf.log.snap_index else s.commit_index))
        × (s'.last_applied
            ≡ (if ltb 0 rf.log.snap_index then rf.log.snap_index else s.last_applied))
  unfolding persist reread read_raft_state
  read_persist-persist s rf =
      (reread s rf, read_persist-encode s rf, (reread-Same s rf).0, ground arith, ground arith)

  abbrev booted : ℕ → ℕ → Persister → ℕ → ℕ → Raft C
  booted peers me persister now random = record {
    me = me;
    peers = peers;
    persister = persister;
    commit = 0;
    current_term = 0;
    voted_for = none;
    role = follower;
    log = new_raft_log;
    commit_index = 0;
    last_applied = 0;
    next_index = [];
    match_index = [];
    last_reset = now;
    election_timeout = 300 + random;
  }

  make_saved :
      (rf : Raft C) (peers me now random : ℕ)
      → rf.persister.raftstate ≡ encode_raft_state gob rf
      → make gob peers me rf.persister now random
        ≡ some (reread (booted peers me rf.persister now random) rf)
  unfolding make
  make_saved rf peers me now random s =
      ap (read_persist gob (booted peers me rf.persister now random)) s
      ∙ read_persist-encode (booted peers me rf.persister now random) rf

  make_blank :
      (rf : Raft C) (peers me now random : ℕ)
      → rf.persister.raftstate ≡ []
      → make gob peers me rf.persister now random ≡ some (booted peers me rf.persister now random)
  unfolding make
  make_blank rf peers me now random s =
      ap (read_persist gob (booted peers me rf.persister now random)) s
      ∙ unfold read_persist in refl

  -- A restart from storage in step with a peer finds the peer's term, vote and log.
  pub make_lem :
      (rf : Raft C) (peers me now random : ℕ)
      → IsDurable rf
      → (rf' : Raft C) × (make gob peers me rf.persister now random ≡ some rf')
        × SameDurable rf rf'
        × (rf'.persister ≡ rf.persister)
  make_lem rf peers me now random (synced s) =
      let booted_now = booted peers me rf.persister now random in
      let (same, storage) = reread-Same booted_now rf in
      (reread booted_now rf, make_saved rf peers me now random s, same, storage)
  make_lem rf peers me now random (blank s t v l) = (
    booted peers me rf.persister now random,
    make_blank rf peers me now random s,
    record { same_term = sym t; same_vote = sym v; same_log = sym l },
    refl,
  )

  SameDurable-Effect :
      (rf rf' : Raft C) → SameDurable rf rf' → rf'.persister ≡ rf.persister → Effect gob rf rf'
  SameDurable-Effect rf rf' same storage = (
    inl (
      same.same_term,
      same.same_vote,
      same.same_log,
      ap (λ (p : Persister). p.raftstate) storage,
    ),
    inr (same.same_term, inr same.same_vote),
  )

  make-Effect :
      (rf rf' : Raft C) (now random : ℕ)
      → IsDurable rf
      → make gob rf.peers rf.me rf.persister now random ≡ some rf'
      → Effect gob rf rf'
  make-Effect rf rf' now random d h =
      let (r, done, same, storage) = make_lem rf rf.peers rf.me now random d in
      subst (Effect gob rf) (eq_of_some (sym done ∙ h)) (SameDurable-Effect rf r same storage)

  -- Every locked section, and every restart, keeps the durable values or saves all of them.
  pub step-Effect :
      (rf rf' : Raft C) (e : Event C) → IsDurable rf → step gob rf e ≡ some rf' → Effect gob rf rf'
  unfolding step
  step-Effect rf rf' (on_request_vote args now) d h =
      let (r, done, e) = >>=-eq-some (request_vote gob rf args now) (λ r. some r.0) h in
      subst (Effect gob rf) (eq_of_some e) (request_vote-Effect gob rf r.0 args now r.1 done)
  step-Effect rf rf' (on_append_entries args now) d h =
      let (r, done, e) = >>=-eq-some (append_entries gob rf args now) (λ r. some r.0) h in
      subst (Effect gob rf) (eq_of_some e) (append_entries-Effect gob rf r.0 args now r.1 done)
  step-Effect rf rf' (on_install_snapshot args now) d h =
      let (r, done, e) = >>=-eq-some (handle_install_snapshot gob rf args now) (λ r. some r.0) h in
      subst (Effect gob rf) (eq_of_some e)
        (handle_install_snapshot-Effect gob rf r.0 args now r.1 r.2 done)
  step-Effect rf rf' (on_election_timeout now random) d h =
      subst (Effect gob rf) (eq_of_some h) (start_election-Effect gob rf now random)
  step-Effect rf rf' (on_vote_reply votes sent_term reply) d h =
      subst (Effect gob rf) (eq_of_some h) (vote_reply-Effect gob rf votes sent_term reply)
  step-Effect rf rf' (on_append_reply p sent_term args reply) d h =
      append_reply-Effect gob rf rf' p sent_term args reply h
  step-Effect rf rf' (on_snapshot_reply p sent_term args reply) d h =
      snapshot_reply-Effect gob rf rf' p sent_term args reply h
  step-Effect rf rf' (on_start command) d h =
      subst (Effect gob rf) (eq_of_some h) (start-Effect gob rf command)
  step-Effect rf rf' (on_snapshot index bytes) d h = snapshot-Effect gob rf rf' index bytes h
  step-Effect rf rf' on_commit d h =
      let (r, done, e) = >>=-eq-some (apply_command rf) (λ r. some r.0) h in
      subst (Effect gob rf) (eq_of_some e) (apply_command-Effect gob rf r.0 r.1 done)
  step-Effect rf rf' (on_crash now random) d h = make-Effect rf rf' now random d h

  pub run-IsDurable :
      (rf rf' : Raft C) (es : List (Event C))
      → IsDurable rf
      → run gob rf es ≡ some rf'
      → IsDurable rf'
  unfolding run
  run-IsDurable rf rf' [] d h = subst IsDurable (eq_of_some h) d
  run-IsDurable rf rf' (e ∷ es) d h =
      let (s, done, rest) = >>=-eq-some (step gob rf e) (λ s. run gob s es) h in
      run-IsDurable s rf' es (Effect-IsDurable rf s (step-Effect rf s e d done) d) rest

  -- Over a whole life the term does not fall, and within a term a vote stays.
  pub run-KeepsVote :
      (rf rf' : Raft C) (es : List (Event C))
      → IsDurable rf
      → run gob rf es ≡ some rf'
      → KeepsVote gob rf rf'
  unfolding run
  run-KeepsVote rf rf' [] d h = subst (KeepsVote gob rf) (eq_of_some h) (inr (refl, inr refl))
  run-KeepsVote rf rf' (e ∷ es) d h =
      let (s, done, rest) = >>=-eq-some (step gob rf e) (λ s. run gob s es) h in
      let effect = step-Effect rf s e d done in
      KeepsVote-trans gob rf s rf' effect.1
        (run-KeepsVote s rf' es (Effect-IsDurable rf s effect d) rest)

  -- A peer started on empty storage is durable.
  pub first_boot :
      (peers me now random : ℕ)
      → (rf : Raft C) × (make gob peers me make_persister now random ≡ some rf) × IsDurable rf
  first_boot peers me now random =
      let rf : Raft C = booted peers me make_persister now random in
      (rf, make_blank rf peers me now random refl, blank refl refl refl refl)

  pub first_boot_log :
      (peers me now random : ℕ) (rf : Raft C)
      → make gob peers me make_persister now random ≡ some rf
      → rf.log ≡ new_raft_log
  first_boot_log peers me now random rf h =
      ap (λ (r : Raft C). r.log)
        (eq_of_some
          (sym h ∙ make_blank (booted peers me make_persister now random) peers me now random refl))

  -- Whatever happened to a peer since its first start, a restart from its storage succeeds, and
  -- finds the term, the vote and the log of the moment of the crash.
  pub crash_loses_nothing :
      (peers me now random now' random' : ℕ) (rf rf' : Raft C) (es : List (Event C))
      → make gob peers me make_persister now random ≡ some rf
      → run gob rf es ≡ some rf'
      → (rf'' : Raft C) × (step gob rf' (on_crash now' random') ≡ some rf'') × SameDurable rf' rf''
  unfolding step
  crash_loses_nothing peers me now random now' random' rf rf' es start h =
      let (r, done, d) = first_boot peers me now random in
      let d' = run-IsDurable rf rf' es (subst IsDurable (eq_of_some (sym done ∙ start)) d) h in
      let (rf'', restarted, same, _) = make_lem rf' rf'.peers rf'.me now' random' d' in
      (rf'', restarted, same)
