-- ===== src/Raft/Run/Total.antt =====
-- A peer never panics on the events from outside. The requests that it builds are not events here.
use distributed_systems_mit.Base.{
  ℕ, ◌≡◌, refl, sym, ◌∙◌, subst, Bool-cases, inl, inr, some, List, [], ◌∷◌, arith,
}
use distributed_systems_mit.Raft.Log.Bounds.{IsValid, append-IsValid}
use distributed_systems_mit.Raft.Rpc.{RequestVoteReply}
use distributed_systems_mit.Raft.Server.{leader, Gob, Raft, is_leader, start}
use distributed_systems_mit.Raft.Election.{start_election, vote_reply}
use distributed_systems_mit.Raft.Run.{
  Event, on_request_vote, on_append_entries, on_install_snapshot, on_election_timeout,
  on_vote_reply, on_append_reply, on_snapshot_reply, on_start, on_snapshot, on_commit, on_crash,
  step, run,
}
use distributed_systems_mit.Raft.Run.Durable.{IsDurable, make_lem, step-Effect, Effect-IsDurable}
use distributed_systems_mit.Raft.Run.Tables.{IsOutside, step-KeepsTables}
use distributed_systems_mit.Raft.Run.Replies.{HasTables, append_reply_total, snapshot_reply_total}
use distributed_systems_mit.Raft.Run.Answers.{
  request_vote_total, append_entries_total, install_snapshot_total,
}

abbrev pub AllOutside : {C : Type 0} → ℕ → List (Event C) → Type 0
AllOutside n [] = Unit {0}
AllOutside n (e ∷ es) = IsOutside n e × AllOutside n es

module _ {C : Type 0} (gob : Gob C) where
  vote_reply-log :
      (rf : Raft C) (votes term : ℕ) (reply : RequestVoteReply)
      → (vote_reply gob rf votes term reply).0.log ≡ rf.log
  unfolding vote_reply
  vote_reply-log rf votes term reply = ground arith

  start-IsValid :
      (rf : Raft C) (command : C) → IsValid rf.log → IsValid (start gob rf command).0.log
  unfolding start
  start-IsValid rf command v = elim (Bool-cases (is_leader rf.role)) [
    | inl leads ↦
        rw leads
          (append-IsValid rf.log (record { term = rf.current_term; command = some command } ∷ []) v)
    | inr other ↦ rw other v
  ]

  -- A peer of `n` is sound: its log is valid, its storage is in step, and if it leads it has tables
  -- for all peers.
  pub record IsSound (n : ℕ) (rf : Raft C) : Type 0 where
    pub peers_is : rf.peers ≡ n
    pub valid : IsValid rf.log
    pub durable : IsDurable gob rf
    pub tables : rf.role ≡ leader → HasTables rf

  step_total :
      (n : ℕ) (rf : Raft C) (e : Event C)
      → IsSound n rf
      → IsOutside n e
      → (rf' : Raft C) × (step gob rf e ≡ some rf') × IsValid rf'.log
  unfolding step
  step_total n rf (on_request_vote args now) s o =
      let (rf', reply, done, v) = request_vote_total gob rf args now s.valid in
      (rf', rw done refl, v)
  step_total n rf (on_append_entries args now) s o =
      let (rf', reply, done, v) = append_entries_total gob rf args now s.valid in
      (rf', rw done refl, v)
  step_total n rf (on_install_snapshot args now) s o =
      let (rf', reply, msgs, done, v) = install_snapshot_total gob rf args now s.valid in
      (rf', rw done refl, v)
  step_total n rf (on_election_timeout now random) s o =
      ((start_election gob rf now random).0, refl, unfold start_election in s.valid)
  step_total n rf (on_vote_reply votes term reply) s o = (
    (vote_reply gob rf votes term reply).0,
    refl,
    subst IsValid (sym (vote_reply-log rf votes term reply)) s.valid,
  )
  step_total n rf (on_append_reply p term args reply) s o =
      let (rf', done, same) =
        append_reply_total gob rf p term args reply s.valid s.tables (omega (arith, s.peers_is)) in
      (rf', done, subst IsValid (sym same) s.valid)
  step_total n rf (on_snapshot_reply p term args reply) s o =
      let (rf', done, same) =
        snapshot_reply_total gob rf p term args reply s.tables (omega (arith, s.peers_is)) in
      (rf', done, subst IsValid (sym same) s.valid)
  step_total n rf (on_start command) s o =
      ((start gob rf command).0, refl, start-IsValid rf command s.valid)
  step_total n rf (on_snapshot index bytes) s o = absurd o
  step_total n rf on_commit s o = absurd o
  step_total n rf (on_crash now random) s o =
      let (rf', done, same, _) = make_lem gob rf rf.peers rf.me now random s.durable in
      (rf', done, subst IsValid (sym same.same_log) s.valid)

  -- Whatever requests and replies a peer receives, from any of the peers, whatever commands it is
  -- given, and whenever its elections start or it crashes and restarts: if its log is valid, its
  -- storage in step and its tables there when it leads, it never panics, and all of this still holds
  -- at the end. Deliveries, the service's snapshots and the building of requests, which panics where
  -- a reply or a snapshot has left no entry before nextIndex, are not among the events.
  pub run_total :
      (n : ℕ) (rf : Raft C) (es : List (Event C))
      → IsSound n rf
      → AllOutside n es
      → (rf' : Raft C) × (run gob rf es ≡ some rf') × IsSound n rf'
  unfolding run
  run_total n rf [] s o = (rf, refl, s)
  run_total n rf (e ∷ es) s (o, os) =
      let (rf', done, v) = step_total n rf e s o in
      let (peers, tables) =
        step-KeepsTables gob rf rf' e (subst (λ m. IsOutside m e) (sym s.peers_is) o) done in
      let s' : IsSound n rf' = record {
        peers_is = peers ∙ s.peers_is;
        valid = v;
        durable = Effect-IsDurable gob rf rf' (step-Effect gob rf rf' e s.durable done) s.durable;
        tables = tables s.tables;
      } in
      let (rf'', rest, s'') = run_total n rf' es s' os in (rf'', rw done rest, s'')
