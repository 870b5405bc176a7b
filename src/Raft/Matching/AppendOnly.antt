-- ===== src/Raft/Matching/AppendOnly.antt =====
-- A leader only adds to its log (src/raft1): no locked section takes an entry from a leader that goes
-- on leading in its term, or changes one, but for those that a snapshot covers.
use distributed_systems_mit.Base.{◌≡◌, refl, subst, inl, inr, some, arith, eq_of_some, >>=-eq-some}
use distributed_systems_mit.Raft.Log.Bounds.{IsValid}
use distributed_systems_mit.Raft.Server.{leader, Gob, Raft, start}
use distributed_systems_mit.Raft.Handlers.{request_vote, append_entries}
use distributed_systems_mit.Raft.Election.{start_election, vote_reply}
use distributed_systems_mit.Raft.Run.{
  Event, on_request_vote, on_append_entries, on_install_snapshot, on_election_timeout,
  on_vote_reply, on_append_reply, on_snapshot_reply, on_start, on_snapshot, on_commit, on_crash,
  step,
}
use distributed_systems_mit.Raft.Run.Durable.{IsDurable}
use distributed_systems_mit.Raft.Matching.Stands.{Extends, Stands}
use distributed_systems_mit.Raft.Matching.Sections.{
  request_vote-Holds, start_election-Holds, vote_reply-Holds, append_entries-Stands,
}
use distributed_systems_mit.Raft.Matching.Calls.{start-Stands}
use distributed_systems_mit.Raft.Matching.Moves.{step-Holds}

module _ {C : Type 0} (gob : Gob C) where
  step-Stands :
      (rf rf' : Raft C) (e : Event C)
      → IsValid rf.log
      → IsDurable gob rf
      → step gob rf e ≡ some rf'
      → Stands rf rf'
  unfolding step
  step-Stands rf rf' (on_request_vote args now) v d h =
      let (r, done, e) = >>=-eq-some (request_vote gob rf args now) (λ r. some r.0) h in
      subst (Stands rf) (eq_of_some e) (request_vote-Holds gob rf r.0 args now r.1 v done).1
  step-Stands rf rf' (on_append_entries args now) v d h =
      let (r, done, e) = >>=-eq-some (append_entries gob rf args now) (λ r. some r.0) h in
      subst (Stands rf) (eq_of_some e) (append_entries-Stands gob rf r.0 args now r.1 done)
  step-Stands rf rf' (on_election_timeout now random) v d h =
      let r = start_election gob rf now random in
      subst (Stands rf) (eq_of_some h) (start_election-Holds gob rf r.0 now random r.1 v refl).1
  step-Stands rf rf' (on_vote_reply votes sent_term reply) v d h =
      let r = vote_reply gob rf votes sent_term reply in
      subst (Stands rf) (eq_of_some h)
        (vote_reply-Holds gob rf r.0 votes r.1 sent_term reply v refl).1
  step-Stands rf rf' (on_start command) v d h =
      let r = start gob rf command in
      subst (Stands rf) (eq_of_some h) (start-Stands gob rf r.0 command r.1 refl)
  step-Stands rf rf' (on_install_snapshot args now) v d h =
      (step-Holds gob rf rf' (on_install_snapshot args now) tt tt v d h).1
  step-Stands rf rf' (on_append_reply p sent_term args reply) v d h =
      (step-Holds gob rf rf' (on_append_reply p sent_term args reply) tt tt v d h).1
  step-Stands rf rf' (on_snapshot_reply p sent_term args reply) v d h =
      (step-Holds gob rf rf' (on_snapshot_reply p sent_term args reply) tt tt v d h).1
  step-Stands rf rf' (on_snapshot index bytes) v d h =
      (step-Holds gob rf rf' (on_snapshot index bytes) tt tt v d h).1
  step-Stands rf rf' on_commit v d h = (step-Holds gob rf rf' on_commit tt tt v d h).1
  step-Stands rf rf' (on_crash now random) v d h =
      (step-Holds gob rf rf' (on_crash now random) tt tt v d h).1

  -- Leader append-only: when a peer with a valid log that its storage keeps leads before and after a
  -- locked section, in one term, its log has not become shorter, and above the snapshot it still
  -- holds every entry that it held.
  pub leader_append_only :
      (rf rf' : Raft C) (e : Event C)
      → IsValid rf.log
      → IsDurable gob rf
      → step gob rf e ≡ some rf'
      → rf.role ≡ leader
      → rf'.role ≡ leader
      → rf'.current_term ≡ rf.current_term
      → Extends rf.log rf'.log
  leader_append_only rf rf' e v d h leads leads' same =
      elim ((step-Stands rf rf' e v d h).leader_before same leads') [
        | inl (_, kept) ↦ kept
        | inr (was, _) ↦ absurd (ground arith)
      ]
