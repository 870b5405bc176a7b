-- ===== src/Raft/Matching/Moves.antt =====
-- Every move is a step of the cluster, and every step of the cluster is one peer's: how its log and
-- its role go on.
use distributed_systems_mit.Base.{
  ℕ, ◌<◌, ◌≡◌, refl, ap, subst, ◌∙◌, inr, some, eq_of_some, >>=-eq-some, if◌then◌else◌, Option,
}
use distributed_systems_mit.Raft.Log.Bounds.{IsValid}
use distributed_systems_mit.Raft.Server.{Gob, Raft}
use distributed_systems_mit.Raft.Server
use distributed_systems_mit.Raft.Handlers.{handle_install_snapshot}
use distributed_systems_mit.Raft.Replication.{apply_command}
use distributed_systems_mit.Raft.Run.{
  Event, on_request_vote, on_append_entries, on_install_snapshot, on_election_timeout,
  on_vote_reply, on_append_reply, on_snapshot_reply, on_start, on_snapshot, on_commit, on_crash,
  step,
}
use distributed_systems_mit.Raft.Run.Roles.{IsOther}
use distributed_systems_mit.Raft.Run.Effects.{Effect, request_vote-Effect, start_election-Effect}
use distributed_systems_mit.Raft.Run.Durable.{IsDurable}
use distributed_systems_mit.Raft.Cluster.{
  update, set_vote, Cluster, Step, other, serve, elect, count, Reach, start, later,
}
use distributed_systems_mit.Raft.Cluster.Tally.{Grows}
use distributed_systems_mit.Raft.Cluster.Invariant.{Inv, Casts-Grows}
use distributed_systems_mit.Raft.Cluster.Elections.{start_election_lem, granted-Casts}
use distributed_systems_mit.Raft.Matching.{
  System, BringsNone, Apart, apart, submit, send, receive, Runs, open_up, go_on,
}
use distributed_systems_mit.Raft.Matching.Stands.{Holds}
use distributed_systems_mit.Raft.Matching.Sections.{
  request_vote-Holds, start_election-Holds, vote_reply-Holds, install_snapshot-Holds,
  append_reply-Holds, snapshot_reply-Holds, apply_command-Holds,
}
use distributed_systems_mit.Raft.Matching.Calls.{snapshot-Holds, make-Holds}

module _ {C : Type 0} (gob : Gob C) where
  pub step-Holds :
      (rf rf' : Raft C) (e : Event C)
      → IsOther e
      → BringsNone e
      → IsValid rf.log
      → IsDurable gob rf
      → step gob rf e ≡ some rf'
      → Holds rf rf'
  unfolding step
  step-Holds rf rf' (on_request_vote args now) is none_new v d h = absurd is
  step-Holds rf rf' (on_append_entries args now) is none_new v d h = absurd none_new
  step-Holds rf rf' (on_install_snapshot args now) is none_new v d h =
      let (r, done, e) = >>=-eq-some (handle_install_snapshot gob rf args now) (λ r. some r.0) h in
      subst (Holds rf) (eq_of_some e) (install_snapshot-Holds gob rf r.0 args now r.1 r.2 v done)
  step-Holds rf rf' (on_election_timeout now random) is none_new v d h = absurd is
  step-Holds rf rf' (on_vote_reply votes sent_term reply) is none_new v d h = absurd is
  step-Holds rf rf' (on_append_reply p sent_term args reply) is none_new v d h =
      append_reply-Holds gob rf rf' p sent_term args reply v h
  step-Holds rf rf' (on_snapshot_reply p sent_term args reply) is none_new v d h =
      snapshot_reply-Holds gob rf rf' p sent_term args reply v h
  step-Holds rf rf' (on_start command) is none_new v d h = absurd none_new
  step-Holds rf rf' (on_snapshot index bytes) is none_new v d h =
      snapshot-Holds gob rf rf' index bytes v h
  step-Holds rf rf' on_commit is none_new v d h =
      let (r, done, e) = >>=-eq-some (apply_command rf) (λ r. some r.0) h in
      subst (Holds rf) (eq_of_some e) (apply_command-Holds gob rf r.0 r.1 v done)
  step-Holds rf rf' (on_crash now random) is none_new v d h = make-Holds gob rf rf' now random v d h

module _ {C : Type 0} (gob : Gob C) (n : ℕ) where
  pub record Moved (c d : Cluster C) : Type 0 where
    pub who : ℕ
    pub now : Raft C
    pub who_in : who < n
    pub peers_are : d.peer ≡ update c.peer who now
    pub holds : Holds (c.peer who) now

  pub Apart-Moved :
      (c d : Cluster C) (st : Step gob n c d)
      → Apart gob n st
      → Inv gob n c
      → ((i : ℕ) → i < n → IsValid (c.peer i).log)
      → Moved c d
  Apart-Moved c d (other i e rf here is done) none_new inv v = record {
    who = i;
    now = rf;
    who_in = here;
    peers_are = refl;
    holds = step-Holds gob (c.peer i) rf e is none_new (v i here) (inv.peers i here).durable done;
  }
  Apart-Moved c d (serve i args now rf reply here done) none_new inv v = record {
    who = i;
    now = rf;
    who_in = here;
    peers_are = refl;
    holds = request_vote-Holds gob (c.peer i) rf args now reply (v i here) done;
  }
  Apart-Moved c d (elect i now random k votes rf here free done) none_new inv v = record {
    who = i;
    now = rf;
    who_in = here;
    peers_are = refl;
    holds = start_election-Holds gob (c.peer i) rf now random votes (v i here) done;
  }
  Apart-Moved c d (count k p votes el reply rf here at_k new granted done) none_new inv v =
      let there = (inv.fits k el at_k).candidate_in in
      record {
        who = el.candidate;
        now = rf;
        who_in = there;
        peers_are = refl;
        holds =
            vote_reply-Holds gob (c.peer el.candidate) rf el.votes votes el.term reply
              (v el.candidate there) done;
      }

  -- No step takes a vote back.
  pub Step-Grows : (c d : Cluster C) → Step gob n c d → Inv gob n c → Grows c.votes d.votes
  Step-Grows c d (other i e rf here is done) inv = λ j t x h. h
  Step-Grows c d (serve i args now rf reply here done) inv =
      Casts-Grows gob n c.votes
        (if reply.vote_granted then set_vote c.votes i reply.term args.candidate_id else c.votes) i
        (c.peer i) rf (inv.peers i here)
        (request_vote-Effect gob (c.peer i) rf args now reply done).1
        (granted-Casts gob n c.votes i args (c.peer i) rf now reply done)
  Step-Grows c d (elect i now random k votes rf here free done) inv =
      let p = inv.peers i here in
      let (_, voted, _, _, _) = start_election_lem gob (c.peer i) rf now random votes done in
      let e =
        subst (Effect gob (c.peer i)) (ap (λ r. r.0) done)
          (start_election-Effect gob (c.peer i) now random) in
      Casts-Grows gob n c.votes (set_vote c.votes i rf.current_term i) i (c.peer i) rf p e.1
        (inr (i, refl, voted ∙ ap some p.me_is))
  Step-Grows c d (count k p votes el reply rf here at_k new granted done) inv = λ j t x h. h

  submit_step :
      (c : Cluster C) (i : ℕ) (command : C) (rf : Raft C)
      → i < n
      → (Server.start gob (c.peer i) command).0 ≡ rf
      → Step gob n c (record c { peer = update c.peer i rf })
  unfolding step
  submit_step c i command rf here done = other i (on_start command) rf here tt (ap some done)

  -- What the peers do with the messages, they do in the cluster.
  pub Runs-Reach : {s : System C} → Runs gob n s → Reach gob n s.cluster
  unfolding step
  Runs-Reach (open_up o) = start o.peers_start
  Runs-Reach (go_on r (apart d st none_new)) = later (Runs-Reach r) st
  Runs-Reach (go_on {s} r (submit i command rf answer here done)) =
      later (Runs-Reach r)
        (submit_step s.cluster i command rf here (ap (λ (r : Raft C × Option (ℕ × ℕ)). r.0) done))
  Runs-Reach (go_on r (send i p sent_term args here built)) = Runs-Reach r
  Runs-Reach (go_on {s} r (receive i k now args rf reply here at_k done)) =
      later (Runs-Reach r) (other i (on_append_entries args now) rf here tt (rw done refl))
