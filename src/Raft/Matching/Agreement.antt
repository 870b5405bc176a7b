-- ===== src/Raft/Matching/Agreement.antt =====
-- Log matching: the moves keep the invariant, and two logs with an entry of one term at an index agree
-- up to there.
use distributed_systems_mit.Base.{
  ℕ, ◌≤◌, ◌<◌, ◌≡◌, refl, sym, ap, subst, ◌∙◌, inl, some, List, ◌∷◌, get_elem?, eq_of_some,
  none-ne-some, suc, zero,
}
use distributed_systems_mit.Raft.Log.{LogEntry, entry}
use distributed_systems_mit.Raft.Rpc.{AppendEntriesArgs}
use distributed_systems_mit.Raft.Server.{Gob}
use distributed_systems_mit.Raft.Replication.{append_request}
use distributed_systems_mit.Raft.Run.Durable.{first_boot_log}
use distributed_systems_mit.Raft.Cluster.Invariant.{Inv}
use distributed_systems_mit.Raft.Cluster.Leaders.{Reach-Inv}
use distributed_systems_mit.Raft.Matching.{
  System, moved, Move, apart, submit, send, receive, Opening, Runs, open_up, go_on,
}
use distributed_systems_mit.Raft.Matching.Chain.{Linked, Linked-Within, as_log}
use distributed_systems_mit.Raft.Matching.Links.{new_raft_log-Linked, Follows-Linked, Linked_agree}
use distributed_systems_mit.Raft.Matching.Stores.{append_entries-Takes, Takes-Linked}
use distributed_systems_mit.Raft.Matching.Sections.{append_entries-Stands}
use distributed_systems_mit.Raft.Matching.Moves.{Apart-Moved, Step-Grows, Runs-Reach}
use distributed_systems_mit.Raft.Matching.Invariant.{Traced, moved-Traced}
use distributed_systems_mit.Raft.Matching.Submits.{
  append_request-built, call_begin-built, submit-Traced,
}

module _ {C : Type 0} (gob : Gob C) (n : ℕ) where
  Opening-Traced : (s : System C) → Opening gob n s → Traced gob n s
  Opening-Traced s o = record {
    logs = λ i h.
        let (now, random, done) = o.peers_start.booted i h in
        subst (Linked s.made) (sym (first_boot_log gob n i now random (s.cluster.peer i) done))
          (new_raft_log-Linked s.made);
    sent = λ k args h. absurd (
        none-ne-some
          (sym (ap (λ (rs : List (AppendEntriesArgs C)). get_elem? rs k) o.no_requests) ∙ h));
    makers = λ t k x h. absurd (none-ne-some (sym (o.no_entries t k) ∙ h));
  }

  Move-Traced :
      (s s' : System C) → Move gob n s s' → Traced gob n s → Inv gob n s.cluster → Traced gob n s'
  Move-Traced s s' (apart d st none_new) inv c =
      let m = Apart-Moved gob n s.cluster d st none_new c (λ i h. (inv.logs i h).valid) in
      moved-Traced gob n s (record s { cluster = d }) m.who m.now inv m.who_in m.peers_are
        (Step-Grows gob n s.cluster d st c) (λ t k x h. h)
        (Linked-Within s.made (s.cluster.peer m.who).log m.now.log (inv.logs m.who m.who_in)
          m.holds.0)
        m.holds.1 inv.sent (λ t k x h. inl h)
  Move-Traced s s' (submit i command rf answer here done) inv c =
      submit-Traced gob n s i command rf answer inv c here done
  Move-Traced s s' (send i p sent_term args here built) inv c =
      let (_, request, _) =
        call_begin-built (s.cluster.peer i) (λ rf. append_request rf p) args sent_term built in
      let (next, _, _, f) = append_request-built (s.cluster.peer i) p args request in
      record {
        logs = inv.logs;
        sent = λ k a h.
            first_or_old s args
              (Follows-Linked s.made (s.cluster.peer i) next args (inv.logs i here) f) inv.sent k a
              h;
        makers = inv.makers;
      }
    where
      first_or_old :
          (s : System C) (new : AppendEntriesArgs C)
          → Linked s.made (as_log new)
          → ((k : ℕ) (args : AppendEntriesArgs C)
              → get_elem? s.requests k ≡ some args
              → Linked s.made (as_log args))
          → (k : ℕ) (args : AppendEntriesArgs C) → get_elem? (new ∷ s.requests) k ≡ some args
          → Linked s.made (as_log args)
      first_or_old s new first old zero args h =
          subst (λ (a : AppendEntriesArgs C). Linked s.made (as_log a)) (eq_of_some h) first
      first_or_old s new first old (suc k) args h = old k args h
  Move-Traced s s' (receive i k now args rf reply here at_k done) inv c =
      let linked = inv.logs i here in
      let sent = inv.sent k args at_k in
      moved-Traced gob n s (moved s i rf) i rf inv here refl (λ j t x h. h) (λ t k x h. h)
        (Takes-Linked args s.made reply (s.cluster.peer i) rf linked sent
          (append_entries-Takes gob s.made (s.cluster.peer i) rf args now reply linked sent done))
        (append_entries-Stands gob (s.cluster.peer i) rf args now reply done) inv.sent
        (λ t k x h. inl h)

  pub Runs-Traced : {s : System C} → Runs gob n s → Traced gob n s
  Runs-Traced {s} (open_up o) = Opening-Traced s o
  Runs-Traced (go_on {s} {s'} r m) =
      Move-Traced s s' m (Runs-Traced r) (Reach-Inv gob n (Runs-Reach gob n r))

  -- Log matching: in a prompt cluster of new peers whose append requests are those that its leaders
  -- built, whatever else happens, if the logs of two peers hold entries of one term at an index, then
  -- at every index up to there and above both snapshots they hold the same entry.
  pub log_matching :
      (s : System C) (i j k m : ℕ) (a b : LogEntry C)
      → Runs gob n s
      → i < n
      → j < n
      → entry (s.cluster.peer i).log k ≡ some a
      → entry (s.cluster.peer j).log k ≡ some b
      → a.term ≡ b.term
      → m ≤ k
      → (s.cluster.peer i).log.snap_index < m
      → (s.cluster.peer j).log.snap_index < m
      → entry (s.cluster.peer i).log m ≡ entry (s.cluster.peer j).log m
  log_matching s i j k m a b r hi hj at_a at_b same below low low' =
      let inv = Runs-Traced r in
      Linked_agree s.made (s.cluster.peer i).log (s.cluster.peer j).log k m a b (inv.logs i hi)
        (inv.logs j hj) at_a at_b same below low low'
