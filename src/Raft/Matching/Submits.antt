-- ===== src/Raft/Matching/Submits.antt =====
-- What a leader takes from the service (src/raft1/raft.go) is new, and what it sends
-- (src/raft1/replication.go) follows its log.
use distributed_systems_mit.Base.{
  ℕ, ◌/◌, ◌⊎◌, ◌-◌, ◌≤◌, ◌<◌, ◌≡◌, refl, sym, ap, subst, ◌∙◌, inl, inr, Option, none, some,
  get_elem?, ◌&&◌, ◌==◌, arith, Bool-cases, eq_of_some, none-ne-some, >>=-eq-some, if◌then◌else◌,
}
use distributed_systems_mit.Raft.Log.{LogEntry, len, entry, last_term}
use distributed_systems_mit.Raft.Log.Bounds.{len-append}
use distributed_systems_mit.Raft.Rpc.{AppendEntriesArgs}
use distributed_systems_mit.Raft.Server
use distributed_systems_mit.Raft.Server.{candidate, leader, Gob, Raft}
use distributed_systems_mit.Raft.Election.{call_begin}
use distributed_systems_mit.Raft.Replication.{append_request}
use distributed_systems_mit.Raft.Replication.Requests.{Follows, append_request-Follows}
use distributed_systems_mit.Raft.Cluster.Tally.{tally}
use distributed_systems_mit.Raft.Cluster.Invariant.{Inv}
use distributed_systems_mit.Raft.Matching.{System, moved, record_made}
use distributed_systems_mit.Raft.Matching.Chain.{Made, Linked, entry_range, as_log}
use distributed_systems_mit.Raft.Matching.Links.{Linked-more, append-Linked}
use distributed_systems_mit.Raft.Matching.Calls.{start_cases, start-Stands}
use distributed_systems_mit.Raft.Matching.Invariant.{
  update_self, Still, Maker, Traced, More, moved-Traced, made_free,
}

module _ {C : Type 0} where
  -- A request that was built follows the log.
  pub append_request-built :
      (rf : Raft C) (p : ℕ) (args : AppendEntriesArgs C)
      → append_request rf p ≡ some args
      → (next : ℕ) × (rf.log.snap_index < next) × (next ≤ len rf.log) × Follows rf next args
  unfolding append_request
  append_request-built rf p args h =
      let (next, at_p, rest) = >>=-eq-some (get_elem? rf.next_index p) _ h in
      let (prev, found, _) =
        >>=-eq-some (if next == 0 then none else entry rf.log (next - 1)) _ rest in
      let at : (0 < next) × (entry rf.log (next - 1) ≡ some prev) = (ground arith, ground arith) in
      let (low, high) = entry_range rf.log (next - 1) prev at.1 in
      let (args', done, f) =
        append_request-Follows rf p next at_p (omega (arith, at.0)) (omega (arith, at.0)) in
      (
        next,
        omega (arith, at.0),
        omega (arith, at.0),
        subst (Follows rf next) (eq_of_some (sym done ∙ h)) f,
      )

  pub call_begin-built :
      {A : Type 0} (rf : Raft C) (build : Raft C → Option A) (args : A) (term : ℕ)
      → call_begin rf leader build ≡ some (some (args, term))
      → (rf.role ≡ leader) × (build rf ≡ some args) × (term ≡ rf.current_term)
  unfolding call_begin
  call_begin-built rf build args term h = (ground arith, ground arith, ground arith)

  made_at :
      (made : Made C) (rf : Raft C) (command : C) (k t : ℕ)
      → record_made made rf command (some (k, t)) t k ≡ some (some command, last_term rf.log)
  made_at made rf command k t = ground arith

  made_before :
      (made : Made C) (rf : Raft C) (command : C) (index term t k : ℕ) (x : Option C × Option ℕ)
      → made term index ≡ none
      → made t k ≡ some x
      → record_made made rf command (some (index, term)) t k ≡ some x
  made_before made rf command index term t k x free h =
      elim (Bool-cases (t == term && k == index)) [
        | inr other ↦ rw other h
        | inl own ↦
            let at : (t ≡ term) × (k ≡ index) = (ground arith, ground arith) in
            absurd (
              none-ne-some
                (sym free ∙ sym (ap (made term) at.1) ∙ sym (ap (λ t. made t k) at.0) ∙ h))
      ]

  made_since :
      (made : Made C) (rf : Raft C) (command : C) (index term t k : ℕ) (x : Option C × Option ℕ)
      → record_made made rf command (some (index, term)) t k ≡ some x
      → (made t k ≡ some x) ⊎ ((t ≡ term) × (k ≡ index))
  made_since made rf command index term t k x h = elim (Bool-cases (t == term && k == index)) [
    | inr other ↦ inl (rw other at h)
    | inl own ↦ inr (ground arith, ground arith)
  ]

module _ {C : Type 0} (gob : Gob C) (n : ℕ) where
  -- What a leader takes from the service is new.
  record_made-More :
      (s : System C) (i : ℕ) (command : C) (rf : Raft C) (answer : Option (ℕ × ℕ))
      → Traced gob n s
      → Inv gob n s.cluster
      → i < n
      → Server.start gob (s.cluster.peer i) command ≡ (rf, answer)
      → More gob n s.made (record_made s.made (s.cluster.peer i) command answer)
  record_made-More s i command rf answer inv c here done t k x h =
      elim (start_cases gob (s.cluster.peer i) rf command answer done) [
        | inr (_, refused) ↦ rw refused h
        | inl (leads, _, _, _, taken) ↦ rw taken (
            made_before s.made (s.cluster.peer i) command (len (s.cluster.peer i).log)
              (s.cluster.peer i).current_term t k x (made_free gob n s i inv c here leads) h)
      ]

  submit-linked :
      (s : System C) (i : ℕ) (command : C) (rf : Raft C) (answer : Option (ℕ × ℕ))
      → Traced gob n s
      → Inv gob n s.cluster
      → i < n
      → Server.start gob (s.cluster.peer i) command ≡ (rf, answer)
      → Linked (record_made s.made (s.cluster.peer i) command answer) rf.log
  submit-linked s i command rf answer inv c here done =
      let old = s.cluster.peer i in
      let made' = record_made s.made old command answer in
      let linked =
        Linked-more s.made made' old.log (record_made-More s i command rf answer inv c here done)
          (inv.logs i here) in
      elim (start_cases gob old rf command answer done) [
        | inr (same, _) ↦ subst (λ (r : Raft C). Linked made' r.log) (sym same) linked
        | inl (_, _, _, log_is, taken) ↦
            let new : LogEntry C = record { term = old.current_term; command = some command } in
            subst (Linked made') (sym log_is) (
              append-Linked made' old.log new linked
                (rw taken (made_at s.made old command (len old.log) old.current_term)))
      ]

  submit-Maker :
      (s : System C) (i : ℕ) (command : C) (rf : Raft C) (answer : Option (ℕ × ℕ))
      → Inv gob n s.cluster
      → i < n
      → Server.start gob (s.cluster.peer i) command ≡ (rf, answer)
      → (t k : ℕ) (x : Option C × Option ℕ)
      → record_made s.made (s.cluster.peer i) command answer t k ≡ some x
      → (s.made t k ≡ some x) ⊎ Maker gob n (moved s i rf).cluster t k
  submit-Maker s i command rf answer c here done t k x h =
      let old = s.cluster.peer i in
      elim (start_cases gob old rf command answer done) [
        | inr (_, refused) ↦ inl (rw refused at h)
        | inl (leads, leads', term_is, log_is, taken) ↦
            elim (made_since s.made old command (len old.log) old.current_term t k x
              (rw taken at h)) [
                | inl before ↦ inl before
                | inr (at_t, at_k) ↦
                    let still : Still rf t k = inr (
                      at_t ∙ sym term_is,
                      λ is_candidate. absurd (ground arith),
                      λ l. omega (arith, at_k, ap len log_is, len-append old.log _),
                    ) in
                    inr (record {
                      who = i;
                      who_in = here;
                      elected =
                          subst (λ t. n / 2 < tally s.cluster.votes t i n) (sym at_t)
                            ((c.peers i here).elected leads);
                      still =
                          subst (λ (r : Raft C). Still r t k)
                            (sym (update_self s.cluster.peer i rf)) still;
                    })
              ]
      ]

  pub submit-Traced :
      (s : System C) (i : ℕ) (command : C) (rf : Raft C) (answer : Option (ℕ × ℕ))
      → Traced gob n s
      → Inv gob n s.cluster
      → i < n
      → Server.start gob (s.cluster.peer i) command ≡ (rf, answer)
      → Traced gob n
          (record (moved s i rf) { made = record_made s.made (s.cluster.peer i) command answer })
  submit-Traced s i command rf answer inv c here done =
      let made' = record_made s.made (s.cluster.peer i) command answer in
      let more = record_made-More s i command rf answer inv c here done in
      let stands = start-Stands gob (s.cluster.peer i) rf command answer done in
      moved-Traced gob n s (record (moved s i rf) { made = made' }) i rf inv here refl
        (λ j t x h. h) more (submit-linked s i command rf answer inv c here done) stands
        (λ k args h. Linked-more s.made made' (as_log args) more (inv.sent k args h))
        (submit-Maker s i command rf answer c here done)
