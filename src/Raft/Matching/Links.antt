-- ===== src/Raft/Matching/Links.antt =====
-- New entries keep a log linked: those of a command, and those of a request (src/raft1/handlers.go).
-- Two linked logs agree below an entry of one term.
use distributed_systems_mit.Base.{
  ℕ, zero, suc, ◌+◌, ◌-◌, ◌≤◌, ◌<◌, ◌≡◌, refl, sym, ap, ◌∙◌, subst, inl, inr, Option, some, [], ◌∷◌,
  ltb, ◌==◌, arith, Bool-cases, ltb→lt, ltb→le, eq_of_some, ==→eq, ==→ne,
}
use distributed_systems_mit.Raft.Log.{
  LogEntry, RaftLog, new_raft_log, len, last_index, last_term, entry, append,
}
use distributed_systems_mit.Raft.Log.Bounds.{
  term_of, entry_total, last_index_lem, snap-lt-len, append-IsValid, len-append, entry-append_left,
  entry-append_right, new_raft_log-IsValid,
}
use distributed_systems_mit.Raft.Rpc.{AppendEntriesArgs}
use distributed_systems_mit.Raft.Server.{Raft}
use distributed_systems_mit.Raft.Replication.Requests.{Follows}
use distributed_systems_mit.Raft.Matching.Chain.{
  Made, Linked, has_term, entry_range, as_log, as_log-IsValid, as_log_first, as_log_later,
}

module _ {C : Type 0} where
  pub new_raft_log-Linked : (made : Made C) → Linked made (new_raft_log {C = C})
  unfolding new_raft_log len entry
  new_raft_log-Linked made = record {
    valid = new_raft_log-IsValid;
    chain = λ i d e at_d at_e.
        absurd (omega (arith, (entry_range (new_raft_log {C = C}) (suc i) e at_e).1));
    root = λ d h. ap (λ (e : LogEntry C). e.term) (sym (eq_of_some h));
  }

  pub Linked-more :
      (made made' : Made C) (l : RaftLog C)
      → ((t k : ℕ) (x : Option C × Option ℕ) → made t k ≡ some x → made' t k ≡ some x)
      → Linked made l
      → Linked made' l
  Linked-more made made' l more k = record {
    valid = k.valid;
    chain =
        λ i d e at_d at_e. more e.term (suc i) (e.command, some d.term) (k.chain i d e at_d at_e);
    root = k.root;
  }

  -- The leader's new entry is linked to the last one that it had.
  pub append-Linked :
      (made : Made C) (l : RaftLog C) (new : LogEntry C)
      → Linked made l
      → made new.term (len l) ≡ some (new.command, last_term l)
      → Linked made (append l (new ∷ []))
  unfolding last_term
  append-Linked made l new k is_made = record {
    valid = append-IsValid l (new ∷ []) k.valid;
    chain = λ i d e at_d at_e.
        let (_, below) = entry_range (append l (new ∷ [])) (suc i) e at_e in
        let i_in : i < len l = omega (arith, len-append l (new ∷ [])) in
        let at_d' = sym (entry-append_left l (new ∷ []) i i_in) ∙ at_d in
        elim (Bool-cases (ltb (suc i) (len l))) [
          | inl old ↦
              k.chain i d e at_d'
                (sym (entry-append_left l (new ∷ []) (suc i) (ltb→lt (suc i) (len l) old)) ∙ at_e)
          | inr last ↦
              let end : suc i ≡ len l = omega (arith, ltb→le (suc i) (len l) last) in
              let at : suc i ≡ len l + 0 = omega (arith, end) in
              let is : new ≡ e = eq_of_some (
                sym (entry-append_right l (new ∷ []) 0)
                ∙ sym (ap (entry (append l (new ∷ []))) at)
                ∙ at_e) in
              let here : i ≡ last_index l = omega (arith, last_index_lem l k.valid, end) in
              let lasts : last_term l ≡ some d.term = rw (sym (ap (entry l) here) ∙ at_d') refl in
              subst (λ (e : LogEntry C). made e.term (suc i) ≡ some (e.command, some d.term)) is
                (subst (λ t. made new.term (suc i) ≡ some (new.command, t)) lasts
                  (subst (λ j. made new.term j ≡ some (new.command, last_term l)) (sym end)
                    is_made))
        ];
    root = λ d h.
        k.root d
          (sym (entry-append_left l (new ∷ []) 0 (omega (arith, snap-lt-len l k.valid))) ∙ h);
  }

  -- A request is linked as the log that it was built from.
  pub Follows-Linked :
      (made : Made C) (rf : Raft C) (next : ℕ) (args : AppendEntriesArgs C)
      → Linked made rf.log
      → Follows rf next args
      → Linked made (as_log args)
  Follows-Linked made rf next args k f = record {
    valid = as_log-IsValid args;
    chain = λ i d e at_d at_e.
        let (low, _) = entry_range (as_log args) i d at_d in
        let (d', found, same) = has_term (entry rf.log i) d.term (before i d low at_d) in
        subst (λ t. made e.term (suc i) ≡ some (e.command, some t)) same
          (k.chain i d' e found (there i e low at_e));
    root = λ d h.
        let (low, _) = entry_range (as_log args) 0 d h in
        let (d', found, same) = has_term (entry rf.log 0) d.term (before 0 d low h) in
        sym same ∙ k.root d' found;
  }
    where
      there :
          (i : ℕ) (e : LogEntry C)
          → args.prev_log_index ≤ i
          → entry (as_log args) (suc i) ≡ some e
          → entry rf.log (suc i) ≡ some e
      there i e low h =
          let at : suc i ≡ args.prev_log_index + 1 + (i - args.prev_log_index) = omega arith in
          let at' : suc i ≡ next + (i - args.prev_log_index) = omega (arith, f.prev_is) in
          ap (entry rf.log) at'
          ∙ sym (f.entries_are (i - args.prev_log_index))
          ∙ sym (as_log_later args (i - args.prev_log_index))
          ∙ sym (ap (entry (as_log args)) at)
          ∙ h

      before :
          (i : ℕ) (d : LogEntry C)
          → args.prev_log_index ≤ i
          → entry (as_log args) i ≡ some d
          → term_of (entry rf.log i) ≡ some d.term
      before zero d low h =
          let at : 0 ≡ args.prev_log_index = omega arith in
          ap (λ i. term_of (entry rf.log i)) at
          ∙ sym f.prev_term_is
          ∙ ap term_of (sym (as_log_first args) ∙ sym (ap (entry (as_log args)) at) ∙ h)
      before (suc i) d low h = elim (Bool-cases (ltb args.prev_log_index (suc i))) [
        | inl above ↦
            ap term_of (there i d (omega (arith, ltb→lt args.prev_log_index (suc i) above)) h)
        | inr not_above ↦
            let at : suc i ≡ args.prev_log_index =
              omega (arith, ltb→le args.prev_log_index (suc i) not_above) in
            ap (λ i. term_of (entry rf.log i)) at
            ∙ sym f.prev_term_is
            ∙ ap term_of (sym (as_log_first args) ∙ sym (ap (entry (as_log args)) at) ∙ h)
      ]

  -- Two linked logs that hold entries of one term at an index hold the same entries above both
  -- snapshots up to there.
  pub Linked_agree :
      (made : Made C) (l l' : RaftLog C) (k m : ℕ) (a b : LogEntry C)
      → Linked made l
      → Linked made l'
      → entry l k ≡ some a
      → entry l' k ≡ some b
      → a.term ≡ b.term
      → m ≤ k
      → l.snap_index < m
      → l'.snap_index < m
      → entry l m ≡ entry l' m
  Linked_agree made l l' zero m a b lk lk' at_a at_b same below low low' = absurd (omega arith)
  Linked_agree made l l' (suc k) m a b lk lk' at_a at_b same below low low' =
      let (_, high) = entry_range l (suc k) a at_a in
      let (_, high') = entry_range l' (suc k) b at_b in
      let (c, at_c) = entry_total l k (omega arith) (omega arith) in
      let (d, at_d) = entry_total l' k (omega arith) (omega arith) in
      let mine : Option C × Option ℕ = (a.command, some c.term) in
      let theirs : Option C × Option ℕ = (b.command, some d.term) in
      let pair : mine ≡ theirs = eq_of_some (
        sym (lk.chain k c a at_c at_a)
        ∙ ap (λ t. made t (suc k)) same
        ∙ lk'.chain k d b at_d at_b) in
      elim (Bool-cases (m == suc k)) [
        | inl here ↦
            ap (entry l) (==→eq m (suc k) here)
            ∙ at_a
            ∙ ap some (same_entry a b same (ap (λ (x : Option C × Option ℕ). x.0) pair))
            ∙ sym at_b
            ∙ sym (ap (entry l') (==→eq m (suc k) here))
        | inr lower ↦
            Linked_agree made l l' k m c d lk lk' at_c at_d
              (eq_of_some (ap (λ (x : Option C × Option ℕ). x.1) pair))
              (omega (arith, ==→ne m (suc k) lower)) low low'
      ]
    where
      same_entry : (a b : LogEntry C) → a.term ≡ b.term → a.command ≡ b.command → a ≡ b
      same_entry a b t c = cc
