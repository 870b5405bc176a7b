-- ===== src/Raft/Matching/Stores.antt =====
-- What `AppendEntries` of src/raft1/handlers.go makes of linked logs: a log behind which a linked
-- request was stored is linked.
use distributed_systems_mit.Base.{
  ℕ, refl, >>=-eq-some, le→ltb, false, suc, ◌+◌, ◌-◌, ◌≤◌, ◌<◌, ◌≡◌, ◌≢◌, sym, ap, ◌∙◌, subst, ◌⊎◌,
  inl, inr, some, length, ltb, leb, ◌==◌, arith, Bool-cases, ltb→lt, ltb→le, leb→le, leb→lt,
  eq_of_some, ==→eq, ==→ne,
}
use distributed_systems_mit.Raft.Log.{LogEntry, RaftLog, dummy, len, entry}
use distributed_systems_mit.Raft.Log.Bounds.{IsValid, term_of, entry_total, snap-lt-len}
use distributed_systems_mit.Raft.Rpc.{AppendEntriesArgs, AppendEntriesReply}
use distributed_systems_mit.Raft.Conflict.{AppendConflict, is_conflict, check_append}
use distributed_systems_mit.Raft.Conflict.Check.{check_append_absent, check_append_mismatch}
use distributed_systems_mit.Raft.Server.{Gob, Raft}
use distributed_systems_mit.Raft.Handlers.{
  append_entries, answer_append, accept_entries, store_entries, catch_up,
}
use distributed_systems_mit.Raft.Handlers.Append.{
  Stored, append_entries_stale, following, following_lem,
}
use distributed_systems_mit.Raft.Handlers.Accept.{
  Accepted, append_entries-Accepted, append_entries_refused,
}
use distributed_systems_mit.Raft.Catchup.Rounds.{refusal-is_conflict}
use distributed_systems_mit.Raft.Matching.Chain.{
  Made, Linked, has_term, entry_range, as_log, as_log_first, as_log_later,
}

module _ {C : Type 0} where
  -- The request is refused and changes neither the log nor the commit index, or the peer is then in
  -- its term and has stored it behind the entry that it names.
  abbrev pub Takes : AppendEntriesArgs C → AppendEntriesReply → Raft C → Raft C → Type 0
  Takes args reply rf rf' =
      ((reply.success ≡ false)
        × (rf'.log ≡ rf.log)
        × (rf'.commit_index ≡ rf.commit_index)
        × (rf.current_term ≤ rf'.current_term))
      ⊎ ((rf'.current_term ≡ args.term)
          × (rf.log.snap_index ≤ args.prev_log_index)
          × (term_of (entry rf.log args.prev_log_index) ≡ some args.prev_log_term)
          × Accepted rf rf' args reply)

module _ {C : Type 0} (args : AppendEntriesArgs C) where
  -- An index above the request's first entry holds one of its entries.
  sent_at :
      (l' : RaftLog C) (n i : ℕ) {l : RaftLog C}
      → Stored l l' args.prev_log_index args.entries n
      → args.prev_log_index + n < i
      → i < args.prev_log_index + 1 + length args.entries
      → entry l' i ≡ entry (as_log args) i
  sent_at l' n i s low high =
      ap (entry l') at
      ∙ s.copied k (omega arith) (omega arith)
      ∙ sym (as_log_later args k)
      ∙ sym (ap (entry (as_log args)) at)
    where
      k : ℕ
      k = i - (args.prev_log_index + 1)

      at : i ≡ args.prev_log_index + 1 + k
      at = omega arith

  -- What the request says of the terms up to the first entry that is new.
  sent_term :
      (l l' : RaftLog C) (n i : ℕ)
      → term_of (entry l args.prev_log_index) ≡ some args.prev_log_term
      → Stored l l' args.prev_log_index args.entries n
      → args.prev_log_index ≤ i
      → i ≤ args.prev_log_index + n
      → term_of (entry l' i) ≡ term_of (entry (as_log args) i)
  sent_term l l' n i here s low high =
      ap term_of (s.prefix i high) ∙ elim (Bool-cases (i == args.prev_log_index)) [
        | inl first ↦
            let at = ==→eq i args.prev_log_index first in
            ap (λ i. term_of (entry l i)) at
            ∙ here
            ∙ sym (ap term_of (as_log_first args))
            ∙ sym (ap (λ i. term_of (entry (as_log args) i)) at)
        | inr other ↦
            let k = i - (args.prev_log_index + 1) in
            let at : i ≡ args.prev_log_index + 1 + k =
              omega (arith, ==→ne i args.prev_log_index other) in
            ap (λ i. term_of (entry l i)) at
            ∙ s.matched.agree k (omega (arith, ==→ne i args.prev_log_index other))
            ∙ sym (ap term_of (as_log_later args k))
            ∙ sym (ap (λ i. term_of (entry (as_log args) i)) at)
      ]

  pub Stored-Linked :
      (made : Made C) (l l' : RaftLog C) (n : ℕ)
      → Linked made l
      → Linked made (as_log args)
      → term_of (entry l args.prev_log_index) ≡ some args.prev_log_term
      → Stored l l' args.prev_log_index args.entries n
      → Linked made l'
  Stored-Linked made l l' n k sent here s = elim s.unchanged [
    | inr same ↦ subst (Linked made) (sym same) k
    | inl some_new ↦ record {
      valid = s.valid;
      chain = λ i d e at_d at_e. elim (Bool-cases (ltb i (args.prev_log_index + n))) [
        | inl old ↦
            let low = ltb→lt i (args.prev_log_index + n) old in
            k.chain i d e (sym (s.prefix i (omega arith)) ∙ at_d)
              (sym (s.prefix (suc i) (omega arith)) ∙ at_e)
        | inr new ↦
            let low = ltb→le i (args.prev_log_index + n) new in
            let (_, high) = entry_range l' (suc i) e at_e in
            let there =
              sym (sent_at l' n (suc i) s (omega arith) (omega (arith, s.ends some_new))) ∙ at_e in
            let (d', found, same) =
              has_term (entry (as_log args) i) d.term
                (before i d low (omega (arith, s.ends some_new)) at_d) in
            subst (λ t. made e.term (suc i) ≡ some (e.command, some t)) same
              (sent.chain i d' e found there)
      ];
      root = λ d h. k.root d (sym (s.prefix 0 (omega arith)) ∙ h);
    }
  ]
    where
      before :
          (i : ℕ) (d : LogEntry C)
          → args.prev_log_index + n ≤ i
          → i < args.prev_log_index + 1 + length args.entries
          → entry l' i ≡ some d
          → term_of (entry (as_log args) i) ≡ some d.term
      before i d low high at_d = elim (Bool-cases (i == args.prev_log_index + n)) [
        | inl first ↦
            let at = ==→eq i (args.prev_log_index + n) first in
            sym (sent_term l l' n i here s (omega arith) (omega arith)) ∙ ap term_of at_d
        | inr later ↦ ap term_of (
            sym (sent_at l' n i s (omega (arith, ==→ne i (args.prev_log_index + n) later)) high)
            ∙ at_d)
      ]

  pub Takes-Linked :
      (made : Made C) (reply : AppendEntriesReply) (rf rf' : Raft C)
      → Linked made rf.log
      → Linked made (as_log args)
      → Takes args reply rf rf'
      → Linked made rf'.log
  Takes-Linked made reply rf rf' k sent (inl (_, same, _, _)) = subst (Linked made) (sym same) k
  Takes-Linked made reply rf rf' k sent (inr (_, _, here, acc)) =
      Stored-Linked made rf.log rf'.log acc.same_count k sent here acc.stored

module _ {C : Type 0} (gob : Gob C) where
  answer_append_term :
      (rf rf' : Raft C) (args : AppendEntriesArgs C) (checked : ℕ × AppendConflict)
      (reply : AppendEntriesReply)
      → answer_append gob rf args checked ≡ some (rf', reply)
      → rf'.current_term ≡ rf.current_term
  unfolding answer_append accept_entries store_entries
  answer_append_term rf rf' args (i, conflict) reply h = ground arith

  pub append_entries_term :
      (rf rf' : Raft C) (args : AppendEntriesArgs C) (now : ℕ) (reply : AppendEntriesReply)
      → rf.current_term ≤ args.term
      → append_entries gob rf args now ≡ some (rf', reply)
      → rf'.current_term ≡ args.term
  unfolding append_entries catch_up
  append_entries_term rf rf' args now reply current h =
      let s : Raft C = following gob rf args.term now in
      let (checked, _, answered) =
        >>=-eq-some (check_append s.log args.prev_log_index args.prev_log_term args.entries)
          (answer_append gob s args) (rw (le→ltb args.term rf.current_term current) at h) in
      answer_append_term s rf' args checked reply answered
      ∙ (following_lem gob rf args.term now current).1

  Takes-absent :
      (rf rf' : Raft C) (args : AppendEntriesArgs C) (now : ℕ) (reply : AppendEntriesReply)
      → IsValid rf.log
      → rf.current_term ≤ args.term
      → (args.prev_log_index < rf.log.snap_index) ⊎ (len rf.log ≤ args.prev_log_index)
      → append_entries gob rf args now ≡ some (rf', reply)
      → Takes args reply rf rf'
  unfolding is_conflict
  Takes-absent rf rf' args now reply v current out h =
      let c : AppendConflict = record { x_len = len rf.log; x_term = 0; x_index = 0 } in
      let (s, done, log_is, commit_is, term_is) =
        append_entries_refused gob rf args now 0 c current
          (check_append_absent rf.log args.prev_log_index args.prev_log_term args.entries out)
          (ground (arith, snap-lt-len rf.log v)) in
      subst (λ (r : Raft C × AppendEntriesReply). Takes args r.1 rf r.0) (eq_of_some (sym done ∙ h))
        (inl (refl, log_is, commit_is, omega (arith, term_is)))

  Takes-mismatch :
      (rf rf' : Raft C) (args : AppendEntriesArgs C) (now : ℕ) (reply : AppendEntriesReply)
      (e : LogEntry C)
      → IsValid rf.log
      → rf.current_term ≤ args.term
      → rf.log.snap_index ≤ args.prev_log_index
      → args.prev_log_index < len rf.log
      → 0 < args.prev_log_index
      → entry rf.log args.prev_log_index ≡ some e
      → e.term ≢ args.prev_log_term
      → append_entries gob rf args now ≡ some (rf', reply)
      → Takes args reply rf rf'
  Takes-mismatch rf rf' args now reply e v current low high pos found ne h =
      let (x, verdict, _) =
        check_append_mismatch rf.log args.prev_log_index args.prev_log_term e.term args.entries low
          high (ap term_of found) ne in
      let c : AppendConflict = record { x_len = 0; x_term = e.term; x_index = x } in
      let (s, done, log_is, commit_is, term_is) =
        append_entries_refused gob rf args now 0 c current verdict (
          refusal-is_conflict rf.log args.prev_log_index args.prev_log_term args.entries c v low pos
            (λ q. ne (eq_of_some (sym (ap term_of found) ∙ q))) verdict) in
      subst (λ (r : Raft C × AppendEntriesReply). Takes args r.1 rf r.0) (eq_of_some (sym done ∙ h))
        (inl (refl, log_is, commit_is, omega (arith, term_is)))

  -- At index 0 a linked log and a linked request have no mismatch.
  root_agree :
      (made : Made C) (l : RaftLog C) (args : AppendEntriesArgs C) (e : LogEntry C)
      → Linked made l
      → Linked made (as_log args)
      → args.prev_log_index ≡ 0
      → entry l args.prev_log_index ≡ some e
      → e.term ≡ args.prev_log_term
  root_agree made l args e k sent at found =
      k.root e (sym (ap (entry l) at) ∙ found)
      ∙ sym (
          sent.root (dummy args.prev_log_term)
            (sym (ap (entry (as_log args)) at) ∙ as_log_first args))

  -- `AppendEntries` of a linked request leaves a linked log alone, or stores the request behind the
  -- entry that it names.
  pub append_entries-Takes :
      (made : Made C) (rf rf' : Raft C) (args : AppendEntriesArgs C) (now : ℕ)
      (reply : AppendEntriesReply)
      → Linked made rf.log
      → Linked made (as_log args)
      → append_entries gob rf args now ≡ some (rf', reply)
      → Takes args reply rf rf'
  append_entries-Takes made rf rf' args now reply k sent h =
      elim (Bool-cases (ltb args.term rf.current_term)) [
        | inl old ↦
            let stale =
              append_entries_stale gob rf args now (ltb→lt args.term rf.current_term old) in
            subst (λ (r : Raft C × AppendEntriesReply). Takes args r.1 rf r.0)
              (eq_of_some (sym stale ∙ h)) (inl (refl, refl, refl, omega arith))
        | inr new ↦ current (ltb→le args.term rf.current_term new)
      ]
    where
      here :
          (e : LogEntry C)
          → rf.current_term ≤ args.term
          → rf.log.snap_index ≤ args.prev_log_index
          → args.prev_log_index < len rf.log
          → entry rf.log args.prev_log_index ≡ some e
          → e.term ≡ args.prev_log_term
          → Takes args reply rf rf'
      here e now_or_later low high found same =
          let at_prev = ap term_of found ∙ ap some same in
          let (s, reply', done, acc) =
            append_entries-Accepted gob rf args now k.valid now_or_later low high at_prev in
          subst (λ (r : Raft C × AppendEntriesReply). Takes args r.1 rf r.0)
            (eq_of_some (sym done ∙ h))
            (inr (append_entries_term rf s args now reply' now_or_later done, low, at_prev, acc))

      held :
          rf.current_term ≤ args.term
          → rf.log.snap_index ≤ args.prev_log_index
          → args.prev_log_index < len rf.log
          → Takes args reply rf rf'
      held now_or_later low high =
          let (e, found) = entry_total rf.log args.prev_log_index low high in
          elim (Bool-cases (e.term == args.prev_log_term)) [
            | inl same ↦ here e now_or_later low high found (==→eq e.term args.prev_log_term same)
            | inr other ↦ elim (Bool-cases (args.prev_log_index == 0)) [
              | inl first ↦
                  here e now_or_later low high found
                    (root_agree made rf.log args e k sent (==→eq args.prev_log_index 0 first) found)
              | inr later ↦
                  Takes-mismatch rf rf' args now reply e k.valid now_or_later low high
                    (omega (arith, ==→ne args.prev_log_index 0 later)) found
                    (==→ne e.term args.prev_log_term other) h
            ]
          ]

      current : rf.current_term ≤ args.term → Takes args reply rf rf'
      current now_or_later = elim (Bool-cases (ltb args.prev_log_index rf.log.snap_index)) [
        | inl below ↦
            Takes-absent rf rf' args now reply k.valid now_or_later
              (inl (ltb→lt args.prev_log_index rf.log.snap_index below)) h
        | inr low ↦ elim (Bool-cases (leb (len rf.log) args.prev_log_index)) [
          | inl past ↦
              Takes-absent rf rf' args now reply k.valid now_or_later
                (inr (leb→le (len rf.log) args.prev_log_index past)) h
          | inr high ↦
              held now_or_later (ltb→le args.prev_log_index rf.log.snap_index low)
                (leb→lt (len rf.log) args.prev_log_index high)
        ]
      ]
