-- ===== src/Raft/Matching/Invariant.antt =====
-- What holds of every system that the peers can reach: all logs and all requests are linked by what
-- the leaders made, and a leader makes no second entry at an index in its term.
use distributed_systems_mit.Base.{
  ℕ, ◌/◌, ◌<◌, ◌≡◌, ◌≢◌, refl, sym, ap, subst, ◌∙◌, ◌⊎◌, inl, inr, Option, none, some, get_elem?,
  true, false, ◌==◌, ltb, arith, Bool-cases, ==→eq, ==→ne, eq→==, ltb→lt, ltb→le, Option-cases,
}
use distributed_systems_mit.Raft.Log.{len}
use distributed_systems_mit.Raft.Rpc.{AppendEntriesArgs}
use distributed_systems_mit.Raft.Server.{candidate, leader, Gob, Raft}
use distributed_systems_mit.Raft.Cluster.{update, Cluster}
use distributed_systems_mit.Raft.Cluster.Tally.{tally, Grows, tally-Grows, tally_disjoint}
use distributed_systems_mit.Raft.Cluster.Invariant.{Inv}
use distributed_systems_mit.Raft.Matching.{System}
use distributed_systems_mit.Raft.Matching.Chain.{Made, Linked, as_log}
use distributed_systems_mit.Raft.Matching.Links.{Linked-more}
use distributed_systems_mit.Raft.Matching.Stands.{Stands}

pub update_self {ℓ} : {A : Type ℓ} (f : ℕ → A) (i : ℕ) (a : A) → update f i a i ≡ a
update_self f i a = rw (eq→== i i refl) refl

module _ {C : Type 0} where
  -- The maker of an entry has gone on to a later term, or is in that term, no longer a candidate, and
  -- has the index in its log while it leads.
  abbrev pub Still : Raft C → ℕ → ℕ → Type 0
  Still rf t k =
      (t < rf.current_term)
      ⊎ ((t ≡ rf.current_term) × (rf.role ≢ candidate) × (rf.role ≡ leader → k < len rf.log))

  pub Still-Stands : (rf rf' : Raft C) (t k : ℕ) → Stands rf rf' → Still rf t k → Still rf' t k
  Still-Stands rf rf' t k s (inl past) = inl (omega (arith, s.grows))
  Still-Stands rf rf' t k s (inr (at, not_candidate, held)) =
      elim (Bool-cases (ltb rf.current_term rf'.current_term)) [
        | inl later ↦ inl (omega (arith, at, ltb→lt rf.current_term rf'.current_term later))
        | inr now ↦
            let same : rf'.current_term ≡ rf.current_term =
              omega (arith, ltb→le rf.current_term rf'.current_term now, s.grows) in
            inr (
              at ∙ sym same,
              λ c. not_candidate (s.candidate_before same c),
              λ l. elim (s.leader_before same l) [
                | inl (led, more) ↦ omega (arith, held led, more.longer)
                | inr (was, _) ↦ absurd (not_candidate was)
              ],
            )
      ]

module _ {C : Type 0} (gob : Gob C) (n : ℕ) where
  -- The leader of a term that made an entry, and the majority that elected it.
  pub record Maker (c : Cluster C) (t k : ℕ) : Type 0 where
    pub who : ℕ
    pub who_in : who < n
    pub elected : n / 2 < tally c.votes t who n
    pub still : Still (c.peer who) t k

  pub record Traced (s : System C) : Type 0 where
    pub logs : (i : ℕ) → i < n → Linked s.made (s.cluster.peer i).log
    pub sent :
        (k : ℕ) (args : AppendEntriesArgs C)
        → get_elem? s.requests k ≡ some args
        → Linked s.made (as_log args)
    pub makers : (t k : ℕ) (x : Option C × Option ℕ) → s.made t k ≡ some x → Maker s.cluster t k

  abbrev pub More : Made C → Made C → Type 0
  More made made' = (t k : ℕ) (x : Option C × Option ℕ) → made t k ≡ some x → made' t k ≡ some x

  -- One peer's move keeps the invariant, if its log is linked by what is made then, it goes on within
  -- its term, no vote is taken back, and what is new was made by an elected leader.
  pub moved-Traced :
      (s s' : System C) (i : ℕ) (rf : Raft C)
      → Traced s
      → i < n
      → s'.cluster.peer ≡ update s.cluster.peer i rf
      → Grows s.cluster.votes s'.cluster.votes
      → More s.made s'.made
      → Linked s'.made rf.log
      → Stands (s.cluster.peer i) rf
      → ((k : ℕ) (args : AppendEntriesArgs C)
          → get_elem? s'.requests k ≡ some args
          → Linked s'.made (as_log args))
      → ((t k : ℕ) (x : Option C × Option ℕ)
          → s'.made t k ≡ some x
          → (s.made t k ≡ some x) ⊎ Maker s'.cluster t k)
      → Traced s'
  moved-Traced s s' i rf inv here peers grows more linked stands sent new = record {
    logs = λ j h. elim (Bool-cases (j == i)) [
      | inl own ↦ subst (λ (r : Raft C). Linked s'.made r.log) (sym (own_state j own)) linked
      | inr ne ↦
          subst (λ (r : Raft C). Linked s'.made r.log) (sym (other_state j ne))
            (Linked-more s.made s'.made (s.cluster.peer j).log more (inv.logs j h))
    ];
    sent = sent;
    makers = λ t k x h. elim (new t k x h) [
      | inr made_now ↦ made_now
      | inl old ↦
          let m = inv.makers t k x old in
          record {
            who = m.who;
            who_in = m.who_in;
            elected =
                omega
                  (arith, m.elected, tally-Grows s.cluster.votes s'.cluster.votes t m.who n grows);
            still = elim (Bool-cases (m.who == i)) [
              | inl own ↦
                  subst (λ (r : Raft C). Still r t k) (sym (own_state m.who own))
                    (Still-Stands (s.cluster.peer i) rf t k stands
                      (subst (λ j. Still (s.cluster.peer j) t k) (==→eq m.who i own) m.still))
              | inr ne ↦ subst (λ (r : Raft C). Still r t k) (sym (other_state m.who ne)) m.still
            ];
          }
    ];
  }
    where
      own_state : (j : ℕ) → (j == i) ≡ true → s'.cluster.peer j ≡ rf
      own_state j own = ap (λ (f : ℕ → Raft C). f j) peers ∙ rw own refl

      other_state : (j : ℕ) → (j == i) ≡ false → s'.cluster.peer j ≡ s.cluster.peer j
      other_state j ne = ap (λ (f : ℕ → Raft C). f j) peers ∙ rw ne refl

  -- Where a leader puts its next entry, nothing was made in its term.
  pub made_free :
      (s : System C) (i : ℕ)
      → Traced s
      → Inv gob n s.cluster
      → i < n
      → (s.cluster.peer i).role ≡ leader
      → s.made (s.cluster.peer i).current_term (len (s.cluster.peer i).log) ≡ none
  made_free s i inv c here leads = elim (Option-cases (s.made t k)) [
    | inl free ↦ free
    | inr (x, taken) ↦
        let m = inv.makers t k x taken in
        let mine = (c.peers i here).elected leads in
        elim (Bool-cases (i == m.who)) [
          | inr ne ↦ absurd (
              omega (
                arith,
                mine,
                m.elected,
                tally_disjoint s.cluster.votes t i m.who n (==→ne i m.who ne),
              ))
          | inl own ↦
              absurd (
                behind
                  (subst (λ j. Still (s.cluster.peer j) t k) (sym (==→eq i m.who own)) m.still))
        ]
  ]
    where
      t : ℕ
      t = (s.cluster.peer i).current_term

      k : ℕ
      k = len (s.cluster.peer i).log

      behind : Still (s.cluster.peer i) t k → ⊥
      behind (inl past) = omega arith
      behind (inr (_, _, held)) = omega (arith, held leads)
