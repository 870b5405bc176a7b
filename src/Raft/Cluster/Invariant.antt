-- ===== src/Raft/Cluster/Invariant.antt =====
-- What holds of every cluster that the peers can reach.
use distributed_systems_mit.Base.{
  ℕ, ◌/◌, ◌≤◌, ◌<◌, ◌≡◌, ◌≢◌, sym, ap, subst, ◌∙◌, ◌⊎◌, inl, inr, true, Option, some, ◌==◌, arith,
  Bool-cases, ==→eq, ==→ne,
}
use distributed_systems_mit.Raft.Server.{leader, Gob, Raft}
use distributed_systems_mit.Raft.Run.Effects.{Effect, KeepsVote}
use distributed_systems_mit.Raft.Run.Durable.{IsDurable, Effect-IsDurable}
use distributed_systems_mit.Raft.Cluster.{update, set_vote, Election, Cluster}
use distributed_systems_mit.Raft.Cluster.Tally.{Votes, tally, total, Grows, tally-Grows}

-- An election has counted the votes of distinct peers that voted for its candidate in its term.
pub record Fits (n : ℕ) (votes : Votes) (el : Election) : Type 0 where
  pub candidate_in : el.candidate < n
  pub votes_is : el.votes ≡ total el.counted n
  pub backed : (p : ℕ) → el.counted p ≡ true → votes p el.term ≡ some el.candidate

Fits-Grows :
    (n : ℕ) (votes votes' : Votes) (el : Election)
    → Grows votes votes'
    → Fits n votes el
    → Fits n votes' el
Fits-Grows n votes votes' el g f = record {
  candidate_in = f.candidate_in;
  votes_is = f.votes_is;
  backed = λ p h. g p el.term el.candidate (f.backed p h);
}

module _ {C : Type 0} (gob : Gob C) (n : ℕ) where
  -- Peer `i` is `rf`: the votes that it cast are of terms up to its own, the one of its own term is
  -- its `voted_for`, and if it leads, a majority voted for it in its term.
  pub record PeerInv (votes : Votes) (i : ℕ) (rf : Raft C) : Type 0 where
    pub me_is : rf.me ≡ i
    pub peers_is : rf.peers ≡ n
    pub durable : IsDurable gob rf
    pub past : (t x : ℕ) → votes i t ≡ some x → t ≤ rf.current_term
    pub current : (x : ℕ) → votes i rf.current_term ≡ some x → rf.voted_for ≡ some x
    pub elected : rf.role ≡ leader → n / 2 < tally votes rf.current_term i n

  pub record Inv (c : Cluster C) : Type 0 where
    pub peers : (i : ℕ) → i < n → PeerInv c.votes i (c.peer i)
    pub fits : (k : ℕ) (el : Election) → c.elections k ≡ some el → Fits n c.votes el

  -- The votes after a step of peer `i` to `rf`: the same, or with the vote that it has now.
  abbrev pub Casts : Votes → ℕ → Raft C → Votes → Type 0
  Casts votes i rf votes' =
      (votes' ≡ votes)
      ⊎ ((x : ℕ) × (votes' ≡ set_vote votes i rf.current_term x) × (rf.voted_for ≡ some x))

  cast_other :
      (votes votes' : Votes) (i j t : ℕ) (rf : Raft C)
      → Casts votes i rf votes'
      → j ≢ i
      → votes' j t ≡ votes j t
  cast_other votes votes' i j t rf (inl same) ne = ap (λ (v : Votes). v j t) same
  cast_other votes votes' i j t rf (inr (x, is, voted)) ne =
      ap (λ (v : Votes). v j t) is ∙ ground arith

  cast_self :
      (votes votes' : Votes) (i t x : ℕ) (rf : Raft C)
      → Casts votes i rf votes'
      → votes' i t ≡ some x
      → (votes i t ≡ some x) ⊎ ((t ≡ rf.current_term) × (rf.voted_for ≡ some x))
  cast_self votes votes' i t x rf (inl same) h = inl (sym (ap (λ (v : Votes). v i t) same) ∙ h)
  cast_self votes votes' i t x rf (inr (y, is, voted)) h =
      let at : set_vote votes i rf.current_term y i t ≡ some x =
        sym (ap (λ (v : Votes). v i t) is) ∙ h in
      ground arith

  kept_current :
      (votes : Votes) (i x : ℕ) (rf rf' : Raft C)
      → PeerInv votes i rf
      → KeepsVote gob rf rf'
      → votes i rf'.current_term ≡ some x
      → rf'.voted_for ≡ some x
  kept_current votes i x rf rf' p (inl later) h =
      absurd (omega (arith, p.past rf'.current_term x h))
  kept_current votes i x rf rf' p (inr (same, kept)) h =
      ground (arith, p.current x (subst (λ t. votes i t ≡ some x) same h))

  -- A step casts no second vote.
  pub Casts-Grows :
      (votes votes' : Votes) (i : ℕ) (rf rf' : Raft C)
      → PeerInv votes i rf
      → KeepsVote gob rf rf'
      → Casts votes i rf' votes'
      → Grows votes votes'
  Casts-Grows votes votes' i rf rf' p k (inl same) j t x h = ap (λ (v : Votes). v j t) same ∙ h
  Casts-Grows votes votes' i rf rf' p k (inr (y, is, voted)) j t x h =
      ap (λ (v : Votes). v j t) is ∙ elim (Bool-cases (j == i)) [
        | inr ne ↦ ground arith
        | inl own ↦ elim (Bool-cases (t == rf'.current_term)) [
          | inr ne ↦ ground arith
          | inl now ↦
              let here : votes i rf'.current_term ≡ some x =
                sym (ap (λ j. votes j rf'.current_term) (==→eq j i own))
                ∙ sym (ap (votes j) (==→eq t rf'.current_term now))
                ∙ h in
              ground (arith, kept_current votes i x rf rf' p k here)
        ]
      ]

  PeerInv-other :
      (votes votes' : Votes) (i j : ℕ) (rf rf' : Raft C)
      → Casts votes i rf' votes'
      → Grows votes votes'
      → j ≢ i
      → PeerInv votes j rf
      → PeerInv votes' j rf
  PeerInv-other votes votes' i j rf rf' v g ne p = record {
    me_is = p.me_is;
    peers_is = p.peers_is;
    durable = p.durable;
    past = λ t x h. p.past t x (sym (cast_other votes votes' i j t rf' v ne) ∙ h);
    current = λ x h. p.current x (sym (cast_other votes votes' i j rf.current_term rf' v ne) ∙ h);
    elected = λ l. omega (arith, p.elected l, tally-Grows votes votes' rf.current_term j n g);
  }

  PeerInv-self :
      (votes votes' : Votes) (i : ℕ) (rf rf' : Raft C)
      → Casts votes i rf' votes'
      → Effect gob rf rf'
      → (rf'.me ≡ rf.me) × (rf'.peers ≡ rf.peers)
      → (rf'.role ≡ leader → n / 2 < tally votes' rf'.current_term i n)
      → PeerInv votes i rf
      → PeerInv votes' i rf'
  PeerInv-self votes votes' i rf rf' v e same l p = record {
    me_is = same.0 ∙ p.me_is;
    peers_is = same.1 ∙ p.peers_is;
    durable = Effect-IsDurable gob rf rf' e p.durable;
    past = λ t x h. elim (cast_self votes votes' i t x rf' v h) [
      | inl old ↦ ground (arith, p.past t x old)
      | inr (now, voted) ↦ omega (arith, now)
    ];
    current = λ x h. elim (cast_self votes votes' i rf'.current_term x rf' v h) [
      | inl old ↦ kept_current votes i x rf rf' p e.1 old
      | inr (now, voted) ↦ voted
    ];
    elected = l;
  }

  -- A step of one peer keeps the invariant, if it touches the durable values as all steps do, casts
  -- at most the vote that it holds, and leads only with a majority.
  pub moved-Inv :
      (c : Cluster C) (i : ℕ) (rf : Raft C) (votes : Votes) (elections : ℕ → Option Election)
      → Inv c
      → i < n
      → Casts c.votes i rf votes
      → Effect gob (c.peer i) rf
      → (rf.me ≡ (c.peer i).me) × (rf.peers ≡ (c.peer i).peers)
      → (rf.role ≡ leader → n / 2 < tally votes rf.current_term i n)
      → ((k : ℕ) (el : Election)
          → elections k ≡ some el
          → (c.elections k ≡ some el) ⊎ Fits n votes el)
      → Inv (record { peer = update c.peer i rf; votes = votes; elections = elections })
  moved-Inv c i rf votes elections inv here v e same l fits =
      let g = Casts-Grows c.votes votes i (c.peer i) rf (inv.peers i here) e.1 v in
      record {
        peers = λ j h. elim (Bool-cases (j == i)) [
          | inl own ↦ rw own (
              subst (λ x. PeerInv votes x rf) (sym (==→eq j i own))
                (PeerInv-self c.votes votes i (c.peer i) rf v e same l (inv.peers i here)))
          | inr ne ↦
              rw ne
                (PeerInv-other c.votes votes i j (c.peer j) rf v g (==→ne j i ne) (inv.peers j h))
        ];
        fits = λ k el h. elim (fits k el h) [
          | inl old ↦ Fits-Grows n c.votes votes el g (inv.fits k el old)
          | inr new ↦ new
        ];
      }
