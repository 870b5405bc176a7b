-- ===== src/Raft/Cluster/Leaders.antt =====
-- Election safety: the steps of a prompt cluster keep the invariant, and no two peers lead in one
-- term.
use distributed_systems_mit.Base.{
  ℕ, ◌/◌, ◌<◌, ◌≡◌, refl, sym, ap, subst, ◌∙◌, inl, inr, some, ◌==◌, if◌then◌else◌, arith,
  Bool-cases, ==→eq, ==→ne, eq_of_some,
}
use distributed_systems_mit.Raft.Server.{leader, Gob}
use distributed_systems_mit.Raft.Run.Effects.{
  Effect, start_election-Effect, vote_reply-Effect, request_vote-Effect,
}
use distributed_systems_mit.Raft.Run.Durable.{step-Effect}
use distributed_systems_mit.Raft.Run.Roles.{step-Stays, request_vote-Stays}
use distributed_systems_mit.Raft.Cluster.{
  update, set_vote, Cluster, tallied, Step, other, serve, elect, count, Reach, start, later,
}
use distributed_systems_mit.Raft.Cluster.Tally.{tally, tally_disjoint}
use distributed_systems_mit.Raft.Cluster.Invariant.{Fits, Inv, Casts-Grows, moved-Inv}
use distributed_systems_mit.Raft.Cluster.Elections.{
  start_election_lem, vote_reply_cases, vote_reply_same, still_elected, granted-Casts, Start-Inv,
  new_election, new_election-Fits, vote_or_not, tallied-Fits, elected_now,
}

module _ {C : Type 0} (gob : Gob C) (n : ℕ) where
  step-Inv : (c d : Cluster C) → Step gob n c d → Inv gob n c → Inv gob n d
  step-Inv c d (other i e rf here is done) inv =
      let p = inv.peers i here in
      let (m, ps, stays) = step-Stays gob (c.peer i) rf e is done in
      moved-Inv gob n c i rf c.votes c.elections inv here (inl refl)
        (step-Effect gob (c.peer i) rf e p.durable done) (m, ps)
        (still_elected gob n c.votes c.votes i (c.peer i) rf p (λ j t x h. h) stays)
        (λ k el h. inl h)
  step-Inv c d (serve i args now rf reply here done) inv =
      let p = inv.peers i here in
      let (m, ps, stays) = request_vote-Stays gob (c.peer i) rf args now reply done in
      let e = request_vote-Effect gob (c.peer i) rf args now reply done in
      let votes =
        if reply.vote_granted then set_vote c.votes i reply.term args.candidate_id else c.votes in
      let v = granted-Casts gob n c.votes i args (c.peer i) rf now reply done in
      moved-Inv gob n c i rf votes c.elections inv here v e (m, ps)
        (still_elected gob n c.votes votes i (c.peer i) rf p
          (Casts-Grows gob n c.votes votes i (c.peer i) rf p e.1 v) stays)
        (λ k el h. inl h)
  step-Inv c d (elect i now random k votes rf here free done) inv =
      let p = inv.peers i here in
      let (one, voted, role, m, ps) = start_election_lem gob (c.peer i) rf now random votes done in
      let e =
        subst (Effect gob (c.peer i)) (ap (λ r. r.0) done)
          (start_election-Effect gob (c.peer i) now random) in
      moved-Inv gob n c i rf (set_vote c.votes i rf.current_term i)
        (update c.elections k (some (new_election gob n i rf.current_term votes))) inv here
        (inr (i, refl, voted ∙ ap some p.me_is)) e (m, ps) (λ l. absurd (ground arith))
        (λ j el h. elim (Bool-cases (j == k)) [
          | inr ne ↦ inl (ground arith)
          | inl own ↦ inr (
              subst (Fits n (set_vote c.votes i rf.current_term i)) (eq_of_some (rw own at h))
                (new_election-Fits gob n c.votes i rf.current_term votes here one))
        ])
  step-Inv c d (count k p votes el reply rf here at_k new granted done) inv =
      let f = inv.fits k el at_k in
      let i = el.candidate in
      let p' = inv.peers i f.candidate_in in
      let cases = vote_reply_cases gob (c.peer i) rf el.votes votes el.term reply done in
      let new_fits =
        tallied-Fits gob n c.votes el p votes here new f
          (vote_or_not gob n c p votes el reply rf granted cases) in
      moved-Inv gob n c i rf c.votes (update c.elections k (some (tallied el p votes))) inv
        f.candidate_in (inl refl)
        (subst (Effect gob (c.peer i)) (ap (λ r. r.0) done)
          (vote_reply-Effect gob (c.peer i) el.votes el.term reply))
        (vote_reply_same gob (c.peer i) rf el.votes votes el.term reply done)
        (elected_now gob n c p votes el reply rf p' new_fits cases)
        (λ j e h. elim (Bool-cases (j == k)) [
          | inr ne ↦ inl (ground arith)
          | inl own ↦ inr (subst (Fits n c.votes) (eq_of_some (rw own at h)) new_fits)
        ])

  pub Reach-Inv : {c : Cluster C} → Reach gob n c → Inv gob n c
  Reach-Inv {c} (start s) = Start-Inv gob n c s
  Reach-Inv (later {c} {d} r st) = step-Inv c d st (Reach-Inv r)

  -- Election safety: in a prompt cluster of new peers, whatever messages are lost, repeated or
  -- reordered, whatever else the peers do, and however often they crash and restart, two peers that
  -- lead in the same term are one.
  pub one_leader_per_term :
      (c : Cluster C) (i j : ℕ)
      → Reach gob n c
      → i < n
      → j < n
      → (c.peer i).role ≡ leader
      → (c.peer j).role ≡ leader
      → (c.peer i).current_term ≡ (c.peer j).current_term
      → i ≡ j
  one_leader_per_term c i j r hi hj li lj same =
      let inv = Reach-Inv r in
      let t = (c.peer i).current_term in
      elim (Bool-cases (i == j)) [
        | inl own ↦ ==→eq i j own
        | inr ne ↦
            let mine = (inv.peers i hi).elected li in
            let theirs : n / 2 < tally c.votes t j n =
              subst (λ t. n / 2 < tally c.votes t j n) (sym same) ((inv.peers j hj).elected lj) in
            absurd (omega (arith, mine, theirs, tally_disjoint c.votes t i j n (==→ne i j ne)))
      ]
