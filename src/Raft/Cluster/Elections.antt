-- ===== src/Raft/Cluster/Elections.antt =====
-- The steps of an election: what they count, and that the votes counted were cast.
use distributed_systems_mit.Base.{
  ℕ, suc, ◌/◌, ◌<◌, ◌≡◌, refl, sym, ap, subst, ◌∙◌, ◌⊎◌, inl, inr, true, false, some, ◌==◌,
  if◌then◌else◌, arith, Bool-cases, ==→eq, eq→==, ne→==, eq_of_some, none-ne-some,
}
use distributed_systems_mit.Persister.{make_persister}
use distributed_systems_mit.Raft.Rpc.{RequestVoteArgs, RequestVoteReply}
use distributed_systems_mit.Raft.Server.{leader, candidate, Gob, Raft}
use distributed_systems_mit.Raft.Handlers.{request_vote}
use distributed_systems_mit.Raft.Election.{start_election, vote_reply}
use distributed_systems_mit.Raft.Run.Durable.{first_boot, IsDurable}
use distributed_systems_mit.Raft.Run.Votes.{request_vote_granted}
use distributed_systems_mit.Raft.Run.Roles.{make_follower}
use distributed_systems_mit.Raft.Cluster.{update, set_vote, Election, Cluster, tallied, Start}
use distributed_systems_mit.Raft.Cluster.Tally.{
  Votes, tally, Grows, tally-Grows, total-le-tally, total-update, total_none,
}
use distributed_systems_mit.Raft.Cluster.Invariant.{Fits, PeerInv, Inv, Casts}

module _ {C : Type 0} (gob : Gob C) where
  pub start_election_lem :
      (rf rf' : Raft C) (now random votes : ℕ)
      → start_election gob rf now random ≡ (rf', votes)
      → (votes ≡ 1)
        × (rf'.voted_for ≡ some rf.me)
        × (rf'.role ≡ candidate)
        × (rf'.me ≡ rf.me)
        × (rf'.peers ≡ rf.peers)
  unfolding start_election
  start_election_lem rf rf' now random votes h =
      (ground arith, ground arith, ground arith, ground arith, ground arith)

  -- A reply either leaves the count alone, and makes no leader, or is a grant that is counted while
  -- the candidate is still in the request's term.
  pub vote_reply_cases :
      (rf rf' : Raft C) (votes votes' term : ℕ) (reply : RequestVoteReply)
      → vote_reply gob rf votes term reply ≡ (rf', votes')
      → ((votes' ≡ votes)
          × (rf'.role ≡ leader → (rf.role ≡ leader) × (rf'.current_term ≡ rf.current_term)))
        ⊎ ((votes' ≡ suc votes)
            × (reply.vote_granted ≡ true)
            × (rf'.current_term ≡ term)
            × (rf'.role ≡ leader → rf.peers / 2 < suc votes))
  unfolding vote_reply
  vote_reply_cases rf rf' votes votes' term reply h = elim (Bool-cases (votes' == votes)) [
    | inl same ↦ inl (==→eq votes' votes same, λ l. (ground arith, ground arith))
    | inr more ↦ inr (ground arith, ground arith, ground arith, λ l. ground arith)
  ]

  pub vote_reply_same :
      (rf rf' : Raft C) (votes votes' term : ℕ) (reply : RequestVoteReply)
      → vote_reply gob rf votes term reply ≡ (rf', votes')
      → (rf'.me ≡ rf.me) × (rf'.peers ≡ rf.peers)
  unfolding vote_reply
  vote_reply_same rf rf' votes votes' term reply h = (ground arith, ground arith)

module _ {C : Type 0} (gob : Gob C) (n : ℕ) where
  pub still_elected :
      (votes votes' : Votes) (i : ℕ) (rf rf' : Raft C)
      → PeerInv gob n votes i rf
      → Grows votes votes'
      → (rf'.role ≡ leader → (rf.role ≡ leader) × (rf'.current_term ≡ rf.current_term))
      → rf'.role ≡ leader
      → n / 2 < tally votes' rf'.current_term i n
  still_elected votes votes' i rf rf' p g stays l =
      let (led, same) = stays l in
      subst (λ t. n / 2 < tally votes' t i n) (sym same)
        (omega (arith, p.elected led, tally-Grows votes votes' rf.current_term i n g))

  pub granted-Casts :
      (votes : Votes) (i : ℕ) (args : RequestVoteArgs) (rf rf' : Raft C) (now : ℕ)
      (reply : RequestVoteReply)
      → request_vote gob rf args now ≡ some (rf', reply)
      → Casts gob n votes i rf'
          (if reply.vote_granted then set_vote votes i reply.term args.candidate_id else votes)
  granted-Casts votes i args rf rf' now reply h = elim (Bool-cases reply.vote_granted) [
    | inr refused ↦ inl (rw refused refl)
    | inl granted ↦
        let (voted, at_term, _) = request_vote_granted gob rf rf' args now reply h granted in
        inr (
          args.candidate_id,
          rw granted (ap (λ t. set_vote votes i t args.candidate_id) (sym at_term)),
          voted,
        )
  ]

  pub Start-Inv : (c : Cluster C) → Start gob n c → Inv gob n c
  Start-Inv c s = record {
    peers = λ i h.
        let (now, random, done) = s.booted i h in
        let (r, booted, d) = first_boot gob n i now random in
        let (m, ps, f) = make_follower gob (c.peer i) make_persister n i now random done in
        record {
          me_is = m;
          peers_is = ps;
          durable = subst (IsDurable gob) (eq_of_some (sym booted ∙ done)) d;
          past = λ t x v. absurd (none-ne-some (sym (s.no_votes i t) ∙ v));
          current = λ x v. absurd (none-ne-some (sym (s.no_votes i (c.peer i).current_term) ∙ v));
          elected = λ l. absurd (ground arith);
        };
    fits = λ k el h. absurd (none-ne-some (sym (s.no_elections k) ∙ h));
  }

  abbrev pub new_election : ℕ → ℕ → ℕ → Election
  new_election i term votes = record {
    candidate = i;
    term = term;
    votes = votes;
    counted = update (λ p. false) i true;
  }

  pub new_election-Fits :
      (votes : Votes) (i term m : ℕ)
      → i < n
      → m ≡ 1
      → Fits n (set_vote votes i term i) (new_election i term m)
  new_election-Fits votes i term m here one = record {
    candidate_in = here;
    votes_is = omega (arith, one, total-update (λ p. false) i n here refl, total_none n);
    backed = λ p h. ground arith;
  }

  -- What `vote_reply` did to an election.
  abbrev pub Counted : Cluster C → ℕ → Election → RequestVoteReply → Raft C → Type 0
  Counted c votes el reply rf =
      ((votes ≡ el.votes)
        × (rf.role ≡ leader
            → ((c.peer el.candidate).role ≡ leader)
              × (rf.current_term ≡ (c.peer el.candidate).current_term)))
      ⊎ ((votes ≡ suc el.votes)
          × (reply.vote_granted ≡ true)
          × (rf.current_term ≡ el.term)
          × (rf.role ≡ leader → (c.peer el.candidate).peers / 2 < suc el.votes))

  pub vote_or_not :
      (c : Cluster C) (p votes : ℕ) (el : Election) (reply : RequestVoteReply) (rf : Raft C)
      → (reply.vote_granted ≡ true → c.votes p el.term ≡ some el.candidate)
      → Counted c votes el reply rf
      → (votes ≡ el.votes) ⊎ ((votes ≡ suc el.votes) × (c.votes p el.term ≡ some el.candidate))
  vote_or_not c p votes el reply rf granted (inl (same, _)) = inl same
  vote_or_not c p votes el reply rf granted (inr (more, yes_vote, _, _)) =
      inr (more, granted yes_vote)

  pub tallied-Fits :
      (votes : Votes) (el : Election) (p m : ℕ)
      → p < n
      → el.counted p ≡ false
      → Fits n votes el
      → (m ≡ el.votes) ⊎ ((m ≡ suc el.votes) × (votes p el.term ≡ some el.candidate))
      → Fits n votes (tallied el p m)
  tallied-Fits votes el p m here new f (inl same) = record {
    candidate_in = f.candidate_in;
    votes_is = rw (eq→== m el.votes same) (same ∙ f.votes_is);
    backed = λ q h. f.backed q (rw (eq→== m el.votes same) at h);
  }
  tallied-Fits votes el p m here new f (inr (more, vote)) =
      let ne : (m == el.votes) ≡ false = ne→== m el.votes (omega arith) in
      record {
        candidate_in = f.candidate_in;
        votes_is = rw ne (omega (arith, more, f.votes_is, total-update el.counted p n here new));
        backed = λ q h. added q (rw ne at h);
      }
    where
      added : (q : ℕ) → update el.counted p true q ≡ true → votes q el.term ≡ some el.candidate
      added q h = elim (Bool-cases (q == p)) [
        | inl own ↦ ap (λ x. votes x el.term) (==→eq q p own) ∙ vote
        | inr ne ↦ f.backed q (rw ne at h)
      ]

  pub elected_now :
      (c : Cluster C) (p votes : ℕ) (el : Election) (reply : RequestVoteReply) (rf : Raft C)
      → PeerInv gob n c.votes el.candidate (c.peer el.candidate)
      → Fits n c.votes (tallied el p votes)
      → Counted c votes el reply rf
      → rf.role ≡ leader
      → n / 2 < tally c.votes rf.current_term el.candidate n
  elected_now c p votes el reply rf inv f (inl (same, stays)) l =
      still_elected c.votes c.votes el.candidate (c.peer el.candidate) rf inv (λ j t x h. h) stays l
  elected_now c p votes el reply rf inv f (inr (more, _, at_term, won)) l =
      subst (λ t. n / 2 < tally c.votes t el.candidate n) (sym at_term)
        (subst (λ m. m / 2 < tally c.votes el.term el.candidate n) inv.peers_is
          (omega (
            arith,
            won l,
            more,
            f.votes_is,
            total-le-tally (tallied el p votes).counted c.votes el.term el.candidate n f.backed,
          )))
