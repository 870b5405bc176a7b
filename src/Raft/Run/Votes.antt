-- ===== src/Raft/Run/Votes.antt =====
-- A vote is given once in a term.
use distributed_systems_mit.Base.{ℕ, ◌≡◌, ◌≤◌, true, some, List, arith}
use distributed_systems_mit.Raft.Rpc.{RequestVoteArgs, RequestVoteReply}
use distributed_systems_mit.Raft.Server.{Gob, Raft}
use distributed_systems_mit.Raft.Handlers.{request_vote}
use distributed_systems_mit.Raft.Run.{Event, run}
use distributed_systems_mit.Raft.Run.Effects.{request_vote-Effect}
use distributed_systems_mit.Raft.Run.Durable.{IsDurable, Effect-IsDurable, run-KeepsVote}

module _ {C : Type 0} (gob : Gob C) where
  -- What a granted vote leaves behind.
  pub request_vote_granted :
      (rf rf' : Raft C) (args : RequestVoteArgs) (now : ℕ) (reply : RequestVoteReply)
      → request_vote gob rf args now ≡ some (rf', reply)
      → reply.vote_granted ≡ true
      → (rf'.voted_for ≡ some args.candidate_id)
        × (rf'.current_term ≡ reply.term)
        × (rf.current_term ≤ reply.term)
  unfolding request_vote
  request_vote_granted rf rf' args now reply h granted = ground arith

  -- A second grant in the term of a first one finds the vote already cast.
  second_grant :
      (rf rf' : Raft C) (args : RequestVoteArgs) (now v : ℕ) (reply : RequestVoteReply)
      → request_vote gob rf args now ≡ some (rf', reply)
      → reply.vote_granted ≡ true
      → rf.current_term ≡ reply.term
      → rf.voted_for ≡ some v
      → args.candidate_id ≡ v
  unfolding request_vote
  second_grant rf rf' args now v reply h granted same voted = ground arith

  -- From a peer whose term, vote and log are those of its storage (as on its first start):
  -- however many events lie between them, restarts from storage included, two votes that the peer
  -- grants in one term go to one candidate.
  pub one_vote_per_term :
      (rf rf₁ rf₂ rf₃ : Raft C) (args₁ args₂ : RequestVoteArgs) (now₁ now₂ : ℕ)
      (reply₁ reply₂ : RequestVoteReply) (es : List (Event C))
      → IsDurable gob rf
      → request_vote gob rf args₁ now₁ ≡ some (rf₁, reply₁)
      → run gob rf₁ es ≡ some rf₂
      → request_vote gob rf₂ args₂ now₂ ≡ some (rf₃, reply₂)
      → reply₁.vote_granted ≡ true
      → reply₂.vote_granted ≡ true
      → reply₁.term ≡ reply₂.term
      → args₁.candidate_id ≡ args₂.candidate_id
  one_vote_per_term rf rf₁ rf₂ rf₃ args₁ args₂ now₁ now₂ reply₁ reply₂ es d first between second g₁
        g₂ t =
      let (voted, at_term, _) = request_vote_granted rf rf₁ args₁ now₁ reply₁ first g₁ in
      let (_, _, le) = request_vote_granted rf₂ rf₃ args₂ now₂ reply₂ second g₂ in
      let d₁ =
        Effect-IsDurable gob rf rf₁ (request_vote-Effect gob rf rf₁ args₁ now₁ reply₁ first) d in
      let kept = run-KeepsVote gob rf₁ rf₂ es d₁ between in
      ground (arith, second_grant rf₂ rf₃ args₂ now₂ args₁.candidate_id reply₂)
