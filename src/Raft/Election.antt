-- ===== src/Raft/Election.antt =====
-- Elections (src/raft1/election.go), with the two locked halves of `callPeer` of src/raft1/rpc.go:
-- the arguments are built while the role is the wanted one, and a reply is applied only if role and
-- term are still those of the request. `votes` is the variable that an election's goroutines share.
use distributed_systems_mit.Base.{
  ℕ, ◌+◌, ◌-◌, ◌/◌, Bool, false, true, ◌&&◌, Option, none, some, replicate, ltb, leb, ◌==◌, not,
  if◌then◌else◌, ◌>>=◌,
}
use distributed_systems_mit.Raft.Log.{len, last_index, last_term}
use distributed_systems_mit.Raft.Rpc.{RequestVoteArgs, RequestVoteReply}
use distributed_systems_mit.Raft.Server.{
  Role, follower, candidate, leader, is_leader, Gob, Raft, persist, reset_election_timeout,
}
use distributed_systems_mit.Raft.Handlers.{become_follower}

abbrev pub same_role : Role → Role → Bool
same_role follower follower = true
same_role candidate candidate = true
same_role leader leader = true
same_role _ _ = false

module _ {C : Type 0} where
  -- The first half of `callPeer`: no call is made in another role; otherwise the arguments and the
  -- term of the request.
  unfoldable pub call_begin :
      {Args : Type 0} → Raft C → Role → (Raft C → Option Args) → Option (Option (Args × ℕ))
  call_begin rf want build =
      if same_role rf.role want
      then (do args ← build rf; some (some (args, rf.current_term)))
      else some none

  -- The guard of the second half.
  unfoldable pub may_apply : Raft C → Role → ℕ → Bool
  may_apply rf want term = same_role rf.role want && rf.current_term == term

  -- The ticker's test.
  unfoldable pub election_due : Raft C → ℕ → Bool
  election_due rf now = not (is_leader rf.role) && leb rf.election_timeout (now - rf.last_reset)

  unfoldable pub vote_request : Raft C → Option RequestVoteArgs
  vote_request rf = do
    t ← last_term rf.log
    some (record {
      term = rf.current_term;
      candidate_id = rf.me;
      last_log_index = last_index rf.log;
      last_log_term = t;
    })

  unfoldable pub become_leader : Raft C → Raft C
  become_leader rf = record rf {
    role = leader;
    next_index = replicate rf.peers (len rf.log);
    match_index = replicate rf.peers rf.log.snap_index;
  }

module _ {C : Type 0} (gob : Gob C) where
  -- The locked part of `startElection`; the election then has one vote.
  unfoldable pub start_election : Raft C → ℕ → ℕ → Raft C × ℕ
  unfolding persist reset_election_timeout
  start_election rf now random =
      let rf' = record rf {
        current_term = rf.current_term + 1;
        voted_for = some rf.me;
        last_reset = now;
        role = candidate;
      } in
      (persist gob (reset_election_timeout random rf'), 1)

  -- What an election's goroutine does with a reply to a request of term `sent_term`.
  unfoldable pub vote_reply : Raft C → ℕ → ℕ → RequestVoteReply → Raft C × ℕ
  unfolding may_apply become_follower become_leader
  vote_reply rf votes sent_term reply =
      if not (may_apply rf candidate sent_term)
      then (rf, votes)
      else if ltb rf.current_term reply.term
      then (become_follower gob rf reply.term, votes)
      else if reply.vote_granted
      then (if ltb (rf.peers / 2) (votes + 1) then become_leader rf else rf, votes + 1)
      else (rf, votes)
