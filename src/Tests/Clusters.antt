-- ===== src/Tests/Clusters.antt =====
-- An election in a cluster of three new peers.
use distributed_systems_mit.Base.{ℕ, ◌≡◌, refl, false, true, none, some, [], ◌∷◌, arith}
use distributed_systems_mit.Persister.{Persister}
use distributed_systems_mit.Raft.Log.{new_raft_log, dummy, last_term, entry, last_index, len}
use distributed_systems_mit.Raft.Rpc.{RequestVoteReply}
use distributed_systems_mit.Raft.Server.{candidate, leader, Raft, make}
use distributed_systems_mit.Raft.Handlers.{request_vote}
use distributed_systems_mit.Raft.Election.{start_election, vote_reply}
use distributed_systems_mit.Raft.Cluster.{
  update, set_vote, Election, Cluster, tallied, Step, serve, elect, count, Start, Reach, start,
  later,
}
use distributed_systems_mit.Raft.Cluster.Leaders.{one_leader_per_term}
use distributed_systems_mit.Tests.Peers.{test_gob, test_encode, new_peer}

abbrev pub booted : Cluster ℕ
booted = record {
  peer = λ i. record new_peer { me = i };
  votes = λ i t. none;
  elections = λ k. none;
}

pub booted-Start : Start test_gob 3 booted
unfolding make new_raft_log
booted-Start = record {
  booted = λ i h. (7, 5, refl);
  no_votes = λ i t. refl;
  no_elections = λ k. refl;
}

abbrev own_vote : Persister
own_vote = record { raftstate = test_encode 1 (some 0) (dummy 0 ∷ []) 0 0; snapshot = [] }

-- Peer 0, a candidate in term 1.
abbrev running : Raft ℕ
running = record new_peer {
  persister = own_vote;
  current_term = 1;
  voted_for = some 0;
  role = candidate;
  last_reset = 400;
}

-- Peer 1, with its vote for peer 0.
abbrev pub voter : Raft ℕ
voter = record new_peer {
  me = 1;
  persister = own_vote;
  current_term = 1;
  voted_for = some 0;
  last_reset = 410;
}

abbrev pub won : Raft ℕ
won = record running { role = leader; next_index = 1 ∷ 1 ∷ 1 ∷ []; match_index = 0 ∷ 0 ∷ 0 ∷ [] }

abbrev campaign : Election
campaign = record { candidate = 0; term = 1; votes = 1; counted = update (λ p. false) 0 true }

abbrev grant : RequestVoteReply
grant = record { term = 1; vote_granted = true }

abbrev pub asked : Cluster ℕ
asked = record {
  peer = update booted.peer 0 running;
  votes = set_vote booted.votes 0 1 0;
  elections = update booted.elections 0 (some campaign);
}

abbrev pub answered : Cluster ℕ
answered = record asked { peer = update asked.peer 1 voter; votes = set_vote asked.votes 1 1 0 }

abbrev pub led : Cluster ℕ
led = record answered {
  peer = update answered.peer 0 won;
  elections = update answered.elections 0 (some (tallied campaign 1 2));
}

unfoldable pub to_asked : Step test_gob 3 booted asked
unfolding start_election
to_asked = elect 0 400 5 0 1 running (omega arith) refl refl

unfoldable pub to_answered : Step test_gob 3 asked answered
unfolding request_vote last_term entry last_index len
to_answered =
    serve 1 (record { term = 1; candidate_id = 0; last_log_index = 0; last_log_term = 0 }) 410 voter
      grant (omega arith) refl

unfoldable pub to_led : Step test_gob 3 answered led
unfolding vote_reply len
to_led = count 0 1 2 campaign grant won (omega arith) refl refl (λ h. refl) refl

led-Reach : Reach test_gob 3 led
led-Reach = later (later (later (start booted-Start) to_asked) to_answered) to_led

one_leader_per_term_example : won.me ≡ won.me
one_leader_per_term_example =
    one_leader_per_term test_gob 3 led 0 0 led-Reach (omega arith) (omega arith) refl refl refl
