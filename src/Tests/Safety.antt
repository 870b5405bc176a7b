-- ===== src/Tests/Safety.antt =====
-- A vote, a crash and a second request for the vote.
use distributed_systems_mit.Base.{arith, ℕ, true, ◌≡◌, refl, some, List, [], ◌∷◌}
use distributed_systems_mit.Persister.{make_persister, read_raft_state}
use distributed_systems_mit.Raft.Log.{new_raft_log, restore_log, last_term, entry, last_index, len}
use distributed_systems_mit.Raft.Rpc.{RequestVoteReply}
use distributed_systems_mit.Raft.Server.{Raft, make, persist, read_persist}
use distributed_systems_mit.Raft.Handlers.{request_vote}
use distributed_systems_mit.Raft.Run.{
  Event, on_request_vote, on_append_entries, on_crash, step, run,
}
use distributed_systems_mit.Raft.Run.Total.{IsSound, run_total}
use distributed_systems_mit.Tests.Appends.{replace}
use distributed_systems_mit.Raft.Run.Durable.{
  blank, SameDurable, crash_loses_nothing, read_persist-persist,
}
use distributed_systems_mit.Raft.Run.Votes.{one_vote_per_term}
use distributed_systems_mit.Tests.Peers.{
  test_gob, new_peer, ask, voted_peer, restarted_peer, test_leader,
}

abbrev granted : RequestVoteReply
granted = record { term = 1; vote_granted = true }

first_vote : request_vote test_gob new_peer ask 10 ≡ some (voted_peer, granted)
unfolding request_vote last_term entry last_index len
first_vote = refl

restart : run test_gob voted_peer (on_crash 20 10 ∷ []) ≡ some restarted_peer
unfolding run step make new_raft_log restore_log
restart = refl

second_vote :
    request_vote test_gob restarted_peer ask 30
    ≡ some (record restarted_peer { last_reset = 30 }, granted)
unfolding request_vote last_term entry last_index len
second_vote = refl

one_vote_per_term_example : ask.candidate_id ≡ ask.candidate_id
unfolding new_raft_log
one_vote_per_term_example =
    one_vote_per_term test_gob new_peer voted_peer restarted_peer
      (record restarted_peer { last_reset = 30 }) ask ask 10 30 granted granted
      (on_crash 20 10 ∷ []) (blank refl refl refl refl) first_vote restart second_vote refl refl
      refl

first_start : make test_gob 3 0 make_persister 7 5 ≡ some new_peer
unfolding make new_raft_log
first_start = refl

one_request : run test_gob new_peer (on_request_vote ask 10 ∷ []) ≡ some voted_peer
unfolding run step request_vote last_term entry last_index len
one_request = refl

crash_loses_nothing_example :
    (rf'' : Raft ℕ) × (step test_gob voted_peer (on_crash 20 10) ≡ some rf'')
    × SameDurable test_gob voted_peer rf''
crash_loses_nothing_example =
    crash_loses_nothing test_gob 3 0 7 5 20 10 new_peer voted_peer (on_request_vote ask 10 ∷ [])
      first_start one_request

read_persist-persist_example :
    (s' : Raft ℕ) × (read_persist test_gob new_peer
        (read_raft_state (persist test_gob test_leader).persister)
      ≡ some s')
    × SameDurable test_gob test_leader s'
    × (s'.commit_index ≡ 2)
    × (s'.last_applied ≡ 2)
read_persist-persist_example = read_persist-persist test_gob new_peer test_leader

new_peer-IsSound : IsSound test_gob 3 new_peer
unfolding new_raft_log
new_peer-IsSound = record {
  peers_is = refl;
  valid = record { dummy_first = refl };
  durable = blank refl refl refl refl;
  tables = λ l. absurd (ground arith);
}

-- A vote, entries from a leader of the next term, one of them missing, and a crash.
abbrev busy : List (Event ℕ)
busy = on_request_vote ask 10 ∷ on_append_entries replace 20 ∷ on_crash 30 10 ∷ []

run_total_example :
    (rf' : Raft ℕ) × (run test_gob new_peer busy ≡ some rf') × IsSound test_gob 3 rf'
run_total_example = run_total test_gob 3 new_peer busy new_peer-IsSound (tt, (tt, (tt, tt)))
