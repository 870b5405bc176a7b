-- ===== src/Tests/Matchings.antt =====
-- A leader takes a command and replicates it to one of its two followers.
use distributed_systems_mit.Base.{ℕ, ◌≡◌, refl, true, none, some, [], ◌∷◌, arith}
use distributed_systems_mit.Persister.{Persister}
use distributed_systems_mit.Raft.Log.{
  LogEntry, RaftLog, dummy, new_raft_log, entry, append, last_index, len, since, match_prefix,
  truncate_to,
}
use distributed_systems_mit.Raft.Rpc.{AppendEntriesArgs, AppendEntriesReply}
use distributed_systems_mit.Raft.Server.{leader, Raft}
use distributed_systems_mit.Raft.Server
use distributed_systems_mit.Raft.Conflict.{check_append}
use distributed_systems_mit.Raft.Handlers.{append_entries, store_entries}
use distributed_systems_mit.Raft.Election.{call_begin}
use distributed_systems_mit.Raft.Replication.{append_request}
use distributed_systems_mit.Raft.Run.{on_start, step}
use distributed_systems_mit.Raft.Run.Durable.{IsDurable, synced}
use distributed_systems_mit.Raft.Matching.{
  System, Move, apart, submit, send, receive, Opening, Runs, open_up, go_on, moved, record_made,
}
use distributed_systems_mit.Raft.Matching.Agreement.{log_matching}
use distributed_systems_mit.Raft.Matching.AppendOnly.{leader_append_only}
use distributed_systems_mit.Raft.Matching.Stands.{Extends}
use distributed_systems_mit.Tests.Peers.{test_gob, test_encode}
use distributed_systems_mit.Tests.Clusters.{
  booted, booted-Start, asked, answered, led, to_asked, to_answered, to_led, won, voter,
}

abbrev command_entry : LogEntry ℕ
command_entry = record { term = 1; command = some 42 }

abbrev one_command : RaftLog ℕ
one_command = record { entries = dummy 0 ∷ command_entry ∷ []; snap_index = 0; snap_term = 0 }

abbrev stored_command : Persister
stored_command = record {
  raftstate = test_encode 1 (some 0) (dummy 0 ∷ command_entry ∷ []) 0 0;
  snapshot = [];
}

abbrev told : Raft ℕ
told = record won { log = one_command; persister = stored_command }

abbrev first_request : AppendEntriesArgs ℕ
first_request = record {
  term = 1;
  leader_id = 0;
  prev_log_index = 0;
  prev_log_term = 0;
  entries = command_entry ∷ [];
  leader_commit = 0;
}

abbrev copied : Raft ℕ
copied = record voter { log = one_command; persister = stored_command; last_reset = 420 }

abbrev opened : System ℕ
opened = record { cluster = booted; requests = []; made = λ t k. none }

abbrev ruled : System ℕ
ruled = record opened { cluster = led }

abbrev spoken : System ℕ
spoken = record (moved ruled 0 told) { made = record_made ruled.made won 42 (some (1, 1)) }

abbrev sent : System ℕ
sent = record spoken { requests = first_request ∷ [] }

abbrev replicated : System ℕ
replicated = moved sent 1 copied

opened-Opening : Opening test_gob 3 opened
opened-Opening = record { peers_start = booted-Start; no_requests = refl; no_entries = λ t k. refl }

ruled-Runs : Runs test_gob 3 ruled
unfolding to_asked to_answered to_led
ruled-Runs =
    go_on
      (go_on (go_on (open_up opened-Opening) (apart asked to_asked tt))
        (apart answered to_answered tt))
      (apart led to_led tt)

to_spoken : Move test_gob 3 ruled spoken
unfolding Server.start append last_index len new_raft_log
to_spoken = submit 0 42 told (some (1, 1)) (omega arith) refl

to_sent : Move test_gob 3 spoken sent
unfolding call_begin append_request entry len since
to_sent = send 0 1 1 first_request (omega arith) refl

success : AppendEntriesReply
success = record { term = 1; success = true; x_term = 0; x_index = 0; x_len = 0 }

to_replicated : Move test_gob 3 sent replicated
unfolding append_entries len entry append success check_append match_prefix store_entries
    truncate_to
to_replicated = receive 1 0 420 first_request copied success (omega arith) refl refl

replicated-Runs : Runs test_gob 3 replicated
replicated-Runs = go_on (go_on (go_on ruled-Runs to_spoken) to_sent) to_replicated

log_matching_example : entry told.log 1 ≡ entry copied.log 1
log_matching_example =
    log_matching test_gob 3 replicated 0 1 1 1 command_entry command_entry replicated-Runs
      (omega arith) (omega arith) (unfold entry in refl) (unfold entry in refl) refl (omega arith)
      (omega arith) (omega arith)

won-IsDurable : IsDurable test_gob won
unfolding Server.encode_raft_state new_raft_log
won-IsDurable = synced refl

leader_append_only_example : Extends won.log told.log
leader_append_only_example =
    leader_append_only test_gob won told (on_start 42)
      (record { dummy_first = unfold new_raft_log in refl }) won-IsDurable
      (unfold step Server.start append new_raft_log in refl) refl refl refl
