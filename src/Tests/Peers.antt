-- ===== src/Tests/Peers.antt =====
-- An encoding of the persisted state, and the peers and logs that the tests run on.
use distributed_systems_mit.Base.{ℕ, zero, suc, ◌≡◌, ◌≢◌, refl, Option, none, some, List, [], ◌∷◌}
use distributed_systems_mit.Persister.{Bytes, Persister, make_persister}
use distributed_systems_mit.Raft.Log.{LogEntry, RaftLog, dummy}
use distributed_systems_mit.Raft.Rpc.{RequestVoteArgs}
use distributed_systems_mit.Raft.Server.{follower, leader, Gob, Raft}

abbrev code : Option ℕ → ℕ
code none = 0
code (some v) = suc v

abbrev uncode : ℕ → Option ℕ
uncode zero = none
uncode (suc v) = some v

abbrev encode_entries : List (LogEntry ℕ) → Bytes
encode_entries [] = []
encode_entries (e ∷ rest) = e.term ∷ code e.command ∷ encode_entries rest

abbrev decode_entries : Bytes → List (LogEntry ℕ)
decode_entries [] = []
decode_entries (t ∷ []) = []
decode_entries (t ∷ c ∷ rest) = record { term = t; command = uncode c } ∷ decode_entries rest

uncode-code : (v : Option ℕ) → uncode (code v) ≡ v
uncode-code none = refl
uncode-code (some v) = refl

decode-encode_entries : (es : List (LogEntry ℕ)) → decode_entries (encode_entries es) ≡ es
decode-encode_entries [] = refl
decode-encode_entries (e ∷ rest) = rw (uncode-code e.command, decode-encode_entries rest) refl

abbrev pub test_encode : ℕ → Option ℕ → List (LogEntry ℕ) → ℕ → ℕ → Bytes
test_encode term voted entries index snap_term =
    term ∷ code voted ∷ index ∷ snap_term ∷ encode_entries entries

abbrev test_decode : Bytes → Option (ℕ × Option ℕ × List (LogEntry ℕ) × Option (ℕ × ℕ))
test_decode (t ∷ v ∷ i ∷ s ∷ rest) = some (t, uncode v, decode_entries rest, some (i, s))
test_decode _ = none

pub test_decode-encode :
    (term : ℕ) (voted : Option ℕ) (entries : List (LogEntry ℕ)) (index snap_term : ℕ)
    → test_decode (test_encode term voted entries index snap_term)
      ≡ some (term, voted, entries, some (index, snap_term))
test_decode-encode term voted entries index snap_term =
    rw (uncode-code voted, decode-encode_entries entries) refl

pub test_encode_nonempty :
    (term : ℕ) (voted : Option ℕ) (entries : List (LogEntry ℕ)) (index snap_term : ℕ)
    → test_encode term voted entries index snap_term ≢ []
test_encode_nonempty term voted entries index snap_term h = cc

abbrev pub test_gob : Gob ℕ
test_gob = record {
  encode = test_encode;
  decode = test_decode;
  decode-encode = test_decode-encode;
  encode_nonempty = test_encode_nonempty;
}

abbrev pub op : ℕ → ℕ → LogEntry ℕ
op term command = record { term = term; command = some command }

-- The log of a new peer.
abbrev pub empty_log : RaftLog ℕ
empty_log = record { entries = dummy 0 ∷ []; snap_index = 0; snap_term = 0 }

-- Peer 0 of three, on empty storage.
abbrev pub new_peer : Raft ℕ
new_peer = record {
  me = 0;
  peers = 3;
  persister = make_persister;
  commit = 0;
  current_term = 0;
  voted_for = none;
  role = follower;
  log = empty_log;
  commit_index = 0;
  last_applied = 0;
  next_index = [];
  match_index = [];
  last_reset = 7;
  election_timeout = 305;
}

-- It asks for peer 2's election in term 1.
abbrev pub ask : RequestVoteArgs
ask = record { term = 1; candidate_id = 2; last_log_index = 0; last_log_term = 0 }

abbrev pub stored_vote : Persister
stored_vote = record { raftstate = test_encode 1 (some 2) (dummy 0 ∷ []) 0 0; snapshot = [] }

-- The new peer after its vote for peer 2.
abbrev pub voted_peer : Raft ℕ
voted_peer = record new_peer {
  persister = stored_vote;
  current_term = 1;
  voted_for = some 2;
  last_reset = 10;
}

-- The same after a crash.
abbrev pub restarted_peer : Raft ℕ
restarted_peer = record voted_peer { last_reset = 20; election_timeout = 310 }

-- A log with a snapshot up to index 2.
abbrev pub test_log : RaftLog ℕ
test_log = record {
  entries = dummy 1 ∷ op 1 30 ∷ op 1 40 ∷ op 1 50 ∷ [];
  snap_index = 2;
  snap_term = 1;
}

-- The log of a leader of term 3 that has replaced the entries from index 4 on.
abbrev pub leader_log : RaftLog ℕ
leader_log = record {
  entries = dummy 1 ∷ op 1 30 ∷ op 3 41 ∷ op 3 51 ∷ [];
  snap_index = 2;
  snap_term = 1;
}

abbrev pub test_follower : Raft ℕ
test_follower = record new_peer {
  current_term = 1;
  log = test_log;
  commit_index = 3;
  last_applied = 2;
}

abbrev pub test_leader : Raft ℕ
test_leader = record new_peer {
  current_term = 3;
  role = leader;
  log = leader_log;
  commit_index = 3;
  last_applied = 2;
  next_index = 6 ∷ 5 ∷ 4 ∷ [];
  match_index = 2 ∷ 4 ∷ 3 ∷ [];
}
