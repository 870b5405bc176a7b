-- ===== src/Raft/Server.antt =====
-- A Raft peer (src/raft1/raft.go): its state, its persistence, and the calls of the service.
-- A method that holds `rf.mu` is one step from state to state; `none` is a panic. Clock readings and
-- random timeouts are arguments. A send on the buffered channel `commit` counts one more signal.
use distributed_systems_mit.Base.{
  ℕ, ◌+◌, Bool, false, true, Option, none, some, List, [], ◌∷◌, ltb, leb, if◌then◌else◌, ◌>>=◌, ◌≡◌,
  ◌≢◌,
}
use distributed_systems_mit.Persister.{
  Bytes, Persister, read_raft_state, read_snapshot, save, raft_state_size,
}
use distributed_systems_mit.Raft.Log.{
  LogEntry, RaftLog, new_raft_log, restore_log, last_index, append, snapshot_at,
}

pub data Role : Type 0 where
  follower candidate leader : Role

abbrev pub is_leader : Role → Bool
is_leader leader = true
is_leader follower = false
is_leader candidate = false

-- The encoding of the five persisted values by encoding/gob, which the program only calls. A nil
-- error and its value are `some`; a state without a snapshot index was written by older code.
pub record Gob (C : Type 0) : Type 0 where
  pub encode : ℕ → Option ℕ → List (LogEntry C) → ℕ → ℕ → Bytes
  pub decode : Bytes → Option (ℕ × Option ℕ × List (LogEntry C) × Option (ℕ × ℕ))
  pub decode-encode :
      (term : ℕ) (voted : Option ℕ) (entries : List (LogEntry C)) (index snap_term : ℕ)
      → decode (encode term voted entries index snap_term)
        ≡ some (term, voted, entries, some (index, snap_term))
  pub encode_nonempty :
      (term : ℕ) (voted : Option ℕ) (entries : List (LogEntry C)) (index snap_term : ℕ)
      → encode term voted entries index snap_term ≢ []

-- `voted_for` is `none` for -1.
pub record Raft (C : Type 0) : Type 0 where
  pub me : ℕ
  pub peers : ℕ
  pub persister : Persister
  pub commit : ℕ
  pub current_term : ℕ
  pub voted_for : Option ℕ
  pub role : Role
  pub log : RaftLog C
  pub commit_index : ℕ
  pub last_applied : ℕ
  pub next_index : List ℕ
  pub match_index : List ℕ
  pub last_reset : ℕ
  pub election_timeout : ℕ

abbrev pub is_empty : Bytes → Bool
is_empty [] = true
is_empty (b ∷ bs) = false

module _ {C : Type 0} where
  unfoldable pub get_state : Raft C → ℕ × Bool
  get_state rf = (rf.current_term, is_leader rf.role)

  unfoldable pub persist_bytes : Raft C → ℕ
  persist_bytes rf = raft_state_size rf.persister

  -- `timeout` is 300 plus the random number below 250, in milliseconds.
  unfoldable pub reset_election_timeout : ℕ → Raft C → Raft C
  reset_election_timeout random rf = record rf { election_timeout = 300 + random }

  -- The part of `readPersist` after the decoding.
  abbrev restored :
      Raft C → Option (ℕ × Option ℕ × List (LogEntry C) × Option (ℕ × ℕ)) → Option (Raft C)
  restored rf none = none
  restored rf (some (term, voted, entries, snap)) =
      let l : RaftLog C = elim snap [
        | none ↦ restore_log entries 0 0
        | some (index, snap_term) ↦ restore_log entries index snap_term
      ] in
      let rf' = record rf { current_term = term; voted_for = voted; log = l } in
      some (
        if ltb 0 l.snap_index
        then record rf' { commit_index = l.snap_index; last_applied = l.snap_index }
        else rf')

module _ {C : Type 0} (gob : Gob C) where
  unfoldable pub encode_raft_state : Raft C → Bytes
  encode_raft_state rf =
      gob.encode rf.current_term rf.voted_for rf.log.entries rf.log.snap_index rf.log.snap_term

  unfoldable pub persist : Raft C → Raft C
  unfolding encode_raft_state save read_snapshot
  persist rf = record rf {
    persister = save rf.persister (encode_raft_state rf) (read_snapshot rf.persister);
  }

  unfoldable pub read_persist : Raft C → Bytes → Option (Raft C)
  read_persist rf bytes = if is_empty bytes then some rf else restored rf (gob.decode bytes)

  unfoldable pub snapshot : Raft C → ℕ → Bytes → Option (Raft C)
  unfolding encode_raft_state save
  snapshot rf index bytes = if leb index rf.log.snap_index then some rf else (do
    l ← snapshot_at rf.log index
    let rf' = record rf { log = l }
    some (record rf' { persister = save rf'.persister (encode_raft_state rf') bytes }))

  -- The index and the term of the new entry, or `none` for (-1, -1, false).
  unfoldable pub start : Raft C → C → Raft C × Option (ℕ × ℕ)
  unfolding persist
  start rf command =
      let entry : LogEntry C = record { term = rf.current_term; command = some command } in
      let rf' = persist (record rf { log = append rf.log (entry ∷ []) }) in
      if is_leader rf.role then (rf', some (last_index rf'.log, rf'.current_term)) else (rf, none)

  unfoldable pub make : ℕ → ℕ → Persister → ℕ → ℕ → Option (Raft C)
  unfolding read_persist reset_election_timeout read_raft_state
  make peers me persister now random =
      let rf : Raft C = record {
        me = me;
        peers = peers;
        persister = persister;
        commit = 0;
        current_term = 0;
        voted_for = none;
        role = follower;
        log = new_raft_log;
        commit_index = 0;
        last_applied = 0;
        next_index = [];
        match_index = [];
        last_reset = now;
        election_timeout = 0;
      } in
      read_persist (reset_election_timeout random rf) (read_raft_state persister)
