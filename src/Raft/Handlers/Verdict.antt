-- ===== src/Raft/Handlers/Verdict.antt =====
-- Which requests `AppendEntries` of src/raft1/handlers.go accepts, and what it does of the others.
use distributed_systems_mit.Base.{ℕ, ◌≤◌, ◌<◌, ◌≡◌, ◌⊎◌, false, some, max}
use distributed_systems_mit.Raft.Log.{len, entry}
use distributed_systems_mit.Raft.Log.Bounds.{term_of}
use distributed_systems_mit.Raft.Rpc.{AppendEntriesArgs, AppendEntriesReply}
use distributed_systems_mit.Raft.Server.{Gob, Raft}
use distributed_systems_mit.Raft.Handlers.{append_entries}
use distributed_systems_mit.Raft.Handlers.Accept.{Accepted}

module _ {C : Type 0} where
  -- The request is of a term that is not behind, and the log holds the entry that it names.
  pub record Matches (rf : Raft C) (args : AppendEntriesArgs C) : Type 0 where
    pub current : rf.current_term ≤ args.term
    pub kept : rf.log.snap_index ≤ args.prev_log_index
    pub within : args.prev_log_index < len rf.log
    pub same_term : term_of (entry rf.log args.prev_log_index) ≡ some args.prev_log_term

  -- Accepted and stored, or refused: then the log and the commit index are as they were.
  abbrev pub Verdict : Raft C → Raft C → AppendEntriesArgs C → AppendEntriesReply → Type 0
  Verdict rf rf' args reply =
      (Matches rf args × Accepted rf rf' args reply)
      ⊎ ((¬ Matches rf args)
          × (reply.success ≡ false)
          × (rf'.log ≡ rf.log)
          × (rf'.commit_index ≡ rf.commit_index))

  abbrev Decided : Gob C → Raft C → AppendEntriesArgs C → ℕ → Type 0
  Decided gob rf args now =
      (rf' : Raft C) × (reply : AppendEntriesReply) × (append_entries gob rf args now
        ≡ some (rf', reply))
      × (rf'.current_term ≡ max rf.current_term args.term)
      × (reply.term ≡ max rf.current_term args.term)
      × Verdict rf rf' args reply
