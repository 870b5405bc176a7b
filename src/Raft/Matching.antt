-- ===== src/Raft/Matching.antt =====
-- The messages that replicate the log, in flight between the peers of a cluster (src/raft1/replication.go
-- and src/raft1/handlers.go). A peer hears a request only if a leader sent it; the network may lose
-- it, hold it back, repeat it and bring it to any peer. `made` is history that the code does not
-- keep: of every entry that a leader took from the service, the command and the term before it.
pub mod Chain
pub mod Links
pub mod Stores
pub mod Stands
pub mod Sections
pub mod Calls
pub mod Moves
pub mod Invariant
pub mod Submits
pub mod Agreement
pub mod AppendOnly
use distributed_systems_mit.Base.{
  ℕ, ◌+◌, ◌<◌, ◌≡◌, ◌&&◌, Option, none, some, List, [], ◌∷◌, get_elem?, ◌==◌, if◌then◌else◌,
}
use distributed_systems_mit.Raft.Log.{last_term}
use distributed_systems_mit.Raft.Rpc.{AppendEntriesArgs, AppendEntriesReply}
use distributed_systems_mit.Raft.Server.{leader, Gob, Raft, start}
use distributed_systems_mit.Raft.Handlers.{append_entries}
use distributed_systems_mit.Raft.Election.{call_begin}
use distributed_systems_mit.Raft.Replication.{append_request}
use distributed_systems_mit.Raft.Run.{Event, on_append_entries, on_start}
use distributed_systems_mit.Raft.Cluster.{update, Cluster, Step, other, serve, elect, count, Start}
use distributed_systems_mit.Raft.Matching.Chain.{Made}

pub record System (C : Type 0) : Type 0 where
  pub cluster : Cluster C
  pub requests : List (AppendEntriesArgs C)
  pub made : Made C

module _ {C : Type 0} where
  -- An event that brings no new entries.
  abbrev pub BringsNone : Event C → Type 0
  BringsNone (on_append_entries args now) = ⊥
  BringsNone (on_start command) = ⊥
  BringsNone _ = Unit {0}

  -- A peer's state after a locked section.
  abbrev pub moved : System C → ℕ → Raft C → System C
  moved s i rf = record s { cluster = record s.cluster { peer = update s.cluster.peer i rf } }

  -- A leader puts a command at `index` in `term`, behind the entries that it has.
  abbrev pub record_made : Made C → Raft C → C → Option (ℕ × ℕ) → Made C
  record_made made rf command none = made
  record_made made rf command (some (index, term)) =
      λ t k. if t == term && k == index then some (some command, last_term rf.log) else made t k

module _ {C : Type 0} (gob : Gob C) (n : ℕ) where
  abbrev pub Apart : {c d : Cluster C} → Step gob n c d → Type 0
  Apart (other i e rf here is done) = BringsNone e
  Apart (serve i args now rf reply here done) = Unit {0}
  Apart (elect i now random k votes rf here free done) = Unit {0}
  Apart (count k p votes el reply rf here at_k new granted done) = Unit {0}

  pub data Move (s : System C) : System C → Type 0 where
    -- All that brings no entries: elections, replies, snapshots of any origin, crashes.
    apart :
        (d : Cluster C) (st : Step gob n s.cluster d) → Apart st → Move s (record s { cluster = d })
    submit :
        (i : ℕ) (command : C) (rf : Raft C) (answer : Option (ℕ × ℕ))
        → i < n
        → start gob (s.cluster.peer i) command ≡ (rf, answer)
        → Move s
            (record (moved s i rf) { made = record_made s.made (s.cluster.peer i) command answer })
    send :
        (i p sent_term : ℕ) (args : AppendEntriesArgs C)
        → i < n
        → call_begin (s.cluster.peer i) leader (λ rf. append_request rf p)
          ≡ some (some (args, sent_term))
        → Move s (record s { requests = args ∷ s.requests })
    receive :
        (i k now : ℕ) (args : AppendEntriesArgs C) (rf : Raft C) (reply : AppendEntriesReply)
        → i < n
        → get_elem? s.requests k ≡ some args
        → append_entries gob (s.cluster.peer i) args now ≡ some (rf, reply)
        → Move s (moved s i rf)

  -- New peers, and no requests yet.
  pub record Opening (s : System C) : Type 0 where
    pub peers_start : Start gob n s.cluster
    pub no_requests : s.requests ≡ []
    pub no_entries : (t k : ℕ) → s.made t k ≡ none

  pub data Runs : System C → Type 0 where
    open_up : {s : System C} → Opening s → Runs s
    go_on : {s s' : System C} → Runs s → Move s s' → Runs s'
