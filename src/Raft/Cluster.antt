-- ===== src/Raft/Cluster.antt =====
-- The peers of a cluster together, interleaved in any order, and their elections (startElection and
-- callPeer of src/raft1). `votes` and `counted` are history that the code does not keep: whom a peer
-- voted for in a term, and whose votes an election has counted, the candidate's own included.
-- The goroutines of an election build their requests under a later lock than the election started
-- under. A cluster here is prompt: they are built in the term that the election started in.
pub mod Tally
pub mod Invariant
pub mod Elections
pub mod Leaders
use distributed_systems_mit.Base.{
  ℕ, ◌+◌, ◌≤◌, ◌<◌, ◌≡◌, Bool, true, false, ◌&&◌, Option, none, some, ◌==◌, if◌then◌else◌,
}
use distributed_systems_mit.Persister.{make_persister}
use distributed_systems_mit.Raft.Rpc.{RequestVoteArgs, RequestVoteReply}
use distributed_systems_mit.Raft.Server.{Gob, Raft, make}
use distributed_systems_mit.Raft.Handlers.{request_vote}
use distributed_systems_mit.Raft.Election.{start_election, vote_reply}
use distributed_systems_mit.Raft.Run.{Event, step}
use distributed_systems_mit.Raft.Run.Roles.{IsOther}

abbrev pub update {ℓ} : {A : Type ℓ} → (ℕ → A) → ℕ → A → ℕ → A
update f i a j = if j == i then a else f j

abbrev pub set_vote : (ℕ → ℕ → Option ℕ) → ℕ → ℕ → ℕ → ℕ → ℕ → Option ℕ
set_vote votes voter term candidate j t =
    if j == voter && t == term then some candidate else votes j t

-- What the goroutines of one call of startElection share.
pub record Election : Type 0 where
  pub candidate : ℕ
  pub term : ℕ
  pub votes : ℕ
  pub counted : ℕ → Bool

pub record Cluster (C : Type 0) : Type 0 where
  pub peer : ℕ → Raft C
  pub votes : ℕ → ℕ → Option ℕ
  pub elections : ℕ → Option Election

-- A reply that raised the count is from a peer that is counted now.
abbrev pub tallied : Election → ℕ → ℕ → Election
tallied el p n = record el {
  votes = n;
  counted = if n == el.votes then el.counted else update el.counted p true;
}

module _ {C : Type 0} (gob : Gob C) (n : ℕ) where
  pub data Step (c : Cluster C) : Cluster C → Type 0 where
    other :
        (i : ℕ) (e : Event C) (rf : Raft C)
        → i < n
        → IsOther e
        → step gob (c.peer i) e ≡ some rf
        → Step c (record c { peer = update c.peer i rf })
    -- A vote request of any origin is served.
    serve :
        (i : ℕ) (args : RequestVoteArgs) (now : ℕ) (rf : Raft C) (reply : RequestVoteReply)
        → i < n
        → request_vote gob (c.peer i) args now ≡ some (rf, reply)
        → Step c (record c {
          peer = update c.peer i rf;
          votes =
              if reply.vote_granted
              then set_vote c.votes i reply.term args.candidate_id
              else c.votes;
        })
    elect :
        (i now random k votes : ℕ) (rf : Raft C)
        → i < n
        → c.elections k ≡ none
        → start_election gob (c.peer i) now random ≡ (rf, votes)
        → Step c (record {
          peer = update c.peer i rf;
          votes = set_vote c.votes i rf.current_term i;
          elections = update c.elections k (
              some (record {
                candidate = i;
                term = rf.current_term;
                votes = votes;
                counted = update (λ p. false) i true;
              }));
        })
    -- The goroutine of election `k` for peer `p` hears the reply to its request. A grant is one that
    -- `p` gave.
    count :
        (k p votes : ℕ) (el : Election) (reply : RequestVoteReply) (rf : Raft C)
        → p < n
        → c.elections k ≡ some el
        → el.counted p ≡ false
        → (reply.vote_granted ≡ true → c.votes p el.term ≡ some el.candidate)
        → vote_reply gob (c.peer el.candidate) el.votes el.term reply ≡ (rf, votes)
        → Step c (record c {
          peer = update c.peer el.candidate rf;
          elections = update c.elections k (some (tallied el p votes));
        })

  -- All peers are new.
  pub record Start (c : Cluster C) : Type 0 where
    pub booted :
        (i : ℕ)
        → i < n
        → (now : ℕ) × (random : ℕ) × (make gob n i make_persister now random ≡ some (c.peer i))
    pub no_votes : (i t : ℕ) → c.votes i t ≡ none
    pub no_elections : (k : ℕ) → c.elections k ≡ none

  pub data Reach : Cluster C → Type 0 where
    start : {c : Cluster C} → Start c → Reach c
    later : {c d : Cluster C} → Reach c → Step c d → Reach d
