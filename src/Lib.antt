-- ===== src/Lib.antt =====
-- Verification library of the distributed systems labs: the Raft consensus library, the
-- key/value server with its clerk, its lock and its sequential model, the shard configuration,
-- MapReduce and the simulated network.
--
-- Parts, and the files of the repository that they model:
--
-- - Module Persister, stable storage (src/tester1/persister.go).
-- - Module Raft.Log, the log above a snapshot (src/raft1/raftlog.go). Bounds, Snapshot and
--   Prefix are the lemmas on indices, on snapshotAt/installSnapshot and on matchPrefix.
-- - Module Raft.Rpc, the messages (src/raft1/rpc.go).
-- - Module Raft.Conflict, checkAppend and backoffNextIndex (src/raft1/conflict.go). Check is
--   about the follower's side, Backoff about the leader's, Resume about both together.
-- - Module Raft.Server, the state of a peer, Make, Start, Snapshot, persist and readPersist
--   (src/raft1/raft.go).
-- - Module Raft.Handlers, RequestVote, AppendEntries and InstallSnapshot
--   (src/raft1/handlers.go). Append, Accept and Verdict are about AppendEntries, Commit about the
--   commit index after it.
-- - Module Raft.Election, the ticker's test, startElection and its replies
--   (src/raft1/election.go), and the two locked sections of callPeer (src/raft1/rpc.go).
-- - Module Raft.Replication, sendToFollowers, updateCommitIndex, sendInstallSnapshotsToPeer
--   (src/raft1/replication.go) and applyCommand (src/raft1/apply.go).
-- - Module Raft.Run, a peer over its life. An event is one locked section: a request from
--   another peer, a reply, an election timeout, a call of the service, a wake-up of the applier,
--   or a crash and restart. The network and the scheduler choose the events. Roles is about who
--   stays leader, Replies, Tables, Answers and Total are about what never panics. Sections that
--   only build a request are no events.
-- - Module Raft.Cluster, the peers of a cluster in any interleaving, with their elections. Which
--   peer voted for whom is kept as history. Tally counts votes, Invariant and Elections are what
--   every step keeps, Leaders is election safety.
-- - Module Raft.Matching, the append requests in flight between the peers of such a cluster, and what
--   leaders made of which index, kept as history. Chain, Links and Stores are about logs whose entries
--   their leaders made, Stands, Sections and Calls about what each locked section does to the log and
--   the role, Moves, Invariant, Submits and Agreement lead to log matching, AppendOnly is about leaders.
-- - Module Raft.Catchup, a leader and a follower over a quiet network, tick after tick
--   (sendToFollowers of src/raft1/replication.go with callPeer of src/raft1/rpc.go). Rounds is about
--   one exchange, Ticks about a whole tick, Accepts, Refusals and Converges lead to a follower that
--   has caught up, Stuck is about one that does not.
-- - Module Kv, the server (src/kvsrv1/server.go, src/kvsrv1/rpc/rpc.go), the clerk
--   (src/kvsrv1/client.go) and the model that histories are checked against (src/models1/kv.go).
--   Kv.Lock is the lock over the clerk (src/kvsrv1/lock/lock.go); Entries is about the entry of its
--   key, Holding about Acquire.
-- - Module MapReduce, the coordinator (src/mr/coordinator.go, src/mr/rpc.go) and the worker
--   (src/mr/worker.go), which is compared with the sequential program (src/main/mrsequential.go).
--   MapReduce.Files has the names of the files that tasks leave, the selection by name and the
--   decoding; Names, Streams and Reading are about them. Worker.Groups is about the grouping loops,
--   Worker.Buckets about the files of a map task, Worker.Equivalence about the whole job.
-- - Module Network, the network that the tests simulate (src/labrpc/labrpc.go): its control
--   state and what becomes of a call. Killed is about servers that go away.
-- - Module ShardConfig, the assignment of shards to groups
--   (src/shardkv1/shardcfg/shardcfg.go). Loads is about analyze, Balance about the last loop of
--   Rebalance, Assign about all of it, Fuel about the rounds that it takes at most, Membership and
--   Departure about Join and Leave with the rebalancing after them.
--
-- How the code is read. A method that holds its mutex is one function from state to state. A
-- panic, which a slice index out of range is in Go, is the result `none`. Indices and terms
-- are natural numbers. Where a difference could be negative, the code takes a maximum or
-- panics, and the model does so too. Versions of the key/value server are taken modulo 2^64.
-- Clock readings and random numbers are arguments. A send on the buffered channel `commit`
-- adds one to a count: that it blocks when a hundred signals are waiting is not modelled. A
-- clerk's loop runs over the attempts that the network grants, and a clerk that is still
-- trying after them has no result. The lock's loops and the last loop of Rebalance are on
-- fuel. For Rebalance any fuel above the sum of the squares of the groups' loads is enough,
-- since each round lowers that sum; twelve shards have at most 144. The lock's loops may run
-- forever, and their fuel stands for the rounds granted.
--
-- The goroutines of an election build their requests some time after the election has started.
-- Raft.Cluster has them built in the term that the election started in: the code does not
-- check this.
--
-- For MapReduce the parameters are sort.Sort, which reorders what it is given so that it ascends,
-- the checksum of hash/fnv, the plugin's Map and Reduce, encoding/json, whose decoder reads back what
-- was encoded and then fails, the digits that fmt prints for a number (different for different
-- numbers, and no dash), the digits that os.CreateTemp draws, and os.ReadDir, which lists each file
-- once. A job is all map tasks, each once, and then the reduce tasks, in a directory that may hold
-- other files; that a renaming replaces a file of the same name is not modelled. The "./" before a temporary file's name, which the cut and the renaming keep, is left
-- out. The coordinator's clock is in nanoseconds.
--
-- The encoding of a peer's state by encoding/gob is a parameter: a decoding that reads back
-- what was encoded, and is never given nothing. Commands are of any type.
--
-- Not modelled: the network's delays (a delayed reply is sent without looking at the network again), statistics and dispatch by reflection, the test
-- framework (tester1, kvtest1), the files and sockets of MapReduce's workers, the applications,
-- the entry points, and the skeletons of the replicated state machine and of the shard groups.
mod Base
mod Tests
pub mod Persister
pub mod Raft
pub mod Kv
pub mod MapReduce
pub mod ShardConfig
pub mod Network
