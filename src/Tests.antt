-- ===== src/Tests.antt =====
-- Runs of the code on concrete inputs.
mod Peers
mod Safety
mod Appends
mod Logs
mod Leaders
mod Kvs
mod Jobs
mod Shards
mod Groups
mod Locks
mod Networks
mod Clusters
mod Matchings
mod Catchups
mod Sorts
mod Streams
mod Workers
