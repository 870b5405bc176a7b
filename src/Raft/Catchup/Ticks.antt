-- ===== src/Raft/Catchup/Ticks.antt =====
-- A tick from its parts: the request, the answer, the reply.
use distributed_systems_mit.Base.{
  ℕ, suc, ◌+◌, ◌≤◌, ◌<◌, ◌≡◌, refl, ap, some, List, get_elem?, lt→leb, le→leb,
}
use distributed_systems_mit.Raft.Rpc.{AppendEntriesArgs, AppendEntriesReply, InstallSnapshotReply}
use distributed_systems_mit.Raft.Server.{leader, is_leader, Gob, Raft}
use distributed_systems_mit.Raft.Handlers.{ApplyMsg, append_entries, handle_install_snapshot}
use distributed_systems_mit.Raft.Election.{same_role, call_begin}
use distributed_systems_mit.Raft.Replication.{
  behind_snapshot, append_request, snapshot_request, append_reply, snapshot_reply,
}
use distributed_systems_mit.Raft.Catchup.{
  exchange_append, exchange_snapshot, replicate_once, replicate_for,
}

module _ {C : Type 0} (gob : Gob C) where
  -- A tick in which log entries are sent, from its three parts.
  pub replicate_append :
      (ld fl ld' fl' : Raft C) (p now next : ℕ) (args : AppendEntriesArgs C)
      (reply : AppendEntriesReply)
      → ld.role ≡ leader
      → get_elem? ld.next_index p ≡ some next
      → ld.log.snap_index < next
      → append_request ld p ≡ some args
      → append_entries gob fl args now ≡ some (fl', reply)
      → append_reply gob ld p ld.current_term args reply ≡ some ld'
      → replicate_once gob ld fl p now ≡ some (ld', fl')
  unfolding replicate_once behind_snapshot call_begin exchange_append
  replicate_append ld fl ld' fl' p now next args reply leads at_next above built sent heard =
      rw
        (
          at_next,
          lt→leb next ld.log.snap_index above,
          ap (λ r. same_role r leader) leads,
          built,
          sent,
          heard,
        )
        refl

  -- One in which the snapshot is sent.
  pub replicate_snapshot :
      (ld fl ld' fl' : Raft C) (p now next : ℕ) (reply : InstallSnapshotReply)
      (msgs : List (ApplyMsg C))
      → ld.role ≡ leader
      → get_elem? ld.next_index p ≡ some next
      → next ≤ ld.log.snap_index
      → handle_install_snapshot gob fl (snapshot_request ld) now ≡ some (fl', reply, msgs)
      → snapshot_reply gob ld p ld.current_term (snapshot_request ld) reply ≡ some ld'
      → replicate_once gob ld fl p now ≡ some (ld', fl')
  unfolding replicate_once behind_snapshot call_begin exchange_snapshot
  replicate_snapshot ld fl ld' fl' p now next reply msgs leads at_next below sent heard =
      rw
        (
          at_next,
          le→leb next ld.log.snap_index below,
          ap (λ r. same_role r leader) leads,
          sent,
          heard,
        )
        refl

  pub replicate_more :
      (ld fl ld' fl' : Raft C) (p now k : ℕ)
      → ld.role ≡ leader
      → replicate_once gob ld fl p now ≡ some (ld', fl')
      → replicate_for gob (suc k) ld fl p now ≡ replicate_for gob k ld' fl' p (now + 100)
  unfolding replicate_for
  replicate_more ld fl ld' fl' p now k leads once = rw (ap is_leader leads, once) refl
