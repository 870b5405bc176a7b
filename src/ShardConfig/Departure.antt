-- ===== src/ShardConfig/Departure.antt =====
-- `Leave` and its rebalancing: the groups that stay, and what a failed `Leave` has done.
use Prim.Native.String.{String}
use distributed_systems_mit.Base.{
  ℕ, ◌+◌, ◌*◌, ◌≤◌, ◌<◌, ◌≡◌, refl, sym, ◌∙◌, subst, Bool, Bool-cases, true, false, inl, inr, none,
  some, List, [], ◌∷◌, ◌++◌, length, map, ◌==◌, ltb, if◌then◌else◌, arith,
}
use distributed_systems_mit.ShardConfig.{
  Groups, ShardConfig, servers_of, has_group, count, server_taken, remove_group, leave_loop, leave,
  leave_balance,
}
use distributed_systems_mit.ShardConfig.Loads.{Distinct}
use distributed_systems_mit.ShardConfig.Balance.{IsBalanced}
use distributed_systems_mit.ShardConfig.Assign.{AllServed, sorted_here}
use distributed_systems_mit.ShardConfig.Fuel.{rebalance_enough}
use distributed_systems_mit.ShardConfig.Membership.{Apart}

-- Groups that are there to leave, one after the other.
abbrev pub Leaving : Groups → List ℕ → Type 0
Leaving gs [] = Unit
Leaving gs (gid ∷ rest) = (has_group gid gs ≡ true) × Leaving (remove_group gid gs) rest

abbrev pub remove_all : List ℕ → Groups → Groups
remove_all [] gs = gs
remove_all (gid ∷ rest) gs = remove_all rest (remove_group gid gs)

pub record Stayed (gs : Groups) (gids : List ℕ) (gs' : Groups) : Type 0 where
  pub distinct : Distinct gs'
  pub apart : Apart gs'
  pub serves : (x : ℕ) → servers_of x gs' ≡ (if ltb 0 (count x gids) then none else servers_of x gs)

servers_of-remove_group :
    (x gid : ℕ) (gs : Groups)
    → servers_of x (remove_group gid gs) ≡ (if gid == x then none else servers_of x gs)
unfolding servers_of remove_group
servers_of-remove_group x gid [] = ground arith
servers_of-remove_group x gid ((g, srvs) ∷ rest) =
    ground (arith, servers_of-remove_group x gid rest)

count-remove_group :
    (x gid : ℕ) (gs : Groups)
    → count x (map (λ p. p.0) (remove_group gid gs)) ≤ count x (map (λ p. p.0) gs)
unfolding count remove_group
count-remove_group x gid [] = omega arith
count-remove_group x gid ((g, srvs) ∷ rest) = ground (arith, count-remove_group x gid rest)

taken-remove_group :
    (srvs : List String) (gid : ℕ) (gs : Groups)
    → server_taken srvs gs ≡ false
    → server_taken srvs (remove_group gid gs) ≡ false
unfolding server_taken remove_group
taken-remove_group srvs gid [] h = refl
taken-remove_group srvs gid ((g, x) ∷ rest) h = ground (arith, taken-remove_group srvs gid rest)

remove_group-Apart : (gid : ℕ) (gs : Groups) → Apart gs → Apart (remove_group gid gs)
unfolding remove_group
remove_group-Apart gid [] a = tt
remove_group-Apart gid ((g, srvs) ∷ rest) (free, a) = elim (Bool-cases (g == gid)) [
  | inl gone ↦ rw gone (remove_group-Apart gid rest a)
  | inr kept ↦ rw kept (taken-remove_group srvs gid rest free, remove_group-Apart gid rest a)
]

remove_all-Stayed :
    (gids : List ℕ) (gs : Groups) → Distinct gs → Apart gs → Stayed gs gids (remove_all gids gs)
unfolding count
remove_all-Stayed [] gs d a = record { distinct = d; apart = a; serves = λ x. refl }
remove_all-Stayed (gid ∷ rest) gs d a =
    let s =
      remove_all-Stayed rest (remove_group gid gs)
        (λ x. omega (arith, count-remove_group x gid gs, d x)) (remove_group-Apart gid gs a) in
    record {
      distinct = s.distinct;
      apart = s.apart;
      serves = λ x. s.serves x ∙ ground (arith, servers_of-remove_group x gid gs);
    }

leave_loop_lem :
    (c : ShardConfig) (gids : List ℕ)
    → Leaving c.groups gids
    → leave_loop c gids true
      ≡ some (record c { num = c.num + 1; groups = remove_all gids c.groups }, true)
unfolding leave_loop
leave_loop_lem c [] l = refl
leave_loop_lem c (gid ∷ rest) (here, l) =
    rw here (leave_loop_lem (record c { groups = remove_group gid c.groups }) rest l)

-- When the groups of a configuration have different numbers and share no server, at least one group
-- leaves, all that leave are there and named once, and another one is there: on more fuel than the
-- square of the number of shards, of which there are fewer than 257, LeaveBalance succeeds. Then the
-- groups that left are gone and the others have the servers they had, no two share a number or a
-- server, every shard is with one of them, their loads differ by at most one, and the
-- configuration's number is one higher.
pub leave_balance_lem :
    (fuel : ℕ) (c : ShardConfig) (gid : ℕ) (rest : List ℕ) (other : ℕ)
    → Distinct c.groups
    → Apart c.groups
    → Leaving c.groups (gid ∷ rest)
    → has_group other c.groups ≡ true
    → count other (gid ∷ rest) ≡ 0
    → length c.shards < 257
    → length c.shards * length c.shards < fuel
    → (c' : ShardConfig) × (leave_balance fuel c (gid ∷ rest) ≡ some (c', true))
      × Stayed c.groups (gid ∷ rest) c'.groups
      × AllServed c'
      × IsBalanced c'
      × (c'.num ≡ c.num + 1)
      × (length c'.shards ≡ length c.shards)
unfolding leave_balance leave leave_loop has_group
leave_balance_lem fuel c gid rest other d a (here, l) there stays few enough =
    let gs' = remove_all (gid ∷ rest) c.groups in
    let s = remove_all-Stayed (gid ∷ rest) c.groups d a in
    let c1 = record c { num = c.num + 1; groups = gs' } in
    let left = leave_loop_lem (record c { groups = remove_group gid c.groups }) rest l in
    let still : has_group other gs' ≡ true = rw (s.serves other, stays) there in
    let (c', done, served, balanced, groups_is, length_is, num_is) =
      rebalance_enough fuel c1 other s.distinct (sorted_here other gs' still) few enough in
    (
      c',
      rw (here, left, done) refl,
      subst (Stayed c.groups (gid ∷ rest)) (sym groups_is) s,
      served,
      balanced,
      num_is,
      length_is,
    )

leave_loop_partial :
    (c : ShardConfig) (before : List ℕ) (missing : ℕ) (after : List ℕ) (changed : Bool)
    → Leaving c.groups before
    → has_group missing (remove_all before c.groups) ≡ false
    → leave_loop c (before ++ missing ∷ after) changed
      ≡ some (record c { groups = remove_all before c.groups }, false)
unfolding leave_loop
leave_loop_partial c [] missing after changed l absent = rw absent refl
leave_loop_partial c (gid ∷ rest) missing after changed (here, l) absent = rw here (
    leave_loop_partial (record c { groups = remove_group gid c.groups }) rest missing after true l
      absent)

-- A Leave that meets a group that is not there, after others that were, answers false: those others
-- are gone all the same, and the configuration's number and shards are as before.
pub leave_partial :
    (c : ShardConfig) (before : List ℕ) (missing : ℕ) (after : List ℕ)
    → Leaving c.groups before
    → has_group missing (remove_all before c.groups) ≡ false
    → leave c (before ++ missing ∷ after)
      ≡ some (record c { groups = remove_all before c.groups }, false)
unfolding leave
leave_partial c before missing after l absent =
    leave_loop_partial c before missing after false l absent
