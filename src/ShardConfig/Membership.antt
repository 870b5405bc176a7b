-- ===== src/ShardConfig/Membership.antt =====
-- `Join` and `Leave`, and their rebalancing: the groups that a configuration then has, and that no
-- two of them share a server.
use Prim.Native.String.{String}
use distributed_systems_mit.Base.{
  ℕ, ◌+◌, ◌*◌, ◌<◌, ◌≡◌, refl, sym, ◌∙◌, subst, Bool-cases, true, false, inl, inr, Option, none,
  some, List, [], ◌∷◌, length, map, ◌==◌, eq→==, arith,
}
use distributed_systems_mit.ShardConfig.{
  Groups, ShardConfig, servers_of, has_group, count, server_taken, join_loop, join, join_balance,
}
use distributed_systems_mit.ShardConfig.Loads.{Distinct}
use distributed_systems_mit.ShardConfig.Balance.{IsBalanced}
use distributed_systems_mit.ShardConfig.Assign.{AllServed, sorted_here}
use distributed_systems_mit.ShardConfig.Fuel.{rebalance_enough}

-- No two groups share a server.
abbrev pub Apart : Groups → Type 0
Apart [] = Unit
Apart ((g, srvs) ∷ rest) = (server_taken srvs rest ≡ false) × Apart rest

-- Groups that may join, one after the other.
abbrev pub Fresh : Groups → Groups → Type 0
Fresh gs [] = Unit
Fresh gs ((gid, srvs) ∷ rest) =
    (has_group gid gs ≡ false) × (server_taken srvs gs ≡ false) × Fresh ((gid, srvs) ∷ gs) rest

-- The servers of a group, from the new groups or from the old ones.
abbrev or_else : Option (List String) → Option (List String) → Option (List String)
or_else none o = o
or_else (some srvs) o = some srvs

pub record Joined (gs new gs' : Groups) : Type 0 where
  pub distinct : Distinct gs'
  pub apart : Apart gs'
  pub serves : (gid : ℕ) → servers_of gid gs' ≡ or_else (servers_of gid new) (servers_of gid gs)

absent_count :
    (gid : ℕ) (gs : Groups) → has_group gid gs ≡ false → count gid (map (λ p. p.0) gs) ≡ 0
unfolding has_group count
absent_count gid [] h = refl
absent_count gid ((g, srvs) ∷ rest) h = ground (arith, absent_count gid rest)

Distinct-cons :
    (gid : ℕ) (srvs : List String) (gs : Groups)
    → has_group gid gs ≡ false
    → Distinct gs
    → Distinct ((gid, srvs) ∷ gs)
unfolding count
Distinct-cons gid srvs gs h d g = ground (arith, absent_count gid gs h, d g)

-- A group that is there does not join.
not_new :
    (gid : ℕ) (gs new : Groups) → Fresh gs new → has_group gid gs ≡ true → servers_of gid new ≡ none
unfolding servers_of has_group
not_new gid gs [] f h = refl
not_new gid gs ((g, srvs) ∷ rest) (absent, free, f) h =
    ground (arith, not_new gid ((g, srvs) ∷ gs) rest f)

serves_step :
    (x gid : ℕ) (srvs : List String) (gs rest : Groups)
    → Fresh gs ((gid, srvs) ∷ rest)
    → or_else (servers_of x rest) (servers_of x ((gid, srvs) ∷ gs))
      ≡ or_else (servers_of x ((gid, srvs) ∷ rest)) (servers_of x gs)
unfolding servers_of has_group
serves_step x gid srvs gs rest (absent, free, f) = elim (Bool-cases (gid == x)) [
  | inr other ↦ rw other refl
  | inl same ↦ let gone = not_new x ((gid, srvs) ∷ gs) rest f (rw same refl) in rw (same, gone) refl
]

join_loop_lem :
    (c : ShardConfig) (new : Groups)
    → Distinct c.groups
    → Apart c.groups
    → Fresh c.groups new
    → (gs' : Groups) × (join_loop c new true
        ≡ some (record c { num = c.num + 1; groups = gs' }, true))
      × Joined c.groups new gs'
unfolding join_loop servers_of
join_loop_lem c [] d a f = (c.groups, refl, record { distinct = d; apart = a; serves = λ x. refl })
join_loop_lem c ((gid, srvs) ∷ rest) d a f =
    let (absent, free, later) = f in
    let (gs', done, j) =
      join_loop_lem (record c { groups = (gid, srvs) ∷ c.groups }) rest
        (Distinct-cons gid srvs c.groups absent d) (free, a) later in
    (
      gs',
      rw (absent, free) done,
      record {
        distinct = j.distinct;
        apart = j.apart;
        serves = λ x. j.serves x ∙ serves_step x gid srvs c.groups rest f;
      },
    )

-- At least one group joins.
join_lem :
    (c : ShardConfig) (gid : ℕ) (srvs : List String) (rest : Groups)
    → Distinct c.groups
    → Apart c.groups
    → Fresh c.groups ((gid, srvs) ∷ rest)
    → (gs' : Groups) × (join c ((gid, srvs) ∷ rest)
        ≡ some (record c { num = c.num + 1; groups = gs' }, true))
      × Joined c.groups ((gid, srvs) ∷ rest) gs'
unfolding join join_loop
join_lem c gid srvs rest d a f = join_loop_lem c ((gid, srvs) ∷ rest) d a f

head_present :
    (gid : ℕ) (srvs : List String) (gs rest gs' : Groups)
    → Joined gs ((gid, srvs) ∷ rest) gs'
    → has_group gid gs' ≡ true
unfolding has_group servers_of
head_present gid srvs gs rest gs' j = rw (j.serves gid, eq→== gid gid refl) refl

-- When the groups of a configuration have different numbers and share no server, and at least one
-- group joins, each with a number that is not taken and no server that is: on more fuel than the
-- square of the number of shards, of which there are fewer than 257, JoinBalance succeeds. Then each
-- joined group has its servers and each old one those it had, no two share a number or a server,
-- every shard is with one of them, their loads differ by at most one, and the configuration's number
-- is one higher.
pub join_balance_lem :
    (fuel : ℕ) (c : ShardConfig) (gid : ℕ) (srvs : List String) (rest : Groups)
    → Distinct c.groups
    → Apart c.groups
    → Fresh c.groups ((gid, srvs) ∷ rest)
    → length c.shards < 257
    → length c.shards * length c.shards < fuel
    → (c' : ShardConfig) × (join_balance fuel c ((gid, srvs) ∷ rest) ≡ some (c', true))
      × Joined c.groups ((gid, srvs) ∷ rest) c'.groups
      × AllServed c'
      × IsBalanced c'
      × (c'.num ≡ c.num + 1)
      × (length c'.shards ≡ length c.shards)
unfolding join_balance
join_balance_lem fuel c gid srvs rest d a f few enough =
    let (gs', joined, j) = join_lem c gid srvs rest d a f in
    let c1 = record c { num = c.num + 1; groups = gs' } in
    let here = sorted_here gid gs' (head_present gid srvs c.groups rest gs' j) in
    let (c', done, served, balanced, groups_is, length_is, num_is) =
      rebalance_enough fuel c1 gid j.distinct here few enough in
    (
      c',
      rw (joined, done) refl,
      subst (Joined c.groups ((gid, srvs) ∷ rest)) (sym groups_is) j,
      served,
      balanced,
      num_is,
      length_is,
    )
