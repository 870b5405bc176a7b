-- ===== src/Tests/Shards.antt =====
-- Twelve shards, of which one group has five, another one two, and five none.
use distributed_systems_mit.Base.{◌≡◌, some, [], ◌∷◌, length, arith}
use distributed_systems_mit.ShardConfig.{
  ShardConfig, count, rebalance, assign_unassigned, least, analyze, sorted_gids, has_group,
}
use distributed_systems_mit.ShardConfig.Loads.{Distinct}
use distributed_systems_mit.ShardConfig.Balance.{squares, IsBalanced}
use distributed_systems_mit.ShardConfig.Assign.{AllServed, rebalance_lem}

abbrev three_groups : ShardConfig
three_groups = record {
  num = 4;
  shards = 1 ∷ 1 ∷ 1 ∷ 1 ∷ 1 ∷ 2 ∷ 2 ∷ 0 ∷ 0 ∷ 0 ∷ 0 ∷ 0 ∷ [];
  groups = (2, "b" ∷ []) ∷ (1, "a" ∷ []) ∷ (3, "c" ∷ []) ∷ [];
}

three_groups-Distinct : Distinct three_groups.groups
unfolding count
three_groups-Distinct g = ground arith

rebalance_lem_example :
    (c : ShardConfig) × (rebalance 200 three_groups ≡ some c)
    × AllServed c
    × IsBalanced c
    × (c.groups ≡ three_groups.groups)
    × (length c.shards ≡ 12)
    × (c.num ≡ 4)
unfolding count sorted_gids squares assign_unassigned least analyze has_group
rebalance_lem_example =
    rebalance_lem 200 three_groups 1 three_groups-Distinct (omega arith) (omega arith) (omega arith)
