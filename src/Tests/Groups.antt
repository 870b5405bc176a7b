-- ===== src/Tests/Groups.antt =====
-- Groups that join and leave.
use distributed_systems_mit.Base.{◌+◌, ◌≡◌, refl, true, false, some, [], ◌∷◌, ◌++◌, length, arith}
use distributed_systems_mit.ShardConfig.{
  ShardConfig, Groups, count, has_group, server_taken, remove_group, join_balance, leave_balance,
  leave,
}
use distributed_systems_mit.ShardConfig.Loads.{Distinct}
use distributed_systems_mit.ShardConfig.Balance.{IsBalanced}
use distributed_systems_mit.ShardConfig.Assign.{AllServed}
use distributed_systems_mit.ShardConfig.Membership.{Apart, Fresh, Joined, join_balance_lem}
use distributed_systems_mit.ShardConfig.Departure.{
  Leaving, Stayed, remove_all, leave_balance_lem, leave_partial,
}

abbrev two_groups : ShardConfig
two_groups = record {
  num = 4;
  shards = 1 ∷ 1 ∷ 1 ∷ 1 ∷ 1 ∷ 1 ∷ 2 ∷ 2 ∷ 2 ∷ 2 ∷ 2 ∷ 2 ∷ [];
  groups = (2, "b" ∷ []) ∷ (1, "a" ∷ []) ∷ [];
}

two_groups-Distinct : Distinct two_groups.groups
unfolding count
two_groups-Distinct g = ground arith

two_groups-Apart : Apart two_groups.groups
unfolding server_taken
two_groups-Apart = (refl, (refl, tt))

abbrev third : Groups
third = (3, "c" ∷ []) ∷ []

third-Fresh : Fresh two_groups.groups third
unfolding has_group server_taken
third-Fresh = (refl, refl, tt)

join_balance_lem_example :
    (c : ShardConfig) × (join_balance 145 two_groups third ≡ some (c, true))
    × Joined two_groups.groups third c.groups
    × AllServed c
    × IsBalanced c
    × (c.num ≡ 4 + 1)
    × (length c.shards ≡ 12)
join_balance_lem_example =
    join_balance_lem 145 two_groups 3 ("c" ∷ []) [] two_groups-Distinct two_groups-Apart third-Fresh
      (omega arith) (omega arith)

first-Leaving : Leaving two_groups.groups (1 ∷ [])
unfolding has_group
first-Leaving = (refl, tt)

leave_balance_lem_example :
    (c : ShardConfig) × (leave_balance 145 two_groups (1 ∷ []) ≡ some (c, true))
    × Stayed two_groups.groups (1 ∷ []) c.groups
    × AllServed c
    × IsBalanced c
    × (c.num ≡ 4 + 1)
    × (length c.shards ≡ 12)
unfolding has_group count
leave_balance_lem_example =
    leave_balance_lem 145 two_groups 1 [] 2 two_groups-Distinct two_groups-Apart first-Leaving refl
      refl (omega arith) (omega arith)

leave_partial_example :
    leave two_groups ((1 ∷ []) ++ 9 ∷ [])
    ≡ some (record two_groups { groups = remove_all (1 ∷ []) two_groups.groups }, false)
unfolding has_group remove_group
leave_partial_example = leave_partial two_groups (1 ∷ []) 9 [] first-Leaving refl
