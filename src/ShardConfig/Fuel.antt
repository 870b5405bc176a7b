-- ===== src/ShardConfig/Fuel.antt =====
-- Enough fuel for `Rebalance`: more than the square of the number of shards.
use native.Mathlib.Nat.{mul-le-mul_left, mul-le-mul_right}
use distributed_systems_mit.Base.{
  ℕ, ◌+◌, ◌*◌, ◌≤◌, ◌<◌, ◌≡◌, refl, sym, ap, subst, some, List, [], ◌∷◌, length, map, arith,
}
use distributed_systems_mit.ShardConfig.{
  ShardConfig, count, sorted_gids, assign_unassigned, rebalance,
}
use distributed_systems_mit.ShardConfig.Loads.{Distinct, count-le-length, count-sort}
use distributed_systems_mit.ShardConfig.Balance.{squares, IsBalanced}
use distributed_systems_mit.ShardConfig.Assign.{AllServed, InGroups, assign-Assigned, rebalance_lem}

-- The sum of the loads.
loads : List ℕ → List ℕ → ℕ
loads shards [] = 0
loads shards (g ∷ gids) = count g shards + loads shards gids

loads-cons :
    (s : ℕ) (shards gids : List ℕ) → loads (s ∷ shards) gids ≡ count s gids + loads shards gids
unfolding loads count
loads-cons s shards [] = refl
loads-cons s shards (g ∷ gids) = ground (arith, loads-cons s shards gids)

loads_none : (gids : List ℕ) → loads [] gids ≡ 0
unfolding loads count
loads_none [] = refl
loads_none (g ∷ gids) = omega (arith, loads_none gids)

loads-le-length :
    (shards gids : List ℕ) → ((g : ℕ) → count g gids ≤ 1) → loads shards gids ≤ length shards
loads-le-length [] gids d = omega (arith, loads_none gids)
loads-le-length (s ∷ shards) gids d =
    omega (arith, loads-cons s shards gids, d s, loads-le-length shards gids d)

squares-le-loads : (shards gids : List ℕ) → squares shards gids ≤ length shards * loads shards gids
unfolding squares loads
squares-le-loads shards [] = omega arith
squares-le-loads shards (g ∷ gids) = omega (
  arith,
  squares-le-loads shards gids,
  mul-le-mul_right (count g shards) (count-le-length g shards),
)

squares-le :
    (shards gids : List ℕ)
    → ((g : ℕ) → count g gids ≤ 1)
    → squares shards gids ≤ length shards * length shards
squares-le shards gids d = omega (
  arith,
  squares-le-loads shards gids,
  mul-le-mul_left (length shards) (loads-le-length shards gids d),
)

-- Rebalancing with more fuel than the square of the number of shards.
pub rebalance_enough :
    (fuel : ℕ) (c : ShardConfig) (g : ℕ)
    → Distinct c.groups
    → InGroups g c
    → length c.shards < 257
    → length c.shards * length c.shards < fuel
    → (c' : ShardConfig) × (rebalance fuel c ≡ some c')
      × AllServed c'
      × IsBalanced c'
      × (c'.groups ≡ c.groups)
      × (length c'.shards ≡ length c.shards)
      × (c'.num ≡ c.num)
unfolding sorted_gids
rebalance_enough fuel c g d here few enough =
    let c1 = assign_unassigned c 0 c.shards in
    let a = assign-Assigned c g here few in
    let d1 : Distinct c1.groups = subst Distinct (sym a.same_groups) d in
    let bound =
      squares-le c1.shards (sorted_gids c1.groups)
        (λ x. omega (arith, count-sort x (map (λ p. p.0) c1.groups), d1 x)) in
    let len2 : length c1.shards * length c1.shards ≡ length c.shards * length c.shards =
      ap (λ n. n * n) a.same_length in
    rebalance_lem fuel c g d here few (omega (arith, bound, len2, enough))
