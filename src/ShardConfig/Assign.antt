-- ===== src/ShardConfig/Assign.antt =====
-- `Rebalance` as a whole: every shard gets a group, and the loads are balanced.
use distributed_systems_mit.Base.{
  ℕ, zero, suc, ◌+◌, ◌-◌, ◌≤◌, ◌<◌, ◌≡◌, ◌≢◌, refl, sym, ap, subst, ◌∙◌, ◌⊎◌, inl, inr, true, false,
  some, List, [], ◌∷◌, length, map, get_elem?, set, ◌==◌, arith, Bool-cases, ltb, ltb→lt, ltb→le,
  ==→eq, ==→ne, eq_of_some,
}
use distributed_systems_mit.ShardConfig.{
  Groups, ShardConfig, count, least, has_group, assign_unassigned, sort, sorted_gids, no_groups,
  rebalance,
}
use distributed_systems_mit.ShardConfig.Loads.{Distinct, count-sort, analyze-Extremes}
use distributed_systems_mit.ShardConfig.Balance.{squares, IsBalanced, move_shards_lem}

-- Every shard has a group of the configuration.
abbrev pub AllServed : ShardConfig → Type 0
AllServed c = (j g : ℕ) → get_elem? c.shards j ≡ some g → 0 < count g (sorted_gids c.groups)

present_group : (g : ℕ) (gs : Groups) → has_group g gs ≡ true → 0 < count g (map (λ p. p.0) gs)
unfolding has_group count
present_group g [] h = ground arith
present_group g ((x, srvs) ∷ rest) h = ground (arith, present_group g rest)

pub sorted_here : (g : ℕ) (gs : Groups) → has_group g gs ≡ true → 0 < count g (sorted_gids gs)
unfolding sorted_gids
sorted_here g gs h = omega (arith, count-sort g (map (λ p. p.0) gs), present_group g gs h)

get_elem?-set :
    (xs : List ℕ) (i j v g : ℕ)
    → get_elem? (set xs i v) j ≡ some g
    → ((j ≡ i) × (g ≡ v)) ⊎ ((j ≢ i) × (get_elem? xs j ≡ some g))
get_elem?-set [] i j v g h = absurd (ground arith)
get_elem?-set (x ∷ xs) zero zero v g h = ground arith
get_elem?-set (x ∷ xs) zero (suc j) v g h = ground arith
get_elem?-set (x ∷ xs) (suc i) zero v g h = ground arith
get_elem?-set (x ∷ xs) (suc i) (suc j) v g h = ground (arith, get_elem?-set xs i j v g)

get_elem?-set_above : (xs : List ℕ) (i j v : ℕ) → i < j → get_elem? (set xs i v) j ≡ get_elem? xs j
get_elem?-set_above [] i j v h = refl
get_elem?-set_above (x ∷ xs) zero zero v h = absurd (omega arith)
get_elem?-set_above (x ∷ xs) zero (suc j) v h = refl
get_elem?-set_above (x ∷ xs) (suc i) zero v h = refl
get_elem?-set_above (x ∷ xs) (suc i) (suc j) v h = get_elem?-set_above xs i j v (omega arith)

length-set : (xs : List ℕ) (i v : ℕ) → length (set xs i v) ≡ length xs
length-set [] i v = refl
length-set (x ∷ xs) zero v = refl
length-set (x ∷ xs) (suc i) v = omega (arith, length-set xs i v)

-- The state of the loop at index `s`, with the shards still to see.
record Assigning (c c0 : ShardConfig) (s : ℕ) (rest : List ℕ) : Type 0 where
  same_groups : c0.groups ≡ c.groups
  same_num : c0.num ≡ c.num
  same_length : length c0.shards ≡ length c.shards
  below : (j g : ℕ) → j < s → get_elem? c0.shards j ≡ some g → 0 < count g (sorted_gids c.groups)
  ahead : (k : ℕ) → get_elem? c0.shards (s + k) ≡ get_elem? rest k

-- The shard at `s` keeps its group.
Assigning-keep :
    (c c0 : ShardConfig) (s g : ℕ) (rest : List ℕ)
    → Assigning c c0 s (g ∷ rest)
    → 0 < count g (sorted_gids c.groups)
    → Assigning c c0 (suc s) rest
Assigning-keep c c0 s g rest a here = record {
  same_groups = a.same_groups;
  same_num = a.same_num;
  same_length = a.same_length;
  below = λ j x h found. elim (Bool-cases (j == s)) [
    | inl q ↦
        subst (λ y. 0 < count y (sorted_gids c.groups))
          (eq_of_some (
            sym (a.ahead 0) ∙ ap (λ i. get_elem? c0.shards i) (omega (arith, ==→eq j s q)) ∙ found))
          here
    | inr ne ↦ a.below j x (omega (arith, ==→ne j s ne)) found
  ];
  ahead = λ k. ap (λ i. get_elem? c0.shards i) (omega arith) ∙ a.ahead (suc k);
}

-- The shard at `s` goes to a group.
Assigning-place :
    (c c0 : ShardConfig) (s g lg : ℕ) (rest : List ℕ)
    → Assigning c c0 s (g ∷ rest)
    → 0 < count lg (sorted_gids c.groups)
    → Assigning c (record c0 { shards = set c0.shards s lg }) (suc s) rest
Assigning-place c c0 s g lg rest a here = record {
  same_groups = a.same_groups;
  same_num = a.same_num;
  same_length = length-set c0.shards s lg ∙ a.same_length;
  below = λ j x h found. elim (get_elem?-set c0.shards s j lg x found) [
    | inl (q, is) ↦ subst (λ y. 0 < count y (sorted_gids c.groups)) (sym is) here
    | inr (ne, old) ↦ a.below j x (omega (arith, ne)) old
  ];
  ahead = λ k.
      get_elem?-set_above c0.shards s (suc s + k) lg (omega arith)
      ∙ ap (λ i. get_elem? c0.shards i) (omega arith)
      ∙ a.ahead (suc k);
}

-- What the loop over the unassigned shards leaves.
pub record Assigned (c c' : ShardConfig) : Type 0 where
  pub same_groups : c'.groups ≡ c.groups
  pub same_num : c'.num ≡ c.num
  pub same_length : length c'.shards ≡ length c.shards
  pub served : (j g : ℕ) → get_elem? c'.shards j ≡ some g → 0 < count g (sorted_gids c.groups)

assign_lem :
    (c c0 : ShardConfig) (x s : ℕ) (rest : List ℕ)
    → 0 < count x (sorted_gids c.groups)
    → length c.shards < 257
    → Assigning c c0 s rest
    → Assigned c (assign_unassigned c0 s rest)
unfolding assign_unassigned
assign_lem c c0 x s [] here few a = record {
  same_groups = a.same_groups;
  same_num = a.same_num;
  same_length = a.same_length;
  served = λ j g found. elim (Bool-cases (ltb j s)) [
    | inl early ↦ a.below j g (ltb→lt j s early) found
    | inr late ↦ absurd (
        ground (arith, a.ahead (j - s), ap (λ i. get_elem? c0.shards i) (over j (ltb→le j s late))))
  ];
}
  where
    over : (j : ℕ) → s ≤ j → s + (j - s) ≡ j
    over j h = omega arith
assign_lem c c0 x s (g ∷ rest) here few a = elim (Bool-cases (has_group g c0.groups)) [
  | inl kept ↦ rw kept (
      assign_lem c c0 x (suc s) rest here few (
        Assigning-keep c c0 s g rest a (
          subst (λ gs. 0 < count g (sorted_gids gs)) a.same_groups (sorted_here g c0.groups kept))))
  | inr lost ↦
      let (mg, mn, lg, ln, e) =
        analyze-Extremes c0 x (subst (λ gs. 0 < count x (sorted_gids gs)) (sym a.same_groups) here)
          (omega (arith, a.same_length)) in
      let found : least c0 ≡ some lg = unfold least in e.least_is in
      rw (lost, found)
        (assign_lem c (record c0 { shards = set c0.shards s lg }) x (suc s) rest here few
          (Assigning-place c c0 s g lg rest a
            (subst (λ gs. 0 < count lg (sorted_gids gs)) a.same_groups e.least_here)))
]

pub assign-Assigned :
    (c : ShardConfig) (x : ℕ)
    → 0 < count x (sorted_gids c.groups)
    → length c.shards < 257
    → Assigned c (assign_unassigned c 0 c.shards)
assign-Assigned c x here few = assign_lem c c x 0 c.shards here few (record {
  same_groups = refl;
  same_num = refl;
  same_length = refl;
  below = λ j g h found. absurd (omega arith);
  ahead = λ k. ap (λ i. get_elem? c.shards i) (omega arith);
})

-- A group that is in the configuration.
abbrev pub InGroups : ℕ → ShardConfig → Type 0
InGroups g c = 0 < count g (sorted_gids c.groups)

has_some : (gs : Groups) (g : ℕ) → 0 < count g (sorted_gids gs) → no_groups gs ≡ false
unfolding sorted_gids sort count
has_some [] g h = absurd (omega arith)
has_some (x ∷ gs) g h = refl

-- Rebalancing a configuration that has a group, numbers its groups apart and has fewer than 257
-- shards ends, on fuel above the sum of the squares of the loads once the unassigned shards are
-- placed. Then every shard is with a group of the configuration, the loads of two groups differ by
-- at most one, and the groups, the number of shards and the configuration's number are the same.
pub rebalance_lem :
    (fuel : ℕ) (c : ShardConfig) (g : ℕ)
    → Distinct c.groups
    → InGroups g c
    → length c.shards < 257
    → squares
        (assign_unassigned c 0 c.shards).shards
        (sorted_gids (assign_unassigned c 0 c.shards).groups)
      < fuel
    → (c' : ShardConfig) × (rebalance fuel c ≡ some c')
      × AllServed c'
      × IsBalanced c'
      × (c'.groups ≡ c.groups)
      × (length c'.shards ≡ length c.shards)
      × (c'.num ≡ c.num)
unfolding rebalance
rebalance_lem fuel c g d here few enough =
    let c1 = assign_unassigned c 0 c.shards in
    let a = assign-Assigned c g here few in
    let back = sym a.same_groups in
    let (c', done, r) =
      move_shards_lem fuel c1 g (subst Distinct back d)
        (subst (λ gs. 0 < count g (sorted_gids gs)) back here) (omega (arith, a.same_length))
        enough in
    let all : AllServed c1 =
      λ j x h. subst (λ gs. 0 < count x (sorted_gids gs)) back (a.served j x h) in
    (
      c',
      rw (has_some c.groups g here) done,
      λ j x h. subst (λ gs. 0 < count x (sorted_gids gs)) (sym r.same_groups) (r.served all j x h),
      r.close,
      r.same_groups ∙ a.same_groups,
      r.same_length ∙ a.same_length,
      r.same_num ∙ a.same_num,
    )
