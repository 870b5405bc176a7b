-- ===== src/ShardConfig/Balance.antt =====
-- The last loop of `Rebalance`: it ends, and then the loads differ by at most one. The sum of the
-- squares of the loads falls with each shard that moves.
use distributed_systems_mit.Base.{
  ℕ, zero, suc, ◌+◌, ◌*◌, ◌≤◌, ◌<◌, ◌≡◌, ◌≢◌, refl, sym, ap, ◌∙◌, ◌⊎◌, inl, inr, some, none, List,
  [], ◌∷◌, length, map, get_elem?, subst, ltb, ◌==◌, if◌then◌else◌, arith, Bool-cases, ltb→lt,
  ltb→le, ==→eq, ==→ne, ne→==,
}
use distributed_systems_mit.ShardConfig.{
  ShardConfig, count, move_shard, round, move_shards, sorted_gids,
}
use distributed_systems_mit.ShardConfig.Loads.{Distinct, count-sort, Extremes, analyze-Extremes}

count-move_most :
    (mg lg : ℕ) (shards : List ℕ)
    → mg ≢ lg
    → 0 < count mg shards
    → suc (count mg (move_shard mg lg shards)) ≡ count mg shards
unfolding count move_shard
count-move_most mg lg [] ne h = absurd (omega arith)
count-move_most mg lg (s ∷ rest) ne h = ground (arith, count-move_most mg lg rest ne)

count-move_least :
    (mg lg : ℕ) (shards : List ℕ)
    → mg ≢ lg
    → 0 < count mg shards
    → count lg (move_shard mg lg shards) ≡ suc (count lg shards)
unfolding count move_shard
count-move_least mg lg [] ne h = absurd (omega arith)
count-move_least mg lg (s ∷ rest) ne h = ground (arith, count-move_least mg lg rest ne)

count-move_other :
    (mg lg g : ℕ) (shards : List ℕ)
    → g ≢ mg
    → g ≢ lg
    → count g (move_shard mg lg shards) ≡ count g shards
unfolding count move_shard
count-move_other mg lg g [] nm nl = refl
count-move_other mg lg g (s ∷ rest) nm nl = ground (arith, count-move_other mg lg g rest nm nl)

pub length-move_shard :
    (mg lg : ℕ) (shards : List ℕ) → length (move_shard mg lg shards) ≡ length shards
unfolding move_shard
length-move_shard mg lg [] = refl
length-move_shard mg lg (s ∷ rest) = ground (arith, length-move_shard mg lg rest)

-- A group with a shard after the move had it before, or is the one that got it.
pub elem-move_shard :
    (mg lg j g : ℕ) (shards : List ℕ)
    → get_elem? (move_shard mg lg shards) j ≡ some g
    → (g ≡ lg) ⊎ (get_elem? shards j ≡ some g)
unfolding move_shard
elem-move_shard mg lg j g [] h = inr h
elem-move_shard mg lg zero g (s ∷ rest) h = ground arith
elem-move_shard mg lg (suc j) g (s ∷ rest) h = ground (arith, elem-move_shard mg lg j g rest)

-- The squares of the loads of the groups.
unfoldable pub squares : List ℕ → List ℕ → ℕ
squares shards [] = 0
squares shards (g ∷ gids) = count g shards * count g shards + squares shards gids

-- `k` for each time that `g` is among the groups.
weight : ℕ → ℕ → List ℕ → ℕ
weight k g [] = 0
weight k g (x ∷ gids) = (if x == g then k else 0) + weight k g gids

weight_absent : (k g : ℕ) (gids : List ℕ) → count g gids ≡ 0 → weight k g gids ≡ 0
unfolding count weight
weight_absent k g [] h = refl
weight_absent k g (x ∷ gids) h = ground (arith, weight_absent k g gids)

weight_once : (k g : ℕ) (gids : List ℕ) → count g gids ≡ 1 → weight k g gids ≡ k
unfolding count weight
weight_once k g [] h = absurd (omega arith)
weight_once k g (x ∷ gids) h = ground (arith, weight_once k g gids, weight_absent k g gids)

square-suc : (n : ℕ) → suc n * suc n ≡ n * n + 2 * n + 1
square-suc n = omega arith

move_one :
    (mg lg m l x : ℕ) (shards : List ℕ)
    → mg ≢ lg
    → count mg shards ≡ suc m
    → count lg shards ≡ l
    → count x (move_shard mg lg shards) * count x (move_shard mg lg shards)
        + (if x == mg then 2 * m + 1 else 0)
      ≡ count x shards * count x shards + (if x == lg then 2 * l + 1 else 0)
move_one mg lg m l x shards ne cm cl =
    let after = move_shard mg lg shards in
    elim (Bool-cases (x == mg)) [
      | inl from ↦
          let q = ==→eq x mg from in
          let before_is : count x shards ≡ suc m = ap (λ y. count y shards) q ∙ cm in
          let after_is : count x after ≡ m =
            ap (λ y. count y after) q
            ∙ omega (arith, count-move_most mg lg shards ne (omega (arith, cm)), cm) in
          rw (from, ne→== x lg (λ r. ne (sym q ∙ r)), before_is, after_is) (omega arith)
      | inr not_from ↦ elim (Bool-cases (x == lg)) [
        | inl to ↦
            let q = ==→eq x lg to in
            let before_is : count x shards ≡ l = ap (λ y. count y shards) q ∙ cl in
            let after_is : count x after ≡ suc l =
              ap (λ y. count y after) q
              ∙ count-move_least mg lg shards ne (omega (arith, cm))
              ∙ ap suc cl in
            rw (not_from, to, before_is, after_is) (omega arith)
        | inr not_to ↦
            rw
              (
                not_from,
                not_to,
                count-move_other mg lg x shards (==→ne x mg not_from) (==→ne x lg not_to),
              )
              refl
      ]
    ]

squares-move :
    (mg lg m l : ℕ) (shards gids : List ℕ)
    → mg ≢ lg
    → count mg shards ≡ suc m
    → count lg shards ≡ l
    → squares (move_shard mg lg shards) gids + weight (2 * m + 1) mg gids
      ≡ squares shards gids + weight (2 * l + 1) lg gids
unfolding squares weight
squares-move mg lg m l shards [] ne cm cl = refl
squares-move mg lg m l shards (x ∷ gids) ne cm cl =
    omega (arith, move_one mg lg m l x shards ne cm cl, squares-move mg lg m l shards gids ne cm cl)

-- No two groups have loads that differ by more than one.
pub record IsBalanced (c : ShardConfig) : Type 0 where
  pub close :
      (g h : ℕ)
      → 0 < count g (sorted_gids c.groups)
      → 0 < count h (sorted_gids c.groups)
      → count g c.shards ≤ count h c.shards + 1

once :
    (c : ShardConfig) (g : ℕ)
    → Distinct c.groups
    → 0 < count g (sorted_gids c.groups)
    → count g (sorted_gids c.groups) ≡ 1
unfolding sorted_gids
once c g d h = omega (arith, count-sort g (map (λ p. p.0) c.groups), d g)

falls :
    (shards gids : List ℕ) (mg lg mn ln : ℕ)
    → count mg shards ≡ mn
    → count lg shards ≡ ln
    → count mg gids ≡ 1
    → count lg gids ≡ 1
    → ln + 2 ≤ mn
    → squares (move_shard mg lg shards) gids < squares shards gids
falls shards gids mg lg zero ln cm cl om ol far = absurd (omega arith)
falls shards gids mg lg (suc m) ln cm cl om ol far = omega (
  arith,
  squares-move mg lg m ln shards gids (λ q. apart q) cm cl,
  weight_once (2 * m + 1) mg gids om,
  weight_once (2 * ln + 1) lg gids ol,
)
  where
    apart : mg ≢ lg
    apart q = omega (arith, ap (λ g. count g shards) q, cm, cl)

-- A configuration with one shard moved.
abbrev pub moved : ShardConfig → ℕ → ℕ → ShardConfig
moved c mg lg = record c { shards = move_shard mg lg c.shards }

-- One round either finds the loads balanced or moves a shard between two groups.
round_cases :
    (c : ShardConfig) (mg mn lg ln : ℕ)
    → Distinct c.groups
    → Extremes c mg mn lg ln
    → ((round c ≡ none) × IsBalanced c)
      ⊎ ((round c ≡ some (moved c mg lg))
          × (squares (move_shard mg lg c.shards) (sorted_gids c.groups)
              < squares c.shards (sorted_gids c.groups)))
unfolding round
round_cases c mg mn lg ln d e = elim (Bool-cases (ltb mn (ln + 2))) [
  | inl close ↦ inl (
    rw (e.most_is, e.least_is, e.least_n_is, close) refl,
    record {
      close =
          λ g h gi hi. omega (arith, e.most_max g gi, e.least_min h hi, ltb→lt mn (ln + 2) close);
    },
  )
  | inr far ↦ inr (
    rw (e.most_is, e.least_is, e.least_n_is, far) refl,
    falls c.shards (sorted_gids c.groups) mg lg mn ln (sym e.most_count) (sym e.least_count)
        (once c mg d e.most_here) (once c lg d e.least_here) (ltb→le mn (ln + 2) far),
  )
]

-- What the last loop leaves: the loads are balanced, and every shard has a group from before.
pub record Rebalanced (c c' : ShardConfig) : Type 0 where
  pub close : IsBalanced c'
  pub same_groups : c'.groups ≡ c.groups
  pub same_num : c'.num ≡ c.num
  pub same_length : length c'.shards ≡ length c.shards
  pub served :
      ((j g : ℕ) → get_elem? c.shards j ≡ some g → 0 < count g (sorted_gids c.groups))
      → (j g : ℕ) → get_elem? c'.shards j ≡ some g
      → 0 < count g (sorted_gids c.groups)

Rebalanced-step :
    (c c' : ShardConfig) (mg lg : ℕ)
    → 0 < count lg (sorted_gids c.groups)
    → Rebalanced (moved c mg lg) c'
    → Rebalanced c c'
Rebalanced-step c c' mg lg here r = record {
  close = r.close;
  same_groups = r.same_groups;
  same_num = r.same_num;
  same_length = r.same_length ∙ length-move_shard mg lg c.shards;
  served = λ all. r.served (λ j g h. elim (elem-move_shard mg lg j g c.shards h) [
    | inl new ↦ subst (λ x. 0 < count x (sorted_gids c.groups)) (sym new) here
    | inr old ↦ all j g old
  ]);
}

-- With more fuel than the sum of the squares of the loads the loop ends, and balances them.
pub move_shards_lem :
    (fuel : ℕ) (c : ShardConfig) (g : ℕ)
    → Distinct c.groups
    → 0 < count g (sorted_gids c.groups)
    → length c.shards < 257
    → squares c.shards (sorted_gids c.groups) < fuel
    → (c' : ShardConfig) × (move_shards fuel c ≡ some c') × Rebalanced c c'
unfolding move_shards
move_shards_lem zero c g d here few enough = absurd (omega arith)
move_shards_lem (suc fuel) c g d here few enough =
    let (mg, mn, lg, ln, e) = analyze-Extremes c g here few in
    elim (round_cases c mg mn lg ln d e) [
      | inl (done, close) ↦ (
        c,
        rw (done, move_shards) refl,
        record {
          close = close;
          same_groups = refl;
          same_num = refl;
          same_length = refl;
          served = λ all. all;
        },
      )
      | inr (more, less) ↦
          let (c', done, r) =
            move_shards_lem fuel (moved c mg lg) g d here
              (omega (arith, length-move_shard mg lg c.shards)) (omega arith) in
          (c', rw (more, move_shards) done, Rebalanced-step c c' mg lg e.least_here r)
    ]
