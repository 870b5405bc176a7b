-- ===== src/ShardConfig/Loads.antt =====
-- What `analyze` finds: the groups with the most and the least shards.
use distributed_systems_mit.Base.{
  ℕ, ◌≤◌, ◌<◌, ◌≡◌, refl, ◌∙◌, ◌⊎◌, inl, inr, false, some, List, [], ◌∷◌, length, map, arith,
}
use distributed_systems_mit.ShardConfig.{
  Groups, ShardConfig, count, Analysis, more_than, consider, analyze_from, analyze, nothing_yet,
  insert_sorted, sort, sorted_gids,
}

pub count-le-length : (g : ℕ) (shards : List ℕ) → count g shards ≤ length shards
unfolding count
count-le-length g [] = omega arith
count-le-length g (s ∷ rest) = ground (arith, count-le-length g rest)

count-insert_sorted : (g x : ℕ) (xs : List ℕ) → count g (insert_sorted x xs) ≡ count g (x ∷ xs)
unfolding count insert_sorted
count-insert_sorted g x [] = refl
count-insert_sorted g x (y ∷ ys) = ground (arith, count-insert_sorted g x ys)

pub count-sort : (g : ℕ) (xs : List ℕ) → count g (sort xs) ≡ count g xs
unfolding count sort
count-sort g [] = refl
count-sort g (x ∷ xs) = ground (arith, count-sort g xs, count-insert_sorted g x (sort xs))

-- The groups of a configuration are numbered apart, as the keys of a map are.
abbrev pub Distinct : Groups → Type 0
Distinct gs = (g : ℕ) → count g (map (λ p. p.0) gs) ≤ 1

-- `r` is the analysis `a` with the groups `gids` taken in.
pub record Surveyed (shards gids : List ℕ) (a r : Analysis) : Type 0 where
  pub most_covers : (g : ℕ) → 0 < count g gids → more_than (count g shards) r.most ≡ false
  pub most_grows : (n : ℕ) → more_than n a.most ≡ false → more_than n r.most ≡ false
  pub most_from :
      (r.most ≡ a.most) ⊎ ((g : ℕ) × (0 < count g gids) × (r.most ≡ some (g, count g shards)))
  pub least_covers : (g : ℕ) → 0 < count g gids → r.least_n ≤ count g shards
  pub least_shrinks : r.least_n ≤ a.least_n
  pub least_from :
      ((r.least ≡ a.least) × (r.least_n ≡ a.least_n))
      ⊎ ((g : ℕ) × (0 < count g gids) × (r.least ≡ some g) × (r.least_n ≡ count g shards))

consider_most :
    (shards : List ℕ) (g : ℕ) (a : Analysis)
    → ((consider shards g a).most ≡ a.most)
      ⊎ ((consider shards g a).most ≡ some (g, count g shards))
unfolding consider
consider_most shards g a = ground arith

consider_least :
    (shards : List ℕ) (g : ℕ) (a : Analysis)
    → (((consider shards g a).least ≡ a.least) × ((consider shards g a).least_n ≡ a.least_n))
      ⊎ (((consider shards g a).least ≡ some g) × ((consider shards g a).least_n ≡ count g shards))
unfolding consider
consider_least shards g a = ground arith

consider-Surveyed :
    (shards : List ℕ) (g : ℕ) (a : Analysis) → Surveyed shards (g ∷ []) a (consider shards g a)
unfolding consider count
consider-Surveyed shards g a = record {
  most_covers = λ x h. ground arith;
  most_grows = λ n h. ground arith;
  most_from = elim (consider_most shards g a) [
    | inl same ↦ inl same
    | inr new ↦ inr (g, ground arith, new)
  ];
  least_covers = λ x h. ground arith;
  least_shrinks = ground arith;
  least_from = elim (consider_least shards g a) [
    | inl same ↦ inl same
    | inr (new, new_n) ↦ inr (g, ground arith, new, new_n)
  ];
}

count-cons_head : (g x : ℕ) (gids : List ℕ) → 0 < count x (g ∷ []) → 0 < count x (g ∷ gids)
unfolding count
count-cons_head g x gids h = ground arith

count-cons_tail : (g x : ℕ) (gids : List ℕ) → 0 < count x gids → 0 < count x (g ∷ gids)
unfolding count
count-cons_tail g x gids h = ground arith

count-cons_cases :
    (g x : ℕ) (gids : List ℕ) → 0 < count x (g ∷ gids) → (0 < count x (g ∷ [])) ⊎ (0 < count x gids)
unfolding count
count-cons_cases g x gids h = ground arith

Surveyed-cons :
    (shards gids : List ℕ) (g : ℕ) (a b r : Analysis)
    → Surveyed shards (g ∷ []) a b
    → Surveyed shards gids b r
    → Surveyed shards (g ∷ gids) a r
Surveyed-cons shards gids g a b r s t = record {
  most_covers = λ x h. elim (count-cons_cases g x gids h) [
    | inl here ↦ t.most_grows (count x shards) (s.most_covers x here)
    | inr there ↦ t.most_covers x there
  ];
  most_grows = λ n h. t.most_grows n (s.most_grows n h);
  most_from = elim t.most_from [
    | inr (x, there, new) ↦ inr (x, count-cons_tail g x gids there, new)
    | inl same ↦ elim s.most_from [
      | inl kept ↦ inl (same ∙ kept)
      | inr (x, here, new) ↦ inr (x, count-cons_head g x gids here, same ∙ new)
    ]
  ];
  least_covers = λ x h. elim (count-cons_cases g x gids h) [
    | inl here ↦ omega (arith, t.least_shrinks, s.least_covers x here)
    | inr there ↦ t.least_covers x there
  ];
  least_shrinks = omega (arith, t.least_shrinks, s.least_shrinks);
  least_from = elim t.least_from [
    | inr (x, there, new, new_n) ↦ inr (x, count-cons_tail g x gids there, new, new_n)
    | inl (same, same_n) ↦ elim s.least_from [
      | inl (kept, kept_n) ↦ inl (same ∙ kept, same_n ∙ kept_n)
      | inr (x, here, new, new_n) ↦
          inr (x, count-cons_head g x gids here, same ∙ new, same_n ∙ new_n)
    ]
  ];
}

analyze_from-Surveyed :
    (shards gids : List ℕ) (a : Analysis) → Surveyed shards gids a (analyze_from shards gids a)
unfolding analyze_from
analyze_from-Surveyed shards [] a = record {
  most_covers = λ g h. absurd (unfold count in omega arith);
  most_grows = λ n h. h;
  most_from = inl refl;
  least_covers = λ g h. absurd (unfold count in omega arith);
  least_shrinks = omega arith;
  least_from = inl (refl, refl);
}
analyze_from-Surveyed shards (g ∷ gids) a =
    Surveyed-cons shards gids g a (consider shards g a)
      (analyze_from shards gids (consider shards g a)) (consider-Surveyed shards g a)
      (analyze_from-Surveyed shards gids (consider shards g a))

-- The groups of a configuration with the most and with the least shards, and these numbers.
pub record Extremes (c : ShardConfig) (mg mn lg ln : ℕ) : Type 0 where
  pub most_is : (analyze c).most ≡ some (mg, mn)
  pub least_is : (analyze c).least ≡ some lg
  pub least_n_is : (analyze c).least_n ≡ ln
  pub most_here : 0 < count mg (sorted_gids c.groups)
  pub least_here : 0 < count lg (sorted_gids c.groups)
  pub most_count : mn ≡ count mg c.shards
  pub least_count : ln ≡ count lg c.shards
  pub most_max : (g : ℕ) → 0 < count g (sorted_gids c.groups) → count g c.shards ≤ mn
  pub least_min : (g : ℕ) → 0 < count g (sorted_gids c.groups) → ln ≤ count g c.shards

-- `analyze` finds, in a configuration with a group and fewer than 257 shards, a group with the
-- most and one with the least shards, and how many they have.
pub analyze-Extremes :
    (c : ShardConfig) (g : ℕ)
    → 0 < count g (sorted_gids c.groups)
    → length c.shards < 257
    → (mg mn lg ln : ℕ) × Extremes c mg mn lg ln
unfolding analyze
analyze-Extremes c g here few =
    let gids = sorted_gids c.groups in
    let s = analyze_from-Surveyed c.shards gids nothing_yet in
    let low = s.least_covers g here in
    elim s.most_from [
      | inl nothing ↦ absurd (ground (arith, s.most_covers g here))
      | inr (mg, m_in, most) ↦ elim s.least_from [
        | inl (nothing, start) ↦ absurd (omega (arith, low, start, count-le-length g c.shards))
        | inr (lg, l_in, lst, lst_n) ↦ (
          mg,
          count mg c.shards,
          lg,
          count lg c.shards,
          record {
            most_is = most;
            least_is = lst;
            least_n_is = lst_n;
            most_here = m_in;
            least_here = l_in;
            most_count = refl;
            least_count = refl;
            most_max = λ x h. ground (arith, s.most_covers x h);
            least_min = λ x h. omega (arith, s.least_covers x h, lst_n);
          },
        )
      ]
    ]
