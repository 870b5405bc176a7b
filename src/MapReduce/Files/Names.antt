-- ===== src/MapReduce/Files/Names.antt =====
-- A name that a map task gives a file ends in a dash and a reduce task's number exactly if it is the
-- number of that file.
use distributed_systems_mit.Base.{
  ℕ, ◌≡◌, refl, sym, ap, ◌∙◌, true, false, Bool-cases, inl, inr, none, some, [], ◌∷◌, ◌++◌, ◌==◌,
  ==→eq, eq→==, ==→ne, arith,
}
use distributed_systems_mit.MapReduce.Files.{
  Bytes, dash, NoDash, Decimal, Temp, map_name, temp_name, before_last_dash, same_bytes, has_suffix,
}

-- Past its last dash a name has nothing that could be cut.
no_cut : (r : Bytes) → NoDash r → before_last_dash r ≡ none
unfolding before_last_dash
no_cut [] n = refl
no_cut (b ∷ rest) (other, n) = rw (no_cut rest n, other) refl

cut_lem : (xs r : Bytes) → NoDash r → before_last_dash (xs ++ dash ∷ r) ≡ some xs
unfolding before_last_dash
cut_lem [] r n = rw (no_cut r n) refl
cut_lem (b ∷ xs) r n = rw (cut_lem xs r n) refl

-- A temporary file gets the name that its pattern began with.
pub before_last_dash-temp_name :
    (d : Decimal) (t : Temp) (task_id i : ℕ)
    → before_last_dash (temp_name d t task_id i) ≡ some (map_name d task_id i)
before_last_dash-temp_name d t task_id i =
    cut_lem (map_name d task_id i) (t.random task_id i) (t.random-NoDash task_id i)

same_bytes_eq : (xs ys : Bytes) → same_bytes xs ys ≡ true → xs ≡ ys
same_bytes_eq [] [] h = refl
same_bytes_eq [] (y ∷ ys) h = absurd (ground arith)
same_bytes_eq (x ∷ xs) [] h = absurd (ground arith)
same_bytes_eq (x ∷ xs) (y ∷ ys) h =
    let first : x ≡ y = ground arith in
    let later : same_bytes xs ys ≡ true = ground arith in
    ap (λ z. z ∷ xs) first ∙ ap (λ zs. y ∷ zs) (same_bytes_eq xs ys later)

same_bytes_refl : (xs : Bytes) → same_bytes xs xs ≡ true
same_bytes_refl [] = refl
same_bytes_refl (x ∷ xs) = rw (eq→== x x refl) (same_bytes_refl xs)

-- What has a dash is not what has none.
not_same : (xs ds es : Bytes) → NoDash es → same_bytes (xs ++ dash ∷ ds) es ≡ false
not_same [] ds [] n = refl
not_same [] ds (e ∷ es) (other, n) = ground arith
not_same (x ∷ xs) ds [] n = refl
not_same (x ∷ xs) ds (e ∷ es) (other, n) = ground (arith, not_same xs ds es n)

no_suffix : (ds es : Bytes) → NoDash ds → has_suffix ds (dash ∷ es) ≡ false
unfolding has_suffix
no_suffix [] es n = refl
no_suffix (b ∷ ds) es (other, n) = rw other (no_suffix ds es n)

-- What follows the last dash decides.
suffix_lem :
    (xs ds es : Bytes)
    → NoDash ds
    → NoDash es
    → has_suffix (xs ++ dash ∷ ds) (dash ∷ es) ≡ same_bytes ds es
unfolding has_suffix
suffix_lem [] ds es n m = rw (no_suffix ds es n) (ground arith)
suffix_lem (x ∷ xs) ds es n m = rw (not_same xs ds es m) (ground (arith, suffix_lem xs ds es n m))

pub has_suffix-map_name :
    (d : Decimal) (task_id i r : ℕ)
    → has_suffix (map_name d task_id i) (dash ∷ d.digits r) ≡ (i == r)
has_suffix-map_name d task_id i r =
    suffix_lem (109 ∷ 114 ∷ dash ∷ d.digits task_id) (d.digits i) (d.digits r) (d.digits-NoDash i)
      (d.digits-NoDash r)
    ∙ elim (Bool-cases (i == r)) [
      | inl same ↦
          ap (λ n. same_bytes (d.digits i) (d.digits n)) (sym (==→eq i r same))
          ∙ same_bytes_refl (d.digits i)
          ∙ sym same
      | inr other ↦ elim (Bool-cases (same_bytes (d.digits i) (d.digits r))) [
        | inr differ ↦ differ ∙ sym other
        | inl equal ↦ absurd (
            ==→ne i r other
              (d.digits_injective i r (same_bytes_eq (d.digits i) (d.digits r) equal)))
      ]
    ]
