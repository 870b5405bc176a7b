-- ===== src/Base/Texts.antt =====
-- The order of texts, by which Go's `<` compares strings.
use Prim.Native.Nat.compare as compare_ℕ
use Prim.Native.Nat.{ℕ, zero, suc, Ordering, compare as compare_ℕ}
use Prim.Native.Char.{code}
use Prim.Native.String.compare
use Prim.Native.String.{String, [], ◌∷◌, compare, then}
use mathlib.Core.Path.{◌≡◌, refl, sym, ap, ◌∙◌}
use mathlib.Core.Bool.{Bool, true, false}
use text.Mathlib.Text.{is_lt}
use text.Mathlib.TextEquality.{path_by_compare}

abbrev pub less : String → String → Bool
less s t = is_lt (compare s t)

abbrev flip : Ordering → Ordering
flip Ordering.lt = Ordering.gt
flip Ordering.eq = Ordering.eq
flip Ordering.gt = Ordering.lt

flip-then : (a b : Ordering) → then (flip a) (flip b) ≡ flip (then a b)
flip-then Ordering.lt b = refl
flip-then Ordering.eq b = refl
flip-then Ordering.gt b = refl

compare-flip_ℕ : (m n : ℕ) → compare_ℕ n m ≡ flip (compare_ℕ m n)
compare-flip_ℕ zero zero = compare_ℕ.zero-zero ∙ sym (ap flip compare_ℕ.zero-zero)
compare-flip_ℕ zero (suc n) = compare_ℕ.suc-zero n ∙ sym (ap flip (compare_ℕ.zero-suc n))
compare-flip_ℕ (suc m) zero = compare_ℕ.zero-suc m ∙ sym (ap flip (compare_ℕ.suc-zero m))
compare-flip_ℕ (suc m) (suc n) =
    compare_ℕ.suc-suc n m ∙ compare-flip_ℕ m n ∙ sym (ap flip (compare_ℕ.suc-suc m n))

compare-flip : (s t : String) → compare t s ≡ flip (compare s t)
compare-flip [] [] = compare.nil-nil ∙ sym (ap flip compare.nil-nil)
compare-flip [] (d ∷ t) = compare.cons-nil d t ∙ sym (ap flip (compare.nil-cons d t))
compare-flip (c ∷ s) [] = compare.nil-cons c s ∙ sym (ap flip (compare.cons-nil c s))
compare-flip (c ∷ s) (d ∷ t) =
    compare.cons-cons d c t s
    ∙ ap (λ o. then o (compare t s)) (compare-flip_ℕ (code c) (code d))
    ∙ ap (then (flip (compare_ℕ (code c) (code d)))) (compare-flip s t)
    ∙ flip-then (compare_ℕ (code c) (code d)) (compare s t)
    ∙ sym (ap flip (compare.cons-cons c d s t))

-- Of two texts neither of which is less, one is the other.
pub less_total : (s t : String) → less s t ≡ false → less t s ≡ false → s ≡ t
less_total s t h k =
    path_by_compare s t (same (compare s t) h (sym (ap is_lt (compare-flip s t)) ∙ k))
  where
    same : (o : Ordering) → is_lt o ≡ false → is_lt (flip o) ≡ false → o ≡ Ordering.eq
    same Ordering.lt h k = cc
    same Ordering.eq h k = refl
    same Ordering.gt h k = cc

-- How the comparisons of three things go together: of the first two, of the last two, of the outer
-- two.
abbrev Agree : Ordering → Ordering → Ordering → Type 0
Agree Ordering.eq b c = c ≡ b
Agree Ordering.lt Ordering.lt c = c ≡ Ordering.lt
Agree Ordering.lt Ordering.eq c = c ≡ Ordering.lt
Agree Ordering.lt Ordering.gt c = Unit
Agree Ordering.gt Ordering.gt c = c ≡ Ordering.gt
Agree Ordering.gt Ordering.eq c = c ≡ Ordering.gt
Agree Ordering.gt Ordering.lt c = Unit

Agree-left : (a : Ordering) → Agree a Ordering.lt Ordering.lt × Agree a Ordering.gt Ordering.gt
Agree-left Ordering.eq = (refl, refl)
Agree-left Ordering.lt = (refl, tt)
Agree-left Ordering.gt = (tt, refl)

Agree-right : (b : Ordering) → Agree Ordering.lt b Ordering.lt × Agree Ordering.gt b Ordering.gt
Agree-right Ordering.eq = (refl, refl)
Agree-right Ordering.lt = (refl, tt)
Agree-right Ordering.gt = (tt, refl)

Agree-then :
    (a b c a' b' c' : Ordering)
    → Agree a b c
    → Agree a' b' c'
    → Agree (then a a') (then b b') (then c c')
Agree-then Ordering.eq Ordering.eq c a' b' c' h k = rw h k
Agree-then Ordering.eq Ordering.lt c a' b' c' h k = rw h (Agree-left a').0
Agree-then Ordering.eq Ordering.gt c a' b' c' h k = rw h (Agree-left a').1
Agree-then Ordering.lt Ordering.eq c a' b' c' h k = rw h (Agree-right b').0
Agree-then Ordering.lt Ordering.lt c a' b' c' h k = rw h refl
Agree-then Ordering.lt Ordering.gt c a' b' c' h k = tt
Agree-then Ordering.gt Ordering.eq c a' b' c' h k = rw h (Agree-right b').1
Agree-then Ordering.gt Ordering.gt c a' b' c' h k = rw h refl
Agree-then Ordering.gt Ordering.lt c a' b' c' h k = tt

compare-Agree_ℕ : (m n k : ℕ) → Agree (compare_ℕ m n) (compare_ℕ n k) (compare_ℕ m k)
compare-Agree_ℕ zero zero k = refl
compare-Agree_ℕ zero (suc n) zero = rw (compare_ℕ.zero-suc n, compare_ℕ.suc-zero n) tt
compare-Agree_ℕ zero (suc n) (suc k) =
    rw (compare_ℕ.zero-suc n, compare_ℕ.zero-suc k) (Agree-right (compare_ℕ (suc n) (suc k))).0
compare-Agree_ℕ (suc m) zero zero = rw (compare_ℕ.suc-zero m) refl
compare-Agree_ℕ (suc m) zero (suc k) = rw (compare_ℕ.suc-zero m, compare_ℕ.zero-suc k) tt
compare-Agree_ℕ (suc m) (suc n) zero =
    rw (compare_ℕ.suc-zero n, compare_ℕ.suc-zero m) (Agree-left (compare_ℕ (suc m) (suc n))).1
compare-Agree_ℕ (suc m) (suc n) (suc k) =
    rw (compare_ℕ.suc-suc m n, compare_ℕ.suc-suc n k, compare_ℕ.suc-suc m k) (compare-Agree_ℕ m n k)

compare-Agree : (s t u : String) → Agree (compare s t) (compare t u) (compare s u)
compare-Agree [] [] u = refl
compare-Agree [] (d ∷ t) [] = rw (compare.nil-cons d t, compare.cons-nil d t) tt
compare-Agree [] (d ∷ t) (e ∷ u) =
    rw (compare.nil-cons d t, compare.nil-cons e u) (Agree-right (compare (d ∷ t) (e ∷ u))).0
compare-Agree (c ∷ s) [] [] = rw (compare.cons-nil c s) refl
compare-Agree (c ∷ s) [] (e ∷ u) = rw (compare.cons-nil c s, compare.nil-cons e u) tt
compare-Agree (c ∷ s) (d ∷ t) [] =
    rw (compare.cons-nil d t, compare.cons-nil c s) (Agree-left (compare (c ∷ s) (d ∷ t))).1
compare-Agree (c ∷ s) (d ∷ t) (e ∷ u) =
    rw (compare.cons-cons c d s t, compare.cons-cons d e t u, compare.cons-cons c e s u)
      (Agree-then (compare_ℕ (code c) (code d)) (compare_ℕ (code d) (code e))
        (compare_ℕ (code c) (code e)) (compare s t) (compare t u) (compare s u)
        (compare-Agree_ℕ (code c) (code d) (code e)) (compare-Agree s t u))

pub less_antisym : (s t : String) → less s t ≡ true → less t s ≡ false
less_antisym s t h = ap is_lt (compare-flip s t) ∙ flipped (compare s t) h
  where
    flipped : (o : Ordering) → is_lt o ≡ true → is_lt (flip o) ≡ false
    flipped Ordering.lt h = refl
    flipped Ordering.eq h = refl
    flipped Ordering.gt h = cc

-- Not falling from a text to a second and from that to a third, texts do not fall from the first
-- to the third.
pub less_trans_le : (s t u : String) → less t s ≡ false → less u t ≡ false → less u s ≡ false
less_trans_le s t u h k =
    before (compare u s) (compare s t) (compare u t) (compare-Agree u s t)
      (sym (ap is_lt (compare-flip s t)) ∙ h) k
  where
    before :
        (a b c : Ordering)
        → Agree a b c
        → is_lt (flip b) ≡ false
        → is_lt c ≡ false
        → is_lt a ≡ false
    before Ordering.eq b c g h k = refl
    before Ordering.gt b c g h k = refl
    before Ordering.lt Ordering.lt c g h k = sym (ap is_lt g) ∙ k
    before Ordering.lt Ordering.eq c g h k = sym (ap is_lt g) ∙ k
    before Ordering.lt Ordering.gt c g h k = cc
