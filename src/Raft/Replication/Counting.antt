-- ===== src/Raft/Replication/Counting.antt =====
-- The peers that updateCommitIndex of src/raft1/replication.go counts, without its loop.
use distributed_systems_mit.Base.{
  ℕ, zero, suc, ◌≡◌, refl, ap, false, ◌&&◌, Option, none, some, leb, ◌==◌, ◌+◌, Bool, not,
  if◌then◌else◌, List, [], ◌∷◌, length, get_elem?, arith,
}
use distributed_systems_mit.Raft.Replication.{matching}

-- How many of the first `n` peers are marked.
abbrev pub marked_count : (ℕ → Bool) → ℕ → ℕ
marked_count marked zero = 0
marked_count marked (suc n) = (if marked n then 1 else 0) + marked_count marked n

-- Whether the match index of peer `p` has reached `n`.
abbrev pub reached : ℕ → Option ℕ → Bool
reached n none = false
reached n (some m) = leb n m

-- Whether peer `p` is another one than `me`, and its log is known to match up to `n`.
abbrev pub backs : ℕ → ℕ → List ℕ → ℕ → Bool
backs me n table p = not (p == me) && reached n (get_elem? table p)

marked_count_first :
    (marked : ℕ → Bool) (n : ℕ)
    → marked_count marked (suc n)
      ≡ (if marked 0 then 1 else 0) + marked_count (λ p. marked (suc p)) n
marked_count_first marked zero = refl
marked_count_first marked (suc n) = omega (arith, marked_count_first marked n)

pub marked_count_same :
    (f g : ℕ → Bool) (k : ℕ) → ((p : ℕ) → f p ≡ g p) → marked_count f k ≡ marked_count g k
marked_count_same f g zero same = refl
marked_count_same f g (suc k) same =
    omega (arith, ap {B = ℕ} (λ b. if b then 1 else 0) (same k), marked_count_same f g k same)

pub matching-marked_count :
    (me n i : ℕ) (table : List ℕ)
    → matching me n i table
      ≡ marked_count (λ p. not (i + p == me) && reached n (get_elem? table p)) (length table)
unfolding matching
matching-marked_count me n i [] = refl
matching-marked_count me n i (m ∷ rest) =
    let f : ℕ → Bool = λ p. not (i + p == me) && reached n (get_elem? (m ∷ rest) p) in
    let g : ℕ → Bool = λ p. not (suc i + p == me) && reached n (get_elem? rest p) in
    let later : marked_count (λ p. f (suc p)) (length rest) ≡ marked_count g (length rest) =
      marked_count_same (λ p. f (suc p)) g (length rest)
        (λ p. ap (λ j. not (j == me) && reached n (get_elem? rest p)) (omega arith)) in
    let first : (if f 0 then 1 else 0) ≡ (if not (i == me) && leb n m then 1 else 0) =
      ap {B = ℕ} (λ j. if not (j == me) && leb n m then 1 else 0) (omega arith) in
    ground (
      arith,
      matching-marked_count me n (suc i) rest,
      marked_count_first f (length rest),
      later,
      first,
    )
