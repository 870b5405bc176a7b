-- ===== src/Raft/Cluster/Tally.antt =====
-- Counting the votes of a term: two candidates share no voter.
use distributed_systems_mit.Base.{
  ℕ, zero, suc, ◌+◌, ◌≤◌, ◌<◌, ◌≡◌, ◌≢◌, refl, Bool, true, false, Option, none, some, ◌==◌, ltb,
  if◌then◌else◌, arith, Bool-cases, inl, inr,
}
use distributed_systems_mit.Raft.Cluster.{update}

abbrev pub Votes : Type 0
Votes = ℕ → ℕ → Option ℕ

abbrev pub is_for : Option ℕ → ℕ → ℕ
is_for none c = 0
is_for (some x) c = if x == c then 1 else 0

-- How many of the first `n` peers voted for `c` in a term.
pub tally : Votes → ℕ → ℕ → ℕ → ℕ
tally votes term c zero = 0
tally votes term c (suc n) = is_for (votes n term) c + tally votes term c n

-- How many of the first `n` peers are marked.
pub total : (ℕ → Bool) → ℕ → ℕ
total marked zero = 0
total marked (suc n) = (if marked n then 1 else 0) + total marked n

pub tally_disjoint :
    (votes : Votes) (term c d n : ℕ) → c ≢ d → tally votes term c n + tally votes term d n ≤ n
unfolding tally
tally_disjoint votes term c d zero ne = omega arith
tally_disjoint votes term c d (suc n) ne = ground (arith, tally_disjoint votes term c d n ne)

-- A vote once cast is never taken back.
abbrev pub Grows : Votes → Votes → Type 0
Grows votes votes' = (i t x : ℕ) → votes i t ≡ some x → votes' i t ≡ some x

pub tally-Grows :
    (votes votes' : Votes) (term c n : ℕ)
    → Grows votes votes'
    → tally votes term c n ≤ tally votes' term c n
unfolding tally
tally-Grows votes votes' term c zero g = omega arith
tally-Grows votes votes' term c (suc n) g =
    ground (arith, tally-Grows votes votes' term c n g, g n term c)

-- The peers that an election has counted voted for its candidate.
pub total-le-tally :
    (marked : ℕ → Bool) (votes : Votes) (term c n : ℕ)
    → ((p : ℕ) → marked p ≡ true → votes p term ≡ some c)
    → total marked n ≤ tally votes term c n
unfolding total tally
total-le-tally marked votes term c zero h = omega arith
total-le-tally marked votes term c (suc n) h =
    ground (arith, total-le-tally marked votes term c n h, h n)

total-update_above :
    (marked : ℕ → Bool) (p n : ℕ) → n ≤ p → total (update marked p true) n ≡ total marked n
unfolding total
total-update_above marked p zero h = refl
total-update_above marked p (suc n) h = ground (arith, total-update_above marked p n)

pub total-update :
    (marked : ℕ → Bool) (p n : ℕ)
    → p < n
    → marked p ≡ false
    → total (update marked p true) n ≡ suc (total marked n)
unfolding total
total-update marked p zero h new = absurd (omega arith)
total-update marked p (suc n) h new = elim (Bool-cases (ltb p n)) [
  | inl below ↦ ground (arith, total-update marked p n)
  | inr last ↦ ground (arith, total-update_above marked p n)
]

pub total_none : (n : ℕ) → total (λ p. false) n ≡ 0
unfolding total
total_none zero = refl
total_none (suc n) = omega (arith, total_none n)
