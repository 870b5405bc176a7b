-- ===== src/MapReduce/Coordinator/Choice.antt =====
-- Which task of a table is chosen (`assignTask` of src/mr/coordinator.go).
use distributed_systems_mit.Base.{
  ℕ, zero, suc, ◌+◌, ◌≤◌, ◌<◌, ◌≡◌, refl, sym, ap, subst, none-ne-some, ◌∙◌, ◌⊎◌, inl, inr, true,
  false, Bool-cases, Option, none, some, List, [], ◌∷◌, get_elem?, arith, if◌then◌else◌, eq_of_some,
}
use distributed_systems_mit.MapReduce.Coordinator.{
  Status, not_started, in_progress, completed, TaskStatus, eligible, last_eligible,
}

-- A task may be given out: it never was, or it is still in progress more than ten seconds after it
-- was last given out.
abbrev pub Free : ℕ → TaskStatus → Type 0
Free now t =
    (t.status ≡ not_started) ⊎ ((t.status ≡ in_progress) × (t.start_time + 10000000000 < now))

-- `id` is a free task of the table, and no later one is.
pub record Chosen (now : ℕ) (tasks : List TaskStatus) (id : ℕ) : Type 0 where
  pub task : TaskStatus
  pub found : get_elem? tasks id ≡ some task
  pub free : Free now task
  pub last :
      (later : ℕ) (t : TaskStatus) → id < later → get_elem? tasks later ≡ some t → ¬ Free now t

-- No task of the table is free.
abbrev pub AllBusy : ℕ → List TaskStatus → Type 0
AllBusy now tasks = (id : ℕ) (t : TaskStatus) → get_elem? tasks id ≡ some t → ¬ Free now t

status_cases : (s : Status) → (s ≡ not_started) ⊎ ((s ≡ in_progress) ⊎ (s ≡ completed))
status_cases not_started = inl refl
status_cases in_progress = inr (inl refl)
status_cases completed = inr (inr refl)

eligible-Free : (now : ℕ) (t : TaskStatus) → eligible now t ≡ true → Free now t
unfolding eligible
eligible-Free now t h = elim (status_cases t.status) [
  | inl new ↦ inl new
  | inr (inl given) ↦ inr (given, ground arith)
  | inr (inr over) ↦ absurd (ground arith)
]

not_eligible : (now : ℕ) (t : TaskStatus) → eligible now t ≡ false → ¬ Free now t
unfolding eligible
not_eligible now t h (inl new) = ground arith
not_eligible now t h (inr (given, late)) = ground arith

AllBusy-cons :
    (now : ℕ) (t : TaskStatus) (rest : List TaskStatus)
    → ¬ Free now t
    → AllBusy now rest
    → AllBusy now (t ∷ rest)
AllBusy-cons now t rest taken busy zero x found f =
    taken (subst (Free now) (sym (eq_of_some found)) f)
AllBusy-cons now t rest taken busy (suc id) x found f = busy id x found f

AllBusy_after :
    (now id : ℕ) (t : TaskStatus) (rest : List TaskStatus) (later : ℕ) (x : TaskStatus)
    → ((later : ℕ) (x : TaskStatus) → id ≤ later → get_elem? rest later ≡ some x → ¬ Free now x)
    → id < later
    → get_elem? (t ∷ rest) later ≡ some x
    → ¬ Free now x
AllBusy_after now id t rest zero x busy above found f = omega arith
AllBusy_after now id t rest (suc later) x busy above found f = busy later x (omega arith) found f

-- The loop's verdict from index `i` on.
abbrev Verdict : ℕ → List TaskStatus → ℕ → Option ℕ → Option ℕ → Type 0
Verdict now tasks i chosen r =
    ((r ≡ chosen) × AllBusy now tasks) ⊎ ((k : ℕ) × (r ≡ some (i + k)) × Chosen now tasks k)

last_eligible-Verdict :
    (now : ℕ) (tasks : List TaskStatus) (i : ℕ) (chosen : Option ℕ)
    → Verdict now tasks i chosen (last_eligible now tasks i chosen)
unfolding last_eligible
last_eligible-Verdict now [] i chosen = inl (refl, λ id t found. absurd (none-ne-some found))
last_eligible-Verdict now (t ∷ rest) i chosen =
    elim (last_eligible-Verdict now rest (suc i) (if eligible now t then some i else chosen)) [
      | inr (k, later, c) ↦ inr (
        suc k,
        later ∙ ap some (omega arith),
        record {
          task = c.task;
          found = c.found;
          free = c.free;
          last = λ id x above found.
              AllBusy_after now (suc k) t rest id x
                (λ id x le found. c.last id x (omega arith) found) above found;
        },
      )
      | inl (here, busy) ↦ elim (Bool-cases (eligible now t)) [
        | inl may ↦ inr (
          0,
          here ∙ rw may (ap some (omega arith)),
          record {
            task = t;
            found = refl;
            free = eligible-Free now t may;
            last = λ id x above found.
                AllBusy_after now 0 t rest id x (λ id x le found. busy id x found) above found;
          },
        )
        | inr taken ↦
            inl (here ∙ rw taken refl, AllBusy-cons now t rest (not_eligible now t taken) busy)
      ]
    ]

pub choice_cases :
    (now : ℕ) (tasks : List TaskStatus)
    → ((last_eligible now tasks 0 none ≡ none) × AllBusy now tasks)
      ⊎ ((id : ℕ) × (last_eligible now tasks 0 none ≡ some id) × Chosen now tasks id)
choice_cases now tasks = elim (last_eligible-Verdict now tasks 0 none) [
  | inl (nothing, busy) ↦ inl (nothing, busy)
  | inr (id, there, c) ↦ inr (id, there ∙ ap some (omega arith), c)
]
