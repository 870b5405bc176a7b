-- ===== src/MapReduce/Files.antt =====
-- The files that the tasks of a MapReduce job leave in their directory (src/mr/worker.go). Names and
-- contents are lists of bytes. Outside are fmt.Sprintf on a number, what os.CreateTemp puts for the
-- star of its pattern, the order in which os.ReadDir lists the files, and encoding/json.
pub mod Names
pub mod Streams
pub mod Reading
use mathlib.Core.List.{Perm}
use distributed_systems_mit.Base.{
  ℕ, zero, suc, ◌+◌, ◌≡◌, ◌≢◌, Bool, false, true, ◌&&◌, ◌||◌, Option, none, some, List, [], ◌∷◌,
  ◌++◌, length, ◌==◌, if◌then◌else◌, ◌>>=◌,
}

abbrev pub Bytes : Type 0
Bytes = List ℕ

abbrev pub dash : ℕ
dash = 45

abbrev pub NoDash : Bytes → Type 0
NoDash [] = Unit
NoDash (b ∷ rest) = ((b == dash) ≡ false) × NoDash rest

-- "%d": numbers are told apart by their digits, and none is a dash.
pub record Decimal : Type 0 where
  pub digits : ℕ → Bytes
  pub digits_injective : (m n : ℕ) → digits m ≡ digits n → m ≡ n
  pub digits-NoDash : (n : ℕ) → NoDash (digits n)

-- The digits that os.CreateTemp draws for file `i` of a map task.
pub record Temp : Type 0 where
  pub random : ℕ → ℕ → Bytes
  pub random-NoDash : (task_id i : ℕ) → NoDash (random task_id i)

-- os.ReadDir lists every file once.
pub record ReadDir : Type 0 where
  pub listed : List (Bytes × Bytes) → List (Bytes × Bytes)
  pub listed-Perm : (files : List (Bytes × Bytes)) → Perm (listed files) files

-- An encoder and a decoder of values: a decoder reads back one value after another, and then fails.
pub record Json (A : Type 0) : Type 0 where
  pub encode : A → Bytes
  pub decode : Bytes → Option (A × Bytes)
  pub decode-encode : (x : A) (rest : Bytes) → decode (encode x ++ rest) ≡ some (x, rest)
  pub decode_end : decode [] ≡ none

-- "mr-%d-%d"
abbrev pub map_name : Decimal → ℕ → ℕ → Bytes
map_name d task_id i = 109 ∷ 114 ∷ dash ∷ d.digits task_id ++ dash ∷ d.digits i

-- The name of the temporary file, "mr-%d-%d-*" with the star replaced.
abbrev pub temp_name : Decimal → Temp → ℕ → ℕ → Bytes
temp_name d t task_id i = map_name d task_id i ++ dash ∷ t.random task_id i

-- `name[:strings.LastIndex(name, "-")]`, which panics without a dash.
unfoldable pub before_last_dash : Bytes → Option Bytes
before_last_dash [] = none
before_last_dash (b ∷ rest) = elim (before_last_dash rest) [
  | some cut ↦ some (b ∷ cut)
  | none ↦ if b == dash then some [] else none
]

-- The loop that renames the files of a map task, from file `i` on.
unfoldable pub rename_all : Decimal → Temp → ℕ → ℕ → List Bytes → Option (List (Bytes × Bytes))
rename_all d t task_id i [] = some []
rename_all d t task_id i (content ∷ contents) = do
  new_name ← before_last_dash (temp_name d t task_id i)
  others ← rename_all d t task_id (suc i) contents
  some ((new_name, content) ∷ others)

abbrev pub same_bytes : Bytes → Bytes → Bool
same_bytes [] [] = true
same_bytes [] (c ∷ cs) = false
same_bytes (b ∷ bs) [] = false
same_bytes (b ∷ bs) (c ∷ cs) = b == c && same_bytes bs cs

-- strings.HasSuffix
unfoldable pub has_suffix : Bytes → Bytes → Bool
has_suffix [] suffix = same_bytes [] suffix
has_suffix (b ∷ rest) suffix = same_bytes (b ∷ rest) suffix || has_suffix rest suffix

-- The loop that selects the files of a reduce task: those whose names end in a dash and its number.
unfoldable pub select_files : Decimal → ℕ → List (Bytes × Bytes) → List Bytes
unfolding has_suffix
select_files d task_id [] = []
select_files d task_id ((name, content) ∷ rest) =
    let later = select_files d task_id rest in
    if has_suffix name (dash ∷ d.digits task_id) then content ∷ later else later

module _ {A : Type 0} (json : Json A) where
  -- The loop that decodes one file until an error.
  unfoldable pub decode_file : ℕ → Bytes → List A
  decode_file zero bytes = []
  decode_file (suc fuel) bytes = elim (json.decode bytes) [
    | none ↦ []
    | some r ↦ r.0 ∷ decode_file fuel r.1
  ]

  -- All files that were selected, one after another. A file has fewer values than it has bytes.
  unfoldable pub decode_all : List Bytes → List A
  unfolding decode_file
  decode_all [] = []
  decode_all (bytes ∷ others) = decode_file (suc (length bytes)) bytes ++ decode_all others
