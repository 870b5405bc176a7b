-- ===== src/MapReduce/Files/Reading.antt =====
-- What a reduce task reads of the files that map tasks have named.
use mathlib.Core.List.{Perm, Permᴰ, append-nil, append_assoc, perm_append_comm}
use mathlib.Core.List.Perm as Permutation
use mathlib.Core.Logic.{∥∥₁_elim, ∥∥₁_prop}
use distributed_systems_mit.Base.{
  ℕ, zero, suc, ◌+◌, ◌<◌, ◌≡◌, refl, sym, ap, subst, ◌∙◌, Bool-cases, inl, inr, false, Option, none,
  some, List, [], ◌∷◌, ◌++◌, ◌==◌, ne→==, eq→==, arith, if◌then◌else◌, get_elem?, length,
}
use distributed_systems_mit.MapReduce.Files.{
  Bytes, dash, Decimal, Temp, Json, map_name, rename_all, has_suffix, select_files, decode_file,
  decode_all,
}
use distributed_systems_mit.MapReduce.Files.Names.{before_last_dash-temp_name, has_suffix-map_name}
use distributed_systems_mit.MapReduce.Files.Streams.{flat, flat_all, decode_file-flat}

-- No file's name ends in a dash and the number of reduce task `r`.
abbrev pub NoneEnds : Decimal → ℕ → List (Bytes × Bytes) → Type 0
NoneEnds d r [] = Unit
NoneEnds d r ((name, content) ∷ rest) =
    (has_suffix name (dash ∷ d.digits r) ≡ false) × NoneEnds d r rest

abbrev pub or_nothing : {A : Type 0} → Option (List A) → List A
or_nothing none = []
or_nothing (some file) = file

module _ {A : Type 0} (json : Json A) (d : Decimal) (r : ℕ) where
  -- All that reduce task `r` reads of some files.
  abbrev pub reads : List (Bytes × Bytes) → List A
  reads files = decode_all json (select_files d r files)

  pub reads-append : (xs ys : List (Bytes × Bytes)) → reads (xs ++ ys) ≡ reads xs ++ reads ys
  unfolding select_files decode_all
  reads-append [] ys = refl
  reads-append ((name, content) ∷ xs) ys = elim (Bool-cases (has_suffix name (dash ∷ d.digits r))) [
    | inr other ↦ rw other (reads-append xs ys)
    | inl own ↦
        let mine = reads ((name, content) ∷ []) in
        rw own (
          ap (λ zs. decode_file json (suc (length content)) content ++ zs) (reads-append xs ys)
          ∙ sym (
              append_assoc (decode_file json (suc (length content)) content) (reads xs) (reads ys)))
  ]

  pub reads_none : (files : List (Bytes × Bytes)) → NoneEnds d r files → reads files ≡ []
  unfolding select_files decode_all
  reads_none [] n = refl
  reads_none ((name, content) ∷ rest) (other, n) = rw other (reads_none rest n)

  reads-cons :
      (x : Bytes × Bytes) (xs : List (Bytes × Bytes)) → reads (x ∷ xs) ≡ reads (x ∷ []) ++ reads xs
  reads-cons x xs = reads-append (x ∷ []) xs

  reads-Permᴰ : {xs ys : List (Bytes × Bytes)} → Permᴰ xs ys → Perm (reads xs) (reads ys)
  reads-Permᴰ Permᴰ.nil = Permutation.refl (reads [])
  reads-Permᴰ (Permᴰ.cons {a = a} {b = b} {l₁ = xs} {l₂ = ys} e p) =
      subst (λ zs. Perm zs (reads (b ∷ ys))) (sym (reads-cons a xs))
        (subst (Perm (reads (a ∷ []) ++ reads xs)) (sym (reads-cons b ys)) (
          subst (λ z. Perm (reads (a ∷ []) ++ reads xs) (reads (z ∷ []) ++ reads ys)) e
            (Permutation.append_left (reads (a ∷ [])) (reads-Permᴰ p))))
  reads-Permᴰ (Permᴰ.swap {a = a} {b = b} {a' = a'} {b' = b'} {l = xs} e e') =
      let two : (x y : Bytes × Bytes)
          → reads (x ∷ y ∷ xs) ≡ (reads (x ∷ []) ++ reads (y ∷ [])) ++ reads xs =
        λ x y.
          reads-cons x (y ∷ xs)
          ∙ ap (λ zs. reads (x ∷ []) ++ zs) (reads-cons y xs)
          ∙ sym (append_assoc (reads (x ∷ [])) (reads (y ∷ [])) (reads xs)) in
      subst (λ zs. Perm zs (reads (a' ∷ b' ∷ xs))) (sym (two a b))
        (subst (λ z. Perm ((reads (a ∷ []) ++ reads (b ∷ [])) ++ reads xs) (reads (z ∷ b' ∷ xs))) e'
          (subst (λ z. Perm ((reads (a ∷ []) ++ reads (b ∷ [])) ++ reads xs) (reads (b ∷ z ∷ xs))) e
            (subst (Perm ((reads (a ∷ []) ++ reads (b ∷ [])) ++ reads xs)) (sym (two b a)) (
              Permutation.append_right (reads xs)
                (perm_append_comm (reads (a ∷ [])) (reads (b ∷ [])))))))
  reads-Permᴰ (Permᴰ.trans p q) = Permutation.trans (reads-Permᴰ p) (reads-Permᴰ q)

  -- The order of the files does not matter but for the order of what is read.
  pub reads-Perm : {xs ys : List (Bytes × Bytes)} → Perm xs ys → Perm (reads xs) (reads ys)
  reads-Perm {xs} {ys} p = ∥∥₁_elim p ∥∥₁_prop reads-Permᴰ

  -- The values of file `r`, of files that are counted from `i`.
  abbrev pick : ℕ → List (List A) → List A
  pick i [] = []
  pick i (file ∷ files) = if i == r then file ++ pick (suc i) files else pick (suc i) files

  pick_past : (i : ℕ) (files : List (List A)) → r < i → pick i files ≡ []
  pick_past i [] h = refl
  pick_past i (file ∷ files) h =
      rw (ne→== i r (omega arith)) (pick_past (suc i) files (omega arith))

  pick_at :
      (i k : ℕ) (files : List (List A)) → r ≡ i + k → pick i files ≡ or_nothing (get_elem? files k)
  pick_at i k [] h = refl
  pick_at i zero (file ∷ files) h =
      rw (eq→== i r (omega arith))
        (ap (λ zs. file ++ zs) (pick_past (suc i) files (omega arith)) ∙ append-nil file)
  pick_at i (suc k) (file ∷ files) h =
      rw (ne→== i r (omega arith)) (pick_at (suc i) k files (omega arith))

  reads_one :
      (task_id i : ℕ) (file : List A)
      → reads ((map_name d task_id i, flat json file) ∷ []) ≡ (if i == r then file else [])
  unfolding select_files decode_all
  reads_one task_id i file =
      let named = has_suffix-map_name d task_id i r in
      elim (Bool-cases (i == r)) [
        | inr other ↦ rw (named ∙ other) (rw other refl)
        | inl own ↦ rw (named ∙ own) (
            rw own (
              append-nil (decode_file json (suc (length (flat json file))) (flat json file))
              ∙ decode_file-flat json file))
      ]

  rename_all_lem :
      (t : Temp) (task_id i : ℕ) (files : List (List A))
      → (named : List (Bytes × Bytes)) × (rename_all d t task_id i (flat_all json files)
          ≡ some named)
        × (reads named ≡ pick i files)
  unfolding rename_all
  rename_all_lem t task_id i [] = ([], refl, reads_none [] tt)
  rename_all_lem t task_id i (file ∷ files) =
      let (named, done, same) = rename_all_lem t task_id (suc i) files in
      let x : Bytes × Bytes = (map_name d task_id i, flat json file) in
      (
        x ∷ named,
        rw (before_last_dash-temp_name d t task_id i, done) refl,
        reads-cons x named
            ∙ ap (λ zs. zs ++ reads named) (reads_one task_id i file)
            ∙ elim (Bool-cases (i == r)) [
              | inl own ↦ rw own (ap (λ zs. file ++ zs) same)
              | inr other ↦ rw other same
            ],
      )

  -- Of the files of a map task, a reduce task reads the values that were encoded to the file of its
  -- number.
  pub rename_all-reads :
      (t : Temp) (task_id : ℕ) (files : List (List A))
      → (named : List (Bytes × Bytes)) × (rename_all d t task_id 0 (flat_all json files)
          ≡ some named)
        × (reads named ≡ or_nothing (get_elem? files r))
  rename_all-reads t task_id files =
      let (named, done, same) = rename_all_lem t task_id 0 files in
      (named, done, same ∙ pick_at 0 r files (omega arith))
