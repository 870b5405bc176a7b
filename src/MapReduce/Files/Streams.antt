-- ===== src/MapReduce/Files/Streams.antt =====
-- A file to which values were encoded is decoded to these values.
use mathlib.Core.List.{append-nil, append_assoc}
use distributed_systems_mit.Base.{
  ℕ, zero, suc, ◌≤◌, ◌<◌, ◌≡◌, refl, sym, ap, ◌∙◌, some, List, [], ◌∷◌, ◌++◌, length, arith,
  none-ne-some, get_elem?, set, length-append, replicate, eq_of_some,
}
use distributed_systems_mit.MapReduce.Files.{Bytes, Json, decode_file}

module _ {A : Type 0} (json : Json A) where
  -- What a file holds to which some values were encoded.
  abbrev pub flat : List A → Bytes
  flat [] = []
  flat (x ∷ xs) = json.encode x ++ flat xs

  pub flat-append : (xs : List A) (x : A) → flat (xs ++ x ∷ []) ≡ flat xs ++ json.encode x
  flat-append [] x = append-nil (json.encode x)
  flat-append (y ∷ xs) x =
      ap (λ bs. json.encode y ++ bs) (flat-append xs x)
      ∙ sym (append_assoc (json.encode y) (flat xs) (json.encode x))

  not_empty : (x : A) (bytes : Bytes) → json.encode x ≡ bytes → 1 ≤ length bytes
  not_empty x [] h = absurd (
      none-ne-some
        (sym json.decode_end ∙ ap (λ bs. json.decode (bs ++ [])) (sym h) ∙ json.decode-encode x []))
  not_empty x (b ∷ bs) h = omega arith

  length-flat : (xs : List A) → length xs ≤ length (flat xs)
  length-flat [] = omega arith
  length-flat (x ∷ xs) = omega (
    arith,
    length-append (json.encode x) (flat xs),
    not_empty x (json.encode x) refl,
    length-flat xs,
  )

  decode_enough : (fuel : ℕ) (xs : List A) → length xs < fuel → decode_file json fuel (flat xs) ≡ xs
  unfolding decode_file
  decode_enough zero xs h = absurd (omega arith)
  decode_enough (suc fuel) [] h = rw (decode_file, json.decode_end) refl
  decode_enough (suc fuel) (x ∷ xs) h =
      rw (decode_file, json.decode-encode x (flat xs))
        (ap (λ ys. x ∷ ys) (decode_enough fuel xs (omega arith)))

  -- The loop's fuel is enough.
  pub decode_file-flat : (xs : List A) → decode_file json (suc (length (flat xs))) (flat xs) ≡ xs
  decode_file-flat xs = decode_enough (suc (length (flat xs))) xs (omega (arith, length-flat xs))

  abbrev pub flat_all : List (List A) → List Bytes
  flat_all [] = []
  flat_all (file ∷ files) = flat file ∷ flat_all files

  pub flat_all-get :
      (files : List (List A)) (i : ℕ) (file : List A)
      → get_elem? files i ≡ some file
      → get_elem? (flat_all files) i ≡ some (flat file)
  flat_all-get [] i file h = absurd (none-ne-some h)
  flat_all-get (f ∷ files) zero file h = ap some (ap flat (eq_of_some h))
  flat_all-get (f ∷ files) (suc i) file h = flat_all-get files i file h

  pub flat_all-set :
      (files : List (List A)) (i : ℕ) (file : List A)
      → flat_all (set files i file) ≡ set (flat_all files) i (flat file)
  flat_all-set [] i file = refl
  flat_all-set (f ∷ files) zero file = refl
  flat_all-set (f ∷ files) (suc i) file = ap (λ fs. flat f ∷ fs) (flat_all-set files i file)

  pub flat_all-replicate : (n : ℕ) → flat_all (replicate n []) ≡ replicate n []
  flat_all-replicate zero = refl
  flat_all-replicate (suc n) = ap (λ fs. [] ∷ fs) (flat_all-replicate n)
