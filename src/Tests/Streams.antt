-- ===== src/Tests/Streams.antt =====
-- The parts of the standard library that a worker uses, as small as their laws allow.
use Prim.Native.Nat.{Ordering, compare}
use Prim.Native.Char.{Char, char, code, IsLt}
use Prim.Native.String.{String, [] as no_text, ◌∷◌ as text_cons}
use mathlib.Core.List.{append_assoc}
use mathlib.Core.List.Perm as Permutation
use distributed_systems_mit.Base.{
  ℕ, zero, suc, ◌≡◌, refl, sym, ap, ◌∙◌, Option, none, some, [], ◌∷◌, ◌++◌, length, replicate,
  length-replicate, ◌>>=◌,
}
use distributed_systems_mit.MapReduce.Files.{Bytes, NoDash}
use distributed_systems_mit.MapReduce.Worker.{KeyValue, Outside}
use distributed_systems_mit.Tests.Sorts.{test_sort}

-- What `IsScalar` unfolds to.
abbrev BothLess : Ordering → Ordering → Type 0
BothLess Ordering.lt o = IsLt o
BothLess Ordering.eq o = ⊥
BothLess Ordering.gt o = ⊥

abbrev Scalar : Ordering → Ordering → Ordering → Type 0
Scalar Ordering.lt o p = Unit
Scalar Ordering.eq o p = BothLess o p
Scalar Ordering.gt o p = BothLess o p

abbrev find_less : (o : Ordering) → Option (IsLt o)
find_less Ordering.lt = some tt
find_less Ordering.eq = none
find_less Ordering.gt = none

abbrev find_both : (o p : Ordering) → Option (BothLess o p)
find_both Ordering.lt p = find_less p
find_both Ordering.eq p = none
find_both Ordering.gt p = none

abbrev find_scalar : (o p q : Ordering) → Option (Scalar o p q)
find_scalar Ordering.lt p q = some tt
find_scalar Ordering.eq p q = find_both p q
find_scalar Ordering.gt p q = find_both p q

find_less_lem : (o : Ordering) (h : IsLt o) → find_less o ≡ some h
find_less_lem Ordering.lt h = refl
find_less_lem Ordering.eq h = absurd h
find_less_lem Ordering.gt h = absurd h

find_both_lem : (o p : Ordering) (h : BothLess o p) → find_both o p ≡ some h
find_both_lem Ordering.lt p h = find_less_lem p h
find_both_lem Ordering.eq p h = absurd h
find_both_lem Ordering.gt p h = absurd h

find_scalar_lem : (o p q : Ordering) (h : Scalar o p q) → find_scalar o p q ≡ some h
find_scalar_lem Ordering.lt p q h = refl
find_scalar_lem Ordering.eq p q h = find_both_lem p q h
find_scalar_lem Ordering.gt p q h = find_both_lem p q h

abbrev to_char : ℕ → Option Char
to_char n = do
  h ← find_scalar (compare n 55296) (compare 57343 n) (compare n 1114112)
  some (char n h)

to_char-code : (c : Char) → to_char (code c) ≡ some c
to_char-code (char n h) =
    ap (λ o. o >>= λ h. some (char n h))
      (find_scalar_lem (compare n 55296) (compare 57343 n) (compare n 1114112) h)

-- A text is the codes of its characters, each plus one, and a zero.
abbrev encode_text : String → Bytes
encode_text no_text = 0 ∷ []
encode_text (text_cons c s) = suc (code c) ∷ encode_text s

abbrev decode_text : Bytes → Option (String × Bytes)
decode_text [] = none
decode_text (zero ∷ rest) = some ("", rest)
decode_text (suc n ∷ rest) = do
  c ← to_char n
  (s, rest') ← decode_text rest
  some (text_cons c s, rest')

decode_text-encode_text :
    (s : String) (rest : Bytes) → decode_text (encode_text s ++ rest) ≡ some (s, rest)
decode_text-encode_text no_text rest = refl
decode_text-encode_text (text_cons c s) rest =
    rw (to_char-code c) (rw (decode_text-encode_text s rest) refl)

abbrev encode_pair : KeyValue → Bytes
encode_pair kv = encode_text kv.key ++ encode_text kv.value

abbrev decode_pair : Bytes → Option (KeyValue × Bytes)
decode_pair bytes = do
  (key, rest) ← decode_text bytes
  (value, rest') ← decode_text rest
  some (record { key = key; value = value }, rest')

pub decode_pair-encode_pair :
    (kv : KeyValue) (rest : Bytes) → decode_pair (encode_pair kv ++ rest) ≡ some (kv, rest)
decode_pair-encode_pair kv rest =
    rw (append_assoc (encode_text kv.key) (encode_text kv.value) rest) (
      rw (decode_text-encode_text kv.key (encode_text kv.value ++ rest))
        (rw (decode_text-encode_text kv.value rest) refl))

pub ones-NoDash : (n : ℕ) → NoDash (replicate n 49)
ones-NoDash zero = tt
ones-NoDash (suc n) = (refl, ones-NoDash n)

-- Numbers are printed as strokes.
abbrev pub test_outside : Outside
test_outside = record {
  sum32 = λ key. 5;
  sorting = test_sort;
  json = record {
    encode = encode_pair;
    decode = decode_pair;
    decode-encode = decode_pair-encode_pair;
    decode_end = refl;
  };
  decimal = record {
    digits = λ n. replicate n 49;
    digits_injective =
        λ m n same. sym (length-replicate m 49) ∙ ap length same ∙ length-replicate n 49;
    digits-NoDash = ones-NoDash;
  };
  temp = record { random = λ task_id i. []; random-NoDash = λ task_id i. tt };
  read_dir = record { listed = λ files. files; listed-Perm = Permutation.refl };
}
