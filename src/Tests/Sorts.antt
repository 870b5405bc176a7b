-- ===== src/Tests/Sorts.antt =====
-- A sorting function: insertion sort on the keys.
use Prim.Native.String.{String}
use mathlib.Core.List.{Perm}
use mathlib.Core.List.Perm as Permutation
use distributed_systems_mit.Base.{
  ◌≡◌, Bool-cases, false, inl, inr, List, [], ◌∷◌, if◌then◌else◌, less, less_antisym, less_trans_le,
}
use distributed_systems_mit.MapReduce.Worker.{KeyValue, NoneLess, Ordered, Sort}

abbrev insert : KeyValue → List KeyValue → List KeyValue
insert kv [] = kv ∷ []
insert kv (x ∷ rest) = if less kv.key x.key then kv ∷ x ∷ rest else x ∷ insert kv rest

abbrev insertion_sort : List KeyValue → List KeyValue
insertion_sort [] = []
insertion_sort (kv ∷ rest) = insert kv (insertion_sort rest)

insert-Perm : (kv : KeyValue) (kvs : List KeyValue) → Perm (insert kv kvs) (kv ∷ kvs)
insert-Perm kv [] = Permutation.refl (kv ∷ [])
insert-Perm kv (x ∷ rest) = elim (Bool-cases (less kv.key x.key)) [
  | inl first ↦ rw first (Permutation.refl (kv ∷ x ∷ rest))
  | inr later ↦
      rw later
        (Permutation.trans (Permutation.cons x (insert-Perm kv rest)) (Permutation.swap kv x rest))
]

pub insertion_sort-Perm : (kvs : List KeyValue) → Perm (insertion_sort kvs) kvs
insertion_sort-Perm [] = Permutation.refl []
insertion_sort-Perm (kv ∷ rest) =
    Permutation.trans (insert-Perm kv (insertion_sort rest))
      (Permutation.cons kv (insertion_sort-Perm rest))

NoneLess-below :
    (k l : String) (kvs : List KeyValue) → less l k ≡ false → NoneLess l kvs → NoneLess k kvs
NoneLess-below k l [] h n = tt
NoneLess-below k l (x ∷ rest) h (m, n) = (less_trans_le k l x.key h m, NoneLess-below k l rest h n)

insert-NoneLess :
    (k : String) (kv : KeyValue) (kvs : List KeyValue)
    → less kv.key k ≡ false
    → NoneLess k kvs
    → NoneLess k (insert kv kvs)
insert-NoneLess k kv [] h n = (h, tt)
insert-NoneLess k kv (x ∷ rest) h (m, n) = elim (Bool-cases (less kv.key x.key)) [
  | inl first ↦ rw first (h, (m, n))
  | inr later ↦ rw later (m, insert-NoneLess k kv rest h n)
]

insert-Ordered : (kv : KeyValue) (kvs : List KeyValue) → Ordered kvs → Ordered (insert kv kvs)
insert-Ordered kv [] o = (tt, tt)
insert-Ordered kv (x ∷ rest) (n, o) = elim (Bool-cases (less kv.key x.key)) [
  | inl first ↦
      let h = less_antisym kv.key x.key first in
      rw first ((h, NoneLess-below kv.key x.key rest h n), (n, o))
  | inr later ↦ rw later (insert-NoneLess x.key kv rest later n, insert-Ordered kv rest o)
]

pub insertion_sort-Ordered : (kvs : List KeyValue) → Ordered (insertion_sort kvs)
insertion_sort-Ordered [] = tt
insertion_sort-Ordered (kv ∷ rest) =
    insert-Ordered kv (insertion_sort rest) (insertion_sort-Ordered rest)

abbrev pub test_sort : Sort
test_sort = record {
  sort = insertion_sort;
  sort-Perm = insertion_sort-Perm;
  sort-Ordered = insertion_sort-Ordered;
}
