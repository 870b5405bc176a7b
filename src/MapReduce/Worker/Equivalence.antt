-- ===== src/MapReduce/Worker/Equivalence.antt =====
-- The MapReduce job against the sequential program.
use Prim.Native.String.{String}
use mathlib.Core.List.{Perm, append-nil, filter_map}
use mathlib.Core.List.Perm as Permutation
use distributed_systems_mit.Base.{
  ℕ, suc, ◌<◌, ◌%◌, ◌≡◌, refl, sym, ap, ◌∙◌, subst, Bool-cases, inl, inr, some, List, [], ◌∷◌, ◌++◌,
  length, if◌then◌else◌, ◌==◌, arith,
}
use distributed_systems_mit.MapReduce.Files.{Bytes}
use distributed_systems_mit.MapReduce.Files.Reading.{
  NoneEnds, reads, reads-append, reads_none, reads-Perm,
}
use distributed_systems_mit.MapReduce.Worker.{
  KeyValue, Sort, Outside, ihash, start_reduce_task, reduce_loop, map_phase, mapreduce,
  intermediate, mrsequential,
}
use distributed_systems_mit.MapReduce.Worker.Groups.{
  value_for, values_of, results_of, reduced, reduce_loop_lem,
}
use distributed_systems_mit.MapReduce.Worker.Buckets.{
  target, share, share_nil, values_of-append, start_map_task_lem,
}

values_of-Perm :
    (k : String) {xs ys : List KeyValue} → Perm xs ys → Perm (values_of k xs) (values_of k ys)
values_of-Perm k p = Permutation.filter_map (value_for k) p

-- A reduction that does not depend on the order of the values.
abbrev pub Commutes : (String → List String → String) → Type 0
Commutes reducef = (k : String) (vs ws : List String) → Perm vs ws → reducef k vs ≡ reducef k ws

reduced-Perm :
    (reducef : String → List String → String) (k : String) (vs ws : List String)
    → Commutes reducef
    → Perm vs ws
    → reduced reducef k vs ≡ reduced reducef k ws
reduced-Perm reducef k [] [] c p = refl
reduced-Perm reducef k [] (w ∷ ws) c p = absurd (nil-ne-cons (Permutation.nil-eq p))
  where
    nil-ne-cons : [] ≡ w ∷ ws → ⊥
    nil-ne-cons h = cc
reduced-Perm reducef k (v ∷ vs) [] c p = absurd (cons-ne-nil (Permutation.eq-nil p))
  where
    cons-ne-nil : v ∷ vs ≡ [] → ⊥
    cons-ne-nil h = cc
reduced-Perm reducef k (v ∷ vs) (w ∷ ws) c p = ap (λ r. r ∷ []) (c k (v ∷ vs) (w ∷ ws) p)

-- Sorting, grouping and reducing some pairs.
sorted_results :
    (s : Sort) (reducef : String → List String → String) (k : String) (kvs : List KeyValue)
    → Commutes reducef
    → results_of k (reduce_loop reducef (length (s.sort kvs)) (s.sort kvs))
      ≡ reduced reducef k (values_of k kvs)
sorted_results s reducef k kvs c =
    reduce_loop_lem reducef k (length (s.sort kvs)) (s.sort kvs) (omega arith) (s.sort-Ordered kvs)
    ∙ reduced-Perm reducef k (values_of k (s.sort kvs)) (values_of k kvs) c
        (values_of-Perm k (s.sort-Perm kvs))

module _ (sum32 : String → ℕ) (n : ℕ) where
  share-append :
      (k : String) (r : ℕ) (xs ys : List KeyValue)
      → share sum32 n k r (xs ++ ys) ≡ share sum32 n k r xs ++ share sum32 n k r ys
  share-append k r xs ys = elim (Bool-cases (target sum32 n k == r)) [
    | inl here ↦ rw here (values_of-append k xs ys)
    | inr away ↦ rw away refl
  ]

  share-Perm :
      (k : String) (r : ℕ) {xs ys : List KeyValue}
      → Perm xs ys
      → Perm (share sum32 n k r xs) (share sum32 n k r ys)
  share-Perm k r p = elim (Bool-cases (target sum32 n k == r)) [
    | inl here ↦ rw here (values_of-Perm k p)
    | inr away ↦ rw away (Permutation.refl [])
  ]

-- The map phase loses no pair, adds none, and misplaces none.
map_phase_lem :
    (o : Outside) (mapf : String → String → List KeyValue) (n task_id r : ℕ)
    (inputs : List (String × String))
    → 0 < n
    → (files : List (Bytes × Bytes)) × (map_phase o mapf n task_id inputs ≡ some files)
      × ((k : String)
          → Perm
              (values_of k (reads o.json o.decimal r files))
              (share o.sum32 n k r (intermediate mapf inputs)))
unfolding map_phase intermediate filter_map
map_phase_lem o mapf n task_id r [] pos = (
  [],
  refl,
  λ k.
      subst (λ kvs. Perm (values_of k kvs) (share o.sum32 n k r []))
        (sym (reads_none o.json o.decimal r [] tt))
        (rw (share_nil o.sum32 n k r) (Permutation.refl [])),
)
map_phase_lem o mapf n task_id r ((filename, content) ∷ rest) pos =
    let (files, done, kept) = start_map_task_lem o mapf n task_id r (filename, content) pos in
    let (others, phase, all) = map_phase_lem o mapf n (suc task_id) r rest pos in
    let pairs = mapf filename content in
    let read = reads o.json o.decimal r in
    (
      files ++ others,
      rw (done, phase) refl,
      λ k.
          let own : Perm (values_of k (read files)) (share o.sum32 n k r pairs) =
            subst (λ vs. Perm vs (share o.sum32 n k r pairs)) (sym (kept k))
              (share-Perm o.sum32 n k r (o.sorting.sort-Perm pairs)) in
          subst (λ vs. Perm vs (share o.sum32 n k r (pairs ++ intermediate mapf rest)))
            (sym (
              ap (values_of k) (reads-append o.json o.decimal r files others)
              ∙ values_of-append k (read files) (read others)))
            (subst (Perm (values_of k (read files) ++ values_of k (read others)))
              (sym (share-append o.sum32 n k r pairs (intermediate mapf rest)))
              (Permutation.append own (all k))),
    )

-- For a reduction that does not depend on the order of the values, at least one reduce task, and a
-- directory in which no other file's name ends in a dash and the number `r`: the job ends without a
-- panic, and in the output of reduce task `r` a key of that number has the lines that it has in the
-- output of `mrsequential` on the same input files, and any other key has none.
pub mapreduce-mrsequential :
    (o : Outside) (mapf : String → String → List KeyValue) (reducef : String → List String → String)
    (n_reduce r : ℕ) (other : List (Bytes × Bytes)) (inputs : List (String × String)) (k : String)
    → 0 < n_reduce
    → NoneEnds o.decimal r other
    → Commutes reducef
    → (out : List (String × String)) × (mapreduce o mapf reducef n_reduce r other inputs ≡ some out)
      × (results_of k out ≡ (
          if ihash o.sum32 k % n_reduce == r
          then results_of k (mrsequential o.sorting mapf reducef inputs)
          else []))
unfolding mapreduce mrsequential start_reduce_task
mapreduce-mrsequential o mapf reducef n_reduce r other inputs k pos foreign c =
    let (files, phase, all) = map_phase_lem o mapf n_reduce 0 r inputs pos in
    let read = reads o.json o.decimal r in
    let pairs = read (o.read_dir.listed (files ++ other)) in
    let same : read (files ++ other) ≡ read files =
      reads-append o.json o.decimal r files other
      ∙ ap (λ kvs. read files ++ kvs) (reads_none o.json o.decimal r other foreign)
      ∙ append-nil (read files) in
    let listed : Perm pairs (read files) =
      subst (Perm pairs) same
        (reads-Perm o.json o.decimal r (o.read_dir.listed-Perm (files ++ other))) in
    let kept : Perm (values_of k pairs) (share o.sum32 n_reduce k r (intermediate mapf inputs)) =
      Permutation.trans (values_of-Perm k listed) (all k) in
    let ours =
      sorted_results o.sorting reducef k pairs c
      ∙ reduced-Perm reducef k (values_of k pairs)
          (share o.sum32 n_reduce k r (intermediate mapf inputs)) c kept in
    let theirs = sorted_results o.sorting reducef k (intermediate mapf inputs) c in
    (
      start_reduce_task o reducef r (files ++ other),
      rw phase refl,
      ours ∙ elim (Bool-cases (target o.sum32 n_reduce k == r)) [
        | inl here ↦ rw here (sym theirs)
        | inr away ↦ rw away refl
      ],
    )
