-- ===== src/MapReduce/Worker/Buckets.antt =====
-- The loop of `startMapTask` that encodes the pairs: every pair of a key goes to the file of the
-- key's reduce task.
use Prim.Native.String.{String}
use text.Mathlib.Text.{◌==◌ as same_key}
use mathlib.Core.List.{filter_map, filter_map-append, append_assoc, append-nil}
use native.Mathlib.Nat.{mod-lt}
use distributed_systems_mit.Base.{
  ℕ, zero, suc, ◌%◌, ◌<◌, ◌≡◌, ◌≢◌, refl, sym, ap, ◌∙◌, Bool-cases, inl, inr, if◌then◌else◌, Option,
  some, Option-cases, none-ne-some, eq_of_some, subst, List, [], ◌∷◌, ◌++◌, length, get_elem?, set,
  replicate, ◌>>=◌, ◌==◌, ==→eq, ==→ne, arith, get_elem?_total, get_elem?_bound, get_elem?-set_self,
  get_elem?-set_ne, length-set, length-replicate,
}
use distributed_systems_mit.MapReduce.Files.{Bytes, Json}
use distributed_systems_mit.MapReduce.Files.Streams.{
  flat, flat_all, flat-append, flat_all-get, flat_all-set, flat_all-replicate,
}
use distributed_systems_mit.MapReduce.Files.Reading.{or_nothing, reads, rename_all-reads}
use distributed_systems_mit.MapReduce.Worker.{KeyValue, Outside, ihash, encode_all, start_map_task}
use distributed_systems_mit.MapReduce.Worker.Groups.{value_for, values_of, same_key_eq}

abbrev file_at : List (List KeyValue) → ℕ → List KeyValue
file_at files r = or_nothing (get_elem? files r)

pub values_of-append :
    (k : String) (xs ys : List KeyValue) → values_of k (xs ++ ys) ≡ values_of k xs ++ values_of k ys
values_of-append k xs ys = filter_map-append (value_for k) xs ys

module _ (sum32 : String → ℕ) (n : ℕ) where
  abbrev pub target : String → ℕ
  target k = ihash sum32 k % n

  none_of : (k : String) (kv : KeyValue) → target k ≢ target kv.key → values_of k (kv ∷ []) ≡ []
  unfolding filter_map
  none_of k kv ne = elim (Bool-cases (same_key k kv.key)) [
    | inl same ↦ absurd (ne (ap target (same_key_eq k kv.key same)))
    | inr other ↦ rw other refl
  ]

  -- The values of a key that belong to the reduce task `r`.
  abbrev pub share : String → ℕ → List KeyValue → List String
  share k r kvs = if target k == r then values_of k kvs else []

  pub share_nil : (k : String) (r : ℕ) → share k r [] ≡ []
  unfolding filter_map
  share_nil k r = elim (Bool-cases (target k == r)) [
    | inl here ↦ rw here refl
    | inr away ↦ rw away refl
  ]

  share-cons :
      (k : String) (r : ℕ) (kv : KeyValue) (rest : List KeyValue)
      → share k r (kv ∷ rest) ≡ share k r (kv ∷ []) ++ share k r rest
  share-cons k r kv rest = elim (Bool-cases (target k == r)) [
    | inl here ↦ rw here (values_of-append k (kv ∷ []) rest)
    | inr away ↦ rw away refl
  ]

  share_here :
      (k : String) (r : ℕ) (kv : KeyValue)
      → r ≡ target kv.key
      → share k r (kv ∷ []) ≡ values_of k (kv ∷ [])
  share_here k r kv same = elim (Bool-cases (target k == r)) [
    | inl here ↦ rw here refl
    | inr away ↦ rw away (sym (none_of k kv (λ e. ==→ne (target k) r away (e ∙ sym same))))
  ]

  share_away : (k : String) (r : ℕ) (kv : KeyValue) → r ≢ target kv.key → share k r (kv ∷ []) ≡ []
  share_away k r kv ne = elim (Bool-cases (target k == r)) [
    | inl here ↦ rw here (none_of k kv (λ e. ne (sym (==→eq (target k) r here) ∙ e)))
    | inr away ↦ rw away refl
  ]

  -- One pair is added to the values of its key, in the file of the key's task.
  values_of-set :
      (k : String) (r : ℕ) (kv : KeyValue) (file : List KeyValue) (files : List (List KeyValue))
      → get_elem? files (target kv.key) ≡ some file
      → values_of k (file_at (set files (target kv.key) (file ++ kv ∷ [])) r)
        ≡ values_of k (file_at files r) ++ share k r (kv ∷ [])
  values_of-set k r kv file files found = elim (Bool-cases (r == target kv.key)) [
    | inl here ↦
        let same : r ≡ target kv.key = ==→eq r (target kv.key) here in
        let added : get_elem? (set files (target kv.key) (file ++ kv ∷ [])) (target kv.key)
            ≡ some (file ++ kv ∷ []) =
          get_elem?-set_self files (target kv.key) (file ++ kv ∷ [])
            (get_elem?_bound files (target kv.key) found) in
        ap (λ o. values_of k (or_nothing o))
          (ap (get_elem? (set files (target kv.key) (file ++ kv ∷ []))) same ∙ added)
        ∙ values_of-append k file (kv ∷ [])
        ∙ ap (λ vs. values_of k file ++ vs) (sym (share_here k r kv same))
        ∙ ap (λ o. values_of k (or_nothing o) ++ share k r (kv ∷ []))
            (sym (ap (get_elem? files) same ∙ found))
    | inr away ↦
        let ne = ==→ne r (target kv.key) away in
        ap (λ o. values_of k (or_nothing o))
          (get_elem?-set_ne files (file ++ kv ∷ []) (λ e. ne (sym e)))
        ∙ sym (append-nil (values_of k (file_at files r)))
        ∙ ap (λ vs. values_of k (file_at files r) ++ vs) (sym (share_away k r kv ne))
  ]

  -- The loop with the pairs in place of their encodings.
  abbrev place_all : List (List KeyValue) → List KeyValue → Option (List (List KeyValue))
  place_all files [] = some files
  place_all files (kv ∷ rest) = do
    file ← get_elem? files (target kv.key)
    place_all (set files (target kv.key) (file ++ kv ∷ [])) rest

  encode_all-place_all :
      (json : Json KeyValue) (kvs : List KeyValue) (files files' : List (List KeyValue))
      → place_all files kvs ≡ some files'
      → encode_all sum32 json n (flat_all json files) kvs ≡ some (flat_all json files')
  unfolding encode_all
  encode_all-place_all json [] files files' h = ap some (ap (flat_all json) (eq_of_some h))
  encode_all-place_all json (kv ∷ rest) files files' h =
      elim (Option-cases (get_elem? files (target kv.key))) [
        | inl absent ↦ absurd (none-ne-some (rw absent at h))
        | inr (file, found) ↦
            let next = set files (target kv.key) (file ++ kv ∷ []) in
            let kept : place_all next rest ≡ some files' = rw found at h in
            let same : flat_all json next
                ≡ set (flat_all json files) (target kv.key) (flat json file ++ json.encode kv) =
              flat_all-set json files (target kv.key) (file ++ kv ∷ [])
              ∙ ap (set (flat_all json files) (target kv.key)) (flat-append json file kv) in
            rw (flat_all-get json files (target kv.key) file found) (
              subst (λ fs. encode_all sum32 json n fs rest ≡ some (flat_all json files')) same
                (encode_all-place_all json rest next files' kept))
      ]

  -- With a file for each reduce task, all pairs are placed, and each file gets the values of the
  -- keys of its number, in their order.
  place_all_lem :
      (kvs : List KeyValue) (files : List (List KeyValue))
      → 0 < n
      → length files ≡ n
      → (files' : List (List KeyValue)) × (place_all files kvs ≡ some files')
        × ((k : String) (r : ℕ)
            → values_of k (file_at files' r) ≡ values_of k (file_at files r) ++ share k r kvs)
  place_all_lem [] files pos all = (
    files,
    refl,
    λ k r.
        sym (append-nil (values_of k (file_at files r)))
        ∙ ap (λ vs. values_of k (file_at files r) ++ vs) (sym (share_nil k r)),
  )
  place_all_lem (kv ∷ rest) files pos all =
      let t = target kv.key in
      let (file, found) =
        get_elem?_total files t (omega (arith, mod-lt (ihash sum32 kv.key) pos)) in
      let files_next = set files t (file ++ kv ∷ []) in
      let (files', done, kept) =
        place_all_lem rest files_next pos (length-set files t (file ++ kv ∷ []) ∙ all) in
      (
        files',
        rw found done,
        λ k r.
            kept k r
            ∙ ap (λ vs. vs ++ share k r rest) (values_of-set k r kv file files found)
            ∙ append_assoc (values_of k (file_at files r)) (share k r (kv ∷ [])) (share k r rest)
            ∙ ap (λ vs. values_of k (file_at files r) ++ vs) (sym (share-cons k r kv rest)),
      )

  empty_file : (m r : ℕ) → file_at (replicate m []) r ≡ []
  empty_file zero r = refl
  empty_file (suc m) zero = refl
  empty_file (suc m) (suc r) = empty_file m r

-- A map task writes the values of each key to the file that the key's reduce task reads, and to no
-- other.
pub start_map_task_lem :
    (o : Outside) (mapf : String → String → List KeyValue) (n task_id r : ℕ)
    (input : String × String)
    → 0 < n
    → (files : List (Bytes × Bytes)) × (start_map_task o mapf n task_id input ≡ some files)
      × ((k : String)
          → values_of k (reads o.json o.decimal r files)
            ≡ share o.sum32 n k r (o.sorting.sort (mapf input.0 input.1)))
unfolding start_map_task filter_map
start_map_task_lem o mapf n task_id r (filename, content) pos =
    let kvs = o.sorting.sort (mapf filename content) in
    let (placed, done, kept) =
      place_all_lem o.sum32 n kvs (replicate n []) pos (length-replicate n []) in
    let encoded =
      subst (λ fs. encode_all o.sum32 o.json n fs kvs ≡ some (flat_all o.json placed))
        (flat_all-replicate o.json n)
        (encode_all-place_all o.sum32 n o.json kvs (replicate n []) placed done) in
    let (files, named, read) = rename_all-reads o.json o.decimal r o.temp task_id placed in
    (
      files,
      rw encoded named,
      λ k.
          ap (values_of k) read
          ∙ kept k r
          ∙ ap (λ file. values_of k file ++ share o.sum32 n k r kvs) (empty_file o.sum32 n n r),
    )
