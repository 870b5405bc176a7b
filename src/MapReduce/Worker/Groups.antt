-- ===== src/MapReduce/Worker/Groups.antt =====
-- The grouping loops of `startReduceTask` against a reference: the values of a key, wherever they
-- stand in the list.
use Prim.Native.String.{String}
use text.Mathlib.Text.{◌==◌ as same_key}
use text.Mathlib.TextEquality.{eq_iff}
use mathlib.Core.List.{filter_map}
use distributed_systems_mit.Base.{
  ℕ, zero, suc, ◌≤◌, ◌≡◌, ◌≢◌, refl, sym, ap, ◌∙◌, Bool-cases, true, false, inl, inr, Option, none,
  some, List, [], ◌∷◌, length, if◌then◌else◌, arith, less, less_total,
}
use distributed_systems_mit.MapReduce.Worker.{KeyValue, NoneLess, Ordered, take_run, reduce_loop}

abbrev pub value_for : String → KeyValue → Option String
value_for k kv = if same_key k kv.key then some kv.value else none

abbrev pub values_of : String → List KeyValue → List String
values_of k kvs = filter_map (value_for k) kvs

-- The results on the lines of a key.
abbrev result_at : String → String × String → Option String
result_at k (key, result) = if same_key k key then some result else none

abbrev pub results_of : String → List (String × String) → List String
results_of k lines = filter_map (result_at k) lines

-- The one line of a key that has values, and none for a key without.
abbrev pub reduced : (String → List String → String) → String → List String → List String
reduced reducef k [] = []
reduced reducef k (v ∷ vs) = reducef k (v ∷ vs) ∷ []

pub same_key_eq : (s t : String) → same_key s t ≡ true → s ≡ t
same_key_eq s t h = (eq_iff s t).0 h

pub same_key_ne : (s t : String) → s ≢ t → same_key s t ≡ false
same_key_ne s t ne = ground (arith, eq_iff s t)

-- Past a key, its values are over.
values_over :
    (k x : String) (kvs : List KeyValue)
    → NoneLess x kvs
    → less x k ≡ false
    → x ≢ k
    → values_of k kvs ≡ []
unfolding filter_map
values_over k x [] n h ne = refl
values_over k x (y ∷ rest) (m, n) h ne = elim (Bool-cases (same_key k y.key)) [
  | inr other ↦ rw other (values_over k x rest n h ne)
  | inl same ↦
      let at_k = same_key_eq k y.key same in
      absurd (ne (less_total x k h (ap (λ z. less z x) at_k ∙ m)))
]

-- What the loop on `j` leaves.
record Taken (k : String) (kvs : List KeyValue) : Type 0 where
  values_are : (take_run k kvs).0 ≡ values_of k kvs
  over : values_of k (take_run k kvs).1 ≡ []
  others : (j : String) → j ≢ k → values_of j (take_run k kvs).1 ≡ values_of j kvs
  ordered : Ordered (take_run k kvs).1
  shorter : length (take_run k kvs).1 ≤ length kvs

take_run-Taken : (k : String) (kvs : List KeyValue) → Ordered kvs → NoneLess k kvs → Taken k kvs
unfolding filter_map take_run
take_run-Taken k [] o n = record {
  values_are = refl;
  over = refl;
  others = λ j ne. refl;
  ordered = tt;
  shorter = omega arith;
}
take_run-Taken k (kv ∷ rest) (n', o) (m, n) = elim (Bool-cases (same_key k kv.key)) [
  | inl same ↦
      let r = take_run-Taken k rest o n in
      record {
        values_are = rw same (ap (λ vs. kv.value ∷ vs) r.values_are);
        over = rw same r.over;
        others = λ j ne.
            rw (same, same_key_ne j kv.key (λ e. ne (e ∙ sym (same_key_eq k kv.key same))))
              (r.others j ne);
        ordered = rw same r.ordered;
        shorter = rw same (omega (arith, r.shorter));
      }
  | inr other ↦
      let ends = values_over k kv.key rest n' m (λ e. ground (arith, eq_iff k kv.key)) in
      record {
        values_are = rw other (sym ends);
        over = rw other (rw other ends);
        others = λ j ne. rw other refl;
        ordered = rw other (n', o);
        shorter = rw other (omega arith);
      }
]

-- On ordered pairs, with the fuel that the list's length is, a key has a line if it has values, and
-- then one, the reduction of all of them in their order.
pub reduce_loop_lem :
    (reducef : String → List String → String) (k : String) (fuel : ℕ) (kvs : List KeyValue)
    → length kvs ≤ fuel
    → Ordered kvs
    → results_of k (reduce_loop reducef fuel kvs) ≡ reduced reducef k (values_of k kvs)
unfolding filter_map reduce_loop
reduce_loop_lem reducef k zero [] h o = refl
reduce_loop_lem reducef k zero (kv ∷ rest) h o = absurd (omega arith)
reduce_loop_lem reducef k (suc fuel) [] h o = refl
reduce_loop_lem reducef k (suc fuel) (kv ∷ rest) h (n, o) =
    let r = take_run-Taken kv.key rest o n in
    let later =
      reduce_loop_lem reducef k fuel (take_run kv.key rest).1 (omega (arith, r.shorter))
        r.ordered in
    elim (Bool-cases (same_key k kv.key)) [
      | inl same ↦
          let at_k : k ≡ kv.key = same_key_eq k kv.key same in
          let none_left : results_of k (reduce_loop reducef fuel (take_run kv.key rest).1) ≡ [] =
            later
            ∙ ap (reduced reducef k)
                (ap (λ z. values_of z (take_run kv.key rest).1) at_k ∙ r.over) in
          rw (same, none_left, r.values_are)
            (ap (λ z. reducef z (kv.value ∷ values_of z rest) ∷ []) (sym at_k))
      | inr other ↦
          rw other
            (later ∙ ap (reduced reducef k) (r.others k (λ e. ground (arith, eq_iff k kv.key))))
    ]
