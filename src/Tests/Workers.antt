-- ===== src/Tests/Workers.antt =====
-- A word count over two files, in two reduce tasks.
use Prim.Native.String.{String, ◌++◌}
use mathlib.Core.Nat.{ℕ as Count, zero, suc}
use mathlib.Core.List.{length}
use mathlib.Core.List.Perm as Permutation
use distributed_systems_mit.Base.{
  ◌≡◌, ◌%◌, refl, ap, some, List, [], ◌∷◌, ◌==◌, if◌then◌else◌, arith,
}
use distributed_systems_mit.MapReduce.Files.{
  Bytes, rename_all, before_last_dash, has_suffix, select_files, decode_file, decode_all,
}
use distributed_systems_mit.MapReduce.Files.Reading.{NoneEnds}
use distributed_systems_mit.MapReduce.Worker.{
  KeyValue, ihash, mapreduce, mrsequential, start_map_task, map_phase, encode_all,
  start_reduce_task, reduce_loop, take_run,
}
use distributed_systems_mit.MapReduce.Worker.Groups.{results_of}
use distributed_systems_mit.MapReduce.Worker.Equivalence.{Commutes, mapreduce-mrsequential}
use distributed_systems_mit.Tests.Sorts.{test_sort}
use distributed_systems_mit.Tests.Streams.{test_outside}

-- Each file is one word.
abbrev one_word : String → String → List KeyValue
one_word filename content = record { key = content; value = "1" } ∷ []

abbrev stars : Count → String
stars zero = ""
stars (suc n) = "*" ++ stars n

-- A star for each value.
abbrev count_values : String → List String → String
count_values key values = stars (length values)

count_values-Commutes : Commutes count_values
count_values-Commutes k vs ws p = ap stars (Permutation.length-eq p)

abbrev texts : List (String × String)
texts = ("one.txt", "apple") ∷ ("two.txt", "pear") ∷ ("three.txt", "apple") ∷ []

-- A file that no task reads.
abbrev notes : List (Bytes × Bytes)
notes = (110 ∷ 45 ∷ 50 ∷ [], []) ∷ []

task_one :
    mapreduce test_outside one_word count_values 2 1 notes texts
    ≡ some (("apple", "**") ∷ ("pear", "*") ∷ [])
unfolding mapreduce reduce_loop take_run start_map_task start_reduce_task map_phase encode_all
    rename_all before_last_dash has_suffix select_files decode_file decode_all
task_one = refl

notes-NoneEnds : NoneEnds test_outside.decimal 1 notes
unfolding has_suffix
notes-NoneEnds = (refl, tt)

mapreduce-mrsequential_example :
    (out : List (String × String)) × (mapreduce test_outside one_word count_values 2 1 notes texts
      ≡ some out)
    × (results_of "apple" out ≡ (
        if ihash test_outside.sum32 "apple" % 2 == 1
        then results_of "apple" (mrsequential test_sort one_word count_values texts)
        else []))
mapreduce-mrsequential_example =
    mapreduce-mrsequential test_outside one_word count_values 2 1 notes texts "apple" (omega arith)
      notes-NoneEnds count_values-Commutes
