-- ===== src/MapReduce/Worker.antt =====
-- The MapReduce worker (src/mr/worker.go) and the sequential program that it must agree with
-- (src/main/mrsequential.go). What is outside is a record: the contents of an input file are an
-- argument. A failed read, creation or write of a file ends the program, and is not modelled.
pub mod Groups
pub mod Buckets
pub mod Equivalence
use Prim.Native.String.{String}
use text.Mathlib.Text.{◌==◌ as same_key}
use mathlib.Core.List.{Perm}
use distributed_systems_mit.Base.{
  ℕ, zero, suc, ◌+◌, ◌%◌, ◌^◌, ◌≡◌, Bool, false, Option, none, some, List, [], ◌∷◌, ◌++◌, length,
  get_elem?, set, replicate, if◌then◌else◌, ◌>>=◌, less,
}
use distributed_systems_mit.MapReduce.Files.{
  Bytes, Decimal, Temp, ReadDir, Json, rename_all, select_files, decode_all,
}
use distributed_systems_mit.MapReduce.Coordinator.{
  Task, map_task, reduce_task, wait_task, done_task, RequestTaskReply,
}

pub record KeyValue : Type 0 where
  pub key : String
  pub value : String

-- No pair of the list has a key less than `k`.
abbrev pub NoneLess : String → List KeyValue → Type 0
NoneLess k [] = Unit
NoneLess k (kv ∷ rest) = (less kv.key k ≡ false) × NoneLess k rest

-- Ascending by `ByKey.Less`.
abbrev pub Ordered : List KeyValue → Type 0
Ordered [] = Unit
Ordered (kv ∷ rest) = NoneLess kv.key rest × Ordered rest

-- sort.Sort on ByKey: it reorders the pairs, and they ascend.
pub record Sort : Type 0 where
  pub sort : List KeyValue → List KeyValue
  pub sort-Perm : (kvs : List KeyValue) → Perm (sort kvs) kvs
  pub sort-Ordered : (kvs : List KeyValue) → Ordered (sort kvs)

-- What the worker does for a reply of the coordinator.
pub data Work : Type 0 where
  start_map : String → ℕ → ℕ → Work
  start_reduce : ℕ → ℕ → Work
  sleep : Work
  exit : Work

unfoldable pub dispatch : RequestTaskReply → Work
dispatch reply = elim reply.task_type [
  | map_task ↦ start_map reply.file reply.n_reduce reply.task_id
  | reduce_task ↦ start_reduce reply.task_id reply.n_map
  | wait_task ↦ sleep
  | done_task ↦ exit
]

-- The loop on `j`: the values of the leading pairs with key `k`, and the pairs after them.
unfoldable pub take_run : String → List KeyValue → List String × List KeyValue
take_run k [] = ([], [])
take_run k (kv ∷ rest) =
    let (values, after) = take_run k rest in
    if same_key k kv.key then (kv.value ∷ values, after) else ([], kv ∷ rest)

module _ (reducef : String → List String → String) where
  -- The loop on `i`: the lines of the output, each a key and a result.
  unfoldable pub reduce_loop : ℕ → List KeyValue → List (String × String)
  reduce_loop zero kvs = []
  reduce_loop (suc fuel) [] = []
  reduce_loop (suc fuel) (kv ∷ rest) =
      let (values, after) = take_run kv.key rest in
      (kv.key, reducef kv.key (kv.value ∷ values)) ∷ reduce_loop fuel after

-- What the worker's code uses of the standard library: the checksum of hash/fnv, sort.Sort,
-- encoding/json, the printing of numbers, os.CreateTemp and os.ReadDir.
pub record Outside : Type 0 where
  pub sum32 : String → ℕ
  pub sorting : Sort
  pub json : Json KeyValue
  pub decimal : Decimal
  pub temp : Temp
  pub read_dir : ReadDir

-- `startReduceTask` in a directory.
unfoldable pub start_reduce_task :
    Outside → (String → List String → String) → ℕ → List (Bytes × Bytes) → List (String × String)
unfolding reduce_loop
start_reduce_task o reducef task_id dir =
    let files = select_files o.decimal task_id (o.read_dir.listed dir) in
    let kvs = o.sorting.sort (decode_all o.json files) in reduce_loop reducef (length kvs) kvs

unfoldable pub ihash : (String → ℕ) → String → ℕ
ihash sum32 key = sum32 key % 2 ^ 31

module _ (sum32 : String → ℕ) (json : Json KeyValue) where
  -- The loop that encodes each pair to the file of its reduce task. A file that is not there
  -- panics; so does `% 0`, and without a file there is none at any index.
  unfoldable pub encode_all : ℕ → List Bytes → List KeyValue → Option (List Bytes)
  unfolding ihash
  encode_all n_reduce files [] = some files
  encode_all n_reduce files (kv ∷ rest) = do
    let reduce_target = ihash sum32 kv.key % n_reduce
    file ← get_elem? files reduce_target
    encode_all n_reduce (set files reduce_target (file ++ json.encode kv)) rest

module _ (o : Outside) (mapf : String → String → List KeyValue) where
  -- `startMapTask` on a file's name and contents: the files that it leaves in the directory.
  unfoldable pub start_map_task : ℕ → ℕ → String × String → Option (List (Bytes × Bytes))
  unfolding encode_all
  start_map_task n_reduce task_id (filename, content) = do
    let kvs = o.sorting.sort (mapf filename content)
    contents ← encode_all o.sum32 o.json n_reduce (replicate n_reduce []) kvs
    rename_all o.decimal o.temp task_id 0 contents

  -- All map tasks from `task_id` on, one for each input file: the files that they leave.
  unfoldable pub map_phase : ℕ → ℕ → List (String × String) → Option (List (Bytes × Bytes))
  map_phase n_reduce task_id [] = some []
  map_phase n_reduce task_id (input ∷ rest) = do
    files ← start_map_task n_reduce task_id input
    others ← map_phase n_reduce (suc task_id) rest
    some (files ++ others)

-- The output of reduce task `r`, after all map tasks, in a directory that had `other` files in it.
unfoldable pub mapreduce :
    Outside
    → (String → String → List KeyValue)
    → (String → List String → String)
    → ℕ
    → ℕ
    → List (Bytes × Bytes)
    → List (String × String)
    → Option (List (String × String))
unfolding map_phase start_reduce_task
mapreduce o mapf reducef n_reduce r other inputs = do
  files ← map_phase o mapf n_reduce 0 inputs
  some (start_reduce_task o reducef r (files ++ other))

-- The accumulation of `mrsequential`.
unfoldable pub intermediate :
    (String → String → List KeyValue) → List (String × String) → List KeyValue
intermediate mapf [] = []
intermediate mapf ((filename, content) ∷ rest) = mapf filename content ++ intermediate mapf rest

-- `mrsequential`, whose loops on `i` and `j` are those of `startReduceTask`.
unfoldable pub mrsequential :
    Sort
    → (String → String → List KeyValue)
    → (String → List String → String)
    → List (String × String)
    → List (String × String)
unfolding reduce_loop intermediate
mrsequential s mapf reducef inputs =
    let kvs = s.sort (intermediate mapf inputs) in reduce_loop reducef (length kvs) kvs
