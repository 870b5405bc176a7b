-- ===== src/MapReduce/Coordinator.antt =====
-- The MapReduce coordinator (src/mr/coordinator.go and src/mr/rpc.go). A handler holds the lock, so
-- it is one step; the clock, in nanoseconds, is an argument, and an index out of range is `none`.
pub mod Choice
pub mod Tasks
pub mod Counters
use Prim.Native.String.{String}
use distributed_systems_mit.Base.{
  ℕ, suc, ◌+◌, ◌-◌, Bool, true, false, Option, none, some, List, [], ◌∷◌, length, get_elem?, set,
  replicate, ltb, ◌==◌, if◌then◌else◌, ◌>>=◌,
}

pub data Status : Type 0 where
  not_started in_progress completed : Status

pub record TaskStatus : Type 0 where
  pub status : Status
  pub start_time : ℕ

pub data Task : Type 0 where
  map_task reduce_task wait_task done_task : Task

pub record Coordinator : Type 0 where
  pub map_input_files : List String
  pub map_tasks_status : List TaskStatus
  pub completed_maps : ℕ
  pub reduce_tasks_status : List TaskStatus
  pub completed_reduces : ℕ
  pub n_reduce : ℕ

pub record RequestTaskReply : Type 0 where
  pub task_id : ℕ
  pub file : String
  pub task_type : Task
  pub n_reduce : ℕ
  pub n_map : ℕ

abbrev pub empty_reply : RequestTaskReply
empty_reply = record { task_id = 0; file = ""; task_type = map_task; n_reduce = 0; n_map = 0 }

abbrev pub fresh_task : TaskStatus
fresh_task = record { status = not_started; start_time = 0 }

unfoldable pub make_coordinator : List String → ℕ → Coordinator
make_coordinator files n_reduce = record {
  map_input_files = files;
  map_tasks_status = replicate (length files) fresh_task;
  completed_maps = 0;
  reduce_tasks_status = replicate n_reduce fresh_task;
  completed_reduces = 0;
  n_reduce = n_reduce;
}

-- 10*time.Second
abbrev pub ten_seconds : ℕ
ten_seconds = 10000000000

-- A task that was never given out, or was given out more than ten seconds ago.
unfoldable pub eligible : ℕ → TaskStatus → Bool
eligible now t = elim t.status [
  | not_started ↦ true
  | in_progress ↦ ltb ten_seconds (now - t.start_time)
  | completed ↦ false
]

-- The loop of `assignTask` from index `i`: a later eligible task replaces an earlier one.
unfoldable pub last_eligible : ℕ → List TaskStatus → ℕ → Option ℕ → Option ℕ
unfolding eligible
last_eligible now [] i chosen = chosen
last_eligible now (t ∷ rest) i chosen =
    last_eligible now rest (suc i) (if eligible now t then some i else chosen)

abbrev pub get_tasks_for_type : Coordinator → Task → List TaskStatus
get_tasks_for_type c map_task = c.map_tasks_status
get_tasks_for_type c reduce_task = c.reduce_tasks_status
get_tasks_for_type c wait_task = c.reduce_tasks_status
get_tasks_for_type c done_task = c.reduce_tasks_status

abbrev pub started_at : ℕ → TaskStatus
started_at now = record { status = in_progress; start_time = now }

abbrev pub mark_task_in_progress : Coordinator → Task → ℕ → ℕ → Coordinator
mark_task_in_progress c map_task id now = record c {
  map_tasks_status = set c.map_tasks_status id (started_at now);
}
mark_task_in_progress c reduce_task id now = record c {
  reduce_tasks_status = set c.reduce_tasks_status id (started_at now);
}
mark_task_in_progress c wait_task id now = c
mark_task_in_progress c done_task id now = c

-- The new state, the task given out and the reply, or `none` for (-1, false).
unfoldable pub assign_task : Coordinator → Task → ℕ → Option (Coordinator × ℕ × RequestTaskReply)
unfolding last_eligible
assign_task c task_type now = do
  id ← last_eligible now (get_tasks_for_type c task_type) 0 none
  some (
    mark_task_in_progress c task_type id now,
    id,
    record empty_reply { task_id = id; task_type = task_type },
  )

-- While maps are missing: a map task with its file, or a wait.
abbrev request_map :
    Coordinator
    → Option (Coordinator × ℕ × RequestTaskReply)
    → Option (Coordinator × RequestTaskReply)
request_map c none = some (c, record empty_reply { task_type = wait_task })
request_map c (some (c', id, reply)) = do
  file ← get_elem? c'.map_input_files id
  some (c', record reply { file = file; n_reduce = c'.n_reduce })

-- When they are all in: a reduce task, a wait, or the end.
abbrev request_reduce :
    Coordinator → Option (Coordinator × ℕ × RequestTaskReply) → Coordinator × RequestTaskReply
request_reduce c none = (
  c,
  record empty_reply {
    task_type = if ltb c.completed_reduces c.n_reduce then wait_task else done_task;
  },
)
request_reduce c (some (c', id, reply)) = (c', record reply { n_map = length c'.map_input_files })

unfoldable pub request_task : Coordinator → ℕ → Option (Coordinator × RequestTaskReply)
request_task c now =
    if ltb c.completed_maps (length c.map_input_files)
    then request_map c (assign_task c map_task now)
    else some (request_reduce c (assign_task c reduce_task now))

abbrev complete : TaskStatus → TaskStatus
complete t = record t { status = completed }

unfoldable pub report_task : Coordinator → Task → ℕ → Option Coordinator
report_task c map_task id = do
  t ← get_elem? c.map_tasks_status id
  some (record c {
    map_tasks_status = set c.map_tasks_status id (complete t);
    completed_maps = c.completed_maps + 1;
  })
report_task c reduce_task id = do
  t ← get_elem? c.reduce_tasks_status id
  some (record c {
    reduce_tasks_status = set c.reduce_tasks_status id (complete t);
    completed_reduces = c.completed_reduces + 1;
  })
report_task c wait_task id = some c
report_task c done_task id = some c

unfoldable pub is_done : Coordinator → Bool
is_done c = c.completed_reduces == c.n_reduce

-- What workers make the coordinator do.
pub data Event : Type 0 where
  requests : ℕ → Event
  reports : Task → ℕ → Event

unfoldable pub step : Coordinator → Event → Option Coordinator
step c (requests now) = do (c', reply) ← request_task c now; some c'
step c (reports task_type id) = report_task c task_type id

unfoldable pub run : Coordinator → List Event → Option Coordinator
run c [] = some c
run c (e ∷ es) = do c' ← step c e; run c' es
