-- ===== src/MapReduce/Coordinator/Tasks.antt =====
-- How a request is answered.
use Prim.Native.String.{String}
use distributed_systems_mit.Base.{
  ℕ, ◌≤◌, ◌<◌, ◌≡◌, refl, ltb→lt, ltb→le, inl, inr, true, false, Bool-cases, none, some, length,
  get_elem?, set, ltb, arith, get_elem?_total, get_elem?_bound,
}
use distributed_systems_mit.MapReduce.Coordinator.{
  map_task, reduce_task, wait_task, done_task, Coordinator, RequestTaskReply, last_eligible,
  assign_task, request_task, started_at, empty_reply,
}
use distributed_systems_mit.MapReduce.Coordinator.Choice.{Chosen, AllBusy, choice_cases}

-- The tables have a task for each input file and for each reduce task.
pub record IsValid (c : Coordinator) : Type 0 where
  pub maps : length c.map_tasks_status ≡ length c.map_input_files
  pub reduces : length c.reduce_tasks_status ≡ c.n_reduce

-- The answer to a request: a free map task with its file while maps are missing, then a free reduce
-- task, then the end; a worker waits when no task of the phase is free and it is not over.
pub data Answer (c : Coordinator) (now : ℕ) : Coordinator → RequestTaskReply → Type 0 where
  map_given :
      (id : ℕ) (file : String)
      → c.completed_maps < length c.map_input_files
      → Chosen now c.map_tasks_status id
      → get_elem? c.map_input_files id ≡ some file
      → Answer c now
          (record c { map_tasks_status = set c.map_tasks_status id (started_at now) })
          (record {
            task_id = id;
            file = file;
            task_type = map_task;
            n_reduce = c.n_reduce;
            n_map = 0;
          })
  map_wait :
      c.completed_maps < length c.map_input_files
      → AllBusy now c.map_tasks_status
      → Answer c now c (record empty_reply { task_type = wait_task })
  reduce_given :
      (id : ℕ)
      → length c.map_input_files ≤ c.completed_maps
      → Chosen now c.reduce_tasks_status id
      → Answer c now
          (record c { reduce_tasks_status = set c.reduce_tasks_status id (started_at now) })
          (record {
            task_id = id;
            file = "";
            task_type = reduce_task;
            n_reduce = 0;
            n_map = length c.map_input_files;
          })
  reduce_wait :
      length c.map_input_files ≤ c.completed_maps
      → c.completed_reduces < c.n_reduce
      → AllBusy now c.reduce_tasks_status
      → Answer c now c (record empty_reply { task_type = wait_task })
  finished :
      length c.map_input_files ≤ c.completed_maps
      → c.n_reduce ≤ c.completed_reduces
      → AllBusy now c.reduce_tasks_status
      → Answer c now c (record empty_reply { task_type = done_task })

abbrev pub Answered : Coordinator → ℕ → Type 0
Answered c now =
    (c' : Coordinator) × (reply : RequestTaskReply) × (request_task c now ≡ some (c', reply))
    × Answer c now c' reply

map_phase :
    (c : Coordinator) (now : ℕ)
    → IsValid c
    → ltb c.completed_maps (length c.map_input_files) ≡ true
    → Answered c now
unfolding request_task assign_task
map_phase c now v missing = elim (choice_cases now c.map_tasks_status) [
  | inl (nothing, busy) ↦ (
    c,
    record empty_reply { task_type = wait_task },
    rw (missing, nothing) refl,
    map_wait (ltb→lt c.completed_maps (length c.map_input_files) missing) busy,
  )
  | inr (id, there, chosen) ↦
      let (file, at_id) =
        get_elem?_total c.map_input_files id
          (omega (arith, v.maps, get_elem?_bound c.map_tasks_status id chosen.found)) in
      (
        record c { map_tasks_status = set c.map_tasks_status id (started_at now) },
        record {
          task_id = id;
          file = file;
          task_type = map_task;
          n_reduce = c.n_reduce;
          n_map = 0;
        },
        rw (missing, there, at_id) refl,
        map_given id file (ltb→lt c.completed_maps (length c.map_input_files) missing) chosen at_id,
      )
]

reduce_idle :
    (c : Coordinator) (now : ℕ)
    → ltb c.completed_maps (length c.map_input_files) ≡ false
    → last_eligible now c.reduce_tasks_status 0 none ≡ none
    → AllBusy now c.reduce_tasks_status
    → Answered c now
unfolding request_task assign_task
reduce_idle c now all nothing busy =
    let mapped = ltb→le c.completed_maps (length c.map_input_files) all in
    elim (Bool-cases (ltb c.completed_reduces c.n_reduce)) [
      | inl more ↦ (
        c,
        record empty_reply { task_type = wait_task },
        rw (all, nothing, more) refl,
        reduce_wait mapped (ltb→lt c.completed_reduces c.n_reduce more) busy,
      )
      | inr over ↦ (
        c,
        record empty_reply { task_type = done_task },
        rw (all, nothing, over) refl,
        finished mapped (ltb→le c.completed_reduces c.n_reduce over) busy,
      )
    ]

reduce_phase :
    (c : Coordinator) (now : ℕ)
    → ltb c.completed_maps (length c.map_input_files) ≡ false
    → Answered c now
unfolding request_task assign_task
reduce_phase c now all = elim (choice_cases now c.reduce_tasks_status) [
  | inl (nothing, busy) ↦ reduce_idle c now all nothing busy
  | inr (id, there, chosen) ↦ (
    record c { reduce_tasks_status = set c.reduce_tasks_status id (started_at now) },
    record {
      task_id = id;
      file = "";
      task_type = reduce_task;
      n_reduce = 0;
      n_map = length c.map_input_files;
    },
    rw (all, there) refl,
    reduce_given id (ltb→le c.completed_maps (length c.map_input_files) all) chosen,
  )
]

-- A coordinator with its tables in place answers every request, without a panic, in one of the five
-- ways of `Answer`: while maps are missing it gives out the last map task that is free (never given
-- out, or not reported more than ten seconds after it was), with its file, and marks it as given out
-- now; then it does so for the reduce tasks; a worker waits when no task of the phase is free, and is
-- told that the job is over when all reduce tasks were counted too.
pub request_task-Answer :
    (c : Coordinator) (now : ℕ)
    → IsValid c
    → (c' : Coordinator) × (reply : RequestTaskReply) × (request_task c now ≡ some (c', reply))
      × Answer c now c' reply
request_task-Answer c now v = elim (Bool-cases (ltb c.completed_maps (length c.map_input_files))) [
  | inl missing ↦ map_phase c now v missing
  | inr all ↦ reduce_phase c now all
]
