-- ===== src/Tests/Jobs.antt =====
-- Two files and one reduce task.
use Prim.Native.String.{String}
use distributed_systems_mit.Base.{◌≡◌, ◌<◌, false, refl, some, List, [], ◌∷◌, length, arith}
use distributed_systems_mit.MapReduce.Coordinator.{
  Coordinator, TaskStatus, RequestTaskReply, completed, in_progress, map_task, fresh_task,
  make_coordinator, request_task, assign_task, last_eligible, eligible, report_task, is_done, Event,
  requests, reports, step, run,
}
use distributed_systems_mit.MapReduce.Coordinator.Tasks.{IsValid, Answer, request_task-Answer}
use distributed_systems_mit.MapReduce.Coordinator.Counters.{
  count_completed, ReduceReply, Inv, run-Inv, duplicate_report, overshoot_never_done,
}

abbrev files : List String
files = "one.txt" ∷ "two.txt" ∷ []

abbrev at_work : TaskStatus
at_work = record { status = in_progress; start_time = 3 }

abbrev at_end : TaskStatus
at_end = record { status = completed; start_time = 3 }

-- The second map task is done, and the first one not.
abbrev half_way : Coordinator
half_way = record {
  map_input_files = files;
  map_tasks_status = at_work ∷ at_end ∷ [];
  completed_maps = 1;
  reduce_tasks_status = at_work ∷ [];
  completed_reduces = 0;
  n_reduce = 1;
}

half_way-IsValid : IsValid half_way
half_way-IsValid = record { maps = refl; reduces = refl }

request_task-Answer_example :
    (c : Coordinator) × (reply : RequestTaskReply) × (request_task half_way 20000000000
      ≡ some (c, reply))
    × Answer half_way 20000000000 c reply
request_task-Answer_example = request_task-Answer half_way 20000000000 half_way-IsValid

abbrev calls : List Event
calls = requests 3 ∷ reports map_task 1 ∷ requests 3 ∷ []

abbrev after_calls : Coordinator
after_calls = record half_way { reduce_tasks_status = fresh_task ∷ [] }

calls_run : run (make_coordinator files 1) calls ≡ some after_calls
unfolding run step make_coordinator request_task assign_task last_eligible eligible report_task
calls_run = refl

run-Inv_example : Inv after_calls
run-Inv_example = run-Inv files 1 after_calls calls calls_run

duplicate_report_example :
    (c c' : Coordinator) × (reply : RequestTaskReply) × (report_task half_way map_task 1 ≡ some c)
    × (request_task c 20 ≡ some (c', reply))
    × (c.completed_maps ≡ length c.map_input_files)
    × ReduceReply c 20 reply
    × (count_completed c.map_tasks_status < length c.map_input_files)
unfolding count_completed
duplicate_report_example =
    duplicate_report half_way 1 20 at_end half_way-IsValid refl refl refl refl

-- Both reports of a reduce task that two workers did.
abbrev overshot : Coordinator
overshot = record half_way {
  completed_maps = 2;
  reduce_tasks_status = at_end ∷ [];
  completed_reduces = 2;
}

overshot_run : run overshot (requests 30 ∷ []) ≡ some overshot
unfolding run step request_task assign_task last_eligible eligible
overshot_run = refl

overshoot_never_done_example : is_done overshot ≡ false
overshoot_never_done_example =
    overshoot_never_done overshot overshot (requests 30 ∷ []) (omega arith) overshot_run
