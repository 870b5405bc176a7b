-- ===== src/MapReduce/Coordinator/Counters.antt =====
-- The coordinator's counters against its tables: a duplicate report is counted again.
use Prim.Native.String.{String}
use distributed_systems_mit.Base.{
  ℕ, zero, suc, ◌+◌, ◌≤◌, ◌<◌, ◌≡◌, ◌⊎◌, inl, inr, refl, sym, ap, ◌∙◌, subst, false, Option, some,
  List, [], ◌∷◌, length, get_elem?, set, replicate, ◌==◌, arith, ◌>>=◌, eq_of_some, length-set,
  length-replicate, >>=-eq-some, ne→==,
}
use distributed_systems_mit.MapReduce.Coordinator.{
  Status, completed, TaskStatus, Task, map_task, reduce_task, wait_task, done_task, Coordinator,
  RequestTaskReply, started_at, complete, request_task, report_task, is_done, assign_task,
  make_coordinator, fresh_task, Event, requests, reports, step, run,
}
use distributed_systems_mit.MapReduce.Coordinator.Choice.{Free, Chosen, AllBusy}
use distributed_systems_mit.MapReduce.Coordinator.Tasks.{
  IsValid, Answer, map_given, map_wait, reduce_given, reduce_wait, finished, request_task-Answer,
}

abbrev one_if_completed : Status → ℕ
one_if_completed completed = 1
one_if_completed _ = 0

-- How many tasks of a table are completed.
unfoldable pub count_completed : List TaskStatus → ℕ
count_completed [] = 0
count_completed (t ∷ rest) = one_if_completed t.status + count_completed rest

count-set :
    (tasks : List TaskStatus) (id : ℕ) (t new : TaskStatus)
    → get_elem? tasks id ≡ some t
    → count_completed (set tasks id new) + one_if_completed t.status
      ≡ count_completed tasks + one_if_completed new.status
unfolding count_completed
count-set [] id t new h = absurd (ground arith)
count-set (x ∷ rest) zero t new h = ground arith
count-set (x ∷ rest) (suc id) t new h = omega (arith, count-set rest id t new h)

-- What holds of a coordinator between two calls: its tables have the right size, and each counter
-- is at least the number of completed tasks.
pub record Inv (c : Coordinator) : Type 0 where
  pub valid : IsValid c
  pub maps_counted : count_completed c.map_tasks_status ≤ c.completed_maps
  pub reduces_counted : count_completed c.reduce_tasks_status ≤ c.completed_reduces

Free-not_completed : (now : ℕ) (t : TaskStatus) → Free now t → one_if_completed t.status ≡ 0
Free-not_completed now t (inl new) = ground arith
Free-not_completed now t (inr (given, late)) = ground arith

Answer-Inv :
    (c c' : Coordinator) (now : ℕ) (reply : RequestTaskReply)
    → Answer c now c' reply
    → Inv c
    → Inv c'
Answer-Inv c c' now reply (map_given id file h chosen at_id) i = record {
  valid = record {
    maps = length-set c.map_tasks_status id (started_at now) ∙ i.valid.maps;
    reduces = i.valid.reduces;
  };
  maps_counted = omega (
    arith,
    i.maps_counted,
    count-set c.map_tasks_status id chosen.task (started_at now) chosen.found,
    Free-not_completed now chosen.task chosen.free,
  );
  reduces_counted = i.reduces_counted;
}
Answer-Inv c c' now reply (map_wait h busy) i = i
Answer-Inv c c' now reply (reduce_given id h chosen) i = record {
  valid = record {
    maps = i.valid.maps;
    reduces = length-set c.reduce_tasks_status id (started_at now) ∙ i.valid.reduces;
  };
  maps_counted = i.maps_counted;
  reduces_counted = omega (
    arith,
    i.reduces_counted,
    count-set c.reduce_tasks_status id chosen.task (started_at now) chosen.found,
    Free-not_completed now chosen.task chosen.free,
  );
}
Answer-Inv c c' now reply (reduce_wait h more busy) i = i
Answer-Inv c c' now reply (finished h over busy) i = i

report-Inv :
    (c c' : Coordinator) (task : Task) (id : ℕ) → report_task c task id ≡ some c' → Inv c → Inv c'
unfolding report_task
report-Inv c c' map_task id h i =
    let (t, found, done) = >>=-eq-some (get_elem? c.map_tasks_status id) (λ t. after t) h in
    subst Inv (eq_of_some done) (record {
      valid = record {
        maps = length-set c.map_tasks_status id (complete t) ∙ i.valid.maps;
        reduces = i.valid.reduces;
      };
      maps_counted =
          omega (arith, i.maps_counted, count-set c.map_tasks_status id t (complete t) found);
      reduces_counted = i.reduces_counted;
    })
  where
    after : TaskStatus → Option Coordinator
    after t = some (record c {
      map_tasks_status = set c.map_tasks_status id (complete t);
      completed_maps = c.completed_maps + 1;
    })
report-Inv c c' reduce_task id h i =
    let (t, found, done) = >>=-eq-some (get_elem? c.reduce_tasks_status id) (λ t. after t) h in
    subst Inv (eq_of_some done) (record {
      valid = record {
        maps = i.valid.maps;
        reduces = length-set c.reduce_tasks_status id (complete t) ∙ i.valid.reduces;
      };
      maps_counted = i.maps_counted;
      reduces_counted =
          omega (arith, i.reduces_counted, count-set c.reduce_tasks_status id t (complete t) found);
    })
  where
    after : TaskStatus → Option Coordinator
    after t = some (record c {
      reduce_tasks_status = set c.reduce_tasks_status id (complete t);
      completed_reduces = c.completed_reduces + 1;
    })
report-Inv c c' wait_task id h i = subst Inv (eq_of_some h) i
report-Inv c c' done_task id h i = subst Inv (eq_of_some h) i

step-Inv : (c c' : Coordinator) (e : Event) → step c e ≡ some c' → Inv c → Inv c'
unfolding step
step-Inv c c' (requests now) h i =
    let (a, reply, done, answer) = request_task-Answer c now i.valid in
    let same : some a ≡ some c' = sym (ap (λ r. r >>= λ p. some p.0) done) ∙ h in
    subst Inv (eq_of_some same) (Answer-Inv c a now reply answer i)
step-Inv c c' (reports task id) h i = report-Inv c c' task id h i

run_from-Inv : (c c' : Coordinator) (es : List Event) → run c es ≡ some c' → Inv c → Inv c'
unfolding run
run_from-Inv c c' [] h i = subst Inv (eq_of_some h) i
run_from-Inv c c' (e ∷ es) h i =
    let (d, first, rest) = >>=-eq-some (step c e) (λ d. run d es) h in
    run_from-Inv d c' es rest (step-Inv c d e first i)

count-fresh : (n : ℕ) → count_completed (replicate n fresh_task) ≡ 0
unfolding count_completed
count-fresh zero = refl
count-fresh (suc n) = omega (arith, count-fresh n)

-- Whatever workers request and report, a coordinator's tables keep their sizes, and each counter is
-- at least the number of completed tasks of its table: a phase is never held up by a counter.
pub run-Inv :
    (files : List String) (n_reduce : ℕ) (c : Coordinator) (es : List Event)
    → run (make_coordinator files n_reduce) es ≡ some c
    → Inv c
unfolding make_coordinator
run-Inv files n_reduce c es h = run_from-Inv (make_coordinator files n_reduce) c es h (record {
  valid = record {
    maps = length-replicate (length files) fresh_task;
    reduces = length-replicate n_reduce fresh_task;
  };
  maps_counted = omega (arith, count-fresh (length files));
  reduces_counted = omega (arith, count-fresh n_reduce);
})

-- What a request is answered with in the reduce phase: a free reduce task, or, when none is free, a
-- wait or the end.
abbrev pub ReduceReply : Coordinator → ℕ → RequestTaskReply → Type 0
ReduceReply c now reply =
    ((reply.task_type ≡ reduce_task) × Chosen now c.reduce_tasks_status reply.task_id)
    ⊎ (AllBusy now c.reduce_tasks_status
        × (((reply.task_type ≡ wait_task) × (c.completed_reduces < c.n_reduce))
            ⊎ ((reply.task_type ≡ done_task) × (c.n_reduce ≤ c.completed_reduces))))

reduce_phase-ReduceReply :
    (c c' : Coordinator) (now : ℕ) (reply : RequestTaskReply)
    → length c.map_input_files ≤ c.completed_maps
    → Answer c now c' reply
    → ReduceReply c now reply
reduce_phase-ReduceReply c c' now reply all (map_given id file h chosen at_id) =
    absurd (omega arith)
reduce_phase-ReduceReply c c' now reply all (map_wait h busy) = absurd (omega arith)
reduce_phase-ReduceReply c c' now reply all (reduce_given id h chosen) = inl (refl, chosen)
reduce_phase-ReduceReply c c' now reply all (reduce_wait h more busy) = inr (busy, inl (refl, more))
reduce_phase-ReduceReply c c' now reply all (finished h over busy) = inr (busy, inr (refl, over))

-- A second report of a map task is counted like a first. When the counter agrees with the table and
-- one map task is missing, the report raises the counter to the number of files, and the next
-- request is answered from the reduce phase (with the last free reduce task, or with a wait or the
-- end if none is free), while fewer map tasks are completed than there are files.
pub duplicate_report :
    (c : Coordinator) (id now : ℕ) (t : TaskStatus)
    → IsValid c
    → get_elem? c.map_tasks_status id ≡ some t
    → t.status ≡ completed
    → count_completed c.map_tasks_status ≡ c.completed_maps
    → c.completed_maps + 1 ≡ length c.map_input_files
    → (c' c'' : Coordinator) × (reply : RequestTaskReply) × (report_task c map_task id ≡ some c')
      × (request_task c' now ≡ some (c'', reply))
      × (c'.completed_maps ≡ length c'.map_input_files)
      × ReduceReply c' now reply
      × (count_completed c'.map_tasks_status < length c'.map_input_files)
unfolding report_task
duplicate_report c id now t v found old same last =
    let c' : Coordinator = record c {
      map_tasks_status = set c.map_tasks_status id (complete t);
      completed_maps = c.completed_maps + 1;
    } in
    let v' : IsValid c' = record {
      maps = length-set c.map_tasks_status id (complete t) ∙ v.maps;
      reduces = v.reduces;
    } in
    let (c'', reply, done, answer) = request_task-Answer c' now v' in
    let was_counted : one_if_completed t.status ≡ 1 = rw old refl in
    (
      c',
      c'',
      reply,
      rw found refl,
      done,
      last,
      reduce_phase-ReduceReply c' c'' now reply (omega arith) answer,
      omega (arith, count-set c.map_tasks_status id t (complete t) found, was_counted),
    )

-- No call lowers the counter of reduce reports.
step-overshoot :
    (c c' : Coordinator) (e : Event)
    → step c e ≡ some c'
    → (c'.n_reduce ≡ c.n_reduce) × (c.completed_reduces ≤ c'.completed_reduces)
unfolding step request_task assign_task report_task
step-overshoot c c' (requests now) h = (ground arith, ground arith)
step-overshoot c c' (reports map_task id) h = (ground arith, ground arith)
step-overshoot c c' (reports reduce_task id) h = (ground arith, ground arith)
step-overshoot c c' (reports wait_task id) h = (ground arith, ground arith)
step-overshoot c c' (reports done_task id) h = (ground arith, ground arith)

-- Once more reduce reports were counted than there are reduce tasks, `Done` never says that the job
-- has finished, whatever happens then.
pub overshoot_never_done :
    (c c' : Coordinator) (es : List Event)
    → c.n_reduce < c.completed_reduces
    → run c es ≡ some c'
    → is_done c' ≡ false
unfolding run is_done
overshoot_never_done c c' [] over h =
    subst (λ d. (d.completed_reduces == d.n_reduce) ≡ false) (eq_of_some h)
      (ne→== c.completed_reduces c.n_reduce (omega arith))
overshoot_never_done c c' (e ∷ es) over h =
    let (d, first, rest) = >>=-eq-some (step c e) (λ d. run d es) h in
    overshoot_never_done d c' es (omega (arith, step-overshoot c d e first)) rest
