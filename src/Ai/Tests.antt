-- ===== src/Ai/Tests.antt =====
-- One generation job from its submission to its end, and the theorems at its states.
use vedox.Base.{
  some, arith, ltb, if◌then◌else◌, ◌≤◌, ◌≡◌, refl, inl, bytes, bytes_discrete, [], ◌∷◌,
}
use vedox.Base.Dict.{lookup, insert, total}
use vedox.Ai.Jobs.{
  Generated, success, Task, JobStore, new_job_store, put, new_task, submit, acquire, start,
  complete, finish, release, snapshot, JobStatus, Phase, submits, acquires, starts, finishes,
  releases, Run, here, next,
}
use vedox.Ai.Jobs.Slots.{is_generating, generations_bounded}
use vedox.Ai.Jobs.Terminal.{ended_job_is_final}

-- The computing definitions of the jobs.
code : Unit {0}
unfolding bytes_discrete lookup insert new_job_store put submit acquire start complete finish
    release snapshot
code = tt

abbrev names : Generated
names = record {
  names = bytes "harbor" ∷ [];
  provider_used = bytes "claude";
  account_used = [];
  duration_ms = 12;
}

abbrev first_task : Task
first_task = new_task (bytes "a") 3

abbrev holding_task : Task
holding_task = record first_task { phase = Phase.holding }

abbrev working_task : Task
working_task = record {
  job = record (first_task.job) { status = JobStatus.running };
  phase = Phase.generating;
}

abbrev submitted : JobStore
submitted = record { tasks = (bytes "a", first_task) ∷ []; held = 0; cap = 1 }

abbrev holding_slot : JobStore
holding_slot = record { tasks = (bytes "a", holding_task) ∷ []; held = 1; cap = 1 }

abbrev working : JobStore
working = record { tasks = (bytes "a", working_task) ∷ []; held = 1; cap = 1 }

abbrev finished : JobStore
finished = record {
  tasks =
      (
        bytes "a",
        record { job = complete 9 (success names) (working_task.job); phase = Phase.releasing },
      )
      ∷ [];
  held = 1;
  cap = 1;
}

abbrev released : JobStore
released = record {
  tasks =
      (
        bytes "a",
        record { job = complete 9 (success names) (working_task.job); phase = Phase.gone },
      )
      ∷ [];
  held = 0;
  cap = 1;
}

working_steps : Run (new_job_store 1) working
unfolding code
working_steps =
    next
      (next (next here (submits (bytes "a") 3 refl refl))
        (acquires (bytes "a") first_task refl refl (omega arith) refl))
      (starts (bytes "a") holding_task refl refl refl)

finished_steps : Run (new_job_store 1) finished
unfolding code
finished_steps =
    next working_steps (finishes (bytes "a") 9 (success names) working_task refl refl refl)

released_steps : Run finished released
unfolding code
released_steps = next here (releases (bytes "a") _ refl refl refl)

ended_job_is_final_example :
    snapshot released (bytes "a") ≡ some (complete 9 (success names) (working_task.job))
unfolding code
ended_job_is_final_example =
    ended_job_is_final 1 finished released (bytes "a")
      (complete 9 (success names) (working_task.job)) finished_steps refl (inl refl) released_steps

generations_bounded_example : total is_generating working.tasks ≤ (if ltb 1 1 then 3 else 1)
generations_bounded_example = generations_bounded 1 working working_steps
