-- ===== src/Scanner/Tests.antt =====
-- One scan of the workspace `/w` that finds two projects, and the theorems at its states.
use vedox.Base.{ℕ, refl, bytes, bytes_discrete, [], ◌∷◌}
use vedox.Base.Dict.{lookup, insert, delete}
use vedox.Scanner.Progress.{
  ScanJob, Task, Phase, JobStore, scanned_all, new_job_store, put, new_task, start_scan,
  running_task, begin_scan, complete, remember, end_scan, snapshot, last_completed_snapshot,
  invalidate_cache, starts, begins, ends, Run, here, next,
}
use vedox.Scanner.Progress.Cache.{IsCompleted, last_completed_snapshot-IsCompleted}

-- The computing definitions of the scan jobs.
code : Unit {0}
unfolding bytes_discrete lookup insert delete put start_scan begin_scan complete remember end_scan
    snapshot last_completed_snapshot invalidate_cache
code = tt

abbrev first_task : Task ℕ
first_task = new_task (bytes "a") (bytes "/w") 3

abbrev scanning_store : JobStore ℕ
scanning_store = record { tasks = (bytes "a", running_task first_task) ∷ []; last_done = [] }

abbrev completed_job : ScanJob ℕ
completed_job = complete 9 (scanned_all (7 ∷ 8 ∷ [])) (running_task first_task).job

abbrev completed_store : JobStore ℕ
completed_store = record {
  tasks = (bytes "a", record { job = completed_job; phase = Phase.gone }) ∷ [];
  last_done = (bytes "/w", bytes "a") ∷ [];
}

scanning_steps : Run new_job_store scanning_store
unfolding code
scanning_steps =
    next (next here (starts (bytes "a") (bytes "/w") 3 refl refl))
      (begins (bytes "a") first_task refl refl refl)

completed_steps : Run new_job_store completed_store
unfolding code
completed_steps =
    next scanning_steps
      (ends (bytes "a") 9 (scanned_all (7 ∷ 8 ∷ [])) (running_task first_task) refl refl refl)

last_completed_snapshot_example : IsCompleted (bytes "/w") completed_job
unfolding code
last_completed_snapshot_example =
    last_completed_snapshot-IsCompleted completed_store (bytes "/w") completed_job completed_steps
      refl
