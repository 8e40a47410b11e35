-- ===== src/Ai/Jobs.antt =====
-- ai/jobs.go: the generation jobs, their goroutines and the semaphore that bounds them.
pub mod Slots
pub mod Terminal
use vedox.Base.{
  ℕ, zero, suc, ◌+◌, ◌-◌, ◌<◌, ◌≡◌, Bytes, bytes_discrete, Bool, Option, none, some, List, [], ltb,
  if◌then◌else◌,
}
use vedox.Base.Dict.{Dict, lookup, insert, total}

pub data JobStatus : Type 0 where
  pending running done error : JobStatus

pub record GenerationJob : Type 0 where
  pub id : Bytes
  pub status : JobStatus
  pub names : List Bytes
  pub error_text : Bytes
  pub provider_used : Bytes
  pub account_used : Bytes
  pub duration_ms : ℕ
  pub started_at : ℕ
  pub completed_at : Option ℕ

-- What `RunGeneration` returns.
pub record Generated : Type 0 where
  pub names : List Bytes
  pub provider_used : Bytes
  pub account_used : Bytes
  pub duration_ms : ℕ

pub data Outcome : Type 0 where
  success : Generated → Outcome
  failure : Bytes → Outcome

-- Where the goroutine of a job stands in `run`: before `sem <-`, behind it, in `RunGeneration`,
-- before the deferred `<-sem`, and gone.
pub data Phase : Type 0 where
  blocked holding generating releasing gone : Phase

pub record Task : Type 0 where
  pub job : GenerationJob
  pub phase : Phase

-- `held` counts the values in the channel `sem`, whose capacity is `cap`.
pub record JobStore : Type 0 where
  pub tasks : Dict Bytes Task
  pub held : ℕ
  pub cap : ℕ

unfoldable pub new_job_store : ℕ → JobStore
new_job_store max_concurrent = record {
  tasks = [];
  held = 0;
  cap = if ltb max_concurrent 1 then 3 else max_concurrent;
}

unfoldable pub put : Bytes → Task → JobStore → JobStore
put id t s = record s { tasks = insert bytes_discrete id t s.tasks }

abbrev pub new_task : Bytes → ℕ → Task
new_task id now = record {
  job = record {
    id = id;
    status = pending;
    names = [];
    error_text = [];
    provider_used = [];
    account_used = [];
    duration_ms = 0;
    started_at = now;
    completed_at = none;
  };
  phase = blocked;
}

-- `Submit`, at the instant `now`, under the new random id.
unfoldable pub submit : Bytes → ℕ → JobStore → JobStore
unfolding put
submit id now s = put id (new_task id now) s

-- `js.sem <- struct{}{}`
unfoldable pub acquire : Bytes → Task → JobStore → JobStore
unfolding put
acquire id t s = put id (record t { phase = holding }) (record s { held = s.held + 1 })

-- `job.Status = JobRunning`
unfoldable pub start : Bytes → Task → JobStore → JobStore
unfolding put
start id t s =
    let job' : GenerationJob = t.job in
    put id (record t { job = record job' { status = running }; phase = generating }) s

-- The fields that the last critical section of `run` writes.
unfoldable pub complete : ℕ → Outcome → GenerationJob → GenerationJob
complete now (failure e) job = record job {
  completed_at = some now;
  status = error;
  error_text = e;
}
complete now (success r) job = record job {
  completed_at = some now;
  status = done;
  names = r.names;
  provider_used = r.provider_used;
  account_used = r.account_used;
  duration_ms = r.duration_ms;
}

unfoldable pub finish : Bytes → ℕ → Outcome → Task → JobStore → JobStore
unfolding put
finish id now r t s = put id (record t { job = complete now r t.job; phase = releasing }) s

-- The deferred `<-js.sem`
unfoldable pub release : Bytes → Task → JobStore → JobStore
unfolding put
release id t s = put id (record t { phase = gone }) (record s { held = s.held - 1 })

-- `Snapshot`
unfoldable pub snapshot : JobStore → Bytes → Option GenerationJob
snapshot s id = elim (lookup bytes_discrete id s.tasks) [ none ↦ none | some t ↦ some t.job ]

-- What the requests and the goroutines may do next, in any order.
pub data Step (s s' : JobStore) : Type 0 where
  submits :
      (id : Bytes) (now : ℕ)
      → lookup bytes_discrete id s.tasks ≡ none
      → s' ≡ submit id now s
      → Step s s'
  acquires :
      (id : Bytes) (t : Task)
      → lookup bytes_discrete id s.tasks ≡ some t
      → t.phase ≡ blocked
      → s.held < s.cap
      → s' ≡ acquire id t s
      → Step s s'
  starts :
      (id : Bytes) (t : Task)
      → lookup bytes_discrete id s.tasks ≡ some t
      → t.phase ≡ holding
      → s' ≡ start id t s
      → Step s s'
  finishes :
      (id : Bytes) (now : ℕ) (r : Outcome) (t : Task)
      → lookup bytes_discrete id s.tasks ≡ some t
      → t.phase ≡ generating
      → s' ≡ finish id now r t s
      → Step s s'
  releases :
      (id : Bytes) (t : Task)
      → lookup bytes_discrete id s.tasks ≡ some t
      → t.phase ≡ releasing
      → s' ≡ release id t s
      → Step s s'

pub data Run (s : JobStore) : JobStore → Type 0 where
  here : Run s s
  next : {t u : JobStore} → Run s t → Step t u → Run s u
