-- ===== src/Scanner/Progress.antt =====
-- scanner/progress.go: the scan jobs and the cache of the last completed scan of each workspace.
pub mod Cache
use vedox.Base.{ℕ, ◌≡◌, Bytes, bytes, bytes_discrete, Option, none, some, List, [], ◌++◌, length}
use vedox.Base.Dict.{Dict, lookup, insert, delete}

pub data JobStatus : Type 0 where
  pending running done error : JobStatus

-- `Project` is the scanner's description of a project.
pub record ScanJob (Project : Type 0) : Type 0 where
  pub id : Bytes
  pub workspace_root : Bytes
  pub status : JobStatus
  pub total : ℕ
  pub scanned : ℕ
  pub projects : List Project
  pub error_text : Bytes
  pub started_at : ℕ
  pub completed_at : Option ℕ

-- The goroutine before its first critical section, in `Scan`, and behind its last one.
pub data Phase : Type 0 where
  launched scanning gone : Phase

pub record Task (Project : Type 0) : Type 0 where
  pub job : ScanJob Project
  pub phase : Phase

-- `last_done` holds pointers to jobs: the ids of jobs in `tasks`.
pub record JobStore (Project : Type 0) : Type 0 where
  pub tasks : Dict Bytes (Task Project)
  pub last_done : Dict Bytes Bytes

pub data ScanResult (Project : Type 0) : Type 0 where
  scanned_all : List Project → ScanResult Project
  scan_failed : Bytes → ScanResult Project

module _ {Project : Type 0} where
  abbrev pub new_job_store : JobStore Project
  new_job_store = record { tasks = []; last_done = [] }

  unfoldable pub put : Bytes → Task Project → JobStore Project → JobStore Project
  put id t s = record s { tasks = insert bytes_discrete id t s.tasks }

  abbrev pub new_task : Bytes → Bytes → ℕ → Task Project
  new_task id root now = record {
    job = record {
      id = id;
      workspace_root = root;
      status = pending;
      total = 0;
      scanned = 0;
      projects = [];
      error_text = [];
      started_at = now;
      completed_at = none;
    };
    phase = launched;
  }

  -- `StartScan`, under the new random id.
  unfoldable pub start_scan : Bytes → Bytes → ℕ → JobStore Project → JobStore Project
  unfolding put
  start_scan id root now s = put id (new_task id root now) s

  -- The first critical section of `runScan`.
  abbrev pub running_task : Task Project → Task Project
  running_task t = record t { job = record (t.job) { status = running }; phase = scanning }

  unfoldable pub begin_scan : Bytes → Task Project → JobStore Project → JobStore Project
  unfolding put
  begin_scan id t s = put id (running_task t) s

  -- What the last critical section writes to the job.
  unfoldable pub complete : ℕ → ScanResult Project → ScanJob Project → ScanJob Project
  complete now (scan_failed e) job = record job {
    completed_at = some now;
    status = error;
    error_text = bytes "workspace scan failed: " ++ e;
  }
  complete now (scanned_all projects) job = record job {
    completed_at = some now;
    status = done;
    projects = projects;
    total = length projects;
    scanned = length projects;
  }

  -- Only a success is recorded as the last completed job of its workspace.
  unfoldable pub remember : ScanResult Project → Bytes → Bytes → Dict Bytes Bytes → Dict Bytes Bytes
  remember (scan_failed e) root id m = m
  remember (scanned_all projects) root id m = insert bytes_discrete root id m

  unfoldable pub end_scan :
      Bytes → ℕ → ScanResult Project → Task Project → JobStore Project → JobStore Project
  unfolding put remember
  end_scan id now r t s =
      let s' = put id (record t { job = complete now r t.job; phase = gone }) s in
      record s' { last_done = remember r t.job.workspace_root id s.last_done }

  -- `Snapshot`
  unfoldable pub snapshot : JobStore Project → Bytes → Option (ScanJob Project)
  snapshot s id = elim (lookup bytes_discrete id s.tasks) [ none ↦ none | some t ↦ some t.job ]

  -- `LastCompletedSnapshot`, through the pointer.
  unfoldable pub last_completed_snapshot : JobStore Project → Bytes → Option (ScanJob Project)
  unfolding snapshot
  last_completed_snapshot s root = elim (lookup bytes_discrete root s.last_done) [
    | none ↦ none
    | some id ↦ snapshot s id
  ]

  -- `InvalidateCache`
  unfoldable pub invalidate_cache : Bytes → JobStore Project → JobStore Project
  invalidate_cache root s = record s { last_done = delete bytes_discrete root s.last_done }

  -- What the requests and the goroutines may do next, in any order.
  pub data Step (s s' : JobStore Project) : Type 0 where
    starts :
        (id root : Bytes) (now : ℕ)
        → lookup bytes_discrete id s.tasks ≡ none
        → s' ≡ start_scan id root now s
        → Step s s'
    begins :
        (id : Bytes) (t : Task Project)
        → lookup bytes_discrete id s.tasks ≡ some t
        → t.phase ≡ launched
        → s' ≡ begin_scan id t s
        → Step s s'
    ends :
        (id : Bytes) (now : ℕ) (r : ScanResult Project) (t : Task Project)
        → lookup bytes_discrete id s.tasks ≡ some t
        → t.phase ≡ scanning
        → s' ≡ end_scan id now r t s
        → Step s s'
    invalidates : (root : Bytes) → s' ≡ invalidate_cache root s → Step s s'

  pub data Run (s : JobStore Project) : JobStore Project → Type 0 where
    here : Run s s
    next : {t u : JobStore Project} → Run s t → Step t u → Run s u
