-- ===== src/Scanner/Progress/Cache.antt =====
-- The cache holds completed scans of the workspace that is asked about.
use vedox.Base.{
  ℕ, ◌≡◌, refl, ◌≢◌, ◌∙◌, ap, Bytes, bytes_discrete, Option-cases, none, some, List, arith, length,
  inl, inr, ite, if_pos, if_neg, sym,
}
use vedox.Base.Dict.{lookup, insert, lookup-insert, lookup-insert_self, lookup-delete}
use vedox.Scanner.Progress.{
  ScanJob, Task, JobStore, scanning, gone, done, scanned_all, scan_failed, new_job_store, put,
  new_task, start_scan, running_task, begin_scan, complete, remember, end_scan, snapshot,
  last_completed_snapshot, invalidate_cache, Step, starts, begins, ends, invalidates, Run, here,
  next,
}

-- A completed scan of the workspace, with its counts.
pub record IsCompleted {Project : Type 0} (root : Bytes) (job : ScanJob Project) : Type 0 where
  pub of_root : job.workspace_root ≡ root
  pub is_done : job.status ≡ done
  pub counted : job.total ≡ length job.projects
  pub all_scanned : job.scanned ≡ job.total
  pub at_an_instant : job.completed_at ≢ none

module _ {Project : Type 0} where
  abbrev Points : JobStore Project → Bytes → Bytes → Type 0
  Points s root id =
      (t : Task Project) × (lookup bytes_discrete id s.tasks ≡ some t)
      × (t.phase ≡ gone)
      × IsCompleted root t.job

  abbrev IsValid : JobStore Project → Type 0
  IsValid s =
      (root id : Bytes) → lookup bytes_discrete root s.last_done ≡ some id → Points s root id

  -- A write to a job that is not over leaves what the cache points to.
  put-Points :
      (s s' : JobStore Project) (root id j : Bytes) (u : Task Project)
      → s'.tasks ≡ insert bytes_discrete j u s.tasks
      → ((t : Task Project) → lookup bytes_discrete j s.tasks ≡ some t → t.phase ≢ gone)
      → Points s root id
      → Points s' root id
  put-Points s s' root id j u e open_job (t, at, over, completed) = elim (bytes_discrete j id) [
    | yes p ↦ absurd (open_job t (rw p at) over)
    | no p ↦
        (t, rw e (ground (arith, lookup-insert bytes_discrete j id u s.tasks)), over, completed)
  ]

  complete-IsCompleted :
      (now : ℕ) (projects : List Project) (job : ScanJob Project)
      → IsCompleted job.workspace_root (complete now (scanned_all projects) job)
  unfolding complete
  complete-IsCompleted now projects job = record {
    of_root = refl;
    is_done = refl;
    counted = refl;
    all_scanned = refl;
    at_an_instant = λ e. cc;
  }

  -- A scan that is recorded takes the place of the last one of its workspace.
  recorded-IsValid :
      (s s' : JobStore Project) (j r : Bytes) (u : Task Project)
      → s'.tasks ≡ insert bytes_discrete j u s.tasks
      → s'.last_done ≡ insert bytes_discrete r j s.last_done
      → ((t : Task Project) → lookup bytes_discrete j s.tasks ≡ some t → t.phase ≢ gone)
      → u.phase ≡ gone
      → IsCompleted r u.job
      → IsValid s
      → IsValid s'
  recorded-IsValid s s' j r u e d open_job over completed v root id at =
      elim (bytes_discrete r root) [
        | yes p ↦
            let same : j ≡ id =
              ground (arith, rw d at at, lookup-insert bytes_discrete r root j s.last_done) in
            (
              u,
              rw (e, ← same) (lookup-insert_self bytes_discrete j u s.tasks),
              over,
              rw (← p) completed,
            )
        | no p ↦ put-Points s s' root id j u e open_job (
            v root id
              (ground (arith, rw d at at, lookup-insert bytes_discrete r root j s.last_done)))
      ]

  Step-IsValid : {s s' : JobStore Project} → Step s s' → IsValid s → IsValid s'
  unfolding start_scan begin_scan end_scan invalidate_cache put remember
  Step-IsValid {s} {s'} (starts j r now e h) v root id at =
      put-Points s s' root id j (new_task j r now) (ap (λ x. x.tasks) h)
        (λ t e' over. absurd (ground arith)) (v root id (rw h at at))
  Step-IsValid {s} {s'} (begins j t e p h) v root id at =
      put-Points s s' root id j (running_task t) (ap (λ x. x.tasks) h)
        (λ u e' over. absurd (ground arith)) (v root id (rw h at at))
  Step-IsValid {s} {s'} (ends j now (scan_failed x) t e p h) v root id at =
      put-Points s s' root id j
        (record t { job = complete now (scan_failed x) t.job; phase = gone }) (ap (λ x. x.tasks) h)
        (λ u e' over. absurd (ground arith)) (v root id (rw h at at))
  Step-IsValid {s} {s'} (ends j now (scanned_all ps) t e p h) v root id at =
      recorded-IsValid s s' j t.job.workspace_root
        (record t { job = complete now (scanned_all ps) t.job; phase = gone }) (ap (λ x. x.tasks) h)
        (ap (λ x. x.last_done) h) (λ u e' over. absurd (ground arith)) refl
        (complete-IsCompleted now ps t.job) v root id at
  Step-IsValid {s} {s'} (invalidates r h) v root id at = rw (ap (λ x. x.tasks) h) (
      v root id (
        ground (
          arith,
          rw (ap (λ x. x.last_done) h) at at,
          lookup-delete bytes_discrete r root s.last_done,
        )))

  Run-IsValid : {s s' : JobStore Project} → Run s s' → IsValid s → IsValid s'
  Run-IsValid here v = v
  Run-IsValid (next r st) v = Step-IsValid st (Run-IsValid r v)

  new-IsValid : IsValid new_job_store
  unfolding lookup
  new-IsValid root id at = cc

  -- Whatever scans were started, are running, failed or were invalidated, in any order: the
  -- answer for a workspace is a completed scan of that workspace, with its counts.
  pub last_completed_snapshot-IsCompleted :
      (s : JobStore Project) (root : Bytes) (job : ScanJob Project)
      → Run new_job_store s
      → last_completed_snapshot s root ≡ some job
      → IsCompleted root job
  unfolding last_completed_snapshot snapshot
  last_completed_snapshot-IsCompleted s root job r h =
      elim (Option-cases (lookup bytes_discrete root s.last_done)) [
        | inl e ↦ absurd (ground (arith, e))
        | inr (id, e) ↦
            let (t, at, over, completed) = Run-IsValid r new-IsValid root id e in
            let same : t.job ≡ job = ground (arith, e, at) in rw (← same) completed
      ]

  answer_at :
      (s : JobStore Project) (root id : Bytes) (t : Task Project)
      → lookup bytes_discrete root s.last_done ≡ some id
      → lookup bytes_discrete id s.tasks ≡ some t
      → last_completed_snapshot s root ≡ some t.job
  unfolding last_completed_snapshot snapshot
  answer_at s root id t e e' = rw (e, last_completed_snapshot) (rw (e', snapshot) refl)

  no_answer :
      (s : JobStore Project) (root : Bytes)
      → lookup bytes_discrete root s.last_done ≡ none
      → last_completed_snapshot s root ≡ none
  unfolding last_completed_snapshot
  no_answer s root e = rw (e, last_completed_snapshot) refl

  -- Another workspace's answer is not touched.
  recorded_elsewhere :
      (s s' : JobStore Project) (j r root : Bytes) (u : Task Project)
      → s'.tasks ≡ insert bytes_discrete j u s.tasks
      → s'.last_done ≡ insert bytes_discrete r j s.last_done
      → ((t : Task Project) → lookup bytes_discrete j s.tasks ≡ some t → t.phase ≢ gone)
      → IsValid s
      → r ≢ root
      → last_completed_snapshot s' root ≡ last_completed_snapshot s root
  recorded_elsewhere s s' j r root u e d open_job v other =
      let kept : lookup bytes_discrete root s'.last_done ≡ lookup bytes_discrete root s.last_done =
        rw d (ground (arith, lookup-insert bytes_discrete r root j s.last_done)) in
      elim (Option-cases (lookup bytes_discrete root s.last_done)) [
        | inl n ↦ no_answer s' root (kept ∙ n) ∙ sym (no_answer s root n)
        | inr (id, at) ↦
            let (t, e', over, completed) = v root id at in
            let differs : j ≢ id = λ p. open_job t (rw p e') over in
            let same : lookup bytes_discrete id s'.tasks ≡ some t =
              rw e (ground (arith, lookup-insert bytes_discrete j id u s.tasks)) in
            answer_at s' root id t (kept ∙ at) same ∙ sym (answer_at s root id t at e')
      ]

  -- A successful end of a scan is what the next request for its workspace is answered with; the
  -- other workspaces' answers stay.
  end_scan-answers :
      (s : JobStore Project) (id root : Bytes) (now : ℕ) (ps : List Project) (t : Task Project)
      → Run new_job_store s
      → lookup bytes_discrete id s.tasks ≡ some t
      → t.phase ≡ scanning
      → last_completed_snapshot (end_scan id now (scanned_all ps) t s) root
        ≡ ite
            (bytes_discrete t.job.workspace_root root)
            (some (complete now (scanned_all ps) t.job))
            (last_completed_snapshot s root)
  unfolding end_scan put remember
  end_scan-answers s id root now ps t r e p =
      let u : Task Project = record t { job = complete now (scanned_all ps) t.job; phase = gone } in
      let s' : JobStore Project = end_scan id now (scanned_all ps) t s in
      elim (bytes_discrete t.job.workspace_root root) [
        | yes q ↦ rw (if_pos _ q) (
            answer_at s' root id u
              (ground
                (arith, lookup-insert bytes_discrete t.job.workspace_root root id s.last_done))
              (lookup-insert_self bytes_discrete id u s.tasks))
        | no q ↦ rw (if_neg _ q) (
            recorded_elsewhere s s' id t.job.workspace_root root u refl refl
              (λ u' e' over. absurd (ground arith)) (Run-IsValid r new-IsValid) q)
      ]

  -- After InvalidateCache the workspace has no answer, and every other workspace keeps its own.
  invalidate_cache-forgets :
      (root other : Bytes) (s : JobStore Project)
      → last_completed_snapshot (invalidate_cache root s) other
        ≡ ite (bytes_discrete root other) none (last_completed_snapshot s other)
  unfolding last_completed_snapshot snapshot invalidate_cache
  invalidate_cache-forgets root other s =
      ground (arith, lookup-delete bytes_discrete root other s.last_done)
