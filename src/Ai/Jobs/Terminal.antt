-- ===== src/Ai/Jobs/Terminal.antt =====
-- A job that has ended does not change any more.
use vedox.Base.{
  ℕ, ap, ◌≡◌, refl, ◌≢◌, ◌∙◌, ◌⊎◌, inl, inr, Bytes, bytes_discrete, Option-cases, none, some, [],
  arith,
}
use vedox.Base.Dict.{lookup, insert, lookup-insert}
use vedox.Ai.Jobs.{
  JobStore, GenerationJob, Outcome, success, failure, Task, Phase, blocked, holding, generating,
  releasing, gone, pending, running, done, error, new_job_store, new_task, put, submit, acquire,
  start, complete, finish, release, snapshot, Step, submits, acquires, starts, finishes, releases,
  Run, here, next,
}

-- What the status of a job says of its goroutine, and what a job shows before its end.
abbrev pub PhaseFits : Phase → GenerationJob → Type 0
PhaseFits blocked job = (job.status ≡ pending) × (job.names ≡ []) × (job.completed_at ≡ none)
PhaseFits holding job = (job.status ≡ pending) × (job.names ≡ []) × (job.completed_at ≡ none)
PhaseFits generating job = (job.status ≡ running) × (job.names ≡ []) × (job.completed_at ≡ none)
PhaseFits releasing job = ((job.status ≡ done) ⊎ (job.status ≡ error)) × (job.completed_at ≢ none)
PhaseFits gone job = ((job.status ≡ done) ⊎ (job.status ≡ error)) × (job.completed_at ≢ none)

abbrev pub AllFit : JobStore → Type 0
AllFit s =
    (id : Bytes) (t : Task) → lookup bytes_discrete id s.tasks ≡ some t → PhaseFits t.phase t.job

put-AllFit :
    (id : Bytes) (t : Task) (s : JobStore)
    → PhaseFits t.phase t.job
    → AllFit s
    → (j : Bytes) (u : Task) → lookup bytes_discrete j (insert bytes_discrete id t s.tasks) ≡ some u
    → PhaseFits u.phase u.job
put-AllFit id t s fits all j u h = elim (bytes_discrete id j) [
  | yes p ↦
      let e : t ≡ u = ground (arith, lookup-insert bytes_discrete id j t s.tasks) in rw e at fits
  | no p ↦ all j u (ground (arith, lookup-insert bytes_discrete id j t s.tasks))
]

complete-PhaseFits :
    (now : ℕ) (r : Outcome) (job : GenerationJob) → PhaseFits releasing (complete now r job)
unfolding complete
complete-PhaseFits now (success g) job = (inl refl, λ e. cc)
complete-PhaseFits now (failure x) job = (inr refl, λ e. cc)

fits_at : (p : Phase) (t : Task) → PhaseFits t.phase t.job → t.phase ≡ p → PhaseFits p t.job
fits_at p t h e = rw e at h

Step-AllFit : {s s' : JobStore} → Step s s' → AllFit s → AllFit s'
unfolding submit acquire start finish release put
Step-AllFit {s} (submits id now e h) all =
    rw h (put-AllFit id (new_task id now) s (refl, refl, refl) all)
Step-AllFit {s} (acquires id t e p room h) all =
    rw h (put-AllFit id (record t { phase = holding }) s (fits_at blocked t (all id t e) p) all)
Step-AllFit {s} (starts id t e p h) all =
    let fits = fits_at holding t (all id t e) p in
    rw h (
      put-AllFit id (record t { job = record (t.job) { status = running }; phase = generating }) s
        (refl, fits.1, fits.2) all)
Step-AllFit {s} (finishes id now r t e p h) all = rw h (
    put-AllFit id (record t { job = complete now r t.job; phase = releasing }) s
      (complete-PhaseFits now r t.job) all)
Step-AllFit {s} (releases id t e p h) all =
    rw h (put-AllFit id (record t { phase = gone }) s (fits_at releasing t (all id t e) p) all)

new-AllFit : (n : ℕ) → AllFit (new_job_store n)
unfolding new_job_store lookup
new-AllFit n id t h = cc

Run-AllFit : {s s' : JobStore} → AllFit s → Run s s' → AllFit s'
Run-AllFit all here = all
Run-AllFit all (next r st) = Step-AllFit st (Run-AllFit all r)

abbrev Over : Phase → Type 0
Over p = (p ≡ releasing) ⊎ (p ≡ gone)

-- The goroutine of the job is past its last critical section.
abbrev Ended : JobStore → Bytes → GenerationJob → Type 0
Ended s id job =
    (t : Task) × (lookup bytes_discrete id s.tasks ≡ some t) × (t.job ≡ job) × Over t.phase

phase_of_end :
    (p : Phase) (job : GenerationJob)
    → PhaseFits p job
    → (job.status ≡ done) ⊎ (job.status ≡ error)
    → Over p
phase_of_end blocked job h over = absurd (ground arith)
phase_of_end holding job h over = absurd (ground arith)
phase_of_end generating job h over = absurd (ground arith)
phase_of_end releasing job h over = inl refl
phase_of_end gone job h over = inr refl

-- The two views that the comment on `Snapshot` promises.
abbrev pub IsStable : GenerationJob → Type 0
IsStable job =
    ((job.status ≡ done) ⊎ (job.status ≡ error)) × (job.completed_at ≢ none)
    ⊎ ((job.status ≡ pending) ⊎ (job.status ≡ running))
      × (job.names ≡ [])
      × (job.completed_at ≡ none)

fits-IsStable : (p : Phase) (job : GenerationJob) → PhaseFits p job → IsStable job
fits-IsStable blocked job h = inr (inl h.0, h.1, h.2)
fits-IsStable holding job h = inr (inl h.0, h.1, h.2)
fits-IsStable generating job h = inr (inr h.0, h.1, h.2)
fits-IsStable releasing job h = inl h
fits-IsStable gone job h = inl h

-- A write under another id, or one that keeps the job and its end.
insert-Ended :
    (s s' : JobStore) (id j : Bytes) (u : Task) (job : GenerationJob)
    → s'.tasks ≡ insert bytes_discrete j u s.tasks
    → ((t : Task)
        → lookup bytes_discrete j s.tasks ≡ some t
        → Over t.phase
        → (u.job ≡ t.job) × Over u.phase)
    → Ended s id job
    → Ended s' id job
insert-Ended s s' id j u job e keeps (t, at, same, over) = elim (bytes_discrete j id) [
  | yes p ↦
      let (job', over') = keeps t (rw p at) over in
      (u, rw e (ground (arith, lookup-insert bytes_discrete j id u s.tasks)), job' ∙ same, over')
  | no p ↦ (t, rw e (ground (arith, lookup-insert bytes_discrete j id u s.tasks)), same, over)
]

Step-Ended :
    {s s' : JobStore} (id : Bytes) (job : GenerationJob)
    → Step s s'
    → Ended s id job
    → Ended s' id job
unfolding submit acquire start finish release put
Step-Ended {s} {s'} id job (submits j now e h) ended =
    insert-Ended s s' id j (new_task j now) job (ap (λ x. x.tasks) h)
      (λ t e' over. absurd (ground arith)) ended
Step-Ended {s} {s'} id job (acquires j t e p room h) ended =
    insert-Ended s s' id j (record t { phase = holding }) job (ap (λ x. x.tasks) h)
      (λ u e' over. absurd (ground arith)) ended
Step-Ended {s} {s'} id job (starts j t e p h) ended =
    insert-Ended s s' id j
      (record t { job = record (t.job) { status = running }; phase = generating }) job
      (ap (λ x. x.tasks) h) (λ u e' over. absurd (ground arith)) ended
Step-Ended {s} {s'} id job (finishes j now r t e p h) ended =
    insert-Ended s s' id j (record t { job = complete now r t.job; phase = releasing }) job
      (ap (λ x. x.tasks) h) (λ u e' over. absurd (ground arith)) ended
Step-Ended {s} {s'} id job (releases j t e p h) ended =
    insert-Ended s s' id j (record t { phase = gone }) job (ap (λ x. x.tasks) h)
      (λ u e' over. (cc, inr refl)) ended

Run-Ended :
    {s s' : JobStore} (id : Bytes) (job : GenerationJob)
    → Ended s id job
    → Run s s'
    → Ended s' id job
Run-Ended id job ended here = ended
Run-Ended id job ended (next r st) = Step-Ended id job st (Run-Ended id job ended r)

snapshot-Ended :
    (s : JobStore) (id : Bytes) (job : GenerationJob)
    → AllFit s
    → snapshot s id ≡ some job
    → (job.status ≡ done) ⊎ (job.status ≡ error)
    → Ended s id job
unfolding snapshot
snapshot-Ended s id job all h over = elim (Option-cases (lookup bytes_discrete id s.tasks)) [
  | inl e ↦ absurd (ground (arith, e))
  | inr (t, e) ↦
      let same : t.job ≡ job = ground (arith, e) in
      (t, e, same, phase_of_end t.phase t.job (all id t e) (rw same over))
]

Ended-snapshot :
    (s : JobStore) (id : Bytes) (job : GenerationJob) → Ended s id job → snapshot s id ≡ some job
unfolding snapshot
Ended-snapshot s id job (t, e, same, over) = rw (e, snapshot) (ap some same)

-- A job that a snapshot shows as done or failed reads the same in every later snapshot, whatever
-- other requests and goroutines do.
pub ended_job_is_final :
    (n : ℕ) (s s' : JobStore) (id : Bytes) (job : GenerationJob)
    → Run (new_job_store n) s
    → snapshot s id ≡ some job
    → (job.status ≡ done) ⊎ (job.status ≡ error)
    → Run s s'
    → snapshot s' id ≡ some job
ended_job_is_final n s s' id job r h over r' =
    let ended = snapshot-Ended s id job (Run-AllFit (new-AllFit n) r) h over in
    Ended-snapshot s' id job (Run-Ended id job ended r')

-- A snapshot that shows no end shows no names and no time of completion; one that shows an end
-- shows that time.
snapshot-IsStable :
    (n : ℕ) (s : JobStore) (id : Bytes) (job : GenerationJob)
    → Run (new_job_store n) s
    → snapshot s id ≡ some job
    → IsStable job
unfolding snapshot
snapshot-IsStable n s id job r h = elim (Option-cases (lookup bytes_discrete id s.tasks)) [
  | inl e ↦ absurd (ground (arith, e))
  | inr (t, e) ↦
      let same : t.job ≡ job = ground (arith, e) in
      rw (← same) (fits-IsStable t.phase t.job (Run-AllFit (new-AllFit n) r id t e))
]
