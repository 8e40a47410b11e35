-- ===== src/Ai/Jobs/Slots.antt =====
-- No more generations run at once than the semaphore has slots.
use vedox.Base.{
  ℕ, ◌≤◌, ◌≡◌, refl, ap, ◌∙◌, Bytes, bytes_discrete, Option, some, [], ◌∷◌, arith, ltb,
  if◌then◌else◌,
}
use vedox.Base.Dict.{Dict, total, weight_at, total-insert}
use vedox.Ai.Jobs.{
  JobStore, Task, holding, generating, releasing, gone, new_job_store, submit, acquire, new_task,
  running, complete, start, finish, release, Step, submits, acquires, starts, finishes, releases,
  Run, here, next,
}

-- The slot that a goroutine occupies.
abbrev pub slot : Task → ℕ
slot t = elim (t.phase) [ holding ↦ 1 | generating ↦ 1 | releasing ↦ 1 | _ ↦ 0 ]

abbrev pub is_generating : Task → ℕ
is_generating t = elim (t.phase) [ generating ↦ 1 | _ ↦ 0 ]

-- The goroutines between the two channel operations are as many as the values in the channel.
pub record IsValid (s : JobStore) : Type 0 where
  pub counted : total slot s.tasks ≡ s.held
  pub bounded : s.held ≤ s.cap

new-IsValid : (n : ℕ) → IsValid (new_job_store n)
unfolding new_job_store
new-IsValid n = omega arith

old_weight : (w : Task → ℕ) (o : Option Task) {t : Task} → o ≡ some t → weight_at w o ≡ w t
old_weight w o h = ap (weight_at w) h

-- Each step keeps the count: a goroutine holds a slot from its send to its receive.
pub Step-IsValid : {s s' : JobStore} → Step s s' → IsValid s → IsValid s'
unfolding submit acquire start finish release
Step-IsValid {s} (submits id now e h) v =
    let sum = total-insert bytes_discrete slot id (new_task id now) s.tasks in
    rw h (ground (arith, sum, e))
Step-IsValid {s} (acquires id t e p room h) v =
    let sum = total-insert bytes_discrete slot id (record t { phase = holding }) s.tasks in
    rw h (ground (arith, sum, old_weight slot _ e))
Step-IsValid {s} (starts id t e p h) v =
    let sum =
      total-insert bytes_discrete slot id
        (record t { job = record (t.job) { status = running }; phase = generating }) s.tasks in
    rw h (ground (arith, sum, old_weight slot _ e))
Step-IsValid {s} (finishes id now r t e p h) v =
    let sum =
      total-insert bytes_discrete slot id
        (record t { job = complete now r t.job; phase = releasing }) s.tasks in
    rw h (ground (arith, sum, old_weight slot _ e))
Step-IsValid {s} (releases id t e p h) v =
    let sum = total-insert bytes_discrete slot id (record t { phase = gone }) s.tasks in
    rw h (ground (arith, sum, old_weight slot _ e))

Step-cap : {s s' : JobStore} → Step s s' → s'.cap ≡ s.cap
unfolding submit acquire start finish release
Step-cap (submits id now e h) = rw h
Step-cap (acquires id t e p room h) = rw h
Step-cap (starts id t e p h) = rw h
Step-cap (finishes id now r t e p h) = rw h
Step-cap (releases id t e p h) = rw h

Run-IsValid : {s s' : JobStore} → IsValid s → Run s s' → IsValid s'
Run-IsValid v here = v
Run-IsValid v (next r st) = Step-IsValid st (Run-IsValid v r)

Run-cap : {s s' : JobStore} → Run s s' → s'.cap ≡ s.cap
Run-cap here = refl
Run-cap (next r st) = Step-cap st ∙ Run-cap r

generating-le-total : (m : Dict Bytes Task) → total is_generating m ≤ total slot m
generating-le-total [] = omega arith
generating-le-total ((k, t) ∷ m) = ground (arith, generating-le-total m)

-- However the requests and the goroutines interleave, no more generations are under way than
-- `maxConcurrent`, or three where that is less than one.
pub generations_bounded :
    (n : ℕ) (s : JobStore)
    → Run (new_job_store n) s
    → total is_generating s.tasks ≤ (if ltb n 1 then 3 else n)
generations_bounded n s r =
    let v = Run-IsValid (new-IsValid n) r in
    let cap = Run-cap r in
    let le = generating-le-total s.tasks in
    unfold new_job_store in (omega (arith, v.counted, v.bounded, cap, le))
