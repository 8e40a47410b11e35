-- ===== src/AtomicFile.antt =====
-- The protocol by which the program replaces a file: a temporary file beside it, then a rename.
-- agentauth/agentauth.go, registry/registry.go, links/links.go, store/local_adapter.go and
-- providers/atomic.go of apps/cli/internal follow it.
pub mod Saved
use vedox.Base.{
  ℕ, zero, suc, Bytes, Bool, true, false, if◌then◌else◌, Option, none, some, List, [], ◌∷◌, take,
}

-- A file that is being written: its bytes, whether they reached the disk, and its mode.
pub record TempFile : Type 0 where
  pub content : Bytes
  pub synced : Bool
  pub private_mode : Bool

-- The folder: the file, and beside it the temporary file that a writer made, under a name of its
-- own, and that is still there.
pub record Disk : Type 0 where
  pub dir_made : Bool
  pub temp : Option TempFile
  pub file : Option Bytes

-- The calls that can fail, of which each writer makes its own list, in its own order.
pub data Step : Type 0 where
  mkdir create_temp write sync close chmod rename : Step

-- What a run meets: the call that fails, if any, the bytes that a failing `Write` has written, and
-- whether the removal of the temporary file behind a failing call fails as well. No other call
-- follows one that failed but the `Close` whose error is ignored.
pub record Fault : Type 0 where
  pub at : Option Step
  pub written : ℕ
  pub cleanup_fails : Bool

pub data WriteError : Type 0 where
  marshal_failed : WriteError
  step_failed : Step → WriteError

-- What the successful call does to the disk. The rename puts the temporary file in place.
unfoldable pub perform : Bytes → Step → Disk → Disk
perform content mkdir d = record d { dir_made = true }
perform content create_temp d = record d {
  temp = some (record { content = []; synced = false; private_mode = false });
}
perform content write d = elim (d.temp) [
  | none ↦ d
  | some f ↦ record d { temp = some (record f { content = content; synced = false }) }
]
perform content sync d = elim (d.temp) [
  | none ↦ d
  | some f ↦ record d { temp = some (record f { synced = true }) }
]
perform content close d = d
perform content chmod d = elim (d.temp) [
  | none ↦ d
  | some f ↦ record d { temp = some (record f { private_mode = true }) }
]
perform content rename d = elim (d.temp) [
  | none ↦ d
  | some f ↦ record d { temp = none; file = some f.content }
]

-- What a failing call may leave behind: a part of the bytes, where it is the write.
unfoldable pub falter : Bytes → ℕ → Step → Disk → Disk
falter content n write d = elim (d.temp) [
  | none ↦ d
  | some f ↦ record d { temp = some (record f { content = take n content; synced = false }) }
]
falter content n _ d = d

abbrev pub is_at : Step → Option Step → Bool
is_at s none = false
is_at mkdir (some mkdir) = true
is_at create_temp (some create_temp) = true
is_at write (some write) = true
is_at sync (some sync) = true
is_at close (some close) = true
is_at chmod (some chmod) = true
is_at rename (some rename) = true
is_at _ (some _) = false

-- The deferred cleanup, which is set up once the temporary file was created: `os.Remove`, whose
-- error is ignored.
unfoldable pub clean_up : Bool → Disk → Disk
clean_up fails d = if fails then d else record d { temp = none }

-- The calls behind `CreateTemp`.
unfoldable pub run_steps : Bytes → Fault → List Step → Disk → Disk × Option WriteError
unfolding perform falter clean_up
run_steps content fault [] d = (d, none)
run_steps content fault (s ∷ steps) d =
    let stopped = clean_up fault.cleanup_fails (falter content fault.written s d) in
    let rest = run_steps content fault steps (perform content s d) in
    if is_at s fault.at then (stopped, some (step_failed s)) else rest

-- What a crash keeps of the bytes of a file: all of them where they were synced, else only the
-- first `kept`.
unfoldable pub kept_bytes : ℕ → TempFile → Bytes
kept_bytes kept f = if f.synced then f.content else take kept f.content

-- A call that was made before the crash. The file that a rename puts in place holds what the crash
-- keeps of it, since no later call syncs it.
unfoldable pub perform_lossy : ℕ → Bytes → Step → Disk → Disk
unfolding perform kept_bytes
perform_lossy kept content rename d = elim (d.temp) [
  | none ↦ d
  | some f ↦ record d { temp = none; file = some (kept_bytes kept f) }
]
perform_lossy kept content s d = perform content s d

-- The temporary file behind the crash.
unfoldable pub lose_temp : ℕ → Disk → Disk
unfolding kept_bytes
lose_temp kept d = elim (d.temp) [
  | none ↦ d
  | some f ↦ record d { temp = some (record f { content = kept_bytes kept f }) }
]

-- The disk as a crash leaves it in the middle of a call, after `n` calls that were made. The
-- rename itself is atomic: a crash in the middle of it finds it made or not made.
unfoldable pub crash_at : Bytes → ℕ → ℕ → ℕ → List Step → Disk → Disk
unfolding perform_lossy lose_temp falter
crash_at content kept n written [] d = lose_temp kept d
crash_at content kept zero written (s ∷ steps) d = lose_temp kept (falter content written s d)
crash_at content kept (suc n) written (s ∷ steps) d =
    crash_at content kept n written steps (perform_lossy kept content s d)

-- The calls behind `CreateTemp` in `registry.writeManifestLocked` and `links.Save`.
abbrev pub plain_steps : List Step
plain_steps = write ∷ sync ∷ close ∷ rename ∷ []

-- `writeManifestLocked` and `links.Save`: `marshalled` is what `json.MarshalIndent` returns.
unfoldable pub save_file : Option Bytes → Fault → Disk → Disk × Option WriteError
unfolding run_steps
save_file none fault d = (d, some marshal_failed)
save_file (some content) fault d =
    if is_at mkdir fault.at
    then (d, some (step_failed mkdir))
    else let d' = perform [] mkdir d in
      if is_at create_temp fault.at
      then (d', some (step_failed create_temp))
      else run_steps content fault plain_steps (perform content create_temp d')
