-- ===== src/AgentAuth/KeyStore/Metadata/Atomic.antt =====
-- Readers of the metadata file see the old keys or the new ones, never a part of them.
use vedox.Base.{
  ℕ, zero, suc, ◌≡◌, refl, ◌⊎◌, inl, inr, Bytes, Bool, true, false, Option, none, some, arith,
}
use vedox.AtomicFile.{
  Disk, Step, mkdir, create_temp, Fault, WriteError, step_failed, perform, crash_at,
}
use vedox.AgentAuth.KeyStore.Metadata.{protocol, write_file}

-- The disk and the error after a write: replaced, or left alone.
abbrev pub AllOrNothing : Bytes → Fault → Disk → Disk × Option WriteError → Type 0
AllOrNothing content fault d r =
    ((r.1 ≡ none) × (r.0.file ≡ some content) × (r.0.temp ≡ none))
    ⊎ ((e : WriteError) × (r.1 ≡ some e)
        × (r.0.file ≡ d.file)
        × (fault.cleanup_fails ≡ false → r.0.temp ≡ none))

at_each_step :
    (content : Bytes) (at : Option Step) (written : ℕ) (fails : Bool) (d : Disk)
    → d.temp ≡ none
    → let fault : Fault = record { at = at; written = written; cleanup_fails = fails } in
      AllOrNothing content fault d (write_file (some content) fault d)
unfolding write_file
at_each_step content none written fails d h = inl (refl, refl, refl)
at_each_step content (some mkdir) written fails d h = inr (step_failed mkdir, refl, refl, λ p. h)
at_each_step content (some create_temp) written fails d h =
    inr (step_failed create_temp, refl, refl, λ p. h)
at_each_step content (some s) written true d h = inr (step_failed s, refl, refl, λ p. cc)
at_each_step content (some s) written false d h = inr (step_failed s, refl, refl, λ p. refl)

-- A write that reports no error has replaced the file by all of the new bytes, and its temporary
-- file is gone. One that reports an error has left the file as it was, and its temporary file is
-- gone unless its removal failed as well.
pub write_file-AllOrNothing :
    (content : Bytes) (fault : Fault) (d : Disk)
    → d.temp ≡ none
    → AllOrNothing content fault d (write_file (some content) fault d)
write_file-AllOrNothing content fault d h =
    at_each_step content fault.at fault.written fault.cleanup_fails d h

-- An error leaves the file alone, a failure to marshal included.
pub write_error_keeps :
    (data? : Option Bytes) (fault : Fault) (d : Disk) (e : WriteError)
    → d.temp ≡ none
    → (write_file data? fault d).1 ≡ some e
    → (write_file data? fault d).0.file ≡ d.file
write_error_keeps none fault d e clean h = unfold write_file perform in (ground arith)
write_error_keeps (some content) fault d e clean h =
    ground (arith, write_file-AllOrNothing content fault d clean)

-- A crash at any point of the protocol, in the middle of a call or between two, leaves the old
-- bytes or all of the new ones in the file, however few of the bytes that were not synced before
-- the crash it keeps.
pub crash_leaves_whole_file :
    (content : Bytes) (kept n written : ℕ) (d : Disk)
    → d.temp ≡ none
    → let d' = crash_at content kept n written protocol d in
      (d'.file ≡ d.file) ⊎ (d'.file ≡ some content)
unfolding crash_at
crash_leaves_whole_file content kept zero w d h = ground arith
crash_leaves_whole_file content kept (suc zero) w d h = ground arith
crash_leaves_whole_file content kept (suc (suc zero)) w d h = ground arith
crash_leaves_whole_file content kept (suc (suc (suc zero))) w d h = ground arith
crash_leaves_whole_file content kept (suc (suc (suc (suc zero)))) w d h = ground arith
crash_leaves_whole_file content kept (suc (suc (suc (suc (suc zero))))) w d h = ground arith
crash_leaves_whole_file content kept (suc (suc (suc (suc (suc (suc zero)))))) w d h = ground arith
crash_leaves_whole_file content kept (suc (suc (suc (suc (suc (suc (suc n))))))) w d h =
    ground arith
