-- ===== src/AtomicFile/Saved.antt =====
-- A save replaces the file or leaves it alone.
use vedox.Base.{ℕ, ◌≡◌, refl, ◌⊎◌, inl, inr, Bytes, Bool, true, false, Option, none, some}
use vedox.AtomicFile.{
  Disk, Step, mkdir, create_temp, chmod, Fault, WriteError, marshal_failed, step_failed, save_file,
}

saved_at_each_step :
    (content : Bytes) (at : Option Step) (written : ℕ) (fails : Bool) (d : Disk)
    → let r =
        save_file (some content) (record { at = at; written = written; cleanup_fails = fails }) d in
      ((r.1 ≡ none) × (r.0.file ≡ some content))
      ⊎ ((e : WriteError) × (r.1 ≡ some e) × (r.0.file ≡ d.file))
unfolding save_file
saved_at_each_step content none written fails d = inl (refl, refl)
saved_at_each_step content (some mkdir) written fails d = inr (step_failed mkdir, refl, refl)
saved_at_each_step content (some create_temp) written fails d =
    inr (step_failed create_temp, refl, refl)
saved_at_each_step content (some chmod) written fails d = inl (refl, refl)
saved_at_each_step content (some s) written true d = inr (step_failed s, refl, refl)
saved_at_each_step content (some s) written false d = inr (step_failed s, refl, refl)

-- Replaced, with no error; or left alone, with one.
pub save_file-cases :
    (marshalled : Option Bytes) (fault : Fault) (d : Disk)
    → let r = save_file marshalled fault d in
      ((content : Bytes) × (marshalled ≡ some content) × (r.1 ≡ none) × (r.0.file ≡ some content))
      ⊎ ((e : WriteError) × (r.1 ≡ some e) × (r.0.file ≡ d.file))
save_file-cases none fault d =
    inr (marshal_failed, unfold save_file in refl, unfold save_file in refl)
save_file-cases (some content) fault d =
    elim (saved_at_each_step content fault.at fault.written fault.cleanup_fails d) [
      | inl r ↦ inl (content, refl, r.0, r.1)
      | inr r ↦ inr r
    ]
