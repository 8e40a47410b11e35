-- ===== src/Providers/Files.antt =====
-- providers/atomic.go: `atomicFileWrite` and `executeFileOps`.
pub mod Written
pub mod Executed
use vedox.Base.{Bool, true, false, if◌then◌else◌, Option, none, some, List, [], ◌∷◌, bytes_discrete}
use vedox.Base.Text.{Text}
use vedox.Base.Dict.{Dict, lookup, insert, delete}
use vedox.AtomicFile as AtomicFile
use vedox.AtomicFile.{
  Disk, Step, mkdir, create_temp, write, sync, chmod, close, rename, WriteError, marshal_failed,
  is_at, perform, run_steps,
}
use vedox.Providers.Types.{
  OpMode, create, update, other, FileOp, ProviderError, step_failed, read_failed, remove_failed,
  unknown_action, encode_failed, Result, ok, failed, Host, Files,
}
use vedox.Providers.Symlinks.{assert_no_symlink}

-- The calls behind `CreateTemp`.
abbrev pub write_steps : List Step
write_steps = write ∷ sync ∷ chmod ∷ close ∷ rename ∷ []

abbrev pub error_of : WriteError → ProviderError
error_of marshal_failed = encode_failed
error_of (AtomicFile.step_failed s) = step_failed s

abbrev pub put_back : Text → Option Text → Files → Files
put_back path none files = files
put_back path (some content) files = insert bytes_discrete path content files

-- `atomicFileWrite`; `none` is the nil error. The modes of files and folders are left out.
unfoldable pub atomic_file_write : Host → Text → Text → Text → Files → Files × Option ProviderError
unfolding run_steps
atomic_file_write host boundary path content files =
    let fault = host.fault path in
    let folder : Disk = record {
      dir_made = true;
      temp = none;
      file = lookup bytes_discrete path files;
    } in
    let (disk, err) = run_steps content fault write_steps (perform content create_temp folder) in
    elim (assert_no_symlink host.seen boundary path) [
      | some e ↦ (files, some e)
      | none ↦
          if is_at mkdir fault.at
          then (files, some (step_failed mkdir))
          else elim (assert_no_symlink host.seen_again boundary path) [
            | some e ↦ (files, some e)
            | none ↦
                if is_at create_temp fault.at then (files, some (step_failed create_temp)) else (
                  put_back path disk.file files,
                  elim err [ none ↦ none | some e ↦ some (error_of e) ],
                )
          ]
    ]

-- `os.ReadFile`; a missing file is `none`.
unfoldable pub read_file : Host → Files → Text → Result (Option Text)
read_file host files path =
    if host.unreadable path
    then failed (read_failed path)
    else ok (lookup bytes_discrete path files)

-- `os.Remove`, where a missing file is no error.
unfoldable pub remove_file : Host → Text → Files → Files × Option ProviderError
remove_file host path files =
    if host.undeletable path
    then (files, some (remove_failed path))
    else (delete bytes_discrete path files, none)

-- One operation, and the hash that it records.
module _ (sha256_hex : Text → Text) where
  unfoldable pub run_op : Host → FileOp → Files → Dict Text Text → Files × Result (Dict Text Text)
  unfolding atomic_file_write remove_file
  run_op host op files hashes =
      let (files', err) = atomic_file_write host op.boundary op.path op.content files in
      let written : Files × Result (Dict Text Text) = elim err [
        | some e ↦ (files', failed e)
        | none ↦ (files', ok (insert bytes_discrete op.path (sha256_hex op.content) hashes))
      ] in
      let (removed, remove_err) = remove_file host op.path files in
      elim (op.action) [
        | create ↦ written
        | update ↦ written
        | OpMode.delete ↦ elim (assert_no_symlink host.seen op.boundary op.path) [
          | some e ↦ (files, failed e)
          | none ↦ (removed, elim remove_err [ none ↦ ok hashes | some e ↦ failed e ])
        ]
        | other a ↦ (files, failed (unknown_action a))
      ]

  -- `executeFileOps`, from the hashes of the operations before.
  unfoldable pub run_ops :
      Host → List FileOp → Files → Dict Text Text → Files × Result (Dict Text Text)
  unfolding run_op
  run_ops host [] files hashes = (files, ok hashes)
  run_ops host (op ∷ ops) files hashes =
      let (files', r) = run_op host op files hashes in
      elim r [ failed e ↦ (files', failed e) | ok hashes' ↦ run_ops host ops files' hashes' ]

  unfoldable pub execute_file_ops : Host → List FileOp → Files → Files × Result (Dict Text Text)
  unfolding run_ops
  execute_file_ops host ops files = run_ops host ops files []
