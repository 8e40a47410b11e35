-- ===== src/AgentAuth/KeyStore/Metadata.antt =====
-- agentauth.go, `writeLocked`: the calls by which the metadata file is replaced.
pub mod Atomic
use vedox.Base.{Bytes, Option, none, some, List, [], ◌∷◌, if◌then◌else◌}
use vedox.AtomicFile.{
  Disk, Step, mkdir, create_temp, write, sync, close, chmod, rename, Fault, WriteError,
  marshal_failed, step_failed, perform, is_at, run_steps,
}

abbrev pub after_create : List Step
after_create = write ∷ sync ∷ close ∷ chmod ∷ rename ∷ []

abbrev pub protocol : List Step
protocol = mkdir ∷ create_temp ∷ after_create

-- `marshalled` is what `json.MarshalIndent` returns for the sorted list.
unfoldable pub write_file : Option Bytes → Fault → Disk → Disk × Option WriteError
unfolding run_steps
write_file marshalled fault d =
    if is_at mkdir fault.at
    then (d, some (step_failed mkdir))
    else let d' = perform [] mkdir d in
      (elim marshalled [
        | none ↦ (d', some marshal_failed)
        | some content ↦
            if is_at create_temp fault.at
            then (d', some (step_failed create_temp))
            else run_steps content fault after_create (perform content create_temp d')
      ])
