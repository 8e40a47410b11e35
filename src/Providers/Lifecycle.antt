-- ===== src/Providers/Lifecycle.antt =====
-- The life of an installation: `Install`, `Verify`, `Repair` and `Uninstall` of providers/claude.go.
-- codex.go, gemini.go and copilot.go write the same calls out; what differs is in `Adapter`.
pub mod Healthy
pub mod Keys
pub mod Repaired
use vedox.Base.{
  Bool, true, false, if◌then◌else◌, Option, none, some, List, [], ◌∷◌, ◌++◌, map, is_empty, bytes,
  bytes_eq,
}
use vedox.Base.Text.{Text}
use vedox.Base.Dict.{Dict}
use vedox.Base.Search.{replace_all}
use vedox.Providers.Types.{
  FileOp, InstallReceipt, Issue, file_missing, file_modified, VerifyResult, ProviderError,
  issue_failed, revoke_failed, no_store, Result, ok, failed, Host, Files, KeyIssuer, World,
}
use vedox.Providers.Files.{read_file, execute_file_ops}
use vedox.Providers.Receipts.{Json, load, save, delete_receipt}

-- An installer's own part: its names, its plan, the entry that `SchemaHash` is taken from, and
-- what `Uninstall` does to its files once the key is revoked.
pub record Adapter : Type 0 where
  pub provider : Text
  pub key_name : Text
  pub version : Text
  pub daemon_url : Text
  pub plan : Host → Files → Result (List FileOp)
  pub schema_hash : Dict Text Text → Text
  pub strip : Host → Files → Files × Option ProviderError

abbrev pub placeholder : Text
placeholder = bytes "{{HMAC_KEY_ID}}"

unfoldable pub substitute_op : Text → FileOp → FileOp
substitute_op key_id op =
    if is_empty op.content
    then op
    else record op { content = replace_all placeholder key_id op.content }

-- `substituteKeyID`
abbrev pub substitute_key_id : List FileOp → Text → List FileOp
substitute_key_id ops key_id = map (substitute_op key_id) ops

-- A receipt's entry that does not match.
abbrev pub drifted : Issue → VerifyResult → VerifyResult
drifted issue r = record r { healthy = false; drift = true; issues = issue ∷ r.issues }

module _ (sha256_hex : Text → Text) where
  -- `Verify`, over the entries. The issues stand in the order of the entries, and the last line,
  -- by which drift is not healthy, is part of `drifted`.
  unfoldable pub verify_entries : Host → Files → Dict Text Text → Result VerifyResult
  unfolding read_file
  verify_entries host files [] = ok (record { healthy = true; drift = false; issues = [] })
  verify_entries host files ((path, expected) ∷ entries) =
      let rest = verify_entries host files entries in
      elim (read_file host files path) [
        | failed e ↦ failed e
        | ok none ↦ elim rest [ failed e ↦ failed e | ok r ↦ ok (drifted (file_missing path) r) ]
        | ok (some content) ↦
            if bytes_eq (sha256_hex content) expected
            then rest
            else elim rest [ failed e ↦ failed e | ok r ↦ ok (drifted (file_modified path) r) ]
      ]

  unfoldable pub verify : Host → Files → InstallReceipt → Result VerifyResult
  unfolding verify_entries
  verify host files receipt = verify_entries host files receipt.file_hashes

module _ (sha256_hex : Text → Text) (keys : KeyIssuer) (adapter : Adapter) where
  unfoldable pub receipt_of : Host → Text → Dict Text Text → InstallReceipt
  receipt_of host key_id hashes = record {
    provider = adapter.provider;
    version = adapter.version;
    schema_hash = adapter.schema_hash hashes;
    auth_key_id = key_id;
    daemon_url = adapter.daemon_url;
    file_hashes = hashes;
    installed_at = host.now;
  }

  -- `Install` of the operations of a plan.
  unfoldable pub install : Host → List FileOp → World keys → World keys × Result InstallReceipt
  unfolding receipt_of execute_file_ops
  install host ops w =
      let (issued, key) = keys.issue adapter.key_name [] [] w.issued in
      elim key [
        | none ↦ (record w { issued = issued }, failed issue_failed)
        | some key_id ↦
            let (files, r) =
              execute_file_ops sha256_hex host (substitute_key_id ops key_id) w.files in
            elim r [
              | failed e ↦
                  (record { files = files; issued = (keys.revoke key_id issued).0 }, failed e)
              | ok hashes ↦
                  (record { files = files; issued = issued }, ok (receipt_of host key_id hashes))
            ]
      ]

  -- The revocation of a receipt's key, and whether it succeeds.
  unfoldable pub revoke_of : InstallReceipt → World keys → World keys × Bool
  revoke_of receipt w =
      let (issued, done) = keys.revoke receipt.auth_key_id w.issued in
      if is_empty receipt.auth_key_id then (w, true) else (record w { issued = issued }, done)

  module _ (json : Json) where
    -- `Repair` from the plan on.
    unfoldable pub reinstall : Text → Host → World keys → World keys × Option ProviderError
    unfolding install save
    reinstall vedox_dir host w = elim (adapter.plan host w.files) [
      | failed e ↦ (w, some e)
      | ok ops ↦
          let (w', r) = install host ops w in
          elim r [
            | failed e ↦ (w', some e)
            | ok receipt ↦
                let (files, err) = save json vedox_dir host receipt w'.files in
                (record w' { files = files }, err)
          ]
    ]

    unfoldable pub repair_in : Text → Host → World keys → World keys × Option ProviderError
    unfolding load verify revoke_of reinstall
    repair_in vedox_dir host w = elim (load json vedox_dir host w.files adapter.provider) [
      | failed e ↦ (w, some e)
      | ok none ↦ reinstall vedox_dir host w
      | ok (some receipt) ↦ elim (verify sha256_hex host w.files receipt) [
        | failed e ↦ (w, some e)
        | ok v ↦
            let again = reinstall vedox_dir host (revoke_of receipt w).0 in
            if v.healthy then (w, none) else again
      ]
    ]

    -- `Repair`; without a receipt store it fails.
    abbrev pub repair : Option Text → Host → World keys → World keys × Option ProviderError
    repair none host w = (w, some no_store)
    repair (some vedox_dir) host w = repair_in vedox_dir host w

    -- `Uninstall` once the key is revoked. A receipt that cannot be removed is no error.
    unfoldable pub strip_and_forget : Text → Host → World keys → World keys × Option ProviderError
    unfolding delete_receipt
    strip_and_forget vedox_dir host w =
        let (files, err) = adapter.strip host w.files in
        elim err [
          | some e ↦ (record w { files = files }, some e)
          | none ↦ (
            record w { files = (delete_receipt json vedox_dir host adapter.provider files).0 },
            none,
          )
        ]

    unfoldable pub uninstall_in : Text → Host → World keys → World keys × Option ProviderError
    unfolding load revoke_of strip_and_forget
    uninstall_in vedox_dir host w = elim (load json vedox_dir host w.files adapter.provider) [
      | failed e ↦ (w, some e)
      | ok none ↦ strip_and_forget vedox_dir host w
      | ok (some receipt) ↦
          let (w', done) = revoke_of receipt w in
          if done then strip_and_forget vedox_dir host w' else (w', some revoke_failed)
    ]

    -- `Uninstall`
    abbrev pub uninstall : Option Text → Host → World keys → World keys × Option ProviderError
    uninstall none host w = (w, some no_store)
    uninstall (some vedox_dir) host w = uninstall_in vedox_dir host w
