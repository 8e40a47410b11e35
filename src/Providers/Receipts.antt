-- ===== src/Providers/Receipts.antt =====
-- providers/receipt.go: `ReceiptStore`.
use vedox.Base.{◌≡◌, if◌then◌else◌, Option, none, some, List, [], ◌∷◌, ◌++◌, bytes}
use vedox.Base.Text.{Text, newline}
use vedox.Base.Paths.{join}
use vedox.AtomicFile.{mkdir, is_at}
use vedox.Providers.Types.{
  InstallReceipt, ProviderError, step_failed, encode_failed, decode_failed, Result, ok, failed,
  Host, Files,
}
use vedox.Providers.Files.{atomic_file_write, read_file, remove_file}

-- encoding/json, as `Save` and `Load` use it.
pub record Json : Type 0 where
  pub marshal : InstallReceipt → Option Text
  pub unmarshal : Text → Option InstallReceipt

-- What was marshalled is read back; the line break behind it is white space.
pub record IsRoundTrip (json : Json) : Type 0 where
  pub read_back :
      (r : InstallReceipt) (t : Text)
      → json.marshal r ≡ some t
      → json.unmarshal (t ++ newline ∷ []) ≡ some r

-- `vedox_dir` is the user's folder ~/.vedox.
module _ (json : Json) (vedox_dir : Text) where
  abbrev pub receipts_dir : Text
  receipts_dir = join vedox_dir (bytes "install-receipts")

  unfoldable pub receipt_path : Text → Text
  receipt_path provider = join receipts_dir (provider ++ bytes ".json")

  -- `Save`, of a receipt that is not nil.
  unfoldable pub save : Host → InstallReceipt → Files → Files × Option ProviderError
  unfolding receipt_path atomic_file_write
  save host receipt files =
      if is_at mkdir (host.fault receipts_dir).at
      then (files, some (step_failed mkdir))
      else elim (json.marshal receipt) [
        | none ↦ (files, some encode_failed)
        | some t ↦
            atomic_file_write host receipts_dir (receipt_path receipt.provider) (t ++ newline ∷ [])
              files
      ]

  -- `Load`; a missing file is `none`.
  unfoldable pub load : Host → Files → Text → Result (Option InstallReceipt)
  unfolding receipt_path read_file
  load host files provider = elim (read_file host files (receipt_path provider)) [
    | failed e ↦ failed e
    | ok none ↦ ok none
    | ok (some t) ↦ elim (json.unmarshal t) [ none ↦ failed decode_failed | some r ↦ ok (some r) ]
  ]

  -- `Delete`
  unfoldable pub delete_receipt : Host → Text → Files → Files × Option ProviderError
  unfolding receipt_path remove_file
  delete_receipt host provider files = remove_file host (receipt_path provider) files

  unfoldable pub list_of : Host → Files → List Text → Result (List InstallReceipt)
  unfolding load
  list_of host files [] = ok []
  list_of host files (provider ∷ providers) =
      let rest = list_of host files providers in
      elim (load host files provider) [
        | failed e ↦ failed e
        | ok none ↦ rest
        | ok (some r) ↦ elim rest [ failed e ↦ failed e | ok rs ↦ ok (r ∷ rs) ]
      ]

  -- `List`
  unfoldable pub list_receipts : Host → Files → Result (List InstallReceipt)
  unfolding list_of
  list_receipts host files =
      list_of host files (bytes "claude" ∷ bytes "codex" ∷ bytes "copilot" ∷ bytes "gemini" ∷ [])
