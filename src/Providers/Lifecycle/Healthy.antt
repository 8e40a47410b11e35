-- ===== src/Providers/Lifecycle/Healthy.antt =====
-- What `Verify` finds behind `Install` and `Repair`.
use vedox.Base.{
  ◌≡◌, refl, inl, inr, Bool-cases, true, false, Option-cases, some, List, [], ◌∷◌, arith,
  bytes_eq_refl, is_empty,
}
use vedox.Base.Lists.{All}
use vedox.Base.Text.{Text}
use vedox.Base.Dict.{Dict}
use vedox.Providers.Types.{
  FileOp, InstallReceipt, VerifyResult, Result-cases, ok, Host, Files, KeyIssuer, World,
}
use vedox.Providers.Files.{execute_file_ops}
use vedox.Providers.Files.Written.{Matches, IsWrite}
use vedox.Providers.Files.Executed.{execute_file_ops-Recorded}
use vedox.Providers.Lifecycle.{
  Adapter, substitute_op, substitute_key_id, verify_entries, receipt_of, install,
}

abbrev pub all_well : VerifyResult
all_well = record { healthy = true; drift = false; issues = [] }

-- No read fails but for a missing file.
abbrev pub IsReadable : Host → Type 0
IsReadable host = (path : Text) → host.unreadable path ≡ false

substitute_op-IsWrite :
    (key_id : Text) (op : FileOp) → IsWrite op → IsWrite (substitute_op key_id op)
unfolding substitute_op
substitute_op-IsWrite key_id op h = elim (Bool-cases (is_empty op.content)) [
  | inl e ↦ rw e h
  | inr e ↦ rw e h
]

pub substitute_key_id-IsWrite :
    (key_id : Text) (ops : List FileOp)
    → All IsWrite ops
    → All IsWrite (substitute_key_id ops key_id)
substitute_key_id-IsWrite key_id [] h = tt
substitute_key_id-IsWrite key_id (op ∷ ops) h =
    (substitute_op-IsWrite key_id op h.0, substitute_key_id-IsWrite key_id ops h.1)

module _ (sha256_hex : Text → Text) where
  -- Files that match their hashes verify.
  pub verify_entries-Matches :
      (host : Host) (files : Files) (hashes : Dict Text Text)
      → IsReadable host
      → All (Matches sha256_hex files) hashes
      → verify_entries sha256_hex host files hashes ≡ ok all_well
  unfolding verify_entries
  verify_entries-Matches host files [] readable h = refl
  verify_entries-Matches host files ((path, hash) ∷ hashes) readable ((content, found, same), h) =
      ground (
        arith,
        readable path,
        found,
        same,
        bytes_eq_refl hash,
        verify_entries-Matches host files hashes readable h,
      )

  module _ (keys : KeyIssuer) (adapter : Adapter) where
    -- What a success tells of the key, the files and the receipt.
    pub installed :
        (host : Host) (ops : List FileOp) (w w' : World keys) (receipt : InstallReceipt)
        → install sha256_hex keys adapter host ops w ≡ (w', ok receipt)
        → (key_id : Text) × (hashes : Dict Text Text) × (keys.issue adapter.key_name [] [] w.issued
            ≡ (w'.issued, some key_id))
          × (execute_file_ops sha256_hex host (substitute_key_id ops key_id) w.files
              ≡ (w'.files, ok hashes))
          × (receipt ≡ receipt_of sha256_hex keys adapter host key_id hashes)
    unfolding install
    installed host ops w w' receipt h =
        let (issued, key) = keys.issue adapter.key_name [] [] w.issued in
        elim (Option-cases key) [
          | inl e ↦ absurd (ground (arith, h, e))
          | inr (key_id, e) ↦
              let done = execute_file_ops sha256_hex host (substitute_key_id ops key_id) w.files in
              elim (Result-cases done.1) [
                | inl (err, f) ↦ absurd (ground (arith, h, e, f))
                | inr (hashes, f) ↦ (
                  key_id,
                  hashes,
                  ground (arith, h, e, f),
                  ground (arith, h, e, f),
                  ground (arith, h, e, f),
                )
              ]
        ]

    -- What a successful installation leaves: files that match the hashes of the receipt.
    pub install-Matches :
        (host : Host) (ops : List FileOp) (w w' : World keys) (receipt : InstallReceipt)
        → All IsWrite ops
        → install sha256_hex keys adapter host ops w ≡ (w', ok receipt)
        → All (Matches sha256_hex w'.files) receipt.file_hashes
    unfolding receipt_of
    install-Matches host ops w w' receipt writes h =
        let (key_id, hashes, _, done, same) = installed host ops w w' receipt h in
        let r =
          execute_file_ops-Recorded sha256_hex host (substitute_key_id ops key_id) w.files w'.files
            hashes (substitute_key_id-IsWrite key_id ops writes) done in
        rw same r.1
