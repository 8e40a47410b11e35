-- ===== src/Providers/Lifecycle/Repaired.antt =====
-- What `Repair` leaves behind.
use mathlib.Core.Path.{subst}
use vedox.Base.{
  ◌≡◌, refl, ap, sym, ◌∙◌, ◌≢◌, inl, inr, Bool-cases, true, Option-cases, none, some, List, [], ◌∷◌,
  ◌++◌, arith, bytes_discrete,
}
use vedox.Base.Lists.{All}
use vedox.Base.Text.{Text, newline}
use vedox.Base.Dict.{insert, lookup-insert_self, Unbound}
use vedox.AtomicFile.{is_at, mkdir}
use vedox.Providers.Types.{
  FileOp, InstallReceipt, VerifyResult, Result-cases, ok, Host, Files, KeyIssuer, World,
}
use vedox.Providers.Files.{read_file}
use vedox.Providers.Files.Written.{IsWrite, atomic_file_write-cases}
use vedox.Providers.Files.Executed.{execute_file_ops-Unbound, All-Matches-insert}
use vedox.Providers.Receipts.{Json, IsRoundTrip, receipts_dir, receipt_path, load, save}
use vedox.Providers.Lifecycle.{
  Adapter, substitute_op, substitute_key_id, verify, receipt_of, install, revoke_of, reinstall,
  repair_in,
}
use vedox.Providers.Lifecycle.Healthy.{
  all_well, IsReadable, verify_entries-Matches, substitute_key_id-IsWrite, installed,
  install-Matches,
}

substitute_op-path : (key_id : Text) (op : FileOp) → (substitute_op key_id op).path ≡ op.path
unfolding substitute_op
substitute_op-path key_id op = ground arith

substitute_key_id-paths :
    (key_id k : Text) (ops : List FileOp)
    → All (λ op. op.path ≢ k) ops
    → All (λ op. op.path ≢ k) (substitute_key_id ops key_id)
substitute_key_id-paths key_id k [] h = tt
substitute_key_id-paths key_id k (op ∷ ops) h =
    (rw (substitute_op-path key_id op) h.0, substitute_key_id-paths key_id k ops h.1)

module _ (json : Json) (vedox_dir : Text) where
  -- A receipt that was saved without an error stands in its file.
  save_written :
      (host : Host) (receipt : InstallReceipt) (files : Files)
      → (save json vedox_dir host receipt files).1 ≡ none
      → (t : Text) × (json.marshal receipt ≡ some t)
        × ((save json vedox_dir host receipt files).0
            ≡ insert bytes_discrete
                (receipt_path json vedox_dir receipt.provider)
                (t ++ newline ∷ [])
                files)
  unfolding save
  save_written host receipt files h =
      let path = receipt_path json vedox_dir receipt.provider in
      elim (Bool-cases (is_at mkdir (host.fault (receipts_dir json vedox_dir)).at)) [
        | inl e ↦ absurd (ground (arith, h, e))
        | inr e ↦ elim (Option-cases (json.marshal receipt)) [
          | inl f ↦ absurd (ground (arith, h, e, f))
          | inr (t, f) ↦
              elim (atomic_file_write-cases host (receipts_dir json vedox_dir) path
                (t ++ newline ∷ []) files) [
                  | inr (err, p, q) ↦ absurd (ground (arith, h, e, f, p))
                  | inl (p, q) ↦ (t, f, ground (arith, e, f, q))
                ]
        ]
      ]

  -- It is what `Load` returns.
  load_saved :
      (law : IsRoundTrip json) (host : Host) (receipt : InstallReceipt) (t : Text) (files : Files)
      → IsReadable host
      → json.marshal receipt ≡ some t
      → load json vedox_dir host
          (insert bytes_discrete
            (receipt_path json vedox_dir receipt.provider)
            (t ++ newline ∷ [])
            files)
          receipt.provider
        ≡ ok (some receipt)
  unfolding load read_file
  load_saved law host receipt t files readable m =
      let path = receipt_path json vedox_dir receipt.provider in
      ground (
        arith,
        readable path,
        lookup-insert_self bytes_discrete path (t ++ newline ∷ []) files,
        law.read_back receipt t m,
      )

-- A plan writes files, and none of them is the receipt.
abbrev pub IsPlan : Adapter → Json → Text → List FileOp → Type 0
IsPlan adapter json vedox_dir ops =
    All IsWrite ops × All (λ op. op.path ≢ receipt_path json vedox_dir adapter.provider) ops

module _ (sha256_hex : Text → Text) (keys : KeyIssuer) (adapter : Adapter) where
  module _ (json : Json) (law : IsRoundTrip json) (vedox_dir : Text) where
    -- The receipt on disk verifies.
    abbrev pub IsHealthy : Host → Files → InstallReceipt → Type 0
    IsHealthy host files receipt =
        (load json vedox_dir host files adapter.provider ≡ ok (some receipt))
        × (v : VerifyResult) × (verify sha256_hex host files receipt ≡ ok v)
        × (v.healthy ≡ true)

    install_saved :
        (host later : Host) (ops : List FileOp) (w w' : World keys) (receipt : InstallReceipt)
        → IsPlan adapter json vedox_dir ops
        → IsReadable later
        → install sha256_hex keys adapter host ops w ≡ (w', ok receipt)
        → (save json vedox_dir host receipt w'.files).1 ≡ none
        → IsHealthy later (save json vedox_dir host receipt w'.files).0 receipt
    install_saved host later ops w w' receipt plan readable h s =
        let (key_id, hashes, _, done, same) =
          installed sha256_hex keys adapter host ops w w' receipt h in
        let provider : receipt.provider ≡ adapter.provider =
          unfold receipt_of in ap (λ (r : InstallReceipt). r.provider) same in
        let recorded : receipt.file_hashes ≡ hashes =
          unfold receipt_of in ap (λ (r : InstallReceipt). r.file_hashes) same in
        let path = receipt_path json vedox_dir receipt.provider in
        let (t, m, written) = save_written json vedox_dir host receipt w'.files s in
        let apart : Unbound path hashes = rw provider (
          execute_file_ops-Unbound sha256_hex host (substitute_key_id ops key_id) w.files w'.files
            hashes (receipt_path json vedox_dir adapter.provider)
            (substitute_key_id-IsWrite key_id ops plan.0)
            (substitute_key_id-paths key_id (receipt_path json vedox_dir adapter.provider) ops
              plan.1)
            done) in
        let matches =
          All-Matches-insert sha256_hex path (t ++ newline ∷ []) w'.files receipt.file_hashes
            (rw recorded apart)
            (install-Matches sha256_hex keys adapter host ops w w' receipt plan.0 h) in
        (
          rw written (
              subst
                (λ p.
                  load json vedox_dir later
                    (insert bytes_discrete path (t ++ newline ∷ []) w'.files) p
                  ≡ ok (some receipt))
                provider (load_saved json vedox_dir law later receipt t w'.files readable m)),
          all_well,
          rw written (
              unfold verify in
              verify_entries-Matches sha256_hex later _ receipt.file_hashes readable matches),
          refl,
        )

    -- Behind a reinstallation that succeeds, the new receipt is stored and verifies.
    reinstall-IsHealthy :
        (host : Host) (w w' : World keys)
        → ((ops : List FileOp)
            → adapter.plan host w.files ≡ ok ops
            → IsPlan adapter json vedox_dir ops)
        → IsReadable host
        → reinstall sha256_hex keys adapter json vedox_dir host w ≡ (w', none)
        → (receipt : InstallReceipt) × IsHealthy host w'.files receipt
    unfolding reinstall
    reinstall-IsHealthy host w w' plans readable h =
        elim (Result-cases (adapter.plan host w.files)) [
          | inl (e, p) ↦ absurd (ground (arith, h, p))
          | inr (ops, p) ↦
              let done = install sha256_hex keys adapter host ops w in
              elim (Result-cases done.1) [
                | inl (e, q) ↦ absurd (ground (arith, h, p, q))
                | inr (receipt, q) ↦
                    let saved = save json vedox_dir host receipt done.0.files in
                    let s : saved.1 ≡ none = ground (arith, h, p, q) in
                    let f : saved.0 ≡ w'.files = ground (arith, h, p, q) in
                    (
                      receipt,
                      subst (λ fs. IsHealthy host fs receipt) f
                          (install_saved host host ops w done.0 receipt (plans ops p) readable
                            (ground (arith, q)) s),
                    )
              ]
        ]

    -- Behind a repair that returns no error there is a receipt on disk, and `Verify` finds it
    -- healthy. The hypotheses are that a plan writes files but not the receipt, that JSON reads
    -- back what it wrote, and that files that are there can be read.
    pub repair-IsHealthy :
        (host : Host) (w w' : World keys)
        → ((ops : List FileOp)
            → adapter.plan host w.files ≡ ok ops
            → IsPlan adapter json vedox_dir ops)
        → IsReadable host
        → repair_in sha256_hex keys adapter json vedox_dir host w ≡ (w', none)
        → (receipt : InstallReceipt) × IsHealthy host w'.files receipt
    unfolding repair_in
    repair-IsHealthy host w w' plans readable h =
        elim (Result-cases (load json vedox_dir host w.files adapter.provider)) [
          | inl (e, p) ↦ absurd (ground (arith, h, p))
          | inr (none, p) ↦ reinstall-IsHealthy host w w' plans readable (ground (arith, h, p))
          | inr (some r, p) ↦ elim (Result-cases (verify sha256_hex host w.files r)) [
            | inl (e, q) ↦ absurd (ground (arith, h, p, q))
            | inr (v, q) ↦ elim (Bool-cases v.healthy) [
              | inl g ↦
                  let same : w ≡ w' = ground (arith, h, p, q, g) in
                  subst
                    (λ (x : World keys).
                      (receipt : InstallReceipt) × IsHealthy host x.files receipt)
                    same (r, (p, v, q, g))
              | inr g ↦
                  let w1 = (revoke_of sha256_hex keys adapter r w).0 in
                  let kept : w1.files ≡ w.files = unfold revoke_of in ground arith in
                  reinstall-IsHealthy host w1 w'
                    (λ ops k. plans ops (ap (adapter.plan host) (sym kept) ∙ k)) readable
                    (ground (arith, h, p, q, g))
            ]
          ]
        ]
