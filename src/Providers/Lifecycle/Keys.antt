-- ===== src/Providers/Lifecycle/Keys.antt =====
-- The keys that an installer leaves behind.
use vedox.Base.{
  ◌≡◌, ap, sym, ◌∙◌, ◌≢◌, ◌⊎◌, inl, inr, Bool-cases, Bool, true, false, Option-cases, none, some,
  List, [], arith, bytes_discrete, is_empty,
}
use vedox.Base.Text.{Text}
use vedox.Base.Dict.{lookup, delete, lookup-delete}
use vedox.Providers.Types.{
  FileOp, InstallReceipt, ProviderError, issue_failed, revoke_failed, Result-cases, ok, failed,
  Host, KeyIssuer, World,
}
use vedox.Providers.Files.{execute_file_ops, read_file, remove_file}
use vedox.Providers.Receipts.{Json, receipt_path, load, delete_receipt}
use vedox.Providers.Lifecycle.{
  Adapter, substitute_key_id, receipt_of, install, revoke_of, strip_and_forget, uninstall_in,
}

-- Which keys of an issuer are in use, and how its operations change that.
pub record IsIssuer (keys : KeyIssuer) : Type 0 where
  pub live : Text → keys.State → Bool
  pub was_new :
      (name project prefix : Text) (s s' : keys.State) (id : Text)
      → keys.issue name project prefix s ≡ (s', some id)
      → live id s ≡ false
  pub is_live :
      (name project prefix : Text) (s s' : keys.State) (id : Text)
      → keys.issue name project prefix s ≡ (s', some id)
      → live id s' ≡ true
  pub issue_keeps :
      (name project prefix : Text) (s s' : keys.State) (id j : Text)
      → keys.issue name project prefix s ≡ (s', some id)
      → id ≢ j
      → live j s' ≡ live j s
  pub failed_keeps :
      (name project prefix : Text) (s : keys.State) (j : Text)
      → (keys.issue name project prefix s).1 ≡ none
      → live j (keys.issue name project prefix s).0 ≡ live j s
  pub is_revoked :
      (id : Text) (s : keys.State)
      → (keys.revoke id s).1 ≡ true
      → live id (keys.revoke id s).0 ≡ false
  pub revoke_keeps :
      (id j : Text) (s : keys.State) → id ≢ j → live j (keys.revoke id s).0 ≡ live j s

module _ (sha256_hex : Text → Text) (keys : KeyIssuer) (law : IsIssuer keys)
    (adapter : Adapter) where
  -- A key that was issued and revoked again leaves the keys in use as they were.
  issued_and_revoked :
      (name project prefix : Text) (s s' : keys.State) (id j : Text)
      → keys.issue name project prefix s ≡ (s', some id)
      → (keys.revoke id s').1 ≡ true
      → law.live j (keys.revoke id s').0 ≡ law.live j s
  issued_and_revoked name project prefix s s' id j h r = elim (bytes_discrete id j) [
    | yes p ↦
        ap (λ t. law.live t (keys.revoke id s').0) (sym p)
        ∙ law.is_revoked id s' r
        ∙ sym (law.was_new name project prefix s s' id h)
        ∙ ap (λ t. law.live t s) p
    | no p ↦ law.revoke_keeps id j s' p ∙ law.issue_keeps name project prefix s s' id j h p
  ]

  -- An installation that fails leaves the keys in use as they were, unless the revocation of the
  -- key that it had issued fails: that key is then the only one whose use has changed. One that
  -- succeeds leaves one new key in use, that of its receipt.
  pub install-live :
      (host : Host) (ops : List FileOp) (w : World keys) (j : Text)
      → let (w', r) = install sha256_hex keys adapter host ops w in
        ((e : ProviderError) × (r ≡ failed e)
          × ((law.live j w'.issued ≡ law.live j w.issued)
              ⊎ ((id : Text) × (s : keys.State) × (keys.issue adapter.key_name [] [] w.issued
                    ≡ (s, some id))
                  × ((keys.revoke id s).1 ≡ false)
                  × (id ≢ j → law.live j w'.issued ≡ law.live j w.issued))))
        ⊎ ((receipt : InstallReceipt) × (r ≡ ok receipt)
            × (law.live receipt.auth_key_id w.issued ≡ false)
            × (law.live receipt.auth_key_id w'.issued ≡ true)
            × (receipt.auth_key_id ≢ j → law.live j w'.issued ≡ law.live j w.issued))
  unfolding install
  install-live host ops w j =
      let name = adapter.key_name in
      let s = (keys.issue name [] [] w.issued).0 in
      elim (Option-cases (keys.issue name [] [] w.issued).1) [
        | inl e ↦ inl (
          issue_failed,
          ground (arith, e),
          inl (ground (arith, e, law.failed_keeps name [] [] w.issued j e)),
        )
        | inr (id, e) ↦
            let h : keys.issue name [] [] w.issued ≡ (s, some id) = ground (arith, e) in
            let done = execute_file_ops sha256_hex host (substitute_key_id ops id) w.files in
            elim (Result-cases done.1) [
              | inl (err, f) ↦ inl (
                err,
                ground (arith, e, f),
                elim (Bool-cases (keys.revoke id s).1) [
                  | inl r ↦
                      inl (ground (arith, e, f, issued_and_revoked name [] [] w.issued s id j h r))
                  | inr r ↦ inr (
                    id,
                    s,
                    h,
                    r,
                    λ ne. ground (
                      arith,
                      e,
                      f,
                      law.revoke_keeps id j s ne,
                      law.issue_keeps name [] [] w.issued s id j h ne,
                    ),
                  )
                ],
              )
              | inr (hashes, f) ↦ inr (
                receipt_of sha256_hex keys adapter host id hashes,
                ground (arith, e, f),
                law.was_new name [] [] w.issued s id h,
                ground (arith, e, f, law.is_live name [] [] w.issued s id h),
                λ ne. ground (arith, e, f, law.issue_keeps name [] [] w.issued s id j h ne),
              )
            ]
      ]

  -- Stripping the files leaves the keys alone.
  strip_and_forget-issued :
      (json : Json) (vedox_dir : Text) (host : Host) (w : World keys)
      → (strip_and_forget sha256_hex keys adapter json vedox_dir host w).0.issued ≡ w.issued
  unfolding strip_and_forget
  strip_and_forget-issued json vedox_dir host w =
      elim (Option-cases (adapter.strip host w.files).1) [
        | inl e ↦ ground (arith, e)
        | inr (err, e) ↦ ground (arith, e)
      ]

  -- Where the stored receipt names a key, `Uninstall` leaves that key revoked, or it returns an
  -- error and has changed no file.
  pub uninstall-IsRevokedFirst :
      (json : Json) (vedox_dir : Text) (host : Host) (w : World keys) (receipt : InstallReceipt)
      → load json vedox_dir host w.files adapter.provider ≡ ok (some receipt)
      → is_empty receipt.auth_key_id ≡ false
      → let (w', err) = uninstall_in sha256_hex keys adapter json vedox_dir host w in
        (law.live receipt.auth_key_id w'.issued ≡ false)
        ⊎ ((w'.files ≡ w.files) × (e : ProviderError) × (err ≡ some e))
  unfolding uninstall_in revoke_of
  uninstall-IsRevokedFirst json vedox_dir host w receipt h k =
      let id = receipt.auth_key_id in
      let revoked = record w { issued = (keys.revoke id w.issued).0 } in
      elim (Bool-cases (keys.revoke id w.issued).1) [
        | inl e ↦ inl (
            ground (
              arith,
              h,
              k,
              e,
              strip_and_forget-issued json vedox_dir host revoked,
              law.is_revoked id w.issued e,
            ))
        | inr e ↦ inr (ground (arith, h, k, e), revoke_failed, ground (arith, h, k, e))
      ]

  strip_and_forget-forgets :
      (json : Json) (vedox_dir : Text) (host : Host) (w w' : World keys)
      → strip_and_forget sha256_hex keys adapter json vedox_dir host w ≡ (w', none)
      → host.undeletable (receipt_path json vedox_dir adapter.provider) ≡ false
      → host.unreadable (receipt_path json vedox_dir adapter.provider) ≡ false
      → load json vedox_dir host w'.files adapter.provider ≡ ok none
  unfolding strip_and_forget
  strip_and_forget-forgets json vedox_dir host w w' h d r =
      let path = receipt_path json vedox_dir adapter.provider in
      let files = (adapter.strip host w.files).0 in
      elim (Option-cases (adapter.strip host w.files).1) [
        | inr (err, e) ↦ absurd (ground (arith, h, e))
        | inl e ↦
            let same : (delete_receipt json vedox_dir host adapter.provider files).0 ≡ w'.files =
              ground (arith, h, e) in
            let gone : delete bytes_discrete path files ≡ w'.files =
              unfold delete_receipt remove_file receipt_path in ground (arith, same, d) in
            let none_there : lookup bytes_discrete path w'.files ≡ none =
              rw (sym gone) (ground (arith, lookup-delete bytes_discrete path path files)) in
            unfold load read_file receipt_path in ground (arith, r, none_there)
      ]

  -- Behind an `Uninstall` without an error the receipt is gone, if its file can be removed.
  uninstall-forgets :
      (json : Json) (vedox_dir : Text) (host : Host) (w w' : World keys)
      → uninstall_in sha256_hex keys adapter json vedox_dir host w ≡ (w', none)
      → host.undeletable (receipt_path json vedox_dir adapter.provider) ≡ false
      → host.unreadable (receipt_path json vedox_dir adapter.provider) ≡ false
      → load json vedox_dir host w'.files adapter.provider ≡ ok none
  unfolding uninstall_in
  uninstall-forgets json vedox_dir host w w' h d r =
      elim (Result-cases (load json vedox_dir host w.files adapter.provider)) [
        | inl (e, p) ↦ absurd (ground (arith, h, p))
        | inr (none, p) ↦
            strip_and_forget-forgets json vedox_dir host w w' (ground (arith, h, p)) d r
        | inr (some receipt, p) ↦
            let revoked = revoke_of sha256_hex keys adapter receipt w in
            elim (Bool-cases revoked.1) [
              | inr e ↦ absurd (ground (arith, h, p, e))
              | inl e ↦
                  strip_and_forget-forgets json vedox_dir host revoked.0 w'
                    (ground (arith, h, p, e)) d r
            ]
      ]
