-- ===== src/AgentAuth/KeyStore/Lifecycle.antt =====
-- The life of a key: issued, revoked, and what stays when a step of either fails.
use vedox.Base.{
  ℕ, ◌≡◌, refl, ◌≢◌, inl, inr, Bytes, bytes_discrete, true, false, Bool-cases, Option, Option-cases,
  none, some, arith, if_pos, if_neg,
}
use vedox.Base.Dict.{values, lookup, insert, delete, lookup-insert, lookup-delete}
use vedox.Secrets.{SecretStore, StoreLaws, StoreError, keyring_not_found}
use vedox.AgentAuth.KeyStore.Order.{ApiKey, sort_by_created}
use vedox.AtomicFile.{Fault, WriteError}
use vedox.AgentAuth.KeyStore.Metadata.{write_file}
use vedox.AgentAuth.KeyStore.Metadata.Atomic.{write_error_keeps}
use vedox.AgentAuth.KeyStore.{
  Json, World, issued, not_issued, secret, no_secret, KeyError, keychain_unavailable, no_entry,
  persist_failed, get_secret, issue_key, revoke_key, lookup_key,
}

module _ (st : SecretStore) (laws : StoreLaws st) (json : Json) where
  -- The key as it is issued.
  abbrev pub new_key : Bytes → ℕ → Bytes → Bytes → Bytes → ApiKey
  new_key id now name project path_prefix = record {
    id = id;
    name = name;
    project = project;
    path_prefix = path_prefix;
    created_at = now;
    revoked = false;
  }

  module _ (id : Bytes) (now : ℕ) (fault : Fault) (name project path_prefix : Bytes) where
    -- What a success tells of the state that is left.
    issued_state :
        (random : Option Bytes) (w : World st) {w' : World st} {i s : Bytes}
        → issue_key st false json random id now fault name project path_prefix w ≡ (w', issued i s)
        → (i ≡ id)
          × (random ≡ some s)
          × ((st.put w.secrets id s).1 ≡ none)
          × (w'.keys ≡ insert bytes_discrete id (new_key id now name project path_prefix) w.keys)
          × (w'.secrets ≡ (st.put w.secrets id s).0)
    unfolding issue_key
    issued_state none w h = cc
    issued_state (some s) w h = ground arith

    -- After a success the key is in memory, its secret can be read, and no other key or secret
    -- has changed.
    pub issued_key_is_usable :
        (random : Option Bytes) (w : World st) (j : Bytes) {w' : World st} {i s : Bytes}
        → issue_key st false json random id now fault name project path_prefix w ≡ (w', issued i s)
        → id ≢ j
        → (i ≡ id)
          × (random ≡ some s)
          × (lookup_key st false json w' id ≡ some (new_key id now name project path_prefix))
          × (get_secret st false json w' id ≡ secret s)
          × (lookup_key st false json w' j ≡ lookup_key st false json w j)
          × (get_secret st false json w' j ≡ get_secret st false json w j)
    unfolding lookup_key get_secret
    issued_key_is_usable random w j {s = s} h ne =
        let key = new_key id now name project path_prefix in
        let (same, given, stored, keys, secrets) = issued_state random w h in
        (
          same,
          given,
          rw (keys, lookup-insert bytes_discrete id id key w.keys)
              (if_pos (bytes_discrete id id) refl _ _),
          rw (secrets, laws.get-put_self w.secrets id s stored, get_secret) refl,
          rw (keys, lookup-insert bytes_discrete id j key w.keys)
              (if_neg (bytes_discrete id j) ne _ _),
          rw (secrets, laws.get-put_ne w.secrets id j s ne, get_secret) refl,
        )

    -- The store with the new key, as it is written.
    abbrev with_key : World st → World st
    with_key w = record w {
      keys = insert bytes_discrete id (new_key id now name project path_prefix) w.keys;
    }

    abbrev new_file : World st → Option Bytes
    new_file w = json.marshal (sort_by_created (values (with_key w).keys))

    put_refused :
        (s : Bytes) (w : World st) {e : StoreError}
        → (st.put w.secrets id s).1 ≡ some e
        → issue_key st false json (some s) id now fault name project path_prefix w
          ≡ (record w { secrets = (st.put w.secrets id s).0 }, not_issued keychain_unavailable)
    unfolding issue_key
    put_refused s w h = ground arith

    write_refused :
        (s : Bytes) (w : World st) {e : WriteError}
        → (st.put w.secrets id s).1 ≡ none
        → (write_file (new_file w) fault w.disk).1 ≡ some e
        → issue_key st false json (some s) id now fault name project path_prefix w ≡ (
          record {
            keys = delete bytes_discrete id (with_key w).keys;
            secrets = (st.delete (st.put w.secrets id s).0 id).0;
            disk = (write_file (new_file w) fault w.disk).0;
          },
          not_issued persist_failed,
        )
    unfolding issue_key
    write_refused s w h k = ground arith

    written :
        (s : Bytes) (w : World st)
        → (st.put w.secrets id s).1 ≡ none
        → (write_file (new_file w) fault w.disk).1 ≡ none
        → (issue_key st false json (some s) id now fault name project path_prefix w).1 ≡ issued id s
    unfolding issue_key
    written s w h k = ground arith

    undone :
        (w : World st) (j : Bytes)
        → lookup bytes_discrete id w.keys ≡ none
        → lookup bytes_discrete j (delete bytes_discrete id (with_key w).keys)
          ≡ lookup bytes_discrete j w.keys
    undone w j fresh = ground (
      arith,
      lookup-delete bytes_discrete id j (with_key w).keys,
      lookup-insert bytes_discrete id j (new_key id now name project path_prefix) w.keys,
    )

    -- An issue that fails at any step leaves the keys in memory and the metadata file as they
    -- were: there is no entry without a secret. The UUID is a new one.
    pub not_issued_leaves_keys :
        (random : Option Bytes) (w : World st) (e : KeyError) (j : Bytes)
        → lookup bytes_discrete id w.keys ≡ none
        → w.disk.temp ≡ none
        → (issue_key st false json random id now fault name project path_prefix w).1 ≡ not_issued e
        → let w' = (issue_key st false json random id now fault name project path_prefix w).0 in
          (lookup_key st false json w' j ≡ lookup_key st false json w j)
          × (w'.disk.file ≡ w.disk.file)
    unfolding lookup_key
    not_issued_leaves_keys none w e j fresh clean h = unfold issue_key in (refl, refl)
    not_issued_leaves_keys (some s) w e j fresh clean h =
        elim (Option-cases (st.put w.secrets id s).1) [
          | inr (e', refused) ↦ rw (put_refused s w refused) (refl, refl)
          | inl stored ↦ elim (Option-cases (write_file (new_file w) fault w.disk).1) [
            | inl done ↦ let e' = written s w stored done in cc
            | inr (e', failure) ↦
                rw (write_refused s w stored failure)
                  (undone w j fresh, write_error_keeps (new_file w) fault w.disk e' clean failure)
          ]
        ]

  -- A revocation that returns no error leaves the key revoked, and other keys as they were.
  revoked_key_stays_revoked :
      (fault : Fault) (id : Bytes) (w : World st) (j : Bytes)
      → (revoke_key st false json fault id w).1 ≡ none
      → id ≢ j
      → let w' = (revoke_key st false json fault id w).0 in
        ((key : ApiKey) × (lookup_key st false json w' id ≡ some key) × (key.revoked ≡ true))
        × (lookup_key st false json w' j ≡ lookup_key st false json w j)
  unfolding revoke_key lookup_key
  revoked_key_stays_revoked fault id w j h ne =
      elim (Option-cases (lookup bytes_discrete id w.keys)) [
        | inl e ↦ absurd (ground (arith, e))
        | inr (key, e) ↦
            let key' : ApiKey = record key { revoked = true } in
            let self = lookup-insert bytes_discrete id id key' w.keys in
            let other = lookup-insert bytes_discrete id j key' w.keys in
            elim (Bool-cases key.revoked) [
              | inl r ↦ ((key, ground (arith, e, r), r), ground (arith, e, r))
              | inr r ↦ ((key', ground (arith, e, r, self), refl), ground (arith, e, r, other))
            ]
      ]

  -- The secret of a key that is revoked without an error is gone from the backend.
  pub revoked_secret_is_gone :
      (fault : Fault) (id : Bytes) (w : World st) (key : ApiKey)
      → lookup_key st false json w id ≡ some key
      → key.revoked ≡ false
      → (revoke_key st false json fault id w).1 ≡ none
      → get_secret st false json (revoke_key st false json fault id w).0 id ≡ no_secret no_entry
  unfolding revoke_key lookup_key get_secret
  revoked_secret_is_gone fault id w key e r h =
      ground (arith, laws.get-delete_self w.secrets id, laws.delete_missing w.secrets id)

  -- Where the backend cannot be reached the key stays as it was, in memory and on disk.
  unreachable_backend_keeps_key :
      (fault : Fault) (id : Bytes) (w : World st)
      → (revoke_key st false json fault id w).1 ≡ some keychain_unavailable
      → ((revoke_key st false json fault id w).0.keys ≡ w.keys)
        × ((revoke_key st false json fault id w).0.disk ≡ w.disk)
  unfolding revoke_key
  unreachable_backend_keeps_key fault id w h = ground arith

-- With `ks.store` nil, the revocation of an active key that has no entry in the keychain is
-- refused with VDX-302, and the key stays active: go-keyring's "not found" is not recognised.
legacy_missing_entry_blocks_revocation :
    (st : SecretStore) (json : Json) (fault : Fault) (id : Bytes) (w : World st) (key : ApiKey)
    → lookup_key st true json w id ≡ some key
    → key.revoked ≡ false
    → (st.delete w.secrets id).1 ≡ some keyring_not_found
    → let r = revoke_key st true json fault id w in
      (r.1 ≡ some keychain_unavailable) × (lookup_key st true json r.0 id ≡ some key)
unfolding revoke_key lookup_key
legacy_missing_entry_blocks_revocation st json fault id w key e r missing = ground arith
