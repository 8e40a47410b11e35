-- ===== src/AgentAuth/KeyStore.antt =====
-- agentauth.go: the agent API keys, their metadata file and their secrets.
pub mod Order
pub mod Metadata
pub mod Lifecycle
use mathlib.Core.List.{foldl}
use vedox.Base.{
  ℕ, Bytes, bytes_discrete, Bool, true, false, if◌then◌else◌, Option, none, some, List, [], ◌∷◌,
}
use vedox.Base.Dict.{Dict, values, lookup, insert, delete}
use vedox.Secrets.{
  SecretStore, StoreError, not_found, keyring_not_found, unavailable, Read, found, failed,
}
use Order.{ApiKey, sort_by_created}
use Metadata.{write_file}
use vedox.AtomicFile.{Disk, Fault, WriteError}

-- encoding/json, as `writeLocked` and `LoadKeyStore` use it.
pub record Json : Type 0 where
  pub marshal : List ApiKey → Option Bytes
  pub unmarshal : Bytes → Option (List ApiKey)

pub data KeyError : Type 0 where
  -- VDX-302.
  keychain_unavailable : KeyError
  no_entry unknown_key rand_failed persist_failed read_failed parse_failed : KeyError

abbrev pub Keys : Type 0
Keys = Dict Bytes ApiKey

-- The store in memory, the secret backend and the folder on disk.
pub record World (st : SecretStore) : Type 0 where
  pub keys : Keys
  pub secrets : st.State
  pub disk : Disk

-- `secrets.IsNotFound`, which does not know go-keyring's own error.
abbrev pub is_not_found : StoreError → Bool
is_not_found not_found = true
is_not_found _ = false

abbrev pub is_keyring_not_found : StoreError → Bool
is_keyring_not_found keyring_not_found = true
is_keyring_not_found _ = false

pub data Secret : Type 0 where
  secret : Bytes → Secret
  no_secret : KeyError → Secret

-- The id and the plaintext secret, or the error.
pub data Issued : Type 0 where
  issued : Bytes → Bytes → Issued
  not_issued : KeyError → Issued

-- `legacy` says that `ks.store` is nil, and that `st` is go-keyring.
module _ (st : SecretStore) (legacy : Bool) (json : Json) where
  unfoldable pub get_secret : World st → Bytes → Secret
  get_secret w id = elim (st.get w.secrets id) [
    | found s ↦ secret s
    | failed e ↦
        if (if legacy then is_keyring_not_found e else is_not_found e)
        then no_secret no_entry
        else no_secret keychain_unavailable
  ]

  unfoldable pub set_secret : World st → Bytes → Bytes → World st × Option KeyError
  set_secret w id s =
      let (secrets', err) = st.put w.secrets id s in
      (
        record w { secrets = secrets' },
        elim err [ none ↦ none | some _ ↦ some keychain_unavailable ],
      )

  unfoldable pub delete_secret : World st → Bytes → World st × Option StoreError
  delete_secret w id =
      let (secrets', err) = st.delete w.secrets id in (record w { secrets = secrets' }, err)

  -- `writeLocked`, where the map is walked in the order of the list.
  unfoldable pub write_locked : Fault → World st → World st × Option WriteError
  write_locked fault w =
      let (disk', err) = write_file (json.marshal (sort_by_created (values w.keys))) fault w.disk in
      (record w { disk = disk' }, err)

  -- `IssueKey`. What the machine supplies is an argument: the random secret in hex (`none` where
  -- `rand.Read` fails), the new UUID, the instant, and what befalls the write.
  unfoldable pub issue_key :
      Option Bytes
      → Bytes
      → ℕ
      → Fault
      → (name project path_prefix : Bytes) → World st
      → World st × Issued
  unfolding set_secret delete_secret write_locked
  issue_key random id now fault name project path_prefix w = elim random [
    | none ↦ (w, not_issued rand_failed)
    | some s ↦
        let key : ApiKey = record {
          id = id;
          name = name;
          project = project;
          path_prefix = path_prefix;
          created_at = now;
          revoked = false;
        } in
        let (w1, err) = set_secret w id s in
        elim err [
          | some e ↦ (w1, not_issued e)
          | none ↦
              let w2 = record w1 { keys = insert bytes_discrete id key w1.keys } in
              let (w3, write_err) = write_locked fault w2 in
              elim write_err [
                | none ↦ (w3, issued id s)
                | some _ ↦
                    let w4 = (delete_secret w3 id).0 in
                    (
                      record w4 { keys = delete bytes_discrete id w4.keys },
                      not_issued persist_failed,
                    )
              ]
        ]
  ]

  -- `RevokeKey`; `none` is the nil error.
  unfoldable pub revoke_key : Fault → Bytes → World st → World st × Option KeyError
  unfolding delete_secret write_locked
  revoke_key fault id w = elim (lookup bytes_discrete id w.keys) [
    | none ↦ (w, some unknown_key)
    | some key ↦
        let (w1, err) = delete_secret w id in
        let w2 = record w1 {
          keys = insert bytes_discrete id (record key { revoked = true }) w1.keys;
        } in
        let (w3, write_err) = write_locked fault w2 in
        let written : World st × Option KeyError =
          (w3, elim write_err [ none ↦ none | some _ ↦ some persist_failed ]) in
        if key.revoked then (w, none) else (elim err [
          | none ↦ written
          | some e ↦ if is_not_found e then written else (w1, some keychain_unavailable)
        ])
  ]

  -- `ListKeys`.
  unfoldable pub list_keys : World st → List ApiKey
  list_keys w = sort_by_created (values w.keys)

  -- `Lookup`.
  unfoldable pub lookup_key : World st → Bytes → Option ApiKey
  lookup_key w id = lookup bytes_discrete id w.keys
