-- ===== src/AgentAuth/Tests.antt =====
-- A small workspace with one key, and the theorems at its requests.
use vedox.Base.{
  ℕ, ◌-◌, ◌≡◌, refl, ◌⊎◌, inl, Bytes, bytes, bytes_discrete, ne_of_bytes_eq, true, false, Option,
  none, some, [], ◌∷◌, ◌++◌, arith, ltb, starts_with, ℕ_discrete,
}
use vedox.Base.Dict.{lookup, insert, delete}
use vedox.Secrets.{keyring_not_found, SecretStore, failed}
use vedox.Secrets.InMemory.{
  in_memory, in_memory-StoreLaws, get_in_memory, put_in_memory, delete_in_memory,
}
use vedox.AgentAuth.Lru.{Lru, list_lru, peek_list, drop_key}
use vedox.AgentAuth.Nonce.{NonceKey, NonceEntry, nonce_key_discrete, check_and_record, check_all}
use vedox.AgentAuth.RateLimit.{RateLib, allow, allow_all}
use vedox.AgentAuth.RateLimit.Quota.{Bucket, own_calls, quota_is_own}
use vedox.AgentAuth.Signing.{Externals, build_signed_string, secure_equal, validate_timestamp}
use vedox.AgentAuth.Signing.Injective.{build_signed_string_injective}
use vedox.AgentAuth.KeyStore.Order.{ApiKey, sink, sort_from, sort_by_created}
use vedox.AtomicFile.{Disk, Fault, write, perform, crash_at, run_steps}
use vedox.AgentAuth.KeyStore.Metadata.{protocol, write_file}
use vedox.AgentAuth.KeyStore.Metadata.Atomic.{
  AllOrNothing, write_file-AllOrNothing, crash_leaves_whole_file,
}
use vedox.AgentAuth.KeyStore.{
  Json, World, persist_failed, secret, get_secret, Issued, KeyError, no_secret, no_entry, issue_key,
  revoke_key, lookup_key, set_secret, delete_secret, write_locked,
}
use vedox.AgentAuth.KeyStore.Lifecycle
use vedox.AgentAuth.Middleware.{
  read_body, check_signature, in_scope, authenticate, admit, serve, serve_each,
}

-- The computing definitions of the package.
code : Unit {0}
unfolding bytes_discrete starts_with lookup insert delete get_in_memory put_in_memory
    delete_in_memory peek_list drop_key check_and_record check_all allow allow_all
    build_signed_string secure_equal validate_timestamp sink sort_from sort_by_created perform
    crash_at run_steps write_file get_secret issue_key revoke_key lookup_key set_secret
    delete_secret write_locked read_body check_signature in_scope authenticate admit serve
    serve_each ℕ_discrete nonce_key_discrete
code = tt

abbrev nonces : Lru NonceKey NonceEntry nonce_key_discrete
nonces = list_lru nonce_key_discrete 9_999

abbrev first_key : NonceKey
first_key = record { key_id = bytes "k"; timestamp = bytes "t"; body_hash = bytes "h" }

abbrev other_key : NonceKey
other_key = record { key_id = bytes "k"; timestamp = bytes "u"; body_hash = bytes "h" }

abbrev ext : Externals
ext = record {
  sha256_hex = λ b. b;
  hmac_hex = λ s t. s ++ t;
  parse_rfc3339 = λ ts. elim ts [ [] ↦ none | ◌∷◌ c _ ↦ some c ];
}

abbrev counted : RateLib
counted = record { Limiter = ℕ; new_limiter = 200; allow_now = λ l now. (l - 1, ltb 0 l) }

abbrev buckets : Lru Bytes ℕ bytes_discrete
buckets = list_lru bytes_discrete 999

quota_is_own_example :
    Bucket counted buckets 3
      (bytes "k")
      (own_calls counted buckets (bytes "k") 8 ((1, bytes "j") ∷ (2, bytes "k") ∷ []))
      (allow_all counted buckets ((bytes "k", 8) ∷ []) ((1, bytes "j") ∷ (2, bytes "k") ∷ []))
unfolding code
quota_is_own_example =
    quota_is_own counted buckets ((1, bytes "j") ∷ (2, bytes "k") ∷ []) 1 ((bytes "k", 8) ∷ [])
      (bytes "k") 8 (omega arith) (record { entry = refl; recent = inl refl })

injective_example :
    (bytes "GET" ≡ bytes "GET")
    × (bytes "/a" ≡ bytes "/a")
    × (bytes "1" ≡ bytes "1")
    × (bytes "x" ≡ bytes "x")
injective_example =
    build_signed_string_injective (bytes "GET") (bytes "/a") (bytes "1") (bytes "x") (bytes "GET")
      (bytes "/a") (bytes "1") (bytes "x") (omega arith) (omega arith) refl

abbrev api_key : ApiKey
api_key = record {
  id = bytes "k";
  name = bytes "agent";
  project = [];
  path_prefix = [];
  created_at = 1;
  revoked = false;
}

abbrev later_key : ApiKey
later_key = record api_key { id = bytes "j"; created_at = 2 }

abbrev folder : Disk
folder = record { dir_made = true; temp = none; file = some (bytes "old") }

abbrev full_disk : Fault
full_disk = record { at = some write; written = 1; cleanup_fails = true }

abbrev no_fault : Fault
no_fault = record { at = none; written = 0; cleanup_fails = false }

write_file_example :
    AllOrNothing (bytes "new") full_disk folder (write_file (some (bytes "new")) full_disk folder)
write_file_example = write_file-AllOrNothing (bytes "new") full_disk folder refl

crash_example :
    ((crash_at (bytes "new") 1 7 1 protocol folder).file ≡ some (bytes "old"))
    ⊎ ((crash_at (bytes "new") 1 7 1 protocol folder).file ≡ some (bytes "new"))
crash_example = crash_leaves_whole_file (bytes "new") 1 7 1 folder refl

abbrev json : Json
json = record { marshal = λ keys. some (bytes "[]"); unmarshal = λ text. some [] }

abbrev workspace : World in_memory
workspace = record {
  keys = (bytes "k", api_key) ∷ [];
  secrets = (bytes "k", bytes "s") ∷ [];
  disk = folder;
}

abbrev issue : Fault → World in_memory × Issued
issue fault =
    issue_key in_memory false json (some (bytes "z")) (bytes "n") 9 fault [] [] [] workspace

issued_key_is_usable_example :
    let w = (issue no_fault).0 in
    (bytes "n" ≡ bytes "n")
    × (some (bytes "z") ≡ some (bytes "z"))
    × (lookup_key in_memory false json w (bytes "n")
        ≡ some (Lifecycle.new_key in_memory in_memory-StoreLaws json (bytes "n") 9 [] [] []))
    × (get_secret in_memory false json w (bytes "n") ≡ secret (bytes "z"))
    × (lookup_key in_memory false json w (bytes "k")
        ≡ lookup_key in_memory false json workspace (bytes "k"))
    × (get_secret in_memory false json w (bytes "k")
        ≡ get_secret in_memory false json workspace (bytes "k"))
unfolding code
issued_key_is_usable_example =
    Lifecycle.issued_key_is_usable in_memory in_memory-StoreLaws json (bytes "n") 9 no_fault [] []
      [] (some (bytes "z")) workspace (bytes "k") refl (ne_of_bytes_eq (bytes "n") (bytes "k") refl)

not_issued_example :
    let w = (issue full_disk).0 in
    (lookup_key in_memory false json w (bytes "n")
      ≡ lookup_key in_memory false json workspace (bytes "n"))
    × (w.disk.file ≡ some (bytes "old"))
unfolding code
not_issued_example =
    Lifecycle.not_issued_leaves_keys in_memory in_memory-StoreLaws json (bytes "n") 9 full_disk []
      [] [] (some (bytes "z")) workspace persist_failed (bytes "n") refl refl refl

abbrev revoke : World in_memory × Option KeyError
revoke = revoke_key in_memory false json no_fault (bytes "k") workspace

revoked_secret_example : get_secret in_memory false json revoke.0 (bytes "k") ≡ no_secret no_entry
unfolding code
revoked_secret_example =
    Lifecycle.revoked_secret_is_gone in_memory in_memory-StoreLaws json no_fault (bytes "k")
      workspace api_key refl refl refl

-- A keychain without entries.
abbrev empty_keyring : SecretStore
empty_keyring = record {
  State = Unit {0};
  get = λ s k. failed keyring_not_found;
  put = λ s k v. (tt, none);
  delete = λ s k. (tt, some keyring_not_found);
  list = λ s. some [];
}

abbrev stale_workspace : World empty_keyring
stale_workspace = record { keys = (bytes "k", api_key) ∷ []; secrets = tt; disk = folder }
