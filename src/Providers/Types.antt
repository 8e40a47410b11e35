-- ===== src/Providers/Types.antt =====
-- providers.go: file operations, receipts and what an installer reports.
use vedox.Base.{ℕ, ◌≡◌, refl, ◌⊎◌, inl, inr, Bool, Option, List}
use vedox.Base.Text.{Text}
use vedox.Base.Dict.{Dict}
use vedox.AtomicFile.{Step, Fault}

-- `OpMode` is a string; `other` is any but the three constants.
pub data OpMode : Type 0 where
  create update delete : OpMode
  other : Text → OpMode

pub record FileOp : Type 0 where
  pub path : Text
  pub action : OpMode
  pub content : Text
  pub boundary : Text

pub record InstallReceipt : Type 0 where
  pub provider : Text
  pub version : Text
  pub schema_hash : Text
  pub auth_key_id : Text
  pub daemon_url : Text
  pub file_hashes : Dict Text Text
  pub installed_at : ℕ

pub data Issue : Type 0 where
  file_missing file_modified : Text → Issue

pub record VerifyResult : Type 0 where
  pub healthy : Bool
  pub drift : Bool
  pub issues : List Issue

-- The errors, by the call that they come from.
pub data ProviderError : Type 0 where
  escapes_boundary : ProviderError
  symlink_rejected lstat_failed : Text → ProviderError
  step_failed : Step → ProviderError
  read_failed remove_failed : Text → ProviderError
  unknown_action : Text → ProviderError
  encode_failed decode_failed issue_failed revoke_failed no_store : ProviderError

pub data Result {ℓ} (A : Type ℓ) : Type ℓ where
  ok : A → Result A
  failed : ProviderError → Result A

-- What `os.Lstat` answers.
pub data Look : Type 0 where
  absent symlink plain unknown : Look

-- What an operation meets on the machine, by path: the answers of `Lstat` before and after
-- `MkdirAll`, the call of a write that fails, and whether a read or a removal fails for another
-- reason than that there is no file; and the instant.
pub record Host : Type 0 where
  pub seen : Text → Look
  pub seen_again : Text → Look
  pub fault : Text → Fault
  pub unreadable : Text → Bool
  pub undeletable : Text → Bool
  pub now : ℕ

-- The contents of the files, by path.
abbrev pub Files : Type 0
Files = Dict Text Text

-- `KeyIssuer`, an interface that agentauth.KeyStore implements. `issue` is given the name, the
-- project and the path prefix, and returns the id, or nothing where it fails; `revoke` whether
-- it succeeds.
pub record KeyIssuer : Type 1 where
  pub State : Type 0
  pub issue : Text → Text → Text → State → State × Option Text
  pub revoke : Text → State → State × Bool

-- What the installers do to the machine.
pub record World (keys : KeyIssuer) : Type 0 where
  pub files : Files
  pub issued : keys.State

pub Result-cases {ℓ} :
    {A : Type ℓ} (r : Result A) → ((e : ProviderError) × (r ≡ failed e)) ⊎ ((a : A) × (r ≡ ok a))
Result-cases (ok a) = inr (a, refl)
Result-cases (failed e) = inl (e, refl)
