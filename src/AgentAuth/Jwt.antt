-- ===== src/AgentAuth/Jwt.antt =====
-- jwt.go: the tokens of the Copilot path, minted and verified with one algorithm.
pub mod Verified
pub mod RoundTrip
use vedox.Base.{
  ℕ, zero, suc, ◌+◌, ◌/◌, Bytes, bytes, bytes_eq, Bool, true, false, not, ◌&&◌, if◌then◌else◌,
  Option, none, some, List, [], ◌∷◌, ◌++◌, is_empty, ◌==◌, ite, ℕ_discrete,
}
use vedox.Base.Int.{ℤ, pos, negsuc, is_nonpos, is_zero, reaches}
use vedox.Secrets.{SecretStore}
use vedox.AgentAuth.KeyStore.{
  Json, World, KeyError, Secret, secret, no_secret, get_secret, lookup_key,
}

pub record JwtClaims : Type 0 where
  pub key_id : Bytes
  pub issued_at : ℤ
  pub expires_at : ℤ

pub record JwtHeader : Type 0 where
  pub alg : Bytes
  pub typ : Bytes

-- encoding/base64 (`RawURLEncoding`), encoding/json on the two records, and HMAC-SHA256.
pub record JwtLib : Type 0 where
  pub encode : Bytes → Bytes
  pub decode : Bytes → Option Bytes
  pub marshal_header : JwtHeader → Bytes
  pub unmarshal_header : Bytes → Option JwtHeader
  pub marshal_claims : JwtClaims → Bytes
  pub unmarshal_claims : Bytes → Option JwtClaims
  pub hmac_sha256 : Bytes → Bytes → Bytes

abbrev pub jwt_alg : Bytes
jwt_alg = bytes "HS256"

abbrev pub jwt_typ : Bytes
jwt_typ = bytes "JWT"

abbrev pub dot : ℕ
dot = 46

abbrev pub equals_sign : ℕ
equals_sign = 61

abbrev pub second : ℕ
second = 1_000_000_000

pub data JwtError : Type 0 where
  empty_secret empty_key_id nonpositive_lifetime malformed bad_header unsupported_alg : JwtError
  unsupported_typ bad_signature_encoding signature_mismatch bad_claims missing_kid : JwtError
  missing_exp token_expired no_key_entry key_revoked : JwtError
  no_jwt_secret : KeyError → JwtError

pub data Result (A : Type 0) : Type 0 where
  ok : A → Result A
  err : JwtError → Result A

-- `strings.Split(s, ".")`, which is never empty.
unfoldable pub split_dots : Bytes → Bytes → List Bytes
split_dots part [] = part ∷ []
split_dots part (c ∷ s) =
    let here = part ∷ split_dots [] s in
    let on = split_dots (part ++ c ∷ []) s in ite (ℕ_discrete c dot) here on

-- `strings.TrimRight(s, "=")`
unfoldable pub trim_equals : Bytes → Bytes
trim_equals [] = []
trim_equals (c ∷ s) =
    let rest = trim_equals s in if is_empty rest && (c == equals_sign) then [] else c ∷ rest

-- The tests on the decoded claims.
unfoldable pub accept_claims : JwtClaims → ℕ → Result JwtClaims
accept_claims claims now =
    if is_empty claims.key_id
    then err missing_kid
    else if is_zero claims.expires_at
    then err missing_exp
    else if reaches (now / second) claims.expires_at
    then err token_expired
    else ok claims

module _ (lib : JwtLib) where
  -- `jwtB64Decode`
  unfoldable pub jwt_decode : Bytes → Option Bytes
  jwt_decode s = lib.decode (trim_equals s)

  -- The text that is signed for a header and claims.
  unfoldable pub signing_input : JwtHeader → JwtClaims → Bytes
  signing_input h c = lib.encode (lib.marshal_header h) ++ (dot ∷ lib.encode (lib.marshal_claims c))

  unfoldable pub claims_for : Bytes → ℕ → ℕ → JwtClaims
  claims_for key_id now lifetime = record {
    key_id = key_id;
    issued_at = pos (now / second);
    expires_at = pos ((now + lifetime) / second);
  }

  -- `MintJWT`; the marshalling of the two fixed records does not fail.
  unfoldable pub mint_jwt : Bytes → Bytes → ℤ → ℕ → Result Bytes
  unfolding signing_input claims_for
  mint_jwt [] key_id lifetime now = err empty_secret
  mint_jwt (b ∷ shared) [] lifetime now = err empty_key_id
  mint_jwt (b ∷ shared) (c ∷ key_id) (negsuc n) now = err nonpositive_lifetime
  mint_jwt (b ∷ shared) (c ∷ key_id) (pos zero) now = err nonpositive_lifetime
  mint_jwt (b ∷ shared) (c ∷ key_id) (pos (suc n)) now =
      let input =
        signing_input (record { alg = jwt_alg; typ = jwt_typ })
          (claims_for (c ∷ key_id) now (suc n)) in
      ok (input ++ (dot ∷ lib.encode (lib.hmac_sha256 (b ∷ shared) input)))

  -- Step 4 of `VerifyJWT`.
  unfoldable pub check_claims : Bytes → ℕ → Result JwtClaims
  unfolding jwt_decode
  check_claims payload now = elim (jwt_decode payload) [
    | none ↦ err bad_claims
    | some claims_json ↦ elim (lib.unmarshal_claims claims_json) [
      | none ↦ err bad_claims
      | some claims ↦ accept_claims claims now
    ]
  ]

  -- Step 3, and then the claims.
  unfoldable pub check_signed : Bytes → Bytes → Bytes → Bytes → ℕ → Result JwtClaims
  unfolding jwt_decode
  check_signed shared header payload sig now = elim (jwt_decode sig) [
    | none ↦ err bad_signature_encoding
    | some provided ↦
        if not (bytes_eq (lib.hmac_sha256 shared (header ++ (dot ∷ payload))) provided)
        then err signature_mismatch
        else check_claims payload now
  ]

  -- Step 2: the algorithm is pinned.
  unfoldable pub check_parts : Bytes → Bytes → Bytes → Bytes → ℕ → Result JwtClaims
  unfolding jwt_decode
  check_parts shared header payload sig now = elim (jwt_decode header) [
    | none ↦ err bad_header
    | some header_json ↦ elim (lib.unmarshal_header header_json) [
      | none ↦ err bad_header
      | some hdr ↦
          if not (bytes_eq hdr.alg jwt_alg)
          then err unsupported_alg
          else if not (is_empty hdr.typ) && not (bytes_eq hdr.typ jwt_typ)
          then err unsupported_typ
          else check_signed shared header payload sig now
    ]
  ]

  abbrev pub with_three : (Bytes → Bytes → Bytes → Result JwtClaims) → List Bytes → Result JwtClaims
  with_three f (a ∷ b ∷ c ∷ []) = f a b c
  with_three f _ = err malformed

  -- `VerifyJWT` at the instant `now`.
  unfoldable pub verify_jwt : Bytes → Bytes → ℕ → Result JwtClaims
  verify_jwt shared token now =
      if is_empty shared
      then err empty_secret
      else with_three (λ a b c. check_parts shared a b c now) (split_dots [] token)

  -- `SignJWTForKey`.
  unfoldable pub sign_jwt_for_key :
      (st : SecretStore) → Bool → Json → World st → Bytes → ℤ → ℕ → Result Bytes
  sign_jwt_for_key st legacy json w key_id lifetime now =
      elim (lookup_key st legacy json w key_id) [
        | none ↦ err no_key_entry
        | some key ↦
            if key.revoked then err key_revoked else (elim (get_secret st legacy json w key_id) [
              | no_secret e ↦ err (no_jwt_secret e)
              | secret s ↦ mint_jwt s key_id lifetime now
            ])
      ]
