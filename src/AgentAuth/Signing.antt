-- ===== src/AgentAuth/Signing.antt =====
-- hmac.go: the string that is signed, the comparison of signatures, the age of a timestamp.
pub mod Injective
use vedox.Base.{
  ℕ, ◌+◌, ◌-◌, ◌*◌, Bytes, bytes, bytes_eq, Bool, true, false, ltb, if◌then◌else◌, Option, none,
  some, List, [], ◌∷◌, ◌++◌, is_empty,
}
use vedox.AgentAuth.Nonce.{minute}

abbrev pub clock_skew_tolerance : ℕ
clock_skew_tolerance = 5 * minute

-- What the package takes from crypto/sha256, crypto/hmac, encoding/hex and time: the hex digest of
-- a body, hex(HMAC-SHA256(secret, text)), and `time.Parse(time.RFC3339, s)` as an instant.
pub record Externals : Type 0 where
  pub sha256_hex : Bytes → Bytes
  pub hmac_hex : Bytes → Bytes → Bytes
  pub parse_rfc3339 : Bytes → Option ℕ

abbrev pub newline : ℕ
newline = 10

unfoldable pub build_signed_string : Bytes → Bytes → Bytes → Bytes → Bytes
build_signed_string method path timestamp body_hash_hex =
    method ++ (newline ∷ (path ++ (newline ∷ (timestamp ++ (newline ∷ body_hash_hex)))))

-- `hmac.Equal`, which takes the same time at any difference.
unfoldable pub secure_equal : Bytes → Bytes → Bool
secure_equal a b = bytes_eq a b

pub data TimestampError : Type 0 where
  missing_timestamp invalid_format outside_tolerance : TimestampError

-- `ValidateTimestamp` at the instant `now`; `none` is the nil error.
unfoldable pub validate_timestamp : Externals → ℕ → Bytes → Option TimestampError
validate_timestamp ext now ts =
    if is_empty ts then some missing_timestamp else (elim (ext.parse_rfc3339 ts) [
      | none ↦ some invalid_format
      | some t ↦
          let delta = if ltb now t then t - now else now - t in
          if ltb clock_skew_tolerance delta then some outside_tolerance else none
    ])
