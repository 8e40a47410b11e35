-- ===== src/AgentAuth/Requests.antt =====
-- Requests to a small workspace with one key, and the theorems at them.
use vedox.Base.{
  ℕ, ◌+◌, ◌-◌, ◌*◌, ◌≡◌, refl, ◌≢◌, ◌↔◌, Bytes, bytes, bytes_discrete, true, false, none, some, [],
  ◌∷◌, ◌++◌, arith, ltb, starts_with, ℕ_discrete, ◌%◌, ◌/◌, ◌<◌, ap, take, drop, length, Option,
  if◌then◌else◌, ◌==◌,
}
use vedox.Base.Int.{ℤ, pos, negsuc}
use vedox.Base.Dict.{lookup}
use vedox.Secrets.InMemory.{in_memory, get_in_memory}
use vedox.AgentAuth.Lru.{Lru, list_lru, peek_list, drop_key}
use vedox.AgentAuth.Nonce.{NonceKey, NonceEntry, nonce_key_discrete, minute, check_and_record}
use vedox.AgentAuth.RateLimit.{RateLib, allow}
use vedox.AgentAuth.Signing.{Externals, build_signed_string, secure_equal, validate_timestamp}
use vedox.AgentAuth.KeyStore.Order.{ApiKey}
use vedox.AgentAuth.KeyStore.{Json, World, get_secret, lookup_key}
use vedox.AgentAuth.Middleware.{
  Request, Response, served, Clock, stream, Shared, read_body, check_signature, in_scope,
  authenticate, admit, serve, serve_each,
}
use vedox.AgentAuth.Middleware.Replays.{replay_is_not_served}
use vedox.AgentAuth.Jwt.{
  JwtClaims, JwtLib, JwtHeader, second, Result, ok, err, claims_for, mint_jwt, verify_jwt,
}
use vedox.AgentAuth.Jwt.Verified.{IsValidToken, verify_jwt_iff}
use vedox.AgentAuth.Jwt.RoundTrip.{CodecLaws, Lacks, verify-mint}

-- The computing definitions of a request.
code : Unit {0}
unfolding bytes_discrete starts_with lookup get_in_memory peek_list drop_key check_and_record allow
    build_signed_string secure_equal validate_timestamp get_secret lookup_key read_body
    check_signature in_scope authenticate admit serve serve_each ℕ_discrete nonce_key_discrete
code = tt

abbrev ext : Externals
ext = record {
  sha256_hex = λ b. b;
  hmac_hex = λ s t. s ++ t;
  parse_rfc3339 = λ ts. elim ts [ [] ↦ none | ◌∷◌ c _ ↦ some c ];
}

abbrev counted : RateLib
counted = record { Limiter = ℕ; new_limiter = 200; allow_now = λ l now. (l - 1, ltb 0 l) }

abbrev buckets : Lru Bytes ℕ bytes_discrete
buckets = list_lru bytes_discrete 999

abbrev nonces : Lru NonceKey NonceEntry nonce_key_discrete
nonces = list_lru nonce_key_discrete 9_999

abbrev json : Json
json = record { marshal = λ keys. some (bytes "[]"); unmarshal = λ text. some [] }

abbrev api_key : ApiKey
api_key = record {
  id = bytes "k";
  name = bytes "agent";
  project = [];
  path_prefix = [];
  created_at = 1;
  revoked = false;
}

abbrev workspace : World in_memory
workspace = record {
  keys = (bytes "k", api_key) ∷ [];
  secrets = (bytes "k", bytes "s") ∷ [];
  disk = record { dir_made = true; temp = none; file = none };
}

-- The timestamp is that of minute 10.
abbrev stamp : Bytes
stamp = (10 * minute) ∷ []

abbrev request : Request
request = record {
  method = bytes "GET";
  path = bytes "/d";
  key_id = bytes "k";
  timestamp = stamp;
  signature =
      bytes "s" ++ (bytes "GET" ++ (10 ∷ (bytes "/d" ++ (10 ∷ (stamp ++ (10 ∷ bytes "x"))))));
  body = stream (bytes "x");
  url_project = [];
}

abbrev forged : Request
forged = record request { signature = bytes "s" }

abbrev at : ℕ → Clock
at t = record { validated = t; limited = t; nonced = t }

abbrev start : Shared counted buckets nonces
start = record { limiters = []; nonces = [] }

abbrev run :
    Clock → Request → Shared counted buckets nonces → Shared counted buckets nonces × Response
run = serve in_memory false json ext counted buckets nonces workspace

replay_example :
    (run (at (6 * minute)) request (
      serve_each in_memory false json ext counted buckets nonces workspace
        ((at (5 * minute + 1), forged) ∷ [])
        (run (at (5 * minute)) request start).0)).1
    ≢ served (bytes "x")
unfolding code
replay_example =
    replay_is_not_served in_memory false json ext counted buckets nonces workspace (at (5 * minute))
      (at (6 * minute)) request request start (bytes "x") (bytes "x")
      ((at (5 * minute + 1), forged) ∷ []) refl refl refl refl (omega arith) (omega arith)
      (omega arith)

-- A codec that satisfies the laws: each byte is moved past the dot and the equals sign.
abbrev shift_up : Bytes → Bytes
shift_up [] = []
shift_up (c ∷ s) = (c + 62) ∷ shift_up s

abbrev shift_down : Bytes → Bytes
shift_down [] = []
shift_down (c ∷ s) = (c - 62) ∷ shift_down s

abbrev marshal_int : ℤ → ℕ
marshal_int (pos n) = 2 * n
marshal_int (negsuc n) = 2 * n + 1

abbrev unmarshal_int : ℕ → ℤ
unmarshal_int n = if n % 2 == 0 then pos (n / 2) else negsuc (n / 2)

abbrev unmarshal_pair : Bytes → Option JwtHeader
unmarshal_pair [] = none
unmarshal_pair (n ∷ s) = some (record { alg = take n s; typ = drop n s })

abbrev unmarshal_triple : Bytes → Option JwtClaims
unmarshal_triple (i ∷ e ∷ s) =
    some (record { key_id = s; issued_at = unmarshal_int i; expires_at = unmarshal_int e })
unmarshal_triple _ = none

abbrev lib : JwtLib
lib = record {
  encode = shift_up;
  decode = λ s. some (shift_down s);
  marshal_header = λ h. length h.alg ∷ (h.alg ++ h.typ);
  unmarshal_header = unmarshal_pair;
  marshal_claims = λ c. marshal_int c.issued_at ∷ marshal_int c.expires_at ∷ c.key_id;
  unmarshal_claims = unmarshal_triple;
  hmac_sha256 = λ s t. s ++ t;
}

shift_round_trip : (s : Bytes) → shift_down (shift_up s) ≡ s
shift_round_trip [] = refl
shift_round_trip (c ∷ s) = let e : c + 62 - 62 ≡ c = omega arith in cc (shift_round_trip s)

Lacks-shift_up : (b : ℕ) (s : Bytes) → b < 62 → Lacks b (shift_up s)
Lacks-shift_up b [] h = tt
Lacks-shift_up b (c ∷ s) h = (omega arith, Lacks-shift_up b s h)

int_round_trip : (z : ℤ) → unmarshal_int (marshal_int z) ≡ z
int_round_trip (pos n) = ground arith
int_round_trip (negsuc n) = ground arith

take-length_append : (s t : Bytes) → take (length s) (s ++ t) ≡ s
take-length_append [] t = refl
take-length_append (c ∷ s) t = ap (◌∷◌ c) (take-length_append s t)

drop-length_append : (s t : Bytes) → drop (length s) (s ++ t) ≡ t
drop-length_append [] t = refl
drop-length_append (c ∷ s) t = drop-length_append s t

lib-CodecLaws : CodecLaws lib
lib-CodecLaws = record {
  decode-encode = λ b. ap some (shift_round_trip b);
  encode-Lacks_dot = λ b. Lacks-shift_up 46 b (omega arith);
  encode-Lacks_equals = λ b. Lacks-shift_up 61 b (omega arith);
  header_round_trip = λ h a t. cc (take-length_append h.alg h.typ, drop-length_append h.alg h.typ);
  claims_round_trip = λ c a i e. cc (int_round_trip c.issued_at, int_round_trip c.expires_at);
}

abbrev token_of : Result Bytes → Bytes
token_of (ok token) = token
token_of (err e) = []

abbrev token_at_5 : Bytes
token_at_5 = token_of (mint_jwt lib (bytes "s") (bytes "k") (pos (2 * second)) (5 * second))

verify_jwt_iff_example :
    (verify_jwt lib (bytes "s") token_at_5 (6 * second)
      ≡ ok (claims_for lib (bytes "k") (5 * second) (2 * second)))
    ↔ IsValidToken lib
        (bytes "s")
        token_at_5
        (6 * second)
        (claims_for lib (bytes "k") (5 * second) (2 * second))
verify_jwt_iff_example =
    verify_jwt_iff lib (bytes "s") token_at_5 (6 * second)
      (claims_for lib (bytes "k") (5 * second) (2 * second))

verify-mint_example :
    verify_jwt lib (bytes "s") token_at_5 (6 * second)
    ≡ ok (claims_for lib (bytes "k") (5 * second) (2 * second))
unfolding mint_jwt
verify-mint_example =
    verify-mint lib lib-CodecLaws (bytes "s") (bytes "k") token_at_5 (2 * second) (5 * second)
      (6 * second) refl refl (omega arith) (omega arith)
