-- ===== src/AgentAuth/Jwt/RoundTrip.antt =====
-- What `MintJWT` makes, `VerifyJWT` accepts until it expires.
use Prim.Native.Nat.{◌^◌}
use mathlib.Core.List.{append-nil, append_assoc}
use vedox.Base.{
  ℕ, zero, suc, ◌+◌, ◌/◌, ◌<◌, ◌≡◌, refl, sym, ap, ◌∙◌, ◌≢◌, inr, Bytes, Bool, true, ◌&&◌, some, [],
  ◌∷◌, ◌++◌, ltb, arith, All, if_pos, if_neg, ℕ_discrete,
}
use vedox.Base.Int.{ℤ, pos, negsuc}
use vedox.AgentAuth.Jwt.{
  JwtClaims, JwtHeader, JwtLib, jwt_alg, jwt_typ, dot, equals_sign, second, ok, split_dots,
  trim_equals, jwt_decode, signing_input, claims_for, mint_jwt, verify_jwt,
}
use vedox.AgentAuth.Jwt.Verified.{verify_jwt_complete}

abbrev pub Lacks : ℕ → Bytes → Type 0
Lacks b s = All (λ c. c ≢ b) s

-- Text that encoding/json gives back as it is: valid UTF-8, here ASCII.
abbrev pub is_ascii : Bytes → Bool
is_ascii [] = true
is_ascii (c ∷ s) = ltb c 128 && is_ascii s

-- The numbers that an `int64` holds.
abbrev pub fits_int64 : ℤ → Bool
fits_int64 (pos n) = ltb n (2 ^ 63)
fits_int64 (negsuc n) = ltb n (2 ^ 63)

-- What RFC 4648 and encoding/json promise.
pub record CodecLaws (lib : JwtLib) : Type 0 where
  pub decode-encode : (b : Bytes) → lib.decode (lib.encode b) ≡ some b
  pub encode-Lacks_dot : (b : Bytes) → Lacks dot (lib.encode b)
  pub encode-Lacks_equals : (b : Bytes) → Lacks equals_sign (lib.encode b)
  pub header_round_trip :
      (h : JwtHeader)
      → is_ascii h.alg ≡ true
      → is_ascii h.typ ≡ true
      → lib.unmarshal_header (lib.marshal_header h) ≡ some h
  pub claims_round_trip :
      (c : JwtClaims)
      → is_ascii c.key_id ≡ true
      → fits_int64 c.issued_at ≡ true
      → fits_int64 c.expires_at ≡ true
      → lib.unmarshal_claims (lib.marshal_claims c) ≡ some c

split_dots-part :
    (part s rest : Bytes)
    → Lacks dot s
    → split_dots part (s ++ (dot ∷ rest)) ≡ (part ++ s) ∷ split_dots [] rest
unfolding split_dots
split_dots-part part [] rest h = rw append-nil (if_pos (ℕ_discrete dot dot) refl _ _)
split_dots-part part (c ∷ s) rest h =
    if_neg (ℕ_discrete c dot) h.0 _ _
    ∙ split_dots-part (part ++ c ∷ []) s rest h.1
    ∙ ap (λ (p : Bytes). p ∷ split_dots [] rest) (append_assoc part (c ∷ []) s)

split_dots-last : (part s : Bytes) → Lacks dot s → split_dots part s ≡ (part ++ s) ∷ []
unfolding split_dots
split_dots-last part [] h = rw append-nil
split_dots-last part (c ∷ s) h =
    if_neg (ℕ_discrete c dot) h.0 _ _
    ∙ split_dots-last (part ++ c ∷ []) s h.1
    ∙ ap (λ (p : Bytes). p ∷ []) (append_assoc part (c ∷ []) s)

trim_equals-Lacks : (s : Bytes) → Lacks equals_sign s → trim_equals s ≡ s
unfolding trim_equals
trim_equals-Lacks [] h = refl
trim_equals-Lacks (c ∷ s) h = ground (arith, trim_equals-Lacks s h.1, h.0)

module _ (lib : JwtLib) (laws : CodecLaws lib) where
  jwt_decode-encode : (b : Bytes) → jwt_decode lib (lib.encode b) ≡ some b
  unfolding jwt_decode
  jwt_decode-encode b =
      ap lib.decode (trim_equals-Lacks (lib.encode b) (laws.encode-Lacks_equals b))
      ∙ laws.decode-encode b

  three_parts :
      (a b c : Bytes)
      → Lacks dot a
      → Lacks dot b
      → Lacks dot c
      → split_dots [] ((a ++ (dot ∷ b)) ++ (dot ∷ c)) ≡ a ∷ b ∷ c ∷ []
  three_parts a b c ha hb hc =
      ap (split_dots []) (append_assoc a (dot ∷ b) (dot ∷ c))
      ∙ split_dots-part [] a (b ++ (dot ∷ c)) ha
      ∙ ap (◌∷◌ a) (split_dots-part [] b c hb ∙ ap (◌∷◌ b) (split_dots-last [] c hc))

  fits-lt : (n : ℕ) → n < 2 ^ 63 → fits_int64 (pos n) ≡ true
  fits-lt n h = ground (arith, h)

  -- A minted token is accepted by the holder of the same secret, with the claims that it was
  -- minted for, at every instant whose second lies before the expiry. The key id is ASCII text, and
  -- the second of the expiry fits in an `int64`.
  pub verify-mint :
      (shared key_id token : Bytes) (lifetime now later : ℕ)
      → mint_jwt lib shared key_id (pos lifetime) now ≡ ok token
      → is_ascii key_id ≡ true
      → (now + lifetime) / second < 2 ^ 63
      → later / second < (now + lifetime) / second
      → verify_jwt lib shared token later ≡ ok (claims_for lib key_id now lifetime)
  unfolding mint_jwt
  verify-mint [] key_id token lifetime now later h plain fits young = cc
  verify-mint (x ∷ shared) [] token lifetime now later h plain fits young = cc
  verify-mint (x ∷ shared) (c ∷ key_id) token zero now later h plain fits young = cc
  verify-mint (x ∷ shared) (c ∷ key_id) token (suc n) now later h plain fits young =
      let key : Bytes = x ∷ shared in
      let header : JwtHeader = record { alg = jwt_alg; typ = jwt_typ } in
      let claims = claims_for lib (c ∷ key_id) now (suc n) in
      let input = signing_input lib header claims in
      let sig = lib.hmac_sha256 key input in
      let e : input ++ (dot ∷ lib.encode sig) ≡ token = cc in
      verify_jwt_complete lib key token later claims (record {
        has_secret = λ p. cc;
        header_part = lib.encode (lib.marshal_header header);
        payload_part = lib.encode (lib.marshal_claims claims);
        signature_part = lib.encode sig;
        parts =
            ap (split_dots []) (sym e)
            ∙ three_parts (lib.encode (lib.marshal_header header))
                (lib.encode (lib.marshal_claims claims)) (lib.encode sig) (laws.encode-Lacks_dot _)
                (laws.encode-Lacks_dot _) (laws.encode-Lacks_dot _);
        header_json = lib.marshal_header header;
        header_decodes = jwt_decode-encode (lib.marshal_header header);
        header = header;
        header_parses = laws.header_round_trip header refl refl;
        alg_pinned = refl;
        typ_pinned = inr refl;
        signed = jwt_decode-encode sig;
        claims_json = lib.marshal_claims claims;
        claims_decode = jwt_decode-encode (lib.marshal_claims claims);
        claims_parse =
            laws.claims_round_trip claims plain (fits-lt (now / second) (omega (arith, fits)))
              (fits-lt ((now + suc n) / second) fits);
        names_key = λ p. cc;
        has_expiry = λ p. ground arith;
        not_expired = ground arith;
      })
