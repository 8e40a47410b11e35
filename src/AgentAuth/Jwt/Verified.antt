-- ===== src/AgentAuth/Jwt/Verified.antt =====
-- Which tokens `VerifyJWT` accepts.
use vedox.Base.{
  ℕ, ◌/◌, ◌≡◌, refl, ap, ◌∙◌, ◌≢◌, ◌↔◌, ◌⊎◌, inl, inr, Bytes, false, Option-cases, some, List, [],
  ◌∷◌, ◌++◌, arith,
}
use vedox.Base.Int.{pos, reaches}
use vedox.AgentAuth.Jwt.{
  JwtClaims, JwtHeader, JwtLib, jwt_alg, jwt_typ, dot, second, Result, ok, split_dots, jwt_decode,
  accept_claims, check_claims, check_signed, check_parts, with_three, verify_jwt,
}

accept_claims-same : (c claims : JwtClaims) (now : ℕ) → accept_claims c now ≡ ok claims → c ≡ claims
unfolding accept_claims
accept_claims-same c claims now h = ground arith

accept_claims_sound :
    (claims : JwtClaims) (now : ℕ)
    → accept_claims claims now ≡ ok claims
    → (claims.key_id ≢ [])
      × (claims.expires_at ≢ pos 0)
      × (reaches (now / second) claims.expires_at ≡ false)
unfolding accept_claims
accept_claims_sound claims now h = ground arith

accept_claims_complete :
    (claims : JwtClaims) (now : ℕ)
    → claims.key_id ≢ []
    → claims.expires_at ≢ pos 0
    → reaches (now / second) claims.expires_at ≡ false
    → accept_claims claims now ≡ ok claims
unfolding accept_claims
accept_claims_complete claims now named expiry young = ground arith

module _ (lib : JwtLib) where
  -- The token has three parts, its header names the one algorithm, its signature is that of the
  -- first two parts under the secret, and its claims name a key and lie before their expiry.
  pub record IsValidToken (shared token : Bytes) (now : ℕ) (claims : JwtClaims) : Type 0 where
    pub has_secret : shared ≢ []
    pub header_part : Bytes
    pub payload_part : Bytes
    pub signature_part : Bytes
    pub parts : split_dots [] token ≡ header_part ∷ payload_part ∷ signature_part ∷ []
    pub header_json : Bytes
    pub header_decodes : jwt_decode lib header_part ≡ some header_json
    pub header : JwtHeader
    pub header_parses : lib.unmarshal_header header_json ≡ some header
    pub alg_pinned : header.alg ≡ jwt_alg
    pub typ_pinned : (header.typ ≡ []) ⊎ (header.typ ≡ jwt_typ)
    pub signed :
        jwt_decode lib signature_part
        ≡ some (lib.hmac_sha256 shared (header_part ++ (dot ∷ payload_part)))
    pub claims_json : Bytes
    pub claims_decode : jwt_decode lib payload_part ≡ some claims_json
    pub claims_parse : lib.unmarshal_claims claims_json ≡ some claims
    pub names_key : claims.key_id ≢ []
    pub has_expiry : claims.expires_at ≢ pos 0
    pub not_expired : reaches (now / second) claims.expires_at ≡ false

  check_claims_sound :
      (payload : Bytes) (now : ℕ) (claims : JwtClaims)
      → check_claims lib payload now ≡ ok claims
      → (json : Bytes) × (jwt_decode lib payload ≡ some json)
        × (lib.unmarshal_claims json ≡ some claims)
        × (accept_claims claims now ≡ ok claims)
  unfolding check_claims
  check_claims_sound payload now claims h = elim (Option-cases (jwt_decode lib payload)) [
    | inl e ↦ absurd (ground (arith, e))
    | inr (json, e) ↦ elim (Option-cases (lib.unmarshal_claims json)) [
      | inl n ↦ absurd (ground (arith, e, n))
      | inr (c, n) ↦
          let accepted : accept_claims c now ≡ ok claims = ground (arith, e, n) in
          let same = accept_claims-same c claims now accepted in
          (json, e, n ∙ ap some same, rw same at accepted)
    ]
  ]

  check_signed_sound :
      (shared header payload sig : Bytes) (now : ℕ) (claims : JwtClaims)
      → check_signed lib shared header payload sig now ≡ ok claims
      → (jwt_decode lib sig ≡ some (lib.hmac_sha256 shared (header ++ (dot ∷ payload))))
        × (check_claims lib payload now ≡ ok claims)
  unfolding check_signed
  check_signed_sound shared header payload sig now claims h = ground arith

  check_parts_sound :
      (shared header payload sig : Bytes) (now : ℕ) (claims : JwtClaims)
      → check_parts lib shared header payload sig now ≡ ok claims
      → (json : Bytes) × (jwt_decode lib header ≡ some json)
        × (hdr : JwtHeader) × (lib.unmarshal_header json ≡ some hdr)
        × (hdr.alg ≡ jwt_alg)
        × ((hdr.typ ≡ []) ⊎ (hdr.typ ≡ jwt_typ))
        × (check_signed lib shared header payload sig now ≡ ok claims)
  unfolding check_parts
  check_parts_sound shared header payload sig now claims h =
      elim (Option-cases (jwt_decode lib header)) [
        | inl e ↦ absurd (ground (arith, e))
        | inr (json, e) ↦ elim (Option-cases (lib.unmarshal_header json)) [
          | inl n ↦ absurd (ground (arith, e, n))
          | inr (hdr, n) ↦
              (json, e, hdr, n, ground (arith, e, n), ground (arith, e, n), ground (arith, e, n))
        ]
      ]

  with_three_sound :
      (f : Bytes → Bytes → Bytes → Result JwtClaims) (parts : List Bytes) (claims : JwtClaims)
      → with_three lib f parts ≡ ok claims
      → (a : Bytes) × (b : Bytes) × (c : Bytes) × (parts ≡ a ∷ b ∷ c ∷ []) × (f a b c ≡ ok claims)
  with_three_sound f (a ∷ b ∷ c ∷ []) claims h = (a, b, c, refl, h)
  with_three_sound f _ claims h = absurd (ground arith)

  verify_jwt_sound :
      (shared token : Bytes) (now : ℕ) (claims : JwtClaims)
      → verify_jwt lib shared token now ≡ ok claims
      → IsValidToken shared token now claims
  unfolding verify_jwt
  verify_jwt_sound [] token now claims h = cc
  verify_jwt_sound (x ∷ shared) token now claims h =
      let key : Bytes = x ∷ shared in
      let (a, b, c, parts, ok_parts) =
        with_three_sound (λ a b c. check_parts lib key a b c now) (split_dots [] token) claims h in
      let (hj, hd, hdr, hp, alg, typ, ok_signed) =
        check_parts_sound key a b c now claims ok_parts in
      let (signed, ok_claims) = check_signed_sound key a b c now claims ok_signed in
      let (cj, cd, cp, accepted) = check_claims_sound b now claims ok_claims in
      let (named, expiry, young) = accept_claims_sound claims now accepted in
      record {
        has_secret = λ e. cc;
        header_part = a;
        payload_part = b;
        signature_part = c;
        parts = parts;
        header_json = hj;
        header_decodes = hd;
        header = hdr;
        header_parses = hp;
        alg_pinned = alg;
        typ_pinned = typ;
        signed = signed;
        claims_json = cj;
        claims_decode = cd;
        claims_parse = cp;
        names_key = named;
        has_expiry = expiry;
        not_expired = young;
      }

  pub verify_jwt_complete :
      (shared token : Bytes) (now : ℕ) (claims : JwtClaims)
      → IsValidToken shared token now claims
      → verify_jwt lib shared token now ≡ ok claims
  unfolding verify_jwt
  verify_jwt_complete [] token now claims v = absurd (v.has_secret refl)
  verify_jwt_complete (x ∷ shared) token now claims v =
      let key : Bytes = x ∷ shared in
      let accepted = accept_claims_complete claims now v.names_key v.has_expiry v.not_expired in
      let ok_claims : check_claims lib v.payload_part now ≡ ok claims =
        unfold check_claims in (ground (arith, v.claims_decode, v.claims_parse, accepted)) in
      let ok_signed : check_signed lib key v.header_part v.payload_part v.signature_part now
          ≡ ok claims =
        unfold check_signed in (ground (arith, v.signed, ok_claims)) in
      let ok_parts : check_parts lib key v.header_part v.payload_part v.signature_part now
          ≡ ok claims =
        unfold check_parts in
        (ground
          (arith, v.header_decodes, v.header_parses, v.alg_pinned, v.typ_pinned, ok_signed)) in
      rw v.parts ok_parts

  -- A token is accepted, with its claims, exactly when it is valid: any other algorithm than
  -- HS256, `none` included, is refused whatever the signature.
  pub verify_jwt_iff :
      (shared token : Bytes) (now : ℕ) (claims : JwtClaims)
      → (verify_jwt lib shared token now ≡ ok claims) ↔ IsValidToken shared token now claims
  verify_jwt_iff shared token now claims =
      (verify_jwt_sound shared token now claims, verify_jwt_complete shared token now claims)
