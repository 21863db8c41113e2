-- ===== src/Token/Signed.antt =====
-- No token is accepted without the signature of its payload.
use jolly_jesters_mvp.Prelude.{
  ℕ, Bool, true, false, ◌&&◌, ◌⊎◌, refl, ap₂, Option, none, some, List, [], ◌∷◌, ◌++◌, findb,
  if-cases, ◌≡◌, ap, ◌∙◌, arith, Option-cases, inl, inr, subst,
}
use jolly_jesters_mvp.Prelude.Int.{pos, ltb_ℤ}
use jolly_jesters_mvp.Token.Strings.{Text, text_eq, colon, dot, split, rsplit, Joins, rsplit-Joins}
use jolly_jesters_mvp.Token.{
  Codec, Config, User, Claims, add_padding, elapsed, claimed, check_payload, decode_token_payload,
  ttl, is_current, user_of, validate_token,
}

and_left : (a b : Bool) → (a && b) ≡ true → a ≡ true
and_left a b e = ground arith

and_right : (a b : Bool) → (a && b) ≡ true → b ≡ true
and_right a b e = ground arith

module _ (codec : Codec) (config : Config) where
  -- The parts of a payload behind the user, the tenant and the moment: none, a number of the token, or
  -- that number with the issuer and the audience of the configuration.
  abbrev pub IsRest : List Text → Type 0
  IsRest rest =
      (rest ≡ [])
      ⊎ ((jti : Text) × (rest ≡ jti ∷ []))
      ⊎ ((jti : Text) × (rest ≡ jti ∷ config.issuer ∷ config.audience ∷ []))

  -- A payload whose first part is the user, and whose third part is the moment.
  abbrev pub IsPayload : (payload uid ts_str : Text) → Type 0
  IsPayload payload uid ts_str =
      (tid : Text) × (rest : List Text) × (split colon payload ≡ uid ∷ tid ∷ ts_str ∷ rest)
      × IsRest rest

  -- The token ends with the signature of a payload, which its first part decodes to; the user and the
  -- moment of the claims are the first and the third part of that payload.
  pub record IsSealed (token : Text) (claims : Claims) : Type 0 where
    pub first : Text
    pub joined : token ≡ first ++ dot ∷ codec.sign claims.payload
    pub decodes : codec.decode (add_padding first) ≡ some claims.payload
    pub ts_str : Text
    pub parts : IsPayload claims.payload claims.user_id_str ts_str
    pub moment : codec.read_int ts_str ≡ some claims.ts

  abbrev Claimed : List Text → Option (Text × Text) → Type 0
  Claimed parts none = Unit
  Claimed parts (some (uid, ts_str)) =
      (tid : Text) × (rest : List Text) × (parts ≡ uid ∷ tid ∷ ts_str ∷ rest) × IsRest rest

  claimed_lem : (parts : List Text) → Claimed parts (claimed codec config parts)
  claimed_lem [] = tt
  claimed_lem (uid ∷ []) = tt
  claimed_lem (uid ∷ tid ∷ []) = tt
  claimed_lem (uid ∷ tid ∷ ts ∷ []) = (tid, [], refl, inl refl)
  claimed_lem (uid ∷ tid ∷ ts ∷ jti ∷ []) = (tid, jti ∷ [], refl, inr (inl (jti, refl)))
  claimed_lem (uid ∷ tid ∷ ts ∷ jti ∷ iss ∷ []) = tt
  claimed_lem (uid ∷ tid ∷ ts ∷ jti ∷ iss ∷ aud ∷ []) =
      if-cases (Claimed (uid ∷ tid ∷ ts ∷ jti ∷ iss ∷ aud ∷ []))
        (text_eq.beq iss config.issuer && text_eq.beq aud config.audience) (some (uid, ts)) none
        (λ same.
          let issuer = (text_eq.beq_iff iss config.issuer).0 (and_left _ _ same) in
          let audience = (text_eq.beq_iff aud config.audience).0 (and_right _ _ same) in
          (
            tid,
            jti ∷ iss ∷ aud ∷ [],
            refl,
            inr (inr (jti, ap₂ (λ i a. jti ∷ i ∷ a ∷ []) issuer audience)),
          ))
        (λ other. tt)
  claimed_lem (uid ∷ tid ∷ ts ∷ jti ∷ iss ∷ aud ∷ x ∷ more) = tt

  abbrev Sealed : Text → Option Claims → Type 0
  Sealed token none = Unit
  Sealed token (some claims) = IsSealed token claims

  check_payload-Sealed :
      (token encoded sig payload : Text)
      → token ≡ encoded ++ dot ∷ sig
      → codec.decode (add_padding encoded) ≡ some payload
      → Sealed token (check_payload codec config sig payload)
  check_payload-Sealed token encoded sig payload joins decodes =
      elim (Option-cases (claimed codec config (split colon payload))) [
        | inl e ↦ rw (e, check_payload) tt
        | inr ((uid, ts_str), e) ↦ elim (Option-cases (codec.read_int ts_str)) [
          | inl f ↦ rw (e, check_payload, f) tt
          | inr (ts, f) ↦
              rw (e, check_payload, f)
                (if-cases (Sealed token) (text_eq.beq sig (codec.sign payload))
                  (some (record { user_id_str = uid; payload = payload; ts = ts })) none
                  (λ same. record {
                    first = encoded;
                    joined =
                        joins
                        ∙ ap (λ s. encoded ++ dot ∷ s)
                            ((text_eq.beq_iff sig (codec.sign payload)).0 same);
                    decodes = decodes;
                    ts_str = ts_str;
                    parts =
                        subst (Claimed (split colon payload)) e (claimed_lem (split colon payload));
                    moment = f;
                  })
                  (λ other. tt))
        ]
      ]

  decode_token_payload-Sealed :
      (token : Text) → Sealed token (decode_token_payload codec config token)
  unfolding decode_token_payload
  decode_token_payload-Sealed token =
      let joins = rsplit-Joins dot token in
      elim (Option-cases (rsplit dot token)) [
        | inl e ↦ rw (e, decode_token_payload) tt
        | inr ((encoded, sig), e) ↦ elim (Option-cases (codec.decode (add_padding encoded))) [
          | inl f ↦ rw (e, decode_token_payload, f) tt
          | inr (payload, f) ↦
              rw (e, decode_token_payload, f)
                (check_payload-Sealed token encoded sig payload (subst (Joins dot token) e joins) f)
        ]
      ]

  -- What a token has whose user was found.
  abbrev Accepts : List User → (now : ℕ) → (token : Text) → User → Type 0
  Accepts users now token user =
      (claims : Claims) × IsSealed token claims
      × (ltb_ℤ (pos (ttl codec config)) (elapsed now claims.ts) ≡ false)
      × (codec.read_uuid claims.user_id_str ≡ some user.id)
      × (user.is_active ≡ true)
      × (findb (is_current codec config user.id) users ≡ some user)

  abbrev Accepted : List User → (now : ℕ) → (token : Text) → Option User → Type 0
  Accepted users now token none = Unit
  Accepted users now token (some user) = Accepts users now token user

  findb-current :
      (id : ℕ) (users : List User) (user : User)
      → findb (is_current codec config id) users ≡ some user
      → (id ≡ user.id) × (user.is_active ≡ true)
  findb-current id [] user e = absurd (ground arith)
  findb-current id (u ∷ users) user e = ground (arith, findb-current id users user)

  user_of-Accepted :
      (users : List User) (now : ℕ) (token : Text) (claims : Claims)
      → IsSealed token claims
      → ltb_ℤ (pos (ttl codec config)) (elapsed now claims.ts) ≡ false
      → Accepted users now token (user_of codec config users claims)
  user_of-Accepted users now token claims sealed fresh =
      elim (Option-cases (codec.read_uuid claims.user_id_str)) [
        | inl e ↦ rw (e, user_of) tt
        | inr (id, e) ↦ elim (Option-cases (findb (is_current codec config id) users)) [
          | inl f ↦ rw (e, user_of, f) tt
          | inr (user, f) ↦
              let (same, active) = findb-current id users user f in
              rw (e, user_of, f)
                (
                  claims,
                  sealed,
                  fresh,
                  e ∙ ap (λ i. some i) same,
                  active,
                  subst (λ i. findb (is_current codec config i) users ≡ some user) same f,
                )
        ]
      ]

  validate_token-Accepted :
      (users : List User) (now : ℕ) (token : Text)
      → Accepted users now token (validate_token codec config users now token)
  unfolding validate_token
  validate_token-Accepted users now token =
      let sealed = decode_token_payload-Sealed token in
      elim (Option-cases (decode_token_payload codec config token)) [
        | inl e ↦ rw (e, validate_token) tt
        | inr (claims, e) ↦
            rw (e, validate_token)
              (if-cases (Accepted users now token)
                (ltb_ℤ (pos (ttl codec config)) (elapsed now claims.ts)) none
                (user_of codec config users claims) (λ late. tt)
                (user_of-Accepted users now token claims (subst (Sealed token) e sealed)))
      ]

  -- A token that is accepted is a payload, encoded, with the payload's signature behind it. The payload
  -- has three or four parts, or six of which the last two are the configured issuer and audience; its
  -- third part is a moment that is not older than the configured hours, and its first part the number
  -- of the user that is returned, who is an active user of the table.
  pub validate_token-IsSealed :
      (users : List User) (now : ℕ) (token : Text) (user : User)
      → validate_token codec config users now token ≡ some user
      → (claims : Claims) × IsSealed token claims
        × (ltb_ℤ (pos (ttl codec config)) (elapsed now claims.ts) ≡ false)
        × (codec.read_uuid claims.user_id_str ≡ some user.id)
        × (user.is_active ≡ true)
        × (findb (is_current codec config user.id) users ≡ some user)
  validate_token-IsSealed users now token user h =
      subst (Accepted users now token) h (validate_token-Accepted users now token)
