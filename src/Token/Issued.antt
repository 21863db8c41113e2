-- ===== src/Token/Issued.antt =====
-- The life of a token that was issued: what it decodes to, and until when it is accepted and refreshed.
use jolly_jesters_mvp.Prelude.{
  ℕ, ◌+◌, ◌-◌, ◌*◌, ◌/◌, ◌%◌, ◌≤◌, true, Option, none, some, List, [], ◌∷◌, ◌++◌, append-nil,
  length, findb, ◌==◌, ltb, if◌then◌else◌, if-cases, ◌≡◌, refl, sym, ap, ap₂, ◌∙◌, arith,
}
use jolly_jesters_mvp.Prelude.Int.{ℤ, pos, sub_ℕ, ltb_ℤ}
use jolly_jesters_mvp.Token.Strings.{
  Text, text_eq, colon, dot, equals, split, rstrip, repeated, Lacks, split-last, split-append,
  rsplit-append, rstrip-append,
}
use jolly_jesters_mvp.Token.{
  Codec, Config, User, Claims, second, add_padding, elapsed, payload_of, issue_token, check_payload,
  decode_token_payload, ttl, is_current, user_of, validate_token, refresh_threshold, refresh_token,
}

-- What is documented of the codec: base64 pads to a multiple of four characters by at most two equals
-- signs and decodes what it encoded; a hexadecimal digest has no dot; and the texts of UUIDs and of
-- integers have no colon and are read back.
pub record IsFaithful (codec : Codec) : Type 0 where
  pub encoded :
      (p : Text)
      → (body : Text) × (n : ℕ) × (codec.encode p ≡ body ++ repeated n equals)
        × (n ≤ 2)
        × ((length body + n) % 4 ≡ 0)
        × Lacks equals body
  pub decoded : (p : Text) → codec.decode (codec.encode p) ≡ some p
  pub signed : (p : Text) → Lacks dot (codec.sign p)
  pub uuid_lacks : (id : ℕ) → Lacks colon (codec.show_uuid id)
  pub uuid_read : (id : ℕ) → codec.read_uuid (codec.show_uuid id) ≡ some id
  pub int_lacks : (n : ℕ) → Lacks colon (codec.show_int n)
  pub int_read : (n : ℕ) → codec.read_int (codec.show_int n) ≡ some (pos n)

add_padding-body :
    (body : Text) (n : ℕ)
    → n ≤ 2
    → (length body + n) % 4 ≡ 0
    → add_padding body ≡ body ++ repeated n equals
add_padding-body body n small whole =
    if-cases (λ t. t ≡ body ++ repeated n equals) (4 - length body % 4 == 4) body
      (body ++ repeated (4 - length body % 4) equals)
      (λ e. let none_needed : n ≡ 0 = ground arith in rw none_needed (sym (append-nil body)))
      (λ e.
        let needed : 4 - length body % 4 ≡ n = ground arith in
        ap (λ k. body ++ repeated k equals) needed)

after-sub : (a t x : ℕ) → ltb_ℤ (pos a) (sub_ℕ t x) ≡ ltb (x + a) t
after-sub a t x = ground arith

before-sub : (b t x : ℕ) → ltb_ℤ (sub_ℕ t x) (pos b) ≡ ltb t (x + b)
before-sub b t x = ground arith

module _ (codec : Codec) (config : Config) (faithful : IsFaithful codec) where
  add_padding-encode : (p : Text) → add_padding (rstrip equals (codec.encode p)) ≡ codec.encode p
  add_padding-encode p =
      let (body, n, same, small, whole, lacks) = faithful.encoded p in
      rw (same, rstrip-append equals n body lacks) (add_padding-body body n small whole)

  module _ (issuer_lacks : Lacks colon config.issuer)
      (audience_lacks : Lacks colon config.audience) where
    abbrev pub claims_of : User → (now : ℕ) → (jti : Text) → Claims
    claims_of user now jti = record {
      user_id_str = codec.show_uuid user.id;
      payload = payload_of codec config user now jti;
      ts = pos (now / second);
    }

    split-payload_of :
        (user : User) (now : ℕ) (jti : Text)
        → Lacks colon jti
        → split colon (payload_of codec config user now jti)
          ≡ codec.show_uuid user.id
            ∷ codec.show_uuid user.tenant_id
            ∷ codec.show_int (now / second)
            ∷ jti
            ∷ config.issuer
            ∷ config.audience
            ∷ []
    split-payload_of user now jti h =
        rw
          (
            split-append colon (codec.show_uuid user.id) _ (faithful.uuid_lacks user.id),
            split-append colon (codec.show_uuid user.tenant_id) _
                (faithful.uuid_lacks user.tenant_id),
            split-append colon (codec.show_int (now / second)) _
                (faithful.int_lacks (now / second)),
            split-append colon jti _ h,
            split-append colon config.issuer _ issuer_lacks,
            split-last colon config.audience audience_lacks,
          )
          refl

    same : (t : Text) → text_eq.beq t t ≡ true
    same t = (text_eq.beq_iff t t).1 refl

    check-parts :
        (payload uid tid ts_str jti : Text) (ts : ℤ)
        → split colon payload ≡ uid ∷ tid ∷ ts_str ∷ jti ∷ config.issuer ∷ config.audience ∷ []
        → codec.read_int ts_str ≡ some ts
        → check_payload codec config (codec.sign payload) payload
          ≡ some (record { user_id_str = uid; payload = payload; ts = ts })
    check-parts payload uid tid ts_str jti ts parts read =
        rw
          (
            parts,
            check_payload,
            same config.issuer,
            same config.audience,
            read,
            same (codec.sign payload),
          )
          refl

    decode-sealed :
        (payload : Text) (claims : Claims)
        → check_payload codec config (codec.sign payload) payload ≡ some claims
        → decode_token_payload codec config
            (rstrip equals (codec.encode payload) ++ dot ∷ codec.sign payload)
          ≡ some claims
    unfolding decode_token_payload
    decode-sealed payload claims h =
        rw
          (
            decode_token_payload,
            rsplit-append dot (rstrip equals (codec.encode payload)) (codec.sign payload)
                (faithful.signed payload),
            add_padding-encode payload,
            faithful.decoded payload,
          )
          h

    decode-issue_token :
        (user : User) (now : ℕ) (jti : Text)
        → Lacks colon jti
        → decode_token_payload codec config (issue_token codec config user now jti)
          ≡ some (claims_of user now jti)
    unfolding issue_token
    decode-issue_token user now jti h =
        decode-sealed (payload_of codec config user now jti) (claims_of user now jti) (
          check-parts (payload_of codec config user now jti) (codec.show_uuid user.id)
            (codec.show_uuid user.tenant_id) (codec.show_int (now / second)) jti
            (pos (now / second)) (split-payload_of user now jti h)
            (faithful.int_read (now / second)))

    -- The new token of a user that was found.
    abbrev renewed : (later : ℕ) → (jti' : Text) → Option User → Option Text
    renewed later jti' found = elim found [
      | none ↦ none
      | some u ↦ some (issue_token codec config u later jti')
    ]

    validated :
        (users : List User) (later : ℕ) (token : Text) (claims : Claims)
        → decode_token_payload codec config token ≡ some claims
        → validate_token codec config users later token ≡ (
            if ltb_ℤ (pos (ttl codec config)) (elapsed later claims.ts)
            then none
            else user_of codec config users claims)
    unfolding validate_token
    validated users later token claims e = rw (e, validate_token) refl

    refreshed :
        (users : List User) (later : ℕ) (jti' token : Text) (claims : Claims)
        → decode_token_payload codec config token ≡ some claims
        → refresh_token codec config users later jti' token ≡ (
            if ltb_ℤ (pos (ttl codec config)) (elapsed later claims.ts)
            then none
            else if ltb_ℤ (elapsed later claims.ts) (pos (refresh_threshold codec config))
            then none
            else renewed later jti' (user_of codec config users claims))
    unfolding refresh_token
    refreshed users later jti' token claims e = rw (e, refresh_token) refl

    -- What a token is good for that decodes to the number of a user and a second.
    abbrev Lives : List User → (later : ℕ) → (jti' token : Text) → (id s : ℕ) → Type 0
    Lives users later jti' token id s =
        let found = findb (is_current codec config id) users in
        (validate_token codec config users later token
          ≡ (if ltb (s * second + ttl codec config) later then none else found))
        × (refresh_token codec config users later jti' token ≡ (
            if ltb (s * second + ttl codec config) later
            then none
            else if ltb later (s * second + refresh_threshold codec config)
            then none
            else elim found [
              | none ↦ none
              | some u ↦ some (issue_token codec config u later jti')
            ]))

    decoded-Lives :
        (users : List User) (later : ℕ) (jti' token uid payload : Text) (id s : ℕ)
        → decode_token_payload codec config token
          ≡ some (record { user_id_str = uid; payload = payload; ts = pos s })
        → codec.read_uuid uid ≡ some id
        → Lives users later jti' token id s
    decoded-Lives users later jti' token uid payload id s e read =
        let claims : Claims = record { user_id_str = uid; payload = payload; ts = pos s } in
        let named : user_of codec config users claims ≡ findb (is_current codec config id) users =
          rw (read, user_of) refl in
        let late = after-sub (ttl codec config) later (s * second) in
        let early = before-sub (refresh_threshold codec config) later (s * second) in
        (
          validated users later token claims e
              ∙ ap₂ (λ b (o : Option User). if b then none else o) late named,
          refreshed users later jti' token claims e
              ∙ ap₂ (λ b (o : Option Text). if b then none else o) late
                  (ap₂ (λ b (o : Option User). if b then none else renewed later jti' o) early
                    named),
        )

    -- Where the codec is faithful and neither the issuer, the audience nor the token's identifier has a
    -- colon, a token that was issued to a user is good from its second on for exactly the configured
    -- hours: during them it gives the active user with the number that it was issued to, if there is one,
    -- and afterwards nothing. It is refreshed in the last quarter of them, and only then, by a new token
    -- of that user.
    pub issued_token_life :
        (user : User) (now : ℕ) (jti : Text)
        → Lacks colon jti
        → (users : List User) (later : ℕ) (jti' : Text)
        → let token = issue_token codec config user now jti in
          let start = now / second * second in
          let found = findb (is_current codec config user.id) users in
          (validate_token codec config users later token
            ≡ (if ltb (start + ttl codec config) later then none else found))
          × (refresh_token codec config users later jti' token ≡ (
              if ltb (start + ttl codec config) later
              then none
              else if ltb later (start + refresh_threshold codec config)
              then none
              else elim found [
                | none ↦ none
                | some u ↦ some (issue_token codec config u later jti')
              ]))
    issued_token_life user now jti h users later jti' =
        decoded-Lives users later jti' (issue_token codec config user now jti)
          (codec.show_uuid user.id) (payload_of codec config user now jti) user.id (now / second)
          (decode-issue_token user now jti h) (faithful.uuid_read user.id)
