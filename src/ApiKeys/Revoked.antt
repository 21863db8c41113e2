-- ===== src/ApiKeys/Revoked.antt =====
-- A key that was revoked.
use jolly_jesters_mvp.Prelude.{
  ℕ, ◌≤◌, ◌<◌, Bool, true, false, Option, none, some, String, List, [], ◌∷◌, findb, countb, anyb,
  ◌≡◌, refl, sym, ap, ◌∙◌, arith, string_eq, beq_refl, Bool-cases, inl, inr,
}
use jolly_jesters_mvp.ProxyPool.{update_first}
use jolly_jesters_mvp.ApiKeys.{
  ApiKey, Codec, Usage, is_key, is_usable, revoke_key, check_api_key_rate, validate_found,
  validate_allowed, validate_api_key,
}

-- The rows with a hash.
abbrev pub with_hash : String → List ApiKey → ℕ
with_hash key_hash = countb (λ k. string_eq.beq k.key_hash key_hash)

abbrev off : ApiKey → ApiKey
off key = record key { is_active = false }

module _ (codec : Codec) (tenant_id : String) (key_id : ℕ) where
  none-usable :
      (key_hash : String) (keys : List ApiKey)
      → with_hash key_hash keys ≡ 0
      → findb (is_usable codec key_hash) keys ≡ none
  none-usable key_hash [] e = refl
  none-usable key_hash (k ∷ keys) e = ground (arith, none-usable key_hash keys)

  with_hash-found :
      (keys : List ApiKey) (key : ApiKey)
      → findb (is_key tenant_id key_id) keys ≡ some key
      → 0 < with_hash key.key_hash keys
  with_hash-found [] key e = absurd (ground arith)
  with_hash-found (k ∷ keys) key e = elim (Bool-cases (is_key tenant_id key_id k)) [
    | inl t ↦
        let same : some k ≡ some key = sym (head-found k keys t) ∙ e in
        ground (arith, beq_refl k.key_hash)
    | inr t ↦ ground (arith, with_hash-found keys key)
  ]
    where
      head-found :
          (k : ApiKey) (keys : List ApiKey)
          → is_key tenant_id key_id k ≡ true
          → findb (is_key tenant_id key_id) (k ∷ keys) ≡ some k
      head-found k keys t = rw (t, findb)

  revoked-unusable :
      (keys : List ApiKey) (key : ApiKey)
      → findb (is_key tenant_id key_id) keys ≡ some key
      → with_hash key.key_hash keys ≤ 1
      → findb (is_usable codec key.key_hash) (update_first (is_key tenant_id key_id) off keys)
        ≡ none
  revoked-unusable [] key e one = refl
  revoked-unusable (k ∷ keys) key e one = ground (
    arith,
    with_hash-found keys key,
    none-usable key.key_hash keys,
    revoked-unusable keys key,
    beq_refl key.key_hash,
  )

  -- When a tenant revokes a key of the table whose hash no other key has, the revocation answers true,
  -- and on the table that it leaves no request with that key is accepted.
  revoked_key_refused :
      (now : ℕ) (raw_key : String) (scope : Option String) (usage : Usage) (keys : List ApiKey)
      (key : ApiKey)
      → findb (is_key tenant_id key_id) keys ≡ some key
      → codec.hash_key raw_key ≡ key.key_hash
      → with_hash key.key_hash keys ≤ 1
      → let (keys', revoked) = revoke_key tenant_id key_id keys in
        (revoked ≡ true) × ((validate_api_key codec now raw_key scope (usage, keys')).1 ≡ none)
  unfolding revoke_key validate_api_key
  revoked_key_refused now raw_key scope usage keys key found same one =
      let keys' = (revoke_key tenant_id key_id keys).0 in
      let allowed = (check_api_key_rate now (codec.hash_key raw_key) 60 usage).1 in
      (
        found-anyb keys key found,
        refused now (codec.hash_key raw_key) scope keys' allowed
            (ap (λ h. findb (is_usable codec h) keys') same ∙ revoked-unusable keys key found one),
      )
    where
      found-anyb :
          (keys : List ApiKey) (key : ApiKey)
          → findb (is_key tenant_id key_id) keys ≡ some key
          → anyb (is_key tenant_id key_id) keys ≡ true
      found-anyb [] key e = absurd (ground arith)
      found-anyb (k ∷ keys) key e = ground (arith, found-anyb keys key)

      refused :
          (now : ℕ) (h : String) (scope : Option String) (keys : List ApiKey) (allowed : Bool)
          → findb (is_usable codec h) keys ≡ none
          → (validate_allowed codec now h scope keys allowed).1 ≡ none
      refused now h scope keys true e = rw (e, validate_found)
      refused now h scope keys false e = refl
