-- ===== src/ApiKeys/Sound.antt =====
-- Which keys are accepted.
use jolly_jesters_mvp.Prelude.{
  ℕ, Bool, true, false, Option, none, some, String, List, [], ◌∷◌, findb, ◌≡◌, refl, ap, ◌∙◌, arith,
  Option-cases, inl, inr, string_eq, if-cases, subst,
}
use jolly_jesters_mvp.ProxyPool.{update_first}
use jolly_jesters_mvp.ApiKeys.{
  ApiKey, Codec, Usage, check_api_key_rate, is_usable, is_expired, scope_allows, use_at, deactivate,
  validate_found, validate_allowed, validate_api_key, get_scopes,
}

module _ (codec : Codec) where
  -- A key that may be used now: the text hashes to it, it is active and has not run out, and it has the
  -- scope that is required.
  pub record Admits (now : ℕ) (key_hash : String) (scope : Option String) (key : ApiKey)
      : Type 0 where
    pub matches : key.key_hash ≡ key_hash
    pub active : key.is_active ≡ true
    pub unexpired : is_expired codec now key ≡ false
    pub scoped : scope_allows codec scope key ≡ true
    pub used : key.last_used_at ≡ some now

  findb-usable :
      (key_hash : String) (keys : List ApiKey) (key : ApiKey)
      → findb (is_usable codec key_hash) keys ≡ some key
      → (key.key_hash ≡ key_hash) × (key.is_active ≡ true)
  findb-usable key_hash [] key e = absurd (ground arith)
  findb-usable key_hash (k ∷ keys) key e =
      ground (arith, findb-usable key_hash keys key, string_eq.beq_iff k.key_hash key_hash)

  abbrev Accepted : (now : ℕ) → String → Option String → Option ApiKey → Type 0
  Accepted now key_hash scope none = Unit
  Accepted now key_hash scope (some key) = Admits now key_hash scope key

  scope_allows-use_at :
      (now : ℕ) (scope : Option String) (key : ApiKey)
      → scope_allows codec scope (use_at codec now key) ≡ scope_allows codec scope key
  unfolding get_scopes
  scope_allows-use_at now none key = refl
  scope_allows-use_at now (some scope) key = refl

  found-Accepted :
      (now : ℕ) (key_hash : String) (scope : Option String) (keys : List ApiKey) (key : ApiKey)
      → key.key_hash ≡ key_hash
      → key.is_active ≡ true
      → Accepted now key_hash scope (validate_found codec now key_hash scope keys (some key)).1
  found-Accepted now key_hash scope keys key same active =
      if-cases (λ (r : List ApiKey × Option ApiKey). Accepted now key_hash scope r.1)
        (is_expired codec now key)
        (update_first (is_usable codec key_hash) (deactivate codec) keys, none) _ (λ e. tt)
        (λ fresh.
          if-cases (λ (r : List ApiKey × Option ApiKey). Accepted now key_hash scope r.1)
            (scope_allows codec scope key)
            (
              update_first (is_usable codec key_hash) (use_at codec now) keys,
              some (use_at codec now key),
            )
            (keys, none)
            (λ ok. record {
              matches = same;
              active = active;
              unexpired = fresh;
              scoped = scope_allows-use_at now scope key ∙ ok;
              used = refl;
            })
            (λ e. tt))

  looked_up-Accepted :
      (now : ℕ) (key_hash : String) (scope : Option String) (keys : List ApiKey)
      → Accepted now key_hash scope
          (validate_found codec now key_hash scope keys (findb (is_usable codec key_hash) keys)).1
  looked_up-Accepted now key_hash scope keys =
      elim (Option-cases (findb (is_usable codec key_hash) keys)) [
        | inl e ↦ rw (e, validate_found) tt
        | inr (key, e) ↦
            let (same, active) = findb-usable key_hash keys key e in
            rw (e, validate_found) (found-Accepted now key_hash scope keys key same active)
      ]

  allowed-Accepted :
      (now : ℕ) (key_hash : String) (scope : Option String) (keys : List ApiKey) (allowed : Bool)
      → Accepted now key_hash scope (validate_allowed codec now key_hash scope keys allowed).1
  allowed-Accepted now key_hash scope keys true = looked_up-Accepted now key_hash scope keys
  allowed-Accepted now key_hash scope keys false = tt

  refused-none :
      (now : ℕ) (key_hash : String) (scope : Option String) (keys : List ApiKey) (allowed : Bool)
      → allowed ≡ false
      → validate_allowed codec now key_hash scope keys allowed ≡ (keys, none)
  refused-none now key_hash scope keys true e = absurd (ground arith)
  refused-none now key_hash scope keys false e = refl

  -- A key that is accepted is one whose hash is that of the text, it is active and not expired, it has the
  -- scope that is required, and the moment is noted on it. A request over the rate limit is refused and
  -- changes no key.
  pub validate_api_key_sound :
      (now : ℕ) (raw_key : String) (scope : Option String) (usage : Usage) (keys : List ApiKey)
      → let after = validate_api_key codec now raw_key scope (usage, keys) in
        ((key : ApiKey) → after.1 ≡ some key → Admits now (codec.hash_key raw_key) scope key)
        × ((check_api_key_rate now (codec.hash_key raw_key) 60 usage).1 ≡ false
            → (after.0.1 ≡ keys) × (after.1 ≡ none))
  unfolding validate_api_key
  validate_api_key_sound now raw_key scope usage keys =
      let key_hash = codec.hash_key raw_key in
      let allowed = (check_api_key_rate now key_hash 60 usage).1 in
      (
        λ key e.
            subst (Accepted now key_hash scope) e
              (allowed-Accepted now key_hash scope keys allowed),
        λ e.
            let none_found = refused-none now key_hash scope keys allowed e in
            (ap (λ r. r.0) none_found, ap (λ r. r.1) none_found),
      )
