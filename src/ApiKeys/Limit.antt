-- ===== src/ApiKeys/Limit.antt =====
-- The rate limit of a key.
use jolly_jesters_mvp.Prelude.{
  ℕ, ◌+◌, ◌*◌, ◌≤◌, ◌<◌, Bool, true, false, not, Option, none, some, String, List, [], ◌∷◌, ◌++◌,
  length, filterb, length-filterb, countb, All, ltb, leb, lookup, insert, lookup-insert, string_eq,
  beq_refl, or_else, ◌≡◌, ◌↔◌, refl, sym, ap, ◌∙◌, subst, arith, Bool-cases, Option-cases, inl, inr,
  if◌then◌else◌, if-cases, append-nil,
}
use mathlib.Core.Option.{some-injective}
use jolly_jesters_mvp.ApiKeys.{
  Usage, stale_after, last_of, is_stale, is_recent, clean_stale, recent, check_api_key_rate,
}

-- The requests of a key that the table holds.
abbrev pub held : String → Usage → List ℕ
held key_hash usage = or_else (lookup key_hash usage) []

-- No key stands twice in the table.
abbrev pub HasOnce : Usage → Type 0
HasOnce [] = Unit
HasOnce ((key, ts) ∷ usage) = (lookup key usage ≡ none) × HasOnce usage

-- The moments rise, as they do when each new one is put at the end.
abbrev pub Rises : List ℕ → Type 0
Rises [] = Unit
Rises (t ∷ ts) = All (λ s. t ≤ s) ts × Rises ts

held-insert :
    (key_hash : String) (ts : List ℕ) (usage : Usage)
    → held key_hash (insert key_hash ts usage) ≡ ts
held-insert key_hash ts usage = rw (lookup-insert key_hash key_hash ts usage, beq_refl key_hash)

-- The last of rising moments is the greatest.
last_of-All : (ts : List ℕ) (last : ℕ) → Rises ts → last_of ts ≡ some last → All (λ t. t ≤ last) ts
last_of-All [] last h e = tt
last_of-All (t ∷ []) last h e =
    let same : t ≡ last = some-injective _ _ e in (omega (arith, same), tt)
last_of-All (t ∷ u ∷ ts) last h e =
    let rest = last_of-All (u ∷ ts) last h.1 e in (omega (arith, h.0.0, rest.0), rest)

none-recent :
    (now last : ℕ) (ts : List ℕ)
    → last + stale_after < now
    → All (λ t. t ≤ last) ts
    → filterb (is_recent now) ts ≡ []
none-recent now last [] old h = refl
none-recent now last (t ∷ ts) old h = ground (arith, none-recent now last ts old h.1)

stale-recent :
    (now : ℕ) (ts : List ℕ) → Rises ts → is_stale now ts ≡ true → filterb (is_recent now) ts ≡ []
stale-recent now [] h e = refl
stale-recent now (t ∷ ts) h e = elim (Option-cases (last_of (t ∷ ts))) [
  | inl f ↦ absurd (no_last t ts f)
  | inr (last, f) ↦
      none-recent now last (t ∷ ts) (ground (arith, f)) (last_of-All (t ∷ ts) last h f)
]
  where
    no_last : (t : ℕ) (ts : List ℕ) → last_of (t ∷ ts) ≡ none → ⊥
    no_last t [] f = absurd (ground arith)
    no_last t (u ∷ ts) f = no_last u ts f

abbrev kept_if : (List ℕ → Bool) → Option (List ℕ) → Option (List ℕ)
kept_if p none = none
kept_if p (some ts) = if p ts then some ts else none

lookup-filterb :
    (p : List ℕ → Bool) (key : String) (usage : Usage)
    → HasOnce usage
    → lookup key (filterb (λ e. p e.1) usage) ≡ kept_if p (lookup key usage)
lookup-filterb p key [] h = refl
lookup-filterb p key ((j, ts) ∷ usage) h =
    let rest = lookup-filterb p key usage h.1 in
    elim (Bool-cases (string_eq.beq j key)) [
      | inl here ↦
          let gone : lookup key usage ≡ none =
            subst (λ k. lookup k usage ≡ none) ((string_eq.beq_iff j key).0 here) h.0 in
          ground (arith, here, gone, rest)
      | inr other ↦ ground (arith, other, rest)
    ]

held-clean_stale :
    (now : ℕ) (key : String) (usage : Usage)
    → HasOnce usage
    → Rises (held key usage)
    → filterb (is_recent now) (held key (clean_stale now usage))
      ≡ filterb (is_recent now) (held key usage)
held-clean_stale now key usage once rises =
    if-cases
      (λ (table : Usage).
        filterb (is_recent now) (held key table) ≡ filterb (is_recent now) (held key usage))
      (ltb 10000 (length usage)) (filterb (λ e. not (is_stale now e.1)) usage) usage
      (λ full.
        ap (λ o. filterb (is_recent now) (or_else o []))
          (lookup-filterb (λ ts. not (is_stale now ts)) key usage once)
        ∙ on_lookup (lookup key usage) rises)
      (λ small. refl)
  where
    on_lookup :
        (o : Option (List ℕ))
        → Rises (or_else o [])
        → filterb (is_recent now) (or_else (kept_if (λ ts. not (is_stale now ts)) o) [])
          ≡ filterb (is_recent now) (or_else o [])
    on_lookup none r = refl
    on_lookup (some ts) r =
        if-cases
          (λ (o : Option (List ℕ)).
            filterb (is_recent now) (or_else o []) ≡ filterb (is_recent now) ts)
          (not (is_stale now ts)) (some ts) none (λ live. refl)
          (λ stale. sym (stale-recent now ts r (ground arith)))

module _ (now max_per_minute : ℕ) (key_hash : String) (usage : Usage) where
  abbrev counted : List ℕ
  counted = recent now key_hash (clean_stale now usage)

  check-refused :
      leb max_per_minute (length counted) ≡ true
      → check_api_key_rate now key_hash max_per_minute usage
        ≡ (insert key_hash counted (clean_stale now usage), false)
  unfolding check_api_key_rate
  check-refused e = rw e

  check-allowed :
      leb max_per_minute (length counted) ≡ false
      → check_api_key_rate now key_hash max_per_minute usage
        ≡ (insert key_hash (counted ++ now ∷ []) (clean_stale now usage), true)
  unfolding check_api_key_rate
  check-allowed e = rw e

  -- Where no key stands twice in the table and the moments of the key rise, a check allows a request
  -- exactly when fewer than the limit of the key's requests in the table are less than a minute old,
  -- whether or not the table is cleaned first. It then holds those requests, in order, with the new one
  -- at the end, and else those alone.
  pub check_api_key_rate_limits :
      HasOnce usage
      → Rises (held key_hash usage)
      → let after = check_api_key_rate now key_hash max_per_minute usage in
        let is_young = λ (t : ℕ). ltb now (t + 60 * 1000000) in
        ((after.1 ≡ true) ↔ (countb is_young (held key_hash usage) < max_per_minute))
        × (held key_hash after.0
            ≡ filterb is_young (held key_hash usage) ++ (if after.1 then now ∷ [] else []))
  check_api_key_rate_limits once rises =
      let same = held-clean_stale now key_hash usage once rises in
      let size : length counted ≡ countb (is_recent now) (held key_hash usage) =
        ap length same ∙ length-filterb (is_recent now) (held key_hash usage) in
      elim (Bool-cases (leb max_per_minute (length counted))) [
        | inl e ↦
            rw (check-refused e, held-insert key_hash counted (clean_stale now usage))
              (ground (arith, size), same ∙ sym (append-nil _))
        | inr e ↦
            rw (check-allowed e, held-insert key_hash (counted ++ now ∷ []) (clean_stale now usage))
              (ground (arith, size), ap (λ l. l ++ now ∷ []) same)
      ]
