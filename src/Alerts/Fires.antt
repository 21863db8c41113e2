-- ===== src/Alerts/Fires.antt =====
-- Which rules fire, and what an evaluation writes.
use jolly_jesters_mvp.Prelude.{
  ℕ, Bool, true, false, not, ◌&&◌, some, String, List, [], ◌∷◌, ◌++◌, map, filterb, ◌≡◌, ◌⊎◌, ◌↔◌,
  Option, none, refl, ap, arith, Bool-cases, inl, inr, if◌then◌else◌, if-cases, string_eq,
}
use mathlib.Core.Option.{some-injective}
use jolly_jesters_mvp.Decimal.{Decimal, lt, is_zero}
use jolly_jesters_mvp.Alerts.{
  AlertRule, AlertTables, Notification, Scrape, concerns, is_below, is_above, has_dropped,
  is_triggered, event_of, is_selected, Evaluated, pass, fire, evaluate_rules,
  evaluate_rules_for_ean,
}

module _ {D : Type 0} ⦃d : Decimal D⦄ (now : ℕ) (tenant : String) (s : Scrape D) where
  -- An active rule of the tenant, for every EAN or for this one, whose condition holds.
  abbrev pub fires : AlertRule D → Bool
  fires rule = is_selected tenant rule && concerns s.ean rule.ean && is_triggered s rule

  abbrev pub mark : AlertRule D → AlertRule D
  mark rule = if fires rule then record rule { last_triggered_at = some now } else rule

  -- The notification of a rule that fires.
  abbrev pub note_of : AlertRule D → Notification
  note_of rule = record { tenant_id = tenant; rule_name = rule.name }

  pub record IsEvaluated (before : List (AlertRule D)) (r : Evaluated D) : Type 0 where
    pub rules : r.0 ≡ map mark before
    pub events : r.1 ≡ map (event_of tenant s) (filterb fires before)
    pub notes : r.2 ≡ map note_of (filterb fires before)

  pass-IsEvaluated :
      (rule : AlertRule D) (rules : List (AlertRule D)) (r : Evaluated D)
      → fires rule ≡ false
      → IsEvaluated rules r
      → IsEvaluated (rule ∷ rules) (pass rule r)
  pass-IsEvaluated rule rules r silent h = record {
    rules = rw silent (ap (λ rs. rule ∷ rs) h.rules);
    events = rw silent h.events;
    notes = rw silent h.notes;
  }

  fire-IsEvaluated :
      (rule : AlertRule D) (rules : List (AlertRule D)) (r : Evaluated D)
      → fires rule ≡ true
      → IsEvaluated rules r
      → IsEvaluated (rule ∷ rules) (fire now tenant s rule r)
  fire-IsEvaluated rule rules r loud h = record {
    rules = rw loud (ap (λ rs. record rule { last_triggered_at = some now } ∷ rs) h.rules);
    events = rw loud (ap (λ es. event_of tenant s rule ∷ es) h.events);
    notes = rw loud (ap (λ ns. note_of rule ∷ ns) h.notes);
  }

  evaluate_rules-IsEvaluated :
      (rules : List (AlertRule D)) → IsEvaluated rules (evaluate_rules now tenant s rules)
  unfolding evaluate_rules
  evaluate_rules-IsEvaluated [] = record { rules = refl; events = refl; notes = refl }
  evaluate_rules-IsEvaluated (rule ∷ rules) =
      let r = evaluate_rules now tenant s rules in
      let h = evaluate_rules-IsEvaluated rules in
      if-cases (IsEvaluated (rule ∷ rules)) (not (is_selected tenant rule)) _ _
        (λ e. pass-IsEvaluated rule rules r (ground arith) h)
        (λ selected.
          if-cases (IsEvaluated (rule ∷ rules)) (not (concerns s.ean rule.ean)) _ _
            (λ e. pass-IsEvaluated rule rules r (ground arith) h)
            (λ concerned.
              if-cases (IsEvaluated (rule ∷ rules)) (is_triggered s rule) _ _
                (λ e. fire-IsEvaluated rule rules r (ground arith) h)
                (λ e. pass-IsEvaluated rule rules r (ground arith) h)))

  -- A price and a threshold other than zero, which stand in a relation.
  abbrev pub Both : (D → D → Type 0) → Option D → Option D → Type 0
  Both R price threshold =
      (p : D) × (t : D) × (price ≡ some p) × (threshold ≡ some t) × (is_zero t ≡ false) × R p t

  -- Of two prices, the current one lies at least the threshold below the previous one, which is above
  -- zero, in hundredths of the previous one.
  abbrev pub Drops : Option D → Option D → Option D → Type 0
  Drops current previous threshold =
      (c : D) × (p : D) × (t : D) × (current ≡ some c)
      × (previous ≡ some p)
      × (threshold ≡ some t)
      × (is_zero c ≡ false)
      × (is_zero p ≡ false)
      × (is_zero t ≡ false)
      × (lt d.zero p ≡ true)
      × (d.le t (d.mul (d.div (d.sub p c) p) d.hundred) ≡ true)

  is_below_iff :
      (price threshold : Option D)
      → (is_below price threshold ≡ true) ↔ Both (λ p t. lt p t ≡ true) price threshold
  is_below_iff none threshold =
      (λ e. absurd (ground arith), λ (p, t, e, f, z, l). absurd (ground arith))
  is_below_iff (some price) none =
      (λ e. absurd (ground arith), λ (p, t, e, f, z, l). absurd (ground arith))
  is_below_iff (some price) (some threshold) = (
    λ e. (price, threshold, refl, refl, ground arith, ground arith),
    λ (p, t, e, f, z, l). rw (some-injective _ _ e, some-injective _ _ f, z, l) refl,
  )

  is_above_iff :
      (price threshold : Option D)
      → (is_above price threshold ≡ true) ↔ Both (λ p t. lt t p ≡ true) price threshold
  is_above_iff none threshold =
      (λ e. absurd (ground arith), λ (p, t, e, f, z, l). absurd (ground arith))
  is_above_iff (some price) none =
      (λ e. absurd (ground arith), λ (p, t, e, f, z, l). absurd (ground arith))
  is_above_iff (some price) (some threshold) = (
    λ e. (price, threshold, refl, refl, ground arith, ground arith),
    λ (p, t, e, f, z, l). rw (some-injective _ _ e, some-injective _ _ f, z, l) refl,
  )

  has_dropped_iff :
      (current previous threshold : Option D)
      → (has_dropped current previous threshold ≡ true) ↔ Drops current previous threshold
  has_dropped_iff none previous threshold =
      (λ e. absurd (ground arith), λ h. absurd (ground (arith, h.3)))
  has_dropped_iff (some current) none threshold =
      (λ e. absurd (ground arith), λ h. absurd (ground (arith, h.4)))
  has_dropped_iff (some current) (some previous) none =
      (λ e. absurd (ground arith), λ h. absurd (ground (arith, h.5)))
  has_dropped_iff (some current) (some previous) (some threshold) = (
    λ e. (
      current,
      previous,
      threshold,
      refl,
      refl,
      refl,
      ground arith,
      ground arith,
      ground arith,
      ground arith,
      ground arith,
    ),
    λ (c, p, t, e, f, g, zc, zp, zt, l, m).
        rw (some-injective _ _ e, some-injective _ _ f, some-injective _ _ g, zc, zp, zt, l, m)
          refl,
  )

  -- What it takes for the condition of a rule to hold.
  abbrev pub Holds : AlertRule D → Type 0
  Holds rule =
      ((rule.condition_type ≡ "price_below")
        × Both (λ price threshold. lt price threshold ≡ true) s.current_price rule.threshold_value)
      ⊎ ((rule.condition_type ≡ "price_above")
          × Both (λ price threshold. lt threshold price ≡ true) s.current_price
              rule.threshold_value)
      ⊎ ((rule.condition_type ≡ "price_drop_pct")
          × Drops s.current_price s.previous_price rule.threshold_value)
      ⊎ ((rule.condition_type ≡ "out_of_stock") × (s.is_not_found ≡ true))

  abbrev pub Concerns : Option String → Type 0
  Concerns ean = (ean ≡ none) ⊎ (ean ≡ some "") ⊎ (ean ≡ some s.ean)

  concerns_iff : (ean : Option String) → (concerns s.ean ean ≡ true) ↔ Concerns ean
  concerns_iff none = (λ e. inl refl, λ h. refl)
  concerns_iff (some ean) = (
    λ e. elim (Bool-cases (string_eq.beq ean "")) [
      | inl blank ↦ inr (inl (ap (λ x. some x) ((string_eq.beq_iff ean "").0 blank)))
      | inr other ↦ inr (inr (ap (λ x. some x) ((string_eq.beq_iff ean s.ean).0 (ground arith))))
    ],
    λ h. elim h [
      | inl e ↦ absurd (ground arith)
      | inr (inl e) ↦ rw (some-injective _ _ e) refl
      | inr (inr e) ↦
          let same = (string_eq.beq_iff ean s.ean).1 (some-injective _ _ e) in ground (arith, same)
    ],
  )

  is_triggered-Holds : (rule : AlertRule D) → is_triggered s rule ≡ true → Holds rule
  unfolding is_triggered
  is_triggered-Holds rule =
      let named = λ (name : String). string_eq.beq_iff rule.condition_type name in
      if-cases (λ b. b ≡ true → Holds rule) (string_eq.beq rule.condition_type "price_below") _ _
        (λ e h. inl ((named "price_below").0 e, (is_below_iff _ _).0 h))
        (λ other.
          if-cases (λ b. b ≡ true → Holds rule) (string_eq.beq rule.condition_type "price_above") _
            _ (λ e h. inr (inl ((named "price_above").0 e, (is_above_iff _ _).0 h)))
            (λ other'.
              if-cases (λ b. b ≡ true → Holds rule)
                (string_eq.beq rule.condition_type "price_drop_pct") _ _
                (λ e h. inr (inr (inl ((named "price_drop_pct").0 e, (has_dropped_iff _ _ _).0 h))))
                (λ other'' h.
                  inr (inr (inr ((named "out_of_stock").0 (ground arith), ground arith))))))

  Holds-is_triggered : (rule : AlertRule D) → Holds rule → is_triggered s rule ≡ true
  unfolding is_triggered
  Holds-is_triggered rule (inl (e, h)) = rw e ((is_below_iff _ _).1 h)
  Holds-is_triggered rule (inr (inl (e, h))) = rw e ((is_above_iff _ _).1 h)
  Holds-is_triggered rule (inr (inr (inl (e, h)))) = rw e ((has_dropped_iff _ _ _).1 h)
  Holds-is_triggered rule (inr (inr (inr (e, h)))) = rw e h

  -- When a rule is to fire: it is active, belongs to the tenant, is for every EAN or for this one, and
  -- its condition holds.
  abbrev pub Fires : AlertRule D → Type 0
  Fires rule = (rule.tenant_id ≡ tenant) × (rule.is_active ≡ true) × Concerns rule.ean × Holds rule

  fires_iff : (rule : AlertRule D) → (fires rule ≡ true) ↔ Fires rule
  fires_iff rule = (
    λ e. (
      (string_eq.beq_iff rule.tenant_id tenant).0 (ground arith),
      ground arith,
      (concerns_iff rule.ean).0 (ground arith),
      is_triggered-Holds rule (ground arith),
    ),
    λ (owned, active, concerned, holds).
        let a = (string_eq.beq_iff rule.tenant_id tenant).1 owned in
        let b = (concerns_iff rule.ean).1 concerned in
        let c = Holds-is_triggered rule holds in ground (arith, a, b, c, active),
  )

  -- The evaluation of a tenant's rules writes, for exactly the rules that fire and in their order, an
  -- event, which it also returns, and a notification under the rule's name; and it dates those rules and
  -- no other. A rule fires exactly if it is active, belongs to the tenant, is for every EAN or for this
  -- one, and one of four conditions holds: the price is below the threshold, or above it, or lies at
  -- least the threshold, in hundredths of the previous price, below a previous price above zero, or
  -- the product was not found; a price that takes part must be there, the threshold must be there and
  -- not be zero, and for a drop neither price may be zero.
  pub evaluate_rules_for_ean-fires :
      (t : AlertTables D)
      → let (events, t') = evaluate_rules_for_ean now tenant s t in
        (events ≡ map (event_of tenant s) (filterb fires t.rules))
        × (t'.events ≡ t.events ++ events)
        × (t'.rules ≡ map mark t.rules)
        × (t'.notifications ≡ t.notifications ++ map note_of (filterb fires t.rules))
        × ((rule : AlertRule D) → (fires rule ≡ true) ↔ Fires rule)
  unfolding evaluate_rules_for_ean
  evaluate_rules_for_ean-fires t =
      let h = evaluate_rules-IsEvaluated t.rules in
      (h.events, refl, h.rules, ap (λ ns. t.notifications ++ ns) h.notes, fires_iff)
