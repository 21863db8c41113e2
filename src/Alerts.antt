-- ===== src/Alerts.antt =====
-- The alert rules: `evaluate_rules_for_ean` and `delete_rule` of backend/app/services/alert_engine.py,
-- over the tables of alert_rule.py, alert_event.py and notification.py of backend/app/models. The texts
-- of messages are left out. A condition without its values does not hold, as in the code, where the
-- later branches ask for other names of conditions.
pub mod Fires
mod Tests
use jolly_jesters_mvp.Prelude.{
  ℕ, Bool, true, false, not, ◌&&◌, ◌||◌, Option, none, some, String, List, [], ◌∷◌, ◌++◌, map, anyb,
  ◌==◌, if◌then◌else◌, string_eq,
}
use jolly_jesters_mvp.Prelude.Int.{ℤ}
use jolly_jesters_mvp.Decimal.{Decimal, lt, is_zero}
use jolly_jesters_mvp.ProxyPool.{update_first}

pub record AlertRule (D : Type 0) : Type 0 where
  pub id : ℕ
  pub tenant_id : String
  pub name : String
  pub is_active : Bool
  pub ean : Option String
  pub condition_type : String
  pub threshold_value : Option D
  pub last_triggered_at : Option ℕ

pub record AlertEvent : Type 0 where
  pub tenant_id : String
  pub alert_rule_id : ℕ
  pub ean : String
  pub condition_type : String

-- The notification of a rule that has fired, by the rule's name.
pub record Notification : Type 0 where
  pub tenant_id : String
  pub rule_name : String

pub record AlertTables (D : Type 0) : Type 0 where
  pub rules : List (AlertRule D)
  pub events : List AlertEvent
  pub notifications : List Notification

-- The arguments about the product.
pub record Scrape (D : Type 0) : Type 0 where
  pub ean : String
  pub current_price : Option D
  pub previous_price : Option D
  pub is_not_found : Bool

-- The rules after an evaluation, the new events and the new notifications.
abbrev pub Evaluated : Type 0 → Type 0
Evaluated D = List (AlertRule D) × List AlertEvent × List Notification

-- `not (rule.ean and rule.ean != ean)`
abbrev pub concerns : (ean : String) → Option String → Bool
concerns ean none = true
concerns ean (some e) = string_eq.beq e "" || string_eq.beq e ean

module _ {D : Type 0} ⦃d : Decimal D⦄ where
  abbrev pub is_below : Option D → Option D → Bool
  is_below (some price) (some threshold) = not (is_zero threshold) && lt price threshold
  is_below _ _ = false

  abbrev pub is_above : Option D → Option D → Bool
  is_above (some price) (some threshold) = not (is_zero threshold) && lt threshold price
  is_above _ _ = false

  abbrev pub drop_pct : (current previous : D) → D
  drop_pct current previous = d.mul (d.div (d.sub previous current) previous) d.hundred

  abbrev pub has_dropped : Option D → Option D → Option D → Bool
  has_dropped (some current) (some previous) (some threshold) =
      not (is_zero current)
      && not (is_zero previous)
      && not (is_zero threshold)
      && lt d.zero previous
      && d.le threshold (drop_pct current previous)
  has_dropped _ _ _ = false

  -- `triggered`, after the branches.
  unfoldable pub is_triggered : Scrape D → AlertRule D → Bool
  is_triggered s rule =
      if string_eq.beq rule.condition_type "price_below"
      then is_below s.current_price rule.threshold_value
      else if string_eq.beq rule.condition_type "price_above"
      then is_above s.current_price rule.threshold_value
      else if string_eq.beq rule.condition_type "price_drop_pct"
      then has_dropped s.current_price s.previous_price rule.threshold_value
      else string_eq.beq rule.condition_type "out_of_stock" && s.is_not_found

  abbrev pub event_of : (tenant : String) → Scrape D → AlertRule D → AlertEvent
  event_of tenant s rule = record {
    tenant_id = tenant;
    alert_rule_id = rule.id;
    ean = s.ean;
    condition_type = rule.condition_type;
  }

  -- The rule is one of the query.
  abbrev pub is_selected : (tenant : String) → AlertRule D → Bool
  is_selected tenant rule = string_eq.beq rule.tenant_id tenant && rule.is_active

  -- A rule that does not fire, before the others.
  abbrev pub pass : AlertRule D → Evaluated D → Evaluated D
  pass rule (rules, events, notes) = (rule ∷ rules, events, notes)

  -- A rule that fires, before the others.
  abbrev pub fire : (now : ℕ) (tenant : String) → Scrape D → AlertRule D → Evaluated D → Evaluated D
  fire now tenant s rule (rules, events, notes) = (
    record rule { last_triggered_at = some now } ∷ rules,
    event_of tenant s rule ∷ events,
    record { tenant_id = tenant; rule_name = rule.name } ∷ notes,
  )

  -- The loop.
  unfoldable pub evaluate_rules :
      (now : ℕ) (tenant : String) → Scrape D → List (AlertRule D) → Evaluated D
  evaluate_rules now tenant s [] = ([], [], [])
  evaluate_rules now tenant s (rule ∷ rules) =
      let rest = evaluate_rules now tenant s rules in
      if not (is_selected tenant rule)
      then pass rule rest
      else if not (concerns s.ean rule.ean)
      then pass rule rest
      else if is_triggered s rule
      then fire now tenant s rule rest
      else pass rule rest

  -- `evaluate_rules_for_ean`: the events and the tables.
  unfoldable pub evaluate_rules_for_ean :
      (now : ℕ) (tenant : String) → Scrape D → AlertTables D → List AlertEvent × AlertTables D
  evaluate_rules_for_ean now tenant s t =
      let (rules', events, notes) = evaluate_rules now tenant s t.rules in
      (
        events,
        record {
          rules = rules';
          events = t.events ++ events;
          notifications = t.notifications ++ notes;
        },
      )

  abbrev pub is_rule : (tenant : String) → (id : ℕ) → AlertRule D → Bool
  is_rule tenant id rule = rule.id == id && string_eq.beq rule.tenant_id tenant

  -- `delete_rule`
  unfoldable pub delete_rule :
      (tenant : String) → (id : ℕ) → List (AlertRule D) → Bool × List (AlertRule D)
  delete_rule tenant id rules =
      if anyb (is_rule tenant id) rules
      then (true, update_first (is_rule tenant id) (λ r. record r { is_active = false }) rules)
      else (false, rules)
