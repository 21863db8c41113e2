-- ===== src/Alerts/Tests.antt =====
-- Three rules of a tenant, of which one fires.
use jolly_jesters_mvp.Prelude.{
  ℕ, true, false, none, some, String, [], ◌∷◌, ◌++◌, map, filterb, ◌≡◌, ◌↔◌, refl,
}
use jolly_jesters_mvp.Prelude.Int.{ℤ, pos}
use jolly_jesters_mvp.Decimal.Scaled.{scaled}
use jolly_jesters_mvp.Alerts.{
  AlertRule, AlertTables, Scrape, is_triggered, event_of, evaluate_rules, evaluate_rules_for_ean,
}
use jolly_jesters_mvp.Alerts.Fires.{fires, mark, note_of, Fires, evaluate_rules_for_ean-fires}

abbrev rule : (id : ℕ) → (ean condition_type : String) → (threshold : ℕ) → AlertRule ℤ
rule id ean condition_type threshold = record {
  id = id;
  tenant_id = "t";
  name = "Rule";
  is_active = true;
  ean = some ean;
  condition_type = condition_type;
  threshold_value = some (pos threshold);
  last_triggered_at = none;
}

abbrev tables : AlertTables ℤ
tables = record {
  rules =
      rule 1 "" "price_below" 2000
      ∷ rule 2 "591" "price_below" 2000
      ∷ rule 3 "590" "price_below" 0
      ∷ [];
  events = [];
  notifications = [];
}

abbrev scrape : Scrape ℤ
scrape = record {
  ean = "590";
  current_price = some (pos 1900);
  previous_price = some (pos 2500);
  is_not_found = false;
}

evaluate_rules_for_ean-fires_example :
    let (events, t') = evaluate_rules_for_ean 7 "t" scrape tables in
    (events ≡ map (event_of "t" scrape) (filterb (fires 7 "t" scrape) tables.rules))
    × (t'.events ≡ tables.events ++ events)
    × (t'.rules ≡ map (mark 7 "t" scrape) tables.rules)
    × (t'.notifications
        ≡ tables.notifications
          ++ map (note_of 7 "t" scrape) (filterb (fires 7 "t" scrape) tables.rules))
    × ((r : AlertRule ℤ) → (fires 7 "t" scrape r ≡ true) ↔ Fires 7 "t" scrape r)
evaluate_rules_for_ean-fires_example = evaluate_rules_for_ean-fires 7 "t" scrape tables

fired : map (λ e. e.alert_rule_id) (evaluate_rules_for_ean 7 "t" scrape tables).0 ≡ 1 ∷ []
unfolding evaluate_rules_for_ean evaluate_rules is_triggered
fired = refl
