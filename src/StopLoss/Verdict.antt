-- ===== src/StopLoss/Verdict.antt =====
-- Which verdict `record` returns, on every branch.
use jolly_jesters_mvp.Prelude.{
  refl, ◌⊎◌, ℕ, ◌*◌, ◌≤◌, ◌<◌, ◌≡◌, ◌≢◌, ◌↔◌, Bool, true, none, some, List, arith, length, countb,
  inl, inr,
}
use jolly_jesters_mvp.StopLoss.{
  Reason, consecutive_errors, error_rate, captcha_rate, retry_rate, blocked_rate, cost_per_1000,
  StopLossVerdict, Entry, StopLossChecker, Observation, entry_of, observe, total_cost, judge_rates,
  Judgement, verdict, zero_division, judge, record_item,
}

-- The share of the window that passes a test is above the limit, in ten-thousandths.
abbrev Above : (limit : ℕ) → (Entry → Bool) → List Entry → Type 0
Above limit p w = limit * length w < countb p w * 10000

-- What each reason says of the checker; the five rates count on a full window only.
abbrev pub Trips : Reason → StopLossChecker → Type 0
Trips consecutive_errors c = c.config.max_consecutive_errors ≤ c.consecutive_errors
Trips error_rate c =
    (c.config.window_size ≤ length c.window)
    × Above c.config.max_error_rate (λ e. e.is_error) c.window
Trips captcha_rate c =
    (c.config.window_size ≤ length c.window)
    × Above c.config.max_captcha_rate (λ e. e.has_captcha) c.window
Trips retry_rate c =
    (c.config.window_size ≤ length c.window)
    × Above c.config.max_retry_rate (λ e. e.has_retry) c.window
Trips blocked_rate c =
    (c.config.window_size ≤ length c.window)
    × Above c.config.max_blocked_rate (λ e. e.is_blocked) c.window
Trips cost_per_1000 c =
    (c.config.window_size ≤ length c.window)
    × (c.config.max_cost_per_1000 * length c.window < total_cost c.window * 1000)

-- The order in which the reasons are tried.
abbrev pub rank : Reason → ℕ
rank consecutive_errors = 0
rank error_rate = 1
rank captcha_rate = 2
rank retry_rate = 3
rank blocked_rate = 4
rank cost_per_1000 = 5

-- What a judgement has to say of the checker that it judged.
abbrev pub Explains : Judgement → StopLossChecker → Type 0
Explains zero_division c = c.config.window_size ≡ 0
Explains (verdict v) c =
    (r : Reason)
    → (v.reason ≡ some r) ↔ (Trips r c × ((q : Reason) → rank q < rank r → ¬ Trips q c))

module _ (now : ℕ) (c : StopLossChecker) (v : StopLossVerdict) (e : judge now c ≡ verdict v) where
  reason-Trips : (r : Reason) → v.reason ≡ some r → Trips r c
  unfolding judge judge_rates
  reason-Trips consecutive_errors h = ground arith
  reason-Trips error_rate h = ground arith
  reason-Trips captcha_rate h = ground arith
  reason-Trips retry_rate h = ground arith
  reason-Trips blocked_rate h = ground arith
  reason-Trips cost_per_1000 h = ground arith

  reason_first : (r q : Reason) → v.reason ≡ some r → rank q < rank r → ¬ Trips q c
  unfolding judge judge_rates
  reason_first r consecutive_errors h less t = ground arith
  reason_first r error_rate h less t = ground arith
  reason_first r captcha_rate h less t = ground arith
  reason_first r retry_rate h less t = ground arith
  reason_first r blocked_rate h less t = ground arith
  reason_first r cost_per_1000 h less t = ground arith

-- A verdict stops exactly when it has a reason.
pub should_stop_iff :
    (now : ℕ) (c : StopLossChecker) (v : StopLossVerdict)
    → judge now c ≡ verdict v
    → (v.should_stop ≡ true) ↔ (v.reason ≢ none)
unfolding judge judge_rates
should_stop_iff now c v e = ground arith

Trips-reason :
    (now : ℕ) (c : StopLossChecker) (v : StopLossVerdict)
    → judge now c ≡ verdict v
    → (r : Reason) → Trips r c
    → ((q : Reason) → rank q < rank r → ¬ Trips q c)
    → v.reason ≡ some r
unfolding judge judge_rates
Trips-reason now c v e consecutive_errors t h = ground arith
Trips-reason now c v e error_rate t h = ground (arith, h consecutive_errors (omega arith))
Trips-reason now c v e captcha_rate t h =
    ground (arith, h consecutive_errors (omega arith), h error_rate (omega arith))
Trips-reason now c v e retry_rate t h = ground (
  arith,
  h consecutive_errors (omega arith),
  h error_rate (omega arith),
  h captcha_rate (omega arith),
)
Trips-reason now c v e blocked_rate t h = ground (
  arith,
  h consecutive_errors (omega arith),
  h error_rate (omega arith),
  h captcha_rate (omega arith),
  h retry_rate (omega arith),
)
Trips-reason now c v e cost_per_1000 t h = ground (
  arith,
  h consecutive_errors (omega arith),
  h error_rate (omega arith),
  h captcha_rate (omega arith),
  h retry_rate (omega arith),
  h blocked_rate (omega arith),
)

Judgement-cases : (j : Judgement) → (j ≡ zero_division) ⊎ ((v : StopLossVerdict) × (j ≡ verdict v))
Judgement-cases (verdict v) = inr (v, refl)
Judgement-cases zero_division = inl refl

-- The division by zero needs a window of size 0.
pub zero_division-window_size :
    (now : ℕ) (c : StopLossChecker) → judge now c ≡ zero_division → c.config.window_size ≡ 0
unfolding judge
zero_division-window_size now c e = ground arith

judge-Explains : (now : ℕ) (c : StopLossChecker) → Explains (judge now c) c
judge-Explains now c = elim (Judgement-cases (judge now c)) [
  | inl e ↦ rw e (zero_division-window_size now c e)
  | inr (v, e) ↦ rw e (λ r. (
    λ h. (reason-Trips now c v e r h, λ q. reason_first now c v e r q h),
    λ (t, first). Trips-reason now c v e r t first,
  ))
]

record_item_on :
    (now : ℕ) (o : Observation) (c : StopLossChecker)
    → c.config.enabled ≡ true
    → record_item now o c ≡ (observe (entry_of o) c, judge now (observe (entry_of o) c))
unfolding record_item
record_item_on now o c on = ground arith

-- An enabled guard first takes the item into its window, and then gives a reason to stop exactly
-- when the reason's condition holds of the new window and streak and that of no reason before it
-- in the list does; a ZeroDivisionError is possible only for a window of size 0.
pub record_item-Explains :
    (now : ℕ) (o : Observation) (c : StopLossChecker)
    → c.config.enabled ≡ true
    → let (c', j) = record_item now o c in (c' ≡ observe (entry_of o) c) × Explains j c'
record_item-Explains now o c on =
    rw (record_item_on now o c on) (refl, judge-Explains now (observe (entry_of o) c))
