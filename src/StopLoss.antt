-- ===== src/StopLoss.antt =====
-- The stop-loss guard of backend/app/services/stoploss_service.py. The four rate limits are columns
-- Numeric(5, 4), so they are whole numbers of ten-thousandths here and `count / size > limit` is
-- tested without the division; costs and their limit are whole numbers of one unit of money.
pub mod Verdict
pub mod Window
pub mod Streak
mod Tests
use jolly_jesters_mvp.Prelude.{
  ℕ, zero, suc, ◌+◌, ◌-◌, ◌*◌, Bool, true, false, ◌||◌, Option, none, some, List, [], ◌∷◌, ◌++◌,
  ltb, leb, ◌==◌, if◌then◌else◌, length, drop, countb,
}
use jolly_jesters_mvp.Enums.{ScrapeStatus, is_blocked_status}

pub record StopLossConfig : Type 0 where
  pub enabled : Bool
  pub window_size : ℕ
  pub max_error_rate : ℕ
  pub max_captcha_rate : ℕ
  pub max_consecutive_errors : ℕ
  pub max_retry_rate : ℕ
  pub max_blocked_rate : ℕ
  pub max_cost_per_1000 : ℕ

pub data Reason : Type 0 where
  consecutive_errors error_rate captcha_rate retry_rate blocked_rate cost_per_1000 : Reason

-- The `details` of a verdict; a rate is kept as the count and the window that it divides.
pub data Details : Type 0 where
  streak : (consecutive threshold timestamp : ℕ) → Details
  rate : (count threshold window timestamp : ℕ) → Details

pub record StopLossVerdict : Type 0 where
  pub should_stop : Bool
  pub reason : Option Reason
  pub details : Option Details

-- `_ERROR_STATUSES`
abbrev pub is_error_status : ScrapeStatus → Bool
is_error_status ScrapeStatus.error = true
is_error_status ScrapeStatus.network_error = true
is_error_status ScrapeStatus.blocked = true
is_error_status _ = false

pub record Entry : Type 0 where
  pub is_error : Bool
  pub has_captcha : Bool
  pub has_retry : Bool
  pub is_blocked : Bool
  pub cost : ℕ

pub record StopLossChecker : Type 0 where
  pub config : StopLossConfig
  pub window : List Entry
  pub consecutive_errors : ℕ

-- The arguments of `record`.
pub record Observation : Type 0 where
  pub scrape_status : ScrapeStatus
  pub captcha_solves : ℕ
  pub retries : ℕ
  pub is_blocked : Bool
  pub cost : ℕ

abbrev pub new_checker : StopLossConfig → StopLossChecker
new_checker config = record { config = config; window = []; consecutive_errors = 0 }

-- `deque(maxlen=size).append(e)`: what is too old falls out at the front.
abbrev pub append_bounded {ℓ} : {A : Type ℓ} → ℕ → A → List A → List A
append_bounded size e w = let w' = w ++ e ∷ [] in drop (length w' - size) w'

abbrev pub entry_of : Observation → Entry
entry_of o = record {
  is_error = is_error_status o.scrape_status;
  has_captcha = ltb 0 o.captcha_solves;
  has_retry = ltb 0 o.retries;
  is_blocked = o.is_blocked || is_blocked_status o.scrape_status;
  cost = o.cost;
}

-- The two writes that `record` makes before it judges.
abbrev pub observe : Entry → StopLossChecker → StopLossChecker
observe e c = record c {
  window = append_bounded c.config.window_size e c.window;
  consecutive_errors = if e.is_error then c.consecutive_errors + 1 else 0;
}

abbrev pub go_on : StopLossVerdict
go_on = record { should_stop = false; reason = none; details = none }

abbrev pub stop : Reason → Details → StopLossVerdict
stop r d = record { should_stop = true; reason = some r; details = some d }

abbrev pub total_cost : List Entry → ℕ
total_cost [] = 0
total_cost (e ∷ es) = e.cost + total_cost es

-- `count / size > limit`, for a limit in ten-thousandths.
abbrev pub rate_exceeds : (limit size count : ℕ) → Bool
rate_exceeds limit size count = ltb (limit * size) (count * 10000)

-- The checks on a full window, in the source's order.
unfoldable pub judge_rates : (now : ℕ) → StopLossConfig → List Entry → StopLossVerdict
judge_rates now k w =
    let size = length w in
    let errors = countb (λ e. e.is_error) w in
    let captchas = countb (λ e. e.has_captcha) w in
    let retries = countb (λ e. e.has_retry) w in
    let blocked = countb (λ e. e.is_blocked) w in
    let cost = total_cost w in
    if rate_exceeds k.max_error_rate size errors
    then stop error_rate (rate errors k.max_error_rate size now)
    else if rate_exceeds k.max_captcha_rate size captchas
    then stop captcha_rate (rate captchas k.max_captcha_rate size now)
    else if rate_exceeds k.max_retry_rate size retries
    then stop retry_rate (rate retries k.max_retry_rate size now)
    else if rate_exceeds k.max_blocked_rate size blocked
    then stop blocked_rate (rate blocked k.max_blocked_rate size now)
    else if ltb (k.max_cost_per_1000 * size) (cost * 1000)
    then stop cost_per_1000 (rate cost k.max_cost_per_1000 size now)
    else go_on

-- A verdict, or the ZeroDivisionError that a window of size 0 makes of the first rate.
pub data Judgement : Type 0 where
  verdict : StopLossVerdict → Judgement
  zero_division : Judgement

unfoldable pub judge : (now : ℕ) → StopLossChecker → Judgement
judge now c =
    if leb c.config.max_consecutive_errors c.consecutive_errors
    then verdict
        (stop consecutive_errors (streak c.consecutive_errors c.config.max_consecutive_errors now))
    else if ltb (length c.window) c.config.window_size
    then verdict go_on
    else if length c.window == 0
    then zero_division
    else verdict (judge_rates now c.config c.window)

-- `StopLossChecker.record`
unfoldable pub record_item : (now : ℕ) → Observation → StopLossChecker → StopLossChecker × Judgement
record_item now o c =
    if c.config.enabled
    then (let c' = observe (entry_of o) c in (c', judge now c'))
    else (c, verdict go_on)

abbrev pub record_items : List (ℕ × Observation) → StopLossChecker → StopLossChecker
record_items [] c = c
record_items ((now, o) ∷ rest) c = record_items rest (record_item now o c).0
