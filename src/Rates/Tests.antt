-- ===== src/Rates/Tests.antt =====
-- An update of two rates without a default, and one that is refused.
use Prim.Native.Char.{code}
use jolly_jesters_mvp.Prelude.{
  ℕ, Bool, true, false, ◌&&◌, Option, some, String, List, [], ◌∷◌, ◌==◌, leb, ◌≡◌, refl,
}
use jolly_jesters_mvp.Prelude.Int.{ℤ, pos}
use jolly_jesters_mvp.Decimal.Scaled.{scaled}
use jolly_jesters_mvp.Import.Text.{Unicode}
use jolly_jesters_mvp.Rates.{
  CurrencyRate, truth, number, RateEntry, no_pln, refused_for, updated, update_currency_rates,
}
use jolly_jesters_mvp.Rates.Consistent.{Leaves, update_currency_rates-Leaves}

abbrev ascii : Unicode
ascii = record {
  is_space = λ c. code c == 32;
  is_digit = λ c. leb 48 (code c) && leb (code c) 57;
  upper = λ s. s;
  lower = λ s. s;
}

abbrev is_alpha : String → Bool
is_alpha s = true

-- A column that keeps every rate of the tests.
abbrev column : ℤ → Option ℤ
column x = some x

abbrev entry : String → ℕ → RateEntry ℤ
entry currency rate = record {
  currency = currency;
  rate = number (pos rate);
  is_default = truth false;
}

abbrev entries : List (RateEntry ℤ)
entries = entry "EUR" 430 ∷ entry "PLN" 100 ∷ []

abbrev before : List (CurrencyRate ℤ)
before = record { currency = "PLN"; rate_to_pln = pos 100; is_default = true } ∷ []

update_currency_rates-Leaves_example :
    Leaves ascii column entries before (update_currency_rates ascii is_alpha column entries before)
update_currency_rates-Leaves_example =
    update_currency_rates-Leaves ascii is_alpha column entries before

accepted : update_currency_rates ascii is_alpha column entries before ≡ (
  updated,
  record { currency = "EUR"; rate_to_pln = pos 430; is_default = false }
      ∷ record { currency = "PLN"; rate_to_pln = pos 100; is_default = true }
      ∷ [],
)
unfolding update_currency_rates
accepted = refl

without_pln :
    update_currency_rates ascii is_alpha column (entry "EUR" 430 ∷ []) before
    ≡ (refused_for no_pln, before)
unfolding update_currency_rates
without_pln = refl
