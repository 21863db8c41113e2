-- ===== src/Rates.antt =====
-- The currency rates: `update_currency_rates` and `get_currency_rate_map` of
-- backend/app/services/settings_service.py, over the table of backend/app/models/currency_rate.py, whose
-- primary key is the code. What Python knows of Unicode is a parameter, and so are the conversion of a
-- rate into a `Decimal`, whose result stands in the entry, and the rounding of the database to a column
-- Numeric(12, 6), `none` for the error that a number out of range gives.
pub mod Consistent
mod Tests
use Prim.Native.String.{count}
use jolly_jesters_mvp.Prelude.{
  ℕ, suc, ◌+◌, Bool, true, false, not, ◌&&◌, ◌||◌, Option, none, some, String, List, [], ◌∷◌, map,
  anyb, countb, ◌==◌, ltb, if◌then◌else◌, string_eq, Dict, insert,
}
use jolly_jesters_mvp.Decimal.{Decimal}
use jolly_jesters_mvp.Import.Text.{Unicode, is_in, strip}
use jolly_jesters_mvp.ProxyPool.{update_first}

pub record CurrencyRate (D : Type 0) : Type 0 where
  pub currency : String
  pub rate_to_pln : D
  pub is_default : Bool

-- `is_default` of an entry: a text or a value with a truth.
pub data DefaultFlag : Type 0 where
  text : String → DefaultFlag
  truth : Bool → DefaultFlag

-- What `Decimal(str(rate_to_pln))` gives: an exception, a NaN, or a number.
pub data RateValue (D : Type 0) : Type 0 where
  unreadable not_a_number : RateValue D
  number : D → RateValue D

pub record RateEntry (D : Type 0) : Type 0 where
  pub currency : String
  pub rate : RateValue D
  pub is_default : DefaultFlag

-- The reasons of the ValueErrors, and `nan_compared`, the InvalidOperation of a comparison with a NaN.
pub data RateError : Type 0 where
  nan_compared no_rates invalid_code invalid_rate rate_not_positive no_pln pln_not_one
        several_defaults :
      RateError

pub data Normalized (D : Type 0) : Type 0 where
  refused : RateError → Normalized D
  normal : List (CurrencyRate D) → Normalized D

-- `database_error` is the exception of the database, for a code that stands twice or a rate that is too
-- large for its column.
pub data Update : Type 0 where
  refused_for : RateError → Update
  database_error : Update
  updated : Update

abbrev pub is_pln : {D : Type 0} → CurrencyRate D → Bool
is_pln r = string_eq.beq r.currency "PLN"

abbrev pub has_code : {D : Type 0} → String → CurrencyRate D → Bool
has_code code r = string_eq.beq r.currency code

-- A code stands twice.
abbrev pub repeats : {D : Type 0} → List (CurrencyRate D) → Bool
repeats [] = false
repeats (r ∷ rs) = anyb (has_code r.currency) rs || repeats rs

abbrev pub flag_of : Unicode → DefaultFlag → Bool
flag_of u (text s) = is_in ("1" ∷ "true" ∷ "yes" ∷ "on" ∷ []) (u.lower (strip u s))
flag_of u (truth b) = b

abbrev pub prepend_rate : {D : Type 0} → CurrencyRate D → Normalized D → Normalized D
prepend_rate r (refused e) = refused e
prepend_rate r (normal rs) = normal (r ∷ rs)

-- The table after a commit that wrote rows, unless a row was out of range.
abbrev pub write_rates :
    {D : Type 0}
    → (table : List (CurrencyRate D)) → Option (List (CurrencyRate D))
    → Update × List (CurrencyRate D)
write_rates table none = (database_error, table)
write_rates table (some rows) = (updated, rows)

-- A row with its rate in the column's range, before the others.
abbrev pub store_rate :
    {D : Type 0}
    → CurrencyRate D
    → Option D
    → Option (List (CurrencyRate D))
    → Option (List (CurrencyRate D))
store_rate r (some rate) (some rows) = some (record r { rate_to_pln = rate } ∷ rows)
store_rate r _ _ = none

-- The rows as the database keeps them.
abbrev pub stored_rates :
    {D : Type 0}
    → (to_numeric : D → Option D) → List (CurrencyRate D)
    → Option (List (CurrencyRate D))
stored_rates to_numeric [] = some []
stored_rates to_numeric (r ∷ rs) =
    store_rate r (to_numeric r.rate_to_pln) (stored_rates to_numeric rs)

module _ {D : Type 0} ⦃d : Decimal D⦄ (u : Unicode) (is_alpha : String → Bool) where
  -- An entry with its rate, before the entries behind it.
  abbrev pub normalize_entry : RateEntry D → RateValue D → Normalized D → Normalized D
  normalize_entry e unreadable rest = refused invalid_rate
  normalize_entry e not_a_number rest = refused nan_compared
  normalize_entry e (number rate) rest =
      if d.le rate d.zero
      then refused rate_not_positive
      else prepend_rate
          (record {
            currency = u.upper e.currency;
            rate_to_pln = rate;
            is_default = flag_of u e.is_default;
          })
          rest

  -- The loop over the entries.
  abbrev pub normalize : List (RateEntry D) → Normalized D
  normalize [] = normal []
  normalize (e ∷ es) =
      let rest = normalize es in
      let code = u.upper e.currency in
      if not (count code == 3) || not (is_alpha code)
      then refused invalid_code
      else normalize_entry e e.rate rest

  abbrev pub is_not_one : CurrencyRate D → Bool
  is_not_one r = is_pln r && not (d.le r.rate_to_pln d.one && d.le d.one r.rate_to_pln)

  abbrev pub default_count : List (CurrencyRate D) → ℕ
  default_count = countb (λ r. r.is_default)

  -- PLN becomes the default where there is none.
  abbrev pub with_default : List (CurrencyRate D) → List (CurrencyRate D)
  with_default rs =
      if default_count rs == 0
      then update_first is_pln (λ r. record r { is_default = true }) rs
      else rs

  -- The checks of all the rates together.
  abbrev pub check_rates : List (CurrencyRate D) → Normalized D
  check_rates rs =
      if not (anyb is_pln rs)
      then refused no_pln
      else if anyb is_not_one rs
      then refused pln_not_one
      else if ltb 1 (default_count rs)
      then refused several_defaults
      else normal (with_default rs)

  -- The rates take the place of the table's, rounded to its column, unless a code stands twice.
  abbrev pub commit_rates :
      (to_numeric : D → Option D)
      → Normalized D
      → List (CurrencyRate D)
      → Update × List (CurrencyRate D)
  commit_rates to_numeric (refused e) table = (refused_for e, table)
  commit_rates to_numeric (normal rs) table =
      if repeats rs then (database_error, table) else write_rates table (stored_rates to_numeric rs)

  abbrev pub checked : Normalized D → Normalized D
  checked (refused e) = refused e
  checked (normal rs) = check_rates rs

  -- `update_currency_rates`
  unfoldable pub update_currency_rates :
      (to_numeric : D → Option D)
      → List (RateEntry D)
      → List (CurrencyRate D)
      → Update × List (CurrencyRate D)
  update_currency_rates to_numeric [] table = (refused_for no_rates, table)
  update_currency_rates to_numeric (e ∷ es) table =
      commit_rates to_numeric (checked (normalize (e ∷ es))) table

  -- `get_currency_rate_map` on the rows of the table: the rates by code, and the default code.
  unfoldable pub rate_map_from :
      Dict String D → Option String → List (CurrencyRate D) → Dict String D × Option String
  rate_map_from mapping code [] = (mapping, code)
  rate_map_from mapping code (r ∷ rs) =
      rate_map_from (insert (u.upper r.currency) r.rate_to_pln mapping)
        (if r.is_default then some (u.upper r.currency) else code) rs

  unfoldable pub get_currency_rate_map : List (CurrencyRate D) → Dict String D × Option String
  get_currency_rate_map table = rate_map_from [] none table
