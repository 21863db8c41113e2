-- ===== src/Import/Reader.antt =====
-- The rows that `read_excel_file` of backend/app/utils/excel_reader.py makes of a sheet, from the place
-- where its columns are known: the rates, the currency of a row, its checks and its price.
use Prim.Native.String.{count}
use jolly_jesters_mvp.Prelude.{
  ℕ, suc, ◌+◌, Bool, true, false, not, ◌&&◌, Option, none, some, String, List, [], ◌∷◌, leb, ltb,
  if◌then◌else◌, string_eq, Dict, lookup, insert,
}
use jolly_jesters_mvp.Decimal.{Decimal, lt}
use jolly_jesters_mvp.Import.Text.{Unicode, is_empty, text_or, strip, first_words, digits}
use jolly_jesters_mvp.Import.Cells.{
  Cell, missing, is_missing, show, as_whole, sanitize_cell_value, detect_currency_from_header,
  normalize_currency_text, normalize_currency_token, Parsed, not_decimal, nan, finite, finite_of,
  parse_price,
}
use jolly_jesters_mvp.Import.Rows.{InputRow}

-- A row of the sheet, at the columns that were found.
pub record SheetRow : Type 0 where
  pub ean : Cell
  pub name : Cell
  pub price : Cell
  pub currency : Option Cell

abbrev pub name_of : Unicode → Cell → String
name_of u c =
    let name = if is_missing c then "" else strip u (show c) in
    if ltb 20 (count name) then first_words u name else name

-- The cells of a row with the sign that neutralises a formula.
abbrev pub sanitize_row : Unicode → SheetRow → SheetRow
sanitize_row u r = record {
  ean = as_whole (sanitize_cell_value u r.ean);
  name = sanitize_cell_value u r.name;
  price = sanitize_cell_value u r.price;
  currency = elim r.currency [ none ↦ none | some c ↦ some (sanitize_cell_value u c) ];
}

-- `digits` of a cell; a missing one shows as `nan` or `None`, which have none.
abbrev pub ean_digits : Unicode → Cell → String
ean_digits u missing = ""
ean_digits u c = digits u (show c)

-- The rows, the ValueError for a currency without a rate, or the InvalidOperation of comparing a NaN.
pub data Reading (D : Type 0) : Type 0 where
  rows : List (InputRow D) → Reading D
  invalid_operation : Reading D
  unknown_currency : String → Reading D

-- What a row of the sheet gives: nothing, a row, or one of the errors.
pub data RowReading (D : Type 0) : Type 0 where
  nan_compared : RowReading D
  skipped : RowReading D
  read : InputRow D → RowReading D
  no_rate : String → RowReading D

-- What the loop over the rows has besides them.
pub record Context (D : Type 0) : Type 0 where
  pub unicode : Unicode
  pub decimal : String → Parsed D
  pub header_idx : ℕ
  pub price_header : String
  pub context_currency : Option String
  pub default_currency : Option String

module _ {D : Type 0} ⦃d : Decimal D⦄ where
  -- The rates above zero, by their codes in capital letters.
  abbrev pub positive_rates : Unicode → Dict String (Option D) → Dict String D → Dict String D
  positive_rates u [] rates = rates
  positive_rates u ((code, rate) ∷ more) rates = positive_rates u more (elim rate [
    | none ↦ rates
    | some r ↦ if d.le r d.zero then rates else insert (u.upper code) r rates
  ])

  -- PLN has the rate 1, whatever was given.
  abbrev pub with_pln : Dict String D → Dict String D
  with_pln rates = elim (lookup "PLN" rates) [
    | none ↦ insert "PLN" d.one rates
    | some r ↦ if d.le r d.one && d.le d.one r then rates else insert "PLN" d.one rates
  ]

  unfoldable pub normalized_rates : Unicode → Dict String (Option D) → Dict String D
  normalized_rates u given = with_pln (positive_rates u given [])

  abbrev pub is_positive : Option D → Bool
  is_positive none = false
  is_positive (some p) = lt d.zero p

  -- The first of the currencies that says something.
  unfoldable pub currency_of : Context D → SheetRow → String
  currency_of x r = x.unicode.upper (
      text_or (normalize_currency_token x.unicode r.currency) (
        text_or (normalize_currency_text x.unicode (show r.price)) (
          text_or (detect_currency_from_header x.unicode x.price_header)
            (text_or x.context_currency (text_or x.default_currency "PLN")))))

  abbrev pub row_error : (ean : String) → Option D → Option String
  row_error ean price =
      if not (leb 8 (count ean) && leb (count ean) 13)
      then some "EAN musi mieć 8-13 cyfr"
      else if is_positive price
      then none
      else some "Nieprawidlowa cena zakupu"

  abbrev pub make_row :
      (row_number : ℕ) (ean name currency : String) (price price_pln : Option D) → InputRow D
  make_row row_number ean name currency price price_pln =
      let error = row_error ean price in
      record {
        row_number = row_number;
        ean = ean;
        name = name;
        original_purchase_price = price;
        purchase_price_pln = price_pln;
        purchase_currency = currency;
        is_valid = elim error [ none ↦ true | some e ↦ false ];
        error = error;
      }

  -- A row with an EAN, once its price is converted; `rate` is that of its currency.
  abbrev pub convert :
      (row_number : ℕ) (ean name currency : String) → Parsed D → (rate : Option D) → RowReading D
  convert row_number ean name currency nan rate = nan_compared
  convert row_number ean name currency not_decimal rate =
      read (make_row row_number ean name currency none none)
  convert row_number ean name currency (finite p) none =
      if lt d.zero p
      then no_rate currency
      else read (make_row row_number ean name currency (some p) none)
  convert row_number ean name currency (finite p) (some rate) = read (
      make_row row_number ean name currency (some p)
        (if lt d.zero p then some (d.mul p rate) else none))

  -- The body of the loop, for the row at `idx` below the headers.
  unfoldable pub read_row : Context D → Dict String D → (idx : ℕ) → SheetRow → RowReading D
  read_row x rates idx row =
      let r = sanitize_row x.unicode row in
      let ean = ean_digits x.unicode r.ean in
      let currency = currency_of x r in
      if is_empty ean
      then skipped
      else convert (x.header_idx + idx + 2) ean (name_of x.unicode r.name) currency
          (parse_price x.decimal r.price) (lookup currency rates)

  abbrev pub prepend : InputRow D → Reading D → Reading D
  prepend row (rows more) = rows (row ∷ more)
  prepend row (unknown_currency code) = unknown_currency code
  prepend row invalid_operation = invalid_operation

  abbrev pub and_then : RowReading D → Reading D → Reading D
  and_then skipped more = more
  and_then nan_compared more = invalid_operation
  and_then (read row) more = prepend row more
  and_then (no_rate code) more = unknown_currency code

  unfoldable pub read_from : Context D → Dict String D → (idx : ℕ) → List SheetRow → Reading D
  read_from x rates idx [] = rows []
  read_from x rates idx (row ∷ more) =
      let rest = read_from x rates (suc idx) more in and_then (read_row x rates idx row) rest

  -- The rates that are used when none are given.
  abbrev pub default_rates : (decimal : String → Parsed D) → Dict String (Option D)
  default_rates decimal =
      ("PLN", finite_of (decimal "1.0"))
      ∷ ("EUR", finite_of (decimal "4.5"))
      ∷ ("USD", finite_of (decimal "4.2"))
      ∷ ("CAD", finite_of (decimal "3.1"))
      ∷ []

  -- `currency_rates or {...}`
  abbrev pub rates_or_default :
      (decimal : String → Parsed D) → Dict String (Option D) → Dict String (Option D)
  rates_or_default decimal [] = default_rates decimal
  rates_or_default decimal (r ∷ rs) = r ∷ rs

  abbrev pub first_code : Dict String (Option D) → Option String
  first_code [] = none
  first_code ((code, rate) ∷ rates) = some code

  -- The default currency: the one that is given, PLN where it has a rate, or the first with a rate.
  abbrev pub default_of : Option String → Dict String (Option D) → Option String
  default_of (some code) rates = some code
  default_of none rates = elim (lookup "PLN" rates) [
    | none ↦ first_code rates
    | some r ↦ some "PLN"
  ]

  -- The part of `read_excel_file` that handles the rates, the currency and the rows.
  unfoldable pub read_rows : Context D → Dict String (Option D) → List SheetRow → Reading D
  read_rows x given sheet =
      let currency_rates = rates_or_default x.decimal given in
      let x' = record x { default_currency = default_of x.default_currency currency_rates } in
      read_from x' (normalized_rates x.unicode currency_rates) 0 sheet
