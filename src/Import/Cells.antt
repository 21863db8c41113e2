-- ===== src/Import/Cells.antt =====
-- The cells of a sheet, and what backend/app/utils/excel_reader.py reads from their texts: the currency
-- and the price. The conversion of a text into a `Decimal` is a parameter.
use Prim.Native.String.{◌++◌}
use jolly_jesters_mvp.Prelude.{
  Bool, true, false, ◌&&◌, ◌||◌, Option, none, some, String, [], ◌∷◌, if◌then◌else◌, string_eq,
}
use jolly_jesters_mvp.Import.Text.{
  Unicode, is_empty, contains, contains_any, is_in, replace, without, strip,
}

-- A cell: missing (None or NaN), a text, or a number with its `str` and, where it is a float without a
-- fraction, the `str` of it as an int.
pub data Cell : Type 0 where
  missing : Cell
  text : String → Cell
  number : (shown : String) → (whole : Option String) → Cell

abbrev pub is_missing : Cell → Bool
is_missing missing = true
is_missing _ = false

-- `str(cell)`
abbrev pub show : Cell → String
show missing = "nan"
show (text s) = s
show (number shown whole) = shown

-- `raw_ean` as an int where it is a float without a fraction.
abbrev pub as_whole : Cell → Cell
as_whole (number shown (some whole)) = number whole none
as_whole c = c

module _ (u : Unicode) where
  -- `_FORMULA_INJECTION_RE.match`
  abbrev pub starts_formula : String → Bool
  starts_formula String.[] = false
  starts_formula (String.◌∷◌ c s) =
      if is_in ("=" ∷ "+" ∷ "-" ∷ "@" ∷ "\t" ∷ "\r" ∷ []) (String.◌∷◌ c String.[])
      then true
      else u.is_space c && starts_formula s

  -- `_sanitize_cell_value`
  abbrev pub sanitize_cell_value : Cell → Cell
  sanitize_cell_value (text s) = if starts_formula s then text ("'" ++ s) else text s
  sanitize_cell_value c = c

  -- `_norm`
  abbrev pub norm : String → String
  norm s = without (" " ∷ "_" ∷ "-" ∷ []) (u.lower (strip u s))

  -- `_detect_currency_from_header`
  unfoldable pub detect_currency_from_header : String → Option String
  detect_currency_from_header header =
      let h = norm header in
      if contains "eur" h || contains "€" h
      then some "EUR"
      else if contains "usd" h
      then some "USD"
      else if contains "cad" h
      then some "CAD"
      else if contains "pln" h || contains "zl" h
      then some "PLN"
      else none

  -- `_normalize_currency_token` of a text.
  unfoldable pub normalize_currency_text : String → Option String
  normalize_currency_text s =
      let t = u.upper (strip u s) in
      let compact = without (" " ∷ "." ∷ "," ∷ []) t in
      if is_empty t
      then none
      else if contains_any ("PLN" ∷ "ZL" ∷ "ZŁ" ∷ []) compact
      then some "PLN"
      else if contains_any ("EUR" ∷ "EURO" ∷ "€" ∷ []) compact
      then some "EUR"
      else if contains "USD" compact || contains "$" t
      then some "USD"
      else if contains "CAD" compact
      then some "CAD"
      else if contains "GBP" compact || contains "£" t
      then some "GBP"
      else if contains "AED" compact
      then some "AED"
      else none

  -- `_normalize_currency_token`, of a column that may not be there.
  abbrev pub normalize_currency_token : Option Cell → Option String
  normalize_currency_token none = none
  normalize_currency_token (some c) = normalize_currency_text (show c)

-- What `Decimal(text)` gives: an exception, a NaN, or a number.
pub data Parsed (D : Type 0) : Type 0 where
  not_decimal nan : Parsed D
  finite : D → Parsed D

abbrev pub finite_of : {D : Type 0} → Parsed D → Option D
finite_of (finite p) = some p
finite_of _ = none

-- The text that `_parse_price` gives to `Decimal`.
abbrev pub price_text : String → String
price_text s =
    replace "," "."
      (without ("€" ∷ "$" ∷ "£" ∷ "PLN" ∷ "pln" ∷ "zł" ∷ "zl" ∷ "CAD" ∷ "USD" ∷ "EUR" ∷ " " ∷ []) s)

-- `_parse_price`
unfoldable pub parse_price : {D : Type 0} → (decimal : String → Parsed D) → Cell → Parsed D
parse_price decimal missing = not_decimal
parse_price decimal c = decimal (price_text (show c))
