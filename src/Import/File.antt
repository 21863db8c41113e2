-- ===== src/Import/File.antt =====
-- `read_excel_file` of backend/app/utils/excel_reader.py as a whole, over the rows that the library
-- reads from the file, and the hint that the names of the file and its sheets give of the currency.
use jolly_jesters_mvp.Prelude.{
  ℕ, zero, suc, ◌+◌, ◌*◌, ◌≤◌, ◌<◌, Bool, Option, none, some, String, List, [], ◌∷◌, map, drop,
  Dict, ltb, if◌then◌else◌, ◌≡◌, ◌⊎◌,
}
use jolly_jesters_mvp.Decimal.{Decimal}
use jolly_jesters_mvp.Import.Text.{Unicode, is_empty, contains_any}
use jolly_jesters_mvp.Import.Cells.{Parsed, Cell, show, normalize_currency_text}
use jolly_jesters_mvp.Import.Columns.{Sheet, Columns, detect_header_row, cell_at, detect_columns}
use jolly_jesters_mvp.Import.Reader.{
  SheetRow, Reading, normalized_rates, rates_or_default, read_rows,
}
use jolly_jesters_mvp.Import.Sound.{HasPln, IsSoundReading, HasNanPrice}

-- `CONTEXT_HINTS`
abbrev context_hints : List (String × List String)
context_hints =
    ("EUR", "eur" ∷ "euro" ∷ "€" ∷ "eu" ∷ " eu" ∷ [])
    ∷ ("USD", "usd" ∷ "dolar" ∷ "usd$" ∷ "$" ∷ [])
    ∷ ("CAD", "cad" ∷ "canada" ∷ [])
    ∷ ("GBP", "gbp" ∷ "£" ∷ "pound" ∷ [])
    ∷ ("AED", "aed" ∷ "dirham" ∷ [])
    ∷ ("PLN", "pln" ∷ "zl" ∷ "zł" ∷ "poland" ∷ "polska" ∷ "pl_" ∷ [])
    ∷ []

abbrev hint_in : List (String × List String) → String → Option String
hint_in [] s = none
hint_in ((code, tokens) ∷ hints) s = if contains_any tokens s then some code else hint_in hints s

-- The loop over the names: the first hint, or else the first currency that a name gives.
abbrev hint_from : Unicode → (candidate : Option String) → List String → Option String
hint_from u candidate [] = candidate
hint_from u candidate (source ∷ sources) =
    let skip = hint_from u candidate sources in
    let more =
      hint_from u (elim candidate [ some c ↦ some c | none ↦ normalize_currency_text u source ])
        sources in
    if is_empty source
    then skip
    else elim (hint_in context_hints (u.lower source)) [ some code ↦ some code | none ↦ more ]

-- `_context_currency_hint`
unfoldable pub context_currency_hint :
    Unicode → (file_name : Option String) → (sheet_names : List String) → Option String
context_currency_hint u none sheet_names = hint_from u none sheet_names
context_currency_hint u (some name) sheet_names = hint_from u none (name ∷ sheet_names)

-- The file, as the library reads it.
pub record File : Type 0 where
  pub size : ℕ
  pub name : Option String
  pub sheet_names : List String
  pub cells : Sheet

pub data ReadFile (D : Type 0) : Type 0 where
  too_large : ReadFile D
  is_blank : ReadFile D
  missing_columns : ReadFile D
  reading : Reading D → ReadFile D

abbrev pub max_parse_file_size : ℕ
max_parse_file_size = 50 * 1024 * 1024

abbrev headers_at : ℕ → Sheet → List Cell
headers_at i [] = []
headers_at zero (row ∷ sheet) = row
headers_at (suc i) (row ∷ sheet) = headers_at i sheet

abbrev row_at : (ean name price : ℕ) → Option ℕ → List Cell → SheetRow
row_at ean name price currency row = record {
  ean = cell_at ean row;
  name = cell_at name row;
  price = cell_at price row;
  currency = elim currency [ none ↦ none | some idx ↦ some (cell_at idx row) ];
}

module _ {D : Type 0} ⦃d : Decimal D⦄ (u : Unicode) (decimal : String → Parsed D)
    (is_float : String → Bool) where
  -- The rows below the headers, when the three columns that must be there are there.
  abbrev read_columns :
      (given : Dict String (Option D))
      → (default_currency : Option String) → File
      → Columns
      → ReadFile D
  read_columns given default_currency file columns =
      let header_idx = detect_header_row u file.cells in
      elim columns.ean_idx [
        | none ↦ missing_columns
        | some ean ↦ elim columns.name_idx [
          | none ↦ missing_columns
          | some name ↦ elim columns.price_idx [
            | none ↦ missing_columns
            | some price ↦ reading (
                read_rows
                  (record {
                    unicode = u;
                    decimal = decimal;
                    header_idx = header_idx;
                    price_header = show (cell_at price (headers_at header_idx file.cells));
                    context_currency = context_currency_hint u file.name file.sheet_names;
                    default_currency = default_currency;
                  })
                  given
                  (map (row_at ean name price columns.currency_idx)
                    (drop (suc header_idx) file.cells)))
          ]
        ]
      ]

  abbrev read_cells :
      (given : Dict String (Option D))
      → (default_currency : Option String) → File
      → Sheet
      → ReadFile D
  read_cells given default_currency file [] = is_blank
  read_cells given default_currency file (row ∷ cells) =
      let header_idx = detect_header_row u file.cells in
      read_columns given default_currency file (
        detect_columns u is_float (headers_at header_idx file.cells)
          (drop (suc header_idx) file.cells))

  -- `read_excel_file`
  unfoldable pub read_excel_file :
      (given : Dict String (Option D)) → (default_currency : Option String) → File → ReadFile D
  read_excel_file given default_currency file =
      if ltb max_parse_file_size file.size
      then too_large
      else read_cells given default_currency file file.cells

  -- In some choice of the columns, a row below the headers has an EAN and a price that is a NaN.
  abbrev pub HasNanCell : File → Type 0
  HasNanCell file =
      (ean : ℕ) × (name : ℕ) × (price : ℕ) × (currency : Option ℕ) × HasNanPrice u decimal (
        map (row_at ean name price currency)
          (drop (suc (detect_header_row u file.cells)) file.cells))

  -- What each outcome says of the file.
  abbrev pub IsSoundFile : (given : Dict String (Option D)) → File → ReadFile D → Type 0
  IsSoundFile given file too_large = max_parse_file_size < file.size
  IsSoundFile given file is_blank = file.cells ≡ []
  IsSoundFile given file missing_columns =
      let header_idx = detect_header_row u file.cells in
      let columns =
        detect_columns u is_float (headers_at header_idx file.cells)
          (drop (suc header_idx) file.cells) in
      (columns.ean_idx ≡ none) ⊎ (columns.name_idx ≡ none) ⊎ (columns.price_idx ≡ none)
  IsSoundFile given file (reading r) =
      let rates = normalized_rates u (rates_or_default decimal given) in
      (file.size ≤ max_parse_file_size)
      × (IsSoundReading (HasNanCell file) rates (detect_header_row u file.cells + 2) r
          × HasPln rates)
