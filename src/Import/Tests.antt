-- ===== src/Import/Tests.antt =====
-- A sheet of five rows, of which two have the same EAN, and its import beside a product that is there.
use Prim.Native.Char.{code}
use jolly_jesters_mvp.Prelude.{
  ℕ, Bool, true, false, ◌&&◌, Option, none, some, String, List, [], ◌∷◌, map, length, countb, All,
  ◌≡◌, refl, ◌==◌, leb, if◌then◌else◌, string_eq, arith,
}
use jolly_jesters_mvp.Prelude.Int.{ℤ, pos}
use jolly_jesters_mvp.Decimal.Scaled.{scaled}
use jolly_jesters_mvp.Enums.{AnalysisStatus, is_processed_status}
use jolly_jesters_mvp.Import.Text.{Unicode}
use jolly_jesters_mvp.Import.Cells.{
  Parsed, not_decimal, nan, finite, Cell, missing, text, number, detect_currency_from_header,
  normalize_currency_text, parse_price,
}
use jolly_jesters_mvp.Import.Rows.{InputRow, Tables}
use jolly_jesters_mvp.Import.Reader.{
  SheetRow, Reading, rows, Context, currency_of, normalized_rates, read_row, read_from, read_rows,
}
use jolly_jesters_mvp.Import.Columns.{Sheet}
use jolly_jesters_mvp.Import.File.{File}
use jolly_jesters_mvp.Import.Upload.{unique_rows, handle_upload}
use jolly_jesters_mvp.Import.Prepared.{IsCatalog, IsLinked, handle_upload_prepares}

abbrev pub ascii : Unicode
ascii = record {
  is_space = λ c. code c == 32;
  is_digit = λ c. leb 48 (code c) && leb (code c) 57;
  upper = λ s. s;
  lower = λ s. s;
}

abbrev decimal : String → Parsed ℤ
decimal s =
    if string_eq.beq s "12.5"
    then finite (pos 1250)
    else if string_eq.beq s "1.0"
    then finite (pos 100)
    else if string_eq.beq s "4.5"
    then finite (pos 450)
    else if string_eq.beq s "nan"
    then nan
    else not_decimal

abbrev context : Context ℤ
context = record {
  unicode = ascii;
  decimal = decimal;
  header_idx = 0;
  price_header = "price";
  context_currency = none;
  default_currency = none;
}

abbrev sheet_row : Cell → Cell → SheetRow
sheet_row ean price = record { ean = ean; name = text "Name "; price = price; currency = none }

abbrev sheet : List SheetRow
sheet =
    sheet_row (text "590-12345678") (text "12,5 EUR")
    ∷ sheet_row missing (text "12,5")
    ∷ sheet_row (number "59011111.0" (some "59011111")) (text "12,5")
    ∷ sheet_row (text "59012345678") (text "12,5")
    ∷ sheet_row (text "123") (text "12,5")
    ∷ []

abbrev cells : Sheet
cells =
    (text "EAN" ∷ text "Name" ∷ text "Price" ∷ []) ∷ map (λ r. r.ean ∷ r.name ∷ r.price ∷ []) sheet

abbrev workbook : File
workbook = record {
  size = 9000;
  name = some "file.xlsx";
  sheet_names = "Sheet1" ∷ [];
  cells = cells;
}

abbrev row : (number : ℕ) → (ean : String) → (error : Option String) → InputRow ℤ
row n ean error = record {
  row_number = n;
  ean = ean;
  name = "Name";
  original_purchase_price = some (pos 1250);
  purchase_price_pln = some (pos 1250);
  purchase_currency = "PLN";
  is_valid = elim error [ none ↦ true | some e ↦ false ];
  error = error;
}

abbrev file : List (InputRow ℤ)
file =
    row 2 "59012345678" none
    ∷ row 4 "59011111" none
    ∷ row 5 "59012345678" none
    ∷ row 6 "123" (some "EAN musi mieć 8-13 cyfr")
    ∷ []

abbrev tables : Tables ℤ
tables = record {
  products =
      record { id = 3; category_id = 1; ean = "59011111"; name = "Old"; purchase_price = pos 100 }
      ∷ [];
  next_product_id = 4;
  next_item_id = 9;
}

tables-IsCatalog : IsCatalog tables
tables-IsCatalog = record {
  fresh = λ i le. ground arith;
  numbered = λ i. ground arith;
  distinct = λ c e. ground arith;
}

handle_upload_prepares_example :
    let (p, t') = handle_upload 1 file "file.xlsx" "live" tables in
    (p.run.status ≡ AnalysisStatus.pending)
    × (map (λ i. i.ean) p.run.items ≡ map (λ r. r.ean) (unique_rows file))
    × (p.total_products ≡ length p.run.items)
    × (p.run.processed_products ≡ countb (λ i. is_processed_status i.scrape_status) p.run.items)
    × All (IsLinked 1 t') p.run.items
    × IsCatalog t'
handle_upload_prepares_example =
    handle_upload_prepares 1 file "file.xlsx" "live" tables tables-IsCatalog

abbrev eans_of : Reading ℤ → List (String × Bool)
eans_of (rows rs) = map (λ r. (r.ean, r.is_valid)) rs
eans_of _ = []

read_rows-eans :
    eans_of (read_rows context [] sheet)
    ≡ ("59012345678", true) ∷ ("59011111", true) ∷ ("59012345678", true) ∷ ("123", false) ∷ []
unfolding read_rows read_from read_row normalized_rates currency_of detect_currency_from_header
    normalize_currency_text parse_price
read_rows-eans = refl
