-- ===== src/Import/Columns.antt =====
-- How `read_excel_file` of backend/app/utils/excel_reader.py finds the header row and the columns of a
-- sheet. A sheet is its rows of cells, all of the same length, as the library gives them. Which texts
-- `float` accepts is a parameter.
use Prim.Native.String.{count}
use jolly_jesters_mvp.Prelude.{
  ℕ, zero, suc, ◌+◌, ◌-◌, ◌*◌, ◌/◌, max, Bool, false, not, ◌&&◌, ◌||◌, Option, none, some, String,
  List, [], ◌∷◌, ◌++◌, map, length, take, filterb, countb, anyb, ◌==◌, leb, ltb, if◌then◌else◌,
}
use jolly_jesters_mvp.Import.Text.{Unicode, contains, is_in, replace, without, digits}
use jolly_jesters_mvp.Import.Cells.{Cell, missing, text, is_missing, show, norm}

abbrev pub Sheet : Type 0
Sheet = List (List Cell)

abbrev ean_headers : List String
ean_headers = "ean" ∷ "ean13" ∷ "barcode" ∷ "kodeskreskowy" ∷ "kodean" ∷ []

abbrev name_headers : List String
name_headers = "name" ∷ "productname" ∷ "product" ∷ "nazwa" ∷ "opis" ∷ "description" ∷ []

abbrev price_headers : List String
price_headers =
    "purchaseprice" ∷ "buyprice" ∷ "cost" ∷ "cena" ∷ "cenazakupu" ∷ "netpurchase" ∷ "netprice"
    ∷ "price" ∷ "eurprice" ∷ "€price" ∷ []

abbrev currency_headers : List String
currency_headers = "currency" ∷ "waluta" ∷ []

abbrev header_tokens : List String
header_tokens = ean_headers ++ name_headers ++ price_headers ++ currency_headers ++ "qty" ∷ []

-- The cells that `dropna` leaves.
abbrev present : List Cell → List Cell
present cells = filterb (λ c. not (is_missing c)) cells

abbrev is_header_row : Unicode → List Cell → Bool
is_header_row u row = anyb (λ c. is_in header_tokens (norm u (show c))) (present row)

abbrev first_header : Unicode → (i : ℕ) → Sheet → Option ℕ
first_header u i [] = none
first_header u i (row ∷ rows) =
    let rest = first_header u (suc i) rows in if is_header_row u row then some i else rest

-- `_detect_header_row`: among the first 20 rows, or else the first row.
unfoldable pub detect_header_row : Unicode → Sheet → ℕ
detect_header_row u sheet = elim (first_header u 0 (take 20 sheet)) [ none ↦ 0 | some i ↦ i ]

pub record Columns : Type 0 where
  pub ean_idx : Option ℕ
  pub name_idx : Option ℕ
  pub price_idx : Option ℕ
  pub currency_idx : Option ℕ

abbrev no_columns : Columns
no_columns = record { ean_idx = none; name_idx = none; price_idx = none; currency_idx = none }

-- A column is taken when it passes and none was taken before it.
abbrev take_column : (passes : Bool) → (idx : ℕ) → Option ℕ → Option ℕ
take_column passes idx (some i) = some i
take_column passes idx none = if passes then some idx else none

abbrev take_header : Unicode → (idx : ℕ) → Cell → Columns → Columns
take_header u idx missing f = f
take_header u idx cell f =
    let n = norm u (show cell) in
    record {
      ean_idx = take_column (is_in ean_headers n) idx f.ean_idx;
      name_idx = take_column (is_in name_headers n) idx f.name_idx;
      price_idx = take_column (is_in price_headers n || contains "price" n) idx f.price_idx;
      currency_idx = take_column (is_in currency_headers n) idx f.currency_idx;
    }

-- The loop over the headers.
unfoldable pub scan_headers : Unicode → (idx : ℕ) → List Cell → Columns → Columns
scan_headers u idx [] f = f
scan_headers u idx (cell ∷ cells) f = scan_headers u (suc idx) cells (take_header u idx cell f)

abbrev pub cell_at : ℕ → List Cell → Cell
cell_at idx [] = missing
cell_at zero (c ∷ cs) = c
cell_at (suc idx) (c ∷ cs) = cell_at idx cs

-- `df.iloc[:, idx].dropna().head(50)`
abbrev sample : Sheet → (idx : ℕ) → List Cell
sample rows idx = take 50 (present (map (cell_at idx) rows))

abbrev has_ean_length : Unicode → Cell → Bool
has_ean_length u c = let n = count (digits u (show c)) in leb 12 n && leb n 14

-- `int(n * 0.6)`, for n up to 50.
abbrev three_fifths : ℕ → ℕ
three_fifths n = n * 3 / 5

-- `_looks_like_ean_series`
abbrev looks_like_ean_series : Unicode → List Cell → Bool
looks_like_ean_series u [] = false
looks_like_ean_series u (c ∷ cs) =
    leb (max 1 (three_fifths (length (c ∷ cs)))) (countb (has_ean_length u) (c ∷ cs))

-- The first of `left` columns, from `idx` on, that passes.
abbrev first_column : (ℕ → Bool) → (left idx : ℕ) → Option ℕ
first_column test zero idx = none
first_column test (suc left) idx =
    let rest = first_column test left (suc idx) in if test idx then some idx else rest

-- `idx in {...}`
abbrev is_taken : ℕ → List (Option ℕ) → Bool
is_taken idx [] = false
is_taken idx (none ∷ os) = is_taken idx os
is_taken idx (some i ∷ os) = i == idx || is_taken idx os

abbrev texts_of : List Cell → List String
texts_of [] = []
texts_of (text s ∷ cs) = s ∷ texts_of cs
texts_of (c ∷ cs) = texts_of cs

abbrev total_length : List String → ℕ
total_length [] = 0
total_length (s ∷ ss) = count s + total_length ss

-- The texts of a column are longer than 15 characters on average.
abbrev has_long_texts : List Cell → Bool
has_long_texts cells = let ss = texts_of cells in ltb (15 * length ss) (total_length ss)

abbrev distance : ℕ → ℕ → ℕ
distance a b = (a - b) + (b - a)

abbrev is_closer : Option ℕ → (idx candidate : ℕ) → Bool
is_closer none idx candidate = false
is_closer (some ean) idx candidate = ltb (distance idx ean) (distance candidate ean)

abbrev better_name : Option ℕ → (idx : ℕ) → Option ℕ → Option ℕ
better_name ean idx none = some idx
better_name ean idx (some candidate) =
    if is_closer ean idx candidate then some idx else some candidate

-- The loop that looks for the column of names.
abbrev name_candidate : Columns → Sheet → (left idx : ℕ) → Option ℕ → Option ℕ
name_candidate f rows zero idx candidate = candidate
name_candidate f rows (suc left) idx candidate = name_candidate f rows left (suc idx) (
    if is_taken idx (f.ean_idx ∷ f.price_idx ∷ f.currency_idx ∷ [])
    then candidate
    else if has_long_texts (sample rows idx)
    then better_name f.ean_idx idx candidate
    else candidate)

-- The text of a cell is a number after the spaces and the euro sign are gone.
abbrev is_numeric : (is_float : String → Bool) → Cell → Bool
is_numeric is_float c = is_float (replace "," "." (without (" " ∷ "€" ∷ []) (show c)))

abbrev is_price_column : (is_float : String → Bool) → Columns → Sheet → ℕ → Bool
is_price_column is_float f rows idx =
    let cells = sample rows idx in
    if is_taken idx (f.ean_idx ∷ f.name_idx ∷ f.currency_idx ∷ [])
    then false
    else leb (max 3 (three_fifths (length cells))) (countb (is_numeric is_float) cells)

-- `x if x is not None else y`
abbrev or_found : Option ℕ → Option ℕ → Option ℕ
or_found (some i) found = some i
or_found none found = found

-- The columns by their headers, and those without one by what stands in them.
unfoldable pub detect_columns :
    Unicode → (is_float : String → Bool) → (headers : List Cell) → Sheet → Columns
detect_columns u is_float headers rows =
    let n_cols = length headers in
    let by_header = scan_headers u 0 headers no_columns in
    let with_ean = record by_header {
      ean_idx =
          or_found by_header.ean_idx
            (first_column (λ idx. looks_like_ean_series u (sample rows idx)) n_cols 0);
    } in
    let with_name = record with_ean {
      name_idx = or_found with_ean.name_idx (name_candidate with_ean rows n_cols 0 none);
    } in
    record with_name {
      price_idx =
          or_found with_name.price_idx
            (first_column (is_price_column is_float with_name rows) n_cols 0);
    }
