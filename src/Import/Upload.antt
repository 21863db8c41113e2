-- ===== src/Import/Upload.antt =====
-- `_ensure_product`, `prepare_analysis_run` and the deduplication of `handle_upload` of
-- backend/app/services/import_service.py. Storing the file is input and output.
use jolly_jesters_mvp.Prelude.{
  ℕ, suc, not, Option, none, some, String, List, [], ◌∷◌, ◌++◌, map, length, countb, anyb, findb,
  ◌==◌, if◌then◌else◌, string_eq,
}
use jolly_jesters_mvp.Decimal.{Decimal, number_or}
use jolly_jesters_mvp.Enums.{AnalysisStatus, AnalysisItemSource, ScrapeStatus}
use jolly_jesters_mvp.Worker.Rows.{Item, no_metering}
use jolly_jesters_mvp.Worker.Task.{AnalysisRun}
use jolly_jesters_mvp.Import.Text.{is_empty, name_or}
use jolly_jesters_mvp.Import.Rows.{InputRow, Product, Tables, is_for}

module _ {D : Type 0} where
  -- The loop of `handle_upload` that drops repeated EANs.
  abbrev pub unique_from : (seen : List String) → List (InputRow D) → List (InputRow D)
  unique_from seen [] = []
  unique_from seen (row ∷ rows) =
      let kept = row ∷ unique_from (row.ean ∷ seen) rows in
      if is_empty row.ean
      then row ∷ unique_from seen rows
      else if anyb (λ e. string_eq.beq e row.ean) seen
      then unique_from seen rows
      else kept

  unfoldable pub unique_rows : List (InputRow D) → List (InputRow D)
  unique_rows rows = unique_from [] rows

-- A run as an import leaves it, with the columns that only an import writes.
pub record PreparedRun (D : Type 0) : Type 0 where
  pub category_id : ℕ
  pub input_file_name : String
  pub mode : String
  pub total_products : ℕ
  pub run : AnalysisRun D

module _ {D : Type 0} ⦃d : Decimal D⦄ (category : ℕ) where
  abbrev pub new_product : ℕ → InputRow D → Product D
  new_product id row = record {
    id = id;
    category_id = category;
    ean = row.ean;
    name = name_or row.name row.ean;
    purchase_price = number_or row.purchase_price_pln d.zero;
  }

  -- What an import writes into a product that is there.
  abbrev pub update_product : InputRow D → Product D → Product D
  update_product row p = record p {
    name = name_or row.name p.name;
    purchase_price = number_or row.purchase_price_pln p.purchase_price;
  }

  abbrev pub add_product : InputRow D → Tables D → Tables D
  add_product row t = record t {
    products = t.products ++ new_product t.next_product_id row ∷ [];
    next_product_id = suc t.next_product_id;
  }

  abbrev pub change_product : InputRow D → (id : ℕ) → Tables D → Tables D
  change_product row id t = record t {
    products = map (λ q. if q.id == id then update_product row q else q) t.products;
  }

  -- `_ensure_product`: the product's number, and the tables after it.
  unfoldable pub ensure_product : InputRow D → Tables D → ℕ × Tables D
  ensure_product row t = elim (findb (is_for category row.ean) t.products) [
    | none ↦ (t.next_product_id, add_product row t)
    | some p ↦ (p.id, change_product row p.id t)
  ]

  -- A row of the run; the columns that are not given have their defaults.
  abbrev pub new_item :
      (id : ℕ) → Option ℕ → AnalysisItemSource → ScrapeStatus → Option String → InputRow D → Item D
  new_item id product_id source scrape_status error_message row = record {
    id = id;
    row_number = row.row_number;
    product_id = product_id;
    ean = row.ean;
    purchase_price_pln = row.purchase_price_pln;
    input_purchase_price = row.purchase_price_pln;
    source = source;
    scrape_status = scrape_status;
    error_message = error_message;
    allegro_price = none;
    allegro_sold_count = none;
    profitability_score = none;
    profitability_label = none;
    metering = no_metering;
  }

  abbrev pub invalid_item : (id : ℕ) → InputRow D → Item D
  invalid_item id row = new_item id none AnalysisItemSource.error ScrapeStatus.error row.error row

  abbrev pub valid_item : (id product : ℕ) → InputRow D → Item D
  valid_item id product row =
      new_item id (some product) AnalysisItemSource.baza ScrapeStatus.pending none row

  abbrev pub next_item : Tables D → Tables D
  next_item t = record t { next_item_id = suc t.next_item_id }

  -- The body of the loop of `prepare_analysis_run`.
  unfoldable pub prepare_row : InputRow D → Tables D → Item D × Tables D
  prepare_row row t =
      let (product, t') = ensure_product row t in
      if row.is_valid
      then (valid_item t.next_item_id product row, next_item t')
      else (invalid_item t.next_item_id row, next_item t)

  abbrev pub prepare_rows : List (InputRow D) → Tables D → List (Item D) × Tables D
  prepare_rows [] t = ([], t)
  prepare_rows (row ∷ rows) t =
      let (item, t') = prepare_row row t in
      let (items, t'') = prepare_rows rows t' in (item ∷ items, t'')

  -- `prepare_analysis_run`
  unfoldable pub prepare_analysis_run :
      List (InputRow D) → (filename mode : String) → Tables D → PreparedRun D × Tables D
  prepare_analysis_run rows filename mode t =
      let (items, t') = prepare_rows rows t in
      (
        record {
          category_id = category;
          input_file_name = filename;
          mode = mode;
          total_products = length rows;
          run = record {
            status = AnalysisStatus.pending;
            error_message = none;
            processed_products = countb (λ row. not row.is_valid) rows;
            started_at = none;
            finished_at = none;
            items = items;
            retry_pass_attempted = 0;
            retry_pass_recovered = 0;
          };
        },
        t',
      )

  -- `handle_upload`, from the rows that were read on.
  unfoldable pub handle_upload :
      List (InputRow D) → (filename mode : String) → Tables D → PreparedRun D × Tables D
  handle_upload rows filename mode t = prepare_analysis_run (unique_rows rows) filename mode t
