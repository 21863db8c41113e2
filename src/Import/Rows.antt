-- ===== src/Import/Rows.antt =====
-- `InputRow` of backend/app/utils/excel_reader.py, and the tables that an import writes: the products
-- of backend/app/models/product.py with their next numbers.
use jolly_jesters_mvp.Prelude.{ℕ, Bool, ◌&&◌, Option, String, List, ◌==◌, string_eq}

pub record InputRow (D : Type 0) : Type 0 where
  pub row_number : ℕ
  pub ean : String
  pub name : String
  pub original_purchase_price : Option D
  pub purchase_price_pln : Option D
  pub purchase_currency : String
  pub is_valid : Bool
  pub error : Option String

-- `Product`
pub record Product (D : Type 0) : Type 0 where
  pub id : ℕ
  pub category_id : ℕ
  pub ean : String
  pub name : String
  pub purchase_price : D

pub record Tables (D : Type 0) : Type 0 where
  pub products : List (Product D)
  pub next_product_id : ℕ
  pub next_item_id : ℕ

-- The filter of the query in `_ensure_product`.
abbrev pub is_for : {D : Type 0} (category : ℕ) → (ean : String) → Product D → Bool
is_for category ean p = p.category_id == category && string_eq.beq p.ean ean
