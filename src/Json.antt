-- ===== src/Json.antt =====
-- JSON values as the program reads them from the scraper's answers and from JSON columns.
use jolly_jesters_mvp.Prelude.{ℕ, suc, Bool, Option, none, some, String, string_eq, if◌then◌else◌}

mutual
  pub data Json : Type 0 where
    null : Json
    bool : Bool → Json
    number : String → Json
    text : String → Json
    array : Items → Json
    object : Fields → Json

  pub data Items : Type 0 where
    nil : Items
    cons : Json → Items → Items

  pub data Fields : Type 0 where
    end : Fields
    field : String → Json → Fields → Fields

-- `len` of a list.
abbrev pub size : Items → ℕ
size nil = 0
size (cons j js) = suc (size js)

-- `d.get(key)`
abbrev pub get : String → Fields → Option Json
get key end = none
get key (field k v fs) = if string_eq.beq k key then some v else get key fs
