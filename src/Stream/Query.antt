-- ===== src/Stream/Query.antt =====
-- The rows that a round of the stream asks for: their order, and how often each is among them.
use jolly_jesters_mvp.Prelude.{
  ℕ, zero, suc, ◌≤◌, ◌<◌, Bool, true, false, ◌||◌, Option, none, some, List, [], ◌∷◌, take, filterb,
  countb, All, ◌==◌, ltb, if◌then◌else◌, ◌≡◌, refl, ap, ◌∙◌, arith, Bool-cases, inl, inr, if-cases,
}
use jolly_jesters_mvp.Prelude.Sort.{
  sort_by, countb-sort_by, All-sort_by, IsSortedBy, IsSortedBy-sort_by, IsSortedBy-take, All-take,
}
use jolly_jesters_mvp.Stream.{
  StampedItem, filter_after, has_lower_id, updated_items, last_id, StreamEvent, row_event,
  row_error_event, is_scrape_error, has_message, row_events,
}

abbrev pub is_item : (id : ℕ) → StampedItem → Bool
is_item x i = i.id == x

abbrev pub is_row : (id : ℕ) → StreamEvent → Bool
is_row x (row_event id status) = id == x
is_row x _ = false

countb-rows_rest :
    (x : ℕ) (b : Bool) (id : ℕ) (rest : List StreamEvent)
    → countb (is_row x) (if b then row_error_event id ∷ rest else rest) ≡ countb (is_row x) rest
countb-rows_rest x true id rest = refl
countb-rows_rest x false id rest = refl

pub countb-row_events :
    (x : ℕ) (items : List StampedItem)
    → countb (is_row x) (row_events items) ≡ countb (is_item x) items
countb-row_events x [] = refl
countb-row_events x (i ∷ items) =
    ap (λ n. if i.id == x then suc n else n)
      (countb-rows_rest x (is_scrape_error i.scrape_status || has_message i.error_message) i.id
          (row_events items)
        ∙ countb-row_events x items)

countb-filterb-le {ℓ} :
    {A : Type ℓ} (p q : A → Bool) (xs : List A) → countb q (filterb p xs) ≤ countb q xs
countb-filterb-le p q [] = omega arith
countb-filterb-le p q (x ∷ xs) = ground (arith, countb-filterb-le p q xs)

countb-filter_after-le :
    (column : StampedItem → ℕ) (bound : Option ℕ) (x : ℕ) (items : List StampedItem)
    → countb (is_item x) (filter_after column bound items) ≤ countb (is_item x) items
countb-filter_after-le column none x items = omega arith
countb-filter_after-le column (some b) x items =
    countb-filterb-le (λ i. ltb b (column i)) (is_item x) items

countb-take-le {ℓ} :
    {A : Type ℓ} (q : A → Bool) (n : ℕ) (xs : List A) → countb q (take n xs) ≤ countb q xs
countb-take-le q zero xs = omega arith
countb-take-le q (suc n) [] = omega arith
countb-take-le q (suc n) (x ∷ xs) = ground (arith, countb-take-le q n xs)

pub countb-updated_items-le :
    (since since_id : Option ℕ) (limit x : ℕ) (items : List StampedItem)
    → countb (is_item x) (updated_items since since_id limit items) ≤ countb (is_item x) items
countb-updated_items-le since since_id limit x items =
    let recent = filter_after (λ i. i.updated_at) since items in
    let above = filter_after (λ i. i.id) since_id recent in
    omega (
      arith,
      countb-take-le (is_item x) limit (sort_by has_lower_id above),
      countb-sort_by has_lower_id (is_item x) above,
      countb-filter_after-le (λ i. i.id) since_id x recent,
      countb-filter_after-le (λ i. i.updated_at) since x items,
    )

-- A row with a number at most the bound is not asked for.
countb-filterb-above :
    (j x : ℕ) (items : List StampedItem)
    → x ≤ j
    → countb (is_item x) (filterb (λ i. ltb j i.id) items) ≡ 0
countb-filterb-above j x [] h = refl
countb-filterb-above j x (i ∷ items) h = ground (arith, countb-filterb-above j x items h)

pub countb-updated_items-above :
    (since : Option ℕ) (j limit x : ℕ) (items : List StampedItem)
    → x ≤ j
    → countb (is_item x) (updated_items since (some j) limit items) ≡ 0
countb-updated_items-above since j limit x items h =
    let recent = filter_after (λ i. i.updated_at) since items in
    let above = filterb (λ i. ltb j i.id) recent in
    omega (
      arith,
      countb-take-le (is_item x) limit (sort_by has_lower_id above),
      countb-sort_by has_lower_id (is_item x) above,
      countb-filterb-above j x recent h,
    )

All-filterb-above :
    (j : ℕ) (items : List StampedItem) → All (λ i. j < i.id) (filterb (λ i. ltb j i.id) items)
All-filterb-above j [] = tt
All-filterb-above j (i ∷ items) =
    if-cases (All (λ (k : StampedItem). j < k.id)) (ltb j i.id)
      (i ∷ filterb (λ k. ltb j k.id) items) (filterb (λ k. ltb j k.id) items)
      (λ e. (ground arith, All-filterb-above j items)) (λ e. All-filterb-above j items)

pub updated_items-above :
    (since : Option ℕ) (j limit : ℕ) (items : List StampedItem)
    → All (λ i. j < i.id) (updated_items since (some j) limit items)
updated_items-above since j limit items =
    let recent = filter_after (λ i. i.updated_at) since items in
    All-take (λ i. j < i.id) limit _
      (All-sort_by has_lower_id (λ i. j < i.id) _ (All-filterb-above j recent))

has_lower_id_total : (i j : StampedItem) → has_lower_id i j ≡ false → has_lower_id j i ≡ true
has_lower_id_total i j e = ground arith

has_lower_id_trans :
    (i j k : StampedItem)
    → has_lower_id i j ≡ true
    → has_lower_id j k ≡ true
    → has_lower_id i k ≡ true
has_lower_id_trans i j k e f = ground arith

pub updated_items-IsSortedBy :
    (since since_id : Option ℕ) (limit : ℕ) (items : List StampedItem)
    → IsSortedBy has_lower_id (updated_items since since_id limit items)
updated_items-IsSortedBy since since_id limit items = IsSortedBy-take has_lower_id limit _ (
    IsSortedBy-sort_by has_lower_id has_lower_id_total has_lower_id_trans
      (filter_after (λ i. i.id) since_id (filter_after (λ i. i.updated_at) since items)))

pub last_id-above :
    (b : ℕ) (i : StampedItem) (items : List StampedItem)
    → All (λ k. b < k.id) (i ∷ items)
    → b < last_id i items
last_id-above b i [] h = h.0
last_id-above b i (j ∷ items) h = last_id-above b j items h.1

first_le_last_id :
    (i : StampedItem) (items : List StampedItem)
    → IsSortedBy has_lower_id (i ∷ items)
    → i.id ≤ last_id i items
first_le_last_id i [] h = omega arith
first_le_last_id i (j ∷ items) h =
    let step : i.id ≤ j.id = ground (arith, h.0.0) in
    omega (arith, step, first_le_last_id j items h.1)

-- The last row of an answer has the highest number.
pub item_le_last_id :
    (x : ℕ) (i : StampedItem) (items : List StampedItem)
    → IsSortedBy has_lower_id (i ∷ items)
    → 1 ≤ countb (is_item x) (i ∷ items)
    → x ≤ last_id i items
item_le_last_id x i [] h c = ground arith
item_le_last_id x i (j ∷ items) h c = elim (Bool-cases (i.id == x)) [
  | inl e ↦ ground (arith, first_le_last_id i (j ∷ items) h)
  | inr e ↦ item_le_last_id x j items h.1 (ground arith)
]
