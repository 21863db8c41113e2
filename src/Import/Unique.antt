-- ===== src/Import/Unique.antt =====
-- What the deduplication of an upload keeps.
use jolly_jesters_mvp.Prelude.{
  ◌≤◌, Bool, true, false, String, List, [], ◌∷◌, filterb, findb, countb, anyb, ◌≡◌, refl, ap, arith,
  Bool-cases, inl, inr, string_eq,
}
use jolly_jesters_mvp.Import.Text.{is_empty}
use jolly_jesters_mvp.Import.Rows.{InputRow}
use jolly_jesters_mvp.Import.Upload.{unique_from, unique_rows}

abbrev was_seen : List String → String → Bool
was_seen seen e = anyb (λ s. string_eq.beq s e) seen

-- Rows with the same EAN are empty, and were seen, together.
same_empty : (x e : String) → string_eq.beq x e ≡ true → is_empty x ≡ is_empty e
same_empty x e h = ap is_empty ((string_eq.beq_iff x e).0 h)

same_seen :
    (seen : List String) (x e : String)
    → string_eq.beq x e ≡ true
    → was_seen seen x ≡ was_seen seen e
same_seen seen x e h = ap (was_seen seen) ((string_eq.beq_iff x e).0 h)

seen_more :
    (seen : List String) (x e : String) → was_seen seen e ≡ true → was_seen (x ∷ seen) e ≡ true
seen_more seen x e h = ground arith

module _ {D : Type 0} where
  abbrev pub has_ean : String → InputRow D → Bool
  has_ean e row = string_eq.beq row.ean e

  module _ (e : String) (filled : is_empty e ≡ false) where
    unique_from-seen :
        (seen : List String) (rows : List (InputRow D))
        → was_seen seen e ≡ true
        → countb (has_ean e) (unique_from seen rows) ≡ 0
    unique_from-seen seen [] h = refl
    unique_from-seen seen (row ∷ rows) h = ground (
      arith,
      unique_from-seen seen rows h,
      unique_from-seen (row.ean ∷ seen) rows (seen_more seen row.ean e h),
      same_empty row.ean e,
      same_seen seen row.ean e,
    )

    unique_from-new :
        (seen : List String) (rows : List (InputRow D))
        → was_seen seen e ≡ false
        → (countb (has_ean e) (unique_from seen rows) ≤ 1)
          × (findb (has_ean e) (unique_from seen rows) ≡ findb (has_ean e) rows)
    unique_from-new seen [] h = (omega arith, refl)
    unique_from-new seen (row ∷ rows) h = elim (Bool-cases (string_eq.beq row.ean e)) [
      | inl same ↦
          let before = unique_from-seen (row.ean ∷ seen) rows (rw same refl) in
          ground (arith, before, same_empty row.ean e same, same_seen seen row.ean e same)
      | inr other ↦
          let here = unique_from-new seen rows h in
          let there = unique_from-new (row.ean ∷ seen) rows (rw other h) in
          ground (arith, here, there)
    ]

  unique_from-blank :
      (seen : List String) (rows : List (InputRow D))
      → filterb (λ row. is_empty row.ean) (unique_from seen rows)
        ≡ filterb (λ row. is_empty row.ean) rows
  unique_from-blank seen [] = refl
  unique_from-blank seen (row ∷ rows) =
      ground (arith, unique_from-blank seen rows, unique_from-blank (row.ean ∷ seen) rows)

  -- For each EAN that is not empty, the rows that an upload keeps have at most one row, and it is the
  -- first one of the file; and they have the rows without an EAN, all of them and in the same order.
  unique_rows_first :
      (rows : List (InputRow D))
      → ((e : String)
          → is_empty e ≡ false
          → (countb (has_ean e) (unique_rows rows) ≤ 1)
            × (findb (has_ean e) (unique_rows rows) ≡ findb (has_ean e) rows))
        × (filterb (λ row. is_empty row.ean) (unique_rows rows)
            ≡ filterb (λ row. is_empty row.ean) rows)
  unfolding unique_rows
  unique_rows_first rows =
      (λ e filled. unique_from-new e filled [] rows refl, unique_from-blank [] rows)
