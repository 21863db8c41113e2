-- ===== src/Import/Sound.antt =====
-- What the rows of a sheet satisfy.
use Prim.Native.String.{count}
use jolly_jesters_mvp.Prelude.{
  ℕ, suc, ◌+◌, ◌≤◌, true, false, ◌&&◌, Option, none, some, String, List, [], ◌∷◌, All, ◌≡◌, ◌↔◌,
  ◌⊎◌, refl, subst, arith, Option-cases, inl, inr, if◌then◌else◌, if-cases, string_eq, Dict, lookup,
  insert, lookup-insert,
}
use mathlib.Core.Option.{some-injective}
use jolly_jesters_mvp.Decimal.{Decimal, lt}
use jolly_jesters_mvp.Import.Text.{Unicode, is_empty}
use jolly_jesters_mvp.Import.Cells.{Parsed, not_decimal, nan, finite, parse_price}
use jolly_jesters_mvp.Import.Rows.{InputRow}
use jolly_jesters_mvp.Import.Reader.{
  SheetRow, Reading, rows, invalid_operation, unknown_currency, RowReading, nan_compared, skipped,
  read, no_rate, Context, name_of, sanitize_row, ean_digits, positive_rates, with_pln,
  normalized_rates, is_positive, currency_of, make_row, convert, read_row, and_then, read_from,
  read_rows, rates_or_default, default_of,
}

module _ {D : Type 0} ⦃d : Decimal D⦄ where
  -- The price in PLN is there exactly for a positive price, and is the price times the currency's rate.
  pub record IsPriced (rates : Dict String D) (row : InputRow D) : Type 0 where
    pub unpriced : is_positive row.original_purchase_price ≡ false → row.purchase_price_pln ≡ none
    pub priced :
        (p : D)
        → row.original_purchase_price ≡ some p
        → lt d.zero p ≡ true
        → (rate : D) × (lookup row.purchase_currency rates ≡ some rate)
          × (row.purchase_price_pln ≡ some (d.mul p rate))

  -- A row has an EAN. It is valid exactly when the EAN has 8 to 13 digits and the price is positive, and
  -- has an error text exactly when it is not valid.
  pub record IsSound (rates : Dict String D) (row : InputRow D) : Type 0 where
    pub has_ean : is_empty row.ean ≡ false
    pub valid_iff :
        (row.is_valid ≡ true)
        ↔ (8 ≤ count row.ean)
          × (count row.ean ≤ 13)
          × (is_positive row.original_purchase_price ≡ true)
    pub error_iff : (row.is_valid ≡ true) ↔ (row.error ≡ none)
    pub price : IsPriced rates row

  -- The rows have rising numbers, from `low` on.
  abbrev pub Rises : (low : ℕ) → List (InputRow D) → Type 0
  Rises low [] = Unit
  Rises low (row ∷ more) = (low ≤ row.row_number) × Rises (suc row.row_number) more

  -- A row has an EAN, and a price that is read as a NaN.
  abbrev pub HasNanPrice : Unicode → (decimal : String → Parsed D) → List SheetRow → Type 0
  HasNanPrice u decimal [] = ⊥
  HasNanPrice u decimal (row ∷ sheet) =
      ((is_empty (ean_digits u (sanitize_row u row).ean) ≡ false)
        × (parse_price decimal (sanitize_row u row).price ≡ nan))
      ⊎ HasNanPrice u decimal sheet

  -- `reason` is what an exception for a NaN says of the sheet.
  abbrev pub IsSoundReading : (reason : Type 0) → Dict String D → (low : ℕ) → Reading D → Type 0
  IsSoundReading reason rates low (rows rs) = All (IsSound rates) rs × Rises low rs
  IsSoundReading reason rates low (unknown_currency code) = lookup code rates ≡ none
  IsSoundReading reason rates low invalid_operation = reason

  -- What a single row gives, at its place.
  abbrev IsSoundRow : (reason : Type 0) → Dict String D → (at : ℕ) → RowReading D → Type 0
  IsSoundRow reason rates at skipped = Unit
  IsSoundRow reason rates at nan_compared = reason
  IsSoundRow reason rates at (read row) = IsSound rates row × (row.row_number ≡ at)
  IsSoundRow reason rates at (no_rate code) = lookup code rates ≡ none

  make_row-IsSound :
      (rates : Dict String D) (n : ℕ) (ean name currency : String) (price price_pln : Option D)
      → is_empty ean ≡ false
      → IsPriced rates (make_row n ean name currency price price_pln)
      → IsSound rates (make_row n ean name currency price price_pln)
  make_row-IsSound rates n ean name currency price price_pln e h = record {
    has_ean = e;
    valid_iff = (λ v. ground arith, λ v. ground arith);
    error_iff = (λ v. ground arith, λ v. ground arith);
    price = h;
  }

  convert-IsSoundRow :
      (reason : Type 0) (rates : Dict String D) (n : ℕ) (ean name currency : String)
      (price : Parsed D) (rate : Option D)
      → is_empty ean ≡ false
      → lookup currency rates ≡ rate
      → (price ≡ nan → reason)
      → IsSoundRow reason rates n (convert n ean name currency price rate)
  convert-IsSoundRow reason rates n ean name currency nan rate e l because = because refl
  convert-IsSoundRow reason rates n ean name currency not_decimal rate e l because = (
    make_row-IsSound rates n ean name currency none none e
        (record { unpriced = λ h. refl; priced = λ p h. absurd (ground arith) }),
    refl,
  )
  convert-IsSoundRow reason rates n ean name currency (finite p) none e l because =
      if-cases (IsSoundRow reason rates n) (lt d.zero p) (no_rate currency)
        (read (make_row n ean name currency (some p) none)) (λ h. l)
        (λ h. (
          make_row-IsSound rates n ean name currency (some p) none e (record {
            unpriced = λ g. refl;
            priced = λ q same g.
                let same' : lt d.zero q ≡ false =
                  subst (λ y. lt d.zero y ≡ false) (some-injective _ _ same) h in
                absurd (ground arith);
          }),
          refl,
        ))
  convert-IsSoundRow reason rates n ean name currency (finite p) (some rate) e l because = (
    make_row-IsSound rates n ean name currency (some p) _ e (record {
      unpriced = λ h. ground arith;
      priced = λ q same.
          subst
            (λ y.
              lt d.zero y ≡ true
              → (r : D) × (lookup currency rates ≡ some r)
                × ((if lt d.zero p then some (d.mul p rate) else none) ≡ some (d.mul y r)))
            (some-injective _ _ same) (λ g. (rate, l, rw g refl));
    }),
    refl,
  )

  read_row-IsSoundRow :
      (reason : Type 0) (x : Context D) (rates : Dict String D) (idx : ℕ) (row : SheetRow)
      → ((is_empty (ean_digits x.unicode (sanitize_row x.unicode row).ean) ≡ false)
            × (parse_price x.decimal (sanitize_row x.unicode row).price ≡ nan)
          → reason)
      → IsSoundRow reason rates (x.header_idx + idx + 2) (read_row x rates idx row)
  unfolding read_row
  read_row-IsSoundRow reason x rates idx row because =
      let r = sanitize_row x.unicode row in
      let ean = ean_digits x.unicode r.ean in
      let currency = currency_of x r in
      if-cases (IsSoundRow reason rates (x.header_idx + idx + 2)) (is_empty ean) skipped _ (λ e. tt)
        (λ e.
          convert-IsSoundRow reason rates (x.header_idx + idx + 2) ean (name_of x.unicode r.name)
            currency (parse_price x.decimal r.price) (lookup currency rates) e refl
            (λ n. because (e, n)))

  Rises-lower : (low high : ℕ) (rs : List (InputRow D)) → low ≤ high → Rises high rs → Rises low rs
  Rises-lower low high [] le h = tt
  Rises-lower low high (r ∷ rs) le h = (omega (arith, h.0), h.1)

  and_then-IsSoundReading :
      (reason : Type 0) (rates : Dict String D) (at : ℕ) (r : RowReading D) (more : Reading D)
      → IsSoundRow reason rates at r
      → IsSoundReading reason rates (suc at) more
      → IsSoundReading reason rates at (and_then r more)
  and_then-IsSoundReading reason rates at nan_compared more h g = h
  and_then-IsSoundReading reason rates at skipped invalid_operation h g = g
  and_then-IsSoundReading reason rates at (read row) invalid_operation h g = g
  and_then-IsSoundReading reason rates at skipped (rows rs) h g =
      (g.0, Rises-lower at (suc at) rs (omega arith) g.1)
  and_then-IsSoundReading reason rates at skipped (unknown_currency c) h g = g
  and_then-IsSoundReading reason rates at (read row) (rows rs) h g = (
    (h.0, g.0),
    (omega (arith, h.1), Rises-lower (suc row.row_number) (suc at) rs (omega (arith, h.1)) g.1),
  )
  and_then-IsSoundReading reason rates at (read row) (unknown_currency c) h g = g
  and_then-IsSoundReading reason rates at (no_rate c) more h g = h

  read_from-IsSoundReading :
      (reason : Type 0) (x : Context D) (rates : Dict String D) (idx : ℕ) (sheet : List SheetRow)
      → (HasNanPrice x.unicode x.decimal sheet → reason)
      → IsSoundReading reason rates (x.header_idx + idx + 2) (read_from x rates idx sheet)
  unfolding read_from
  read_from-IsSoundReading reason x rates idx [] because = (tt, tt)
  read_from-IsSoundReading reason x rates idx (row ∷ more) because =
      let next : x.header_idx + suc idx + 2 ≡ suc (x.header_idx + idx + 2) = omega arith in
      and_then-IsSoundReading reason rates (x.header_idx + idx + 2) (read_row x rates idx row)
        (read_from x rates (suc idx) more)
        (read_row-IsSoundRow reason x rates idx row (λ h. because (inl h)))
        (subst (λ low. IsSoundReading reason rates low (read_from x rates (suc idx) more)) next
          (read_from-IsSoundReading reason x rates (suc idx) more (λ h. because (inr h))))

  -- PLN has a rate, and it compares equal to 1.
  abbrev pub HasPln : Dict String D → Type 0
  HasPln rates =
      (r : D) × (lookup "PLN" rates ≡ some r) × (d.le r d.one ≡ true) × (d.le d.one r ≡ true)

  insert-HasPln : (rates : Dict String D) → HasPln (insert "PLN" d.one rates)
  insert-HasPln rates =
      (d.one, lookup-insert "PLN" "PLN" d.one rates, d.le_refl d.one, d.le_refl d.one)

  with_pln-HasPln : (rates : Dict String D) → HasPln (with_pln rates)
  with_pln-HasPln rates = elim (Option-cases (lookup "PLN" rates)) [
    | inl e ↦ rw (e, with_pln) (insert-HasPln rates)
    | inr (r, e) ↦
        rw (e, with_pln)
          (if-cases HasPln (d.le r d.one && d.le d.one r) rates (insert "PLN" d.one rates)
            (λ h. (r, e, ground arith, ground arith)) (λ h. insert-HasPln rates))
  ]

  -- What reading the rows of a sheet ends with.
  pub read_rows_sound :
      (reason : Type 0) (x : Context D) (given : Dict String (Option D)) (sheet : List SheetRow)
      → (HasNanPrice x.unicode x.decimal sheet → reason)
      → let rates = normalized_rates x.unicode (rates_or_default x.decimal given) in
        IsSoundReading reason rates (x.header_idx + 2) (read_rows x given sheet) × HasPln rates
  unfolding read_rows normalized_rates
  read_rows_sound reason x given sheet because =
      let currency_rates = rates_or_default x.decimal given in
      let rates = normalized_rates x.unicode currency_rates in
      let x' = record x { default_currency = default_of x.default_currency currency_rates } in
      let start : x.header_idx + 0 + 2 ≡ x.header_idx + 2 = omega arith in
      (
        subst (λ low. IsSoundReading reason rates low (read_from x' rates 0 sheet)) start
            (read_from-IsSoundReading reason x' rates 0 sheet because),
        with_pln-HasPln (positive_rates x.unicode currency_rates []),
      )
