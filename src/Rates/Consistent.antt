-- ===== src/Rates/Consistent.antt =====
-- What an update of the currency rates leaves in the table.
use Prim.Native.String.{count}
use jolly_jesters_mvp.Prelude.{
  ◌≤◌, ap, Bool, true, false, not, ◌||◌, Option, none, some, String, List, [], ◌∷◌, anyb, countb,
  countb-none, All, ◌==◌, ltb, ◌≡◌, refl, sym, subst, ◌∙◌, arith, Bool-cases, inl, inr, if-cases,
  if-elim, string_eq,
}
use jolly_jesters_mvp.Decimal.{Decimal, lt}
use jolly_jesters_mvp.Import.Text.{Unicode}
use jolly_jesters_mvp.ProxyPool.{update_first}
use jolly_jesters_mvp.Rates.{
  CurrencyRate, RateValue, unreadable, not_a_number, number, RateEntry, Normalized, refused, normal,
  Update, refused_for, database_error, updated, is_pln, has_code, repeats, prepend_rate,
  normalize_entry, normalize, is_not_one, default_count, check_rates, store_rate, stored_rates,
  write_rates, commit_rates, checked, update_currency_rates,
}

module _ {D : Type 0} ⦃d : Decimal D⦄ where
  -- A table with one row for a code, one default and a row for PLN.
  pub record IsConsistent (table : List (CurrencyRate D)) : Type 0 where
    pub distinct : (code : String) → countb (has_code code) table ≤ 1
    pub one_default : countb (λ r. r.is_default) table ≡ 1
    pub has_pln : anyb is_pln table ≡ true

  abbrev pub IsOne : D → Type 0
  IsOne x = (d.le x d.one ≡ true) × (d.le d.one x ≡ true)

  -- A row for PLN has the rate 1.
  abbrev IsPlnOne : CurrencyRate D → Type 0
  IsPlnOne r = is_pln r ≡ true → IsOne r.rate_to_pln

  -- What is known after a step of the normalising.
  abbrev Known : (List (CurrencyRate D) → Type 0) → Normalized D → Type 0
  Known P (refused e) = Unit
  Known P (normal rs) = P rs

  abbrev to_default : CurrencyRate D → CurrencyRate D
  to_default r = record r { is_default = true }

  distinct-repeats :
      (rs : List (CurrencyRate D)) (code : String)
      → repeats rs ≡ false
      → countb (has_code code) rs ≤ 1
  distinct-repeats [] code h = omega arith
  distinct-repeats (r ∷ rs) code h = elim (Bool-cases (has_code code r)) [
    | inl here ↦
        let same : r.currency ≡ code = (string_eq.beq_iff r.currency code).0 here in
        let none_behind : countb (has_code code) rs ≡ 0 =
          subst (λ c. countb (has_code c) rs ≡ 0) same
            (countb-none (has_code r.currency) rs (ground arith)) in
        ground (arith, none_behind)
    | inr other ↦ ground (arith, distinct-repeats rs code)
  ]

  to_default-IsPlnOne :
      (rs : List (CurrencyRate D))
      → All IsPlnOne rs
      → All IsPlnOne (update_first is_pln to_default rs)
  to_default-IsPlnOne [] h = tt
  to_default-IsPlnOne (r ∷ rs) h =
      if-elim (All IsPlnOne) (is_pln r) (to_default r ∷ rs) (r ∷ update_first is_pln to_default rs)
        h (h.0, to_default-IsPlnOne rs h.1)

  to_default-one :
      (rs : List (CurrencyRate D))
      → anyb is_pln rs ≡ true
      → countb (λ r. r.is_default) rs ≡ 0
      → countb (λ r. r.is_default) (update_first is_pln to_default rs) ≡ 1
  to_default-one [] h e = absurd (ground arith)
  to_default-one (r ∷ rs) h e = ground (arith, to_default-one rs)

  to_default-pln :
      (rs : List (CurrencyRate D))
      → anyb is_pln (update_first is_pln to_default rs) ≡ anyb is_pln rs
  to_default-pln [] = refl
  to_default-pln (r ∷ rs) = ground (arith, to_default-pln rs)

  module _ (to_numeric : D → Option D) where
    -- Rows as the database keeps them, next to those that were written.
    abbrev AreStored : (written kept : List (CurrencyRate D)) → Type 0
    AreStored [] [] = Unit
    AreStored (r ∷ rs) (q ∷ qs) =
        ((to_numeric r.rate_to_pln ≡ some q.rate_to_pln)
          × (r.currency ≡ q.currency)
          × (r.is_default ≡ q.is_default))
        × AreStored rs qs
    AreStored _ _ = ⊥

    abbrev IsStoredAs : List (CurrencyRate D) → Option (List (CurrencyRate D)) → Type 0
    IsStoredAs rs none = Unit
    IsStoredAs rs (some qs) = AreStored rs qs

    store_rate-IsStoredAs :
        (r : CurrencyRate D) (rs : List (CurrencyRate D)) (o : Option D)
        (rest : Option (List (CurrencyRate D)))
        → to_numeric r.rate_to_pln ≡ o
        → IsStoredAs rs rest
        → IsStoredAs (r ∷ rs) (store_rate r o rest)
    store_rate-IsStoredAs r rs none rest e h = tt
    store_rate-IsStoredAs r rs (some rate) none e h = tt
    store_rate-IsStoredAs r rs (some rate) (some rows) e h = ((e, refl, refl), h)

    stored_rates-IsStoredAs :
        (rs : List (CurrencyRate D)) → IsStoredAs rs (stored_rates to_numeric rs)
    stored_rates-IsStoredAs [] = tt
    stored_rates-IsStoredAs (r ∷ rs) =
        store_rate-IsStoredAs r rs (to_numeric r.rate_to_pln) (stored_rates to_numeric rs) refl
          (stored_rates-IsStoredAs rs)

    stored-codes :
        (code : String) (rs qs : List (CurrencyRate D))
        → AreStored rs qs
        → countb (has_code code) qs ≡ countb (has_code code) rs
    stored-codes code [] [] h = refl
    stored-codes code (r ∷ rs) [] h = absurd h
    stored-codes code [] (q ∷ qs) h = absurd h
    stored-codes code (r ∷ rs) (q ∷ qs) h =
        rw (sym h.0.1) (ground (arith, stored-codes code rs qs h.1))

    stored-default :
        (rs qs : List (CurrencyRate D))
        → AreStored rs qs
        → countb (λ r. r.is_default) qs ≡ countb (λ r. r.is_default) rs
    stored-default [] [] h = refl
    stored-default (r ∷ rs) [] h = absurd h
    stored-default [] (q ∷ qs) h = absurd h
    stored-default (r ∷ rs) (q ∷ qs) h = rw (sym h.0.2) (ground (arith, stored-default rs qs h.1))

    stored-pln : (rs qs : List (CurrencyRate D)) → AreStored rs qs → anyb is_pln qs ≡ anyb is_pln rs
    stored-pln [] [] h = refl
    stored-pln (r ∷ rs) [] h = absurd h
    stored-pln [] (q ∷ qs) h = absurd h
    stored-pln (r ∷ rs) (q ∷ qs) h = rw (sym h.0.1) (ap (λ b. is_pln r || b) (stored-pln rs qs h.1))

  module _ (u : Unicode) where
    -- The normalised rates are those of the entries, with their codes, and above zero.
    abbrev AreOf : List (RateEntry D) → List (CurrencyRate D) → Type 0
    AreOf [] [] = Unit
    AreOf (e ∷ es) (r ∷ rs) =
        ((r.currency ≡ u.upper e.currency)
          × (e.rate ≡ number r.rate_to_pln)
          × (lt d.zero r.rate_to_pln ≡ true))
        × AreOf es rs
    AreOf _ _ = ⊥

    to_default-AreOf :
        (es : List (RateEntry D)) (rs : List (CurrencyRate D))
        → AreOf es rs
        → AreOf es (update_first is_pln to_default rs)
    to_default-AreOf [] [] h = tt
    to_default-AreOf (e ∷ es) [] h = absurd h
    to_default-AreOf [] (r ∷ rs) h = absurd h
    to_default-AreOf (e ∷ es) (r ∷ rs) h =
        if-elim (AreOf (e ∷ es)) (is_pln r) (to_default r ∷ rs)
          (r ∷ update_first is_pln to_default rs) h (h.0, to_default-AreOf es rs h.1)

    prepend_rate-AreOf :
        (e : RateEntry D) (es : List (RateEntry D)) (r : CurrencyRate D) (n : Normalized D)
        → (r.currency ≡ u.upper e.currency)
          × (e.rate ≡ number r.rate_to_pln)
          × (lt d.zero r.rate_to_pln ≡ true)
        → Known (AreOf es) n
        → Known (AreOf (e ∷ es)) (prepend_rate r n)
    prepend_rate-AreOf e es r (refused x) h g = tt
    prepend_rate-AreOf e es r (normal rs) h g = (h, g)

    -- Each row of the table has the code of an entry, in capital letters, and the rounding of that
    -- entry's rate, which is above zero, and 1 for PLN; and each entry has its row, in order.
    abbrev pub HoldsRates :
        (to_numeric : D → Option D) → List (RateEntry D) → List (CurrencyRate D) → Type 0
    HoldsRates to_numeric [] [] = Unit
    HoldsRates to_numeric (e ∷ es) (q ∷ qs) =
        ((x : D) × (e.rate ≡ number x)
          × (to_numeric x ≡ some q.rate_to_pln)
          × (lt d.zero x ≡ true)
          × (q.currency ≡ u.upper e.currency)
          × (q.currency ≡ "PLN" → IsOne x))
        × HoldsRates to_numeric es qs
    HoldsRates to_numeric _ _ = ⊥

    stored-HoldsRates :
        (to_numeric : D → Option D) (es : List (RateEntry D)) (rs qs : List (CurrencyRate D))
        → AreOf es rs
        → All IsPlnOne rs
        → AreStored to_numeric rs qs
        → HoldsRates to_numeric es qs
    stored-HoldsRates to_numeric [] [] [] a p h = tt
    stored-HoldsRates to_numeric [] [] (q ∷ qs) a p h = absurd h
    stored-HoldsRates to_numeric [] (r ∷ rs) qs a p h = absurd a
    stored-HoldsRates to_numeric (e ∷ es) [] qs a p h = absurd a
    stored-HoldsRates to_numeric (e ∷ es) (r ∷ rs) [] a p h = absurd h
    stored-HoldsRates to_numeric (e ∷ es) (r ∷ rs) (q ∷ qs) a p h = (
      (
        r.rate_to_pln,
        a.0.1,
        h.0.0,
        a.0.2,
        sym h.0.1 ∙ a.0.0,
        λ pln. p.0 ((string_eq.beq_iff r.currency "PLN").1 (h.0.1 ∙ pln)),
      ),
      stored-HoldsRates to_numeric es rs qs a.1 p.1 h.1,
    )

    -- The rates that pass the checks, before the codes are compared.
    record IsChecked (es : List (RateEntry D)) (rs : List (CurrencyRate D)) : Type 0 where
      rates : AreOf es rs
      pln_one : All IsPlnOne rs
      one_default : countb (λ r. r.is_default) rs ≡ 1
      has_pln : anyb is_pln rs ≡ true

    module _ (is_alpha : String → Bool) where
      normalize_entry-AreOf :
          (e : RateEntry D) (es : List (RateEntry D)) (v : RateValue D) (n : Normalized D)
          → e.rate ≡ v
          → Known (AreOf es) n
          → Known (AreOf (e ∷ es)) (normalize_entry u is_alpha e v n)
      normalize_entry-AreOf e es unreadable n same g = tt
      normalize_entry-AreOf e es not_a_number n same g = tt
      normalize_entry-AreOf e es (number rate) n same g =
          if-cases (Known (AreOf (e ∷ es))) (d.le rate d.zero) _ _ (λ low. tt)
            (λ high. prepend_rate-AreOf e es _ n (refl, same, ground arith) g)

      normalize-AreOf : (es : List (RateEntry D)) → Known (AreOf es) (normalize u is_alpha es)
      normalize-AreOf [] = tt
      normalize-AreOf (e ∷ es) =
          if-elim (Known (AreOf (e ∷ es)))
            (not (count (u.upper e.currency) == 3) || not (is_alpha (u.upper e.currency))) _ _ tt
            (normalize_entry-AreOf e es e.rate (normalize u is_alpha es) refl (normalize-AreOf es))

      All-IsPlnOne :
          (rs : List (CurrencyRate D)) → anyb (is_not_one u is_alpha) rs ≡ false → All IsPlnOne rs
      All-IsPlnOne [] e = tt
      All-IsPlnOne (r ∷ rs) e = (λ p. ground arith, All-IsPlnOne rs (ground arith))

      check_rates-IsChecked :
          (es : List (RateEntry D)) (rs : List (CurrencyRate D))
          → AreOf es rs
          → Known (IsChecked es) (check_rates u is_alpha rs)
      check_rates-IsChecked es rs h =
          if-cases (Known (IsChecked es)) (not (anyb is_pln rs)) _ _ (λ lacks. tt)
            λ there.
              if-cases (Known (IsChecked es)) (anyb (is_not_one u is_alpha) rs) _ _ (λ wrong. tt)
                λ right.
                  if-cases (Known (IsChecked es)) (ltb 1 (default_count u is_alpha rs)) _ _
                    (λ several. tt)
                    λ few.
                      let one = All-IsPlnOne rs right in
                      if-cases (IsChecked es) (default_count u is_alpha rs == 0)
                        (update_first is_pln to_default rs) rs
                        (λ e. record {
                          rates = to_default-AreOf es rs h;
                          pln_one = to_default-IsPlnOne rs one;
                          one_default = to_default-one rs (ground arith) (ground arith);
                          has_pln = to_default-pln rs ∙ ground arith;
                        })
                        (λ e. record {
                          rates = h;
                          pln_one = one;
                          one_default = ground arith;
                          has_pln = ground arith;
                        })

      checked-IsChecked :
          (es : List (RateEntry D)) (n : Normalized D)
          → Known (AreOf es) n
          → Known (IsChecked es) (checked u is_alpha n)
      checked-IsChecked es (refused e) h = tt
      checked-IsChecked es (normal rs) h = check_rates-IsChecked es rs h

    -- What an update says of the table after it.
    abbrev pub Leaves :
        (to_numeric : D → Option D)
        → List (RateEntry D)
        → (before : List (CurrencyRate D)) → Update × List (CurrencyRate D)
        → Type 0
    Leaves to_numeric es before (refused_for e, after) = after ≡ before
    Leaves to_numeric es before (database_error, after) = after ≡ before
    Leaves to_numeric es before (updated, after) =
        IsConsistent after × HoldsRates to_numeric es after

    write_rates-Leaves :
        (to_numeric : D → Option D) (es : List (RateEntry D)) (rs table : List (CurrencyRate D))
        (o : Option (List (CurrencyRate D)))
        → IsChecked es rs
        → repeats rs ≡ false
        → IsStoredAs to_numeric rs o
        → Leaves to_numeric es table (write_rates table o)
    write_rates-Leaves to_numeric es rs table none h e stored = refl
    write_rates-Leaves to_numeric es rs table (some qs) h e stored = (
      record {
        distinct =
            λ code. rw (stored-codes to_numeric code rs qs stored) (distinct-repeats rs code e);
        one_default = stored-default to_numeric rs qs stored ∙ h.one_default;
        has_pln = stored-pln to_numeric rs qs stored ∙ h.has_pln;
      },
      stored-HoldsRates to_numeric es rs qs h.rates h.pln_one stored,
    )

    module _ (is_alpha : String → Bool) (to_numeric : D → Option D) where
      commit_rates-Leaves :
          (es : List (RateEntry D)) (n : Normalized D) (table : List (CurrencyRate D))
          → Known (IsChecked es) n
          → Leaves to_numeric es table (commit_rates u is_alpha to_numeric n table)
      commit_rates-Leaves es (refused e) table h = refl
      commit_rates-Leaves es (normal rs) table h =
          if-cases (Leaves to_numeric es table) (repeats rs) (database_error, table)
            (write_rates table (stored_rates to_numeric rs)) (λ e. refl)
            (λ e.
              write_rates-Leaves to_numeric es rs table (stored_rates to_numeric rs) h e
                (stored_rates-IsStoredAs to_numeric rs))

      -- An update of the rates that is refused, or that fails in the database, leaves the table as it
      -- was. Every other one leaves a row for each entry, in their order, with the entry's code in capital
      -- letters and its rate as the column rounds it, where the rate before the rounding is above zero and
      -- compares equal to 1 for PLN; no code stands twice, PLN is there, and exactly one rate is the
      -- default.
      pub update_currency_rates-Leaves :
          (entries : List (RateEntry D)) (table : List (CurrencyRate D))
          → Leaves to_numeric entries table
              (update_currency_rates u is_alpha to_numeric entries table)
      unfolding update_currency_rates
      update_currency_rates-Leaves [] table = refl
      update_currency_rates-Leaves (e ∷ es) table =
          let n = normalize u is_alpha (e ∷ es) in
          commit_rates-Leaves (e ∷ es) (checked u is_alpha n) table
            (checked-IsChecked is_alpha (e ∷ es) n (normalize-AreOf is_alpha (e ∷ es)))
