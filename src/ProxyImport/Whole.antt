-- ===== src/ProxyImport/Whole.antt =====
-- When an import commits, and what its report says.
use jolly_jesters_mvp.Prelude.{
  ℕ, ◌+◌, ◌≡◌, refl, ap, ◌∙◌, Bool, true, false, not, ◌&&◌, ◌||◌, Option, none, some, String, List,
  [], ◌∷◌, ◌++◌, arith, anyb, length, Bool-cases, Option-cases, inl, inr, ◌≢◌, ◌⊎◌,
}
use jolly_jesters_mvp.ProxyPool.{NetworkProxy, update_first}
use jolly_jesters_mvp.ProxyImport.{
  Python, Report, Session, committed, raised, empty_file, database_error, has_url, distinct,
  label_too_long, is_too_long, urls, parse_line, usable_url, relabel, import_line, import_lines,
  start, import_from_csv,
}
use jolly_jesters_mvp.ProxyImport.Commit.{
  known, store_old, store_new, entry, import_line-skip, import_line-store, import_line-Imports,
  clean, found_urls, urls-committed, import_clean-commit,
}

anyb-append {ℓ} :
    {A : Type ℓ} (p : A → Bool) (xs ys : List A) → anyb p (xs ++ ys) ≡ (anyb p xs || anyb p ys)
anyb-append p [] ys = refl
anyb-append p (x ∷ xs) ys = ground (arith, anyb-append p xs ys)

module _ (py : Python) where
  -- The label on the line is too long for its column.
  abbrev pub line_too_long : (line : String) → Bool
  line_too_long line = label_too_long (parse_line py line).1

  -- The line has a usable URL that no row has.
  abbrev pub is_new : (old : List String) → (line : String) → Bool
  is_new old line = elim (usable_url py line) [ none ↦ false | some url ↦ not (known url old) ]

  abbrev pub new_too_long : (old : List String) → (line : String) → Bool
  new_too_long old line = is_new old line && line_too_long line

  -- What the lines did to the labels of a session.
  record Labels (lines : List String) (s s' : Session) : Type 0 where
    fits :
        anyb is_too_long s.rows ≡ false
        → anyb line_too_long lines ≡ false
        → anyb is_too_long s'.rows ≡ false
    added :
        anyb is_too_long s'.added
        ≡ (anyb is_too_long s.added || anyb (new_too_long (urls s.rows)) lines)

  relabel-fits :
      (test : NetworkProxy → Bool) (label : Option String) (rows : List NetworkProxy)
      → anyb is_too_long rows ≡ false
      → label_too_long label ≡ false
      → anyb is_too_long (update_first test (relabel py label) rows) ≡ false
  relabel-fits test label [] h e = refl
  relabel-fits test label (p ∷ rows) h e = ground (arith, relabel-fits test label rows)

  is_new-none :
      (old : List String) (line : String) → usable_url py line ≡ none → is_new old line ≡ false
  is_new-none old line e = rw (e, is_new)

  is_new-some :
      (old : List String) (line : String) {url : String}
      → usable_url py line ≡ some url
      → is_new old line ≡ not (known url old)
  is_new-some old line e = rw (e, is_new)

  import_line-Labels : (line : String) (s : Session) → Labels (line ∷ []) s (import_line py line s)
  import_line-Labels line s = elim (Option-cases (usable_url py line)) [
    | inl e ↦
        let skipped = is_new-none (urls s.rows) line e in
        rw (import_line-skip py line s e)
          (record { fits = λ h l. h; added = ground (arith, skipped) })
    | inr (url, e) ↦
        let label = (parse_line py line).1 in
        let found = is_new-some (urls s.rows) line e in
        elim (Bool-cases (known url (urls s.rows))) [
          | inl old ↦
              rw (import_line-store py line s e, store_old py url label s old)
                (record {
                  fits = λ h l. relabel-fits (has_url url) label s.rows h (ground arith);
                  added = ground (arith, found);
                })
          | inr new ↦
              rw (import_line-store py line s e, store_new py url label s new)
                (record {
                  fits = λ h l. h;
                  added =
                      ground
                        (arith, found, anyb-append is_too_long s.added (entry py url label s ∷ []));
                })
        ]
  ]

  import_lines-Labels :
      (lines : List String) (s : Session) → Labels lines s (import_lines py lines s)
  import_lines-Labels [] s = record { fits = λ h l. h; added = ground arith }
  import_lines-Labels (line ∷ lines) s =
      let s' = import_line py line s in
      let one = import_line-Labels line s in
      let rest = import_lines-Labels lines s' in
      let same = (import_line-Imports py line s).kept in
      record {
        fits = λ h l. rest.fits (one.fits h (ground arith)) (ground arith);
        added =
            rest.added
            ∙ rw (same) (
                ap (λ b. b || anyb (new_too_long (urls s.rows)) lines) one.added
                ∙ or_assoc (anyb is_too_long s.added) (new_too_long (urls s.rows) line) _);
      }
    where
      or_assoc : (a b c : Bool) → ((a || (b || false)) || c) ≡ (a || (b || c))
      or_assoc a b c = ground arith

  new_fits :
      (old lines : List String)
      → anyb line_too_long lines ≡ false
      → anyb (new_too_long old) lines ≡ false
  new_fits old [] h = refl
  new_fits old (line ∷ lines) h = ground (arith, new_fits old lines)

  labels-committed :
      (lines : List String) (next_id : ℕ) (rows : List NetworkProxy)
      → let s = import_lines py lines (start py next_id rows) in
        (anyb is_too_long rows ≡ false
          → anyb line_too_long lines ≡ false
          → anyb is_too_long (s.rows ++ s.added) ≡ false)
        × (anyb (new_too_long (urls rows)) lines ≡ true
            → anyb is_too_long (s.rows ++ s.added) ≡ true)
  labels-committed lines next_id rows =
      let s = import_lines py lines (start py next_id rows) in
      let done = import_lines-Labels lines (start py next_id rows) in
      let both = anyb-append is_too_long s.rows s.added in
      (
        λ h l.
            let kept = done.fits h l in
            let new = new_fits (urls rows) lines l in ground (arith, both, kept, new, done.added),
        λ e. ground (arith, both, done.added),
      )

  -- A file with a line that is not blank is imported if no URL would stand in the table twice and no
  -- label, of a row or on a line, has more than 128 characters: then the table holds the old URLs and
  -- the new ones in the file's order, every line is reported as imported or skipped, and the table
  -- has grown by the imported ones. If a URL would stand there twice, or the line of a new URL has a longer
  -- label, the commit raises an exception of the database. A file of blank lines raises ValueError.
  pub import_from_csv_outcome :
      (next_id : ℕ) (text_lines : List String) (rows : List NetworkProxy)
      → let outcome = import_from_csv py next_id text_lines rows in
        (clean py text_lines ≡ [] → outcome ≡ raised empty_file)
        × (clean py text_lines ≢ []
            → distinct (found_urls py text_lines rows) ≡ true
            → anyb is_too_long rows ≡ false
            → anyb line_too_long (clean py text_lines) ≡ false
            → (rows' : List NetworkProxy) × (r : Report) × (outcome ≡ committed rows' r)
              × (urls rows' ≡ found_urls py text_lines rows)
              × (r.imported + r.skipped ≡ length (clean py text_lines))
              × (length rows' ≡ length rows + r.imported))
        × (clean py text_lines ≢ []
            → (distinct (found_urls py text_lines rows) ≡ false)
              ⊎ (anyb (new_too_long (urls rows)) (clean py text_lines) ≡ true)
            → outcome ≡ raised database_error)
  unfolding import_from_csv
  import_from_csv_outcome next_id text_lines rows =
      let s = import_lines py (clean py text_lines) (start py next_id rows) in
      let (same, counted, grown) = urls-committed py (clean py text_lines) next_id rows in
      let (fits, long) = labels-committed (clean py text_lines) next_id rows in
      (
        λ e. rw e,
        λ ne ok old new. (
          s.rows ++ s.added,
          record {
            imported = s.imported;
            skipped = s.skipped;
            total_lines = length (clean py text_lines);
          },
          rw (
            import_clean-commit py next_id (clean py text_lines) rows ne,
            ap distinct same ∙ ok,
            fits old new,
          ),
          same,
          counted,
          grown,
        ),
        λ ne fault. elim fault [
          | inl twice ↦ rw (
            import_clean-commit py next_id (clean py text_lines) rows ne,
            ap distinct same ∙ twice,
          )
          | inr wide ↦
              let refused = long wide in
              rw (import_clean-commit py next_id (clean py text_lines) rows ne)
                (ground (arith, refused))
        ],
      )
