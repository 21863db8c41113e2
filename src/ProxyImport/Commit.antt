-- ===== src/ProxyImport/Commit.antt =====
-- The URLs that an import adds, and its counters.
use jolly_jesters_mvp.Prelude.{
  ℕ, ◌+◌, ◌≡◌, refl, sym, ap, ◌∙◌, Bool, true, false, not, ◌||◌, Option, none, some, String, List,
  [], ◌∷◌, ◌++◌, map, arith, if◌then◌else◌, string_eq, filterb, anyb, length, length-append,
  append-nil, append_assoc, Bool-cases, Option-cases, inl, inr, ap₂, ◌≢◌, length-map,
}
use mathlib.Core.List.{map-append}
use jolly_jesters_mvp.ProxyPool.{NetworkProxy, update_first, new_proxy}
use jolly_jesters_mvp.ProxyImport.{
  Python, is_empty, Session, has_url, urls, parse_line, usable_url, relabel, store, skip,
  import_line, import_lines, commit, start, import_clean,
}

abbrev pub known : String → List String → Bool
known url us = anyb (λ v. string_eq.beq v url) us

anyb-has_url :
    (url : String) (rows : List NetworkProxy) → anyb (has_url url) rows ≡ known url (urls rows)
anyb-has_url url [] = refl
anyb-has_url url (p ∷ rows) = ap (λ b. has_url url p || b) (anyb-has_url url rows)

urls-relabel :
    (py : Python) (test : NetworkProxy → Bool) (label : Option String) (rows : List NetworkProxy)
    → urls (update_first test (relabel py label) rows) ≡ urls rows
urls-relabel py test label [] = refl
urls-relabel py test label (p ∷ rows) = ground (arith, urls-relabel py test label rows)

module _ (py : Python) where
  -- The usable URLs of the lines that no row has, in order and as often as they stand there.
  abbrev pub new_urls : (old : List String) → List String → List String
  new_urls old [] = []
  new_urls old (line ∷ lines) = elim (usable_url py line) [
    | none ↦ new_urls old lines
    | some url ↦ if known url old then new_urls old lines else url ∷ new_urls old lines
  ]

  -- What the lines did to a session.
  pub record Imports (lines : List String) (s s' : Session) : Type 0 where
    pub kept : urls s'.rows ≡ urls s.rows
    pub appended : urls s'.added ≡ urls s.added ++ new_urls (urls s.rows) lines
    pub counted : s'.imported + s'.skipped ≡ s.imported + s.skipped + length lines
    pub stored : s'.imported + length s.added ≡ s.imported + length s'.added

  abbrev pub entry : String → Option String → Session → NetworkProxy
  entry url label s = new_proxy s.next_id url (py.url_hash url) label

  pub store_old :
      (url : String) (label : Option String) (s : Session)
      → known url (urls s.rows) ≡ true
      → store py url label s ≡ record s {
        rows = update_first (has_url url) (relabel py label) s.rows;
        skipped = s.skipped + 1;
      }
  store_old url label s e = rw (anyb-has_url url s.rows ∙ e)

  pub store_new :
      (url : String) (label : Option String) (s : Session)
      → known url (urls s.rows) ≡ false
      → store py url label s ≡ record s {
        added = s.added ++ entry url label s ∷ [];
        imported = s.imported + 1;
        next_id = s.next_id + 1;
      }
  store_new url label s e = rw (anyb-has_url url s.rows ∙ e)

  pub import_line-skip :
      (line : String) (s : Session) → usable_url py line ≡ none → import_line py line s ≡ skip py s
  unfolding import_line
  import_line-skip line s e = rw (e, import_line)

  pub import_line-store :
      (line : String) {url : String} (s : Session)
      → usable_url py line ≡ some url
      → import_line py line s ≡ store py url (parse_line py line).1 s
  unfolding import_line
  import_line-store line s e = rw (e, import_line)

  new_urls-none :
      (line : String) (old : List String)
      → usable_url py line ≡ none
      → new_urls old (line ∷ []) ≡ []
  new_urls-none line old e = rw (e, new_urls)

  new_urls-some :
      (line : String) {url : String} (old : List String)
      → usable_url py line ≡ some url
      → new_urls old (line ∷ []) ≡ (if known url old then [] else url ∷ [])
  new_urls-some line old e = rw (e, new_urls)

  pub import_line-Imports :
      (line : String) (s : Session) → Imports (line ∷ []) s (import_line py line s)
  import_line-Imports line s = elim (Option-cases (usable_url py line)) [
    | inl e ↦ rw (import_line-skip line s e) (record {
      kept = refl;
      appended = rw (new_urls-none line (urls s.rows) e) (sym (append-nil _));
      counted = omega arith;
      stored = omega arith;
    })
    | inr (url, e) ↦
        let label = (parse_line py line).1 in
        elim (Bool-cases (known url (urls s.rows))) [
          | inl old ↦
              rw (import_line-store line s e, store_old url label s old)
                (record {
                  kept = urls-relabel py (has_url url) label s.rows;
                  appended = rw (new_urls-some line (urls s.rows) e, old) (sym (append-nil _));
                  counted = omega arith;
                  stored = omega arith;
                })
          | inr new ↦
              rw (import_line-store line s e, store_new url label s new)
                (record {
                  kept = refl;
                  appended = rw (new_urls-some line (urls s.rows) e, new) (map-append _ s.added _);
                  counted = omega arith;
                  stored = omega (arith, length-append s.added (entry url label s ∷ []));
                })
        ]
  ]

  pub new_urls-append :
      (old xs ys : List String) → new_urls old (xs ++ ys) ≡ new_urls old xs ++ new_urls old ys
  new_urls-append old [] ys = refl
  new_urls-append old (line ∷ xs) ys = ground (arith, new_urls-append old xs ys)

  import_lines-Imports :
      (lines : List String) (s : Session) → Imports lines s (import_lines py lines s)
  import_lines-Imports [] s = record {
    kept = refl;
    appended = sym (append-nil _);
    counted = omega arith;
    stored = omega arith;
  }
  import_lines-Imports (line ∷ lines) s =
      let s' = import_line py line s in
      let one = import_line-Imports line s in
      let rest = import_lines-Imports lines s' in
      record {
        kept = rest.kept ∙ one.kept;
        appended =
            rest.appended
            ∙ rw (one.appended, one.kept)
                (append_assoc (urls s.added) _ _
                  ∙ ap (λ us. urls s.added ++ us)
                      (sym (new_urls-append (urls s.rows) (line ∷ []) lines)));
        counted = omega (arith, one.counted, rest.counted);
        stored = omega (arith, one.stored, rest.stored);
      }

  -- The lines that count: stripped, and not empty then.
  abbrev pub clean : List String → List String
  clean text_lines = filterb (λ l. not (is_empty l)) (map py.strip text_lines)

  -- The URLs that the table would hold after the import.
  abbrev pub found_urls : List String → List NetworkProxy → List String
  found_urls text_lines rows = urls rows ++ new_urls (urls rows) (clean text_lines)

  pub urls-committed :
      (lines : List String) (next_id : ℕ) (rows : List NetworkProxy)
      → let s = import_lines py lines (start py next_id rows) in
        (urls (s.rows ++ s.added) ≡ urls rows ++ new_urls (urls rows) lines)
        × (s.imported + s.skipped ≡ length lines)
        × (length (s.rows ++ s.added) ≡ length rows + s.imported)
  urls-committed lines next_id rows =
      let s = import_lines py lines (start py next_id rows) in
      let done = import_lines-Imports lines (start py next_id rows) in
      (
        map-append _ s.rows s.added ∙ ap₂ (λ a b. a ++ b) done.kept done.appended,
        omega (arith, done.counted),
        omega (
          arith,
          done.stored,
          length-append s.rows s.added,
          length-map {0, 0} (λ p. p.url) s.rows,
          length-map {0, 0} (λ p. p.url) rows,
          ap length done.kept,
        ),
      )

  pub import_clean-commit :
      (next_id : ℕ) (lines : List String) (rows : List NetworkProxy)
      → lines ≢ []
      → import_clean py next_id lines rows
        ≡ commit py (length lines) (import_lines py lines (start py next_id rows))
  import_clean-commit next_id [] rows ne = absurd (ne refl)
  import_clean-commit next_id (l ∷ ls) rows ne = refl
