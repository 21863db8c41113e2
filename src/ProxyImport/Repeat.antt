-- ===== src/ProxyImport/Repeat.antt =====
-- A list that names a new proxy twice.
use jolly_jesters_mvp.Prelude.{
  ◌≡◌, ◌≢◌, sym, ◌∙◌, true, false, some, String, List, [], ◌∷◌, ◌++◌, arith, string_eq,
  append_assoc, beq_refl, ℕ, inl,
}
use jolly_jesters_mvp.ProxyPool.{NetworkProxy}
use jolly_jesters_mvp.ProxyImport.{
  Python, raised, database_error, distinct, urls, usable_url, import_from_csv,
}
use jolly_jesters_mvp.ProxyImport.Whole.{import_from_csv_outcome}
use jolly_jesters_mvp.ProxyImport.Commit.{known, new_urls, new_urls-append, clean}

known-append : (u : String) (xs ys : List String) → known u ys ≡ true → known u (xs ++ ys) ≡ true
known-append u [] ys h = h
known-append u (x ∷ xs) ys h = ground (arith, known-append u xs ys h)

distinct_twice :
    (u : String) (xs ys zs : List String) → distinct (xs ++ (u ∷ (ys ++ u ∷ zs))) ≡ false
distinct_twice u [] ys zs = ground (arith, known-append u ys (u ∷ zs), beq_refl u)
distinct_twice u (x ∷ xs) ys zs = ground (arith, distinct_twice u xs ys zs)

append-cons-ne-nil : (xs : List String) (x : String) (ys : List String) → xs ++ x ∷ ys ≢ []
append-cons-ne-nil [] x ys e = cc
append-cons-ne-nil (z ∷ xs) x ys e = cc

module _ (py : Python) where
  new_urls_head :
      (line : String) {u : String} (old lines : List String)
      → usable_url py line ≡ some u
      → known u old ≡ false
      → new_urls py old (line ∷ lines) ≡ u ∷ new_urls py old lines
  new_urls_head line old lines e new = rw (e, new_urls, new)

  -- The rows added for the earlier lines are not seen by the query, so a file that names a new usable
  -- proxy on two lines makes the commit raise, and nothing of it is imported.
  repeated_line_raises :
      (next_id : ℕ) (text_lines pre mid post : List String) (line u : String)
      (rows : List NetworkProxy)
      → clean py text_lines ≡ pre ++ (line ∷ (mid ++ line ∷ post))
      → usable_url py line ≡ some u
      → known u (urls rows) ≡ false
      → import_from_csv py next_id text_lines rows ≡ raised database_error
  repeated_line_raises next_id text_lines pre mid post line u rows e usable new =
      let old = urls rows in
      let found : new_urls py old (clean py text_lines)
          ≡ new_urls py old pre ++ (u ∷ (new_urls py old mid ++ u ∷ new_urls py old post)) =
        rw (
          e,
          new_urls-append py old pre (line ∷ (mid ++ line ∷ post)),
          new_urls_head line old (mid ++ line ∷ post) usable new,
          new_urls-append py old mid (line ∷ post),
          new_urls_head line old post usable new,
        ) in
      (import_from_csv_outcome py next_id text_lines rows).2
        (λ none_left. append-cons-ne-nil pre line _ (sym e ∙ none_left))
        (inl (
          rw (found, ← append_assoc old)
            (distinct_twice u (old ++ new_urls py old pre) (new_urls py old mid)
              (new_urls py old post))))
