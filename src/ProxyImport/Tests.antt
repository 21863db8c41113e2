-- ===== src/ProxyImport/Tests.antt =====
-- Imports with a URL parser that takes every text for a host.
use jolly_jesters_mvp.Prelude.{
  ◌+◌, ◌≡◌, ◌≢◌, refl, true, false, none, some, String, List, [], ◌∷◌, ◌++◌, length, anyb, ◌⊎◌,
}
use jolly_jesters_mvp.ProxyPool.{NetworkProxy, new_proxy}
use jolly_jesters_mvp.ProxyImport.{
  Python, Report, committed, raised, empty_file, database_error, distinct, is_too_long, urls,
  usable_url, import_line, import_from_csv,
}
use jolly_jesters_mvp.ProxyImport.Commit.{clean, found_urls}
use jolly_jesters_mvp.ProxyImport.Whole.{line_too_long, new_too_long, import_from_csv_outcome}
use jolly_jesters_mvp.ProxyImport.Repeat.{}

abbrev plain : Python
plain = record {
  strip = λ s. s;
  contains = λ needle text. true;
  split_comma = λ s. (s, none);
  concat = λ a b. b;
  urlparse = λ s. record { hostname = some s; scheme = "http"; port = some none };
  url_hash = λ s. s;
}

abbrev pool : List NetworkProxy
pool = new_proxy 1 "http://a" "a" none ∷ []

abbrev text_lines : List String
text_lines = "http://b" ∷ "" ∷ "http://a" ∷ "http://c" ∷ []

import-text_lines :
    import_from_csv plain 2 text_lines pool
    ≡ committed
        (pool
          ++ new_proxy 2 "http://b" "http://b" none ∷ new_proxy 3 "http://c" "http://c" none ∷ [])
        (record { imported = 2; skipped = 1; total_lines = 3 })
unfolding import_from_csv import_line usable_url
import-text_lines = refl

import_from_csv_outcome_example :
    let outcome = import_from_csv plain 2 text_lines pool in
    (clean plain text_lines ≡ [] → outcome ≡ raised empty_file)
    × (clean plain text_lines ≢ []
        → distinct (found_urls plain text_lines pool) ≡ true
        → anyb is_too_long pool ≡ false
        → anyb (line_too_long plain) (clean plain text_lines) ≡ false
        → (rows' : List NetworkProxy) × (r : Report) × (outcome ≡ committed rows' r)
          × (urls rows' ≡ found_urls plain text_lines pool)
          × (r.imported + r.skipped ≡ length (clean plain text_lines))
          × (length rows' ≡ length pool + r.imported))
    × (clean plain text_lines ≢ []
        → (distinct (found_urls plain text_lines pool) ≡ false)
          ⊎ (anyb (new_too_long plain (urls pool)) (clean plain text_lines) ≡ true)
        → outcome ≡ raised database_error)
import_from_csv_outcome_example = import_from_csv_outcome plain 2 text_lines pool
