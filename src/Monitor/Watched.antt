-- ===== src/Monitor/Watched.antt =====
-- How often an EAN stands in the table, and which EANs are due first.
use jolly_jesters_mvp.Prelude.{
  ℕ, ◌+◌, true, none, String, List, [], ◌∷◌, ◌++◌, map, length, countb, countb-append, countb-none,
  anyb, length-append, length-map, ◌≡◌, refl, ap, arith, if◌then◌else◌, if-cases, string_eq,
}
use jolly_jesters_mvp.Prelude.Int.{pos}
use jolly_jesters_mvp.Monitor.{MonitoredEan, is_watch, new_watch, unwatched, bulk_watch}

-- How often an EAN stands in a list.
abbrev pub occurrences : String → List String → ℕ
occurrences e = countb (λ x. string_eq.beq x e)

module _ (now : ℕ) (tenant : String) (minutes : ℕ) (table : List MonitoredEan) where
  abbrev added : List String → List MonitoredEan
  added eans = map (λ e. new_watch now tenant e none (pos 0) minutes) (unwatched tenant table eans)

  same_watched :
      (x e : String)
      → string_eq.beq x e ≡ true
      → anyb (is_watch tenant x) table ≡ anyb (is_watch tenant e) table
  same_watched x e h = ap (λ y. anyb (is_watch tenant y) table) ((string_eq.beq_iff x e).0 h)

  same_tenant : string_eq.beq tenant tenant ≡ true
  same_tenant = (string_eq.beq_iff tenant tenant).1 refl

  added-count :
      (e : String) (eans : List String)
      → countb (is_watch tenant e) (added eans)
        ≡ (if anyb (is_watch tenant e) table then 0 else occurrences e eans)
  added-count e [] = ground arith
  added-count e (x ∷ eans) = ground (arith, same_watched x e, same_tenant, added-count e eans)

  -- What `bulk_watch` does to the number of a tenant's rows for an EAN: nothing, when there was one; and
  -- else it is how often the EAN stands in the list. The number that it returns is that of the new rows.
  bulk_watch_counts :
      (eans : List String)
      → let (n, after) = bulk_watch now tenant eans minutes table in
        (length after ≡ length table + n)
        × ((e : String)
            → countb (is_watch tenant e) after ≡ (
                if anyb (is_watch tenant e) table
                then countb (is_watch tenant e) table
                else occurrences e eans))
  unfolding bulk_watch
  bulk_watch_counts eans = (
    omega (
      arith,
      length-append table (added eans),
      length-map (λ e. new_watch now tenant e none (pos 0) minutes) (unwatched tenant table eans),
    ),
    λ e.
        if-cases (λ n. countb (is_watch tenant e) (table ++ added eans) ≡ n)
          (anyb (is_watch tenant e) table) (countb (is_watch tenant e) table) (occurrences e eans)
          (λ there.
            ground
              (arith, countb-append (is_watch tenant e) table (added eans), added-count e eans))
          (λ absent. ground (
            arith,
            countb-append (is_watch tenant e) table (added eans),
            added-count e eans,
            countb-none (is_watch tenant e) table absent,
          )),
  )
