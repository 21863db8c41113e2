-- ===== src/Metrics/Ranks.antt =====
-- The ranks of the percentiles, and the counts of the metrics of a run.
use jolly_jesters_mvp.Prelude.{ℕ, ◌*◌, ◌≤◌, ◌<◌, Option, some, List, length, countb, leb, ltb, ◌≡◌}
use jolly_jesters_mvp.Metrics.{p50_of, p95_of, RunMetrics, if_positive}

-- What the percentiles of numbers are: more than half of the numbers are at most the median and at most
-- half are below it; more than 95 of 100 are at most the 95th percentile and at most 95 of 100 are
-- below it; and the median is at most the 95th percentile.
abbrev pub AreRanked : List ℕ → Option ℕ → Option ℕ → Type 0
AreRanked ls (some p) (some q) =
    (p ≤ q)
    × (length ls < 2 * countb (λ l. leb l p) ls)
    × (2 * countb (λ l. ltb l p) ls ≤ length ls)
    × (length ls * 95 < 100 * countb (λ l. leb l q) ls)
    × (100 * countb (λ l. ltb l q) ls ≤ length ls * 95)
AreRanked ls _ _ = ⊥

-- Both percentiles, with what they are.
abbrev pub HasRanks : (ls s : List ℕ) → Type 0
HasRanks ls s =
    (p : ℕ) × (q : ℕ) × (p50_of s ≡ some p) × (p95_of s ≡ some q) × AreRanked ls (some p) (some q)

-- Percentiles of sorted numbers, as they are shown.
abbrev pub ShowsRanks : List ℕ → RunMetrics → Type 0
ShowsRanks ls m =
    (p : ℕ) × (q : ℕ) × (m.p50_latency_ms ≡ if_positive (some p))
    × (m.p95_latency_ms ≡ if_positive (some q))
    × AreRanked ls (some p) (some q)
