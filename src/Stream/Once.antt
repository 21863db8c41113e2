-- ===== src/Stream/Once.antt =====
-- How often the stream sends a row.
use jolly_jesters_mvp.Prelude.{
  ℕ, zero, suc, ◌+◌, ◌≤◌, ◌<◌, ◌⊎◌, Bool, true, false, Option, none, some, List, [], ◌∷◌, ◌++◌,
  countb, All, leb, if◌then◌else◌, ◌≡◌, refl, ap, ◌∙◌, arith, Bool-cases, inl, inr, if-elim,
  countb-append,
}
use jolly_jesters_mvp.Prelude.Sort.{IsSortedBy}
use jolly_jesters_mvp.Stream.{
  StampedItem, has_lower_id, updated_items, last_id, latest_update, updates_of,
  get_run_results_since, RunView, Poll, StreamState, StreamEvent, status_event, progress_event,
  stopped_event, done_event, heartbeat_event, heartbeat_interval, status_changed, progress_changed,
  change_events, remember, row_events, or_before, go_on_after, is_final, is_stopped, final_events,
  beat, end_round, poll_run, poll_found, poll_round, followed_by, event_generator,
}
use jolly_jesters_mvp.Stream.Query.{
  is_item, is_row, countb-row_events, countb-updated_items-le, countb-updated_items-above,
  updated_items-above, updated_items-IsSortedBy, last_id-above, item_le_last_id,
}

-- The stream has gone past a number.
abbrev pub IsPassed : (x : ℕ) → (since since_id : Option ℕ) → Type 0
IsPassed x (some at) (some j) = x ≤ j
IsPassed x _ _ = ⊥

abbrev IsPast : (x : ℕ) → StreamState → Type 0
IsPast x s = IsPassed x s.since s.since_id

or_before-IsPassed :
    (x at n : ℕ) (before : Option ℕ)
    → 1 ≤ n
    → x ≤ n
    → IsPassed x (some at) (or_before (some n) before)
or_before-IsPassed x at zero before h k = absurd (omega arith)
or_before-IsPassed x at (suc n) before h k = k

-- An answer without rows, and one with rows above the bound, leave a number passed.
go_on_after-IsPast :
    (x now : ℕ) (s : StreamState) (l : List StampedItem) (at j : ℕ)
    → All (λ i. j < i.id) l
    → x ≤ j
    → IsPast x (
        go_on_after now
          (updates_of (some at) (some j) l)
          (record s { since = some at; since_id = some j }))
go_on_after-IsPast x now s [] at j h k = k
go_on_after-IsPast x now s (i ∷ l) at j h k =
    let later = last_id-above j i l h in
    or_before-IsPassed x (latest_update i l) (last_id i l) (some j) (omega arith) (omega arith)

go_on_after-sent :
    (x now : ℕ) (s : StreamState) (l : List StampedItem)
    → IsSortedBy has_lower_id l
    → 1 ≤ x
    → 1 ≤ countb (is_item x) l
    → IsPast x (go_on_after now (updates_of s.since s.since_id l) s)
go_on_after-sent x now s [] h k c = absurd (omega arith)
go_on_after-sent x now s (i ∷ l) h k c =
    let reached = item_le_last_id x i l h c in
    or_before-IsPassed x (latest_update i l) (last_id i l) s.since_id (omega arith) reached

abbrev IsPastNext : (x : ℕ) → Option StreamState → Type 0
IsPastNext x none = Unit
IsPastNext x (some s) = IsPast x s

two_changes :
    (x : ℕ) (r : RunView) (b c : Bool)
    → countb
        (is_row x)
        ((if b then status_event r ∷ [] else []) ++ (if c then progress_event r ∷ [] else []))
      ≡ 0
two_changes x r true true = refl
two_changes x r true false = refl
two_changes x r false true = refl
two_changes x r false false = refl

countb-change_events :
    (x : ℕ) (r : RunView) (s : StreamState) → countb (is_row x) (change_events r s) ≡ 0
countb-change_events x r s = two_changes x r (status_changed r s) (progress_changed r s)

beat-IsPast : (x now : ℕ) (s : StreamState) → IsPast x s → IsPast x (beat now s).1
beat-IsPast x now s h = if-elim (λ (b : List StreamEvent × StreamState). IsPast x b.1) _ _ _ h h

countb-beat : (x now : ℕ) (s : StreamState) → countb (is_row x) (beat now s).0 ≡ 0
countb-beat x now s =
    if-elim (λ (b : List StreamEvent × StreamState). countb (is_row x) b.0 ≡ 0)
      (leb (s.last_heartbeat + heartbeat_interval) now)
      (heartbeat_event ∷ [], record s { last_heartbeat = now }) ([], s) refl refl

countb-final_events : (x : ℕ) (r : RunView) → countb (is_row x) (final_events r) ≡ 0
countb-final_events x r =
    if-elim (λ (l : List StreamEvent). countb (is_row x) l ≡ 0) (is_stopped r.status)
      (stopped_event r ∷ done_event r ∷ []) (done_event r ∷ []) refl refl

end_round-IsPastNext :
    (x : ℕ) (p : Poll) (r : RunView) (s : StreamState)
    → IsPast x s
    → IsPastNext x (end_round p r s).1
end_round-IsPastNext x p r s h =
    if-elim (λ (e : List StreamEvent × Option StreamState). IsPastNext x e.1) (is_final r.status) _
      _ tt (beat-IsPast x p.now s h)

countb-end_round :
    (x : ℕ) (p : Poll) (r : RunView) (s : StreamState) → countb (is_row x) (end_round p r s).0 ≡ 0
countb-end_round x p r s =
    if-elim (λ (e : List StreamEvent × Option StreamState). countb (is_row x) e.0 ≡ 0)
      (is_final r.status) _ _ (countb-final_events x r) (countb-beat x p.now s)

updates_of-items : (a b : Option ℕ) (l : List StampedItem) → (updates_of a b l).items ≡ l
updates_of-items a b [] = refl
updates_of-items a b (i ∷ l) = refl

-- The rows that a round asks for.
abbrev asked : Poll → StreamState → List StampedItem
asked p s = updated_items s.since s.since_id 200 p.items

countb-poll_run :
    (x : ℕ) (p : Poll) (r : RunView) (s : StreamState)
    → countb (is_row x) (poll_run p r s).0 ≡ countb (is_item x) (asked p s)
unfolding get_run_results_since
countb-poll_run x p r s =
    let u = updates_of s.since s.since_id (asked p s) in
    let changes = change_events r s in
    let end = (end_round p r (go_on_after p.now u (remember r s))).0 in
    omega (
      arith,
      countb-append (is_row x) (changes ++ row_events u.items) end,
      countb-append (is_row x) changes (row_events u.items),
      countb-change_events x r s,
      countb-row_events x u.items,
      ap (countb (is_item x)) (updates_of-items s.since s.since_id (asked p s)),
      countb-end_round x p r (go_on_after p.now u (remember r s)),
    )

nothing_left :
    (x : ℕ) (since since_id : Option ℕ) (items : List StampedItem)
    → IsPassed x since since_id
    → countb (is_item x) (updated_items since since_id 200 items) ≡ 0
nothing_left x none since_id items h = absurd h
nothing_left x (some at) none items h = absurd h
nothing_left x (some at) (some j) items h = countb-updated_items-above (some at) j 200 x items h

following-IsPast :
    (x now : ℕ) (s : StreamState) (since since_id : Option ℕ) (items : List StampedItem)
    → IsPassed x since since_id
    → IsPast x (
        go_on_after now
          (updates_of since since_id (updated_items since since_id 200 items))
          (record s { since = since; since_id = since_id }))
following-IsPast x now s none since_id items h = absurd h
following-IsPast x now s (some at) none items h = absurd h
following-IsPast x now s (some at) (some j) items h =
    go_on_after-IsPast x now s _ at j (updated_items-above (some at) j 200 items) h

poll_run-IsPastNext :
    (x : ℕ) (p : Poll) (r : RunView) (s : StreamState)
    → IsPast x (go_on_after p.now (updates_of s.since s.since_id (asked p s)) (remember r s))
    → IsPastNext x (poll_run p r s).1
unfolding get_run_results_since
poll_run-IsPastNext x p r s h = end_round-IsPastNext x p r _ h

-- A round sends nothing of a number that the stream has passed, and at most one row of any other;
-- then the stream has passed it.
abbrev IsQuietRound : (x : ℕ) → List StreamEvent × Option StreamState → Type 0
IsQuietRound x (events, next) = (countb (is_row x) events ≡ 0) × IsPastNext x next

abbrev IsRound : (x : ℕ) → List StreamEvent × Option StreamState → Type 0
IsRound x (events, next) =
    (countb (is_row x) events ≡ 0) ⊎ ((countb (is_row x) events ≤ 1) × IsPastNext x next)

poll_run-IsQuietRound :
    (x : ℕ) (p : Poll) (r : RunView) (s : StreamState)
    → IsPast x s
    → IsQuietRound x (poll_run p r s)
poll_run-IsQuietRound x p r s h = (
  countb-poll_run x p r s ∙ nothing_left x s.since s.since_id p.items h,
  poll_run-IsPastNext x p r s
      (following-IsPast x p.now (remember r s) s.since s.since_id p.items h),
)

above_zero : (n : ℕ) → leb 1 n ≡ true → 1 ≤ n
above_zero n e = ground arith

is_zero : (n : ℕ) → leb 1 n ≡ false → n ≡ 0
is_zero n e = ground arith

poll_run-IsRound :
    (x : ℕ) (p : Poll) (r : RunView) (s : StreamState)
    → 1 ≤ x
    → countb (is_item x) p.items ≤ 1
    → IsRound x (poll_run p r s)
poll_run-IsRound x p r s k u = elim (Bool-cases (leb 1 (countb (is_item x) (asked p s)))) [
  | inl e ↦ inr (
    omega
        (arith, countb-poll_run x p r s, countb-updated_items-le s.since s.since_id 200 x p.items),
    poll_run-IsPastNext x p r s (
        go_on_after-sent x p.now (remember r s) (asked p s)
          (updated_items-IsSortedBy s.since s.since_id 200 p.items) k (above_zero _ e)),
  )
  | inr e ↦ inl (countb-poll_run x p r s ∙ is_zero _ e)
]

poll_found-IsQuietRound :
    (x : ℕ) (p : Poll) (o : Option RunView) (s : StreamState)
    → IsPast x s
    → IsQuietRound x (poll_found p o s)
poll_found-IsQuietRound x p none s h = (refl, tt)
poll_found-IsQuietRound x p (some r) s h = poll_run-IsQuietRound x p r s h

poll_found-IsRound :
    (x : ℕ) (p : Poll) (o : Option RunView) (s : StreamState)
    → 1 ≤ x
    → countb (is_item x) p.items ≤ 1
    → IsRound x (poll_found p o s)
poll_found-IsRound x p none s k u = inl refl
poll_found-IsRound x p (some r) s k u = poll_run-IsRound x p r s k u

poll_round-IsQuietRound :
    (x : ℕ) (p : Poll) (s : StreamState) → IsPast x s → IsQuietRound x (poll_round p s)
unfolding poll_round
poll_round-IsQuietRound x p s h =
    if-elim (IsQuietRound x) p.is_disconnected ([], none) (poll_found p p.run s) (refl, tt)
      (poll_found-IsQuietRound x p p.run s h)

poll_round-IsRound :
    (x : ℕ) (p : Poll) (s : StreamState)
    → 1 ≤ x
    → countb (is_item x) p.items ≤ 1
    → IsRound x (poll_round p s)
unfolding poll_round
poll_round-IsRound x p s k u =
    if-elim (IsRound x) p.is_disconnected ([], none) (poll_found p p.run s) (inl refl)
      (poll_found-IsRound x p p.run s k u)

followed_by-none :
    (x : ℕ) (rest : StreamState → List StreamEvent) (out : List StreamEvent × Option StreamState)
    → IsQuietRound x out
    → ((s : StreamState) → IsPast x s → countb (is_row x) (rest s) ≡ 0)
    → countb (is_row x) (followed_by rest out) ≡ 0
followed_by-none x rest (events, none) q h = q.0
followed_by-none x rest (events, some s) q h =
    omega (arith, countb-append (is_row x) events (rest s), q.0, h s q.1)

followed_by-once :
    (x : ℕ) (rest : StreamState → List StreamEvent) (out : List StreamEvent × Option StreamState)
    → IsRound x out
    → ((s : StreamState) → IsPast x s → countb (is_row x) (rest s) ≡ 0)
    → ((s : StreamState) → countb (is_row x) (rest s) ≤ 1)
    → countb (is_row x) (followed_by rest out) ≤ 1
followed_by-once x rest (events, none) (inl q) h g = omega arith
followed_by-once x rest (events, none) (inr q) h g = q.0
followed_by-once x rest (events, some s) (inl q) h g =
    omega (arith, countb-append (is_row x) events (rest s), g s)
followed_by-once x rest (events, some s) (inr q) h g =
    omega (arith, countb-append (is_row x) events (rest s), q.0, h s q.1)

-- What the stream sends of a row that it has passed.
event_generator-none :
    (x : ℕ) (ps : List Poll) (s : StreamState)
    → IsPast x s
    → countb (is_row x) (event_generator ps s) ≡ 0
unfolding event_generator
event_generator-none x [] s h = refl
event_generator-none x (p ∷ ps) s h =
    followed_by-none x (event_generator ps) (poll_round p s) (poll_round-IsQuietRound x p s h)
      (event_generator-none x ps)

-- Every row is sent at most once over the whole stream, whatever happens to it after it was sent: for
-- rows with distinct positive numbers in each round, no number is in two of the row events.
pub event_generator_at_most_once :
    (x : ℕ) (ps : List Poll) (s : StreamState)
    → 1 ≤ x
    → All (λ p. countb (is_item x) p.items ≤ 1) ps
    → countb (is_row x) (event_generator ps s) ≤ 1
unfolding event_generator
event_generator_at_most_once x [] s k h = omega arith
event_generator_at_most_once x (p ∷ ps) s k h =
    followed_by-once x (event_generator ps) (poll_round p s) (poll_round-IsRound x p s k h.0)
      (event_generator-none x ps) (λ s'. event_generator_at_most_once x ps s' k h.1)
