-- ===== src/Guard/Table.antt =====
-- The table of failed logins: what purging and adding do to the failures of a client.
use jolly_jesters_mvp.Prelude.{
  ℕ, ◌≤◌, true, false, Option, none, some, String, List, [], ◌∷◌, filterb, countb, lookup, insert,
  if◌then◌else◌, string_eq, ◌≡◌, refl, ap, ◌∙◌, sym, subst, arith, Bool-cases, inl, inr, if-cases,
  lookup-insert,
}
use jolly_jesters_mvp.Guard.{FailedAuth, is_in_window, purge_entry, times_of, failures_of}

-- The failures of a client that are recent at a moment.
abbrev pub recent_failures : (n : ℕ) → (ip : String) → FailedAuth → ℕ
recent_failures n ip table = countb (is_in_window n) (failures_of ip table)

failures_of-insert :
    (j ip : String) (v : List ℕ) (table : FailedAuth)
    → failures_of ip (insert j v table) ≡ (if string_eq.beq j ip then v else failures_of ip table)
failures_of-insert j ip v table =
    ap times_of (lookup-insert j ip v table)
    ∙ if-cases (λ o. times_of o ≡ (if string_eq.beq j ip then v else failures_of ip table))
        (string_eq.beq j ip) (some v) (lookup ip table) (λ e. rw (e) refl) (λ e. rw (e) refl)

pub failures_of-insert-same :
    (j ip : String) (v : List ℕ) (table : FailedAuth)
    → string_eq.beq j ip ≡ true
    → failures_of ip (insert j v table) ≡ v
failures_of-insert-same j ip v table e =
    subst (λ b. failures_of ip (insert j v table) ≡ (if b then v else failures_of ip table)) e
      (failures_of-insert j ip v table)

pub failures_of-insert-other :
    (j ip : String) (v : List ℕ) (table : FailedAuth)
    → string_eq.beq j ip ≡ false
    → failures_of ip (insert j v table) ≡ failures_of ip table
failures_of-insert-other j ip v table e =
    subst (λ b. failures_of ip (insert j v table) ≡ (if b then v else failures_of ip table)) e
      (failures_of-insert j ip v table)

countb-still_recent :
    (now n : ℕ) (times : List ℕ)
    → now ≤ n
    → countb (is_in_window n) (filterb (is_in_window now) times) ≡ countb (is_in_window n) times
countb-still_recent now n [] h = refl
countb-still_recent now n (t ∷ times) h = ground (arith, countb-still_recent now n times h)

pub recent_failures-purge_entry :
    (now n : ℕ) (j ip : String) (o : Option (List ℕ)) (table : FailedAuth)
    → now ≤ n
    → lookup j table ≡ o
    → recent_failures n ip (purge_entry now j o table) ≡ recent_failures n ip table
recent_failures-purge_entry now n j ip none table h e = refl
recent_failures-purge_entry now n j ip (some times) table h e =
    elim (Bool-cases (string_eq.beq j ip)) [
      | inl same ↦
          ap (countb (is_in_window n)) (failures_of-insert-same j ip _ table same)
          ∙ countb-still_recent now n times h
          ∙ ap (λ o. countb (is_in_window n) (times_of o)) (sym e)
          ∙ ap (λ i. recent_failures n i table) ((string_eq.beq_iff j ip).0 same)
      | inr other ↦ ap (countb (is_in_window n)) (failures_of-insert-other j ip _ table other)
    ]
