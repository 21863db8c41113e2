-- ===== src/StopLoss/Window.antt =====
-- The state of the guard against the history of the items that it was shown.
use jolly_jesters_mvp.Prelude.{
  ℕ, zero, suc, ◌+◌, ◌-◌, ◌≤◌, ◌≡◌, refl, sym, ap, ◌∙◌, Bool, true, false, List, [], ◌∷◌, ◌++◌, map,
  arith, append-nil, append_assoc, length, drop, length-append, length-drop, if◌then◌else◌,
}
use mathlib.Core.List.{reverse, reverse-append}
use jolly_jesters_mvp.StopLoss.{
  StopLossConfig, Entry, StopLossChecker, Observation, entry_of, new_checker, observe,
  append_bounded, record_item, record_items, verdict, go_on,
}

module _ {ℓ} {A : Type ℓ} where
  -- The last `n` elements.
  abbrev pub last : ℕ → List A → List A
  last n xs = drop (length xs - n) xs

  drop-append : (k : ℕ) (xs ys : List A) → k ≤ length xs → drop k xs ++ ys ≡ drop k (xs ++ ys)
  drop-append zero xs ys h = refl
  drop-append (suc k) [] ys h = elim h [ ]
  drop-append (suc k) (x ∷ xs) ys h = drop-append k xs ys (omega arith)

  drop-nil : (n : ℕ) → drop {A = A} n [] ≡ []
  drop-nil zero = refl
  drop-nil (suc n) = refl

  drop-drop : (a b : ℕ) (xs : List A) → drop a (drop b xs) ≡ drop (b + a) xs
  drop-drop a zero xs = ap (λ n. drop n xs) (omega arith)
  drop-drop a (suc b) [] = drop-nil a ∙ sym (drop-nil (suc b + a))
  drop-drop a (suc b) (x ∷ xs) =
      drop-drop a b xs ∙ ap (λ n. drop n (x ∷ xs)) {x = suc (b + a)} {y = suc b + a} (omega arith)

  append_bounded-last :
      (n : ℕ) (x : A) (xs : List A) → append_bounded n x (last n xs) ≡ last n (xs ++ x ∷ [])
  append_bounded-last n x xs =
      let k = length xs - n in
      rw (drop-append k xs (x ∷ []) (omega arith), drop-drop)
        (ap (λ m. drop m (xs ++ x ∷ []))
          (omega (arith, length-drop k (xs ++ x ∷ []), length-append xs (x ∷ []))))

-- The number of elements that pass a test before the first that does not.
abbrev pub leading {ℓ} : {A : Type ℓ} → (A → Bool) → List A → ℕ
leading p [] = 0
leading p (x ∷ xs) = if p x then suc (leading p xs) else 0

abbrev pub entries : List (ℕ × Observation) → List Entry
entries = map (λ o. entry_of o.1)

-- The window holds the newest entries, as many as it has room for, and the streak counts the
-- errors at the end of the history.
pub record Tracks (config : StopLossConfig) (history : List Entry) (c : StopLossChecker)
    : Type 0 where
  pub configured : c.config ≡ config
  pub recent : c.window ≡ last config.window_size history
  pub streak : c.consecutive_errors ≡ leading (λ e. e.is_error) (reverse history)

observe-Tracks :
    (config : StopLossConfig) (history : List Entry) (e : Entry) (c : StopLossChecker)
    → Tracks config history c
    → Tracks config (history ++ e ∷ []) (observe e c)
observe-Tracks config history e c t = record {
  configured = t.configured;
  recent = rw (t.configured, t.recent) (append_bounded-last config.window_size e history);
  streak = rw (reverse-append history (e ∷ []), t.streak) (ground arith);
}

pub enabled_step :
    (now : ℕ) (o : Observation) (c : StopLossChecker)
    → c.config.enabled ≡ true
    → (record_item now o c).0 ≡ observe (entry_of o) c
unfolding record_item
enabled_step now o c on = ground arith

record_items-Tracks :
    (config : StopLossConfig) (items : List (ℕ × Observation)) (history : List Entry)
    (c : StopLossChecker)
    → config.enabled ≡ true
    → Tracks config history c
    → Tracks config (history ++ entries items) (record_items items c)
record_items-Tracks config [] history c on t = rw append-nil t
record_items-Tracks config ((now, o) ∷ items) history c on t =
    rw
      (
        enabled_step now o c (ap (λ k. k.enabled) t.configured ∙ on),
        ← append_assoc history (entry_of o ∷ []) (entries items),
      )
      (record_items-Tracks config items (history ++ entry_of o ∷ []) (observe (entry_of o) c) on
        (observe-Tracks config history (entry_of o) c t))

-- After any sequence of items an enabled guard holds the entries of the last `window_size` of them,
-- oldest first, and counts exactly the errors in a row at the end.
pub new_checker-Tracks :
    (config : StopLossConfig) (items : List (ℕ × Observation))
    → config.enabled ≡ true
    → Tracks config (entries items) (record_items items (new_checker config))
new_checker-Tracks config items on =
    record_items-Tracks config items [] (new_checker config) on (record {
      configured = refl;
      recent = sym (drop-nil (0 - config.window_size));
      streak = refl;
    })

disabled_step :
    (now : ℕ) (o : Observation) (c : StopLossChecker)
    → c.config.enabled ≡ false
    → (record_item now o c).0 ≡ c
unfolding record_item
disabled_step now o c off = ground arith

record_items-disabled :
    (items : List (ℕ × Observation)) (c : StopLossChecker)
    → c.config.enabled ≡ false
    → record_items items c ≡ c
record_items-disabled [] c off = refl
record_items-disabled ((now, o) ∷ items) c off =
    rw (disabled_step now o c off) (record_items-disabled items c off)

-- A disabled guard keeps its state whatever it is shown, and lets every further item pass.
record_items_disabled :
    (items : List (ℕ × Observation)) (now : ℕ) (o : Observation) (c : StopLossChecker)
    → c.config.enabled ≡ false
    → (record_items items c ≡ c) × ((record_item now o (record_items items c)).1 ≡ verdict go_on)
unfolding record_item
record_items_disabled items now o c off =
    let kept = record_items-disabled items c off in (kept, rw kept (ground arith))
