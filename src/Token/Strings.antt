-- ===== src/Token/Strings.antt =====
-- Python's operations on `str` that backend/app/services/auth_service.py uses, on lists of code points,
-- with the equations for texts without the separator.
use jolly_jesters_mvp.Prelude.{
  ℕ, zero, suc, Bool, true, false, ◌&&◌, Option, none, some, List, [], ◌∷◌, ◌++◌, All, Eq, ◌==◌,
  ==_iff, if◌then◌else◌, ◌≡◌, ◌↔◌, refl, ap, ap₂, arith, if-cases,
}

abbrev pub Text : Type 0
Text = List ℕ

abbrev same_text : Text → Text → Bool
same_text [] [] = true
same_text (a ∷ s) (b ∷ t) = a == b && same_text s t
same_text _ _ = false

pub same_text_iff : (s t : Text) → (same_text s t ≡ true) ↔ (s ≡ t)
same_text_iff [] [] = (λ e. refl, λ e. refl)
same_text_iff [] (b ∷ t) = (λ e. absurd (ground arith), λ e. absurd (ground arith))
same_text_iff (a ∷ s) [] = (λ e. absurd (ground arith), λ e. absurd (ground arith))
same_text_iff (a ∷ s) (b ∷ t) = (
  λ e. ap₂ ◌∷◌ ((==_iff a b).0 (ground arith)) ((same_text_iff s t).0 (ground arith)),
  λ e. ground (arith, (same_text_iff s t).1),
)

instance abbrev pub text_eq : Eq Text
text_eq = record { beq = same_text; beq_iff = same_text_iff }

abbrev pub colon : ℕ
colon = 58

abbrev pub dot : ℕ
dot = 46

abbrev pub equals : ℕ
equals = 61

abbrev pub repeated : (n c : ℕ) → Text
repeated zero c = []
repeated (suc n) c = c ∷ repeated n c

-- A character before the first part.
abbrev pub onto_first : ℕ → List Text → List Text
onto_first c [] = (c ∷ []) ∷ []
onto_first c (t ∷ ts) = (c ∷ t) ∷ ts

-- `s.split(sep)` for a single character.
abbrev pub split : (sep : ℕ) → Text → List Text
split sep [] = [] ∷ []
split sep (c ∷ s) = if c == sep then [] ∷ split sep s else onto_first c (split sep s)

-- The parts of a text, by those of what follows its first character.
abbrev pub cut_after : (sep c : ℕ) → Text → Option (Text × Text) → Option (Text × Text)
cut_after sep c s none = if c == sep then some ([], s) else none
cut_after sep c s (some p) = some (c ∷ p.0, p.1)

-- `s.rsplit(sep, 1)`: `none` where there is no separator.
abbrev pub rsplit : (sep : ℕ) → Text → Option (Text × Text)
rsplit sep [] = none
rsplit sep (c ∷ s) = cut_after sep c s (rsplit sep s)

-- `s.rstrip(c)`
abbrev pub rstrip : (c : ℕ) → Text → Text
rstrip c [] = []
rstrip c (x ∷ s) = elim (rstrip c s) [ [] ↦ if x == c then [] else x ∷ [] | y ∷ ys ↦ x ∷ y ∷ ys ]

-- A text without a character.
abbrev pub Lacks : (c : ℕ) → Text → Type 0
Lacks c s = All (λ x. (x == c) ≡ false) s

pub split-last : (sep : ℕ) (s : Text) → Lacks sep s → split sep s ≡ s ∷ []
split-last sep [] h = refl
split-last sep (c ∷ s) h = rw (h.0, split-last sep s h.1) refl

pub split-append : (sep : ℕ) (s t : Text) → Lacks sep s → split sep (s ++ sep ∷ t) ≡ s ∷ split sep t
split-append sep [] t h = ground arith
split-append sep (c ∷ s) t h = rw (h.0, split-append sep s t h.1) refl

pub rsplit-none : (sep : ℕ) (s : Text) → Lacks sep s → rsplit sep s ≡ none
rsplit-none sep [] h = refl
rsplit-none sep (c ∷ s) h = rw (rsplit-none sep s h.1, h.0) refl

pub rsplit-append : (sep : ℕ) (s t : Text) → Lacks sep t → rsplit sep (s ++ sep ∷ t) ≡ some (s, t)
rsplit-append sep [] t h = rw (rsplit-none sep t h) (ground arith)
rsplit-append sep (c ∷ s) t h = rw (rsplit-append sep s t h) refl

rstrip-repeated : (c n : ℕ) → rstrip c (repeated n c) ≡ []
rstrip-repeated c zero = refl
rstrip-repeated c (suc n) = rw (rstrip-repeated c n) (ground arith)

pub rstrip-append : (c n : ℕ) (s : Text) → Lacks c s → rstrip c (s ++ repeated n c) ≡ s
rstrip-append c n [] h = rstrip-repeated c n
rstrip-append c n (x ∷ []) h = ground (arith, rstrip-repeated c n, h.0)
rstrip-append c n (x ∷ y ∷ s) h = rw (rstrip-append c n (y ∷ s) h.1) refl

-- The two parts, with the separator, make the text.
abbrev pub Joins : (sep : ℕ) → Text → Option (Text × Text) → Type 0
Joins sep s none = Unit
Joins sep s (some p) = s ≡ p.0 ++ sep ∷ p.1

cut_after-Joins :
    (sep c : ℕ) (s : Text) (o : Option (Text × Text))
    → Joins sep s o
    → Joins sep (c ∷ s) (cut_after sep c s o)
cut_after-Joins sep c s none h =
    if-cases (Joins sep (c ∷ s)) (c == sep) (some ([], s)) none
      (λ e. ap (λ x. x ∷ s) ((==_iff c sep).0 e)) (λ e. tt)
cut_after-Joins sep c s (some p) h = ap (λ t. c ∷ t) h

pub rsplit-Joins : (sep : ℕ) (s : Text) → Joins sep s (rsplit sep s)
rsplit-Joins sep [] = tt
rsplit-Joins sep (c ∷ s) = cut_after-Joins sep c s (rsplit sep s) (rsplit-Joins sep s)
