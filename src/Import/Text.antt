-- ===== src/Import/Text.antt =====
-- Python's operations on `str` that backend/app/utils/excel_reader.py uses. What they know of Unicode,
-- which is Python's own table, is a parameter.
use Prim.Native.Char.{Char}
use Prim.Native.String.{count, ◌++◌}
use text.Mathlib.Text.{starts_with}
use jolly_jesters_mvp.Prelude.{
  ℕ, zero, suc, ◌-◌, Bool, false, ◌&&◌, ◌||◌, Option, none, some, String, List, [], ◌∷◌,
  if◌then◌else◌, string_eq,
}

pub record Unicode : Type 0 where
  pub is_space : Char → Bool
  pub is_digit : Char → Bool
  pub upper : String → String
  pub lower : String → String

-- Python's truth of a string, and `x or y` between strings.
abbrev pub is_empty : String → Bool
is_empty s = string_eq.beq s ""

abbrev pub name_or : String → String → String
name_or x y = if is_empty x then y else x

-- `x or y` where `x` may also be None.
abbrev pub text_or : Option String → String → String
text_or none y = y
text_or (some x) y = name_or x y

-- `sub in s`
abbrev pub contains : (sub s : String) → Bool
contains sub String.[] = is_empty sub
contains sub (String.◌∷◌ c s) = starts_with (String.◌∷◌ c s) sub || contains sub s

-- `any(sub in s for sub in subs)`
abbrev pub contains_any : List String → String → Bool
contains_any [] s = false
contains_any (sub ∷ subs) s = contains sub s || contains_any subs s

-- `s in texts`
abbrev pub is_in : List String → String → Bool
is_in [] s = false
is_in (t ∷ ts) s = string_eq.beq t s || is_in ts s

-- `s.replace(sub, by)` for a `sub` that is not empty; `skip` characters of a match are left.
abbrev pub replace_from : (sub by : String) → (skip : ℕ) → String → String
replace_from sub by skip String.[] = ""
replace_from sub by (suc skip) (String.◌∷◌ c s) = replace_from sub by skip s
replace_from sub by zero (String.◌∷◌ c s) =
    let matched = by ++ replace_from sub by (count sub - 1) s in
    if starts_with (String.◌∷◌ c s) sub then matched else String.◌∷◌ c (replace_from sub by 0 s)

abbrev pub replace : (sub by s : String) → String
replace sub by s = replace_from sub by 0 s

-- A chain of `.replace(sub, "")`.
abbrev pub without : List String → String → String
without [] s = s
without (sub ∷ subs) s = without subs (replace sub "" s)

module _ (u : Unicode) where
  abbrev pub lstrip : String → String
  lstrip String.[] = ""
  lstrip (String.◌∷◌ c s) = if u.is_space c then lstrip s else String.◌∷◌ c s

  abbrev pub rstrip : String → String
  rstrip String.[] = ""
  rstrip (String.◌∷◌ c s) =
      let rest = rstrip s in if u.is_space c && is_empty rest then "" else String.◌∷◌ c rest

  abbrev pub strip : String → String
  strip s = rstrip (lstrip s)

  -- `s.split()`, with the word that is being read.
  abbrev pub split_from : (word s : String) → List String
  split_from word String.[] = if is_empty word then [] else word ∷ []
  split_from word (String.◌∷◌ c s) =
      let rest = split_from "" s in
      let more = split_from (word ++ String.◌∷◌ c String.[]) s in
      if u.is_space c then if is_empty word then rest else word ∷ rest else more

  -- `" ".join(s.split()[:2])`
  abbrev pub two_words : List String → String
  two_words [] = ""
  two_words (a ∷ []) = a
  two_words (a ∷ b ∷ ws) = a ++ " " ++ b

  abbrev pub first_words : String → String
  first_words s = two_words (split_from "" s)

  -- `"".join(ch for ch in s if ch.isdigit())`
  abbrev pub digits : String → String
  digits String.[] = ""
  digits (String.◌∷◌ c s) = if u.is_digit c then String.◌∷◌ c (digits s) else digits s
