-- ===== src/Decimal.antt =====
-- The numbers of Python's `decimal` module as the program uses them. The module rounds each result
-- to the context's precision, so its operations are a parameter: an interface with the documented
-- facts that the theorems need. Rounding is monotone, so the operations are monotone where the exact
-- ones are. A number is no NaN, whose comparison raises: where the text of a price cell, of
-- a currency rate or of an offer can be read as one, the models have a case for it.
pub mod Scaled
use jolly_jesters_mvp.Prelude.{◌≡◌, Bool, true, false, not, Option, none, some}

pub record Decimal (D : Type 0) : Type 0 where
  pub zero : D
  pub one : D
  pub hundred : D
  pub add : D → D → D
  pub sub : D → D → D
  pub mul : D → D → D
  pub div : D → D → D
  -- `a <= b`, a total preorder: numbers that compare equal may differ in their exponent.
  pub le : D → D → Bool
  pub le_refl : (a : D) → le a a ≡ true
  pub le_trans : (a b c : D) → le a b ≡ true → le b c ≡ true → le a c ≡ true
  pub le_total : (a b : D) → le a b ≡ false → le b a ≡ true
  pub mul_mono : (a b c : D) → le zero c ≡ true → le a b ≡ true → le (mul a c) (mul b c) ≡ true
  pub sub_mono : (a b c : D) → le a b ≡ true → le (sub a c) (sub b c) ≡ true
  pub sub_anti : (a b c : D) → le a b ≡ true → le (sub c b) (sub c a) ≡ true
  pub div_anti :
      (a b c : D)
      → le zero a ≡ true
      → le b zero ≡ false
      → le b c ≡ true
      → le (div a c) (div a b) ≡ true

module _ {D : Type 0} ⦃d : Decimal D⦄ where
  -- `a < b`
  abbrev pub lt : D → D → Bool
  lt a b = not (d.le b a)

  -- `not x` of a number, which is falsy when it is zero.
  abbrev pub is_zero : D → Bool
  is_zero a = elim (d.le a d.zero) [ false ↦ false | true ↦ d.le d.zero a ]

  -- `x or y` on an optional number.
  abbrev pub number_or : Option D → D → D
  number_or none y = y
  number_or (some x) y = elim (is_zero x) [ true ↦ y | false ↦ x ]
