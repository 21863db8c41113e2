-- ===== src/Decimal/Scaled.antt =====
-- A value of the interface: whole hundredths, with products and quotients cut off after the second
-- place. It shows that the interface's facts can hold, and the tests compute with it.
use native.Mathlib.Nat.{mul-le-mul_right}
use jolly_jesters_mvp.Prelude.{ℕ, suc, ◌*◌, ◌/◌, ◌≤◌, ◌<◌, ◌≡◌, true, false, arith}
use jolly_jesters_mvp.Prelude.Int.{ℤ, pos, negsuc, sub_ℕ, ◌+ℤ◌, ◌-ℤ◌, leb_ℤ}
use jolly_jesters_mvp.Decimal.{Decimal}

abbrev minus : ℕ → ℤ
minus n = sub_ℕ 0 n

abbrev times : ℤ → ℤ → ℤ
times (pos m) (pos n) = pos (m * n / 100)
times (pos m) (negsuc n) = minus (m * suc n / 100)
times (negsuc m) (pos n) = minus (suc m * n / 100)
times (negsuc m) (negsuc n) = pos (suc m * suc n / 100)

abbrev over : ℤ → ℤ → ℤ
over (pos m) (pos n) = pos (m * 100 / n)
over (pos m) (negsuc n) = minus (m * 100 / suc n)
over (negsuc m) (pos n) = minus (suc m * 100 / n)
over (negsuc m) (negsuc n) = pos (suc m * 100 / suc n)

pub leb_ℤ-refl : (a : ℤ) → leb_ℤ a a ≡ true
leb_ℤ-refl a = ground arith

pub leb_ℤ-trans : (a b c : ℤ) → leb_ℤ a b ≡ true → leb_ℤ b c ≡ true → leb_ℤ a c ≡ true
leb_ℤ-trans a b c h k = ground arith

pub leb_ℤ-total : (a b : ℤ) → leb_ℤ a b ≡ false → leb_ℤ b a ≡ true
leb_ℤ-total a b h = ground arith

pub times_mono :
    (a b c : ℤ) → leb_ℤ (pos 0) c ≡ true → leb_ℤ a b ≡ true → leb_ℤ (times a c) (times b c) ≡ true
times_mono a b (negsuc k) p h = ground arith
times_mono (pos a) (pos b) (pos k) p h = ground (arith, mul-le-mul_right {m = a} {n = b} k)
times_mono (pos a) (negsuc b) (pos k) p h = ground arith
times_mono (negsuc a) (pos b) (pos k) p h = ground arith
times_mono (negsuc a) (negsuc b) (pos k) p h =
    ground (arith, mul-le-mul_right {m = suc b} {n = suc a} k)

pub minus_mono : (a b c : ℤ) → leb_ℤ a b ≡ true → leb_ℤ (a -ℤ c) (b -ℤ c) ≡ true
unfolding ◌-ℤ◌
minus_mono a b c h = ground arith

pub minus_anti : (a b c : ℤ) → leb_ℤ a b ≡ true → leb_ℤ (c -ℤ b) (c -ℤ a) ≡ true
unfolding ◌-ℤ◌
minus_anti a b c h = ground arith

div_anti_nat : (m n k : ℕ) → 0 < n → n ≤ k → m / k ≤ m / n
div_anti_nat m n k p h = grind arith

pub over_anti :
    (a b c : ℤ)
    → leb_ℤ (pos 0) a ≡ true
    → leb_ℤ b (pos 0) ≡ false
    → leb_ℤ b c ≡ true
    → leb_ℤ (over a c) (over a b) ≡ true
over_anti (negsuc a) b c p q h = ground arith
over_anti (pos a) (negsuc b) c p q h = ground arith
over_anti (pos a) (pos b) (negsuc c) p q h = ground arith
over_anti (pos a) (pos b) (pos c) p q h = ground (arith, div_anti_nat (a * 100) b c)

instance abbrev pub scaled : Decimal ℤ
scaled = record {
  zero = pos 0;
  one = pos 100;
  hundred = pos 10000;
  add = ◌+ℤ◌;
  sub = ◌-ℤ◌;
  mul = times;
  div = over;
  le = leb_ℤ;
  le_refl = leb_ℤ-refl;
  le_trans = leb_ℤ-trans;
  le_total = leb_ℤ-total;
  mul_mono = times_mono;
  sub_mono = minus_mono;
  sub_anti = minus_anti;
  div_anti = over_anti;
}
