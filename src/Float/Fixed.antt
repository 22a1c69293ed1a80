-- ===== src/Float/Fixed.antt =====
-- A concrete `Float` to run the definitions on: exact decimals with nine places, beside NaN and
-- the infinities. It is a sample value of the interface, not a model of the hardware's doubles.
use rover_mind.Prelude.{
  ℕ, zero, suc, ◌+◌, ◌-◌, ◌*◌, ◌/◌, ◌%◌, ◌^◌, String, ◌≡◌, refl, Bool, true, false, Option, none,
  some, arith, leb, if◌then◌else◌,
}
use rover_mind.Prelude.Int.{ℤ, pos, negsuc, pos_part, neg_part, sub_ℕ, ◌+ℤ◌, ◌-ℤ◌, ltb_ℤ, leb_ℤ}
use rover_mind.Float.{Float}

pub data Fixed : Type 0 where
  nan neg_inf pos_inf : Fixed
  num : ℤ → Fixed

abbrev scale : ℕ
scale = 1_000_000_000

-- A literal n / 10 ^ k with at most nine places.
pub literal : ℕ → ℕ → Fixed
literal n k = num (pos (n * 10 ^ (9 - k)))

opposite : ℤ → ℤ
unfolding ◌-ℤ◌
opposite a = pos 0 -ℤ a

pub neg : Fixed → Fixed
unfolding opposite
neg nan = nan
neg neg_inf = pos_inf
neg pos_inf = neg_inf
neg (num a) = num (opposite a)

pub add : Fixed → Fixed → Fixed
unfolding ◌+ℤ◌
add nan b = nan
add a nan = nan
add neg_inf pos_inf = nan
add pos_inf neg_inf = nan
add neg_inf b = neg_inf
add pos_inf b = pos_inf
add a neg_inf = neg_inf
add a pos_inf = pos_inf
add (num a) (num b) = num (a +ℤ b)

pub sub : Fixed → Fixed → Fixed
unfolding ◌-ℤ◌
sub nan b = nan
sub a nan = nan
sub neg_inf neg_inf = nan
sub pos_inf pos_inf = nan
sub neg_inf b = neg_inf
sub pos_inf b = pos_inf
sub (num a) neg_inf = pos_inf
sub (num a) pos_inf = neg_inf
sub (num a) (num b) = num (a -ℤ b)

-- The products and quotients of infinities are not needed to run the tests: NaN stands for them.
pub mul : Fixed → Fixed → Fixed
mul (num a) (num b) = num (
    sub_ℕ ((pos_part a * pos_part b + neg_part a * neg_part b) / scale)
      ((pos_part a * neg_part b + neg_part a * pos_part b) / scale))
mul _ _ = nan

pub quot : Fixed → Fixed → Fixed
quot (num a) (num b) = num (
    sub_ℕ ((pos_part a * scale) / pos_part b + (neg_part a * scale) / neg_part b)
      ((pos_part a * scale) / neg_part b + (neg_part a * scale) / pos_part b))
quot _ _ = nan

pub rem : Fixed → Fixed → Fixed
rem (num (pos n)) (num (pos m)) = num (pos (n % m))
rem (num (negsuc n)) (num (pos m)) = num (pos (m - 1 - n % m))
rem _ _ = nan

pub abs : Fixed → Fixed
abs (num a) = num (pos (pos_part a + neg_part a))
abs nan = nan
abs _ = pos_inf

-- Integer square root of n by counting down from the fuel.
root : ℕ → ℕ → ℕ
root zero n = 0
root (suc k) n = let rest = root k n in if leb (suc k * suc k) n then suc k else rest

pub sqrt : Fixed → Fixed
unfolding root
sqrt (num (pos n)) = num (pos (root 100 (n / scale) * scale))
sqrt _ = nan

pub radians : Fixed → Fixed
unfolding mul literal
radians a = mul a (literal 17_453_293 9)

-- Not needed to run the tests: NaN stands for it.
pub atan2 : Fixed → Fixed → Fixed
atan2 y x = nan

pub of_int : ℤ → Fixed
of_int (pos n) = num (pos (n * scale))
of_int (negsuc n) = num (sub_ℕ 0 (suc n * scale))

pub round : Fixed → Option ℤ
round (num (pos n)) = some (pos ((n + 500_000_000) / scale))
round (num (negsuc n)) = some (sub_ℕ 0 ((suc n + 499_999_999) / scale))
round _ = none

pub lt : Fixed → Fixed → Bool
lt nan b = false
lt a nan = false
lt (num a) (num b) = ltb_ℤ a b
lt neg_inf neg_inf = false
lt neg_inf b = true
lt a neg_inf = false
lt pos_inf b = false
lt a pos_inf = true

pub le : Fixed → Fixed → Bool
le nan b = false
le a nan = false
le (num a) (num b) = leb_ℤ a b
le neg_inf b = true
le a pos_inf = true
le a b = false

pub is_nan : Fixed → Bool
is_nan nan = true
is_nan _ = false

pub is_finite : Fixed → Bool
is_finite (num a) = true
is_finite _ = false

-- Texts are not needed to run the tests.
pub fixed : ℕ → Fixed → String
fixed k a = "#"

pub repr : Fixed → String
repr a = "#"

pub le_trans : (a b c : Fixed) → le a b ≡ true → le b c ≡ true → le a c ≡ true
unfolding le
le_trans a b c p q = ground arith

pub lt→le : (a b : Fixed) → lt a b ≡ true → le a b ≡ true
unfolding lt le
lt→le a b p = ground arith

pub lt-le_trans : (a b c : Fixed) → lt a b ≡ true → le b c ≡ true → lt a c ≡ true
unfolding lt le
lt-le_trans a b c p q = ground arith

pub le-lt_trans : (a b c : Fixed) → le a b ≡ true → lt b c ≡ true → lt a c ≡ true
unfolding lt le
le-lt_trans a b c p q = ground arith

pub le→not_lt : (a b : Fixed) → le a b ≡ true → lt b a ≡ false
unfolding lt le
le→not_lt a b p = ground arith

pub not_lt→le : (a b : Fixed) → is_nan a ≡ false → is_nan b ≡ false → lt a b ≡ false → le b a ≡ true
unfolding lt le is_nan
not_lt→le a b p q r = ground arith

pub le_not_nan : (a b : Fixed) → le a b ≡ true → is_nan a ≡ false
unfolding le is_nan
le_not_nan a b p = ground arith

pub ge_not_nan : (a b : Fixed) → le a b ≡ true → is_nan b ≡ false
unfolding le is_nan
ge_not_nan a b p = ground arith

pub finite_not_nan : (a : Fixed) → is_finite a ≡ true → is_nan a ≡ false
unfolding is_finite is_nan
finite_not_nan a p = ground arith

pub finite-lt-inf : (a : Fixed) → is_finite a ≡ true → lt a pos_inf ≡ true
unfolding is_finite lt
finite-lt-inf a p = ground arith

pub sub_mono : (a b c : Fixed) → is_finite c ≡ true → le a b ≡ true → le (sub a c) (sub b c) ≡ true
unfolding is_finite le sub
sub_mono a b c p q = ground arith

pub rem_low :
    (a m : Fixed)
    → is_finite a ≡ true
    → is_finite m ≡ true
    → lt (literal 0 1) m ≡ true
    → le (literal 0 1) (rem a m) ≡ true
unfolding is_finite lt le rem literal
rem_low a m p q r = ground arith

pub rem_high :
    (a m : Fixed)
    → is_finite a ≡ true
    → is_finite m ≡ true
    → lt (literal 0 1) m ≡ true
    → le (rem a m) m ≡ true
unfolding is_finite lt le rem literal
rem_high a m p q r = ground arith

pub two_pi_exact :
    (sub (mul (literal 2 0) (literal 3_141_592_654 9)) (literal 3_141_592_654 9)
      ≡ literal 3_141_592_654 9)
    × (sub (literal 0 1) (literal 3_141_592_654 9) ≡ neg (literal 3_141_592_654 9))
    × (is_finite (literal 3_141_592_654 9) ≡ true)
    × (is_finite (mul (literal 2 0) (literal 3_141_592_654 9)) ≡ true)
    × (lt (literal 0 1) (mul (literal 2 0) (literal 3_141_592_654 9)) ≡ true)
unfolding sub mul literal neg is_finite lt
two_pi_exact = (refl, refl, refl, refl, refl)

instance unfoldable pub fixed_float : Float Fixed
unfolding literal neg add sub mul quot rem abs sqrt radians atan2 of_int round lt le is_nan
    is_finite fixed repr
fixed_float = record {
  lit = literal;
  inf = pos_inf;
  pi = literal 3_141_592_654 9;
  neg = neg;
  add = add;
  sub = sub;
  mul = mul;
  quot = quot;
  rem = rem;
  abs = abs;
  sqrt = sqrt;
  radians = radians;
  atan2 = atan2;
  of_int = of_int;
  round = round;
  lt = lt;
  le = le;
  is_nan = is_nan;
  is_finite = is_finite;
  fixed = fixed;
  repr = repr;
  lt→le = lt→le;
  le_trans = le_trans;
  lt-le_trans = lt-le_trans;
  le-lt_trans = le-lt_trans;
  le→not_lt = le→not_lt;
  not_lt→le = not_lt→le;
  le_not_nan = le_not_nan;
  ge_not_nan = ge_not_nan;
  finite_not_nan = finite_not_nan;
  finite-lt-inf = finite-lt-inf;
  sub_mono = sub_mono;
  rem_low = rem_low;
  rem_high = rem_high;
  two_pi = two_pi_exact;
}
