-- ===== src/Float.antt =====
-- Python's `float`, as the code uses it: an interface that the definitions take as a parameter.
-- The laws are those that IEEE-754 double precision and the Python documentation promise; they
-- leave rounding open and hold at NaN and at the infinities too.
pub mod Fixed
pub mod Order
use rover_mind.Prelude.{ℕ, String, ◌≡◌, Bool, true, false, Option, if◌then◌else◌}
use rover_mind.Prelude.Int.{ℤ}

pub record Float (R : Type 0) : Type 0 where
  -- `lit n k` is the literal n / 10 ^ k
  pub lit : ℕ → ℕ → R
  pub inf : R
  -- `math.pi`
  pub pi : R
  pub neg : R → R
  pub add : R → R → R
  pub sub : R → R → R
  pub mul : R → R → R
  pub quot : R → R → R
  -- `x % m` on floats
  pub rem : R → R → R
  pub abs : R → R
  pub sqrt : R → R
  pub radians : R → R
  -- `math.atan2(y, x)`
  pub atan2 : R → R → R
  pub of_int : ℤ → R
  -- `round(x)`; it raises at NaN and at the infinities
  pub round : R → Option ℤ
  pub lt : R → R → Bool
  pub le : R → R → Bool
  pub is_nan : R → Bool
  pub is_finite : R → Bool
  -- `f"{x:.kf}"`
  pub fixed : ℕ → R → String
  -- `repr(x)`
  pub repr : R → String
  pub lt→le : (a b : R) → lt a b ≡ true → le a b ≡ true
  pub le_trans : (a b c : R) → le a b ≡ true → le b c ≡ true → le a c ≡ true
  pub lt-le_trans : (a b c : R) → lt a b ≡ true → le b c ≡ true → lt a c ≡ true
  pub le-lt_trans : (a b c : R) → le a b ≡ true → lt b c ≡ true → lt a c ≡ true
  pub le→not_lt : (a b : R) → le a b ≡ true → lt b a ≡ false
  pub not_lt→le : (a b : R) → is_nan a ≡ false → is_nan b ≡ false → lt a b ≡ false → le b a ≡ true
  pub le_not_nan : (a b : R) → le a b ≡ true → is_nan a ≡ false
  pub ge_not_nan : (a b : R) → le a b ≡ true → is_nan b ≡ false
  pub finite_not_nan : (a : R) → is_finite a ≡ true → is_nan a ≡ false
  pub finite-lt-inf : (a : R) → is_finite a ≡ true → lt a inf ≡ true
  -- rounding is monotone
  pub sub_mono : (a b c : R) → is_finite c ≡ true → le a b ≡ true → le (sub a c) (sub b c) ≡ true
  -- `%` has the sign of the modulus and does not pass it; rounding may reach it
  pub rem_low :
      (a m : R)
      → is_finite a ≡ true
      → is_finite m ≡ true
      → lt (lit 0 1) m ≡ true
      → le (lit 0 1) (rem a m) ≡ true
  pub rem_high :
      (a m : R)
      → is_finite a ≡ true
      → is_finite m ≡ true
      → lt (lit 0 1) m ≡ true
      → le (rem a m) m ≡ true
  -- doubling and halving are exact
  pub two_pi :
      (sub (mul (lit 2 0) pi) pi ≡ pi)
      × (sub (lit 0 1) pi ≡ neg pi)
      × (is_finite pi ≡ true)
      × (is_finite (mul (lit 2 0) pi) ≡ true)
      × (lt (lit 0 1) (mul (lit 2 0) pi) ≡ true)

module _ {R : Type 0} ⦃f : Float R⦄ where
  -- The literals 0.0 and 1.0.
  abbrev pub nought : R
  nought = f.lit 0 1

  abbrev pub one : R
  one = f.lit 10 1

  -- `max(a, b)` keeps its first argument unless the second is larger.
  abbrev pub max : R → R → R
  max a b = if f.lt a b then b else a

  -- `min(a, b)` keeps its first argument unless the second is smaller.
  abbrev pub min : R → R → R
  min a b = if f.lt b a then b else a
