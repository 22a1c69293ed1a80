-- ===== src/Float/Order.antt =====
-- Consequences of the order laws of floats.
use rover_mind.Prelude.{◌≡◌, true, false, inl, inr, Bool-cases, arith}
use rover_mind.Float.{Float, max, min}

module _ {R : Type 0} ⦃f : Float R⦄ where
  open f use {lt, le, is_nan, is_finite, inf, pi}

  -- A number that is not NaN is at most itself.
  pub le_refl : (a : R) → is_nan a ≡ false → le a a ≡ true
  le_refl a h = elim (Bool-cases (lt a a)) [
    | inl below ↦ f.lt→le a a below
    | inr not_below ↦ f.not_lt→le a a h h not_below
  ]

  -- Nothing is below itself, NaN included.
  pub lt_irrefl : (a : R) → lt a a ≡ false
  lt_irrefl a = elim (Bool-cases (lt a a)) [
    | inl below ↦ f.le→not_lt a a (f.lt→le a a below)
    | inr not_below ↦ not_below
  ]

  -- A bound from below is kept by `max`, whatever the other argument is.
  pub le-max : (a b : R) → is_nan a ≡ false → le a (max a b) ≡ true
  le-max a b h = ground (arith, le_refl a h, f.lt→le a b)

  -- A bound from above is kept by `min`, whatever the other argument is.
  pub min-le : (a b : R) → is_nan a ≡ false → le (min a b) a ≡ true
  min-le a b h = ground (arith, le_refl a h, f.lt→le b a)

  -- A clamp as the code writes it, `max(lo, min(hi, x))`, stays in its range, also at NaN.
  pub clamp_bounds :
      (lo hi x : R)
      → le lo hi ≡ true
      → (le lo (max lo (min hi x)) ≡ true) × (le (max lo (min hi x)) hi ≡ true)
  clamp_bounds lo hi x h = (
    le-max lo (min hi x) (f.le_not_nan lo hi h),
    ground (arith, h, min-le hi x (f.ge_not_nan lo hi h)),
  )

pub inf_not_nan : (R : Type 0) ⦃f : Float R⦄ → f.is_nan f.inf ≡ false
inf_not_nan R ⦃f⦄ = f.ge_not_nan f.pi f.inf (f.lt→le f.pi f.inf (f.finite-lt-inf f.pi f.two_pi.2))
