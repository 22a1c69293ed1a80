-- ===== src/Prelude/Io.antt =====
-- Python calls that have effects and may raise: a function on the state of the world outside, which
-- comes back after a raise too.
pub mod Finally
use Prim.Native.String.{String}
use mathlib.Core.Path.{◌≡◌, refl, ap}
use mathlib.Core.Logic.{◌⊎◌, inl, inr}
use mathlib.Core.Bool.{Bool, true, false, not, ◌||◌}
use rover_mind.Prelude.Tests.{str_eq, if◌then◌else◌}

-- An exception: the name of its class, and its text.
pub record Exception : Type 0 where
  pub kind : String
  pub text : String

pub data Result (A : Type 0) : Type 0 where
  ok : A → Result A
  err : Exception → Result A

abbrev pub Io : Type 0 → Type 0 → Type 0
Io W A = W → Result A × W

pub Result-cases :
    {A : Type 0} (r : Result A) → ((e : Exception) × (r ≡ err e)) ⊎ ((a : A) × (r ≡ ok a))
Result-cases (ok a) = inr (a, refl)
Result-cases (err e) = inl (e, refl)

pub ok-inj : {A : Type 0} (x y : A) → ok x ≡ ok y → x ≡ y
ok-inj x y e = cc

pub err-inj : {A : Type 0} (d e : Exception) → ◌≡◌ {A = Result A} (err d) (err e) → d ≡ e
err-inj d e h = cc

abbrev pub exception : String → String → Exception
exception kind text = record { kind = kind; text = text }

module _ {W A : Type 0} where
  abbrev pub pure : A → Io W A
  pure a w = (ok a, w)

  abbrev pub raise : Exception → Io W A
  raise e w = (err e, w)

  abbrev pub lift : Result A → Io W A
  lift r w = (r, w)

infixl 5 ◌>>=◌ ◌>>◌
abbrev pub ◌>>=◌ : {W A B : Type 0} → Io W A → (A → Io W B) → Io W B
◌>>=◌ m k w = let (r, w') = m w in elim r [ ok a ↦ k a w' | err e ↦ (err e, w') ]

abbrev pub ◌>>◌ : {W A B : Type 0} → Io W A → Io W B → Io W B
m >> k = m >>= λ _. k

-- If the call returns a value, the value has the property.
abbrev pub Ensures : {W A : Type 0} → (A → Type 0) → Result A × W → Type 0
Ensures P (ok a, w) = P a
Ensures P (err e, w) = Unit

module _ {W A B : Type 0} (P : A → Type 0) (Q : B → Type 0) where
  Ensures-after :
      (k : A → Io W B) (r : Result A × W)
      → Ensures {W = W} P r
      → ((a : A) (w : W) → P a → Ensures {W = W} Q (k a w))
      → Ensures {W = W} Q (let (x, w) = r in elim x [ ok a ↦ k a w | err e ↦ (err e, w) ])
  Ensures-after k (ok a, w) p h = h a w p
  Ensures-after k (err e, w) p h = tt

  -- The second call may rely on what the first one ensures.
  pub Ensures-bind_with :
      (m : Io W A) (k : A → Io W B) (w : W)
      → Ensures {W = W} P (m w)
      → ((a : A) (v : W) → P a → Ensures {W = W} Q (k a v))
      → Ensures {W = W} Q ((m >>= k) w)
  Ensures-bind_with m k w p h = Ensures-after k (m w) p h

pub Ensures-any : {W A : Type 0} (r : Result A × W) → Ensures {W = W} (λ (a : A). Unit {0}) r
Ensures-any (ok a, w) = tt
Ensures-any (err e, w) = tt

-- Whatever the first call does, the second ensures its property.
pub Ensures-bind :
    {W A B : Type 0} (Q : B → Type 0) (m : Io W A) (k : A → Io W B) (w : W)
    → ((a : A) (v : W) → Ensures {W = W} Q (k a v))
    → Ensures {W = W} Q ((m >>= k) w)
Ensures-bind Q m k w h =
    Ensures-bind_with (λ a. Unit {0}) Q m k w (Ensures-any (m w)) (λ a v p. h a v)

-- How a call goes on from what the call before it gave.
abbrev pub continued : {W A B : Type 0} → (A → Io W B) → Result A × W → Result B × W
continued k r = let (x, w) = r in elim x [ ok a ↦ k a w | err e ↦ (err e, w) ]

-- A call that returns goes on.
pub bind-ok :
    {W A B : Type 0} (m : Io W A) (k : A → Io W B) (w : W) (a : A) (v : W)
    → m w ≡ (ok a, v)
    → (m >>= k) w ≡ k a v
bind-ok m k w a v h = ap (continued k) h

-- A pure step on the result of a call.
abbrev pub mapped : {A B : Type 0} → (A → Result B) → Result A → Result B
mapped g (ok a) = g a
mapped g (err e) = err e

after-lift :
    {W A B : Type 0} (g : A → Result B) (r : Result A) (w : W)
    → continued (λ a. lift (g a)) (r, w) ≡ (mapped g r, w)
after-lift g (ok a) w = refl
after-lift g (err e) w = refl

pub bind-lift :
    {W A B : Type 0} (m : Io W A) (g : A → Result B) (w : W)
    → (m >>= λ a. lift (g a)) w ≡ (mapped g (m w).0, (m w).1)
bind-lift m g w = after-lift g (m w).0 (m w).1

continued-ok :
    {W A B : Type 0} (k : A → Io W B) (r : Result A) (v : W) (b : B)
    → (continued k (r, v)).0 ≡ ok b
    → (a : A) × (r ≡ ok a) × ((k a v).0 ≡ ok b) × ((continued k (r, v)).1 ≡ (k a v).1)
continued-ok k (ok a) v b h = (a, refl, h, refl)
continued-ok k (err e) v b h = absurd (cc)

-- Where two calls in a row return, the first one returned, and the second did after it.
pub bind-returns :
    {W A B : Type 0} (m : Io W A) (k : A → Io W B) (w : W) (b : B)
    → ((m >>= k) w).0 ≡ ok b
    → (a : A) × ((m w).0 ≡ ok a) × ((k a (m w).1).0 ≡ ok b) × (((m >>= k) w).1 ≡ (k a (m w).1).1)
bind-returns m k w b h = continued-ok k (m w).0 (m w).1 b h

-- What is left of a result once the `finally` has ended.
abbrev pub after_all : {W A : Type 0} → Result A → Result Unit × W → Result A × W
after_all r (ok done, w) = (r, w)
after_all r (err e, w) = (err e, w)

-- `try: m finally: after`
abbrev pub finally_io : {W A : Type 0} → Io W A → Io W Unit → Io W A
finally_io m after w = let (r, w') = m w in after_all r (after w')

-- Whether `except Exception` catches the exception.
abbrev pub is_caught : Exception → Bool
is_caught e = not (str_eq e.kind "KeyboardInterrupt" || str_eq e.kind "SystemExit")

-- `try: m except Exception: pass`, on what the call gave.
abbrev pub passed_over : {W : Type 0} → Result Unit × W → Result Unit × W
passed_over (ok done, w) = (ok tt, w)
passed_over (err e, w) = if is_caught e then (ok tt, w) else (err e, w)

abbrev pub ignored : {W : Type 0} → Io W Unit → Io W Unit
ignored m w = passed_over (m w)

-- `try: m except KeyboardInterrupt: handler`
abbrev pub on_interrupt : {W : Type 0} → Io W Unit → Io W Unit → Io W Unit
on_interrupt m handler w =
    let (r, w') = m w in
    elim r [
      | ok done ↦ (ok tt, w')
      | err e ↦ if str_eq e.kind "KeyboardInterrupt" then handler w' else (err e, w')
    ]
