-- ===== src/Prelude/Text.antt =====
-- Texts as code points: substring search and whole-word search, with the predicates that they decide.
use Prim.Native.Char.{code}
use Prim.Native.String.{String}
use rover_mind.Prelude.Tests.{◌==◌, Bool-cases}
use Prim.Native.Nat.{ℕ}
use mathlib.Core.Path.{◌≡◌, refl, ap}
use mathlib.Core.Logic.{◌↔◌, inl, inr}
use mathlib.Core.Bool.{Bool, true, false, ◌&&◌, ◌||◌}
use mathlib.Core.List.{List, [], ◌∷◌, ◌++◌}
use native.Mathlib.Omega.{arith}

abbrev pub codes : String → List ℕ
codes String.[] = []
codes (String.◌∷◌ c s) = code c ∷ codes s

-- What Python's Unicode tables answer: `str.lower`, the characters that `\w` matches, and the quoted
-- form `repr` of a text.
pub record Unicode : Type 0 where
  pub lower : List ℕ → List ℕ
  pub is_word : ℕ → Bool
  pub repr : String → String

-- `text.startswith(needle)`
unfoldable pub starts_with : List ℕ → List ℕ → Bool
starts_with [] text = true
starts_with (c ∷ needle) [] = false
starts_with (c ∷ needle) (d ∷ text) = c == d && starts_with needle text

-- `needle in text`
unfoldable pub contains : List ℕ → List ℕ → Bool
unfolding starts_with
contains needle [] = starts_with needle []
contains needle (c ∷ text) = starts_with needle (c ∷ text) || contains needle text

abbrev pub Occurs : List ℕ → List ℕ → Type 0
Occurs needle text = (before : List ℕ) × (after : List ℕ) × (text ≡ before ++ (needle ++ after))

pub starts_with-append : (needle after : List ℕ) → starts_with needle (needle ++ after) ≡ true
unfolding starts_with
starts_with-append [] after = refl
starts_with-append (c ∷ needle) after = ground (arith, starts_with-append needle after)

pub starts_with_split :
    (needle text : List ℕ)
    → starts_with needle text ≡ true
    → (after : List ℕ) × (text ≡ needle ++ after)
unfolding starts_with
starts_with_split [] text h = (text, refl)
starts_with_split (c ∷ needle) [] h = absurd (ground arith)
starts_with_split (c ∷ needle) (d ∷ text) h =
    let (after, e) = starts_with_split needle text (ground arith) in (after, ground arith)

contains-append :
    (needle before after : List ℕ) → contains needle (before ++ (needle ++ after)) ≡ true
unfolding contains
contains-append [] [] [] = refl
contains-append [] [] (c ∷ after) = refl
contains-append (c ∷ needle) [] after = ground (arith, starts_with-append (c ∷ needle) after)
contains-append needle (d ∷ before) after = ground (arith, contains-append needle before after)

contains_split : (needle text : List ℕ) → contains needle text ≡ true → Occurs needle text
contains_split needle [] h =
    let (after, e) = starts_with_split needle [] (unfold contains in h) in ([], after, e)
contains_split needle (c ∷ text) h = elim (Bool-cases (starts_with needle (c ∷ text))) [
  | inl here ↦ let (after, e) = starts_with_split needle (c ∷ text) here in ([], after, e)
  | inr not_here ↦
      let (before, after, e) = contains_split needle text (unfold contains in ground arith) in
      (c ∷ before, after, ap (λ (t : List ℕ). c ∷ t) e)
]

-- The substring test finds exactly the occurrences.
pub contains_iff : (needle text : List ℕ) → (contains needle text ≡ true) ↔ Occurs needle text
contains_iff needle text =
    (contains_split needle text, λ (b, a, e). rw e (contains-append needle b a))
