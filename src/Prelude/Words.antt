-- ===== src/Prelude/Words.antt =====
-- The search for a whole word, the regular expression `\bword\b`.
use rover_mind.Prelude.Tests.{Bool-cases}
use rover_mind.Prelude.Lists.{length, drop}
use rover_mind.Prelude.Text.{Unicode, starts_with, starts_with-append, starts_with_split}
use Prim.Native.Nat.{ℕ}
use mathlib.Core.Path.{◌≡◌, refl, sym, ap, ◌∙◌}
use mathlib.Core.Logic.{◌↔◌, ◌⊎◌, inl, inr}
use mathlib.Core.Bool.{Bool, true, false, ◌&&◌, ◌||◌, xor}
use mathlib.Core.Option.{Option, none, some}
use mathlib.Core.List.{List, [], ◌∷◌, ◌++◌}
use native.Mathlib.Omega.{arith}

abbrev pub head? : List ℕ → Option ℕ
head? [] = none
head? (c ∷ cs) = some c

-- The character before a position, where `p` stands before the text.
abbrev pub last_or : Option ℕ → List ℕ → Option ℕ
last_or p [] = p
last_or p (c ∷ cs) = last_or (some c) cs

abbrev pub word_char : Unicode → Option ℕ → Bool
word_char u none = false
word_char u (some c) = u.is_word c

-- `\b` between two characters, or at an end of the text.
abbrev pub boundary : Unicode → Option ℕ → Option ℕ → Bool
boundary u p n = xor (word_char u p) (word_char u n)

word_at : Unicode → List ℕ → Option ℕ → List ℕ → Bool
word_at u w p text =
    starts_with w text
    && (boundary u p (head? text) && boundary u (last_or p w) (head? (drop (length w) text)))

word_from : Unicode → List ℕ → Option ℕ → List ℕ → Bool
unfolding word_at
word_from u w p [] = word_at u w p []
word_from u w p (c ∷ text) = word_at u w p (c ∷ text) || word_from u w (some c) text

-- `re.search(r"\bword\b", text) is not None`
unfoldable pub has_word : Unicode → List ℕ → List ℕ → Bool
unfolding word_from
has_word u w text = word_from u w none text

-- The word stands in the text, behind `p`, with a boundary on either side.
abbrev pub WordAfter : Unicode → List ℕ → Option ℕ → List ℕ → Type 0
WordAfter u w p text =
    (before : List ℕ) × (after : List ℕ) × (text ≡ before ++ (w ++ after))
    × (boundary u (last_or p before) (head? (w ++ after)) ≡ true)
    × (boundary u (last_or (last_or p before) w) (head? after) ≡ true)

abbrev pub HasWord : Unicode → List ℕ → List ℕ → Type 0
HasWord u w text = WordAfter u w none text

drop-append : (w after : List ℕ) → drop (length w) (w ++ after) ≡ after
drop-append [] after = refl
drop-append (c ∷ w) after = drop-append w after

word_at-append :
    (u : Unicode) (w : List ℕ) (p : Option ℕ) (after : List ℕ)
    → boundary u p (head? (w ++ after)) ≡ true
    → boundary u (last_or p w) (head? after) ≡ true
    → word_at u w p (w ++ after) ≡ true
unfolding word_at
word_at-append u w p after b c = rw (starts_with-append w after, drop-append w after) (ground arith)

word_at_split :
    (u : Unicode) (w : List ℕ) (p : Option ℕ) (text : List ℕ)
    → word_at u w p text ≡ true
    → WordAfter u w p text
unfolding word_at
word_at_split u w p text h =
    let (after, e) = starts_with_split w text (ground arith) in
    let skipped : drop (length w) text ≡ after = rw e (drop-append w after) in
    ([], after, e, rw (← e) (ground arith), rw (← skipped) (ground arith))

and_later :
    (u : Unicode) (w : List ℕ) (p : Option ℕ) (c : ℕ) (text : List ℕ)
    → WordAfter u w (some c) text
    → WordAfter u w p (c ∷ text)
and_later u w p c text (before, after, e, b, d) =
    (c ∷ before, after, ap (λ (t : List ℕ). c ∷ t) e, b, d)

word_from-cons :
    (u : Unicode) (w : List ℕ) (p : Option ℕ) (c : ℕ) (text : List ℕ)
    → word_from u w p (c ∷ text) ≡ (word_at u w p (c ∷ text) || word_from u w (some c) text)
unfolding word_from
word_from-cons u w p c text = refl

or_right : (a b : Bool) → (a || b) ≡ true → a ≡ false → b ≡ true
or_right a b h e = ground arith

or_intro : (a b : Bool) → (a ≡ true) ⊎ (b ≡ true) → (a || b) ≡ true
or_intro a b h = ground arith

word_from_here :
    (u : Unicode) (w : List ℕ) (p : Option ℕ) (text : List ℕ)
    → word_at u w p text ≡ true
    → word_from u w p text ≡ true
word_from_here u w p [] h = unfold word_from in h
word_from_here u w p (c ∷ text) h = word_from-cons u w p c text ∙ or_intro _ _ (inl h)

word_from-append :
    (u : Unicode) (w : List ℕ) (p : Option ℕ) (before after : List ℕ)
    → boundary u (last_or p before) (head? (w ++ after)) ≡ true
    → boundary u (last_or (last_or p before) w) (head? after) ≡ true
    → word_from u w p (before ++ (w ++ after)) ≡ true
word_from-append u w p [] after b d =
    word_from_here u w p (w ++ after) (word_at-append u w p after b d)
word_from-append u w p (c ∷ before) after b d =
    word_from-cons u w p c (before ++ (w ++ after))
    ∙ or_intro _ _ (inr (word_from-append u w (some c) before after b d))

word_from_split :
    (u : Unicode) (w : List ℕ) (p : Option ℕ) (text : List ℕ)
    → word_from u w p text ≡ true
    → WordAfter u w p text
word_from_split u w p [] h = word_at_split u w p [] (unfold word_from in h)
word_from_split u w p (c ∷ text) h =
    let h' : (word_at u w p (c ∷ text) || word_from u w (some c) text) ≡ true =
      sym (word_from-cons u w p c text) ∙ h in
    elim (Bool-cases (word_at u w p (c ∷ text))) [
      | inl here ↦ word_at_split u w p (c ∷ text) here
      | inr not_here ↦
          and_later u w p c text (word_from_split u w (some c) text (or_right _ _ h' not_here))
    ]

-- The search succeeds exactly where the word occurs with a word boundary on either side.
pub has_word_iff : (u : Unicode) (w text : List ℕ) → (has_word u w text ≡ true) ↔ HasWord u w text
unfolding has_word
has_word_iff u w text = (
  word_from_split u w none text,
  λ (before, after, e, b, d). rw e (word_from-append u w none before after b d),
)
