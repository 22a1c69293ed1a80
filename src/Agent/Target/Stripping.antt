-- ===== src/Agent/Target/Stripping.antt =====
-- Pieces of texts, and what stripping leaves of one (rstrip, lstrip and strip in extract_target of
-- agent/state.py).
use mathlib.Core.List.{append_assoc}
use rover_mind.Prelude.{
  ℕ, ◌≡◌, refl, sym, ap, ◌∙◌, inl, inr, Bool, true, false, Option, none, some, List, [], ◌∷◌, ◌++◌,
  All, All-append, All-imp, get_last?, Bool-cases,
}
use rover_mind.Agent.Target.{kept_end, rstrip, lstrip, strip}

-- The text is the end of another.
abbrev pub IsEnd : List ℕ → List ℕ → Type 0
IsEnd s r = (before : List ℕ) × (s ≡ before ++ r)

-- Every character satisfies the test.
abbrev pub Only : (ℕ → Bool) → List ℕ → Type 0
Only test s = All (λ c. test c ≡ true) s

-- The text is a piece of another, in which only such characters come after it.
abbrev pub IsPiece : (ℕ → Bool) → List ℕ → List ℕ → Type 0
IsPiece test s p =
    (before : List ℕ) × (after : List ℕ) × (s ≡ before ++ (p ++ after)) × Only test after

-- None of the characters at the end of the text.
abbrev pub NotLast : (ℕ → Bool) → Option ℕ → Type 0
NotLast strips none = Unit
NotLast strips (some c) = strips c ≡ false

pub IsEnd-trans : (s r t : List ℕ) → IsEnd s r → IsEnd r t → IsEnd s t
IsEnd-trans s r t (a, e) (b, h) =
    (a ++ b, e ∙ ap (λ (l : List ℕ). a ++ l) h ∙ sym (append_assoc a b t))

pub Only-imp :
    (test wider : ℕ → Bool) (s : List ℕ)
    → ((c : ℕ) → test c ≡ true → wider c ≡ true)
    → Only test s
    → Only wider s
Only-imp test wider s h = All-imp (λ c. test c ≡ true) (λ c. wider c ≡ true) h s

module _ (test : ℕ → Bool) where
  pub IsPiece-end : (s r p : List ℕ) → IsEnd s r → IsPiece test r p → IsPiece test s p
  IsPiece-end s r p (a, e) (b, after, h, only) =
      (a ++ b, after, e ∙ ap (λ (l : List ℕ). a ++ l) h ∙ sym (append_assoc a b (p ++ after)), only)

  -- A piece of a front part.
  IsPiece-front :
      (s p after q : List ℕ)
      → s ≡ p ++ after
      → Only test after
      → IsPiece test p q
      → IsPiece test s q
  IsPiece-front s p after q e only (a, b, h, only') = (
    a,
    b ++ after,
    e
        ∙ ap (λ (l : List ℕ). l ++ after) h
        ∙ append_assoc a (q ++ b) after
        ∙ ap (λ (l : List ℕ). a ++ l) (append_assoc q b after),
    All-append (λ c. test c ≡ true) b after only' only,
  )

  pub IsPiece-trans : (s p q : List ℕ) → IsPiece test s p → IsPiece test p q → IsPiece test s q
  IsPiece-trans s p q (a, b, e, only) h =
      IsPiece-end s (p ++ b) q (a, e) (IsPiece-front (p ++ b) p b q refl only h)

module _ (strips : ℕ → Bool) where
  lstrip-IsEnd : (s : List ℕ) → IsEnd s (lstrip strips s)
  unfolding lstrip
  lstrip-IsEnd [] = ([], refl)
  lstrip-IsEnd (c ∷ s) = elim (Bool-cases (strips c)) [
    | inl off ↦
        let (before, e) = lstrip-IsEnd s in rw off (c ∷ before, ap (λ (l : List ℕ). c ∷ l) e)
    | inr on ↦ rw on ([], refl)
  ]

  -- What is left at the front, and what is last there.
  abbrev pub Kept : List ℕ → List ℕ → Type 0
  Kept s r = (after : List ℕ) × (s ≡ r ++ after) × Only strips after × NotLast strips (get_last? r)

  kept_end-Kept : (c : ℕ) (s r : List ℕ) → Kept s r → Kept (c ∷ s) (kept_end strips c r)
  unfolding kept_end
  kept_end-Kept c s [] (after, e, only, last) = elim (Bool-cases (strips c)) [
    | inl off ↦ rw off (c ∷ after, ap (λ (l : List ℕ). c ∷ l) e, (off, only), tt)
    | inr on ↦ rw on (after, ap (λ (l : List ℕ). c ∷ l) e, only, on)
  ]
  kept_end-Kept c s (x ∷ xs) (after, e, only, last) =
      (after, ap (λ (l : List ℕ). c ∷ l) e, only, last)

  pub rstrip-Kept : (s : List ℕ) → Kept s (rstrip strips s)
  unfolding rstrip
  rstrip-Kept [] = ([], refl, tt, tt)
  rstrip-Kept (c ∷ s) = kept_end-Kept c s (rstrip strips s) (rstrip-Kept s)

  pub strip-IsPiece : (s : List ℕ) → IsPiece strips s (strip strips s)
  unfolding strip
  strip-IsPiece s =
      let (after, e, only, last) = rstrip-Kept (lstrip strips s) in
      IsPiece-end strips s (lstrip strips s) (strip strips s) (lstrip-IsEnd s) ([], after, e, only)
