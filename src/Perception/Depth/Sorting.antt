-- ===== src/Perception/Depth/Sorting.antt =====
-- The sort of the depth samples (depth_to_distance_bucket of perception/depth_math.py).
use mathlib.Core.List.{Perm}
use mathlib.Core.List.Perm
use rover_mind.Prelude.{
  ◌≡◌, inl, inr, true, false, List, [], ◌∷◌, arith, All, All-imp, Bool-cases, Option, none, some,
}
use rover_mind.Float.{Float, nought}
use rover_mind.Perception.Depth.{insert, sorted, valid_samples}

module _ {R : Type 0} ⦃f : Float R⦄ where
  open f use {lt, le, is_nan, is_finite}

  -- Each element is at most all that follow it.
  abbrev pub IsSorted : List R → Type 0
  IsSorted [] = Unit
  IsSorted (x ∷ xs) = All (λ y. le x y ≡ true) xs × IsSorted xs

  abbrev IsNumber : R → Type 0
  IsNumber x = is_nan x ≡ false

  insert-perm : (d : R) (es : List R) → Perm (insert d es) (d ∷ es)
  unfolding insert
  insert-perm d [] = Perm.refl (d ∷ [])
  insert-perm d (e ∷ es) = elim (Bool-cases (lt e d)) [
    | inl later ↦ rw later (Perm.trans (Perm.cons e (insert-perm d es)) (Perm.swap d e es))
    | inr here ↦ rw here (Perm.refl (d ∷ e ∷ es))
  ]

  pub sorted-perm : (ds : List R) → Perm (sorted ds) ds
  unfolding sorted
  sorted-perm [] = Perm.refl []
  sorted-perm (d ∷ ds) = Perm.trans (insert-perm d (sorted ds)) (Perm.cons d (sorted-perm ds))

  All-insert : (P : R → Type 0) (d : R) (es : List R) → P d → All P es → All P (insert d es)
  unfolding insert
  All-insert P d [] h hs = (h, tt)
  All-insert P d (e ∷ es) h hs = elim (Bool-cases (lt e d)) [
    | inl later ↦ rw later (hs.0, All-insert P d es h hs.1)
    | inr here ↦ rw here (h, hs)
  ]

  All-sorted : (P : R → Type 0) (ds : List R) → All P ds → All P (sorted ds)
  unfolding sorted
  All-sorted P [] hs = tt
  All-sorted P (d ∷ ds) hs = All-insert P d (sorted ds) hs.0 (All-sorted P ds hs.1)

  raise_bound :
      (d e : R) (es : List R)
      → le d e ≡ true
      → All (λ y. le e y ≡ true) es
      → All (λ y. le d y ≡ true) es
  raise_bound d e es h hs = All-imp _ _ (λ y k. f.le_trans d e y h k) es hs

  insert-IsSorted :
      (d : R) (es : List R) → IsNumber d → All IsNumber es → IsSorted es → IsSorted (insert d es)
  unfolding insert
  insert-IsSorted d [] n ns s = (tt, tt)
  insert-IsSorted d (e ∷ es) n ns s = elim (Bool-cases (lt e d)) [
    | inl later ↦ rw later (
      All-insert (λ y. le e y ≡ true) d es (f.lt→le e d later) s.0,
      insert-IsSorted d es n ns.1 s.1,
    )
    | inr here ↦
        let low : le d e ≡ true = f.not_lt→le e d ns.0 n here in
        rw here ((low, raise_bound d e es low s.0), s)
  ]

  pub sorted-IsSorted : (ds : List R) → All IsNumber ds → IsSorted (sorted ds)
  unfolding sorted
  sorted-IsSorted [] ns = tt
  sorted-IsSorted (d ∷ ds) ns =
      insert-IsSorted d (sorted ds) ns.0 (All-sorted IsNumber ds ns.1) (sorted-IsSorted ds ns.1)

  -- A valid sample is a positive number.
  pub valid_samples-All :
      (ds : List (Option R))
      → All (λ d. (is_finite d ≡ true) × (lt nought d ≡ true)) (valid_samples ds)
  unfolding valid_samples
  valid_samples-All [] = tt
  valid_samples-All (none ∷ ds) = valid_samples-All ds
  valid_samples-All (some d ∷ ds) = ground (arith, valid_samples-All ds)

  pub valid_samples-IsSorted : (ds : List (Option R)) → IsSorted (sorted (valid_samples ds))
  valid_samples-IsSorted ds =
      sorted-IsSorted (valid_samples ds)
        (All-imp _ _ (λ d h. f.finite_not_nan d h.0) _ (valid_samples-All ds))
