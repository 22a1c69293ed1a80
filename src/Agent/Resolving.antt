-- ===== src/Agent/Resolving.antt =====
-- The commands that the movement tools resolve to (agent/action_resolvers.py), and the local check of
-- a command (validate_command of agent/command_executor.py).
use rover_mind.Prelude.{
  String, ◌≡◌, refl, ◌⊎◌, inl, inr, ◌↔◌, true, false, arith, Bool-cases, str_eq,
}
use rover_mind.Prelude.Io.{Result, ok, err}
use rover_mind.Prelude.Text.{Unicode}
use rover_mind.Float.{Float, nought}
use rover_mind.Agent.{
  ActionParams, turn_degrees, signed_turn, forward_meters, validate_command, value_error,
}

module _ {R : Type 0} ⦃f : Float R⦄ where
  open f use {neg, lt, is_finite}

  -- A heading of the turn tool: the small or the large turn, to the left or to the right.
  abbrev pub IsTurn : ActionParams R → R → Type 0
  IsTurn p d =
      ((d ≡ p.turn_small_deg) ⊎ (d ≡ neg p.turn_small_deg))
      ⊎ ((d ≡ p.turn_large_deg) ⊎ (d ≡ neg p.turn_large_deg))

  -- The commands of the three movement tools: a turn in place, a drive straight on, or the search turn.
  abbrev pub IsCommand : ActionParams R → R → R → Type 0
  IsCommand p heading_deg distance_m =
      (IsTurn p heading_deg × (distance_m ≡ nought))
      ⊎ (((heading_deg ≡ nought)
            × ((distance_m ≡ p.forward_short_m) ⊎ (distance_m ≡ p.forward_medium_m)))
          ⊎ ((heading_deg ≡ p.search_deg) × (distance_m ≡ nought)))

  -- What a resolver returns has the property.
  abbrev pub Gives : (R → Type 0) → Result R → Type 0
  Gives P (ok a) = P a
  Gives P (err e) = Unit

  signed_turn-Gives :
      (u : Unicode) (direction : String) (mag : R)
      → Gives (λ d. (d ≡ mag) ⊎ (d ≡ neg mag)) (signed_turn u direction mag)
  unfolding signed_turn value_error
  signed_turn-Gives u direction mag = elim (Bool-cases (str_eq direction "left")) [
    | inl l ↦ rw l (inl refl)
    | inr l ↦ elim (Bool-cases (str_eq direction "right")) [
      | inl r ↦ rw (l, r) (inr refl)
      | inr r ↦ rw (l, r) tt
    ]
  ]

  Gives-imp : (P Q : R → Type 0) (r : Result R) → ((d : R) → P d → Q d) → Gives P r → Gives Q r
  Gives-imp P Q (ok a) h p = h a p
  Gives-imp P Q (err e) h p = tt

  pub turn_degrees-Gives :
      (u : Unicode) (direction magnitude : String) (p : ActionParams R)
      → Gives (IsTurn p) (turn_degrees u direction magnitude p)
  unfolding turn_degrees value_error
  turn_degrees-Gives u direction magnitude p = elim (Bool-cases (str_eq magnitude "small")) [
    | inl s ↦
        rw s
          (Gives-imp _ (IsTurn p) _ (λ d h. inl h) (signed_turn-Gives u direction p.turn_small_deg))
    | inr s ↦ elim (Bool-cases (str_eq magnitude "large")) [
      | inl l ↦
          rw (s, l)
            (Gives-imp _ (IsTurn p) _ (λ d h. inr h)
              (signed_turn-Gives u direction p.turn_large_deg))
      | inr l ↦ rw (s, l) tt
    ]
  ]

  pub forward_meters-Gives :
      (u : Unicode) (distance : String) (p : ActionParams R)
      → Gives
          (λ m. (m ≡ p.forward_short_m) ⊎ (m ≡ p.forward_medium_m))
          (forward_meters u distance p)
  unfolding forward_meters value_error
  forward_meters-Gives u distance p = elim (Bool-cases (str_eq distance "short")) [
    | inl s ↦ rw s (inl refl)
    | inr s ↦ elim (Bool-cases (str_eq distance "medium")) [
      | inl m ↦ rw (s, m) (inr refl)
      | inr m ↦ rw (s, m) tt
    ]
  ]

  -- The local check lets a command through exactly where both numbers are finite and the distance is
  -- not negative.
  pub validate_command_iff :
      (heading_deg distance_m : R)
      → (validate_command heading_deg distance_m ≡ ok tt) ↔ (
          (is_finite heading_deg ≡ true)
          × (is_finite distance_m ≡ true)
          × (lt distance_m nought ≡ false))
  unfolding validate_command value_error
  validate_command_iff heading_deg distance_m = elim (Bool-cases (is_finite heading_deg)) [
    | inr h ↦ (λ e. ground arith, λ e. ground arith)
    | inl h ↦ elim (Bool-cases (is_finite distance_m)) [
      | inr d ↦ (λ e. ground arith, λ e. ground arith)
      | inl d ↦ elim (Bool-cases (lt distance_m nought)) [
        | inl l ↦ (λ e. ground arith, λ e. ground arith)
        | inr l ↦ (λ e. (h, d, l), λ e. ground arith)
      ]
    ]
  ]
