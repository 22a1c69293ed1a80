-- ===== src/Aeb/Hysteresis.antt =====
-- The brake's hysteresis over any sequence of readings (`BrakeStateMachine` of aeb_math.py).
use rover_mind.Prelude.{
  ◌≡◌, refl, ◌⊎◌, inl, inr, true, false, some, none, Option-cases, Bool-cases, List, [], ◌∷◌, ◌++◌,
  arith, All,
}
use rover_mind.Float.{Float}
use rover_mind.Aeb.{AebParams, Brake, accepted, released, update}

module _ {R : Type 0} ⦃f : Float R⦄ (p : AebParams R) where
  open f use {lt, le, sub, lit, is_nan}

  -- The state after a sequence of calls `update(min_range, now)`, the newest call first.
  unfoldable pub after : List (R × R) → Brake R
  after [] = released
  after ((r, now) ∷ past) = update p (after past) r now

  -- Every reading back to one that was taken at `t` lay beyond the release distance.
  abbrev pub ClearSince : R → List (R × R) → Type 0
  ClearSince t [] = ⊥
  ClearSince t ((r, now) ∷ past) =
      (lt p.release_distance_m r ≡ true) × ((now ≡ t) ⊎ ClearSince t past)

  -- Off the brake no clear stretch is being timed.
  pub update-idle :
      (s : Brake R) (r now : R)
      → (s.braking ≡ false → s.clear_since ≡ none)
      → (update p s r now).braking ≡ false
      → (update p s r now).clear_since ≡ none
  unfolding update
  update-idle s r now idle h = ground arith

  after-idle :
      (past : List (R × R)) → (after past).braking ≡ false → (after past).clear_since ≡ none
  unfolding after
  after-idle [] h = refl
  after-idle ((r, now) ∷ past) h = update-idle (after past) r now (after-idle past) h

  -- The recorded start of the clear stretch is true to the history.
  clear_since-ClearSince :
      (past : List (R × R)) (t : R) → (after past).clear_since ≡ some t → ClearSince t past
  unfolding after update
  clear_since-ClearSince [] t h = cc
  clear_since-ClearSince ((r, now) ∷ past) t h =
      ground (arith, clear_since-ClearSince past t, after-idle past)

  -- The brake lets go only at a reading beyond the release distance that ends a stretch of such
  -- readings, and the stretch has lasted for the dwell time, up to the tolerance of 1e-9.
  pub release_needs_dwell :
      (past : List (R × R)) (r now : R)
      → (after past).braking ≡ true
      → (after ((r, now) ∷ past)).braking ≡ false
      → (t : R) × (ClearSince t past)
        × (lt p.release_distance_m r ≡ true)
        × (le (sub p.release_dwell_s (lit 1 9)) (sub now t) ≡ true)
  unfolding after update
  release_needs_dwell past r now b h = elim (Option-cases (after past).clear_since) [
    | inl untimed ↦ absurd (ground arith)
    | inr (t, timed) ↦ (t, clear_since-ClearSince past t timed, ground arith, ground arith)
  ]

  -- Braking at a stretch of readings beyond the release distance that began at t, or off already.
  abbrev IsTimed : R → Brake R → Type 0
  IsTimed t s = ((s.braking ≡ true) × (s.clear_since ≡ some t)) ⊎ (s.braking ≡ false)

  abbrev pub IsClear : R × R → Type 0
  IsClear reading = lt p.release_distance_m reading.0 ≡ true

  -- A reading beyond the release distance is not within the trigger distance.
  clear_not_near :
      (r : R)
      → accepted p ≡ true
      → is_nan p.release_distance_m ≡ false
      → is_nan p.trigger_distance_m ≡ false
      → lt p.release_distance_m r ≡ true
      → lt r p.trigger_distance_m ≡ false
  unfolding accepted
  clear_not_near r a n m c =
      let apart : lt p.trigger_distance_m p.release_distance_m ≡ true =
        ground (arith, f.not_lt→le p.trigger_distance_m p.release_distance_m m n) in
      f.le→not_lt p.trigger_distance_m r
        (f.lt→le _ _ (f.lt-le_trans _ _ _ apart (f.lt→le p.release_distance_m r c)))

  module _ (valid : accepted p ≡ true) (n : is_nan p.release_distance_m ≡ false)
      (m : is_nan p.trigger_distance_m ≡ false) where
    update-IsTimed :
        (t : R) (s : Brake R) (r now : R)
        → lt p.release_distance_m r ≡ true
        → IsTimed t s
        → IsTimed t (update p s r now)
    unfolding update
    update-IsTimed t s r now c h = ground (arith, clear_not_near r valid n m c)

    begin-IsTimed :
        (s : Brake R) (r now : R)
        → lt p.release_distance_m r ≡ true
        → s.clear_since ≡ none
        → IsTimed now (update p s r now)
    unfolding update
    begin-IsTimed s r now c h = elim (Bool-cases s.braking) [
      | inl on ↦ ground (arith, clear_not_near r valid n m c)
      | inr off ↦ ground (arith, clear_not_near r valid n m c)
    ]

    after-IsTimed :
        (past clear : List (R × R)) (r_0 t : R)
        → (after past).clear_since ≡ none
        → lt p.release_distance_m r_0 ≡ true
        → All IsClear clear
        → IsTimed t (after (clear ++ (r_0, t) ∷ past))
    unfolding after
    after-IsTimed past [] r_0 t h c cs = begin-IsTimed (after past) r_0 t c h
    after-IsTimed past ((r, now) ∷ clear) r_0 t h c cs =
        update-IsTimed t _ r now cs.0 (after-IsTimed past clear r_0 t h c cs.1)

    finish_dwell :
        (t : R) (s : Brake R) (r now : R)
        → IsTimed t s
        → lt p.release_distance_m r ≡ true
        → le (sub p.release_dwell_s (lit 1 9)) (sub now t) ≡ true
        → (update p s r now).braking ≡ false
    unfolding update
    finish_dwell t s r now h c long = ground (arith, clear_not_near r valid n m c)

    -- The brake does let go: from any history in which no clear stretch is being timed, readings
    -- that all lie beyond the release distance leave it off once the last of them comes the dwell
    -- time, less 1e-9, after the first.
    pub release_after_dwell :
        (past clear : List (R × R)) (r_0 t r now : R)
        → (after past).clear_since ≡ none
        → lt p.release_distance_m r_0 ≡ true
        → All IsClear clear
        → lt p.release_distance_m r ≡ true
        → le (sub p.release_dwell_s (lit 1 9)) (sub now t) ≡ true
        → (after ((r, now) ∷ clear ++ (r_0, t) ∷ past)).braking ≡ false
    unfolding after
    release_after_dwell past clear r_0 t r now h c_0 cs c long =
        finish_dwell t _ r now (after-IsTimed past clear r_0 t h c_0 cs) c long
