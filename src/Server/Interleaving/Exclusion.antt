-- ===== src/Server/Interleaving/Exclusion.antt =====
-- Which goals run at once (_execute_callback and _is_cancel_requested of
-- safety_controller_layer/safety_controller_node.py).
use rover_mind.Prelude.{
  String, ◌≡◌, ◌≢◌, refl, sym, ap, subst, ◌∙◌, ◌⊎◌, inl, inr, Bool, true, false, Option, none, some,
  List, [], ◌∷◌, str_eq, str_eq_refl, str_eq_differ, str_eq→eq, eq→str_eq, Bool-cases,
}
use rover_mind.Server.Interleaving.{
  Stage, called, tested, driving, over, Threads, moved, first_tests, advance_from, advance,
  interleave, idle, sees_cancel,
}

some-inj : {g h : String} → some g ≡ some h → g ≡ h
some-inj e = cc

-- The goals that run are at most one, the active one, and no callback stands between test and assignment.
abbrev pub IsExclusive : Threads → Type 0
IsExclusive s =
    (goal : String) → (s.stage goal ≢ tested) × (s.stage goal ≡ driving → s.active_goal ≡ some goal)

-- The next step, where there is one, is of the goal.
abbrev pub IsNext : String → List String → Type 0
IsNext goal [] = Unit
IsNext goal (h ∷ rest) = goal ≡ h

-- No other callback steps between a goal's passing of the tests and its assignment.
abbrev pub Uninterrupted : (String → Bool) → List String → Threads → Type 0
Uninterrupted negative [] s = Unit
Uninterrupted negative (goal ∷ rest) s =
    ((advance negative goal s).stage goal ≡ tested → IsNext goal rest)
    × Uninterrupted negative rest (advance negative goal s)

module _ (negative : String → Bool) (g h : String) (differ : g ≢ h) (g_fine : negative g ≡ false)
    (h_fine : negative h ≡ false) where
  -- Two goals with distances that are not negative can run at once: where both are tested before
  -- either becomes active, both enter the control loops, and both poll the cancel request of the
  -- second one only; once the second has ended, the first still runs, with no goal active, and no
  -- cancel request is seen any more.
  pub two_goals_drive :
      let s = interleave negative (g ∷ h ∷ g ∷ h ∷ []) idle in
      let later = interleave negative (h ∷ []) s in
      (s.stage g ≡ driving)
      × (s.stage h ≡ driving)
      × ((requested : String → Bool) → sees_cancel requested s ≡ requested h)
      × (later.stage g ≡ driving)
      × ((requested : String → Bool) → sees_cancel requested later ≡ false)
  unfolding interleave advance advance_from first_tests sees_cancel
  two_goals_drive =
      let gg = str_eq_refl g in
      let hh = str_eq_refl h in
      let gh = str_eq_differ g h differ in
      let hg = str_eq_differ h g (λ e. differ (sym e)) in
      (
        simp (g_fine, gh, h_fine, hg, gg, hh) refl,
        simp (g_fine, gh, h_fine, hg, gg, hh) refl,
        λ requested. simp (g_fine, gh, h_fine, hg, gg, hh) refl,
        simp (g_fine, gh, h_fine, hg, gg, hh) refl,
        λ requested. simp (g_fine, gh, h_fine, hg, gg, hh) refl,
      )

module _ (negative : String → Bool) where
  -- The callback of the goal has returned; the rest is as before.
  returned-IsExclusive :
      (goal : String) (s : Threads)
      → s.stage goal ≢ driving
      → IsExclusive s
      → IsExclusive (record s { stage = moved goal over s.stage })
  returned-IsExclusive goal s still inv other = elim (Bool-cases (str_eq goal other)) [
    | inl same ↦ rw same (λ e. absurd (cc), λ e. absurd (cc))
    | inr differ ↦ rw differ (inv other)
  ]

  entered-IsExclusive :
      (goal : String) (s : Threads)
      → s.active_goal ≡ none
      → IsExclusive s
      → IsExclusive (record {
        active_goal = some goal;
        stage = moved goal driving (moved goal tested s.stage);
      })
  entered-IsExclusive goal s free inv other = elim (Bool-cases (str_eq goal other)) [
    | inl same ↦ rw same (λ e. absurd (cc), λ e. ap some (str_eq→eq goal other same))
    | inr differ ↦
        rw differ (
          (inv other).0,
          λ e. let held : s.active_goal ≡ some other = (inv other).1 e in absurd (cc),
        )
  ]

  ended-IsExclusive :
      (goal : String) (s : Threads)
      → s.stage goal ≡ driving
      → IsExclusive s
      → IsExclusive (record { active_goal = none; stage = moved goal over s.stage })
  ended-IsExclusive goal s drives inv other = elim (Bool-cases (str_eq goal other)) [
    | inl same ↦ rw same (λ e. absurd (cc), λ e. absurd (cc))
    | inr differ ↦ rw differ (
      (inv other).0,
      λ e. absurd (
          let equal = some-inj (sym ((inv goal).1 drives) ∙ (inv other).1 e) in
          let wrong = eq→str_eq goal other equal in cc),
    )
  ]

  first_tests-cases :
      (n : Bool) (active : Option String)
      → (first_tests n active ≡ over) ⊎ ((first_tests n active ≡ tested) × (active ≡ none))
  unfolding first_tests
  first_tests-cases true active = inl refl
  first_tests-cases false (some other) = inl refl
  first_tests-cases false none = inr (refl, refl)

  -- The callback has passed the tests, and is not yet the active goal.
  abbrev HasPassed : String → Threads → Type 0
  HasPassed goal s =
      (s.active_goal ≡ none)
      × (advance negative goal s ≡ record s { stage = moved goal tested s.stage })

  step-IsExclusive :
      (goal : String) (x : Stage) (s : Threads)
      → s.stage goal ≡ x
      → IsExclusive s
      → IsExclusive (advance negative goal s) ⊎ HasPassed goal s
  unfolding advance advance_from
  step-IsExclusive goal called s at inv = elim (first_tests-cases (negative goal) s.active_goal) [
    | inl refused ↦ inl (
        subst IsExclusive (simp (at, refused) refl)
          (returned-IsExclusive goal s (λ e. absurd (cc)) inv))
    | inr (passed, free) ↦ inr (free, simp (at, passed) refl)
  ]
  step-IsExclusive goal tested s at inv = absurd ((inv goal).0 at)
  step-IsExclusive goal driving s at inv = inl (
      subst IsExclusive (λ i. advance_from negative goal (sym at i) s)
        (ended-IsExclusive goal s at inv))
  step-IsExclusive goal over s at inv =
      inl (subst IsExclusive (λ i. advance_from negative goal (sym at i) s) inv)

  -- The assignment right after the tests.
  assigned-IsExclusive :
      (goal : String) (s : Threads)
      → HasPassed goal s
      → IsExclusive s
      → IsExclusive (advance negative goal (advance negative goal s))
  unfolding advance advance_from
  assigned-IsExclusive goal s (free, passed) inv =
      subst IsExclusive (simp (passed, str_eq_refl goal) refl) (entered-IsExclusive goal s free inv)

  passed_active :
      (goal other : String) (s : Threads)
      → HasPassed goal s
      → IsExclusive s
      → (advance negative goal s).stage other ≡ driving
      → (advance negative goal s).active_goal ≡ some other
  passed_active goal other s (free, passed) inv = rw passed (elim (Bool-cases (str_eq goal other)) [
    | inl same ↦ rw same (λ e. absurd (cc))
    | inr differ ↦ rw differ (inv other).1
  ])

  passed_tested :
      (goal : String) (s : Threads)
      → HasPassed goal s
      → (advance negative goal s).stage goal ≡ tested
  passed_tested goal s (free, passed) = rw (passed, str_eq_refl goal) refl

  -- On every schedule on which no other callback steps between a goal's passing of the tests and its
  -- assignment, each goal that runs at the end is the active one, given that this holds at the start,
  -- where no callback stands between the two.
  pub interleave_active :
      (schedule : List String) (s : Threads)
      → IsExclusive s
      → Uninterrupted negative schedule s
      → (goal : String) → (interleave negative schedule s).stage goal ≡ driving
      → (interleave negative schedule s).active_goal ≡ some goal
  unfolding interleave
  interleave_active [] s inv un goal drives = (inv goal).1 drives
  interleave_active (first ∷ []) s inv un goal drives =
      elim (step-IsExclusive first (s.stage first) s refl inv) [
        | inl exclusive ↦ (exclusive goal).1 drives
        | inr passed ↦ passed_active first goal s passed inv drives
      ]
  interleave_active (first ∷ second ∷ rest) s inv (next, un) goal drives =
      elim (step-IsExclusive first (s.stage first) s refl inv) [
        | inl exclusive ↦
            interleave_active (second ∷ rest) (advance negative first s) exclusive un goal drives
        | inr passed ↦
            interleave_active rest (advance negative second (advance negative first s))
              (subst (λ h. IsExclusive (advance negative h (advance negative first s)))
                (next (passed_tested first s passed)) (assigned-IsExclusive first s passed inv))
              un.1 goal drives
      ]
