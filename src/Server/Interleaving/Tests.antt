-- ===== src/Server/Interleaving/Tests.antt =====
-- Two goals whose callbacks interleave.
use rover_mind.Prelude.{some, String, ◌≡◌, ◌≢◌, refl, Bool, false, List, [], ◌∷◌, eq→str_eq}
use rover_mind.Server.Interleaving.{advance, driving, over, interleave, idle, sees_cancel}
use rover_mind.Server.Interleaving.Exclusion.{
  IsExclusive, Uninterrupted, two_goals_drive, interleave_active,
}

abbrev none_negative : String → Bool
none_negative goal = false

differ : ◌≢◌ {A = String} "first" "second"
differ e = let same = eq→str_eq "first" "second" e in absurd (cc)

-- One after the other, the second goal is refused.
second_refused :
    (interleave none_negative ("first" ∷ "first" ∷ "second" ∷ []) idle).stage "second" ≡ over
unfolding interleave
second_refused = refl

two_goals_drive_example :
    let s = interleave none_negative ("first" ∷ "second" ∷ "first" ∷ "second" ∷ []) idle in
    let later = interleave none_negative ("second" ∷ []) s in
    (s.stage "first" ≡ driving)
    × (s.stage "second" ≡ driving)
    × ((requested : String → Bool) → sees_cancel requested s ≡ requested "second")
    × (later.stage "first" ≡ driving)
    × ((requested : String → Bool) → sees_cancel requested later ≡ false)
two_goals_drive_example = two_goals_drive none_negative "first" "second" differ refl refl

idle-IsExclusive : IsExclusive idle
idle-IsExclusive goal = (λ e. absurd (cc), λ e. absurd (cc))

-- The first goal runs while the second one is refused.
abbrev schedule : List String
schedule = "first" ∷ "first" ∷ "second" ∷ []

schedule-Uninterrupted : Uninterrupted none_negative schedule idle
unfolding advance
schedule-Uninterrupted = (λ e. refl, (λ e. absurd (cc), (λ e. absurd (cc), tt)))

interleave_active_example : (interleave none_negative schedule idle).active_goal ≡ some "first"
unfolding interleave
interleave_active_example =
    interleave_active none_negative schedule idle idle-IsExclusive schedule-Uninterrupted "first"
      refl
