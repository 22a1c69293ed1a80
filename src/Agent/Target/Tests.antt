-- ===== src/Agent/Target/Tests.antt =====
-- The phrases of the unit tests, and a task of marks alone.
use rover_mind.Prelude.{ℕ, ◌+◌, ◌≡◌, refl, ◌&&◌, ◌||◌, ◌==◌, leb, [], if◌then◌else◌}
use rover_mind.Prelude.Text.{codes}
use rover_mind.Agent.Target.{Tables, extract_target}
use rover_mind.Agent.Target.Piece.{IsTarget, extract_target-IsTarget}

abbrev small : ℕ → ℕ
small c = if leb 65 c && leb c 90 then c + 32 else c

abbrev ascii : Tables
ascii = record {
  is_space = λ c. c == 32 || (leb 9 c && leb c 13);
  same_letter = λ l c. l == small c;
}

drives : extract_target ascii (codes "Drive  To The Backpack .") ≡ codes "Backpack"
unfolding extract_target
drives = refl

keeps_article : extract_target ascii (codes "find the") ≡ codes "the"
unfolding extract_target
keeps_article = refl

falls_back : extract_target ascii (codes " the green book please! ") ≡ codes "the green book please"
unfolding extract_target
falls_back = refl

-- Nothing is left of a task whose target is a mark.
leaves_nothing : extract_target ascii (codes "find ?") ≡ []
unfolding extract_target
leaves_nothing = refl

extract_target-IsTarget_example :
    IsTarget ascii
      (codes "find the U.S. flag.")
      (extract_target ascii (codes "find the U.S. flag."))
extract_target-IsTarget_example = extract_target-IsTarget ascii (codes "find the U.S. flag.")
