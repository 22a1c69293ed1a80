-- ===== src/Prelude/Show.antt =====
-- `str(n)` of an integer.
use Prim.Native.Nat.{ℕ, zero, suc, ◌/◌, ◌%◌}
use Prim.Native.String.{String, ◌++◌}
use mathlib.Core.Option.{none, some}
use mathlib.Core.List.{[], ◌∷◌}
use rover_mind.Prelude.Lists.{get_elem?}
use rover_mind.Prelude.Int.{ℤ, pos, negsuc}
use rover_mind.Prelude.Tests.{ltb, if◌then◌else◌}

abbrev digit : ℕ → String
digit n =
    let names = "0" ∷ "1" ∷ "2" ∷ "3" ∷ "4" ∷ "5" ∷ "6" ∷ "7" ∷ "8" ∷ "9" ∷ [] in
    elim (get_elem? names n) [ none ↦ "" | some s ↦ s ]

-- A number has no more digits than one and itself.
abbrev digits : ℕ → ℕ → String
digits zero n = ""
digits (suc fuel) n =
    let rest = digits fuel (n / 10) in if ltb n 10 then digit n else rest ++ digit (n % 10)

abbrev pub show : ℤ → String
show (pos n) = digits (suc n) n
show (negsuc n) = "-" ++ digits (suc (suc n)) (suc n)
