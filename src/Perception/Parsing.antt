-- ===== src/Perception/Parsing.antt =====
-- What the answer parsers accept, by the words and the names that occur in the lowered answer
-- (perception/scene_parsing.py).
use rover_mind.Prelude.{
  String, ◌≡◌, refl, ◌⊎◌, inl, inr, ◌↔◌, Bool, true, false, ◌||◌, Option, none, some, arith,
}
use rover_mind.Prelude.Text.{Unicode, codes, contains, Occurs, contains_iff}
use rover_mind.Prelude.Words.{has_word, HasWord, has_word_iff}
use rover_mind.Perception.{lowered, parse_yes_no, parse_direction, parse_distance}

-- A test that decides a statement, as the statement or its negation.
decided : {P : Type 0} (b : Bool) → ((b ≡ true) ↔ P) → ((b ≡ true) × P) ⊎ ((b ≡ false) × ¬ P)
decided true h = inl (refl, h.0 refl)
decided false h = inr (refl, λ x. cc (h.1 x))

abbrev Decided : Bool → Type 0 → Type 0
Decided b P = ((b ≡ true) × P) ⊎ ((b ≡ false) × ¬ P)

decided_or : {P Q : Type 0} (b c : Bool) → Decided b P → Decided c Q → Decided (b || c) (P ⊎ Q)
decided_or b c (inl (e, p)) h = inl (rw e refl, inl p)
decided_or b c (inr (e, np)) (inl (d, q)) = inl (rw e d, inr q)
decided_or b c (inr (e, np)) (inr (d, nq)) =
    inr (rw e d, λ s. elim s [ inl p ↦ np p | inr q ↦ nq q ])

module _ (u : Unicode) (answer : String) where
  -- The lowered answer names a text.
  abbrev pub Names : String → Type 0
  Names name = Occurs (codes name) (lowered u answer)

  abbrev named : String → Bool
  named name = contains (codes name) (lowered u answer)

  named-cases :
      (name : String) → ((named name ≡ true) × Names name) ⊎ ((named name ≡ false) × ¬ Names name)
  named-cases name = decided (named name) (contains_iff (codes name) (lowered u answer))

  -- An answer counts as a yes exactly where it has the word yes and has not the word no.
  pub parse_yes_no_iff :
      (parse_yes_no u answer ≡ true)
      ↔ (HasWord u (codes "yes") (lowered u answer) × ¬ HasWord u (codes "no") (lowered u answer))
  unfolding parse_yes_no
  parse_yes_no_iff =
      elim (decided (has_word u (codes "yes") (lowered u answer))
        (has_word_iff u (codes "yes") (lowered u answer))) [
          | inr (e, not_yes) ↦ (λ h. absurd (ground arith), λ (y, n). absurd (not_yes y))
          | inl (e, is_yes) ↦
              elim (decided (has_word u (codes "no") (lowered u answer))
                (has_word_iff u (codes "no") (lowered u answer))) [
                  | inl (d, is_no) ↦ (λ h. absurd (ground arith), λ (y, n). absurd (n is_no))
                  | inr (d, not_no) ↦ (λ h. (is_yes, not_no), λ h. ground arith)
                ]
        ]

  abbrev pub NamesCenter : Type 0
  NamesCenter = Names "center" ⊎ (Names "centre" ⊎ Names "middle")

  center-cases : Decided (named "center" || (named "centre" || named "middle")) NamesCenter
  center-cases =
      decided_or _ _ (named-cases "center")
        (decided_or _ _ (named-cases "centre") (named-cases "middle"))

  abbrev pub IsDirection : Option String → Type 0
  IsDirection d =
      ((d ≡ some "center") × NamesCenter)
      ⊎ (((d ≡ some "left") × (¬ NamesCenter) × Names "left" × (¬ Names "right"))
          ⊎ (((d ≡ some "right") × (¬ NamesCenter) × (¬ Names "left") × Names "right")
              ⊎ ((d ≡ none)
                  × (¬ NamesCenter)
                  × ((Names "left" × Names "right") ⊎ ((¬ Names "left") × (¬ Names "right"))))))

  -- The direction is the center where one of its three names occurs; else it is the one side that
  -- is named; and it is unknown where both sides are named or none.
  pub parse_direction-IsDirection : IsDirection (parse_direction u answer)
  unfolding parse_direction
  parse_direction-IsDirection = elim center-cases [
    | inl (e, c) ↦ inl (ground arith, c)
    | inr (e, nc) ↦ elim (named-cases "left") [
      | inl (l, is_left) ↦ elim (named-cases "right") [
        | inl (r, is_right) ↦ inr (inr (inr (ground arith, nc, inl (is_left, is_right))))
        | inr (r, not_right) ↦ inr (inl (ground arith, nc, is_left, not_right))
      ]
      | inr (l, not_left) ↦ elim (named-cases "right") [
        | inl (r, is_right) ↦ inr (inr (inl (ground arith, nc, not_left, is_right)))
        | inr (r, not_right) ↦ inr (inr (inr (ground arith, nc, inr (not_left, not_right))))
      ]
    ]
  ]

  abbrev pub NamesClose : Type 0
  NamesClose = Names "close" ⊎ Names "near"

  abbrev pub NamesMedium : Type 0
  NamesMedium = Names "medium" ⊎ Names "moderate"

  abbrev pub NamesFar : Type 0
  NamesFar = Names "far" ⊎ Names "distant"

  abbrev pub IsDistance : Option String → Type 0
  IsDistance d =
      ((d ≡ some "close") × NamesClose × (¬ NamesMedium) × (¬ NamesFar))
      ⊎ (((d ≡ some "medium") × (¬ NamesClose) × NamesMedium × (¬ NamesFar))
          ⊎ (((d ≡ some "far") × (¬ NamesClose) × (¬ NamesMedium) × NamesFar)
              ⊎ ((d ≡ none)
                  × ((NamesClose × NamesMedium)
                      ⊎ ((NamesClose × NamesFar)
                          ⊎ ((NamesMedium × NamesFar)
                              ⊎ ((¬ NamesClose) × (¬ NamesMedium) × (¬ NamesFar))))))))

  -- The distance is the one bucket that the answer names, by its name or its synonym; it is unknown
  -- where two buckets are named or none.
  pub parse_distance-IsDistance : IsDistance (parse_distance u answer)
  unfolding parse_distance
  parse_distance-IsDistance = elim (decided_or _ _ (named-cases "close") (named-cases "near")) [
    | inl (a, c) ↦ elim (decided_or _ _ (named-cases "medium") (named-cases "moderate")) [
      | inl (b, m) ↦ inr (inr (inr (ground arith, inl (c, m))))
      | inr (b, nm) ↦ elim (decided_or _ _ (named-cases "far") (named-cases "distant")) [
        | inl (d, f) ↦ inr (inr (inr (ground arith, inr (inl (c, f)))))
        | inr (d, nf) ↦ inl (ground arith, c, nm, nf)
      ]
    ]
    | inr (a, nc) ↦ elim (decided_or _ _ (named-cases "medium") (named-cases "moderate")) [
      | inl (b, m) ↦ elim (decided_or _ _ (named-cases "far") (named-cases "distant")) [
        | inl (d, f) ↦ inr (inr (inr (ground arith, inr (inr (inl (m, f))))))
        | inr (d, nf) ↦ inr (inl (ground arith, nc, m, nf))
      ]
      | inr (b, nm) ↦ elim (decided_or _ _ (named-cases "far") (named-cases "distant")) [
        | inl (d, f) ↦ inr (inr (inl (ground arith, nc, nm, f)))
        | inr (d, nf) ↦ inr (inr (inr (ground arith, inr (inr (inr (nc, nm, nf))))))
      ]
    ]
  ]
