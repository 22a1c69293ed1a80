-- ===== src/Agent/Target.antt =====
-- The target of a task (extract_target of agent/state.py): its regular expression as a matcher with
-- backtracking, that gives what is left of the text after each match, in the order in which the
-- library tries them. Texts are code points.
pub mod Stripping
pub mod Piece
mod Tests
use rover_mind.Prelude.{
  ℕ, String, Bool, true, false, ◌&&◌, ◌||◌, ◌==◌, Option, none, some, List, [], ◌∷◌, ◌++◌,
  if◌then◌else◌,
}
use rover_mind.Prelude.Text.{codes}

-- What Python's tables answer: `str.isspace`, which `\s` matches too, and whether a character matches
-- a letter under re.IGNORECASE.
pub record Tables : Type 0 where
  pub is_space : ℕ → Bool
  pub same_letter : ℕ → ℕ → Bool

-- `[.!?]`
abbrev pub is_mark : ℕ → Bool
is_mark c = c == 46 || (c == 33 || c == 63)

-- `text.rstrip(chars)` and `text.lstrip(chars)`
unfoldable pub kept_end : (ℕ → Bool) → ℕ → List ℕ → List ℕ
kept_end strips c [] = if strips c then [] else c ∷ []
kept_end strips c (x ∷ xs) = c ∷ x ∷ xs

unfoldable pub rstrip : (ℕ → Bool) → List ℕ → List ℕ
unfolding kept_end
rstrip strips [] = []
rstrip strips (c ∷ s) = kept_end strips c (rstrip strips s)

unfoldable pub lstrip : (ℕ → Bool) → List ℕ → List ℕ
lstrip strips [] = []
lstrip strips (c ∷ s) = let later = lstrip strips s in if strips c then later else c ∷ s

unfoldable pub strip : (ℕ → Bool) → List ℕ → List ℕ
unfolding rstrip lstrip
strip strips s = rstrip strips (lstrip strips s)

-- What the second part leaves after each match of the first one.
unfoldable pub each : List (List ℕ) → (List ℕ → List (List ℕ)) → List (List ℕ)
each [] next = []
each (r ∷ rests) next = next r ++ each rests next

-- `[.!?]*$`, where `$` matches before a last newline too.
unfoldable pub marks_end : List ℕ → Bool
marks_end [] = true
marks_end (c ∷ []) = is_mark c || c == 10
marks_end (c ∷ d ∷ s) = let later = marks_end (d ∷ s) in is_mark c && later

-- One character more in the group.
abbrev pub longer : ℕ → Option (List ℕ) → Option (List ℕ)
longer c none = none
longer c (some g) = some (c ∷ g)

-- The first match that there is.
abbrev pub or_else : Option (List ℕ) → Option (List ℕ) → Option (List ℕ)
or_else none later = later
or_else (some g) later = some g

module _ (tables : Tables) where
  open tables use {is_space, same_letter}

  -- The letters of a word.
  unfoldable pub letters : List ℕ → List ℕ → List (List ℕ)
  letters [] s = s ∷ []
  letters (l ∷ word) [] = []
  letters (l ∷ word) (c ∷ s) = let later = letters word s in if same_letter l c then later else []

  -- `\s+`, which takes as much as it can.
  unfoldable pub blanks : List ℕ → List (List ℕ)
  blanks [] = []
  blanks (c ∷ s) = let later = blanks s in if is_space c then later ++ (s ∷ []) else []

  -- A verb with `\s+to`
  unfoldable pub verb_to : String → List ℕ → List (List ℕ)
  unfolding each letters blanks
  verb_to verb s = each (each (letters (codes verb) s) blanks) (letters (codes "to"))

  -- The alternatives of the first group.
  unfoldable pub verbs : List ℕ → List (List ℕ)
  unfolding verb_to letters
  verbs s =
      verb_to "drive" s
      ++ (verb_to "go" s
          ++ (verb_to "navigate" s
              ++ (verb_to "move" s
                  ++ (verb_to "get" s
                      ++ (letters (codes "approach") s
                          ++ (letters (codes "find") s ++ letters (codes "locate") s))))))

  -- `(?:the\s+)?`
  unfoldable pub article : List ℕ → List (List ℕ)
  unfolding each letters blanks
  article s = each (letters (codes "the") s) blanks ++ (s ∷ [])

  -- `\s*[.!?]*$`
  unfoldable pub tail_ends : List ℕ → Bool
  unfolding marks_end
  tail_ends [] = true
  tail_ends (c ∷ s) = let later = tail_ends s in marks_end (c ∷ s) || (is_space c && later)

  -- `(.+?)` before that tail, which takes as little as it can; `.` matches no newline.
  unfoldable pub target_group : List ℕ → Option (List ℕ)
  unfolding tail_ends
  target_group [] = none
  target_group (c ∷ s) =
      let later = target_group s in
      if c == 10 then none else if tail_ends s then some (c ∷ []) else longer c later

  unfoldable pub first_group : List (List ℕ) → Option (List ℕ)
  unfolding target_group
  first_group [] = none
  first_group (r ∷ rests) = let later = first_group rests in or_else (target_group r) later

  -- `_TARGET_PATTERN.match`, with its group.
  unfoldable pub matched : List ℕ → Option (List ℕ)
  unfolding each verbs blanks article first_group
  matched s = first_group (each (each (verbs s) blanks) article)

  -- The branch on the match.
  unfoldable pub target_or : List ℕ → Option (List ℕ) → List ℕ
  unfolding strip rstrip
  target_or stripped none = rstrip is_mark stripped
  target_or stripped (some group) = rstrip is_mark (strip is_space group)

  unfoldable pub extract_target : List ℕ → List ℕ
  unfolding matched strip target_or
  extract_target task = let stripped = strip is_space task in target_or stripped (matched stripped)
