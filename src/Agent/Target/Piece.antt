-- ===== src/Agent/Target/Piece.antt =====
-- Where the target of a task comes from (extract_target of agent/state.py).
use rover_mind.Prelude.{
  ℕ, String, ◌≡◌, refl, ap, ◌∙◌, inl, inr, Bool, true, ◌==◌, ◌||◌, Option, none, some, List, [],
  ◌∷◌, ◌++◌, arith, All, All-append, All-imp, get_last?, Bool-cases,
}
use rover_mind.Prelude.Text.{codes}
use rover_mind.Agent.Target.Stripping.{
  IsEnd, Only, IsPiece, NotLast, IsEnd-trans, Only-imp, IsPiece-end, IsPiece-trans, rstrip-Kept,
  strip-IsPiece,
}
use rover_mind.Agent.Target.{
  Tables, is_mark, longer, or_else, target_or, rstrip, strip, each, letters, blanks, verb_to, verbs,
  article, marks_end, tail_ends, target_group, first_group, matched, extract_target,
}

each-All :
    (P : List ℕ → Type 0) (rests : List (List ℕ)) (next : List ℕ → List (List ℕ))
    → All P rests
    → ((r : List ℕ) → P r → All P (next r))
    → All P (each rests next)
unfolding each
each-All P [] next hs h = tt
each-All P (r ∷ rests) next (p, hs) h =
    All-append P (next r) (each rests next) (h r p) (each-All P rests next hs h)

-- A matcher that leaves an end of its text.
abbrev LeavesEnds : (List ℕ → List (List ℕ)) → Type 0
LeavesEnds m = (s : List ℕ) → All (IsEnd s) (m s)

each-LeavesEnds :
    (m n : List ℕ → List (List ℕ)) → LeavesEnds m → LeavesEnds n → LeavesEnds (λ s. each (m s) n)
each-LeavesEnds m n hm hn s =
    each-All (IsEnd s) (m s) n (hm s)
      (λ r e. All-imp (IsEnd r) (IsEnd s) (λ t h. IsEnd-trans s r t e h) (n r) (hn r))

append-LeavesEnds :
    (m n : List ℕ → List (List ℕ)) → LeavesEnds m → LeavesEnds n → LeavesEnds (λ s. m s ++ n s)
append-LeavesEnds m n hm hn s = All-append (IsEnd s) (m s) (n s) (hm s) (hn s)

later-All :
    (c : ℕ) (s : List ℕ) (rests : List (List ℕ)) → All (IsEnd s) rests → All (IsEnd (c ∷ s)) rests
later-All c s rests hs =
    All-imp (IsEnd s) (IsEnd (c ∷ s)) (λ t h. IsEnd-trans (c ∷ s) s t (c ∷ [], refl) h) rests hs

module _ (tables : Tables) where
  letters-LeavesEnds : (word : List ℕ) → LeavesEnds (letters tables word)
  unfolding letters
  letters-LeavesEnds [] s = (([], refl), tt)
  letters-LeavesEnds (l ∷ word) [] = tt
  letters-LeavesEnds (l ∷ word) (c ∷ s) = elim (Bool-cases (tables.same_letter l c)) [
    | inl same ↦ rw same (later-All c s (letters tables word s) (letters-LeavesEnds word s))
    | inr differ ↦ rw differ tt
  ]

  blanks-LeavesEnds : LeavesEnds (blanks tables)
  unfolding blanks
  blanks-LeavesEnds [] = tt
  blanks-LeavesEnds (c ∷ s) = elim (Bool-cases (tables.is_space c)) [
    | inl space ↦ rw space (
        All-append (IsEnd (c ∷ s)) (blanks tables s) (s ∷ [])
          (later-All c s (blanks tables s) (blanks-LeavesEnds s)) ((c ∷ [], refl), tt))
    | inr other ↦ rw other tt
  ]

  verb_to-LeavesEnds : (verb : String) → LeavesEnds (verb_to tables verb)
  unfolding verb_to
  verb_to-LeavesEnds verb =
      each-LeavesEnds (λ s. each (letters tables (codes verb) s) (blanks tables))
        (letters tables (codes "to"))
        (each-LeavesEnds (letters tables (codes verb)) (blanks tables)
          (letters-LeavesEnds (codes verb)) blanks-LeavesEnds)
        (letters-LeavesEnds (codes "to"))

  article-LeavesEnds : LeavesEnds (article tables)
  unfolding article
  article-LeavesEnds =
      append-LeavesEnds (λ s. each (letters tables (codes "the") s) (blanks tables)) (λ s. s ∷ [])
        (each-LeavesEnds (letters tables (codes "the")) (blanks tables)
          (letters-LeavesEnds (codes "the")) blanks-LeavesEnds)
        (λ s. (([], refl), tt))

  verbs-LeavesEnds : LeavesEnds (verbs tables)
  unfolding verbs
  verbs-LeavesEnds s =
      let all = All-append (IsEnd s) in
      all _ _ (verb_to-LeavesEnds "drive" s) (
        all _ _ (verb_to-LeavesEnds "go" s) (
          all _ _ (verb_to-LeavesEnds "navigate" s) (
            all _ _ (verb_to-LeavesEnds "move" s) (
              all _ _ (verb_to-LeavesEnds "get" s) (
                all _ _ (letters-LeavesEnds (codes "approach") s) (
                  all _ _ (letters-LeavesEnds (codes "find") s)
                    (letters-LeavesEnds (codes "locate") s)))))))

  -- A blank, a mark or a newline.
  abbrev pub is_trailing : ℕ → Bool
  is_trailing c = tables.is_space c || (is_mark c || c == 10)

  marks_end-Only : (s : List ℕ) → marks_end s ≡ true → Only is_trailing s
  unfolding marks_end
  marks_end-Only [] e = tt
  marks_end-Only (c ∷ []) e = (ground arith, tt)
  marks_end-Only (c ∷ d ∷ s) e = (ground arith, marks_end-Only (d ∷ s) (ground arith))

  tail_ends-Only : (s : List ℕ) → tail_ends tables s ≡ true → Only is_trailing s
  unfolding tail_ends
  tail_ends-Only [] e = tt
  tail_ends-Only (c ∷ s) e = elim (Bool-cases (marks_end (c ∷ s))) [
    | inl marks ↦ marks_end-Only (c ∷ s) marks
    | inr other ↦ (ground arith, tail_ends-Only s (ground arith))
  ]

  -- The text goes on after its front with blanks, marks and newlines only.
  abbrev IsFront : List ℕ → List ℕ → Type 0
  IsFront s g = (after : List ℕ) × (s ≡ g ++ after) × Only is_trailing after

  longer-IsFront :
      (c : ℕ) (s g : List ℕ) (o : Option (List ℕ))
      → ((h : List ℕ) → o ≡ some h → IsFront s h)
      → longer c o ≡ some g
      → IsFront (c ∷ s) g
  longer-IsFront c s g none ih e = absurd (cc)
  longer-IsFront c s g (some h) ih e =
      let (after, front, only) = ih h refl in
      let same : c ∷ h ≡ g = cc in
      (after, ap (λ (l : List ℕ). c ∷ l) front ∙ ap (λ (l : List ℕ). l ++ after) same, only)

  target_group-IsFront : (s g : List ℕ) → target_group tables s ≡ some g → IsFront s g
  unfolding target_group
  target_group-IsFront [] g e = absurd (cc)
  target_group-IsFront (c ∷ s) g e = elim (Bool-cases (c == 10)) [
    | inl newline ↦ absurd (let wrong = rw newline at e in cc)
    | inr other ↦ elim (Bool-cases (tail_ends tables s)) [
      | inl ends ↦
          let single : some (c ∷ []) ≡ some g = rw (other, ends) at e in
          let same : c ∷ [] ≡ g = cc in (s, ap (λ (l : List ℕ). l ++ s) same, tail_ends-Only s ends)
      | inr goes_on ↦
          longer-IsFront c s g (target_group tables s) (target_group-IsFront s)
            (rw (other, goes_on) at e)
    ]
  ]

  -- A group is a piece of the text that one of the rests ends.
  or_else-IsPiece :
      (s r g : List ℕ) (o later : Option (List ℕ))
      → IsEnd s r
      → target_group tables r ≡ o
      → (later ≡ some g → IsPiece is_trailing s g)
      → or_else o later ≡ some g
      → IsPiece is_trailing s g
  or_else-IsPiece s r g none later end at h e = h e
  or_else-IsPiece s r g (some x) later end at h e =
      let (after, front, only) = target_group-IsFront r g (at ∙ e) in
      IsPiece-end is_trailing s r g end ([], after, front, only)

  first_group-IsPiece :
      (s g : List ℕ) (rests : List (List ℕ))
      → All (IsEnd s) rests
      → first_group tables rests ≡ some g
      → IsPiece is_trailing s g
  unfolding first_group
  first_group-IsPiece s g [] hs e = absurd (cc)
  first_group-IsPiece s g (r ∷ rests) (end, hs) e =
      or_else-IsPiece s r g (target_group tables r) (first_group tables rests) end refl
        (first_group-IsPiece s g rests hs) e

  matched-IsPiece : (s g : List ℕ) → matched tables s ≡ some g → IsPiece is_trailing s g
  unfolding matched
  matched-IsPiece s g e =
      first_group-IsPiece s g (each (each (verbs tables s) (blanks tables)) (article tables))
        (each-LeavesEnds (λ t. each (verbs tables t) (blanks tables)) (article tables)
          (each-LeavesEnds (verbs tables) (blanks tables) verbs-LeavesEnds blanks-LeavesEnds)
          article-LeavesEnds s)
        e

  -- The text is a piece of the task, with no mark at its end, and only blanks, marks and newlines come
  -- after it.
  abbrev pub IsTarget : List ℕ → List ℕ → Type 0
  IsTarget task target = IsPiece is_trailing task target × NotLast is_mark (get_last? target)

  rstrip-IsTarget : (s : List ℕ) → IsTarget s (rstrip is_mark s)
  rstrip-IsTarget s =
      let (after, e, only, last) = rstrip-Kept is_mark s in
      (([], after, e, Only-imp is_mark is_trailing after (λ c marked. ground arith) only), last)

  stripped-IsPiece : (s : List ℕ) → IsPiece is_trailing s (strip tables.is_space s)
  stripped-IsPiece s =
      let (before, after, e, only) = strip-IsPiece tables.is_space s in
      (before, after, e, Only-imp tables.is_space is_trailing after (λ c space. ground arith) only)

  target_or-IsTarget :
      (s : List ℕ) (o : Option (List ℕ)) → matched tables s ≡ o → IsTarget s (target_or tables s o)
  unfolding target_or
  target_or-IsTarget s none e = rstrip-IsTarget s
  target_or-IsTarget s (some group) e =
      let inner = strip tables.is_space group in
      let (piece, last) = rstrip-IsTarget inner in
      (
        IsPiece-trans is_trailing s group (rstrip is_mark inner) (matched-IsPiece s group e) (
            IsPiece-trans is_trailing group inner (rstrip is_mark inner) (stripped-IsPiece group)
              piece),
        last,
      )

  -- Whatever the task is, the target is a piece of it, with none of the marks . ! ? at its end, and
  -- after it the task has nothing but blanks, newlines and these marks.
  pub extract_target-IsTarget : (task : List ℕ) → IsTarget task (extract_target tables task)
  unfolding extract_target
  extract_target-IsTarget task =
      let stripped = strip tables.is_space task in
      let (piece, last) = target_or-IsTarget stripped (matched tables stripped) refl in
      (
        IsPiece-trans is_trailing task stripped
            (target_or tables stripped (matched tables stripped)) (stripped-IsPiece task) piece,
        last,
      )
