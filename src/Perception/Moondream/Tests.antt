-- ===== src/Perception/Moondream/Tests.antt =====
-- Tensors that are lists of heads, and a model of one answer.
use rover_mind.Prelude.{
  ℕ, ◌+◌, ◌*◌, ◌/◌, String, ◌≡◌, refl, true, false, some, List, [], ◌∷◌, arith,
}
use rover_mind.Prelude.Int.{pos}
use rover_mind.Prelude.Io.{ok, exception, err, pure}
use rover_mind.Float.Fixed.{Fixed, num, fixed_float}
use rover_mind.Bridge.Values.{text, float, member, no_members, get}
use rover_mind.Perception.Moondream.{
  Tensors, Model, resolve_model_source, sdpa_gqa_compat, installs_shim, ask, point,
}
use rover_mind.Perception.Moondream.Heads.{Repeats, Serves, sdpa_gqa_compat-Serves}

-- A tensor by the number of its heads and what each is.
abbrev tensors : Tensors (ℕ × (ℕ → ℕ))
tensors = record {
  heads = λ (count, at). count;
  repeat_interleave = λ n (count, at). (n * count, λ h. at (h / n));
}

abbrev head : ℕ × (ℕ → ℕ) → ℕ → ℕ
head (count, at) h = at h

repeats : Repeats tensors head
repeats n (count, at) = (refl, λ h less. refl)

abbrev query : ℕ × (ℕ → ℕ)
query = (6, λ h. h)

abbrev key : ℕ × (ℕ → ℕ)
key = (2, λ h. h + 10)

abbrev attended : ℕ × (ℕ → ℕ) → ℕ × (ℕ → ℕ) → ℕ × (ℕ → ℕ) → List ℕ
attended q k v = k.0 ∷ k.1 0 ∷ k.1 2 ∷ k.1 3 ∷ k.1 5 ∷ []

grouped : sdpa_gqa_compat tensors attended query key key true ≡ 6 ∷ 10 ∷ 10 ∷ 11 ∷ 11 ∷ []
unfolding sdpa_gqa_compat
grouped = refl

sdpa_gqa_compat-Serves_example :
    (key' : ℕ × (ℕ → ℕ)) × (value' : ℕ × (ℕ → ℕ)) × (sdpa_gqa_compat tensors attended query key key
        true
      ≡ attended query key' value')
    × Serves tensors head 6 3 key key'
    × Serves tensors head 6 3 key value'
sdpa_gqa_compat-Serves_example =
    sdpa_gqa_compat-Serves tensors head repeats attended query key key (omega arith) refl refl

pinned : resolve_model_source (some "") ≡ ("vikhyatk/moondream2", some "2025-06-21")
unfolding resolve_model_source
pinned = refl

needed : installs_shim (some false) 2 1 ≡ true
unfolding installs_shim
needed = refl

abbrev model : Model Fixed ℕ String
model = record {
  query = λ image question. pure (member "answer" (text "yes") no_members);
  point = λ image target. pure (some (member "x" (float (num (pos 1))) no_members ∷ []));
}

has_answer : (ask model "image" "Is it there?" 0).0 ≡ ok (text "yes")
unfolding ask get
has_answer = refl

-- A point without a "y".
half_a_point : (point model "image" "cup" 0).0 ≡ err (exception "KeyError" "y")
unfolding point get
half_a_point = refl
