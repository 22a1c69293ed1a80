-- ===== src/Perception/Moondream.antt =====
-- The wrapper of the vision model (perception/moondream_client.py). The model of the transformers
-- library, its tensors and the environment are parameters.
pub mod Heads
mod Tests
use rover_mind.Prelude.{
  ℕ, String, Bool, true, false, not, ◌&&◌, ◌||◌, Option, none, some, List, [], ◌∷◌, ◌/◌, ◌==◌, ltb,
  if◌then◌else◌, str_eq,
}
use rover_mind.Prelude.Io.{Io, Result, ok, err, exception, lift, mapped, ◌>>=◌}
use rover_mind.Float.{Float}
use rover_mind.Bridge.Values.{
  Value, array, object, Items, no_items, item, Members, members_of, get_or, item_of, is_truthy,
  Interpreter,
}

abbrev pub model_id : String
model_id = "vikhyatk/moondream2"

abbrev pub model_revision : String
model_revision = "2025-06-21"

-- `resolve_model_source`, on what the environment holds at MOONDREAM_MODEL_PATH: the snapshot, or the
-- model's name with the revision of its keyword.
unfoldable pub resolve_model_source : Option String → String × Option String
resolve_model_source none = (model_id, some model_revision)
resolve_model_source (some local) =
    if str_eq local "" then (model_id, some model_revision) else (local, none)

-- A tensor's `shape[-3]`, and `repeat_interleave(n, dim=-3)`.
pub record Tensors (T : Type 0) : Type 0 where
  pub heads : T → ℕ
  pub repeat_interleave : ℕ → T → T

module _ {T : Type 0} (torch : Tensors T) where
  -- The branch of `enable_gqa`: the heads of the key are compared with those of the query, and both the
  -- key and the value are expanded.
  unfoldable pub expanded : T → T → T → T × T
  expanded query key value =
      let hq = torch.heads query in
      let hk = torch.heads key in
      if not (hk == 0) && not (hq == hk)
      then (torch.repeat_interleave (hq / hk) key, torch.repeat_interleave (hq / hk) value)
      else (key, value)

  -- `_sdpa_gqa_compat`, with the other arguments in `orig`.
  unfoldable pub sdpa_gqa_compat : {A : Type 0} → (T → T → T → A) → T → T → T → Bool → A
  unfolding expanded
  sdpa_gqa_compat orig query key value true =
      let (key', value') = expanded query key value in orig query key' value'
  sdpa_gqa_compat orig query key value false = orig query key value

-- The tests of `_install_sdpa_gqa_shim`, on the attribute, whether it is shimmed, and the version.
unfoldable pub installs_shim : Option Bool → ℕ → ℕ → Bool
installs_shim none major minor = false
installs_shim (some shimmed) major minor =
    not shimmed && (ltb major 2 || ((major == 2) && ltb minor 5))

-- `model.query`, which gives a dict, and the list of dicts at "points" of the dict that `model.point`
-- gives, where there is one.
pub record Model (R W Image : Type 0) : Type 0 where
  pub query : Image → String → Io W (Members R)
  pub point : Image → String → Io W (Option (List (Members R)))

-- `(first["x"], first["y"])`
unfoldable pub coordinates : {R : Type 0} → Members R → Result (Value R × Value R)
coordinates first = mapped (λ x. mapped (λ y. ok (x, y)) (item_of "y" first)) (item_of "x" first)

-- The end of `point`.
unfoldable pub first_point :
    {R : Type 0} → Option (List (Members R)) → Result (Option (Value R × Value R))
unfolding coordinates
first_point none = ok none
first_point (some []) = ok none
first_point (some (first ∷ rest)) = mapped (λ at. ok (some at)) (coordinates first)

module _ {R W Image : Type 0} (model : Model R W Image) where
  unfoldable pub ask : Image → String → Io W (Value R)
  ask image question = model.query image question >>= λ result. lift (item_of "answer" result)

  unfoldable pub point : Image → String → Io W (Option (Value R × Value R))
  unfolding first_point
  point image target = model.point image target >>= λ points. lift (first_point points)
