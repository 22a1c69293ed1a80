-- ===== src/Bridge/Timing.antt =====
-- The timing proxy of the vision model (bridge/timing.py). The clock is any sequence of readings, of
-- which the state holds the number of those that were taken.
pub mod Transparent
use rover_mind.Prelude.{
  ℕ, ◌+◌, String, Bool, true, false, ◌&&◌, Option, none, some, List, [], ◌∷◌, ◌++◌, if◌then◌else◌,
  str_eq,
}
use rover_mind.Prelude.Io.{Io, Result}
use rover_mind.Prelude.Text.{Unicode, codes, contains}
use rover_mind.Float.{Float, nought}
use rover_mind.Perception.Vision.{Camera}

-- An entry of `self.calls`.
pub record TimedCall (R : Type 0) : Type 0 where
  pub op : String
  pub label : String
  pub ms : R

-- The world with the readings taken and the calls recorded.
pub record Timed (R W : Type 0) : Type 0 where
  pub world : W
  pub ticks : ℕ
  pub calls : List (TimedCall R)

unfoldable pub classify_question : Unicode → String → String
unfolding contains
classify_question u question =
    let q = u.lower (codes question) in
    if contains (codes "yes or no") q
    then "ask_visible"
    else if contains (codes "left") q && contains (codes "right") q
    then "ask_direction"
    else if contains (codes "close") q && contains (codes "far") q
    then "ask_distance"
    else "ask"

module _ {R : Type 0} ⦃f : Float R⦄ where
  open f use {add, sub, mul, lit}

  -- `(stop - start) * 1000.0`
  abbrev pub elapsed_ms : R → R → R
  elapsed_ms start stop = mul (sub stop start) (lit 10000 1)

  -- `out[label] = out.get(label, 0.0) + ms`
  bump : String → R → List (String × R) → List (String × R)
  bump label ms [] = (label, add nought ms) ∷ []
  bump label ms ((name, total) ∷ rest) =
      let later = bump label ms rest in
      if str_eq name label then (name, add total ms) ∷ rest else (name, total) ∷ later

  aggregate_from : List (String × R) → List (TimedCall R) → List (String × R)
  unfolding bump
  aggregate_from out [] = out
  aggregate_from out (c ∷ calls) = aggregate_from (bump c.label c.ms out) calls

  unfoldable pub aggregate : List (TimedCall R) → List (String × R)
  unfolding aggregate_from
  aggregate calls = aggregate_from [] calls

  module _ {W : Type 0} (clock : ℕ → R) where
    -- The pattern of `ask` and `point`: the call between two readings, recorded on every path.
    abbrev pub timed : {A : Type 0} → String → String → Io W A → Io (Timed R W) A
    timed op label m s =
        let (r, world') = m s.world in
        (
          r,
          record {
            world = world';
            ticks = s.ticks + 2;
            calls =
                s.calls
                ++ record {
                  op = op;
                  label = label;
                  ms = elapsed_ms (clock s.ticks) (clock (s.ticks + 1));
                }
                  ∷ [];
          },
        )

    -- A call of the camera itself, which the proxy does not wrap.
    abbrev pub untimed : {A : Type 0} → Io W A → Io (Timed R W) A
    untimed m s = let (r, world') = m s.world in (r, record s { world = world' })

  abbrev pub untimed_depth :
      {W : Type 0}
      → (ℕ → R)
      → Option (Io W (List (List R)))
      → Option (Io (Timed R W) (List (List R)))
  untimed_depth clock none = none
  untimed_depth clock (some depth_fn) = some (untimed clock depth_fn)

  -- The camera with a `TimingMoondream` in the place of its model.
  abbrev pub timed_camera :
      {W Image : Type 0} → Unicode → (ℕ → R) → Camera R W Image → Camera R (Timed R W) Image
  timed_camera u clock camera = record {
    capture = untimed clock camera.capture;
    ask = λ image question.
        timed clock "ask" (classify_question u question) (camera.ask image question);
    point = λ image target. timed clock "point" "point" (camera.point image target);
    depth = untimed_depth clock camera.depth;
  }
