-- ===== src/Bridge/Dicts.antt =====
-- An observation as a dict and back (scene_observation_to_dict and scene_observation_from_dict of
-- bridge/wire.py).
pub mod Returning
use rover_mind.Prelude.{String, Bool, true, false, Option, none, some}
use rover_mind.Prelude.Io.{Io, Result, ok, err, ◌>>=◌}
use rover_mind.Float.{Float}
use rover_mind.Perception.{Answers, SceneObservation}
use rover_mind.Bridge.Values.{
  Value, null, boolean, float, text, object, Members, no_members, member, Interpreter, get, get_or,
  is_truthy, item_of,
}

-- A `SceneObservation` as the client builds it of a dict: any values stand in its fields.
pub record ReadObservation (R : Type 0) : Type 0 where
  pub target : Value R
  pub found : Bool
  pub direction : Value R
  pub distance : Value R
  pub should_stop : Bool
  pub raw_answers : Members R
  pub distance_m : Value R
  pub distance_source : Value R

module _ {R : Type 0} where
  abbrev pub text_or_null : Option String → Value R
  text_or_null none = null
  text_or_null (some t) = text t

  abbrev pub float_or_null : Option R → Value R
  float_or_null none = null
  float_or_null (some x) = float x

  abbrev pub answers_members : Answers → Members R
  answers_members a =
      member "visible" (text a.visible)
        (member "direction" (text a.direction) (member "distance" (text a.distance) no_members))

  -- `asdict(obs)`
  unfoldable pub scene_observation_to_dict : SceneObservation R → Members R
  scene_observation_to_dict obs = member "target" (text obs.target) (
      member "found" (boolean obs.found) (
        member "direction" (text_or_null obs.direction) (
          member "distance" (text_or_null obs.distance) (
            member "should_stop" (boolean obs.should_stop) (
              member "raw_answers" (object (answers_members obs.raw_answers)) (
                member "distance_m" (float_or_null obs.distance_m)
                  (member "distance_source" (text obs.distance_source) no_members)))))))

  -- `dict(v)`
  dict_from : Interpreter R → Value R → Result (Members R)
  dict_from py (object o) = ok o
  dict_from py v = py.dict_of v

  -- The observation itself, with its fields as values.
  abbrev pub as_read : SceneObservation R → ReadObservation R
  as_read obs = record {
    target = text obs.target;
    found = obs.found;
    direction = text_or_null obs.direction;
    distance = text_or_null obs.distance;
    should_stop = obs.should_stop;
    raw_answers = answers_members obs.raw_answers;
    distance_m = float_or_null obs.distance_m;
    distance_source = text obs.distance_source;
  }

-- The results of `payload[key]`, one after the other.
infixl 5 ◌then_with◌
abbrev ◌then_with◌ : {A B : Type 0} → Result A → (A → Result B) → Result B
ok a then_with k = k a
err e then_with k = err e

unfoldable pub scene_observation_from_dict :
    {R : Type 0} → ⦃f : Float R⦄ → Interpreter R → Members R → Result (ReadObservation R)
unfolding get dict_from
scene_observation_from_dict py payload = item_of "target" payload then_with λ target.
    item_of "found" payload then_with λ found.
    item_of "should_stop" payload then_with λ should_stop.
    dict_from py (get_or "raw_answers" (object no_members) payload) then_with λ raw_answers.
    ok (record {
      target = target;
      found = is_truthy found;
      direction = get_or "direction" null payload;
      distance = get_or "distance" null payload;
      should_stop = is_truthy should_stop;
      raw_answers = raw_answers;
      distance_m = get_or "distance_m" null payload;
      distance_source = get_or "distance_source" (text "vlm") payload;
    })
