-- ===== src/Bridge/Dicts/Returning.antt =====
-- The dict of an observation read back (bridge/wire.py).
use rover_mind.Prelude.{◌≡◌, refl}
use rover_mind.Prelude.Io.{ok}
use rover_mind.Float.{Float}
use rover_mind.Perception.{SceneObservation}
use rover_mind.Bridge.Values.{Interpreter}
use rover_mind.Bridge.Dicts.{scene_observation_to_dict, scene_observation_from_dict, as_read}

-- The dict of an observation reads back as the observation, every field with its value.
pub scene_observation_from_dict-to_dict :
    {R : Type 0} ⦃f : Float R⦄ (py : Interpreter R) (obs : SceneObservation R)
    → scene_observation_from_dict py (scene_observation_to_dict obs) ≡ ok (as_read obs)
unfolding scene_observation_from_dict scene_observation_to_dict
scene_observation_from_dict-to_dict py obs = refl
