-- ===== src/Aeb/Tests.antt =====
-- The braking logic on concrete scans and commands, with distances in decimals.
use rover_mind.Prelude.{ℕ, ◌≡◌, refl, ◌⊎◌, true, false, some, List, [], ◌∷◌, All, get_elem?}
use rover_mind.Prelude.Int.{pos, negsuc}
use rover_mind.Float.{nought}
use rover_mind.Float.Fixed.{Fixed, num, pos_inf, fixed_float}
use rover_mind.Control.{wrap_angle}
use rover_mind.Aeb.{
  AebParams, Scan, default_params, accepted, counts, gate_twist, update, min_forward_range,
  released,
}
use rover_mind.Aeb.Hysteresis.{after, ClearSince, release_needs_dwell, release_after_dwell}
use rover_mind.Aeb.Node.{
  Twist, EmergencyBrake, Event, scan, cmd, tick, init, arc_half_width_rad, on_tick, spin,
}
use rover_mind.Aeb.Node.Safety.{forward_needs_clear_scan}
use rover_mind.Aeb.Node.Relay.{IsZero, RelaysSome, spin_relays_only}

abbrev params : AebParams Fixed
params = default_params

abbrev metres : Fixed
metres = num (pos 1_000_000_000)

abbrev near : Fixed
near = num (pos 300_000_000)

abbrev far : Fixed
far = num (pos 700_000_000)

abbrev half_second : Fixed
half_second = num (pos 500_000_000)

-- Three beams at -0.1, 0 and 0.1 rad; the middle one is not a reading.
abbrev clear_scan : Scan Fixed
clear_scan = record {
  ranges = far ∷ pos_inf ∷ metres ∷ [];
  angle_min = num (negsuc 99_999_999);
  angle_increment = num (pos 100_000_000);
  range_min = num (pos 50_000_000);
}

abbrev forward : Twist Fixed
forward = record { linear_x = near; angular_z = nought }

defaults_accepted : accepted params ≡ true
unfolding accepted fixed_float
defaults_accepted = refl

nearest_beam : min_forward_range clear_scan (arc_half_width_rad params) ≡ far
unfolding min_forward_range wrap_angle fixed_float
nearest_beam = refl

middle_excluded : counts clear_scan (arc_half_width_rad params) 1 pos_inf ≡ false
unfolding counts wrap_angle fixed_float
middle_excluded = refl

-- A clear scan and a fresh command: the command goes through.
abbrev ready : EmergencyBrake Fixed
ready = record {
  state = released;
  latest_scan = some clear_scan;
  scan_stamp = metres;
  latest_cmd = some forward;
  cmd_stamp = metres;
  was_braking = false;
}

drives_on : (on_tick params ready metres).published ≡ forward
unfolding on_tick update gate_twist min_forward_range wrap_angle fixed_float
drives_on = refl

forward_needs_clear_scan_example :
    (s : Scan Fixed) × (ready.latest_scan ≡ some s)
    × (fixed_float.lt params.scan_timeout_s (fixed_float.sub metres ready.scan_stamp) ≡ false)
    × ((i : ℕ) (r : Fixed)
        → get_elem? s.ranges i ≡ some r
        → counts s (arc_half_width_rad params) i r ≡ true
        → fixed_float.lt r params.trigger_distance_m ≡ false)
unfolding on_tick update gate_twist min_forward_range wrap_angle fixed_float
forward_needs_clear_scan_example = forward_needs_clear_scan params ready metres refl refl

abbrev zero_s : Fixed
zero_s = nought

-- An obstacle at 0 s, a clear path at 0.5 s; at 1 s the path has been clear for 0.5 s.
abbrev braked : List (Fixed × Fixed)
braked = (far, half_second) ∷ (near, zero_s) ∷ []

release_needs_dwell_example :
    (t : Fixed) × (ClearSince params t braked)
    × (fixed_float.lt params.release_distance_m far ≡ true)
    × (fixed_float.le
          (fixed_float.sub params.release_dwell_s (fixed_float.lit 1 9))
          (fixed_float.sub metres t)
        ≡ true)
unfolding after update fixed_float
release_needs_dwell_example = release_needs_dwell params braked far metres refl refl

release_after_dwell_example :
    (after params
      ((far, metres) ∷ (far, metres) ∷ (far, half_second) ∷ (near, zero_s) ∷ [])).braking
    ≡ false
unfolding after update fixed_float accepted
release_after_dwell_example =
    release_after_dwell params refl refl refl ((near, zero_s) ∷ []) ((far, metres) ∷ []) far
      half_second far metres refl refl (refl, tt) refl refl

abbrev events : List (Event Fixed × Fixed)
events = (cmd forward, metres) ∷ (tick, metres) ∷ (scan clear_scan, metres) ∷ (tick, metres) ∷ []

spin_relays_only_example :
    All (λ t. IsZero params t ⊎ RelaysSome params events t) (spin params init events).1
spin_relays_only_example = spin_relays_only params events
