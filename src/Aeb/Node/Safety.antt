-- ===== src/Aeb/Node/Safety.antt =====
-- What the braking node lets through to the motors.
use rover_mind.Prelude.{
  ℕ, ◌≡◌, refl, ◌⊎◌, inl, inr, Bool, true, false, Option, none, some, arith, get_elem?, Bool-cases,
}
use rover_mind.Float.{Float, nought}
use rover_mind.Float.Order.{lt_irrefl}
use rover_mind.Aeb.{AebParams, Brake, Scan, counts, gate_twist, update, min_forward_range}
use rover_mind.Aeb.Range.{min_forward_range-le}
use rover_mind.Aeb.Node.{EmergencyBrake, arc_half_width_rad, seen_range, raw_command, on_tick}

module _ {R : Type 0} ⦃f : Float R⦄ where
  open f use {lt, le, sub}

  -- The gate passes the angular velocity unchanged, and the linear velocity too unless the brake is
  -- on and it is forward; with the brake on the linear velocity that it lets through is not forward.
  pub gate_twist_lem :
      (linear angular : R) (braking : Bool)
      → ((gate_twist linear angular braking).1 ≡ angular)
        × ((braking ≡ false) ⊎ (lt nought linear ≡ false)
            → (gate_twist linear angular braking).0 ≡ linear)
        × (braking ≡ true → lt nought (gate_twist linear angular braking).0 ≡ false)
  unfolding gate_twist
  gate_twist_lem linear angular true = ground (arith, lt_irrefl (f.lit 0 1))
  gate_twist_lem linear angular false = ground arith

  -- A reading closer than the trigger distance puts the brake on, in any state.
  update_near :
      (p : AebParams R) (s : Brake R) (r now : R)
      → (update p s r now).braking ≡ false
      → lt r p.trigger_distance_m ≡ false
  unfolding update
  update_near p s r now h = ground arith

  -- A distance that is not within a positive trigger distance is not the fail-safe 0.0, so it comes
  -- from a scan that is there and fresh.
  seen_range_clear :
      (p : AebParams R) (o : Option (Scan R)) (stamp now : R)
      → lt nought p.trigger_distance_m ≡ true
      → lt (seen_range p o stamp now) p.trigger_distance_m ≡ false
      → (s : Scan R) × (o ≡ some s)
        × (lt p.scan_timeout_s (sub now stamp) ≡ false)
        × (lt (min_forward_range s (arc_half_width_rad p)) p.trigger_distance_m ≡ false)
  unfolding seen_range
  seen_range_clear p none stamp now t h = absurd (ground arith)
  seen_range_clear p (some s) stamp now t h = (s, refl, ground arith, ground arith)

  -- Where a tick publishes forward motion, the brake is off after it.
  forward_unbraked :
      (p : AebParams R) (n : EmergencyBrake R) (now : R)
      → lt nought (on_tick p n now).published.linear_x ≡ true
      → (update p n.state (seen_range p n.latest_scan n.scan_stamp now) now).braking ≡ false
  unfolding on_tick
  forward_unbraked p n now h =
      let state : Brake R = update p n.state (seen_range p n.latest_scan n.scan_stamp now) now in
      let raw : R × R = raw_command p n.latest_cmd n.cmd_stamp now in
      elim (Bool-cases state.braking) [
        | inl on ↦ cc ((gate_twist_lem raw.0 raw.1 state.braking).2 on)
        | inr off ↦ off
      ]

  not_near :
      (p : AebParams R) (s : Scan R) (i : ℕ) (r : R)
      → get_elem? s.ranges i ≡ some r
      → counts s (arc_half_width_rad p) i r ≡ true
      → lt (min_forward_range s (arc_half_width_rad p)) p.trigger_distance_m ≡ false
      → lt r p.trigger_distance_m ≡ false
  not_near p s i r at c far = elim (Bool-cases (lt r p.trigger_distance_m)) [
    | inr not_below ↦ not_below
    | inl below ↦
        cc (f.le-lt_trans _ _ _ (min_forward_range-le s (arc_half_width_rad p) i r at c) below, far)
  ]

  -- A tick publishes forward motion only where a scan is there, no older than the scan timeout, in
  -- which no reading that counts in the forward arc is closer than the trigger distance.
  pub forward_needs_clear_scan :
      (p : AebParams R) (n : EmergencyBrake R) (now : R)
      → lt nought p.trigger_distance_m ≡ true
      → lt nought (on_tick p n now).published.linear_x ≡ true
      → (s : Scan R) × (n.latest_scan ≡ some s)
        × (lt p.scan_timeout_s (sub now n.scan_stamp) ≡ false)
        × ((i : ℕ) (r : R)
            → get_elem? s.ranges i ≡ some r
            → counts s (arc_half_width_rad p) i r ≡ true
            → lt r p.trigger_distance_m ≡ false)
  forward_needs_clear_scan p n now t h =
      let range : R = seen_range p n.latest_scan n.scan_stamp now in
      let (s, there, fresh, far) =
        seen_range_clear p n.latest_scan n.scan_stamp now t
          (update_near p n.state range now (forward_unbraked p n now h)) in
      (s, there, fresh, λ i r at c. not_near p s i r at c far)
