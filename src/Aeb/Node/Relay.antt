-- ===== src/Aeb/Node/Relay.antt =====
-- The node as the relay from /cmd_vel_raw to /cmd_vel, and its fail-safe for the raw command.
use rover_mind.Prelude.{
  ◌≡◌, ◌⊎◌, inl, inr, true, Option, none, some, List, [], ◌∷◌, arith, Option-cases, All, All-imp,
}
use rover_mind.Float.{Float, nought}
use rover_mind.Float.Order.{lt_irrefl}
use rover_mind.Aeb.{AebParams, gate_twist}
use rover_mind.Aeb.Node.{
  Twist, EmergencyBrake, Event, scan, cmd, tick, init, raw_command, on_tick, on_scan, on_cmd, step,
  spin,
}

module _ {R : Type 0} ⦃f : Float R⦄ (p : AebParams R) where
  open f use {lt, sub}

  -- Without a raw command, or with one older than the command timeout, a tick publishes zero, on
  -- the brake or off it.
  pub stale_command_stops :
      (n : EmergencyBrake R) (now : R)
      → (n.latest_cmd ≡ none) ⊎ (lt p.command_timeout_s (sub now n.cmd_stamp) ≡ true)
      → (on_tick p n now).published ≡ record { linear_x = nought; angular_z = nought }
  unfolding on_tick raw_command gate_twist
  stale_command_stops n now h = elim (Option-cases n.latest_cmd) [
    | inl missing ↦ ground (arith, lt_irrefl (f.lit 0 1))
    | inr (c, there) ↦ ground (arith, lt_irrefl (f.lit 0 1))
  ]

  -- `t` is the command `c`, or `c` with its linear velocity zeroed.
  abbrev pub Relays : Twist R → Twist R → Type 0
  Relays t c = (t.angular_z ≡ c.angular_z) × ((t.linear_x ≡ c.linear_x) ⊎ (t.linear_x ≡ nought))

  abbrev pub IsZero : Twist R → Type 0
  IsZero t = (t.linear_x ≡ nought) × (t.angular_z ≡ nought)

  -- `t` relays the latest command of a node.
  abbrev pub RelaysLatest : Option (Twist R) → Twist R → Type 0
  RelaysLatest none t = ⊥
  RelaysLatest (some c) t = Relays t c

  -- `t` relays a command among the events.
  abbrev pub RelaysSome : List (Event R × R) → Twist R → Type 0
  RelaysSome [] t = ⊥
  RelaysSome ((cmd c, now) ∷ es) t = Relays t c ⊎ RelaysSome es t
  RelaysSome ((scan s, now) ∷ es) t = RelaysSome es t
  RelaysSome ((tick, now) ∷ es) t = RelaysSome es t

  on_tick-Relays :
      (n : EmergencyBrake R) (now : R)
      → IsZero (on_tick p n now).published ⊎ RelaysLatest n.latest_cmd (on_tick p n now).published
  unfolding on_tick raw_command gate_twist
  on_tick-Relays n now = elim (Option-cases n.latest_cmd) [
    | inl missing ↦ ground (arith, lt_irrefl (f.lit 0 1))
    | inr (c, there) ↦ ground (arith, lt_irrefl (f.lit 0 1))
  ]

  abbrev Accounted : Option (Twist R) → List (Event R × R) → Twist R → Type 0
  Accounted o es t = IsZero t ⊎ (RelaysLatest o t ⊎ RelaysSome es t)

  command-Accounted :
      (o : Option (Twist R)) (c : Twist R) (now : R) (es : List (Event R × R)) (t : Twist R)
      → Accounted (some c) es t
      → Accounted o ((cmd c, now) ∷ es) t
  command-Accounted o c now es t h = ground arith

  on_tick-Accounted :
      (n : EmergencyBrake R) (now : R) (es : List (Event R × R))
      → Accounted n.latest_cmd es (on_tick p n now).published
  on_tick-Accounted n now es = elim (on_tick-Relays n now) [ inl z ↦ inl z | inr l ↦ inr (inl l) ]

  spin-Accounted :
      (n : EmergencyBrake R) (es : List (Event R × R))
      → All (Accounted n.latest_cmd es) (spin p n es).1
  unfolding spin step on_scan on_cmd on_tick
  spin-Accounted n [] = tt
  spin-Accounted n ((scan s, now) ∷ es) = spin-Accounted (on_scan n s now) es
  spin-Accounted n ((cmd c, now) ∷ es) =
      All-imp _ _ (command-Accounted n.latest_cmd c now es) _ (spin-Accounted (on_cmd n c now) es)
  spin-Accounted n ((tick, now) ∷ es) =
      (on_tick-Accounted n now es, spin-Accounted (on_tick p n now).node es)

  -- Whatever the callbacks, a node that starts without a command publishes only zero twists and
  -- commands that it received, their linear velocity kept or zeroed.
  pub spin_relays_only :
      (es : List (Event R × R)) → All (λ t. IsZero t ⊎ RelaysSome es t) (spin p init es).1
  spin_relays_only es =
      All-imp _ _
        (λ t h. elim h [
          | inl z ↦ inl z
          | inr (inl none_yet) ↦ absurd none_yet
          | inr (inr s) ↦ inr s
        ])
        _ (spin-Accounted init es)
