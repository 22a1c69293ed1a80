-- ===== src/Rover/Motion.antt =====
-- What reaches the wheels: the twists of the action server's goals through the braking node
-- (safety_controller_layer/safety_controller_node.py and aeb_node.py).
use rover_mind.Prelude.{◌≡◌, inl, inr, true, List, [], ◌∷◌, arith, All, All-append, All-imp, Any}
use rover_mind.Float.{Float}
use rover_mind.Control.{ControllerParams}
use rover_mind.Control.Loops.Bounded.{IsBounded}
use rover_mind.Server.{Node, Goal, Sample, execute_callback}
use rover_mind.Server.Goals.{execute_callback-IsBounded}
use rover_mind.Aeb.{AebParams}
use rover_mind.Aeb.Node.{Twist, Event, scan, cmd, tick, init, spin}
use rover_mind.Aeb.Node.Relay.{Relays, RelaysSome, spin_relays_only}
use rover_mind.Rover.{publish_goals}

All-Any :
    {A : Type 0} (P : A → Type 0) (Q : A → Type 0) (xs : List A)
    → All P xs
    → Any Q xs
    → (x : A) × P x × Q x
All-Any P Q [] ps (none_there, u) = absurd none_there
All-Any P Q (x ∷ xs) (p, ps) (inl q) = (x, p, q)
All-Any P Q (x ∷ xs) (p, ps) (inr qs) = All-Any P Q xs ps qs

module _ {R : Type 0} ⦃f : Float R⦄ (p : ControllerParams R) (aeb : AebParams R) where
  open f use {le, neg}

  publish_goals-IsBounded :
      le (neg p.max_angular) p.max_angular ≡ true
      → (n : Node R) (goals : List (Goal R × List (Sample R)))
      → All (IsBounded p) (publish_goals p n goals)
  unfolding publish_goals
  publish_goals-IsBounded limit n [] = tt
  publish_goals-IsBounded limit n ((goal, samples) ∷ goals) =
      All-append (IsBounded p) (execute_callback p n goal samples).published
        (publish_goals p (execute_callback p n goal samples).node goals)
        (execute_callback-IsBounded p limit n goal samples)
        (publish_goals-IsBounded limit (execute_callback p n goal samples).node goals)

  -- The message carries the twist.
  abbrev pub Carries : Twist R → R × R → Type 0
  Carries c (linear, angular) = (c.linear_x ≡ linear) × (c.angular_z ≡ angular)

  -- Every command that the braking node receives was published, in whatever order, once, more often
  -- or not at all.
  abbrev pub OnlyPublished : List (R × R) → List (Event R × R) → Type 0
  OnlyPublished published [] = Unit
  OnlyPublished published ((scan s, now) ∷ es) = OnlyPublished published es
  OnlyPublished published ((tick, now) ∷ es) = OnlyPublished published es
  OnlyPublished published ((cmd c, now) ∷ es) =
      Any (Carries c) published × OnlyPublished published es

  abbrev pub IsBoundedTwist : Twist R → Type 0
  IsBoundedTwist t = IsBounded p (t.linear_x, t.angular_z)

  relayed-IsBoundedTwist :
      (t c : Twist R) (v : R × R) → IsBounded p v → Carries c v → Relays aeb t c → IsBoundedTwist t
  relayed-IsBoundedTwist t c (linear, angular) b (el, ea) (ra, inl rl) = ground arith
  relayed-IsBoundedTwist t c (linear, angular) b (el, ea) (ra, inr rl) = ground arith

  RelaysSome-IsBoundedTwist :
      (published : List (R × R)) (es : List (Event R × R)) (t : Twist R)
      → All (IsBounded p) published
      → OnlyPublished published es
      → RelaysSome aeb es t
      → IsBoundedTwist t
  RelaysSome-IsBoundedTwist published [] t all only h = absurd h
  RelaysSome-IsBoundedTwist published ((scan s, now) ∷ es) t all only h =
      RelaysSome-IsBoundedTwist published es t all only h
  RelaysSome-IsBoundedTwist published ((tick, now) ∷ es) t all only h =
      RelaysSome-IsBoundedTwist published es t all only h
  RelaysSome-IsBoundedTwist published ((cmd c, now) ∷ es) t all (from, only) (inl relays) =
      let (v, bounded, carries) = All-Any (IsBounded p) (Carries c) published all from in
      relayed-IsBoundedTwist t c v bounded carries relays
  RelaysSome-IsBoundedTwist published ((cmd c, now) ∷ es) t all (from, only) (inr later) =
      RelaysSome-IsBoundedTwist published es t all only later

  -- Whatever goals the action server executes one after the other, and whatever the sensors, the
  -- clocks and the scans are, each twist that the braking node publishes to the wheels is the zero
  -- twist, a turn in place within the turn limit, or a straight drive at the set speed, given that the
  -- braking node receives only commands that the server published, and a turn limit that is at least
  -- its own negation.
  pub wheels-IsBounded :
      le (neg p.max_angular) p.max_angular ≡ true
      → (n : Node R) (goals : List (Goal R × List (Sample R))) (events : List (Event R × R))
      → OnlyPublished (publish_goals p n goals) events
      → All IsBoundedTwist (spin aeb init events).1
  wheels-IsBounded limit n goals events only =
      All-imp _ _
        (λ t h. elim h [
          | inl zero_twist ↦ inl zero_twist
          | inr relays ↦
              RelaysSome-IsBoundedTwist (publish_goals p n goals) events t
                (publish_goals-IsBounded limit n goals) only relays
        ])
        _ (spin_relays_only aeb events)
