-- ===== src/Perception/Capture/Waiting.antt =====
-- The wait for a frame (ros_capture_fn and ros_depth_capture_fn of perception/vision_tool.py).
use rover_mind.Prelude.{
  String, ◌≡◌, refl, ◌⊎◌, inl, inr, true, false, Option, none, some, List, [], ◌∷◌, Any, Bool-cases,
}
use rover_mind.Prelude.Io.{Exception, Result, ok, err, mapped}
use rover_mind.Float.{Float}
use rover_mind.Perception.Capture.{
  Round, Ros, Wait, unfinished, expired, received, interrupted, Captured, setup, too_late,
  after_spin, release, wait_loop, frame_of, grab, ros_capture_fn, ros_depth_capture_fn,
}

module _ {R Msg : Type 0} ⦃f : Float R⦄ (deadline : R) where
  open f use {lt}

  abbrev pub IsLate : Round R Msg → Type 0
  IsLate r = lt r.now deadline ≡ false

  -- The message is the first to come, and no reading of the clock up to it is late.
  abbrev pub Delivered : Msg → List (Round R Msg) → Type 0
  Delivered msg [] = ⊥
  Delivered msg (r ∷ rest) =
      (lt r.now deadline ≡ true)
      × ((r.spun ≡ ok (some msg)) ⊎ ((r.spun ≡ ok none) × Delivered msg rest))

  -- The first late reading comes before any message.
  abbrev pub Expires : List (Round R Msg) → Type 0
  Expires [] = ⊥
  Expires (r ∷ rest) = IsLate r ⊎ ((r.spun ≡ ok none) × Expires rest)

  -- An exception of `spin_once` comes before any message and any late reading.
  abbrev pub Interrupts : Exception → List (Round R Msg) → Type 0
  Interrupts e [] = ⊥
  Interrupts e (r ∷ rest) =
      (lt r.now deadline ≡ true) × ((r.spun ≡ err e) ⊎ ((r.spun ≡ ok none) × Interrupts e rest))

  abbrev EndsBy : List (Round R Msg) → Wait Msg → Type 0
  EndsBy rounds unfinished = ⊥
  EndsBy rounds expired = Expires rounds
  EndsBy rounds (received msg) = Delivered msg rounds
  EndsBy rounds (interrupted e) = Interrupts e rounds

  later-EndsBy :
      (r : Round R Msg) (rest : List (Round R Msg)) (w : Wait Msg)
      → lt r.now deadline ≡ true
      → r.spun ≡ ok none
      → EndsBy rest w
      → EndsBy (r ∷ rest) w
  later-EndsBy r rest unfinished on empty h = h
  later-EndsBy r rest expired on empty h = inr (empty, h)
  later-EndsBy r rest (received msg) on empty h = (on, inr (empty, h))
  later-EndsBy r rest (interrupted e) on empty h = (on, inr (empty, h))

  after_spin-EndsBy :
      (r : Round R Msg) (rest : List (Round R Msg)) (spun : Result (Option Msg))
      → lt r.now deadline ≡ true
      → r.spun ≡ spun
      → EndsBy rest (wait_loop deadline rest none)
      → EndsBy (r ∷ rest) (after_spin (wait_loop deadline rest) spun)
  unfolding wait_loop
  after_spin-EndsBy r rest (err e) on at h = (on, inl at)
  after_spin-EndsBy r rest (ok (some msg)) on at h = (on, inl at)
  after_spin-EndsBy r rest (ok none) on at h =
      later-EndsBy r rest (wait_loop deadline rest none) on at h

  wait_loop-EndsBy :
      (rounds : List (Round R Msg))
      → Any IsLate rounds
      → EndsBy rounds (wait_loop deadline rounds none)
  unfolding wait_loop
  wait_loop-EndsBy [] (none_there, u) = absurd none_there
  wait_loop-EndsBy (r ∷ rest) (inl over) = rw over (inl over)
  wait_loop-EndsBy (r ∷ rest) (inr late) = elim (Bool-cases (lt r.now deadline)) [
    | inr over ↦ rw over (inl over)
    | inl on ↦ rw on (after_spin-EndsBy r rest r.spun on refl (wait_loop-EndsBy rest late))
  ]

  -- What a capture gives: what `destroy_node` raises, or else the converted message, the error of a
  -- late frame, or the exception.
  abbrev pub Gives :
      {Image : Type 0}
      → Result Unit
      → Exception
      → (Msg → Result Image)
      → List (Round R Msg)
      → Captured Image
      → Type 0
  Gives destroy late convert rounds c =
      (c.destroyed ≡ true)
      × (((x : Exception) × (destroy ≡ err x) × (c.outcome ≡ some (err x)))
          ⊎ ((destroy ≡ ok tt)
              × (((msg : Msg) × Delivered msg rounds × (c.outcome ≡ some (convert msg)))
                  ⊎ ((Expires rounds × (c.outcome ≡ some (err late)))
                      ⊎ ((e : Exception) × Interrupts e rounds × (c.outcome ≡ some (err e)))))))

  release-Gives :
      {Image : Type 0} (late : Exception) (convert : Msg → Result Image)
      (rounds : List (Round R Msg)) (destroy : Result Unit) (w : Wait Msg)
      → EndsBy rounds w
      → Gives destroy late convert rounds (release destroy (frame_of late convert w))
  release-Gives late convert rounds destroy unfinished h = absurd h
  release-Gives late convert rounds (err x) expired h = (refl, inl (x, refl, refl))
  release-Gives late convert rounds (err x) (received msg) h = (refl, inl (x, refl, refl))
  release-Gives late convert rounds (err x) (interrupted e) h = (refl, inl (x, refl, refl))
  release-Gives late convert rounds (ok tt) expired h = (refl, inr (refl, inr (inl (h, refl))))
  release-Gives late convert rounds (ok tt) (received msg) h =
      (refl, inr (refl, inl (msg, h, refl)))
  release-Gives late convert rounds (ok tt) (interrupted e) h =
      (refl, inr (refl, inr (inr (e, h, refl))))

module _ {R Msg : Type 0} ⦃f : Float R⦄ where
  open f use {add}

  grab-Gives :
      {Image : Type 0} (what : String) (convert : Msg → Result Image) (topic : String)
      (timeout_s : R) (ros : Ros R Msg)
      → setup ros ≡ ok tt
      → Any (IsLate (add ros.start timeout_s)) ros.rounds
      → Gives
          (add ros.start timeout_s)
          ros.destroy
          (too_late what topic timeout_s)
          convert
          ros.rounds
          (grab what convert topic timeout_s ros)
  unfolding grab
  grab-Gives what convert topic timeout_s ros begun late =
      let deadline = add ros.start timeout_s in
      rw (begun, grab)
        (release-Gives deadline (too_late what topic timeout_s) convert ros.rounds ros.destroy
          (wait_loop deadline ros.rounds none) (wait_loop-EndsBy deadline ros.rounds late))

  -- Where the node and its subscription are made and the clock reaches the deadline at last, a capture
  -- ends, with its node's `destroy_node` called: where that raises, the capture raises the same; else it
  -- gives the first message, converted, if that comes before any late reading of the clock, the frame
  -- error if the late reading comes first, and else the exception that spin_once raised before them.
  pub ros_capture_fn-Gives :
      {Bgr Rgb Image : Type 0} (to_bgr : Msg → Result Bgr) (to_rgb : Bgr → Result Rgb)
      (from_array : Rgb → Result Image) (topic : String) (timeout_s : R) (ros : Ros R Msg)
      → setup ros ≡ ok tt
      → Any (IsLate (add ros.start timeout_s)) ros.rounds
      → Gives
          (add ros.start timeout_s)
          ros.destroy
          (too_late "no frame on " topic timeout_s)
          (λ msg. mapped from_array (mapped to_rgb (to_bgr msg)))
          ros.rounds
          (ros_capture_fn to_bgr to_rgb from_array topic timeout_s ros)
  unfolding ros_capture_fn
  ros_capture_fn-Gives to_bgr to_rgb from_array =
      grab-Gives "no frame on " (λ msg. mapped from_array (mapped to_rgb (to_bgr msg)))

  -- The same of a depth capture.
  ros_depth_capture_fn-Gives :
      (to_grid : Msg → Result (List (List R))) (topic : String) (timeout_s : R) (ros : Ros R Msg)
      → setup ros ≡ ok tt
      → Any (IsLate (add ros.start timeout_s)) ros.rounds
      → Gives
          (add ros.start timeout_s)
          ros.destroy
          (too_late "no depth frame on " topic timeout_s)
          to_grid
          ros.rounds
          (ros_depth_capture_fn to_grid topic timeout_s ros)
  unfolding ros_depth_capture_fn
  ros_depth_capture_fn-Gives to_grid = grab-Gives "no depth frame on " to_grid
