-- ===== src/Perception/Capture.antt =====
-- One frame off a ROS topic (ros_capture_fn and ros_depth_capture_fn of perception/vision_tool.py), over
-- what the calls of rclpy come to.
pub mod Waiting
mod Tests
use rover_mind.Prelude.{
  String, Bool, true, false, Option, none, some, List, [], ◌∷◌, if◌then◌else◌, concat,
}
use rover_mind.Prelude.Io.{Exception, Result, ok, err, exception, mapped}
use rover_mind.Float.{Float}

-- One round of the wait: the clock, as the loop's test reads it, and the message that the callback
-- has got from `spin_once`.
pub record Round (R Msg : Type 0) : Type 0 where
  pub now : R
  pub spun : Result (Option Msg)

-- What rclpy answers: `ok()`, `init`, the new node, its subscription, the clock before the wait, the
-- rounds of the wait, and `destroy_node`.
pub record Ros (R Msg : Type 0) : Type 0 where
  pub up : Bool
  pub init : Result Unit
  pub node : Result Unit
  pub subscription : Result Unit
  pub start : R
  pub rounds : List (Round R Msg)
  pub destroy : Result Unit

-- How the wait ends, where its script is long enough.
pub data Wait (Msg : Type 0) : Type 0 where
  unfinished expired : Wait Msg
  received : Msg → Wait Msg
  interrupted : Exception → Wait Msg

pub record Captured (Image : Type 0) : Type 0 where
  pub outcome : Option (Result Image)
  pub destroyed : Bool

-- The calls in front of the `try`.
unfoldable pub setup : {R Msg : Type 0} → Ros R Msg → Result Unit
setup ros =
    mapped (λ up. mapped (λ node. ros.subscription) ros.node) (if ros.up then ok tt else ros.init)

-- How the loop goes on after `spin_once`.
abbrev pub after_spin : {Msg : Type 0} → (Option Msg → Wait Msg) → Result (Option Msg) → Wait Msg
after_spin next (err e) = interrupted e
after_spin next (ok msg) = next msg

-- The `finally`: an exception of `destroy_node` replaces another.
abbrev pub release : {Image : Type 0} → Result Unit → Option (Result Image) → Captured Image
release destroy none = record { outcome = none; destroyed = false }
release (err e) (some r) = record { outcome = some (err e); destroyed = true }
release (ok tt) (some r) = record { outcome = some r; destroyed = true }

module _ {R Msg : Type 0} ⦃f : Float R⦄ where
  open f use {lt}

  unfoldable pub wait_loop : R → List (Round R Msg) → Option Msg → Wait Msg
  wait_loop deadline rounds (some msg) = received msg
  wait_loop deadline [] none = unfinished
  wait_loop deadline (r ∷ rest) none =
      if lt r.now deadline then after_spin (wait_loop deadline rest) r.spun else expired

-- The end of the `try`.
abbrev pub frame_of :
    {Msg Image : Type 0} → Exception → (Msg → Result Image) → Wait Msg → Option (Result Image)
frame_of late convert unfinished = none
frame_of late convert expired = some (err late)
frame_of late convert (received msg) = some (convert msg)
frame_of late convert (interrupted e) = some (err e)

-- The error of a frame that does not come in time.
abbrev pub too_late : {R : Type 0} → ⦃f : Float R⦄ → String → String → R → Exception
too_late ⦃f⦄ what topic timeout_s =
    exception "FrameCaptureError"
      (concat (what ∷ topic ∷ " within " ∷ f.fixed 1 timeout_s ∷ "s" ∷ []))

module _ {R Msg Image : Type 0} ⦃f : Float R⦄ where
  open f use {add}

  -- What the two functions share: they differ in the text and in the conversion.
  unfoldable pub grab : String → (Msg → Result Image) → String → R → Ros R Msg → Captured Image
  unfolding setup wait_loop
  grab what convert topic timeout_s ros = elim (setup ros) [
    | err e ↦ record { outcome = some (err e); destroyed = false }
    | ok done ↦ release ros.destroy (
        frame_of (too_late what topic timeout_s) convert
          (wait_loop (add ros.start timeout_s) ros.rounds none))
  ]

-- `imgmsg_to_cv2`, `cvtColor` and `Image.fromarray` are parameters.
unfoldable pub ros_capture_fn :
    {R Msg Bgr Rgb Image : Type 0}
    → ⦃f : Float R⦄ → (Msg → Result Bgr)
    → (Bgr → Result Rgb)
    → (Rgb → Result Image)
    → String
    → R
    → Ros R Msg
    → Captured Image
unfolding grab
ros_capture_fn to_bgr to_rgb from_array =
    grab "no frame on " (λ msg. mapped from_array (mapped to_rgb (to_bgr msg)))

unfoldable pub ros_depth_capture_fn :
    {R Msg : Type 0}
    → ⦃f : Float R⦄ → (Msg → Result (List (List R)))
    → String
    → R
    → Ros R Msg
    → Captured (List (List R))
unfolding grab
ros_depth_capture_fn to_grid = grab "no depth frame on " to_grid
