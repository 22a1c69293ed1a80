-- ===== src/Bridge/Link.antt =====
-- A client and a server joined by a stream that loses nothing: a request goes out as a frame, is read
-- and handled by the server, and the reply comes back as a frame. A server that stops instead closes
-- the stream.
pub mod Frames
pub mod Replies
pub mod Refining
use rover_mind.Prelude.{ℕ, zero, suc, String, Bool, true, false, List, [], ◌∷◌, take, drop}
use rover_mind.Prelude.Io.{Exception, Io, Result, ok, err}
use rover_mind.Prelude.Text.{Unicode}
use rover_mind.Float.{Float}
use rover_mind.Bridge.Wire.{Json, malformed, encode_frame, decode_frame}
use rover_mind.Bridge.Values.{Value, Interpreter}
use rover_mind.Bridge.Server.{Devices, Server, handle}

-- A stream that holds all of its bytes: a read gives as many as it asks for.
abbrev pub memory : ℕ → Io (List ℕ) (List ℕ)
memory n bytes = (ok (take n bytes), drop n bytes)

-- What the client reads of a stream that was closed.
abbrev pub closed_stream : Exception
closed_stream = malformed ("stream closed before length header complete" ∷ [])

module _ {R : Type 0} (json : Json (Value R)) where
  -- One frame read off its bytes.
  abbrev pub decoded : List ℕ → Result (Value R)
  decoded frame = (decode_frame memory json frame).0

  -- The reply on its way back.
  pub delivered : Result (Value R) → Result (Value R)
  unfolding encode_frame decode_frame
  delivered (err e) = err closed_stream
  delivered (ok reply) = elim (encode_frame json reply) [
    | err e ↦ err closed_stream
    | ok frame ↦ decoded frame
  ]

  module _ {W Image : Type 0} (u : Unicode) ⦃f : Float R⦄ (py : Interpreter R) (clock : ℕ → R)
      (devices : Devices R W Image) where
    pub received : Result (Value R) → Server R W → Result (Value R) × Server R W
    unfolding delivered handle
    received (err e) s = (err closed_stream, s)
    received (ok request) s =
        let (reply, s') = handle u py clock devices request s in (delivered reply, s')

    -- The request on its way out.
    pub sent : Result (List ℕ) → Server R W → Result (Value R) × Server R W
    unfolding received decode_frame
    sent (err e) s = (err e, s)
    sent (ok frame) s = received (decoded frame) s

    unfoldable pub link : Value R → Io (Server R W) (Value R)
    unfolding sent encode_frame
    link request s = sent (encode_frame json request) s
