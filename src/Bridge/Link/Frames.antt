-- ===== src/Bridge/Link/Frames.antt =====
-- The link seen without its frames (encode_frame and decode_frame of bridge/wire.py around _handle).
use rover_mind.Prelude.{
  ℕ, zero, suc, ◌≤◌, ◌<◌, ◌≡◌, refl, sym, ap, ◌∙◌, List, [], ◌∷◌, ◌++◌, arith, take, drop, length,
}
use rover_mind.Prelude.Io.{Exception, Result, ok, err}
use rover_mind.Prelude.Text.{Unicode}
use rover_mind.Float.{Float}
use rover_mind.Bridge.Wire.{Json, encode_frame}
use rover_mind.Bridge.Wire.Framing.{IsStream, ok-inj, encode_frame-small, decode_frame-encode_frame}
use rover_mind.Bridge.Values.{Value, Interpreter}
use rover_mind.Bridge.Server.{Devices, Server, handle}
use rover_mind.Bridge.Link.{memory, closed_stream, decoded, delivered, received, sent, link}

take-drop : (n : ℕ) (bytes : List ℕ) → bytes ≡ take n bytes ++ drop n bytes
take-drop zero bytes = refl
take-drop (suc n) [] = refl
take-drop (suc n) (b ∷ bytes) = ap (λ (l : List ℕ). b ∷ l) (take-drop n bytes)

length-take-le : (n : ℕ) (bytes : List ℕ) → length (take n bytes) ≤ n
length-take-le zero bytes = omega arith
length-take-le (suc n) [] = omega arith
length-take-le (suc n) (b ∷ bytes) = omega (arith, length-take-le n bytes)

take-nil : (n : ℕ) (bytes : List ℕ) → 1 ≤ n → take n bytes ≡ [] → bytes ≡ []
take-nil zero bytes h e = absurd (omega arith)
take-nil (suc n) [] h e = refl
take-nil (suc n) (b ∷ bytes) h e = cc

memory-IsStream : IsStream memory (λ bytes. bytes)
memory-IsStream n bytes h = (
  take n bytes,
  drop n bytes,
  refl,
  take-drop n bytes,
  length-take-le n bytes,
  take-nil n bytes h,
)

append_nil : (xs : List ℕ) → xs ≡ xs ++ []
append_nil [] = refl
append_nil (x ∷ xs) = ap (λ (l : List ℕ). x ∷ l) (append_nil xs)

module _ {R : Type 0} (json : Json (Value R)) where
  -- JSON writes the value, in fewer than 2 ^ 32 bytes, and reads it back.
  abbrev pub IsCarried : Value R → Type 0
  IsCarried v =
      (payload : List ℕ) × (json.dumps v ≡ ok payload)
      × (json.loads payload ≡ ok v)
      × (length payload < 4_294_967_296)

  encodes :
      (v : Value R)
      → IsCarried v
      → (frame : List ℕ) × (encode_frame json v ≡ ok frame) × (decoded json frame ≡ ok v)
  encodes v (payload, dumped, loaded, small) =
      let (frame, encoded) = encode_frame-small json v payload dumped small in
      let (left, back, empty) =
        decode_frame-encode_frame json memory (λ bytes. bytes) memory-IsStream v frame [] frame
          (λ p e. rw (ok-inj p payload (sym e ∙ dumped)) loaded) encoded (append_nil frame) in
      (frame, encoded, ap (λ (r : Result (Value R) × List ℕ). r.0) back)

  module _ {W Image : Type 0} (u : Unicode) ⦃f : Float R⦄ (py : Interpreter R) (clock : ℕ → R)
      (devices : Devices R W Image) where
    -- Where both messages are carried, the client sees the server's reply, and the server's state is
    -- the one after it.
    pub link-handle :
        (request reply : Value R) (s : Server R W)
        → IsCarried request
        → (handle u py clock devices request s).0 ≡ ok reply
        → IsCarried reply
        → link json u py clock devices request s
          ≡ (ok reply, (handle u py clock devices request s).1)
    unfolding link sent received delivered
    link-handle request reply s out handled back =
        let (frame, encoded, decodes) = encodes request out in
        let (frame', encoded', decodes') = encodes reply back in
        rw (encoded, sent, decodes, received, handled, delivered, encoded', decodes') refl

    -- Where the server stops instead of replying, the client reads a closed stream.
    pub link-raised :
        (request : Value R) (e : Exception) (s : Server R W)
        → IsCarried request
        → (handle u py clock devices request s).0 ≡ err e
        → link json u py clock devices request s
          ≡ (err closed_stream, (handle u py clock devices request s).1)
    unfolding link sent received delivered
    link-raised request e s out handled =
        let (frame, encoded, decodes) = encodes request out in
        rw (encoded, sent, decodes, received, handled, delivered) refl
