-- ===== src/Bridge/Tests.antt =====
-- Frames on a stream that gives one byte at a time.
mod Calls
mod Endings
use rover_mind.Prelude.{ℕ, ◌≡◌, refl, sym, List, [], ◌∷◌, ◌++◌, arith, str_eq, Bool, true, false}
use rover_mind.Prelude.Io.{Io, Result, ok, err}
use rover_mind.Bridge.Wire.{Json, encode_frame, decode_frame}
use rover_mind.Bridge.Wire.Framing.{IsStream, decode_frame-encode_frame}
use rover_mind.Bridge.Wire.Truncation.{IsMalformed, decode_frame-IsMalformed}

-- Objects that are their own text.
abbrev plain : Json (List ℕ)
plain = record { dumps = ok; loads = ok }

abbrev one_byte : ℕ → Io (List ℕ) (List ℕ)
one_byte n [] = (ok [], [])
one_byte n (b ∷ bs) = (ok (b ∷ []), bs)

one_byte-IsStream : IsStream one_byte (λ bytes. bytes)
one_byte-IsStream n [] h = ([], [], refl, refl, omega arith, λ e. refl)
one_byte-IsStream n (b ∷ bs) h = (b ∷ [], bs, refl, refl, h, λ e. cc)

abbrev object : List ℕ
object = 123 ∷ 125 ∷ []

abbrev frame : List ℕ
frame = 0 ∷ 0 ∷ 0 ∷ 2 ∷ object

abbrev more : List ℕ
more = 0 ∷ 0 ∷ []

encodes : encode_frame plain object ≡ ok frame
unfolding encode_frame
encodes = refl

decodes : decode_frame one_byte plain (frame ++ more) ≡ (ok object, more)
unfolding decode_frame
decodes = refl

abbrev is_malformed : Result (List ℕ) → Bool
is_malformed (ok obj) = false
is_malformed (err e) = str_eq e.kind "MalformedFrameError"

truncated : is_malformed (decode_frame one_byte plain (0 ∷ 0 ∷ 0 ∷ 2 ∷ 123 ∷ [])).0 ≡ true
unfolding decode_frame
truncated = refl

decode_frame-encode_frame_example :
    (left : List ℕ) × (decode_frame one_byte plain (frame ++ more) ≡ (ok object, left))
    × (left ≡ more)
decode_frame-encode_frame_example =
    decode_frame-encode_frame plain one_byte (λ bytes. bytes) one_byte-IsStream object frame more
      (frame ++ more) (λ payload e. sym e) encodes refl

abbrev cut_frame : List ℕ
cut_frame = 0 ∷ 0 ∷ 0 ∷ 2 ∷ 123 ∷ []

decode_frame-IsMalformed_example : IsMalformed (decode_frame one_byte plain cut_frame)
decode_frame-IsMalformed_example =
    decode_frame-IsMalformed one_byte (λ bytes. bytes) one_byte-IsStream plain object frame
      cut_frame 125 [] cut_frame encodes refl refl
