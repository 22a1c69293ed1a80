-- ===== src/Bridge/Wire.antt =====
-- The framing of the bridge (bridge/wire.py): a length of four bytes, then as many bytes of JSON. Bytes
-- are numbers below 256. The stream's read function and the JSON library are parameters.
pub mod Framing
pub mod Truncation
use rover_mind.Prelude.{
  ℕ, zero, suc, ◌+◌, ◌-◌, ◌*◌, ◌/◌, ◌%◌, String, Bool, true, false, Option, none, some, List, [],
  ◌∷◌, ◌++◌, if◌then◌else◌, ltb, str_eq, concat, length,
}
use rover_mind.Prelude.Int.{pos}
use rover_mind.Prelude.Io.{
  Exception, Io, Result, ok, err, exception, pure, raise, lift, ◌>>=◌, ◌>>◌,
}
use rover_mind.Prelude.Show.{show}

-- `json.dumps(obj).encode("utf-8")`, which raises for an object that JSON has not, and
-- `json.loads(payload.decode("utf-8"))`.
pub record Json (J : Type 0) : Type 0 where
  pub dumps : J → Result (List ℕ)
  pub loads : List ℕ → Result J

abbrev pub malformed : List String → Exception
malformed pieces = exception "MalformedFrameError" (concat pieces)

-- `struct.pack(">I", n)`
pub pack : ℕ → Result (List ℕ)
pack n =
    if ltb n 4_294_967_296
    then ok (n / 16_777_216 % 256 ∷ n / 65_536 % 256 ∷ n / 256 % 256 ∷ n % 256 ∷ [])
    else err (exception "struct.error" "'I' format requires 0 <= number <= 4294967295")

-- `struct.unpack(">I", header)`
pub unpack : List ℕ → Result ℕ
unpack (a ∷ b ∷ c ∷ d ∷ []) = ok (a * 16_777_216 + b * 65_536 + c * 256 + d)
unpack _ = err (exception "struct.error" "unpack requires a buffer of 4 bytes")

-- One frame: its header before its payload.
framed : List ℕ → Result (List ℕ) → Result (List ℕ)
framed payload (ok header) = ok (header ++ payload)
framed payload (err e) = err e

pub encode_payload : Result (List ℕ) → Result (List ℕ)
unfolding framed pack
encode_payload (ok payload) = framed payload (pack (length payload))
encode_payload (err e) = err e

unfoldable pub encode_frame : {J : Type 0} → Json J → J → Result (List ℕ)
unfolding encode_payload
encode_frame json obj = encode_payload (json.dumps obj)

-- The `try` at the end of `decode_frame`: a `JSONDecodeError` is renamed, any other exception leaves.
pub parsed : {J : Type 0} → Result J → Result J
parsed (ok obj) = ok obj
parsed (err exc) =
    if str_eq exc.kind "JSONDecodeError"
    then err (malformed ("invalid json payload: " ∷ exc.text ∷ []))
    else err exc

pub decode_payload : {J : Type 0} → Json J → ℕ → Option (List ℕ) → Result J
unfolding parsed
decode_payload json declared none = err (
    malformed
      ("truncated payload: declared " ∷ show (pos declared) ∷ " bytes, stream closed early" ∷ []))
decode_payload json declared (some payload) = parsed (json.loads payload)

module _ {W : Type 0} (read : ℕ → Io W (List ℕ)) where
  -- The end of the loop body of `_read_exactly`, where an empty chunk is the end of the stream.
  pub extend : (List ℕ → Io W (Option (List ℕ))) → List ℕ → List ℕ → Io W (Option (List ℕ))
  extend next buf [] = pure none
  extend next buf (c ∷ cs) = next (buf ++ (c ∷ cs))

  -- The loop of `_read_exactly`. Every round that goes on adds a byte, so that as many rounds as
  -- bytes are enough.
  pub read_loop : ℕ → ℕ → List ℕ → Io W (Option (List ℕ))
  unfolding extend
  read_loop zero n buf = pure (some buf)
  read_loop (suc rounds) n buf =
      if ltb (length buf) n
      then read (n - length buf) >>= extend (read_loop rounds n) buf
      else pure (some buf)

  pub read_exactly : ℕ → Io W (Option (List ℕ))
  unfolding read_loop
  read_exactly n = read_loop n n []

  module _ {J : Type 0} (json : Json J) where
    pub decode_header : Option (List ℕ) → Io W J
    unfolding unpack read_exactly decode_payload
    decode_header none = raise (malformed ("stream closed before length header complete" ∷ []))
    decode_header (some header) = do
      length ← lift (unpack header)
      payload ← read_exactly length
      lift (decode_payload json length payload)

    unfoldable pub decode_frame : Io W J
    unfolding decode_header read_exactly
    decode_frame = read_exactly 4 >>= decode_header
