-- ===== src/Bridge/Wire/Truncation.antt =====
-- A stream that ends inside a frame (decode_frame of bridge/wire.py).
use rover_mind.Prelude.{
  ℕ, zero, suc, ◌+◌, ◌-◌, ◌≤◌, ◌<◌, String, ◌≡◌, refl, sym, ap, ◌∙◌, inl, inr, true, Option, none,
  some, List, [], ◌∷◌, ◌++◌, arith, ltb, length, length-append, Bool-cases,
}
use rover_mind.Prelude.Io.{Io, Result, ok, err, exception, lift, bind-ok, ◌>>=◌}
use rover_mind.Bridge.Wire.{
  Json, unpack, encode_frame, decode_payload, extend, read_loop, read_exactly, decode_header,
  decode_frame,
}
use rover_mind.Bridge.Wire.Framing.{
  IsStream, pack-unpack, chunk_split, read_exactly-Took, encode_frame-IsFrameOf,
}

-- The call raises MalformedFrameError.
abbrev pub IsMalformed : {W J : Type 0} → Result J × W → Type 0
IsMalformed {W} r =
    (text : String) × (w' : W) × (r ≡ (err (exception "MalformedFrameError" text), w'))

module _ {W : Type 0} (read : ℕ → Io W (List ℕ)) (rest : W → List ℕ)
    (stream : IsStream read rest) where
  -- The call finds the end of the stream.
  abbrev FindsEnd : Result (Option (List ℕ)) × W → Type 0
  FindsEnd r = (w' : W) × (r ≡ (ok none, w'))

  chunk-FindsEnd :
      (next : List ℕ → Io W (Option (List ℕ))) (buf chunk : List ℕ) (v : W)
      → (1 ≤ length chunk → FindsEnd (next (buf ++ chunk) v))
      → FindsEnd (extend read next buf chunk v)
  unfolding extend
  chunk-FindsEnd next buf [] v ih = (v, refl)
  chunk-FindsEnd next buf (c ∷ cs) v ih = ih (omega arith)

  read_loop-FindsEnd :
      (rounds n : ℕ) (buf : List ℕ) (w : W)
      → length buf + length (rest w) < n
      → n ≤ rounds + length buf
      → FindsEnd (read_loop read rounds n buf w)
  unfolding read_loop
  read_loop-FindsEnd zero n buf w h k = absurd (omega arith)
  read_loop-FindsEnd (suc rounds) n buf w h k =
      let wanted : ltb (length buf) n ≡ true = ground arith in
      let (chunk, v, took, gone, short, ended) = stream (n - length buf) w (omega arith) in
      let count : length (rest w) ≡ length chunk + length (rest v) =
        ap length gone ∙ length-append chunk (rest v) in
      rw
        (
          wanted,
          bind-ok (read (n - length buf)) (extend read (read_loop read rounds n) buf) w chunk v
              took,
        )
        (chunk-FindsEnd (read_loop read rounds n) buf chunk v (λ some_taken.
          read_loop-FindsEnd rounds n (buf ++ chunk) v (omega (arith, length-append buf chunk))
            (omega (arith, length-append buf chunk))))

  read_exactly-FindsEnd : (n : ℕ) (w : W) → length (rest w) < n → FindsEnd (read_exactly read n w)
  unfolding read_exactly
  read_exactly-FindsEnd n w h = read_loop-FindsEnd n n [] w (omega arith) (omega arith)

  module _ {J : Type 0} (json : Json J) where
    -- Where the stream ends inside an encoded frame, be it in the header or in the payload, decoding
    -- raises MalformedFrameError.
    pub decode_frame-IsMalformed :
        (obj : J) (frame seen : List ℕ) (missing : ℕ) (unseen : List ℕ) (w : W)
        → encode_frame json obj ≡ ok frame
        → frame ≡ seen ++ (missing ∷ unseen)
        → rest w ≡ seen
        → IsMalformed (decode_frame read json w)
    unfolding decode_frame decode_header decode_payload
    decode_frame-IsMalformed obj frame seen missing unseen w encoded cut r =
        let (payload, header, dumped, packed, whole) =
          encode_frame-IsFrameOf json obj frame encoded in
        let (unpacked, four) = pack-unpack (length payload) header packed in
        elim (Bool-cases (ltb (length seen) 4)) [
          | inl in_header ↦
              let early : length (rest w) < 4 = rw r (ground arith) in
              let (v, none_left) = read_exactly-FindsEnd 4 w early in
              (_, v, bind-ok (read_exactly read 4) (decode_header read json) w none v none_left)
          | inr in_payload ↦
              let (left, e1, e2) =
                chunk_split header payload seen (missing ∷ unseen) (sym whole ∙ cut)
                  (ground arith) in
              let (v, got_header, r1) = read_exactly-Took read rest stream header left w (r ∙ e1) in
              let few : length (rest v) < length payload =
                rw (r1, e2) (omega (arith, length-append left (missing ∷ unseen))) in
              let (w', none_left) = read_exactly-FindsEnd (length payload) v few in
              (
                _,
                w',
                bind-ok (read_exactly read 4) (decode_header read json) w (some header) v
                      (rw four at got_header)
                    ∙ bind-ok (lift (unpack header))
                        (λ declared.
                          read_exactly read declared >>= λ p. lift (decode_payload json declared p))
                        v (length payload) v (ap (λ (x : Result ℕ). (x, v)) unpacked)
                    ∙ bind-ok (read_exactly read (length payload))
                        (λ p. lift (decode_payload json (length payload) p)) v none w' none_left,
              )
        ]
