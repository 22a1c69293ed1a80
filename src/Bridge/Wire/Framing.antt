-- ===== src/Bridge/Wire/Framing.antt =====
-- A frame read back from a stream that is cut into reads in any way (encode_frame and decode_frame of
-- bridge/wire.py).
use rover_mind.Prelude.{
  ℕ, zero, suc, ◌+◌, ◌-◌, ◌*◌, ◌/◌, ◌%◌, ◌≤◌, ◌<◌, ◌≡◌, refl, sym, ap, ◌∙◌, inl, inr, true, false,
  Option, some, List, [], ◌∷◌, ◌++◌, arith, ltb, length, length-append, Bool-cases,
}
use rover_mind.Prelude.Io.{Io, Result, ok, err, lift, bind-ok, ◌>>=◌}
use rover_mind.Bridge.Wire.{
  Json, pack, unpack, framed, encode_payload, encode_frame, parsed, decode_payload, extend,
  read_loop, read_exactly, decode_header, decode_frame,
}

bytes_sum :
    (n : ℕ)
    → n < 4_294_967_296
    → n / 16_777_216 % 256 * 16_777_216 + n / 65_536 % 256 * 65_536 + n / 256 % 256 * 256 + n % 256
      ≡ n
bytes_sum n h = omega arith

pub ok-inj : (a b : List ℕ) → ok a ≡ ok b → a ≡ b
ok-inj a b e = cc

pub pack-unpack :
    (n : ℕ) (header : List ℕ) → pack n ≡ ok header → (unpack header ≡ ok n) × (length header ≡ 4)
unfolding pack unpack
pack-unpack n header h = elim (Bool-cases (ltb n 4_294_967_296)) [
  | inl small ↦
      rw (sym (ok-inj _ header (rw small at h))) (ap ok (bytes_sum n (ground arith)), refl)
  | inr large ↦ absurd (ground arith)
]

append_assoc : (xs ys zs : List ℕ) → (xs ++ ys) ++ zs ≡ xs ++ (ys ++ zs)
append_assoc [] ys zs = refl
append_assoc (x ∷ xs) ys zs = ap (λ (l : List ℕ). x ∷ l) (append_assoc xs ys zs)

append_nil : (xs : List ℕ) → xs ++ [] ≡ xs
append_nil [] = refl
append_nil (x ∷ xs) = ap (λ (l : List ℕ). x ∷ l) (append_nil xs)

-- A chunk that is no longer than what is wanted is a part of it.
pub chunk_split :
    (chunk rest bs more : List ℕ)
    → chunk ++ rest ≡ bs ++ more
    → length chunk ≤ length bs
    → (left : List ℕ) × (bs ≡ chunk ++ left) × (rest ≡ left ++ more)
chunk_split [] rest bs more e h = (bs, refl, e)
chunk_split (c ∷ chunk) rest [] more e h = absurd (omega arith)
chunk_split (c ∷ chunk) rest (b ∷ bs) more e h =
    let (left, e1, e2) = chunk_split chunk rest bs more (ground arith) (omega arith) in
    (left, ground arith, e2)

module _ {W : Type 0} (read : ℕ → Io W (List ℕ)) (rest : W → List ℕ) where
  -- The bytes still to come are what `rest` says: a read of n bytes takes at most n of them off the
  -- front, and none only at the end of the stream.
  abbrev pub IsStream : Type 0
  IsStream =
      (n : ℕ) (w : W)
      → 1 ≤ n
      → (chunk : List ℕ) × (w' : W) × (read n w ≡ (ok chunk, w'))
        × (rest w ≡ chunk ++ rest w')
        × (length chunk ≤ n)
        × (chunk ≡ [] → rest w ≡ [])

  -- The call returns the bytes and leaves the stream behind them.
  abbrev pub Took : List ℕ → List ℕ → Result (Option (List ℕ)) × W → Type 0
  Took bs more r = (w' : W) × (r ≡ (ok (some bs), w')) × (rest w' ≡ more)

  chunk-Took :
      (next : List ℕ → Io W (Option (List ℕ))) (buf bs more chunk : List ℕ) (v : W)
      → chunk ++ rest v ≡ bs ++ more
      → length chunk ≤ length bs
      → (chunk ≡ [] → ⊥)
      → ((left : List ℕ)
          → length bs ≡ length chunk + length left
          → 1 ≤ length chunk
          → rest v ≡ left ++ more
          → Took ((buf ++ chunk) ++ left) more (next (buf ++ chunk) v))
      → Took (buf ++ bs) more (extend read next buf chunk v)
  unfolding extend
  chunk-Took next buf bs more [] v e short some_left ih = absurd (some_left refl)
  chunk-Took next buf bs more (c ∷ cs) v e short some_left ih =
      let (left, whole, r) = chunk_split (c ∷ cs) (rest v) bs more e short in
      rw (whole, ← append_assoc buf (c ∷ cs) left)
        (ih left (ap length whole ∙ length-append (c ∷ cs) left) (omega arith) r)

  module _ (stream : IsStream) where
    read_loop-Took :
        (rounds n : ℕ) (buf bs more : List ℕ) (w : W)
        → length buf + length bs ≡ n
        → length bs ≤ rounds
        → rest w ≡ bs ++ more
        → Took (buf ++ bs) more (read_loop read rounds n buf w)
    unfolding read_loop
    read_loop-Took zero n buf [] more w e h r = (w, rw (append_nil buf) refl, r)
    read_loop-Took zero n buf (b ∷ bs) more w e h r = absurd (omega arith)
    read_loop-Took (suc rounds) n buf [] more w e h r =
        let full : ltb (length buf) n ≡ false = ground arith in
        (w, rw (full, append_nil buf) refl, r)
    read_loop-Took (suc rounds) n buf (b ∷ bs) more w e h r =
        let wanted : ltb (length buf) n ≡ true = ground arith in
        let (chunk, v, took, gone, short, ended) = stream (n - length buf) w (omega arith) in
        rw
          (
            wanted,
            bind-ok (read (n - length buf)) (extend read (read_loop read rounds n) buf) w chunk v
                took,
          )
          (chunk-Took (read_loop read rounds n) buf (b ∷ bs) more chunk v (sym gone ∙ r)
            (omega arith) (λ none_left. cc (sym r ∙ ended none_left))
            (λ left count some_taken r'.
              read_loop-Took rounds n (buf ++ chunk) left more v
                (omega (arith, length-append buf chunk)) (omega arith) r'))

    pub read_exactly-Took :
        (bs more : List ℕ) (w : W)
        → rest w ≡ bs ++ more
        → Took bs more (read_exactly read (length bs) w)
    unfolding read_exactly
    read_exactly-Took bs more w r =
        read_loop-Took (length bs) (length bs) [] bs more w (omega arith) (omega arith) r

module _ {J : Type 0} (json : Json J) where
  -- The header and the payload of an encoded frame.
  abbrev pub IsFrameOf : J → List ℕ → Type 0
  IsFrameOf obj frame =
      (payload : List ℕ) × (header : List ℕ) × (json.dumps obj ≡ ok payload)
      × (pack (length payload) ≡ ok header)
      × (frame ≡ header ++ payload)

  framed-cases :
      (payload frame : List ℕ) (r : Result (List ℕ))
      → framed payload r ≡ ok frame
      → (header : List ℕ) × (r ≡ ok header) × (frame ≡ header ++ payload)
  unfolding framed
  framed-cases payload frame (ok header) h = (header, refl, sym (ok-inj _ _ h))
  framed-cases payload frame (err e) h = cc

  encode_payload-cases :
      (obj : J) (frame : List ℕ) (r : Result (List ℕ))
      → json.dumps obj ≡ r
      → encode_payload r ≡ ok frame
      → IsFrameOf obj frame
  unfolding encode_payload
  encode_payload-cases obj frame (ok payload) e h =
      let (header, packed, whole) = framed-cases payload frame (pack (length payload)) h in
      (payload, header, e, packed, whole)
  encode_payload-cases obj frame (err exc) e h = cc

  pub encode_frame-IsFrameOf :
      (obj : J) (frame : List ℕ) → encode_frame json obj ≡ ok frame → IsFrameOf obj frame
  unfolding encode_frame
  encode_frame-IsFrameOf obj frame h = encode_payload-cases obj frame (json.dumps obj) refl h

  -- A payload whose length fits the header is framed.
  pub encode_frame-small :
      (obj : J) (payload : List ℕ)
      → json.dumps obj ≡ ok payload
      → length payload < 4_294_967_296
      → (frame : List ℕ) × (encode_frame json obj ≡ ok frame)
  unfolding encode_frame encode_payload framed pack
  encode_frame-small obj payload dumped small =
      let fits : ltb (length payload) 4_294_967_296 ≡ true = ground arith in
      rw (dumped, encode_payload, fits) (_, refl)

  module _ {W : Type 0} (read : ℕ → Io W (List ℕ)) (rest : W → List ℕ)
      (stream : IsStream read rest) where
    -- A frame that was encoded comes back: where the stream, however it cuts its reads, still has the
    -- frame to come and then more, decoding returns the object and leaves the stream exactly behind
    -- the frame, given that JSON reads back what it wrote of the object.
    pub decode_frame-encode_frame :
        (obj : J) (frame more : List ℕ) (w : W)
        → ((payload : List ℕ) → json.dumps obj ≡ ok payload → json.loads payload ≡ ok obj)
        → encode_frame json obj ≡ ok frame
        → rest w ≡ frame ++ more
        → (w' : W) × (decode_frame read json w ≡ (ok obj, w')) × (rest w' ≡ more)
    unfolding decode_frame decode_header decode_payload parsed
    decode_frame-encode_frame obj frame more w reads_back encoded r =
        let (payload, header, dumped, packed, whole) = encode_frame-IsFrameOf obj frame encoded in
        let (unpacked, four) = pack-unpack (length payload) header packed in
        let (v, got_header, r1) =
          read_exactly-Took read rest stream header (payload ++ more) w
            (r ∙ ap (λ (l : List ℕ). l ++ more) whole ∙ append_assoc header payload more) in
        let (w', got_payload, r2) = read_exactly-Took read rest stream payload more v r1 in
        (
          w',
          bind-ok (read_exactly read 4) (decode_header read json) w (some header) v
                (rw four at got_header)
              ∙ bind-ok (lift (unpack header))
                  (λ declared.
                    read_exactly read declared >>= λ p. lift (decode_payload json declared p))
                  v (length payload) v (ap (λ (x : Result ℕ). (x, v)) unpacked)
              ∙ bind-ok (read_exactly read (length payload))
                  (λ p. lift (decode_payload json (length payload) p)) v (some payload) w'
                  got_payload
              ∙ ap (λ (x : Result J). (parsed x, w')) (reads_back payload dumped),
          r2,
        )
