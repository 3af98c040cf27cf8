-- ===== src/Hardware/Kiss/Codec.antt =====
-- Decoding what was encoded, byte by byte.
use mathlib.Core.List.{append_assoc, append-nil}
use openhop_core.Prelude.{
  ℕ, All, ◌+◌, ◌≤◌, ◌<◌, ◌≡◌, ◌≢◌, refl, true, false, List, [], ◌∷◌, ◌++◌, length, length-append,
  arith,
}
use openhop_core.Hardware.Kiss.{
  Decoder, fend, fesc, escape, encode_kiss_frame, decode_kiss_byte, decode_bytes,
}

module _ {S : Type 0} (process : List ℕ → S → S) (frame_error : S → S) where
  pub decode_bytes-append :
      (xs ys : List ℕ) (d : Decoder S)
      → decode_bytes process frame_error (xs ++ ys) d
        ≡ decode_bytes process frame_error ys (decode_bytes process frame_error xs d)
  unfolding decode_bytes
  decode_bytes-append [] ys d = refl
  decode_bytes-append (x ∷ xs) ys d =
      decode_bytes-append xs ys (decode_kiss_byte process frame_error x d)

  -- The decoder after a complete frame.
  abbrev pub delivered : List ℕ → S → Decoder S
  delivered frame s = record {
    buffer = [];
    in_frame = true;
    escaped = false;
    sink = process frame s;
  }

  pub decode_bytes-escape :
      (data_ : List ℕ) (d : Decoder S)
      → d.in_frame ≡ true
      → d.escaped ≡ false
      → 0 < length d.buffer
      → length d.buffer + length data_ ≤ 512
      → decode_bytes process frame_error (escape data_) d ≡ delivered (d.buffer ++ data_) d.sink
  unfolding decode_bytes escape decode_kiss_byte
  decode_bytes-escape [] d inside plain some_ room = rw append-nil (ground arith)
  decode_bytes-escape (b ∷ data_) d inside plain some_ room = ground (
    arith,
    decode_bytes-escape data_ (record d { buffer = d.buffer ++ b ∷ []; escaped = false }),
    length-append d.buffer (b ∷ []),
    append_assoc d.buffer (b ∷ []) data_,
  )

  -- The command byte is not escaped, so it must not be a delimiter; a frame holds 512 bytes.
  pub record IsFrame (cmd : ℕ) (data_ : List ℕ) : Type 0 where
    pub not_fend : cmd ≢ fend
    pub not_fesc : cmd ≢ fesc
    pub room : length data_ ≤ 511

  -- Outside a frame, or behind a FEND, an encoded frame is delivered once and whole.
  pub decode_bytes-encode :
      (cmd : ℕ) (data_ : List ℕ) (d : Decoder S)
      → IsFrame cmd data_
      → d.buffer ≡ []
      → decode_bytes process frame_error (encode_kiss_frame cmd data_) d
        ≡ delivered (cmd ∷ data_) d.sink
  unfolding decode_bytes encode_kiss_frame decode_kiss_byte
  decode_bytes-encode cmd data_ d f empty = ground (
    arith,
    decode_bytes-escape data_
        (record { buffer = cmd ∷ []; in_frame = true; escaped = false; sink = d.sink }),
  )

  unfoldable pub encode_all : List (ℕ × List ℕ) → List ℕ
  encode_all [] = []
  encode_all ((cmd, data_) ∷ frames) = encode_kiss_frame cmd data_ ++ encode_all frames

  unfoldable pub process_all : List (ℕ × List ℕ) → S → S
  process_all [] s = s
  process_all ((cmd, data_) ∷ frames) s = process_all frames (process (cmd ∷ data_) s)

  -- The byte decoder, on the concatenated encodings of frames, hands exactly those frames on, each
  -- once and in order, reports no error and is ready for the next frame. Each command byte is no
  -- delimiter, each frame has at most 511 data bytes, and no partial frame is pending.
  pub decode_bytes-encode_all :
      (frames : List (ℕ × List ℕ)) (d : Decoder S)
      → All (λ f. IsFrame f.0 f.1) frames
      → d.buffer ≡ []
      → ((decode_bytes process frame_error (encode_all frames) d).sink ≡ process_all frames d.sink)
        × ((decode_bytes process frame_error (encode_all frames) d).buffer ≡ [])
  unfolding encode_all process_all
  decode_bytes-encode_all [] d fs empty = unfold decode_bytes in (refl, empty)
  decode_bytes-encode_all ((cmd, data_) ∷ frames) d fs empty =
      rw (decode_bytes-append, decode_bytes-encode cmd data_ d fs.0 empty)
        (decode_bytes-encode_all frames (delivered (cmd ∷ data_) d.sink) fs.1 refl)
