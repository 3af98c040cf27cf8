-- ===== src/Hardware/Kiss.antt =====
-- The KISS framing of hardware/kiss_modem_wrapper.py: `_encode_kiss_frame`, the byte decoder
-- `_decode_kiss_byte`, and the bulk decoder `_decode_kiss` that the RX worker runs. What
-- `_process_received_frame` and the frame_errors counter do to the rest of the modem object is the
-- sink, a parameter; neither touches the decoder's own fields.
pub mod Codec
pub mod Bulk
use openhop_core.Prelude.{
  ℕ, zero, suc, ◌+◌, Bool, true, false, ◌&&◌, Option, none, some, List, [], ◌∷◌, ◌++◌, length, take,
  drop, ltb, leb, ◌==◌, if◌then◌else◌,
}

abbrev pub fend : ℕ
fend = 0xC0

abbrev pub fesc : ℕ
fesc = 0xDB

abbrev pub tfend : ℕ
tfend = 0xDC

abbrev pub tfesc : ℕ
tfesc = 0xDD

abbrev pub max_frame_size : ℕ
max_frame_size = 512

-- The loop of `_encode_kiss_frame` over the data, and the closing FEND.
unfoldable pub escape : List ℕ → List ℕ
escape [] = fend ∷ []
escape (byte ∷ data_) =
    if byte == fend
    then fesc ∷ tfend ∷ escape data_
    else if byte == fesc
    then fesc ∷ tfesc ∷ escape data_
    else byte ∷ escape data_

unfoldable pub encode_kiss_frame : ℕ → List ℕ → List ℕ
encode_kiss_frame cmd data_ = fend ∷ cmd ∷ escape data_

pub record Decoder (S : Type 0) : Type 0 where
  pub buffer : List ℕ
  pub in_frame : Bool
  pub escaped : Bool
  pub sink : S

-- `data.find(bytes([b]))`
unfoldable pub find : ℕ → List ℕ → Option ℕ
find b [] = none
find b (x ∷ xs) =
    if x == b then some 0 else elim (find b xs) [ none ↦ none | some i ↦ some (suc i) ]

-- The nearer of the two delimiters.
abbrev pub nearer : Option ℕ → Option ℕ → Option ℕ
nearer none fesc_at = fesc_at
nearer (some i) none = some i
nearer (some i) (some j) = if ltb i j then some i else some j

module _ {S : Type 0} (process : List ℕ → S → S) (frame_error : S → S) where
  -- An invalid escape or an overlong frame: resync at the next FEND.
  unfoldable pub resync : Decoder S → Decoder S
  resync d = record d { buffer = []; in_frame = false; sink = frame_error d.sink }

  unfoldable pub on_fend : Decoder S → Decoder S
  on_fend d = record {
    buffer = [];
    in_frame = true;
    escaped = false;
    sink = if d.in_frame && ltb 0 (length d.buffer) then process d.buffer d.sink else d.sink;
  }

  unfoldable pub on_escaped : ℕ → Decoder S → Decoder S
  unfolding resync
  on_escaped byte d =
      if byte == tfend
      then record d { buffer = d.buffer ++ fend ∷ []; escaped = false }
      else if byte == tfesc
      then record d { buffer = d.buffer ++ fesc ∷ []; escaped = false }
      else record (resync d) { escaped = false }

  unfoldable pub decode_kiss_byte : ℕ → Decoder S → Decoder S
  unfolding on_fend on_escaped
  decode_kiss_byte byte d =
      if byte == fend
      then on_fend d
      else if byte == fesc
      then (if d.in_frame then record d { escaped = true } else d)
      else if d.escaped
      then on_escaped byte d
      else if d.in_frame
      then (if leb max_frame_size (length d.buffer)
          then resync d
          else record d { buffer = d.buffer ++ byte ∷ [] })
      else d

  -- `for byte in data: self._decode_kiss_byte(byte)`
  unfoldable pub decode_bytes : List ℕ → Decoder S → Decoder S
  decode_bytes [] d = d
  decode_bytes (byte ∷ data_) d = decode_bytes data_ (decode_kiss_byte byte d)

  -- The run of plain bytes in front of the next delimiter, copied at once.
  unfoldable pub copy_run : List ℕ → Decoder S → Decoder S
  unfolding resync
  copy_run run d =
      if ltb 0 (length run) && d.in_frame
      then (if leb (length d.buffer + length run) max_frame_size
          then record d { buffer = d.buffer ++ run }
          else resync d)
      else d

  unfoldable pub on_delimiter : ℕ → Decoder S → Decoder S
  unfolding on_fend
  on_delimiter byte d =
      if byte == fend then on_fend d else if d.in_frame then record d { escaped = true } else d

  -- The loop goes on behind the delimiter at the head of the data that is left.
  unfoldable pub resume :
      (List ℕ → Decoder S → Option (Decoder S)) → List ℕ → Decoder S → Option (Decoder S)
  resume loop [] d = some d
  resume loop (byte ∷ rest) d = loop rest (on_delimiter byte d)

  -- The `while i < n` loop, on the data that is left, with fuel; `none` when that runs out.
  unfoldable pub decode_loop : ℕ → List ℕ → Decoder S → Option (Decoder S)
  decode_loop zero data_ d = none
  decode_loop (suc fuel) [] d = some d
  decode_loop (suc fuel) (b ∷ rest) d =
      let after_escape = decode_loop fuel rest (on_escaped b d) in
      let plain_run : Option (Decoder S) =
        elim (nearer (find fend (b ∷ rest)) (find fesc (b ∷ rest))) [
          | none ↦ some (copy_run (b ∷ rest) d)
          | some n ↦ resume (decode_loop fuel) (drop n (b ∷ rest)) (copy_run (take n (b ∷ rest)) d)
        ] in
      if d.escaped then after_escape else plain_run

  -- Each round consumes a byte, so one more round than bytes is enough.
  unfoldable pub decode_kiss : List ℕ → Decoder S → Option (Decoder S)
  unfolding decode_loop on_escaped copy_run resume on_delimiter
  decode_kiss data_ d = decode_loop (suc (length data_)) data_ d
