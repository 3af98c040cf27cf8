-- ===== src/Tests/Kiss.antt =====
-- The KISS codec at two frames, one with escaped bytes; the decoder's state is the frames it handed
-- on and the errors it counted.
use openhop_core.Prelude.{ℕ, suc, ◌≡◌, All, refl, true, false, some, List, [], ◌∷◌, ◌++◌, arith}
use openhop_core.Hardware.Kiss.{Decoder, fend, fesc, decode_bytes, decode_kiss}
use openhop_core.Hardware.Kiss.Codec.{IsFrame, encode_all, process_all, decode_bytes-encode_all}
use openhop_core.Hardware.Kiss.Bulk.{well_escaped, decode_kiss-decode_bytes, decoders_differ}

record Log : Type 0 where
  frames : List (List ℕ)
  errors : ℕ

log_frame : List ℕ → Log → Log
log_frame f l = record l { frames = l.frames ++ f ∷ [] }

log_error : Log → Log
log_error l = record l { errors = suc l.errors }

abbrev idle : Decoder Log
idle = record {
  buffer = [];
  in_frame = false;
  escaped = false;
  sink = record { frames = []; errors = 0 };
}

-- A pending frame of one byte.
abbrev pending : Decoder Log
pending = record idle { buffer = 5 ∷ []; in_frame = true }

abbrev two_frames : List (ℕ × List ℕ)
two_frames = (0, 1 ∷ fend ∷ 2 ∷ []) ∷ (6, fesc ∷ []) ∷ []

two_IsFrame : All (λ f. IsFrame log_frame log_error f.0 f.1) two_frames
two_IsFrame = (
  record { not_fend = ground arith; not_fesc = ground arith; room = omega arith },
  (record { not_fend = ground arith; not_fesc = ground arith; room = omega arith }, tt),
)

decode_bytes-encode_all_example :
    ((decode_bytes log_frame log_error (encode_all log_frame log_error two_frames) idle).sink
      ≡ process_all log_frame log_error two_frames idle.sink)
    × ((decode_bytes log_frame log_error (encode_all log_frame log_error two_frames) idle).buffer
        ≡ [])
decode_bytes-encode_all_example =
    decode_bytes-encode_all log_frame log_error two_frames idle two_IsFrame refl

abbrev chunk : List ℕ
chunk = fend ∷ 0 ∷ 7 ∷ fesc ∷ 0xDC ∷ fend ∷ []

chunk_escaped : well_escaped false chunk ≡ true
unfolding well_escaped
chunk_escaped = refl

decode_kiss-decode_bytes_example :
    decode_kiss log_frame log_error chunk idle ≡ some (decode_bytes log_frame log_error chunk idle)
decode_kiss-decode_bytes_example =
    decode_kiss-decode_bytes log_frame log_error chunk idle chunk_escaped

decoders_differ_example :
    (decode_bytes log_frame log_error (fesc ∷ fend ∷ []) pending ≡ record {
      buffer = [];
      in_frame = true;
      escaped = false;
      sink = log_frame (5 ∷ []) idle.sink;
    })
    × (decode_kiss log_frame log_error (fesc ∷ fend ∷ []) pending
        ≡ some
            (record { buffer = []; in_frame = false; escaped = false; sink = log_error idle.sink }))
decoders_differ_example = decoders_differ log_frame log_error pending refl refl (omega arith)
