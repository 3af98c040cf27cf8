-- ===== src/Protocol/Wire/Frame.antt =====
-- The wire format as one expression, and what `write_to` and `read_from` make of it.
use openhop_core.Prelude.{
  ℕ, ◌≤◌, ◌<◌, ◌≡◌, ◌↔◌, ◌⊎◌, inl, inr, sym, ap, ◌∙◌, true, false, List, [], ◌∷◌, ◌++◌, arith,
  length, if◌then◌else◌, take_of_length-le, length-append,
}
use openhop_core.Prelude.Bytes.{le16}
use openhop_core.Prelude.Outcome.{ok, Result-cases}
use openhop_core.Protocol.PathLen.{is_valid_path_len}
use openhop_core.Protocol.PathLen.Laws.{is_valid_path_len_iff}
use openhop_core.Protocol.Packet.{Packet, has_transport_codes, get_path_byte_len, get_raw_length}
use openhop_core.Protocol.Wire.{write_to, pack_transport_codes}

abbrev pub code_bytes : Packet → List ℕ
code_bytes p =
    if has_transport_codes p then le16 p.transport_code_0 ++ le16 p.transport_code_1 else []

-- header | [transport_codes] | path_len | path | payload
abbrev pub frame : Packet → List ℕ
frame p = p.header ∷ (code_bytes p ++ p.path_len ∷ (p.path ++ p.payload))

-- What a packet needs to be serialized.
pub record IsSendable (p : Packet) : Type 0 where
  pub path : length p.path ≡ get_path_byte_len p
  pub payload : length p.payload ≡ p.payload_len
  pub size : p.payload_len ≤ 184
  pub header : p.header < 256
  pub path_len : p.path_len < 256
  pub codes :
      (has_transport_codes p ≡ false)
      ⊎ ((p.transport_code_0 < 65536) × (p.transport_code_1 < 65536))

codes-ok :
    (p : Packet) (bs : List ℕ)
    → pack_transport_codes p ≡ ok bs
    → (bs ≡ code_bytes p)
      × ((has_transport_codes p ≡ false)
          ⊎ ((p.transport_code_0 < 65536) × (p.transport_code_1 < 65536)))
unfolding pack_transport_codes
codes-ok p bs h = ground arith

pack-ok :
    (p : Packet)
    → (has_transport_codes p ≡ false)
      ⊎ ((p.transport_code_0 < 65536) × (p.transport_code_1 < 65536))
    → pack_transport_codes p ≡ ok (code_bytes p)
unfolding pack_transport_codes
pack-ok p h = ground arith

write_to-frame : (p : Packet) → IsSendable p → write_to p ≡ ok (frame p)
unfolding write_to
write_to-frame p s = ground (
  arith,
  pack-ok p s.codes,
  take_of_length-le (get_path_byte_len p) p.path,
  take_of_length-le p.payload_len p.payload,
)

-- What a successful `write_to` went through.
write_to-parts :
    (p : Packet) (d : List ℕ)
    → write_to p ≡ ok d
    → (length p.path ≡ get_path_byte_len p)
      × (length p.payload ≡ p.payload_len)
      × (p.payload_len ≤ 184)
      × (p.header < 256)
      × (p.path_len < 256)
      × (bs : List ℕ) × (pack_transport_codes p ≡ ok bs)
unfolding write_to
write_to-parts p d h = elim (Result-cases (pack_transport_codes p)) [
  | inl (bs, e) ↦ (ground arith, ground arith, ground arith, ground arith, ground arith, bs, e)
  | inr (x, e) ↦ absurd (ground arith)
]

write_to-IsSendable : (p : Packet) (d : List ℕ) → write_to p ≡ ok d → IsSendable p
write_to-IsSendable p d h =
    let (path, payload, size, header, path_len, bs, e) = write_to-parts p d h in
    record {
      path = path;
      payload = payload;
      size = size;
      header = header;
      path_len = path_len;
      codes = (codes-ok p bs e).1;
    }

-- `write_to` succeeds exactly on a packet whose lengths agree, whose payload has at most 184 bytes
-- and whose numbers fit their fields, and then gives the frame.
pub write_to_iff : (p : Packet) (d : List ℕ) → (write_to p ≡ ok d) ↔ (IsSendable p × (d ≡ frame p))
write_to_iff p d = (
  λ h. let s = write_to-IsSendable p d h in (s, cc (h, write_to-frame p s)),
  λ h. write_to-frame p h.0 ∙ ap ok (sym h.1),
)

length-codes : (p : Packet) → length (code_bytes p) ≡ (if has_transport_codes p then 4 else 0)
unfolding le16
length-codes p = ground arith

-- A serialized packet has the length that `get_raw_length` gives; with a valid path_len that is at
-- most 254 bytes.
pub length-write_to :
    (p : Packet) (d : List ℕ)
    → write_to p ≡ ok d
    → is_valid_path_len p.path_len ≡ true
    → (length d ≡ get_raw_length p) × (length d ≤ 254)
unfolding get_raw_length
length-write_to p d h valid =
    let (s, e) = (write_to_iff p d).0 h in
    let fits = ((is_valid_path_len_iff p.path_len).0 valid).1 in
    rw e (
      ground (
        arith,
        fits,
        length-codes p,
        length-append (code_bytes p) (p.path_len ∷ (p.path ++ p.payload)),
        length-append p.path p.payload,
        s.path,
        s.payload,
        s.size,
      ))
