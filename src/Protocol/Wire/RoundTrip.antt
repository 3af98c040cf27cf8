-- ===== src/Protocol/Wire/RoundTrip.antt =====
-- `read_from` on what `write_to` wrote.
use openhop_core.Prelude.{
  ℕ, suc, ◌%◌, ◌≡◌, ◌||◌, false, none, ◌==◌, inl, inr, refl, true, List, ◌∷◌, ◌++◌, arith, ltb,
  if◌then◌else◌, take-append, drop-append, length-append, Bool-cases,
}
use openhop_core.Prelude.Bytes.{le16, from_le-le16}
use openhop_core.Prelude.Outcome.{ok}
use openhop_core.Protocol.PathLen.{is_valid_path_len}
use openhop_core.Protocol.Packet.{
  Packet, has_transport_codes, get_payload_ver, get_route_type, get_path_byte_len,
}
use openhop_core.Protocol.Wire.{
  write_to, validate_payload_size, forget_frame, read_from, read_transport_codes, read_path_len,
  read_path, read_payload,
}
use openhop_core.Protocol.Wire.Frame.{code_bytes, IsSendable, write_to_iff}

-- What a parser over `q` should make of the frame of `p`: the wire fields of `p`, with no transport
-- codes unless the route type is 0 or 3, the marks of an earlier frame taken off, and the rest as it
-- was in `q`.
abbrev pub received : Packet → Packet → Packet
received q p = record {
  header = p.header;
  path = p.path;
  payload = p.payload;
  path_len = p.path_len;
  payload_len = p.payload_len;
  transport_code_0 = if p.header % 4 == 0 || p.header % 4 == 3 then p.transport_code_0 else 0;
  transport_code_1 = if p.header % 4 == 0 || p.header % 4 == 3 then p.transport_code_1 else 0;
  snr = q.snr;
  rssi = q.rssi;
  do_not_retransmit = q.do_not_retransmit;
  path_hash_mode_applied = false;
  flood_scope_applied = false;
  recv_region_captured = false;
  recv_region_key = none;
  recv_region_unscoped = false;
}

read_path-tail :
    (p q : Packet)
    → IsSendable p
    → q.path_len ≡ p.path_len
    → read_path (p.path ++ p.payload) q
      ≡ (ok true, record q { path = p.path; payload = p.payload; payload_len = p.payload_len })
unfolding read_path read_payload validate_payload_size
read_path-tail p q s e = ground (
  arith,
  s.path,
  s.payload,
  s.size,
  take-append (get_path_byte_len p) p.path p.payload,
  drop-append (get_path_byte_len p) p.path p.payload,
  length-append p.path p.payload,
)

read_path_len-tail :
    (p q : Packet)
    → IsSendable p
    → is_valid_path_len p.path_len ≡ true
    → read_path_len (p.path_len ∷ (p.path ++ p.payload)) q ≡ (
      ok true,
      record q {
        path_len = p.path_len;
        path = p.path;
        payload = p.payload;
        payload_len = p.payload_len;
      },
    )
unfolding read_path_len
read_path_len-tail p q s valid =
    rw valid (read_path-tail p (record q { path_len = p.path_len }) s refl)

pub codes_of_header :
    (p q : Packet) → q.header ≡ p.header → has_transport_codes q ≡ has_transport_codes p
unfolding has_transport_codes get_route_type
codes_of_header p q e = rw e

not_short : (n : ℕ) → ltb (suc (suc (suc (suc (suc n))))) 4 ≡ false
not_short n = ground arith

-- The codes, little endian, in front of what follows.
read_codes-tail :
    (p q : Packet)
    → IsSendable p
    → is_valid_path_len p.path_len ≡ true
    → q.header ≡ p.header
    → read_transport_codes (code_bytes p ++ p.path_len ∷ (p.path ++ p.payload)) q ≡ (
      ok true,
      record q {
        transport_code_0 = if has_transport_codes p then p.transport_code_0 else 0;
        transport_code_1 = if has_transport_codes p then p.transport_code_1 else 0;
        path_len = p.path_len;
        path = p.path;
        payload = p.payload;
        payload_len = p.payload_len;
      },
    )
unfolding read_transport_codes le16
read_codes-tail p q s valid same = elim (Bool-cases (has_transport_codes p)) [
  | inl e ↦
      rw (codes_of_header p q same, e, from_le-le16, from_le-le16, not_short)
        (read_path_len-tail p
          (record q {
            transport_code_0 = p.transport_code_0;
            transport_code_1 = p.transport_code_1;
          })
          s valid)
  | inr e ↦
      rw (codes_of_header p q same, e)
        (read_path_len-tail p (record q { transport_code_0 = 0; transport_code_1 = 0 }) s valid)
]

-- Reading what `write_to` wrote, whatever the packet object held before, for a version 0 packet
-- with a valid path_len: the wire fields come back, with the transport codes 0 unless the route type
-- is 0 or 3; no region is captured, neither the flood scope nor the path hash mode is marked as
-- applied; and the rest of the object is as it was.
pub read_from-write_to :
    (p q : Packet) (d : List ℕ)
    → write_to p ≡ ok d
    → get_payload_ver p ≡ 0
    → is_valid_path_len p.path_len ≡ true
    → read_from d q ≡ (ok true, received q p)
unfolding read_from get_payload_ver forget_frame has_transport_codes get_route_type
read_from-write_to p q d h version valid =
    let (s, e) = (write_to_iff p d).0 h in
    rw (e, version) (read_codes-tail p (record (forget_frame q) { header = p.header }) s valid refl)
