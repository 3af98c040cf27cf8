-- ===== src/Node/Forward/Flood.antt =====
-- Flood forwards, whose path grows by this node's hash.
use openhop_core.Prelude.{
  ℕ, ◌+◌, ◌≤◌, ◌<◌, ◌≡◌, refl, true, false, none, some, List, ◌++◌, length, take, length-append,
  length-take, take_of_length-le, take-take, arith,
}
use openhop_core.Prelude.Outcome.{ok}
use openhop_core.Protocol.PathLen
use openhop_core.Protocol.PathLen.{is_valid_path_len, is_path_at_max_hops}
use openhop_core.Protocol.PathLen.Laws.{
  room_iff, byte_len-eq-mul, is_valid_path_len_iff, decode-encode_path_len,
}
use openhop_core.Protocol.Packet.{Packet, get_path_hash_count, get_path_hash_size, get_payload}
use openhop_core.Protocol.Wire.Frame.{IsSendable}
use openhop_core.Protocol.Wire.RoundTrip.{codes_of_header}
use openhop_core.Node.Forward.{copy_packet_for_forward, build_flood_forward}

-- A packet that can be serialized and whose frame a receiver takes.
pub record IsRelayable (p : Packet) : Type 0 where
  pub sendable : IsSendable p
  pub path_len : is_valid_path_len p.path_len ≡ true

-- The copy with another path of the right length is relayable.
pub copy-IsRelayable :
    (p : Packet) (path : List ℕ) (b : ℕ)
    → IsSendable p
    → length path ≡ PathLen.get_path_byte_len b
    → b < 256
    → is_valid_path_len b ≡ true
    → IsRelayable (record (copy_packet_for_forward p) { path = path; path_len = b })
unfolding copy_packet_for_forward get_payload
copy-IsRelayable p path b s len small valid = record {
  path_len = valid;
  sendable = record {
    path = len;
    payload = ground (arith, s.payload, take_of_length-le p.payload_len p.payload);
    size = s.size;
    header = s.header;
    path_len = small;
    codes = ground (
      arith,
      s.codes,
      codes_of_header p (record (copy_packet_for_forward p) { path = path; path_len = b }) refl,
    );
  };
}

-- What a forward keeps.
pub record SameMessage (p f : Packet) : Type 0 where
  pub header : f.header ≡ p.header
  pub payload : get_payload f ≡ get_payload p
  pub code_0 : f.transport_code_0 ≡ p.transport_code_0
  pub code_1 : f.transport_code_1 ≡ p.transport_code_1
  pub scoped : f.flood_scope_applied ≡ true
  pub moded : f.path_hash_mode_applied ≡ true

pub copy-SameMessage :
    (p : Packet) (path : List ℕ) (b : ℕ)
    → SameMessage p (record (copy_packet_for_forward p) { path = path; path_len = b })
unfolding copy_packet_for_forward get_payload
copy-SameMessage p path b = record {
  header = refl;
  payload = take-take p.payload_len p.payload;
  code_0 = refl;
  code_1 = refl;
  scoped = refl;
  moded = refl;
}

pub size_pos : (p : Packet) → 0 < get_path_hash_size p
unfolding PathLen.get_path_hash_size
size_pos p = omega arith

pub valid-lt : (b : ℕ) → is_valid_path_len b ≡ true → b < 256
unfolding is_valid_path_len
valid-lt b h = ground arith

-- A packet that can be serialized and read, with room for a hop, is forwarded as a flood by a
-- node whose key has at least 3 bytes: the path has this node's hash at its end and one hop more
-- of the same hash size, the message is the same, and the forward can be serialized and read.
pub build_flood_forward-room :
    (p : Packet) (self_key : List ℕ)
    → IsRelayable p
    → 3 ≤ length self_key
    → is_path_at_max_hops p.path_len ≡ false
    → (f : Packet) × (build_flood_forward p self_key ≡ ok (some f))
      × IsRelayable f
      × SameMessage p f
      × (f.path ≡ p.path ++ take (get_path_hash_size p) self_key)
      × (get_path_hash_size f ≡ get_path_hash_size p)
      × (get_path_hash_count f ≡ get_path_hash_count p + 1)
unfolding build_flood_forward
build_flood_forward-room p self_key r long room =
    let (fits, up) = room_iff p.path_len ((is_valid_path_len_iff p.path_len).0 r.path_len).0 in
    let (capped, bytes) = fits room in
    let size = get_path_hash_size p in
    let hops = get_path_hash_count p in
    let (b, encoded, hash_size, hop_count, byte_len) =
      decode-encode_path_len size (hops + 1) (size_pos p) (omega arith) in
    let valid : is_valid_path_len b ≡ true =
      (is_valid_path_len_iff b).1
        (omega (arith, ((is_valid_path_len_iff p.path_len).0 r.path_len).0), omega arith) in
    let path = p.path ++ take size self_key in
    (
      record (copy_packet_for_forward p) { path = path; path_len = b },
      ground (arith, capped, bytes, encoded),
      copy-IsRelayable p path b r.sendable
          (omega (
            arith,
            byte_len,
            byte_len-eq-mul p.path_len,
            r.sendable.path,
            length-append p.path (take size self_key),
            length-take size self_key,
            ((is_valid_path_len_iff p.path_len).0 r.path_len).0,
          ))
          (valid-lt b valid) valid,
      copy-SameMessage p path b,
      refl,
      hash_size,
      hop_count,
    )

-- A flood whose path is at the maximum for its hash size is dropped.
pub build_flood_forward-full :
    (p : Packet) (self_key : List ℕ)
    → is_valid_path_len p.path_len ≡ true
    → is_path_at_max_hops p.path_len ≡ true
    → build_flood_forward p self_key ≡ ok none
unfolding build_flood_forward
build_flood_forward-full p self_key valid full =
    let (down, up) = room_iff p.path_len ((is_valid_path_len_iff p.path_len).0 valid).0 in
    ground (arith, up)
