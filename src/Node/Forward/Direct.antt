-- ===== src/Node/Forward/Direct.antt =====
-- Routed-direct forwards: the node strips its own hash from the head of the path.
use openhop_core.Prelude.{
  ℕ, ◌+◌, ◌-◌, ◌*◌, ◌≤◌, ◌<◌, ◌≡◌, ◌≢◌, ◌↔◌, zero, suc, sym, ap, ◌∙◌, true, none, some, List, ◌++◌,
  length, take, drop, length-drop, take-append-drop, arith,
}
use openhop_core.Prelude.Bytes.{bytes_eq_sound}
use openhop_core.Prelude.Outcome.{ok}
use openhop_core.Protocol.PathLen
use openhop_core.Protocol.PathLen.{is_valid_path_len}
use openhop_core.Protocol.PathLen.Laws.{
  byte_len-eq-mul, hash_count-le, is_valid_path_len_iff, decode-encode_path_len,
}
use openhop_core.Protocol.Packet.{
  Packet, get_path_hash_count, get_path_hash_size, is_route_direct, get_payload_type,
}
use openhop_core.Node.Forward.{
  copy_packet_for_forward, build_direct_forward, starts_with_self, is_transit_direct_not_next_hop,
}
use openhop_core.Node.Forward.Flood.{
  IsRelayable, SameMessage, copy-IsRelayable, copy-SameMessage, size_pos, valid-lt,
}

has_first_hop :
    (p : Packet) → IsRelayable p → 0 < get_path_hash_count p → get_path_hash_size p ≤ length p.path
has_first_hop p r hops = grind (arith, r.sendable.path, byte_len-eq-mul p.path_len, size_pos p)

pred_mul : (h s : ℕ) → 0 < h → (h - 1) * s + s ≡ h * s
pred_mul zero s pos = absurd (omega arith)
pred_mul (suc h) s pos = let e : suc h - 1 ≡ h = omega arith in rw e (grind arith)

first_hop :
    (p : Packet) (self_key : List ℕ)
    → starts_with_self p self_key ≡ true
    → p.path ≡ take (get_path_hash_size p) self_key ++ drop (get_path_hash_size p) p.path
unfolding starts_with_self
first_hop p self_key self =
    sym (take-append-drop (get_path_hash_size p) p.path)
    ∙ ap (λ (xs : List ℕ). xs ++ drop (get_path_hash_size p) p.path) (bytes_eq_sound _ _ self)

-- A packet that can be serialized and read, whose path has a hop and starts with this node's
-- hash, is forwarded as a direct packet with that hash taken off the head of the path and one
-- hop less of the same hash size; the message is the same, and the forward can be serialized and
-- read.
pub build_direct_forward-next_hop :
    (p : Packet) (self_key : List ℕ)
    → IsRelayable p
    → 0 < get_path_hash_count p
    → starts_with_self p self_key ≡ true
    → (f : Packet) × (build_direct_forward p self_key ≡ ok (some f))
      × IsRelayable f
      × SameMessage p f
      × (p.path ≡ take (get_path_hash_size p) self_key ++ f.path)
      × (get_path_hash_size f ≡ get_path_hash_size p)
      × (get_path_hash_count f + 1 ≡ get_path_hash_count p)
unfolding build_direct_forward
build_direct_forward-next_hop p self_key r routed self =
    let size = get_path_hash_size p in
    let hops = get_path_hash_count p in
    let (fits, room) = (is_valid_path_len_iff p.path_len).0 r.path_len in
    let (b, encoded, hash_size, hop_count, byte_len) =
      decode-encode_path_len size (hops - 1) (size_pos p)
        (omega (arith, hash_count-le p.path_len)) in
    let total : PathLen.get_path_byte_len b + size ≡ PathLen.get_path_byte_len p.path_len =
      omega (arith, byte_len, byte_len-eq-mul p.path_len, pred_mul hops size routed) in
    let valid : is_valid_path_len b ≡ true =
      (is_valid_path_len_iff b).1 (omega (arith, hash_size, fits), omega (arith, total, room)) in
    let path = drop size p.path in
    (
      record (copy_packet_for_forward p) { path = path; path_len = b },
      ground (arith, routed, self, encoded, has_first_hop p r routed),
      copy-IsRelayable p path b r.sendable
          (omega (arith, total, length-drop size p.path, r.sendable.path)) (valid-lt b valid) valid,
      copy-SameMessage p path b,
      first_hop p self_key self,
      hash_size,
      omega (arith, hop_count, routed),
    )

-- For a direct packet that can be serialized and read, has a hop left and is no TRACE, the test
-- that keeps it out of the seen table holds exactly when the node forwards nothing.
pub not_next_hop_iff :
    (p : Packet) (self_key : List ℕ)
    → IsRelayable p
    → is_route_direct p ≡ true
    → 0 < get_path_hash_count p
    → get_payload_type p ≢ 9
    → (is_transit_direct_not_next_hop (some self_key) p ≡ true)
      ↔ (build_direct_forward p self_key ≡ ok none)
unfolding build_direct_forward is_transit_direct_not_next_hop
not_next_hop_iff p self_key r direct routed message =
    let first = has_first_hop p r routed in (λ e. ground arith, λ e. ground arith)
