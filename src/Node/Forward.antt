-- ===== src/Node/Forward.antt =====
-- The client-repeat forwarding of `Dispatcher` (node/dispatcher.py): `_copy_packet_for_forward`,
-- `_is_transit_direct_not_next_hop` and `_build_client_repeat_forward` with its three branches. A
-- forward is `some packet`, a drop is `none`. The public key of the local identity is an argument.
pub mod Flood
pub mod Direct
pub mod Trace
pub mod Whole
use openhop_core.Prelude.{
  ℕ, ◌+◌, ◌-◌, ◌*◌, ◌^◌, ◌%◌, Bool, true, false, not, ◌&&◌, ◌||◌, Option, none, some, List, [], ◌∷◌,
  ◌++◌, length, get_elem?, take, drop, set, replicate, ltb, leb, ◌==◌, if◌then◌else◌,
}
use openhop_core.Prelude.Bytes.{bytes_eq}
use openhop_core.Prelude.Int.{low_byte}
use openhop_core.Prelude.Outcome.{Result, ok, raise, value_error, index_error, ◌>>=◌}
use openhop_core.Protocol.Constants.{payload_type_trace, max_path_size}
use openhop_core.Protocol.PathLen.{encode_path_len}
use openhop_core.Protocol.Packet
use openhop_core.Protocol.Packet.{
  Packet, get_payload, get_payload_type, get_path_hash_count, get_path_hash_size, is_route_direct,
  is_route_flood,
}

unfoldable pub copy_packet_for_forward : Packet → Packet
unfolding get_payload
copy_packet_for_forward p = record Packet.init {
  header = p.header;
  path_len = p.path_len;
  path = p.path;
  payload = get_payload p;
  payload_len = p.payload_len;
  transport_code_0 = p.transport_code_0;
  transport_code_1 = p.transport_code_1;
  snr = p.snr;
  rssi = p.rssi;
  flood_scope_applied = true;
  path_hash_mode_applied = true;
}

-- `bytes(pkt.path[:hash_size]) == self_key[:hash_size]`
unfoldable pub starts_with_self : Packet → List ℕ → Bool
starts_with_self p self_key =
    bytes_eq (take (get_path_hash_size p) p.path) (take (get_path_hash_size p) self_key)

unfoldable pub is_transit_direct_not_next_hop : Option (List ℕ) → Packet → Bool
unfolding starts_with_self
is_transit_direct_not_next_hop identity p =
    if not (is_route_direct p) || leb (get_path_hash_count p) 0
    then false
    else if get_payload_type p == payload_type_trace
    then false
    else elim identity [
      | none ↦ false
      | some self_key ↦
          if ltb (length p.path) (get_path_hash_size p)
          then false
          else not (starts_with_self p self_key)
    ]

unfoldable pub build_flood_forward : Packet → List ℕ → Result (Option Packet)
build_flood_forward p self_key =
    let hash_size = get_path_hash_size p in
    let hop_count = get_path_hash_count p in
    if leb 63 hop_count
    then ok none
    else if ltb max_path_size ((hop_count + 1) * hash_size)
    then ok none
    else do
      b ← encode_path_len hash_size (hop_count + 1)
      ok (
          some (record (copy_packet_for_forward p) {
            path = p.path ++ take hash_size self_key;
            path_len = b;
          }))

-- A hop count of 0 would make `encode_path_len` raise on -1.
unfoldable pub build_direct_forward : Packet → List ℕ → Result (Option Packet)
unfolding starts_with_self
build_direct_forward p self_key =
    let hash_size = get_path_hash_size p in
    let hop_count = get_path_hash_count p in
    if ltb (length p.path) hash_size
    then ok none
    else if not (starts_with_self p self_key)
    then ok none
    else if hop_count == 0
    then raise value_error
    else do
      b ← encode_path_len hash_size (hop_count - 1)
      ok (some (record (copy_packet_for_forward p) { path = drop hash_size p.path; path_len = b }))

-- `while len(path) <= path_len: path.append(0)`, then the byte at `path_len`.
unfoldable pub put_snr : ℕ → ℕ → List ℕ → List ℕ
put_snr path_len snr_byte path =
    set (path ++ replicate (path_len + 1 - length path) 0) path_len snr_byte

-- `int(pkt.get_snr() * 4)` is the SNR in quarters of a decibel.
unfoldable pub build_trace_forward : Packet → List ℕ → Result (Option Packet)
unfolding put_snr
build_trace_forward p self_key =
    if leb max_path_size p.path_len
    then ok none
    else if ltb p.payload_len 9
    then ok none
    else elim (get_elem? p.payload 8) [
      | none ↦ raise index_error
      | some flags ↦
          let hash_width = 2 ^ (flags % 4) in
          let offset = p.path_len * 2 ^ (flags % 4) in
          if leb (p.payload_len - 9) offset
          then ok none
          else if not
              (bytes_eq (take hash_width (drop (9 + offset) p.payload)) (take hash_width self_key))
          then ok none
          else ok (
              some (record (copy_packet_for_forward p) {
                path = put_snr p.path_len (low_byte p.snr) p.path;
                path_len = p.path_len + 1;
              }))
    ]

unfoldable pub build_client_repeat_forward : Option (List ℕ) → Packet → Result (Option Packet)
build_client_repeat_forward none p = ok none
build_client_repeat_forward (some self_key) p =
    if is_route_direct p && get_payload_type p == payload_type_trace
    then build_trace_forward p self_key
    else if is_route_direct p && ltb 0 (get_path_hash_count p)
    then build_direct_forward p self_key
    else if is_route_flood p
    then build_flood_forward p self_key
    else ok none
