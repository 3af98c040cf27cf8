-- ===== src/Protocol/Builder.antt =====
-- `PacketBuilder` of protocol/packet_builder.py: packets that carry an ACK, a returned path or raw
-- data, and `_get_timestamp`. The random bytes of a path return and the clock are arguments; hashes,
-- types and path bytes are bytes.
pub mod Text
use openhop_core.Prelude.{
  ℕ, zero, suc, ◌+◌, ◌-◌, ◌*◌, ◌/◌, ◌%◌, ◌≤◌, ◌<◌, ◌≡◌, refl, sym, ap, ◌∙◌, ◌≢◌, ◌↔◌, ◌⊎◌, inl, inr,
  Bool, true, false, not, ◌&&◌, ◌||◌, Option, none, some, List, [], ◌∷◌, ◌++◌, map, arith,
  if◌then◌else◌, ltb, leb, ltb→lt, lt→ltb, leb→le, ◌==◌, ==_iff, ==_refl, Bool-cases, Option-cases,
  &&-split, length, length-append, get_elem?, get_or, set, take, drop, replicate, All, min,
  length-take, length-drop, take-append, drop-append, take_of_length-le, take-append-drop,
  length-replicate, All-append, All-take, All-drop, take-take,
}
use openhop_core.Prelude.Outcome.{
  Error, value_error, index_error, overflow_error, struct_error, Result, ok, raise, ◌>>=◌, ◌>>◌,
  raise_if, Result-cases, >>=-eq-ok,
}
use openhop_core.Protocol.Constants.{
  route_type_transport_flood, route_type_flood, route_type_direct, route_type_transport_direct,
  payload_type_ack, payload_type_path, payload_type_multipart, payload_type_raw_custom,
  max_packet_payload, cipher_block_size,
}
use openhop_core.Protocol.Crypto.{Cipher, encrypt_then_mac}
use openhop_core.Protocol.Header.{create_header}
use openhop_core.Protocol.Packet
use openhop_core.Protocol.Packet.{Packet}
use openhop_core.Protocol.PathLen.{is_valid_path_len, get_path_byte_len}
use openhop_core.Protocol.PathOps.{set_path}

-- The names in `RouteTypeUtils.ROUTE_MAP`, and any other.
pub data RouteName : Type 0 where
  transport_flood flood direct transport_direct other : RouteName

unfoldable pub get_route_type_value : RouteName → Bool → ℕ
get_route_type_value transport_flood has_routing_path = route_type_transport_flood
get_route_type_value flood has_routing_path = route_type_flood
get_route_type_value direct has_routing_path = route_type_direct
get_route_type_value transport_direct has_routing_path = route_type_transport_direct
get_route_type_value other has_routing_path =
    if has_routing_path then route_type_direct else route_type_flood

unfoldable pub create_route_header : ℕ → RouteName → Bool → ℕ
create_route_header payload_type route has_routing_path =
    create_header payload_type (get_route_type_value route has_routing_path) 0

unfoldable pub create_packet : ℕ → List ℕ → Result Packet
create_packet header payload =
    if ltb max_packet_payload (length payload)
    then raise value_error
    else ok
        (record Packet.init { header = header; payload = payload; payload_len = length payload })

-- The path is set when there is one.
unfoldable pub with_path : List ℕ → Option ℕ → Packet → Result Packet
unfolding set_path
with_path [] path_len_encoded p = ok p
with_path (b ∷ path) path_len_encoded p =
    let (done, q) = set_path (b ∷ path) path_len_encoded p in done >> ok q

unfoldable pub create_ack_from_bytes : List ℕ → List ℕ → Option ℕ → RouteName → Result Packet
create_ack_from_bytes ack_bytes path path_len_encoded route = do
  p ← create_packet (create_route_header payload_type_ack route (ltb 0 (length path))) ack_bytes
  with_path path path_len_encoded p

unfoldable pub create_multi_ack : List ℕ → ℕ → List ℕ → Option ℕ → Result Packet
create_multi_ack ack_bytes remaining path path_len_encoded = do
  p ←
      create_packet (create_route_header payload_type_multipart direct (ltb 0 (length path)))
        ((remaining % 16 * 16 + payload_type_ack) ∷ ack_bytes)
  with_path path path_len_encoded p

unfoldable pub create_raw_data : List ℕ → Result Packet
create_raw_data raw =
    if ltb max_packet_payload (length raw)
    then raise value_error
    else create_packet (create_route_header payload_type_raw_custom direct false) raw

-- The path_len byte of a returned path, or the exception of a pair that does not fit.
unfoldable pub first_byte : List ℕ → Option ℕ → Result ℕ
first_byte path none = if ltb 0 (length path) then raise value_error else ok 0
first_byte path (some path_len_encoded) =
    if not (is_valid_path_len path_len_encoded)
    then raise value_error
    else if not (length path == get_path_byte_len path_len_encoded)
    then raise value_error
    else ok path_len_encoded

-- `random` is `os.urandom(4)`.
unfoldable pub path_return_inner : ℕ → List ℕ → ℕ → List ℕ → List ℕ → List ℕ
path_return_inner first path extra_type [] random = first ∷ path ++ 0xFF ∷ random
path_return_inner first path extra_type (b ∷ extra) random = first ∷ path ++ extra_type ∷ b ∷ extra

unfoldable pub create_path_return :
    Cipher → ℕ → ℕ → List ℕ → List ℕ → ℕ → List ℕ → Option ℕ → List ℕ → Result Packet
create_path_return c dest_hash src_hash secret path extra_type extra path_len_encoded random =
    if ltb (max_packet_payload - 2 - cipher_block_size) (length path + length extra + 5)
    then raise value_error
    else do
      first ← first_byte path path_len_encoded
      create_packet (create_route_header payload_type_path flood false) (
          dest_hash
          ∷ src_hash
          ∷ encrypt_then_mac c (take 16 secret) secret
              (path_return_inner first path extra_type extra random))

-- The value returned, which is also the new `_last_unique_timestamp`.
unfoldable pub get_timestamp : ℕ → ℕ → ℕ
get_timestamp now last = if leb now last then last + 1 else now
