-- ===== src/Tests/Receive.antt =====
-- Frames received twice, and a forward heard back.
use openhop_core.Prelude.{ℕ, ◌≡◌, refl, inl, true, false, none, some, List, [], ◌∷◌, arith, take}
use openhop_core.Prelude.Dict.{nat_key, bytes_key, lookup}
use openhop_core.Prelude.Outcome.{value_error, ok}
use openhop_core.Prelude.Int.{pos, negsuc}
use openhop_core.Protocol.Filter.{PacketFilter, is_duplicate, is_blacklisted}
use openhop_core.Protocol.Filter.Blacklist.{IsSound}
use openhop_core.Protocol.Hashing.{packet_hash, calculate_packet_hash}
use openhop_core.Protocol.PathLen
use openhop_core.Protocol.PathLen.{get_path_byte_len, is_valid_path_len, encode_path_len}
use openhop_core.Protocol.Packet.{
  Packet, get_payload, get_payload_type, get_payload_ver, get_route_type, is_route_direct,
  is_route_flood, has_transport_codes,
}
use openhop_core.Protocol.Wire.{
  read_from, write_to, pack_transport_codes, validate_buffer_lengths, validate_payload_size,
  forget_frame, read_transport_codes, read_path_len,
}
use openhop_core.Node.Forward.{
  is_transit_direct_not_next_hop, build_flood_forward, copy_packet_for_forward,
}
use openhop_core.Node.Forward.Flood.{IsRelayable}
use openhop_core.Node.Receive.{Config, ignored, process_parsed, process_received_packet}
use openhop_core.Node.Receive.Repeats.{Heard, run, malformed_frame_again, duplicate_ignored}
use openhop_core.Node.Receive.Repeats.Echo.{echo_ignored}
use openhop_core.Tests.Samples.{text, self_key, toy_sha256, toy_hmac}

abbrev node : Config
node = record {
  local_identity = some self_key;
  dedupe_enabled = true;
  client_repeat_enabled = true;
  region_map = none;
  local_delivery_types = 2 ∷ [];
  handlers = λ payload_type. none;
}

abbrev fresh : PacketFilter (List ℕ)
fresh = record { window_seconds = 300; packet_hashes = []; blacklist = [] }

fresh-IsSound : IsSound fresh
fresh-IsSound = record { bounded = omega arith; distinct_hashes = tt; distinct_blacklist = tt }

-- A frame of one byte.
malformed_frame_again_example :
    (g : PacketFilter (List ℕ)) × (process_received_packet toy_sha256 toy_hmac node 10 10
        (pos 0)
        (pos 0)
        (9 ∷ [])
        fresh
      ≡ (ok (record { handled = none; forward = none }), g))
    × (lookup (take 8 (toy_sha256 (9 ∷ []))) g.blacklist ≡ some 10)
    × (is_blacklisted 100 (take 8 (toy_sha256 (9 ∷ []))) g ≡ true)
    × (process_received_packet toy_sha256 toy_hmac node 100 100 (pos 0) (pos 0) (9 ∷ []) g
        ≡ (ok (record { handled = none; forward = none }), g))
unfolding read_from forget_frame is_blacklisted lookup get_payload_ver read_transport_codes
    has_transport_codes read_path_len
malformed_frame_again_example =
    malformed_frame_again toy_sha256 toy_hmac node 10 10 100 100 (pos 0) (pos 0) (pos 0) (pos 0)
      (9 ∷ []) fresh value_error fresh-IsSound refl refl (omega arith) (omega arith)

abbrev text_hash : List ℕ
text_hash = toy_sha256 (2 ∷ 5 ∷ 6 ∷ 7 ∷ [])

text_hashed : packet_hash toy_sha256 text ≡ ok text_hash
unfolding packet_hash calculate_packet_hash get_payload_type get_payload
text_hashed = refl

text_mine : is_transit_direct_not_next_hop node.local_identity text ≡ false
unfolding is_transit_direct_not_next_hop is_route_direct get_route_type
text_mine = refl

text_fresh : is_duplicate 50 (take 8 text_hash) fresh ≡ false
unfolding is_duplicate lookup
text_fresh = refl

abbrev noise : Heard
noise = record { arrived = 60; held = 61; rssi = pos 0; snr = pos 0; frame = 9 ∷ [] }

duplicate_ignored_example :
    process_parsed toy_sha256 toy_hmac node 70 text (
      run toy_sha256 toy_hmac node
        (noise ∷ [])
        (process_parsed toy_sha256 toy_hmac node 50 text fresh).1)
    ≡ (
      ok ignored,
      run toy_sha256 toy_hmac node
          (noise ∷ [])
          (process_parsed toy_sha256 toy_hmac node 50 text fresh).1,
    )
duplicate_ignored_example =
    duplicate_ignored toy_sha256 toy_hmac node 50 70 text text text_hash text_hash (noise ∷ [])
      fresh refl text_hashed text_hashed refl text_mine text_mine text_fresh (omega arith, tt)
      (omega arith)

text-IsRelayable : IsRelayable text
unfolding is_valid_path_len has_transport_codes get_route_type get_path_byte_len
text-IsRelayable = record {
  path_len = refl;
  sendable = record {
    path = refl;
    payload = refl;
    size = omega arith;
    header = omega arith;
    path_len = omega arith;
    codes = inl refl;
  };
}

abbrev text_forward : Packet
text_forward = record (copy_packet_for_forward text) { path = 1 ∷ 2 ∷ 1 ∷ []; path_len = 3 }

text_forwarded : build_flood_forward text self_key ≡ ok (some text_forward)
unfolding build_flood_forward PathLen.get_path_hash_size PathLen.get_path_hash_count encode_path_len
text_forwarded = refl

forward_written : write_to text_forward ≡ ok (9 ∷ 3 ∷ 1 ∷ 2 ∷ 1 ∷ 5 ∷ 6 ∷ 7 ∷ [])
unfolding write_to copy_packet_for_forward get_payload get_path_byte_len has_transport_codes
    get_route_type pack_transport_codes validate_buffer_lengths validate_payload_size
forward_written = refl

echo_ignored_example :
    process_received_packet toy_sha256 toy_hmac node 65 70
      (negsuc 80)
      (pos 4)
      (9 ∷ 3 ∷ 1 ∷ 2 ∷ 1 ∷ 5 ∷ 6 ∷ 7 ∷ [])
      (run toy_sha256 toy_hmac node
        (noise ∷ [])
        (process_parsed toy_sha256 toy_hmac node 50 text fresh).1)
    ≡ (
      ok ignored,
      run toy_sha256 toy_hmac node
          (noise ∷ [])
          (process_parsed toy_sha256 toy_hmac node 50 text fresh).1,
    )
unfolding get_payload_ver get_payload_type is_route_flood get_route_type
echo_ignored_example =
    echo_ignored toy_sha256 toy_hmac node 50 65 70 (negsuc 80) (pos 4) text text_forward self_key
      text_hash (9 ∷ 3 ∷ 1 ∷ 2 ∷ 1 ∷ 5 ∷ 6 ∷ 7 ∷ []) (noise ∷ []) fresh refl (omega arith)
      text-IsRelayable refl (λ e. absurd (omega (arith, e))) refl text_hashed text_forwarded
      forward_written text_fresh (omega arith, tt) (omega arith)
