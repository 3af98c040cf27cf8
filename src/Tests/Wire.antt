-- ===== src/Tests/Wire.antt =====
-- The wire format at two packets.
use openhop_core.Prelude.{◌≡◌, ◌↔◌, refl, true, some, [], ◌∷◌, arith}
use openhop_core.Prelude.Bytes.{IsBytes}
use openhop_core.Prelude.Outcome.{ok}
use openhop_core.Protocol.PathLen.{get_path_byte_len, is_valid_path_len}
use openhop_core.Protocol.Packet.{
  Packet, init, get_payload_ver, get_route_type, has_transport_codes,
}
use openhop_core.Protocol.Wire.{
  write_to, read_from, forget_frame, read_payload, read_path, read_path_len, read_transport_codes,
  pack_transport_codes, validate_buffer_lengths, validate_payload_size,
}
use openhop_core.Protocol.Wire.Frame.{IsSendable, frame, write_to_iff}
use openhop_core.Protocol.Wire.RoundTrip.{received, read_from-write_to}
use openhop_core.Protocol.Wire.Accepted.{IsReceived, write_to-read_from, read_from-IsReceived}
use openhop_core.Tests.Samples.{text, text_bytes, routed}

written : write_to text ≡ ok text_bytes
unfolding write_to validate_buffer_lengths validate_payload_size pack_transport_codes
    has_transport_codes get_route_type get_path_byte_len
written = refl

read : read_from text_bytes init ≡ (ok true, received init text)
unfolding read_from forget_frame read_payload read_path read_path_len read_transport_codes
    has_transport_codes get_route_type get_payload_ver validate_payload_size is_valid_path_len
    get_path_byte_len
read = refl

version : get_payload_ver text ≡ 0
unfolding get_payload_ver
version = refl

valid : is_valid_path_len text.path_len ≡ true
unfolding is_valid_path_len
valid = refl

bytes : IsBytes text_bytes
bytes = ground arith

-- An object that was scoped to a region and sent.
abbrev used : Packet
used = record routed {
  transport_code_0 = 7;
  path_hash_mode_applied = true;
  flood_scope_applied = true;
  recv_region_captured = true;
  recv_region_key = some (1 ∷ []);
  recv_region_unscoped = true;
}

read_from-write_to_example : read_from text_bytes used ≡ (ok true, received used text)
read_from-write_to_example = read_from-write_to text used text_bytes written version valid

write_to-read_from_example : write_to (received init text) ≡ ok text_bytes
write_to-read_from_example = write_to-read_from text_bytes init (received init text) bytes read

read_from-IsReceived_example : IsReceived (received init text)
read_from-IsReceived_example = read_from-IsReceived text_bytes init (received init text) bytes read

write_to_iff_example :
    (write_to text ≡ ok text_bytes) ↔ (IsSendable text × (text_bytes ≡ frame text))
write_to_iff_example = write_to_iff text text_bytes
