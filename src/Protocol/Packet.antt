-- ===== src/Protocol/Packet.antt =====
-- `Packet` of protocol/packet.py: the fields that the modelled code reads or writes, and the
-- getters. `snr` is in quarters of a decibel and `rssi` in dBm.
use openhop_core.Prelude.{
  ℕ, ◌+◌, ◌/◌, ◌%◌, Bool, true, false, ◌||◌, Option, none, List, [], take, drop, leb, ◌==◌,
  if◌then◌else◌,
}
use openhop_core.Prelude.Int.{ℤ, pos}
use openhop_core.Protocol.Constants.{
  route_type_transport_flood, route_type_flood, route_type_direct, route_type_transport_direct,
}
use openhop_core.Protocol.PathLen

pub record Packet : Type 0 where
  pub header : ℕ
  pub path : List ℕ
  pub payload : List ℕ
  pub path_len : ℕ
  pub payload_len : ℕ
  pub transport_code_0 : ℕ
  pub transport_code_1 : ℕ
  pub snr : ℤ
  pub rssi : ℤ
  pub do_not_retransmit : Bool
  pub path_hash_mode_applied : Bool
  pub flood_scope_applied : Bool
  pub recv_region_captured : Bool
  pub recv_region_key : Option (List ℕ)
  pub recv_region_unscoped : Bool

abbrev pub init : Packet
init = record {
  header = 0;
  path = [];
  payload = [];
  path_len = 0;
  payload_len = 0;
  transport_code_0 = 0;
  transport_code_1 = 0;
  snr = pos 0;
  rssi = pos 0;
  do_not_retransmit = false;
  path_hash_mode_applied = false;
  flood_scope_applied = false;
  recv_region_captured = false;
  recv_region_key = none;
  recv_region_unscoped = false;
}

unfoldable pub get_route_type : Packet → ℕ
get_route_type p = p.header % 4

unfoldable pub get_payload_type : Packet → ℕ
get_payload_type p = p.header / 4 % 16

unfoldable pub get_payload_ver : Packet → ℕ
get_payload_ver p = p.header / 64 % 4

unfoldable pub has_transport_codes : Packet → Bool
unfolding get_route_type
has_transport_codes p =
    get_route_type p == route_type_transport_flood
    || get_route_type p == route_type_transport_direct

unfoldable pub is_route_flood : Packet → Bool
unfolding get_route_type
is_route_flood p =
    get_route_type p == route_type_transport_flood || get_route_type p == route_type_flood

unfoldable pub is_route_direct : Packet → Bool
unfolding get_route_type
is_route_direct p =
    get_route_type p == route_type_transport_direct || get_route_type p == route_type_direct

abbrev pub get_path_hash_size : Packet → ℕ
get_path_hash_size p = PathLen.get_path_hash_size p.path_len

abbrev pub get_path_hash_count : Packet → ℕ
get_path_hash_count p = PathLen.get_path_hash_count p.path_len

abbrev pub get_path_byte_len : Packet → ℕ
get_path_byte_len p = PathLen.get_path_byte_len p.path_len

unfoldable pub get_raw_length : Packet → ℕ
get_raw_length p =
    2 + get_path_byte_len p + p.payload_len + (if has_transport_codes p then 4 else 0)

-- `bytes(self.payload[: self.payload_len])`
unfoldable pub get_payload : Packet → List ℕ
get_payload p = take p.payload_len p.payload

-- Public key (32), timestamp (4) and signature (64) come before the application's data.
unfoldable pub get_payload_app_data : Packet → List ℕ
unfolding get_payload
get_payload_app_data p = if leb 100 p.payload_len then drop 100 (get_payload p) else []

unfoldable pub mark_do_not_retransmit : Packet → Packet
mark_do_not_retransmit p = record p { do_not_retransmit = true }
