-- ===== src/Protocol/Header.antt =====
-- `PacketHeaderUtils` of protocol/packet_utils.py, on the header byte. `& 0x03` is
-- `% 4`, `& 0x0F` is `% 16`, and a shift is a division or a product.
use Prim.Native.Nat.{bit_or}
use openhop_core.Prelude.{ℕ, ◌*◌, ◌/◌, ◌%◌}

pub record HeaderParts : Type 0 where
  pub route_type : ℕ
  pub payload_type : ℕ
  pub version : ℕ

unfoldable pub create_header : ℕ → ℕ → ℕ → ℕ
create_header payload_type route_type version =
    bit_or (bit_or (route_type % 4) (payload_type * 4)) (version * 64)

unfoldable pub parse_header : ℕ → HeaderParts
parse_header header = record {
  route_type = header % 4;
  payload_type = header / 4 % 16;
  version = header / 64 % 4;
}
