-- ===== src/Protocol/Wire.antt =====
-- `Packet.write_to` and `Packet.read_from` of protocol/packet.py. `read_from` passes the rest of the
-- data on, `data[idx:]`, so that the bounds check `idx + required > data_len` is a test on its
-- length. It returns the mutated packet beside its outcome, also where it raises.
pub mod Frame
pub mod RoundTrip
pub mod Accepted
use openhop_core.Prelude.{
  ℕ, Bool, true, false, not, none, List, [], ◌∷◌, ◌++◌, length, take, drop, ltb, ◌==◌,
  if◌then◌else◌,
}
use openhop_core.Prelude.Bytes.{from_le, le16}
use openhop_core.Prelude.Outcome.{
  Result, ok, raise, raise_if, value_error, index_error, overflow_error, ◌>>=◌, ◌>>◌,
}
use openhop_core.Protocol.Constants.{max_packet_payload, max_supported_payload_version}
use openhop_core.Protocol.PathLen.{is_valid_path_len}
use openhop_core.Protocol.Packet.{Packet, has_transport_codes, get_payload_ver, get_path_byte_len}

-- `PacketValidationUtils`
unfoldable pub validate_buffer_lengths : ℕ → ℕ → ℕ → ℕ → Result (Unit {0})
validate_buffer_lengths expected_path actual_path expected_payload actual_payload = do
  raise_if (not (expected_path == actual_path)) value_error
  raise_if (not (expected_payload == actual_payload)) value_error

unfoldable pub validate_payload_size : ℕ → Result (Unit {0})
validate_payload_size payload_len = raise_if (ltb max_packet_payload payload_len) value_error

-- The two `to_bytes(2, "little")`, which raise OverflowError above 65535.
unfoldable pub pack_transport_codes : Packet → Result (List ℕ)
pack_transport_codes p =
    if has_transport_codes p
    then (do
      raise_if (ltb 65535 p.transport_code_0) overflow_error
      raise_if (ltb 65535 p.transport_code_1) overflow_error
      ok (le16 p.transport_code_0 ++ le16 p.transport_code_1))
    else ok []

-- `bytearray([header])` and `append(path_len)` raise ValueError above 255.
unfoldable pub write_to : Packet → Result (List ℕ)
unfolding validate_buffer_lengths validate_payload_size
write_to p = do
  validate_buffer_lengths (get_path_byte_len p) (length p.path) p.payload_len (length p.payload)
  validate_payload_size p.payload_len
  raise_if (ltb 255 p.header) value_error
  codes ← pack_transport_codes p
  raise_if (ltb 255 p.path_len) value_error
  ok (
      p.header
      ∷ (codes ++ p.path_len ∷ (take (get_path_byte_len p) p.path ++ take p.payload_len p.payload)))

-- What `read_from` resets first.
unfoldable pub forget_frame : Packet → Packet
forget_frame p = record p {
  recv_region_captured = false;
  recv_region_key = none;
  recv_region_unscoped = false;
  flood_scope_applied = false;
  path_hash_mode_applied = false;
}

unfoldable pub read_payload : List ℕ → Packet → Result Bool × Packet
read_payload rest p = (
  (do validate_payload_size (length rest); ok true),
  record p { payload = rest; payload_len = length rest },
)

unfoldable pub read_path : List ℕ → Packet → Result Bool × Packet
read_path rest p =
    let n = get_path_byte_len p in
    if ltb (length rest) n
    then (raise value_error, p)
    else read_payload (drop n rest) (record p { path = take n rest })

unfoldable pub read_path_len : List ℕ → Packet → Result Bool × Packet
read_path_len [] p = (raise value_error, p)
read_path_len (b ∷ rest) p =
    let q = record p { path_len = b } in
    if is_valid_path_len b then read_path rest q else (raise value_error, q)

unfoldable pub read_transport_codes : List ℕ → Packet → Result Bool × Packet
read_transport_codes rest p =
    if has_transport_codes p
    then (if ltb (length rest) 4
        then (raise value_error, p)
        else read_path_len (drop 4 rest) (record p {
          transport_code_0 = from_le (take 2 rest);
          transport_code_1 = from_le (take 2 (drop 2 rest));
        }))
    else read_path_len rest (record p { transport_code_0 = 0; transport_code_1 = 0 })

-- `data[0]` of empty data raises IndexError.
unfoldable pub read_from : List ℕ → Packet → Result Bool × Packet
unfolding forget_frame
read_from [] p = (raise index_error, forget_frame p)
read_from (h ∷ rest) p =
    let q = record (forget_frame p) { header = h } in
    if ltb max_supported_payload_version (get_payload_ver q)
    then (raise value_error, q)
    else read_transport_codes rest q
