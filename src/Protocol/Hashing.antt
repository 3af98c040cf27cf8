-- ===== src/Protocol/Hashing.antt =====
-- `PacketHashingUtils` of protocol/packet_utils.py over a digest function, `hashlib.sha256`, which is
-- a parameter.
use openhop_core.Prelude.{ℕ, List, ◌∷◌, ◌++◌, take, ltb, ◌==◌, if◌then◌else◌}
use openhop_core.Prelude.Bytes.{from_le, le16}
use openhop_core.Prelude.Outcome.{Result, ok, raise_if, struct_error, ◌>>=◌, ◌>>◌}
use openhop_core.Protocol.Constants.{payload_type_trace, max_hash_size}
use openhop_core.Protocol.Packet.{Packet, get_payload_type, get_payload}

module _ (sha256 : List ℕ → List ℕ) where
  -- `struct.pack("<H", path_len)` raises above 65535.
  unfoldable pub calculate_packet_hash : ℕ → ℕ → List ℕ → Result (List ℕ)
  calculate_packet_hash payload_type path_len payload =
      if payload_type == payload_type_trace
      then (do
        raise_if (ltb 65535 path_len) struct_error
        ok (take max_hash_size (sha256 (payload_type ∷ (le16 path_len ++ payload)))))
      else ok (take max_hash_size (sha256 (payload_type ∷ payload)))

  -- `Packet.calculate_packet_hash`
  unfoldable pub packet_hash : Packet → Result (List ℕ)
  unfolding calculate_packet_hash get_payload
  packet_hash p = calculate_packet_hash (get_payload_type p) p.path_len (get_payload p)

  -- `Packet.get_crc`
  unfoldable pub get_crc : Packet → Result ℕ
  unfolding packet_hash
  get_crc p = do hash_bytes ← packet_hash p; ok (from_le (take 4 hash_bytes))
