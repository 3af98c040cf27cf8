-- ===== src/Protocol/PathLen.antt =====
-- `PathUtils` of protocol/packet_utils.py: the path_len byte, which packs the hash size and the hop
-- count of a path. `& 0x3F` is `% 64`, `>> 6` is `/ 64`, and `(s << 6) | (c & 0x3F)`, whose parts
-- share no bit, is a sum.
pub mod Laws
use openhop_core.Prelude.{
  ℕ, ◌+◌, ◌-◌, ◌*◌, ◌/◌, ◌%◌, ◌^◌, min, Bool, false, leb, ltb, ◌==◌, if◌then◌else◌,
}
use openhop_core.Prelude.Outcome.{Result, ok, raise, value_error}
use openhop_core.Protocol.Constants.{max_path_size, path_hash_count_mask}

unfoldable pub get_path_hash_size : ℕ → ℕ
get_path_hash_size path_len = path_len / 64 + 1

unfoldable pub get_path_hash_count : ℕ → ℕ
get_path_hash_count path_len = path_len % 64

unfoldable pub get_path_byte_len : ℕ → ℕ
get_path_byte_len path_len = path_len % 64 * (path_len / 64 + 1)

-- `hash_size` is at least 1: the callers pass `mode + 1` or a decoded size.
unfoldable pub encode_path_len : ℕ → ℕ → Result ℕ
encode_path_len hash_size hash_count =
    if leb hash_count 63 then ok ((hash_size - 1) * 64 + hash_count % 64) else raise value_error

unfoldable pub is_valid_path_len : ℕ → Bool
is_valid_path_len path_len =
    let hash_size = path_len / 64 + 1 in
    if ltb 3 hash_size then false else leb (path_len % 64 * hash_size) max_path_size

unfoldable pub is_path_at_max_hops : ℕ → Bool
unfolding get_path_hash_size
is_path_at_max_hops path_len =
    if path_len == 0
    then false
    else if ltb 3 (get_path_hash_size path_len)
    then false
    else leb (min path_hash_count_mask (max_path_size / get_path_hash_size path_len))
        (path_len % 64)

unfoldable pub trace_payload_hash_width : ℕ → ℕ
trace_payload_hash_width flags = 2 ^ (flags % 4)
