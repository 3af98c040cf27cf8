-- ===== src/Protocol/PathOps.antt =====
-- The methods of `Packet` that set and cut the path: `apply_path_hash_mode`, `set_path` and
-- `get_path_hashes`.
use openhop_core.Prelude.{
  ℕ, zero, suc, ◌+◌, ◌*◌, Bool, not, ◌||◌, Option, none, some, List, [], ◌∷◌, length, take, drop,
  ltb, leb, ◌==◌, if◌then◌else◌,
}
use openhop_core.Prelude.Outcome.{Result, ok, raise, value_error, ◌>>=◌}
use openhop_core.Protocol.Constants.{payload_type_trace}
use openhop_core.Protocol.PathLen.{encode_path_len}
use openhop_core.Protocol.Packet.{Packet, get_payload_type, get_path_hash_count, get_path_hash_size}

unfoldable pub apply_path_hash_mode : ℕ → Bool → Packet → Result Packet
apply_path_hash_mode mode mark_applied p =
    if ltb 2 mode
    then raise value_error
    else if get_payload_type p == payload_type_trace
    then ok p
    else if not (get_path_hash_count p == 0)
    then ok p
    else do
      b ← encode_path_len (mode + 1) 0
      ok (record p {
        path_len = b;
        path_hash_mode_applied = mark_applied || p.path_hash_mode_applied;
      })

-- The path is set before a path of more than 63 bytes raises.
unfoldable pub set_path : List ℕ → Option ℕ → Packet → Result (Unit {0}) × Packet
set_path path_bytes (some path_len_encoded) p =
    (ok tt, record p { path = path_bytes; path_len = path_len_encoded })
set_path path_bytes none p =
    if ltb 63 (length path_bytes)
    then (raise value_error, record p { path = path_bytes })
    else elim (encode_path_len 1 (length path_bytes)) [
      | ok b ↦ (ok tt, record p { path = path_bytes; path_len = b })
      | raise e ↦ (raise e, record p { path = path_bytes })
    ]

-- The loop of `get_path_hashes`, with `count` rounds left from hop `i` on.
unfoldable pub path_hashes_from : ℕ → ℕ → ℕ → List ℕ → List (List ℕ)
path_hashes_from zero i hash_size path = []
path_hashes_from (suc count) i hash_size path =
    let rest = path_hashes_from count (i + 1) hash_size path in
    if leb (i * hash_size + hash_size) (length path)
    then take hash_size (drop (i * hash_size) path) ∷ rest
    else rest

unfoldable pub get_path_hashes : Packet → List (List ℕ)
unfolding path_hashes_from
get_path_hashes p = path_hashes_from (get_path_hash_count p) 0 (get_path_hash_size p) p.path
