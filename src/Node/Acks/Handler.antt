-- ===== src/Node/Acks/Handler.antt =====
-- `AckHandler` (node/handlers/ack.py), `MultipartAckHandler` (node/handlers/multipart.py) and
-- `iter_decrypt_by_src_hash` (node/handlers/crypto_helpers.py). `secret_with` is the Diffie-Hellman
-- exchange of the local identity with a public key, which PyNaCl computes: `none` when it raises.
-- Contacts are given by their public keys. The application's listener is a function to `Bool`.
use openhop_core.Prelude.{
  ℕ, zero, suc, ◌+◌, ◌-◌, ◌*◌, ◌/◌, ◌%◌, ◌≤◌, ◌<◌, ◌≡◌, refl, sym, ap, ◌∙◌, ◌≢◌, ◌↔◌, ◌⊎◌, inl, inr,
  Bool, true, false, not, ◌&&◌, ◌||◌, Option, none, some, List, [], ◌∷◌, ◌++◌, map, arith,
  if◌then◌else◌, ltb, leb, ltb→lt, lt→ltb, leb→le, ◌==◌, ==_iff, ==_refl, Bool-cases, Option-cases,
  &&-split, length, length-append, get_elem?, get_or, set, take, drop, replicate, All, min,
  length-take, length-drop, take-append, drop-append, take_of_length-le, take-append-drop,
  length-replicate, All-append, All-take, All-drop, take-take,
}
use openhop_core.Prelude.Dict.{
  Eq, nat_key, bytes_key, Dict, lookup, contains, insert, remove, move_to_end, IsDistinct,
  lookup-remove, lookup-insert, lookup-append, contains-remove, contains-insert, contains-append,
  length-remove-le, length-remove, remove_absent, length-insert, remove-IsDistinct,
  insert-IsDistinct, append-IsDistinct,
}
use openhop_core.Prelude.Outcome.{
  Error, value_error, index_error, overflow_error, struct_error, Result, ok, raise, ◌>>=◌, ◌>>◌,
  raise_if, Result-cases, >>=-eq-ok,
}
use openhop_core.Prelude.Bytes.{from_le}
use openhop_core.Protocol.Constants.{payload_type_ack, payload_type_multipart, payload_type_path}
use openhop_core.Protocol.Crypto.{Cipher, mac_then_decrypt}
use openhop_core.Protocol.Packet.{Packet, get_payload_type, mark_do_not_retransmit}
use openhop_core.Protocol.PathLen.{is_valid_path_len, get_path_byte_len}
use openhop_core.Node.Acks.{Acks, register_ack_received}
pub mod Marking
pub mod Extraction
pub mod PathReturn

unfoldable pub process_discrete_ack : List ℕ → Option ℕ
process_discrete_ack payload =
    if ltb (length payload) 4 then none else some (from_le (take 4 payload))

unfoldable pub extract_ack_crc : List ℕ → Option ℕ
extract_ack_crc [] = none
extract_ack_crc (wrapper ∷ embedded) =
    if ltb (length (wrapper ∷ embedded)) 5
    then none
    else if not (wrapper % 16 == payload_type_ack)
    then none
    else some (from_le (take 4 embedded))

-- What one contact's key makes of the payload: `none` where the loop goes on.
unfoldable pub decrypt_from :
    Cipher → (List ℕ → Option (List ℕ)) → ℕ → List ℕ → List ℕ → Option (List ℕ × List ℕ)
decrypt_from c secret_with src_hash encrypted public_key =
    if not (length public_key == 32) || not (get_or public_key 0 256 == src_hash)
    then none
    else elim (secret_with public_key) [
      | none ↦ none
      | some secret ↦ elim (mac_then_decrypt c (take 16 secret) secret encrypted) [
        | ok decrypted ↦ some (secret, decrypted)
        | raise e ↦ none
      ]
    ]

-- The keys, secrets and plaintexts that the generator yields.
unfoldable pub iter_decrypt_by_src_hash :
    Cipher
    → (List ℕ → Option (List ℕ))
    → List (List ℕ)
    → ℕ
    → List ℕ
    → List (List ℕ × List ℕ × List ℕ)
iter_decrypt_by_src_hash c secret_with [] src_hash encrypted = []
iter_decrypt_by_src_hash c secret_with (public_key ∷ contacts) src_hash encrypted =
    let rest = iter_decrypt_by_src_hash c secret_with contacts src_hash encrypted in
    elim (decrypt_from c secret_with src_hash encrypted public_key) [
      | none ↦ rest
      | some (secret, decrypted) ↦ (public_key, secret, decrypted) ∷ rest
    ]

-- The ACK that a decrypted path return holds.
unfoldable pub ack_extra : List ℕ → Option ℕ
ack_extra [] = none
ack_extra (first ∷ inner) =
    let extra_start = get_path_byte_len first in
    if not (is_valid_path_len first)
    then none
    else if ltb (length (first ∷ inner)) (1 + extra_start + 1)
    then none
    else if not (get_or inner extra_start 0 % 16 == payload_type_ack)
    then none
    else if ltb (length (first ∷ inner)) (1 + extra_start + 5)
    then none
    else some (from_le (take 4 (drop (extra_start + 1) inner)))

-- Every case of the first plaintext ends the loop.
unfoldable pub try_decrypt_encrypted_ack :
    Cipher → (List ℕ → Option (List ℕ)) → List (List ℕ) → List ℕ → Option ℕ
try_decrypt_encrypted_ack c secret_with contacts (dest_hash ∷ src_hash ∷ encrypted) =
    elim (iter_decrypt_by_src_hash c secret_with contacts src_hash encrypted) [
      | [] ↦ none
      | (public_key, secret, decrypted) ∷ rest ↦ ack_extra decrypted
    ]
try_decrypt_encrypted_ack c secret_with contacts payload = none

unfoldable pub process_path_ack_variants :
    Cipher → (List ℕ → Option (List ℕ)) → List ℕ → List (List ℕ) → List ℕ → Option ℕ
process_path_ack_variants c secret_with self_key contacts payload =
    if leb 2 (length payload) && get_or payload 0 256 == get_or self_key 0 257
    then try_decrypt_encrypted_ack c secret_with contacts payload
    else none

-- The packet is marked for a waiter before the waiters are popped, and after it for the listener.
unfoldable pub handle_ack : (ℕ → Bool) → ℕ → Packet → Acks → Packet × Acks
handle_ack consumes now p s = elim (process_discrete_ack p.payload) [
  | none ↦ (p, s)
  | some crc ↦
      let marked = if contains crc s.waiting then mark_do_not_retransmit p else p in
      (
        if consumes crc then mark_do_not_retransmit marked else marked,
        register_ack_received now crc s,
      )
]

unfoldable pub handle_multi_ack : ℕ → Packet → Acks → Acks
handle_multi_ack now p s = elim (extract_ack_crc p.payload) [
  | none ↦ s
  | some crc ↦ register_ack_received now crc s
]

-- The CRC that the handler of the packet's type finds: what the dispatcher hands to the ACK, the
-- multipart and the path handler, past the check that keeps back a packet with hops left.
unfoldable pub ack_in :
    Cipher → (List ℕ → Option (List ℕ)) → List ℕ → List (List ℕ) → Packet → Option ℕ
ack_in c secret_with self_key contacts p =
    if get_payload_type p == payload_type_ack
    then process_discrete_ack p.payload
    else if get_payload_type p == payload_type_multipart
    then extract_ack_crc p.payload
    else if get_payload_type p == payload_type_path
    then process_path_ack_variants c secret_with self_key contacts p.payload
    else none
