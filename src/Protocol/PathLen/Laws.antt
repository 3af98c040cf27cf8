-- ===== src/Protocol/PathLen/Laws.antt =====
-- The path_len byte: encoding and decoding, validity, and the room for one more hop.
use openhop_core.Prelude.{
  ℕ, zero, suc, min, ◌+◌, ◌-◌, ◌*◌, ◌/◌, ◌%◌, ◌≤◌, ◌<◌, ◌≡◌, refl, ◌↔◌, true, false, arith,
}
use mathlib.Core.Path.{ap₂}
use openhop_core.Prelude.Outcome.{ok}
use openhop_core.Protocol.PathLen.{
  get_path_hash_size, get_path_hash_count, get_path_byte_len, encode_path_len, is_valid_path_len,
  is_path_at_max_hops,
}

-- What `encode_path_len` makes of a hop count in range.
pub encode_path_len-ok : (s c : ℕ) → c ≤ 63 → encode_path_len s c ≡ ok ((s - 1) * 64 + c)
unfolding encode_path_len
encode_path_len-ok s c h = ground arith

size_count :
    (s c : ℕ) → 0 < s → c ≤ 63 → ((s - 1) * 64 + c) % 64 * (((s - 1) * 64 + c) / 64 + 1) ≡ c * s
size_count s c h small =
    let count : ((s - 1) * 64 + c) % 64 ≡ c = omega arith in
    let size : ((s - 1) * 64 + c) / 64 + 1 ≡ s = omega arith in ap₂ ◌*◌ count size

-- A hash size from 1 and a hop count up to 63 are packed into a byte that gives both back, and
-- whose path has as many bytes as their product.
pub decode-encode_path_len :
    (s c : ℕ)
    → 0 < s
    → c ≤ 63
    → (b : ℕ) × (encode_path_len s c ≡ ok b)
      × (get_path_hash_size b ≡ s)
      × (get_path_hash_count b ≡ c)
      × (get_path_byte_len b ≡ c * s)
unfolding get_path_hash_size get_path_hash_count get_path_byte_len
decode-encode_path_len s c h small = (
  (s - 1) * 64 + c,
  encode_path_len-ok s c small,
  omega arith,
  omega arith,
  size_count s c h small,
)

-- A path_len byte is valid exactly when its hash size is at most 3 and its path at most 64 bytes.
pub is_valid_path_len_iff :
    (b : ℕ)
    → (is_valid_path_len b ≡ true) ↔ ((get_path_hash_size b ≤ 3) × (get_path_byte_len b ≤ 64))
unfolding is_valid_path_len get_path_hash_size get_path_byte_len
is_valid_path_len_iff b = ground arith

-- The largest number of hops, for each of the three hash sizes.
cap_iff : (q c : ℕ) → q ≤ 2 → (c < min 63 (64 / (q + 1))) ↔ ((c < 63) × ((c + 1) * (q + 1) ≤ 64))
cap_iff zero c h = (λ p. (omega arith, omega arith), λ p. omega arith)
cap_iff (suc zero) c h = (λ p. (omega arith, omega arith), λ p. omega arith)
cap_iff (suc (suc zero)) c h = (λ p. (omega arith, omega arith), λ p. omega arith)
cap_iff (suc (suc (suc q))) c h = absurd (omega arith)

-- With a hash size of at most 3, a path has room for one more hop exactly when it is not at the
-- maximum.
pub room_iff :
    (b : ℕ)
    → get_path_hash_size b ≤ 3
    → (is_path_at_max_hops b ≡ false)
      ↔ ((get_path_hash_count b < 63) × ((get_path_hash_count b + 1) * get_path_hash_size b ≤ 64))
unfolding is_path_at_max_hops get_path_hash_size get_path_hash_count
room_iff b h =
    let (up, down) = cap_iff (b / 64) (b % 64) (omega arith) in
    (λ p. ground (arith, up), λ p. ground (arith, down p))

pub byte_len-eq-mul : (b : ℕ) → get_path_byte_len b ≡ get_path_hash_count b * get_path_hash_size b
unfolding get_path_byte_len get_path_hash_count get_path_hash_size
byte_len-eq-mul b = refl

pub hash_count-le : (b : ℕ) → get_path_hash_count b ≤ 63
unfolding get_path_hash_count
hash_count-le b = omega arith
