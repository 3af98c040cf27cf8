-- ===== src/Protocol/Crypto.antt =====
-- `CryptoUtils` of protocol/crypto.py: `_aes_encrypt`, `_aes_decrypt`, `encrypt_then_mac` and
-- `mac_then_decrypt`. The AES-128 ECB cipher of PyCryptodome and the standard library's HMAC-SHA256
-- are not in the repository: `Cipher` holds their operations, and `IsCipher` what is documented of
-- them. Keys are of a valid length, as the callers' `secret[:16]` is.
use openhop_core.Prelude.{
  ℕ, zero, suc, ◌+◌, ◌-◌, ◌*◌, ◌/◌, ◌%◌, ◌≤◌, ◌<◌, ◌≡◌, refl, sym, ap, ◌∙◌, ◌≢◌, ◌↔◌, ◌⊎◌, inl, inr,
  Bool, true, false, not, ◌&&◌, ◌||◌, Option, none, some, List, [], ◌∷◌, ◌++◌, map, arith,
  if◌then◌else◌, ltb, leb, ltb→lt, lt→ltb, leb→le, ◌==◌, ==_iff, ==_refl, Bool-cases, Option-cases,
  &&-split, length, length-append, get_elem?, get_or, set, take, drop, replicate, All, min,
  length-take, length-drop, take-append, drop-append, take_of_length-le, take-append-drop,
  length-replicate, All-append, All-take, All-drop, take-take,
}
use openhop_core.Prelude.Outcome.{
  Error, value_error, index_error, overflow_error, struct_error, Result, ok, raise, ◌>>=◌, ◌>>◌,
  raise_if, Result-cases, >>=-eq-ok,
}
use openhop_core.Prelude.Bytes.{bytes_eq, IsBytes, bytes_eq_refl, bytes_eq_sound}
pub mod RoundTrip

pub record Cipher : Type 0 where
  pub encrypt : List ℕ → List ℕ → List ℕ
  pub decrypt : List ℕ → List ℕ → List ℕ
  pub hmac_sha256 : List ℕ → List ℕ → List ℕ

-- ECB enciphers block by block, deciphering a block undoes it, and an HMAC has 32 bytes.
pub record IsCipher (c : Cipher) : Type 0 where
  pub encrypt-empty : (key : List ℕ) → c.encrypt key [] ≡ []
  pub encrypt-append :
      (key block rest : List ℕ)
      → length block ≡ 16
      → c.encrypt key (block ++ rest) ≡ c.encrypt key block ++ c.encrypt key rest
  pub length-encrypt : (key block : List ℕ) → length block ≡ 16 → length (c.encrypt key block) ≡ 16
  pub decrypt-encrypt :
      (key block : List ℕ)
      → IsBytes block
      → length block ≡ 16
      → c.decrypt key (c.encrypt key block) ≡ block
  pub length-hmac : (key message : List ℕ) → length (c.hmac_sha256 key message) ≡ 32

-- Zeros up to a whole number of blocks.
unfoldable pub padded : List ℕ → List ℕ
padded plain = plain ++ replicate ((16 - length plain % 16) % 16) 0

unfoldable pub aes_encrypt : Cipher → List ℕ → List ℕ → List ℕ
aes_encrypt c key plain = c.encrypt key (padded plain)

-- `b"".join(cipher.decrypt(ciphertext[i : i + 16]) ...)` over a number of blocks
unfoldable pub decrypt_blocks : Cipher → List ℕ → ℕ → List ℕ → List ℕ
decrypt_blocks c key zero ciphertext = []
decrypt_blocks c key (suc n) ciphertext =
    c.decrypt key (take 16 ciphertext) ++ decrypt_blocks c key n (drop 16 ciphertext)

unfoldable pub aes_decrypt : Cipher → List ℕ → List ℕ → List ℕ
aes_decrypt c key ciphertext =
    let whole = padded ciphertext in
    take (length ciphertext) (decrypt_blocks c key (length whole / 16) whole)

unfoldable pub encrypt_then_mac : Cipher → List ℕ → List ℕ → List ℕ → List ℕ
encrypt_then_mac c key_aes shared_secret plaintext =
    let ciphertext = aes_encrypt c key_aes plaintext in
    take 2 (c.hmac_sha256 shared_secret ciphertext) ++ ciphertext

unfoldable pub mac_then_decrypt : Cipher → List ℕ → List ℕ → List ℕ → Result (List ℕ)
mac_then_decrypt c aes_key shared_secret frame =
    let ciphertext = drop 2 frame in
    if leb (length frame) 2
    then raise value_error
    else if not (bytes_eq (take 2 frame) (take 2 (c.hmac_sha256 shared_secret ciphertext)))
    then raise value_error
    else ok (aes_decrypt c aes_key ciphertext)
