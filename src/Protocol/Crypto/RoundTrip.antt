-- ===== src/Protocol/Crypto/RoundTrip.antt =====
-- Enciphering and deciphering of protocol/crypto.py, over the documented laws of the cipher.
use openhop_core.Prelude.{
  ℕ, zero, suc, ◌+◌, ◌-◌, ◌*◌, ◌/◌, ◌%◌, ◌<◌, ◌≡◌, refl, sym, ap, ◌∙◌, ◌≢◌, false, List, [], ◌∷◌,
  ◌++◌, arith, leb, length, length-append, take, drop, replicate, length-take, length-drop,
  take-append, drop-append, take_of_length-le, take-append-drop, length-replicate, All-append,
  All-take, All-drop,
}
use openhop_core.Prelude.Outcome.{ok}
use openhop_core.Prelude.Bytes.{IsBytes, bytes_eq_refl}
use openhop_core.Protocol.Crypto.{
  Cipher, IsCipher, padded, aes_encrypt, decrypt_blocks, aes_decrypt, encrypt_then_mac,
  mac_then_decrypt,
}

-- `n` whole blocks.
abbrev pub IsBlocks : ℕ → List ℕ → Type 0
IsBlocks n plain = length plain ≡ n * 16

pub length-padded : (plain : List ℕ) → length (padded plain) ≡ (length plain + 15) / 16 * 16
unfolding padded
length-padded plain = omega (
  arith,
  length-append plain (replicate ((16 - length plain % 16) % 16) 0),
  length-replicate {A = ℕ} ((16 - length plain % 16) % 16) 0,
)

leb_above : (n m : ℕ) → m < n → leb n m ≡ false
leb_above n m h = ground arith

length_filled : (plain : List ℕ) → plain ≢ [] → 0 < length plain
length_filled [] filled = absurd (filled refl)
length_filled (b ∷ plain) filled = omega arith

zeros-IsBytes : (n : ℕ) → IsBytes (replicate n 0)
zeros-IsBytes zero = tt
zeros-IsBytes (suc n) = (omega arith, zeros-IsBytes n)

padded-IsBytes : (plain : List ℕ) → IsBytes plain → IsBytes (padded plain)
unfolding padded
padded-IsBytes plain h = All-append (λ b. b < 256) plain _ h (zeros-IsBytes _)

pub append_nil : (xs : List ℕ) → xs ++ [] ≡ xs
append_nil [] = refl
append_nil (x ∷ xs) = ap (◌∷◌ x) (append_nil xs)

padded_blocks : (n : ℕ) (plain : List ℕ) → IsBlocks n plain → padded plain ≡ plain
unfolding padded
padded_blocks n plain h =
    let none_missing : (16 - length plain % 16) % 16 ≡ 0 = omega (arith, h) in
    ap (λ k. plain ++ replicate k 0) none_missing ∙ append_nil plain

module _ (c : Cipher) (laws : IsCipher c) (key : List ℕ) where
  first_block : (n : ℕ) (plain : List ℕ) → IsBlocks (suc n) plain → length (take 16 plain) ≡ 16
  first_block n plain h = omega (arith, h, length-take 16 plain)

  rest-IsBlocks : (n : ℕ) (plain : List ℕ) → IsBlocks (suc n) plain → IsBlocks n (drop 16 plain)
  rest-IsBlocks n plain h = omega (arith, h, length-drop 16 plain)

  encrypt_split :
      (n : ℕ) (plain : List ℕ)
      → IsBlocks (suc n) plain
      → c.encrypt key plain ≡ c.encrypt key (take 16 plain) ++ c.encrypt key (drop 16 plain)
  encrypt_split n plain h =
      ap (c.encrypt key) (sym (take-append-drop 16 plain))
      ∙ laws.encrypt-append key (take 16 plain) (drop 16 plain) (first_block n plain h)

  length-encrypt-IsBlocks :
      (n : ℕ) (plain : List ℕ) → IsBlocks n plain → IsBlocks n (c.encrypt key plain)
  length-encrypt-IsBlocks zero [] h = ap length (laws.encrypt-empty key)
  length-encrypt-IsBlocks zero (b ∷ plain) h = absurd (omega (arith, h))
  length-encrypt-IsBlocks (suc n) plain h =
      ap length (encrypt_split n plain h)
      ∙ omega (
        arith,
        length-append (c.encrypt key (take 16 plain)) (c.encrypt key (drop 16 plain)),
        laws.length-encrypt key (take 16 plain) (first_block n plain h),
        length-encrypt-IsBlocks n (drop 16 plain) (rest-IsBlocks n plain h),
      )

  decrypt_blocks-encrypt :
      (n : ℕ) (plain : List ℕ)
      → IsBytes plain
      → IsBlocks n plain
      → decrypt_blocks c key n (c.encrypt key plain) ≡ plain
  unfolding decrypt_blocks
  decrypt_blocks-encrypt zero [] bytes h = refl
  decrypt_blocks-encrypt zero (b ∷ plain) bytes h = absurd (omega (arith, h))
  decrypt_blocks-encrypt (suc n) plain bytes h =
      let block = take 16 plain in
      let rest = drop 16 plain in
      let size = laws.length-encrypt key block (first_block n plain h) in
      rw (encrypt_split n plain h) (
        rw (take-append 16 (c.encrypt key block) (c.encrypt key rest) size) (
          rw (drop-append 16 (c.encrypt key block) (c.encrypt key rest) size) (
            rw
              (laws.decrypt-encrypt key block (All-take (λ b. b < 256) 16 plain bytes)
                (first_block n plain h))
              (rw
                (decrypt_blocks-encrypt n rest (All-drop (λ b. b < 256) 16 plain bytes)
                  (rest-IsBlocks n plain h))
                (take-append-drop 16 plain)))))

  aes_decrypt-aes_encrypt :
      (plain : List ℕ) → IsBytes plain → aes_decrypt c key (aes_encrypt c key plain) ≡ padded plain
  unfolding aes_decrypt aes_encrypt
  aes_decrypt-aes_encrypt plain bytes =
      let n = (length plain + 15) / 16 in
      let whole = length-padded plain in
      let size = length-encrypt-IsBlocks n (padded plain) whole in
      let count : length (c.encrypt key (padded plain)) / 16 ≡ n = omega (arith, size) in
      rw (padded_blocks n (c.encrypt key (padded plain)) size) (
        rw (count) (
          rw (decrypt_blocks-encrypt n (padded plain) (padded-IsBytes plain bytes) whole) (
            take_of_length-le (length (c.encrypt key (padded plain))) (padded plain)
              (omega (arith, size, whole)))))

  pub length-aes_encrypt :
      (plain : List ℕ) → length (aes_encrypt c key plain) ≡ (length plain + 15) / 16 * 16
  unfolding aes_encrypt
  length-aes_encrypt plain =
      length-encrypt-IsBlocks ((length plain + 15) / 16) (padded plain) (length-padded plain)

  pub mac_then_decrypt-padded :
      (secret plain : List ℕ)
      → IsBytes plain
      → plain ≢ []
      → mac_then_decrypt c key secret (encrypt_then_mac c key secret plain) ≡ ok (padded plain)
  unfolding mac_then_decrypt encrypt_then_mac
  mac_then_decrypt-padded secret plain bytes filled =
      let cipher = aes_encrypt c key plain in
      let mac = take 2 (c.hmac_sha256 secret cipher) in
      let two : length mac ≡ 2 =
        omega
          (arith, length-take 2 (c.hmac_sha256 secret cipher), laws.length-hmac secret cipher) in
      let long : leb (length (mac ++ cipher)) 2 ≡ false = leb_above (length (mac ++ cipher)) 2 (
        omega (
          arith,
          two,
          length-append mac cipher,
          length-aes_encrypt plain,
          length_filled plain filled,
        )) in
      rw (long) (
        rw (take-append 2 mac cipher two) (
          rw (drop-append 2 mac cipher two)
            (rw (bytes_eq_refl mac) (ap ok (aes_decrypt-aes_encrypt plain bytes)))))

  -- A receiver with the same key and secret gets a plaintext of bytes that is not empty back, with
  -- the zeros that fill its last block, where the cipher and the MAC keep their documented laws.
  pub mac_then_decrypt-encrypt_then_mac :
      (secret plain : List ℕ)
      → IsBytes plain
      → plain ≢ []
      → mac_then_decrypt c key secret (encrypt_then_mac c key secret plain)
        ≡ ok (plain ++ replicate ((16 - length plain % 16) % 16) 0)
  unfolding padded
  mac_then_decrypt-encrypt_then_mac secret plain bytes filled =
      mac_then_decrypt-padded secret plain bytes filled
