-- ===== src/Tests/Cipher.antt =====
-- A cipher and an HMAC that can be computed, two nodes with the secret that they share, and a text
-- message, for the tests.
use openhop_core.Prelude.{
  ℕ, suc, ◌+◌, ◌%◌, ◌≡◌, refl, ap, ◌∙◌, Option, some, List, [], ◌∷◌, map, arith, length, replicate,
}
use mathlib.Core.List.{map-append}
use openhop_core.Prelude.Bytes.{IsBytes}
use openhop_core.Protocol.Crypto.{Cipher, IsCipher}
use openhop_core.Protocol.Builder.Text.{Message}
use openhop_core.Tests.Samples.{toy_hmac}

-- Every byte is shifted by one.
abbrev pub toy_cipher : Cipher
toy_cipher = record {
  encrypt = λ key. map (λ b. (b + 1) % 256);
  decrypt = λ key. map (λ b. (b + 255) % 256);
  hmac_sha256 = toy_hmac;
}

length_shift : (xs : List ℕ) → length (map (λ b. (b + 1) % 256) xs) ≡ length xs
length_shift [] = refl
length_shift (x ∷ xs) = ap suc (length_shift xs)

shift_back :
    (xs : List ℕ) → IsBytes xs → map (λ b. (b + 255) % 256) (map (λ b. (b + 1) % 256) xs) ≡ xs
shift_back [] bytes = refl
shift_back (x ∷ xs) (small, bytes) =
    let same : ((x + 1) % 256 + 255) % 256 ≡ x = omega (arith, small) in
    ap (λ y. y ∷ map (λ b. (b + 255) % 256) (map (λ b. (b + 1) % 256) xs)) same
    ∙ ap (◌∷◌ x) (shift_back xs bytes)

pub toy_cipher-IsCipher : IsCipher toy_cipher
toy_cipher-IsCipher = record {
  encrypt-empty = λ key. refl;
  encrypt-append = λ key block rest size. map-append (λ b. (b + 1) % 256) block rest;
  length-encrypt = λ key block size. length_shift block ∙ size;
  decrypt-encrypt = λ key block bytes size. shift_back block bytes;
  length-hmac = λ key message. refl;
}

abbrev pub author_key : List ℕ
author_key = 3 ∷ replicate 31 9

abbrev pub peer_key : List ℕ
peer_key = 4 ∷ replicate 31 8

abbrev pub other_key : List ℕ
other_key = 5 ∷ replicate 31 7

abbrev pub secret : List ℕ
secret = replicate 32 6

-- Every exchange gives the same secret.
abbrev pub toy_secret_with : List ℕ → Option (List ℕ)
toy_secret_with key = some secret

-- A plain message in its fifth attempt: "hi".
abbrev pub hello : Message
hello = record { timestamp = 1000; txt_type = 0; attempt_full = 5; text = 104 ∷ 105 ∷ [] }
