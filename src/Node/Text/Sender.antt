-- ===== src/Node/Text/Sender.antt =====
-- Who sent a text message: the handler's own loops in node/handlers/text.py against the generator of
-- node/handlers/crypto_helpers.py.
use openhop_core.Prelude.{
  ℕ, ◌≤◌, ◌≡◌, refl, inl, inr, Option, none, some, List, [], ◌∷◌, map, ◌==◌, Bool-cases,
  Option-cases, length, get_elem?, get_or, take, drop,
}
use openhop_core.Prelude.Outcome.{Result-cases}
use openhop_core.Protocol.Crypto.{Cipher, mac_then_decrypt}
use openhop_core.Node.Acks.Handler.{decrypt_from, iter_decrypt_by_src_hash}
use openhop_core.Node.Acks.Handler.Extraction.{leb_below}
use openhop_core.Node.Text.{Contact, candidates, first_opening, find_sender}

-- What both report: the key, the secret and the plaintext.
unfoldable pub as_keys : Option (Contact × List ℕ × List ℕ) → Option (List ℕ × List ℕ × List ℕ)
as_keys none = none
as_keys (some (k, secret, decrypted)) = some (k.public_key, secret, decrypted)

abbrev pub keys : List Contact → List (List ℕ)
keys = map (λ k. k.public_key)

module _ (c : Cipher) (secret_with : List ℕ → Option (List ℕ)) (src_hash : ℕ)
    (encrypted : List ℕ) where
  first_opening-iter_decrypt :
      (contacts : List Contact)
      → as_keys (first_opening c secret_with (candidates src_hash contacts) encrypted)
        ≡ get_elem? (iter_decrypt_by_src_hash c secret_with (keys contacts) src_hash encrypted) 0
  unfolding first_opening candidates iter_decrypt_by_src_hash decrypt_from as_keys
  first_opening-iter_decrypt [] = refl
  first_opening-iter_decrypt (k ∷ ks) =
      let rest = first_opening-iter_decrypt ks in
      elim (Bool-cases (get_or k.public_key 0 256 == src_hash)) [
        | inr other ↦ elim (Bool-cases (length k.public_key == 32)) [
          | inl whole ↦ rw (candidates, iter_decrypt_by_src_hash, decrypt_from, other, whole) rest
          | inr short ↦ rw (candidates, iter_decrypt_by_src_hash, decrypt_from, other, short) rest
        ]
        | inl named ↦ elim (Bool-cases (length k.public_key == 32)) [
          | inr short ↦
              rw (candidates, first_opening, iter_decrypt_by_src_hash, decrypt_from, named, short)
                rest
          | inl whole ↦ elim (Option-cases (secret_with k.public_key)) [
            | inl unknown ↦
                rw
                  (
                    candidates, first_opening, iter_decrypt_by_src_hash, decrypt_from, named, whole,
                    unknown,
                  )
                  rest
            | inr (secret, known) ↦
                elim (Result-cases (mac_then_decrypt c (take 16 secret) secret encrypted)) [
                  | inl (decrypted, opens) ↦
                      rw
                        (
                          candidates, first_opening, iter_decrypt_by_src_hash, decrypt_from, named,
                          whole, known, opens,
                        )
                        refl
                  | inr (e, fails) ↦
                      rw
                        (
                          candidates, first_opening, iter_decrypt_by_src_hash, decrypt_from, named,
                          whole, known, fails,
                        )
                        rest
                ]
          ]
        ]
      ]

-- The text handler finds the same sender as the generator that the ACK and the other handlers use:
-- for a payload of 4 bytes or more, the contact, secret and plaintext that it settles on are the
-- first that the generator yields for the same contacts, and it settles on none if there are none.
pub find_sender-iter_decrypt :
    (c : Cipher) (secret_with : List ℕ → Option (List ℕ)) (contacts : List Contact)
    (payload : List ℕ)
    → 4 ≤ length payload
    → as_keys (find_sender c secret_with contacts payload)
      ≡ get_elem?
          (iter_decrypt_by_src_hash c secret_with
            (keys contacts)
            (get_or payload 1 0)
            (drop 2 payload))
          0
unfolding find_sender
find_sender-iter_decrypt c secret_with contacts payload long =
    rw (leb_below (length payload) 4 long)
      (first_opening-iter_decrypt c secret_with (get_or payload 1 0) (drop 2 payload) contacts)
