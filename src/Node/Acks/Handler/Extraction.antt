-- ===== src/Node/Acks/Handler/Extraction.antt =====
-- What the handlers of node/handlers/ack.py and multipart.py find in the packets that
-- protocol/packet_builder.py makes.
use openhop_core.Prelude.{
  ℕ, zero, suc, ◌+◌, ◌*◌, ◌%◌, ◌≤◌, ◌≡◌, refl, ap, ◌∙◌, ◌≢◌, true, false, Option, none, some, List,
  [], ◌∷◌, ◌++◌, arith, ltb, ==_iff, ==_refl, length, length-append, get_or, take, drop, All,
}
use openhop_core.Prelude.Dict.{nat_key, bytes_key}
use openhop_core.Prelude.Outcome.{ok, >>=-eq-ok}
use openhop_core.Prelude.Bytes.{from_le, IsBytes}
use openhop_core.Protocol.Constants.{payload_type_ack}
use openhop_core.Protocol.Crypto.{Cipher, IsCipher, encrypt_then_mac, padded}
use openhop_core.Protocol.Crypto.RoundTrip.{mac_then_decrypt-padded}
use openhop_core.Protocol.Packet.{Packet}
use openhop_core.Protocol.PathLen.{is_valid_path_len, get_path_byte_len}
use openhop_core.Protocol.PathOps.{set_path}
use openhop_core.Protocol.Builder.{
  RouteName, with_path, create_packet, create_ack_from_bytes, create_multi_ack, first_byte,
  path_return_inner,
}
use openhop_core.Node.Acks.Handler.{
  process_discrete_ack, extract_ack_crc, decrypt_from, iter_decrypt_by_src_hash, ack_extra,
}

pub payload-create_packet :
    (header : ℕ) (payload : List ℕ) (p : Packet)
    → create_packet header payload ≡ ok p
    → p.payload ≡ payload
unfolding create_packet
payload-create_packet header payload p h = ground (arith, h)

payload-with_path :
    (path : List ℕ) (enc : Option ℕ) (p q : Packet)
    → with_path path enc p ≡ ok q
    → q.payload ≡ p.payload
unfolding with_path set_path
payload-with_path [] enc p q h = ground (arith, h)
payload-with_path (b ∷ path) (some e) p q h = ground (arith, h)
payload-with_path (b ∷ path) none p q h = ground (arith, h)

pub payload-create_ack_from_bytes :
    (ack path : List ℕ) (enc : Option ℕ) (route : RouteName) (p : Packet)
    → create_ack_from_bytes ack path enc route ≡ ok p
    → p.payload ≡ ack
unfolding create_ack_from_bytes
payload-create_ack_from_bytes ack path enc route p h =
    let (q, made, placed) = >>=-eq-ok (create_packet _ ack) (with_path path enc) h in
    payload-with_path path enc q p placed ∙ payload-create_packet _ ack q made

pub payload-create_multi_ack :
    (ack path : List ℕ) (remaining : ℕ) (enc : Option ℕ) (p : Packet)
    → create_multi_ack ack remaining path enc ≡ ok p
    → p.payload ≡ (remaining % 16 * 16 + payload_type_ack) ∷ ack
unfolding create_multi_ack
payload-create_multi_ack ack path remaining enc p h =
    let (q, made, placed) = >>=-eq-ok (create_packet _ _) (with_path path enc) h in
    payload-with_path path enc q p placed ∙ payload-create_packet _ _ q made

pub process_discrete_ack-long :
    (ack : List ℕ) → 4 ≤ length ack → process_discrete_ack ack ≡ some (from_le (take 4 ack))
unfolding process_discrete_ack
process_discrete_ack-long ack long = ground (arith, long)

pub extract_ack_crc-wrapped :
    (remaining : ℕ) (ack : List ℕ)
    → 4 ≤ length ack
    → extract_ack_crc ((remaining % 16 * 16 + payload_type_ack) ∷ ack) ≡ some (from_le (take 4 ack))
unfolding extract_ack_crc
extract_ack_crc-wrapped remaining ack long =
    let low : (remaining % 16 * 16 + payload_type_ack) % 16 ≡ payload_type_ack = omega arith in
    ground (arith, long, ==_iff ((remaining % 16 * 16 + payload_type_ack) % 16) payload_type_ack)

pub first_byte-valid :
    (path : List ℕ) (enc : Option ℕ) (first : ℕ)
    → first_byte path enc ≡ ok first
    → (is_valid_path_len first ≡ true) × (get_path_byte_len first ≡ length path)
unfolding first_byte is_valid_path_len get_path_byte_len
first_byte-valid [] none first h = ground (arith, h)
first_byte-valid (b ∷ path) none first h = ground (arith, h)
first_byte-valid path (some e) first h =
    ground (arith, h, ==_iff (length path) (get_path_byte_len e))

pub append_assoc : (xs ys zs : List ℕ) → (xs ++ ys) ++ zs ≡ xs ++ (ys ++ zs)
append_assoc [] ys zs = refl
append_assoc (x ∷ xs) ys zs = ap (◌∷◌ x) (append_assoc xs ys zs)

get_or_past : (xs ys : List ℕ) (y d : ℕ) → get_or (xs ++ y ∷ ys) (length xs) d ≡ y
get_or_past [] ys y d = refl
get_or_past (x ∷ xs) ys y d = get_or_past xs ys y d

drop_past : (xs ys : List ℕ) (y : ℕ) → drop (length xs + 1) (xs ++ y ∷ ys) ≡ ys
drop_past [] ys y = refl
drop_past (x ∷ xs) ys y =
    let moved : suc (length xs) + 1 ≡ suc (length xs + 1) = omega arith in
    ap (λ n. drop n (x ∷ (xs ++ y ∷ ys))) moved ∙ drop_past xs ys y

pub take_front : (n : ℕ) (xs ys : List ℕ) → n ≤ length xs → take n (xs ++ ys) ≡ take n xs
take_front zero xs ys h = refl
take_front (suc n) [] ys h = absurd (omega (arith, h))
take_front (suc n) (x ∷ xs) ys h = ap (◌∷◌ x) (take_front n xs ys (omega (arith, h)))

pub leb_below : (n m : ℕ) → m ≤ n → ltb n m ≡ false
leb_below n m h = ground arith

ack_extra-laid_out :
    (first : ℕ) (path ack zeros : List ℕ)
    → is_valid_path_len first ≡ true
    → get_path_byte_len first ≡ length path
    → 4 ≤ length ack
    → ack_extra (first ∷ (path ++ payload_type_ack ∷ (ack ++ zeros))) ≡ some (from_le (take 4 ack))
unfolding ack_extra
ack_extra-laid_out first path ack zeros valid fits long =
    let inner = path ++ payload_type_ack ∷ (ack ++ zeros) in
    let size : length inner ≡ length path + suc (length ack + length zeros) =
      omega
        (arith, length-append path (payload_type_ack ∷ (ack ++ zeros)), length-append ack zeros) in
    rw (fits) (
      rw (valid) (
        rw (leb_below (length (first ∷ inner)) (1 + length path + 1) (omega (arith, size))) (
          rw (get_or_past path (ack ++ zeros) payload_type_ack 0) (
            rw
              (leb_below (length (first ∷ inner)) (1 + length path + 5) (omega (arith, size, long)))
              (rw (drop_past path (ack ++ zeros) payload_type_ack)
                (ap (λ bs. some (from_le bs)) (take_front 4 ack zeros long)))))))

-- The inner payload of a path return with an ACK in it, whatever zeros follow.
pub ack_extra-path_return_inner :
    (first : ℕ) (path ack : List ℕ) (enc : Option ℕ) (random zeros : List ℕ)
    → first_byte path enc ≡ ok first
    → 4 ≤ length ack
    → ack_extra (path_return_inner first path payload_type_ack ack random ++ zeros)
      ≡ some (from_le (take 4 ack))
unfolding path_return_inner
ack_extra-path_return_inner first path [] enc random zeros fits long = absurd (omega (arith, long))
ack_extra-path_return_inner first path (b ∷ ack) enc random zeros fits long =
    let (valid, size) = first_byte-valid path enc first fits in
    ap (λ inner. ack_extra (first ∷ inner)) (append_assoc path (payload_type_ack ∷ b ∷ ack) zeros)
    ∙ ack_extra-laid_out first path (b ∷ ack) zeros valid size long

-- None of the contacts opens what is encrypted.
abbrev pub NoneOpens : Cipher → (List ℕ → Option (List ℕ)) → ℕ → List ℕ → List (List ℕ) → Type 0
NoneOpens c secret_with src_hash encrypted =
    All (λ key. decrypt_from c secret_with src_hash encrypted key ≡ none)

pub iter_decrypt-skip :
    (c : Cipher) (secret_with : List ℕ → Option (List ℕ)) (src_hash : ℕ) (encrypted : List ℕ)
    (before after : List (List ℕ))
    → NoneOpens c secret_with src_hash encrypted before
    → iter_decrypt_by_src_hash c secret_with (before ++ after) src_hash encrypted
      ≡ iter_decrypt_by_src_hash c secret_with after src_hash encrypted
unfolding iter_decrypt_by_src_hash
iter_decrypt-skip c secret_with src_hash encrypted [] after shut = refl
iter_decrypt-skip c secret_with src_hash encrypted (key ∷ before) after (one, rest) =
    rw (iter_decrypt_by_src_hash, one)
      (iter_decrypt-skip c secret_with src_hash encrypted before after rest)

pub decrypt_from-encrypt_then_mac :
    (c : Cipher) (laws : IsCipher c) (secret_with : List ℕ → Option (List ℕ)) (src_hash : ℕ)
    (key secret plain : List ℕ)
    → length key ≡ 32
    → get_or key 0 256 ≡ src_hash
    → secret_with key ≡ some secret
    → IsBytes plain
    → plain ≢ []
    → decrypt_from c secret_with src_hash (encrypt_then_mac c (take 16 secret) secret plain) key
      ≡ some (secret, padded plain)
unfolding decrypt_from
decrypt_from-encrypt_then_mac c laws secret_with src_hash key secret plain size named shared bytes
      filled =
    rw (size) (
      rw (named) (
        rw (==_refl src_hash) (
          rw (shared)
            (rw (mac_then_decrypt-padded c laws (take 16 secret) secret plain bytes filled) refl))))
