-- ===== src/Node/Text/Receipt.antt =====
-- A text message from `create_text_message` of protocol/packet_builder.py to the receiver's contact,
-- text and ACK in node/handlers/text.py.
use openhop_core.Prelude.{
  ℕ, suc, ◌≤◌, ◌<◌, ◌≡◌, refl, sym, ap, ◌∙◌, ◌≢◌, ◌⊎◌, inl, inr, Option, some, List, [], ◌∷◌, ◌++◌,
  arith, ◌==◌, Bool-cases, Option-cases, length, length-append, get_or, take, length-take,
  All-append, All-take,
}
use openhop_core.Prelude.Outcome.{ok, >>=-eq-ok}
use mathlib.Core.Path.{subst}
use openhop_core.Prelude.Bytes.{from_le, le32, IsBytes}
use openhop_core.Protocol.Constants.{txt_type_plain, txt_type_signed_plain}
use openhop_core.Protocol.Crypto.{Cipher, IsCipher, encrypt_then_mac, padded}
use openhop_core.Protocol.Crypto.{aes_encrypt}
use openhop_core.Protocol.Packet.{Packet}
use openhop_core.Protocol.PathOps.{set_path}
use openhop_core.Protocol.Builder.{RouteName}
use openhop_core.Protocol.Builder.Text.{
  Message, flags_byte, is_extended, check_length, pack_timestamp_data, signed_sender_prefix, tail,
  text_plaintext, text_ack_crc, kept_path_len, choose_path, route_text, text_payload,
  create_text_message,
}
use openhop_core.Node.Acks.Handler.PathReturn.{opened}
use openhop_core.Node.Text.{Contact, Parsed, find_sender, parse_text, visible_text, calc_ack_hash}
use openhop_core.Node.Text.Answer.{IsDigest, calc_ack_hash-text_ack_crc}
use openhop_core.Node.Text.Delivery.{NoNul, pack-ok}
use openhop_core.Node.Text.Sender.{as_keys, keys, find_sender-iter_decrypt}
use openhop_core.Node.Text.Journey.{IsPeer, IsPeer-Reaches, ok_injective}

payload-route_text :
    (out_path : Option (List ℕ)) (contact_path : List ℕ) (contact_path_len : Option ℕ)
    (message_type : RouteName) (p q : Packet)
    → route_text out_path contact_path contact_path_len message_type p ≡ ok q
    → q.payload ≡ p.payload
unfolding route_text set_path
payload-route_text out_path contact_path contact_path_len message_type p q h =
    elim (Option-cases
      (kept_path_len out_path contact_path_len (choose_path out_path contact_path))) [
        | inl unkept ↦ ground (arith, h, unkept)
        | inr (path_len, kept) ↦ ground (arith, h, kept)
      ]

-- The parts of a message that was built.
built :
    (c : Cipher) (sha256 : List ℕ → List ℕ) (self_key contact_key secret : List ℕ) (m : Message)
    (out_path : Option (List ℕ)) (contact_path : List ℕ) (contact_path_len : Option ℕ)
    (message_type : RouteName) (p : Packet) (crc : ℕ)
    → create_text_message c sha256 self_key contact_key secret m out_path contact_path
        contact_path_len message_type
      ≡ ok (p, crc)
    → (plain : List ℕ) × (text_plaintext self_key m ≡ ok plain)
      × (text_ack_crc sha256 self_key contact_key m ≡ ok crc)
      × (p.payload ≡ text_payload c self_key contact_key secret plain)
unfolding create_text_message
built c sha256 self_key contact_key secret m out_path contact_path contact_path_len message_type p
      crc h =
    let (_, _, checked) = >>=-eq-ok (check_length m) _ h in
    let (plain, made, more) = >>=-eq-ok (text_plaintext self_key m) _ checked in
    let (ack_crc, expected, routed) =
      >>=-eq-ok (text_ack_crc sha256 self_key contact_key m) _ more in
    let (q, placed, whole) =
      >>=-eq-ok (route_text out_path contact_path contact_path_len message_type _) _ routed in
    let pair = ok_injective (q, ack_crc) (p, crc) whole in
    (
      plain,
      made,
      expected ∙ ap (λ r. ok r.1) pair,
      sym (ap (λ r. r.0.payload) pair)
          ∙ payload-route_text out_path contact_path contact_path_len message_type _ q placed,
    )

packed_filled : (n : ℕ) (parts : List ℕ) → le32 n ++ parts ≢ []
unfolding le32
packed_filled n parts e = cc

le32-IsBytes : (n : ℕ) → n < 4294967296 → IsBytes (le32 n)
unfolding le32
le32-IsBytes n small = (omega arith, (omega arith, (omega arith, (omega (arith, small), tt))))

tail-IsBytes : (m : Message) → m.attempt_full < 256 → IsBytes (tail m)
unfolding tail
tail-IsBytes m small = elim (Bool-cases (is_extended m.attempt_full m.txt_type)) [
  | inl long ↦ rw (tail, long) (omega arith, (small, tt))
  | inr short ↦ rw (tail, short) tt
]

prefix-IsBytes :
    (self_key : List ℕ) (m : Message) → IsBytes self_key → IsBytes (signed_sender_prefix self_key m)
unfolding signed_sender_prefix
prefix-IsBytes self_key m bytes = elim (Bool-cases (m.txt_type == txt_type_signed_plain)) [
  | inl signed ↦ rw (signed) (All-take (λ b. b < 256) 4 self_key bytes)
  | inr unsigned ↦ rw (unsigned) tt
]

small_timestamp :
    (timestamp : ℕ) (parts packed : List ℕ)
    → pack_timestamp_data timestamp parts ≡ ok packed
    → timestamp < 4294967296
unfolding pack_timestamp_data
small_timestamp timestamp parts packed h = ground (arith, h)

flags-IsByte : (m : Message) → m.txt_type ≤ 3 → flags_byte m < 256
unfolding flags_byte
flags-IsByte m known = omega (arith, known)

plaintext-IsBytes :
    (self_key : List ℕ) (m : Message) (plain : List ℕ)
    → text_plaintext self_key m ≡ ok plain
    → m.txt_type ≤ 3
    → m.attempt_full < 256
    → IsBytes self_key
    → IsBytes m.text
    → IsBytes plain × (plain ≢ [])
unfolding text_plaintext
plaintext-IsBytes self_key m plain made known small keys texts =
    let parts = signed_sender_prefix self_key m ++ (m.text ++ tail m) in
    let laid_out = pack-ok m.timestamp (flags_byte m ∷ parts) plain made in
    (
      subst IsBytes (sym laid_out) (
          All-append (λ b. b < 256) (le32 m.timestamp) (flags_byte m ∷ parts)
            (le32-IsBytes m.timestamp
              (small_timestamp m.timestamp (flags_byte m ∷ parts) plain made))
            (
              flags-IsByte m known,
              All-append (λ b. b < 256) (signed_sender_prefix self_key m) (m.text ++ tail m)
                  (prefix-IsBytes self_key m keys)
                  (All-append (λ b. b < 256) m.text (tail m) texts (tail-IsBytes m small)),
            )),
      λ e. packed_filled m.timestamp (flags_byte m ∷ parts) (sym laid_out ∙ e),
    )

-- Text without NUL, bytes where the source has bytes, and a type that is acknowledged.
pub record IsAcked (m : Message) : Type 0 where
  pub no_nul : NoNul m.text
  pub text_bytes : IsBytes m.text
  pub attempt_byte : m.attempt_full < 256
  pub acked : (m.txt_type ≡ txt_type_plain) ⊎ (m.txt_type ≡ txt_type_signed_plain)

four_bytes : (n : ℕ) → 2 ≤ n → 4 ≤ suc (suc n)
four_bytes n h = omega (arith, h)

sealed_size :
    (c : Cipher) (laws : IsCipher c) (key secret plain : List ℕ)
    → 2 ≤ length (encrypt_then_mac c key secret plain)
unfolding encrypt_then_mac
sealed_size c laws key secret plain =
    let cipher = aes_encrypt c key plain in
    omega (
      arith,
      length-append (take 2 (c.hmac_sha256 secret cipher)) cipher,
      length-take 2 (c.hmac_sha256 secret cipher),
      laws.length-hmac secret cipher,
    )

sender_found :
    (c : Cipher) (laws : IsCipher c) (self_key contact_key secret plain : List ℕ)
    (secret_with : List ℕ → Option (List ℕ)) (contacts : List Contact)
    (before after : List (List ℕ))
    → keys contacts ≡ before ++ self_key ∷ after
    → IsPeer secret_with before self_key secret
    → IsBytes plain
    → plain ≢ []
    → as_keys
        (find_sender c secret_with contacts (text_payload c self_key contact_key secret plain))
      ≡ some (self_key, secret, padded plain)
unfolding text_payload
sender_found c laws self_key contact_key secret plain secret_with contacts before after known peer
      bytes filled =
    let encrypted = encrypt_then_mac c (take 16 secret) secret plain in
    let (rest, found) =
      opened c laws secret_with before after self_key secret (get_or self_key 0 0) plain
        (IsPeer-Reaches c secret_with before self_key secret encrypted peer) bytes filled in
    find_sender-iter_decrypt c secret_with contacts
      (get_or contact_key 0 0 ∷ get_or self_key 0 0 ∷ encrypted)
      (four_bytes (length encrypted) (sealed_size c laws (take 16 secret) secret plain))
    ∙ rw (known) (rw (found) refl)

-- From one node to the other: if a node made a plain or signed message for a contact with the
-- secret that both compute, and a CRC to wait for, then the receiver takes the author for the
-- sender, reads the very text, and computes an ACK whose first 4 bytes are that CRC. The receiver
-- knows the author by its key, and no contact before it has a key that begins alike.
pub create_text_message-find_sender :
    (c : Cipher) (laws : IsCipher c) (sha256 : List ℕ → List ℕ) (digest : IsDigest sha256)
    (self_key contact_key secret : List ℕ) (m : Message) (out_path : Option (List ℕ))
    (contact_path : List ℕ) (contact_path_len : Option ℕ) (message_type : RouteName) (p : Packet)
    (crc random : ℕ) (secret_with : List ℕ → Option (List ℕ)) (contacts : List Contact)
    (before after : List (List ℕ))
    → create_text_message c sha256 self_key contact_key secret m out_path contact_path
        contact_path_len message_type
      ≡ ok (p, crc)
    → IsAcked m
    → IsBytes self_key
    → keys contacts ≡ before ++ self_key ∷ after
    → IsPeer secret_with before self_key secret
    → (decrypted ack : List ℕ) × (q : Parsed) × (as_keys
          (find_sender c secret_with contacts p.payload)
        ≡ some (self_key, secret, decrypted))
      × (parse_text decrypted ≡ some q)
      × (visible_text q ≡ m.text)
      × (calc_ack_hash sha256 contact_key self_key decrypted q random ≡ ok (some ack))
      × (from_le (take 4 ack) ≡ crc)
      × (4 ≤ length ack)
create_text_message-find_sender c laws sha256 digest self_key contact_key secret m out_path
      contact_path contact_path_len message_type p crc random secret_with contacts before after h
      good keyed known peer =
    let (plain, made, expected, payload) =
      built c sha256 self_key contact_key secret m out_path contact_path contact_path_len
        message_type p crc h in
    let (bytes, filled) =
      plaintext-IsBytes self_key m plain made (ground (arith, good.acked)) good.attempt_byte keyed
        good.text_bytes in
    let (q, ack, parsed, read, computed, agrees, long) =
      calc_ack_hash-text_ack_crc sha256 digest self_key contact_key m random crc plain made
        good.no_nul expected (omega (arith, peer.key_size)) good.acked in
    (
      padded plain,
      ack,
      q,
      rw (payload) (
          sender_found c laws self_key contact_key secret plain secret_with contacts before after
            known peer bytes filled),
      parsed,
      read,
      computed,
      agrees,
      long,
    )
