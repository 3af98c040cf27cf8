-- ===== src/Node/Text/Answer.antt =====
-- The ACK of a text message: what node/handlers/text.py computes from the plaintext, against the
-- CRC that protocol/packet_builder.py gave the sender to wait for.
use openhop_core.Prelude.{
  ℕ, ◌+◌, ◌/◌, ◌%◌, ◌≤◌, ◌≡◌, refl, sym, ap, ◌∙◌, ◌⊎◌, inl, inr, true, false, some, List, [], ◌∷◌,
  ◌++◌, arith, if◌then◌else◌, ◌==◌, length, length-append, take, replicate, length-take,
  take-append, take-take,
}
use openhop_core.Prelude.Outcome.{ok}
use openhop_core.Prelude.Bytes.{from_le, le32}
use openhop_core.Protocol.Constants.{txt_type_plain, txt_type_signed_plain}
use openhop_core.Protocol.Crypto.{padded}
use openhop_core.Protocol.Builder.Text.{
  c_string, Message, flags_byte, pack_timestamp_data, signed_sender_prefix, tail, text_plaintext,
  text_ack_crc, calc_text_ack_hash,
}
use openhop_core.Node.Acks.Handler.Extraction.{append_assoc}
use openhop_core.Node.Text.{Parsed, parse_text, visible_text, ext_attempt, calc_ack_hash}
use openhop_core.Node.Text.Delivery.{
  NoNul, c_string-append, tail_ends, received, padded_laid_out, parse_laid_out,
}

signed_span :
    (a b c d flags : ℕ) (prefix text rest : List ℕ)
    → length prefix ≡ 4
    → take (9 + length text) (a ∷ b ∷ c ∷ d ∷ flags ∷ (prefix ++ (text ++ rest)))
      ≡ a ∷ b ∷ c ∷ d ∷ flags ∷ (prefix ++ text)
signed_span a b c d flags prefix text rest four =
    let front = a ∷ b ∷ c ∷ d ∷ flags ∷ (prefix ++ text) in
    let size : length front ≡ 9 + length text = omega (arith, four, length-append prefix text) in
    ap (λ tail. take (9 + length text) (a ∷ b ∷ c ∷ d ∷ flags ∷ tail))
      (sym (append_assoc prefix text rest))
    ∙ take-append (9 + length text) front rest size

-- The digest has 32 bytes.
abbrev pub IsDigest : (List ℕ → List ℕ) → Type 0
IsDigest sha256 = (message : List ℕ) → length (sha256 message) ≡ 32

first_four :
    (sha256 : List ℕ → List ℕ)
    → IsDigest sha256
    → (message rest : List ℕ) → take 4 (take 4 (sha256 message) ++ rest) ≡ take 4 (sha256 message)
first_four sha256 digest message rest =
    take-append 4 (take 4 (sha256 message)) rest
      (omega (arith, length-take 4 (sha256 message), digest message))

calc_text_ack_hash-packed :
    (sha256 : List ℕ → List ℕ) (pubkey : List ℕ) (timestamp flags : ℕ) (text : List ℕ)
    (ext random : ℕ) (parts plain : List ℕ)
    → pack_timestamp_data timestamp parts ≡ ok plain
    → calc_text_ack_hash sha256 pubkey timestamp flags text ext random
      ≡ ok (
          take 4 (sha256 ((le32 timestamp ++ (flags % 256 ∷ text)) ++ pubkey))
          ++ (ext % 256 ∷ random ∷ []))
unfolding calc_text_ack_hash pack_timestamp_data
calc_text_ack_hash-packed sha256 pubkey timestamp flags text ext random parts plain h =
    ground (arith, h)

calc_ack_hash-plain :
    (sha256 : List ℕ → List ℕ) (self_key pubkey decrypted : List ℕ) (q : Parsed) (random : ℕ)
    → q.txt_type ≡ txt_type_plain
    → (parts plain : List ℕ) → pack_timestamp_data q.timestamp parts ≡ ok plain
    → calc_ack_hash sha256 self_key pubkey decrypted q random
      ≡ ok (
          some (
            take 4 (sha256 ((le32 q.timestamp ++ (q.flags % 256 ∷ visible_text q)) ++ pubkey))
            ++ (ext_attempt q % 256 ∷ random ∷ [])))
unfolding calc_ack_hash calc_text_ack_hash le32 ext_attempt visible_text c_string
calc_ack_hash-plain sha256 self_key pubkey decrypted q random typed parts plain h = rw (typed) (
    rw
      (calc_text_ack_hash-packed sha256 pubkey q.timestamp q.flags (visible_text q) (ext_attempt q)
        random parts plain h)
      refl)

calc_ack_hash-signed :
    (sha256 : List ℕ → List ℕ) (self_key pubkey decrypted : List ℕ) (q : Parsed) (random : ℕ)
    → q.txt_type ≡ txt_type_signed_plain
    → calc_ack_hash sha256 self_key pubkey decrypted q random
      ≡ ok (some (take 4 (sha256 (take (9 + length (visible_text q)) decrypted ++ self_key))))
unfolding calc_ack_hash
calc_ack_hash-signed sha256 self_key pubkey decrypted q random typed = rw (typed) refl

length-signed_sender_prefix :
    (self_key : List ℕ) (m : Message)
    → 4 ≤ length self_key
    → (m.txt_type == txt_type_signed_plain) ≡ true
    → length (signed_sender_prefix self_key m) ≡ 4
unfolding signed_sender_prefix
length-signed_sender_prefix self_key m keyed signed =
    rw (signed) (omega (arith, keyed, length-take 4 self_key))

-- The CRC that the sender waits for.
sender_crc :
    (sha256 : List ℕ → List ℕ) (self_key contact_key : List ℕ) (m : Message) (crc : ℕ)
    → text_ack_crc sha256 self_key contact_key m ≡ ok crc
    → crc
      ≡ from_le (
          take 4 (
            sha256 (
              (le32 m.timestamp ++ (flags_byte m ∷ (signed_sender_prefix self_key m ++ m.text)))
              ++ (if m.txt_type == txt_type_signed_plain then contact_key else self_key))))
unfolding text_ack_crc pack_timestamp_data
sender_crc sha256 self_key contact_key m crc h = ground (arith, h)

small_flags : (m : Message) → m.txt_type ≤ 3 → flags_byte m % 256 ≡ flags_byte m
unfolding flags_byte
small_flags m known = omega (arith, known)

module _ (sha256 : List ℕ → List ℕ) (digest : IsDigest sha256) (self_key contact_key : List ℕ)
    (m : Message) (n random crc : ℕ) (plain : List ℕ) (made : text_plaintext self_key m ≡ ok plain)
    (clean : NoNul m.text) (expected : text_ack_crc sha256 self_key contact_key m ≡ ok crc) where
  read_text : visible_text (received self_key m n) ≡ m.text
  unfolding visible_text received
  read_text = c_string-append m.text (tail m ++ replicate n 0) clean (tail_ends m n)

  plain_agrees :
      (decrypted : List ℕ)
      → m.txt_type ≡ txt_type_plain
      → (ack : List ℕ) × (calc_ack_hash sha256 contact_key self_key decrypted
            (received self_key m n)
            random
          ≡ ok (some ack))
        × (from_le (take 4 ack) ≡ crc)
        × (4 ≤ length ack)
  unfolding text_plaintext received
  plain_agrees decrypted typed =
      let q = received self_key m n in
      let unsigned : (m.txt_type == txt_type_signed_plain) ≡ false = rw (typed) refl in
      let message = (le32 m.timestamp ++ (flags_byte m % 256 ∷ visible_text q)) ++ self_key in
      let rest = ext_attempt q % 256 ∷ random ∷ [] in
      let same : message
          ≡ (le32 m.timestamp ++ (flags_byte m ∷ (signed_sender_prefix self_key m ++ m.text)))
            ++ (if m.txt_type == txt_type_signed_plain then contact_key else self_key) =
        rw (small_flags m (omega (arith, typed)))
          (rw (read_text) (rw (signed_sender_prefix, unsigned) refl)) in
      (
        take 4 (sha256 message) ++ rest,
        calc_ack_hash-plain sha256 contact_key self_key decrypted q random typed _ plain made,
        ap from_le (first_four sha256 digest message rest)
            ∙ ap (λ x. from_le (take 4 (sha256 x))) same
            ∙ sym (sender_crc sha256 self_key contact_key m crc expected),
        omega (
          arith,
          length-append (take 4 (sha256 message)) rest,
          length-take 4 (sha256 message),
          digest message,
        ),
      )

  signed_agrees :
      (decrypted : List ℕ)
      → decrypted
        ≡ le32 m.timestamp
          ++ (flags_byte m
              ∷ (signed_sender_prefix self_key m ++ (m.text ++ (tail m ++ replicate n 0))))
      → 4 ≤ length self_key
      → m.txt_type ≡ txt_type_signed_plain
      → (ack : List ℕ) × (calc_ack_hash sha256 contact_key self_key decrypted
            (received self_key m n)
            random
          ≡ ok (some ack))
        × (from_le (take 4 ack) ≡ crc)
        × (4 ≤ length ack)
  unfolding received le32
  signed_agrees decrypted laid_out keyed typed =
      let q = received self_key m n in
      let signed : (m.txt_type == txt_type_signed_plain) ≡ true = rw (typed) refl in
      let message = take (9 + length (visible_text q)) decrypted ++ contact_key in
      let four : length (signed_sender_prefix self_key m) ≡ 4 =
        length-signed_sender_prefix self_key m keyed signed in
      let same : message
          ≡ (le32 m.timestamp ++ (flags_byte m ∷ (signed_sender_prefix self_key m ++ m.text)))
            ++ (if m.txt_type == txt_type_signed_plain then contact_key else self_key) =
        rw (laid_out) (
          rw (read_text) (
            rw (signed) (
              ap (λ span. span ++ contact_key)
                (signed_span (m.timestamp % 256) (m.timestamp / 256 % 256)
                  (m.timestamp / 65536 % 256) (m.timestamp / 16777216) (flags_byte m)
                  (signed_sender_prefix self_key m) m.text (tail m ++ replicate n 0) four)))) in
      (
        take 4 (sha256 message),
        calc_ack_hash-signed sha256 contact_key self_key decrypted q random typed,
        ap from_le (take-take 4 (sha256 message))
            ∙ ap (λ x. from_le (take 4 (sha256 x))) same
            ∙ sym (sender_crc sha256 self_key contact_key m crc expected),
        omega (arith, length-take 4 (sha256 message), digest message),
      )

-- Sender and receiver agree on the ACK of a plain or a signed message: if building it gave the
-- plaintext and a CRC to wait for, then the receiver reads its text, answers with 4 bytes or more, and
-- the first 4 are that CRC, whatever the attempt and the last random byte. SHA-256 is any function
-- to 32 bytes.
pub calc_ack_hash-text_ack_crc :
    (sha256 : List ℕ → List ℕ) (digest : IsDigest sha256) (self_key contact_key : List ℕ)
    (m : Message) (random crc : ℕ) (plain : List ℕ)
    → text_plaintext self_key m ≡ ok plain
    → NoNul m.text
    → text_ack_crc sha256 self_key contact_key m ≡ ok crc
    → 4 ≤ length self_key
    → (m.txt_type ≡ txt_type_plain) ⊎ (m.txt_type ≡ txt_type_signed_plain)
    → (q : Parsed) × (ack : List ℕ) × (parse_text (padded plain) ≡ some q)
      × (visible_text q ≡ m.text)
      × (calc_ack_hash sha256 contact_key self_key (padded plain) q random ≡ ok (some ack))
      × (from_le (take 4 ack) ≡ crc)
      × (4 ≤ length ack)
calc_ack_hash-text_ack_crc sha256 digest self_key contact_key m random crc plain made clean expected
      keyed typed =
    let (n, laid_out) = padded_laid_out self_key m plain made in
    let known : m.txt_type ≤ 3 = ground (arith, typed) in
    let parsed = ap parse_text laid_out ∙ parse_laid_out self_key m n keyed known in
    let read =
      read_text sha256 digest self_key contact_key m n random crc plain made clean expected in
    elim typed [
      | inl is_plain ↦
          let (ack, computed, agrees, long) =
            plain_agrees sha256 digest self_key contact_key m n random crc plain made clean expected
              (padded plain) is_plain in
          (received self_key m n, ack, parsed, read, computed, agrees, long)
      | inr is_signed ↦
          let (ack, computed, agrees, long) =
            signed_agrees sha256 digest self_key contact_key m n random crc plain made clean
              expected (padded plain) laid_out keyed is_signed in
          (received self_key m n, ack, parsed, read, computed, agrees, long)
    ]
