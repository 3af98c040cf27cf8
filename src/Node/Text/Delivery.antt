-- ===== src/Node/Text/Delivery.antt =====
-- A text message from `create_text_message` of protocol/packet_builder.py to the parts that
-- node/handlers/text.py reads from its plaintext, and the ACK that both sides compute.
use openhop_core.Prelude.{
  ℕ, zero, suc, ◌-◌, ◌/◌, ◌%◌, ◌≤◌, ◌<◌, ◌≡◌, refl, ap, ◌∙◌, inl, inr, Bool, true, false, some,
  List, [], ◌∷◌, ◌++◌, arith, ltb, ◌==◌, Bool-cases, length, length-append, take, replicate, All,
  length-take, take-append, drop-append,
}
use openhop_core.Prelude.Outcome.{ok}
use openhop_core.Prelude.Bytes.{from_le, le32, from_le-le32}
use openhop_core.Protocol.Constants.{txt_type_signed_plain}
use openhop_core.Protocol.Crypto.{padded}
use openhop_core.Protocol.Builder.Text.{
  c_string, Message, flags_byte, is_extended, pack_timestamp_data, signed_sender_prefix, tail,
  text_plaintext,
}
use openhop_core.Node.Acks.Handler.Extraction.{append_assoc, leb_below}
use openhop_core.Node.Text.{Parsed, parse_text, visible_text}

-- The bytes hold no NUL.
abbrev pub NoNul : List ℕ → Type 0
NoNul = All (λ b. 0 < b)

-- The bytes are none, or begin with a NUL.
unfoldable pub ends_string : List ℕ → Bool
ends_string [] = true
ends_string (b ∷ bs) = b == 0

no_nul : (b : ℕ) → (suc b == 0) ≡ false
no_nul b = ground arith

pub c_string-NoNul : (text : List ℕ) → NoNul (c_string text)
unfolding c_string
c_string-NoNul [] = tt
c_string-NoNul (zero ∷ text) = tt
c_string-NoNul (suc b ∷ text) = rw (c_string, no_nul b) (omega arith, c_string-NoNul text)

pub c_string-append :
    (text rest : List ℕ) → NoNul text → ends_string rest ≡ true → c_string (text ++ rest) ≡ text
unfolding c_string ends_string
c_string-append [] [] clean ends = refl
c_string-append [] (b ∷ rest) clean ends = rw (ends) refl
c_string-append (zero ∷ text) rest (here, clean) ends = absurd (omega (arith, here))
c_string-append (suc b ∷ text) rest (here, clean) ends =
    rw (c_string, no_nul b) (ap (◌∷◌ (suc b)) (c_string-append text rest clean ends))

zeros_end : (n : ℕ) → ends_string (replicate n 0) ≡ true
unfolding ends_string
zeros_end zero = refl
zeros_end (suc n) = refl

pub tail_ends : (m : Message) (n : ℕ) → ends_string (tail m ++ replicate n 0) ≡ true
unfolding tail ends_string
tail_ends m n = elim (Bool-cases (is_extended m.attempt_full m.txt_type)) [
  | inl long ↦ rw (tail, long) refl
  | inr short ↦ rw (tail, short) (zeros_end n)
]

pub pack-ok :
    (timestamp : ℕ) (parts packed : List ℕ)
    → pack_timestamp_data timestamp parts ≡ ok packed
    → packed ≡ le32 timestamp ++ parts
unfolding pack_timestamp_data
pack-ok timestamp parts packed h = ground (arith, h)

-- What the receiver reads of a message, with the zeros after it.
unfoldable pub received : List ℕ → Message → ℕ → Parsed
received self_key m n = record {
  timestamp = m.timestamp;
  flags = flags_byte m;
  txt_type = m.txt_type;
  sender_prefix = signed_sender_prefix self_key m;
  message_body = m.text ++ (tail m ++ replicate n 0);
}

type_in_flags : (m : Message) → m.txt_type ≤ 3 → flags_byte m / 4 % 64 ≡ m.txt_type
unfolding flags_byte
type_in_flags m known = omega (arith, known)

five_bytes : (k : ℕ) → ltb (suc (suc (suc (suc (suc k))))) 5 ≡ false
five_bytes k = ground arith

nine_bytes : (k : ℕ) → 4 ≤ k → ltb (suc (suc (suc (suc (suc k))))) 9 ≡ false
nine_bytes k h = ground (arith, h)

parse_unsigned :
    (a b c d flags txt_type : ℕ) (body : List ℕ)
    → flags / 4 % 64 ≡ txt_type
    → txt_type ≤ 3
    → (txt_type == txt_type_signed_plain) ≡ false
    → parse_text (a ∷ b ∷ c ∷ d ∷ flags ∷ body)
      ≡ some (record {
        timestamp = from_le (a ∷ b ∷ c ∷ d ∷ []);
        flags = flags;
        txt_type = txt_type;
        sender_prefix = [];
        message_body = body;
      })
unfolding parse_text
parse_unsigned a b c d flags txt_type body typed known unsigned =
    rw (typed)
      (rw (five_bytes (length body)) (rw (leb_below 3 txt_type known) (rw (unsigned) refl)))

parse_signed :
    (a b c d flags txt_type : ℕ) (prefix body : List ℕ)
    → flags / 4 % 64 ≡ txt_type
    → txt_type ≤ 3
    → (txt_type == txt_type_signed_plain) ≡ true
    → length prefix ≡ 4
    → parse_text (a ∷ b ∷ c ∷ d ∷ flags ∷ (prefix ++ body))
      ≡ some (record {
        timestamp = from_le (a ∷ b ∷ c ∷ d ∷ []);
        flags = flags;
        txt_type = txt_type;
        sender_prefix = prefix;
        message_body = body;
      })
unfolding parse_text
parse_signed a b c d flags txt_type prefix body typed known signed four =
    let long : 4 ≤ length (prefix ++ body) = omega (arith, four, length-append prefix body) in
    rw (typed) (
      rw (five_bytes (length (prefix ++ body))) (
        rw (leb_below 3 txt_type known) (
          rw (signed) (
            rw (nine_bytes (length (prefix ++ body)) long)
              (rw (take-append 4 prefix body four) (rw (drop-append 4 prefix body four) refl))))))

pub parse_laid_out :
    (self_key : List ℕ) (m : Message) (n : ℕ)
    → 4 ≤ length self_key
    → m.txt_type ≤ 3
    → parse_text (
        le32 m.timestamp
        ++ (flags_byte m
            ∷ (signed_sender_prefix self_key m ++ (m.text ++ (tail m ++ replicate n 0)))))
      ≡ some (received self_key m n)
unfolding received le32 signed_sender_prefix
parse_laid_out self_key m n keyed known =
    let body = m.text ++ (tail m ++ replicate n 0) in
    let a = m.timestamp % 256 in
    let b = m.timestamp / 256 % 256 in
    let c = m.timestamp / 65536 % 256 in
    let d = m.timestamp / 16777216 in
    elim (Bool-cases (m.txt_type == txt_type_signed_plain)) [
      | inl signed ↦
          rw (signed_sender_prefix, signed)
            (parse_signed a b c d (flags_byte m) m.txt_type (take 4 self_key) body
                (type_in_flags m known) known signed (omega (arith, keyed, length-take 4 self_key))
              ∙ rw (from_le-le32 m.timestamp) refl)
      | inr unsigned ↦
          rw (signed_sender_prefix, unsigned)
            (parse_unsigned a b c d (flags_byte m) m.txt_type body (type_in_flags m known) known
                unsigned
              ∙ rw (from_le-le32 m.timestamp) refl)
    ]

pub padded_laid_out :
    (self_key : List ℕ) (m : Message) (plain : List ℕ)
    → text_plaintext self_key m ≡ ok plain
    → (n : ℕ) × (padded plain
        ≡ le32 m.timestamp
          ++ (flags_byte m
              ∷ (signed_sender_prefix self_key m ++ (m.text ++ (tail m ++ replicate n 0)))))
unfolding text_plaintext padded le32
padded_laid_out self_key m plain made =
    let prefix = signed_sender_prefix self_key m in
    let k = (16 - length plain % 16) % 16 in
    let laid_out = pack-ok m.timestamp _ plain made in
    let regrouped : (prefix ++ (m.text ++ tail m)) ++ replicate k 0
        ≡ prefix ++ (m.text ++ (tail m ++ replicate k 0)) =
      append_assoc prefix (m.text ++ tail m) (replicate k 0)
      ∙ ap (λ rest. prefix ++ rest) (append_assoc m.text (tail m) (replicate k 0)) in
    (
      k,
      ap (λ front. front ++ replicate k 0) laid_out
          ∙ ap (λ rest. le32 m.timestamp ++ (flags_byte m ∷ rest)) regrouped,
    )

-- Deciphering a text message gives back its timestamp, its type, the author's prefix of a signed
-- message and its text, if the type is one that the handler knows: neither the zeros of the last
-- block nor the tail of a late attempt get into the text.
pub parse_text-text_plaintext :
    (self_key : List ℕ) (m : Message) (plain : List ℕ)
    → text_plaintext self_key m ≡ ok plain
    → NoNul m.text
    → 4 ≤ length self_key
    → m.txt_type ≤ 3
    → (q : Parsed) × (parse_text (padded plain) ≡ some q)
      × (q.timestamp ≡ m.timestamp)
      × (q.txt_type ≡ m.txt_type)
      × (q.sender_prefix ≡ signed_sender_prefix self_key m)
      × (visible_text q ≡ m.text)
unfolding received visible_text
parse_text-text_plaintext self_key m plain made clean keyed known =
    let (n, laid_out) = padded_laid_out self_key m plain made in
    (
      received self_key m n,
      ap parse_text laid_out ∙ parse_laid_out self_key m n keyed known,
      refl,
      refl,
      refl,
      c_string-append m.text (tail m ++ replicate n 0) clean (tail_ends m n),
    )
