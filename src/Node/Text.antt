-- ===== src/Node/Text.antt =====
-- `TextMessageHandler` (node/handlers/text.py): the contact whose key opens a message, the parts of
-- the plaintext, and the ACK packets that answer it. `secret_with` is the Diffie-Hellman exchange of
-- the local identity with a public key; the owner's ACK policy, the event service and the waiters
-- for command replies are not modelled.
use openhop_core.Prelude.{
  ℕ, zero, suc, ◌+◌, ◌-◌, ◌*◌, ◌/◌, ◌%◌, ◌≤◌, ◌<◌, ◌≡◌, refl, sym, ap, ◌∙◌, ◌≢◌, ◌↔◌, ◌⊎◌, inl, inr,
  Bool, true, false, not, ◌&&◌, ◌||◌, Option, none, some, List, [], ◌∷◌, ◌++◌, map, arith,
  if◌then◌else◌, ltb, leb, ltb→lt, lt→ltb, leb→le, ◌==◌, ==_iff, ==_refl, Bool-cases, Option-cases,
  &&-split, length, length-append, get_elem?, get_or, set, take, drop, replicate, All, min,
  length-take, length-drop, take-append, drop-append, take_of_length-le, take-append-drop,
  length-replicate, All-append, All-take, All-drop, take-take,
}
use openhop_core.Prelude.Outcome.{
  Error, value_error, index_error, overflow_error, struct_error, Result, ok, raise, ◌>>=◌, ◌>>◌,
  raise_if, Result-cases, >>=-eq-ok,
}
use openhop_core.Prelude.Bytes.{from_le}
use openhop_core.Protocol.Constants.{payload_type_ack, txt_type_plain, txt_type_signed_plain}
use openhop_core.Protocol.Crypto.{Cipher, mac_then_decrypt}
use openhop_core.Protocol.Packet.{Packet, is_route_flood}
use openhop_core.Protocol.PathLen.{is_valid_path_len, get_path_byte_len}
use openhop_core.Protocol.Builder.{
  flood, direct, create_ack_from_bytes, create_multi_ack, create_path_return,
}
use openhop_core.Protocol.Builder.Text.{c_string, calc_text_ack_hash}
use openhop_core.Protocol.Region.{apply_reply_scope}
pub mod Delivery
pub mod Answer
pub mod Sender
pub mod Confirm
pub mod Journey
pub mod Receipt

-- What the handler reads of a contact; `none` for a negative path_len.
pub record Contact : Type 0 where
  pub public_key : List ℕ
  pub out_path_len : Option ℕ
  pub out_path : List ℕ

-- The contacts whose key starts with the hash.
unfoldable pub candidates : ℕ → List Contact → List Contact
candidates src_hash [] = []
candidates src_hash (k ∷ ks) =
    let rest = candidates src_hash ks in
    if get_or k.public_key 0 256 == src_hash then k ∷ rest else rest

-- The contact, its secret and the plaintext, for the first candidate whose MAC fits.
unfoldable pub first_opening :
    Cipher → (List ℕ → Option (List ℕ)) → List Contact → List ℕ → Option (Contact × List ℕ × List ℕ)
first_opening c secret_with [] encrypted = none
first_opening c secret_with (k ∷ ks) encrypted =
    let rest = first_opening c secret_with ks encrypted in
    if not (length k.public_key == 32) then rest else elim (secret_with k.public_key) [
      | none ↦ rest
      | some secret ↦ elim (mac_then_decrypt c (take 16 secret) secret encrypted) [
        | ok decrypted ↦ some (k, secret, decrypted)
        | raise e ↦ rest
      ]
    ]

-- The sender of a payload; `none` for a message that is not for this node.
unfoldable pub find_sender :
    Cipher → (List ℕ → Option (List ℕ)) → List Contact → List ℕ → Option (Contact × List ℕ × List ℕ)
find_sender c secret_with contacts payload =
    if ltb (length payload) 4
    then none
    else first_opening c secret_with (candidates (get_or payload 1 0) contacts) (drop 2 payload)

pub record Parsed : Type 0 where
  pub timestamp : ℕ
  pub flags : ℕ
  pub txt_type : ℕ
  pub sender_prefix : List ℕ
  pub message_body : List ℕ

-- `none` where the handler drops the message: too short, or of a type it does not know.
unfoldable pub parse_text : List ℕ → Option Parsed
parse_text decrypted =
    let flags = get_or decrypted 4 0 in
    let txt_type = flags / 4 % 64 in
    let timestamp = from_le (take 4 decrypted) in
    if ltb (length decrypted) 5
    then none
    else if ltb 3 txt_type
    then none
    else if txt_type == txt_type_signed_plain
    then if ltb (length decrypted) 9
      then none
      else some (record {
        timestamp = timestamp;
        flags = flags;
        txt_type = txt_type;
        sender_prefix = take 4 (drop 5 decrypted);
        message_body = drop 9 decrypted;
      })
    else some (record {
      timestamp = timestamp;
      flags = flags;
      txt_type = txt_type;
      sender_prefix = [];
      message_body = drop 5 decrypted;
    })

-- `message_body[: self._text_len(message_body)]`
unfoldable pub visible_text : Parsed → List ℕ
visible_text m = c_string m.message_body

-- The byte after the text's NUL, if there is one.
unfoldable pub ext_attempt : Parsed → ℕ
ext_attempt m = get_or m.message_body (length (c_string m.message_body) + 1) 0

-- `random` is the byte of `os.urandom(1)`.
unfoldable pub calc_ack_hash :
    (List ℕ → List ℕ) → List ℕ → List ℕ → List ℕ → Parsed → ℕ → Result (Option (List ℕ))
calc_ack_hash sha256 self_key pubkey decrypted m random =
    if m.txt_type == txt_type_plain
    then calc_text_ack_hash sha256 pubkey m.timestamp m.flags (visible_text m) (ext_attempt m)
        random
      >>= (λ ack. ok (some ack))
    else if m.txt_type == txt_type_signed_plain
    then ok (some (take 4 (sha256 (take (9 + length (visible_text m)) decrypted ++ self_key))))
    else ok none

-- The path and the path_len byte to return: none for a byte that is not valid.
unfoldable pub taught_path : Packet → List ℕ × Option ℕ
taught_path p =
    if is_valid_path_len p.path_len
    then (take (get_path_byte_len p.path_len) p.path, some p.path_len)
    else ([], none)

-- The contact's path_len byte, where its path is known.
unfoldable pub known_path : Contact → Option ℕ
known_path k = elim k.out_path_len [
  | none ↦ none
  | some out_path_len ↦ if is_valid_path_len out_path_len then some out_path_len else none
]

-- Packets with their delays in milliseconds. A flooded message: a path return.
unfoldable pub answer_flood :
    Cipher
    → (List ℕ → List ℕ → List ℕ)
    → List ℕ
    → Packet
    → Contact
    → List ℕ
    → List ℕ
    → List ℕ
    → Result (List (Packet × ℕ))
answer_flood c hmac self_key packet k secret ack_hash random = do
  answer ←
      create_path_return c (get_or k.public_key 0 0) (get_or self_key 0 0) secret
        (taught_path packet).0 payload_type_ack ack_hash (taught_path packet).1 random
  scoped ← apply_reply_scope hmac answer (some packet)
  ok ((scoped, 200) ∷ [])

-- No path is known: the ACK is flooded.
unfoldable pub answer_unknown :
    (List ℕ → List ℕ → List ℕ) → Packet → List ℕ → Result (List (Packet × ℕ))
answer_unknown hmac packet ack_hash = do
  answer ← create_ack_from_bytes ack_hash [] none flood
  scoped ← apply_reply_scope hmac answer (some packet)
  ok ((scoped, 200) ∷ [])

-- The ACK along the path, after a multi-ack if that is on.
unfoldable pub answer_direct : ℕ → List ℕ → ℕ → List ℕ → Result (List (Packet × ℕ))
answer_direct multi_acks out_path out_path_len ack_hash = do
  answer ← create_ack_from_bytes ack_hash out_path (some out_path_len) direct
  if multi_acks == 0 then ok ((answer, 200) ∷ []) else do
    multi ← create_multi_ack ack_hash 1 out_path (some out_path_len)
    ok ((multi, 200) ∷ (answer, 500) ∷ [])

unfoldable pub build_ack_responses :
    Cipher
    → (List ℕ → List ℕ → List ℕ)
    → List ℕ
    → ℕ
    → Packet
    → Contact
    → List ℕ
    → List ℕ
    → List ℕ
    → Result (List (Packet × ℕ))
build_ack_responses c hmac self_key multi_acks packet k secret ack_hash random =
    if is_route_flood packet
    then answer_flood c hmac self_key packet k secret ack_hash random
    else elim (known_path k) [
      | none ↦ answer_unknown hmac packet ack_hash
      | some out_path_len ↦ answer_direct multi_acks k.out_path out_path_len ack_hash
    ]
