-- ===== src/Protocol/Builder/Text.antt =====
-- Text messages in protocol/packet_builder.py: `create_text_message`, `calc_text_ack_hash`
-- and `pack_timestamp_data`. A message is its UTF-8 bytes, where a zero byte stands for
-- NUL and for nothing else. SHA-256, the contact's key and shared secret, the clock and the random
-- byte are arguments.
use openhop_core.Prelude.{
  ℕ, ◌+◌, ◌-◌, ◌*◌, ◌%◌, Bool, not, ◌&&◌, ◌||◌, Option, none, some, List, [], ◌∷◌, ◌++◌,
  if◌then◌else◌, ltb, leb, ◌==◌, length, get_or, take,
}
use openhop_core.Prelude.Outcome.{value_error, struct_error, Result, ok, raise, ◌>>=◌, ◌>>◌}
use openhop_core.Prelude.Bytes.{from_le, le32}
use openhop_core.Protocol.Constants.{
  payload_type_txt_msg, max_text_len, max_path_size, txt_type_cli_data, txt_type_cli_command,
  txt_type_signed_plain,
}
use openhop_core.Protocol.Crypto.{Cipher, encrypt_then_mac}
use openhop_core.Protocol.Packet
use openhop_core.Protocol.Packet.{Packet}
use openhop_core.Protocol.PathLen.{is_valid_path_len, get_path_byte_len}
use openhop_core.Protocol.PathOps.{set_path}
use openhop_core.Protocol.Builder.{RouteName, create_route_header}

-- `struct.pack("<I", timestamp)` and the parts.
unfoldable pub pack_timestamp_data : ℕ → List ℕ → Result (List ℕ)
pack_timestamp_data timestamp parts =
    if ltb timestamp 4294967296 then ok (le32 timestamp ++ parts) else raise struct_error

-- The bytes before the first NUL.
unfoldable pub c_string : List ℕ → List ℕ
c_string [] = []
c_string (b ∷ text) = let rest = c_string text in if b == 0 then [] else b ∷ rest

unfoldable pub is_cli : ℕ → Bool
is_cli txt_type = txt_type == txt_type_cli_data || txt_type == txt_type_cli_command

unfoldable pub is_extended : ℕ → ℕ → Bool
unfolding is_cli
is_extended attempt_full txt_type = ltb 3 attempt_full && not (is_cli txt_type)

-- The whole of a call's arguments that the plaintext depends on, `& 0x3F` and `& 0xFF` done.
pub record Message : Type 0 where
  pub timestamp : ℕ
  pub txt_type : ℕ
  pub attempt_full : ℕ
  pub text : List ℕ

unfoldable pub message_of : ℕ → ℕ → ℕ → List ℕ → Message
unfolding c_string
message_of timestamp txt_type attempt message = record {
  timestamp = timestamp;
  txt_type = txt_type % 64;
  attempt_full = attempt % 256;
  text = c_string message;
}

-- `(txt_type << 2) | (attempt_full & 0x03)`
unfoldable pub flags_byte : Message → ℕ
flags_byte m = m.txt_type * 4 + m.attempt_full % 4

unfoldable pub check_length : Message → Result (Unit {0})
unfolding is_cli
check_length m =
    if ltb max_text_len (length m.text)
    then raise value_error
    else if not (is_cli m.txt_type)
        && (ltb 3 m.attempt_full && ltb (max_text_len - 2) (length m.text))
    then raise value_error
    else ok tt

-- The author's prefix of a signed message.
unfoldable pub signed_sender_prefix : List ℕ → Message → List ℕ
signed_sender_prefix self_key m =
    if m.txt_type == txt_type_signed_plain then take 4 self_key else []

unfoldable pub tail : Message → List ℕ
unfolding is_extended is_cli
tail m = if is_extended m.attempt_full m.txt_type then 0 ∷ m.attempt_full ∷ [] else []

unfoldable pub text_plaintext : List ℕ → Message → Result (List ℕ)
unfolding pack_timestamp_data flags_byte signed_sender_prefix tail is_extended is_cli
text_plaintext self_key m =
    pack_timestamp_data m.timestamp
      (flags_byte m ∷ (signed_sender_prefix self_key m ++ (m.text ++ tail m)))

-- The CRC that the sender expects, salted by the type with the contact's key or its own.
unfoldable pub text_ack_crc : (List ℕ → List ℕ) → List ℕ → List ℕ → Message → Result ℕ
unfolding pack_timestamp_data flags_byte signed_sender_prefix
text_ack_crc sha256 self_key contact_key m = do
  crc_input ←
      pack_timestamp_data m.timestamp (flags_byte m ∷ (signed_sender_prefix self_key m ++ m.text))
  let ack_key = if m.txt_type == txt_type_signed_plain then contact_key else self_key
  ok (from_le (take 4 (sha256 (crc_input ++ ack_key))))

-- The contact's path_len byte, where its stored path is used and the byte fits it.
unfoldable pub kept_path_len : Option (List ℕ) → Option ℕ → List ℕ → Option ℕ
kept_path_len (some path) contact_path_len routing_path = none
kept_path_len none none routing_path = none
kept_path_len none (some path_len) routing_path =
    if is_valid_path_len path_len && leb (get_path_byte_len path_len) (length routing_path)
    then some path_len
    else none

unfoldable pub choose_path : Option (List ℕ) → List ℕ → List ℕ
choose_path none contact_path = contact_path
choose_path (some path) contact_path = path

-- The path and the header. `contact_path_len` is `none` for a negative one. A path of more than 64
-- bytes raises, which leaves the cut to that length nothing to do.
unfoldable pub route_text : Option (List ℕ) → List ℕ → Option ℕ → RouteName → Packet → Result Packet
unfolding set_path kept_path_len choose_path
route_text out_path contact_path contact_path_len message_type p =
    let routing_path = choose_path out_path contact_path in
    let has_path = ltb 0 (length routing_path) in
    let headed = record p {
      header = create_route_header payload_type_txt_msg message_type has_path;
    } in
    if ltb max_path_size (length routing_path)
    then raise value_error
    else if not has_path
    then ok headed
    else elim (kept_path_len out_path contact_path_len routing_path) [
      | some path_len ↦ let (done, q) = set_path routing_path (some path_len) headed in done >> ok q
      | none ↦
          let (done, q) =
            set_path (if length routing_path == 64 then take 63 routing_path else routing_path) none
              headed in
          done >> ok q
    ]

-- What a text message's packet holds: the hashes of both keys, and the sealed plaintext.
unfoldable pub text_payload : Cipher → List ℕ → List ℕ → List ℕ → List ℕ → List ℕ
text_payload c self_key contact_key secret plaintext =
    get_or contact_key 0 0
    ∷ get_or self_key 0 0
    ∷ encrypt_then_mac c (take 16 secret) secret plaintext

unfoldable pub create_text_message :
    Cipher
    → (List ℕ → List ℕ)
    → List ℕ
    → List ℕ
    → List ℕ
    → Message
    → Option (List ℕ)
    → List ℕ
    → Option ℕ
    → RouteName
    → Result (Packet × ℕ)
create_text_message c sha256 self_key contact_key secret m out_path contact_path contact_path_len
      message_type =
    do
      check_length m
      plaintext ← text_plaintext self_key m
      ack_crc ← text_ack_crc sha256 self_key contact_key m
      p ← route_text out_path contact_path contact_path_len message_type (record Packet.init {
        payload = text_payload c self_key contact_key secret plaintext;
        payload_len = length (text_payload c self_key contact_key secret plaintext);
      })
      ok (p, ack_crc)

-- The ACK of a plain message: 4 bytes of the digest, the extended attempt and a random byte.
unfoldable pub calc_text_ack_hash :
    (List ℕ → List ℕ) → List ℕ → ℕ → ℕ → List ℕ → ℕ → ℕ → Result (List ℕ)
unfolding pack_timestamp_data
calc_text_ack_hash sha256 pubkey timestamp flags text ext_attempt random = do
  temp ← pack_timestamp_data timestamp (flags % 256 ∷ text)
  ok (take 4 (sha256 (temp ++ pubkey)) ++ (ext_attempt % 256 ∷ random ∷ []))
