-- ===== src/Tests/Messages.antt =====
-- Sealed packets: the cipher, path returns with an ACK, and text messages with their answers.
use openhop_core.Prelude.{
  ℕ, ◌≤◌, ◌≡◌, refl, inl, none, some, List, [], ◌∷◌, replicate, arith, length, get_elem?, take,
  drop,
}
use openhop_core.Prelude.Outcome.{ok}
use openhop_core.Prelude.Bytes.{from_le, le32}
use openhop_core.Protocol.Crypto.{encrypt_then_mac, mac_then_decrypt, aes_encrypt, padded}
use openhop_core.Protocol.Crypto.RoundTrip.{mac_then_decrypt-encrypt_then_mac}
use openhop_core.Protocol.Packet
use openhop_core.Protocol.Packet.{
  Packet, get_payload, get_payload_type, get_route_type, is_route_flood,
}
use openhop_core.Protocol.PathLen.{is_valid_path_len, get_path_byte_len}
use openhop_core.Protocol.Header.{create_header}
use openhop_core.Protocol.Region.{apply_reply_scope}
use openhop_core.Protocol.Builder.{
  direct, get_route_type_value, create_route_header, create_packet, first_byte, path_return_inner,
  create_path_return,
}
use openhop_core.Protocol.Builder.Text.{
  text_plaintext, pack_timestamp_data, flags_byte, signed_sender_prefix, tail, is_cli, is_extended,
  check_length, text_ack_crc, text_payload, kept_path_len, choose_path, route_text,
  create_text_message,
}
use openhop_core.Node.Acks.Handler.{process_path_ack_variants, ack_in, iter_decrypt_by_src_hash}
use openhop_core.Node.Acks.Handler.PathReturn.{process_path_ack_variants-create_path_return}
use openhop_core.Node.Text.{
  Contact, Parsed, find_sender, parse_text, visible_text, calc_ack_hash, build_ack_responses,
  answer_flood, taught_path,
}
use openhop_core.Node.Text.Delivery.{parse_text-text_plaintext}
use openhop_core.Node.Text.Sender.{as_keys, find_sender-iter_decrypt}
use openhop_core.Node.Text.Journey.{IsPeer, IsPeer-Reaches, build_ack_responses-ack_in}
use openhop_core.Node.Text.Receipt.{IsAcked, create_text_message-find_sender}
use openhop_core.Tests.Cipher.{
  toy_cipher, toy_cipher-IsCipher, author_key, peer_key, other_key, secret, toy_secret_with, hello,
}
use openhop_core.Tests.Samples.{toy_sha256, toy_sha256-long, toy_hmac}

mac_then_decrypt-encrypt_then_mac_example :
    mac_then_decrypt toy_cipher
      (take 16 secret)
      secret
      (encrypt_then_mac toy_cipher (take 16 secret) secret (1 ∷ 2 ∷ 3 ∷ []))
    ≡ ok (1 ∷ 2 ∷ 3 ∷ replicate 13 0)
mac_then_decrypt-encrypt_then_mac_example =
    mac_then_decrypt-encrypt_then_mac toy_cipher toy_cipher-IsCipher (take 16 secret) secret
      (1 ∷ 2 ∷ 3 ∷ []) (ground arith) (λ e. cc)

abbrev plain_hello : List ℕ
plain_hello = 232 ∷ 3 ∷ 0 ∷ 0 ∷ 1 ∷ 104 ∷ 105 ∷ 0 ∷ 5 ∷ []

hello_made : text_plaintext author_key hello ≡ ok plain_hello
unfolding text_plaintext pack_timestamp_data flags_byte signed_sender_prefix tail is_cli is_extended
    le32
hello_made = refl

parse_text-text_plaintext_example :
    (q : Parsed) × (parse_text (padded plain_hello) ≡ some q)
    × (q.timestamp ≡ 1000)
    × (q.txt_type ≡ 0)
    × (q.sender_prefix ≡ signed_sender_prefix author_key hello)
    × (visible_text q ≡ 104 ∷ 105 ∷ [])
parse_text-text_plaintext_example =
    parse_text-text_plaintext author_key hello plain_hello hello_made (ground arith) (ground arith)
      (omega arith)

abbrev hello_packet : Packet
hello_packet = record Packet.init {
  header = 10;
  payload = text_payload toy_cipher author_key peer_key secret plain_hello;
  payload_len = length (text_payload toy_cipher author_key peer_key secret plain_hello);
}

abbrev hello_crc : ℕ
hello_crc = from_le (39 ∷ 1 ∷ 1 ∷ 1 ∷ [])

hello_sent :
    create_text_message toy_cipher toy_sha256 author_key peer_key secret hello none [] none direct
    ≡ ok (hello_packet, hello_crc)
unfolding create_text_message check_length is_cli is_extended text_plaintext pack_timestamp_data
    flags_byte signed_sender_prefix tail text_ack_crc route_text choose_path kept_path_len
    create_route_header create_header get_route_type_value le32 from_le
hello_sent = refl

abbrev author : Contact
author = record { public_key = author_key; out_path_len = none; out_path = [] }

abbrev other : Contact
other = record { public_key = other_key; out_path_len = none; out_path = [] }

hello-IsAcked : IsAcked hello
hello-IsAcked = record {
  no_nul = ground arith;
  text_bytes = ground arith;
  attempt_byte = omega arith;
  acked = inl refl;
}

author-IsPeer : IsPeer toy_secret_with (other_key ∷ []) author_key secret
author-IsPeer = record { key_size = refl; shared = refl; unlike = (refl, tt) }

responder-IsPeer : IsPeer toy_secret_with (other_key ∷ []) peer_key secret
responder-IsPeer = record { key_size = refl; shared = refl; unlike = (refl, tt) }

create_text_message-find_sender_example :
    (decrypted ack : List ℕ) × (q : Parsed) × (as_keys
        (find_sender toy_cipher toy_secret_with (other ∷ author ∷ []) hello_packet.payload)
      ≡ some (author_key, secret, decrypted))
    × (parse_text decrypted ≡ some q)
    × (visible_text q ≡ 104 ∷ 105 ∷ [])
    × (calc_ack_hash toy_sha256 peer_key author_key decrypted q 77 ≡ ok (some ack))
    × (from_le (take 4 ack) ≡ hello_crc)
    × (4 ≤ length ack)
create_text_message-find_sender_example =
    create_text_message-find_sender toy_cipher toy_cipher-IsCipher toy_sha256 toy_sha256-long
      author_key peer_key secret hello none [] none direct hello_packet hello_crc 77 toy_secret_with
      (other ∷ author ∷ []) (other_key ∷ []) [] hello_sent hello-IsAcked (ground arith) refl
      author-IsPeer

hello_long : 4 ≤ length hello_packet.payload
unfolding text_payload encrypt_then_mac aes_encrypt padded
hello_long = omega arith

find_sender-iter_decrypt_example :
    as_keys (find_sender toy_cipher toy_secret_with (other ∷ author ∷ []) hello_packet.payload)
    ≡ get_elem?
        (iter_decrypt_by_src_hash toy_cipher toy_secret_with
          (other_key ∷ author_key ∷ [])
          3
          (drop 2 hello_packet.payload))
        0
unfolding text_payload
find_sender-iter_decrypt_example =
    find_sender-iter_decrypt toy_cipher toy_secret_with (other ∷ author ∷ []) hello_packet.payload
      hello_long

abbrev ack_bytes : List ℕ
ack_bytes = 1 ∷ 2 ∷ 3 ∷ 4 ∷ 0 ∷ 77 ∷ []

-- A path of two hops, returned with the ACK.
abbrev returned_path : Packet
returned_path =
    let payload =
      3 ∷ 4 ∷ encrypt_then_mac toy_cipher (take 16 secret) secret (2 ∷ 21 ∷ 22 ∷ 3 ∷ ack_bytes) in
    record Packet.init { header = 33; payload = payload; payload_len = length payload }

path_returned :
    create_path_return toy_cipher 3 4 secret (21 ∷ 22 ∷ []) 3 ack_bytes (some 2) []
    ≡ ok returned_path
unfolding create_path_return first_byte path_return_inner is_valid_path_len get_path_byte_len
    create_packet create_route_header create_header get_route_type_value encrypt_then_mac
    aes_encrypt padded
path_returned = refl

process_path_ack_variants-create_path_return_example :
    process_path_ack_variants toy_cipher toy_secret_with author_key
      (other_key ∷ peer_key ∷ [])
      returned_path.payload
    ≡ some (from_le (1 ∷ 2 ∷ 3 ∷ 4 ∷ []))
process_path_ack_variants-create_path_return_example =
    process_path_ack_variants-create_path_return toy_cipher toy_cipher-IsCipher toy_secret_with
      (other_key ∷ []) [] author_key peer_key secret (21 ∷ 22 ∷ []) ack_bytes (some 2) [] 3 4
      returned_path path_returned
      (IsPeer-Reaches toy_cipher toy_secret_with (other_key ∷ []) peer_key secret
        (drop 2 returned_path.payload) responder-IsPeer)
      refl (ground arith) (ground arith) (omega arith)

-- The message by flood over two hops.
abbrev flooded_hello : Packet
flooded_hello = record hello_packet { header = 9; path = 21 ∷ 22 ∷ []; path_len = 2 }

answered :
    build_ack_responses toy_cipher toy_hmac peer_key 1 flooded_hello author secret ack_bytes []
    ≡ ok ((returned_path, 200) ∷ [])
unfolding build_ack_responses answer_flood taught_path is_route_flood get_route_type
    apply_reply_scope create_path_return first_byte path_return_inner is_valid_path_len
    get_path_byte_len create_packet create_route_header create_header get_route_type_value
    encrypt_then_mac aes_encrypt padded
answered = refl

build_ack_responses-ack_in_example :
    ack_in toy_cipher toy_secret_with author_key (other_key ∷ peer_key ∷ []) returned_path
    ≡ some (from_le (1 ∷ 2 ∷ 3 ∷ 4 ∷ []))
build_ack_responses-ack_in_example =
    (build_ack_responses-ack_in toy_cipher toy_cipher-IsCipher toy_hmac toy_secret_with
      (other_key ∷ []) [] author peer_key secret refl responder-IsPeer ack_bytes (omega arith) 1
      flooded_hello [] ((returned_path, 200) ∷ []) answered (ground arith) (ground arith)).1.0
