-- ===== src/Tests/Adverts.antt =====
-- An advert with a position, a feature and a name.
use openhop_core.Prelude.{
  ◌⊎◌, ◌≢◌, ℕ, zero, suc, ◌%◌, ◌≤◌, ◌<◌, ◌≡◌, refl, Bool, true, none, some, List, [], ◌∷◌, ◌++◌,
  arith, length, take, drop, replicate, All-append, if◌then◌else◌, ltb, min,
}
use openhop_core.Prelude.Outcome.{ok}
use openhop_core.Prelude.Int.{pos, negsuc}
use openhop_core.Prelude.Bytes.{IsByte, IsBytes, le16, le32, from_le, bytes_eq, bytes_eq_refl}
use openhop_core.Protocol.Header.{create_header}
use openhop_core.Protocol.Packet
use openhop_core.Protocol.Packet.{Packet, get_payload}
use openhop_core.Protocol.Builder.{flood, create_packet, create_route_header, get_route_type_value}
use openhop_core.Protocol.Builder.Text.{c_string, pack_timestamp_data}
use openhop_core.Protocol.Advert.{
  Announcement, AppData, has_flag, raise_flag, has_position, final_flags, pack_i32, unpack_i32,
  pack_u16, location_part, feature_part, name_part, encode_advert_data, create_advert,
  parse_advert_payload, is_self_advert, location_size, feature1_size, feature2_size, nonempty,
  decode_fields, decode_appdata, determine_contact_type_from_flags,
}
use openhop_core.Protocol.Advert.Fields.{location_given}
use openhop_core.Protocol.Advert.Codec.{name_sent, decode_appdata-encode_advert_data}
use openhop_core.Node.Advert.{
  Advert, verify_advert_signature, position, event_of, named_advert, accept_verified, handle_parsed,
  handle_advert,
}
use openhop_core.Node.Advert.Trust.{handle_advert-verified}
use openhop_core.Node.Advert.Announce.{handle_advert-create_advert}

-- Three microdegrees south, five east; "ab".
abbrev announcement : Announcement
announcement = record {
  name = 97 ∷ 98 ∷ [];
  lat = record { nonzero = true; micro = negsuc 2 };
  lon = record { nonzero = true; micro = pos 5 };
  feature1 = 0x1234;
  feature2 = 0;
  flags = 1;
}

abbrev announced : List ℕ
announced = 177 ∷ 253 ∷ 255 ∷ 255 ∷ 255 ∷ 5 ∷ 0 ∷ 0 ∷ 0 ∷ 0x34 ∷ 0x12 ∷ 97 ∷ 98 ∷ []

announcement-announced : encode_advert_data announcement ≡ ok announced
unfolding encode_advert_data final_flags raise_flag has_flag has_position location_part feature_part
    pack_i32 pack_u16 name_part le16 le32
announcement-announced = refl

decode_appdata-encode_advert_data_example :
    (q : AppData) × (decode_appdata announced ≡ ok q)
    × (q.flags % 16 ≡ 1)
    × (q.location ≡ location_given (has_position announcement) announcement.lat announcement.lon)
    × (q.feature_1 ≡ (if ltb 0 0x1234 then some 0x1234 else none))
    × (q.feature_2 ≡ (if ltb 0 0 then some 0 else none))
    × (q.node_name ≡ nonempty (name_sent announcement))
    × (length announced ≤ 32)
decode_appdata-encode_advert_data_example =
    decode_appdata-encode_advert_data announcement announced announcement-announced (omega arith)
      (omega arith, (omega arith, tt))

abbrev node_key : List ℕ
node_key = replicate 32 9

abbrev receiver_key : List ℕ
receiver_key = replicate 32 4

abbrev toy_sign : List ℕ → List ℕ
toy_sign message = length message % 256 ∷ replicate 63 7

abbrev toy_verify : List ℕ → List ℕ → List ℕ → Bool
toy_verify key message signature = bytes_eq signature (toy_sign message)

abbrev advert_payload : List ℕ
advert_payload = node_key ++ (232 ∷ 3 ∷ 0 ∷ 0 ∷ (49 ∷ replicate 63 7 ++ announced))

abbrev advert_packet : Packet
advert_packet = record Packet.init { header = 17; payload = advert_payload; payload_len = 113 }

advert_packet-made : create_advert toy_sign node_key 1000 announcement flood ≡ ok advert_packet
unfolding create_advert create_packet create_route_header get_route_type_value create_header
    pack_timestamp_data encode_advert_data final_flags raise_flag has_flag has_position
    location_part feature_part pack_i32 pack_u16 name_part le16 le32
advert_packet-made = refl

-- The receiver's clock is behind.
handle_advert-create_advert_example :
    (advert : Advert) × (handle_advert toy_verify receiver_key 900 advert_packet
      ≡ some (advert, event_of advert_packet advert))
    × (advert.public_key ≡ node_key)
    × (advert.name ≡ name_sent announcement)
    × ((advert.latitude, advert.longitude)
        ≡ position (location_given (has_position announcement) announcement.lat announcement.lon))
    × (advert.contact_type_id ≡ determine_contact_type_from_flags 1)
    × (advert.advert_timestamp ≡ min 900 1000)
unfolding bytes_eq
handle_advert-create_advert_example =
    handle_advert-create_advert toy_sign toy_verify node_key receiver_key 1000 900 announcement
      flood advert_packet advert_packet advert_packet-made refl refl (λ message. refl)
      (λ message. bytes_eq_refl (toy_sign message)) refl (omega arith)
      (omega arith, (omega arith, tt)) (omega arith)

abbrev accepted : Advert
accepted = record {
  public_key = node_key;
  name = 97 ∷ 98 ∷ [];
  longitude = pos 5;
  latitude = negsuc 2;
  flags = 177;
  contact_type_id = 1;
  advert_timestamp = 900;
  timestamp = 900;
  snr = pos 0;
  rssi = pos 0;
}

advert_packet-accepted :
    handle_advert toy_verify receiver_key 900 advert_packet
    ≡ some (accepted, event_of advert_packet accepted)
unfolding handle_advert handle_parsed accept_verified named_advert position verify_advert_signature
    determine_contact_type_from_flags parse_advert_payload is_self_advert decode_appdata
    decode_fields location_size feature1_size feature2_size has_flag unpack_i32 nonempty c_string
    get_payload bytes_eq from_le le32
advert_packet-accepted = refl

replicate-IsBytes : (n b : ℕ) → b < 256 → IsBytes (replicate n b)
replicate-IsBytes zero b h = tt
replicate-IsBytes (suc n) b h = (h, replicate-IsBytes n b h)

payload-IsBytes : IsBytes (get_payload advert_packet)
unfolding get_payload
payload-IsBytes =
    All-append IsByte node_key (drop 32 advert_payload) (replicate-IsBytes 32 9 (omega arith)) (
      omega arith,
      (
        omega arith,
        (
          omega arith,
          (
            omega arith,
            (
              omega arith,
              All-append IsByte (replicate 63 7) announced (replicate-IsBytes 63 7 (omega arith)) (
                omega arith,
                (
                  omega arith,
                  (
                    omega arith,
                    (
                      omega arith,
                      (
                        omega arith,
                        (
                          omega arith,
                          (
                            omega arith,
                            (
                              omega arith,
                              (
                                omega arith,
                                (omega arith, (omega arith, (omega arith, (omega arith, tt)))),
                              ),
                            ),
                          ),
                        ),
                      ),
                    ),
                  ),
                ),
              ),
            ),
          ),
        ),
      ),
    )

handle_advert-verified_example :
    (100 ≤ length (get_payload advert_packet))
    × (node_key ≡ take 32 (get_payload advert_packet))
    × (toy_verify node_key
          (take 32 (get_payload advert_packet)
            ++ (take 4 (drop 32 (get_payload advert_packet))
                ++ take 32 (drop 100 (get_payload advert_packet))))
          (take 64 (drop 36 (get_payload advert_packet)))
        ≡ true)
    × ((receiver_key ≡ []) ⊎ (node_key ≢ receiver_key))
    × (900 ≤ 900)
    × ((event_of advert_packet accepted).advert ≡ accepted)
handle_advert-verified_example =
    handle_advert-verified toy_verify receiver_key 900 advert_packet accepted
      (event_of advert_packet accepted) payload-IsBytes advert_packet-accepted
