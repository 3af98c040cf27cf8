-- ===== src/Protocol/Advert.antt =====
-- Adverts: `create_advert` and `_encode_advert_data` of protocol/packet_builder.py, and the parsers
-- of protocol/utils.py. A name is its UTF-8 bytes; how bytes that are not UTF-8 are shown is not
-- modelled. The key and the signature of the local identity and the clock are arguments.
use openhop_core.Prelude.{
  ℕ, zero, suc, ◌+◌, ◌-◌, ◌*◌, ◌/◌, ◌%◌, ◌≤◌, ◌<◌, ◌≡◌, refl, sym, ap, ◌∙◌, ◌≢◌, ◌↔◌, ◌⊎◌, inl, inr,
  Bool, true, false, not, ◌&&◌, ◌||◌, Option, none, some, List, [], ◌∷◌, ◌++◌, map, arith,
  if◌then◌else◌, ltb, leb, ltb→lt, lt→ltb, leb→le, ◌==◌, ==_iff, ==_refl, Bool-cases, Option-cases,
  &&-split, length, length-append, get_elem?, get_or, set, take, drop, replicate, All, min,
  length-take, length-drop, take-append, drop-append, take_of_length-le, take-append-drop,
  length-replicate, All-append, All-take, All-drop, take-take,
}
use openhop_core.Prelude.Outcome.{value_error, struct_error, Result, ok, raise, ◌>>=◌, ◌>>◌}
use openhop_core.Prelude.Int.{ℤ, pos, negsuc}
use openhop_core.Prelude.Bytes.{from_le, le16, le32, bytes_eq}
use openhop_core.Protocol.Constants.{
  payload_type_advert, max_advert_data_size, pub_key_size, signature_size, timestamp_size,
  advert_flag_is_chat_node, advert_flag_is_repeater, advert_flag_is_room_server,
  advert_flag_is_sensor, advert_flag_has_location, advert_flag_has_feature1,
  advert_flag_has_feature2, advert_flag_has_name,
}
use openhop_core.Protocol.Packet.{Packet}
use openhop_core.Protocol.Builder.{RouteName, create_route_header, create_packet}
use openhop_core.Protocol.Builder.Text.{c_string, pack_timestamp_data}
pub mod Fields
pub mod Bits
pub mod Codec

-- What the code reads of a float of degrees: `x != 0.0`, and `int(x * 1000000)`, which is 0 also for
-- some that are not.
pub record Degrees : Type 0 where
  pub nonzero : Bool
  pub micro : ℤ

-- The arguments of `_encode_advert_data`.
pub record Announcement : Type 0 where
  pub name : List ℕ
  pub lat : Degrees
  pub lon : Degrees
  pub feature1 : ℕ
  pub feature2 : ℕ
  pub flags : ℕ

-- `flags & mask`, for a mask of one bit.
unfoldable pub has_flag : ℕ → ℕ → Bool
has_flag mask flags = flags / mask % 2 == 1

-- `if wanted: flags |= mask`
unfoldable pub raise_flag : ℕ → Bool → ℕ → ℕ
unfolding has_flag
raise_flag mask wanted flags = if wanted && not (has_flag mask flags) then flags + mask else flags

unfoldable pub has_position : Announcement → Bool
has_position a = a.lat.nonzero || a.lon.nonzero

unfoldable pub final_flags : Announcement → ℕ
unfolding raise_flag has_flag has_position
final_flags a =
    let located = raise_flag advert_flag_has_location (has_position a) a.flags in
    let first = raise_flag advert_flag_has_feature1 (ltb 0 a.feature1) located in
    let second = raise_flag advert_flag_has_feature2 (ltb 0 a.feature2) first in
    raise_flag advert_flag_has_name (ltb 0 (length a.name)) second

-- `struct.pack("<i", z)`, in two's complement.
unfoldable pub pack_i32 : ℤ → Result (List ℕ)
pack_i32 (pos n) = if ltb n 2147483648 then ok (le32 n) else raise struct_error
pack_i32 (negsuc n) = if ltb n 2147483648 then ok (le32 (4294967295 - n)) else raise struct_error

-- `struct.unpack("<i", data)[0]`, of four bytes.
unfoldable pub unpack_i32 : List ℕ → ℤ
unpack_i32 raw = let n = from_le raw in if ltb n 2147483648 then pos n else negsuc (4294967295 - n)

-- `struct.pack("<H", n)`
unfoldable pub pack_u16 : ℕ → Result (List ℕ)
pack_u16 n = if ltb n 65536 then ok (le16 n) else raise struct_error

unfoldable pub location_part : Bool → Degrees → Degrees → Result (List ℕ)
unfolding pack_i32
location_part false lat lon = ok []
location_part true lat lon =
    pack_i32 lat.micro >>= (λ front. pack_i32 lon.micro >>= (λ back. ok (front ++ back)))

unfoldable pub feature_part : Bool → ℕ → Result (List ℕ)
unfolding pack_u16
feature_part false feature = ok []
feature_part true feature = pack_u16 feature

-- The bytes of the name that fit behind `size` bytes.
unfoldable pub name_part : Bool → ℕ → List ℕ → List ℕ
name_part wanted size name = if wanted then take (max_advert_data_size - size) name else []

unfoldable pub encode_advert_data : Announcement → Result (List ℕ)
unfolding final_flags raise_flag has_flag has_position location_part feature_part pack_i32 pack_u16
    name_part
encode_advert_data a =
    let flags = final_flags a in
    if ltb 255 flags then raise value_error else do
      location ← location_part (has_flag advert_flag_has_location flags) a.lat a.lon
      first ← feature_part (has_flag advert_flag_has_feature1 flags) a.feature1
      second ← feature_part (has_flag advert_flag_has_feature2 flags) a.feature2
      let size = 1 + (length location + (length first + length second))
      let name = name_part (has_flag advert_flag_has_name flags) size a.name
      ok (flags ∷ (location ++ (first ++ (second ++ name))))

-- `sign` is the local identity's.
unfoldable pub create_advert :
    (List ℕ → List ℕ) → List ℕ → ℕ → Announcement → RouteName → Result Packet
unfolding encode_advert_data pack_timestamp_data
create_advert sign pubkey now a route = do
  ts_bytes ← pack_timestamp_data now []
  appdata ← encode_advert_data a
  let signature = sign (pubkey ++ (ts_bytes ++ appdata))
  if ltb max_advert_data_size (length appdata)
      then raise value_error
      else create_packet (create_route_header payload_type_advert route false)
          (pubkey ++ (ts_bytes ++ (signature ++ appdata)))

unfoldable pub create_self_advert :
    (List ℕ → List ℕ) → List ℕ → ℕ → Announcement → RouteName → Result Packet
unfolding create_advert
create_self_advert sign pubkey now a route =
    create_advert sign pubkey now (record a { flags = advert_flag_is_chat_node }) route

pub record ParsedAdvert : Type 0 where
  pub pubkey : List ℕ
  pub timestamp : ℕ
  pub signature : List ℕ
  pub appdata : List ℕ

unfoldable pub parse_advert_payload : List ℕ → Result ParsedAdvert
parse_advert_payload payload =
    let sig_start = pub_key_size + timestamp_size in
    if ltb (length payload) (pub_key_size + timestamp_size + signature_size)
    then raise value_error
    else ok (record {
      pubkey = take pub_key_size payload;
      timestamp = from_le (take timestamp_size (drop pub_key_size payload));
      signature = take signature_size (drop sig_start payload);
      appdata = drop (sig_start + signature_size) payload;
    })

-- An empty key is one that the node does not have.
unfoldable pub is_self_advert : List ℕ → List ℕ → Bool
is_self_advert payload self_public_key =
    ltb 0 (length self_public_key)
    && (leb pub_key_size (length payload) && bytes_eq (take pub_key_size payload) self_public_key)

-- The keys of the decoded dictionary. A latitude and a longitude are the integers that the code
-- divides by 1000000.0.
pub record AppData : Type 0 where
  pub flags : ℕ
  pub location : Option (ℤ × ℤ)
  pub feature_1 : Option ℕ
  pub feature_2 : Option ℕ
  pub node_name : Option (List ℕ)

unfoldable pub location_size : ℕ → ℕ
unfolding has_flag
location_size flags = if has_flag advert_flag_has_location flags then 8 else 0

unfoldable pub feature1_size : ℕ → ℕ
unfolding has_flag
feature1_size flags = if has_flag advert_flag_has_feature1 flags then 2 else 0

unfoldable pub feature2_size : ℕ → ℕ
unfolding has_flag
feature2_size flags = if has_flag advert_flag_has_feature2 flags then 2 else 0

-- `if name:`
unfoldable pub nonempty : List ℕ → Option (List ℕ)
nonempty [] = none
nonempty (b ∷ bs) = some (b ∷ bs)

-- The fields, read once there are bytes enough.
unfoldable pub decode_fields : List ℕ → AppData
unfolding has_flag location_size feature1_size feature2_size unpack_i32 nonempty c_string
decode_fields appdata =
    let flags = get_or appdata 0 0 in
    let second = 1 + location_size flags in
    let third = second + feature1_size flags in
    let last = third + feature2_size flags in
    record {
      flags = flags;
      location =
          if has_flag advert_flag_has_location flags
          then some (unpack_i32 (take 4 (drop 1 appdata)), unpack_i32 (take 4 (drop 5 appdata)))
          else none;
      feature_1 =
          if has_flag advert_flag_has_feature1 flags
          then some (from_le (take 2 (drop second appdata)))
          else none;
      feature_2 =
          if has_flag advert_flag_has_feature2 flags
          then some (from_le (take 2 (drop third appdata)))
          else none;
      node_name =
          if has_flag advert_flag_has_name flags && ltb last (length appdata)
          then nonempty (c_string (drop last appdata))
          else none;
    }

unfoldable pub decode_appdata : List ℕ → Result AppData
unfolding location_size feature1_size feature2_size has_flag
decode_appdata appdata =
    let flags = get_or appdata 0 0 in
    let required_len = 1 + location_size flags + feature1_size flags + feature2_size flags in
    if ltb (length appdata) 1
    then raise value_error
    else if ltb (length appdata) required_len
    then raise value_error
    else ok (decode_fields appdata)

unfoldable pub determine_contact_type_from_flags : ℕ → ℕ
determine_contact_type_from_flags flags =
    let node_type = flags % 16 in
    if node_type == advert_flag_is_room_server
    then 3
    else if node_type == advert_flag_is_repeater
    then 2
    else if node_type == advert_flag_is_chat_node
    then 1
    else if node_type == advert_flag_is_sensor
    then 4
    else 0
