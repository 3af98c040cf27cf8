-- ===== src/Node/Advert.antt =====
-- `AdvertHandler` (node/handlers/advert.py). `verify key message signature` is
-- `Identity(key).verify(message, signature)`, false where the key is refused; `now` is the clock. The
-- event is given beside the result; whether there is a service to publish it is not modelled, nor is
-- the text that describes flags and types.
use openhop_core.Prelude.{
  ℕ, zero, suc, ◌+◌, ◌-◌, ◌*◌, ◌/◌, ◌%◌, ◌≤◌, ◌<◌, ◌≡◌, refl, sym, ap, ◌∙◌, ◌≢◌, ◌↔◌, ◌⊎◌, inl, inr,
  Bool, true, false, not, ◌&&◌, ◌||◌, Option, none, some, List, [], ◌∷◌, ◌++◌, map, arith,
  if◌then◌else◌, ltb, leb, ltb→lt, lt→ltb, leb→le, ◌==◌, ==_iff, ==_refl, Bool-cases, Option-cases,
  &&-split, length, length-append, get_elem?, get_or, set, take, drop, replicate, All, min,
  length-take, length-drop, take-append, drop-append, take_of_length-le, take-append-drop,
  length-replicate, All-append, All-take, All-drop, take-take,
}
use openhop_core.Prelude.Outcome.{Result, ok, raise}
use openhop_core.Prelude.Int.{ℤ, pos}
use openhop_core.Prelude.Bytes.{le32}
use openhop_core.Protocol.Constants.{max_advert_data_size, pub_key_size, signature_size}
use openhop_core.Protocol.Packet.{Packet, get_payload}
use openhop_core.Protocol.PathLen.{get_path_byte_len}
use openhop_core.Protocol.Wire.{write_to}
use openhop_core.Protocol.Advert.{
  ParsedAdvert, AppData, parse_advert_payload, is_self_advert, decode_appdata,
  determine_contact_type_from_flags,
}
pub mod Trust
pub mod Announce

-- The dictionary that the handler returns. The position is in microdegrees.
pub record Advert : Type 0 where
  pub public_key : List ℕ
  pub name : List ℕ
  pub longitude : ℤ
  pub latitude : ℤ
  pub flags : ℕ
  pub contact_type_id : ℕ
  pub advert_timestamp : ℕ
  pub timestamp : ℕ
  pub snr : ℤ
  pub rssi : ℤ

-- What the event adds to it. `raw_advert_packet` is none where the packet cannot be written.
pub record Event : Type 0 where
  pub advert : Advert
  pub inbound_path : List ℕ
  pub path_len_encoded : ℕ
  pub raw_advert_packet : Option (List ℕ)

unfoldable pub verify_advert_signature :
    (List ℕ → List ℕ → List ℕ → Bool) → List ℕ → List ℕ → List ℕ → List ℕ → Bool
verify_advert_signature verify pubkey timestamp appdata signature =
    if not (length pubkey == pub_key_size)
    then false
    else if not (length signature == signature_size)
    then false
    else verify pubkey (pubkey ++ (timestamp ++ appdata)) signature

-- `decoded.get(...) or 0.0`
unfoldable pub position : Option (ℤ × ℤ) → ℤ × ℤ
position none = (pos 0, pos 0)
position (some (lat, lon)) = (lat, lon)

unfoldable pub event_of : Packet → Advert → Event
event_of p a = record {
  advert = a;
  inbound_path = take (get_path_byte_len p.path_len) p.path;
  path_len_encoded = p.path_len;
  raw_advert_packet = elim (write_to p) [ ok raw ↦ some raw | raise e ↦ none ];
}

-- A verified advert with a name.
unfoldable pub named_advert : Packet → ℕ → ParsedAdvert → AppData → List ℕ → Advert
unfolding position determine_contact_type_from_flags
named_advert p now parsed decoded name = record {
  public_key = parsed.pubkey;
  name = name;
  longitude = (position decoded.location).1;
  latitude = (position decoded.location).0;
  flags = decoded.flags;
  contact_type_id = determine_contact_type_from_flags decoded.flags;
  advert_timestamp = if ltb now parsed.timestamp then now else parsed.timestamp;
  timestamp = now;
  snr = p.snr;
  rssi = p.rssi;
}

-- The application data is decoded once it is verified; its decoder may raise, and it may hold no name.
unfoldable pub accept_verified : Packet → ℕ → ParsedAdvert → List ℕ → Option (Advert × Event)
unfolding decode_appdata named_advert event_of
accept_verified p now parsed appdata = elim (decode_appdata appdata) [
  | raise e ↦ none
  | ok decoded ↦ elim decoded.node_name [
    | none ↦ none
    | some name ↦
        let advert = named_advert p now parsed decoded name in some (advert, event_of p advert)
  ]
]

unfoldable pub handle_parsed :
    (List ℕ → List ℕ → List ℕ → Bool) → List ℕ → ℕ → Packet → ParsedAdvert → Option (Advert × Event)
unfolding accept_verified verify_advert_signature is_self_advert
handle_parsed verify self_key now p parsed =
    let appdata = take max_advert_data_size parsed.appdata in
    let accepted = accept_verified p now parsed appdata in
    if is_self_advert (get_payload p) self_key
    then none
    else if not (
        verify_advert_signature verify parsed.pubkey (le32 parsed.timestamp) appdata
          parsed.signature)
    then none
    else accepted

unfoldable pub handle_advert :
    (List ℕ → List ℕ → List ℕ → Bool) → List ℕ → ℕ → Packet → Option (Advert × Event)
unfolding handle_parsed parse_advert_payload
handle_advert verify self_key now p = elim (parse_advert_payload (get_payload p)) [
  | raise e ↦ none
  | ok parsed ↦ handle_parsed verify self_key now p parsed
]
