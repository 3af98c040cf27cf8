-- ===== src/Node/Advert/Announce.antt =====
-- An advert from `create_advert` of protocol/packet_builder.py to `AdvertHandler` of
-- node/handlers/advert.py on another node.
use openhop_core.Prelude.{
  ℕ, ◌+◌, ◌-◌, ◌≤◌, ◌<◌, ◌%◌, ◌≡◌, refl, sym, ap, ◌∙◌, inl, inr, Bool, true, false, ◌&&◌, some,
  List, [], ◌∷◌, ◌++◌, arith, if◌then◌else◌, ltb, ltb→lt, ◌==◌, ==_iff, length, take, drop,
  length-take, length-append, take-append, drop-append, take_of_length-le, min, Bool-cases,
}
use openhop_core.Prelude.Outcome.{value_error, ok, >>=-eq-ok}
use openhop_core.Prelude.Bytes.{from_le, le32, from_le-le32, bytes_eq}
use openhop_core.Protocol.Packet.{Packet, get_payload}
use openhop_core.Protocol.Builder.{RouteName, create_route_header, create_packet}
use openhop_core.Protocol.Builder.Text.{pack_timestamp_data}
use openhop_core.Node.Acks.Handler.Extraction.{append_assoc, leb_below}
use openhop_core.Node.Text.Delivery.{NoNul, pack-ok}
use openhop_core.Protocol.Advert.{
  Announcement, ParsedAdvert, AppData, has_position, nonempty, encode_advert_data, create_advert,
  parse_advert_payload, is_self_advert, decode_appdata, determine_contact_type_from_flags,
}
use openhop_core.Protocol.Advert.Fields.{field_at, location_given, not_raised, ok_injective}
use openhop_core.Protocol.Advert.Codec.{
  append_nil, name_sent, part_size, size-le, decode_appdata-encode_advert_data,
}
use openhop_core.Node.Advert.{
  Advert, verify_advert_signature, position, event_of, named_advert, accept_verified, handle_parsed,
  handle_advert,
}

-- The parts of a payload, where each has its size.
parse_laid_out :
    (key stamp signature appdata : List ℕ)
    → length key ≡ 32
    → length stamp ≡ 4
    → length signature ≡ 64
    → parse_advert_payload (key ++ (stamp ++ (signature ++ appdata)))
      ≡ ok (record {
        pubkey = key;
        timestamp = from_le stamp;
        signature = signature;
        appdata = appdata;
      })
unfolding parse_advert_payload
parse_laid_out key stamp signature appdata k t s =
    let rest = signature ++ appdata in
    let payload = key ++ (stamp ++ rest) in
    let front : payload ≡ (key ++ stamp) ++ rest = sym (append_assoc key stamp rest) in
    let size : length (key ++ stamp) ≡ 36 = omega (arith, k, t, length-append key stamp) in
    let all : payload ≡ ((key ++ stamp) ++ signature) ++ appdata =
      front ∙ sym (append_assoc (key ++ stamp) signature appdata) in
    let sized : length ((key ++ stamp) ++ signature) ≡ 100 =
      omega (arith, size, s, length-append (key ++ stamp) signature) in
    let enough : 100 ≤ length payload =
      omega (arith, ap length all, sized, length-append ((key ++ stamp) ++ signature) appdata) in
    rw (leb_below (length payload) 100 enough) (
      rw (take-append 32 key (stamp ++ rest) k) (
        rw (field_at 32 4 key stamp rest k t) (
          rw
            (ap (λ xs. take 64 (drop 36 xs)) front
              ∙ field_at 36 64 (key ++ stamp) signature appdata size s)
            (rw (ap (drop 100) all ∙ drop-append 100 ((key ++ stamp) ++ signature) appdata sized)
              refl))))

get_payload-create_packet :
    (header : ℕ) (body : List ℕ) (p : Packet)
    → create_packet header body ≡ ok p
    → get_payload p ≡ body
unfolding create_packet get_payload
get_payload-create_packet header body p made =
    let (fits, same) = not_raised (ltb 184 (length body)) value_error _ p made in
    ap get_payload (sym (ok_injective _ p same))
    ∙ take_of_length-le (length body) body (omega arith)

-- A made advert, in its parts.
record Made (sign : List ℕ → List ℕ) (pubkey : List ℕ) (now : ℕ) (a : Announcement) (p : Packet)
    : Type 0 where
  appdata : List ℕ
  encoded : encode_advert_data a ≡ ok appdata
  payload :
      get_payload p ≡ pubkey ++ (le32 now ++ (sign (pubkey ++ (le32 now ++ appdata)) ++ appdata))

create_advert-Made :
    (sign : List ℕ → List ℕ) (pubkey : List ℕ) (now : ℕ) (a : Announcement) (route : RouteName)
    (p : Packet)
    → create_advert sign pubkey now a route ≡ ok p
    → Made sign pubkey now a p
unfolding create_advert
create_advert-Made sign pubkey now a route p made =
    let (stamp, packed, made1) = >>=-eq-ok (pack_timestamp_data now []) _ made in
    let stamped : stamp ≡ le32 now = pack-ok now [] stamp packed ∙ append_nil (le32 now) in
    let (appdata, encoded, made2) = >>=-eq-ok (encode_advert_data a) _ made1 in
    let (small, made3) = not_raised (ltb 32 (length appdata)) value_error _ p made2 in
    let body : List ℕ → List ℕ =
      λ ts. pubkey ++ (ts ++ (sign (pubkey ++ (ts ++ appdata)) ++ appdata)) in
    record {
      appdata = appdata;
      encoded = encoded;
      payload =
          get_payload-create_packet (create_route_header 4 route false) (body stamp) p made3
          ∙ ap body stamped;
    }

==_of_eq : (a b : ℕ) → a ≡ b → (a == b) ≡ true
==_of_eq a b e = (==_iff a b).1 e

handle_parsed-accepts :
    (verify : List ℕ → List ℕ → List ℕ → Bool) (self_key : List ℕ) (now : ℕ) (p : Packet)
    (parsed : ParsedAdvert)
    → is_self_advert (get_payload p) self_key ≡ false
    → length parsed.appdata ≤ 32
    → length parsed.pubkey ≡ 32
    → length parsed.signature ≡ 64
    → verify parsed.pubkey
        (parsed.pubkey ++ (le32 parsed.timestamp ++ parsed.appdata))
        parsed.signature
      ≡ true
    → handle_parsed verify self_key now p parsed ≡ accept_verified p now parsed parsed.appdata
unfolding handle_parsed verify_advert_signature
handle_parsed-accepts verify self_key now p parsed foreign short key sig signed = rw (foreign) (
    rw (take_of_length-le 32 parsed.appdata short) (
      rw (==_of_eq (length parsed.pubkey) 32 key)
        (rw (==_of_eq (length parsed.signature) 64 sig) (rw (signed) refl))))

accept_verified-some :
    (p : Packet) (now : ℕ) (parsed : ParsedAdvert) (appdata name : List ℕ) (q : AppData)
    → decode_appdata appdata ≡ ok q
    → q.node_name ≡ some name
    → accept_verified p now parsed appdata
      ≡ some (named_advert p now parsed q name, event_of p (named_advert p now parsed q name))
unfolding accept_verified
accept_verified-some p now parsed appdata name q read named =
    rw (accept_verified, read) (rw (accept_verified, named) refl)

both_false : (x y : Bool) → (x && (y && false)) ≡ false
both_false true true = refl
both_false true false = refl
both_false false y = refl

foreign_key :
    (pubkey rest self_key : List ℕ)
    → length pubkey ≡ 32
    → bytes_eq pubkey self_key ≡ false
    → is_self_advert (pubkey ++ rest) self_key ≡ false
unfolding is_self_advert
foreign_key pubkey rest self_key size other =
    rw (take-append 32 pubkey rest size) (rw (other) (both_false _ _))

nonempty-some : (xs : List ℕ) → 0 < length xs → nonempty xs ≡ some xs
unfolding nonempty
nonempty-some [] h = absurd (omega (arith, h))
nonempty-some (x ∷ xs) h = refl

sent_name : (a : Announcement) → 0 < length a.name → nonempty (name_sent a) ≡ some (name_sent a)
unfolding name_sent
sent_name a named =
    let room =
      31
      - (part_size 8 (has_position a)
          + (part_size 2 (ltb 0 a.feature1) + part_size 2 (ltb 0 a.feature2))) in
    nonempty-some (take room a.name) (
      omega (
        arith,
        named,
        length-take room a.name,
        size-le (has_position a) 8,
        size-le (ltb 0 a.feature1) 2,
        size-le (ltb 0 a.feature2) 2,
      ))

clamped-min : (later now : ℕ) → (if ltb later now then later else now) ≡ min later now
clamped-min later now = elim (Bool-cases (ltb later now)) [
  | inl ahead ↦ rw (ahead) (omega (arith, ltb→lt later now ahead))
  | inr past ↦ let below : now ≤ later = ground (arith, past) in rw (past) (omega (arith, below))
]

type_of :
    (flags type : ℕ)
    → type < 16
    → flags % 16 ≡ type
    → determine_contact_type_from_flags flags ≡ determine_contact_type_from_flags type
unfolding determine_contact_type_from_flags
type_of flags type small e =
    let same : type % 16 ≡ type = omega (arith, small) in rw (e) (rw (same) refl)

-- A node with another key accepts an advert that `create_advert` made, on any packet with its
-- payload, if the key has 32 bytes, every signature has 64 and verifies, the flags are a node
-- type below 16, and the name is not empty and holds no NUL. It finds the key, the bytes of the
-- name that were sent, the position, the type, and the earlier of the advert's time and its own.
pub handle_advert-create_advert :
    (sign : List ℕ → List ℕ) (verify : List ℕ → List ℕ → List ℕ → Bool) (pubkey self_key : List ℕ)
    (now later : ℕ) (a : Announcement) (route : RouteName) (p q : Packet)
    → create_advert sign pubkey now a route ≡ ok p
    → get_payload q ≡ get_payload p
    → length pubkey ≡ 32
    → ((message : List ℕ) → length (sign message) ≡ 64)
    → ((message : List ℕ) → verify pubkey message (sign message) ≡ true)
    → bytes_eq pubkey self_key ≡ false
    → a.flags < 16
    → NoNul a.name
    → 0 < length a.name
    → (advert : Advert) × (handle_advert verify self_key later q ≡ some (advert, event_of q advert))
      × (advert.public_key ≡ pubkey)
      × (advert.name ≡ name_sent a)
      × ((advert.latitude, advert.longitude)
          ≡ position (location_given (has_position a) a.lat a.lon))
      × (advert.contact_type_id ≡ determine_contact_type_from_flags a.flags)
      × (advert.advert_timestamp ≡ min later now)
unfolding handle_advert named_advert le32
handle_advert-create_advert sign verify pubkey self_key now later a route p q made same size
      signature_size verifies other small clean named =
    let parts = create_advert-Made sign pubkey now a route p made in
    let sig = sign (pubkey ++ (le32 now ++ parts.appdata)) in
    let rest = le32 now ++ (sig ++ parts.appdata) in
    let body : get_payload q ≡ pubkey ++ rest = same ∙ parts.payload in
    let parsed : ParsedAdvert = record {
      pubkey = pubkey;
      timestamp = from_le (le32 now);
      signature = sig;
      appdata = parts.appdata;
    } in
    let (decoded, read, typed, located, first, second, shown, short) =
      decode_appdata-encode_advert_data a parts.appdata parts.encoded small clean in
    let advert = named_advert q later parsed decoded (name_sent a) in
    let is_parsed : parse_advert_payload (get_payload q) ≡ ok parsed =
      ap parse_advert_payload body
      ∙ parse_laid_out pubkey (le32 now) sig parts.appdata size refl (signature_size _) in
    let foreign =
      ap (λ payload. is_self_advert payload self_key) body
      ∙ foreign_key pubkey rest self_key size other in
    let signed =
      ap (λ t. verify pubkey (pubkey ++ (le32 t ++ parts.appdata)) sig) (from_le-le32 now)
      ∙ verifies (pubkey ++ (le32 now ++ parts.appdata)) in
    (
      advert,
      rw (handle_advert, is_parsed)
          (handle_parsed-accepts verify self_key later q parsed foreign short size
              (signature_size _) signed
            ∙ accept_verified-some q later parsed parts.appdata (name_sent a) decoded read
                (shown ∙ sent_name a named)),
      refl,
      refl,
      ap position located,
      type_of decoded.flags a.flags small typed,
      ap (λ t. if ltb later t then later else t) (from_le-le32 now) ∙ clamped-min later now,
    )
