-- ===== src/Node/Text/Confirm.antt =====
-- The ACK packets that node/handlers/text.py sends, read by the handlers of the node that sent the
-- message.
use openhop_core.Prelude.{
  ℕ, ◌/◌, ◌%◌, ◌≡◌, refl, ap, ◌∙◌, inl, inr, Bool, true, false, Option, none, some, List, [], ◌∷◌,
  arith, ltb, Option-cases, length,
}
use openhop_core.Prelude.Outcome.{value_error, ok, Result-cases, >>=-eq-ok}
use openhop_core.Protocol.Constants.{payload_type_ack, payload_type_multipart, payload_type_path}
use openhop_core.Protocol.Crypto.{Cipher}
use openhop_core.Protocol.Packet.{Packet, get_payload_type}
use openhop_core.Protocol.PathOps.{set_path}
use openhop_core.Protocol.Header.{create_header}
use openhop_core.Protocol.Builder.{
  RouteName, transport_flood, flood, direct, transport_direct, other, get_route_type_value,
  create_route_header, create_packet, with_path, create_ack_from_bytes, create_multi_ack,
  create_path_return, first_byte,
}
use openhop_core.Protocol.Region.{
  calc_transport_code, scope_packet, reply_with_key, reply_without_key, apply_reply_scope,
}
use openhop_core.Node.Acks.Handler.PathReturn.{not_raised}

-- A scoped reply has the payload and the type of the reply.
abbrev pub SameBody : Packet → Packet → Type 0
SameBody p q = (q.payload ≡ p.payload) × (get_payload_type q ≡ get_payload_type p)

scope_packet-SameBody :
    (hmac : List ℕ → List ℕ → List ℕ) (key : List ℕ) (p q : Packet)
    → scope_packet hmac key p ≡ ok q
    → SameBody p q
unfolding scope_packet get_payload_type
scope_packet-SameBody hmac key p q h = elim (Result-cases (calc_transport_code hmac key p)) [
  | inl (code, made) ↦ ground (arith, h, made)
  | inr (e, failed) ↦ ground (arith, h, failed)
]

reply_with_key-SameBody :
    (hmac : List ℕ → List ℕ → List ℕ) (key : List ℕ) (p q : Packet)
    → reply_with_key hmac key p ≡ ok q
    → SameBody p q
unfolding reply_with_key get_payload_type
reply_with_key-SameBody hmac key p q h = elim (Result-cases (scope_packet hmac key p)) [
  | inl (s, scoped) ↦ ground (arith, h, scoped, scope_packet-SameBody hmac key p s scoped)
  | inr (e, failed) ↦ ground (arith, h, failed)
]

pub apply_reply_scope-SameBody :
    (hmac : List ℕ → List ℕ → List ℕ) (request p q : Packet)
    → apply_reply_scope hmac p (some request) ≡ ok q
    → SameBody p q
unfolding apply_reply_scope reply_without_key get_payload_type
apply_reply_scope-SameBody hmac request p q h = elim (Option-cases request.recv_region_key) [
  | inl unscoped ↦ ground (arith, h, unscoped)
  | inr (key, scoped) ↦ ground (arith, h, scoped, reply_with_key-SameBody hmac key p q)
]

header-with_path :
    (path : List ℕ) (enc : Option ℕ) (p q : Packet)
    → with_path path enc p ≡ ok q
    → q.header ≡ p.header
unfolding with_path set_path
header-with_path [] enc p q h = ground (arith, h)
header-with_path (b ∷ path) (some e) p q h = ground (arith, h)
header-with_path (b ∷ path) none p q h = ground (arith, h)

header-create_packet :
    (header : ℕ) (payload : List ℕ) (p : Packet)
    → create_packet header payload ≡ ok p
    → p.header ≡ header
unfolding create_packet
header-create_packet header payload p h = ground (arith, h)

-- The payload type in a header that the builder makes.
IsTyped : ℕ → Type 0
IsTyped payload_type =
    (route : RouteName) (has_path : Bool)
    → create_route_header payload_type route has_path / 4 % 16 ≡ payload_type

by_routes :
    (payload_type : ℕ)
    → (create_header payload_type 0 0 / 4 % 16 ≡ payload_type)
    → (create_header payload_type 1 0 / 4 % 16 ≡ payload_type)
    → (create_header payload_type 2 0 / 4 % 16 ≡ payload_type)
    → (create_header payload_type 3 0 / 4 % 16 ≡ payload_type)
    → IsTyped payload_type
unfolding IsTyped create_route_header get_route_type_value
by_routes t a b c d transport_flood has_path = a
by_routes t a b c d flood has_path = b
by_routes t a b c d direct has_path = c
by_routes t a b c d transport_direct has_path = d
by_routes t a b c d other true = c
by_routes t a b c d other false = b

ack-IsTyped : IsTyped payload_type_ack
unfolding create_header
ack-IsTyped = by_routes payload_type_ack refl refl refl refl

multipart-IsTyped : IsTyped payload_type_multipart
unfolding create_header
multipart-IsTyped = by_routes payload_type_multipart refl refl refl refl

path-IsTyped : IsTyped payload_type_path
unfolding create_header
path-IsTyped = by_routes payload_type_path refl refl refl refl

pub type-create_ack_from_bytes :
    (ack path : List ℕ) (enc : Option ℕ) (route : RouteName) (p : Packet)
    → create_ack_from_bytes ack path enc route ≡ ok p
    → get_payload_type p ≡ payload_type_ack
unfolding create_ack_from_bytes get_payload_type IsTyped
type-create_ack_from_bytes ack path enc route p h =
    let (q, made, placed) = >>=-eq-ok (create_packet _ ack) (with_path path enc) h in
    ap (λ b. b / 4 % 16) (header-with_path path enc q p placed ∙ header-create_packet _ ack q made)
    ∙ ack-IsTyped route (ltb 0 (length path))

pub type-create_multi_ack :
    (ack path : List ℕ) (remaining : ℕ) (enc : Option ℕ) (p : Packet)
    → create_multi_ack ack remaining path enc ≡ ok p
    → get_payload_type p ≡ payload_type_multipart
unfolding create_multi_ack get_payload_type IsTyped
type-create_multi_ack ack path remaining enc p h =
    let (q, made, placed) = >>=-eq-ok (create_packet _ _) (with_path path enc) h in
    ap (λ b. b / 4 % 16) (header-with_path path enc q p placed ∙ header-create_packet _ _ q made)
    ∙ multipart-IsTyped direct (ltb 0 (length path))

pub type-create_path_return :
    (c : Cipher) (dest src : ℕ) (secret path : List ℕ) (extra_type : ℕ) (extra : List ℕ)
    (enc : Option ℕ) (random : List ℕ) (p : Packet)
    → create_path_return c dest src secret path extra_type extra enc random ≡ ok p
    → get_payload_type p ≡ payload_type_path
unfolding create_path_return get_payload_type IsTyped
type-create_path_return c dest src secret path extra_type extra enc random p h =
    let (first, fits, made) = >>=-eq-ok (first_byte path enc) _ (not_raised _ value_error _ h) in
    ap (λ b. b / 4 % 16) (header-create_packet _ _ p made) ∙ path-IsTyped flood false
