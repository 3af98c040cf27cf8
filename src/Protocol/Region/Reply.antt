-- ===== src/Protocol/Region/Reply.antt =====
-- The scope of a reply: what `capture_recv_region` records of the request, and `apply_reply_scope`
-- with `_apply_flood_scope` after it, against the table of `choose_reply_scope`.
use openhop_core.Prelude.{
  ℕ, ◌≡◌, refl, inl, inr, Bool, true, false, Option, none, some, List, Bool-cases, Option-cases,
}
use openhop_core.Prelude.Outcome.{Result, ok, raise, ◌>>=◌, Result-cases}
use openhop_core.Protocol.Constants.{route_type_flood}
use openhop_core.Protocol.Packet.{Packet, get_route_type}
use openhop_core.Protocol.Region.{
  RegionMap, scope_packet, is_decided, capture_with, capture_recv_region, ReplyScope, scope_request,
  scope_default, scope_none, choose_reply_scope, reply_with_key, reply_without_key,
  apply_reply_scope, FloodScope, apply_flood_scope,
}

-- The packet that goes on air, without the mark that the node keeps with it.
unfoldable pub unmark : Result Packet → Result Packet
unmark (ok p) = ok (record p { flood_scope_applied = false })
unmark (raise e) = raise e

unfoldable pub is_some : {A : Type 0} → Option A → Bool
is_some none = false
is_some (some a) = true

-- What a scope means for a reply, for the request's key and the node's default.
unfoldable pub reply_under :
    (List ℕ → List ℕ → List ℕ)
    → ReplyScope
    → Option (List ℕ)
    → Option (List ℕ)
    → Packet
    → Result Packet
reply_under hmac scope_request (some key) default reply = scope_packet hmac key reply
reply_under hmac scope_request none default reply = ok reply
reply_under hmac scope_default key (some default) reply = scope_packet hmac default reply
reply_under hmac scope_default key none reply = ok reply
reply_under hmac scope_none key default reply = ok reply

-- A flood reply that is not marked yet, to a captured request, sent by a node with no override
-- of its scope, goes on air as the table chooses: under the request's key, under the node's
-- default, or plain; and an error is raised when the chosen scope raises it.
pub reply-choose_reply_scope :
    (hmac : List ℕ → List ℕ → List ℕ) (reply request : Packet) (c : FloodScope)
    → request.recv_region_captured ≡ true
    → get_route_type reply ≡ route_type_flood
    → reply.flood_scope_applied ≡ false
    → c.flood_unscoped ≡ false
    → c.flood_transport_key ≡ none
    → unmark (apply_reply_scope hmac reply (some request) >>= apply_flood_scope hmac c)
      ≡ unmark (
          reply_under hmac
            (choose_reply_scope
              (is_some request.recv_region_key)
              request.recv_region_unscoped
              (is_some c.default_flood_transport_key))
            request.recv_region_key
            c.default_flood_transport_key
            reply)
unfolding apply_reply_scope apply_flood_scope reply_under choose_reply_scope reply_with_key
    reply_without_key unmark is_some
reply-choose_reply_scope hmac reply request c captured plain fresh scoped own =
    elim (Option-cases request.recv_region_key) [
      | inl unknown ↦ elim (Bool-cases request.recv_region_unscoped) [
        | inl mirrored ↦ simp (captured, unknown, mirrored) refl
        | inr unscoped ↦ elim (Option-cases c.default_flood_transport_key) [
          | inl unset ↦ simp (captured, unknown, unscoped, fresh, plain, scoped, own, unset) refl
          | inr (d, given) ↦
              simp (captured, unknown, unscoped, fresh, plain, scoped, own, given) refl
        ]
      ]
      | inr (key, known) ↦ elim (Result-cases (scope_packet hmac key reply)) [
        | inl (q, e) ↦ simp (captured, known, plain, e) refl
        | inr (err, e) ↦ simp (captured, known, plain, e) refl
      ]
    ]

capture_with-decided :
    (sha256 : List ℕ → List ℕ) (hmac : List ℕ → List ℕ → List ℕ) (n : RegionMap) (q : Packet)
    → is_decided q ≡ true
    → capture_with sha256 hmac n q ≡ q
unfolding capture_with
capture_with-decided sha256 hmac n q h = simp (h) refl

-- A capture that reached a decision is final: a second entry point with any other map leaves the
-- packet as it is.
pub capture_recv_region-final :
    (sha256 : List ℕ → List ℕ) (hmac : List ℕ → List ℕ → List ℕ) (m n : Option RegionMap)
    (p : Packet)
    → ((let q = capture_recv_region sha256 hmac m p in is_decided q) ≡ true)
    → (let q = capture_recv_region sha256 hmac m p in capture_recv_region sha256 hmac n q)
      ≡ capture_recv_region sha256 hmac m p
unfolding capture_recv_region
capture_recv_region-final sha256 hmac m none p h = refl
capture_recv_region-final sha256 hmac m (some n) p h =
    capture_with-decided sha256 hmac n (capture_recv_region sha256 hmac m p) h
