-- ===== src/Node/Forward/Whole.antt =====
-- `_build_client_repeat_forward` as a whole, and the hash that the dedup tables know a packet by.
use openhop_core.Prelude.{
  ℕ, ◌≤◌, ◌<◌, ◌≡◌, ◌≢◌, inl, inr, refl, Bool, true, false, ◌&&◌, Option, none, some, List, length,
  arith, ltb, ◌==◌, Bool-cases, if◌then◌else◌, &&-split,
}
use openhop_core.Prelude.Outcome.{Result, ok}
use openhop_core.Protocol.PathLen.{is_path_at_max_hops}
use openhop_core.Protocol.Packet.{Packet, get_payload_type, get_path_hash_count, is_route_direct}
use openhop_core.Protocol.Hashing.{packet_hash}
use openhop_core.Node.Forward.{
  build_client_repeat_forward, build_flood_forward, build_direct_forward, starts_with_self,
}
use openhop_core.Node.Forward.Flood.{
  IsRelayable, SameMessage, build_flood_forward-room, build_flood_forward-full,
}
use openhop_core.Node.Forward.Direct.{build_direct_forward-next_hop}

type_of_header : (p f : Packet) → f.header ≡ p.header → get_payload_type f ≡ get_payload_type p
unfolding get_payload_type
type_of_header p f e = rw e

pub hash-SameMessage :
    (sha256 : List ℕ → List ℕ) (p f : Packet)
    → SameMessage p f
    → get_payload_type p ≢ 9
    → packet_hash sha256 f ≡ packet_hash sha256 p
unfolding packet_hash
hash-SameMessage sha256 p f same message =
    ground (arith, type_of_header p f same.header, same.payload)

-- What the caller gets: no forward, or one that can be serialized and read and has the packet's own
-- hash, by which every node that hears it knows it as a duplicate.
pub data Relay (sha256 : List ℕ → List ℕ) (p : Packet) (r : Result (Option Packet)) : Type 0 where
  dropped : r ≡ ok none → Relay sha256 p r
  forwarded :
      (f : Packet)
      → r ≡ ok (some f)
      → IsRelayable f
      → packet_hash sha256 f ≡ packet_hash sha256 p
      → Relay sha256 p r

module _ (sha256 : List ℕ → List ℕ) (p : Packet) (self_key : List ℕ) (r : IsRelayable p)
    (message : get_payload_type p ≢ 9) where
  flood-Relay : 3 ≤ length self_key → Relay sha256 p (build_flood_forward p self_key)
  flood-Relay long = elim (Bool-cases (is_path_at_max_hops p.path_len)) [
    | inl full ↦ dropped (build_flood_forward-full p self_key r.path_len full)
    | inr room ↦
        let (f, e, relayable, same, _, _, _) = build_flood_forward-room p self_key r long room in
        forwarded f e relayable (hash-SameMessage sha256 p f same message)
  ]

  direct_drop : starts_with_self p self_key ≡ false → build_direct_forward p self_key ≡ ok none
  unfolding build_direct_forward
  direct_drop other = ground arith

  direct-Relay : 0 < get_path_hash_count p → Relay sha256 p (build_direct_forward p self_key)
  direct-Relay routed = elim (Bool-cases (starts_with_self p self_key)) [
    | inl self ↦
        let (f, e, relayable, same, _, _, _) =
          build_direct_forward-next_hop p self_key r routed self in
        forwarded f e relayable (hash-SameMessage sha256 p f same message)
    | inr other ↦ dropped (direct_drop other)
  ]

  Relay-if :
      (b : Bool) (x y : Result (Option Packet))
      → (b ≡ true → Relay sha256 p x)
      → (b ≡ false → Relay sha256 p y)
      → Relay sha256 p (if b then x else y)
  Relay-if true x y hx hy = hx refl
  Relay-if false x y hx hy = hy refl

  no_trace : (b : Bool) → (b && get_payload_type p == 9) ≡ true → ⊥
  no_trace b h = ground (arith, &&-split b (get_payload_type p == 9) h, message)

  hops_left : (b : Bool) → (b && ltb 0 (get_path_hash_count p)) ≡ true → 0 < get_path_hash_count p
  hops_left b h = ground (arith, &&-split b (ltb 0 (get_path_hash_count p)) h)

  -- Of a packet that can be serialized and read and is no TRACE the dispatcher of a node, whose
  -- key has at least 3 bytes, makes either no forward or one that can be serialized and read and
  -- that has the packet's hash, by which every node that tracked the packet knows it as a
  -- duplicate; it never raises.
  pub forward-Relay :
      3 ≤ length self_key → Relay sha256 p (build_client_repeat_forward (some self_key) p)
  unfolding build_client_repeat_forward
  forward-Relay long =
      Relay-if _ _ _ (λ trace. absurd (no_trace (is_route_direct p) trace))
        (λ _.
          Relay-if _ _ _ (λ routed. direct-Relay (hops_left (is_route_direct p) routed))
            (λ _. Relay-if _ _ _ (λ _. flood-Relay long) (λ _. dropped refl)))
