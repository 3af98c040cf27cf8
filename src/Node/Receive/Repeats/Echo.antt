-- ===== src/Node/Receive/Repeats/Echo.antt =====
-- A forward of node/dispatcher.py that comes back over the air.
use openhop_core.Prelude.{
  ℕ, ◌+◌, ◌≤◌, ◌<◌, ◌≡◌, refl, sym, ap, ◌∙◌, ◌≢◌, inl, inr, true, false, Option, none, some, List,
  arith, Bool-cases, Option-cases, length, take,
}
use openhop_core.Prelude.Dict.{nat_key, bytes_key}
use openhop_core.Prelude.Outcome.{Result, ok}
use mathlib.Core.Path.{subst}
use openhop_core.Prelude.Int.{ℤ}
use openhop_core.Protocol.Filter.{PacketFilter, is_duplicate, is_blacklisted}
use openhop_core.Protocol.Hashing.{packet_hash}
use openhop_core.Protocol.Packet
use openhop_core.Protocol.Packet.{
  Packet, get_payload, get_payload_type, get_payload_ver, get_route_type, is_route_flood,
  is_route_direct,
}
use openhop_core.Protocol.PathLen.{is_path_at_max_hops}
use openhop_core.Protocol.Region.{RegionMap, capture_flood_match, capture_with, capture_recv_region}
use openhop_core.Protocol.Wire.{read_from, write_to}
use openhop_core.Protocol.Wire.RoundTrip.{received, read_from-write_to}
use openhop_core.Node.Forward.{is_transit_direct_not_next_hop, build_flood_forward}
use openhop_core.Node.Forward.Flood.{
  IsRelayable, SameMessage, build_flood_forward-room, build_flood_forward-full,
}
use openhop_core.Node.Forward.Whole.{hash-SameMessage}
use openhop_core.Node.Receive.{
  Config, ignored, generate_hash, process_parsed, stamped, process_received_packet,
}
use openhop_core.Node.Receive.Repeats.{Heard, listed-ignored, AllSince, run, duplicate_ignored}

abbrev SameWire : Packet → Packet → Type 0
SameWire p q =
    (q.header ≡ p.header)
    × (q.payload ≡ p.payload)
    × (q.payload_len ≡ p.payload_len)
    × (q.path_len ≡ p.path_len)

module _ (sha256 : List ℕ → List ℕ) (hmac : List ℕ → List ℕ → List ℕ) where
  capture_with-SameWire : (m : RegionMap) (p : Packet) → SameWire p (capture_with sha256 hmac m p)
  unfolding capture_with capture_flood_match
  capture_with-SameWire m p = ground arith

  stamped-SameWire :
      (cfg : Config) (rssi snr : ℤ) (p : Packet) → SameWire p (stamped sha256 hmac cfg rssi snr p)
  unfolding stamped capture_recv_region
  stamped-SameWire cfg rssi snr p = elim (Option-cases cfg.region_map) [
    | inl without_map ↦ rw (without_map) (refl, refl, refl, refl)
    | inr (m, with_map) ↦
        rw (with_map) (capture_with-SameWire m (record p { rssi = rssi; snr = snr }))
  ]

  hash-SameWire : (p q : Packet) → SameWire p q → packet_hash sha256 q ≡ packet_hash sha256 p
  unfolding packet_hash get_payload get_payload_type
  hash-SameWire p q (header, payload, payload_len, path_len) =
      rw (header) (rw (payload) (rw (payload_len) (rw (path_len) refl)))

flood-not_transit :
    (identity : Option (List ℕ)) (p : Packet)
    → is_route_flood p ≡ true
    → is_transit_direct_not_next_hop identity p ≡ false
unfolding is_transit_direct_not_next_hop is_route_flood is_route_direct get_route_type
flood-not_transit identity p h = ground (arith, h)

flood_of_header : (p q : Packet) → q.header ≡ p.header → is_route_flood q ≡ is_route_flood p
unfolding is_route_flood get_route_type
flood_of_header p q e = rw (e) refl

version_of_header : (p q : Packet) → q.header ≡ p.header → get_payload_ver q ≡ get_payload_ver p
unfolding get_payload_ver
version_of_header p q e = rw (e) refl

one_outcome : (f : Packet) (r : Result (Option Packet)) → r ≡ ok none → r ≡ ok (some f) → ⊥
one_outcome f r e e' = cc

-- What a flood forward keeps, and that a receiver can read it.
flood_forward :
    (p f : Packet) (self_key : List ℕ)
    → IsRelayable p
    → 3 ≤ length self_key
    → build_flood_forward p self_key ≡ ok (some f)
    → IsRelayable f × SameMessage p f
flood_forward p f self_key r long made = elim (Bool-cases (is_path_at_max_hops p.path_len)) [
  | inl full ↦ absurd (one_outcome f _ (build_flood_forward-full p self_key r.path_len full) made)
  | inr room ↦
      let (g, e, relayable, same, _, _, _) = build_flood_forward-room p self_key r long room in
      let equal = forward_injective (sym e ∙ made) in
      (subst IsRelayable equal relayable, subst (SameMessage p) equal same)
]
  where
    forward_injective : {a b : Packet} → ok (some a) ≡ ok (some b) → a ≡ b
    forward_injective e = cc

module _ (sha256 : List ℕ → List ℕ) (hmac : List ℕ → List ℕ → List ℕ) (cfg : Config) where
  parsed-ignored :
      (arrived later : ℕ) (rssi snr : ℤ) (frame : List ℕ) (q : Packet) (g : PacketFilter (List ℕ))
      → read_from frame Packet.init ≡ (ok true, q)
      → process_parsed sha256 hmac cfg later (stamped sha256 hmac cfg rssi snr q) g
        ≡ (ok ignored, g)
      → process_received_packet sha256 hmac cfg arrived later rssi snr frame g ≡ (ok ignored, g)
  unfolding process_received_packet
  parsed-ignored arrived later rssi snr frame q g reads skipped =
      elim (Bool-cases (is_blacklisted arrived (generate_hash sha256 hmac frame) g)) [
        | inl listed ↦ listed-ignored sha256 hmac cfg arrived later rssi snr frame g listed
        | inr unlisted ↦
            let outcome : (read_from frame Packet.init).0 ≡ ok true = ap (λ r. r.0) reads in
            let object : (read_from frame Packet.init).1 ≡ q = ap (λ r. r.1) reads in
            rw (unlisted) (rw (outcome) (rw (object) skipped))
      ]

  -- A node's own flood forward, heard back, is ignored: after a flood packet that can be sent and
  -- read was taken with a hash not seen lately, and whatever frames came since, the bytes of its
  -- forward are ignored until the window is over, with no handler run, nothing forwarded again and
  -- the filter unchanged. The packet is of version 0 and no TRACE, deduplication is on and the
  -- node's key has at least 3 bytes.
  pub echo_ignored :
      (held arrived later : ℕ) (rssi snr : ℤ) (p f : Packet) (self_key h frame : List ℕ)
      (between : List Heard) (t : PacketFilter (List ℕ))
      → cfg.dedupe_enabled ≡ true
      → 3 ≤ length self_key
      → IsRelayable p
      → get_payload_ver p ≡ 0
      → get_payload_type p ≢ 9
      → is_route_flood p ≡ true
      → packet_hash sha256 p ≡ ok h
      → build_flood_forward p self_key ≡ ok (some f)
      → write_to f ≡ ok frame
      → is_duplicate held (take 8 h) t ≡ false
      → AllSince sha256 hmac cfg held between
      → later < held + t.window_seconds
      → (let g = run sha256 hmac cfg between (process_parsed sha256 hmac cfg held p t).1 in
          process_received_packet sha256 hmac cfg arrived later rssi snr frame g ≡ (ok ignored, g))
  echo_ignored held arrived later rssi snr p f self_key h frame between t on long r version message
        flooded hashed made written fresh since soon =
      let g = run sha256 hmac cfg between (process_parsed sha256 hmac cfg held p t).1 in
      let (relayable, same) = flood_forward p f self_key r long made in
      let q = received Packet.init f in
      let echo = stamped sha256 hmac cfg rssi snr q in
      let wire = stamped-SameWire sha256 hmac cfg rssi snr q in
      let echo_hash : packet_hash sha256 echo ≡ ok h =
        hash-SameWire sha256 hmac q echo wire
        ∙ hash-SameWire sha256 hmac f q (refl, refl, refl, refl)
        ∙ hash-SameMessage sha256 p f same message
        ∙ hashed in
      let echo_flooded : is_route_flood echo ≡ true =
        flood_of_header q echo wire.0 ∙ flood_of_header p q same.header ∙ flooded in
      parsed-ignored arrived later rssi snr frame q g
        (read_from-write_to f Packet.init frame written
          (version_of_header p f same.header ∙ version) relayable.path_len)
        (duplicate_ignored sha256 hmac cfg held later p echo h h between t on hashed echo_hash refl
          (flood-not_transit cfg.local_identity p flooded)
          (flood-not_transit cfg.local_identity echo echo_flooded) fresh since soon)
