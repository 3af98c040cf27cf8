-- ===== src/Node/Receive.antt =====
-- `Dispatcher._process_received_packet` and `_dispatch` (node/dispatcher.py). The handlers and
-- SHA-256 and HMAC-SHA256 are arguments. A handler leaves the packet as it marked it, and says
-- whether it authenticated it; one that raises is one that says no. The clock is read on arrival and
-- again after the reception delay, and a frame
-- is one step, with no other frame handled during its delay. Subscribers, logging and the radio's id are not modelled.
use openhop_core.Prelude.{
  ℕ, zero, suc, ◌+◌, ◌-◌, ◌*◌, ◌/◌, ◌%◌, ◌≤◌, ◌<◌, ◌≡◌, refl, sym, ap, ◌∙◌, ◌≢◌, ◌↔◌, ◌⊎◌, inl, inr,
  Bool, true, false, not, ◌&&◌, ◌||◌, Option, none, some, List, [], ◌∷◌, ◌++◌, map, arith,
  if◌then◌else◌, ltb, leb, ltb→lt, lt→ltb, leb→le, ◌==◌, ==_iff, ==_refl, Bool-cases, Option-cases,
  &&-split, length, length-append, get_elem?, get_or, set, take, drop, replicate, All, min,
  length-take, length-drop, take-append, drop-append, take_of_length-le, take-append-drop,
  length-replicate, All-append, All-take, All-drop, take-take,
}
use openhop_core.Prelude.Dict.{
  Eq, nat_key, bytes_key, Dict, lookup, contains, insert, remove, move_to_end, IsDistinct,
  lookup-remove, lookup-insert, lookup-append, contains-remove, contains-insert, contains-append,
  length-remove-le, length-remove, remove_absent, length-insert, remove-IsDistinct,
  insert-IsDistinct, append-IsDistinct,
}
use openhop_core.Prelude.Outcome.{
  Error, value_error, index_error, overflow_error, struct_error, Result, ok, raise, ◌>>=◌, ◌>>◌,
  raise_if, Result-cases, >>=-eq-ok,
}
use openhop_core.Prelude.Int.{ℤ}
use openhop_core.Protocol.Filter.{
  PacketFilter, is_duplicate, track_packet, add_blacklist, is_blacklisted,
}
use openhop_core.Protocol.Hashing.{packet_hash}
use openhop_core.Protocol.Packet
use openhop_core.Protocol.Packet.{
  Packet, get_payload_type, get_path_hash_count, is_route_direct, is_route_flood,
  mark_do_not_retransmit,
}
use openhop_core.Protocol.Region.{RegionMap, capture_recv_region}
use openhop_core.Protocol.Wire.{read_from}
use openhop_core.Node.Forward.{is_transit_direct_not_next_hop, build_client_repeat_forward}
pub mod Repeats

pub record Config : Type 0 where
  pub local_identity : Option (List ℕ)
  pub dedupe_enabled : Bool
  pub client_repeat_enabled : Bool
  pub region_map : Option RegionMap
  pub local_delivery_types : List ℕ
  pub handlers : ℕ → Option (Packet → Packet × Bool)

-- What comes of a frame: the packet as the handler left it, if one ran, and the forward to send.
pub record Reception : Type 0 where
  pub handled : Option Packet
  pub forward : Option Packet

abbrev pub ignored : Reception
ignored = record { handled = none; forward = none }

unfoldable pub has_type : ℕ → List ℕ → Bool
has_type t [] = false
has_type t (u ∷ us) = if u == t then true else has_type t us

unfoldable pub is_transit_direct_delivery : List ℕ → Packet → Bool
is_transit_direct_delivery local_delivery_types p =
    if not (has_type (get_payload_type p) local_delivery_types)
    then false
    else is_route_direct p && ltb 0 (get_path_hash_count p)

-- The packet after `_dispatch`, and the handler's packet if it ran.
unfoldable pub dispatch : Config → Packet → Packet × Option Packet
dispatch cfg p = elim (cfg.handlers (get_payload_type p)) [
  | none ↦ (p, none)
  | some handler ↦
      let (q, authenticated) = handler p in
      let left = if authenticated then mark_do_not_retransmit q else q in
      if is_transit_direct_delivery cfg.local_delivery_types p then (p, none) else (left, some left)
]

-- `forward_pkt.is_route_flood() and pkt.is_marked_do_not_retransmit()`
unfoldable pub kept_forward : Option Packet → Packet → Option Packet
kept_forward none p = none
kept_forward (some f) p = if is_route_flood f && p.do_not_retransmit then none else some f

-- From the client-repeat branch to the end.
unfoldable pub process_fresh : Config → Packet → Result Reception
process_fresh cfg p = do
  forward_pkt ←
      if cfg.client_repeat_enabled
      then build_client_repeat_forward cfg.local_identity p
      else ok none
  let after = dispatch cfg p
  ok (record { handled = after.1; forward = kept_forward forward_pkt after.0 })

module _ (sha256 : List ℕ → List ℕ) (hmac : List ℕ → List ℕ → List ℕ) where
  -- `hexdigest()[:16]` stands for 8 bytes.
  unfoldable pub generate_hash : List ℕ → List ℕ
  generate_hash raw = take 8 (sha256 raw)

  -- From the packet's hash on.
  unfoldable pub process_parsed :
      Config → ℕ → Packet → PacketFilter (List ℕ) → Result Reception × PacketFilter (List ℕ)
  process_parsed cfg held p f = elim (packet_hash sha256 p) [
    | raise e ↦ (raise e, f)
    | ok h ↦
        if is_transit_direct_not_next_hop cfg.local_identity p
        then (process_fresh cfg p, f)
        else if cfg.dedupe_enabled && is_duplicate held (take 8 h) f
        then (ok ignored, f)
        else (process_fresh cfg p, track_packet held (take 8 h) f)
  ]

  unfoldable pub stamped : Config → ℤ → ℤ → Packet → Packet
  stamped cfg rssi snr p =
      capture_recv_region sha256 hmac cfg.region_map (record p { rssi = rssi; snr = snr })

  unfoldable pub process_received_packet :
      Config
      → ℕ
      → ℕ
      → ℤ
      → ℤ
      → List ℕ
      → PacketFilter (List ℕ)
      → Result Reception × PacketFilter (List ℕ)
  process_received_packet cfg arrived held rssi snr frame f =
      let raw_hash = generate_hash frame in
      let parsed = read_from frame Packet.init in
      if is_blacklisted arrived raw_hash f then (ok ignored, f) else elim parsed.0 [
        | raise e ↦ (ok ignored, add_blacklist arrived raw_hash f)
        | ok b ↦ process_parsed cfg held (stamped cfg rssi snr parsed.1) f
      ]
