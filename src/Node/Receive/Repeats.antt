-- ===== src/Node/Receive/Repeats.antt =====
-- Frames heard more than once: the filter over a history of receptions in node/dispatcher.py.
use openhop_core.Prelude.{
  ℕ, zero, suc, ◌+◌, ◌-◌, ◌*◌, ◌/◌, ◌%◌, ◌≤◌, ◌<◌, ◌≡◌, refl, sym, ap, ◌∙◌, ◌≢◌, ◌↔◌, ◌⊎◌, inl, inr,
  Bool, true, false, not, ◌&&◌, ◌||◌, Option, none, some, List, [], ◌∷◌, ◌++◌, map, arith,
  if◌then◌else◌, ltb, leb, ltb→lt, lt→ltb, leb→le, ◌==◌, ==_iff, ==_refl, Bool-cases, Option-cases,
  &&-split, length, length-append, get_elem?, get_or, set, take, drop, replicate, All, min,
  length-take, length-drop, take-append, drop-append, take_of_length-le, take-append-drop,
  length-replicate, All-append, All-take, All-drop, take-take,
}
use openhop_core.Prelude.Dict.{
  Eq, nat_key, bytes_key, Dict, lookup, contains, insert, remove, move_to_end, IsDistinct,
  lookup-remove, lookup-insert, lookup-append, contains-remove, contains-insert, contains-append,
  length-remove-le, length-remove, remove_absent, length-insert, remove-IsDistinct,
  insert-IsDistinct, append-IsDistinct,
}
use openhop_core.Prelude.Outcome.{
  Error, value_error, index_error, overflow_error, struct_error, Result, ok, raise, ◌>>=◌, ◌>>◌,
  raise_if, Result-cases, >>=-eq-ok,
}
use openhop_core.Prelude.Bytes.{bytes_eq_refl}
use openhop_core.Prelude.Int.{ℤ}
use openhop_core.Protocol.Filter.{
  PacketFilter, blacklist_max_entries, blacklist_ttl_seconds, is_within, is_duplicate, track_packet,
  store_newest, add_blacklist, is_blacklisted, pop_oldest,
}
use openhop_core.Protocol.Filter.Blacklist.{IsSound}
use openhop_core.Protocol.Filter.Expiry.{is_blacklisted-add_blacklist, lookup-store_newest}
use openhop_core.Protocol.Hashing.{packet_hash}
use openhop_core.Protocol.Packet
use openhop_core.Protocol.Packet.{Packet}
use openhop_core.Protocol.Wire.{read_from}
use openhop_core.Node.Forward.{is_transit_direct_not_next_hop}
use openhop_core.Node.Receive.{
  Config, Reception, ignored, process_fresh, generate_hash, process_parsed, stamped,
  process_received_packet,
}
pub mod Echo

-- A frame with the clock's two readings and the radio's values.
pub record Heard : Type 0 where
  pub arrived : ℕ
  pub held : ℕ
  pub rssi : ℤ
  pub snr : ℤ
  pub frame : List ℕ

-- The entry of the key lasts until the deadline.
unfoldable pub is_seen : List ℕ → ℕ → PacketFilter (List ℕ) → Bool
is_seen key deadline f = elim (lookup key f.packet_hashes) [
  | none ↦ false
  | some at ↦ leb deadline (at + f.window_seconds)
]

room_left :
    (k : List ℕ) (f : PacketFilter (List ℕ))
    → length f.blacklist < blacklist_max_entries
    → contains k f.blacklist || ltb (length f.blacklist) blacklist_max_entries ≡ true
room_left k f room = ground (arith, room)

longer : (k : List ℕ) → k ≢ 0 ∷ k
longer k e = absurd (omega (arith, ap length e))

tracked-is_seen :
    (now deadline : ℕ) (k key : List ℕ) (f : PacketFilter (List ℕ))
    → deadline ≤ now + f.window_seconds
    → is_seen key deadline f ≡ true
    → is_seen key deadline (track_packet now k f) ≡ true
unfolding is_seen track_packet
tracked-is_seen now deadline k key f late h =
    ground (arith, late, h, lookup-insert k key now f.packet_hashes)

track-is_seen :
    (now : ℕ) (key : List ℕ) (f : PacketFilter (List ℕ))
    → is_seen key (now + f.window_seconds) (track_packet now key f) ≡ true
unfolding is_seen track_packet
track-is_seen now key f =
    ground (arith, lookup-insert key key now f.packet_hashes, bytes_eq_refl key)

track-window :
    (now : ℕ) (key : List ℕ) (f : PacketFilter (List ℕ))
    → (track_packet now key f).window_seconds ≡ f.window_seconds
unfolding track_packet
track-window now key f = refl

is_seen-is_duplicate :
    (later deadline : ℕ) (key : List ℕ) (f : PacketFilter (List ℕ))
    → later < deadline
    → is_seen key deadline f ≡ true
    → is_duplicate later key f ≡ true
unfolding is_seen is_duplicate is_within
is_seen-is_duplicate later deadline key f short h =
    elim (Option-cases (lookup key f.packet_hashes)) [
      | inl absent ↦ ground (arith, h, absent)
      | inr (at, found) ↦ ground (arith, h, short, found)
    ]

both : (a b : Bool) → a ≡ true → b ≡ true → a && b ≡ true
both a b h k = ground (arith, h, k)

module _ (sha256 : List ℕ → List ℕ) (hmac : List ℕ → List ℕ → List ℕ) (cfg : Config) where
  pub listed-ignored :
      (arrived held : ℕ) (rssi snr : ℤ) (frame : List ℕ) (f : PacketFilter (List ℕ))
      → is_blacklisted arrived (generate_hash sha256 hmac frame) f ≡ true
      → process_received_packet sha256 hmac cfg arrived held rssi snr frame f ≡ (ok ignored, f)
  unfolding process_received_packet
  listed-ignored arrived held rssi snr frame f listed = rw (listed) refl

  malformed-listed :
      (arrived held : ℕ) (rssi snr : ℤ) (frame : List ℕ) (f : PacketFilter (List ℕ)) (err : Error)
      → (read_from frame Packet.init).0 ≡ raise err
      → is_blacklisted arrived (generate_hash sha256 hmac frame) f ≡ false
      → process_received_packet sha256 hmac cfg arrived held rssi snr frame f
        ≡ (ok ignored, add_blacklist arrived (generate_hash sha256 hmac frame) f)
  unfolding process_received_packet
  malformed-listed arrived held rssi snr frame f err malformed unlisted =
      rw (unlisted) (rw (malformed) refl)

  -- A frame that does not parse is not handled again: where the filter is bounded with no key twice,
  -- does not blacklist the frame and has room in its list, the frame is ignored and its hash is listed
  -- with the time of its arrival; and whenever it arrives within the 300 seconds after, it is
  -- blacklisted still, it is ignored, and nothing changes.
  pub malformed_frame_again :
      (arrived held later later_held : ℕ) (rssi snr rssi' snr' : ℤ) (frame : List ℕ)
      (f : PacketFilter (List ℕ)) (err : Error)
      → IsSound f
      → (read_from frame Packet.init).0 ≡ raise err
      → is_blacklisted arrived (generate_hash sha256 hmac frame) f ≡ false
      → length f.blacklist < blacklist_max_entries
      → later < arrived + 300
      → (g : PacketFilter (List ℕ)) × (process_received_packet sha256 hmac cfg arrived held rssi snr
            frame f
          ≡ (ok (record { handled = none; forward = none }), g))
        × (lookup (take 8 (sha256 frame)) g.blacklist ≡ some arrived)
        × (is_blacklisted later (take 8 (sha256 frame)) g ≡ true)
        × (process_received_packet sha256 hmac cfg later later_held rssi' snr' frame g
            ≡ (ok (record { handled = none; forward = none }), g))
  unfolding generate_hash add_blacklist
  malformed_frame_again arrived held later later_held rssi snr rssi' snr' frame f err sound
        malformed unlisted room soon =
      let raw_hash = generate_hash sha256 hmac frame in
      let g = add_blacklist arrived raw_hash f in
      let listed : is_blacklisted later raw_hash g ≡ true =
        (is_blacklisted-add_blacklist arrived later raw_hash (0 ∷ raw_hash) f sound
          (longer raw_hash) (room_left raw_hash f room)).0
        ∙ lt→ltb later (arrived + blacklist_ttl_seconds) soon in
      (
        g,
        malformed-listed arrived held rssi snr frame f err malformed unlisted,
        lookup-store_newest blacklist_max_entries arrived raw_hash raw_hash f.blacklist
              (omega arith) sound.bounded
            ∙ ap
                (λ b.
                  if b
                  then some arrived
                  else if contains raw_hash f.blacklist
                      || ltb (length f.blacklist) blacklist_max_entries
                  then lookup raw_hash f.blacklist
                  else lookup raw_hash (pop_oldest f.blacklist))
                (bytes_eq_refl raw_hash),
        listed,
        listed-ignored later later_held rssi' snr' frame g listed,
      )

  -- A reception keeps what was seen, and the length of the window.
  abbrev Keeps : List ℕ → ℕ → PacketFilter (List ℕ) → PacketFilter (List ℕ) → Type 0
  Keeps key deadline f g = (is_seen key deadline g ≡ true) × (g.window_seconds ≡ f.window_seconds)

  parsed-Keeps :
      (held deadline : ℕ) (p : Packet) (key : List ℕ) (f : PacketFilter (List ℕ))
      → deadline ≤ held + f.window_seconds
      → is_seen key deadline f ≡ true
      → Keeps key deadline f (process_parsed sha256 hmac cfg held p f).1
  unfolding process_parsed track_packet
  parsed-Keeps held deadline p key f late h = elim (Result-cases (packet_hash sha256 p)) [
    | inr (err, failed) ↦ rw (process_parsed, failed) (h, refl)
    | inl (k, hashed) ↦ elim (Bool-cases (is_transit_direct_not_next_hop cfg.local_identity p)) [
      | inl overheard ↦ rw (process_parsed, hashed) (rw (overheard) (h, refl))
      | inr mine ↦ elim (Bool-cases (cfg.dedupe_enabled && is_duplicate held (take 8 k) f)) [
        | inl dup ↦ rw (process_parsed, hashed) (rw (mine) (rw (dup) (h, refl)))
        | inr fresh ↦
            rw (process_parsed, hashed)
              (rw (mine) (rw (fresh) (tracked-is_seen held deadline (take 8 k) key f late h, refl)))
      ]
    ]
  ]

  process-Keeps :
      (arrived held deadline : ℕ) (rssi snr : ℤ) (frame key : List ℕ) (f : PacketFilter (List ℕ))
      → deadline ≤ held + f.window_seconds
      → is_seen key deadline f ≡ true
      → Keeps key deadline f
          (process_received_packet sha256 hmac cfg arrived held rssi snr frame f).1
  unfolding process_received_packet add_blacklist is_seen
  process-Keeps arrived held deadline rssi snr frame key f late h =
      elim (Bool-cases (is_blacklisted arrived (generate_hash sha256 hmac frame) f)) [
        | inl listed ↦ rw (listed) (h, refl)
        | inr unlisted ↦ elim (Result-cases (read_from frame Packet.init).0) [
          | inr (err, malformed) ↦ rw (unlisted) (rw (malformed) (h, refl))
          | inl (b, parsed) ↦ rw (unlisted) (
              rw (parsed) (
                parsed-Keeps held deadline
                  (stamped sha256 hmac cfg rssi snr (read_from frame Packet.init).1) key f late h))
        ]
      ]

  unfoldable pub run : List Heard → PacketFilter (List ℕ) → PacketFilter (List ℕ)
  run [] f = f
  run (x ∷ xs) f =
      run xs (process_received_packet sha256 hmac cfg x.arrived x.held x.rssi x.snr x.frame f).1

  -- Every frame is taken no earlier than a time.
  abbrev pub AllSince : ℕ → List Heard → Type 0
  AllSince start = All (λ x. start ≤ x.held)

  run-Keeps :
      (start window : ℕ) (xs : List Heard) (key : List ℕ) (f : PacketFilter (List ℕ))
      → AllSince start xs
      → f.window_seconds ≡ window
      → is_seen key (start + window) f ≡ true
      → is_seen key (start + window) (run xs f) ≡ true
  unfolding run
  run-Keeps start window [] key f since same h = h
  run-Keeps start window (x ∷ xs) key f (one, since) same h =
      let g = (process_received_packet sha256 hmac cfg x.arrived x.held x.rssi x.snr x.frame f).1 in
      let (kept, window_kept) =
        process-Keeps x.arrived x.held (start + window) x.rssi x.snr x.frame key f
          (omega (arith, one, same)) h in
      run-Keeps start window xs key g since (window_kept ∙ same) kept

  seen-ignored :
      (later : ℕ) (q : Packet) (h : List ℕ) (g : PacketFilter (List ℕ))
      → packet_hash sha256 q ≡ ok h
      → is_transit_direct_not_next_hop cfg.local_identity q ≡ false
      → (cfg.dedupe_enabled && is_duplicate later (take 8 h) g) ≡ true
      → process_parsed sha256 hmac cfg later q g ≡ (ok ignored, g)
  unfolding process_parsed
  seen-ignored later q h g hashed mine skip =
      rw (process_parsed, hashed) (rw (mine) (rw (skip) refl))

  -- A packet is handled once: after a packet with a hash not seen lately is taken, whatever frames
  -- come in between, a packet with the same hash that is taken before the window is over is
  -- ignored, with no handler run, nothing forwarded and the filter unchanged. Deduplication is on,
  -- and neither packet is a routed-direct one for another node.
  pub duplicate_ignored :
      (held later : ℕ) (p q : Packet) (h h' : List ℕ) (between : List Heard)
      (f : PacketFilter (List ℕ))
      → cfg.dedupe_enabled ≡ true
      → packet_hash sha256 p ≡ ok h
      → packet_hash sha256 q ≡ ok h'
      → take 8 h' ≡ take 8 h
      → is_transit_direct_not_next_hop cfg.local_identity p ≡ false
      → is_transit_direct_not_next_hop cfg.local_identity q ≡ false
      → is_duplicate held (take 8 h) f ≡ false
      → AllSince held between
      → later < held + f.window_seconds
      → (let g = run between (process_parsed sha256 hmac cfg held p f).1 in
          process_parsed sha256 hmac cfg later q g ≡ (ok ignored, g))
  unfolding process_parsed
  duplicate_ignored held later p q h h' between f on hashed hashed' same mine mine' fresh since
        soon =
      let first : (process_parsed sha256 hmac cfg held p f).1 ≡ track_packet held (take 8 h) f =
        rw (process_parsed, hashed) (rw (mine) (rw (on) (rw (fresh) refl))) in
      let g = run between (track_packet held (take 8 h) f) in
      let seen : is_seen (take 8 h) (held + f.window_seconds) g ≡ true =
        run-Keeps held f.window_seconds between (take 8 h) (track_packet held (take 8 h) f) since
          (track-window held (take 8 h) f) (track-is_seen held (take 8 h) f) in
      let dup = is_seen-is_duplicate later (held + f.window_seconds) (take 8 h) g soon seen in
      rw (first) (
        seen-ignored later q h' g hashed' mine'
          (both cfg.dedupe_enabled _ on (ap (λ k. is_duplicate later k g) same ∙ dup)))
