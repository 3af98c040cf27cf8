-- ===== src/Protocol/Region.antt =====
-- Transport codes and regions: `src/openhop_core/protocol/transport_keys.py` and
-- `protocol/region_map.py`, with `Dispatcher._apply_flood_scope` of `node/dispatcher.py`. SHA-256
-- and HMAC-SHA256 are parameters. `find_match` is modelled with the one mask that the code passes,
-- `REGION_DENY_FLOOD`. A name is a list of code points; those of a text that `encode("ascii")`
-- refuses are 128 and above.
use openhop_core.Prelude.{
  ℕ, suc, ◌+◌, ◌-◌, ◌/◌, ◌%◌, ◌≤◌, ◌<◌, ◌≡◌, refl, sym, ap, ◌∙◌, ◌≢◌, ◌↔◌, ◌⊎◌, inl, inr, Bool,
  true, false, not, ◌&&◌, ◌||◌, Option, none, some, List, [], ◌∷◌, ◌++◌, map, arith, if◌then◌else◌,
  ltb, leb, ltb→lt, lt→ltb, leb→le, ◌==◌, ==_iff, ==_refl, Bool-cases, Option-cases, length,
  length-append, get_elem?, get_or, set, take, drop, take-append,
}
use openhop_core.Prelude.Bytes.{from_le}
use openhop_core.Prelude.Outcome.{
  Error, value_error, struct_error, Result, ok, raise, ◌>>=◌, ◌>>◌, raise_if,
}
use openhop_core.Protocol.Constants.{route_type_flood, route_type_transport_flood}
use openhop_core.Protocol.Packet.{
  Packet, get_route_type, get_payload_type, get_payload, has_transport_codes,
}
pub mod Codes
pub mod Keys
pub mod Match
pub mod Reply

-- `#` and `$`
abbrev pub hash_sign : ℕ
hash_sign = 35

abbrev pub dollar_sign : ℕ
dollar_sign = 36

pub record RegionEntry : Type 0 where
  pub id : ℕ
  pub parent : ℕ
  pub flags : ℕ
  pub name : List ℕ
  pub private_keys : Option (List (List ℕ))

unfoldable pub is_wildcard : RegionEntry → Bool
is_wildcard e = e.id == 0

pub record RegionMap : Type 0 where
  pub regions : List RegionEntry
  pub wildcard : RegionEntry

unfoldable pub add_region : RegionEntry → RegionMap → RegionMap
add_region e m = record m { regions = m.regions ++ e ∷ [] }

unfoldable pub extend : List RegionEntry → RegionMap → RegionMap
extend es m = record m { regions = m.regions ++ es }

-- `flags & REGION_DENY_FLOOD`
unfoldable pub denies_flood : RegionEntry → Bool
denies_flood e = e.flags % 2 == 1

unfoldable pub starts_with : ℕ → List ℕ → Bool
starts_with c [] = false
starts_with c (d ∷ ds) = d == c

unfoldable pub is_ascii : List ℕ → Bool
is_ascii [] = true
is_ascii (c ∷ cs) = ltb c 128 && is_ascii cs

-- The keys of 16 bytes.
unfoldable pub usable : List (List ℕ) → List (List ℕ)
usable [] = []
usable (k ∷ ks) = if length k == 16 then k ∷ usable ks else usable ks

-- `private_keys or ()`
unfoldable pub stored_keys : RegionEntry → List (List ℕ)
stored_keys e = elim e.private_keys [ none ↦ [] | some ks ↦ ks ]

module _ (sha256 : List ℕ → List ℕ) where
  unfoldable pub get_auto_key_for : List ℕ → Result (List ℕ)
  get_auto_key_for name =
      let canonical = if starts_with hash_sign name then name else hash_sign ∷ name in
      do
        raise_if (length name == 0) value_error
        raise_if (ltb 64 (length canonical)) value_error
        raise_if (not (is_ascii canonical)) value_error
        ok (take 16 (sha256 canonical))

  -- The key that the generator computes from a public name; a name that is refused has none.
  unfoldable pub auto_keys : List ℕ → List (List ℕ)
  auto_keys name =
      let canonical = if starts_with hash_sign name then name else hash_sign ∷ name in
      elim (get_auto_key_for canonical) [ ok k ↦ k ∷ [] | raise e ↦ [] ]

  -- What `_iter_region_keys` yields.
  unfoldable pub region_keys : RegionEntry → List (List ℕ)
  region_keys e =
      if starts_with dollar_sign e.name
      then usable (stored_keys e)
      else if not (length (stored_keys e) == 0)
      then usable (stored_keys e)
      else if length e.name == 0
      then []
      else auto_keys e.name

  unfoldable pub first_key_for : Option RegionEntry → Option (List ℕ)
  first_key_for none = none
  first_key_for (some e) = elim (region_keys e) [ [] ↦ none | k ∷ ks ↦ some k ]

-- The codes 0 and 0xFFFF are reserved.
unfoldable pub reserve : ℕ → ℕ
reserve code = if code == 0 then 1 else if code == 0xFFFF then 0xFFFE else code

module _ (hmac : List ℕ → List ℕ → List ℕ) where
  -- `struct.unpack("<H", …)` raises unless there are two bytes.
  unfoldable pub calc_transport_code : List ℕ → Packet → Result ℕ
  calc_transport_code key p =
      let digest = take 2 (hmac key (get_payload_type p ∷ get_payload p)) in
      do
        raise_if (not (length key == 16)) value_error
        raise_if (not (length digest == 2)) struct_error
        ok (reserve (from_le digest))

  unfoldable pub scope_packet : List ℕ → Packet → Result Packet
  scope_packet key p = do
    code ← calc_transport_code key p
    ok (record p {
      transport_code_0 = code;
      transport_code_1 = 0;
      header = p.header - p.header % 4 + route_type_transport_flood;
    })

  -- Some key gives the packet's code; a key that raises is passed over.
  unfoldable pub some_key_matches : List (List ℕ) → Packet → Bool
  some_key_matches [] p = false
  some_key_matches (k ∷ ks) p =
      let rest = some_key_matches ks p in
      elim (calc_transport_code k p) [
        | ok expected ↦ if expected == p.transport_code_0 then true else rest
        | raise e ↦ rest
      ]

-- A capture that reached a decision.
unfoldable pub is_decided : Packet → Bool
is_decided p =
    p.recv_region_captured
    && (elim p.recv_region_key [ none ↦ p.recv_region_unscoped | some k ↦ true ])

module _ (sha256 : List ℕ → List ℕ) (hmac : List ℕ → List ℕ → List ℕ) where
  -- The loop of `find_match`.
  unfoldable pub first_match : List RegionEntry → Packet → Option RegionEntry
  first_match [] p = none
  first_match (e ∷ es) p =
      let rest = first_match es p in
      if denies_flood e
      then rest
      else if some_key_matches hmac (region_keys sha256 e) p
      then some e
      else rest

  unfoldable pub find_match : RegionMap → Packet → Option RegionEntry
  find_match m p =
      if has_transport_codes p && not (p.transport_code_0 == 0)
      then first_match m.regions p
      else none

  unfoldable pub capture_flood_match : Option RegionEntry → Packet → Packet
  capture_flood_match e p =
      if elim e [ none ↦ false | some r ↦ is_wildcard r ]
      then record p { recv_region_key = none; recv_region_unscoped = true }
      else record p { recv_region_key = first_key_for sha256 e }

  unfoldable pub capture_with : RegionMap → Packet → Packet
  capture_with m p =
      let p' = record p { recv_region_captured = true; recv_region_unscoped = false } in
      if is_decided p
      then p
      else if get_route_type p' == route_type_transport_flood
      then capture_flood_match (find_match m p') p'
      else if get_route_type p' == route_type_flood
      then record p' {
        recv_region_key = none;
        recv_region_unscoped = not (denies_flood m.wildcard);
      }
      else record p' { recv_region_key = none }

  unfoldable pub capture_recv_region : Option RegionMap → Packet → Packet
  capture_recv_region none p = p
  capture_recv_region (some m) p = capture_with m p

pub data ReplyScope : Type 0 where
  scope_request scope_default scope_none : ReplyScope

unfoldable pub choose_reply_scope : Bool → Bool → Bool → ReplyScope
choose_reply_scope request_scope_known request_was_unscoped_flood default_scope_known =
    if request_scope_known
    then scope_request
    else if request_was_unscoped_flood
    then scope_none
    else if default_scope_known
    then scope_default
    else scope_none

module _ (hmac : List ℕ → List ℕ → List ℕ) where
  -- Row 1: the reply takes the request's key.
  unfoldable pub reply_with_key : List ℕ → Packet → Result Packet
  reply_with_key key reply = do
    scoped ←
        if get_route_type reply == route_type_flood then scope_packet hmac key reply else ok reply
    ok (record scoped { flood_scope_applied = true })

  -- Rows 2 to 4.
  unfoldable pub reply_without_key : Packet → Packet → Packet
  reply_without_key reply request =
      if request.recv_region_unscoped then record reply { flood_scope_applied = true } else reply

  unfoldable pub apply_reply_scope : Packet → Option Packet → Result Packet
  apply_reply_scope reply none = ok reply
  apply_reply_scope reply (some request) =
      if not request.recv_region_captured then ok reply else elim request.recv_region_key [
        | some key ↦ reply_with_key key reply
        | none ↦ ok (reply_without_key reply request)
      ]

-- The dispatcher's fields that choose a scope when it sends.
pub record FloodScope : Type 0 where
  pub flood_unscoped : Bool
  pub flood_transport_key : Option (List ℕ)
  pub default_flood_transport_key : Option (List ℕ)

module _ (hmac : List ℕ → List ℕ → List ℕ) where
  -- `Dispatcher._apply_flood_scope`
  unfoldable pub apply_flood_scope : FloodScope → Packet → Result Packet
  apply_flood_scope c p =
      if p.flood_scope_applied
      then ok p
      else if not (get_route_type p == route_type_flood)
      then ok p
      else if c.flood_unscoped
      then ok p
      else elim c.flood_transport_key [
        | some key ↦ scope_packet hmac key p
        | none ↦ elim c.default_flood_transport_key [
          | none ↦ ok p
          | some key ↦ scope_packet hmac key p
        ]
      ]
