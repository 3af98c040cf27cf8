-- ===== src/Tests/Region.antt =====
-- Regions, transport codes and the scope of a reply, with a hash and a MAC that can be computed.
use openhop_core.Prelude.{
  ℕ, ◌%◌, ◌≤◌, ◌≡◌, refl, true, false, some, none, List, [], ◌∷◌, ◌++◌, replicate, take,
}
use openhop_core.Prelude.Outcome.{ok, ◌>>=◌}
use openhop_core.Protocol.Constants.{route_type_flood}
use openhop_core.Protocol.Packet.{Packet, get_route_type}
use openhop_core.Protocol.Region.{
  RegionEntry, starts_with, is_ascii, stored_keys, get_auto_key_for, auto_keys, region_keys,
  first_key_for, scope_packet, find_match, choose_reply_scope, apply_reply_scope, FloodScope,
  apply_flood_scope,
}
use openhop_core.Protocol.Region.Match.{FirstAnswer, find_match-scope_packet}
use openhop_core.Protocol.Region.Reply.{unmark, is_some, reply_under, reply-choose_reply_scope}
use openhop_core.Tests.Samples.{text, toy_sha256, toy_sha256-long, toy_hmac, toy_hmac-digest}

-- The public region `usa`, and a private one.
abbrev usa : RegionEntry
usa = record { id = 1; parent = 0; flags = 0; name = 117 ∷ 115 ∷ 97 ∷ []; private_keys = none }

abbrev club : RegionEntry
club = record {
  id = 2;
  parent = 0;
  flags = 0;
  name = 36 ∷ 99 ∷ [];
  private_keys = some (replicate 16 3 ∷ []);
}

abbrev wildcard : RegionEntry
wildcard = record { id = 0; parent = 0; flags = 0; name = 42 ∷ []; private_keys = none }

abbrev usa_key : List ℕ
usa_key = take 16 (toy_sha256 (35 ∷ 117 ∷ 115 ∷ 97 ∷ []))

usa_first : first_key_for toy_sha256 (some usa) ≡ some usa_key
unfolding first_key_for region_keys stored_keys starts_with auto_keys get_auto_key_for is_ascii
usa_first = refl

find_match-scope_packet_example :
    (q : Packet) × (scope_packet toy_hmac usa_key text ≡ ok q)
    × (q.header % 4 ≡ 0)
    × (r : RegionEntry) × (find_match toy_sha256 toy_hmac
          (record { regions = (club ∷ []) ++ usa ∷ []; wildcard = wildcard })
          q
        ≡ some r)
    × (before : ℕ) × (before ≤ 1)
    × FirstAnswer toy_sha256 toy_hmac q ((club ∷ []) ++ usa ∷ []) r before
find_match-scope_packet_example =
    find_match-scope_packet toy_sha256 toy_sha256-long toy_hmac toy_hmac-digest (club ∷ []) []
      wildcard usa usa_key text usa_first refl

-- A request captured under `usa`.
abbrev request : Packet
request = record text { recv_region_captured = true; recv_region_key = some usa_key }

abbrev scope : FloodScope
scope = record {
  flood_unscoped = false;
  flood_transport_key = none;
  default_flood_transport_key = some (replicate 16 9);
}

text_flood : get_route_type text ≡ route_type_flood
unfolding get_route_type
text_flood = refl

reply-choose_reply_scope_example :
    unmark (apply_reply_scope toy_hmac text (some request) >>= apply_flood_scope toy_hmac scope)
    ≡ unmark (
        reply_under toy_hmac
          (choose_reply_scope
            (is_some request.recv_region_key)
            false
            (is_some scope.default_flood_transport_key))
          request.recv_region_key
          scope.default_flood_transport_key
          text)
reply-choose_reply_scope_example =
    reply-choose_reply_scope toy_hmac text request scope refl text_flood refl refl refl
