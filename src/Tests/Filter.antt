-- ===== src/Tests/Filter.antt =====
-- The dedup tables with numbers for hashes.
use openhop_core.Prelude.{ℕ, ◌≡◌, refl, [], ◌∷◌, arith}
use openhop_core.Prelude.Dict.{nat_key, contains}
use openhop_core.Protocol.Filter.{
  PacketFilter, is_duplicate, is_blacklisted, track_packet, cleanup_old_hashes,
}
use openhop_core.Protocol.Filter.Blacklist.{IsSound, Reached, track, start, then_, Reached-IsSound}
use openhop_core.Protocol.Filter.Expiry.{cleanup-unobservable}

abbrev fresh_filter : PacketFilter ℕ
fresh_filter = record { window_seconds = 30; packet_hashes = []; blacklist = [] }

abbrev filter : PacketFilter ℕ
filter = record {
  window_seconds = 30;
  packet_hashes = (7, 100) ∷ (8, 120) ∷ [];
  blacklist = (9, 90) ∷ [];
}

filter-IsSound : IsSound filter
unfolding contains
filter-IsSound = record {
  bounded = omega arith;
  distinct_hashes = (refl, (refl, tt));
  distinct_blacklist = (refl, tt);
}

tracked : Reached 30 (track_packet 100 7 fresh_filter)
tracked = then_ start (track 100 7 fresh_filter)

Reached-IsSound_example : IsSound (track_packet 100 7 fresh_filter)
Reached-IsSound_example = Reached-IsSound 30 (track_packet 100 7 fresh_filter) tracked

cleanup-unobservable_example :
    (is_duplicate 135 8 (cleanup_old_hashes 131 filter) ≡ is_duplicate 135 8 filter)
    × (is_blacklisted 135 8 (cleanup_old_hashes 131 filter) ≡ is_blacklisted 135 8 filter)
cleanup-unobservable_example = cleanup-unobservable 131 135 8 filter filter-IsSound (omega arith)
