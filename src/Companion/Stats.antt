-- ===== src/Companion/Stats.antt =====
-- `StatsCollector` of `src/openhop_core/companion/stats_collector.py`, its clock's readings as
-- arguments in seconds, and the `PacketStats` of `companion/models.py`.
use openhop_core.Prelude.{
  ℕ, ◌+◌, ◌-◌, ◌≡◌, refl, Bool, true, false, List, [], ◌∷◌, arith, if◌then◌else◌,
}

pub record PacketStats : Type 0 where
  pub flood_tx : ℕ
  pub flood_rx : ℕ
  pub direct_tx : ℕ
  pub direct_rx : ℕ
  pub tx_errors : ℕ

pub record StatsCollector : Type 0 where
  pub packets : PacketStats
  pub start_time : ℕ

abbrev pub no_packets : PacketStats
no_packets = record { flood_tx = 0; flood_rx = 0; direct_tx = 0; direct_rx = 0; tx_errors = 0 }

unfoldable pub init : ℕ → StatsCollector
init now = record { packets = no_packets; start_time = now }

unfoldable pub record_tx : Bool → StatsCollector → StatsCollector
record_tx is_flood s =
    let p = s.packets in
    record s {
      packets =
          if is_flood
          then record p { flood_tx = p.flood_tx + 1 }
          else record p { direct_tx = p.direct_tx + 1 };
    }

unfoldable pub record_rx : Bool → StatsCollector → StatsCollector
record_rx is_flood s =
    let p = s.packets in
    record s {
      packets =
          if is_flood
          then record p { flood_rx = p.flood_rx + 1 }
          else record p { direct_rx = p.direct_rx + 1 };
    }

unfoldable pub record_tx_error : StatsCollector → StatsCollector
record_tx_error s =
    let p = s.packets in record s { packets = record p { tx_errors = p.tx_errors + 1 } }

unfoldable pub get_uptime_secs : ℕ → StatsCollector → ℕ
get_uptime_secs now s = now - s.start_time

pub record Totals : Type 0 where
  pub stats : PacketStats
  pub total_tx : ℕ
  pub total_rx : ℕ
  pub uptime_secs : ℕ

unfoldable pub get_totals : ℕ → StatsCollector → Totals
get_totals now s = record {
  stats = s.packets;
  total_tx = s.packets.flood_tx + s.packets.direct_tx;
  total_rx = s.packets.flood_rx + s.packets.direct_rx;
  uptime_secs = get_uptime_secs now s;
}

unfoldable pub reset : ℕ → StatsCollector → StatsCollector
reset now s = record { packets = no_packets; start_time = now }

-- What the radio reports to the collector, and when it is reset.
pub data Event : Type 0 where
  sent received : Bool → Event
  failed : Event
  restarted : ℕ → Event

unfoldable pub step : Event → StatsCollector → StatsCollector
step (sent b) s = record_tx b s
step (received b) s = record_rx b s
step failed s = record_tx_error s
step (restarted now) s = reset now s

-- The collector after events, the latest first.
unfoldable pub run : ℕ → List Event → StatsCollector
run now [] = init now
run now (e ∷ es) = step e (run now es)

-- How many events since the latest reset satisfy a test.
unfoldable pub since_reset : (Event → Bool) → List Event → ℕ
since_reset p [] = 0
since_reset p (restarted now ∷ es) = 0
since_reset p (e ∷ es) = (if p e then 1 else 0) + since_reset p es

unfoldable pub is_sent : Event → Bool
is_sent (sent b) = true
is_sent _ = false

unfoldable pub is_received : Event → Bool
is_received (received b) = true
is_received _ = false

unfoldable pub is_failed : Event → Bool
is_failed failed = true
is_failed _ = false

-- After any events, the totals are the numbers of packets sent, received and failed since the
-- latest reset.
pub get_totals-run :
    (now later : ℕ) (es : List Event)
    → ((get_totals later (run now es)).total_tx ≡ since_reset is_sent es)
      × ((get_totals later (run now es)).total_rx ≡ since_reset is_received es)
      × ((get_totals later (run now es)).stats.tx_errors ≡ since_reset is_failed es)
unfolding get_totals run step since_reset is_sent is_received is_failed record_tx record_rx
    record_tx_error reset init
get_totals-run now later [] = (refl, refl, refl)
get_totals-run now later (sent b ∷ es) = ground (arith, get_totals-run now later es)
get_totals-run now later (received b ∷ es) = ground (arith, get_totals-run now later es)
get_totals-run now later (failed ∷ es) = ground (arith, get_totals-run now later es)
get_totals-run now later (restarted t ∷ es) = (refl, refl, refl)
