-- ===== src/Tests/Modem.antt =====
-- Frames of the modem, its responses, and the airtime budget.
use openhop_core.Prelude.{◌+◌, ◌-◌, ◌*◌, ◌≤◌, ◌≡◌, refl, false, none, List, [], ◌∷◌, ◌++◌, arith}
use openhop_core.Hardware.Modem.{Modem, scan_queued}
use openhop_core.Hardware.Modem.Order.{
  Event, frame, flush, run, payloads, waiting, data_packets, packets_of, run-IsOrdered,
}
use openhop_core.Hardware.Modem.Responses.{first_accepted, without_first, scan_queued_lem}
use openhop_core.Hardware.Modem.Bounds.{IsBounded, run-IsBounded}
use openhop_core.Node.Airtime
use openhop_core.Node.Airtime.{reset_tx_budget, tx_budget_wait, refill_tx_budget, max_of}
use openhop_core.Node.Airtime.Limit.{Sending, IsAdmitted, total_airtime, admitted_airtime}

abbrev idle : Modem
idle = record {
  pending_rx = [];
  tx_done = false;
  tx_done_result = none;
  tx_busy_seen = false;
  expected = none;
  pending_response = none;
  response_event = false;
  response_queue = [];
  frames_received = 0;
  bytes_received = 0;
  frame_errors = 0;
  rx_packets = 0;
  tx_packets = 0;
  errors = 0;
  tx_busy = 0;
}

-- Two packets, metrics for the first, an error, and a flush after the deadline.
abbrev events : List Event
events =
    frame 0 (0 ∷ 1 ∷ 2 ∷ [])
    ∷ frame 1 (0 ∷ 3 ∷ [])
    ∷ frame 2 (6 ∷ 0xF9 ∷ 40 ∷ 180 ∷ [])
    ∷ frame 3 (6 ∷ 0xF1 ∷ 7 ∷ [])
    ∷ flush 30
    ∷ []

run-IsOrdered_example :
    payloads (run events idle).1 ++ waiting (run events idle).0 ≡ data_packets events
unfolding data_packets packets_of
run-IsOrdered_example = run-IsOrdered events idle (omega arith)

run-IsBounded_example : IsBounded (run events idle).0
run-IsBounded_example =
    run-IsBounded events idle (record { packets = omega arith; responses = omega arith })

scan_queued_lem_example :
    scan_queued 3 (0x91 ∷ []) ((0x80, []) ∷ (0x91, 1 ∷ []) ∷ (0x92, []) ∷ []) none ≡ (
      first_accepted (0x91 ∷ []) ((0x80, []) ∷ (0x91, 1 ∷ []) ∷ (0x92, []) ∷ []),
      without_first (0x91 ∷ []) ((0x80, []) ∷ (0x91, 1 ∷ []) ∷ (0x92, []) ∷ []),
    )
scan_queued_lem_example =
    scan_queued_lem (0x91 ∷ []) ((0x80, []) ∷ (0x91, 1 ∷ []) ∷ (0x92, []) ∷ [])

abbrev one_sending : Sending
one_sending = record { checked = 5; airtime = 900; sent = 1000 }

one_sending-IsAdmitted : IsAdmitted 2 2000 one_sending (reset_tx_budget 0)
unfolding tx_budget_wait refill_tx_budget max_of reset_tx_budget
one_sending-IsAdmitted = record {
  admitted = refl;
  within = omega arith;
  forward = omega arith;
  then_sent = omega arith;
}

admitted_airtime_example :
    2 * total_airtime (one_sending ∷ [])
    ≤ 2
      * (3600000
          + ((Airtime.Limit.run 2 2000 (one_sending ∷ []) (reset_tx_budget 0)).last_update - 0))
admitted_airtime_example = admitted_airtime 2 2000 0 (one_sending ∷ []) (one_sending-IsAdmitted, tt)
