-- ===== src/Hardware/Modem/Bounds.antt =====
-- The bounds of the modem's two queues in hardware/kiss_modem_wrapper.py.
use openhop_core.Prelude.{
  ℕ, ◌+◌, ◌≤◌, ap, inl, inr, Option, none, List, [], ◌∷◌, arith, length, length-append, drop,
  length-drop,
}
use openhop_core.Prelude.Int.{ℤ}
use openhop_core.Hardware.Modem.{
  max_pending_rx_frames, max_responses, Modem, append_response, on_response, on_error, on_tx_done,
  on_rx_meta, deliver_oldest, on_data, on_hardware, process_received_frame, expired_prefix,
  flush_expired_rx_frames,
}
use openhop_core.Hardware.Modem.Order.{Event, frame, flush, step, run, queue-cases}

-- Both queues are within their limits.
pub record IsBounded (s : Modem) : Type 0 where
  pub packets : length s.pending_rx ≤ max_pending_rx_frames
  pub responses : length s.response_queue ≤ max_responses

length-append_response :
    (r : ℕ × List ℕ) (queue : List (ℕ × List ℕ))
    → length queue ≤ max_responses
    → length (append_response r queue) ≤ max_responses
unfolding append_response
length-append_response r queue h = ground (
  arith,
  h,
  length-append queue (r ∷ []),
  length-append (drop 1 queue) (r ∷ []),
  length-drop 1 queue,
)

on_response-IsBounded :
    (sub_cmd : ℕ) (payload : List ℕ) (s : Modem)
    → IsBounded s
    → IsBounded (on_response sub_cmd payload s)
unfolding on_response
on_response-IsBounded sub_cmd payload s b =
    ground (arith, b, length-append_response (sub_cmd, payload) s.response_queue)

on_error-IsBounded : (payload : List ℕ) (s : Modem) → IsBounded s → IsBounded (on_error payload s)
unfolding on_error
on_error-IsBounded [] s b = on_response-IsBounded 0xF1 [] s b
on_error-IsBounded (code ∷ rest) s b =
    ground (arith, b, on_response-IsBounded 0xF1 (code ∷ rest) (record s { errors = s.errors + 1 }))

on_tx_done-IsBounded :
    (payload : List ℕ) (s : Modem) → IsBounded s → IsBounded (on_tx_done payload s)
unfolding on_tx_done
on_tx_done-IsBounded [] s b = record { packets = b.packets; responses = b.responses }
on_tx_done-IsBounded (code ∷ rest) s b = record { packets = b.packets; responses = b.responses }

deliver_oldest-IsBounded :
    (metrics : Option (ℤ × ℤ)) (s : Modem) → IsBounded s → IsBounded (deliver_oldest metrics s).0
unfolding deliver_oldest
deliver_oldest-IsBounded metrics s b = elim (queue-cases s.pending_rx) [
  | inl empty ↦ rw (deliver_oldest, empty) b
  | inr (payload, deadline, rest, filled) ↦
      rw (deliver_oldest, filled)
        (record { packets = omega (arith, b.packets, ap length filled); responses = b.responses })
]

on_rx_meta-IsBounded :
    (payload : List ℕ) (s : Modem) → IsBounded s → IsBounded (on_rx_meta payload s).0
unfolding on_rx_meta
on_rx_meta-IsBounded [] s b = deliver_oldest-IsBounded none s b
on_rx_meta-IsBounded (x ∷ []) s b = deliver_oldest-IsBounded none s b
on_rx_meta-IsBounded (x ∷ y ∷ rest) s b =
    deliver_oldest-IsBounded _ (record s { rx_packets = s.rx_packets + 1 })
      (record { packets = b.packets; responses = b.responses })

on_data-IsBounded :
    (now : ℕ) (payload : List ℕ) (s : Modem) → IsBounded s → IsBounded (on_data now payload s)
unfolding on_data
on_data-IsBounded now payload s b =
    ground (arith, b, length-append s.pending_rx ((payload, now + 25) ∷ []))

on_hardware-IsBounded : (body : List ℕ) (s : Modem) → IsBounded s → IsBounded (on_hardware body s).0
unfolding on_hardware
on_hardware-IsBounded [] s b = b
on_hardware-IsBounded (sub_cmd ∷ payload) s b = ground (
  arith,
  on_rx_meta-IsBounded payload s b,
  on_tx_done-IsBounded payload s b,
  on_error-IsBounded payload s b,
  on_response-IsBounded sub_cmd payload s b,
)

length-expired_prefix :
    (now : ℕ) (queue : List (List ℕ × ℕ)) → length (expired_prefix now queue).0 ≤ length queue
unfolding expired_prefix
length-expired_prefix now [] = omega arith
length-expired_prefix now ((payload, deadline) ∷ rest) =
    ground (arith, length-expired_prefix now rest)

step-IsBounded : (e : Event) (s : Modem) → IsBounded s → IsBounded (step e s).0
unfolding step process_received_frame flush_expired_rx_frames
step-IsBounded (flush now) s b = record {
  packets = omega (arith, b.packets, length-expired_prefix now s.pending_rx);
  responses = b.responses;
}
step-IsBounded (frame now []) s b = b
step-IsBounded (frame now (type_byte ∷ body)) s b =
    let counted = record s {
      frames_received = s.frames_received + 1;
      bytes_received = s.bytes_received + length body;
    } in
    let same : IsBounded counted = record { packets = b.packets; responses = b.responses } in
    ground (
      arith,
      b,
      same,
      on_data-IsBounded now body counted same,
      on_hardware-IsBounded body counted same,
    )

-- Whatever the modem sends, at most 64 packets and at most 32 responses are kept: any frames and
-- flushes leave the queues within these limits, if they were within them.
pub run-IsBounded : (es : List Event) (s : Modem) → IsBounded s → IsBounded (run es s).0
unfolding run
run-IsBounded [] s b = b
run-IsBounded (e ∷ es) s b = run-IsBounded es (step e s).0 (step-IsBounded e s b)
