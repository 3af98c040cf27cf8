-- ===== src/Hardware/Modem.antt =====
-- What `KissModemWrapper` (hardware/kiss_modem_wrapper.py) does with decoded frames:
-- `_process_received_frame`, `_flush_expired_rx_frames`, `_clear_pending_rx` and the response queue of
-- `_send_command`. Each lock holds one call's state change, so a call is one step. Times are ticks of
-- 10 milliseconds; the SNR is in quarters of a decibel, and metrics that are `none` are the -999 values.
use openhop_core.Prelude.{
  ℕ, zero, suc, ◌+◌, ◌-◌, ◌*◌, ◌/◌, ◌%◌, ◌≤◌, ◌<◌, ◌≡◌, refl, sym, ap, ◌∙◌, ◌≢◌, ◌↔◌, ◌⊎◌, inl, inr,
  Bool, true, false, not, ◌&&◌, ◌||◌, Option, none, some, List, [], ◌∷◌, ◌++◌, map, arith,
  if◌then◌else◌, ltb, leb, ltb→lt, lt→ltb, leb→le, ◌==◌, ==_iff, ==_refl, Bool-cases, Option-cases,
  &&-split, length, length-append, get_elem?, get_or, set, take, drop, replicate, All, min,
  length-take, length-drop, take-append, drop-append, take_of_length-le, take-append-drop,
  length-replicate, All-append, All-take, All-drop, take-take,
}
use openhop_core.Prelude.Int.{ℤ, pos, negsuc}
pub mod Order
pub mod Responses
pub mod Bounds

abbrev pub max_pending_rx_frames : ℕ
max_pending_rx_frames = 64

-- `RX_META_WAIT_SECONDS = 0.25`
abbrev pub rx_meta_wait : ℕ
rx_meta_wait = 25

abbrev pub max_responses : ℕ
max_responses = 32

pub record Modem : Type 0 where
  pub pending_rx : List (List ℕ × ℕ)
  pub tx_done : Bool
  pub tx_done_result : Option Bool
  pub tx_busy_seen : Bool
  pub expected : Option (List ℕ)
  pub pending_response : Option (ℕ × List ℕ)
  pub response_event : Bool
  pub response_queue : List (ℕ × List ℕ)
  pub frames_received : ℕ
  pub bytes_received : ℕ
  pub frame_errors : ℕ
  pub rx_packets : ℕ
  pub tx_packets : ℕ
  pub errors : ℕ
  pub tx_busy : ℕ

-- A packet for the callback, with its RSSI and SNR.
pub record Delivery : Type 0 where
  pub payload : List ℕ
  pub metrics : Option (ℤ × ℤ)

-- A byte as a signed number.
unfoldable pub signed : ℕ → ℤ
signed b = if ltb 127 b then negsuc (255 - b) else pos b

unfoldable pub on_data : ℕ → List ℕ → Modem → Modem
on_data now payload s =
    if leb max_pending_rx_frames (length s.pending_rx)
    then record s { frame_errors = s.frame_errors + 1 }
    else record s { pending_rx = s.pending_rx ++ (payload, now + rx_meta_wait) ∷ [] }

-- `popleft()[0] if self._pending_rx_queue else None`, handed to the callback.
unfoldable pub deliver_oldest : Option (ℤ × ℤ) → Modem → Modem × List Delivery
deliver_oldest metrics s = elim s.pending_rx [
  | [] ↦ (s, [])
  | (payload, deadline) ∷ rest ↦
      (record s { pending_rx = rest }, record { payload = payload; metrics = metrics } ∷ [])
]

unfoldable pub on_rx_meta : List ℕ → Modem → Modem × List Delivery
on_rx_meta (snr_raw ∷ rssi_raw ∷ _) s =
    deliver_oldest (some (signed rssi_raw, signed snr_raw))
      (record s { rx_packets = s.rx_packets + 1 })
on_rx_meta payload s = deliver_oldest none s

unfoldable pub on_tx_done : List ℕ → Modem → Modem
on_tx_done [] s = record s { tx_done = true }
on_tx_done (code ∷ _) s = record s {
  tx_done = true;
  tx_done_result = some (code == 1);
  tx_packets = s.tx_packets + 1;
}

unfoldable pub among : ℕ → List ℕ → Bool
among x [] = false
among x (y ∷ ys) = if y == x then true else among x ys

-- `append` on a `deque(maxlen=32)`
unfoldable pub append_response : ℕ × List ℕ → List (ℕ × List ℕ) → List (ℕ × List ℕ)
append_response r queue =
    if leb max_responses (length queue) then drop 1 queue ++ r ∷ [] else queue ++ r ∷ []

-- The waiting command takes what it expects; the rest is queued.
unfoldable pub on_response : ℕ → List ℕ → Modem → Modem
on_response sub_cmd payload s =
    if elim s.expected [ none ↦ false | some subcmds ↦ among sub_cmd subcmds ]
    then record s { pending_response = some (sub_cmd, payload); response_event = true }
    else record s { response_queue = append_response (sub_cmd, payload) s.response_queue }

-- A busy modem decides nothing: the code is only recorded.
unfoldable pub on_error : List ℕ → Modem → Modem
on_error [] s = on_response 0xF1 [] s
on_error (code ∷ rest) s =
    let counted = record s { errors = s.errors + 1 } in
    if code == 0x07
    then record counted { tx_busy = s.tx_busy + 1; tx_busy_seen = true }
    else on_response 0xF1 (code ∷ rest) counted

unfoldable pub on_hardware : List ℕ → Modem → Modem × List Delivery
on_hardware [] s = (s, [])
on_hardware (sub_cmd ∷ payload) s =
    if sub_cmd == 0xF9
    then on_rx_meta payload s
    else if sub_cmd == 0xF8
    then (on_tx_done payload s, [])
    else if sub_cmd == 0xF1
    then (on_error payload s, [])
    else (on_response sub_cmd payload s, [])

unfoldable pub process_received_frame : ℕ → List ℕ → Modem → Modem × List Delivery
process_received_frame now [] s = (s, [])
process_received_frame now (type_byte ∷ body) s =
    let counted = record s {
      frames_received = s.frames_received + 1;
      bytes_received = s.bytes_received + length body;
    } in
    if not (type_byte / 16 % 16 == 0)
    then (s, [])
    else if type_byte % 16 == 0x00
    then (on_data now body counted, [])
    else if type_byte % 16 == 0x06
    then on_hardware body counted
    else (counted, [])

-- The loop over the queue's head, on the queue.
unfoldable pub expired_prefix : ℕ → List (List ℕ × ℕ) → List (List ℕ × ℕ) × List Delivery
expired_prefix now [] = ([], [])
expired_prefix now ((payload, deadline) ∷ rest) =
    let (kept, flushed) = expired_prefix now rest in
    if ltb now deadline
    then ((payload, deadline) ∷ rest, [])
    else (kept, record { payload = payload; metrics = none } ∷ flushed)

unfoldable pub flush_expired_rx_frames : ℕ → Modem → Modem × List Delivery
flush_expired_rx_frames now s =
    let (kept, flushed) = expired_prefix now s.pending_rx in
    (record s { pending_rx = kept; rx_packets = s.rx_packets + length flushed }, flushed)

unfoldable pub clear_pending_rx : Modem → Modem
clear_pending_rx s = record s { pending_rx = [] }

-- One round of `_send_command` over the queued responses: pop, and keep as the match or append.
unfoldable pub scan_queued :
    ℕ → List ℕ → List (ℕ × List ℕ) → Option (ℕ × List ℕ) → Option (ℕ × List ℕ) × List (ℕ × List ℕ)
scan_queued zero acceptable queue matched = (matched, queue)
scan_queued (suc n) acceptable [] matched = (matched, [])
scan_queued (suc n) acceptable (r ∷ queue) none =
    if among r.0 acceptable
    then scan_queued n acceptable queue (some r)
    else scan_queued n acceptable (queue ++ r ∷ []) none
scan_queued (suc n) acceptable (r ∷ queue) (some m) =
    scan_queued n acceptable (queue ++ r ∷ []) (some m)
