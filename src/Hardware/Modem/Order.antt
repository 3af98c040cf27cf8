-- ===== src/Hardware/Modem/Order.antt =====
-- The order in which the modem's data frames in hardware/kiss_modem_wrapper.py reach the callback.
use openhop_core.Prelude.{
  ℕ, suc, ◌+◌, ◌/◌, ◌%◌, ◌≤◌, ◌<◌, ◌≡◌, refl, sym, ap, ◌∙◌, ◌⊎◌, inl, inr, Bool, true, false, ◌&&◌,
  Option, none, List, [], ◌∷◌, ◌++◌, map, arith, if◌then◌else◌, ltb, leb, ◌==◌, ==_iff, Bool-cases,
  length, length-append,
}
use mathlib.Core.List.{map-append}
use openhop_core.Prelude.Int.{ℤ}
use openhop_core.Hardware.Modem.{
  max_pending_rx_frames, rx_meta_wait, Modem, Delivery, on_data, deliver_oldest, on_rx_meta,
  on_tx_done, on_response, on_error, on_hardware, process_received_frame, expired_prefix,
  flush_expired_rx_frames,
}

-- What the receive thread does: a frame, or a look at the deadlines, at a time.
pub data Event : Type 0 where
  frame : ℕ → List ℕ → Event
  flush : ℕ → Event

unfoldable pub step : Event → Modem → Modem × List Delivery
step (frame now bytes) s = process_received_frame now bytes s
step (flush now) s = flush_expired_rx_frames now s

unfoldable pub run : List Event → Modem → Modem × List Delivery
run [] s = (s, [])
run (e ∷ es) s = let (t, out) = step e s in let (u, more) = run es t in (u, out ++ more)

-- The packet in a data frame of port 0.
unfoldable pub packets_of : Event → List (List ℕ)
packets_of (flush now) = []
packets_of (frame now []) = []
packets_of (frame now (type_byte ∷ body)) = if type_byte % 256 == 0 then body ∷ [] else []

unfoldable pub data_packets : List Event → List (List ℕ)
data_packets [] = []
data_packets (e ∷ es) = packets_of e ++ data_packets es

abbrev pub payloads : List Delivery → List (List ℕ)
payloads = map (λ d. d.payload)

abbrev pub waiting : Modem → List (List ℕ)
waiting s = map (λ entry. entry.0) s.pending_rx

-- A step hands over some of the packets that wait, oldest first, and puts new ones behind.
abbrev IsOrdered : Modem → List (List ℕ) → Modem × List Delivery → Type 0
IsOrdered s new (t, out) = payloads out ++ waiting t ≡ waiting s ++ new

append_nil : (xs : List (List ℕ)) → xs ++ [] ≡ xs
append_nil [] = refl
append_nil (x ∷ xs) = ap (◌∷◌ x) (append_nil xs)

append_assoc : (xs ys zs : List (List ℕ)) → (xs ++ ys) ++ zs ≡ xs ++ (ys ++ zs)
append_assoc [] ys zs = refl
append_assoc (x ∷ xs) ys zs = ap (◌∷◌ x) (append_assoc xs ys zs)

-- The packets that wait are those of another state.
unmoved : (s t : Modem) → t.pending_rx ≡ s.pending_rx → IsOrdered s [] (t, [])
unmoved s t e = ap (map (λ entry. entry.0)) e ∙ sym (append_nil (waiting s))

length-map : {A B : Type 0} (f : A → B) (xs : List A) → length (map f xs) ≡ length xs
length-map f [] = refl
length-map f (x ∷ xs) = ap suc (length-map f xs)

pub queue-cases :
    (queue : List (List ℕ × ℕ))
    → (queue ≡ [])
      ⊎ ((payload : List ℕ) × (deadline : ℕ) × (rest : List (List ℕ × ℕ)) × (queue
            ≡ (payload, deadline) ∷ rest))
queue-cases [] = inl refl
queue-cases ((payload, deadline) ∷ rest) = inr (payload, deadline, rest, refl)

deliver_oldest-order :
    (metrics : Option (ℤ × ℤ)) (t : Modem)
    → payloads (deliver_oldest metrics t).1 ++ waiting (deliver_oldest metrics t).0 ≡ waiting t
unfolding deliver_oldest
deliver_oldest-order metrics t = elim (queue-cases t.pending_rx) [
  | inl empty ↦ rw (deliver_oldest, empty) (ap (map (λ entry. entry.0)) empty)
  | inr (payload, deadline, rest, filled) ↦ rw (deliver_oldest, filled) refl
]

deliver_oldest-IsOrdered :
    (metrics : Option (ℤ × ℤ)) (s t : Modem)
    → t.pending_rx ≡ s.pending_rx
    → IsOrdered s [] (deliver_oldest metrics t)
deliver_oldest-IsOrdered metrics s t same = deliver_oldest-order metrics t ∙ unmoved s t same

expired_prefix-order :
    (now : ℕ) (queue : List (List ℕ × ℕ))
    → (let (kept, flushed) = expired_prefix now queue in
        payloads flushed ++ map (λ entry. entry.0) kept)
      ≡ map (λ entry. entry.0) queue
unfolding expired_prefix
expired_prefix-order now [] = refl
expired_prefix-order now ((payload, deadline) ∷ rest) = elim (Bool-cases (ltb now deadline)) [
  | inl early ↦ rw (early) refl
  | inr late ↦ rw (late) (ap (◌∷◌ payload) (expired_prefix-order now rest))
]

on_response-unmoved :
    (sub_cmd : ℕ) (payload : List ℕ) (s : Modem)
    → (on_response sub_cmd payload s).pending_rx ≡ s.pending_rx
unfolding on_response
on_response-unmoved sub_cmd payload s = ground arith

on_error-unmoved : (payload : List ℕ) (s : Modem) → (on_error payload s).pending_rx ≡ s.pending_rx
unfolding on_error
on_error-unmoved [] s = on_response-unmoved 0xF1 [] s
on_error-unmoved (code ∷ rest) s =
    ground (arith, on_response-unmoved 0xF1 (code ∷ rest) (record s { errors = s.errors + 1 }))

on_tx_done-unmoved :
    (payload : List ℕ) (s : Modem) → (on_tx_done payload s).pending_rx ≡ s.pending_rx
unfolding on_tx_done
on_tx_done-unmoved [] s = refl
on_tx_done-unmoved (code ∷ rest) s = refl

on_rx_meta-IsOrdered :
    (payload : List ℕ) (s t : Modem)
    → t.pending_rx ≡ s.pending_rx
    → IsOrdered s [] (on_rx_meta payload t)
unfolding on_rx_meta
on_rx_meta-IsOrdered [] s t same = deliver_oldest-IsOrdered none s t same
on_rx_meta-IsOrdered (a ∷ []) s t same = deliver_oldest-IsOrdered none s t same
on_rx_meta-IsOrdered (a ∷ b ∷ rest) s t same =
    deliver_oldest-IsOrdered _ s (record t { rx_packets = t.rx_packets + 1 }) same

on_hardware-IsOrdered :
    (body : List ℕ) (s t : Modem)
    → t.pending_rx ≡ s.pending_rx
    → IsOrdered s [] (on_hardware body t)
unfolding on_hardware
on_hardware-IsOrdered [] s t same = unmoved s t same
on_hardware-IsOrdered (sub_cmd ∷ payload) s t same =
    by_cases (sub_cmd == 0xF9) _ _ (on_rx_meta-IsOrdered payload s t same) (
      by_cases (sub_cmd == 0xF8) _ _
        (unmoved s (on_tx_done payload t) (on_tx_done-unmoved payload t ∙ same))
        (by_cases (sub_cmd == 0xF1) _ _
          (unmoved s (on_error payload t) (on_error-unmoved payload t ∙ same))
          (unmoved s (on_response sub_cmd payload t)
            (on_response-unmoved sub_cmd payload t ∙ same))))
  where
    by_cases :
        (b : Bool) (x y : Modem × List Delivery)
        → IsOrdered s [] x
        → IsOrdered s [] y
        → IsOrdered s [] (if b then x else y)
    by_cases true x y hx hy = hx
    by_cases false x y hx hy = hy

-- Room for the packets of an event, and of all events.
abbrev HasRoom : List (List ℕ) → Modem → Type 0
HasRoom new s = length s.pending_rx + length new ≤ max_pending_rx_frames

leb_above : (n m : ℕ) → m < n → leb n m ≡ false
leb_above n m h = ground arith

-- The type byte of a data frame of port 0 is 0.
data_type : (n : ℕ) → (n % 256 == 0) ≡ (n / 16 % 16 == 0) && (n % 16 == 0)
data_type n = ground (arith, ==_iff (n % 256) 0, ==_iff (n / 16 % 16) 0, ==_iff (n % 16) 0)

on_data-IsOrdered :
    (now : ℕ) (payload : List ℕ) (s t : Modem)
    → t.pending_rx ≡ s.pending_rx
    → HasRoom (payload ∷ []) s
    → IsOrdered s (payload ∷ []) (on_data now payload t, [])
unfolding on_data
on_data-IsOrdered now payload s t same room =
    let short : leb max_pending_rx_frames (length t.pending_rx) ≡ false =
      leb_above max_pending_rx_frames (length t.pending_rx) (omega (arith, room, ap length same)) in
    let queued : (on_data now payload t).pending_rx
        ≡ t.pending_rx ++ (payload, now + rx_meta_wait) ∷ [] =
      rw (on_data, short) refl in
    ap (map (λ entry. entry.0)) queued
    ∙ map-append (λ entry. entry.0) t.pending_rx ((payload, now + rx_meta_wait) ∷ [])
    ∙ ap (λ queue. map (λ entry. entry.0) queue ++ payload ∷ []) same

process-IsOrdered :
    (now : ℕ) (bytes : List ℕ) (s : Modem)
    → HasRoom (packets_of (frame now bytes)) s
    → IsOrdered s (packets_of (frame now bytes)) (process_received_frame now bytes s)
unfolding process_received_frame packets_of
process-IsOrdered now [] s room = unmoved s s refl
process-IsOrdered now (type_byte ∷ body) s room =
    let counted = record s {
      frames_received = s.frames_received + 1;
      bytes_received = s.bytes_received + length body;
    } in
    elim (Bool-cases (type_byte / 16 % 16 == 0)) [
      | inr elsewhere ↦
          let other : (type_byte % 256 == 0) ≡ false = data_type type_byte ∙ rw (elsewhere) refl in
          rw (process_received_frame, packets_of, elsewhere, other) (unmoved s s refl)
      | inl port ↦ elim (Bool-cases (type_byte % 16 == 0)) [
        | inl plain ↦
            let typed : (type_byte % 256 == 0) ≡ true =
              data_type type_byte ∙ rw (port) (rw (plain) refl) in
            let one : packets_of (frame now (type_byte ∷ body)) ≡ body ∷ [] =
              rw (packets_of, typed) refl in
            rw (process_received_frame, packets_of, port, plain, typed)
              (on_data-IsOrdered now body s counted refl (omega (arith, room, ap length one)))
        | inr command ↦
            let other : (type_byte % 256 == 0) ≡ false =
              data_type type_byte ∙ rw (port) (rw (command) refl) in
            elim (Bool-cases (type_byte % 16 == 0x06)) [
              | inl hardware ↦
                  rw (process_received_frame, packets_of, port, command, hardware, other)
                    (on_hardware-IsOrdered body s counted refl)
              | inr unknown ↦
                  rw (process_received_frame, packets_of, port, command, unknown, other)
                    (unmoved s counted refl)
            ]
      ]
    ]

flush-IsOrdered : (now : ℕ) (s : Modem) → IsOrdered s [] (flush_expired_rx_frames now s)
unfolding flush_expired_rx_frames
flush-IsOrdered now s = expired_prefix-order now s.pending_rx ∙ sym (append_nil (waiting s))

step-IsOrdered :
    (e : Event) (s : Modem) → HasRoom (packets_of e) s → IsOrdered s (packets_of e) (step e s)
unfolding step packets_of
step-IsOrdered (frame now bytes) s room = process-IsOrdered now bytes s room
step-IsOrdered (flush now) s room = flush-IsOrdered now s

-- Packets reach the callback in the order of their data frames, each once: after any frames and
-- flushes for whose packets there is room in the queue of 64, those handed over and those that wait
-- are together the ones that waited before and the packets of the data frames, in this order, none
-- missing and none twice, whatever metrics, errors and responses came in between.
pub run-IsOrdered :
    (es : List Event) (s : Modem)
    → length s.pending_rx + length (data_packets es) ≤ max_pending_rx_frames
    → (let (t, out) = run es s in payloads out ++ waiting t ≡ waiting s ++ data_packets es)
unfolding run data_packets
run-IsOrdered [] s room = sym (append_nil (waiting s))
run-IsOrdered (e ∷ es) s room =
    let t = (step e s).0 in
    let out = (step e s).1 in
    let ordered =
      step-IsOrdered e s (omega (arith, room, length-append (packets_of e) (data_packets es))) in
    let size : length out + length t.pending_rx ≡ length s.pending_rx + length (packets_of e) =
      omega (
        arith,
        ap length ordered,
        length-append (payloads out) (waiting t),
        length-append (waiting s) (packets_of e),
        length-map (λ (d : Delivery). d.payload) out,
        length-map (λ (entry : List ℕ × ℕ). entry.0) t.pending_rx,
        length-map (λ (entry : List ℕ × ℕ). entry.0) s.pending_rx,
      ) in
    let rest =
      run-IsOrdered es t
        (omega (arith, room, size, length-append (packets_of e) (data_packets es))) in
    let more = (run es t).1 in
    let left = waiting (run es t).0 in
    ap (λ front. front ++ left) (map-append (λ d. d.payload) out more)
    ∙ append_assoc (payloads out) (payloads more) left
    ∙ ap (λ tail. payloads out ++ tail) rest
    ∙ sym (append_assoc (payloads out) (waiting t) (data_packets es))
    ∙ ap (λ front. front ++ data_packets es) ordered
    ∙ append_assoc (waiting s) (packets_of e) (data_packets es)
