-- ===== src/Node/Acks.antt =====
-- The ACK waiters of `Dispatcher` (src/openhop_core/node/dispatcher.py): `expect_ack`,
-- `_discard_ack_waiter`, `_register_ack_received`, and the pruning step of `run_forever`. An
-- `asyncio.Event` is an object with an identity: a number that `next_event` hands out, and `fired`
-- lists those that are set. The clock's reading is an argument, in seconds.
use openhop_core.Prelude.{
  ℕ, zero, suc, ◌+◌, ◌-◌, ◌*◌, ◌/◌, ◌%◌, ◌≤◌, ◌<◌, ◌≡◌, refl, sym, ap, ◌∙◌, ◌≢◌, ◌↔◌, ◌⊎◌, inl, inr,
  Bool, true, false, not, ◌&&◌, ◌||◌, Option, none, some, List, [], ◌∷◌, ◌++◌, map, arith,
  if◌then◌else◌, ltb, leb, ltb→lt, lt→ltb, leb→le, ◌==◌, ==_iff, ==_refl, Bool-cases, Option-cases,
  &&-split, length, length-append, get_elem?, get_or, set, take, drop, replicate, All, min,
  length-take, length-drop, take-append, drop-append, take_of_length-le, take-append-drop,
  length-replicate, All-append, All-take, All-drop, take-take,
}
use openhop_core.Prelude.Dict.{
  Eq, nat_key, bytes_key, Dict, lookup, contains, insert, remove, move_to_end, IsDistinct,
  lookup-remove, lookup-insert, lookup-append, contains-remove, contains-insert, contains-append,
  length-remove-le, length-remove, remove_absent, length-insert, remove-IsDistinct,
  insert-IsDistinct, append-IsDistinct,
}
pub mod Wakeup
pub mod Handler

pub record Acks : Type 0 where
  pub waiting : Dict ℕ (List ℕ)
  pub recent : Dict ℕ ℕ
  pub fired : List ℕ
  pub next_event : ℕ

abbrev pub init : Acks
init = record { waiting = []; recent = []; fired = []; next_event = 0 }

-- The events that wait for a CRC.
unfoldable pub waiters : ℕ → Acks → List ℕ
waiters crc s = elim (lookup crc s.waiting) [ none ↦ [] | some ws ↦ ws ]

-- The event is appended to the list under the CRC, and set at once if the ACK came already.
unfoldable pub expect_ack : ℕ → Acks → ℕ × Acks
expect_ack crc s =
    let event = s.next_event in
    (
      event,
      record s {
        waiting = insert crc (waiters crc s ++ event ∷ []) s.waiting;
        fired = if contains crc s.recent then event ∷ s.fired else s.fired;
        next_event = suc event;
      },
    )

-- `del waiters[index]` at the first waiter that is the event.
unfoldable pub without : ℕ → List ℕ → List ℕ
without event [] = []
without event (w ∷ ws) = let rest = without event ws in if w == event then ws else w ∷ rest

unfoldable pub discard_ack_waiter : ℕ → ℕ → Acks → Acks
discard_ack_waiter crc event s = elim (lookup crc s.waiting) [
  | none ↦ s
  | some ws ↦
      let rest = without event ws in
      if length rest == 0
      then record s { waiting = remove crc s.waiting }
      else record s { waiting = insert crc rest s.waiting }
]

-- What `_register_ack_received` does before it asks the application's listener.
unfoldable pub register_ack_received : ℕ → ℕ → Acks → Acks
register_ack_received now crc s = record s {
  recent = insert crc now s.recent;
  waiting = remove crc s.waiting;
  fired = waiters crc s ++ s.fired;
}

-- `{crc: ts for crc, ts in ... if now - ts < 5}`
unfoldable pub keep_recent : ℕ → Dict ℕ ℕ → Dict ℕ ℕ
keep_recent now [] = []
keep_recent now ((crc, ts) ∷ d) =
    let rest = keep_recent now d in if ltb now (ts + 5) then (crc, ts) ∷ rest else rest

unfoldable pub prune_recent : ℕ → Acks → Acks
prune_recent now s = record s { recent = keep_recent now s.recent }

-- The calls between which tasks are switched.
pub data Call : Type 0 where
  expects : ℕ → Call
  discards : ℕ → ℕ → Call
  receives : ℕ → ℕ → Call
  prunes : ℕ → Call

unfoldable pub step : Call → Acks → Acks
step (expects crc) s = let (_, t) = expect_ack crc s in t
step (discards crc event) s = discard_ack_waiter crc event s
step (receives now crc) s = register_ack_received now crc s
step (prunes now) s = prune_recent now s

unfoldable pub run : List Call → Acks → Acks
run [] s = s
run (c ∷ cs) s = run cs (step c s)
