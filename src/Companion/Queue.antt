-- ===== src/Companion/Queue.antt =====
-- `MessageQueue` of `src/openhop_core/companion/message_queue.py` and the `QueuedMessage` of
-- `companion/models.py`. `remove` compares objects by identity, which is a field here; `snr` is
-- a count of quarter decibels, in place of the float.
use openhop_core.Prelude.{
  ℕ, suc, ◌+◌, ◌-◌, ◌/◌, ◌%◌, ◌≤◌, ◌<◌, ◌≡◌, refl, sym, ap, ◌∙◌, ◌≢◌, ◌↔◌, ◌⊎◌, inl, inr, Bool,
  true, false, not, ◌&&◌, ◌||◌, Option, none, some, List, [], ◌∷◌, ◌++◌, map, arith, if◌then◌else◌,
  ltb, leb, ltb→lt, lt→ltb, leb→le, ◌==◌, ==_iff, ==_refl, Bool-cases, Option-cases, length,
  length-append, get_elem?, get_or, set, take, drop, take-append,
}
use openhop_core.Prelude.Int.{ℤ}
pub mod Laws

pub record QueuedMessage : Type 0 where
  pub identity : ℕ
  pub sender_key : List ℕ
  pub txt_type : ℕ
  pub timestamp : ℕ
  pub text : List ℕ
  pub is_channel : Bool
  pub channel_idx : ℕ
  pub path_len : ℕ
  pub snr : ℤ
  pub rssi : ℤ
  pub channel_data_type : ℕ
  pub channel_data_payload : List ℕ
  pub sender_prefix : List ℕ

pub record MessageQueue : Type 0 where
  pub queue : List QueuedMessage
  pub max_size : ℕ

unfoldable pub is_empty : MessageQueue → Bool
is_empty q = length q.queue == 0

unfoldable pub is_full : MessageQueue → Bool
is_full q = leb q.max_size (length q.queue)

-- The `for ... else` of `push`: the queue without its oldest channel message, none if there is
-- no such message.
unfoldable pub drop_channel : List QueuedMessage → Option (List QueuedMessage)
drop_channel [] = none
drop_channel (m ∷ ms) =
    let rest = drop_channel ms in
    if m.is_channel then some ms else elim rest [ none ↦ none | some ms' ↦ some (m ∷ ms') ]

unfoldable pub push : QueuedMessage → MessageQueue → Bool × MessageQueue
push m q =
    if leb q.max_size 0
    then (false, q)
    else if leb q.max_size (length q.queue)
    then (elim (drop_channel q.queue) [
      | none ↦ (false, q)
      | some ms ↦ (true, record q { queue = ms ++ m ∷ [] })
    ])
    else (true, record q { queue = q.queue ++ m ∷ [] })

unfoldable pub pop : MessageQueue → Option QueuedMessage × MessageQueue
pop q = elim q.queue [ [] ↦ (none, q) | m ∷ ms ↦ (some m, record q { queue = ms }) ]

-- The last element and the list without it.
unfoldable pub split_last : QueuedMessage → List QueuedMessage → List QueuedMessage × QueuedMessage
split_last m [] = ([], m)
split_last m (n ∷ ms) = let (front, last) = split_last n ms in (m ∷ front, last)

unfoldable pub pop_last : MessageQueue → Option QueuedMessage × MessageQueue
pop_last q = elim q.queue [
  | [] ↦ (none, q)
  | m ∷ ms ↦ let (front, last) = split_last m ms in (some last, record q { queue = front })
]

-- The loop of `remove`.
unfoldable pub drop_message : ℕ → List QueuedMessage → Option (List QueuedMessage)
drop_message i [] = none
drop_message i (m ∷ ms) =
    let rest = drop_message i ms in
    if m.identity == i then some ms else elim rest [ none ↦ none | some ms' ↦ some (m ∷ ms') ]

unfoldable pub remove : QueuedMessage → MessageQueue → Bool × MessageQueue
remove m q = elim (drop_message m.identity q.queue) [
  | none ↦ (false, q)
  | some ms ↦ (true, record q { queue = ms })
]

unfoldable pub peek : MessageQueue → Option QueuedMessage
peek q = elim q.queue [ [] ↦ none | m ∷ ms ↦ some m ]

unfoldable pub clear : MessageQueue → MessageQueue
clear q = record q { queue = [] }
