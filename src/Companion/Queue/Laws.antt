-- ===== src/Companion/Queue/Laws.antt =====
-- The offline queue: its bound, which messages `push` keeps, displaces and refuses, and taking the
-- last one back.
use openhop_core.Prelude.{
  ℕ, ◌+◌, ◌≤◌, ◌<◌, ◌≡◌, refl, ap, ◌↔◌, ◌⊎◌, inl, inr, Bool, true, false, none, some, List, [], ◌∷◌,
  ◌++◌, arith, if◌then◌else◌, leb, leb→le, ==_refl, Bool-cases, Option-cases, length, length-append,
  drop,
}
use openhop_core.Companion.Queue.{
  QueuedMessage, MessageQueue, is_full, drop_channel, push, split_last, pop_last, drop_message,
  remove,
}

-- The direct messages, in order.
unfoldable pub direct_messages : List QueuedMessage → List QueuedMessage
direct_messages [] = []
direct_messages (m ∷ ms) = if m.is_channel then direct_messages ms else m ∷ direct_messages ms

-- The channel messages, in order.
unfoldable pub channel_messages : List QueuedMessage → List QueuedMessage
channel_messages [] = []
channel_messages (m ∷ ms) = if m.is_channel then m ∷ channel_messages ms else channel_messages ms

direct_messages-append :
    (ms ns : List QueuedMessage)
    → direct_messages (ms ++ ns) ≡ direct_messages ms ++ direct_messages ns
unfolding direct_messages
direct_messages-append [] ns = refl
direct_messages-append (m ∷ ms) ns = ground (arith, direct_messages-append ms ns)

append_nil : (ms : List QueuedMessage) → ms ++ [] ≡ ms
append_nil [] = refl
append_nil (m ∷ ms) = ap (λ ns. m ∷ ns) (append_nil ms)

channel_messages-append :
    (ms ns : List QueuedMessage)
    → channel_messages (ms ++ ns) ≡ channel_messages ms ++ channel_messages ns
unfolding channel_messages
channel_messages-append [] ns = refl
channel_messages-append (m ∷ ms) ns = ground (arith, channel_messages-append ms ns)

-- What the queue is after its oldest channel message went.
abbrev IsWithoutOldest : List QueuedMessage → List QueuedMessage → Type 0
IsWithoutOldest ms ns =
    (direct_messages ns ≡ direct_messages ms)
    × (channel_messages ns ≡ drop 1 (channel_messages ms))
    × (length ns + 1 ≡ length ms)
    × (1 ≤ length (channel_messages ms))

drop_channel-some : (ms ns : List QueuedMessage) → drop_channel ms ≡ some ns → IsWithoutOldest ms ns
unfolding drop_channel direct_messages channel_messages
drop_channel-some [] ns h = ground (arith, h)
drop_channel-some (m ∷ ms) ns h = elim (Option-cases (drop_channel ms)) [
  | inl e ↦ ground (arith, h, e)
  | inr (rest, e) ↦ ground (arith, h, e, drop_channel-some ms rest e)
]

drop_channel-none : (ms : List QueuedMessage) → drop_channel ms ≡ none → channel_messages ms ≡ []
unfolding drop_channel channel_messages
drop_channel-none [] h = refl
drop_channel-none (m ∷ ms) h = ground (arith, h, drop_channel-none ms)

-- Whether the queue took the message, and the queue afterwards.
abbrev pub queued : Bool × MessageQueue → Bool
queued (b, q) = b

abbrev pub after : Bool × MessageQueue → List QueuedMessage
after (b, q) = q.queue

-- The direct messages of the queue all stay, in their order, whatever is pushed: the queue's
-- direct messages after a push are those before, followed by the new message if it is direct and
-- was taken.
pub push-direct_messages :
    (m : QueuedMessage) (q : MessageQueue)
    → direct_messages (after (push m q))
      ≡ direct_messages q.queue ++ (if queued (push m q) then direct_messages (m ∷ []) else [])
unfolding push
push-direct_messages m q = elim (Option-cases (drop_channel q.queue)) [
  | inl e ↦
      ground
        (arith, e, direct_messages-append q.queue (m ∷ []), append_nil (direct_messages q.queue))
  | inr (ms, e) ↦ ground (
    arith,
    e,
    append_nil (direct_messages q.queue),
    drop_channel-some q.queue ms e,
    direct_messages-append ms (m ∷ []),
    direct_messages-append q.queue (m ∷ []),
  )
]

-- A queue within its bound stays so, and a push that is taken by a full queue displaces the
-- oldest channel message and no other.
pub push-channel_messages :
    (m : QueuedMessage) (q : MessageQueue)
    → length q.queue ≤ q.max_size
    → (length (after (push m q)) ≤ q.max_size)
      × (channel_messages (after (push m q)) ≡ (
          if queued (push m q)
          then (if is_full q then drop 1 (channel_messages q.queue) else channel_messages q.queue)
            ++ channel_messages (m ∷ [])
          else channel_messages q.queue))
unfolding push is_full
push-channel_messages m q h = elim (Option-cases (drop_channel q.queue)) [
  | inl e ↦ ground (
    arith,
    e,
    h,
    channel_messages-append q.queue (m ∷ []),
    length-append q.queue (m ∷ []),
    Bool-cases (leb q.max_size (length q.queue)),
    leb→le q.max_size (length q.queue),
  )
  | inr (ms, e) ↦ ground (
    arith,
    e,
    h,
    drop_channel-some q.queue ms e,
    channel_messages-append ms (m ∷ []),
    channel_messages-append q.queue (m ∷ []),
    length-append q.queue (m ∷ []),
    length-append ms (m ∷ []),
  )
]

-- A message is refused exactly when the queue stores nothing at all, or is full of direct
-- messages.
pub push-refused_iff :
    (m : QueuedMessage) (q : MessageQueue)
    → (queued (push m q) ≡ false)
      ↔ ((q.max_size ≡ 0) ⊎ ((is_full q ≡ true) × (channel_messages q.queue ≡ [])))
unfolding push is_full
push-refused_iff m q = elim (Option-cases (drop_channel q.queue)) [
  | inl e ↦ ground (arith, e, drop_channel-none q.queue e)
  | inr (ms, e) ↦ ground (arith, e, drop_channel-some q.queue ms e)
]

drop_message-append :
    (m : QueuedMessage) (ms : List QueuedMessage)
    → drop_message m.identity ms ≡ none
    → drop_message m.identity (ms ++ m ∷ []) ≡ some ms
unfolding drop_message
drop_message-append m [] h = ground (arith, ==_refl m.identity)
drop_message-append m (n ∷ ms) h = ground (arith, h, drop_message-append m ms)

split_last-append :
    (m n : QueuedMessage) (ms : List QueuedMessage) → split_last m (ms ++ n ∷ []) ≡ (m ∷ ms, n)
unfolding split_last
split_last-append m n [] = refl
split_last-append m n (k ∷ ms) = ground (arith, split_last-append k n ms)

pop_last-append :
    (ms : List QueuedMessage) (m : QueuedMessage) (n : ℕ)
    → pop_last (record { queue = ms ++ m ∷ []; max_size = n })
      ≡ (some m, record { queue = ms; max_size = n })
unfolding pop_last split_last
pop_last-append [] m n = refl
pop_last-append (k ∷ ms) m n = ground (arith, split_last-append k m ms)

-- A message that is new to a queue with room is undone by `remove` and by `pop_last`, and the
-- queue is again what it was.
pub remove-push :
    (m : QueuedMessage) (q : MessageQueue)
    → length q.queue < q.max_size
    → drop_message m.identity q.queue ≡ none
    → (let (_, q') = push m q in remove m q') ≡ (true, q)
      × (let (_, q') = push m q in pop_last q') ≡ (some m, q)
unfolding push remove
remove-push m q h e =
    ground (arith, h, drop_message-append m q.queue e, pop_last-append q.queue m q.max_size)
