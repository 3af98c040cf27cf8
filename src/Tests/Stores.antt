-- ===== src/Tests/Stores.antt =====
-- The message queue, at a small table.
use openhop_core.Prelude.{
  ℕ, ◌≤◌, ◌≡◌, true, false, Bool, [], ◌∷◌, ◌++◌, drop, length, if◌then◌else◌, arith,
}
use openhop_core.Prelude.Int.{pos}
use openhop_core.Companion.Queue.{QueuedMessage, MessageQueue, is_full, push}
use openhop_core.Companion.Queue.Laws.{
  direct_messages, channel_messages, queued, after, push-direct_messages, push-channel_messages,
}

abbrev message : ℕ → Bool → QueuedMessage
message identity is_channel = record {
  identity = identity;
  sender_key = [];
  txt_type = 0;
  timestamp = 0;
  text = 72 ∷ 105 ∷ [];
  is_channel = is_channel;
  channel_idx = 0;
  path_len = 0;
  snr = pos 0;
  rssi = pos 0;
  channel_data_type = 0;
  channel_data_payload = [];
  sender_prefix = [];
}

abbrev full_queue : MessageQueue
full_queue = record { queue = message 1 false ∷ message 2 true ∷ []; max_size = 2 }

push-direct_messages_example :
    direct_messages (after (push (message 3 false) full_queue))
    ≡ direct_messages full_queue.queue
      ++ (if queued (push (message 3 false) full_queue)
          then direct_messages (message 3 false ∷ [])
          else [])
push-direct_messages_example = push-direct_messages (message 3 false) full_queue

push-channel_messages_example :
    (length (after (push (message 3 true) full_queue)) ≤ 2)
    × (channel_messages (after (push (message 3 true) full_queue)) ≡ (
        if queued (push (message 3 true) full_queue)
        then (if is_full full_queue
            then drop 1 (channel_messages full_queue.queue)
            else channel_messages full_queue.queue)
          ++ channel_messages (message 3 true ∷ [])
        else channel_messages full_queue.queue))
push-channel_messages_example = push-channel_messages (message 3 true) full_queue (omega arith)
