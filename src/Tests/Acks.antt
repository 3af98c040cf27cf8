-- ===== src/Tests/Acks.antt =====
-- Waiters for an ACK, with calls of other tasks in between.
use openhop_core.Prelude.{◌≡◌, refl, true, false, ◌||◌, [], ◌∷◌, ltb, length}
use openhop_core.Prelude.Dict.{nat_key, bytes_key}
use openhop_core.Prelude.Bytes.{from_le}
use openhop_core.Protocol.Packet
use openhop_core.Protocol.Packet.{Packet}
use openhop_core.Node.Acks.{
  init, waiters, expect_ack, expects, discards, receives, prunes, step, prune_recent,
  register_ack_received, run,
}
use openhop_core.Node.Acks.Handler.{process_discrete_ack, handle_ack}
use openhop_core.Node.Acks.Handler.Marking.{handle_ack-marks}
use openhop_core.Node.Acks.Wakeup.{
  is_fired, spares, remembers, expect_ack-receives, receives-expect_ack,
}

-- Another waiter for the same CRC comes and goes before the ACK.
expect_ack-receives_example :
    is_fired 0
      (run (expects 7 ∷ discards 7 1 ∷ receives 20 7 ∷ prunes 30 ∷ []) (expect_ack 7 init).1)
    ≡ true
unfolding expect_ack spares
expect_ack-receives_example =
    expect_ack-receives 7 20 (expects 7 ∷ discards 7 1 ∷ []) (prunes 30 ∷ []) init
      (refl, (refl, tt))

receives-expect_ack_example :
    is_fired 0 (expect_ack 7 (run (receives 20 7 ∷ prunes 24 ∷ []) init)).1 ≡ true
unfolding remembers expect_ack run step prune_recent register_ack_received
receives-expect_ack_example = receives-expect_ack 7 20 (prunes 24 ∷ []) init (refl, tt)

abbrev ack : Packet
ack = record Packet.init { header = 14; payload = 7 ∷ 0 ∷ 0 ∷ 0 ∷ []; payload_len = 4 }

handle_ack-marks_example :
    (handle_ack (λ crc. false) 20 ack (run (expects 7 ∷ []) init)).0.do_not_retransmit
    ≡ false || (ltb 0 (length (waiters 7 (run (expects 7 ∷ []) init))) || false)
unfolding process_discrete_ack from_le
handle_ack-marks_example = handle_ack-marks (λ crc. false) 20 7 (expects 7 ∷ []) ack refl
