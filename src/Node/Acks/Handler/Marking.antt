-- ===== src/Node/Acks/Handler/Marking.antt =====
-- When an ACK packet is kept from being repeated: the waiters of node/dispatcher.py and the test
-- `crc in _waiting_acks` of node/handlers/ack.py.
use openhop_core.Prelude.{
  ℕ, zero, suc, ◌<◌, ◌≡◌, refl, sym, inl, inr, Bool, false, ◌||◌, none, some, List, [], ◌∷◌, arith,
  ltb, lt→ltb, ◌==◌, Bool-cases, Option-cases, length, length-append, All,
}
use openhop_core.Prelude.Dict.{nat_key, bytes_key, Dict, lookup, contains, insert, remove}
use openhop_core.Protocol.Packet.{Packet, mark_do_not_retransmit}
use openhop_core.Node.Acks.{
  Acks, init, waiters, expect_ack, without, discard_ack_waiter, register_ack_received, prune_recent,
  Call, expects, discards, receives, prunes, step, run,
}
use openhop_core.Node.Acks.Handler.{process_discrete_ack, handle_ack}

-- No CRC keeps an empty list of waiters.
abbrev pub IsTidy : Dict ℕ (List ℕ) → Type 0
IsTidy = All (λ entry. 0 < length entry.1)

insert-IsTidy :
    (crc : ℕ) (ws : List ℕ) (d : Dict ℕ (List ℕ))
    → 0 < length ws
    → IsTidy d
    → IsTidy (insert crc ws d)
unfolding insert
insert-IsTidy crc ws [] some_wait tidy = (some_wait, tt)
insert-IsTidy crc ws ((c, vs) ∷ d) some_wait (one, rest) = elim (Bool-cases (nat_key.beq c crc)) [
  | inl same ↦ rw (insert, same) (some_wait, rest)
  | inr other ↦ rw (insert, other) (one, insert-IsTidy crc ws d some_wait rest)
]

remove-IsTidy : (crc : ℕ) (d : Dict ℕ (List ℕ)) → IsTidy d → IsTidy (remove crc d)
unfolding remove
remove-IsTidy crc [] tidy = tt
remove-IsTidy crc ((c, vs) ∷ d) (one, rest) = elim (Bool-cases (nat_key.beq c crc)) [
  | inl same ↦ rw (remove, same) (remove-IsTidy crc d rest)
  | inr other ↦ rw (remove, other) (one, remove-IsTidy crc d rest)
]

filled : (n : ℕ) → (n == 0) ≡ false → 0 < n
filled zero h = absurd (ground (arith, h))
filled (suc n) h = omega arith

step-IsTidy : (c : Call) (s : Acks) → IsTidy s.waiting → IsTidy (step c s).waiting
unfolding step expect_ack discard_ack_waiter register_ack_received prune_recent
step-IsTidy (expects crc) s tidy =
    insert-IsTidy crc _ s.waiting (omega (arith, length-append (waiters crc s) (s.next_event ∷ [])))
      tidy
step-IsTidy (discards crc event) s tidy = elim (Option-cases (lookup crc s.waiting)) [
  | inl unknown ↦ rw (discard_ack_waiter, unknown) tidy
  | inr (ws, known) ↦ elim (Bool-cases (length (without event ws) == 0)) [
    | inl last ↦ rw (discard_ack_waiter, known, last) (remove-IsTidy crc s.waiting tidy)
    | inr more ↦
        rw (discard_ack_waiter, known, more)
          (insert-IsTidy crc (without event ws) s.waiting (filled _ more) tidy)
  ]
]
step-IsTidy (receives now crc) s tidy = remove-IsTidy crc s.waiting tidy
step-IsTidy (prunes now) s tidy = tidy

run-IsTidy : (cs : List Call) (s : Acks) → IsTidy s.waiting → IsTidy (run cs s).waiting
unfolding run
run-IsTidy [] s tidy = tidy
run-IsTidy (c ∷ cs) s tidy = run-IsTidy cs (step c s) (step-IsTidy c s tidy)

contains-IsTidy :
    (crc : ℕ) (d : Dict ℕ (List ℕ))
    → IsTidy d
    → contains crc d ≡ ltb 0 (length (elim (lookup crc d) [ none ↦ [] | some ws ↦ ws ]))
unfolding contains lookup
contains-IsTidy crc [] tidy = refl
contains-IsTidy crc ((c, ws) ∷ d) (one, rest) = elim (Bool-cases (nat_key.beq c crc)) [
  | inl same ↦ rw (contains, lookup, same) (sym (lt→ltb 0 (length ws) one))
  | inr other ↦ rw (contains, lookup, other) (contains-IsTidy crc d rest)
]

-- After any calls from the start, an ACK packet is marked not to be repeated exactly if it was
-- marked before, a task waits for its CRC, or the application's listener takes the CRC.
pub handle_ack-marks :
    (consumes : ℕ → Bool) (now crc : ℕ) (cs : List Call) (p : Packet)
    → process_discrete_ack p.payload ≡ some crc
    → (let (q, t) = handle_ack consumes now p (run cs init) in q.do_not_retransmit)
      ≡ p.do_not_retransmit || (ltb 0 (length (waiters crc (run cs init))) || consumes crc)
unfolding handle_ack waiters mark_do_not_retransmit
handle_ack-marks consumes now crc cs p found =
    ground (arith, found, contains-IsTidy crc (run cs init).waiting (run-IsTidy cs init tt))
