-- ===== src/Hardware/Modem/Responses.antt =====
-- The queue of responses in hardware/kiss_modem_wrapper.py that no command waits for.
use openhop_core.Prelude.{
  ℕ, ◌≡◌, refl, sym, ap, ◌∙◌, inl, inr, Option, none, some, List, [], ◌∷◌, ◌++◌, if◌then◌else◌,
  Bool-cases, length,
}
use openhop_core.Hardware.Modem.{among, scan_queued}

-- The first response that a command accepts, and the others in their order.
unfoldable pub first_accepted : List ℕ → List (ℕ × List ℕ) → Option (ℕ × List ℕ)
first_accepted acceptable [] = none
first_accepted acceptable (r ∷ queue) =
    let rest = first_accepted acceptable queue in if among r.0 acceptable then some r else rest

unfoldable pub without_first : List ℕ → List (ℕ × List ℕ) → List (ℕ × List ℕ)
without_first acceptable [] = []
without_first acceptable (r ∷ queue) =
    let rest = without_first acceptable queue in if among r.0 acceptable then queue else r ∷ rest

append_nil : (xs : List (ℕ × List ℕ)) → xs ++ [] ≡ xs
append_nil [] = refl
append_nil (x ∷ xs) = ap (◌∷◌ x) (append_nil xs)

append_assoc : (xs ys zs : List (ℕ × List ℕ)) → (xs ++ ys) ++ zs ≡ xs ++ (ys ++ zs)
append_assoc [] ys zs = refl
append_assoc (x ∷ xs) ys zs = ap (◌∷◌ x) (append_assoc xs ys zs)

-- After the match the rounds only turn the queue.
turned :
    (acceptable : List ℕ) (m : ℕ × List ℕ) (queue done : List (ℕ × List ℕ))
    → scan_queued (length queue) acceptable (queue ++ done) (some m) ≡ (some m, done ++ queue)
unfolding scan_queued
turned acceptable m [] done = ap (λ q. (some m, q)) (sym (append_nil done))
turned acceptable m (r ∷ queue) done =
    ap (λ q. scan_queued (length queue) acceptable q (some m)) (append_assoc queue done (r ∷ []))
    ∙ turned acceptable m queue (done ++ r ∷ [])
    ∙ ap (λ q. (some m, q)) (append_assoc done (r ∷ []) queue)

scanned :
    (acceptable : List ℕ) (queue done : List (ℕ × List ℕ))
    → scan_queued (length queue) acceptable (queue ++ done) none
      ≡ (first_accepted acceptable queue, done ++ without_first acceptable queue)
unfolding scan_queued first_accepted without_first
scanned acceptable [] done = ap (λ q. (none, q)) (sym (append_nil done))
scanned acceptable (r ∷ queue) done = elim (Bool-cases (among r.0 acceptable)) [
  | inl accepted ↦
      rw (scan_queued, first_accepted, without_first, accepted) (turned acceptable r queue done)
  | inr other ↦
      rw (scan_queued, first_accepted, without_first, other)
        (ap (λ q. scan_queued (length queue) acceptable q none) (append_assoc queue done (r ∷ []))
          ∙ scanned acceptable queue (done ++ r ∷ [])
          ∙ ap (λ q. (first_accepted acceptable queue, q))
              (append_assoc done (r ∷ []) (without_first acceptable queue)))
]

-- The rounds of `_send_command` over the queue find the oldest response that the command accepts,
-- take it out, and leave the others in their order.
pub scan_queued_lem :
    (acceptable : List ℕ) (queue : List (ℕ × List ℕ))
    → scan_queued (length queue) acceptable queue none
      ≡ (first_accepted acceptable queue, without_first acceptable queue)
scan_queued_lem acceptable queue =
    ap (λ q. scan_queued (length queue) acceptable q none) (sym (append_nil queue))
    ∙ scanned acceptable queue []
