-- ===== src/Node/Airtime/Limit.antt =====
-- How much airtime the budget of node/dispatcher.py admits.
use openhop_core.Prelude.{ℕ, ◌+◌, ◌-◌, ◌*◌, ◌≤◌, ◌≡◌, List, [], ◌∷◌, arith}
use openhop_core.Node.Airtime.{
  duty_cycle_window_ms, Budget, reset_tx_budget, refill_tx_budget, max_of, tx_budget_wait,
  debit_tx_budget,
}

-- One transmission: when the budget was looked at, the airtime, and when it was sent.
pub record Sending : Type 0 where
  pub checked : ℕ
  pub airtime : ℕ
  pub sent : ℕ

unfoldable pub send : ℕ → ℕ → Sending → Budget → Budget
send share longest x b =
    debit_tx_budget share x.airtime x.sent (tx_budget_wait share longest x.checked b).1

unfoldable pub run : ℕ → ℕ → List Sending → Budget → Budget
run share longest [] b = b
run share longest (x ∷ xs) b = run share longest xs (send share longest x b)

unfoldable pub total_airtime : List Sending → ℕ
total_airtime [] = 0
total_airtime (x ∷ xs) = x.airtime + total_airtime xs

-- Each transmission is one that the budget admits at once, on a clock that does not go back, and
-- has at most the airtime of the longest packet.
pub record IsAdmitted (share longest : ℕ) (x : Sending) (b : Budget) : Type 0 where
  pub admitted : (tx_budget_wait share longest x.checked b).0 ≡ 0
  pub within : x.airtime ≤ longest
  pub forward : b.last_update ≤ x.checked
  pub then_sent : x.checked ≤ x.sent

abbrev pub AllAdmitted : ℕ → ℕ → List Sending → Budget → Type 0
AllAdmitted share longest [] b = Unit {0}
AllAdmitted share longest (x ∷ xs) b =
    IsAdmitted share longest x b × AllAdmitted share longest xs (send share longest x b)

mul-le : (share a b : ℕ) → a ≤ b → share * a ≤ share * b
mul-le share a b h = grind (arith, h)

-- What a refill does: the clock's time is added at most.
refilled :
    (now : ℕ) (b : Budget)
    → b.last_update ≤ now
    → ((refill_tx_budget now b).last_update ≡ now)
      × ((refill_tx_budget now b).scaled_ms ≤ b.scaled_ms + (now - b.last_update))
unfolding refill_tx_budget
refilled now b h = ground (arith, h)

reserve_kept :
    (share longest now : ℕ) (b : Budget)
    → (tx_budget_wait share longest now b).0 ≡ 0
    → share * longest ≤ 2 * (refill_tx_budget now b).scaled_ms
unfolding tx_budget_wait max_of
reserve_kept share longest now b h = ground (arith, h)

debited :
    (share airtime now : ℕ) (b : Budget)
    → b.last_update ≤ now
    → share * airtime ≤ 2 * b.scaled_ms
    → ((debit_tx_budget share airtime now b).last_update ≡ now)
      × (share * airtime + 2 * (debit_tx_budget share airtime now b).scaled_ms
          ≤ 2 * (b.scaled_ms + (now - b.last_update)))
unfolding debit_tx_budget refill_tx_budget
debited share airtime now b h funded = ground (arith, h, funded)

send_spends :
    (share longest : ℕ) (x : Sending) (b : Budget)
    → IsAdmitted share longest x b
    → ((send share longest x b).last_update ≡ x.sent)
      × (share * x.airtime + 2 * (send share longest x b).scaled_ms
          ≤ 2 * (b.scaled_ms + (x.sent - b.last_update)))
unfolding send tx_budget_wait
send_spends share longest x b a =
    let (at, grown) = refilled x.checked b a.forward in
    let kept = reserve_kept share longest x.checked b a.admitted in
    let (sent, spent) =
      debited share x.airtime x.sent (refill_tx_budget x.checked b) (omega (arith, at, a.then_sent))
        (omega (arith, kept, mul-le share x.airtime longest a.within)) in
    (sent, omega (arith, spent, grown, at, a.forward, a.then_sent))

spent_airtime :
    (share longest : ℕ) (xs : List Sending) (b : Budget)
    → AllAdmitted share longest xs b
    → (b.last_update ≤ (run share longest xs b).last_update)
      × (share * total_airtime xs
          ≤ 2 * (b.scaled_ms + ((run share longest xs b).last_update - b.last_update)))
unfolding run total_airtime
spent_airtime share longest [] b all = (omega arith, omega arith)
spent_airtime share longest (x ∷ xs) b (one, all) =
    let c = send share longest x b in
    let (at, spent) = send_spends share longest x b one in
    let (later, rest) = spent_airtime share longest xs c all in
    let split : share * (x.airtime + total_airtime xs)
        ≡ share * x.airtime + share * total_airtime xs =
      grind arith in
    (
      omega (arith, later, at, one.forward, one.then_sent),
      omega (arith, later, at, one.forward, one.then_sent, spent, rest, split),
    )

-- Over any transmissions that the budget admits, on a clock that does not go back, from a full
-- budget: the whole airtime, times 1 + `airtime_budget_factor`, is at most twice the window of an
-- hour and the time that has passed since. No transmission is longer than the longest packet.
pub admitted_airtime :
    (share longest start : ℕ) (xs : List Sending)
    → AllAdmitted share longest xs (reset_tx_budget start)
    → share * total_airtime xs
      ≤ 2
        * (duty_cycle_window_ms
            + ((run share longest xs (reset_tx_budget start)).last_update - start))
unfolding reset_tx_budget
admitted_airtime share longest start xs all =
    omega (arith, spent_airtime share longest xs (reset_tx_budget start) all)
