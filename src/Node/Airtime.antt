-- ===== src/Node/Airtime.antt =====
-- The airtime budget of `Dispatcher` (node/dispatcher.py): `_reset_tx_budget`, `_refill_tx_budget`,
-- `_tx_budget_wait_s`, and `_debit_tx_budget`. The source computes in floats; here the arithmetic is
-- exact, in milliseconds, for an `airtime_budget_factor` that is a natural number: `share` is one more
-- than it, so that the duty cycle is 1 / share, and the budget is kept multiplied by `share`. The
-- monotonic clock and the estimated airtimes are arguments.
use openhop_core.Prelude.{
  ℕ, zero, suc, ◌+◌, ◌-◌, ◌*◌, ◌/◌, ◌%◌, ◌≤◌, ◌<◌, ◌≡◌, refl, sym, ap, ◌∙◌, ◌≢◌, ◌↔◌, ◌⊎◌, inl, inr,
  Bool, true, false, not, ◌&&◌, ◌||◌, Option, none, some, List, [], ◌∷◌, ◌++◌, map, arith,
  if◌then◌else◌, ltb, leb, ltb→lt, lt→ltb, leb→le, ◌==◌, ==_iff, ==_refl, Bool-cases, Option-cases,
  &&-split, length, length-append, get_elem?, get_or, set, take, drop, replicate, All, min,
  length-take, length-drop, take-append, drop-append, take_of_length-le, take-append-drop,
  length-replicate, All-append, All-take, All-drop, take-take,
}
pub mod Limit

abbrev pub duty_cycle_window_ms : ℕ
duty_cycle_window_ms = 3600000

abbrev pub min_tx_budget_reserve_ms : ℕ
min_tx_budget_reserve_ms = 100

pub record Budget : Type 0 where
  pub scaled_ms : ℕ
  pub last_update : ℕ
  pub next_time : ℕ

-- Full: `window * duty`, times `share`.
unfoldable pub reset_tx_budget : ℕ → Budget
reset_tx_budget now = record {
  scaled_ms = duty_cycle_window_ms;
  last_update = now;
  next_time = now;
}

-- A clock that did not move refills nothing.
unfoldable pub refill_tx_budget : ℕ → Budget → Budget
refill_tx_budget now b =
    if ltb b.last_update now
    then record b {
      scaled_ms = min (b.scaled_ms + (now - b.last_update)) duty_cycle_window_ms;
      last_update = now;
    }
    else b

unfoldable pub max_of : ℕ → ℕ → ℕ
max_of a b = if leb a b then b else a

-- The milliseconds to wait, 0 if the transmission is admitted, with the refilled budget. `longest` is
-- the airtime of the longest packet, of which half is the reserve.
unfoldable pub tx_budget_wait : ℕ → ℕ → ℕ → Budget → ℕ × Budget
unfolding refill_tx_budget max_of
tx_budget_wait share longest now b =
    let r = refill_tx_budget now b in
    let reserve = share * longest in
    let wait = if ltb (2 * r.scaled_ms) reserve then (reserve + 1) / 2 - r.scaled_ms else 0 in
    (max_of wait (r.next_time - now), r)

unfoldable pub debit_tx_budget : ℕ → ℕ → ℕ → Budget → Budget
unfolding refill_tx_budget
debit_tx_budget share airtime now b =
    let r = refill_tx_budget now b in
    let left = if ltb r.scaled_ms (share * airtime) then 0 else r.scaled_ms - share * airtime in
    record r {
      scaled_ms = left;
      next_time =
          if ltb left (share * min_tx_budget_reserve_ms)
          then now + (share * min_tx_budget_reserve_ms - left)
          else now;
    }
