-- ===== src/Node/Acks/Wakeup.antt =====
-- What becomes of a waiter, whatever calls of other tasks come in between.
use openhop_core.Prelude.{
  ℕ, ◌+◌, ◌<◌, ◌≡◌, refl, sym, ap, ◌∙◌, ◌≢◌, inl, inr, Bool, true, false, not, ◌&&◌, ◌||◌, none,
  some, List, [], ◌∷◌, ◌++◌, arith, if◌then◌else◌, ltb, leb, ltb→lt, ◌==◌, ==_iff, ==_refl,
  Bool-cases, Option-cases, length, All,
}
use openhop_core.Prelude.Dict.{
  nat_key, bytes_key, Dict, lookup, contains, insert, remove, lookup-remove, lookup-insert,
}
use openhop_core.Node.Acks.{
  Acks, waiters, expect_ack, without, discard_ack_waiter, register_ack_received, keep_recent,
  prune_recent, Call, expects, discards, receives, prunes, step, run,
}

unfoldable pub has : ℕ → List ℕ → Bool
has e [] = false
has e (w ∷ ws) = if w == e then true else has e ws

has-append : (e : ℕ) (xs ys : List ℕ) → has e (xs ++ ys) ≡ has e xs || has e ys
unfolding has
has-append e [] ys = refl
has-append e (x ∷ xs) ys = ground (arith, has-append e xs ys)

has-without : (e f : ℕ) (ws : List ℕ) → e ≢ f → has e (without f ws) ≡ has e ws
unfolding has without
has-without e f [] d = refl
has-without e f (w ∷ ws) d = ground (arith, d, has-without e f ws d, ==_iff w f, ==_iff w e)

-- The event waits for the CRC, or it is set.
unfoldable pub is_served : ℕ → ℕ → Acks → Bool
is_served crc event s = has event (waiters crc s) || has event s.fired

-- The call does not take the event's own registration away.
unfoldable pub spares : ℕ → ℕ → Call → Bool
spares crc event (discards c e) = not ((c == crc) && (e == event))
spares crc event _ = true

lookup_inserted :
    (c crc : ℕ) (ws : List ℕ) (d : Dict ℕ (List ℕ))
    → lookup crc (insert c ws d) ≡ (if c == crc then some ws else lookup crc d)
lookup_inserted c crc ws d = lookup-insert c crc ws d

lookup_removed :
    (c crc : ℕ) (d : Dict ℕ (List ℕ))
    → lookup crc (remove c d) ≡ (if c == crc then none else lookup crc d)
lookup_removed c crc d = lookup-remove c crc d

has_none : (event : ℕ) (ws : List ℕ) → length ws ≡ 0 → has event ws ≡ false
unfolding has
has_none event [] h = refl
has_none event (w ∷ ws) h = ground (arith, h)

step-is_served :
    (crc event : ℕ) (c : Call) (s : Acks)
    → spares crc event c ≡ true
    → is_served crc event s ≡ true
    → is_served crc event (step c s) ≡ true
unfolding step is_served spares waiters expect_ack discard_ack_waiter register_ack_received
    prune_recent has
step-is_served crc event (expects c) s kept h = ground (
  arith,
  h,
  lookup_inserted c crc
      (elim (lookup c s.waiting) [ none ↦ [] | some ws ↦ ws ] ++ s.next_event ∷ []) s.waiting,
  has-append event (elim (lookup c s.waiting) [ none ↦ [] | some ws ↦ ws ]) (s.next_event ∷ []),
  ==_iff c crc,
)
step-is_served crc event (discards c e) s kept h = elim (Option-cases (lookup c s.waiting)) [
  | inl unknown ↦ ground (arith, h, unknown)
  | inr (ws, known) ↦ ground (
    arith,
    h,
    kept,
    known,
    lookup_removed c crc s.waiting,
    lookup_inserted c crc (without e ws) s.waiting,
    has-without event e ws,
    has_none event (without e ws),
    ==_iff c crc,
    ==_iff e event,
  )
]
step-is_served crc event (receives now c) s kept h = ground (
  arith,
  h,
  lookup_removed c crc s.waiting,
  has-append event (elim (lookup c s.waiting) [ none ↦ [] | some ws ↦ ws ]) s.fired,
  ==_iff c crc,
)
step-is_served crc event (prunes now) s kept h = h

abbrev pub AllSpare : ℕ → ℕ → List Call → Type 0
AllSpare crc event = All (λ c. spares crc event c ≡ true)

run-is_served :
    (crc event : ℕ) (cs : List Call) (s : Acks)
    → AllSpare crc event cs
    → is_served crc event s ≡ true
    → is_served crc event (run cs s) ≡ true
unfolding run
run-is_served crc event [] s kept h = h
run-is_served crc event (c ∷ cs) s (one, rest) h =
    run-is_served crc event cs (step c s) rest (step-is_served crc event c s one h)

-- An event is set, and nothing resets it.
unfoldable pub is_fired : ℕ → Acks → Bool
is_fired event s = has event s.fired

step-is_fired :
    (event : ℕ) (c : Call) (s : Acks) → is_fired event s ≡ true → is_fired event (step c s) ≡ true
unfolding step is_fired expect_ack discard_ack_waiter register_ack_received prune_recent has
step-is_fired event (expects c) s h = ground (arith, h)
step-is_fired event (discards c e) s h = elim (Option-cases (lookup c s.waiting)) [
  | inl unknown ↦ ground (arith, h, unknown)
  | inr (ws, known) ↦ ground (arith, h, known)
]
step-is_fired event (receives now c) s h = ground (arith, h, has-append event (waiters c s) s.fired)
step-is_fired event (prunes now) s h = h

run-is_fired :
    (event : ℕ) (cs : List Call) (s : Acks)
    → is_fired event s ≡ true
    → is_fired event (run cs s) ≡ true
unfolding run
run-is_fired event [] s h = h
run-is_fired event (c ∷ cs) s h = run-is_fired event cs (step c s) (step-is_fired event c s h)

run-append : (cs ds : List Call) (s : Acks) → run (cs ++ ds) s ≡ run ds (run cs s)
unfolding run
run-append [] ds s = refl
run-append (c ∷ cs) ds s = run-append cs ds (step c s)

expect-is_served :
    (crc : ℕ) (s : Acks) → (let (event, t) = expect_ack crc s in is_served crc event t) ≡ true
unfolding expect_ack is_served waiters has
expect-is_served crc s = ground (
  arith,
  lookup_inserted crc crc
      (elim (lookup crc s.waiting) [ none ↦ [] | some ws ↦ ws ] ++ s.next_event ∷ []) s.waiting,
  has-append s.next_event (elim (lookup crc s.waiting) [ none ↦ [] | some ws ↦ ws ])
      (s.next_event ∷ []),
  ==_refl crc,
  ==_refl s.next_event,
)

receive-is_fired :
    (now crc event : ℕ) (s : Acks)
    → is_served crc event s ≡ true
    → is_fired event (step (receives now crc) s) ≡ true
unfolding step is_served is_fired register_ack_received
receive-is_fired now crc event s h = ground (arith, h, has-append event (waiters crc s) s.fired)

-- A task that waits for a CRC is woken by the ACK: from any state, if calls of any tasks follow
-- the registration, other than the removal of this one registration, and the ACK is among them,
-- then the event is set in the end. Waiters that share the CRC do not take it from each other.
pub expect_ack-receives :
    (crc now : ℕ) (before later : List Call) (s : Acks)
    → (let (event, _) = expect_ack crc s in AllSpare crc event before)
    → (let (event, t) = expect_ack crc s in
        is_fired event (run (before ++ receives now crc ∷ later) t))
      ≡ true
unfolding run step
expect_ack-receives crc now before later s kept =
    let event = (expect_ack crc s).0 in
    let t = (expect_ack crc s).1 in
    let served = run-is_served crc event before t kept (expect-is_served crc s) in
    ap (is_fired event) (run-append before (receives now crc ∷ later) t)
    ∙ run-is_fired event later (step (receives now crc) (run before t))
        (receive-is_fired now crc event (run before t) served)

-- The call does not make the program forget an ACK of a time within 5 seconds.
unfoldable pub remembers : ℕ → Call → Bool
remembers now (prunes later) = ltb later (now + 5)
remembers now (receives later c) = leb now later
remembers now _ = true

-- The ACK of the CRC is remembered, from that time or later.
unfoldable pub is_recent : ℕ → ℕ → Acks → Bool
is_recent now crc s = elim (lookup crc s.recent) [ none ↦ false | some ts ↦ leb now ts ]

lookup_cons :
    (c crc ts : ℕ) (d : Dict ℕ ℕ)
    → lookup crc ((c, ts) ∷ d) ≡ (if c == crc then some ts else lookup crc d)
unfolding lookup
lookup_cons c crc ts d = refl

lookup-keep_recent :
    (now later crc : ℕ) (d : Dict ℕ ℕ)
    → later < now + 5
    → (elim (lookup crc d) [ none ↦ false | some ts ↦ leb now ts ]) ≡ true
    → (elim (lookup crc (keep_recent later d)) [ none ↦ false | some ts ↦ leb now ts ]) ≡ true
unfolding keep_recent
lookup-keep_recent now later crc [] short h = h
lookup-keep_recent now later crc ((c, ts) ∷ d) short h = ground (
  arith,
  h,
  short,
  lookup_cons c crc ts d,
  lookup_cons c crc ts (keep_recent later d),
  lookup-keep_recent now later crc d short,
  ==_iff c crc,
)

recent_inserted :
    (c crc ts : ℕ) (d : Dict ℕ ℕ)
    → lookup crc (insert c ts d) ≡ (if c == crc then some ts else lookup crc d)
recent_inserted c crc ts d = lookup-insert c crc ts d

step-is_recent :
    (now crc : ℕ) (c : Call) (s : Acks)
    → remembers now c ≡ true
    → is_recent now crc s ≡ true
    → is_recent now crc (step c s) ≡ true
unfolding step remembers is_recent expect_ack discard_ack_waiter register_ack_received prune_recent
step-is_recent now crc (expects c) s kept h = h
step-is_recent now crc (discards c e) s kept h = elim (Option-cases (lookup c s.waiting)) [
  | inl unknown ↦ ground (arith, h, unknown)
  | inr (ws, known) ↦ ground (arith, h, known)
]
step-is_recent now crc (receives later c) s kept h =
    ground (arith, h, kept, recent_inserted c crc later s.recent)
step-is_recent now crc (prunes later) s kept h =
    lookup-keep_recent now later crc s.recent (ltb→lt later (now + 5) kept) h

abbrev pub AllRemember : ℕ → List Call → Type 0
AllRemember now = All (λ c. remembers now c ≡ true)

run-is_recent :
    (now crc : ℕ) (cs : List Call) (s : Acks)
    → AllRemember now cs
    → is_recent now crc s ≡ true
    → is_recent now crc (run cs s) ≡ true
unfolding run
run-is_recent now crc [] s kept h = h
run-is_recent now crc (c ∷ cs) s (one, rest) h =
    run-is_recent now crc cs (step c s) rest (step-is_recent now crc c s one h)

receive-is_recent : (now crc : ℕ) (s : Acks) → is_recent now crc (step (receives now crc) s) ≡ true
unfolding step is_recent register_ack_received
receive-is_recent now crc s = ground (arith, recent_inserted crc crc now s.recent, ==_refl crc)

contains-lookup : (crc ts : ℕ) (d : Dict ℕ ℕ) → lookup crc d ≡ some ts → contains crc d ≡ true
unfolding lookup contains
contains-lookup crc ts [] h = cc
contains-lookup crc ts ((c, t) ∷ d) h = elim (Bool-cases (nat_key.beq c crc)) [
  | inl hit ↦ rw (hit) refl
  | inr miss ↦
      let same : lookup crc ((c, t) ∷ d) ≡ lookup crc d = rw (miss) refl in
      rw (miss) (contains-lookup crc ts d (sym same ∙ h))
]

recent-expect_ack :
    (now crc : ℕ) (s : Acks)
    → is_recent now crc s ≡ true
    → (let (event, t) = expect_ack crc s in is_fired event t) ≡ true
unfolding expect_ack is_recent is_fired has
recent-expect_ack now crc s h = elim (Option-cases (lookup crc s.recent)) [
  | inl unknown ↦ ground (arith, h, unknown)
  | inr (ts, known) ↦ rw (contains-lookup crc ts s.recent known) (rw (==_refl s.next_event) refl)
]

-- An ACK that is there before the task asks for it is not lost: if it came at a time, and every
-- pruning since is within 5 seconds of it and every later ACK has a time no earlier, then a task
-- that registers for the CRC gets an event that is set already.
pub receives-expect_ack :
    (crc now : ℕ) (between : List Call) (s : Acks)
    → AllRemember now between
    → (let (event, t) = expect_ack crc (run (receives now crc ∷ between) s) in is_fired event t)
      ≡ true
unfolding run
receives-expect_ack crc now between s kept =
    recent-expect_ack now crc (run between (step (receives now crc) s))
      (run-is_recent now crc between (step (receives now crc) s) kept (receive-is_recent now crc s))
