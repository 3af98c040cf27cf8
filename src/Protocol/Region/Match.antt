-- ===== src/Protocol/Region/Match.antt =====
-- Matching a scoped packet to a region: `RegionMap.find_match` after `scope_packet`.
use openhop_core.Prelude.{
  ℕ, zero, suc, ◌%◌, ◌≤◌, get_elem?, take, ◌↔◌, ◌≡◌, refl, ap, ◌∙◌, ◌≢◌, inl, inr, Bool, true,
  false, some, List, [], ◌∷◌, ◌++◌, arith, if◌then◌else◌, ◌==◌, ==_iff, ==_refl, Bool-cases, length,
  All,
}
use openhop_core.Prelude.Outcome.{ok, Result-cases}
use openhop_core.Protocol.Constants.{route_type_transport_flood}
use openhop_core.Protocol.Packet.{Packet, get_route_type, has_transport_codes}
use openhop_core.Prelude.Bytes.{IsBytes}
use openhop_core.Protocol.Region.Keys.{first_key_for-head}
use openhop_core.Protocol.Region.Codes.{scope_packet-ok}
use openhop_core.Protocol.Region.{
  RegionEntry, RegionMap, denies_flood, region_keys, first_key_for, calc_transport_code,
  scope_packet, some_key_matches, first_match, find_match,
}

module _ (sha256 : List ℕ → List ℕ) (hmac : List ℕ → List ℕ → List ℕ) where
  first_match_sound :
      (es : List RegionEntry) (p : Packet) (e : RegionEntry)
      → first_match sha256 hmac es p ≡ some e
      → (denies_flood e ≡ false) × (some_key_matches hmac (region_keys sha256 e) p ≡ true)
  unfolding first_match
  first_match_sound [] p e h = ground (arith, h)
  first_match_sound (d ∷ es) p e h = elim (Bool-cases (denies_flood d)) [
    | inl denied ↦ first_match_sound es p e (ground (arith, h, denied))
    | inr allowed ↦ elim (Bool-cases (some_key_matches hmac (region_keys sha256 d) p)) [
      | inl fits ↦
          let here : d ≡ e = ground (arith, h, allowed, fits) in rw (← here) (allowed, fits)
      | inr fails ↦ first_match_sound es p e (ground (arith, h, allowed, fails))
    ]
  ]

-- One of the keys gives the packet's code.
abbrev HasCode : (List ℕ → List ℕ → List ℕ) → Packet → List (List ℕ) → Type 0
HasCode hmac q keys =
    (n : ℕ) × (k : List ℕ) × (get_elem? keys n ≡ some k)
    × (calc_transport_code hmac k q ≡ ok q.transport_code_0)

-- A region answers to a packet: its deny-flood bit is clear, and one of its keys gives the packet's
-- code.
abbrev pub AnswersTo :
    (List ℕ → List ℕ) → (List ℕ → List ℕ → List ℕ) → Packet → RegionEntry → Type 0
AnswersTo sha256 hmac q e = (e.flags % 2 ≡ 0) × HasCode hmac q (region_keys sha256 e)

transport :
    (q : Packet) → get_route_type q ≡ route_type_transport_flood → has_transport_codes q ≡ true
unfolding has_transport_codes
transport q h = ground (arith, h)

-- The test on a region's keys looks at each of them.
some_key_matches-HasCode :
    (hmac : List ℕ → List ℕ → List ℕ) (keys : List (List ℕ)) (q : Packet)
    → some_key_matches hmac keys q ≡ true
    → HasCode hmac q keys
unfolding some_key_matches
some_key_matches-HasCode hmac [] q h = cc
some_key_matches-HasCode hmac (k ∷ keys) q h =
    let later : some_key_matches hmac keys q ≡ true → HasCode hmac q (k ∷ keys) = λ rest.
      let (n, j, there, code) = some_key_matches-HasCode hmac keys q rest in
      (suc n, j, there, code) in
    elim (Result-cases (calc_transport_code hmac k q)) [
      | inr (err, failed) ↦ later (ground (arith, h, failed))
      | inl (code, made) ↦ elim (Bool-cases (code == q.transport_code_0)) [
        | inl same ↦ (0, k, refl, made ∙ ap ok ((==_iff code q.transport_code_0).0 same))
        | inr other ↦ later (ground (arith, h, made, other))
      ]
    ]

HasCode-some_key_matches :
    (hmac : List ℕ → List ℕ → List ℕ) (keys : List (List ℕ)) (q : Packet)
    → HasCode hmac q keys
    → some_key_matches hmac keys q ≡ true
unfolding some_key_matches
HasCode-some_key_matches hmac [] q (n, k, there, code) = cc
HasCode-some_key_matches hmac (j ∷ keys) q (zero, k, there, code) =
    let here : j ≡ k = cc in
    let made : calc_transport_code hmac j q ≡ ok q.transport_code_0 =
      ap (λ i. calc_transport_code hmac i q) here ∙ code in
    rw (some_key_matches, made) (rw (==_refl q.transport_code_0) refl)
HasCode-some_key_matches hmac (j ∷ keys) q (suc n, k, there, code) =
    let rest = HasCode-some_key_matches hmac keys q (n, k, there, code) in
    elim (Result-cases (calc_transport_code hmac j q)) [
      | inr (err, failed) ↦ rw (some_key_matches, failed) rest
      | inl (code, made) ↦ rw (some_key_matches, made) (either (code == q.transport_code_0) rest)
    ]
  where
    either : (b : Bool) {c : Bool} → c ≡ true → (if b then true else c) ≡ true
    either true h = refl
    either false h = h

module _ (sha256 : List ℕ → List ℕ) (hmac : List ℕ → List ℕ → List ℕ) (q : Packet) where
  -- The first region of a list that answers, with those before it, which do not.
  abbrev pub FirstAnswer : List RegionEntry → RegionEntry → ℕ → Type 0
  FirstAnswer es r before =
      (get_elem? es before ≡ some r)
      × AnswersTo sha256 hmac q r
      × All (λ d. ¬ AnswersTo sha256 hmac q d) (take before es)

  denies_flood-bit : (d : RegionEntry) → (d.flags % 2 ≡ 0) ↔ (denies_flood d ≡ false)
  unfolding denies_flood
  denies_flood-bit d = (λ h. ground (arith, h), λ h. ground (arith, h))

  first_match-FirstAnswer :
      (front back : List RegionEntry) (e : RegionEntry)
      → AnswersTo sha256 hmac q e
      → (r : RegionEntry) × (first_match sha256 hmac (front ++ e ∷ back) q ≡ some r)
        × (before : ℕ) × (before ≤ length front)
        × FirstAnswer (front ++ e ∷ back) r before
  unfolding first_match
  first_match-FirstAnswer [] back e (allowed, code) =
      let clear = (denies_flood-bit e).0 allowed in
      let fits = HasCode-some_key_matches hmac (region_keys sha256 e) q code in
      (e, rw (clear) (rw (fits) refl), 0, omega arith, (refl, (allowed, code), tt))
  first_match-FirstAnswer (d ∷ front) back e answers =
      let (r, found, before, near, (at, fits, none_before)) =
        first_match-FirstAnswer front back e answers in
      let later : ¬ AnswersTo sha256 hmac q d
          → FirstAnswer (d ∷ (front ++ e ∷ back)) r (suc before) =
        λ shut. (at, fits, (shut, none_before)) in
      elim (Bool-cases (denies_flood d)) [
        | inl denied ↦ (
          r,
          rw (denied) found,
          suc before,
          omega (arith, near),
          later (λ (clear, _). cc (denied, (denies_flood-bit d).0 clear)),
        )
        | inr allowed ↦ elim (Bool-cases (some_key_matches hmac (region_keys sha256 d) q)) [
          | inl here ↦ (
            d,
            rw (allowed) (rw (here) refl),
            0,
            omega arith,
            (
              refl,
              (
                (denies_flood-bit d).1 allowed,
                some_key_matches-HasCode hmac (region_keys sha256 d) q here,
              ),
              tt,
            ),
          )
          | inr fails ↦ (
            r,
            rw (allowed) (rw (fails) found),
            suc before,
            omega (arith, near),
            later (λ (_, code).
                cc (fails, HasCode-some_key_matches hmac (region_keys sha256 d) q code)),
          )
        ]
      ]

-- With a SHA-256 and an HMAC of 32 bytes: a packet scoped with the first key of a region that allows
-- floods becomes a transport flood, and a map that has the region matches it to the first region in
-- the map that allows floods and has a key that gives the packet's code. That is the region itself,
-- or one before it.
pub find_match-scope_packet :
    (sha256 : List ℕ → List ℕ) (long : (d : List ℕ) → length (sha256 d) ≡ 32)
    (hmac : List ℕ → List ℕ → List ℕ)
    (digest : (k d : List ℕ) → (length (hmac k d) ≡ 32) × IsBytes (hmac k d))
    (front back : List RegionEntry) (wildcard e : RegionEntry) (key : List ℕ) (p : Packet)
    → first_key_for sha256 (some e) ≡ some key
    → e.flags % 2 ≡ 0
    → (q : Packet) × (scope_packet hmac key p ≡ ok q)
      × (q.header % 4 ≡ 0)
      × (r : RegionEntry) × (find_match sha256 hmac
            (record { regions = front ++ e ∷ back; wildcard = wildcard })
            q
          ≡ some r)
      × (before : ℕ) × (before ≤ length front)
      × FirstAnswer sha256 hmac q (front ++ e ∷ back) r before
unfolding find_match get_route_type
find_match-scope_packet sha256 long hmac digest front back wildcard e key p first allowed =
    let (keys, listed, size) = first_key_for-head sha256 long e key first in
    let (q, scoped, route, low, _, code, _, _, _) = scope_packet-ok hmac digest key p size in
    let answers : AnswersTo sha256 hmac q e =
      (allowed, (0, key, ap (λ ks. get_elem? ks 0) listed, code)) in
    let (r, found, before, near, rest) =
      first_match-FirstAnswer sha256 hmac q front back e answers in
    (q, scoped, route, r, ground (arith, transport q route, low, found), before, near, rest)

-- A region that a packet is matched to allows floods, and one of its keys gives the code.
pub find_match_sound :
    (sha256 : List ℕ → List ℕ) (hmac : List ℕ → List ℕ → List ℕ) (m : RegionMap) (p : Packet)
    (e : RegionEntry)
    → find_match sha256 hmac m p ≡ some e
    → (denies_flood e ≡ false)
      × (some_key_matches hmac (region_keys sha256 e) p ≡ true)
      × (has_transport_codes p ≡ true)
      × (p.transport_code_0 ≢ 0)
unfolding find_match
find_match_sound sha256 hmac m p e h =
    ground (arith, h, first_match_sound sha256 hmac m.regions p e, ==_refl 0)
