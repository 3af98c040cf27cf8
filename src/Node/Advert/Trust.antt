-- ===== src/Node/Advert/Trust.antt =====
-- What `AdvertHandler` of node/handlers/advert.py has checked of an advert that it accepts.
use openhop_core.Prelude.{
  ◌⊎◌, ◌≢◌, inr, ℕ, ◌+◌, ◌*◌, ◌≤◌, ◌/◌, ◌%◌, ◌≡◌, refl, sym, ap, ◌∙◌, inl, inr, Bool, true, false,
  not, Option, none, some, List, [], ◌∷◌, ◌++◌, arith, if◌then◌else◌, ltb, ◌==◌, length, take, drop,
  All-take, All-drop, length-take, length-drop, Bool-cases,
}
use mathlib.Core.Path.{subst}
use openhop_core.Prelude.Outcome.{value_error, Result, ok, raise}
use openhop_core.Prelude.Bytes.{bytes_eq-of_eq, from_le, le32, IsBytes, IsByte}
use openhop_core.Protocol.Packet.{Packet, get_payload}
use openhop_core.Protocol.Advert.{
  ParsedAdvert, parse_advert_payload, is_self_advert, decode_appdata,
}
use openhop_core.Protocol.Advert.Fields.{not_raised, ok_injective}
use openhop_core.Node.Advert.{
  Advert, Event, verify_advert_signature, event_of, named_advert, accept_verified, handle_parsed,
  handle_advert,
}

-- Code that returned None in no branch.
kept {ℓ} :
    {A : Type ℓ} (stop : Bool) (m : Option A) (y : A)
    → (if stop then none else m) ≡ some y
    → (stop ≡ false) × (m ≡ some y)
kept true m y h = cc
kept false m y h = (refl, h)

caught {ℓ κ} :
    {A : Type ℓ} {B : Type κ} (m : Result A) (next : A → Option B) (y : B)
    → (elim m as (λ _. Option B) [ raise e ↦ none | ok x ↦ next x ]) ≡ some y
    → (x : A) × (m ≡ ok x) × (next x ≡ some y)
caught (raise e) next y h = cc
caught (ok x) next y h = (x, refl, h)

present {ℓ κ} :
    {A : Type ℓ} {B : Type κ} (m : Option A) (next : A → Option B) (y : B)
    → (elim m as (λ _. Option B) [ none ↦ none | some x ↦ next x ]) ≡ some y
    → (x : A) × (m ≡ some x) × (next x ≡ some y)
present none next y h = cc
present (some x) next y h = (x, refl, h)

some_injective {ℓ} : {A : Type ℓ} (x y : A) → some x ≡ some y → x ≡ y
some_injective x y e = cc

-- Four bytes read as a number and written again.
pub le32-from_le :
    (bytes : List ℕ) → IsBytes bytes → length bytes ≡ 4 → le32 (from_le bytes) ≡ bytes
unfolding le32 from_le
le32-from_le (a ∷ b ∷ c ∷ d ∷ []) (ha, (hb, (hc, (hd, e)))) size =
    let n = a + 256 * (b + 256 * (c + 256 * (d + 0))) in
    let first : n % 256 ≡ a = omega arith in
    let second : n / 256 % 256 ≡ b = omega arith in
    let third : n / 65536 % 256 ≡ c = omega arith in
    let fourth : n / 16777216 ≡ d = omega arith in
    rw (first) (rw (second) (rw (third) (rw (fourth) refl)))
le32-from_le (a ∷ b ∷ c ∷ d ∷ x ∷ xs) h size = absurd (omega (arith, size))
le32-from_le (a ∷ b ∷ c ∷ []) h size = absurd (omega (arith, size))
le32-from_le (a ∷ b ∷ []) h size = absurd (omega (arith, size))
le32-from_le (a ∷ []) h size = absurd (omega (arith, size))
le32-from_le [] h size = absurd (omega (arith, size))

clamped : (now t : ℕ) → (if ltb now t then now else t) ≤ now
clamped now t = elim (Bool-cases (ltb now t)) [
  | inl ahead ↦ rw (ahead) (omega arith)
  | inr past ↦ rw (past) (ground (arith, past))
]

accept_verified-checked :
    (p : Packet) (now : ℕ) (parsed : ParsedAdvert) (appdata : List ℕ) (advert : Advert)
    (event : Event)
    → accept_verified p now parsed appdata ≡ some (advert, event)
    → (advert.public_key ≡ parsed.pubkey)
      × (advert.advert_timestamp ≤ now)
      × (event.advert ≡ advert)
unfolding accept_verified named_advert event_of
accept_verified-checked p now parsed appdata advert event h =
    let (decoded, read, h1) = caught (decode_appdata appdata) _ _ h in
    let (name, named, h2) = present decoded.node_name _ _ h1 in
    let same : (
      named_advert p now parsed decoded name,
      event_of p (named_advert p now parsed decoded name),
    )
        ≡ (advert, event) =
      some_injective _ _ h2 in
    let one : named_advert p now parsed decoded name ≡ advert = ap (λ r. r.0) same in
    let other : event_of p (named_advert p now parsed decoded name) ≡ event = ap (λ r. r.1) same in
    (
      ap (λ (a : Advert). a.public_key) (sym one),
      subst (λ (a : Advert). a.advert_timestamp ≤ now) one (clamped now parsed.timestamp),
      ap (λ (e : Event). e.advert) (sym other) ∙ one,
    )

unnegated : (b : Bool) → not b ≡ false → b ≡ true
unnegated true h = refl
unnegated false h = cc

not_stopped : (stop m : Bool) → (if stop then false else m) ≡ true → m ≡ true
not_stopped true m h = cc
not_stopped false m h = h

long_enough : (xs : List ℕ) → ltb (length xs) 100 ≡ false → 100 ≤ length xs
long_enough xs h = ground (arith, h)

-- A signature that passed.
passed_test :
    (verify : List ℕ → List ℕ → List ℕ → Bool) (key stamp appdata signature : List ℕ)
    → verify_advert_signature verify key stamp appdata signature ≡ true
    → verify key (key ++ (stamp ++ appdata)) signature ≡ true
unfolding verify_advert_signature
passed_test verify key stamp appdata signature h =
    let m = verify key (key ++ (stamp ++ appdata)) signature in
    let sized = not (length signature == 64) in
    not_stopped sized m (not_stopped (not (length key == 32)) (if sized then false else m) h)

-- What the test for the node's own advert leaves.
not_own :
    (payload self_key key : List ℕ)
    → 100 ≤ length payload
    → key ≡ take 32 payload
    → is_self_advert payload self_key ≡ false
    → (self_key ≡ []) ⊎ (key ≢ self_key)
unfolding is_self_advert
not_own payload [] key long carried foreign = inl refl
not_own payload (b ∷ bs) key long carried foreign = inr (λ own.
    let equal = bytes_eq-of_eq (take 32 payload) (b ∷ bs) (sym carried ∙ own) in
    ground (arith, foreign, equal, long))

same_check :
    (verify : List ℕ → List ℕ → List ℕ → Bool) (key k k' t t' d d' s s' : List ℕ)
    → key ≡ k
    → k ≡ k'
    → t ≡ t'
    → d ≡ d'
    → s ≡ s'
    → verify k (k ++ (t ++ d)) s ≡ true
    → verify key (k' ++ (t' ++ d')) s' ≡ true
same_check verify key k k' t t' d d' s s' e0 e1 e2 e3 e4 h = cc

-- An advert that is accepted from a payload of bytes is not the node's own, and the payload has
-- 100 bytes or more. Its signature was verified with the key that it carries, over that key, its
-- timestamp and at most 32 bytes of its data as they stand in the payload. It is not dated after
-- the clock, and the event is about the same advert.
pub handle_advert-verified :
    (verify : List ℕ → List ℕ → List ℕ → Bool) (self_key : List ℕ) (now : ℕ) (p : Packet)
    (advert : Advert) (event : Event)
    → IsBytes (get_payload p)
    → handle_advert verify self_key now p ≡ some (advert, event)
    → (100 ≤ length (get_payload p))
      × (advert.public_key ≡ take 32 (get_payload p))
      × (verify advert.public_key
            (take 32 (get_payload p)
              ++ (take 4 (drop 32 (get_payload p)) ++ take 32 (drop 100 (get_payload p))))
            (take 64 (drop 36 (get_payload p)))
          ≡ true)
      × ((self_key ≡ []) ⊎ (advert.public_key ≢ self_key))
      × (advert.advert_timestamp ≤ now)
      × (event.advert ≡ advert)
unfolding handle_advert handle_parsed parse_advert_payload
handle_advert-verified verify self_key now p advert event bytes h =
    let payload = get_payload p in
    let (parsed, read, h1) = caught (parse_advert_payload payload) _ _ h in
    let (foreign, h2) = kept (is_self_advert payload self_key) _ _ h1 in
    let (trusted, h3) =
      kept
        (not (
          verify_advert_signature verify parsed.pubkey (le32 parsed.timestamp)
            (take 32 parsed.appdata) parsed.signature))
        _ _ h2 in
    let (keyed, dated, same) =
      accept_verified-checked p now parsed (take 32 parsed.appdata) advert event h3 in
    let (long, is_parsed) = not_raised (ltb (length payload) 100) value_error _ parsed read in
    let e = ok_injective _ _ is_parsed in
    let key : advert.public_key ≡ take 32 payload =
      keyed ∙ ap (λ (q : ParsedAdvert). q.pubkey) (sym e) in
    let stamp : le32 parsed.timestamp ≡ take 4 (drop 32 payload) =
      ap (λ (q : ParsedAdvert). le32 q.timestamp) (sym e)
      ∙ le32-from_le (take 4 (drop 32 payload))
          (All-take IsByte 4 (drop 32 payload) (All-drop IsByte 32 payload bytes))
          (omega (
            arith,
            long_enough payload long,
            length-take 4 (drop 32 payload),
            length-drop 32 payload,
          )) in
    let signed =
      passed_test verify parsed.pubkey (le32 parsed.timestamp) (take 32 parsed.appdata)
        parsed.signature (unnegated _ trusted) in
    (
      long_enough payload long,
      key,
      same_check verify advert.public_key parsed.pubkey (take 32 payload) (le32 parsed.timestamp)
          (take 4 (drop 32 payload)) (take 32 parsed.appdata) (take 32 (drop 100 payload))
          parsed.signature (take 64 (drop 36 payload)) keyed
          (ap (λ (q : ParsedAdvert). q.pubkey) (sym e)) stamp
          (ap (λ (q : ParsedAdvert). take 32 q.appdata) (sym e))
          (ap (λ (q : ParsedAdvert). q.signature) (sym e)) signed,
      not_own payload self_key advert.public_key (long_enough payload long) key foreign,
      dated,
      same,
    )
