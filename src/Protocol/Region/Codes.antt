-- ===== src/Protocol/Region/Codes.antt =====
-- Transport codes: `calc_transport_code` and `scope_packet`.
use openhop_core.Prelude.{
  ℕ, ◌+◌, ◌-◌, ◌/◌, ◌%◌, ◌≤◌, ◌<◌, ◌≡◌, refl, ◌∙◌, List, [], ◌∷◌, arith, ==_iff, length, take,
}
use openhop_core.Prelude.Outcome.{ok}
use openhop_core.Protocol.Constants.{route_type_transport_flood}
use openhop_core.Protocol.Packet.{Packet, get_route_type, get_payload_type, get_payload}
use openhop_core.Prelude.Bytes.{IsBytes, from_le}
use openhop_core.Protocol.Region.{reserve, calc_transport_code, scope_packet}

-- Changing a packet's codes and route type leaves what its code is computed from.
pub calc_transport_code-rescoped :
    (hmac : List ℕ → List ℕ → List ℕ) (key : List ℕ) (p q : Packet)
    → get_payload_type q ≡ get_payload_type p
    → get_payload q ≡ get_payload p
    → calc_transport_code hmac key q ≡ calc_transport_code hmac key p
unfolding calc_transport_code
calc_transport_code-rescoped hmac key p q t d = rw (t, d) refl

rescoped_type : (h : ℕ) → (h - h % 4 + 0) / 4 % 16 ≡ h / 4 % 16
rescoped_type h = omega arith

pub scoped_route : (h : ℕ) → (h - h % 4 + 0) % 4 ≡ 0
scoped_route h = omega arith

reserve-range : (n : ℕ) → n < 65536 → (1 ≤ reserve n) × (reserve n ≤ 65534)
unfolding reserve
reserve-range n h = ground (arith, h, ==_iff n 0, ==_iff n 65535)

two_bytes : (xs : List ℕ) → IsBytes xs → from_le (take 2 xs) < 65536
unfolding from_le
two_bytes [] b = omega arith
two_bytes (x ∷ []) b = ground (arith, b)
two_bytes (x ∷ y ∷ xs) b = ground (arith, b)

two_of : (xs : List ℕ) → length xs ≡ 32 → length (take 2 xs) ≡ 2
two_of [] h = ground (arith, h)
two_of (x ∷ []) h = ground (arith, h)
two_of (x ∷ y ∷ xs) h = refl

calc_transport_code-ok :
    (hmac : List ℕ → List ℕ → List ℕ)
    (digest : (k d : List ℕ) → (length (hmac k d) ≡ 32) × IsBytes (hmac k d)) (key : List ℕ)
    (p : Packet)
    → length key ≡ 16
    → (n : ℕ) × (calc_transport_code hmac key p ≡ ok n) × (1 ≤ n) × (n ≤ 65534)
unfolding calc_transport_code
calc_transport_code-ok hmac digest key p size =
    let code = hmac key (get_payload_type p ∷ get_payload p) in
    let (long, bytes) = digest key (get_payload_type p ∷ get_payload p) in
    let (low, high) = reserve-range (from_le (take 2 code)) (two_bytes code bytes) in
    (reserve (from_le (take 2 code)), simp (size, two_of code long) refl, low, high)

payload_type_rescoped :
    (p q : Packet)
    → q.header ≡ p.header - p.header % 4 + 0
    → (get_payload_type q ≡ get_payload_type p) × (get_route_type q ≡ 0)
unfolding get_payload_type get_route_type
payload_type_rescoped p q e = rw (e) (rescoped_type p.header, scoped_route p.header)

payload_of :
    (p q : Packet)
    → q.payload ≡ p.payload
    → q.payload_len ≡ p.payload_len
    → get_payload q ≡ get_payload p
unfolding get_payload
payload_of p q e l = rw (e, l) refl

-- With an HMAC of 32 bytes, a key of 16 bytes scopes every packet: the packet becomes a
-- transport flood with a code from 1 to 65534, which is the code that the key gives the scoped
-- packet too, and its payload and path stay.
pub scope_packet-ok :
    (hmac : List ℕ → List ℕ → List ℕ)
    (digest : (k d : List ℕ) → (length (hmac k d) ≡ 32) × IsBytes (hmac k d)) (key : List ℕ)
    (p : Packet)
    → length key ≡ 16
    → (q : Packet) × (scope_packet hmac key p ≡ ok q)
      × (get_route_type q ≡ route_type_transport_flood)
      × (1 ≤ q.transport_code_0)
      × (q.transport_code_0 ≤ 65534)
      × (calc_transport_code hmac key q ≡ ok q.transport_code_0)
      × (get_payload_type q ≡ get_payload_type p)
      × (get_payload q ≡ get_payload p)
      × (q.path ≡ p.path)
unfolding scope_packet
scope_packet-ok hmac digest key p size =
    let (n, e, low, high) = calc_transport_code-ok hmac digest key p size in
    let q : Packet = record p {
      transport_code_0 = n;
      transport_code_1 = 0;
      header = p.header - p.header % 4 + route_type_transport_flood;
    } in
    let (type, route) = payload_type_rescoped p q refl in
    let same = payload_of p q refl refl in
    (
      q,
      simp (e) refl,
      route,
      low,
      high,
      calc_transport_code-rescoped hmac key p q type same ∙ e,
      type,
      same,
      refl,
    )
