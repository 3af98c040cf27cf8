-- ===== src/Protocol/Wire/Accepted.antt =====
-- What `read_from` accepts, and what `write_to` makes of it.
use openhop_core.Prelude.{
  ℕ, ◌≤◌, ◌<◌, ◌≡◌, ◌⊎◌, inl, inr, refl, sym, ap, ◌∙◌, Bool, true, false, none, List, [], ◌∷◌, ◌++◌,
  arith, length, take, drop, ltb, Bool-cases, take-append-drop, length-take,
}
use openhop_core.Prelude.Bytes.{from_le, IsBytes, le16-from_le}
use openhop_core.Prelude.Outcome.{Result, ok}
use openhop_core.Protocol.PathLen
use openhop_core.Protocol.PathLen.{is_valid_path_len}
use openhop_core.Protocol.Packet.{Packet, has_transport_codes, get_payload_ver, get_path_byte_len}
use openhop_core.Protocol.Wire.{
  write_to, validate_payload_size, forget_frame, read_from, read_transport_codes, read_path_len,
  read_path, read_payload,
}
use openhop_core.Protocol.Wire.RoundTrip.{codes_of_header}
use openhop_core.Protocol.Wire.Frame.{code_bytes, IsSendable, write_to_iff}

-- What the stages of `read_from` make of the rest of the data.
record Tail (q : Packet) (rest : List ℕ) (p : Packet) : Type 0 where
  split : rest ≡ p.path_len ∷ (p.path ++ p.payload)
  valid : is_valid_path_len p.path_len ≡ true
  path : length p.path ≡ get_path_byte_len p
  payload : length p.payload ≡ p.payload_len
  size : p.payload_len ≤ 184
  same : p ≡ record q {
    path_len = p.path_len;
    path = p.path;
    payload = p.payload;
    payload_len = p.payload_len;
  }

read_path-done :
    (rest : List ℕ) (q p : Packet)
    → read_path rest q ≡ (ok true, p)
    → (p ≡ record q {
      path = take (get_path_byte_len q) rest;
      payload = drop (get_path_byte_len q) rest;
      payload_len = length (drop (get_path_byte_len q) rest);
    })
      × (get_path_byte_len q ≤ length rest)
      × (length (drop (get_path_byte_len q) rest) ≤ 184)
unfolding read_path read_payload validate_payload_size
read_path-done rest q p h = ground arith

read_path_len-Tail :
    (rest : List ℕ) (q p : Packet) → read_path_len rest q ≡ (ok true, p) → Tail q rest p
unfolding read_path_len
read_path_len-Tail [] q p h = absurd (ground arith)
read_path_len-Tail (b ∷ rest) q p h = elim (Bool-cases (is_valid_path_len b)) [
  | inl valid ↦
      let (done, fits, size) = read_path-done rest (record q { path_len = b }) p (ground arith) in
      rw done (record {
        split = ap (◌∷◌ b) (sym (take-append-drop (PathLen.get_path_byte_len b) rest));
        valid = valid;
        path = omega (arith, length-take (PathLen.get_path_byte_len b) rest);
        payload = refl;
        size = size;
        same = refl;
      })
  | inr bad ↦ absurd (ground arith)
]

abbrev CodesFit : Packet → Type 0
CodesFit p =
    (has_transport_codes p ≡ false) ⊎ ((p.transport_code_0 < 65536) × (p.transport_code_1 < 65536))

record Stage (q : Packet) (rest : List ℕ) (p : Packet) : Type 0 where
  split : rest ≡ code_bytes p ++ p.path_len ∷ (p.path ++ p.payload)
  codes : CodesFit p
  valid : is_valid_path_len p.path_len ≡ true
  path : length p.path ≡ get_path_byte_len p
  payload : length p.payload ≡ p.payload_len
  size : p.payload_len ≤ 184
  same : p ≡ record q {
    transport_code_0 = p.transport_code_0;
    transport_code_1 = p.transport_code_1;
    path_len = p.path_len;
    path = p.path;
    payload = p.payload;
    payload_len = p.payload_len;
  }

-- From the stage behind the codes to the stage that read them.
Stage-Tail :
    (x y : ℕ) (before rest : List ℕ) (q p : Packet)
    → Tail (record q { transport_code_0 = x; transport_code_1 = y }) rest p
    → (p.header ≡ q.header
        → p.transport_code_0 ≡ x
        → p.transport_code_1 ≡ y
        → (code_bytes p ≡ before) × CodesFit p)
    → Stage q (before ++ rest) p
Stage-Tail x y before rest q p t codes =
    let (bs, fit) =
      codes (ap (λ (r : Packet). r.header) t.same) (ap (λ (r : Packet). r.transport_code_0) t.same)
        (ap (λ (r : Packet). r.transport_code_1) t.same) in
    record {
      split = rw (bs, ← t.split);
      codes = fit;
      valid = t.valid;
      path = t.path;
      payload = t.payload;
      size = t.size;
      same = ground (arith, t.same);
    }

coded :
    (a b c d : ℕ) (rest : List ℕ) (q p : Packet)
    → IsBytes (a ∷ b ∷ c ∷ d ∷ rest)
    → has_transport_codes q ≡ true
    → read_transport_codes (a ∷ b ∷ c ∷ d ∷ rest) q ≡ (ok true, p)
    → Stage q (a ∷ b ∷ c ∷ d ∷ rest) p
unfolding read_transport_codes from_le
coded a b c d rest q p (ha, (hb, (hc, (hd, hr)))) has h =
    Stage-Tail (from_le (a ∷ b ∷ [])) (from_le (c ∷ d ∷ [])) (a ∷ b ∷ c ∷ d ∷ []) rest q p
      (read_path_len-Tail rest _ p (ground arith))
      λ header code_0 code_1. (
        rw (
          codes_of_header q p header,
          has,
          code_0,
          code_1,
          le16-from_le a b ha,
          le16-from_le c d hc,
        ),
        inr (omega arith, omega arith),
      )

read_codes-coded :
    (rest : List ℕ) (q p : Packet)
    → IsBytes rest
    → has_transport_codes q ≡ true
    → read_transport_codes rest q ≡ (ok true, p)
    → Stage q rest p
unfolding read_transport_codes
read_codes-coded (a ∷ b ∷ c ∷ d ∷ rest) q p bytes has h = coded a b c d rest q p bytes has h
read_codes-coded _ q p bytes has h = absurd (ground arith)

read_codes-Stage :
    (rest : List ℕ) (q p : Packet)
    → IsBytes rest
    → read_transport_codes rest q ≡ (ok true, p)
    → Stage q rest p
unfolding read_transport_codes
read_codes-Stage rest q p bytes h = elim (Bool-cases (has_transport_codes q)) [
  | inl has ↦ read_codes-coded rest q p bytes has h
  | inr plain ↦
      Stage-Tail 0 0 [] rest q p (read_path_len-Tail rest _ p (ground arith))
        λ header code_0 code_1.
          (rw (codes_of_header q p header, plain), inl (codes_of_header q p header ∙ plain))
]

-- A packet that `read_from` accepted: version 0, a valid path_len, buffers of the declared lengths,
-- at most 184 bytes of payload, and none of the previous frame's decisions.
pub record IsReceived (p : Packet) : Type 0 where
  pub version : get_payload_ver p ≡ 0
  pub path_len : is_valid_path_len p.path_len ≡ true
  pub path : length p.path ≡ get_path_byte_len p
  pub payload : length p.payload ≡ p.payload_len
  pub size : p.payload_len ≤ 184
  pub captured : p.recv_region_captured ≡ false
  pub key : p.recv_region_key ≡ none
  pub unscoped : p.recv_region_unscoped ≡ false
  pub scope : p.flood_scope_applied ≡ false
  pub mode : p.path_hash_mode_applied ≡ false

read_from-nil : (q p : Packet) → read_from [] q ≡ (ok true, p) → ⊥
unfolding read_from
read_from-nil q p e = cc (ap (λ (r : Result Bool × Packet). r.0) e)

byte_at : (xs : List ℕ) (b : ℕ) (ys : List ℕ) → IsBytes (xs ++ b ∷ ys) → b < 256
byte_at [] b ys h = h.0
byte_at (x ∷ xs) b ys h = byte_at xs b ys h.1

abbrev started : ℕ → Packet → Packet
started h q = record (forget_frame q) { header = h }

read_from-Stage :
    (h : ℕ) (rest : List ℕ) (q p : Packet)
    → IsBytes rest
    → read_from (h ∷ rest) q ≡ (ok true, p)
    → Stage (started h q) rest p × (get_payload_ver (started h q) ≡ 0)
unfolding read_from
read_from-Stage h rest q p bytes e = elim (Bool-cases (ltb 0 (get_payload_ver (started h q)))) [
  | inl newer ↦ absurd (ground arith)
  | inr supported ↦ (read_codes-Stage rest (started h q) p bytes (ground arith), ground arith)
]

Stage-IsSendable :
    (h : ℕ) (rest : List ℕ) (q p : Packet)
    → h < 256
    → Stage (started h q) rest p
    → IsBytes rest
    → IsSendable p
unfolding forget_frame
Stage-IsSendable h rest q p small s bytes =
    let header : p.header ≡ h = ap (λ (r : Packet). r.header) s.same in
    record {
      path = s.path;
      payload = s.payload;
      size = s.size;
      header = omega arith;
      path_len = byte_at (code_bytes p) p.path_len (p.path ++ p.payload) (rw s.split at bytes);
      codes = s.codes;
    }

-- Whatever byte string `read_from` accepts, `write_to` gives it back from the packet.
pub write_to-read_from :
    (d : List ℕ) (q p : Packet) → IsBytes d → read_from d q ≡ (ok true, p) → write_to p ≡ ok d
write_to-read_from [] q p bytes e = absurd (read_from-nil q p e)
write_to-read_from (h ∷ rest) q p bytes e =
    let (s, version) = read_from-Stage h rest q p bytes.1 e in
    let header : p.header ≡ h = unfold forget_frame in ap (λ (r : Packet). r.header) s.same in
    (write_to_iff p (h ∷ rest)).1
      (Stage-IsSendable h rest q p bytes.0 s bytes.1, ground (arith, s.split, header))

-- What `read_from` accepts has version 0, a valid path_len, buffers of the declared lengths and at
-- most 184 bytes of payload, and keeps none of the previous frame's decisions.
pub read_from-IsReceived :
    (d : List ℕ) (q p : Packet) → IsBytes d → read_from d q ≡ (ok true, p) → IsReceived p
unfolding forget_frame get_payload_ver
read_from-IsReceived [] q p bytes e = absurd (read_from-nil q p e)
read_from-IsReceived (h ∷ rest) q p bytes e =
    let (s, version) = read_from-Stage h rest q p bytes.1 e in
    record {
      version = ground (arith, version, ap (λ (r : Packet). r.header) s.same);
      path_len = s.valid;
      path = s.path;
      payload = s.payload;
      size = s.size;
      captured = ap (λ (r : Packet). r.recv_region_captured) s.same;
      key = ap (λ (r : Packet). r.recv_region_key) s.same;
      unscoped = ap (λ (r : Packet). r.recv_region_unscoped) s.same;
      scope = ap (λ (r : Packet). r.flood_scope_applied) s.same;
      mode = ap (λ (r : Packet). r.path_hash_mode_applied) s.same;
    }
