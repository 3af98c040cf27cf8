-- ===== src/Node/Forward/Trace.antt =====
-- Direct TRACE forwards: the path collects one SNR byte a hop, and its length is the raw path_len.
use openhop_core.Prelude.{
  ℕ, zero, suc, ◌+◌, ◌-◌, ◌*◌, ◌%◌, ◌<◌, ◌≡◌, refl, ◌∙◌, ap, ◌/◌, true, some, List, [], ◌∷◌, ◌++◌,
  inl, inr, length, length-append, arith, Option-cases, get_elem?,
}
use mathlib.Core.Path.{ap₂}
use openhop_core.Prelude.Int.{low_byte}
use openhop_core.Prelude.Outcome.{ok, raise, value_error}
use openhop_core.Protocol.PathLen
use openhop_core.Protocol.PathLen.{is_valid_path_len}
use openhop_core.Protocol.PathLen.Laws.{is_valid_path_len_iff}
use openhop_core.Protocol.Packet.{Packet}
use openhop_core.Protocol.Wire.{write_to}
use openhop_core.Protocol.Wire.Frame.{IsSendable}
use openhop_core.Node.Forward.{copy_packet_for_forward, build_trace_forward, put_snr}
use openhop_core.Node.Forward.Flood.{IsRelayable, SameMessage, copy-IsRelayable, copy-SameMessage}

mismatch :
    (f : Packet) (path : List ℕ)
    → f.path ≡ path
    → f.path_len ≡ 64
    → 0 < length path
    → write_to f ≡ raise value_error
unfolding write_to PathLen.get_path_byte_len
mismatch f path e len pos = ground arith

put_snr-append : (n x : ℕ) (path : List ℕ) → length path ≡ n → put_snr n x path ≡ path ++ x ∷ []
unfolding put_snr
put_snr-append zero x [] h = refl
put_snr-append zero x (y ∷ path) h = absurd (omega arith)
put_snr-append (suc n) x [] h = absurd (omega arith)
put_snr-append (suc n) x (y ∷ path) h =
    let e : suc n + 1 - suc (length path) ≡ n + 1 - length path = omega arith in
    rw e (ap (◌∷◌ y) (put_snr-append n x path (omega arith)))

plain_byte_len : (b : ℕ) → b < 64 → PathLen.get_path_byte_len b ≡ b
unfolding PathLen.get_path_byte_len
plain_byte_len b h =
    let hops : b % 64 ≡ b = omega arith in
    let size : b / 64 + 1 ≡ 1 = omega arith in ap₂ ◌*◌ hops size ∙ omega arith

plain_valid : (b : ℕ) → b < 64 → is_valid_path_len b ≡ true
unfolding PathLen.get_path_hash_size
plain_valid b h = (is_valid_path_len_iff b).1 (omega arith, omega (arith, plain_byte_len b h))

-- What a TRACE forward is, where there is one.
trace_forward :
    (p f : Packet) (self_key : List ℕ)
    → build_trace_forward p self_key ≡ ok (some f)
    → (f ≡ record (copy_packet_for_forward p) {
      path = put_snr p.path_len (low_byte p.snr) p.path;
      path_len = p.path_len + 1;
    })
      × (p.path_len < 64)
unfolding build_trace_forward
trace_forward p f self_key h = elim (Option-cases (get_elem? p.payload 8)) [
  | inl e ↦ absurd (ground arith)
  | inr (flags, e) ↦ ground arith
]

-- When a packet that can be serialized and read, with a path_len below 63, is forwarded as a
-- TRACE, this node's SNR, in quarters of a decibel as a byte, stands at the end of its path and
-- the path_len is one more; the message is the same, and the forward can be serialized and read.
pub build_trace_forward-appends :
    (p f : Packet) (self_key : List ℕ)
    → IsRelayable p
    → p.path_len < 63
    → build_trace_forward p self_key ≡ ok (some f)
    → IsRelayable f
      × SameMessage p f
      × (f.path ≡ p.path ++ low_byte p.snr ∷ [])
      × (f.path_len ≡ p.path_len + 1)
build_trace_forward-appends p f self_key r short h =
    let (same, fits) = trace_forward p f self_key h in
    let b = p.path_len + 1 in
    let grown =
      put_snr-append p.path_len (low_byte p.snr) p.path
        (r.sendable.path ∙ plain_byte_len p.path_len fits) in
    rw (same, grown)
      (
        copy-IsRelayable p (p.path ++ low_byte p.snr ∷ []) b r.sendable
            (omega (
              arith,
              length-append p.path (low_byte p.snr ∷ []),
              r.sendable.path,
              plain_byte_len p.path_len fits,
              plain_byte_len b (omega arith),
            ))
            (omega arith) (plain_valid b (omega arith)),
        copy-SameMessage p (p.path ++ low_byte p.snr ∷ []) b,
        refl,
        refl,
      )

-- When a packet that can be serialized, with path_len 63, is forwarded as a TRACE, its path_len
-- is 64, which means no hops, so that serializing the forward raises a ValueError.
pub build_trace_forward-overflow :
    (p f : Packet) (self_key : List ℕ)
    → IsSendable p
    → p.path_len ≡ 63
    → build_trace_forward p self_key ≡ ok (some f)
    → write_to f ≡ raise value_error
build_trace_forward-overflow p f self_key s full h =
    let (same, fits) = trace_forward p f self_key h in
    let grown =
      put_snr-append p.path_len (low_byte p.snr) p.path (s.path ∙ plain_byte_len p.path_len fits) in
    mismatch f (p.path ++ low_byte p.snr ∷ []) (ground (arith, same, grown)) (ground (arith, same))
      (omega (arith, length-append p.path (low_byte p.snr ∷ [])))
