-- ===== src/Tests/Samples.antt =====
-- Packets, their bytes and a node's key, for the tests; and a hash and a MAC of 32 bytes that can
-- be computed.
use openhop_core.Prelude.{ℕ, ◌+◌, ◌%◌, ◌≡◌, refl, List, [], ◌∷◌, length, replicate, arith}
use openhop_core.Prelude.Bytes.{IsBytes}
use openhop_core.Prelude.Int.{negsuc}
use openhop_core.Protocol.Packet.{Packet, init}

-- A text by flood: two hops of one byte, three bytes of payload.
abbrev pub text : Packet
text = record init {
  header = 9;
  path = 1 ∷ 2 ∷ [];
  path_len = 2;
  payload = 5 ∷ 6 ∷ 7 ∷ [];
  payload_len = 3;
}

abbrev pub text_bytes : List ℕ
text_bytes = 9 ∷ 2 ∷ 1 ∷ 2 ∷ 5 ∷ 6 ∷ 7 ∷ []

-- The same text routed direct: this node, 1, is the next hop.
abbrev pub routed : Packet
routed = record text { header = 10 }

-- A TRACE routed direct with this node's hash as its one hop, and a negative SNR.
abbrev pub trace : Packet
trace = record init {
  header = 38;
  payload = 1 ∷ 0 ∷ 0 ∷ 0 ∷ 0 ∷ 0 ∷ 0 ∷ 0 ∷ 0 ∷ 1 ∷ [];
  payload_len = 10;
  snr = negsuc 7;
}

abbrev pub self_key : List ℕ
self_key = 1 ∷ 17 ∷ 33 ∷ 49 ∷ []

abbrev pub toy_sha256 : List ℕ → List ℕ
toy_sha256 d = length d % 256 ∷ replicate 31 1

abbrev pub toy_hmac : List ℕ → List ℕ → List ℕ
toy_hmac k d = (length k + length d) % 256 ∷ replicate 31 7

pub toy_sha256-long : (d : List ℕ) → length (toy_sha256 d) ≡ 32
toy_sha256-long d = refl

pub toy_hmac-digest : (k d : List ℕ) → (length (toy_hmac k d) ≡ 32) × IsBytes (toy_hmac k d)
toy_hmac-digest k d = (refl, ground arith)
