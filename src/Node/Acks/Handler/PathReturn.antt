-- ===== src/Node/Acks/Handler/PathReturn.antt =====
-- A path return with an ACK in it, from `create_path_return` of protocol/packet_builder.py to
-- `process_path_ack_variants` of node/handlers/ack.py.
use openhop_core.Prelude.{
  ℕ, suc, ◌≤◌, ◌<◌, ◌≡◌, refl, ◌∙◌, ◌≢◌, Bool, true, false, Option, some, List, [], ◌∷◌, ◌++◌,
  arith, if◌then◌else◌, leb, ==_refl, length, get_or, take, drop, All-append,
}
use openhop_core.Prelude.Dict.{nat_key, bytes_key}
use openhop_core.Prelude.Outcome.{Error, value_error, Result, ok, raise, >>=-eq-ok}
use mathlib.Core.Path.{subst}
use openhop_core.Prelude.Bytes.{from_le, IsBytes}
use openhop_core.Protocol.Constants.{payload_type_ack, payload_type_path}
use openhop_core.Protocol.Crypto.{Cipher, IsCipher, encrypt_then_mac, padded}
use openhop_core.Protocol.Packet.{Packet}
use openhop_core.Protocol.Builder.{
  flood, create_route_header, create_packet, create_path_return, first_byte, path_return_inner,
}
use openhop_core.Node.Forward.Flood.{valid-lt}
use openhop_core.Node.Acks.Handler.{
  iter_decrypt_by_src_hash, try_decrypt_encrypted_ack, process_path_ack_variants,
}
use openhop_core.Node.Acks.Handler.Extraction.{
  payload-create_packet, first_byte-valid, ack_extra-path_return_inner, NoneOpens,
  iter_decrypt-skip, decrypt_from-encrypt_then_mac,
}

-- A contact's key and the secret that both sides compute from it, in a list of contacts of which
-- none before it opens the message.
pub record Reaches (c : Cipher) (secret_with : List ℕ → Option (List ℕ)) (before : List (List ℕ))
    (key secret : List ℕ) (src_hash : ℕ) (encrypted : List ℕ) : Type 0 where
  pub key_size : length key ≡ 32
  pub key_named : get_or key 0 256 ≡ src_hash
  pub shared : secret_with key ≡ some secret
  pub others_fail : NoneOpens c secret_with src_hash encrypted before

pub not_raised :
    {A : Type 0} (b : Bool) (e : Error) (m : Result A) {a : A}
    → (if b then raise e else m) ≡ ok a
    → m ≡ ok a
not_raised true e m h = cc
not_raised false e m h = h

sealed :
    (c : Cipher) (dest src : ℕ) (secret path extra : List ℕ) (enc : Option ℕ) (random : List ℕ)
    (p : Packet)
    → create_path_return c dest src secret path payload_type_ack extra enc random ≡ ok p
    → (first : ℕ) × (first_byte path enc ≡ ok first)
      × (p.payload
          ≡ dest
            ∷ src
            ∷ encrypt_then_mac c
                (take 16 secret)
                secret
                (path_return_inner first path payload_type_ack extra random))
unfolding create_path_return
sealed c dest src secret path extra enc random p h =
    let (first, fits, made) =
      >>=-eq-ok (first_byte path enc)
        (λ first. create_packet (create_route_header payload_type_path flood false) (
          dest
          ∷ src
          ∷ encrypt_then_mac c (take 16 secret) secret
              (path_return_inner first path payload_type_ack extra random)))
        (not_raised _ value_error _ h) in
    (first, fits, payload-create_packet _ _ p made)

inner-IsBytes :
    (first : ℕ) (path ack random : List ℕ) (enc : Option ℕ)
    → first_byte path enc ≡ ok first
    → IsBytes path
    → IsBytes ack
    → 4 ≤ length ack
    → IsBytes (path_return_inner first path payload_type_ack ack random)
unfolding path_return_inner
inner-IsBytes first path [] random enc fits paths acks long = absurd (omega (arith, long))
inner-IsBytes first path (b ∷ ack) random enc fits paths acks long = (
  valid-lt first (first_byte-valid path enc first fits).0,
  All-append (λ b. b < 256) path (payload_type_ack ∷ b ∷ ack) paths (omega arith, acks),
)

inner_filled :
    (first : ℕ) (path ack random : List ℕ)
    → path_return_inner first path payload_type_ack ack random ≢ []
unfolding path_return_inner
inner_filled first path [] random e = cc
inner_filled first path (b ∷ ack) random e = cc

pub opened :
    (c : Cipher) (laws : IsCipher c) (secret_with : List ℕ → Option (List ℕ))
    (before after : List (List ℕ)) (key secret : List ℕ) (src_hash : ℕ) (plain : List ℕ)
    → Reaches c secret_with before key secret src_hash
        (encrypt_then_mac c (take 16 secret) secret plain)
    → IsBytes plain
    → plain ≢ []
    → (rest : List (List ℕ × List ℕ × List ℕ)) × (iter_decrypt_by_src_hash c secret_with
          (before ++ key ∷ after)
          src_hash
          (encrypt_then_mac c (take 16 secret) secret plain)
        ≡ (key, secret, padded plain) ∷ rest)
unfolding iter_decrypt_by_src_hash
opened c laws secret_with before after key secret src_hash plain r bytes filled =
    let encrypted = encrypt_then_mac c (take 16 secret) secret plain in
    let found =
      decrypt_from-encrypt_then_mac c laws secret_with src_hash key secret plain r.key_size
        r.key_named r.shared bytes filled in
    (
      iter_decrypt_by_src_hash c secret_with after src_hash encrypted,
      iter_decrypt-skip c secret_with src_hash encrypted before (key ∷ after) r.others_fail
          ∙ rw (iter_decrypt_by_src_hash, found) refl,
    )

two_bytes : (n : ℕ) → leb 2 (suc (suc n)) ≡ true
two_bytes n = ground arith

-- A path return with an ACK of 4 bytes or more, sent to a node: if the sender's key is a contact
-- there, with the secret that the sender used, and no contact before it opens the message, then
-- the node finds the ACK's first 4 bytes as the CRC, whatever path and path_len byte came along.
pub process_path_ack_variants-create_path_return :
    (c : Cipher) (laws : IsCipher c) (secret_with : List ℕ → Option (List ℕ))
    (before after : List (List ℕ)) (self_key key secret path ack : List ℕ) (enc : Option ℕ)
    (random : List ℕ) (dest src : ℕ) (p : Packet)
    → create_path_return c dest src secret path payload_type_ack ack enc random ≡ ok p
    → Reaches c secret_with before key secret src (drop 2 p.payload)
    → get_or self_key 0 257 ≡ dest
    → IsBytes path
    → IsBytes ack
    → 4 ≤ length ack
    → process_path_ack_variants c secret_with self_key (before ++ key ∷ after) p.payload
      ≡ some (from_le (take 4 ack))
unfolding process_path_ack_variants try_decrypt_encrypted_ack padded
process_path_ack_variants-create_path_return c laws secret_with before after self_key key secret
      path ack enc random dest src p made r addressed paths acks long =
    let (first, fits, laid_out) = sealed c dest src secret path ack enc random p made in
    let inner = path_return_inner first path payload_type_ack ack random in
    let (rest, found) =
      opened c laws secret_with before after key secret src inner
        (subst (λ payload. Reaches c secret_with before key secret src (drop 2 payload)) laid_out r)
        (inner-IsBytes first path ack random enc fits paths acks long)
        (inner_filled first path ack random) in
    rw (laid_out) (
      rw (two_bytes (length (encrypt_then_mac c (take 16 secret) secret inner))) (
        rw (addressed) (
          rw (==_refl dest) (
            rw (try_decrypt_encrypted_ack, found)
              (ack_extra-path_return_inner first path ack enc random _ fits long)))))
