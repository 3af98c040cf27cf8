-- ===== src/Node/Text/Journey.antt =====
-- The ACK packets that node/handlers/text.py sends, read by the handlers of the node that sent the
-- message: from `build_ack_responses` to the CRC.
use openhop_core.Prelude.{
  ℕ, ◌≤◌, ◌<◌, ◌≡◌, refl, sym, ap, ◌∙◌, ◌⊎◌, inl, inr, Bool, true, false, Option, none, some, List,
  [], ◌∷◌, ◌++◌, arith, if◌then◌else◌, ◌==◌, Bool-cases, Option-cases, length, get_or, take, drop,
  All, All-take,
}
use openhop_core.Prelude.Outcome.{Result, ok, >>=-eq-ok}
use mathlib.Core.Path.{subst}
use openhop_core.Prelude.Bytes.{from_le, IsBytes}
use openhop_core.Protocol.Constants.{payload_type_ack}
use openhop_core.Protocol.Crypto.{Cipher, IsCipher}
use openhop_core.Protocol.Packet.{Packet, get_payload_type, is_route_flood}
use openhop_core.Protocol.PathLen.{is_valid_path_len}
use openhop_core.Protocol.Builder.{
  flood, direct, create_ack_from_bytes, create_multi_ack, create_path_return,
}
use openhop_core.Protocol.Region.{apply_reply_scope}
use openhop_core.Node.Acks.Handler.{decrypt_from, ack_in}
use openhop_core.Node.Acks.Handler.Extraction.{
  payload-create_ack_from_bytes, payload-create_multi_ack, process_discrete_ack-long,
  extract_ack_crc-wrapped, NoneOpens,
}
use openhop_core.Node.Acks.Handler.PathReturn.{
  Reaches, process_path_ack_variants-create_path_return,
}
use openhop_core.Node.Text.{
  Contact, taught_path, known_path, answer_flood, answer_unknown, answer_direct,
  build_ack_responses,
}
use openhop_core.Node.Text.Confirm.{
  SameBody, apply_reply_scope-SameBody, type-create_ack_from_bytes, type-create_multi_ack,
  type-create_path_return,
}

-- A contact that shares a secret with this node, behind contacts whose keys begin otherwise.
pub record IsPeer (secret_with : List ℕ → Option (List ℕ)) (before : List (List ℕ))
    (key secret : List ℕ) : Type 0 where
  pub key_size : length key ≡ 32
  pub shared : secret_with key ≡ some secret
  pub unlike : All (λ other. (get_or other 0 256 == get_or key 0 0) ≡ false) before

first_of_key : (key : List ℕ) (d e : ℕ) → length key ≡ 32 → get_or key 0 d ≡ get_or key 0 e
first_of_key [] d e h = absurd (omega (arith, h))
first_of_key (b ∷ key) d e h = refl

shut :
    (c : Cipher) (secret_with : List ℕ → Option (List ℕ)) (src_hash : ℕ) (encrypted key : List ℕ)
    → (get_or key 0 256 == src_hash) ≡ false
    → decrypt_from c secret_with src_hash encrypted key ≡ none
unfolding decrypt_from
shut c secret_with src_hash encrypted key h = ground (arith, h)

All-shut :
    (c : Cipher) (secret_with : List ℕ → Option (List ℕ)) (src_hash : ℕ) (encrypted : List ℕ)
    (before : List (List ℕ))
    → All (λ other. (get_or other 0 256 == src_hash) ≡ false) before
    → NoneOpens c secret_with src_hash encrypted before
All-shut c secret_with src_hash encrypted [] h = tt
All-shut c secret_with src_hash encrypted (key ∷ before) (one, rest) = (
  shut c secret_with src_hash encrypted key one,
  All-shut c secret_with src_hash encrypted before rest,
)

pub IsPeer-Reaches :
    (c : Cipher) (secret_with : List ℕ → Option (List ℕ)) (before : List (List ℕ))
    (key secret encrypted : List ℕ)
    → IsPeer secret_with before key secret
    → Reaches c secret_with before key secret (get_or key 0 0) encrypted
IsPeer-Reaches c secret_with before key secret encrypted peer = record {
  key_size = peer.key_size;
  key_named = first_of_key key 256 0 peer.key_size;
  shared = peer.shared;
  others_fail = All-shut c secret_with (get_or key 0 0) encrypted before peer.unlike;
}

pub ok_injective : {A : Type 0} (a b : A) → ok a ≡ ok b → a ≡ b
ok_injective a b e = cc

picked : {A : Type 0} (b : Bool) (x y z : A) → (if b then x else y) ≡ z → (x ≡ z) ⊎ (y ≡ z)
picked true x y z e = inl e
picked false x y z e = inr e

module _ (c : Cipher) (laws : IsCipher c) (hmac : List ℕ → List ℕ → List ℕ)
    (secret_with : List ℕ → Option (List ℕ)) (before after : List (List ℕ)) (k : Contact)
    (peer_key secret : List ℕ) (author_size : length k.public_key ≡ 32)
    (peer : IsPeer secret_with before peer_key secret) (ack : List ℕ) (long : 4 ≤ length ack) where
  -- The author of the message reads the CRC in the packet.
  abbrev pub Reads : Packet → Type 0
  Reads p =
      ack_in c secret_with k.public_key (before ++ peer_key ∷ after) p ≡ some (from_le (take 4 ack))

  ack-Reads : (p : Packet) → get_payload_type p ≡ payload_type_ack → p.payload ≡ ack → Reads p
  unfolding ack_in
  ack-Reads p typed holds = rw (typed) (rw (holds) (process_discrete_ack-long ack long))

  multi-Reads :
      (p : Packet) (path : List ℕ) (enc : Option ℕ)
      → create_multi_ack ack 1 path enc ≡ ok p
      → Reads p
  unfolding ack_in
  multi-Reads p path enc made =
      rw (type-create_multi_ack ack path 1 enc p made)
        (rw (payload-create_multi_ack ack path 1 enc p made) (extract_ack_crc-wrapped 1 ack long))

  path-Reads :
      (p q : Packet) (path random : List ℕ) (enc : Option ℕ)
      → create_path_return c
          (get_or k.public_key 0 0)
          (get_or peer_key 0 0)
          secret
          path
          payload_type_ack
          ack
          enc
          random
        ≡ ok p
      → IsBytes path
      → IsBytes ack
      → SameBody p q
      → Reads q
  unfolding ack_in
  path-Reads p q path random enc made paths acks (same_payload, same_type) =
      rw
        (same_type
          ∙ type-create_path_return c _ _ secret path payload_type_ack ack enc random p made)
        (rw (same_payload) (
          process_path_ack_variants-create_path_return c laws secret_with before after k.public_key
            peer_key secret path ack enc random (get_or k.public_key 0 0) (get_or peer_key 0 0) p
            made (IsPeer-Reaches c secret_with before peer_key secret (drop 2 p.payload) peer)
            (first_of_key k.public_key 257 0 author_size) paths acks long))

  taught-IsBytes : (request : Packet) → IsBytes request.path → IsBytes (taught_path request).0
  unfolding taught_path
  taught-IsBytes request bytes = elim (Bool-cases (is_valid_path_len request.path_len)) [
    | inl valid ↦ rw (valid) (All-take (λ b. b < 256) _ request.path bytes)
    | inr invalid ↦ rw (invalid) tt
  ]

  -- There is an answer, and the author reads the CRC in each packet of it.
  abbrev pub AllRead : List (Packet × ℕ) → Type 0
  AllRead packets = (0 < length packets) × All (λ r. Reads r.0) packets

  returned : (xs packets : List (Packet × ℕ)) → ok xs ≡ ok packets → AllRead xs → AllRead packets
  returned xs packets e h = subst AllRead (ok_injective xs packets e) h

  flood_read :
      (request : Packet) (random : List ℕ) (packets : List (Packet × ℕ))
      → answer_flood c hmac peer_key request k secret ack random ≡ ok packets
      → IsBytes request.path
      → IsBytes ack
      → AllRead packets
  unfolding answer_flood
  flood_read request random packets h paths acks =
      let (answer, made, sent) = >>=-eq-ok (create_path_return c _ _ secret _ _ ack _ random) _ h in
      let (scoped, scoping, whole) =
        >>=-eq-ok (apply_reply_scope hmac answer (some request)) _ sent in
      let reads =
        path-Reads answer scoped (taught_path request).0 random (taught_path request).1 made
          (taught-IsBytes request paths) acks
          (apply_reply_scope-SameBody hmac request answer scoped scoping) in
      returned ((scoped, 200) ∷ []) packets whole (omega arith, (reads, tt))

  unknown_read :
      (request : Packet) (packets : List (Packet × ℕ))
      → answer_unknown hmac request ack ≡ ok packets
      → AllRead packets
  unfolding answer_unknown
  unknown_read request packets h =
      let (answer, made, sent) = >>=-eq-ok (create_ack_from_bytes ack [] none flood) _ h in
      let (scoped, scoping, whole) =
        >>=-eq-ok (apply_reply_scope hmac answer (some request)) _ sent in
      let (same_payload, same_type) =
        apply_reply_scope-SameBody hmac request answer scoped scoping in
      let reads =
        ack-Reads scoped (same_type ∙ type-create_ack_from_bytes ack [] none flood answer made)
          (same_payload ∙ payload-create_ack_from_bytes ack [] none flood answer made) in
      returned ((scoped, 200) ∷ []) packets whole (omega arith, (reads, tt))

  direct_read :
      (multi_acks out_path_len : ℕ) (packets : List (Packet × ℕ))
      → answer_direct multi_acks k.out_path out_path_len ack ≡ ok packets
      → AllRead packets
  unfolding answer_direct
  direct_read multi_acks out_path_len packets h =
      let (answer, made, sent) =
        >>=-eq-ok (create_ack_from_bytes ack k.out_path (some out_path_len) direct) _ h in
      let reads =
        ack-Reads answer
          (type-create_ack_from_bytes ack k.out_path (some out_path_len) direct answer made)
          (payload-create_ack_from_bytes ack k.out_path (some out_path_len) direct answer made) in
      elim (picked (multi_acks == 0) _ _ _ sent) [
        | inl off ↦ returned ((answer, 200) ∷ []) packets off (omega arith, (reads, tt))
        | inr on ↦
            let (multi, wrapped, whole) =
              >>=-eq-ok (create_multi_ack ack 1 k.out_path (some out_path_len)) _ on in
            returned ((multi, 200) ∷ (answer, 500) ∷ []) packets whole
              (omega arith, (multi-Reads multi k.out_path (some out_path_len) wrapped, (reads, tt)))
      ]

  -- The author of a message finds its ACK in every packet that answers it: if building the answer
  -- returned, then it is one packet or more, and the ACK, multi-ack or path handler of the author
  -- reads the same 4 bytes as the CRC in each, whether the answer is flooded, scoped to a region or
  -- sent along a path. The ACK has 4 bytes or more, the author knows the peer by its key and no
  -- contact before it has a key that begins alike.
  pub build_ack_responses-ack_in :
      (multi_acks : ℕ) (request : Packet) (random : List ℕ) (packets : List (Packet × ℕ))
      → build_ack_responses c hmac peer_key multi_acks request k secret ack random ≡ ok packets
      → IsBytes request.path
      → IsBytes ack
      → AllRead packets
  unfolding build_ack_responses
  build_ack_responses-ack_in multi_acks request random packets h paths acks =
      elim (picked (is_route_flood request) _ _ _ h) [
        | inl flooded ↦ flood_read request random packets flooded paths acks
        | inr routed ↦ elim (Option-cases (known_path k)) [
          | inl unknown ↦
              unknown_read request packets (sym (ap (answer_by request) unknown) ∙ routed)
          | inr (out_path_len, known) ↦
              direct_read multi_acks out_path_len packets
                (sym (ap (answer_by request) known) ∙ routed)
        ]
      ]
    where
      answer_by : Packet → Option ℕ → Result (List (Packet × ℕ))
      answer_by request path = elim path [
        | none ↦ answer_unknown hmac request ack
        | some out_path_len ↦ answer_direct multi_acks k.out_path out_path_len ack
      ]
