-- ===== src/Protocol/Advert/Codec.antt =====
-- The application data of an advert from `_encode_advert_data` of protocol/packet_builder.py to
-- `decode_appdata` of protocol/utils.py.
use openhop_core.Prelude.{
  ℕ, ◌+◌, ◌-◌, ◌≤◌, ◌<◌, ◌≡◌, refl, sym, ap, ◌∙◌, Bool, true, false, ◌&&◌, none, some, List, [],
  ◌∷◌, ◌++◌, ◌%◌, arith, if◌then◌else◌, ltb, lt→ltb, ltb→lt, length, length-append, get_or,
  All-take, take, drop, length-take, drop-append,
}
use openhop_core.Prelude.Outcome.{value_error, ok, ◌>>=◌, >>=-eq-ok}
use openhop_core.Prelude.Bytes.{from_le}
use openhop_core.Protocol.Builder.Text.{c_string}
use openhop_core.Node.Acks.Handler.Extraction.{append_assoc, leb_below}
use openhop_core.Node.Text.Delivery.{NoNul, c_string-append, ends_string}
use openhop_core.Protocol.Advert.{
  Announcement, AppData, has_flag, has_position, final_flags, location_part, feature_part,
  name_part, encode_advert_data, location_size, feature1_size, feature2_size, nonempty,
  decode_fields, decode_appdata,
}
use openhop_core.Protocol.Advert.Bits.{final_flags-IsFlagsOf}
use openhop_core.Protocol.Advert.Fields.{
  location_given, location_part-field, feature_part-field, ok_injective, not_raised,
}

-- The parts of an encoding.
record Parts (a : Announcement) (encoded : List ℕ) : Type 0 where
  location : List ℕ
  first : List ℕ
  second : List ℕ
  name : List ℕ
  location_made : location_part (has_flag 16 (final_flags a)) a.lat a.lon ≡ ok location
  first_made : feature_part (has_flag 32 (final_flags a)) a.feature1 ≡ ok first
  second_made : feature_part (has_flag 64 (final_flags a)) a.feature2 ≡ ok second
  name_made :
      name
      ≡ name_part
          (has_flag 128 (final_flags a))
          (1 + (length location + (length first + length second)))
          a.name
  laid_out : encoded ≡ final_flags a ∷ (location ++ (first ++ (second ++ name)))

encode_advert_data-Parts :
    (a : Announcement) (encoded : List ℕ) → encode_advert_data a ≡ ok encoded → Parts a encoded
unfolding encode_advert_data
encode_advert_data-Parts a encoded made =
    let F = final_flags a in
    let encode_from : List ℕ → List ℕ → List ℕ → List ℕ = λ location first second.
      F
      ∷ (location
          ++ (first
              ++ (second
                  ++ name_part (has_flag 128 F)
                      (1 + (length location + (length first + length second))) a.name))) in
    let (fits, made1) = not_raised (ltb 255 F) value_error _ encoded made in
    let (location, location_made, made2) =
      >>=-eq-ok (location_part (has_flag 16 F) a.lat a.lon)
        (λ x.
          feature_part (has_flag 32 F) a.feature1
          >>= (λ y. feature_part (has_flag 64 F) a.feature2 >>= (λ z. ok (encode_from x y z))))
        made1 in
    let (first, first_made, made3) =
      >>=-eq-ok (feature_part (has_flag 32 F) a.feature1)
        (λ y. feature_part (has_flag 64 F) a.feature2 >>= (λ z. ok (encode_from location y z)))
        made2 in
    let (second, second_made, made4) =
      >>=-eq-ok (feature_part (has_flag 64 F) a.feature2) (λ z. ok (encode_from location first z))
        made3 in
    record {
      location = location;
      first = first;
      second = second;
      name = _;
      location_made = location_made;
      first_made = first_made;
      second_made = second_made;
      name_made = refl;
      laid_out = sym (ok_injective (encode_from location first second) encoded made4);
    }

-- The bytes of the name for which the other parts leave room.
unfoldable pub name_sent : Announcement → List ℕ
unfolding has_position
name_sent a =
    let location = if has_position a then 8 else 0 in
    let first = if ltb 0 a.feature1 then 2 else 0 in
    let second = if ltb 0 a.feature2 then 2 else 0 in
    take (31 - (location + (first + second))) a.name

pub append_nil : (xs : List ℕ) → xs ++ [] ≡ xs
append_nil [] = refl
append_nil (x ∷ xs) = ap (◌∷◌ x) (append_nil xs)

c_string-clean : (text : List ℕ) → NoNul text → c_string text ≡ text
unfolding ends_string
c_string-clean text clean = ap c_string (sym (append_nil text)) ∙ c_string-append text [] clean refl

nonempty-none : (xs : List ℕ) → length xs ≡ 0 → nonempty xs ≡ none
unfolding nonempty
nonempty-none [] h = refl
nonempty-none (x ∷ xs) h = absurd (omega (arith, h))

pub size-le : (wanted : Bool) (n : ℕ) → (if wanted then n else 0) ≤ n
size-le true n = omega arith
size-le false n = omega arith

abbrev pub part_size : ℕ → Bool → ℕ
part_size n wanted = if wanted then n else 0

length-name_part :
    (wanted : Bool) (size : ℕ) (name : List ℕ) → length (name_part wanted size name) ≤ 32 - size
unfolding name_part
length-name_part true size name = omega (arith, length-take (32 - size) name)
length-name_part false size name = omega arith

-- The name behind `front`, read up to a NUL.
name_read :
    (wanted : Bool) (size : ℕ) (front name : List ℕ)
    → ltb 0 (length name) ≡ wanted
    → NoNul name
    → length front ≡ size
    → size < 32
    → (if wanted && ltb size (length (front ++ name_part wanted size name))
        then nonempty (c_string (drop size (front ++ name_part wanted size name)))
        else none)
      ≡ nonempty (take (32 - size) name)
unfolding name_part
name_read true size front name named clean before room =
    let some_name = ltb→lt 0 (length name) named in
    let cut = take (32 - size) name in
    let some_left : size < length (front ++ cut) =
      omega
        (arith, some_name, room, before, length-append front cut, length-take (32 - size) name) in
    rw (lt→ltb size (length (front ++ cut)) some_left) (
      ap nonempty (
        ap c_string (drop-append size front cut before)
        ∙ c_string-clean cut (All-take (λ b. 0 < b) (32 - size) name clean)))
name_read false size front name named clean before room =
    let no_name : length name ≡ 0 = ground (arith, named) in
    sym
      (nonempty-none (take (32 - size) name) (omega (arith, no_name, length-take (32 - size) name)))

-- Enough bytes for what the flags promise.
pub decode_appdata-enough :
    (raw : List ℕ)
    → 1
        + location_size (get_or raw 0 0)
        + feature1_size (get_or raw 0 0)
        + feature2_size (get_or raw 0 0)
      ≤ length raw
    → decode_appdata raw ≡ ok (decode_fields raw)
unfolding decode_appdata
decode_appdata-enough raw enough =
    let required =
      1
      + location_size (get_or raw 0 0)
      + feature1_size (get_or raw 0 0)
      + feature2_size (get_or raw 0 0) in
    rw (leb_below (length raw) 1 (omega (arith, enough)))
      (rw (leb_below (length raw) required enough) refl)

-- Decoding what was encoded, if the flags are a node type and the name holds no NUL: the type, the
-- location and the features that were given and no others, and the bytes of the name for which there
-- is room. At most 32 bytes are encoded.
pub decode_appdata-encode_advert_data :
    (a : Announcement) (encoded : List ℕ)
    → encode_advert_data a ≡ ok encoded
    → a.flags < 16
    → NoNul a.name
    → (q : AppData) × (decode_appdata encoded ≡ ok q)
      × (q.flags % 16 ≡ a.flags)
      × (q.location ≡ location_given (has_position a) a.lat a.lon)
      × (q.feature_1 ≡ (if ltb 0 a.feature1 then some a.feature1 else none))
      × (q.feature_2 ≡ (if ltb 0 a.feature2 then some a.feature2 else none))
      × (q.node_name ≡ nonempty (name_sent a))
      × (length encoded ≤ 32)
unfolding decode_fields location_size feature1_size feature2_size name_sent
decode_appdata-encode_advert_data a encoded made small clean =
    let F = final_flags a in
    let bits = final_flags-IsFlagsOf a small in
    let parts = encode_advert_data-Parts a encoded made in
    let loc = parts.location in
    let rest2 = parts.second ++ parts.name in
    let (size0, located) =
      location_part-field (has_flag 16 F) a.lat a.lon loc (parts.first ++ rest2)
        parts.location_made in
    let s1 = 1 + location_size F in
    let (size1, read1) =
      feature_part-field (has_flag 32 F) a.feature1 s1 (F ∷ loc) parts.first rest2 parts.first_made
        (omega (arith, size0)) in
    let s2 = s1 + feature1_size F in
    let (size2, read2) =
      feature_part-field (has_flag 64 F) a.feature2 s2 (F ∷ (loc ++ parts.first)) parts.second
        parts.name parts.second_made (omega (arith, size0, size1, length-append loc parts.first)) in
    let s3 = s2 + feature2_size F in
    let raw = F ∷ (loc ++ (parts.first ++ rest2)) in
    let front = F ∷ ((loc ++ parts.first) ++ parts.second) in
    let front_size : length front ≡ s3 = omega (
      arith,
      size0,
      size1,
      size2,
      length-append loc parts.first,
      length-append (loc ++ parts.first) parts.second,
    ) in
    let as_second : raw ≡ F ∷ ((loc ++ parts.first) ++ rest2) =
      ap (◌∷◌ F) (sym (append_assoc loc parts.first rest2)) in
    let sized : parts.name ≡ name_part (has_flag 128 F) s3 a.name =
      parts.name_made
      ∙ ap (λ n. name_part (has_flag 128 F) n a.name) (omega (arith, size0, size1, size2)) in
    let as_name : raw ≡ front ++ name_part (has_flag 128 F) s3 a.name =
      as_second
      ∙ (ap (◌∷◌ F) (sym (append_assoc (loc ++ parts.first) parts.second parts.name))
          ∙ ap (λ xs. front ++ xs) sized) in
    let room : s3 ≤ 13 =
      omega
        (arith, size-le (has_flag 16 F) 8, size-le (has_flag 32 F) 2, size-le (has_flag 64 F) 2) in
    let named =
      name_read (has_flag 128 F) s3 front a.name (sym bits.name) clean front_size
        (omega (arith, room)) in
    let total : length raw ≡ s3 + length (name_part (has_flag 128 F) s3 a.name) = omega (
      arith,
      front_size,
      ap length as_name,
      length-append front (name_part (has_flag 128 F) s3 a.name),
    ) in
    let e16 : (if has_flag 16 F then 8 else 0) ≡ (if has_position a then 8 else 0) =
      ap (part_size 8) bits.location in
    let e32 : (if has_flag 32 F then 2 else 0) ≡ (if ltb 0 a.feature1 then 2 else 0) =
      ap (part_size 2) bits.feature1 in
    let e64 : (if has_flag 64 F then 2 else 0) ≡ (if ltb 0 a.feature2 then 2 else 0) =
      ap (part_size 2) bits.feature2 in
    rw (parts.laid_out) (
      decode_fields raw,
      decode_appdata-enough raw (omega (arith, total)),
      bits.node_type,
      located ∙ ap (λ b. location_given b a.lat a.lon) bits.location,
      read1 ∙ ap (λ b. if b then some a.feature1 else none) bits.feature1,
      ap (λ xs. if has_flag 64 F then some (from_le (take 2 (drop s2 xs))) else none) as_second
          ∙ (read2 ∙ ap (λ b. if b then some a.feature2 else none) bits.feature2),
      ap
            (λ xs.
              if has_flag 128 F && ltb s3 (length xs)
              then nonempty (c_string (drop s3 xs))
              else none)
            as_name
          ∙ (named ∙ ap nonempty (ap (λ n. take n a.name) (omega (arith, e16, e32, e64)))),
      omega (arith, total, room, length-name_part (has_flag 128 F) s3 a.name),
    )
