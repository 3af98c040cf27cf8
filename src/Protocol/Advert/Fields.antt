-- ===== src/Protocol/Advert/Fields.antt =====
-- The packed numbers of an advert, and reading a field out of the bytes around it.
use openhop_core.Prelude.{
  Option, some, none, if◌then◌else◌, ltb→lt, ℕ, ◌-◌, ◌<◌, ◌≡◌, refl, sym, ap, ◌∙◌, Bool, true,
  false, List, ◌++◌, arith, ltb, length, length-append, take, drop, take-append, drop-append,
}
use openhop_core.Prelude.Outcome.{Error, struct_error, Result, ok, raise, ◌>>=◌, >>=-eq-ok}
use openhop_core.Prelude.Int.{ℤ, pos, negsuc}
use openhop_core.Prelude.Bytes.{from_le, le16, le32, from_le-le16, from_le-le32}
use openhop_core.Node.Acks.Handler.Extraction.{append_assoc}
use openhop_core.Protocol.Advert.{
  Degrees, pack_i32, unpack_i32, pack_u16, location_part, feature_part,
}

pub field_at :
    (n k : ℕ) (front mid back : List ℕ)
    → length front ≡ n
    → length mid ≡ k
    → take k (drop n (front ++ (mid ++ back))) ≡ mid
field_at n k front mid back before size =
    ap (take k) (drop-append n front (mid ++ back) before) ∙ take-append k mid back size

unpack-le32 : (n : ℕ) → n < 2147483648 → unpack_i32 (le32 n) ≡ pos n
unfolding unpack_i32
unpack-le32 n h = rw (from_le-le32 n) (ground (arith, h))

unpack-negative : (n : ℕ) → n < 2147483648 → unpack_i32 (le32 (4294967295 - n)) ≡ negsuc n
unfolding unpack_i32
unpack-negative n h =
    let high : ltb (4294967295 - n) 2147483648 ≡ false = ground (arith, h) in
    rw (from_le-le32 (4294967295 - n)) (rw (high) (ap negsuc (omega (arith, h))))

pub ok_injective {ℓ} : {A : Type ℓ} (a b : A) → ok a ≡ ok b → a ≡ b
ok_injective a b e = cc

-- What a check lets through.
pub passed {ℓ} :
    {A : Type ℓ} (check : Bool) (x y : A) (e : Error)
    → (if check then ok x else raise e) ≡ ok y
    → (check ≡ true) × (x ≡ y)
passed true x y e h = (refl, cc)
passed false x y e h = cc

pub not_raised {ℓ} :
    {A : Type ℓ} (check : Bool) (e : Error) (m : Result A) (y : A)
    → (if check then raise e else m) ≡ ok y
    → (check ≡ false) × (m ≡ ok y)
not_raised true e m y h = cc
not_raised false e m y h = (refl, h)

pub unpack_i32-pack_i32 :
    (z : ℤ) (packed : List ℕ)
    → pack_i32 z ≡ ok packed
    → (unpack_i32 packed ≡ z) × (length packed ≡ 4)
unfolding pack_i32 le32
unpack_i32-pack_i32 (pos n) packed made =
    let (below, same) = passed (ltb n 2147483648) (le32 n) packed struct_error made in
    rw (← same) (unpack-le32 n (ltb→lt _ _ below), refl)
unpack_i32-pack_i32 (negsuc n) packed made =
    let m = 4294967295 - n in
    let (below, same) = passed (ltb n 2147483648) (le32 m) packed struct_error made in
    rw (← same) (unpack-negative n (ltb→lt _ _ below), refl)

pub from_le-pack_u16 :
    (n : ℕ) (packed : List ℕ) → pack_u16 n ≡ ok packed → (from_le packed ≡ n) × (length packed ≡ 2)
unfolding pack_u16 le16
from_le-pack_u16 n packed made =
    let (below, same) = passed (ltb n 65536) (le16 n) packed struct_error made in
    rw (← same) (from_le-le16 n, refl)

abbrev location_in : Bool → List ℕ → Option (ℤ × ℤ)
location_in wanted raw =
    if wanted then some (unpack_i32 (take 4 raw), unpack_i32 (take 4 (drop 4 raw))) else none

abbrev pub location_given : Bool → Degrees → Degrees → Option (ℤ × ℤ)
location_given wanted lat lon = if wanted then some (lat.micro, lon.micro) else none

-- The location in the bytes that follow the flags.
pub location_part-field :
    (wanted : Bool) (lat lon : Degrees) (part back : List ℕ)
    → location_part wanted lat lon ≡ ok part
    → (length part ≡ (if wanted then 8 else 0))
      × (location_in wanted (part ++ back) ≡ location_given wanted lat lon)
unfolding location_part
location_part-field false lat lon part back made = rw (← ok_injective _ _ made) (refl, refl)
location_part-field true lat lon part back made =
    let (front, first, made') =
      >>=-eq-ok (pack_i32 lat.micro) (λ x. pack_i32 lon.micro >>= (λ y. ok (x ++ y))) made in
    let (after, second, made'') = >>=-eq-ok (pack_i32 lon.micro) (λ y. ok (front ++ y)) made' in
    let (lat_back, four) = unpack_i32-pack_i32 lat.micro front first in
    let (lon_back, four') = unpack_i32-pack_i32 lon.micro after second in
    let same : front ++ after ≡ part = ok_injective _ _ made'' in
    let sizes : length part ≡ 8 =
      ap length (sym same) ∙ omega (arith, length-append front after, four, four') in
    let moved : part ++ back ≡ front ++ (after ++ back) =
      ap (λ xs. xs ++ back) (sym same) ∙ append_assoc front after back in
    let lat_read : unpack_i32 (take 4 (part ++ back)) ≡ lat.micro =
      ap (λ xs. unpack_i32 (take 4 xs)) moved
      ∙ (ap unpack_i32 (take-append 4 front (after ++ back) four) ∙ lat_back) in
    let lon_read : unpack_i32 (take 4 (drop 4 (part ++ back))) ≡ lon.micro =
      ap (λ xs. unpack_i32 (take 4 (drop 4 xs))) moved
      ∙ (ap unpack_i32 (field_at 4 4 front after back four four') ∙ lon_back) in
    (sizes, rw (lat_read) (rw (lon_read) refl))

pub feature_part-field :
    (wanted : Bool) (n k : ℕ) (front part back : List ℕ)
    → feature_part wanted n ≡ ok part
    → length front ≡ k
    → (length part ≡ (if wanted then 2 else 0))
      × ((if wanted then some (from_le (take 2 (drop k (front ++ (part ++ back))))) else none)
          ≡ (if wanted then some n else none))
unfolding feature_part
feature_part-field false n k front part back made before = rw (← ok_injective _ _ made) (refl, refl)
feature_part-field true n k front part back made before =
    let (again, two) = from_le-pack_u16 n part made in
    (two, ap some (ap from_le (field_at k 2 front part back before two) ∙ again))
