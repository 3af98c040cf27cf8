-- ===== src/Protocol/Advert/Bits.antt =====
-- The flags byte of an advert's application data: the type of the node in its low four bits, and one
-- bit for each part that follows.
use openhop_core.Prelude.{
  ℕ, ◌+◌, ◌*◌, ◌/◌, ◌%◌, ◌≤◌, ◌<◌, ◌≡◌, ap, ◌∙◌, Bool, true, false, arith, ltb, ◌==◌, length,
}
use openhop_core.Protocol.Advert.{Announcement, has_flag, raise_flag, has_position, final_flags}

-- The value of a bit.
unfoldable pub bit : Bool → ℕ
bit true = 1
bit false = 0

bit-le : (c : Bool) → bit c ≤ 1
unfolding bit
bit-le true = omega arith
bit-le false = omega arith

one : (n : ℕ) (c : Bool) → n ≡ bit c → (n == 1) ≡ c
unfolding bit
one n true h = ground (arith, h)
one n false h = ground (arith, h)

raise_flag-sum :
    (mask flags : ℕ) (c : Bool)
    → flags / mask % 2 ≡ 0
    → raise_flag mask c flags ≡ flags + mask * bit c
unfolding raise_flag has_flag bit
raise_flag-sum mask flags true h = rw (h) (omega arith)
raise_flag-sum mask flags false h = omega arith

pub final_flags-sum :
    (a : Announcement)
    → a.flags < 16
    → final_flags a
      ≡ a.flags
        + 16 * bit (has_position a)
        + 32 * bit (ltb 0 a.feature1)
        + 64 * bit (ltb 0 a.feature2)
        + 128 * bit (ltb 0 (length a.name))
unfolding final_flags
final_flags-sum a small =
    let b1 = bit-le (has_position a) in
    let b2 = bit-le (ltb 0 a.feature1) in
    let b3 = bit-le (ltb 0 a.feature2) in
    let c1 = has_position a in
    let c2 = ltb 0 a.feature1 in
    let c3 = ltb 0 a.feature2 in
    let c4 = ltb 0 (length a.name) in
    let s1 = a.flags + 16 * bit c1 in
    let s2 = s1 + 32 * bit c2 in
    let s3 = s2 + 64 * bit c3 in
    let e1 : raise_flag 16 c1 a.flags ≡ s1 = raise_flag-sum 16 a.flags c1 (omega (arith, small)) in
    let e2 : raise_flag 32 c2 (raise_flag 16 c1 a.flags) ≡ s2 =
      ap (raise_flag 32 c2) e1 ∙ raise_flag-sum 32 s1 c2 (omega (arith, small, b1)) in
    let e3 : raise_flag 64 c3 (raise_flag 32 c2 (raise_flag 16 c1 a.flags)) ≡ s3 =
      ap (raise_flag 64 c3) e2 ∙ raise_flag-sum 64 s2 c3 (omega (arith, small, b1, b2)) in
    ap (raise_flag 128 c4) e3 ∙ raise_flag-sum 128 s3 c4 (omega (arith, small, b1, b2, b3))

-- Each part's bit says whether the announcement has the part, and the low bits are those it gave.
pub record IsFlagsOf (a : Announcement) (flags : ℕ) : Type 0 where
  pub byte : flags < 256
  pub node_type : flags % 16 ≡ a.flags
  pub location : has_flag 16 flags ≡ has_position a
  pub feature1 : has_flag 32 flags ≡ ltb 0 a.feature1
  pub feature2 : has_flag 64 flags ≡ ltb 0 a.feature2
  pub name : has_flag 128 flags ≡ ltb 0 (length a.name)

pub final_flags-IsFlagsOf : (a : Announcement) → a.flags < 16 → IsFlagsOf a (final_flags a)
unfolding has_flag
final_flags-IsFlagsOf a small =
    let b1 = bit-le (has_position a) in
    let b2 = bit-le (ltb 0 a.feature1) in
    let b3 = bit-le (ltb 0 a.feature2) in
    let b4 = bit-le (ltb 0 (length a.name)) in
    let sum = final_flags-sum a small in
    record {
      byte = omega (arith, small, b1, b2, b3, b4, sum);
      node_type = omega (arith, small, sum);
      location = one _ (has_position a) (omega (arith, small, b1, sum));
      feature1 = one _ (ltb 0 a.feature1) (omega (arith, small, b1, b2, sum));
      feature2 = one _ (ltb 0 a.feature2) (omega (arith, small, b1, b2, b3, sum));
      name = one _ (ltb 0 (length a.name)) (omega (arith, small, b1, b2, b3, b4, sum));
    }
