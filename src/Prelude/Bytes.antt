-- ===== src/Prelude/Bytes.antt =====
-- Byte strings: lists of numbers, with the numbers below 256 where a statement needs it. A mask
-- of the low `k` bits is `% 2 ^ k` and a shift is a division or a product by `2 ^ k`.
use Prim.Native.Nat.{ℕ, ◌+◌, ◌*◌, ◌/◌, ◌%◌, ◌<◌}
use mathlib.Core.Path.{◌≡◌, refl, ap₂}
use mathlib.Core.Logic.{◌↔◌}
use mathlib.Core.Bool.{Bool, true, false, ◌&&◌}
use mathlib.Core.List.{List, [], ◌∷◌}
use native.Mathlib.Omega.{arith}
use openhop_core.Prelude.Tests.{◌==◌}
use openhop_core.Prelude.Lists.{All}

abbrev pub IsByte : ℕ → Type 0
IsByte b = b < 256

abbrev pub IsBytes : List ℕ → Type 0
IsBytes = All IsByte

-- `a == b` of two byte strings.
unfoldable pub bytes_eq : List ℕ → List ℕ → Bool
bytes_eq [] [] = true
bytes_eq [] (y ∷ ys) = false
bytes_eq (x ∷ xs) [] = false
bytes_eq (x ∷ xs) (y ∷ ys) = x == y && bytes_eq xs ys

pub bytes_eq_sound : (xs ys : List ℕ) → bytes_eq xs ys ≡ true → xs ≡ ys
unfolding bytes_eq
bytes_eq_sound [] [] h = refl
bytes_eq_sound [] (y ∷ ys) h = cc
bytes_eq_sound (x ∷ xs) [] h = cc
bytes_eq_sound (x ∷ xs) (y ∷ ys) h = ground (arith, bytes_eq_sound xs ys)

pub bytes_eq_refl : (xs : List ℕ) → bytes_eq xs xs ≡ true
unfolding bytes_eq
bytes_eq_refl [] = refl
bytes_eq_refl (x ∷ xs) = ground (arith, bytes_eq_refl xs)

pub bytes_eq-of_eq : (xs ys : List ℕ) → xs ≡ ys → bytes_eq xs ys ≡ true
bytes_eq-of_eq xs ys e = rw (← e) (bytes_eq_refl xs)

pub bytes_eq_iff : (xs ys : List ℕ) → (bytes_eq xs ys ≡ true) ↔ (xs ≡ ys)
bytes_eq_iff xs ys = (bytes_eq_sound xs ys, bytes_eq-of_eq xs ys)

-- `int.from_bytes(data, "little")`.
unfoldable pub from_le : List ℕ → ℕ
from_le [] = 0
from_le (b ∷ bs) = b + 256 * from_le bs

-- The two bytes of `n.to_bytes(2, "little")`, for `n` below 65536.
unfoldable pub le16 : ℕ → List ℕ
le16 n = n % 256 ∷ n / 256 ∷ []

pub from_le-le16 : (n : ℕ) → from_le (le16 n) ≡ n
unfolding from_le le16
from_le-le16 n = omega arith

pub le16-from_le : (a b : ℕ) → a < 256 → le16 (from_le (a ∷ b ∷ [])) ≡ a ∷ b ∷ []
unfolding from_le le16
le16-from_le a b h = ap₂ (λ x y. x ∷ y ∷ []) (omega arith) (omega arith)

-- The four bytes of `n.to_bytes(4, "little")`, for `n` below 2 ^ 32.
unfoldable pub le32 : ℕ → List ℕ
le32 n = n % 256 ∷ n / 256 % 256 ∷ n / 65536 % 256 ∷ n / 16777216 ∷ []

pub from_le-le32 : (n : ℕ) → from_le (le32 n) ≡ n
unfolding from_le le32
from_le-le32 n = omega arith
