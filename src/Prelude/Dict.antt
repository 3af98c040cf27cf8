-- ===== src/Prelude/Dict.antt =====
-- Python's `dict` and `OrderedDict` as association lists in insertion order, over keys with a
-- Boolean equality.
use Prim.Native.Nat.{ℕ, ◌+◌, ◌≤◌}
use mathlib.Core.Path.{◌≡◌, refl}
use mathlib.Core.Logic.{◌↔◌}
use mathlib.Core.Bool.{Bool, true, false}
use mathlib.Core.Option.{Option, none, some}
use mathlib.Core.List.{List, [], ◌∷◌, ◌++◌}
use native.Mathlib.Omega.{arith}
use openhop_core.Prelude.Tests.{if◌then◌else◌, ==_iff, ◌==◌}
use openhop_core.Prelude.Lists.{length}
use openhop_core.Prelude.Bytes.{bytes_eq, bytes_eq_iff}

pub record Eq {ℓ} (K : Type ℓ) : Type ℓ where
  pub beq : K → K → Bool
  pub beq_iff : (a b : K) → (beq a b ≡ true) ↔ (a ≡ b)

instance abbrev pub bytes_key : Eq (List ℕ)
bytes_key = record { beq = bytes_eq; beq_iff = bytes_eq_iff }

instance abbrev pub nat_key : Eq ℕ
nat_key = record { beq = ◌==◌; beq_iff = ==_iff }

abbrev pub Dict {ℓ κ} : Type ℓ → Type κ → Type (ℓ ⊔ κ)
Dict K V = List (K × V)

module _ {ℓ κ} {K : Type ℓ} {V : Type κ} ⦃e : Eq K⦄ where
  -- `d.get(k)`
  unfoldable pub lookup : K → Dict K V → Option V
  lookup k [] = none
  lookup k ((j, v) ∷ d) = if e.beq j k then some v else lookup k d

  -- `k in d`
  unfoldable pub contains : K → Dict K V → Bool
  contains k [] = false
  contains k ((j, v) ∷ d) = if e.beq j k then true else contains k d

  -- `d[k] = v`: a present key keeps its place.
  unfoldable pub insert : K → V → Dict K V → Dict K V
  insert k v [] = (k, v) ∷ []
  insert k v ((j, w) ∷ d) = if e.beq j k then (j, v) ∷ d else (j, w) ∷ insert k v d

  -- `del d[k]`
  unfoldable pub remove : K → Dict K V → Dict K V
  remove k [] = []
  remove k ((j, w) ∷ d) = if e.beq j k then remove k d else (j, w) ∷ remove k d

  -- `d.move_to_end(k)`
  unfoldable pub move_to_end : K → Dict K V → Dict K V
  unfolding lookup remove
  move_to_end k d = elim (lookup k d) [ none ↦ d | some v ↦ remove k d ++ (k, v) ∷ [] ]

  -- No key stands twice.
  abbrev pub IsDistinct : Dict K V → Type 0
  IsDistinct [] = Unit
  IsDistinct ((j, w) ∷ d) = (contains j d ≡ false) × IsDistinct d

  pub lookup-remove :
      (k j : K) (d : Dict K V) → lookup j (remove k d) ≡ (if e.beq k j then none else lookup j d)
  unfolding lookup remove
  lookup-remove k j [] = ground arith
  lookup-remove k j ((i, w) ∷ d) =
      ground (arith, lookup-remove k j d, e.beq_iff i k, e.beq_iff i j, e.beq_iff k j)

  pub lookup-insert :
      (k j : K) (v : V) (d : Dict K V)
      → lookup j (insert k v d) ≡ (if e.beq k j then some v else lookup j d)
  unfolding lookup insert
  lookup-insert k j v [] = refl
  lookup-insert k j v ((i, w) ∷ d) =
      ground (arith, lookup-insert k j v d, e.beq_iff i k, e.beq_iff i j, e.beq_iff k j)

  pub contains-remove :
      (k j : K) (d : Dict K V)
      → contains j (remove k d) ≡ (if e.beq k j then false else contains j d)
  unfolding contains remove
  contains-remove k j [] = ground arith
  contains-remove k j ((i, w) ∷ d) =
      ground (arith, contains-remove k j d, e.beq_iff i k, e.beq_iff i j, e.beq_iff k j)

  pub contains-insert :
      (k j : K) (v : V) (d : Dict K V)
      → contains j (insert k v d) ≡ (if e.beq k j then true else contains j d)
  unfolding contains insert
  contains-insert k j v [] = refl
  contains-insert k j v ((i, w) ∷ d) =
      ground (arith, contains-insert k j v d, e.beq_iff i k, e.beq_iff i j, e.beq_iff k j)

  pub contains-append :
      (j : K) (d d' : Dict K V)
      → contains j (d ++ d') ≡ (if contains j d then true else contains j d')
  unfolding contains
  contains-append j [] d' = refl
  contains-append j ((i, w) ∷ d) d' = ground (arith, contains-append j d d')

  pub lookup-append :
      (j : K) (d d' : Dict K V)
      → lookup j (d ++ d') ≡ elim (lookup j d) [ none ↦ lookup j d' | some v ↦ some v ]
  unfolding lookup
  lookup-append j [] d' = refl
  lookup-append j ((i, w) ∷ d) d' = ground (arith, lookup-append j d d')

  pub length-remove-le : (k : K) (d : Dict K V) → length (remove k d) ≤ length d
  unfolding remove
  length-remove-le k [] = omega arith
  length-remove-le k ((i, w) ∷ d) = ground (arith, length-remove-le k d)

  pub remove_absent : (k : K) (d : Dict K V) → contains k d ≡ false → remove k d ≡ d
  unfolding remove contains
  remove_absent k [] h = refl
  remove_absent k ((i, w) ∷ d) h = ground (arith, remove_absent k d)

  pub length-remove :
      (k : K) (d : Dict K V) → contains k d ≡ true → length (remove k d) + 1 ≤ length d
  unfolding remove contains
  length-remove k [] h = cc
  length-remove k ((i, w) ∷ d) h = ground (arith, length-remove k d, length-remove-le k d)

  pub length-insert :
      (k : K) (v : V) (d : Dict K V)
      → length (insert k v d) ≡ (if contains k d then length d else length d + 1)
  unfolding insert contains
  length-insert k v [] = omega arith
  length-insert k v ((i, w) ∷ d) = ground (arith, length-insert k v d)

  pub remove-IsDistinct : (k : K) (d : Dict K V) → IsDistinct d → IsDistinct (remove k d)
  unfolding remove
  remove-IsDistinct k [] h = tt
  remove-IsDistinct k ((i, w) ∷ d) h =
      ground (arith, remove-IsDistinct k d, contains-remove k i d, e.beq_iff i k)

  pub insert-IsDistinct : (k : K) (v : V) (d : Dict K V) → IsDistinct d → IsDistinct (insert k v d)
  unfolding insert contains
  insert-IsDistinct k v [] h = (refl, tt)
  insert-IsDistinct k v ((i, w) ∷ d) h =
      ground (arith, insert-IsDistinct k v d, contains-insert k i v d, e.beq_iff i k, e.beq_iff k i)

  pub append-IsDistinct :
      (k : K) (v : V) (d : Dict K V)
      → contains k d ≡ false
      → IsDistinct d
      → IsDistinct (d ++ (k, v) ∷ [])
  unfolding contains
  append-IsDistinct k v [] h u = (refl, tt)
  append-IsDistinct k v ((i, w) ∷ d) h u = ground (
    arith,
    append-IsDistinct k v d,
    contains-append i d ((k, v) ∷ []),
    e.beq_iff i k,
    e.beq_iff k i,
  )
