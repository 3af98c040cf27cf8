-- ===== src/Protocol/Region/Keys.antt =====
-- The keys of a region in protocol/region_map.py: 16 bytes each, and the first of them.
use openhop_core.Prelude.{
  ℕ, ◌≡◌, refl, sym, ap, ◌∙◌, inl, inr, not, none, some, List, [], ◌∷◌, arith, if◌then◌else◌, ltb,
  ◌==◌, ==_iff, Bool-cases, length, All, length-take,
}
use openhop_core.Prelude.Outcome.{value_error, ok, raise_if, Result-cases, >>=-eq-ok}
use openhop_core.Protocol.Region.{
  RegionEntry, stored_keys, usable, get_auto_key_for, auto_keys, region_keys, first_key_for,
  starts_with, is_ascii, hash_sign, dollar_sign,
}

-- A key of 16 bytes.
abbrev pub IsKey : List ℕ → Type 0
IsKey k = length k ≡ 16

usable-IsKey : (ks : List (List ℕ)) → All IsKey (usable ks)
unfolding usable
usable-IsKey [] = tt
usable-IsKey (k ∷ ks) = ground (arith, usable-IsKey ks, ==_iff (length k) 16)

module _ (sha256 : List ℕ → List ℕ) (long : (d : List ℕ) → length (sha256 d) ≡ 32) where
  get_auto_key_for-IsKey : (name k : List ℕ) → get_auto_key_for sha256 name ≡ ok k → IsKey k
  unfolding get_auto_key_for
  get_auto_key_for-IsKey name k h =
      let canonical = if starts_with hash_sign name then name else hash_sign ∷ name in
      let (_, _, rest) = >>=-eq-ok (raise_if (length name == 0) value_error) _ h in
      let (_, _, rest') = >>=-eq-ok (raise_if (ltb 64 (length canonical)) value_error) _ rest in
      let (_, _, e) = >>=-eq-ok (raise_if (not (is_ascii canonical)) value_error) _ rest' in
      ground (arith, e, length-take 16 (sha256 canonical), long canonical)

  auto_keys-IsKey : (name : List ℕ) → All IsKey (auto_keys sha256 name)
  unfolding auto_keys
  auto_keys-IsKey name =
      elim (Result-cases
        (get_auto_key_for sha256 (if starts_with hash_sign name then name else hash_sign ∷ name))) [
          | inl (k, e) ↦ rw (All, e) (get_auto_key_for-IsKey _ k e, tt)
          | inr (_, e) ↦ rw (All, e) tt
        ]

  region_keys-IsKey : (e : RegionEntry) → All IsKey (region_keys sha256 e)
  unfolding region_keys
  region_keys-IsKey e = elim (Bool-cases (starts_with dollar_sign e.name)) [
    | inl private ↦ rw (private) (usable-IsKey (stored_keys e))
    | inr public ↦ elim (Bool-cases (length (stored_keys e) == 0)) [
      | inl bare ↦ elim (Bool-cases (length e.name == 0)) [
        | inl nameless ↦ rw (public, bare, nameless) tt
        | inr named ↦ rw (public, bare, named) (auto_keys-IsKey e.name)
      ]
      | inr stored ↦ rw (public, stored) (usable-IsKey (stored_keys e))
    ]
  ]

  -- The first key, as the list has it.
  pub first_key_for-head :
      (e : RegionEntry) (k : List ℕ)
      → first_key_for sha256 (some e) ≡ some k
      → (ks : List (List ℕ)) × (region_keys sha256 e ≡ k ∷ ks) × IsKey k
  unfolding first_key_for
  first_key_for-head e k h = by_list (region_keys sha256 e) refl h (region_keys-IsKey e)
    where
      by_list :
          (ks : List (List ℕ))
          → region_keys sha256 e ≡ ks
          → elim ks [ [] ↦ none | j ∷ js ↦ some j ] ≡ some k
          → All IsKey ks
          → (js : List (List ℕ)) × (region_keys sha256 e ≡ k ∷ js) × IsKey k
      by_list [] same first sizes = ground (arith, first)
      by_list (j ∷ js) same first (size, _) =
          let here : j ≡ k = ground (arith, first) in
          (js, same ∙ ap (λ i. i ∷ js) here, ap length (sym here) ∙ size)
