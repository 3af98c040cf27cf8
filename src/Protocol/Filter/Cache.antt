-- ===== src/Protocol/Filter/Cache.antt =====
-- `PacketHashCache` under a monotone clock: its states and its hits.
use openhop_core.Prelude.{
  ℕ, ◌+◌, ◌≤◌, ◌≡◌, refl, inl, inr, true, false, none, some, [], ◌∷◌, ◌++◌, arith, leb, leb→le,
  Bool-cases, Option-cases, length,
}
use openhop_core.Prelude.Dict.{Eq, nat_key, bytes_key, Dict, lookup, contains, remove, IsDistinct}
use openhop_core.Protocol.Filter.{
  PacketHashCache, pop_oldest, store_newest, evict_expired, check_and_add,
}
use openhop_core.Protocol.Filter.Blacklist.{
  move_to_end-insert, length-store_newest, store_newest-IsDistinct,
}

module _ {K : Type 0} ⦃e : Eq K⦄ where
  -- Every entry is from `t` or later.
  abbrev IsSince : ℕ → Dict K ℕ → Type 0
  IsSince t [] = Unit
  IsSince t ((_, at) ∷ d) = (t ≤ at) × IsSince t d

  -- The entries stand in the order of their times, none after `t`.
  abbrev pub IsOrdered : ℕ → Dict K ℕ → Type 0
  IsOrdered t [] = Unit
  IsOrdered t ((_, at) ∷ d) = (at ≤ t) × IsSince at d × IsOrdered t d

-- What a cache satisfies when its last call was at `t`.
pub record IsKept {K : Type 0} ⦃e : Eq K⦄ (t : ℕ) (c : PacketHashCache K) : Type 0 where
  pub positive : 1 ≤ c.max_entries
  pub bounded : length c.entries ≤ c.max_entries
  pub distinct : IsDistinct c.entries
  pub ordered : IsOrdered t c.entries

module _ {K : Type 0} ⦃e : Eq K⦄ where
  since-lookup : (t at : ℕ) (k : K) (d : Dict K ℕ) → IsSince t d → lookup k d ≡ some at → t ≤ at
  unfolding lookup
  since-lookup t at k [] s h = ground (arith, h)
  since-lookup t at k ((j, a) ∷ d) s h = ground (arith, since-lookup t at k d)

  contains-lookup :
      (k : K) (d : Dict K ℕ) → contains k d ≡ elim (lookup k d) [ none ↦ false | some _ ↦ true ]
  unfolding lookup contains
  contains-lookup k [] = refl
  contains-lookup k ((j, a) ∷ d) = ground (arith, contains-lookup k d)

  evict_expired-contains :
      (ttl now t : ℕ) (k : K) (d : Dict K ℕ)
      → IsDistinct d
      → IsOrdered t d
      → contains k (evict_expired ttl now d)
        ≡ elim (lookup k d) [ none ↦ false | some at ↦ leb now (at + ttl) ]
  unfolding contains evict_expired lookup
  evict_expired-contains ttl now t k [] u o = refl
  evict_expired-contains ttl now t k ((j, a) ∷ d) u o =
      let rest = evict_expired-contains ttl now t k d in
      elim (Option-cases (lookup k d)) [
        | inl absent ↦
            ground (arith, rest, contains-lookup k d, leb→le now (a + ttl), e.beq_iff j k, absent)
        | inr (at, found) ↦ ground (
          arith,
          rest,
          contains-lookup k d,
          since-lookup a at k d,
          leb→le now (a + ttl),
          Bool-cases (leb now (a + ttl)),
          e.beq_iff j k,
          found,
        )
      ]

  evict_expired-IsOrdered :
      (ttl now t : ℕ) (d : Dict K ℕ) → IsOrdered t d → IsOrdered t (evict_expired ttl now d)
  unfolding evict_expired
  evict_expired-IsOrdered ttl now t [] o = tt
  evict_expired-IsOrdered ttl now t ((j, a) ∷ d) o =
      ground (arith, o, evict_expired-IsOrdered ttl now t d)

  evict_expired-IsDistinct :
      (ttl now : ℕ) (d : Dict K ℕ) → IsDistinct d → IsDistinct (evict_expired ttl now d)
  unfolding evict_expired
  evict_expired-IsDistinct ttl now [] u = tt
  evict_expired-IsDistinct ttl now ((j, a) ∷ d) u =
      ground (arith, u, evict_expired-IsDistinct ttl now d)

  length-evict_expired : (ttl now : ℕ) (d : Dict K ℕ) → length (evict_expired ttl now d) ≤ length d
  unfolding evict_expired
  length-evict_expired ttl now [] = omega arith
  length-evict_expired ttl now ((j, a) ∷ d) = ground (arith, length-evict_expired ttl now d)

  remove-IsSince : (t : ℕ) (k : K) (d : Dict K ℕ) → IsSince t d → IsSince t (remove k d)
  unfolding remove
  remove-IsSince t k [] s = tt
  remove-IsSince t k ((j, a) ∷ d) s = ground (arith, s, remove-IsSince t k d)

  append-IsSince :
      (t now : ℕ) (k : K) (d : Dict K ℕ) → IsSince t d → t ≤ now → IsSince t (d ++ (k, now) ∷ [])
  append-IsSince t now k [] s h = (h, tt)
  append-IsSince t now k ((j, a) ∷ d) (h', s) h = (h', append-IsSince t now k d s h)

  newest-IsOrdered :
      (t now : ℕ) (k : K) (d : Dict K ℕ)
      → IsOrdered t d
      → t ≤ now
      → IsOrdered now (remove k d ++ (k, now) ∷ [])
  unfolding remove
  newest-IsOrdered t now k [] o h = (omega arith, tt, tt)
  newest-IsOrdered t now k ((j, a) ∷ d) o h = ground (
    arith,
    o,
    newest-IsOrdered t now k d,
    remove-IsSince a k d,
    append-IsSince a now k (remove k d),
  )

  pop_oldest-IsOrdered : (t : ℕ) (d : Dict K ℕ) → IsOrdered t d → IsOrdered t (pop_oldest d)
  unfolding pop_oldest
  pop_oldest-IsOrdered t [] o = tt
  pop_oldest-IsOrdered t ((_, _) ∷ d) (_, _, o) = o

  store_newest-IsOrdered :
      (bound t now : ℕ) (k : K) (d : Dict K ℕ)
      → IsOrdered t d
      → t ≤ now
      → IsOrdered now (store_newest bound now k d)
  unfolding store_newest
  store_newest-IsOrdered bound t now k d o h =
      let o' = newest-IsOrdered t now k d o h in
      ground (arith, move_to_end-insert k now d, o', pop_oldest-IsOrdered now _ o')

  -- A call under a clock that does not go back keeps a cache bounded, without a key twice, and
  -- ordered by time.
  pub check_and_add-IsKept :
      (t now : ℕ) (k : K) (c : PacketHashCache K)
      → IsKept t c
      → t ≤ now
      → IsKept now (let (_, c') = check_and_add now k c in c')
  unfolding check_and_add
  check_and_add-IsKept t now k c kept h =
      let live = evict_expired c.ttl_seconds now c.entries in
      record {
        positive = kept.positive;
        bounded =
            length-store_newest c.max_entries now k live
              (ground (arith, kept.bounded, length-evict_expired c.ttl_seconds now c.entries));
        distinct =
            store_newest-IsDistinct c.max_entries now k live
              (evict_expired-IsDistinct c.ttl_seconds now c.entries kept.distinct);
        ordered =
            store_newest-IsOrdered c.max_entries t now k live
              (evict_expired-IsOrdered c.ttl_seconds now t c.entries kept.ordered) h;
      }

  -- In a cache as earlier calls leave it, bounded, with no key twice and in the order of time, a
  -- packet is a hit exactly when its entry is there and not older than the time to live,
  -- although only the oldest end of the cache is looked at.
  pub check_and_add-hit :
      (t now : ℕ) (k : K) (c : PacketHashCache K)
      → IsKept t c
      → (let (hit, _) = check_and_add now k c in hit)
        ≡ elim (lookup k c.entries) [ none ↦ false | some at ↦ leb now (at + c.ttl_seconds) ]
  unfolding check_and_add
  check_and_add-hit t now k c kept =
      evict_expired-contains c.ttl_seconds now t k c.entries kept.distinct kept.ordered
