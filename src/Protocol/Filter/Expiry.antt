-- ===== src/Protocol/Filter/Expiry.antt =====
-- What `PacketFilter` answers over time, before and after a clean-up.
use openhop_core.Prelude.{
  ℕ, ◌+◌, ◌≤◌, ◌≡◌, refl, ◌≢◌, inl, inr, Bool, true, false, ◌||◌, none, some, List, [], ◌∷◌, ◌++◌,
  arith, if◌then◌else◌, ltb, ltb→lt, Bool-cases, Option-cases, length, length-append,
}
use openhop_core.Prelude.Dict.{
  Eq, nat_key, bytes_key, Dict, lookup, contains, remove, IsDistinct, lookup-remove, lookup-insert,
  length-remove, remove_absent,
}
use openhop_core.Protocol.Filter.{
  PacketFilter, blacklist_max_entries, blacklist_ttl_seconds, pop_oldest, is_within, is_duplicate,
  track_packet, store_newest, add_blacklist, is_blacklisted, expired_keys, remove_all,
  cleanup_old_hashes,
}
use openhop_core.Protocol.Filter.Blacklist.{IsSound, beq_refl, move_to_end-insert, remove-contains}

module _ {K : Type 0} ⦃e : Eq K⦄ where
  lookup_absent : {V : Type 0} (k : K) (d : Dict K V) → contains k d ≡ false → lookup k d ≡ none
  unfolding lookup contains
  lookup_absent k [] h = refl
  lookup_absent k ((j, w) ∷ d) h = ground (arith, lookup_absent k d)

  unfoldable among : K → List K → Bool
  among k [] = false
  among k (j ∷ ks) = if e.beq j k then true else among k ks

  lookup-remove_all :
      {V : Type 0} (k : K) (ks : List K) (d : Dict K V)
      → lookup k (remove_all ks d) ≡ (if among k ks then none else lookup k d)
  unfolding remove_all among
  lookup-remove_all k [] d = refl
  lookup-remove_all k (j ∷ ks) d =
      ground (arith, lookup-remove_all k ks (remove j d), lookup-remove j k d)

  among-expired_keys :
      (now window : ℕ) (k : K) (d : Dict K ℕ)
      → IsDistinct d
      → among k (expired_keys now window d)
        ≡ elim (lookup k d) [ none ↦ false | some at ↦ ltb (at + window) now ]
  unfolding among expired_keys lookup
  among-expired_keys now window k [] u = refl
  among-expired_keys now window k ((j, at) ∷ d) u =
      ground (arith, among-expired_keys now window k d, lookup_absent k d, e.beq_iff j k)

  -- The answer that a table gives for a key at a time.
  unfoldable is_live : ℕ → ℕ → K → Dict K ℕ → Bool
  is_live window now k d = elim (lookup k d) [ none ↦ false | some at ↦ is_within now at window ]

  is_live-remove_all :
      (window now later : ℕ) (k : K) (d : Dict K ℕ)
      → IsDistinct d
      → now ≤ later
      → is_live window later k (remove_all (expired_keys now window d) d) ≡ is_live window later k d
  unfolding is_live is_within
  is_live-remove_all window now later k d u h = elim (Option-cases (lookup k d)) [
    | inl absent ↦ ground (
      arith,
      lookup-remove_all k (expired_keys now window d) d,
      among-expired_keys now window k d u,
    )
    | inr (at, found) ↦ ground (
      arith,
      lookup-remove_all k (expired_keys now window d) d,
      among-expired_keys now window k d u,
      ltb→lt (at + window) now,
      ltb→lt later (at + window),
      Bool-cases (ltb later (at + window)),
    )
  ]

  -- Cleaning up at one time changes no later answer: for a filter whose blacklist is within its
  -- bound and whose tables have no key twice, `is_duplicate` and `is_blacklisted` say at any
  -- later time what they would have said.
  pub cleanup-unobservable :
      (now later : ℕ) (k : K) (f : PacketFilter K)
      → IsSound f
      → now ≤ later
      → (is_duplicate later k (cleanup_old_hashes now f) ≡ is_duplicate later k f)
        × (is_blacklisted later k (cleanup_old_hashes now f) ≡ is_blacklisted later k f)
  unfolding cleanup_old_hashes is_duplicate is_blacklisted is_live
  cleanup-unobservable now later k f s h = (
    is_live-remove_all f.window_seconds now later k f.packet_hashes s.distinct_hashes h,
    is_live-remove_all blacklist_ttl_seconds now later k f.blacklist s.distinct_blacklist h,
  )

  -- After a packet is tracked, it is a duplicate exactly until the window has passed; what the
  -- filter says of another packet does not change.
  pub is_duplicate-track_packet :
      (now later : ℕ) (k j : K) (f : PacketFilter K)
      → (is_duplicate later k (track_packet now k f) ≡ ltb later (now + f.window_seconds))
        × (k ≢ j → is_duplicate later j (track_packet now k f) ≡ is_duplicate later j f)
  unfolding track_packet is_duplicate is_within
  is_duplicate-track_packet now later k j f = ground (
    arith,
    lookup-insert k k now f.packet_hashes,
    lookup-insert k j now f.packet_hashes,
    beq_refl k,
    e.beq_iff k j,
  )

  lookup-newest :
      (k j : K) (v : ℕ) (d : Dict K ℕ)
      → contains k d ≡ false
      → lookup j (d ++ (k, v) ∷ []) ≡ (if e.beq k j then some v else lookup j d)
  unfolding lookup contains
  lookup-newest k j v [] h = refl
  lookup-newest k j v ((i, w) ∷ d) h =
      ground (arith, lookup-newest k j v d, e.beq_iff i j, e.beq_iff k j, e.beq_iff i k)

  pop_oldest-absent :
      (k : K) (d : Dict K ℕ) → contains k d ≡ false → contains k (pop_oldest d) ≡ false
  unfolding pop_oldest contains
  pop_oldest-absent k [] h = refl
  pop_oldest-absent k ((i, w) ∷ d) h = ground arith

  pop_oldest-append : (d d' : Dict K ℕ) → 1 ≤ length d → pop_oldest (d ++ d') ≡ pop_oldest d ++ d'
  unfolding pop_oldest
  pop_oldest-append [] d' h = ground (arith, h)
  pop_oldest-append ((i, w) ∷ d) d' h = refl

  -- Storing a key in a table within its bound: the key is there with the new time, and every
  -- other key as before, save that a new key in a full table drops the oldest entry.
  pub lookup-store_newest :
      (bound now : ℕ) (k j : K) (d : Dict K ℕ)
      → 1 ≤ bound
      → length d ≤ bound
      → lookup j (store_newest bound now k d) ≡ (
          if e.beq k j
          then some now
          else if contains k d || ltb (length d) bound
          then lookup j d
          else lookup j (pop_oldest d))
  unfolding store_newest
  lookup-store_newest bound now k j d pos fits =
      let size = length-append (remove k d) ((k, now) ∷ []) in
      rw (move_to_end-insert k now d) (elim (Bool-cases (contains k d)) [
        | inl present ↦ ground (
          arith,
          size,
          length-remove k d present,
          lookup-newest k j now (remove k d) (remove-contains k d),
          lookup-remove k j d,
          e.beq_iff k j,
        )
        | inr fresh ↦ rw (remove_absent k d fresh) (
            ground (
              arith,
              length-append d ((k, now) ∷ []),
              lookup-newest k j now d fresh,
              lookup-newest k j now (pop_oldest d) (pop_oldest-absent k d fresh),
              pop_oldest-append d ((k, now) ∷ []),
              e.beq_iff k j,
            ))
      ])

  -- In a filter whose blacklist is within its bound and whose tables have no key twice, let a
  -- packet be blacklisted that is listed already or for which the list has room. Then the packet
  -- is blacklisted until 300 seconds later and no longer, and the answer for another packet does
  -- not change.
  pub is_blacklisted-add_blacklist :
      (now later : ℕ) (k j : K) (f : PacketFilter K)
      → IsSound f
      → k ≢ j
      → contains k f.blacklist || ltb (length f.blacklist) blacklist_max_entries ≡ true
      → (is_blacklisted later k (add_blacklist now k f) ≡ ltb later (now + blacklist_ttl_seconds))
        × (is_blacklisted later j (add_blacklist now k f) ≡ is_blacklisted later j f)
  unfolding add_blacklist is_blacklisted is_within
  is_blacklisted-add_blacklist now later k j f s differs room = ground (
    arith,
    differs,
    room,
    lookup-store_newest blacklist_max_entries now k k f.blacklist (omega arith) s.bounded,
    lookup-store_newest blacklist_max_entries now k j f.blacklist (omega arith) s.bounded,
    beq_refl k,
    e.beq_iff k j,
  )
