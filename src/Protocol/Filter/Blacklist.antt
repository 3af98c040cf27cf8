-- ===== src/Protocol/Filter/Blacklist.antt =====
-- The states of `PacketFilter`: its bound and its keys.
use openhop_core.Prelude.{
  ℕ, ◌+◌, ◌-◌, ◌≤◌, ◌≡◌, true, false, List, [], ◌∷◌, ◌++◌, arith, length, length-append,
}
use openhop_core.Prelude.Dict.{
  Eq, nat_key, bytes_key, Dict, contains, insert, remove, move_to_end, IsDistinct, lookup-insert,
  contains-remove, length-remove-le, remove-IsDistinct, insert-IsDistinct, append-IsDistinct,
}
use openhop_core.Protocol.Filter.{
  PacketFilter, blacklist_max_entries, blacklist_ttl_seconds, pop_oldest, track_packet,
  store_newest, add_blacklist, expired_keys, remove_all, cleanup_old_hashes, clear,
}

module _ {K : Type 0} ⦃e : Eq K⦄ where
  pub beq_refl : (k : K) → e.beq k k ≡ true
  beq_refl k = ground (arith, e.beq_iff k k)

  remove-insert : {V : Type 0} (k : K) (v : V) (d : Dict K V) → remove k (insert k v d) ≡ remove k d
  unfolding remove insert
  remove-insert k v [] = ground (arith, beq_refl k)
  remove-insert k v ((j, w) ∷ d) = ground (arith, remove-insert k v d, e.beq_iff j k)

  pub move_to_end-insert :
      {V : Type 0} (k : K) (v : V) (d : Dict K V)
      → move_to_end k (insert k v d) ≡ remove k d ++ (k, v) ∷ []
  unfolding move_to_end
  move_to_end-insert k v d = ground (arith, lookup-insert k k v d, beq_refl k, remove-insert k v d)

  pub remove-contains : {V : Type 0} (k : K) (d : Dict K V) → contains k (remove k d) ≡ false
  remove-contains k d = ground (arith, contains-remove k k d, beq_refl k)

  pub length-newest :
      (k : K) (now : ℕ) (d : Dict K ℕ) → length (remove k d ++ (k, now) ∷ []) ≤ length d + 1
  length-newest k now d =
      ground (arith, length-append (remove k d) ((k, now) ∷ []), length-remove-le k d)

  pop_oldest-IsDistinct : {V : Type 0} (d : Dict K V) → IsDistinct d → IsDistinct (pop_oldest d)
  unfolding pop_oldest
  pop_oldest-IsDistinct [] h = tt
  pop_oldest-IsDistinct ((_, _) ∷ d) h = let (_, u) = h in u

  pub length-pop_oldest : {V : Type 0} (d : Dict K V) → length (pop_oldest d) ≡ length d - 1
  unfolding pop_oldest
  length-pop_oldest [] = omega arith
  length-pop_oldest (_ ∷ d) = omega arith

  pub length-store_newest :
      (bound now : ℕ) (k : K) (d : Dict K ℕ)
      → length d ≤ bound
      → length (store_newest bound now k d) ≤ bound
  unfolding store_newest
  length-store_newest bound now k d h = ground (
    arith,
    move_to_end-insert k now d,
    length-newest k now d,
    length-pop_oldest (remove k d ++ (k, now) ∷ []),
  )

  pub store_newest-IsDistinct :
      (bound now : ℕ) (k : K) (d : Dict K ℕ)
      → IsDistinct d
      → IsDistinct (store_newest bound now k d)
  unfolding store_newest
  store_newest-IsDistinct bound now k d h =
      let fresh =
        append-IsDistinct k now (remove k d) (remove-contains k d) (remove-IsDistinct k d h) in
      ground (
        arith,
        move_to_end-insert k now d,
        fresh,
        pop_oldest-IsDistinct (remove k d ++ (k, now) ∷ []) fresh,
      )

  remove_all-IsDistinct :
      {V : Type 0} (ks : List K) (d : Dict K V) → IsDistinct d → IsDistinct (remove_all ks d)
  unfolding remove_all
  remove_all-IsDistinct [] d h = h
  remove_all-IsDistinct (k ∷ ks) d h =
      remove_all-IsDistinct ks (remove k d) (remove-IsDistinct k d h)

  length-remove_all :
      {V : Type 0} (ks : List K) (d : Dict K V) → length (remove_all ks d) ≤ length d
  unfolding remove_all
  length-remove_all [] d = omega arith
  length-remove_all (k ∷ ks) d =
      ground (arith, length-remove_all ks (remove k d), length-remove-le k d)

-- What every state of a filter satisfies.
pub record IsSound {K : Type 0} ⦃e : Eq K⦄ (f : PacketFilter K) : Type 0 where
  pub bounded : length f.blacklist ≤ blacklist_max_entries
  pub distinct_hashes : IsDistinct f.packet_hashes
  pub distinct_blacklist : IsDistinct f.blacklist

-- One call of a method that changes the filter, whatever the clock says.
pub data Step {K : Type 0} ⦃e : Eq K⦄ : PacketFilter K → PacketFilter K → Type 0 where
  track : (now : ℕ) (k : K) (f : PacketFilter K) → Step f (track_packet now k f)
  add : (now : ℕ) (k : K) (f : PacketFilter K) → Step f (add_blacklist now k f)
  cleanup : (now : ℕ) (f : PacketFilter K) → Step f (cleanup_old_hashes now f)
  reset : (f : PacketFilter K) → Step f (clear f)

-- Any number of calls after the constructor.
pub data Reached {K : Type 0} ⦃e : Eq K⦄ (window : ℕ) : PacketFilter K → Type 0 where
  start : Reached window (record { window_seconds = window; packet_hashes = []; blacklist = [] })
  then_ : {f g : PacketFilter K} → Reached window f → Step f g → Reached window g

step-IsSound : {K : Type 0} ⦃e : Eq K⦄ {f g : PacketFilter K} → Step f g → IsSound f → IsSound g
unfolding track_packet add_blacklist cleanup_old_hashes clear
step-IsSound (track now k f) s = record {
  bounded = s.bounded;
  distinct_hashes = insert-IsDistinct k now f.packet_hashes s.distinct_hashes;
  distinct_blacklist = s.distinct_blacklist;
}
step-IsSound (add now k f) s = record {
  distinct_hashes = s.distinct_hashes;
  bounded = length-store_newest blacklist_max_entries now k f.blacklist s.bounded;
  distinct_blacklist =
      store_newest-IsDistinct blacklist_max_entries now k f.blacklist s.distinct_blacklist;
}
step-IsSound (cleanup now f) s = record {
  bounded = ground (
    arith,
    s.bounded,
    length-remove_all (expired_keys now blacklist_ttl_seconds f.blacklist) f.blacklist,
  );
  distinct_hashes = remove_all-IsDistinct _ f.packet_hashes s.distinct_hashes;
  distinct_blacklist = remove_all-IsDistinct _ f.blacklist s.distinct_blacklist;
}
step-IsSound (reset f) s = record {
  bounded = omega arith;
  distinct_hashes = tt;
  distinct_blacklist = tt;
}

-- In every state that calls of the filter's methods reach from a new filter, with any clock, the
-- blacklist has at most 4096 entries, and neither table has a key twice.
pub Reached-IsSound :
    {K : Type 0} ⦃e : Eq K⦄ (window : ℕ) (f : PacketFilter K) → Reached window f → IsSound f
Reached-IsSound window _ start = record {
  bounded = omega arith;
  distinct_hashes = tt;
  distinct_blacklist = tt;
}
Reached-IsSound window g (then_ {f = f} r s) = step-IsSound s (Reached-IsSound window f r)
