-- ===== src/Companion/Contacts/Capacity.antt =====
-- How many contacts the store holds, and when it takes one.
use openhop_core.Prelude.{
  ℕ, ◌+◌, ◌≤◌, ◌≡◌, refl, inl, inr, Bool, true, false, not, ◌||◌, none, some, List, [], ◌∷◌, arith,
  if◌then◌else◌, leb, leb→le, Bool-cases, length, All,
}
use openhop_core.Prelude.Dict.{bytes_key, contains, IsDistinct, length-remove, length-insert}
use openhop_core.Prelude.Bytes.{bytes_eq_iff}
use openhop_core.Companion.Contacts.{
  max_anon_contacts, Contact, ContactStore, put, is_full, add, update, remove, oldest_evictable,
  add_or_overwrite, anon_keys, min_key, add_transient, get_by_key,
}
use openhop_core.Companion.Contacts.Eviction.{
  contains-lookup, get_by_key-put, min_key-All, IsAnon, anon_keys-IsAnon, oldest_from-IsLeast,
}

abbrev left : Bool × ContactStore → ContactStore
left (b, s) = s

abbrev pub size : ContactStore → ℕ
size s = length s.contacts

size-put :
    (c : Contact) (s : ContactStore)
    → size (put c s) ≡ (if contains c.public_key s.contacts then size s else size s + 1)
unfolding put
size-put c s = length-insert c.public_key c s.contacts

size-remove :
    (k : List ℕ) (s : ContactStore)
    → contains k s.contacts ≡ true
    → (size (let (_, t) = remove k s in t) + 1 ≤ size s)
      × ((let (_, t) = remove k s in t.max_contacts) ≡ s.max_contacts)
unfolding remove
size-remove k s h = rw (h) (length-remove k s.contacts h, refl)

size-after :
    (k : List ℕ) (c : Contact) (s : ContactStore)
    → contains k s.contacts ≡ true
    → size (put c (let (_, t) = remove k s in t)) ≤ size s
size-after k c s h = ground (arith, size-put c (let (_, t) = remove k s in t), size-remove k s h)

-- `add` and `update` succeed exactly when the key is there already or the store is not full;
-- the contact is then the one found under its key; else the store is as it was.
pub add_iff :
    (c : Contact) (s : ContactStore)
    → (update c s ≡ add c s)
      × (add c s ≡ (
          if contains c.public_key s.contacts || not (is_full s)
          then (true, put c s)
          else (false, s)))
      × (get_by_key c.public_key (put c s) ≡ some c)
unfolding add update
add_iff c s = ground (
  arith,
  get_by_key-put c c.public_key s,
  bytes_eq_iff c.public_key c.public_key,
  Bool-cases (contains c.public_key s.contacts),
  Bool-cases (is_full s),
)

-- A store that is not full has room for one more.
room-size : (c : Contact) (s : ContactStore) → is_full s ≡ false → size (put c s) ≤ s.max_contacts
unfolding is_full
room-size c s room = ground (arith, size-put c s, room)

overwrite-size :
    (c : Contact) (s : ContactStore)
    → IsDistinct s.contacts
    → size s ≤ s.max_contacts
    → size (let (_, _, t) = add_or_overwrite c s in t) ≤ s.max_contacts
unfolding add_or_overwrite oldest_evictable update
overwrite-size c s u h = elim (Bool-cases (contains c.public_key s.contacts)) [
  | inl present ↦ rw (present) (ground (arith, size-put c s, present, h))
  | inr fresh ↦ elim (Bool-cases (is_full s)) [
    | inl full ↦ elim (oldest_from-IsLeast none 4294967295 s.contacts u) [
      | inl (e, _) ↦ rw (fresh, full, e) h
      | inr (k, b, e, found, _, _, _) ↦
          rw (fresh, full, e)
            (ground (arith, size-after k c s (contains-lookup k s.contacts b found), h))
    ]
    | inr room ↦ rw (fresh, room) (room-size c s room)
  ]
]

-- A store within its capacity, with no key twice, stays so under `add`, `update` and
-- `add_or_overwrite`.
pub add-size :
    (c : Contact) (s : ContactStore)
    → IsDistinct s.contacts
    → size s ≤ s.max_contacts
    → (size (let (_, t) = add c s in t) ≤ s.max_contacts)
      × (size (let (_, t) = update c s in t) ≤ s.max_contacts)
      × (size (let (_, _, t) = add_or_overwrite c s in t) ≤ s.max_contacts)
unfolding add update
add-size c s u h = ground (
  arith,
  h,
  overwrite-size c s u h,
  size-put c s,
  room-size c s,
  Bool-cases (is_full s),
  Bool-cases (contains c.public_key s.contacts),
)

-- On a store with no key twice, `add_transient` adds at most one contact, and none once eight
-- transient contacts are there.
pub add_transient-size :
    (c : Contact) (s : ContactStore)
    → IsDistinct s.contacts
    → size (let (_, t) = add_transient c s in t)
      ≤ (if leb max_anon_contacts (length (anon_keys s.contacts)) then size s else size s + 1)
unfolding add_transient update
add_transient-size c s u = elim (Bool-cases (contains c.public_key s.contacts)) [
  | inl present ↦ rw (present) (ground (arith, size-put c s, present))
  | inr fresh ↦ elim (Bool-cases (leb max_anon_contacts (length (anon_keys s.contacts)))) [
    | inl full ↦
        let small =
          reuse (anon_keys s.contacts) (anon_keys-IsAnon s.contacts u) (leb→le _ _ full) in
        rw (fresh, full) (ground (arith, small))
    | inr room ↦ rw (fresh, room) (ground (arith, size-put c s, fresh, room))
  ]
]
  where
    reuse :
        (ks : List (List ℕ))
        → All (IsAnon s.contacts) ks
        → max_anon_contacts ≤ length ks
        → size (
            left (elim ks [
              | [] ↦ (true, put c s)
              | k ∷ ks ↦ let (_, t) = remove (min_key s.contacts k ks) s in (true, put c t)
            ]))
          ≤ size s
    reuse [] h big = ground (arith, big)
    reuse (k ∷ ks) (h, hs) big =
        let (a, at, anon) = min_key-All (IsAnon s.contacts) s.contacts k ks h hs in
        size-after (min_key s.contacts k ks) c s
          (contains-lookup (min_key s.contacts k ks) s.contacts a at)
