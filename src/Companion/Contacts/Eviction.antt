-- ===== src/Companion/Contacts/Eviction.antt =====
-- Which contacts `add_or_overwrite` and `add_transient` displace.
use openhop_core.Prelude.{
  ℕ, ◌<◌, ◌≡◌, refl, ap, ◌∙◌, ◌≢◌, ◌⊎◌, inl, inr, Bool, true, false, ◌&&◌, ◌||◌, not, Option, none,
  some, List, [], ◌∷◌, arith, if◌then◌else◌, ltb, leb, ltb→lt, Bool-cases, &&-split, length, All,
}
use openhop_core.Prelude.Dict.{
  bytes_key, Dict, lookup, contains, IsDistinct, lookup-remove, lookup-insert,
}
use openhop_core.Prelude.Bytes.{bytes_eq, bytes_eq_iff}
use openhop_core.Companion.Contacts.{
  max_anon_contacts, Contact, ContactStore, is_transient, put, is_full, update, remove,
  is_evictable, oldest_from, oldest_evictable, add_or_overwrite, anon_keys, lastmod_of, min_key,
  add_transient, get_by_key,
}

lookup-head :
    (k : List ℕ) (c : Contact) (d : Dict (List ℕ) Contact) → lookup k ((k, c) ∷ d) ≡ some c
unfolding lookup
lookup-head k c d = ground (arith, bytes_eq_iff k k)

pub contains-lookup :
    (k : List ℕ) (d : Dict (List ℕ) Contact) (c : Contact)
    → lookup k d ≡ some c
    → contains k d ≡ true
unfolding lookup contains
contains-lookup k [] c h = ground (arith, h)
contains-lookup k ((j, b) ∷ d) c h = ground (arith, h, contains-lookup k d c)

lookup-tail :
    (j k : List ℕ) (b c : Contact) (d : Dict (List ℕ) Contact)
    → contains j d ≡ false
    → lookup k d ≡ some c
    → lookup k ((j, b) ∷ d) ≡ some c
unfolding lookup
lookup-tail j k b c d fresh found =
    ground (arith, fresh, found, contains-lookup k d c found, bytes_eq_iff j k)

-- The entries of the dictionary that the loop may choose, and their times.
abbrev pub IsLeast : ℕ → Dict (List ℕ) Contact → Type 0
IsLeast t [] = Unit
IsLeast t ((k, c) ∷ d) = (not (is_evictable c) || leb t c.lastmod ≡ true) × IsLeast t d

-- The loop keeps its key, and no entry is older; or finds one of the oldest.
pub oldest_from-IsLeast :
    (o : Option (List ℕ)) (t : ℕ) (d : Dict (List ℕ) Contact)
    → IsDistinct d
    → ((oldest_from o t d ≡ o) × IsLeast t d)
      ⊎ ((k : List ℕ) × (c : Contact) × (oldest_from o t d ≡ some k)
          × (lookup k d ≡ some c)
          × (is_evictable c ≡ true)
          × (c.lastmod < t)
          × IsLeast c.lastmod d)
unfolding oldest_from lookup
oldest_from-IsLeast o t [] u = inl (refl, tt)
oldest_from-IsLeast o t ((j, b) ∷ d) (fresh, u) =
    elim (Bool-cases (is_evictable b && ltb b.lastmod t)) [
      | inl taken ↦ elim (oldest_from-IsLeast (some j) b.lastmod d u) [
        | inl (e, l) ↦ inr (
          j,
          b,
          simp (taken) e,
          lookup-head j b d,
          (&&-split (is_evictable b) (ltb b.lastmod t) taken).0,
          ltb→lt b.lastmod t ((&&-split (is_evictable b) (ltb b.lastmod t) taken).1),
          (ground arith, l),
        )
        | inr (k, c, e, found, ev, older, l) ↦ inr (
          k,
          c,
          simp (taken) e,
          lookup-tail j k b c d fresh found,
          ev,
          ground (
            arith,
            older,
            ltb→lt b.lastmod t ((&&-split (is_evictable b) (ltb b.lastmod t) taken).1),
          ),
          (ground (arith, older), l),
        )
      ]
      | inr passed ↦ elim (oldest_from-IsLeast o t d u) [
        | inl (e, l) ↦ inl (simp (passed) e, (ground (arith, passed), l))
        | inr (k, c, e, found, ev, older, l) ↦ inr (
          k,
          c,
          simp (passed) e,
          lookup-tail j k b c d fresh found,
          ev,
          older,
          (ground (arith, passed, older), l),
        )
      ]
    ]

abbrev pub left : Bool × ContactStore → ContactStore
left (b, s) = s

abbrev pub left_over : Bool × Option (List ℕ) × ContactStore → ContactStore
left_over (b, k, s) = s

get_by_key-lookup : (k : List ℕ) (s : ContactStore) → get_by_key k s ≡ lookup k s.contacts
unfolding get_by_key
get_by_key-lookup k s = refl

pub get_by_key-put :
    (c : Contact) (j : List ℕ) (s : ContactStore)
    → get_by_key j (put c s) ≡ (if bytes_eq c.public_key j then some c else get_by_key j s)
unfolding get_by_key put
get_by_key-put c j s = lookup-insert c.public_key j c s.contacts

get_by_key-remove :
    (k j : List ℕ) (s : ContactStore)
    → contains k s.contacts ≡ true
    → get_by_key j (left (remove k s)) ≡ (if bytes_eq k j then none else get_by_key j s)
unfolding get_by_key remove
get_by_key-remove k j s h = rw (h) (lookup-remove k j s.contacts)

-- In a full store without the contact's key, and with no key twice, `add_or_overwrite` does one
-- of two things. It refuses, and every contact that it might overwrite is from 4294967295 on. Or
-- it reports the key it overwrites, whose contact is neither a favourite nor transient, and no
-- such contact is older; the new contact is then found, the overwritten key is gone, and every
-- other key answers as before.
pub add_or_overwrite-full :
    (c : Contact) (s : ContactStore)
    → IsDistinct s.contacts
    → contains c.public_key s.contacts ≡ false
    → is_full s ≡ true
    → ((add_or_overwrite c s ≡ (false, none, s)) × IsLeast 4294967295 s.contacts)
      ⊎ ((k : List ℕ) × (b : Contact) × (t : ContactStore) × (add_or_overwrite c s
            ≡ (true, some k, t))
          × (get_by_key k s ≡ some b)
          × (is_evictable b ≡ true)
          × IsLeast b.lastmod s.contacts
          × ((j : List ℕ)
              → get_by_key j t ≡ (
                  if bytes_eq c.public_key j
                  then some c
                  else if bytes_eq k j
                  then none
                  else get_by_key j s)))
unfolding add_or_overwrite oldest_evictable
add_or_overwrite-full c s u fresh full = elim (oldest_from-IsLeast none 4294967295 s.contacts u) [
  | inl (e, l) ↦ inl (simp (fresh, full, e) refl, l)
  | inr (k, b, e, found, ev, older, l) ↦
      let here = contains-lookup k s.contacts b found in
      inr (
        k,
        b,
        put c (left (remove k s)),
        simp (fresh, full, e) refl,
        get_by_key-lookup k s ∙ found,
        ev,
        l,
        λ j. ground (arith, get_by_key-put c j (left (remove k s)), get_by_key-remove k j s here),
      )
]

put-other :
    (c b : Contact) (j : List ℕ) (s : ContactStore)
    → get_by_key j s ≡ some b
    → c.public_key ≢ j
    → get_by_key j (put c s) ≡ some b
put-other c b j s found other =
    ground (arith, get_by_key-put c j s, found, other, bytes_eq_iff c.public_key j)

-- In a store with no key twice, a contact that is a favourite or transient stays where it is,
-- whatever contact of another key `add_or_overwrite` stores.
pub add_or_overwrite-protected :
    (c b : Contact) (j : List ℕ) (s : ContactStore)
    → IsDistinct s.contacts
    → get_by_key j s ≡ some b
    → is_evictable b ≡ false
    → c.public_key ≢ j
    → get_by_key j (left_over (add_or_overwrite c s)) ≡ some b
unfolding add_or_overwrite update
add_or_overwrite-protected c b j s u found safe other =
    elim (Bool-cases (contains c.public_key s.contacts)) [
      | inl present ↦ rw (present) (put-other c b j s found other)
      | inr fresh ↦ elim (Bool-cases (is_full s)) [
        | inl full ↦ elim (add_or_overwrite-full c s u fresh full) [
          | inl (e, _) ↦ rw (ap left_over e) found
          | inr (k, a, t, e, at, ev, _, rest) ↦ rw (ap left_over e) (
              ground (
                arith,
                rest j,
                found,
                safe,
                at,
                ev,
                other,
                bytes_eq_iff c.public_key j,
                bytes_eq_iff k j,
              ))
        ]
        | inr room ↦ rw (fresh, room) (put-other c b j s found other)
      ]
    ]

-- The keys of transient contacts.
abbrev pub IsAnon : Dict (List ℕ) Contact → List ℕ → Type 0
IsAnon d k = (c : Contact) × (lookup k d ≡ some c) × (is_transient c ≡ true)

All-tail :
    (j : List ℕ) (b : Contact) (d : Dict (List ℕ) Contact) (ks : List (List ℕ))
    → contains j d ≡ false
    → All (IsAnon d) ks
    → All (IsAnon ((j, b) ∷ d)) ks
All-tail j b d [] fresh h = tt
All-tail j b d (k ∷ ks) fresh ((c, found, anon), h) =
    ((c, lookup-tail j k b c d fresh found, anon), All-tail j b d ks fresh h)

pub anon_keys-IsAnon : (d : Dict (List ℕ) Contact) → IsDistinct d → All (IsAnon d) (anon_keys d)
unfolding anon_keys
anon_keys-IsAnon [] u = tt
anon_keys-IsAnon ((j, b) ∷ d) (fresh, u) = elim (Bool-cases (is_transient b)) [
  | inl anon ↦
      rw (anon)
        (((b, lookup-head j b d, anon), All-tail j b d (anon_keys d) fresh (anon_keys-IsAnon d u)))
  | inr real ↦ rw (real) (All-tail j b d (anon_keys d) fresh (anon_keys-IsAnon d u))
]

pub min_key-All :
    (P : List ℕ → Type 0) (d : Dict (List ℕ) Contact) (k : List ℕ) (ks : List (List ℕ))
    → P k
    → All P ks
    → P (min_key d k ks)
unfolding min_key
min_key-All P d k [] h hs = h
min_key-All P d k (j ∷ ks) h (h', hs) = elim (Bool-cases (ltb (lastmod_of j d) (lastmod_of k d))) [
  | inl less ↦ rw (less) (min_key-All P d j ks h' hs)
  | inr more ↦ rw (more) (min_key-All P d k ks h hs)
]

-- In a store with no key twice, a contact that is not transient stays where it is, whatever
-- contact of another key `add_transient` stores.
pub add_transient-protected :
    (c b : Contact) (j : List ℕ) (s : ContactStore)
    → IsDistinct s.contacts
    → get_by_key j s ≡ some b
    → is_transient b ≡ false
    → c.public_key ≢ j
    → get_by_key j (left (add_transient c s)) ≡ some b
unfolding add_transient update
add_transient-protected c b j s u found real other =
    elim (Bool-cases (contains c.public_key s.contacts)) [
      | inl present ↦ rw (present) (put-other c b j s found other)
      | inr fresh ↦
          rw (fresh) (elim (Bool-cases (leb max_anon_contacts (length (anon_keys s.contacts)))) [
            | inl full ↦ rw (full) (reuse (anon_keys s.contacts) (anon_keys-IsAnon s.contacts u))
            | inr room ↦ rw (room) (put-other c b j s found other)
          ])
    ]
  where
    reuse :
        (ks : List (List ℕ))
        → All (IsAnon s.contacts) ks
        → get_by_key j (
            left (elim ks [
              | [] ↦ (true, put c s)
              | k ∷ ks ↦ let (_, s') = remove (min_key s.contacts k ks) s in (true, put c s')
            ]))
          ≡ some b
    reuse [] h = put-other c b j s found other
    reuse (k ∷ ks) (h, hs) =
        let k' = min_key s.contacts k ks in
        let (a, at, anon) = min_key-All (IsAnon s.contacts) s.contacts k ks h hs in
        put-other c b j (left (remove k' s))
          (ground (
            arith,
            get_by_key-remove k' j s (contains-lookup k' s.contacts a at),
            get_by_key-lookup j s,
            bytes_eq_iff k' j,
            found,
            real,
            at,
            anon,
          ))
          other
