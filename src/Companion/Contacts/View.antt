-- ===== src/Companion/Contacts/View.antt =====
-- The cached proxies against the contacts, over all operations of the store.
use openhop_core.Prelude.{
  ℕ, ◌≡◌, refl, ap, ◌∙◌, inl, inr, Bool, true, Option, none, some, List, [], ◌∷◌, arith, leb,
  Bool-cases, Option-cases, length,
}
use openhop_core.Prelude.Dict.{
  bytes_key, Dict, lookup, contains, insert, remove as delete, IsDistinct, remove-IsDistinct,
  insert-IsDistinct,
}
use openhop_core.Prelude.Bytes.{bytes_eq_iff}
use openhop_core.Companion.Contacts.{
  max_anon_contacts, Contact, ContactProxy, proxy, ContactStore, put, is_full, add, update, remove,
  oldest_evictable, add_or_overwrite, anon_keys, min_key, add_transient, get_by_key,
  get_proxy_by_key, clear, load_each, load_from,
}

-- The proxies that belong to contacts.
unfoldable pub view : Dict (List ℕ) Contact → Dict (List ℕ) ContactProxy
view [] = []
view ((k, c) ∷ d) = (k, proxy c) ∷ view d

-- Every contact stands under its own public key.
abbrev IsKeyed : Dict (List ℕ) Contact → Type 0
IsKeyed [] = Unit
IsKeyed ((k, c) ∷ d) = (k ≡ c.public_key) × IsKeyed d

pub record IsConsistent (s : ContactStore) : Type 0 where
  pub mirror : s.proxies ≡ view s.contacts
  pub keyed : IsKeyed s.contacts
  pub distinct : IsDistinct s.contacts

view-insert :
    (k : List ℕ) (c : Contact) (d : Dict (List ℕ) Contact)
    → insert k (proxy c) (view d) ≡ view (insert k c d)
unfolding view insert
view-insert k c [] = refl
view-insert k c ((j, b) ∷ d) = ground (arith, view-insert k c d)

view-delete : (k : List ℕ) (d : Dict (List ℕ) Contact) → delete k (view d) ≡ view (delete k d)
unfolding view delete
view-delete k [] = refl
view-delete k ((j, b) ∷ d) = ground (arith, view-delete k d)

lookup-view :
    (k : List ℕ) (d : Dict (List ℕ) Contact)
    → lookup k (view d) ≡ elim (lookup k d) [ none ↦ none | some c ↦ some (proxy c) ]
unfolding view lookup
lookup-view k [] = refl
lookup-view k ((j, b) ∷ d) = ground (arith, lookup-view k d)

insert-IsKeyed :
    (c : Contact) (d : Dict (List ℕ) Contact) → IsKeyed d → IsKeyed (insert c.public_key c d)
unfolding insert
insert-IsKeyed c [] h = (refl, tt)
insert-IsKeyed c ((j, b) ∷ d) h = ground (arith, h, insert-IsKeyed c d, bytes_eq_iff j c.public_key)

delete-IsKeyed : (k : List ℕ) (d : Dict (List ℕ) Contact) → IsKeyed d → IsKeyed (delete k d)
unfolding delete
delete-IsKeyed k [] h = tt
delete-IsKeyed k ((j, b) ∷ d) h = ground (arith, h, delete-IsKeyed k d)

put-IsConsistent : (c : Contact) (s : ContactStore) → IsConsistent s → IsConsistent (put c s)
unfolding put
put-IsConsistent c s h = record {
  mirror =
      ap (λ d. insert c.public_key (proxy c) d) h.mirror ∙ view-insert c.public_key c s.contacts;
  keyed = insert-IsKeyed c s.contacts h.keyed;
  distinct = insert-IsDistinct c.public_key c s.contacts h.distinct;
}

-- The store that an operation leaves.
abbrev left : Bool × ContactStore → ContactStore
left (b, s) = s

abbrev left_over : Bool × Option (List ℕ) × ContactStore → ContactStore
left_over (b, k, s) = s

remove-IsConsistent :
    (k : List ℕ) (s : ContactStore) → IsConsistent s → IsConsistent (left (remove k s))
unfolding remove
remove-IsConsistent k s h = elim (Bool-cases (contains k s.contacts)) [
  | inl present ↦ rw (present) (record {
    mirror = ap (λ d. delete k d) h.mirror ∙ view-delete k s.contacts;
    keyed = delete-IsKeyed k s.contacts h.keyed;
    distinct = remove-IsDistinct k s.contacts h.distinct;
  })
  | inr absent ↦ rw (absent) h
]

add-IsConsistent : (c : Contact) (s : ContactStore) → IsConsistent s → IsConsistent (left (add c s))
unfolding add
add-IsConsistent c s h = elim (Bool-cases (contains c.public_key s.contacts)) [
  | inl present ↦ rw (present) (put-IsConsistent c s h)
  | inr absent ↦ rw (absent) (elim (Bool-cases (is_full s)) [
    | inl full ↦ rw (full) h
    | inr room ↦ rw (room) (put-IsConsistent c s h)
  ])
]

update-IsConsistent :
    (c : Contact) (s : ContactStore) → IsConsistent s → IsConsistent (left (update c s))
unfolding update
update-IsConsistent c s h = elim (Bool-cases (contains c.public_key s.contacts)) [
  | inl present ↦ rw (present) (put-IsConsistent c s h)
  | inr absent ↦ rw (absent) (add-IsConsistent c s h)
]

add_or_overwrite-IsConsistent :
    (c : Contact) (s : ContactStore)
    → IsConsistent s
    → IsConsistent (left_over (add_or_overwrite c s))
unfolding add_or_overwrite
add_or_overwrite-IsConsistent c s h = elim (Bool-cases (contains c.public_key s.contacts)) [
  | inl present ↦ rw (present) (update-IsConsistent c s h)
  | inr absent ↦ rw (absent) (elim (Bool-cases (is_full s)) [
    | inl full ↦ rw (full) (elim (Option-cases (oldest_evictable s.contacts)) [
      | inl e ↦ rw (e) h
      | inr (k, e) ↦ rw (e) (put-IsConsistent c (left (remove k s)) (remove-IsConsistent k s h))
    ])
    | inr room ↦ rw (room) (put-IsConsistent c s h)
  ])
]

add_transient-IsConsistent :
    (c : Contact) (s : ContactStore) → IsConsistent s → IsConsistent (left (add_transient c s))
unfolding add_transient
add_transient-IsConsistent c s h = elim (Bool-cases (contains c.public_key s.contacts)) [
  | inl present ↦ rw (present) (update-IsConsistent c s h)
  | inr absent ↦
      rw (absent) (elim (Bool-cases (leb max_anon_contacts (length (anon_keys s.contacts)))) [
        | inl full ↦ rw (full) (reuse (anon_keys s.contacts))
        | inr room ↦ rw (room) (put-IsConsistent c s h)
      ])
]
  where
    reuse :
        (ks : List (List ℕ))
        → IsConsistent (
            left (elim ks [
              | [] ↦ (true, put c s)
              | k ∷ ks ↦ let (_, s') = remove (min_key s.contacts k ks) s in (true, put c s')
            ]))
    reuse [] = put-IsConsistent c s h
    reuse (k ∷ ks) =
        put-IsConsistent c (left (remove (min_key s.contacts k ks) s))
          (remove-IsConsistent (min_key s.contacts k ks) s h)

load_each-IsConsistent :
    (cs : List Contact) (s : ContactStore) → IsConsistent s → IsConsistent (load_each cs s)
unfolding load_each
load_each-IsConsistent [] s h = h
load_each-IsConsistent (c ∷ cs) s h = elim (Bool-cases (is_full s)) [
  | inl full ↦ rw (full) h
  | inr room ↦ rw (room) (load_each-IsConsistent cs (put c s) (put-IsConsistent c s h))
]

clear-IsConsistent : (s : ContactStore) → IsConsistent (clear s)
unfolding clear view
clear-IsConsistent s = record { mirror = refl; keyed = tt; distinct = tt }

-- One call that changes the store.
pub data Step : ContactStore → ContactStore → Type 0 where
  added : (c : Contact) (s : ContactStore) → Step s (left (add c s))
  overwritten : (c : Contact) (s : ContactStore) → Step s (left_over (add_or_overwrite c s))
  transient : (c : Contact) (s : ContactStore) → Step s (left (add_transient c s))
  updated : (c : Contact) (s : ContactStore) → Step s (left (update c s))
  removed : (k : List ℕ) (s : ContactStore) → Step s (left (remove k s))
  cleared : (s : ContactStore) → Step s (clear s)
  loaded : (cs : List Contact) (s : ContactStore) → Step s (load_from cs s)

-- Any number of calls on a new store.
pub data Reached (n : ℕ) : ContactStore → Type 0 where
  start : Reached n (record { contacts = []; proxies = []; max_contacts = n })
  then_ : {s t : ContactStore} → Reached n s → Step s t → Reached n t

step-IsConsistent : {s t : ContactStore} → Step s t → IsConsistent s → IsConsistent t
unfolding load_from
step-IsConsistent (added c s) h = add-IsConsistent c s h
step-IsConsistent (overwritten c s) h = add_or_overwrite-IsConsistent c s h
step-IsConsistent (transient c s) h = add_transient-IsConsistent c s h
step-IsConsistent (updated c s) h = update-IsConsistent c s h
step-IsConsistent (removed k s) h = remove-IsConsistent k s h
step-IsConsistent (cleared s) h = clear-IsConsistent s
step-IsConsistent (loaded cs s) h = load_each-IsConsistent cs (clear s) (clear-IsConsistent s)

-- In every store that its operations reach from a new one, the proxies are the view of the
-- contacts in the same order, every contact stands under its own public key, and no key twice.
pub Reached-IsConsistent : (n : ℕ) (s : ContactStore) → Reached n s → IsConsistent s
unfolding view
Reached-IsConsistent n _ start = record { mirror = refl; keyed = tt; distinct = tt }
Reached-IsConsistent n t (then_ {s = s} r e) = step-IsConsistent e (Reached-IsConsistent n s r)

-- In every such store, the proxy under a key is the one of the contact under the key.
pub get_proxy_by_key-Reached :
    (n : ℕ) (s : ContactStore) (k : List ℕ)
    → Reached n s
    → get_proxy_by_key k s ≡ elim (get_by_key k s) [ none ↦ none | some c ↦ some (proxy c) ]
unfolding get_proxy_by_key get_by_key
get_proxy_by_key-Reached n s k r =
    ap (λ d. lookup k d) (Reached-IsConsistent n s r).mirror ∙ lookup-view k s.contacts
