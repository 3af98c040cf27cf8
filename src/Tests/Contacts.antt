-- ===== src/Tests/Contacts.antt =====
-- A full contact store of three: a favourite, a transient and a plain contact.
use openhop_core.Prelude.{
  ℕ, ◌≡◌, ◌≢◌, ◌⊎◌, refl, true, false, some, none, List, [], ◌∷◌, if◌then◌else◌, arith,
}
use openhop_core.Prelude.Int.{pos, negsuc}
use openhop_core.Prelude.Bytes.{bytes_eq}
use openhop_core.Prelude.Dict.{bytes_key, lookup, contains, IsDistinct}
use openhop_core.Companion.Contacts.{
  Contact, ContactStore, proxy, is_transient, is_full, add, is_evictable, add_or_overwrite,
  get_by_key,
}
use openhop_core.Companion.Contacts.View.{
  IsConsistent, Reached, start, then_, added, Reached-IsConsistent,
}
use openhop_core.Companion.Contacts.Eviction.{
  IsLeast, left, left_over, add_or_overwrite-full, add_or_overwrite-protected,
}

abbrev someone : List ℕ → ℕ → ℕ → ℕ → Contact
someone key adv_type flags lastmod = record {
  public_key = key;
  name = 65 ∷ [];
  adv_type = adv_type;
  flags = flags;
  out_path_len = negsuc 0;
  out_path = [];
  last_advert_timestamp = 0;
  lastmod = lastmod;
  gps_lat = pos 0;
  gps_lon = pos 0;
  sync_since = 0;
  last_advert_packet = none;
}

abbrev favourite : Contact
favourite = someone (1 ∷ []) 1 1 10

abbrev anon : Contact
anon = someone (2 ∷ []) 0 0 11

abbrev plain : Contact
plain = someone (3 ∷ []) 2 0 12

abbrev newcomer : Contact
newcomer = someone (4 ∷ []) 1 0 20

abbrev store : ContactStore
store = record {
  contacts = (1 ∷ [], favourite) ∷ (2 ∷ [], anon) ∷ (3 ∷ [], plain) ∷ [];
  proxies = (1 ∷ [], proxy favourite) ∷ (2 ∷ [], proxy anon) ∷ (3 ∷ [], proxy plain) ∷ [];
  max_contacts = 3;
}

distinct : IsDistinct store.contacts
unfolding contains bytes_eq
distinct = (refl, (refl, (refl, tt)))

fresh : contains newcomer.public_key store.contacts ≡ false
unfolding contains bytes_eq
fresh = refl

full : is_full store ≡ true
unfolding is_full
full = refl

favourite_there : get_by_key (1 ∷ []) store ≡ some favourite
unfolding get_by_key lookup bytes_eq
favourite_there = refl

favourite_safe : is_evictable favourite ≡ false
unfolding is_evictable
favourite_safe = refl

favourite_real : is_transient favourite ≡ false
unfolding is_transient
favourite_real = refl

other : newcomer.public_key ≢ 1 ∷ []
other = ground arith

add_or_overwrite-full_example :
    ((add_or_overwrite newcomer store ≡ (false, none, store)) × IsLeast 4294967295 store.contacts)
    ⊎ ((k : List ℕ) × (b : Contact) × (t : ContactStore) × (add_or_overwrite newcomer store
          ≡ (true, some k, t))
        × (get_by_key k store ≡ some b)
        × (is_evictable b ≡ true)
        × IsLeast b.lastmod store.contacts
        × ((j : List ℕ)
            → get_by_key j t ≡ (
                if bytes_eq newcomer.public_key j
                then some newcomer
                else if bytes_eq k j
                then none
                else get_by_key j store)))
add_or_overwrite-full_example = add_or_overwrite-full newcomer store distinct fresh full

add_or_overwrite-protected_example :
    get_by_key (1 ∷ []) (left_over (add_or_overwrite newcomer store)) ≡ some favourite
add_or_overwrite-protected_example =
    add_or_overwrite-protected newcomer favourite (1 ∷ []) store distinct favourite_there
      favourite_safe other

abbrev empty : ContactStore
empty = record { contacts = []; proxies = []; max_contacts = 3 }

one_added : Reached 3 (left (add newcomer empty))
one_added = then_ start (added newcomer empty)

Reached-IsConsistent_example : IsConsistent (left (add newcomer empty))
Reached-IsConsistent_example = Reached-IsConsistent 3 (left (add newcomer empty)) one_added
