-- ===== src/Companion/Contacts.antt =====
-- `ContactStore` and `ContactProxy` of `src/openhop_core/companion/contact_store.py`, and the
-- `Contact` of `companion/models.py`. Texts are lists of code points; a position is a count of
-- microdegrees, in place of the float.
use openhop_core.Prelude.{
  ℕ, suc, ◌+◌, ◌-◌, ◌/◌, ◌%◌, ◌≤◌, ◌<◌, ◌≡◌, refl, sym, ap, ◌∙◌, ◌≢◌, ◌↔◌, ◌⊎◌, inl, inr, Bool,
  true, false, not, ◌&&◌, ◌||◌, Option, none, some, List, [], ◌∷◌, ◌++◌, map, arith, if◌then◌else◌,
  ltb, leb, ltb→lt, lt→ltb, leb→le, ◌==◌, ==_iff, ==_refl, Bool-cases, Option-cases, length,
  length-append, get_elem?, get_or, set, take, drop, take-append,
}
use openhop_core.Prelude.Int.{ℤ}
use openhop_core.Prelude.Bytes.{bytes_eq}
use openhop_core.Prelude.Dict.{Dict, bytes_key, lookup, contains, insert, remove as delete}
pub mod View
pub mod Capacity
pub mod Eviction

-- `ADV_TYPE_NONE`, of a transient contact.
abbrev pub adv_type_none : ℕ
adv_type_none = 0

abbrev pub max_anon_contacts : ℕ
max_anon_contacts = 8

pub record Contact : Type 0 where
  pub public_key : List ℕ
  pub name : List ℕ
  pub adv_type : ℕ
  pub flags : ℕ
  pub out_path_len : ℤ
  pub out_path : List ℕ
  pub last_advert_timestamp : ℕ
  pub lastmod : ℕ
  pub gps_lat : ℤ
  pub gps_lon : ℤ
  pub sync_since : ℕ
  pub last_advert_packet : Option (List ℕ)

pub record ContactProxy : Type 0 where
  pub public_key : List ℕ
  pub name : List ℕ
  pub type : ℕ
  pub flags : ℕ
  pub out_path : List ℕ
  pub out_path_len : ℤ
  pub sync_since : ℕ
  pub last_advert_timestamp : ℕ
  pub lastmod : ℕ
  pub gps_lat : ℤ
  pub gps_lon : ℤ

-- One character of `bytes.hex()`.
unfoldable pub hex_digit : ℕ → ℕ
hex_digit n = if ltb n 10 then 48 + n else 87 + n

unfoldable pub hex : List ℕ → List ℕ
hex [] = []
hex (b ∷ bs) = hex_digit (b / 16) ∷ hex_digit (b % 16) ∷ hex bs

-- `ContactProxy(contact)`
unfoldable pub proxy : Contact → ContactProxy
proxy c = record {
  public_key = hex c.public_key;
  name = c.name;
  type = c.adv_type;
  flags = c.flags;
  out_path = c.out_path;
  out_path_len = c.out_path_len;
  sync_since = c.sync_since;
  last_advert_timestamp = c.last_advert_timestamp;
  lastmod = c.lastmod;
  gps_lat = c.gps_lat;
  gps_lon = c.gps_lon;
}

pub record ContactStore : Type 0 where
  pub contacts : Dict (List ℕ) Contact
  pub proxies : Dict (List ℕ) ContactProxy
  pub max_contacts : ℕ

unfoldable pub is_transient : Contact → Bool
is_transient c = c.adv_type == adv_type_none

-- The two assignments that every operation ends with.
unfoldable pub put : Contact → ContactStore → ContactStore
put c s = record s {
  contacts = insert c.public_key c s.contacts;
  proxies = insert c.public_key (proxy c) s.proxies;
}

unfoldable pub is_full : ContactStore → Bool
is_full s = leb s.max_contacts (length s.contacts)

-- `add` and `update` call each other, each on the case that the other one decides.
unfoldable pub add : Contact → ContactStore → Bool × ContactStore
add c s =
    if contains c.public_key s.contacts
    then (true, put c s)
    else if is_full s
    then (false, s)
    else (true, put c s)

unfoldable pub update : Contact → ContactStore → Bool × ContactStore
update c s = if contains c.public_key s.contacts then (true, put c s) else add c s

unfoldable pub remove : List ℕ → ContactStore → Bool × ContactStore
remove k s =
    if contains k s.contacts
    then (true, record s { contacts = delete k s.contacts; proxies = delete k s.proxies })
    else (false, s)

-- What `add_or_overwrite` may overwrite: neither a favourite nor a transient contact.
unfoldable pub is_evictable : Contact → Bool
is_evictable c = (c.flags % 2 == 0) && not (is_transient c)

-- Its loop over the contacts, with the oldest key and time so far.
unfoldable pub oldest_from : Option (List ℕ) → ℕ → Dict (List ℕ) Contact → Option (List ℕ)
oldest_from k t [] = k
oldest_from k t ((j, c) ∷ d) =
    let taken = oldest_from (some j) c.lastmod d in
    let passed = oldest_from k t d in if is_evictable c && ltb c.lastmod t then taken else passed

unfoldable pub oldest_evictable : Dict (List ℕ) Contact → Option (List ℕ)
oldest_evictable d = oldest_from none 4294967295 d

unfoldable pub add_or_overwrite : Contact → ContactStore → Bool × Option (List ℕ) × ContactStore
add_or_overwrite c s =
    if contains c.public_key s.contacts
    then (let (done, s') = update c s in (done, none, s'))
    else if is_full s
    then (elim (oldest_evictable s.contacts) [
      | none ↦ (false, none, s)
      | some k ↦ let (_, s') = remove k s in (true, some k, put c s')
    ])
    else (true, none, put c s)

unfoldable pub anon_keys : Dict (List ℕ) Contact → List (List ℕ)
anon_keys [] = []
anon_keys ((k, c) ∷ d) = if is_transient c then k ∷ anon_keys d else anon_keys d

-- `self._contacts[k].lastmod`, of a key that is there.
unfoldable pub lastmod_of : List ℕ → Dict (List ℕ) Contact → ℕ
lastmod_of k d = elim (lookup k d) [ none ↦ 0 | some c ↦ c.lastmod ]

-- `min(k :: keys, key=...)`: the first of the least.
unfoldable pub min_key : Dict (List ℕ) Contact → List ℕ → List (List ℕ) → List ℕ
min_key d k [] = k
min_key d k (j ∷ ks) =
    let left = min_key d k ks in
    let right = min_key d j ks in if ltb (lastmod_of j d) (lastmod_of k d) then right else left

unfoldable pub add_transient : Contact → ContactStore → Bool × ContactStore
add_transient c s =
    if contains c.public_key s.contacts
    then update c s
    else if leb max_anon_contacts (length (anon_keys s.contacts))
    then (elim (anon_keys s.contacts) [
      | [] ↦ (true, put c s)
      | k ∷ ks ↦ let (_, s') = remove (min_key s.contacts k ks) s in (true, put c s')
    ])
    else (true, put c s)

unfoldable pub get_by_key : List ℕ → ContactStore → Option Contact
get_by_key k s = lookup k s.contacts

unfoldable pub get_proxy_by_key : List ℕ → ContactStore → Option ContactProxy
get_proxy_by_key k s = lookup k s.proxies

-- `count`: the contacts that are not transient.
unfoldable pub count_real : Dict (List ℕ) Contact → ℕ
count_real [] = 0
count_real ((k, c) ∷ d) = (if is_transient c then 0 else 1) + count_real d

unfoldable pub clear : ContactStore → ContactStore
clear s = record s { contacts = []; proxies = [] }

-- The loop of `load_from`.
unfoldable pub load_each : List Contact → ContactStore → ContactStore
load_each [] s = s
load_each (c ∷ cs) s = let next = load_each cs (put c s) in if is_full s then s else next

unfoldable pub load_from : List Contact → ContactStore → ContactStore
load_from cs s = load_each cs (clear s)

unfoldable pub get_by_key_prefix : List ℕ → Dict (List ℕ) Contact → Option Contact
get_by_key_prefix p [] = none
get_by_key_prefix p ((k, c) ∷ d) =
    if bytes_eq (take (length p) k) p then some c else get_by_key_prefix p d

-- `get_all(since)`, over the contacts.
unfoldable pub get_all : ℕ → Dict (List ℕ) Contact → List Contact
get_all since [] = []
get_all since ((k, c) ∷ d) =
    let rest = get_all since d in if (since == 0) || leb since c.lastmod then c ∷ rest else rest
