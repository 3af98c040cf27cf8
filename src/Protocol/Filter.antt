-- ===== src/Protocol/Filter.antt =====
-- `PacketFilter` and `PacketHashCache` of `src/openhop_core/protocol/packet_filter.py`. A key is
-- the hash string, of any type with an equality; a time is a natural number of clock ticks, and
-- the clock's reading is an argument, `now`. The windows are in the same ticks.
use openhop_core.Prelude.{
  ℕ, suc, ◌+◌, ◌-◌, ◌≤◌, ◌<◌, ◌≡◌, refl, sym, ap, ◌∙◌, ◌≢◌, ◌↔◌, ◌⊎◌, inl, inr, Bool, true, false,
  not, ◌&&◌, ◌||◌, Option, none, some, List, [], ◌∷◌, ◌++◌, map, arith, if◌then◌else◌, ltb, leb,
  ◌==◌, ==_iff, ltb→lt, lt→ltb, leb→le, Bool-cases, Option-cases, length, length-append, get_elem?,
  get_or, set, take, drop,
}
use openhop_core.Prelude.Dict.{
  Eq, nat_key, bytes_key, Dict, lookup, contains, insert, remove, move_to_end, IsDistinct,
  lookup-remove, lookup-insert, lookup-append, contains-remove, contains-insert, contains-append,
  length-remove-le, length-remove, remove_absent, length-insert, remove-IsDistinct,
  insert-IsDistinct, append-IsDistinct,
}
pub mod Blacklist
pub mod Expiry
pub mod Cache

abbrev pub blacklist_max_entries : ℕ
blacklist_max_entries = 4096

-- 300 seconds, on a clock that ticks once a second.
abbrev pub blacklist_ttl_seconds : ℕ
blacklist_ttl_seconds = 300

pub record PacketFilter (K : Type 0) : Type 0 where
  pub window_seconds : ℕ
  pub packet_hashes : Dict K ℕ
  pub blacklist : Dict K ℕ

-- `d.popitem(last=False)` on a dictionary that is not empty; both callers have tested it.
unfoldable pub pop_oldest : {K V : Type 0} → Dict K V → Dict K V
pop_oldest [] = []
pop_oldest (_ ∷ d) = d

-- `now - at < window`
unfoldable pub is_within : ℕ → ℕ → ℕ → Bool
is_within now at window = ltb now (at + window)

module _ {K : Type 0} ⦃e : Eq K⦄ where
  unfoldable pub is_duplicate : ℕ → K → PacketFilter K → Bool
  is_duplicate now k f = elim (lookup k f.packet_hashes) [
    | none ↦ false
    | some at ↦ is_within now at f.window_seconds
  ]

  unfoldable pub track_packet : ℕ → K → PacketFilter K → PacketFilter K
  track_packet now k f = record f { packet_hashes = insert k now f.packet_hashes }

  -- The three statements that `blacklist` and `check_and_add` share: store the time, move the
  -- entry to the end, and drop the oldest above the bound.
  unfoldable pub store_newest : ℕ → ℕ → K → Dict K ℕ → Dict K ℕ
  store_newest bound now k d =
      let d' = move_to_end k (insert k now d) in if ltb bound (length d') then pop_oldest d' else d'

  unfoldable pub add_blacklist : ℕ → K → PacketFilter K → PacketFilter K
  add_blacklist now k f = record f {
    blacklist = store_newest blacklist_max_entries now k f.blacklist;
  }

  unfoldable pub is_blacklisted : ℕ → K → PacketFilter K → Bool
  is_blacklisted now k f = elim (lookup k f.blacklist) [
    | none ↦ false
    | some at ↦ is_within now at blacklist_ttl_seconds
  ]

  -- The keys that a comprehension over `d.items()` collects: `now - at > window`.
  unfoldable pub expired_keys : ℕ → ℕ → Dict K ℕ → List K
  expired_keys now window [] = []
  expired_keys now window ((k, at) ∷ d) =
      let rest = expired_keys now window d in if ltb (at + window) now then k ∷ rest else rest

  -- `for h in old: del d[h]`
  unfoldable pub remove_all : {V : Type 0} → List K → Dict K V → Dict K V
  remove_all [] d = d
  remove_all (k ∷ ks) d = remove_all ks (remove k d)

  unfoldable pub cleanup_old_hashes : ℕ → PacketFilter K → PacketFilter K
  cleanup_old_hashes now f = record f {
    packet_hashes = remove_all (expired_keys now f.window_seconds f.packet_hashes) f.packet_hashes;
    blacklist = remove_all (expired_keys now blacklist_ttl_seconds f.blacklist) f.blacklist;
  }

  unfoldable pub clear : PacketFilter K → PacketFilter K
  clear f = record f { packet_hashes = []; blacklist = [] }

pub record PacketHashCache (K : Type 0) : Type 0 where
  pub ttl_seconds : ℕ
  pub max_entries : ℕ
  pub entries : Dict K ℕ

module _ {K : Type 0} ⦃e : Eq K⦄ where
  -- The `while` of `_evict_expired`: the oldest entries go until one is young enough.
  unfoldable pub evict_expired : ℕ → ℕ → Dict K ℕ → Dict K ℕ
  evict_expired ttl now [] = []
  evict_expired ttl now ((k, at) ∷ d) =
      let rest = evict_expired ttl now d in if leb now (at + ttl) then (k, at) ∷ d else rest

  unfoldable pub check_and_add : ℕ → K → PacketHashCache K → Bool × PacketHashCache K
  check_and_add now k c =
      let live = evict_expired c.ttl_seconds now c.entries in
      (contains k live, record c { entries = store_newest c.max_entries now k live })
