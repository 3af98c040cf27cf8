-- ===== src/Companion/Channels.antt =====
-- `ChannelStore` of `src/openhop_core/companion/channel_store.py` and the `Channel` of
-- `companion/models.py`. An index is a Python int: a negative one is out of range.
use openhop_core.Prelude.{
  ℕ, suc, ◌+◌, ◌-◌, ◌/◌, ◌%◌, ◌≤◌, ◌<◌, ◌≡◌, refl, sym, ap, ◌∙◌, ◌≢◌, ◌↔◌, ◌⊎◌, inl, inr, Bool,
  true, false, not, ◌&&◌, ◌||◌, Option, none, some, List, [], ◌∷◌, ◌++◌, map, arith, if◌then◌else◌,
  ltb, leb, ltb→lt, lt→ltb, leb→le, ◌==◌, ==_iff, ==_refl, Bool-cases, Option-cases, length,
  length-append, replicate, All, get_elem?, get_or, set, take, drop, take-append,
}
use openhop_core.Prelude.Int.{ℤ, pos, negsuc}
use openhop_core.Prelude.Bytes.{bytes_eq, bytes_eq_iff}
pub mod Laws

pub record Channel : Type 0 where
  pub name : List ℕ
  pub secret : List ℕ

pub record ChannelStore : Type 0 where
  pub channels : List (Option Channel)
  pub max_channels : ℕ

unfoldable pub init : ℕ → ChannelStore
init n = record { channels = replicate n none; max_channels = n }

-- `0 <= idx < self._max_channels`
unfoldable pub in_range : ℤ → ℕ → Bool
in_range (pos i) n = ltb i n
in_range (negsuc i) n = false

-- The slot at an index; a free slot for one out of range.
unfoldable pub slot : ℤ → List (Option Channel) → Option Channel
slot (pos i) cs = get_or cs i none
slot (negsuc i) cs = none

unfoldable pub set_slot : ℤ → Option Channel → List (Option Channel) → List (Option Channel)
set_slot (pos i) v cs = set cs i v
set_slot (negsuc i) v cs = cs

unfoldable pub get : ℤ → ChannelStore → Option Channel
get i s = if in_range i s.max_channels then slot i s.channels else none

unfoldable pub set_channel : ℤ → Channel → ChannelStore → Bool × ChannelStore
set_channel i c s =
    if in_range i s.max_channels
    then (true, record s { channels = set_slot i (some c) s.channels })
    else (false, s)

unfoldable pub is_some : Option Channel → Bool
is_some none = false
is_some (some c) = true

unfoldable pub remove : ℤ → ChannelStore → Bool × ChannelStore
remove i s =
    if in_range i s.max_channels && is_some (slot i s.channels)
    then (true, record s { channels = set_slot i none s.channels })
    else (false, s)

-- `for idx, ch in enumerate(...)`, from an index on.
unfoldable pub find_from : List ℕ → ℕ → List (Option Channel) → Option ℕ
find_from name i [] = none
find_from name i (none ∷ cs) = find_from name (suc i) cs
find_from name i (some c ∷ cs) = if bytes_eq c.name name then some i else find_from name (suc i) cs

unfoldable pub find_by_name : List ℕ → ChannelStore → Option ℕ
find_by_name name s = find_from name 0 s.channels

unfoldable pub count : List (Option Channel) → ℕ
count [] = 0
count (none ∷ cs) = count cs
count (some c ∷ cs) = suc (count cs)

unfoldable pub get_count : ChannelStore → ℕ
get_count s = count s.channels

unfoldable pub get_channels : List (Option Channel) → List Channel
get_channels [] = []
get_channels (none ∷ cs) = get_channels cs
get_channels (some c ∷ cs) = c ∷ get_channels cs

unfoldable pub clear : ChannelStore → ChannelStore
clear s = record s { channels = replicate s.max_channels none }
