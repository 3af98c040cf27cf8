-- ===== src/Companion/Channels/Laws.antt =====
-- Slots: what writing at one index does to the others, to the names and to the count.
use openhop_core.Prelude.{
  ℕ, zero, suc, ◌+◌, ◌<◌, ◌≡◌, refl, ap, ◌≢◌, ◌&&◌, Option, none, some, List, [], ◌∷◌, arith,
  if◌then◌else◌, ltb, ◌==◌, ==_iff, ==_refl, length, get_or, set,
}
use openhop_core.Prelude.Int.{ℤ, pos, negsuc}
use openhop_core.Companion.Channels.{
  Channel, ChannelStore, in_range, slot, set_slot, get, set_channel, is_some, remove, count,
  get_count,
}

length-set :
    (cs : List (Option Channel)) (i : ℕ) (v : Option Channel) → length (set cs i v) ≡ length cs
length-set [] i v = refl
length-set (c ∷ cs) zero v = refl
length-set (c ∷ cs) (suc i) v = ap suc (length-set cs i v)

get_or-set :
    (cs : List (Option Channel)) (i j : ℕ) (v : Option Channel)
    → get_or (set cs i v) j none ≡ (if (i == j) && ltb i (length cs) then v else get_or cs j none)
get_or-set [] i j v = ground arith
get_or-set (c ∷ cs) zero zero v = ground arith
get_or-set (c ∷ cs) zero (suc j) v = ground arith
get_or-set (c ∷ cs) (suc i) zero v = ground arith
get_or-set (c ∷ cs) (suc i) (suc j) v = ground (arith, get_or-set cs i j v)

count-set :
    (cs : List (Option Channel)) (i : ℕ) (v : Option Channel)
    → i < length cs
    → count (set cs i v) + (if is_some (get_or cs i none) then 1 else 0)
      ≡ count cs + (if is_some v then 1 else 0)
unfolding count is_some
count-set [] i v h = ground (arith, h)
count-set (c ∷ cs) zero v h = elim c [
  | none ↦ elim v [ none ↦ ground arith | some _ ↦ ground arith ]
  | some _ ↦ elim v [ none ↦ ground arith | some _ ↦ ground arith ]
]
count-set (none ∷ cs) (suc i) v h = ground (arith, h, count-set cs i v)
count-set (some _ ∷ cs) (suc i) v h = ground (arith, h, count-set cs i v)

-- In a store with a slot for every index, writing a channel at an index succeeds exactly in
-- range; then that index reads back the channel, another index reads as before, and the
-- number of slots stays.
pub get-set_channel :
    (i j : ℤ) (c : Channel) (s : ChannelStore)
    → length s.channels ≡ s.max_channels
    → i ≢ j
    → (let (done, _) = set_channel i c s in done) ≡ in_range i s.max_channels
      × ((let (_, s') = set_channel i c s in length s'.channels) ≡ s.max_channels)
      × ((let (_, s') = set_channel i c s in get i s')
          ≡ (if in_range i s.max_channels then some c else none))
      × ((let (_, s') = set_channel i c s in get j s') ≡ get j s)
unfolding set_channel get in_range slot set_slot
get-set_channel (pos i) (pos j) c s h differs = ground (
  arith,
  h,
  differs,
  length-set s.channels i (some c),
  get_or-set s.channels i i (some c),
  get_or-set s.channels i j (some c),
  ==_iff i j,
  ==_refl i,
  λ (e : i ≡ j). ap (λ n. pos n) e,
)
get-set_channel (pos i) (negsuc j) c s h differs = ground (
  arith,
  h,
  differs,
  length-set s.channels i (some c),
  get_or-set s.channels i i (some c),
  ==_refl i,
)
get-set_channel (negsuc i) j c s h differs = ground (arith, h, differs)

-- In a store with a slot for every index, removing answers whether the index was in range and
-- taken; then it is free, another index reads as before, and the count is less by one if a
-- channel was removed.
pub get-remove :
    (i j : ℤ) (s : ChannelStore)
    → length s.channels ≡ s.max_channels
    → i ≢ j
    → (let (done, _) = remove i s in done) ≡ is_some (get i s)
      × ((let (_, s') = remove i s in get i s') ≡ none)
      × ((let (_, s') = remove i s in get j s') ≡ get j s)
      × ((let (done, s') = remove i s in get_count s' + (if done then 1 else 0)) ≡ get_count s)
unfolding remove get get_count in_range slot set_slot is_some
get-remove (pos i) (pos j) s h differs = ground (
  arith,
  h,
  differs,
  get_or-set s.channels i i none,
  get_or-set s.channels i j none,
  count-set s.channels i none,
  ==_iff i j,
  ==_refl i,
  λ (e : i ≡ j). ap (λ n. pos n) e,
)
get-remove (pos i) (negsuc j) s h differs =
    ground
      (arith, h, differs, get_or-set s.channels i i none, count-set s.channels i none, ==_refl i)
get-remove (negsuc i) j s h differs = ground (arith, h)
