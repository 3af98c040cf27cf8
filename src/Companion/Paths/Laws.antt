-- ===== src/Companion/Paths/Laws.antt =====
-- The path cache: its bound and its prefixes, and what it answers after an update.
use openhop_core.Prelude.{
  ℕ, ◌+◌, ◌≤◌, ◌<◌, ◌≡◌, refl, ◌∙◌, ◌≢◌, ◌⊎◌, inl, inr, Bool, true, false, some, List, [], ◌∷◌,
  ◌++◌, arith, if◌then◌else◌, leb, leb→le, Bool-cases, length, length-append, take_of_length-le,
}
use openhop_core.Prelude.Bytes.{bytes_eq, bytes_eq_iff}
use openhop_core.Prelude.Outcome.{ok}
use openhop_core.Companion.Paths.{
  AdvertPath, PathCache, remove_prefix, popleft, update, find_prefix, get_by_prefix,
}

-- Some entry has exactly this prefix.
unfoldable pub knows : List ℕ → List AdvertPath → Bool
knows k [] = false
knows k (p ∷ ps) = if bytes_eq p.public_key_prefix k then true else knows k ps

-- Prefixes have `n` bytes, and no two are equal.
abbrev pub IsTable : ℕ → List AdvertPath → Type 0
IsTable n [] = Unit
IsTable n (p ∷ ps) =
    (length p.public_key_prefix ≡ n) × (knows p.public_key_prefix ps ≡ false) × IsTable n ps

knows-remove_prefix :
    (k j : List ℕ) (ps : List AdvertPath)
    → knows j ps ≡ false
    → knows j (remove_prefix k ps) ≡ false
unfolding knows remove_prefix
knows-remove_prefix k j [] h = refl
knows-remove_prefix k j (p ∷ ps) h = ground (arith, h, knows-remove_prefix k j ps)

removed :
    (n : ℕ) (k : List ℕ) (ps : List AdvertPath)
    → IsTable n ps
    → knows k (remove_prefix k ps) ≡ false
unfolding knows remove_prefix
removed n k [] h = refl
removed n k (p ∷ ps) h = ground (arith, h, removed n k ps, bytes_eq_iff p.public_key_prefix k)

remove_prefix-IsTable :
    (n : ℕ) (k : List ℕ) (ps : List AdvertPath) → IsTable n ps → IsTable n (remove_prefix k ps)
unfolding remove_prefix
remove_prefix-IsTable n k [] h = tt
remove_prefix-IsTable n k (p ∷ ps) h =
    ground (arith, h, remove_prefix-IsTable n k ps, knows-remove_prefix k p.public_key_prefix ps)

length-remove_prefix : (k : List ℕ) (ps : List AdvertPath) → length (remove_prefix k ps) ≤ length ps
unfolding remove_prefix
length-remove_prefix k [] = omega arith
length-remove_prefix k (p ∷ ps) = ground (arith, length-remove_prefix k ps)

knows-append :
    (k : List ℕ) (ps qs : List AdvertPath)
    → knows k (ps ++ qs) ≡ (if knows k ps then true else knows k qs)
unfolding knows
knows-append k [] qs = refl
knows-append k (p ∷ ps) qs = ground (arith, knows-append k ps qs)

append-IsTable :
    (n : ℕ) (p : AdvertPath) (ps : List AdvertPath)
    → length p.public_key_prefix ≡ n
    → knows p.public_key_prefix ps ≡ false
    → IsTable n ps
    → IsTable n (ps ++ p ∷ [])
unfolding knows
append-IsTable n p [] size fresh h = (size, refl, tt)
append-IsTable n p (q ∷ ps) size fresh h = ground (
  arith,
  size,
  fresh,
  h,
  append-IsTable n p ps,
  knows-append q.public_key_prefix ps (p ∷ []),
  bytes_eq_iff p.public_key_prefix q.public_key_prefix,
  bytes_eq_iff q.public_key_prefix p.public_key_prefix,
)

find_prefix-append :
    (n : ℕ) (k : List ℕ) (ps qs : List AdvertPath)
    → length k ≡ n
    → IsTable n ps
    → find_prefix k (ps ++ qs) ≡ (if knows k ps then find_prefix k ps else find_prefix k qs)
unfolding knows find_prefix
find_prefix-append n k [] qs size h = refl
find_prefix-append n k (p ∷ ps) qs size h =
    ground (arith, size, h, find_prefix-append n k ps qs, take_of_length-le n p.public_key_prefix)

length-remove_known :
    (k : List ℕ) (ps : List AdvertPath)
    → knows k ps ≡ true
    → length (remove_prefix k ps) + 1 ≤ length ps
unfolding knows remove_prefix
length-remove_known k [] h = ground (arith, h)
length-remove_known k (p ∷ ps) h = ground (arith, h, length-remove_known k ps)

find_prefix-remove_prefix :
    (n : ℕ) (k j : List ℕ) (ps : List AdvertPath)
    → length j ≡ n
    → k ≢ j
    → IsTable n ps
    → find_prefix j (remove_prefix k ps) ≡ find_prefix j ps
unfolding find_prefix remove_prefix
find_prefix-remove_prefix n k j [] size d h = refl
find_prefix-remove_prefix n k j (p ∷ ps) size d h = ground (
  arith,
  size,
  d,
  h,
  find_prefix-remove_prefix n k j ps size d,
  take_of_length-le n p.public_key_prefix,
  bytes_eq_iff p.public_key_prefix k,
  bytes_eq_iff p.public_key_prefix j,
)

-- The table without its oldest entry, when it has one.
popleft-ok :
    (n m : ℕ) (ps : List AdvertPath)
    → 1 ≤ m
    → m ≤ length ps
    → IsTable n ps
    → (qs : List AdvertPath) × (popleft ps ≡ ok qs)
      × IsTable n qs
      × (length qs + 1 ≡ length ps)
      × ((k : List ℕ) → knows k ps ≡ false → knows k qs ≡ false)
unfolding popleft knows
popleft-ok n m [] pos big h = ground (arith, pos, big)
popleft-ok n m (p ∷ ps) pos big (_, _, h) =
    (ps, refl, h, omega arith, λ k absent. ground (arith, absent))

newest :
    (n : ℕ) (p : AdvertPath) (ps : List AdvertPath)
    → length p.public_key_prefix ≡ n
    → knows p.public_key_prefix ps ≡ false
    → IsTable n ps
    → find_prefix p.public_key_prefix (ps ++ p ∷ []) ≡ some p
unfolding find_prefix
newest n p ps size fresh h = ground (
  arith,
  fresh,
  find_prefix-append n p.public_key_prefix ps (p ∷ []) size h,
  take_of_length-le (length p.public_key_prefix) p.public_key_prefix (omega arith),
  bytes_eq_iff p.public_key_prefix p.public_key_prefix,
)

-- A cache that may hold an entry, is within its bound, and has prefixes of one length and none
-- twice, takes every new entry of that length: no error is raised, the result has these
-- properties again, and the entry is found by its prefix.
pub update-IsTable :
    (n : ℕ) (p : AdvertPath) (c : PathCache)
    → 1 ≤ c.max_entries
    → length c.paths ≤ c.max_entries
    → IsTable n c.paths
    → length p.public_key_prefix ≡ n
    → (c' : PathCache) × (update p c ≡ ok c')
      × (length c'.paths ≤ c.max_entries)
      × IsTable n c'.paths
      × (get_by_prefix p.public_key_prefix c' ≡ some p)
unfolding update get_by_prefix
update-IsTable n p c pos fits h size =
    let kept = remove_prefix p.public_key_prefix c.paths in
    let table = remove_prefix-IsTable n p.public_key_prefix c.paths h in
    let fresh = removed n p.public_key_prefix c.paths h in
    let shorter = length-remove_prefix p.public_key_prefix c.paths in
    elim (Bool-cases (leb c.max_entries (length kept))) [
      | inl full ↦
          let (qs, e, table', one, absent) =
            popleft-ok n c.max_entries kept pos (leb→le _ _ full) table in
          (
            record c { paths = qs ++ p ∷ [] },
            simp (full, e) refl,
            ground (arith, length-append qs (p ∷ []), shorter, fits, one),
            append-IsTable n p qs size (absent _ fresh) table',
            newest n p qs size (absent _ fresh) table',
          )
      | inr room ↦ (
        record c { paths = kept ++ p ∷ [] },
        simp (room) refl,
        ground (arith, length-append kept (p ∷ []), room),
        append-IsTable n p kept size fresh table,
        newest n p kept size fresh table,
      )
    ]

find_prefix-other :
    (n : ℕ) (p : AdvertPath) (j : List ℕ) (ps : List AdvertPath)
    → length p.public_key_prefix ≡ n
    → length j ≡ n
    → p.public_key_prefix ≢ j
    → find_prefix j (ps ++ p ∷ []) ≡ find_prefix j ps
unfolding find_prefix
find_prefix-other n p j [] size size' d = ground (
  arith,
  size,
  size',
  d,
  take_of_length-le n p.public_key_prefix,
  bytes_eq_iff p.public_key_prefix j,
)
find_prefix-other n p j (q ∷ ps) size size' d =
    ground (arith, find_prefix-other n p j ps size size' d)

-- A cache within its bound, whose prefixes have one length and none stands twice, takes an entry
-- of that length for which it has room, or whose prefix it knows, without an error; it then
-- answers for every other prefix of that length what it answered before.
pub update-other :
    (n : ℕ) (p : AdvertPath) (c : PathCache) (j : List ℕ)
    → length c.paths ≤ c.max_entries
    → IsTable n c.paths
    → length p.public_key_prefix ≡ n
    → length j ≡ n
    → p.public_key_prefix ≢ j
    → (length c.paths < c.max_entries) ⊎ (knows p.public_key_prefix c.paths ≡ true)
    → (c' : PathCache) × (update p c ≡ ok c') × (get_by_prefix j c' ≡ get_by_prefix j c)
unfolding update get_by_prefix
update-other n p c j fits h size_p size differs room =
    let kept = remove_prefix p.public_key_prefix c.paths in
    let short : leb c.max_entries (length kept) ≡ false = ground (
      arith,
      fits,
      room,
      length-remove_prefix p.public_key_prefix c.paths,
      length-remove_known p.public_key_prefix c.paths,
    ) in
    (
      record c { paths = kept ++ p ∷ [] },
      simp (short) refl,
      find_prefix-other n p j kept size_p size differs
          ∙ find_prefix-remove_prefix n p.public_key_prefix j c.paths size differs h,
    )
