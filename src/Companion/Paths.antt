-- ===== src/Companion/Paths.antt =====
-- `PathCache` of `src/openhop_core/companion/path_cache.py` and the `AdvertPath` of
-- `companion/models.py`.
use openhop_core.Prelude.{
  ℕ, suc, ◌+◌, ◌-◌, ◌/◌, ◌%◌, ◌≤◌, ◌<◌, ◌≡◌, refl, sym, ap, ◌∙◌, ◌≢◌, ◌↔◌, ◌⊎◌, inl, inr, Bool,
  true, false, not, ◌&&◌, ◌||◌, Option, none, some, List, [], ◌∷◌, ◌++◌, map, arith, if◌then◌else◌,
  ltb, leb, ltb→lt, lt→ltb, leb→le, ◌==◌, ==_iff, ==_refl, Bool-cases, Option-cases, length,
  length-append, get_elem?, get_or, set, take, drop, take-append,
}
use openhop_core.Prelude.Bytes.{bytes_eq}
use openhop_core.Prelude.Outcome.{Error, index_error, Result, ok, raise}
pub mod Laws

pub record AdvertPath : Type 0 where
  pub public_key_prefix : List ℕ
  pub name : List ℕ
  pub path_len : ℕ
  pub path : List ℕ
  pub recv_timestamp : ℕ

pub record PathCache : Type 0 where
  pub paths : List AdvertPath
  pub max_entries : ℕ

-- The loop that removes the first entry with the prefix. `deque.remove` looks for the first entry
-- equal to the one found, which no earlier one is, since no earlier one has its prefix.
unfoldable pub remove_prefix : List ℕ → List AdvertPath → List AdvertPath
remove_prefix k [] = []
remove_prefix k (p ∷ ps) =
    let rest = remove_prefix k ps in if bytes_eq p.public_key_prefix k then ps else p ∷ rest

-- `popleft` raises an `IndexError` on an empty deque.
unfoldable pub popleft : List AdvertPath → Result (List AdvertPath)
popleft [] = raise index_error
popleft (p ∷ ps) = ok ps

unfoldable pub update : AdvertPath → PathCache → Result PathCache
update p c =
    let kept = remove_prefix p.public_key_prefix c.paths in
    if leb c.max_entries (length kept)
    then (elim (popleft kept) [
      | ok ps ↦ ok (record c { paths = ps ++ p ∷ [] })
      | raise e ↦ raise e
    ])
    else ok (record c { paths = kept ++ p ∷ [] })

unfoldable pub find_prefix : List ℕ → List AdvertPath → Option AdvertPath
find_prefix k [] = none
find_prefix k (p ∷ ps) =
    if bytes_eq (take (length k) p.public_key_prefix) k then some p else find_prefix k ps

unfoldable pub get_by_prefix : List ℕ → PathCache → Option AdvertPath
get_by_prefix k c = find_prefix k c.paths

unfoldable pub get_all : PathCache → List AdvertPath
get_all c = c.paths

unfoldable pub clear : PathCache → PathCache
clear c = record c { paths = [] }
