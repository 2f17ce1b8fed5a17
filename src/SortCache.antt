-- ===== src/SortCache.antt =====
-- `SortCache` of src/anivault/core/matching/services/sort_cache.py.
--
-- Parameters: the candidate type with its `id`, the type of sort keys with the order in which
-- Python compares them, and `digest`, the first 16 digits of the SHA-256 of the sorted ids and
-- the criteria.
pub mod Hits
pub mod Keys
pub mod Invalidation
mod Tests
use Prim.Native.String.{String}
use text.Mathlib.Text.{◌==◌ as str_eq}
use ani_vault.Base.{
  ℕ, Bool, true, false, ◌&&◌, Option, none, some, List, [], ◌∷◌, ◌++◌, map, leb, ◌==◌,
  if◌then◌else◌,
}
use ani_vault.Dict.{Dict, lookup, insert, remove, add}
use ani_vault.Sorting.{sort}

pub record Cache (Key : Type 0) : Type 0 where
  pub sort_keys : List (ℕ × String × Key)
  pub sorted_lists : Dict (List ℕ)
  pub criteria_keys : Dict (List String)

-- __init__, and clear
abbrev pub empty : {Key : Type 0} → Cache Key
empty = record { sort_keys = []; sorted_lists = []; criteria_keys = [] }

-- for cache_key in keys_to_remove: self.sorted_lists.pop(cache_key, None)
unfoldable pub drop_lists : List String → Dict (List ℕ) → Dict (List ℕ)
drop_lists [] lists = lists
drop_lists (k ∷ ks) lists = drop_lists ks (remove k lists)

abbrev pub or_empty : Option (List String) → List String
or_empty none = []
or_empty (some s) = s

module _ {Key : Type 0} where
  -- self.sort_keys.get((id, criteria))
  unfoldable pub find_key : ℕ → String → List (ℕ × String × Key) → Option Key
  find_key i criteria [] = none
  find_key i criteria ((j, c, k) ∷ keys) =
      if (j == i) && str_eq c criteria then some k else find_key i criteria keys

  -- The keys of other criteria, which `invalidate` leaves.
  unfoldable pub other_keys : String → List (ℕ × String × Key) → List (ℕ × String × Key)
  other_keys criteria [] = []
  other_keys criteria ((j, c, k) ∷ keys) =
      let rest = other_keys criteria keys in if str_eq c criteria then rest else (j, c, k) ∷ rest

  -- invalidate
  unfoldable pub invalidate : Option String → Cache Key → Cache Key
  unfolding other_keys drop_lists
  invalidate none c = empty
  invalidate (some criteria) c = record {
    sort_keys = other_keys criteria c.sort_keys;
    sorted_lists = drop_lists (or_empty (lookup criteria c.criteria_keys)) c.sorted_lists;
    criteria_keys = remove criteria c.criteria_keys;
  }

module _ {C : Type 0} (id : C → ℕ) where
  -- {c.id: c for c in candidates}.get(i): the last candidate with the id
  unfoldable pub candidate_with : ℕ → List C → Option C
  candidate_with i [] = none
  candidate_with i (c ∷ cs) = elim (candidate_with i cs) [
    | some d ↦ some d
    | none ↦ if id c == i then some c else none
  ]

  -- [candidate_map[cid] for cid in sorted_ids if cid in candidate_map]
  unfoldable pub reconstruct : List C → List ℕ → List C
  unfolding candidate_with
  reconstruct candidates [] = []
  reconstruct candidates (i ∷ ids) =
      let rest = reconstruct candidates ids in
      elim (candidate_with i candidates) [ none ↦ rest | some c ↦ c ∷ rest ]

  -- _generate_cache_key
  unfoldable pub generate_cache_key : (List ℕ → String → String) → List C → String → String
  generate_cache_key digest candidates criteria = digest (sort leb (map id candidates)) criteria

module _ {C Key : Type 0} (id : C → ℕ) where
  -- The body of the loop over the candidates: the key that is cached, or the computed one, which
  -- is then cached.
  unfoldable pub key_of : String → (C → Key) → C → List (ℕ × String × Key) → Key
  unfolding find_key
  key_of criteria f c keys = elim (find_key (id c) criteria keys) [ some k ↦ k | none ↦ f c ]

  unfoldable pub cache_key_of :
      String → (C → Key) → C → List (ℕ × String × Key) → List (ℕ × String × Key)
  unfolding find_key
  cache_key_of criteria f c keys = elim (find_key (id c) criteria keys) [
    | some k ↦ keys
    | none ↦ keys ++ (id c, criteria, f c) ∷ []
  ]

  -- The loop over the candidates: the pairs, and the cached keys after it.
  unfoldable pub pair_keys :
      String
      → (C → Key)
      → List C
      → List (ℕ × String × Key)
      → List (C × Key) × List (ℕ × String × Key)
  unfolding key_of cache_key_of
  pair_keys criteria f [] keys = ([], keys)
  pair_keys criteria f (c ∷ cs) keys =
      let (pairs, after) = pair_keys criteria f cs (cache_key_of criteria f c keys) in
      ((c, key_of criteria f c keys) ∷ pairs, after)

module _ {C Key : Type 0} (le : Key → Key → Bool) where
  abbrev pub by_key : C × Key → C × Key → Bool
  by_key p q = le p.1 q.1

module _ {C Key : Type 0} (id : C → ℕ) (le : Key → Key → Bool)
    (digest : List ℕ → String → String) where
  -- The pairs of a cache miss, sorted by their keys.
  unfoldable pub sorted_pairs : Cache Key → List C → String → (C → Key) → List (C × Key)
  unfolding pair_keys
  sorted_pairs cache candidates criteria f =
      sort (by_key le) (pair_keys id criteria f candidates cache.sort_keys).0

  -- The candidates in order, and the cache, after a miss.
  unfoldable pub compute_sorted : Cache Key → List C → String → (C → Key) → List C × Cache Key
  unfolding sorted_pairs generate_cache_key
  compute_sorted cache candidates criteria f =
      let sorted_candidates = map (λ p. p.0) (sorted_pairs cache candidates criteria f) in
      let cache_key = generate_cache_key id digest candidates criteria in
      let registered = or_empty (lookup criteria cache.criteria_keys) in
      (
        sorted_candidates,
        record {
          sort_keys = (pair_keys id criteria f candidates cache.sort_keys).1;
          sorted_lists = insert cache_key (map id sorted_candidates) cache.sorted_lists;
          criteria_keys = insert criteria (add cache_key registered) cache.criteria_keys;
        },
      )

  unfoldable pub get_or_compute_sorted :
      Cache Key → List C → String → (C → Key) → List C × Cache Key
  unfolding compute_sorted reconstruct generate_cache_key
  get_or_compute_sorted cache [] criteria f = ([], cache)
  get_or_compute_sorted cache (c ∷ cs) criteria f =
      elim (lookup (generate_cache_key id digest (c ∷ cs) criteria) cache.sorted_lists) [
        | some sorted_ids ↦ (reconstruct id (c ∷ cs) sorted_ids, cache)
        | none ↦ compute_sorted cache (c ∷ cs) criteria f
      ]
