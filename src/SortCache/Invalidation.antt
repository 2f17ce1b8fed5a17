-- ===== src/SortCache/Invalidation.antt =====
-- What `invalidate` forgets and what it keeps.
use Prim.Native.String.{String}
use text.Mathlib.Text.{◌==◌ as str_eq}
use text.Mathlib.TextEquality.{eq_iff}
use text.Mathlib.TextPositions.{eq_refl}
use ani_vault.Base.{ℕ, ◌≡◌, refl, Bool, none, some, List, [], ◌∷◌, arith, if◌then◌else◌}
use ani_vault.Dict.{Dict, lookup, remove, contains, add}
use ani_vault.Dict.Laws.{lookup-insert, lookup-remove, contains-add}
use ani_vault.SortCache.{
  Cache, generate_cache_key, find_key, other_keys, drop_lists, or_empty, invalidate, compute_sorted,
}

find_key-other_keys :
    {Key : Type 0} (i : ℕ) (criteria c : String) (keys : List (ℕ × String × Key))
    → find_key i c (other_keys criteria keys)
      ≡ (if str_eq criteria c then none else find_key i c keys)
unfolding find_key other_keys
find_key-other_keys i criteria c [] = ground arith
find_key-other_keys i criteria c ((j, c', k) ∷ keys) = ground (
  arith,
  find_key-other_keys i criteria c keys,
  eq_iff c' criteria,
  eq_iff c' c,
  eq_iff criteria c,
)

lookup-drop_lists :
    (k : String) (ks : List String) (lists : Dict (List ℕ))
    → lookup k (drop_lists ks lists) ≡ (if contains k ks then none else lookup k lists)
unfolding drop_lists contains
lookup-drop_lists k [] lists = refl
lookup-drop_lists k (j ∷ ks) lists =
    ground (arith, lookup-drop_lists k ks (remove j lists), lookup-remove j k lists)

module _ {Key : Type 0} (cache : Cache Key) (criteria : String) where
  -- `invalidate` of a criteria forgets every sort key of that criteria and every list whose cache
  -- key is registered for it, and keeps all the other sort keys and lists.
  pub invalidate_criteria :
      (i : ℕ) (c k : String)
      → (find_key i c (invalidate (some criteria) cache).sort_keys
          ≡ (if str_eq criteria c then none else find_key i c cache.sort_keys))
        × (lookup k (invalidate (some criteria) cache).sorted_lists ≡ (
            if contains k (or_empty (lookup criteria cache.criteria_keys))
            then none
            else lookup k cache.sorted_lists))
  unfolding invalidate
  invalidate_criteria i c k = (
    find_key-other_keys i criteria c cache.sort_keys,
    lookup-drop_lists k (or_empty (lookup criteria cache.criteria_keys)) cache.sorted_lists,
  )

module _ {C Key : Type 0} (id : C → ℕ) (le : Key → Key → Bool)
    (digest : List ℕ → String → String) where
  -- The list that a call computed is gone after its criteria is invalidated, and so is every sort
  -- key of the criteria: the next call with the same candidates computes the order anew.
  pub invalidate-compute_sorted :
      (cache : Cache Key) (cs : List C) (criteria : String) (f : C → Key) (i : ℕ)
      → let after =
          invalidate (some criteria) (compute_sorted id le digest cache cs criteria f).1 in
        (lookup (generate_cache_key id digest cs criteria) after.sorted_lists ≡ none)
        × (find_key i criteria after.sort_keys ≡ none)
  unfolding compute_sorted
  invalidate-compute_sorted cache cs criteria f i =
      let after = (compute_sorted id le digest cache cs criteria f).1 in
      let cache_key = generate_cache_key id digest cs criteria in
      let both = invalidate_criteria after criteria i criteria cache_key in
      let registered = or_empty (lookup criteria cache.criteria_keys) in
      (
        ground (
          arith,
          both.1,
          lookup-insert criteria criteria (add cache_key registered) cache.criteria_keys,
          contains-add cache_key cache_key registered,
          eq_refl criteria,
          eq_refl cache_key,
        ),
        ground (arith, both.0, eq_refl criteria),
      )
