-- ===== src/SortCache/Tests.antt =====
-- Runs of the sort cache, and its theorems at concrete inputs.
use Prim.Native.String.{String}
use mathlib.Core.List.{Perm}
use text.Mathlib.Text.{◌==◌ as str_eq}
use ani_vault.Base.{ℕ, ◌≡◌, refl, inl, none, some, List, [], ◌∷◌, arith, leb, if◌then◌else◌}
use ani_vault.Dict.{lookup, insert, contains, add}
use ani_vault.Sorting.{sort, by, IsSorted}
use ani_vault.SortCache.{
  Cache, empty, generate_cache_key, get_or_compute_sorted, compute_sorted, invalidate, find_key,
  or_empty,
}
use ani_vault.SortCache.Keys.{get_or_compute_sorted-IsSorted, get_or_compute_sorted-cached}
use ani_vault.SortCache.Hits.{get_or_compute_sorted_twice}
use ani_vault.SortCache.Invalidation.{invalidate_criteria, invalidate-compute_sorted}

-- Candidates are their ids, and a key is a number.
abbrev same : ℕ → ℕ
same c = c

abbrev distance : ℕ → ℕ
distance c = if leb c 5 then 5 else c

abbrev reversed : ℕ → ℕ
reversed c = if leb c 5 then 9 else 1

abbrev digest : List ℕ → String → String
digest ids criteria = criteria

abbrev start : Cache ℕ
start = empty

get : Cache ℕ → List ℕ → (ℕ → ℕ) → List ℕ × Cache ℕ
get cache cs f = get_or_compute_sorted same leb digest cache cs "confidence_desc_2013" f

abbrev warm : Cache ℕ
warm = record start {
  sort_keys = (7, "confidence_desc_2013", 7) ∷ (3, "confidence_desc_2013", 3) ∷ [];
}

-- With the keys of an earlier query cached, a later query with other keys gets the old order.
stale_order : (get warm (7 ∷ 3 ∷ []) reversed).0 ≡ 3 ∷ 7 ∷ []
unfolding get get_or_compute_sorted lookup insert add sort
stale_order = refl

get_or_compute_sorted-IsSorted_example :
    Perm (get_or_compute_sorted same leb digest start (7 ∷ 3 ∷ []) "year" distance).0 (7 ∷ 3 ∷ [])
    × IsSorted
        (by leb distance)
        (get_or_compute_sorted same leb digest start (7 ∷ 3 ∷ []) "year" distance).0
unfolding lookup find_key
get_or_compute_sorted-IsSorted_example =
    get_or_compute_sorted-IsSorted same leb digest (λ a b h. ground arith)
      (λ a b c h k. ground arith) start (7 ∷ 3 ∷ []) "year" distance (omega arith) refl
      (inl refl, (inl refl, tt))

get_or_compute_sorted-cached_example :
    get_or_compute_sorted same leb digest warm (7 ∷ 3 ∷ []) "confidence_desc_2013" same
    ≡ get_or_compute_sorted same leb digest warm (7 ∷ 3 ∷ []) "confidence_desc_2013" reversed
unfolding find_key
get_or_compute_sorted-cached_example =
    get_or_compute_sorted-cached same leb digest warm (7 ∷ 3 ∷ []) "confidence_desc_2013" same
      reversed ((7, refl), ((3, refl), tt))

get_or_compute_sorted_twice_example :
    get_or_compute_sorted same leb digest
      (get_or_compute_sorted same leb digest start (7 ∷ 3 ∷ []) "year" distance).1
      (7 ∷ 3 ∷ [])
      "year"
      reversed
    ≡ get_or_compute_sorted same leb digest start (7 ∷ 3 ∷ []) "year" distance
unfolding lookup
get_or_compute_sorted_twice_example =
    get_or_compute_sorted_twice same leb digest start (7 ∷ 3 ∷ []) "year" distance reversed
      (omega arith) refl

forgets_criteria :
    (find_key 7 "year" (invalidate (some "year") warm).sort_keys
      ≡ (if str_eq "year" "year" then none else find_key 7 "year" warm.sort_keys))
    × (lookup "k" (invalidate (some "year") warm).sorted_lists ≡ (
        if contains "k" (or_empty (lookup "year" warm.criteria_keys))
        then none
        else lookup "k" warm.sorted_lists))
forgets_criteria = invalidate_criteria warm "year" 7 "year" "k"

invalidated_list_gone :
    (lookup
        (generate_cache_key same digest (7 ∷ 3 ∷ []) "year")
        (invalidate
          (some "year")
          (compute_sorted same leb digest start (7 ∷ 3 ∷ []) "year" distance).1).sorted_lists
      ≡ none)
    × (find_key 7 "year"
          (invalidate
            (some "year")
            (compute_sorted same leb digest start (7 ∷ 3 ∷ []) "year" distance).1).sort_keys
        ≡ none)
invalidated_list_gone =
    invalidate-compute_sorted same leb digest start (7 ∷ 3 ∷ []) "year" distance 7
