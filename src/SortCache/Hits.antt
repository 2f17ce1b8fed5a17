-- ===== src/SortCache/Hits.antt =====
-- The second call with the same candidates.
use Prim.Native.String.{String}
use text.Mathlib.TextPositions.{eq_refl}
use ani_vault.Base.{◌∙◌, ℕ, ◌≡◌, ◌≢◌, refl, ap, Bool, none, some, List, [], ◌∷◌, map, All, arith}
use ani_vault.Dict.{lookup}
use ani_vault.Dict.Laws.{lookup-insert}
use ani_vault.Sorting.{sort, All-sort}
use ani_vault.SortCache.{
  Cache, generate_cache_key, candidate_with, reconstruct, pair_keys, by_key, compute_sorted,
  get_or_compute_sorted,
}

module _ {C : Type 0} (id : C → ℕ) where
  -- No two candidates have one id.
  abbrev pub HasDistinctIds : List C → Type 0
  HasDistinctIds [] = Unit
  HasDistinctIds (c ∷ cs) = All (λ d. id d ≢ id c) cs × HasDistinctIds cs

  candidate_with-absent :
      (i : ℕ) (cs : List C) → All (λ d. id d ≢ i) cs → candidate_with id i cs ≡ none
  unfolding candidate_with
  candidate_with-absent i [] h = refl
  candidate_with-absent i (c ∷ cs) h = ground (arith, candidate_with-absent i cs h.1)

  -- Every candidate of the list is the one found under its id.
  IsFound : List C → C → Type 0
  IsFound cs c = candidate_with id (id c) cs ≡ some c

  All-IsFound-cons : (c : C) (cs xs : List C) → All (IsFound cs) xs → All (IsFound (c ∷ cs)) xs
  unfolding IsFound candidate_with
  All-IsFound-cons c cs [] h = tt
  All-IsFound-cons c cs (x ∷ xs) h = (rw h.0 refl, All-IsFound-cons c cs xs h.1)

  All-IsFound : (cs : List C) → HasDistinctIds cs → All (IsFound cs) cs
  unfolding IsFound candidate_with
  All-IsFound [] h = tt
  All-IsFound (c ∷ cs) h = (
    ground (arith, candidate_with-absent (id c) cs h.0),
    All-IsFound-cons c cs cs (All-IsFound cs h.1),
  )

  reconstruct-map : (cs xs : List C) → All (IsFound cs) xs → reconstruct id cs (map id xs) ≡ xs
  unfolding reconstruct IsFound
  reconstruct-map cs [] h = refl
  reconstruct-map cs (x ∷ xs) h = rw (h.0, reconstruct) (ap (◌∷◌ x) (reconstruct-map cs xs h.1))

module _ {C Key : Type 0} (id : C → ℕ) (P : C → Type 0) where
  All-pair_keys :
      (criteria : String) (f : C → Key) (cs : List C) (keys : List (ℕ × String × Key))
      → All P cs
      → All (λ p. P p.0) (pair_keys id criteria f cs keys).0
  unfolding pair_keys
  All-pair_keys criteria f [] keys h = tt
  All-pair_keys criteria f (c ∷ cs) keys h = (h.0, All-pair_keys criteria f cs _ h.1)

  All-firsts : (ps : List (C × Key)) → All (λ p. P p.0) ps → All P (map (λ p. p.0) ps)
  All-firsts [] h = tt
  All-firsts (p ∷ ps) h = (h.0, All-firsts ps h.1)

module _ {C Key : Type 0} (id : C → ℕ) (le : Key → Key → Bool)
    (digest : List ℕ → String → String) where
  pub get-hit :
      (cache : Cache Key) (c : C) (cs : List C) (criteria : String) (f : C → Key) (ids : List ℕ)
      → lookup (generate_cache_key id digest (c ∷ cs) criteria) cache.sorted_lists ≡ some ids
      → get_or_compute_sorted id le digest cache (c ∷ cs) criteria f
        ≡ (reconstruct id (c ∷ cs) ids, cache)
  unfolding get_or_compute_sorted
  get-hit cache c cs criteria f ids m = rw (m, get_or_compute_sorted) refl

  pub get-miss :
      (cache : Cache Key) (c : C) (cs : List C) (criteria : String) (f : C → Key)
      → lookup (generate_cache_key id digest (c ∷ cs) criteria) cache.sorted_lists ≡ none
      → get_or_compute_sorted id le digest cache (c ∷ cs) criteria f
        ≡ compute_sorted id le digest cache (c ∷ cs) criteria f
  unfolding get_or_compute_sorted
  get-miss cache c cs criteria f m = rw (m, get_or_compute_sorted) refl

  compute_sorted-found :
      (cache : Cache Key) (cs : List C) (criteria : String) (f : C → Key)
      → HasDistinctIds id cs
      → reconstruct id cs (map id (compute_sorted id le digest cache cs criteria f).0)
        ≡ (compute_sorted id le digest cache cs criteria f).0
  unfolding compute_sorted
  compute_sorted-found cache cs criteria f h =
      let pairs = (pair_keys id criteria f cs cache.sort_keys).0 in
      reconstruct-map id cs _ (
        All-firsts {Key = Key} id (IsFound id cs) (sort (by_key le) pairs) (
          All-sort (by_key le) (λ p. IsFound id cs p.0) pairs
            (All-pair_keys id (IsFound id cs) criteria f cs cache.sort_keys (All-IsFound id cs h))))

  compute_sorted-stored :
      (cache : Cache Key) (cs : List C) (criteria : String) (f : C → Key)
      → lookup
          (generate_cache_key id digest cs criteria)
          (compute_sorted id le digest cache cs criteria f).1.sorted_lists
        ≡ some (map id (compute_sorted id le digest cache cs criteria f).0)
  unfolding compute_sorted
  compute_sorted-stored cache cs criteria f = simp (lookup-insert, eq_refl)

  -- If no two candidates have one id, a call that computes the order and a second call with the
  -- same candidates and criteria, whatever its key function, return the same list, and the second
  -- call changes nothing.
  pub get_or_compute_sorted_twice :
      (cache : Cache Key) (cs : List C) (criteria : String) (f g : C → Key)
      → HasDistinctIds id cs
      → lookup (generate_cache_key id digest cs criteria) cache.sorted_lists ≡ none
      → get_or_compute_sorted id le digest
          (get_or_compute_sorted id le digest cache cs criteria f).1
          cs
          criteria
          g
        ≡ get_or_compute_sorted id le digest cache cs criteria f
  unfolding get_or_compute_sorted
  get_or_compute_sorted_twice cache [] criteria f g h m = refl
  get_or_compute_sorted_twice cache (c ∷ cs) criteria f g h m =
      let (out, after) = compute_sorted id le digest cache (c ∷ cs) criteria f in
      rw (get-miss cache c cs criteria f m) (
        get-hit after c cs criteria g (map id out) (compute_sorted-stored cache (c ∷ cs) criteria f)
        ∙ ap (λ (l : List C). (l, after)) (compute_sorted-found cache (c ∷ cs) criteria f h))
