-- ===== src/SortCache/Keys.antt =====
-- The order that a call computes, by the cached keys and the key function.
use Prim.Native.String.{String}
use mathlib.Core.List.{Perm}
use mathlib.Core.List.Perm
use ani_vault.Base.{
  ◌∙◌, ℕ, ◌≡◌, ◌≢◌, refl, ap, sym, Bool, true, false, none, some, List, [], ◌∷◌, ◌++◌, All, arith,
  ◌⊎◌, inl, inr, Option-cases,
}
use ani_vault.Dict.{lookup}
use ani_vault.Sorting.{sort, by, paired, firsts-sort-paired, sort-perm, sort-IsSorted, IsSorted}
use ani_vault.SortCache.{
  Cache, generate_cache_key, find_key, key_of, cache_key_of, pair_keys, compute_sorted,
  get_or_compute_sorted,
}
use ani_vault.SortCache.Hits.{HasDistinctIds, get-hit, get-miss}

find_key-snoc :
    {Key : Type 0} (i j : ℕ) (criteria c : String) (k : Key) (keys : List (ℕ × String × Key))
    → j ≢ i
    → find_key i criteria (keys ++ (j, c, k) ∷ []) ≡ find_key i criteria keys
unfolding find_key
find_key-snoc i j criteria c k [] h = ground arith
find_key-snoc i j criteria c k ((j', c', k') ∷ keys) h =
    ground (arith, find_key-snoc i j criteria c k keys h)

module _ {C Key : Type 0} (id : C → ℕ) (criteria : String) where
  -- A key that is cached for the candidate is the one that the key function computes now.
  abbrev pub Agrees : (C → Key) → List (ℕ × String × Key) → C → Type 0
  Agrees f keys c =
      (find_key (id c) criteria keys ≡ none) ⊎ (find_key (id c) criteria keys ≡ some (f c))

  -- A key is cached for the candidate.
  abbrev pub IsCached : List (ℕ × String × Key) → C → Type 0
  IsCached keys c = (k : Key) × (find_key (id c) criteria keys ≡ some k)

  find_key-cache_key_of :
      (f : C → Key) (c d : C) (keys : List (ℕ × String × Key))
      → id d ≢ id c
      → find_key (id d) criteria (cache_key_of id criteria f c keys) ≡ find_key (id d) criteria keys
  unfolding cache_key_of
  find_key-cache_key_of f c d keys h = elim (Option-cases (find_key (id c) criteria keys)) [
    | inl e ↦
        rw (e, cache_key_of)
          (find_key-snoc (id d) (id c) criteria criteria (f c) keys (λ p. h (sym p)))
    | inr (k, e) ↦ rw (e, cache_key_of) refl
  ]

  All-Agrees :
      (f : C → Key) (c : C) (cs : List C) (keys : List (ℕ × String × Key))
      → All (λ d. id d ≢ id c) cs
      → All (Agrees f keys) cs
      → All (Agrees f (cache_key_of id criteria f c keys)) cs
  All-Agrees f c [] keys h a = tt
  All-Agrees f c (d ∷ cs) keys h a =
      (rw (find_key-cache_key_of f c d keys h.0) a.0, All-Agrees f c cs keys h.1 a.1)

  key_of-Agrees :
      (f : C → Key) (c : C) (keys : List (ℕ × String × Key))
      → Agrees f keys c
      → key_of id criteria f c keys ≡ f c
  unfolding key_of
  key_of-Agrees f c keys (inl e) = rw (e, key_of) refl
  key_of-Agrees f c keys (inr e) = rw (e, key_of) refl

  pair_keys-paired :
      (f : C → Key) (cs : List C) (keys : List (ℕ × String × Key))
      → HasDistinctIds id cs
      → All (Agrees f keys) cs
      → (pair_keys id criteria f cs keys).0 ≡ paired (λ (a b : Key). true) f cs
  unfolding pair_keys
  pair_keys-paired f [] keys h a = refl
  pair_keys-paired f (c ∷ cs) keys h a = rw (key_of-Agrees f c keys a.0) (
      ap (◌∷◌ (c, f c)) (
        pair_keys-paired f cs (cache_key_of id criteria f c keys) h.1
          (All-Agrees f c cs keys h.0 a.1)))

  pair_keys-cached :
      (f g : C → Key) (cs : List C) (keys : List (ℕ × String × Key))
      → All (IsCached keys) cs
      → pair_keys id criteria f cs keys ≡ pair_keys id criteria g cs keys
  unfolding pair_keys key_of cache_key_of
  pair_keys-cached f g [] keys h = refl
  pair_keys-cached f g (c ∷ cs) keys h =
      rw (h.0.1, cache_key_of, key_of) (ground (arith, pair_keys-cached f g cs keys h.1))

module _ {C Key : Type 0} (id : C → ℕ) (le : Key → Key → Bool)
    (digest : List ℕ → String → String) where
  compute_sorted-sort :
      (cache : Cache Key) (cs : List C) (criteria : String) (f : C → Key)
      → HasDistinctIds id cs
      → All (Agrees id criteria f cache.sort_keys) cs
      → (compute_sorted id le digest cache cs criteria f).0 ≡ sort (by le f) cs
  unfolding compute_sorted
  compute_sorted-sort cache cs criteria f h a =
      rw (pair_keys-paired id criteria f cs cache.sort_keys h a) (firsts-sort-paired le f cs)

  compute_sorted-cached :
      (cache : Cache Key) (cs : List C) (criteria : String) (f g : C → Key)
      → All (IsCached id criteria cache.sort_keys) cs
      → compute_sorted id le digest cache cs criteria f
        ≡ compute_sorted id le digest cache cs criteria g
  unfolding compute_sorted
  compute_sorted-cached cache cs criteria f g h =
      rw (pair_keys-cached id criteria f g cs cache.sort_keys h) refl

  -- On a cache miss, if no two candidates have one id and each cached key is the one that the key
  -- function computes now, the result is the candidates, each as often, sorted by the key
  -- function, if the order of the keys is a total preorder.
  pub get_or_compute_sorted-IsSorted :
      (total : (a b : Key) → le a b ≡ false → le b a ≡ true)
      (trans : (a b c : Key) → le a b ≡ true → le b c ≡ true → le a c ≡ true) (cache : Cache Key)
      (cs : List C) (criteria : String) (f : C → Key)
      → HasDistinctIds id cs
      → lookup (generate_cache_key id digest cs criteria) cache.sorted_lists ≡ none
      → All (Agrees id criteria f cache.sort_keys) cs
      → Perm (get_or_compute_sorted id le digest cache cs criteria f).0 cs
        × IsSorted (by le f) (get_or_compute_sorted id le digest cache cs criteria f).0
  unfolding get_or_compute_sorted
  get_or_compute_sorted-IsSorted total trans cache [] criteria f h m a = (Perm.refl [], tt)
  get_or_compute_sorted-IsSorted total trans cache (c ∷ cs) criteria f h m a =
      rw
        (
          get-miss id le digest cache c cs criteria f m,
          compute_sorted-sort cache (c ∷ cs) criteria f h a,
        )
        (
          sort-perm (by le f) (c ∷ cs),
          sort-IsSorted (by le f) (λ x y. total (f x) (f y)) (λ x y z. trans (f x) (f y) (f z))
              (c ∷ cs),
        )

  -- A cached key is never computed again: when every candidate has a key cached under the
  -- criteria, the key function has no effect on the result or on the cache.
  pub get_or_compute_sorted-cached :
      (cache : Cache Key) (cs : List C) (criteria : String) (f g : C → Key)
      → All (IsCached id criteria cache.sort_keys) cs
      → get_or_compute_sorted id le digest cache cs criteria f
        ≡ get_or_compute_sorted id le digest cache cs criteria g
  unfolding get_or_compute_sorted
  get_or_compute_sorted-cached cache [] criteria f g h = refl
  get_or_compute_sorted-cached cache (c ∷ cs) criteria f g h =
      elim (Option-cases
        (lookup (generate_cache_key id digest (c ∷ cs) criteria) cache.sorted_lists)) [
          | inl m ↦
              get-miss id le digest cache c cs criteria f m
              ∙ compute_sorted-cached cache (c ∷ cs) criteria f g h
              ∙ sym (get-miss id le digest cache c cs criteria g m)
          | inr (ids, m) ↦
              get-hit id le digest cache c cs criteria f ids m
              ∙ sym (get-hit id le digest cache c cs criteria g ids m)
        ]
