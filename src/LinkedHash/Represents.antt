-- ===== src/LinkedHash/Represents.antt =====
-- A table that stands for an ordered dict, and what `get` and `put` then do.
use ani_vault.Base.{
  ◌≡◌, refl, sym, ap, ◌∙◌, ◌↔◌, Bool, true, Option, none, some, List, [], ◌∷◌, arith, ℕ, ◌≤◌, ◌<◌,
  length, Option-cases, inl, inr,
}
use ani_vault.LinkedHash.{Node, Table, bucket, find, get}
use ani_vault.LinkedHash.Assoc.{lookup, Distinct}
use ani_vault.LinkedHash.Chains.{Entry, chain_of, lookup-chain_of, length-chain_of}
use ani_vault.LinkedHash.Buckets.{search_absent, search_present, Met, before}
use ani_vault.LinkedHash.Order.{
  entries, strip, pairs, strip-entries, length-entries, length-IsOrder,
}
use ani_vault.LinkedHash.Append.{IsOrdered}
use ani_vault.LinkedHash.Push.{Chained}

-- The value of an entry that is found.
unfoldable pub strip_found {ℓ} : {V : Type ℓ} → Option (ℕ × V) → Option V
strip_found none = none
strip_found (some (p, v)) = some v

module _ {ℓ} {K V : Type ℓ} (same : K → K → Bool) (hash_index : ℕ → K → ℕ) where
  pub lookup-strip :
      (k : K) (es : List (Entry K V)) → lookup same k (strip es) ≡ strip_found (lookup same k es)
  unfolding lookup strip strip_found
  lookup-strip k [] = refl
  lookup-strip k ((j, (p, v)) ∷ es) = ground (arith, lookup-strip k es)

  -- The order, the chains and the counters agree on these nodes, and no key stands twice.
  pub record Represents (t : Table K V) (ns : List (ℕ × Node K V)) : Type ℓ where
    pub ordered : IsOrdered t ns
    pub chains :
        Chained (hash_index t.capacity) t.capacity t.cell t.next_free (entries ns) t.buckets
    pub bucket_count : length t.buckets ≡ t.capacity
    pub counted : t.size ≡ length ns
    pub nonempty : 0 < t.capacity
    pub distinct : Distinct same (entries ns)

  module _ (same_iff : (a b : K) → (same a b ≡ true) ↔ (a ≡ b))
      (index_lt : (capacity : ℕ) (key : K)
        → 0 < capacity
        → hash_index capacity key < capacity) where
    -- A bucket's chain is no longer than the number of the nodes ever made.
    chain_bound :
        (t : Table K V) (ns : List (ℕ × Node K V)) (i : ℕ)
        → Represents t ns
        → length (chain_of (hash_index t.capacity) i (entries ns)) ≤ t.next_free
    unfolding IsOrdered
    chain_bound t ns i r = omega (
      arith,
      length-chain_of (hash_index t.capacity) i (entries ns),
      length-entries ns,
      length-IsOrder t.cell t.next_free 0 ns none t.head t.tail (omega arith) r.ordered,
    )

    pub find_absent :
        (key : K) (t : Table K V) (ns : List (ℕ × Node K V))
        → Represents t ns
        → lookup same key (entries ns) ≡ none
        → find same hash_index key t ≡ some none
    unfolding find
    find_absent key t ns r absent =
        let i = hash_index t.capacity key in
        search_absent same hash_index t.cell key t.next_free t.next_free
          (chain_of (hash_index t.capacity) i (entries ns)) none (bucket t i)
          (r.chains i (index_lt t.capacity key r.nonempty)) (chain_bound t ns i r)
          (lookup-chain_of (hash_index t.capacity) same same_iff key (entries ns) r.distinct
            ∙ absent)

    pub find_present :
        (key : K) (p : ℕ) (v : V) (t : Table K V) (ns : List (ℕ × Node K V))
        → Represents t ns
        → lookup same key (entries ns) ≡ some (p, v)
        → Met same
            (find same hash_index key t)
            t.cell
            key
            (before same key none
              (chain_of (hash_index t.capacity) (hash_index t.capacity key) (entries ns)))
            p
            v
    unfolding find
    find_present key p v t ns r present =
        let i = hash_index t.capacity key in
        search_present same hash_index t.cell key t.next_free t.next_free p v
          (chain_of (hash_index t.capacity) i (entries ns)) none (bucket t i)
          (r.chains i (index_lt t.capacity key r.nonempty)) (chain_bound t ns i r)
          (lookup-chain_of (hash_index t.capacity) same same_iff key (entries ns) r.distinct
            ∙ present)

    -- `get` ends and is the lookup in the dict.
    pub get-lookup :
        (key : K) (t : Table K V) (ns : List (ℕ × Node K V))
        → Represents t ns
        → get same hash_index key t ≡ some (lookup same key (pairs ns))
    unfolding get strip_found
    get-lookup key t ns r =
        let e = ap (lookup same key) (sym (strip-entries ns)) ∙ lookup-strip key (entries ns) in
        elim (Option-cases (lookup same key (entries ns))) [
          | inl none_there ↦ rw (get, find_absent key t ns r none_there) (ground (arith, e))
          | inr ((p, v), there) ↦
              let m = find_present key p v t ns r there in
              let value = m.has_value in rw (get, m.found) (ground (arith, e))
        ]
