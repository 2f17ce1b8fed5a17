-- ===== src/LinkedHash/Search.antt =====
-- The search of a bucket's chain, and what it finds.
use ani_vault.Base.{
  ℕ, zero, suc, ◌≤◌, ◌≡◌, refl, Bool, Option, none, some, List, [], ◌∷◌, arith, if◌then◌else◌,
  length,
}
use ani_vault.LinkedHash.{Node, Table, bucket, search, find, get}

-- From the second index on, the pointers to the next node in a bucket run through these nodes and
-- end.
pub data IsChain {ℓ} {K V : Type ℓ} (cell : ℕ → Option (Node K V))
    : List (ℕ × Node K V) → Option ℕ → Type ℓ where
  ended : IsChain cell [] none
  linked :
      {p : ℕ} {n : Node K V} {ns : List (ℕ × Node K V)}
      → cell p ≡ some n
      → IsChain cell ns n.next_in_bucket
      → IsChain cell ((p, n) ∷ ns) (some p)

module _ {ℓ} {K V : Type ℓ} (same : K → K → Bool) where
  -- The value of the first node with the key.
  unfoldable pub value_in : K → List (ℕ × Node K V) → Option V
  value_in key [] = none
  value_in key ((p, n) ∷ ns) = if same n.key key then some n.value else value_in key ns

  -- What a loop over the chain ends with.
  pub found_in : K → Option ℕ → List (ℕ × Node K V) → Option (Option ℕ × (ℕ × Node K V))
  found_in key prev [] = none
  found_in key prev ((p, n) ∷ ns) =
      if same n.key key then some (prev, (p, n)) else found_in key (some p) ns

  value_of-found_in :
      (key : K) (prev : Option ℕ) (ns : List (ℕ × Node K V))
      → elim (found_in key prev ns) as (λ _. Option V) [
        | none ↦ none
        | some (before, (p, n)) ↦ some n.value
      ]
        ≡ value_in key ns
  unfolding found_in value_in
  value_of-found_in key prev [] = refl
  value_of-found_in key prev ((p, n) ∷ ns) = ground (arith, value_of-found_in key (some p) ns)

  module _ (hash_index : ℕ → K → ℕ) where
    pub search-found_in :
        (cell : ℕ → Option (Node K V)) (key : K) (fuel : ℕ) (prev : Option ℕ)
        (ns : List (ℕ × Node K V)) (start : Option ℕ)
        → IsChain cell ns start
        → length ns ≤ fuel
        → search same hash_index cell key fuel prev start ≡ some (found_in key prev ns)
    unfolding search found_in
    search-found_in cell key zero prev [] none ended bound = refl
    search-found_in cell key (suc fuel) prev [] none ended bound = refl
    search-found_in cell key zero prev [] (some q) h bound = elim h [ ]
    search-found_in cell key (suc fuel) prev [] (some q) h bound = elim h [ ]
    search-found_in cell key zero prev ((p, n) ∷ ns) start h bound = ground arith
    search-found_in cell key (suc fuel) prev ((p, n) ∷ ns) none h bound = elim h [ ]
    search-found_in cell key (suc fuel) prev ((p, n) ∷ ns) (some q) (linked e rest) bound =
        rw
          (search, e, search-found_in cell key fuel (some p) ns n.next_in_bucket rest (omega arith))
          (ground arith)

    -- In a table where the bucket of a key is a chain of no more nodes than were ever made, a lookup
    -- ends and returns the value of the chain's first node with the key, or `None` if no node of it
    -- has the key.
    pub get-value_in :
        (key : K) (t : Table K V) (ns : List (ℕ × Node K V))
        → IsChain t.cell ns (bucket t (hash_index t.capacity key))
        → length ns ≤ t.next_free
        → get same hash_index key t ≡ some (value_in key ns)
    unfolding get find
    get-value_in key t ns h bound =
        rw (get, search-found_in t.cell key t.next_free none ns _ h bound)
          (ground (arith, value_of-found_in key none ns))
