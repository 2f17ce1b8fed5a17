-- ===== src/LinkedHash/Chains.antt =====
-- The entries of a bucket, as a function of all entries in the order of insertion: those whose key
-- has the bucket's index, the newest first.
use ani_vault.Base.{
  ◌≡◌, ◌≢◌, refl, ◌↔◌, Bool, true, none, List, [], ◌∷◌, ◌++◌, arith, if◌then◌else◌, ℕ, ◌≤◌, ◌==◌,
  ==_iff, length, length-append, Bool-cases, inl, inr,
}
use mathlib.Core.List.{append_assoc, append-nil}
use ani_vault.LinkedHash.Assoc.{
  lookup, remove, Distinct, lookup-append, remove-append, remove_absent,
}

-- The key, the address of its node, and the value.
abbrev pub Entry {ℓ} : Type ℓ → Type ℓ → Type ℓ
Entry K V = K × (ℕ × V)

module _ {ℓ} {K V : Type ℓ} (index : K → ℕ) where
  unfoldable pub single : ℕ → Entry K V → List (Entry K V)
  single i e = if index e.0 == i then e ∷ [] else []

  unfoldable pub chain_of : ℕ → List (Entry K V) → List (Entry K V)
  unfolding single
  chain_of i [] = []
  chain_of i (e ∷ es) = chain_of i es ++ single i e

  pub chain_of-append_one :
      (i : ℕ) (es : List (Entry K V)) (e : Entry K V)
      → chain_of i (es ++ e ∷ []) ≡ single i e ++ chain_of i es
  unfolding chain_of single
  chain_of-append_one i [] e = ground arith
  chain_of-append_one i (d ∷ es) e = rw (chain_of-append_one i es e, append_assoc) refl

  pub length-chain_of : (i : ℕ) (es : List (Entry K V)) → length (chain_of i es) ≤ length es
  unfolding chain_of single
  length-chain_of i [] = omega arith
  length-chain_of i (e ∷ es) =
      ground (arith, length-append (chain_of i es) (single i e), length-chain_of i es)

  module _ (same : K → K → Bool) (same_iff : (a b : K) → (same a b ≡ true) ↔ (a ≡ b)) where
    -- A key's bucket has what all entries have of it.
    pub lookup-chain_of :
        (k : K) (es : List (Entry K V))
        → Distinct same es
        → lookup same k (chain_of (index k) es) ≡ lookup same k es
    unfolding chain_of single lookup Distinct
    lookup-chain_of k [] h = refl
    lookup-chain_of k ((j, e) ∷ es) h = ground (
      arith,
      lookup-append same k (chain_of (index k) es) (single (index k) (j, e)),
      lookup-chain_of k es h.1,
      same_iff j k,
      ==_iff (index j) (index k),
      h.0,
    )

    pub lookup-chain_of_absent :
        (i : ℕ) (k : K) (es : List (Entry K V))
        → lookup same k es ≡ none
        → lookup same k (chain_of i es) ≡ none
    unfolding chain_of single lookup
    lookup-chain_of_absent i k [] h = refl
    lookup-chain_of_absent i k ((j, e) ∷ es) h = ground (
      arith,
      lookup-append same k (chain_of i es) (single i (j, e)),
      lookup-chain_of_absent i k es,
    )

    pub chain_of-remove :
        (i : ℕ) (k : K) (es : List (Entry K V))
        → Distinct same es
        → chain_of i (remove same k es) ≡ remove same k (chain_of i es)
    unfolding chain_of single remove Distinct
    chain_of-remove i k [] h = refl
    chain_of-remove i k ((j, e) ∷ es) h = elim (Bool-cases (same j k)) [
      | inl e' ↦
          let none_left = lookup-chain_of_absent i k es (ground (arith, same_iff j k, h.0)) in
          rw (e', remove-append same k (chain_of i es) (single i (j, e)), none_left)
            (ground (arith, append-nil (chain_of i es)))
      | inr e' ↦
          rw
            (e', remove-append same k (chain_of i es) (single i (j, e)), chain_of-remove i k es h.1)
            (ground (arith, remove_absent same k (chain_of i es)))
    ]

    -- A bucket has nothing of a key with another index.
    pub lookup-chain_of_other :
        (j : ℕ) (k : K) (es : List (Entry K V)) → index k ≢ j → lookup same k (chain_of j es) ≡ none
    unfolding chain_of single lookup
    lookup-chain_of_other j k [] h = refl
    lookup-chain_of_other j k ((i, e) ∷ es) h = ground (
      arith,
      lookup-append same k (chain_of j es) (single j (i, e)),
      lookup-chain_of_other j k es h,
      same_iff i k,
      ==_iff (index i) j,
    )
