-- ===== src/LinkedHash/Assoc.antt =====
-- Ordered dicts with any keys: what the linked hash table stands for.
--
-- `same` is `==` on keys. An assignment to a key that is there keeps its place.
use ani_vault.Base.{
  ◌≡◌, refl, ap, ◌∙◌, ◌↔◌, Bool, true, Option, none, some, List, [], ◌∷◌, ◌++◌, arith,
  if◌then◌else◌, Bool-cases, inl, inr,
}

module _ {ℓ} {K V : Type ℓ} (same : K → K → Bool) where
  unfoldable pub lookup : K → List (K × V) → Option V
  lookup k [] = none
  lookup k ((j, v) ∷ d) = if same j k then some v else lookup k d

  unfoldable pub insert : K → V → List (K × V) → List (K × V)
  insert k v [] = (k, v) ∷ []
  insert k v ((j, w) ∷ d) = if same j k then (j, v) ∷ d else (j, w) ∷ insert k v d

  unfoldable pub remove : K → List (K × V) → List (K × V)
  remove k [] = []
  remove k ((j, w) ∷ d) = if same j k then d else (j, w) ∷ remove k d

  -- No key stands twice.
  unfoldable pub Distinct : List (K × V) → Type ℓ
  unfolding lookup
  Distinct [] = Unit
  Distinct ((k, v) ∷ d) = (lookup k d ≡ none) × Distinct d

  pub lookup-append :
      (k : K) (d e : List (K × V))
      → lookup k (d ++ e)
        ≡ elim (lookup k d) as (λ _. Option V) [ none ↦ lookup k e | some v ↦ some v ]
  unfolding lookup
  lookup-append k [] e = refl
  lookup-append k ((j, w) ∷ d) e = ground (arith, lookup-append k d e)

  pub remove-append :
      (k : K) (d e : List (K × V))
      → remove k (d ++ e) ≡ elim (lookup k d) as (λ _. List (K × V)) [
        | none ↦ d ++ remove k e
        | some v ↦ remove k d ++ e
      ]
  unfolding lookup remove
  remove-append k [] e = refl
  remove-append k ((j, w) ∷ d) e = ground (arith, remove-append k d e)

  pub remove_absent : (k : K) (d : List (K × V)) → lookup k d ≡ none → remove k d ≡ d
  unfolding lookup remove
  remove_absent k [] h = refl
  remove_absent k ((j, w) ∷ d) h = ground (arith, remove_absent k d)

  pub insert_absent :
      (k : K) (v : V) (d : List (K × V)) → lookup k d ≡ none → insert k v d ≡ d ++ (k, v) ∷ []
  unfolding lookup insert
  insert_absent k v [] h = refl
  insert_absent k v ((j, w) ∷ d) h = ground (arith, insert_absent k v d)

  -- With keys that are equal exactly when `same` says so.
  module _ (same_iff : (a b : K) → (same a b ≡ true) ↔ (a ≡ b)) where
    pub lookup-insert :
        (k j : K) (v : V) (d : List (K × V))
        → lookup j (insert k v d) ≡ (if same k j then some v else lookup j d)
    unfolding lookup insert
    lookup-insert k j v [] = refl
    lookup-insert k j v ((i, w) ∷ d) =
        ground (arith, same_iff i k, same_iff i j, same_iff k j, lookup-insert k j v d)

    pub lookup_with_same :
        {B : Type ℓ} (f : Option V → B) (b : B) (k j : K) (d : List (K × V))
        → (if same k j then f (lookup k d) else b) ≡ (if same k j then f (lookup j d) else b)
    lookup_with_same f b k j d = elim (Bool-cases (same k j)) [
      | inl e ↦ rw e (ap (λ i. f (lookup i d)) ((same_iff k j).0 e))
      | inr e ↦ rw e refl
    ]

    pub lookup-remove :
        (k j : K) (d : List (K × V))
        → Distinct d
        → lookup j (remove k d) ≡ (if same k j then none else lookup j d)
    unfolding lookup remove Distinct
    lookup-remove k j [] h = ground arith
    lookup-remove k j ((i, w) ∷ d) h =
        ground (arith, same_iff i k, same_iff i j, same_iff k j, lookup-remove k j d h.1)

    pub Distinct-insert : (k : K) (v : V) (d : List (K × V)) → Distinct d → Distinct (insert k v d)
    unfolding Distinct insert lookup
    Distinct-insert k v [] h = (refl, tt)
    Distinct-insert k v ((j, w) ∷ d) h = elim (Bool-cases (same j k)) [
      | inl e ↦ rw e h
      | inr e ↦ rw e (
        lookup-insert k j v d ∙ ground (arith, same_iff j k, same_iff k j, h.0),
        Distinct-insert k v d h.1,
      )
    ]

    pub Distinct-remove : (k : K) (d : List (K × V)) → Distinct d → Distinct (remove k d)
    unfolding Distinct remove lookup
    Distinct-remove k [] h = tt
    Distinct-remove k ((j, w) ∷ d) h = elim (Bool-cases (same j k)) [
      | inl e ↦ rw e (h.1)
      | inr e ↦ rw e (
        lookup-remove k j d h.1 ∙ ground (arith, same_iff j k, same_iff k j, h.0),
        Distinct-remove k d h.1,
      )
    ]
