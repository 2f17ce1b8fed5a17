-- ===== src/Dict/Laws.antt =====
-- Laws of dicts and sets, in the form of a test.
use Prim.Native.String.{String}
use text.Mathlib.Text.{◌==◌}
use text.Mathlib.TextEquality.{eq_iff}
use mathlib.Core.Path.{subst}
use ani_vault.Base.{
  ◌≡◌, refl, sym, ◌∙◌, inl, inr, All, Bool-cases, true, false, not, ◌&&◌, ◌||◌, none, some, List,
  [], ◌∷◌, arith, if◌then◌else◌,
}
use ani_vault.Dict.{Dict, lookup, insert, remove, keys, contains, add, difference, intersection}

module _ {ℓ} {V : Type ℓ} where
  pub lookup-insert :
      (k j : String) (v : V) (d : Dict V)
      → lookup j (insert k v d) ≡ (if k == j then some v else lookup j d)
  unfolding lookup insert
  lookup-insert k j v [] = refl
  lookup-insert k j v ((i, w) ∷ d) =
      ground (arith, eq_iff k j, eq_iff i k, eq_iff i j, lookup-insert k j v d)

  pub lookup-remove :
      (k j : String) (d : Dict V) → lookup j (remove k d) ≡ (if k == j then none else lookup j d)
  unfolding lookup remove
  lookup-remove k j [] = ground arith
  lookup-remove k j ((i, w) ∷ d) =
      ground (arith, eq_iff k j, eq_iff i k, eq_iff i j, lookup-remove k j d)

  -- No key stands twice, as in every dict of Python.
  unfoldable pub IsDistinct : Dict V → Type ℓ
  unfolding lookup
  IsDistinct [] = Unit
  IsDistinct ((k, v) ∷ d) = (lookup k d ≡ none) × IsDistinct d

  pub insert-IsDistinct :
      (k : String) (v : V) (d : Dict V) → IsDistinct d → IsDistinct (insert k v d)
  unfolding IsDistinct insert lookup
  insert-IsDistinct k v [] h = (refl, tt)
  insert-IsDistinct k v ((j, w) ∷ d) (new, h) = elim (Bool-cases (j == k)) [
    | inl same ↦ rw same (new, h)
    | inr other ↦ rw other (
      ground (arith, lookup-insert k j v d, new, eq_iff k j, eq_iff j k, other),
      insert-IsDistinct k v d h,
    )
  ]

  -- What holds of all pairs holds of a key and its value.
  pub lookup-All :
      (P : String × V → Type ℓ) (k : String) (v : V) (d : Dict V)
      → All P d
      → lookup k d ≡ some v
      → P (k, v)
  unfolding lookup
  lookup-All P k v [] h e = cc
  lookup-All P k v ((j, w) ∷ d) (h, hs) e = elim (Bool-cases (j == k)) [
    | inl same ↦
        let found : some w ≡ some v = sym (rw same refl) ∙ e in
        let value : w ≡ v = cc in
        subst (λ i. P (i, v)) ((eq_iff j k).0 same) (subst (λ u. P (j, u)) value h)
    | inr other ↦ lookup-All P k v d hs (sym (rw other refl) ∙ e)
  ]

  -- A key is there exactly when the dict has a value for it.
  pub contains-keys :
      (k : String) (d : Dict V)
      → contains k (keys d) ≡ elim (lookup k d) [ none ↦ false | some v ↦ true ]
  unfolding lookup keys contains
  contains-keys k [] = refl
  contains-keys k ((j, v) ∷ d) = ground (arith, contains-keys k d)

pub contains-add :
    (k j : String) (s : List String) → contains j (add k s) ≡ ((k == j) || contains j s)
unfolding contains add
contains-add k j [] = refl
contains-add k j (i ∷ s) = ground (arith, eq_iff k j, eq_iff i k, eq_iff i j, contains-add k j s)

pub contains-difference :
    (k : String) (s t : List String)
    → contains k (difference s t) ≡ (contains k s && not (contains k t))
unfolding contains difference
contains-difference k [] t = refl
contains-difference k (j ∷ s) t = ground (arith, eq_iff j k, contains-difference k s t)

pub contains-intersection :
    (k : String) (s t : List String)
    → contains k (intersection s t) ≡ (contains k s && contains k t)
unfolding contains intersection
contains-intersection k [] t = refl
contains-intersection k (j ∷ s) t = ground (arith, eq_iff j k, contains-intersection k s t)
