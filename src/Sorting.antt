-- ===== src/Sorting.antt =====
-- Python's `sorted(xs, key=...)` and `list.sort(key=...)`: a stable sort by a test of order.
pub mod First
use mathlib.Core.List.{Perm}
use mathlib.Core.List.Perm
use ani_vault.Base.{
  ap, map, ◌≡◌, refl, Bool, true, false, ◌⊎◌, inl, inr, List, [], ◌∷◌, All, arith, if◌then◌else◌,
  Bool-cases,
}

module _ {ℓ} {A : Type ℓ} (le : A → A → Bool) where
  -- Before the first item that is not smaller, so that equal items keep their order.
  unfoldable pub place : A → List A → List A
  place x [] = x ∷ []
  place x (y ∷ ys) = if le x y then x ∷ y ∷ ys else y ∷ place x ys

  unfoldable pub sort : List A → List A
  unfolding place
  sort [] = []
  sort (x ∷ xs) = place x (sort xs)

  abbrev pub IsSorted : List A → Type 0
  IsSorted [] = Unit
  IsSorted (x ∷ xs) = All (λ y. le x y ≡ true) xs × IsSorted xs

  pub place-perm : (x : A) (xs : List A) → Perm (place x xs) (x ∷ xs)
  unfolding place
  place-perm x [] = Perm.refl (x ∷ [])
  place-perm x (y ∷ ys) = elim (Bool-cases (le x y)) [
    | inl e ↦ rw e (Perm.refl _)
    | inr e ↦ rw e (Perm.trans (Perm.cons y (place-perm x ys)) (Perm.swap x y ys))
  ]

  -- The sorted list has the items of the list, each as often.
  pub sort-perm : (xs : List A) → Perm (sort xs) xs
  unfolding sort
  sort-perm [] = Perm.refl []
  sort-perm (x ∷ xs) = Perm.trans (place-perm x (sort xs)) (Perm.cons x (sort-perm xs))

  All-place : (P : A → Type 0) (x : A) (ys : List A) → P x → All P ys → All P (place x ys)
  unfolding place
  All-place P x [] p h = (p, tt)
  All-place P x (y ∷ ys) p h = elim (Bool-cases (le x y)) [
    | inl e ↦ rw e (p, h)
    | inr e ↦ rw e (h.0, All-place P x ys p h.1)
  ]

  All-place_inv : (P : A → Type 0) (x : A) (ys : List A) → All P (place x ys) → P x × All P ys
  unfolding place
  All-place_inv P x [] h = h
  All-place_inv P x (y ∷ ys) h = elim (Bool-cases (le x y)) [
    | inl e ↦ rw (e, place) at h
    | inr e ↦
        let h' : P y × All P (place x ys) = rw (e, place) at h in
        let (p, q) = All-place_inv P x ys h'.1 in (p, (h'.0, q))
  ]

  pub All-sort_inv : (P : A → Type 0) (xs : List A) → All P (sort xs) → All P xs
  unfolding sort
  All-sort_inv P [] h = tt
  All-sort_inv P (x ∷ xs) h = let (p, q) = All-place_inv P x (sort xs) h in (p, All-sort_inv P xs q)

  pub All-sort : (P : A → Type 0) (xs : List A) → All P xs → All P (sort xs)
  unfolding sort
  All-sort P [] h = tt
  All-sort P (x ∷ xs) h = All-place P x (sort xs) h.0 (All-sort P xs h.1)

  module _ (total : (a b : A) → le a b ≡ false → le b a ≡ true)
      (trans : (a b c : A) → le a b ≡ true → le b c ≡ true → le a c ≡ true) where
    All-le_trans :
        (x y : A) (ys : List A)
        → le x y ≡ true
        → All (λ z. le y z ≡ true) ys
        → All (λ z. le x z ≡ true) ys
    All-le_trans x y [] p h = tt
    All-le_trans x y (z ∷ ys) p h = (trans x y z p h.0, All-le_trans x y ys p h.1)

    place-IsSorted : (x : A) (ys : List A) → IsSorted ys → IsSorted (place x ys)
    unfolding place
    place-IsSorted x [] s = (tt, tt)
    place-IsSorted x (y ∷ ys) s = elim (Bool-cases (le x y)) [
      | inl e ↦ rw e ((e, All-le_trans x y ys e s.0), s)
      | inr e ↦
          rw e (All-place (λ z. le y z ≡ true) x ys (total x y e) s.0, place-IsSorted x ys s.1)
    ]

    -- The sorted list is in order, if the test is a total preorder.
    pub sort-IsSorted : (xs : List A) → IsSorted (sort xs)
    unfolding sort
    sort-IsSorted [] = tt
    sort-IsSorted (x ∷ xs) = place-IsSorted x (sort xs) (sort-IsSorted xs)

-- To sort by a key paired with each item is to sort by the key.
module _ {ℓ κ} {A : Type ℓ} {K : Type κ} (le : K → K → Bool) (key : A → K) where
  abbrev pub by : A → A → Bool
  by a b = le (key a) (key b)

  abbrev pub by_pair : A × K → A × K → Bool
  by_pair p q = le p.1 q.1

  abbrev pub paired : List A → List (A × K)
  paired = map (λ y. (y, key y))

  place-paired :
      (x : A) (ys : List A) → place by_pair (x, key x) (paired ys) ≡ paired (place by x ys)
  unfolding place
  place-paired x [] = refl
  place-paired x (y ∷ ys) = elim (Bool-cases (le (key x) (key y))) [
    | inl e ↦ rw e refl
    | inr e ↦ rw e (ap (◌∷◌ (y, key y)) (place-paired x ys))
  ]

  sort-paired : (xs : List A) → sort by_pair (paired xs) ≡ paired (sort by xs)
  unfolding sort
  sort-paired [] = refl
  sort-paired (x ∷ xs) = rw (sort-paired xs) (place-paired x (sort by xs))

  firsts-paired : (xs : List A) → map (λ p. p.0) (paired xs) ≡ xs
  firsts-paired [] = refl
  firsts-paired (x ∷ xs) = ap (◌∷◌ x) (firsts-paired xs)

  pub firsts-sort-paired : (xs : List A) → map (λ p. p.0) (sort by_pair (paired xs)) ≡ sort by xs
  firsts-sort-paired xs = rw (sort-paired xs) (firsts-paired (sort by xs))
