-- ===== src/Sorting/First.antt =====
-- The first item of a sorted list is the first of the least items of the list.
use ani_vault.Base.{
  ◌≡◌, refl, ap, Bool, true, false, List, [], ◌∷◌, ◌++◌, All, Bool-cases, inl, inr,
}
use ani_vault.Sorting.{place, sort}

module _ {ℓ} {A : Type ℓ} where
  pub All-append : (P : A → Type 0) (xs ys : List A) → All P xs → All P ys → All P (xs ++ ys)
  All-append P [] ys h k = k
  All-append P (x ∷ xs) ys h k = (h.0, All-append P xs ys h.1 k)

  pub All-map : (P Q : A → Type 0) (xs : List A) → ((x : A) → P x → Q x) → All P xs → All Q xs
  All-map P Q [] f h = tt
  All-map P Q (x ∷ xs) f h = (f x h.0, All-map P Q xs f h.1)

module _ {ℓ} {A : Type ℓ} (le : A → A → Bool) where
  -- The item `h` is the first of the least items of `xs`: every item before it is greater, and
  -- no item after it is smaller.
  pub record IsFirst (xs : List A) (h : A) : Type ℓ where
    pub before : List A
    pub after : List A
    pub split : xs ≡ before ++ h ∷ after
    pub greater : All (λ u. le u h ≡ false) before
    pub not_smaller : All (λ v. le h v ≡ true) after

  module _ (total : (a b : A) → le a b ≡ false → le b a ≡ true)
      (trans : (a b c : A) → le a b ≡ true → le b c ≡ true → le a c ≡ true) where
    least : (xs : List A) (x h : A) → IsFirst xs h → le x h ≡ true → All (λ v. le x v ≡ true) xs
    least xs x h f p = rw f.split (
        All-append (λ v. le x v ≡ true) f.before (h ∷ f.after)
          (All-map (λ u. le u h ≡ false) (λ v. le x v ≡ true) f.before
            (λ u q. trans x h u p (total u h q)) f.greater)
          (
            p,
            All-map (λ v. le h v ≡ true) (λ v. le x v ≡ true) f.after (λ v q. trans x h v p q)
                f.not_smaller,
          ))

    pub sort-IsFirst :
        (x : A) (xs : List A)
        → (h : A) × (t : List A) × (sort le (x ∷ xs) ≡ h ∷ t) × IsFirst (x ∷ xs) h
    unfolding sort
    sort-IsFirst x [] = (
      x,
      [],
      refl,
      record { before = []; after = []; split = refl; greater = tt; not_smaller = tt },
    )
    sort-IsFirst x (y ∷ ys) =
        let (h, t, e, f) = sort-IsFirst y ys in
        elim (Bool-cases (le x h)) [
          | inl p ↦ (
            x,
            h ∷ t,
            rw (e, p) refl,
            record {
              before = [];
              after = y ∷ ys;
              split = refl;
              greater = tt;
              not_smaller = least (y ∷ ys) x h f p;
            },
          )
          | inr p ↦ (
            h,
            place le x t,
            rw (e, p) refl,
            record {
              before = x ∷ f.before;
              after = f.after;
              split = ap (◌∷◌ x) f.split;
              greater = (p, f.greater);
              not_smaller = f.not_smaller;
            },
          )
        ]
