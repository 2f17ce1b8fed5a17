-- ===== src/Duplicates/Best.antt =====
-- Which file the resolver picks.
use Prim.Native.String.{String}
use ani_vault.Base.{ℕ, ◌≡◌, refl, ap, Bool, Option, List, [], ◌∷◌}
use ani_vault.Sorting.First.{IsFirst, sort-IsFirst}
use ani_vault.Duplicates.{
  ScannedFile, Resolver, VersionPattern, best, value_error, head_of, comparison_key, not_worse,
  resolve_duplicates,
}
use ani_vault.Duplicates.Order.{rank_total, rank_trans}

module _ (stem : String → String) (search_version : VersionPattern → String → Option ℕ)
    (matches_tag : String → String → Bool) where
  -- From one file or more the resolver picks the first of the best: each file before it has a
  -- strictly lower rank, and no file after it has a higher one. From no file it raises.
  pub resolve_duplicates-IsFirst :
      (r : Resolver) (f : ScannedFile) (fs : List ScannedFile)
      → ((g : ScannedFile) × (resolve_duplicates stem search_version matches_tag r (f ∷ fs)
            ≡ best g)
          × IsFirst (not_worse stem search_version matches_tag r) (f ∷ fs) g)
        × (resolve_duplicates stem search_version matches_tag r [] ≡ value_error)
  unfolding resolve_duplicates
  resolve_duplicates-IsFirst r f [] = (
    (f, refl, record { before = []; after = []; split = refl; greater = tt; not_smaller = tt }),
    refl,
  )
  resolve_duplicates-IsFirst r f (g ∷ fs) =
      let le = not_worse stem search_version matches_tag r in
      let rank = comparison_key stem search_version matches_tag r in
      let (h, t, e, first) =
        sort-IsFirst le (λ a b. rank_total (rank b) (rank a))
          (λ a b c p q. rank_trans (rank c) (rank b) (rank a) q p) f (g ∷ fs) in
      ((h, ap head_of e, first), refl)
