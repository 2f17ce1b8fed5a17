-- ===== src/SubtitleIndex/Texts.antt =====
-- The order of names, and where the names with a prefix stand in it.
use ani_vault.Base.{arith, ◌≡◌, refl, true, false, [], ◌∷◌}
use ani_vault.SubtitleIndex.{Name, same_name, leb_name, starts_with}

pub leb_name_total : (s t : Name) → leb_name s t ≡ false → leb_name t s ≡ true
unfolding leb_name
leb_name_total [] t h = cc
leb_name_total (c ∷ s) [] h = refl
leb_name_total (c ∷ s) (d ∷ t) h = ground (arith, h, leb_name_total s t)

pub leb_name_trans :
    (s t u : Name) → leb_name s t ≡ true → leb_name t u ≡ true → leb_name s u ≡ true
unfolding leb_name
leb_name_trans [] t u h k = refl
leb_name_trans (c ∷ s) [] u h k = cc
leb_name_trans (c ∷ s) (d ∷ t) [] h k = cc
leb_name_trans (c ∷ s) (d ∷ t) (e ∷ u) h k = ground (arith, h, k, leb_name_trans s t u)

pub same_name_refl : (s : Name) → same_name s s ≡ true
unfolding same_name
same_name_refl [] = refl
same_name_refl (c ∷ s) = ground (arith, same_name_refl s)

-- A name with the prefix is not less than it.
pub starts_with-leb_name : (s p : Name) → starts_with s p ≡ true → leb_name p s ≡ true
unfolding starts_with leb_name
starts_with-leb_name s [] h = refl
starts_with-leb_name [] (d ∷ p) h = cc
starts_with-leb_name (c ∷ s) (d ∷ p) h = ground (arith, h, starts_with-leb_name s p)

-- A name between the prefix and a name that has it, has it too.
pub starts_with_between :
    (p s t : Name)
    → leb_name p s ≡ true
    → leb_name s t ≡ true
    → starts_with t p ≡ true
    → starts_with s p ≡ true
unfolding starts_with leb_name
starts_with_between [] s t h k l = refl
starts_with_between (d ∷ p) [] t h k l = cc
starts_with_between (d ∷ p) (c ∷ s) [] h k l = cc
starts_with_between (d ∷ p) (c ∷ s) (e ∷ t) h k l =
    ground (arith, h, k, l, starts_with_between p s t)
