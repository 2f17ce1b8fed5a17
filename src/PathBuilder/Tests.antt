-- ===== src/PathBuilder/Tests.antt =====
-- Names of `sanitize_filename`, and its theorem at one.
use ani_vault.Base.{arith, ℕ, ◌≡◌, ◌↔◌, refl, Bool, ◌&&◌, ◌||◌, List, [], ◌∷◌, ◌==◌, leb}
use ani_vault.PathBuilder.{sanitize_filename}
use ani_vault.PathBuilder.Clean.{IsClean, IsSpaceTest}
use ani_vault.PathBuilder.Sanitized.{sanitize_filename-IsClean_iff}

-- The spaces of ASCII.
abbrev ascii_space : ℕ → Bool
ascii_space c = (c == 32) || (leb 9 c && leb c 13)

ascii_space-IsSpaceTest : IsSpaceTest ascii_space
ascii_space-IsSpaceTest = record {
  plain = refl;
  printable = λ c low high. ground (arith, low, high);
}

-- "A<>T?", and its name "A T"
abbrev title : List ℕ
title = 65 ∷ 60 ∷ 62 ∷ 84 ∷ 63 ∷ []

title-sanitize_filename : sanitize_filename ascii_space title ≡ 65 ∷ 32 ∷ 84 ∷ []
unfolding sanitize_filename
title-sanitize_filename = refl

dots-sanitize_filename :
    sanitize_filename ascii_space (46 ∷ 46 ∷ []) ≡ 85 ∷ 110 ∷ 107 ∷ 110 ∷ 111 ∷ 119 ∷ 110 ∷ []
unfolding sanitize_filename
dots-sanitize_filename = refl

sanitize_filename-IsClean_iff_example :
    IsClean ascii_space (sanitize_filename ascii_space title)
    × ((sanitize_filename ascii_space title ≡ title) ↔ IsClean ascii_space title)
sanitize_filename-IsClean_iff_example =
    sanitize_filename-IsClean_iff ascii_space ascii_space-IsSpaceTest title
