-- ===== src/Titles/Tests.antt =====
-- Runs of the shortenings, and their theorems at concrete titles.
use ani_vault.Base.{ℕ, ◌⊎◌, ◌≡◌, refl, Bool, [], ◌∷◌, map, length, leb, ◌==◌, if◌then◌else◌}
use ani_vault.Titles.{
  Title, space, join, split, strip, generate_title_prefixes, generate_shortened_titles,
}
use ani_vault.Titles.Prefixes.{base_words, inits, split-generate_title_prefixes}
use ani_vault.Titles.Shortened.{
  AreDistinct, IsAmong, words_of, generate_shortened_titles-AreDistinct,
}

abbrev is_space : ℕ → Bool
is_space c = c == space

-- Three words, of the letters a, b and c, with spaces around them.
abbrev title : Title
title = 32 ∷ 97 ∷ 32 ∷ 98 ∷ 98 ∷ 32 ∷ 32 ∷ 99 ∷ 32 ∷ []

abbrev as_it_is : Title → Title
as_it_is t = t

prefixes_run :
    generate_title_prefixes is_space as_it_is title
    ≡ (97 ∷ []) ∷ (97 ∷ 32 ∷ 98 ∷ 98 ∷ []) ∷ (97 ∷ 32 ∷ 98 ∷ 98 ∷ 32 ∷ 99 ∷ []) ∷ []
unfolding generate_title_prefixes
prefixes_run = refl

shortened_run :
    generate_shortened_titles is_space as_it_is as_it_is title
    ≡ (97 ∷ 32 ∷ 98 ∷ 98 ∷ []) ∷ (97 ∷ []) ∷ []
unfolding generate_shortened_titles
shortened_run = refl

split-generate_title_prefixes_example :
    map (split is_space) (generate_title_prefixes is_space as_it_is title) ≡ (
      if leb (length (base_words is_space as_it_is title)) 1
      then []
      else inits (base_words is_space as_it_is title))
split-generate_title_prefixes_example = split-generate_title_prefixes is_space refl as_it_is title

title_parted : words_of is_space title ≡ (97 ∷ []) ∷ (98 ∷ 98 ∷ []) ∷ (99 ∷ []) ∷ []
unfolding split strip
title_parted = refl

generate_shortened_titles-AreDistinct_example :
    AreDistinct as_it_is (generate_shortened_titles is_space as_it_is as_it_is title)
    × IsAmong as_it_is
        (generate_shortened_titles is_space as_it_is as_it_is title)
        (join ((97 ∷ []) ∷ []))
    × ((strip is_space title ≡ strip is_space title)
        ⊎ IsAmong as_it_is
            (generate_shortened_titles is_space as_it_is as_it_is title)
            (strip is_space title))
generate_shortened_titles-AreDistinct_example =
    generate_shortened_titles-AreDistinct as_it_is is_space as_it_is title (97 ∷ []) []
      (98 ∷ 98 ∷ []) ((99 ∷ []) ∷ []) title_parted
