-- ===== src/Duplicates/Tests.antt =====
-- Runs of the resolver, and its theorems at concrete inputs.
use Prim.Native.String.{String}
use text.Mathlib.Text.{◌==◌ as str_eq}
use ani_vault.Base.{ℕ, ◌≡◌, refl, Bool, true, Option, none, some, [], ◌∷◌, if◌then◌else◌}
use ani_vault.Dict.{lookup, insert}
use ani_vault.Sorting.{sort}
use ani_vault.Sorting.First.{IsFirst}
use ani_vault.Duplicates.{
  ScannedFile, ResolutionConfig, VersionPattern, init, best, value_error, not_worse,
  resolve_duplicates, extract_quality,
}
use ani_vault.Duplicates.Best.{resolve_duplicates-IsFirst}
use ani_vault.Duplicates.Quality.{IsBound, IsScore, extract_quality-IsScore}
use ani_vault.Duplicates.Scores.{custom_scores}
use ani_vault.Dict.Laws.{IsDistinct}
use ani_vault.Base.Int.{pos}

-- File names that say all: the version is 2 in one of them, and a tag matches only its own name.
abbrev stem : String → String
stem s = s

abbrev search_version : VersionPattern → String → Option ℕ
search_version p name = if str_eq name "v2" then some 2 else none

abbrev matches_tag : String → String → Bool
matches_tag tag name = str_eq tag name

abbrev first_file : ScannedFile
first_file = record { name = "1080p"; file_size = some 900 }

abbrev second_file : ScannedFile
second_file = record { name = "v2"; file_size = some 100 }

-- A higher version is worth more than a better quality and a larger size.
version_first :
    resolve_duplicates stem search_version matches_tag (init none) (first_file ∷ second_file ∷ [])
    ≡ best second_file
unfolding resolve_duplicates init sort insert
version_first = refl

resolve_duplicates-IsFirst_example :
    ((g : ScannedFile) × (resolve_duplicates stem search_version matches_tag
          (init none)
          (first_file ∷ second_file ∷ [])
        ≡ best g)
      × IsFirst
          (not_worse stem search_version matches_tag (init none))
          (first_file ∷ second_file ∷ [])
          g)
    × (resolve_duplicates stem search_version matches_tag (init none) [] ≡ value_error)
resolve_duplicates-IsFirst_example =
    resolve_duplicates-IsFirst stem search_version matches_tag (init none) first_file
      (second_file ∷ [])

-- Scores of which one replaces a default and one is new.
abbrev config : ResolutionConfig
config = record {
  prefer_higher_version = true;
  prefer_higher_quality = true;
  prefer_larger_size = true;
  quality_scores = ("1080p", pos 5000) ∷ ("BD", pos 4000) ∷ [];
}

config-IsDistinct : IsDistinct (custom_scores (some config))
unfolding IsDistinct lookup
config-IsDistinct = (refl, (refl, tt))

custom_score :
    extract_quality stem search_version matches_tag (init (some config)) "1080p" ≡ pos 5000
unfolding extract_quality init sort insert
custom_score = refl

-- The table has 2160 for this tag.
score_of_2160p : extract_quality stem search_version matches_tag (init none) "2160p" ≡ pos 2160
unfolding extract_quality init sort insert
score_of_2160p = refl

extract_quality-IsScore_example :
    IsBound stem search_version matches_tag
      (some config)
      "1080p"
      (extract_quality stem search_version matches_tag (init (some config)) "1080p")
    × IsScore stem search_version matches_tag
        (some config)
        "1080p"
        (extract_quality stem search_version matches_tag (init (some config)) "1080p")
extract_quality-IsScore_example =
    extract_quality-IsScore stem search_version matches_tag (some config) "1080p" config-IsDistinct
