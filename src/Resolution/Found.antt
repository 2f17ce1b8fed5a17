-- ===== src/Resolution/Found.antt =====
-- What a file says of its title and its resolution, and the summary that the files of a title come
-- to, told apart from the code of the analysis.
use Prim.Native.String.{String}
use text.Mathlib.Text.{◌==◌}
use ani_vault.Base.{
  ℕ, suc, Bool, true, false, not, ◌&&◌, ◌||◌, Option, none, some, List, [], ◌∷◌, ◌++◌, map,
  if◌then◌else◌,
}
use ani_vault.Resolution.{
  Regexes, ScannedFile, ResolutionSummary, high_resolution, map_dimensions_to_resolution,
  if_not_empty, if_truthy,
}

-- The first that is there.
unfoldable pub first_of : List (Option String) → Option String
first_of [] = none
first_of (none ∷ os) = first_of os
first_of (some s ∷ os) = some s

unfoldable pub is_any : {A : Type 0} → (A → Bool) → List A → Bool
is_any test [] = false
is_any test (x ∷ xs) = test x || is_any test xs

unfoldable pub count : {A : Type 0} → (A → Bool) → List A → ℕ
count test [] = 0
count test (x ∷ xs) = let rest = count test xs in if test x then suc rest else rest

abbrev pub dimensions_label : Option (ℕ × ℕ) → Option String
dimensions_label none = none
dimensions_label (some (width, height)) = some (map_dimensions_to_resolution width height)

abbrev pub changed_by : (String → String) → Option String → Option String
changed_by f none = none
changed_by f (some s) = some (f s)

module _ (r : Regexes) where
  open r use {
    search_all, search_dimensions, search_bracket, search_titles, without_suffixes, strip,
    is_within,
  }

  -- The resolution that a file name has: what the first search finds, or what its dimensions are.
  unfoldable pub quality_in_name : String → Option String
  unfolding first_of map_dimensions_to_resolution
  quality_in_name name =
      first_of (map (λ s. s name) search_all ++ dimensions_label (search_dimensions name) ∷ [])

  -- The title that a file name has: the first brackets, what the first search finds, or what is left
  -- without the suffixes, stripped and not empty.
  unfoldable pub title_in_name : String → Option String
  unfolding first_of
  title_in_name name = if_truthy (
      changed_by strip (
        first_of (
          search_bracket name
          ∷ (map (λ s. s name) search_titles ++ if_not_empty (without_suffixes name) ∷ []))))

  -- The title of a file: that of its match, or else that in its name.
  unfoldable pub title_of : ScannedFile → Option String
  unfolding first_of title_in_name
  title_of f = first_of (f.match_title ∷ title_in_name f.file_name ∷ [])

  -- The resolution of a file: for one with a match its quality, and else that in its name.
  unfoldable pub resolution_of : ScannedFile → Option String
  unfolding first_of quality_in_name
  resolution_of f = elim f.match_title [
    | none ↦ quality_in_name f.file_name
    | some t ↦ first_of (if_truthy f.quality ∷ quality_in_name f.file_name ∷ [])
  ]

  unfoldable pub is_high : String → Bool
  unfolding is_any
  is_high quality = not (quality == "") && is_any (λ p. is_within p quality) high_resolution

  -- The file has the title, and a resolution that the test takes.
  unfoldable pub has : (String → Bool) → String → ScannedFile → Bool
  unfolding title_of resolution_of is_high
  has test title f = elim (title_of f) [
    | none ↦ false
    | some t ↦ elim (resolution_of f) [ none ↦ false | some q ↦ (t == title) && test q ]
  ]

  -- The summary that the files give to a title, if one of them has it and a resolution.
  unfoldable pub summary_of : List ScannedFile → String → Option ResolutionSummary
  unfolding is_any count has
  summary_of files title =
      let high = is_any (has is_high title) files in
      let low = is_any (has (λ q. not (is_high q)) title) files in
      if is_any (has (λ q. true) title) files
      then some (record {
        summary_title = title;
        has_mixed_resolutions = high && low;
        has_high_res = high;
        has_low_res = low;
        file_count = count (has (λ q. true) title) files;
      })
      else none
