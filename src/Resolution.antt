-- ===== src/Resolution.antt =====
-- `ResolutionAnalyzer` of src/anivault/core/organizer/resolution.py, with
-- `VideoQuality.is_high_resolution` of src/anivault/shared/constants/file_formats.py.
--
-- The tables are linked hash tables, of which only the interface is used. What the regular
-- expressions find in a file name, and what `str.strip` and the search of one string in another
-- without regard to case make of strings, are parameters.
use Prim.Native.String.{String}
use text.Mathlib.Text.{◌==◌}
use ani_vault.Base.{
  ℕ, zero, suc, ◌+◌, Bool, true, false, ◌&&◌, ◌||◌, Option, none, some, List, [], ◌∷◌, leb,
  if◌then◌else◌,
}
use ani_vault.LinkedHash.Interface.{OrderedTable}
pub mod Groups
pub mod Found
pub mod Extracted
pub mod Summaries
pub mod Series
mod Tests

pub record ResolutionSummary : Type 0 where
  pub summary_title : String
  pub has_mixed_resolutions : Bool
  pub has_high_res : Bool
  pub has_low_res : Bool
  pub file_count : ℕ

pub data DetectionMethod : Type 0 where
  tmdb_metadata tmdb_filename filename_only : DetectionMethod

pub record FileResolutionInfo : Type 0 where
  pub series_title : String
  pub is_high_res : Bool
  pub quality_string : String
  pub detection_method : DetectionMethod

-- What the analysis reads of a `ScannedFile`: the title of its match, its quality and its name. The
-- title of a match is not empty, since `TMDBMatchResult.__post_init__` of
-- src/anivault/domain/entities/metadata.py refuses an empty one.
pub record ScannedFile : Type 0 where
  pub match_title : Option String
  pub quality : Option String
  pub file_name : String

-- `search_all` has a search for each of `RESOLUTION_PATTERNS`, which gives the group in upper case.
pub record Regexes : Type 0 where
  pub search_all : List (String → Option String)
  pub search_dimensions : String → Option (ℕ × ℕ)
  pub search_bracket : String → Option String
  pub search_titles : List (String → Option String)
  pub without_suffixes : String → String
  pub strip : String → String
  pub is_within : String → String → Bool

-- A set of Booleans.
pub record Resolutions : Type 0 where
  pub has_true : Bool
  pub has_false : Bool

abbrev pub no_resolutions : Resolutions
no_resolutions = record { has_true = false; has_false = false }

unfoldable pub add_resolution : Bool → Resolutions → Resolutions
add_resolution true s = record s { has_true = true }
add_resolution false s = record s { has_false = true }

abbrev pub high_resolution : List String
high_resolution = "1080p" ∷ "1080i" ∷ "2160p" ∷ "4K" ∷ "UHD" ∷ "8K" ∷ "2K" ∷ "QHD" ∷ []

abbrev pub low_resolution : List String
low_resolution = "720p" ∷ "576p" ∷ "480p" ∷ "SD" ∷ "360p" ∷ "240p" ∷ "144p" ∷ []

unfoldable pub map_dimensions_to_resolution : ℕ → ℕ → String
map_dimensions_to_resolution width height =
    if leb 1920 width || leb 1080 height
    then "1080P"
    else if leb 1280 width || leb 720 height
    then "720P"
    else if leb 854 width || leb 480 height
    then "480P"
    else "SD"

unfoldable pub first_match : List (String → Option String) → String → Option String
first_match [] name = none
first_match (search ∷ searches) name = elim (search name) [
  | none ↦ first_match searches name
  | some g ↦ some g
]

-- `if s:`
abbrev pub if_not_empty : String → Option String
if_not_empty s = if s == "" then none else some s

abbrev pub if_truthy : Option String → Option String
if_truthy none = none
if_truthy (some s) = if_not_empty s

module _ (r : Regexes) where
  open r use {
    search_all, search_dimensions, search_bracket, search_titles, without_suffixes, strip,
    is_within,
  }

  unfoldable pub is_any_within : List String → String → Bool
  is_any_within [] quality = false
  is_any_within (p ∷ ps) quality = if is_within p quality then true else is_any_within ps quality

  unfoldable pub is_high_resolution : String → Bool
  unfolding is_any_within
  is_high_resolution quality =
      if quality == ""
      then false
      else if is_any_within high_resolution quality
      then true
      else if is_any_within low_resolution quality
      then false
      else false

  unfoldable pub detect_from_tmdb_metadata : String → String → FileResolutionInfo
  unfolding is_high_resolution
  detect_from_tmdb_metadata title quality = record {
    series_title = title;
    is_high_res = is_high_resolution quality;
    quality_string = quality;
    detection_method = tmdb_metadata;
  }

  unfoldable pub detect_from_filename_pattern : String → Option (String × Bool)
  unfolding is_high_resolution map_dimensions_to_resolution first_match
  detect_from_filename_pattern filename = elim (first_match search_all filename) [
    | some resolution ↦ some (resolution, is_high_resolution resolution)
    | none ↦ elim (search_dimensions filename) [
      | none ↦ none
      | some (width, height) ↦
          let resolution = map_dimensions_to_resolution width height in
          some (resolution, is_high_resolution resolution)
    ]
  ]

  unfoldable pub extract_title_from_filename : String → Option String
  unfolding first_match
  extract_title_from_filename filename = elim (search_bracket filename) [
    | some group ↦ some (strip group)
    | none ↦ elim (first_match search_titles filename) [
      | some group ↦ some (strip group)
      | none ↦
          let cleaned = without_suffixes filename in
          if cleaned == "" then none else some (strip cleaned)
    ]
  ]

  unfoldable pub filename_resolution : String → Option FileResolutionInfo
  unfolding detect_from_filename_pattern extract_title_from_filename
  filename_resolution filename = elim (if_truthy (extract_title_from_filename filename)) [
    | none ↦ none
    | some title ↦ elim (detect_from_filename_pattern filename) [
      | none ↦ none
      | some (quality_str, high) ↦ some (record {
        series_title = title;
        is_high_res = high;
        quality_string = quality_str;
        detection_method = filename_only;
      })
    ]
  ]

  unfoldable pub extract_file_resolution : ScannedFile → Option FileResolutionInfo
  unfolding detect_from_tmdb_metadata detect_from_filename_pattern filename_resolution
  extract_file_resolution f = elim (f.match_title) [
    | none ↦ filename_resolution f.file_name
    | some title ↦ elim (if_truthy f.quality) [
      | some quality ↦ some (detect_from_tmdb_metadata title quality)
      | none ↦ elim (detect_from_filename_pattern f.file_name) [
        | some (quality_str, high) ↦ some (record {
          series_title = title;
          is_high_res = high;
          quality_string = quality_str;
          detection_method = tmdb_filename;
        })
        | none ↦ filename_resolution f.file_name
      ]
    ]
  ]

  unfoldable pub extract_all : List ScannedFile → List FileResolutionInfo
  unfolding extract_file_resolution
  extract_all [] = []
  extract_all (f ∷ fs) =
      let rest = extract_all fs in
      elim (extract_file_resolution f) [ none ↦ rest | some info ↦ info ∷ rest ]

-- What the analysis comes to: a loop of a table that does not end, the `ValueError` of a summary
-- without a title, or the table of the summaries.
pub data Analyzed (S : Type 0) : Type 0 where
  endless value_error : Analyzed S
  analyzed : S → Analyzed S

abbrev pub or_none : Option Resolutions → Resolutions
or_none none = no_resolutions
or_none (some s) = s

abbrev pub or_zero : Option ℕ → ℕ
or_zero none = 0
or_zero (some n) = n

-- The table after a `put`, whose result is dropped.
abbrev pub put_store : {S V : Type 0} → Option (Option V × S) → Option S
put_store none = none
put_store (some (old, t)) = some t

module _ (sets : OrderedTable String Resolutions) where
  -- The set of a title is made, put and changed in place; it is put here as it is then.
  unfoldable pub note_resolution : FileResolutionInfo → sets.Store → Option (sets.Store)
  unfolding add_resolution
  note_resolution info t = elim (sets.get_key info.series_title t) [
    | none ↦ none
    | some existing ↦
        put_store
          (sets.put_key info.series_title (add_resolution info.is_high_res (or_none existing)) t)
  ]

module _ (counts : OrderedTable String ℕ) where
  unfoldable pub count_series_file : FileResolutionInfo → counts.Store → Option (counts.Store)
  count_series_file info t = elim (counts.get_key info.series_title t) [
    | none ↦ none
    | some existing ↦ put_store (counts.put_key info.series_title (or_zero existing + 1) t)
  ]

module _ (sets : OrderedTable String Resolutions) (counts : OrderedTable String ℕ) where
  -- The loop that groups by title.
  unfoldable pub group_files :
      List FileResolutionInfo → sets.Store → counts.Store → Option (sets.Store × counts.Store)
  unfolding note_resolution count_series_file
  group_files [] s n = some (s, n)
  group_files (info ∷ infos) s n = elim (note_resolution sets info s) [
    | none ↦ none
    | some s' ↦ elim (count_series_file counts info n) [
      | none ↦ none
      | some n' ↦ group_files infos s' n'
    ]
  ]

abbrev pub summary : String → Resolutions → ℕ → ResolutionSummary
summary title res_types n = record {
  summary_title = title;
  has_mixed_resolutions = res_types.has_true && res_types.has_false;
  has_high_res = res_types.has_true;
  has_low_res = res_types.has_false;
  file_count = n;
}

module _ (counts : OrderedTable String ℕ) (sums : OrderedTable String ResolutionSummary) where
  -- The loop that makes the summaries.
  unfoldable pub summarize :
      List (String × Resolutions) → counts.Store → sums.Store → Analyzed (sums.Store)
  summarize [] n t = analyzed t
  summarize ((title, res_types) ∷ rest) n t = elim (counts.get_key title n) [
    | none ↦ endless
    | some found ↦
        let made = summary title res_types (or_zero found) in
        if title == "" then value_error else elim (sums.put_key title made t) [
          | none ↦ endless
          | some (old, t') ↦ summarize rest n t'
        ]
  ]

module _ (sets : OrderedTable String Resolutions) (counts : OrderedTable String ℕ)
    (sums : OrderedTable String ResolutionSummary) where
  unfoldable pub analyze_infos : List FileResolutionInfo → Analyzed (sums.Store)
  unfolding group_files summarize
  analyze_infos infos = elim (group_files sets counts infos sets.new counts.new) [
    | none ↦ endless
    | some (s, n) ↦ elim (sets.items s) [
      | none ↦ endless
      | some items ↦ summarize counts sums items n sums.new
    ]
  ]

  unfoldable pub analyze_series : Regexes → List ScannedFile → Analyzed (sums.Store)
  unfolding extract_all analyze_infos
  analyze_series r scanned_files = analyze_infos (extract_all r scanned_files)
