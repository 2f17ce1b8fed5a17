-- ===== src/Resolution/Tests.antt =====
-- An analysis over linked hash tables, and its theorem at it.
use Prim.Native.String.{String}
use text.Mathlib.Text.{◌==◌}
use text.Mathlib.TextEquality.{eq_iff}
use ani_vault.Base.{ℕ, ◌≡◌, refl, true, ◌&&◌, All, Option, none, some, List, [], ◌∷◌, if◌then◌else◌}
use ani_vault.LinkedHash.Assoc.{lookup}
use ani_vault.LinkedHash.Interface.{OrderedTable, IsDict, linked, linked-IsDict}
use ani_vault.Resolution.{
  ResolutionSummary, Regexes, ScannedFile, analyzed, extract_title_from_filename, analyze_series,
}
use ani_vault.Resolution.Found.{summary_of}
use ani_vault.Resolution.Extracted.{IsNamed}
use ani_vault.Resolution.Series.{analyze_series-summary_of}

abbrev first_bucket : ℕ → String → ℕ
first_bucket capacity key = 0

abbrev table : {V : Type 0} → OrderedTable String V
table = linked ◌==◌ first_bucket

table-IsDict : {V : Type 0} → IsDict {V = V} ◌==◌ table
table-IsDict = linked-IsDict ◌==◌ first_bucket eq_iff (λ capacity key h. h)

-- Searches that know the file names below.
abbrev find_quality : String → Option String
find_quality name =
    if name == "[Group] Title - 01 1080p.mkv"
    then some "1080P"
    else if name == "b 480p.mkv"
    then some "480P"
    else none

abbrev find_bracket : String → Option String
find_bracket name = if name == "[Group] Title - 01 1080p.mkv" then some "Group" else none

abbrev regexes : Regexes
regexes = record {
  search_all = find_quality ∷ [];
  search_dimensions = λ name. none;
  search_bracket = find_bracket;
  search_titles = [];
  without_suffixes = λ name. name;
  strip = λ name. name;
  is_within = λ p quality. (p == "1080p") && (quality == "1080P");
}

abbrev files : List ScannedFile
files =
    record { match_title = some "Titan"; quality = none; file_name = "b 480p.mkv" }
    ∷ record { match_title = none; quality = none; file_name = "[Group] Title - 01 1080p.mkv" }
    ∷ record { match_title = some "Titan"; quality = some "1080P"; file_name = "c.mkv" }
    ∷ record { match_title = none; quality = none; file_name = "d.mkv" }
    ∷ []

titan_is_mixed :
    summary_of regexes files "Titan"
    ≡ some (record {
      summary_title = "Titan";
      has_mixed_resolutions = true;
      has_high_res = true;
      has_low_res = true;
      file_count = 2;
    })
unfolding summary_of
titan_is_mixed = refl

-- The release group is taken for the title.
group_is_title : extract_title_from_filename regexes "[Group] Title - 01 1080p.mkv" ≡ some "Group"
unfolding extract_title_from_filename
group_is_title = refl

files-IsNamed : All IsNamed files
files-IsNamed = (λ e. cc, (λ e. cc, (λ e. cc, (λ e. cc, tt))))

analyze_series-summary_of_example :
    (t : OrderedTable.Store table) × (d : List (String × ResolutionSummary)) × (analyze_series table
        table table regexes files
      ≡ analyzed t)
    × IsDict.Stands table-IsDict t d
    × ((title : String) → lookup ◌==◌ title d ≡ summary_of regexes files title)
analyze_series-summary_of_example =
    analyze_series-summary_of table table table table-IsDict table-IsDict table-IsDict regexes files
      files-IsNamed
