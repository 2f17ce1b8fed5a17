-- ===== src/Matchers/Tests.antt =====
-- Matches over linked hash tables, and their theorems at them.
use Prim.Native.String.{String}
use text.Mathlib.Text.{◌==◌}
use ani_vault.Base.{◌==◌ as ◌==ℕ◌, ℕ, ◌≡◌, refl, Option, none, some, List, [], ◌∷◌, if◌then◌else◌}
use ani_vault.Base.Int.{ℤ, pos, negsuc}
use ani_vault.LinkedHash.Interface.{OrderedTable, linked}
use ani_vault.Matchers.{missing, not_a_number, number, File, Strings, keyed_by_season}
use ani_vault.Matchers.Grouping.{under}

abbrev first_bucket : ℕ → String → ℕ
first_bucket capacity key = 0

abbrev table : {X : Type 0} → OrderedTable String (List X)
table = linked ◌==◌ first_bucket

abbrev file : String → Option String → File
file name title = record { name = name; title = title; season = missing; episode = not_a_number }

abbrev second : File
second = record (file "c.mkv" (some "Titan")) { season = number (pos 2) }

abbrev files : List File
files = file "a.mkv" (some "Titan") ∷ file "b.mkv" none ∷ second ∷ file "d.mkv" (some "Titan") ∷ []

-- The keys of the seasons that occur.
abbrev format_key : String → ℤ → String
format_key title (pos n) = if n ==ℕ 1 then "S01" else "S02"
format_key title (negsuc n) = "S-1"

abbrev strings : Strings
strings = record {
  size_of = λ t. 5;
  first_part = λ n t. t;
  lower = λ t. if t == "Titan" then "titan" else t;
  without_punctuation = λ t. t;
  collapse_spaces = λ t. t;
  strip = λ t. t;
}

abbrev base_title : String → Option String
base_title name = if name == "b.mkv" then some "titan" else none

-- The key of the first season has the first file and the last one.
first_season :
    under "S01" (keyed_by_season format_key files)
    ≡ some (file "a.mkv" (some "Titan") ∷ file "d.mkv" (some "Titan") ∷ [])
unfolding under keyed_by_season
first_season = refl
