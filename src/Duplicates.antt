-- ===== src/Duplicates.antt =====
-- `ResolutionConfig`, `DuplicateResolver` and `resolve_duplicates` of
-- src/anivault/core/file_grouper/duplicate_resolver.py.
--
-- The regular expressions are parameters: `stem` is `Path(filename).stem`, `search_version` the
-- number that `re.search` finds by one of the version patterns, and `matches_tag` whether the
-- pattern built from a quality tag matches a file name. Of a scanned file only the name and the
-- size are modelled, which are all that the resolver reads.
pub mod Order
pub mod Best
pub mod Scores
pub mod Quality
mod Tests
use Prim.Native.String.{String}
use ani_vault.Base.{ℕ, Bool, true, false, Option, none, some, List, [], ◌∷◌, if◌then◌else◌}
use ani_vault.Base.Int.{ℤ, pos, leb_ℤ, ltb_ℤ, neg}
use ani_vault.Dict.{Dict, insert}
use ani_vault.Sorting.{sort}

pub record ScannedFile : Type 0 where
  pub name : String
  pub file_size : Option ℕ

pub record ResolutionConfig : Type 0 where
  pub prefer_higher_version : Bool
  pub prefer_higher_quality : Bool
  pub prefer_larger_size : Bool
  pub quality_scores : Dict ℤ

-- The defaults of the dataclass.
abbrev pub default_config : ResolutionConfig
default_config = record {
  prefer_higher_version = true;
  prefer_higher_quality = true;
  prefer_larger_size = true;
  quality_scores = [];
}

abbrev pub default_quality_scores : Dict ℤ
default_quality_scores =
    ("8K", pos 7680)
    ∷ ("4K", pos 3840)
    ∷ ("UHD", pos 3840)
    ∷ ("2160p", pos 2160)
    ∷ ("1440p", pos 1440)
    ∷ ("QHD", pos 1440)
    ∷ ("FHD", pos 1080)
    ∷ ("1080p", pos 1080)
    ∷ ("HD", pos 720)
    ∷ ("720p", pos 720)
    ∷ ("480p", pos 480)
    ∷ ("SD", pos 360)
    ∷ []

-- {**base, **custom}
unfoldable pub merge : Dict ℤ → Dict ℤ → Dict ℤ
merge base [] = base
merge base ((k, v) ∷ custom) = merge (insert k v base) custom

-- A better score comes first; `sorted(..., reverse=True)` keeps equal ones in their order.
abbrev pub better_score : String × ℤ → String × ℤ → Bool
better_score p q = leb_ℤ q.1 p.1

-- What `__init__` makes of a configuration.
pub record Resolver : Type 0 where
  pub config : ResolutionConfig
  pub quality_scores : Dict ℤ
  pub sorted_quality_scores : List (String × ℤ)

unfoldable pub init : Option ResolutionConfig → Resolver
unfolding merge
init config =
    let c : ResolutionConfig = elim config [ none ↦ default_config | some c ↦ c ] in
    let scores = merge default_quality_scores c.quality_scores in
    record { config = c; quality_scores = scores; sorted_quality_scores = sort better_score scores }

-- The order of Python's tuples of three integers.
abbrev pub leb_pair : ℤ × ℤ → ℤ × ℤ → Bool
leb_pair (a, b) (c, d) = if ltb_ℤ a c then true else if ltb_ℤ c a then false else leb_ℤ b d

abbrev pub Rank : Type 0
Rank = ℤ × ℤ × ℤ

unfoldable pub leb_rank : Rank → Rank → Bool
leb_rank (a, b, c) (a', b', c') =
    if ltb_ℤ a a' then true else if ltb_ℤ a' a then false else leb_pair (b, c) (b', c')

-- The names of the four version patterns, in the order in which they are tried.
pub data VersionPattern : Type 0 where
  delimited bracketed version_word ver_word : VersionPattern

abbrev pub version_patterns : List VersionPattern
version_patterns = delimited ∷ bracketed ∷ version_word ∷ ver_word ∷ []

pub data Resolved : Type 0 where
  best : ScannedFile → Resolved
  value_error : Resolved

abbrev pub or_zero : Option ℕ → ℤ
or_zero none = pos 0
or_zero (some n) = pos n

-- sorted_files[0]
abbrev pub head_of : List ScannedFile → Resolved
head_of [] = value_error
head_of (f ∷ fs) = best f

-- if not prefer: value = -value
abbrev pub oriented : Bool → ℤ → ℤ
oriented prefer value = if prefer then value else neg value

module _ (stem : String → String) (search_version : VersionPattern → String → Option ℕ)
    (matches_tag : String → String → Bool) where
  -- The loop of `_extract_version` over the patterns.
  unfoldable pub first_version : List VersionPattern → String → Option ℕ
  first_version [] name = none
  first_version (p ∷ ps) name = elim (search_version p name) [
    | some n ↦ some n
    | none ↦ first_version ps name
  ]

  -- _extract_version
  unfoldable pub extract_version : String → Option ℕ
  unfolding first_version
  extract_version filename = first_version version_patterns (stem filename)

  -- The loop of `_extract_quality` over the sorted tags.
  unfoldable pub first_quality : List (String × ℤ) → String → ℤ
  first_quality [] filename = pos 0
  first_quality ((tag, score) ∷ tags) filename =
      if matches_tag tag filename then score else first_quality tags filename

  -- _extract_quality
  unfoldable pub extract_quality : Resolver → String → ℤ
  unfolding first_quality
  extract_quality r filename = first_quality r.sorted_quality_scores filename

  -- comparison_key
  unfoldable pub comparison_key : Resolver → ScannedFile → Rank
  unfolding extract_version extract_quality
  comparison_key r file = (
    oriented r.config.prefer_higher_version (or_zero (extract_version file.name)),
    oriented r.config.prefer_higher_quality (extract_quality r file.name),
    oriented r.config.prefer_larger_size (or_zero file.file_size),
  )

  abbrev pub not_worse : Resolver → ScannedFile → ScannedFile → Bool
  not_worse r f g = leb_rank (comparison_key r g) (comparison_key r f)

  -- DuplicateResolver.resolve_duplicates
  unfoldable pub resolve_duplicates : Resolver → List ScannedFile → Resolved
  unfolding comparison_key leb_rank
  resolve_duplicates r [] = value_error
  resolve_duplicates r (f ∷ []) = best f
  resolve_duplicates r (f ∷ g ∷ fs) = head_of (sort (not_worse r) (f ∷ g ∷ fs))

  -- The module's function `resolve_duplicates`.
  unfoldable pub resolve_duplicates_with : List ScannedFile → Option ResolutionConfig → Resolved
  unfolding resolve_duplicates init
  resolve_duplicates_with files config = resolve_duplicates (init config) files
