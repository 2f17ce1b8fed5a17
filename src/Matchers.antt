-- ===== src/Matchers.antt =====
-- `SeasonEpisodeMatcher` and `HashSimilarityMatcher` of
-- src/anivault/core/file_grouper/matchers/season_matcher.py and hash_matcher.py.
--
-- Both group files under keys in a linked hash table, of which only the interface is used. The
-- formatting of a key, `extract_base_title` and the operations on strings are parameters. An outer
-- `none` is a loop of the table that does not end.
use Prim.Native.String.{String}
use text.Mathlib.Text.{◌==◌}
use ani_vault.Base.{
  ℕ, Bool, true, false, Option, none, some, List, [], ◌∷◌, ◌++◌, map, ltb, if◌then◌else◌,
}
use ani_vault.Base.Int.{ℤ, pos}
use ani_vault.LinkedHash.Interface.{OrderedTable}
pub mod Grouping
pub mod Seasons
pub mod Hashes
mod Tests

-- A field of the metadata, and what `int` makes of it.
pub data Field : Type 0 where
  missing not_a_number : Field
  number : ℤ → Field

pub record File : Type 0 where
  pub name : String
  pub title : Option String
  pub season : Field
  pub episode : Field

pub record Group : Type 0 where
  pub group_title : String
  pub group_files : List File

-- The text of a title that is there and is not empty.
abbrev pub present : Option String → Option String
present none = none
present (some t) = if t == "" then none else some t

-- What `_normalize_title` calls.
pub record Strings : Type 0 where
  pub size_of : String → ℕ
  pub first_part : ℕ → String → String
  pub lower : String → String
  pub without_punctuation : String → String
  pub collapse_spaces : String → String
  pub strip : String → String

abbrev pub max_title_length : ℕ
max_title_length = 500

abbrev pub appended : {X : Type 0} → X → Option (List X) → List X
appended x none = x ∷ []
appended x (some []) = x ∷ []
appended x (some (y ∷ xs)) = (y ∷ xs) ++ x ∷ []

abbrev pub table_after : {S V : Type 0} → Option (Option V × S) → Option S
table_after none = none
table_after (some (old, t)) = some t

module _ {X : Type 0} (o : OrderedTable String (List X)) where
  -- A list that is there is changed in place; it is put here as it is then.
  unfoldable pub add_to_group : String → X → o.Store → Option (o.Store)
  add_to_group key x t = elim (o.get_key key t) [
    | none ↦ none
    | some existing_group ↦ table_after (o.put_key key (appended x existing_group) t)
  ]

  unfoldable pub add_all : List (String × X) → o.Store → Option (o.Store)
  unfolding add_to_group
  add_all [] t = some t
  add_all ((key, x) ∷ rest) t = elim (add_to_group key x t) [
    | none ↦ none
    | some t' ↦ add_all rest t'
  ]

  -- The groups, in the order of their first files.
  unfoldable pub groups_of : List (String × X) → Option (List (String × List X))
  unfolding add_all
  groups_of keyed = elim (add_all keyed o.new) [ none ↦ none | some t ↦ o.items t ]

-- An `int` of a field, or what stands for it.
abbrev pub int_or : ℤ → Field → ℤ
int_or default missing = default
int_or default not_a_number = default
int_or default (number n) = n

abbrev pub optional_int : Field → Option ℤ
optional_int missing = none
optional_int not_a_number = none
optional_int (number n) = some n

unfoldable pub extract_metadata : File → Option (String × ℤ × Option ℤ)
extract_metadata f = elim (present f.title) [
  | none ↦ none
  | some series_name ↦ some (series_name, int_or (pos 1) f.season, optional_int f.episode)
]

unfoldable pub as_group : String × List File → Group
as_group (group_name, group_files) = record { group_title = group_name; group_files = group_files }

module _ (format_key : String → ℤ → String) where
  unfoldable pub keyed_by_season : List File → List (String × File)
  unfolding extract_metadata
  keyed_by_season [] = []
  keyed_by_season (f ∷ fs) =
      let rest = keyed_by_season fs in
      elim (extract_metadata f) [
        | none ↦ rest
        | some (series_name, season, episode) ↦ (format_key series_name season, f) ∷ rest
      ]

  unfoldable pub season_match : OrderedTable String (List File) → List File → Option (List Group)
  unfolding keyed_by_season groups_of as_group
  season_match o [] = some []
  season_match o (f ∷ fs) = elim (groups_of o (keyed_by_season (f ∷ fs))) [
    | none ↦ none
    | some groups ↦ some (map as_group groups)
  ]

unfoldable pub normalize_title : Strings → String → String
normalize_title s title =
    let cut =
      if ltb max_title_length (s.size_of title)
      then s.first_part max_title_length title
      else title in
    s.strip (s.collapse_spaces (s.without_punctuation (s.lower cut)))

-- Groups without files, of which there are none, are passed over.
unfoldable pub as_groups : List (String × List (File × String)) → List Group
as_groups [] = []
as_groups ((key, []) ∷ rest) = as_groups rest
as_groups ((key, (f, t) ∷ pairs) ∷ rest) =
    record { group_title = t; group_files = f ∷ map (λ p. p.0) pairs } ∷ as_groups rest

module _ (extract_base_title : String → Option String) where
  unfoldable pub extract_title_from_file : File → Option String
  extract_title_from_file f = elim (present f.title) [
    | none ↦ extract_base_title f.name
    | some parsed_title ↦
        if parsed_title == f.name then extract_base_title f.name else some parsed_title
  ]

  module _ (s : Strings) where
    unfoldable pub keyed_by_title : List File → List (String × (File × String))
    unfolding extract_title_from_file normalize_title
    keyed_by_title [] = []
    keyed_by_title (f ∷ fs) =
        let rest = keyed_by_title fs in
        elim (present (extract_title_from_file f)) [
          | none ↦ rest
          | some title ↦ (normalize_title s title, (f, title)) ∷ rest
        ]

    unfoldable pub hash_match :
        OrderedTable String (List (File × String)) → List File → Option (List Group)
    unfolding keyed_by_title groups_of as_groups
    hash_match o files = elim (keyed_by_title files) [
      | [] ↦ some []
      | pair ∷ pairs ↦ elim (groups_of o (pair ∷ pairs)) [
        | none ↦ none
        | some groups ↦ some (as_groups groups)
      ]
    ]
