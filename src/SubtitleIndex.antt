-- ===== src/SubtitleIndex.antt =====
-- `SubtitleIndex` of src/anivault/core/subtitle_index.py: how it is built and searched.
--
-- A normalized name is the list of its code points; `normalized_name` is that of a path, and
-- `content_hash` the hash of its file, `none` for an `OSError`.
use Prim.Native.String.{String}
use text.Mathlib.Text.{◌==◌ as str_eq}
use ani_vault.Base.{
  ℕ, Bool, true, false, ◌&&◌, ◌||◌, Option, none, some, List, [], ◌∷◌, ◌++◌, ltb, ◌==◌,
  if◌then◌else◌,
}
use ani_vault.Sorting.{sort}
use ani_vault.LinkedHash.Assoc.{lookup, insert}
pub mod Texts
pub mod Names
pub mod Prefix
mod Tests

abbrev pub Name : Type 0
Name = List ℕ

unfoldable pub same_name : Name → Name → Bool
same_name [] [] = true
same_name [] (d ∷ t) = false
same_name (c ∷ s) [] = false
same_name (c ∷ s) (d ∷ t) = (c == d) && same_name s t

-- s <= t
unfoldable pub leb_name : Name → Name → Bool
leb_name [] t = true
leb_name (c ∷ s) [] = false
leb_name (c ∷ s) (d ∷ t) = ltb c d || ((c == d) && leb_name s t)

-- name.startswith(prefix)
unfoldable pub starts_with : Name → Name → Bool
starts_with name [] = true
starts_with [] (d ∷ prefix) = false
starts_with (c ∷ name) (d ∷ prefix) = (c == d) && starts_with name prefix

pub record Index (P : Type 0) : Type 0 where
  pub hash_index : List (String × List P)
  pub name_index : List (Name × List P)
  pub sorted_name_keys : List Name
  pub path_to_metadata : List (P × (String × Name))

-- The names of a dict.
unfoldable pub keys : {V : Type 0} → List (Name × V) → List Name
keys [] = []
keys ((k, v) ∷ d) = k ∷ keys d

-- bisect_left(keys, prefix), and the keys from there on
unfoldable pub from_bisect_left : Name → List Name → List Name
from_bisect_left prefix [] = []
from_bisect_left prefix (k ∷ ks) =
    let rest = from_bisect_left prefix ks in if leb_name prefix k then k ∷ ks else rest

unfoldable pub is_falsy {ℓ} : {A : Type ℓ} → List A → Bool
is_falsy [] = true
is_falsy (x ∷ xs) = false

module _ {P : Type 0} (same_path : P → P → Bool) (exists : P → Bool)
    (content_hash : P → Option String) (normalized_name : P → Name) where
  unfoldable pub has_path : List P → P → Bool
  has_path [] p = false
  has_path (q ∷ qs) p = same_path q p || has_path qs p

  -- The list under a key with the path, which joins it once.
  unfoldable pub joined : Option (List P) → P → List P
  unfolding has_path
  joined none p = p ∷ []
  joined (some ps) p = if has_path ps p then ps else ps ++ p ∷ []

  -- The file is indexed when its hash is there; without a name it has no entry under names.
  unfoldable pub index_hashed : P → String → Index P → Index P
  unfolding joined lookup insert is_falsy
  index_hashed p h i =
      let n = normalized_name p in
      let named = insert same_name n (joined (lookup same_name n i.name_index) p) i.name_index in
      record i {
        hash_index = insert str_eq h (joined (lookup str_eq h i.hash_index) p) i.hash_index;
        name_index = if is_falsy n then i.name_index else named;
        path_to_metadata = insert same_path p (h, n) i.path_to_metadata;
      }

  -- The loop of `build_index`: missing files and those that cannot be read are passed over.
  unfoldable pub index_files : List P → Index P → Index P
  unfolding index_hashed
  index_files [] i = i
  index_files (p ∷ ps) i =
      index_files ps
        (if exists p then elim (content_hash p) [ none ↦ i | some h ↦ index_hashed p h i ] else i)

  unfoldable pub build_index : List P → Index P → Index P
  unfolding index_files keys
  build_index subtitle_files i =
      let cleared = record i { hash_index = []; name_index = []; sorted_name_keys = [] } in
      let filled = index_files subtitle_files cleared in
      record filled { sorted_name_keys = sort leb_name (keys filled.name_index) }

-- index.get(key, [])
unfoldable pub or_empty : {A : Type 0} → Option (List A) → List A
or_empty none = []
or_empty (some ps) = ps

module _ {P : Type 0} where
  unfoldable pub get_by_hash : String → Index P → List P
  unfolding or_empty
  get_by_hash content_hash i = or_empty (lookup str_eq content_hash i.hash_index)

  unfoldable pub get_by_name : Name → Index P → List P
  unfolding or_empty
  get_by_name normalized_name i = or_empty (lookup same_name normalized_name i.name_index)

  -- The loop over the keys, which stops at the first without the prefix; `none` is a `KeyError`.
  unfoldable pub matches_from : Name → Index P → List Name → Option (List P)
  matches_from prefix i [] = some []
  matches_from prefix i (k ∷ ks) =
      let rest = matches_from prefix i ks in
      if starts_with k prefix
      then elim (lookup same_name k i.name_index) [
        | none ↦ none
        | some ps ↦ elim rest [ none ↦ none | some more ↦ some (ps ++ more) ]
      ]
      else some []

  unfoldable pub get_by_name_prefix : Name → Index P → Option (List P)
  unfolding matches_from from_bisect_left is_falsy
  get_by_name_prefix prefix i =
      if is_falsy prefix || is_falsy i.sorted_name_keys
      then some []
      else matches_from prefix i (from_bisect_left prefix i.sorted_name_keys)
