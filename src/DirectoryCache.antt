-- ===== src/DirectoryCache.antt =====
-- `DirectoryCacheManager` of src/anivault/core/pipeline/components/directory_cache.py.
--
-- The cache is a linked hash table, of which only its interface is used. `resolve` is
-- `str(Path(dir_path).resolve())`. The cache file is what `open` and `json.load` make of it, and a
-- modification time a number of parts, of which `millisecond` make 0.001. An outer `none` is a loop
-- of the table that does not end.
use Prim.Native.String.{String}
use ani_vault.Base.{
  ℕ, ◌+◌, ◌-◌, Bool, true, false, Option, none, some, List, [], ◌∷◌, ltb, leb, if◌then◌else◌,
}
use ani_vault.LinkedHash.Assoc.{insert}
use ani_vault.LinkedHash.Interface.{OrderedTable}
pub mod Loaded
pub mod Saved
pub mod Run
mod Tests

pub record DirectoryInfo : Type 0 where
  pub mtime : ℕ
  pub files : List String
  pub subdirs : List String

-- A value of the cache file: a dict with the three fields, another value, or a dict that lacks one.
pub data Stored : Type 0 where
  info : DirectoryInfo → Stored
  not_a_dict missing_field : Stored

-- The cache file as it is read: `not_an_object` is JSON with no `items`.
pub data CacheFile : Type 0 where
  absent denied unreadable undecodable not_json not_an_object : CacheFile
  decoded : List (String × Stored) → CacheFile

-- What writing the file comes to; a failed write may leave any file, as may one of a name that
-- UTF-8 cannot encode.
pub data Write : Type 0 where
  written write_denied : Write
  write_failed not_encoded : CacheFile → Write

-- The exceptions that the methods let out.
pub data Raised : Type 0 where
  access_denied key_error attribute_error unicode_decode_error unicode_encode_error : Raised

-- `abs(cached_mtime - current_mtime) < 0.001`
unfoldable pub is_close : ℕ → ℕ → ℕ → Bool
is_close millisecond cached_mtime current_mtime =
    ltb
      (if leb cached_mtime current_mtime
        then current_mtime - cached_mtime
        else cached_mtime - current_mtime)
      millisecond

-- The dict that `save_cache` builds, pair by pair.
unfoldable pub to_dict :
    (String → String → Bool)
    → List (String × DirectoryInfo)
    → List (String × Stored)
    → List (String × Stored)
unfolding insert
to_dict same [] cache_dict = cache_dict
to_dict same ((key, dir_info) ∷ rest) cache_dict =
    to_dict same rest (insert same key (info dir_info) cache_dict)

module _ (o : OrderedTable String DirectoryInfo) where
  open o use {Store, new, put_key, get_key, remove_key, items, count}

  pub record Manager : Type 0 where
    pub cache : Store
    pub loaded : Bool

  -- __init__
  abbrev pub init : Manager
  init = record { cache = new; loaded = false }

  -- The loop of `load_cache` over the items of the file.
  unfoldable pub fill : List (String × Stored) → Store → Option (Store × Option Raised)
  fill [] t = some (t, none)
  fill ((key, not_a_dict) ∷ cache_data) t = fill cache_data t
  fill ((key, missing_field) ∷ cache_data) t = some (t, some key_error)
  fill ((key, info i) ∷ cache_data) t = elim (put_key key i t) [
    | none ↦ none
    | some (old, t') ↦ fill cache_data t'
  ]

  -- The manager is loaded unless an exception leaves the method.
  unfoldable pub filled : Option (Store × Option Raised) → Option (Manager × Option Raised)
  filled none = none
  filled (some (t, none)) = some (record { cache = t; loaded = true }, none)
  filled (some (t, some e)) = some (record { cache = t; loaded = false }, some e)

  unfoldable pub read_file : CacheFile → Manager → Option (Manager × Option Raised)
  unfolding fill filled
  read_file absent m = some (record { cache = new; loaded = true }, none)
  read_file denied m = some (m, some access_denied)
  read_file unreadable m = some (record { cache = new; loaded = true }, none)
  read_file undecodable m = some (m, some unicode_decode_error)
  read_file not_json m = some (record { cache = new; loaded = true }, none)
  read_file not_an_object m = some (record m { cache = new }, some attribute_error)
  read_file (decoded cache_data) m = filled (fill cache_data new)

  unfoldable pub load_cache : CacheFile → Manager → Option (Manager × Option Raised)
  unfolding read_file
  load_cache file m = if m.loaded then some (m, none) else read_file file m

  -- The file after the call, and the exception that leaves it.
  unfoldable pub save_cache :
      (String → String → Bool) → Write → CacheFile → Manager → Option (CacheFile × Option Raised)
  unfolding to_dict
  save_cache same write file m = elim (items m.cache) [
    | none ↦ none
    | some pairs ↦ elim write [
      | written ↦ some (decoded (to_dict same pairs []), none)
      | write_denied ↦ some (file, some access_denied)
      | write_failed left ↦ some (left, none)
      | not_encoded left ↦ some (left, some unicode_encode_error)
    ]
  ]

  unfoldable pub clear_cache : Manager → Manager
  clear_cache m = record m { cache = new }

  unfoldable pub get_cache_size : Manager → ℕ
  get_cache_size m = count m.cache

  module _ {P : Type 0} (resolve : P → String) where
    unfoldable pub get_directory_data : P → Manager → Option (Option DirectoryInfo)
    get_directory_data dir_path m = get_key (resolve dir_path) m.cache

    unfoldable pub update_directory_data :
        P → ℕ → List String → List String → Manager → Option Manager
    update_directory_data dir_path mtime files subdirs m =
        elim (put_key (resolve dir_path)
          (record { mtime = mtime; files = files; subdirs = subdirs }) m.cache) [
            | none ↦ none
            | some (old, t) ↦ some (record m { cache = t })
          ]

    unfoldable pub remove_directory : P → Manager → Option Manager
    remove_directory dir_path m = elim (remove_key (resolve dir_path) m.cache) [
      | none ↦ none
      | some (old, t) ↦ some (record m { cache = t })
    ]

    unfoldable pub is_directory_cached : ℕ → P → ℕ → Manager → Option Bool
    unfolding get_directory_data is_close
    is_directory_cached millisecond dir_path current_mtime m =
        elim (get_directory_data dir_path m) [
          | none ↦ none
          | some none ↦ some false
          | some (some cached_data) ↦ some (is_close millisecond cached_data.mtime current_mtime)
        ]
