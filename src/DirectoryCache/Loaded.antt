-- ===== src/DirectoryCache/Loaded.antt =====
-- What `load_cache` makes of each cache file.
use Prim.Native.String.{String}
use ani_vault.Base.{
  arith, ◌≡◌, refl, ap, ◌∙◌, ◌↔◌, Bool, true, false, Option, none, some, List, [], ◌∷◌,
}
use ani_vault.LinkedHash.Assoc.{insert}
use ani_vault.LinkedHash.Interface.{OrderedTable, IsDict}
use ani_vault.DirectoryCache.{
  DirectoryInfo, Stored, info, not_a_dict, missing_field, CacheFile, absent, denied, unreadable,
  undecodable, not_json, not_an_object, decoded, Raised, access_denied, key_error, attribute_error,
  unicode_decode_error, Manager, fill, filled, load_cache,
}

-- The exception of the loop over the items.
unfoldable pub first_error : Bool → Option Raised
first_error true = none
first_error false = some key_error

loaded_iff : (b : Bool) → (b ≡ true) ↔ (first_error b ≡ none)
unfolding first_error
loaded_iff b = ground arith

module _ (same : String → String → Bool) where
  -- The dict of a file's entries up to one that lacks a field, and whether none does.
  unfoldable pub read_all :
      List (String × Stored) → List (String × DirectoryInfo) → List (String × DirectoryInfo) × Bool
  read_all [] d = (d, true)
  read_all ((k, not_a_dict) ∷ cache_data) d = read_all cache_data d
  read_all ((k, missing_field) ∷ cache_data) d = (d, false)
  read_all ((k, info i) ∷ cache_data) d = read_all cache_data (insert same k i d)

  -- The directories that a file records: none of an unreadable one.
  unfoldable pub recorded : CacheFile → List (String × DirectoryInfo)
  unfolding read_all
  recorded (decoded cache_data) = (read_all cache_data []).0
  recorded file = []

  -- What leaves `load_cache` as an exception: a refused file, bytes that are not text, JSON without
  -- items, and a dict that lacks a field.
  unfoldable pub load_error : CacheFile → Option Raised
  unfolding first_error read_all
  load_error denied = some access_denied
  load_error undecodable = some unicode_decode_error
  load_error not_an_object = some attribute_error
  load_error (decoded cache_data) = first_error (read_all cache_data []).1
  load_error file = none

  module _ (o : OrderedTable String DirectoryInfo) (laws : IsDict same o) where
    open laws use {Stands}

    filled-first_error :
        (t : o.Store) (b : Bool)
        → filled o (some (t, first_error b))
          ≡ some (record { cache = t; loaded = b }, first_error b)
    unfolding filled first_error
    filled-first_error t true = refl
    filled-first_error t false = refl

    pub fill-read_all :
        (cache_data : List (String × Stored)) (t : o.Store) (d : List (String × DirectoryInfo))
        → Stands t d
        → (t' : o.Store) × (fill o cache_data t ≡ some (t', first_error (read_all cache_data d).1))
          × Stands t' (read_all cache_data d).0
    unfolding fill read_all first_error
    fill-read_all [] t d h = (t, refl, h)
    fill-read_all ((k, not_a_dict) ∷ cache_data) t d h = fill-read_all cache_data t d h
    fill-read_all ((k, missing_field) ∷ cache_data) t d h = (t, refl, h)
    fill-read_all ((k, info i) ∷ cache_data) t d h =
        let (t', put_there, stands) = laws.put_stands k i t d h in
        let (t'', e, stands') = fill-read_all cache_data t' (insert same k i d) stands in
        (t'', rw (fill, put_there) e, stands')

    -- A manager that has not loaded yet calls `load_cache`: the call ends, with the exception
    -- that the file calls for, also the one for bytes that are not text, which no handler catches; without one the cache stands for what the file records, and the
    -- manager is marked as loaded exactly then.
    pub load_cache-recorded :
        (file : CacheFile) (m : Manager o)
        → m.loaded ≡ false
        → (m' : Manager o) × (load_cache o file m ≡ some (m', load_error file))
          × ((m'.loaded ≡ true) ↔ (load_error file ≡ none))
          × (load_error file ≡ none → Stands m'.cache (recorded file))
    unfolding load_cache load_error recorded
    load_cache-recorded absent m h = (
      record { cache = o.new; loaded = true },
      rw (h, load_cache) refl,
      ground arith,
      λ e. laws.new_stands,
    )
    load_cache-recorded unreadable m h = (
      record { cache = o.new; loaded = true },
      rw (h, load_cache) refl,
      ground arith,
      λ e. laws.new_stands,
    )
    load_cache-recorded not_json m h = (
      record { cache = o.new; loaded = true },
      rw (h, load_cache) refl,
      ground arith,
      λ e. laws.new_stands,
    )
    load_cache-recorded denied m h = (m, rw (h, load_cache) refl, ground (arith, h), λ e. cc)
    load_cache-recorded undecodable m h = (m, rw (h, load_cache) refl, ground (arith, h), λ e. cc)
    load_cache-recorded not_an_object m h =
        (record m { cache = o.new }, rw (h, load_cache) refl, ground (arith, h), λ e. cc)
    load_cache-recorded (decoded cache_data) m h =
        let (t, e, stands) = fill-read_all cache_data o.new [] laws.new_stands in
        (
          record { cache = t; loaded = (read_all cache_data []).1 },
          rw (h, load_cache) (ap (filled o) e ∙ filled-first_error t _),
          loaded_iff _,
          λ f. stands,
        )
