-- ===== src/DirectoryCache/Tests.antt =====
-- The directory cache over a linked hash table with one bucket in use, and its theorems at it.
use Prim.Native.String.{String}
use text.Mathlib.Text.{◌==◌ as str_eq}
use text.Mathlib.TextEquality.{eq_iff}
use ani_vault.Base.{ℕ, ◌≡◌, ◌↔◌, refl, true, false, none, some, List, [], ◌∷◌}
use ani_vault.LinkedHash.Assoc.{insert}
use ani_vault.LinkedHash.Interface.{OrderedTable, IsDict, linked, linked-IsDict}
use ani_vault.DirectoryCache.{
  DirectoryInfo, info, not_a_dict, missing_field, CacheFile, decoded, key_error, Manager, init,
  load_cache, save_cache, written, absent,
}
use ani_vault.DirectoryCache.Loaded.{recorded, load_error, load_cache-recorded}
use ani_vault.DirectoryCache.Saved.{load_cache-save_cache}
use ani_vault.DirectoryCache.Run.{
  Call, calls_get, calls_remove, calls_update, calls_is_cached, calls_size, nothing, a_directory,
  a_flag, a_number, run_calls, spec_calls, run_calls-spec_calls,
}

-- Every key collides.
abbrev first_bucket : ℕ → String → ℕ
first_bucket capacity key = 0

abbrev table : OrderedTable String DirectoryInfo
table = linked str_eq first_bucket

table-IsDict : IsDict str_eq table
table-IsDict = linked-IsDict str_eq first_bucket eq_iff (λ capacity key h. h)

abbrev seen : DirectoryInfo
seen = record { mtime = 5000; files = "1.mkv" ∷ []; subdirs = [] }

abbrev other : DirectoryInfo
other = record { mtime = 7; files = []; subdirs = "s1" ∷ [] }

abbrev calls : List (Call String)
calls =
    calls_update "/b" 5000 ("1.mkv" ∷ []) []
    ∷ calls_update "/a" 7 [] ("s1" ∷ [])
    ∷ calls_is_cached "/b" 5999
    ∷ calls_is_cached "/b" 6000
    ∷ calls_is_cached "/c" 6000
    ∷ calls_remove "/b"
    ∷ calls_get "/b"
    ∷ calls_get "/a"
    ∷ calls_size
    ∷ []

run_calls-spec_calls_example :
    run_calls (λ p. p) 1000 table calls (init table)
    ≡ some (
        nothing
        ∷ nothing
        ∷ a_flag true
        ∷ a_flag false
        ∷ a_flag false
        ∷ nothing
        ∷ a_directory none
        ∷ a_directory (some other)
        ∷ a_number 1
        ∷ [])
unfolding spec_calls
run_calls-spec_calls_example =
    run_calls-spec_calls (λ p. p) 1000 str_eq table table-IsDict calls (init table) []
      table-IsDict.new_stands

-- A file with an entry that is no dict, and one after which an entry lacks a field.
abbrev file : CacheFile
file = decoded (("/b", info seen) ∷ ("/x", not_a_dict) ∷ ("/a", info other) ∷ [])

abbrev broken : CacheFile
broken = decoded (("/b", info seen) ∷ ("/x", missing_field) ∷ ("/a", info other) ∷ [])

load_cache-recorded_example :
    (m : Manager table) × (load_cache table broken (init table)
      ≡ some (m, load_error str_eq broken))
    × ((m.loaded ≡ true) ↔ (load_error str_eq broken ≡ none))
    × (load_error str_eq broken ≡ none → table-IsDict.Stands m.cache (recorded str_eq broken))
load_cache-recorded_example = load_cache-recorded str_eq table table-IsDict broken (init table) refl

broken-load_error : load_error str_eq broken ≡ some key_error
unfolding load_error
broken-load_error = refl

file-recorded : recorded str_eq file ≡ ("/b", seen) ∷ ("/a", other) ∷ []
unfolding recorded insert
file-recorded = refl

file_is_whole : load_error str_eq file ≡ none
unfolding load_error
file_is_whole = refl

-- The cache of a manager that has loaded the file is saved and read back.
loads_file : (m : Manager table) × table-IsDict.Stands m.cache (recorded str_eq file)
loads_file =
    let (m, e, loaded, stands) =
      load_cache-recorded str_eq table table-IsDict file (init table) refl in
    (m, stands file_is_whole)

load_cache-save_cache_example :
    (saved : CacheFile) × (save_cache table str_eq written absent loads_file.0 ≡ some (saved, none))
    × (m : Manager table) × (load_cache table saved (init table) ≡ some (m, none))
    × table-IsDict.Stands m.cache (recorded str_eq file)
    × (m.loaded ≡ true)
load_cache-save_cache_example =
    load_cache-save_cache str_eq eq_iff table table-IsDict loads_file.0 (recorded str_eq file)
      absent loads_file.1
