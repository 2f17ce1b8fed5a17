-- ===== src/IndexState.antt =====
-- `FileState`, `FileChanges` and `IndexStateManager` of
-- src/anivault/infrastructure/index_state_manager.py.
--
-- What the methods read of the disk is the parameter `Disk`: `exists`, `stat` and the hash of a
-- file, with the failures that the code catches as `none`. A modification time is a number, which
-- the code only compares for equality. The order in which Python iterates over a set is not
-- specified; the model takes one order, and the theorems speak of membership.
pub mod Changes
pub mod Saved
mod Tests
use Prim.Native.String.{String}
use text.Mathlib.Text.{◌==◌ as str_eq}
use ani_vault.Base.{
  ℕ, ◌+◌, Bool, true, false, not, ◌&&◌, ◌||◌, Option, none, some, List, [], ◌∷◌, map, length, ◌==◌,
  if◌then◌else◌,
}
use ani_vault.Dict.{Dict, lookup, insert, keys, values, contains, add, difference, intersection}

pub record FileState : Type 0 where
  pub path : String
  pub mtime : ℕ
  pub size : ℕ
  pub content_hash : Option String

pub record FileChanges : Type 0 where
  pub added : List FileState
  pub modified : List FileState
  pub removed : List FileState

unfoldable pub total_changes : FileChanges → ℕ
total_changes c = length c.added + length c.modified + length c.removed

unfoldable pub is_empty : FileChanges → Bool
unfolding total_changes
is_empty c = total_changes c == 0

-- What a process sees of the file system. `stat` and `hash` fail with `none` for an `OSError`.
pub record Disk : Type 0 where
  pub resolve : String → String
  pub exists : String → Bool
  pub stat : String → Option (ℕ × ℕ)
  pub hash : String → Option String
  pub lower_suffix : String → String

abbrev pub subtitle_suffixes : List String
subtitle_suffixes = ".srt" ∷ ".smi" ∷ ".ass" ∷ ".ssa" ∷ ".vtt" ∷ ".sub" ∷ []

-- _content_hash_for_path, and the same test in `save_state`
unfoldable pub content_hash_for_path : Disk → String → Bool → Option String
content_hash_for_path disk path calculate_hash =
    if calculate_hash || contains (disk.lower_suffix path) subtitle_suffixes
    then disk.hash path
    else none

-- _file_state_for_path, and the `try` block in the loop of `save_state`
unfoldable pub file_state_for_path : Disk → String → Bool → Option FileState
unfolding content_hash_for_path
file_state_for_path disk path calculate_hash = elim (disk.stat path) [
  | none ↦ none
  | some (mtime, size) ↦ some (record {
    path = path;
    mtime = mtime;
    size = size;
    content_hash = content_hash_for_path disk path calculate_hash;
  })
]

-- The state of one file, if it is there and can be read.
unfoldable pub observe : Disk → Bool → String → Option FileState
unfolding file_state_for_path
observe disk calculate_hash path =
    if disk.exists path then file_state_for_path disk path calculate_hash else none

-- current_state[path] = state, if there is a state
unfoldable pub put_observed : String → Option FileState → Dict FileState → Dict FileState
put_observed path none d = d
put_observed path (some s) d = insert path s d

-- The loop over the files, which `save_state` and `_build_current_state` share.
unfoldable pub collect : Disk → Bool → List String → Dict FileState → Dict FileState
unfolding observe put_observed
collect disk calculate_hash [] d = d
collect disk calculate_hash (f ∷ files) d =
    let path = disk.resolve f in
    collect disk calculate_hash files (put_observed path (observe disk calculate_hash path) d)

-- {str(Path(f).resolve()) for f in current_files}
unfoldable pub resolved_paths : Disk → List String → List String → List String
resolved_paths disk [] paths = paths
resolved_paths disk (f ∷ files) paths = resolved_paths disk files (add (disk.resolve f) paths)

-- _build_current_state
unfoldable pub build_current_state : Disk → List String → Bool → Dict FileState × List String
unfolding collect resolved_paths
build_current_state disk current_files calculate_hash =
    (collect disk calculate_hash current_files [], resolved_paths disk current_files [])

-- `!=` on two hashes that are there
unfoldable pub hashes_differ : Option String → Option String → Bool
hashes_differ (some a) (some b) = not (str_eq a b)
hashes_differ none b = false
hashes_differ (some a) none = false

-- _is_file_modified
unfoldable pub is_file_modified : FileState → FileState → Bool
unfolding hashes_differ
is_file_modified current previous =
    if not (current.mtime == previous.mtime) || not (current.size == previous.size)
    then true
    else hashes_differ current.content_hash previous.content_hash

-- [d[path] for path in paths if path in d]
unfoldable pub select : Dict FileState → List String → List FileState
select d [] = []
select d (p ∷ paths) =
    let rest = select d paths in elim (lookup p d) [ none ↦ rest | some s ↦ s ∷ rest ]

-- The test in the loop of `get_changes` over the common paths.
unfoldable pub changed : Option FileState → Option FileState → Option FileState
unfolding is_file_modified
changed (some current) (some previous) =
    if is_file_modified current previous then some current else none
changed none previous = none
changed (some current) none = none

-- The loop over the common paths.
unfoldable pub select_modified : Dict FileState → Dict FileState → List String → List FileState
unfolding changed
select_modified current previous [] = []
select_modified current previous (p ∷ paths) =
    let rest = select_modified current previous paths in
    elim (changed (lookup p current) (lookup p previous)) [ none ↦ rest | some s ↦ s ∷ rest ]

pub record Manager : Type 0 where
  pub previous_state : Dict FileState

unfoldable pub get_changes : Manager → Disk → List String → Bool → FileChanges
unfolding build_current_state select select_modified
get_changes m disk current_files calculate_hash =
    let (current_state, current_paths) = build_current_state disk current_files calculate_hash in
    let previous_paths = keys m.previous_state in
    record {
      added = select current_state (difference current_paths previous_paths);
      removed = select m.previous_state (difference previous_paths current_paths);
      modified =
          select_modified current_state m.previous_state
            (intersection current_paths previous_paths);
    }

-- The state file as `_load_state` finds it: no file, a file that cannot be opened, a file that is
-- no JSON, JSON of another shape, or its entries, each `none` if it lacks a key that `from_dict`
-- wants.
pub data StateFile : Type 0 where
  missing denied unreadable misshapen : StateFile
  entries : List (Option FileState) → StateFile

-- What writing the state file comes to: it is written, it is not opened, or the write fails after
-- `open("w")` has emptied it, and leaves any file.
pub data Write : Type 0 where
  written not_opened : Write
  cut_off : StateFile → Write

-- The manager after the call, the state file, and whether the call raised. The state kept in memory
-- changes only when all is written.
unfoldable pub save_state :
    Manager → Disk → Write → StateFile → List String → Bool → Manager × StateFile × Bool
unfolding collect values
save_state m disk write before files calculate_hash =
    let current_state = collect disk calculate_hash files [] in
    elim write [
      | written ↦ (
        record { previous_state = current_state },
        entries (map some (values current_state)),
        false,
      )
      | not_opened ↦ (m, before, true)
      | cut_off left ↦ (m, left, true)
    ]

unfoldable pub clear_state : Manager → Manager
clear_state m = record { previous_state = [] }

-- The loop over the entries; `none` for the `KeyError`.
unfoldable pub load_entries : List (Option FileState) → Dict FileState → Option (Dict FileState)
load_entries [] d = some d
load_entries (none ∷ es) d = none
load_entries (some s ∷ es) d = load_entries es (insert s.path s d)

-- _load_state, as the constructor calls it; `none` for the exceptions that it lets through, the
-- `OSError` of the file and those of JSON of another shape.
unfoldable pub load_state : StateFile → Option Manager
unfolding load_entries
load_state missing = some (record { previous_state = [] })
load_state denied = none
load_state misshapen = none
load_state unreadable = some (record { previous_state = [] })
load_state (entries es) = elim (load_entries es []) [
  | none ↦ some (record { previous_state = [] })
  | some d ↦ some (record { previous_state = d })
]
