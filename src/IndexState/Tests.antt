-- ===== src/IndexState/Tests.antt =====
-- The index state over a small disk, and its theorems at it.
use Prim.Native.String.{String}
use text.Mathlib.Text.{◌==◌ as str_eq}
use ani_vault.Base.{
  ◌≡◌, refl, true, false, not, ◌&&◌, none, some, List, [], ◌∷◌, length, if◌then◌else◌,
}
use ani_vault.Dict.{lookup, insert, contains, add, keys, difference, intersection}
use ani_vault.IndexState.{
  FileState, Disk, Manager, observe, get_changes, save_state, is_empty, changed, entries,
  load_state, written, cut_off, unreadable,
}
use ani_vault.IndexState.Changes.{IsKeyed, entry_at, mentioned, known, get_changes-entry_at}
use ani_vault.IndexState.Saved.{get_changes-save_state, load_state-IsKeyed}

-- Two videos and a subtitle; `c.mkv` is gone.
abbrev disk : Disk
disk = record {
  resolve = λ p. p;
  exists = λ p. not (str_eq p "c.mkv");
  stat = λ p. some (if str_eq p "a.mkv" then (7, 100) else (8, 50));
  hash = λ p. some "h";
  lower_suffix = λ p. if str_eq p "b.srt" then ".srt" else ".mkv";
}

abbrev saved_a : FileState
saved_a = record { path = "a.mkv"; mtime = 6; size = 100; content_hash = none }

abbrev saved_c : FileState
saved_c = record { path = "c.mkv"; mtime = 1; size = 1; content_hash = none }

abbrev manager : Manager
manager = record { previous_state = ("a.mkv", saved_a) ∷ ("c.mkv", saved_c) ∷ [] }

abbrev files : List String
files = "a.mkv" ∷ "b.srt" ∷ []

manager_loads : load_state (entries (some saved_a ∷ some saved_c ∷ [])) ≡ some manager
unfolding load_state insert
manager_loads = refl

manager-IsKeyed : IsKeyed manager.previous_state
manager-IsKeyed =
    load_state-IsKeyed (entries (some saved_a ∷ some saved_c ∷ [])) manager manager_loads

-- `a.mkv` has another time, `b.srt` is new and `c.mkv` is gone.
changes_counted :
    (length (get_changes manager disk files false).modified ≡ 1)
    × (length (get_changes manager disk files false).added ≡ 1)
    × (length (get_changes manager disk files false).removed ≡ 1)
unfolding get_changes lookup insert contains add keys difference intersection
changes_counted = (refl, refl, refl)

saved_state_loads : IsKeyed manager.previous_state
saved_state_loads =
    load_state-IsKeyed (entries (some saved_a ∷ some saved_c ∷ [])) manager manager_loads

get_changes-entry_at_example :
    (entry_at "a.mkv" (get_changes manager disk files false).added ≡ (
      if mentioned disk "a.mkv" files && not (known "a.mkv" manager.previous_state)
      then observe disk false "a.mkv"
      else none))
    × (entry_at "a.mkv" (get_changes manager disk files false).removed
        ≡ (if mentioned disk "a.mkv" files then none else lookup "a.mkv" manager.previous_state))
    × (entry_at "a.mkv" (get_changes manager disk files false).modified ≡ (
        if mentioned disk "a.mkv" files
        then changed (observe disk false "a.mkv") (lookup "a.mkv" manager.previous_state)
        else none))
get_changes-entry_at_example = get_changes-entry_at manager disk files false "a.mkv" manager-IsKeyed

get_changes-save_state_example :
    (is_empty
        (get_changes (save_state manager disk written unreadable files false).0 disk files false)
      ≡ true)
    × ((m' : Manager) × (load_state (save_state manager disk written unreadable files false).1
          ≡ some m')
        × (is_empty (get_changes m' disk files false) ≡ true))
get_changes-save_state_example = get_changes-save_state manager disk unreadable files false

-- A write that is cut off raises, and a new manager reports every file as added.
cut_off_forgets :
    ((save_state manager disk (cut_off unreadable) unreadable files false).2 ≡ true)
    × (load_state (save_state manager disk (cut_off unreadable) unreadable files false).1
        ≡ some (record { previous_state = [] }))
unfolding save_state load_state
cut_off_forgets = (refl, refl)
