-- ===== src/IndexState/Saved.antt =====
-- A saved state has no changes, and the states that a manager holds stand under their paths.
use Prim.Native.String.{String}
use text.Mathlib.Text.{◌==◌ as str_eq}
use text.Mathlib.TextEquality.{eq_iff}
use text.Mathlib.TextPositions.{eq_refl}
use ani_vault.Base.{
  Option-cases, Bool-cases, inl, inr, ◌≡◌, refl, sym, ◌∙◌, Bool, true, false, Option, none, some,
  List, [], ◌∷◌, map, arith, length,
}
use ani_vault.Dict.{Dict, lookup, insert, values}
use ani_vault.Dict.Laws.{lookup-insert}
use ani_vault.IndexState.{
  FileState, is_empty, Disk, observe, put_observed, collect, is_file_modified, changed, Manager,
  get_changes, Write, written, not_opened, cut_off, save_state, load_entries, load_state, StateFile,
  entries, missing, denied, unreadable, misshapen,
}
use mathlib.Core.Path.{subst}
use ani_vault.IndexState.Changes.{
  IsKeyed, entry_at, or_else, observe-path, lookup-collect, collect-IsKeyed, get_changes-entry_at,
}

is_file_modified_self : (s : FileState) → is_file_modified s s ≡ false
unfolding is_file_modified
is_file_modified_self s = elim (Option-cases s.content_hash) [
  | inl e ↦ ground arith
  | inr (x, e) ↦ ground (arith, eq_refl x)
]

changed_self : (o : Option FileState) → changed o o ≡ none
unfolding changed
changed_self none = refl
changed_self (some s) = rw is_file_modified_self

-- A list that has a state for no path is empty.
empty_of_entry_at :
    (states : List FileState) → ((p : String) → entry_at p states ≡ none) → length states ≡ 0
unfolding entry_at
empty_of_entry_at [] h = refl
empty_of_entry_at (s ∷ states) h = ground (arith, h s.path, eq_refl s.path)

-- A manager that has what the disk has for every path sees no changes.
get_changes-is_empty :
    (m : Manager) (disk : Disk) (files : List String) (h : Bool)
    → IsKeyed m.previous_state
    → ((p : String) → lookup p m.previous_state ≡ lookup p (collect disk h files []))
    → is_empty (get_changes m disk files h) ≡ true
unfolding is_empty lookup
get_changes-is_empty m disk files h k same =
    let at = λ (p : String). get_changes-entry_at m disk files h p k in
    let stored = λ (p : String). same p ∙ lookup-collect disk h p files [] in
    let c = get_changes m disk files h in
    ground (
      arith,
      empty_of_entry_at c.added (λ p. ground (arith, (at p).0, stored p)),
      empty_of_entry_at c.removed (λ p. ground (arith, (at p).1, stored p)),
      empty_of_entry_at c.modified
          (λ p. ground (arith, (at p).2, stored p, changed_self (observe disk h p))),
    )

-- Each state stands under its own path, and no path twice.
IsFiled : Dict FileState → Type 0
unfolding lookup
IsFiled [] = Unit
IsFiled ((k, s) ∷ d) = (s.path ≡ k) × (lookup k d ≡ none) × IsFiled d

insert-IsFiled :
    (k : String) (s : FileState) (d : Dict FileState)
    → s.path ≡ k
    → IsFiled d
    → IsFiled (insert k s d)
unfolding IsFiled insert lookup
insert-IsFiled k s [] e h = (e, refl, tt)
insert-IsFiled k s ((j, t) ∷ d) e (f, new, h) = elim (Bool-cases (str_eq j k)) [
  | inl same ↦ rw same (e ∙ sym ((eq_iff j k).0 same), new, h)
  | inr other ↦ rw other (
    f,
    ground (arith, lookup-insert k j s d, new, eq_iff k j, eq_iff j k, other),
    insert-IsFiled k s d e h,
  )
]

put_observed-IsFiled :
    (disk : Disk) (h : Bool) (p : String) (o : Option FileState) (d : Dict FileState)
    → observe disk h p ≡ o
    → IsFiled d
    → IsFiled (put_observed p o d)
unfolding put_observed
put_observed-IsFiled disk h p none d e k = k
put_observed-IsFiled disk h p (some s) d e k = insert-IsFiled p s d (observe-path disk h p s e) k

collect-IsFiled :
    (disk : Disk) (h : Bool) (files : List String) (d : Dict FileState)
    → IsFiled d
    → IsFiled (collect disk h files d)
unfolding collect
collect-IsFiled disk h [] d k = k
collect-IsFiled disk h (f ∷ files) d k =
    let path = disk.resolve f in
    collect-IsFiled disk h files _ (put_observed-IsFiled disk h path (observe disk h path) d refl k)

-- What the loop over the entries of a written file makes of a dict.
load_entries-values :
    (d e : Dict FileState)
    → IsFiled d
    → (d' : Dict FileState) × (load_entries (map some (values d)) e ≡ some d')
      × ((p : String) → lookup p d' ≡ or_else (lookup p d) (lookup p e))
unfolding load_entries values lookup IsFiled
load_entries-values [] e h = (e, refl, λ p. refl)
load_entries-values ((k, s) ∷ d) e (f, new, h) =
    let (d', loaded, found) = load_entries-values d (insert s.path s e) h in
    (
      d',
      loaded,
      λ p. ground (arith, found p, lookup-insert s.path p s e, f, new, eq_iff k p, eq_iff s.path p),
    )

-- A saved state, and one read from a file, stand under their paths.
pub save_state-IsKeyed :
    (m : Manager) (disk : Disk) (write : Write) (before : StateFile) (files : List String)
    (h : Bool)
    → IsKeyed m.previous_state
    → IsKeyed (save_state m disk write before files h).0.previous_state
unfolding save_state
save_state-IsKeyed m disk written before files h k = collect-IsKeyed disk h files
save_state-IsKeyed m disk not_opened before files h k = k
save_state-IsKeyed m disk (cut_off left) before files h k = k

insert-IsKeyed : (s : FileState) (d : Dict FileState) → IsKeyed d → IsKeyed (insert s.path s d)
insert-IsKeyed s d k = record {
  keyed = λ p t e. ground (arith, lookup-insert s.path p s d, eq_iff s.path p, k.keyed p t);
}

nil-IsKeyed : IsKeyed []
unfolding lookup
nil-IsKeyed = record { keyed = λ p s e. cc }

load_entries-IsKeyed :
    (es : List (Option FileState)) (d d' : Dict FileState)
    → IsKeyed d
    → load_entries es d ≡ some d'
    → IsKeyed d'
unfolding load_entries
load_entries-IsKeyed [] d d' k e = let p : d ≡ d' = cc in subst IsKeyed p k
load_entries-IsKeyed (none ∷ es) d d' k e = cc
load_entries-IsKeyed (some s ∷ es) d d' k e =
    load_entries-IsKeyed es (insert s.path s d) d' (insert-IsKeyed s d k) e

Manager-IsKeyed :
    {d : Dict FileState} {m : Manager}
    → some (record { previous_state = d }) ≡ some m
    → IsKeyed d
    → IsKeyed m.previous_state
Manager-IsKeyed {d} {m} e k = let p : d ≡ m.previous_state = cc in subst IsKeyed p k

-- Every manager that the constructor makes holds its states under their own paths, whatever the
-- state file has: a file with a broken entry gives an empty state.
pub load_state-IsKeyed :
    (f : StateFile) (m : Manager) → load_state f ≡ some m → IsKeyed m.previous_state
unfolding load_state
load_state-IsKeyed missing m e = Manager-IsKeyed e nil-IsKeyed
load_state-IsKeyed denied m e = cc
load_state-IsKeyed misshapen m e = cc
load_state-IsKeyed unreadable m e = Manager-IsKeyed e nil-IsKeyed
load_state-IsKeyed (entries es) m e = elim (Option-cases (load_entries es [])) [
  | inl bad ↦ Manager-IsKeyed (rw (bad, load_state) at e) nil-IsKeyed
  | inr (d, good) ↦
      Manager-IsKeyed (rw (good, load_state) at e) (load_entries-IsKeyed es [] d nil-IsKeyed good)
]

or_else-none : (o : Option FileState) → or_else o none ≡ o
or_else-none none = refl
or_else-none (some s) = refl

load_state-entries :
    (es : List (Option FileState)) (d : Dict FileState)
    → load_entries es [] ≡ some d
    → load_state (entries es) ≡ some (record { previous_state = d })
unfolding load_state
load_state-entries es d e = rw (e, load_state) refl

-- After files were saved, and while the disk is as it was, the same files have no changes: not for
-- the manager that saved them, and not for a new one, which can be made of the written file.
pub get_changes-save_state :
    (m : Manager) (disk : Disk) (before : StateFile) (files : List String) (h : Bool)
    → (is_empty (get_changes (save_state m disk written before files h).0 disk files h) ≡ true)
      × ((m' : Manager) × (load_state (save_state m disk written before files h).1 ≡ some m')
          × (is_empty (get_changes m' disk files h) ≡ true))
unfolding save_state lookup IsFiled
get_changes-save_state m disk before files h =
    let current = collect disk h files [] in
    let (d', loaded, found) = load_entries-values current [] (collect-IsFiled disk h files [] tt) in
    let m' : Manager = record { previous_state = d' } in
    let loads = load_state-entries (map some (values current)) d' loaded in
    let same = λ (p : String). found p ∙ or_else-none (lookup p current) in
    (
      get_changes-is_empty (record { previous_state = current }) disk files h
          (collect-IsKeyed disk h files) (λ p. refl),
      (m', loads, get_changes-is_empty m' disk files h (load_state-IsKeyed _ m' loads) same),
    )
