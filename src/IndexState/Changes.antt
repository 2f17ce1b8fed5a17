-- ===== src/IndexState/Changes.antt =====
-- What `get_changes` reports of each path.
use Prim.Native.String.{String}
use text.Mathlib.Text.{◌==◌ as str_eq}
use text.Mathlib.TextEquality.{eq_iff}
use ani_vault.Base.{
  Option-cases, inl, inr, ◌≡◌, refl, Bool, true, false, not, ◌&&◌, ◌||◌, Option, none, some, List,
  [], ◌∷◌, map, arith, if◌then◌else◌,
}
use ani_vault.Dict.{Dict, lookup, keys, contains, add, difference, intersection}
use ani_vault.Dict.Laws.{
  lookup-insert, contains-keys, contains-add, contains-difference, contains-intersection,
}
use ani_vault.IndexState.{
  FileState, Disk, observe, put_observed, collect, resolved_paths, select, changed, select_modified,
  Manager, get_changes,
}

-- Each state of the dict stands under its own path.
pub record IsKeyed (d : Dict FileState) : Type 0 where
  pub keyed : (p : String) (s : FileState) → lookup p d ≡ some s → s.path ≡ p

-- The state that a list of states has for a path.
unfoldable pub entry_at : String → List FileState → Option FileState
entry_at p [] = none
entry_at p (s ∷ states) = if str_eq s.path p then some s else entry_at p states

-- The path is that of one of the files.
abbrev pub mentioned : Disk → String → List String → Bool
mentioned disk p files = contains p (map disk.resolve files)

abbrev pub known : String → Dict FileState → Bool
known p d = elim (lookup p d) [ none ↦ false | some s ↦ true ]

contains-resolved_paths :
    (disk : Disk) (p : String) (files paths : List String)
    → contains p (resolved_paths disk files paths) ≡ (mentioned disk p files || contains p paths)
unfolding resolved_paths contains
contains-resolved_paths disk p [] paths = refl
contains-resolved_paths disk p (f ∷ files) paths = ground (
  arith,
  contains-resolved_paths disk p files (add (disk.resolve f) paths),
  contains-add (disk.resolve f) p paths,
)

abbrev pub or_else : Option FileState → Option FileState → Option FileState
or_else none o = o
or_else (some s) o = some s

lookup-put_observed :
    (p q : String) (o : Option FileState) (d : Dict FileState)
    → lookup p (put_observed q o d) ≡ (if str_eq q p then or_else o (lookup p d) else lookup p d)
unfolding put_observed
lookup-put_observed p q none d = ground arith
lookup-put_observed p q (some s) d = lookup-insert q p s d

pub lookup-collect :
    (disk : Disk) (h : Bool) (p : String) (files : List String) (d : Dict FileState)
    → lookup p (collect disk h files d)
      ≡ (if mentioned disk p files then or_else (observe disk h p) (lookup p d) else lookup p d)
unfolding collect contains
lookup-collect disk h p [] d = refl
lookup-collect disk h p (f ∷ files) d =
    let path = disk.resolve f in
    let d' = put_observed path (observe disk h path) d in
    ground (
      arith,
      lookup-collect disk h p files d',
      eq_iff path p,
      lookup-put_observed p path (observe disk h path) d,
    )

pub observe-path :
    (disk : Disk) (h : Bool) (p : String) (s : FileState) → observe disk h p ≡ some s → s.path ≡ p
unfolding observe
observe-path disk h p s e = ground arith

pub collect-IsKeyed :
    (disk : Disk) (h : Bool) (files : List String) → IsKeyed (collect disk h files [])
unfolding lookup
collect-IsKeyed disk h files = record {
  keyed = λ p s e. ground (arith, lookup-collect disk h p files [], observe-path disk h p s);
}

entry_at-select :
    (d : Dict FileState) (p : String) (paths : List String)
    → IsKeyed d
    → entry_at p (select d paths) ≡ (if contains p paths then lookup p d else none)
unfolding select contains entry_at
entry_at-select d p [] k = refl
entry_at-select d p (q ∷ paths) k = elim (Option-cases (lookup q d)) [
  | inl e ↦ ground (arith, entry_at-select d p paths k, eq_iff q p)
  | inr (s, e) ↦ ground (arith, entry_at-select d p paths k, eq_iff q p, k.keyed q s e)
]

changed-path :
    (o o' : Option FileState) (p : String) (s : FileState)
    → ((t : FileState) → o ≡ some t → t.path ≡ p)
    → changed o o' ≡ some s
    → s.path ≡ p
unfolding changed
changed-path none o' p s k h = ground arith
changed-path (some t) none p s k h = ground arith
changed-path (some t) (some u) p s k h = ground (arith, k t refl)

entry_at-select_modified :
    (d d' : Dict FileState) (p : String) (paths : List String)
    → IsKeyed d
    → entry_at p (select_modified d d' paths)
      ≡ (if contains p paths then changed (lookup p d) (lookup p d') else none)
unfolding select_modified contains entry_at
entry_at-select_modified d d' p [] k = refl
entry_at-select_modified d d' p (q ∷ paths) k =
    elim (Option-cases (changed (lookup q d) (lookup q d'))) [
      | inl e ↦ ground (arith, entry_at-select_modified d d' p paths k, eq_iff q p)
      | inr (s, e) ↦ ground (
        arith,
        entry_at-select_modified d d' p paths k,
        eq_iff q p,
        changed-path (lookup q d) (lookup q d') q s (k.keyed q) e,
      )
    ]

module _ (m : Manager) (disk : Disk) (files : List String) (h : Bool) (p : String) where
  -- For every path, a call of `get_changes` on a manager whose states stand under their paths
  -- reports: as added, the state on the disk, if a given file has the path and no saved state has
  -- it; as removed, the saved state, if no given file has the path; as modified, the state on the
  -- disk, if a given file has the path and the test for a modification finds that it differs from
  -- the saved state; and nothing else.
  pub get_changes-entry_at :
      IsKeyed m.previous_state
      → (entry_at p (get_changes m disk files h).added ≡ (
          if mentioned disk p files && not (known p m.previous_state)
          then observe disk h p
          else none))
        × (entry_at p (get_changes m disk files h).removed
            ≡ (if mentioned disk p files then none else lookup p m.previous_state))
        × (entry_at p (get_changes m disk files h).modified ≡ (
            if mentioned disk p files
            then changed (observe disk h p) (lookup p m.previous_state)
            else none))
  unfolding get_changes lookup contains changed
  get_changes-entry_at k =
      let previous = m.previous_state in
      let current = collect disk h files [] in
      let paths = resolved_paths disk files [] in
      let at_disk = lookup-collect disk h p files [] in
      let here = contains-resolved_paths disk p files [] in
      let saved = contains-keys p previous in
      let ck = collect-IsKeyed disk h files in
      (
        ground (
          arith,
          at_disk,
          here,
          saved,
          entry_at-select current p (difference paths (keys previous)) ck,
          contains-difference p paths (keys previous),
        ),
        ground (
          arith,
          here,
          saved,
          entry_at-select previous p (difference (keys previous) paths) k,
          contains-difference p (keys previous) paths,
        ),
        ground (
          arith,
          at_disk,
          here,
          saved,
          entry_at-select_modified current previous p (intersection paths (keys previous)) ck,
          contains-intersection p paths (keys previous),
        ),
      )
