-- ===== src/DirectoryCache/Run.antt =====
-- Sequences of calls of the directory cache, and of the dict of directories that it stands for.
use Prim.Native.String.{String}
use ani_vault.Base.{ℕ, ◌≡◌, refl, ap, Bool, false, Option, none, some, List, [], ◌∷◌, length}
use ani_vault.LinkedHash.Assoc.{lookup, insert, remove}
use ani_vault.LinkedHash.Interface.{OrderedTable, IsDict}
use ani_vault.DirectoryCache.{
  DirectoryInfo, Manager, get_directory_data, update_directory_data, clear_cache, remove_directory,
  get_cache_size, is_directory_cached, is_close,
}

pub data Call (P : Type 0) : Type 0 where
  calls_get calls_remove : P → Call P
  calls_update : P → ℕ → List String → List String → Call P
  calls_is_cached : P → ℕ → Call P
  calls_clear calls_size : Call P

pub data Answer : Type 0 where
  nothing : Answer
  a_directory : Option DirectoryInfo → Answer
  a_flag : Bool → Answer
  a_number : ℕ → Answer

module _ {P : Type 0} (resolve : P → String) (millisecond : ℕ) where
  module _ (o : OrderedTable String DirectoryInfo) where
    answered : {A : Type 0} → (A → Answer) → Manager o → Option A → Option (Answer × Manager o)
    answered f m none = none
    answered f m (some a) = some (f a, m)

    changed : Option (Manager o) → Option (Answer × Manager o)
    changed none = none
    changed (some m) = some (nothing, m)

    unfoldable pub call : Call P → Manager o → Option (Answer × Manager o)
    unfolding answered changed
    call (calls_get p) m = answered a_directory m (get_directory_data o resolve p m)
    call (calls_remove p) m = changed (remove_directory o resolve p m)
    call (calls_update p mtime files subdirs) m =
        changed (update_directory_data o resolve p mtime files subdirs m)
    call (calls_is_cached p mtime) m =
        answered a_flag m (is_directory_cached o resolve millisecond p mtime m)
    call calls_clear m = some (nothing, clear_cache o m)
    call calls_size m = some (a_number (get_cache_size o m), m)

    unfoldable pub run_calls : List (Call P) → Manager o → Option (List Answer)
    unfolding call
    run_calls [] m = some []
    run_calls (c ∷ cs) m = elim (call c m) [
      | none ↦ none
      | some (a, m') ↦ elim (run_calls cs m') [ none ↦ none | some rest ↦ some (a ∷ rest) ]
    ]

    removes :
        (p : P) (m : Manager o) (r : Option DirectoryInfo × o.Store)
        → o.remove_key (resolve p) m.cache ≡ some r
        → remove_directory o resolve p m ≡ some (record m { cache = r.1 })
    unfolding remove_directory
    removes p m r e = rw (e, remove_directory) refl

    updates :
        (p : P) (i : DirectoryInfo) (m : Manager o) (r : Option DirectoryInfo × o.Store)
        → o.put_key (resolve p) i m.cache ≡ some r
        → update_directory_data o resolve p i.mtime i.files i.subdirs m
          ≡ some (record m { cache = r.1 })
    unfolding update_directory_data
    updates p i m r e = rw (e, update_directory_data) refl

  module _ (same : String → String → Bool) where
    -- A directory is unchanged if it is recorded with a modification time less than a millisecond
    -- away.
    unfoldable pub is_unchanged : Option DirectoryInfo → ℕ → Bool
    unfolding is_close
    is_unchanged none mtime = false
    is_unchanged (some i) mtime = is_close millisecond i.mtime mtime

    -- The same call of a dict from resolved paths to directories.
    unfoldable pub spec :
        Call P → List (String × DirectoryInfo) → Answer × List (String × DirectoryInfo)
    unfolding is_unchanged lookup insert remove
    spec (calls_get p) d = (a_directory (lookup same (resolve p) d), d)
    spec (calls_remove p) d = (nothing, remove same (resolve p) d)
    spec (calls_update p mtime files subdirs) d = (
      nothing,
      insert same (resolve p) (record { mtime = mtime; files = files; subdirs = subdirs }) d,
    )
    spec (calls_is_cached p mtime) d = (a_flag (is_unchanged (lookup same (resolve p) d) mtime), d)
    spec calls_clear d = (nothing, [])
    spec calls_size d = (a_number (length d), d)

    unfoldable pub spec_calls : List (Call P) → List (String × DirectoryInfo) → List Answer
    unfolding spec
    spec_calls [] d = []
    spec_calls (c ∷ cs) d = (spec c d).0 ∷ spec_calls cs (spec c d).1

    module _ (o : OrderedTable String DirectoryInfo) (laws : IsDict same o) where
      open laws use {Stands}

      is_directory_cached-is_unchanged :
          (p : P) (mtime : ℕ) (m : Manager o) (v : Option DirectoryInfo)
          → get_directory_data o resolve p m ≡ some v
          → is_directory_cached o resolve millisecond p mtime m ≡ some (is_unchanged v mtime)
      unfolding is_directory_cached is_unchanged
      is_directory_cached-is_unchanged p mtime m none h = rw (h, is_directory_cached) refl
      is_directory_cached-is_unchanged p mtime m (some i) h = rw (h, is_directory_cached) refl

      call-spec :
          (c : Call P) (m : Manager o) (d : List (String × DirectoryInfo))
          → Stands m.cache d
          → (m' : Manager o) × (call o c m ≡ some ((spec c d).0, m')) × Stands m'.cache (spec c d).1
      unfolding call spec answered changed get_directory_data remove_directory update_directory_data
          clear_cache get_cache_size
      call-spec (calls_get p) m d h = (m, rw (laws.get_stands (resolve p) m.cache d h) refl, h)
      call-spec (calls_remove p) m d h =
          let (t, e, stands) = laws.remove_stands (resolve p) m.cache d h in
          (record m { cache = t }, ap (changed o) (removes o p m _ e), stands)
      call-spec (calls_update p mtime files subdirs) m d h =
          let i : DirectoryInfo = record { mtime = mtime; files = files; subdirs = subdirs } in
          let (t, e, stands) = laws.put_stands (resolve p) i m.cache d h in
          (record m { cache = t }, ap (changed o) (updates o p i m _ e), stands)
      call-spec (calls_is_cached p mtime) m d h =
          let found = laws.get_stands (resolve p) m.cache d h in
          (m, ap (answered o a_flag m) (is_directory_cached-is_unchanged p mtime m _ found), h)
      call-spec calls_clear m d h = (clear_cache o m, refl, laws.new_stands)
      call-spec calls_size m d h =
          (m, ap (λ n. some (a_number n, m)) (laws.count_stands m.cache d h), h)

      -- Over any table that behaves as a dict, every sequence of calls of a cache that stands for a
      -- dict ends, and answers, call by call, what a dict from resolved paths to directories
      -- answers; a directory counts as cached when it is recorded with a modification time less
      -- than a millisecond away.
      pub run_calls-spec_calls :
          (cs : List (Call P)) (m : Manager o) (d : List (String × DirectoryInfo))
          → Stands m.cache d
          → run_calls o cs m ≡ some (spec_calls cs d)
      unfolding run_calls spec_calls
      run_calls-spec_calls [] m d h = refl
      run_calls-spec_calls (c ∷ cs) m d h =
          let (m', e, stands) = call-spec c m d h in
          rw (run_calls, e, run_calls-spec_calls cs m' (spec c d).1 stands) refl
