-- ===== src/StatsUpdater.antt =====
-- `ThreadSafeStatsUpdater` of src/anivault/core/pipeline/utils/synchronization.py.
--
-- The updater takes a lock of either kind. The statistics object is one of any class: what
-- matters of it is which of the two counting methods it has, and the two counts that they raise.
-- The counting methods hold a lock of their own for one assignment and call nothing, so that lock
-- is free whenever they are called.
mod Tests
use ani_vault.Base.{
  ℕ, zero, suc, ◌+◌, ◌≡◌, ◌∙◌, ap, refl, Bool, true, false, ◌||◌, arith, if◌then◌else◌,
}
use ani_vault.Sync.{
  Guarded, Outcome, returned, raised, blocked, Method, release, with_lock, pure, ◌>>=◌, ◌>>◌, free,
  held,
}
use ani_vault.Sync.Laws.{>>-returned}

-- `threading.Lock` and `threading.RLock`
pub data LockKind : Type 0 where
  lock rlock : LockKind

pub data Error : Type 0 where
  attribute_error : Error

pub record Stats : Type 0 where
  pub has_increment_files_scanned : Bool
  pub has_increment_files : Bool
  pub has_increment_directories_scanned : Bool
  pub has_increment_directories : Bool
  pub files : ℕ
  pub directories : ℕ

-- with self._lock: body. A thread takes an `RLock` that it holds once more, and the lock is free
-- when the outermost block ends.
pub with_kind : {A : Type 0} → LockKind → Method Error Stats A → Method Error Stats A
unfolding with_lock release
with_kind lock body g = with_lock body g
with_kind rlock body g = if g.locked then body g else release (body (record g { locked = true }))

-- One round of the loop of `increment_files`.
unfoldable pub count_file : Method Error Stats Unit
count_file g =
    let s = g.object in
    if s.has_increment_files_scanned || s.has_increment_files
    then returned tt (record g { object = record s { files = suc s.files } })
    else raised attribute_error g

-- One round of the loop of `increment_directories`.
unfoldable pub count_directory : Method Error Stats Unit
count_directory g =
    let s = g.object in
    if s.has_increment_directories_scanned || s.has_increment_directories
    then returned tt (record g { object = record s { directories = suc s.directories } })
    else raised attribute_error g

-- for _ in range(count): body
pub repeat : ℕ → Method Error Stats Unit → Method Error Stats Unit
unfolding ◌>>◌ pure
repeat zero body = pure tt
repeat (suc n) body = body >> repeat n body

unfoldable pub increment_files : LockKind → ℕ → Method Error Stats Unit
unfolding with_kind repeat count_file
increment_files kind count = with_kind kind (repeat count count_file)

unfoldable pub increment_directories : LockKind → ℕ → Method Error Stats Unit
unfolding with_kind repeat count_directory
increment_directories kind count = with_kind kind (repeat count count_directory)

unfoldable pub update_files_and_directories : LockKind → ℕ → ℕ → Method Error Stats Unit
unfolding increment_files increment_directories with_kind ◌>>◌
update_files_and_directories kind files_count directories_count =
    with_kind kind do increment_files kind files_count; increment_directories kind directories_count

-- The object has a method that counts files, and one that counts directories.
pub record IsCountable (s : Stats) : Type 0 where
  pub counts_files : s.has_increment_files_scanned || s.has_increment_files ≡ true
  pub counts_directories : s.has_increment_directories_scanned || s.has_increment_directories ≡ true

count_file_lem :
    (g : Guarded Stats)
    → (g.object.has_increment_files_scanned || g.object.has_increment_files) ≡ true
    → count_file g
      ≡ returned tt (record g { object = record g.object { files = suc g.object.files } })
unfolding count_file
count_file_lem g h = ground arith

repeat-count_file :
    (n : ℕ) (g : Guarded Stats)
    → (g.object.has_increment_files_scanned || g.object.has_increment_files) ≡ true
    → repeat n count_file g
      ≡ returned tt (record g { object = record g.object { files = g.object.files + n } })
unfolding repeat
repeat-count_file zero g h = ground arith
repeat-count_file (suc n) g h =
    let g' : Guarded Stats = record g { object = record g.object { files = suc g.object.files } } in
    >>-returned count_file (repeat n count_file) g g' (count_file_lem g h)
    ∙ repeat-count_file n g' h
    ∙ ground arith

count_directory_lem :
    (g : Guarded Stats)
    → (g.object.has_increment_directories_scanned || g.object.has_increment_directories) ≡ true
    → count_directory g
      ≡ returned tt
          (record g { object = record g.object { directories = suc g.object.directories } })
unfolding count_directory
count_directory_lem g h = ground arith

repeat-count_directory :
    (n : ℕ) (g : Guarded Stats)
    → (g.object.has_increment_directories_scanned || g.object.has_increment_directories) ≡ true
    → repeat n count_directory g
      ≡ returned tt
          (record g { object = record g.object { directories = g.object.directories + n } })
unfolding repeat
repeat-count_directory zero g h = ground arith
repeat-count_directory (suc n) g h =
    let g' : Guarded Stats = record g {
      object = record g.object { directories = suc g.object.directories };
    } in
    >>-returned count_directory (repeat n count_directory) g g' (count_directory_lem g h)
    ∙ repeat-count_directory n g' h
    ∙ ground arith

-- On an object that counts both, and a free lock: with an `RLock` a joint update adds both
-- numbers and frees the lock; with a plain `Lock` it never returns, since its first step asks for
-- the lock that it holds, while each of the two single updates returns with either kind.
pub update-outcome :
    (s : Stats) (f d : ℕ)
    → IsCountable s
    → (update_files_and_directories rlock f d (free s)
        ≡ returned tt (free (record s { files = s.files + f; directories = s.directories + d })))
      × (update_files_and_directories lock f d (free s) ≡ blocked)
      × ((kind : LockKind)
          → increment_files kind f (free s) ≡ returned tt (free (record s { files = s.files + f })))
      × ((kind : LockKind)
          → increment_directories kind d (free s)
            ≡ returned tt (free (record s { directories = s.directories + d })))
unfolding update_files_and_directories increment_files increment_directories with_kind
update-outcome s f d c =
    let held_files = repeat-count_file f (held s) c.counts_files in
    let held_directories = repeat-count_directory d (held s) c.counts_directories in
    let s' : Stats = record s { files = s.files + f } in
    let last = repeat-count_directory d (held s') c.counts_directories in
    (
      ap release (
          >>-returned (increment_files rlock f) (increment_directories rlock d) (held s) (held s')
            held_files
          ∙ last),
      refl,
      λ kind. elim kind as (λ k. increment_files k f (free s) ≡ returned tt (free s')) [
        | lock ↦ ap release held_files
        | rlock ↦ ap release held_files
      ],
      λ kind.
          elim kind
            as (λ k.
              increment_directories k d (free s)
              ≡ returned tt (free (record s { directories = s.directories + d }))) [
                | lock ↦ ap release held_directories
                | rlock ↦ ap release held_directories
              ],
    )
