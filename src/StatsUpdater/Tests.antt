-- ===== src/StatsUpdater/Tests.antt =====
-- The updater over `ScanStatistics`, which has the methods whose names end in `_scanned`.
use ani_vault.Base.{◌+◌, ◌≡◌, refl, true, false}
use ani_vault.Sync.{returned, blocked, free}
use ani_vault.StatsUpdater.{
  LockKind, lock, rlock, Stats, update_files_and_directories, increment_files,
  increment_directories, update-outcome,
}

abbrev scan_statistics : Stats
scan_statistics = record {
  has_increment_files_scanned = true;
  has_increment_files = false;
  has_increment_directories_scanned = true;
  has_increment_directories = false;
  files = 0;
  directories = 0;
}

update-outcome_example :
    (update_files_and_directories rlock 3 2 (free scan_statistics)
      ≡ returned tt (free (record scan_statistics { files = 0 + 3; directories = 0 + 2 })))
    × (update_files_and_directories lock 3 2 (free scan_statistics) ≡ blocked)
    × ((kind : LockKind)
        → increment_files kind 3 (free scan_statistics)
          ≡ returned tt (free (record scan_statistics { files = 0 + 3 })))
    × ((kind : LockKind)
        → increment_directories kind 2 (free scan_statistics)
          ≡ returned tt (free (record scan_statistics { directories = 0 + 2 })))
update-outcome_example =
    update-outcome scan_statistics 3 2 (record { counts_files = refl; counts_directories = refl })
