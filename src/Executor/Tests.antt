-- ===== src/Executor/Tests.antt =====
-- The executor over a small disk with one directory, and its theorems at it.
use Prim.Native.String.{String}
use text.Mathlib.Text.{◌==◌ as str_eq}
use text.Mathlib.TextEquality.{eq_iff}
use ani_vault.Base.{
  arith, ◌≡◌, refl, ◌⊎◌, Bool, true, false, ◌||◌, if◌then◌else◌, List, [], ◌∷◌, none, some,
}
use ani_vault.Executor.{
  move_file, copy_file, FileOperation, FileSystem, Failure, fail, Outcome, ok, raised, State,
  file_not_found, os_error, value_error, plain, traversal, source_missing, OperationResult, execute,
  execute_each, execute_batch, validate_operation, failed, finished, simulated, transfer,
  ensure_destination_directory, resolution_failure,
}
use ani_vault.Executor.Safety.{IsSafe, execute-IsSafe}
use ani_vault.Executor.Caught.{RaisesCaught}
use ani_vault.Executor.Batch.{
  AreReports, execute_batch-AreReports, execute_batch-dry_run, execute_each-without, preview,
}
use ani_vault.Executor.Made.{KeepsDirectories}
use ani_vault.Executor.Directories.{execute_batch-plain}

-- The files, and whether the directory `out` has been made.
record Disk : Type 0 where
  files : List String
  made : Bool

abbrev has : List String → String → Bool
has [] p = false
has (x ∷ xs) p = str_eq x p || has xs p

abbrev without : List String → String → List String
without [] p = []
without (x ∷ xs) p = if str_eq x p then xs else x ∷ without xs p

abbrev make : String → Disk → Disk × Outcome String (Unit {0})
make d w =
    if str_eq d "out"
    then (record w { made = true }, ok tt)
    else (w, raised (fail os_error (plain "read-only")))

abbrev rename : String → String → Disk → Disk × Outcome String (Unit {0})
rename a b w =
    if has w.files a
    then (record w { files = b ∷ without w.files a }, ok tt)
    else (w, raised (fail file_not_found (plain "no such file")))

abbrev duplicate : String → String → Disk → Disk × Outcome String (Unit {0})
duplicate a b w =
    if has w.files a
    then (record w { files = b ∷ w.files }, ok tt)
    else (w, raised (fail file_not_found (plain "no such file")))

abbrev disk_system : FileSystem Disk String
disk_system = record {
  same_path = str_eq;
  parent = λ p. "out";
  has_parent_part = λ p. str_eq p "../c.mkv";
  str = λ p. p;
  exists = λ w p. ok (has w.files p || (if str_eq p "out" then w.made else false));
  is_file = λ w p. ok (has w.files p);
  is_dir = λ w p. ok (if str_eq p "out" then w.made else false);
  resolve = λ strict w p. ok p;
  mkdir = make;
  move = rename;
  copy = duplicate;
}

disk_system-RaisesCaught : RaisesCaught disk_system
disk_system-RaisesCaught = record {
  exists_caught = λ w p. refl;
  is_file_caught = λ w p. refl;
  is_dir_caught = λ w p. refl;
  mkdir_caught = λ p w. ground arith;
  move_caught = λ a b w. ground arith;
  copy_caught = λ a b w. ground arith;
}

disk_system-KeepsDirectories : KeepsDirectories disk_system
disk_system-KeepsDirectories = record {
  same_path_eq = λ p q h. (eq_iff p q).0 h;
  mkdir_makes = λ d w h. ground (arith, h);
  mkdir_keeps = λ d d' w h. ground (arith, h);
  mkdir_keeps_file = λ d p w h. ground (arith, h);
  move_keeps = λ p d b w file h. ground (arith, h);
  copy_keeps = λ p d b w file h. ground (arith, h);
}

abbrev move_a : FileOperation String
move_a = record {
  operation_type = move_file;
  source_path = "a.mkv";
  destination_path = "out/a.mkv";
}

abbrev move_missing : FileOperation String
move_missing = record {
  operation_type = move_file;
  source_path = "b.mkv";
  destination_path = "out/b.mkv";
}

abbrev move_outside : FileOperation String
move_outside = record {
  operation_type = copy_file;
  source_path = "c.mkv";
  destination_path = "../c.mkv";
}

abbrev copy_c : FileOperation String
copy_c = record {
  operation_type = copy_file;
  source_path = "c.mkv";
  destination_path = "out/c.mkv";
}

abbrev disk : Disk
disk = record { files = "a.mkv" ∷ "c.mkv" ∷ []; made = false }

abbrev batch : List (FileOperation String)
batch = move_a ∷ move_missing ∷ move_outside ∷ copy_c ∷ []

-- Two operations fail and the others are done.
batch_runs : execute_batch disk_system batch false disk ≡ (
  record {
    world = record { files = "out/c.mkv" ∷ "out/a.mkv" ∷ "c.mkv" ∷ []; made = true };
    created_dirs = some ("out" ∷ []);
  },
  ok (
      finished disk_system move_a ("a.mkv", "out/a.mkv")
      ∷ failed disk_system move_missing (fail file_not_found (source_missing "b.mkv"))
      ∷ failed disk_system move_outside (fail value_error (traversal "../c.mkv"))
      ∷ finished disk_system copy_c ("c.mkv", "out/c.mkv")
      ∷ []),
)
unfolding execute_batch ensure_destination_directory transfer resolution_failure
batch_runs = refl

execute-IsSafe_example :
    ((e : Failure String) × (execute disk_system move_outside false
          (record { world = disk; created_dirs = none })
        ≡ (record { world = disk; created_dirs = none }, raised e)))
    ⊎ IsSafe disk_system disk move_outside
execute-IsSafe_example =
    execute-IsSafe disk_system move_outside false (record { world = disk; created_dirs = none })

execute_batch-AreReports_example :
    (s : State Disk String) × (rs : List (OperationResult String)) × (execute_batch disk_system
        batch false disk
      ≡ (s, ok rs))
    × AreReports disk_system false batch rs
execute_batch-AreReports_example =
    execute_batch-AreReports disk_system disk_system-RaisesCaught batch false disk

dry_run_reports : execute_batch disk_system batch true disk ≡ (
  record { world = disk; created_dirs = some [] },
  ok (
      simulated disk_system move_a
      ∷ failed disk_system move_missing (fail file_not_found (source_missing "b.mkv"))
      ∷ failed disk_system move_outside (fail value_error (traversal "../c.mkv"))
      ∷ simulated disk_system copy_c
      ∷ []),
)
unfolding preview validate_operation resolution_failure
dry_run_reports = execute_batch-dry_run disk_system disk_system-RaisesCaught batch disk

abbrev start : State Disk String
start = record { world = disk; created_dirs = some [] }

abbrev after_a : State Disk String
after_a = record {
  world = record { files = "out/a.mkv" ∷ "c.mkv" ∷ []; made = true };
  created_dirs = some ("out" ∷ []);
}

abbrev after_c : State Disk String
after_c = record {
  world = record { files = "out/c.mkv" ∷ "out/a.mkv" ∷ "c.mkv" ∷ []; made = true };
  created_dirs = some ("out" ∷ []);
}

abbrev done_a : OperationResult String
done_a = finished disk_system move_a ("a.mkv", "out/a.mkv")

abbrev done_c : OperationResult String
done_c = finished disk_system copy_c ("c.mkv", "out/c.mkv")

moves_a : execute_each disk_system (move_a ∷ []) false start ≡ (after_a, ok (done_a ∷ []))
unfolding execute_each ensure_destination_directory transfer
moves_a = refl

copies_c : execute_each disk_system (copy_c ∷ []) false after_a ≡ (after_c, ok (done_c ∷ []))
unfolding execute_each transfer
copies_c = refl

refuses_outside :
    validate_operation disk_system move_outside after_a.world
    ≡ raised (fail value_error (traversal "../c.mkv"))
unfolding validate_operation resolution_failure
refuses_outside = refl

execute_each-without_example :
    (execute_each disk_system (move_a ∷ move_outside ∷ copy_c ∷ []) false start ≡ (
      after_c,
      ok (
          done_a
          ∷ failed disk_system move_outside (fail value_error (traversal "../c.mkv"))
          ∷ done_c
          ∷ []),
    ))
    × (execute_each disk_system (move_a ∷ copy_c ∷ []) false start
        ≡ (after_c, ok (done_a ∷ done_c ∷ [])))
execute_each-without_example =
    execute_each-without disk_system (move_a ∷ []) (copy_c ∷ []) move_outside false start after_a
      after_c (fail value_error (traversal "../c.mkv")) (done_a ∷ []) (done_c ∷ []) moves_a
      refuses_outside refl copies_c

execute_batch-plain_example :
    ((execute_batch disk_system batch false disk).0.world
      ≡ (execute_each disk_system batch false
          (record { world = disk; created_dirs = none })).0.world)
    × ((execute_batch disk_system batch false disk).1
        ≡ (execute_each disk_system batch false (record { world = disk; created_dirs = none })).1)
execute_batch-plain_example =
    execute_batch-plain disk_system disk_system-KeepsDirectories batch false disk
