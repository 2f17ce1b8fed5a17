-- ===== src/Executor.antt =====
-- core/organizer/executor.py, and the operations of core/models/file.py that it executes. The file
-- system (`pathlib` and `shutil`) is a parameter over a world of files; an exception is a value
-- that keeps the changes made before it.
use Prim.Native.String.{String}
use ani_vault.Base.{
  Bool, true, false, not, ◌&&◌, ◌||◌, Option, none, some, List, [], ◌∷◌, if◌then◌else◌,
}
pub mod Outcomes
pub mod Safety
pub mod Caught
pub mod Batch
pub mod Steps
pub mod Made
pub mod Directories
pub mod Tests
unfoldable pub use Outcomes.*

-- What the code calls of `pathlib` and `shutil`: a question reads the world, a change writes it.
pub record FileSystem (W P : Type 0) : Type 0 where
  pub same_path : P → P → Bool
  pub parent : P → P
  pub has_parent_part : P → Bool
  pub str : P → String
  pub exists : W → P → Outcome P Bool
  pub is_file : W → P → Outcome P Bool
  pub is_dir : W → P → Outcome P Bool
  pub resolve : Bool → W → P → Outcome P P
  pub mkdir : P → W → W × Outcome P (Unit {0})
  pub move : String → String → W → W × Outcome P (Unit {0})
  pub copy : String → String → W → W × Outcome P (Unit {0})

pub record OperationResult (P : Type 0) : Type 0 where
  pub operation : FileOperation P
  pub success : Bool
  pub source_text : String
  pub destination_text : String
  pub message : Option (Message P)
  pub skipped : Bool

-- The world, and the set of directories that the batch has made, when there is one.
pub record State (W P : Type 0) : Type 0 where
  pub world : W
  pub created_dirs : Option (List P)

module _ {W P : Type 0} (fs : FileSystem W P) where
  open fs use {
    same_path, parent, has_parent_part, str, exists, is_file, is_dir, resolve, mkdir, move, copy,
  }

  unfoldable pub resolve_paths : FileOperation P → W → Outcome P (Unit {0})
  resolve_paths op w = do
    resolve true w op.source_path
    resolve false w op.destination_path
    guard (not (has_parent_part op.destination_path))
        (fail value_error (traversal op.destination_path))

  -- `destination_parent.exists() and not destination_parent.is_dir()`, tested from left to right.
  unfoldable pub parent_is_usable : W → P → Outcome P Bool
  parent_is_usable w d = exists w d >>= λ there. if there then is_dir w d else ok true

  unfoldable pub validate_operation : FileOperation P → W → Outcome P (Unit {0})
  unfolding resolve_paths parent_is_usable
  validate_operation op w = do
    there ← exists w op.source_path
    guard there (fail file_not_found (source_missing op.source_path))
    file ← is_file w op.source_path
    guard file (fail os_error (not_a_file op.source_path))
    usable ← parent_is_usable w (parent op.destination_path)
    guard usable (fail os_error (parent_not_directory (parent op.destination_path)))
    rewrap resolution_failure (resolve_paths op w)

  unfoldable pub ensure_destination_directory : P → W → W × Outcome P (Unit {0})
  ensure_destination_directory destination w =
      let d = parent destination in let (w', o) = mkdir d w in (w', rewrap (directory_failure d) o)

  unfoldable pub transfer : OperationType → String → String → W → W × Outcome P (Unit {0})
  transfer move_file = move
  transfer copy_file = copy

  unfoldable pub perform_operation : FileOperation P → W → W × Outcome P (String × String)
  perform_operation op w =
      let source = str op.source_path in
      let destination = str op.destination_path in
      let (w', o) = transfer op.operation_type source destination w in
      (
        w',
        rewrap (transfer_failure op.operation_type source destination) o >>= λ _.
            ok (source, destination),
      )

  -- Whether the directory of an operation is in the set.
  unfoldable pub contains : List P → P → Bool
  contains [] d = false
  contains (x ∷ xs) d = same_path x d || contains xs d

  -- The directory joins the set only when it was made without an exception.
  unfoldable pub record_directory : Option (List P) → P → Outcome P (Unit {0}) → Option (List P)
  record_directory (some ds) d (ok t) = some (d ∷ ds)
  record_directory (some ds) d (raised e) = some ds
  record_directory none d o = none

  unfoldable pub is_known : Option (List P) → P → Bool
  unfolding contains
  is_known none d = false
  is_known (some ds) d = contains ds d

  unfoldable pub prepare : FileOperation P → State W P → State W P × Outcome P (Unit {0})
  unfolding record_directory is_known
  prepare op s =
      let d = parent op.destination_path in
      let (w', o) = ensure_destination_directory op.destination_path s.world in
      if is_known s.created_dirs d
      then (s, ok tt)
      else (record { world = w'; created_dirs = record_directory s.created_dirs d o }, o)

  unfoldable pub simulated : FileOperation P → OperationResult P
  simulated op = record {
    operation = op;
    success = true;
    source_text = str op.source_path;
    destination_text = str op.destination_path;
    message = some (plain "Dry-run: validation passed");
    skipped = true;
  }

  unfoldable pub finished : FileOperation P → String × String → OperationResult P
  finished op (source, destination) = record {
    operation = op;
    success = true;
    source_text = source;
    destination_text = destination;
    message = none;
    skipped = false;
  }

  unfoldable pub failed : FileOperation P → Failure P → OperationResult P
  failed op e = record {
    operation = op;
    success = false;
    source_text = str op.source_path;
    destination_text = str op.destination_path;
    message = some e.message;
    skipped = false;
  }

  unfoldable pub perform : FileOperation P → State W P → State W P × Outcome P (OperationResult P)
  unfolding perform_operation finished
  perform op s =
      let (w', o) = perform_operation op s.world in
      (record s { world = w' }, o >>= λ texts. ok (finished op texts))

  unfoldable pub place : FileOperation P → State W P → State W P × Outcome P (OperationResult P)
  unfolding prepare perform
  place op s =
      let (s', o) = prepare op s in elim o [ ok t ↦ perform op s' | raised e ↦ (s', raised e) ]

  unfoldable pub execute :
      FileOperation P → Bool → State W P → State W P × Outcome P (OperationResult P)
  unfolding validate_operation simulated place
  execute op dry_run s = elim (validate_operation op s.world) [
    | raised e ↦ (s, raised e)
    | ok t ↦ if dry_run then (s, ok (simulated op)) else place op s
  ]

  -- The result that the batch records, or the exception that escapes it.
  unfoldable pub report :
      FileOperation P → Outcome P (OperationResult P) → Outcome P (OperationResult P)
  unfolding failed
  report op (ok r) = ok r
  report op (raised e) = if caught e.kind then ok (failed op e) else raised e

  unfoldable pub execute_each :
      List (FileOperation P) → Bool → State W P → State W P × Outcome P (List (OperationResult P))
  unfolding execute report
  execute_each [] dry_run s = (s, ok [])
  execute_each (op ∷ ops) dry_run s =
      let (s', o) = execute op dry_run s in
      let (s'', rest) = execute_each ops dry_run s' in
      elim (report op o) [ raised e ↦ (s', raised e) | ok r ↦ (s'', rest >>= λ rs. ok (r ∷ rs)) ]

  -- The logging at the end of a batch changes nothing.
  unfoldable pub execute_batch :
      List (FileOperation P) → Bool → W → State W P × Outcome P (List (OperationResult P))
  unfolding execute_each
  execute_batch ops dry_run w =
      execute_each ops dry_run (record { world = w; created_dirs = some [] })
