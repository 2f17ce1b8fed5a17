-- ===== src/Executor/Caught.antt =====
-- The exceptions that a batch of the executor catches are all that its operations raise.
use Prim.Native.String.{String}
use ani_vault.Base.{arith, ◌≡◌, Bool, true}
use ani_vault.Executor.{
  OperationType, move_file, copy_file, FileOperation, FileSystem, Outcome, ok, raised, State,
  caught, validate_operation, execute, ensure_destination_directory, directory_failure,
  transfer_failure, transfer, perform_operation, perform, prepare, place, resolve_paths,
  resolution_failure, parent_is_usable, rewrap,
}

-- The batch goes on after this outcome.
abbrev pub is_caught : {P A : Type 0} → Outcome P A → Bool
is_caught (ok a) = true
is_caught (raised e) = caught e.kind

-- The file system raises what the documentation of `pathlib` and `shutil` names: an `OSError` or
-- a `ValueError`; only `resolve` may raise a `RuntimeError`.
pub record RaisesCaught {W P : Type 0} (fs : FileSystem W P) : Type 0 where
  pub exists_caught : (w : W) (p : P) → is_caught (fs.exists w p) ≡ true
  pub is_file_caught : (w : W) (p : P) → is_caught (fs.is_file w p) ≡ true
  pub is_dir_caught : (w : W) (p : P) → is_caught (fs.is_dir w p) ≡ true
  pub mkdir_caught : (p : P) (w : W) → is_caught (fs.mkdir p w).1 ≡ true
  pub move_caught : (a b : String) (w : W) → is_caught (fs.move a b w).1 ≡ true
  pub copy_caught : (a b : String) (w : W) → is_caught (fs.copy a b w).1 ≡ true

-- What the handlers around the resolution, the directory and the transfer let out.
rewrap-resolution_failure :
    {P A : Type 0} (o : Outcome P A) → is_caught (rewrap resolution_failure o) ≡ true
unfolding resolution_failure
rewrap-resolution_failure o = ground arith

rewrap-directory_failure :
    {P A : Type 0} (d : P) (o : Outcome P A)
    → is_caught o ≡ true
    → is_caught (rewrap (directory_failure d) o) ≡ true
unfolding directory_failure
rewrap-directory_failure d o h = ground arith

rewrap-transfer_failure :
    {P A : Type 0} (t : OperationType) (a b : String) (o : Outcome P A)
    → is_caught o ≡ true
    → is_caught (rewrap (transfer_failure t a b) o) ≡ true
unfolding transfer_failure
rewrap-transfer_failure t a b o h = ground arith

module _ {W P : Type 0} (fs : FileSystem W P) (r : RaisesCaught fs) where
  parent_is_usable-caught : (w : W) (d : P) → is_caught (parent_is_usable fs w d) ≡ true
  unfolding parent_is_usable
  parent_is_usable-caught w d = grind (arith, r.exists_caught w d, r.is_dir_caught w d)

  pub validate_operation-caught :
      (op : FileOperation P) (w : W) → is_caught (validate_operation fs op w) ≡ true
  unfolding validate_operation
  validate_operation-caught op w = ground (
    arith,
    r.exists_caught w op.source_path,
    r.is_file_caught w op.source_path,
    parent_is_usable-caught w (fs.parent op.destination_path),
    rewrap-resolution_failure (resolve_paths fs op w),
  )

  transfer-caught :
      (t : OperationType) (a b : String) (w : W) → is_caught (transfer fs t a b w).1 ≡ true
  unfolding transfer
  transfer-caught move_file a b w = r.move_caught a b w
  transfer-caught copy_file a b w = r.copy_caught a b w

  prepare-caught : (op : FileOperation P) (s : State W P) → is_caught (prepare fs op s).1 ≡ true
  unfolding prepare ensure_destination_directory
  prepare-caught op s =
      let d = fs.parent op.destination_path in
      ground (arith, rewrap-directory_failure d _ (r.mkdir_caught d s.world))

  perform-caught : (op : FileOperation P) (s : State W P) → is_caught (perform fs op s).1 ≡ true
  unfolding perform perform_operation
  perform-caught op s = ground (
    arith,
    rewrap-transfer_failure op.operation_type (fs.str op.source_path) (fs.str op.destination_path) _
        (transfer-caught op.operation_type (fs.str op.source_path) (fs.str op.destination_path)
          s.world),
  )

  place-caught : (op : FileOperation P) (s : State W P) → is_caught (place fs op s).1 ≡ true
  unfolding place
  place-caught op s = ground (arith, prepare-caught op s, perform-caught op (prepare fs op s).0)

  pub execute-caught :
      (op : FileOperation P) (dry_run : Bool) (s : State W P)
      → is_caught (execute fs op dry_run s).1 ≡ true
  unfolding execute
  execute-caught op dry_run s =
      ground (arith, validate_operation-caught op s.world, place-caught op s)
