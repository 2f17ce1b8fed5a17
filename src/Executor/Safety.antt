-- ===== src/Executor/Safety.antt =====
-- What an operation of the executor has passed before it changes anything.
use ani_vault.Base.{arith, ◌≡◌, refl, ◌⊎◌, inl, inr, Bool, true, false}
use ani_vault.Executor.{
  FileOperation, FileSystem, Failure, Outcome, ok, raised, State, resolve_paths, parent_is_usable,
  validate_operation, execute,
}

-- The result of a call, with its equation.
pub outcome-cases :
    {P A : Type 0} (o : Outcome P A) → ((a : A) × (o ≡ ok a)) ⊎ ((e : Failure P) × (o ≡ raised e))
outcome-cases (ok a) = inl (a, refl)
outcome-cases (raised e) = inr (e, refl)

module _ {W P : Type 0} (fs : FileSystem W P) where
  open fs use {parent, has_parent_part, exists, is_file, is_dir}

  -- The operation may be done in this world.
  pub record IsSafe (w : W) (op : FileOperation P) : Type 0 where
    pub source_exists : exists w op.source_path ≡ ok true
    pub source_is_file : is_file w op.source_path ≡ ok true
    pub parent_not_a_file :
        (exists w (parent op.destination_path) ≡ ok false)
        ⊎ (is_dir w (parent op.destination_path) ≡ ok true)
    pub stays_inside : has_parent_part op.destination_path ≡ false

  parent_is_usable_lem :
      (w : W) (d : P)
      → parent_is_usable fs w d ≡ ok true
      → (exists w d ≡ ok false) ⊎ (is_dir w d ≡ ok true)
  unfolding parent_is_usable
  parent_is_usable_lem w d h = ground arith

  pub validate_operation-IsSafe :
      (op : FileOperation P) (w : W) {u : Unit {0}}
      → validate_operation fs op w ≡ ok u
      → IsSafe w op
  unfolding validate_operation resolve_paths
  validate_operation-IsSafe op w h =
      let usable = parent_is_usable_lem w (parent op.destination_path) in ground (arith, usable)

  -- An operation whose source is missing or is not a file, whose destination's parent exists and
  -- is not a directory, or whose destination has a `..` part, raises an exception and changes
  -- neither the files nor the set of made directories: every operation that does more than this
  -- is safe where it starts.
  pub execute-IsSafe :
      (op : FileOperation P) (dry_run : Bool) (s : State W P)
      → ((e : Failure P) × (execute fs op dry_run s ≡ (s, raised e))) ⊎ IsSafe s.world op
  unfolding execute
  execute-IsSafe op dry_run s = elim (outcome-cases (validate_operation fs op s.world)) [
    | inl (u, e) ↦ inr (validate_operation-IsSafe op s.world e)
    | inr (e, h) ↦ inl (e, rw (h, execute) refl)
  ]
