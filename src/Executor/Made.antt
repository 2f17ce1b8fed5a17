-- ===== src/Executor/Made.antt =====
-- The directories that the executor has made, and what it relies on to find them there.
use Prim.Native.String.{String}
use mathlib.Core.Path.{subst}
use ani_vault.Base.{arith, ◌≡◌, inl, inr, true, Bool-cases, List, ◌∷◌}
use ani_vault.Executor.{
  OperationType, move_file, copy_file, FileOperation, FileSystem, ok, State, transfer,
  perform_operation, prepare, contains, ensure_destination_directory,
}

module _ {W P : Type 0} (fs : FileSystem W P) where
  open fs use {same_path, parent, str, is_file, mkdir, move, copy}

  -- `mkdir(parents=True, exist_ok=True)` finds the directory there.
  abbrev pub IsMade : W → P → Type 0
  IsMade w d = mkdir d w ≡ (w, ok tt)

  -- What the batch relies on: a directory that `mkdir` has made is there, and neither `mkdir` nor
  -- the move or copy of a file removes a directory.
  pub record KeepsDirectories : Type 0 where
    pub same_path_eq : (p q : P) → same_path p q ≡ true → p ≡ q
    pub mkdir_makes : (d : P) (w : W) → (mkdir d w).1 ≡ ok tt → IsMade (mkdir d w).0 d
    pub mkdir_keeps : (d d' : P) (w : W) → IsMade w d → IsMade (mkdir d' w).0 d
    pub mkdir_keeps_file :
        (d p : P) (w : W) → is_file w p ≡ ok true → is_file (mkdir d w).0 p ≡ ok true
    pub move_keeps :
        (p d : P) (b : String) (w : W)
        → is_file w p ≡ ok true
        → IsMade w d
        → IsMade (move (str p) b w).0 d
    pub copy_keeps :
        (p d : P) (b : String) (w : W)
        → is_file w p ≡ ok true
        → IsMade w d
        → IsMade (copy (str p) b w).0 d

  -- Every directory of the set is there.
  unfoldable pub AllMade : W → List P → Type 0
  AllMade w ds = (d : P) → contains fs ds d ≡ true → IsMade w d

  module _ (laws : KeepsDirectories) where
    pub cons-AllMade :
        (d : P) (w : W) (ds : List P)
        → (mkdir d w).1 ≡ ok tt
        → AllMade w ds
        → AllMade (mkdir d w).0 (d ∷ ds)
    unfolding AllMade contains
    cons-AllMade d w ds e made x h = elim (Bool-cases (same_path d x)) [
      | inl same ↦
          subst (λ y. IsMade (mkdir d w).0 y) (laws.same_path_eq d x same) (laws.mkdir_makes d w e)
      | inr other ↦ laws.mkdir_keeps x d w (made x (ground (arith, other, h)))
    ]

    pub prepare-is_file :
        (op : FileOperation P) (s : State W P) (p : P)
        → is_file s.world p ≡ ok true
        → is_file (prepare fs op s).0.world p ≡ ok true
    unfolding prepare ensure_destination_directory
    prepare-is_file op s p h =
        ground (arith, laws.mkdir_keeps_file (parent op.destination_path) p s.world h)

    transfer_keeps :
        (t : OperationType) (p d : P) (b : String) (w : W)
        → is_file w p ≡ ok true
        → IsMade w d
        → IsMade (transfer fs t (str p) b w).0 d
    unfolding transfer
    transfer_keeps move_file p d b w file made = laws.move_keeps p d b w file made
    transfer_keeps copy_file p d b w file made = laws.copy_keeps p d b w file made

    pub perform-AllMade :
        (op : FileOperation P) (w : W) (ds : List P)
        → is_file w op.source_path ≡ ok true
        → AllMade w ds
        → AllMade (perform_operation fs op w).0 ds
    unfolding AllMade perform_operation
    perform-AllMade op w ds file made d h =
        transfer_keeps op.operation_type op.source_path d (str op.destination_path) w file
          (made d h)
