-- ===== src/Executor/Outcomes.antt =====
-- The operations of core/models/file.py, and the exceptions of core/organizer/executor.py with
-- what its handlers make of them.
use Prim.Native.String.{String}
use ani_vault.Base.{Bool, true, false}

pub data OperationType : Type 0 where
  move_file copy_file : OperationType

pub record FileOperation (P : Type 0) : Type 0 where
  pub operation_type : OperationType
  pub source_path : P
  pub destination_path : P

-- The exceptions that the handlers tell apart; the first three are `OSError`s.
pub data Kind : Type 0 where
  file_not_found file_exists os_error value_error runtime_error : Kind

-- The messages of the executor's own exceptions, `plain` for those of the file system.
pub data Message (P : Type 0) : Type 0 where
  plain : String → Message P
  source_missing not_a_file parent_not_directory traversal : P → Message P
  resolution_failed : Message P → Message P
  directory_failed : P → Message P → Message P
  source_not_found already_exists : String → Message P
  io_error : OperationType → Message P → Message P

pub record Failure (P : Type 0) : Type 0 where
  pub kind : Kind
  pub message : Message P

abbrev pub fail : {P : Type 0} → Kind → Message P → Failure P
fail k m = record { kind = k; message = m }

pub data Outcome (P : Type 0) (A : Type 0) : Type 0 where
  ok : A → Outcome P A
  raised : Failure P → Outcome P A

infixl 5 ◌>>=◌ ◌>>◌
abbrev pub ◌>>=◌ :
    {P : Type 0} {A : Type 0} {B : Type 0} → Outcome P A → (A → Outcome P B) → Outcome P B
ok a >>= f = f a
raised e >>= f = raised e

abbrev pub ◌>>◌ : {P : Type 0} {A : Type 0} {B : Type 0} → Outcome P A → Outcome P B → Outcome P B
m >> k = m >>= λ _. k

abbrev pub guard : {P : Type 0} → Bool → Failure P → Outcome P (Unit {0})
guard true e = ok tt
guard false e = raised e

-- The exception of a `try` block, as its handlers replace it.
abbrev pub rewrap : {P : Type 0} {A : Type 0} → (Failure P → Failure P) → Outcome P A → Outcome P A
rewrap f (ok a) = ok a
rewrap f (raised e) = raised (f e)

-- `except (OSError, RuntimeError)` around the resolution of the two paths.
unfoldable pub resolution_failure : {P : Type 0} → Failure P → Failure P
resolution_failure e = elim (e.kind) [
  | value_error ↦ e
  | file_not_found ↦ fail os_error (resolution_failed e.message)
  | file_exists ↦ fail os_error (resolution_failed e.message)
  | os_error ↦ fail os_error (resolution_failed e.message)
  | runtime_error ↦ fail os_error (resolution_failed e.message)
]

unfoldable pub directory_failure : {P : Type 0} → P → Failure P → Failure P
directory_failure d e = elim (e.kind) [
  | value_error ↦ e
  | runtime_error ↦ e
  | file_not_found ↦ fail os_error (directory_failed d e.message)
  | file_exists ↦ fail os_error (directory_failed d e.message)
  | os_error ↦ fail os_error (directory_failed d e.message)
]

unfoldable pub transfer_failure :
    {P : Type 0} → OperationType → String → String → Failure P → Failure P
transfer_failure t source destination e = elim (e.kind) [
  | file_not_found ↦ fail file_not_found (source_not_found source)
  | file_exists ↦ fail file_exists (already_exists destination)
  | os_error ↦ fail os_error (io_error t e.message)
  | value_error ↦ e
  | runtime_error ↦ e
]

-- The clauses of `execute_batch` catch all but a `RuntimeError`.
abbrev pub caught : Kind → Bool
caught runtime_error = false
caught k = true
