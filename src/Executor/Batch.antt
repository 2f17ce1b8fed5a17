-- ===== src/Executor/Batch.antt =====
-- What a batch of the executor reports, and what one operation's failure leaves of the others.
use ani_vault.Base.{
  arith, ◌≡◌, refl, inl, inr, ◌↔◌, Bool, true, false, not, ◌&&◌, List, [], ◌∷◌, ◌++◌, map, none,
  some,
}
use ani_vault.Executor.{
  FileOperation, FileSystem, Failure, ok, raised, State, OperationResult, caught,
  validate_operation, execute, perform_operation, perform, place, report, simulated, finished,
  failed, execute_each, execute_batch,
}
use ani_vault.Executor.Safety.{outcome-cases}
use ani_vault.Executor.Caught.{is_caught, RaisesCaught, validate_operation-caught, execute-caught}

module _ {W P : Type 0} (fs : FileSystem W P) where
  open fs use {str}

  -- The result is the operation's: its paths, skipped if it is a success of a dry run, and with a
  -- message unless it was done.
  pub record IsReport (dry_run : Bool) (op : FileOperation P) (r : OperationResult P) : Type 0 where
    pub same_operation : r.operation ≡ op
    pub same_source : r.source_text ≡ str op.source_path
    pub same_destination : r.destination_text ≡ str op.destination_path
    pub skipped_iff : r.skipped ≡ r.success && dry_run
    pub silent_iff : (r.message ≡ none) ↔ (r.success && not r.skipped ≡ true)

  -- One report for each operation, in their order.
  pub AreReports : Bool → List (FileOperation P) → List (OperationResult P) → Type 0
  AreReports dry_run [] [] = Unit
  AreReports dry_run [] (r ∷ rs) = ⊥
  AreReports dry_run (op ∷ ops) [] = ⊥
  AreReports dry_run (op ∷ ops) (r ∷ rs) = IsReport dry_run op r × AreReports dry_run ops rs

  place-IsReport :
      (op : FileOperation P) (s : State W P) (r : OperationResult P)
      → (place fs op s).1 ≡ ok r
      → IsReport false op r
  unfolding place perform perform_operation finished
  place-IsReport op s r h = ground arith

  execute-IsReport :
      (dry_run : Bool) (op : FileOperation P) (s : State W P) (r : OperationResult P)
      → (execute fs op dry_run s).1 ≡ ok r
      → IsReport dry_run op r
  unfolding execute simulated
  execute-IsReport true op s r h = ground arith
  execute-IsReport false op s r h = ground (arith, place-IsReport op s r)

  failed-IsReport :
      (dry_run : Bool) (op : FileOperation P) (e : Failure P) → IsReport dry_run op (failed fs op e)
  unfolding failed
  failed-IsReport dry_run op e = ground arith

  report-IsReport :
      (dry_run : Bool) (op : FileOperation P) (s : State W P)
      → is_caught (execute fs op dry_run s).1 ≡ true
      → (r : OperationResult P) × (report fs op (execute fs op dry_run s).1 ≡ ok r)
        × IsReport dry_run op r
  unfolding report
  report-IsReport dry_run op s h = elim (outcome-cases (execute fs op dry_run s).1) [
    | inl (r, e) ↦ (r, rw (e, report) refl, execute-IsReport dry_run op s r e)
    | inr (e, x) ↦
        (failed fs op e, rw (x, report) (ground (arith, x, h)), failed-IsReport dry_run op e)
  ]

  execute_each-AreReports :
      RaisesCaught fs
      → (dry_run : Bool) (ops : List (FileOperation P)) (s : State W P)
      → (s' : State W P) × (rs : List (OperationResult P)) × (execute_each fs ops dry_run s
          ≡ (s', ok rs))
        × AreReports dry_run ops rs
  unfolding execute_each AreReports
  execute_each-AreReports all_caught dry_run [] s = (s, [], refl, tt)
  execute_each-AreReports all_caught dry_run (op ∷ ops) s =
      let (r, e, is_report) =
        report-IsReport dry_run op s (execute-caught fs all_caught op dry_run s) in
      let (s', rs, h, are_reports) =
        execute_each-AreReports all_caught dry_run ops (execute fs op dry_run s).0 in
      (s', r ∷ rs, rw (e, h, execute_each) refl, (is_report, are_reports))

  -- A batch over a file system that raises only the exceptions the code catches ends, whichever
  -- of its operations fail, with one report for each operation, in their order.
  pub execute_batch-AreReports :
      RaisesCaught fs
      → (ops : List (FileOperation P)) (dry_run : Bool) (w : W)
      → (s : State W P) × (rs : List (OperationResult P)) × (execute_batch fs ops dry_run w
          ≡ (s, ok rs))
        × AreReports dry_run ops rs
  unfolding execute_batch
  execute_batch-AreReports all_caught ops dry_run w =
      execute_each-AreReports all_caught dry_run ops _

  -- What a dry run says of one operation.
  unfoldable pub preview : FileOperation P → W → OperationResult P
  preview op w = elim (validate_operation fs op w) [
    | ok t ↦ simulated fs op
    | raised e ↦ failed fs op e
  ]

  execute-preview :
      (op : FileOperation P) (s : State W P)
      → is_caught (validate_operation fs op s.world) ≡ true
      → ((execute fs op true s).0 ≡ s)
        × (report fs op (execute fs op true s).1 ≡ ok (preview op s.world))
  unfolding execute report preview
  execute-preview op s h = ground (arith, h)

  execute_each-cons :
      (op : FileOperation P) (ops : List (FileOperation P)) (dry_run : Bool) (s s' : State W P)
      (r : OperationResult P) (rs : List (OperationResult P))
      → report fs op (execute fs op dry_run s).1 ≡ ok r
      → execute_each fs ops dry_run (execute fs op dry_run s).0 ≡ (s', ok rs)
      → execute_each fs (op ∷ ops) dry_run s ≡ (s', ok (r ∷ rs))
  unfolding execute_each
  execute_each-cons op ops dry_run s s' r rs e h = rw (e, h, execute_each) refl

  execute_each-dry :
      RaisesCaught fs
      → (ops : List (FileOperation P)) (s : State W P)
      → execute_each fs ops true s ≡ (s, ok (map (λ op. preview op s.world) ops))
  unfolding execute_each
  execute_each-dry all_caught [] s = refl
  execute_each-dry all_caught (op ∷ ops) s =
      let (same, e) = execute-preview op s (validate_operation-caught fs all_caught op s.world) in
      execute_each-cons op ops true s s (preview op s.world) _ e
        (rw same (execute_each-dry all_caught ops s))

  -- A dry run changes nothing, and says of each operation whether it passes validation in the
  -- world as it is, whatever the others would do.
  pub execute_batch-dry_run :
      RaisesCaught fs
      → (ops : List (FileOperation P)) (w : W)
      → execute_batch fs ops true w
        ≡ (record { world = w; created_dirs = some [] }, ok (map (λ op. preview op w) ops))
  unfolding execute_batch
  execute_batch-dry_run all_caught ops w = execute_each-dry all_caught ops _

  execute_each-uncons :
      (op : FileOperation P) (ops : List (FileOperation P)) (dry_run : Bool) (s s' : State W P)
      (rs : List (OperationResult P))
      → execute_each fs (op ∷ ops) dry_run s ≡ (s', ok rs)
      → (r : OperationResult P) × (rest : List (OperationResult P)) × (rs ≡ r ∷ rest)
        × (report fs op (execute fs op dry_run s).1 ≡ ok r)
        × (execute_each fs ops dry_run (execute fs op dry_run s).0 ≡ (s', ok rest))
  unfolding execute_each
  execute_each-uncons op ops dry_run s s' rs h =
      elim (outcome-cases (report fs op (execute fs op dry_run s).1)) [
        | inl (r, e) ↦
            elim (outcome-cases (execute_each fs ops dry_run (execute fs op dry_run s).0).1) [
              | inl (rest, f) ↦ (r, rest, ground arith, e, ground arith)
              | inr (x, f) ↦ ground arith
            ]
        | inr (x, e) ↦ ground arith
      ]

  execute_each-append :
      (xs ys : List (FileOperation P)) (dry_run : Bool) (s s1 s2 : State W P)
      (rs rs' : List (OperationResult P))
      → execute_each fs xs dry_run s ≡ (s1, ok rs)
      → execute_each fs ys dry_run s1 ≡ (s2, ok rs')
      → execute_each fs (xs ++ ys) dry_run s ≡ (s2, ok (rs ++ rs'))
  unfolding execute_each
  execute_each-append [] ys dry_run s s1 s2 rs rs' before after = grind (arith, before, after)
  execute_each-append (x ∷ xs) ys dry_run s s1 s2 rs rs' before after =
      let (r, rest, same, e, h) = execute_each-uncons x xs dry_run s s1 rs before in
      let later =
        execute_each-append xs ys dry_run (execute fs x dry_run s).0 s1 s2 rest rs' h after in
      rw same (execute_each-cons x (xs ++ ys) dry_run s s2 r (rest ++ rs') e later)

  -- An operation that fails validation with an exception the code catches does not disturb the
  -- others: the batch around it does what it does without it, and reports the failure in its place.
  pub execute_each-without :
      (xs ys : List (FileOperation P)) (op : FileOperation P) (dry_run : Bool) (s s1 s2 : State W P)
      (e : Failure P) (rs rs' : List (OperationResult P))
      → execute_each fs xs dry_run s ≡ (s1, ok rs)
      → validate_operation fs op s1.world ≡ raised e
      → caught e.kind ≡ true
      → execute_each fs ys dry_run s1 ≡ (s2, ok rs')
      → (execute_each fs (xs ++ op ∷ ys) dry_run s ≡ (s2, ok (rs ++ failed fs op e ∷ rs')))
        × (execute_each fs (xs ++ ys) dry_run s ≡ (s2, ok (rs ++ rs')))
  unfolding execute_each execute report
  execute_each-without xs ys op dry_run s s1 s2 e rs rs' before invalid is_caught after = (
    execute_each-append xs (op ∷ ys) dry_run s s1 s2 rs (failed fs op e ∷ rs') before (
        execute_each-cons op ys dry_run s1 s2 (failed fs op e) rs'
          (rw (invalid, report, execute) (ground (arith, is_caught)))
          (rw (invalid, execute) after)),
    execute_each-append xs ys dry_run s s1 s2 rs rs' before after,
  )
