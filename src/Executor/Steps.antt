-- ===== src/Executor/Steps.antt =====
-- One step of each method of the executor, by its outcome.
use ani_vault.Base.{◌≡◌, refl, ap, ◌∙◌, Bool, List, ◌∷◌}
use ani_vault.Executor.{
  FileOperation, FileSystem, Failure, Outcome, ok, raised, State, OperationResult, execute, perform,
  prepare, place, report, execute_each, ◌>>=◌,
}

module _ {W P : Type 0} (fs : FileSystem W P) where
  pub place-ok :
      (op : FileOperation P) (s s' : State W P) {u : Unit {0}}
      → prepare fs op s ≡ (s', ok u)
      → place fs op s ≡ perform fs op s'
  unfolding place
  place-ok op s s' h =
      ap (λ q. elim (q.1) [ ok t ↦ perform fs op q.0 | raised e ↦ (q.0, raised e) ]) h

  pub place-raised :
      (op : FileOperation P) (s s' : State W P) (e : Failure P)
      → prepare fs op s ≡ (s', raised e)
      → place fs op s ≡ (s', raised e)
  unfolding place
  place-raised op s s' e h =
      ap (λ q. elim (q.1) [ ok t ↦ perform fs op q.0 | raised e ↦ (q.0, raised e) ]) h

  pub execute_each-raised :
      (op : FileOperation P) (ops : List (FileOperation P)) (dry_run : Bool) (s s' : State W P)
      (o : Outcome P (OperationResult P)) (e : Failure P)
      → execute fs op dry_run s ≡ (s', o)
      → report fs op o ≡ raised e
      → execute_each fs (op ∷ ops) dry_run s ≡ (s', raised e)
  unfolding execute_each
  execute_each-raised op ops dry_run s s' o e h is_raised =
      ap
        (λ q. elim (report fs op q.1) [
          | raised e ↦ (q.0, raised e)
          | ok r ↦
              let (s'', rest) = execute_each fs ops dry_run q.0 in (s'', rest >>= λ rs. ok (r ∷ rs))
        ])
        h
      ∙ rw is_raised refl

  pub execute_each-ok :
      (op : FileOperation P) (ops : List (FileOperation P)) (dry_run : Bool) (s s' s'' : State W P)
      (o : Outcome P (OperationResult P)) (r : OperationResult P)
      (rest : Outcome P (List (OperationResult P)))
      → execute fs op dry_run s ≡ (s', o)
      → report fs op o ≡ ok r
      → execute_each fs ops dry_run s' ≡ (s'', rest)
      → execute_each fs (op ∷ ops) dry_run s ≡ (s'', rest >>= λ rs. ok (r ∷ rs))
  unfolding execute_each
  execute_each-ok op ops dry_run s s' s'' o r rest h is_ok later =
      ap
        (λ q. elim (report fs op q.1) [
          | raised e ↦ (q.0, raised e)
          | ok r ↦
              let (s'', rest) = execute_each fs ops dry_run q.0 in (s'', rest >>= λ rs. ok (r ∷ rs))
        ])
        h
      ∙ rw (is_ok, later) refl
