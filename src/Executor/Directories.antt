-- ===== src/Executor/Directories.antt =====
-- The set of directories that a batch of the executor has made: it saves calls of `mkdir`, and
-- nothing else depends on it.
use mathlib.Core.Path.{subst}
use ani_vault.Base.{
  ◌≡◌, refl, sym, ap, ◌∙◌, inl, inr, Bool, true, false, Bool-cases, List, [], ◌∷◌, none, some,
}
use ani_vault.Executor.{
  FileOperation, FileSystem, Outcome, ok, raised, State, validate_operation, execute, simulated,
  perform_operation, perform, record_directory, prepare, place, report, contains, execute_each,
  execute_batch, ensure_destination_directory, directory_failure, ◌>>=◌,
}
use ani_vault.Executor.Safety.{outcome-cases, validate_operation-IsSafe}
use ani_vault.Executor.Made.{
  KeepsDirectories, AllMade, cons-AllMade, prepare-is_file, perform-AllMade,
}
use ani_vault.Executor.Steps.{place-ok, place-raised, execute_each-raised, execute_each-ok}

module _ {W P : Type 0} (fs : FileSystem W P) where
  open fs use {same_path, parent, str, is_file, mkdir, move, copy}

  abbrev cached : W → List P → State W P
  cached w ds = record { world = w; created_dirs = some ds }

  abbrev plain_state : W → State W P
  plain_state w = record { world = w; created_dirs = none }

  -- With the set and without it, the same world and the same outcome.
  record Together {A : Type 0} (a b : State W P × Outcome P A) : Type 0 where
    after : W
    dirs : List P
    outcome : Outcome P A
    with_set : a ≡ (cached after dirs, outcome)
    without_set : b ≡ (plain_state after, outcome)
    all_made : AllMade fs after dirs

  module _ (laws : KeepsDirectories fs) where
    prepare-Together :
        (op : FileOperation P) (w : W) (ds : List P)
        → AllMade fs w ds
        → Together (prepare fs op (cached w ds)) (prepare fs op (plain_state w))
    unfolding prepare AllMade ensure_destination_directory
    prepare-Together op w ds made =
        let d = parent op.destination_path in
        elim (Bool-cases (contains fs ds d)) [
          | inl known ↦ record {
            after = w;
            dirs = ds;
            outcome = ok tt;
            with_set = rw (known, prepare) refl;
            without_set = rw (made d known, prepare, ensure_destination_directory) refl;
            all_made = made;
          }
          | inr new ↦ elim (outcome-cases (mkdir d w).1) [
            | inl (u, e) ↦ record {
              after = (mkdir d w).0;
              dirs = d ∷ ds;
              outcome = ok tt;
              with_set = rw (new, e, prepare, record_directory) refl;
              without_set = rw e refl;
              all_made = cons-AllMade fs laws d w ds e made;
            }
            | inr (x, x_raised) ↦ record {
              after = (mkdir d w).0;
              dirs = ds;
              outcome = raised (directory_failure d x);
              with_set = rw (new, x_raised, prepare, record_directory) refl;
              without_set = rw x_raised refl;
              all_made = λ y h. laws.mkdir_keeps y d w (made y h);
            }
          ]
        ]

    place-Together :
        (op : FileOperation P) (w : W) (ds : List P)
        → is_file w op.source_path ≡ ok true
        → AllMade fs w ds
        → Together (place fs op (cached w ds)) (place fs op (plain_state w))
    unfolding place perform
    place-Together op w ds file made =
        let t = prepare-Together op w ds made in
        let still_file =
          subst (λ q. is_file q.0.world op.source_path ≡ ok true) t.with_set
            (prepare-is_file fs laws op (cached w ds) op.source_path file) in
        elim (outcome-cases t.outcome) [
          | inl (u, e) ↦ record {
            after = (perform_operation fs op t.after).0;
            dirs = t.dirs;
            outcome = (perform fs op (plain_state t.after)).1;
            with_set =
                place-ok fs op (cached w ds) (cached t.after t.dirs)
                  (t.with_set ∙ ap (λ o. (cached t.after t.dirs, o)) e);
            without_set =
                place-ok fs op (plain_state w) (plain_state t.after)
                  (t.without_set ∙ ap (λ o. (plain_state t.after, o)) e);
            all_made = perform-AllMade fs laws op t.after t.dirs still_file t.all_made;
          }
          | inr (x, e) ↦ record {
            after = t.after;
            dirs = t.dirs;
            outcome = raised x;
            with_set =
                place-raised fs op (cached w ds) (cached t.after t.dirs) x
                  (t.with_set ∙ ap (λ o. (cached t.after t.dirs, o)) e);
            without_set =
                place-raised fs op (plain_state w) (plain_state t.after) x
                  (t.without_set ∙ ap (λ o. (plain_state t.after, o)) e);
            all_made = t.all_made;
          }
        ]

    passed-Together :
        (op : FileOperation P) (dry_run : Bool) (w : W) (ds : List P) {u : Unit {0}}
        → validate_operation fs op w ≡ ok u
        → AllMade fs w ds
        → Together (execute fs op dry_run (cached w ds)) (execute fs op dry_run (plain_state w))
    unfolding execute
    passed-Together op true w ds e made = record {
      after = w;
      dirs = ds;
      outcome = ok (simulated fs op);
      with_set = rw (e, execute) refl;
      without_set = rw (e, execute) refl;
      all_made = made;
    }
    passed-Together op false w ds e made =
        let file = (validate_operation-IsSafe fs op w e).source_is_file in
        let t = place-Together op w ds file made in
        record {
          after = t.after;
          dirs = t.dirs;
          outcome = t.outcome;
          with_set = rw (e, t.with_set, execute) refl;
          without_set = rw (e, t.without_set, execute) refl;
          all_made = t.all_made;
        }

    execute-Together :
        (op : FileOperation P) (dry_run : Bool) (w : W) (ds : List P)
        → AllMade fs w ds
        → Together (execute fs op dry_run (cached w ds)) (execute fs op dry_run (plain_state w))
    unfolding execute
    execute-Together op dry_run w ds made = elim (outcome-cases (validate_operation fs op w)) [
      | inr (x, e) ↦ record {
        after = w;
        dirs = ds;
        outcome = raised x;
        with_set = rw (e, execute) refl;
        without_set = rw (e, execute) refl;
        all_made = made;
      }
      | inl (u, e) ↦ passed-Together op dry_run w ds e made
    ]

    execute_each-Together :
        (ops : List (FileOperation P)) (dry_run : Bool) (w : W) (ds : List P)
        → AllMade fs w ds
        → Together
            (execute_each fs ops dry_run (cached w ds))
            (execute_each fs ops dry_run (plain_state w))
    unfolding execute_each
    execute_each-Together [] dry_run w ds made = record {
      after = w;
      dirs = ds;
      outcome = ok [];
      with_set = refl;
      without_set = refl;
      all_made = made;
    }
    execute_each-Together (op ∷ ops) dry_run w ds made =
        let t = execute-Together op dry_run w ds made in
        let rest = execute_each-Together ops dry_run t.after t.dirs t.all_made in
        elim (outcome-cases (report fs op t.outcome)) [
          | inr (x, e) ↦ record {
            after = t.after;
            dirs = t.dirs;
            outcome = raised x;
            with_set =
                execute_each-raised fs op ops dry_run (cached w ds) (cached t.after t.dirs)
                  t.outcome x t.with_set e;
            without_set =
                execute_each-raised fs op ops dry_run (plain_state w) (plain_state t.after)
                  t.outcome x t.without_set e;
            all_made = t.all_made;
          }
          | inl (r, e) ↦ record {
            after = rest.after;
            dirs = rest.dirs;
            outcome = rest.outcome >>= λ rs. ok (r ∷ rs);
            with_set =
                execute_each-ok fs op ops dry_run (cached w ds) (cached t.after t.dirs)
                  (cached rest.after rest.dirs) t.outcome r rest.outcome t.with_set e rest.with_set;
            without_set =
                execute_each-ok fs op ops dry_run (plain_state w) (plain_state t.after)
                  (plain_state rest.after) t.outcome r rest.outcome t.without_set e
                  rest.without_set;
            all_made = rest.all_made;
          }
        ]

    -- The set of made directories is only a saving: over a file system where a directory once made
    -- stays while files are moved and copied, a batch leaves the world and the results that it
    -- would leave if each operation called `mkdir`.
    pub execute_batch-plain :
        (ops : List (FileOperation P)) (dry_run : Bool) (w : W)
        → ((execute_batch fs ops dry_run w).0.world
            ≡ (execute_each fs ops dry_run (record { world = w; created_dirs = none })).0.world)
          × ((execute_batch fs ops dry_run w).1
              ≡ (execute_each fs ops dry_run (record { world = w; created_dirs = none })).1)
    unfolding execute_batch AllMade contains
    execute_batch-plain ops dry_run w =
        let t = execute_each-Together ops dry_run w [] (λ d h. cc) in
        (
          ap (λ q. q.0.world) t.with_set ∙ sym (ap (λ q. q.0.world) t.without_set),
          ap (λ q. q.1) t.with_set ∙ sym (ap (λ q. q.1) t.without_set),
        )
