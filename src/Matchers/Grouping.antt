-- ===== src/Matchers/Grouping.antt =====
-- What grouping under keys leaves: under each key its items, in their order.
use Prim.Native.String.{String}
use text.Mathlib.Text.{◌==◌}
use text.Mathlib.TextEquality.{eq_iff}
use mathlib.Core.List.{append_assoc, append-nil}
use ani_vault.Base.{
  ◌≡◌, refl, ap, sym, ◌∙◌, Bool, true, false, Option, none, some, List, [], ◌∷◌, ◌++◌,
  if◌then◌else◌,
}
use ani_vault.LinkedHash.Assoc.{lookup, insert, lookup-insert, lookup_with_same, Distinct}
use ani_vault.LinkedHash.Interface.{OrderedTable, IsDict}
use ani_vault.Matchers.{appended, table_after, add_to_group, add_all, groups_of}

module _ {X : Type 0} where
  -- The items under a key, if there are any.
  unfoldable pub members : String → List (String × X) → List X
  members k [] = []
  members k ((j, x) ∷ rest) = let more = members k rest in if j == k then x ∷ more else more

  unfoldable pub under : String → List (String × X) → Option (List X)
  unfolding members
  under k keyed = elim (members k keyed) [ [] ↦ none | x ∷ xs ↦ some (x ∷ xs) ]

  unfoldable extended : Option (List X) → List X → Option (List X)
  extended none [] = none
  extended none (x ∷ xs) = some (x ∷ xs)
  extended (some ys) xs = some (ys ++ xs)

  extended_after :
      (o : Option (List X)) (x : X) (xs : List X)
      → extended (some (appended x o)) xs ≡ extended o (x ∷ xs)
  unfolding extended
  extended_after none x xs = refl
  extended_after (some []) x xs = refl
  extended_after (some (y ∷ ys)) x xs = ap some (append_assoc (y ∷ ys) (x ∷ []) xs)

  extended_if :
      (b : Bool) (o : Option (List X)) (x : X) (xs : List X)
      → extended (if b then some (appended x o) else o) xs ≡ extended o (if b then x ∷ xs else xs)
  extended_if true o x xs = extended_after o x xs
  extended_if false o x xs = refl

  extended_nil : (o : Option (List X)) → o ≡ extended o []
  unfolding extended
  extended_nil none = refl
  extended_nil (some ys) = ap some (sym (append-nil ys))

  nonempty : (xs : List X) → extended none xs ≡ elim xs [ [] ↦ none | x ∷ xs ↦ some (x ∷ xs) ]
  unfolding extended
  nonempty [] = refl
  nonempty (x ∷ xs) = refl

  extended_nothing :
      (k : String) (keyed : List (String × X)) → extended none (members k keyed) ≡ under k keyed
  unfolding extended under
  extended_nothing k keyed = nonempty (members k keyed)

  -- The dict of the groups.
  unfoldable pub grouped : List (String × X) → List (String × List X) → List (String × List X)
  unfolding lookup insert
  grouped [] d = d
  grouped ((k, x) ∷ rest) d = grouped rest (insert ◌==◌ k (appended x (lookup ◌==◌ k d)) d)

  lookup-grouped :
      (k : String) (keyed : List (String × X)) (d : List (String × List X))
      → lookup ◌==◌ k (grouped keyed d) ≡ extended (lookup ◌==◌ k d) (members k keyed)
  unfolding grouped members extended
  lookup-grouped k [] d = extended_nil (lookup ◌==◌ k d)
  lookup-grouped k ((j, x) ∷ rest) d =
      let again = lookup-grouped k rest (insert ◌==◌ j (appended x (lookup ◌==◌ j d)) d) in
      let put =
        lookup-insert ◌==◌ eq_iff j k (appended x (lookup ◌==◌ j d)) d
        ∙ lookup_with_same ◌==◌ eq_iff (λ o. some (appended x o)) (lookup ◌==◌ k d) j k d in
      again
      ∙ ap (λ o. extended o (members k rest)) put
      ∙ extended_if (j == k) (lookup ◌==◌ k d) x (members k rest)

  module _ (o : OrderedTable String (List X)) (laws : IsDict ◌==◌ o) where
    add_to_group-insert :
        (k : String) (x : X) (t : o.Store) (d : List (String × List X))
        → laws.Stands t d
        → (t' : o.Store) × (add_to_group o k x t ≡ some t')
          × laws.Stands t' (insert ◌==◌ k (appended x (lookup ◌==◌ k d)) d)
    unfolding add_to_group
    add_to_group-insert k x t d h =
        let found = laws.get_stands k t d h in
        let (t', put, h') = laws.put_stands k (appended x (lookup ◌==◌ k d)) t d h in
        (t', rw (found, add_to_group) (ap table_after put), h')

    add_all-cons :
        (k : String) (x : X) (rest : List (String × X)) (t t' : o.Store)
        → add_to_group o k x t ≡ some t'
        → add_all o ((k, x) ∷ rest) t ≡ add_all o rest t'
    unfolding add_all
    add_all-cons k x rest t t' e = rw (e, add_all) refl

    add_all-grouped :
        (keyed : List (String × X)) (t : o.Store) (d : List (String × List X))
        → laws.Stands t d
        → (t' : o.Store) × (add_all o keyed t ≡ some t') × laws.Stands t' (grouped keyed d)
    unfolding add_all grouped
    add_all-grouped [] t d h = (t, refl, h)
    add_all-grouped ((k, x) ∷ rest) t d h =
        let (t', added, h') = add_to_group-insert k x t d h in
        let (t'', ran, h'') = add_all-grouped rest t' _ h' in
        (t'', add_all-cons k x rest t t' added ∙ ran, h'')

    -- The groups are those of the keys, each key once.
    pub groups_of-under :
        (keyed : List (String × X))
        → (groups_of o keyed ≡ some (grouped keyed []))
          × Distinct ◌==◌ (grouped keyed [])
          × ((k : String) → lookup ◌==◌ k (grouped keyed []) ≡ under k keyed)
    unfolding groups_of extended lookup
    groups_of-under keyed =
        let (t, ran, h) = add_all-grouped keyed o.new [] laws.new_stands in
        (
          rw (ran, groups_of) (laws.items_stands t (grouped keyed []) h),
          laws.distinct_stands t (grouped keyed []) h,
          λ k. lookup-grouped k keyed [] ∙ extended_nothing k keyed,
        )
