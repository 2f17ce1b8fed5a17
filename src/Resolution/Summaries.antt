-- ===== src/Resolution/Summaries.antt =====
-- What the loop over the titles leaves in the table of summaries.
use Prim.Native.String.{String}
use text.Mathlib.Text.{◌==◌}
use text.Mathlib.TextEquality.{eq_iff}
use ani_vault.Base.{
  chosen, passed, arith, ℕ, ◌≡◌, refl, ap, sym, ◌∙◌, Bool, true, false, Option, none, some, List,
  [], ◌∷◌, if◌then◌else◌, ◌⊎◌, Bool-cases, inl, inr,
}
use ani_vault.LinkedHash.Assoc.{lookup, insert, lookup-insert, Distinct}
use ani_vault.LinkedHash.Interface.{OrderedTable, IsDict}
use ani_vault.Resolution.{
  Resolutions, ResolutionSummary, or_zero, summary, value_error, analyzed, summarize,
}

-- The dict that the table stands for.
unfoldable pub sum_dict :
    (String → ℕ)
    → List (String × Resolutions)
    → List (String × ResolutionSummary)
    → List (String × ResolutionSummary)
unfolding insert
sum_dict f [] d = d
sum_dict f ((t, s) ∷ rest) d = sum_dict f rest (insert ◌==◌ t (summary t s (f t)) d)

unfoldable pub summed :
    (String → ℕ) → String → Option ResolutionSummary → Option Resolutions → Option ResolutionSummary
summed f t before none = before
summed f t before (some s) = some (summary t s (f t))

pub lookup-sum_dict :
    (f : String → ℕ) (t : String) (items : List (String × Resolutions))
    (d : List (String × ResolutionSummary))
    → Distinct ◌==◌ items
    → lookup ◌==◌ t (sum_dict f items d) ≡ summed f t (lookup ◌==◌ t d) (lookup ◌==◌ t items)
unfolding sum_dict summed Distinct lookup
lookup-sum_dict f t [] d h = refl
lookup-sum_dict f t ((k, s) ∷ rest) d (new, h) =
    let again = lookup-sum_dict f t rest (insert ◌==◌ k (summary k s (f k)) d) h in
    let put = lookup-insert ◌==◌ eq_iff k t (summary k s (f k)) d in
    elim (Bool-cases (k == t)) [
      | inl e ↦
          let same = (eq_iff k t).0 e in
          let kept : lookup ◌==◌ t (insert ◌==◌ k (summary k s (f k)) d)
              ≡ some (summary t s (f t)) =
            put ∙ chosen _ _ e ∙ ap (λ j. some (summary j s (f j))) same in
          again
          ∙ ap (λ o. summed f t o (lookup ◌==◌ t rest)) kept
          ∙ ap (summed f t (some (summary t s (f t))))
              (sym (ap (λ j. lookup ◌==◌ j rest) same) ∙ new)
          ∙ sym (ap (λ o. summed f t (lookup ◌==◌ t d) o) (chosen _ _ e))
      | inr e ↦
          again
          ∙ ap (λ o. summed f t o (lookup ◌==◌ t rest)) (put ∙ passed _ _ e)
          ∙ sym (ap (λ o. summed f t (lookup ◌==◌ t d) o) (passed _ _ e))
    ]

-- Whether a title is empty.
unfoldable pub has_empty : List (String × Resolutions) → Bool
has_empty [] = false
has_empty ((t, s) ∷ rest) = if t == "" then true else has_empty rest

pub has_empty-lookup :
    (items : List (String × Resolutions))
    → has_empty items ≡ elim (lookup ◌==◌ "" items) [ none ↦ false | some s ↦ true ]
unfolding has_empty lookup
has_empty-lookup [] = refl
has_empty-lookup ((t, s) ∷ rest) = ground (arith, has_empty-lookup rest)

module _ (counts : OrderedTable String ℕ) (sums : OrderedTable String ResolutionSummary)
    (counts_laws : IsDict ◌==◌ counts) (sums_laws : IsDict ◌==◌ sums) where
  summarize_again :
      (t : String) (s : Resolutions) (rest : List (String × Resolutions)) (n : counts.Store)
      (u u' : sums.Store) (o : Option ℕ) (old : Option ResolutionSummary)
      → (t == "") ≡ false
      → counts.get_key t n ≡ some o
      → sums.put_key t (summary t s (or_zero o)) u ≡ some (old, u')
      → summarize counts sums ((t, s) ∷ rest) n u ≡ summarize counts sums rest n u'
  unfolding summarize
  summarize_again t s rest n u u' o old named found put =
      rw (found, summarize) (rw (named, put) refl)

  summarize_empty :
      (t : String) (s : Resolutions) (rest : List (String × Resolutions)) (n : counts.Store)
      (u : sums.Store) (o : Option ℕ)
      → (t == "") ≡ true
      → counts.get_key t n ≡ some o
      → summarize counts sums ((t, s) ∷ rest) n u ≡ value_error
  unfolding summarize
  summarize_empty t s rest n u o empty found = rw (found, summarize) (rw empty refl)

  -- A title that is empty raises; else the loop ends and leaves a table that stands for the dict.
  pub summarize-dict :
      (items : List (String × Resolutions)) (n : counts.Store) (u : sums.Store)
      (e : List (String × ℕ)) (d : List (String × ResolutionSummary))
      → counts_laws.Stands n e
      → sums_laws.Stands u d
      → ((has_empty items ≡ true) × (summarize counts sums items n u ≡ value_error))
        ⊎ ((has_empty items ≡ false)
            × ((u' : sums.Store) × (summarize counts sums items n u ≡ analyzed u')
                × sums_laws.Stands u' (sum_dict (λ t. or_zero (lookup ◌==◌ t e)) items d)))
  unfolding summarize sum_dict has_empty
  summarize-dict [] n u e d h k = inr (refl, (u, refl, k))
  summarize-dict ((t, s) ∷ rest) n u e d h k =
      let found = counts_laws.get_stands t n e h in
      let (u', put, k') = sums_laws.put_stands t (summary t s (or_zero (lookup ◌==◌ t e))) u d k in
      elim (Bool-cases (t == "")) [
        | inl empty ↦ inl (rw (empty, has_empty) refl, summarize_empty t s rest n u _ empty found)
        | inr named ↦
            let again = summarize_again t s rest n u u' _ _ named found put in
            elim (summarize-dict rest n u' e _ h k') [
              | inl (empty, ran) ↦ inl (rw (named, has_empty) empty, again ∙ ran)
              | inr (all_named, (u'', ran, k'')) ↦
                  inr (rw (named, has_empty) all_named, (u'', again ∙ ran, k''))
            ]
      ]
