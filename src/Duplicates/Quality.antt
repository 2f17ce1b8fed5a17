-- ===== src/Duplicates/Quality.antt =====
-- The quality score that the resolver reads from a file name.
use Prim.Native.String.{String}
use ani_vault.Base.{
  ap, sym, ◌∙◌, ℕ, ◌≡◌, refl, Bool, true, false, Option, some, List, [], ◌∷◌, All, arith, inl, inr,
  ◌⊎◌, Bool-cases,
}
use ani_vault.Base.Int.{ℤ, pos, leb_ℤ}
use ani_vault.Dict.Laws.{IsDistinct, lookup-All}
use ani_vault.Duplicates.Scores.{custom_scores, configured, lookup-init, All-configured}
use ani_vault.Sorting.{sort, sort-IsSorted, All-sort, All-sort_inv, IsSorted}
use ani_vault.Duplicates.{
  ResolutionConfig, VersionPattern, first_quality, extract_quality, better_score, init,
}
use mathlib.Core.Path.{subst}
use ani_vault.Sorting.First.{All-map}

module _ (stem : String → String) (search_version : VersionPattern → String → Option ℕ)
    (matches_tag : String → String → Bool) where
  abbrev quality : List (String × ℤ) → String → ℤ
  quality = first_quality stem search_version matches_tag

  quality-hit :
      (p : String × ℤ) (tags : List (String × ℤ)) (filename : String)
      → matches_tag p.0 filename ≡ true
      → quality (p ∷ tags) filename ≡ p.1
  unfolding first_quality
  quality-hit p tags filename m = ground arith

  quality-miss :
      (p : String × ℤ) (tags : List (String × ℤ)) (filename : String)
      → matches_tag p.0 filename ≡ false
      → quality (p ∷ tags) filename ≡ quality tags filename
  unfolding first_quality
  quality-miss p tags filename m = ground arith

  -- The score is at least that of every tag that matches.
  abbrev pub IsAtLeast : String → ℤ → String × ℤ → Type 0
  IsAtLeast filename s p = matches_tag p.0 filename ≡ true → leb_ℤ p.1 s ≡ true

  first_quality-IsAtLeast :
      (filename : String) (tags : List (String × ℤ))
      → IsSorted better_score tags
      → All (IsAtLeast filename (quality tags filename)) tags
  first_quality-IsAtLeast filename [] s = tt
  first_quality-IsAtLeast filename (p ∷ tags) s = elim (Bool-cases (matches_tag p.0 filename)) [
    | inl m ↦
        subst (λ s. All (IsAtLeast filename s) (p ∷ tags)) (sym (quality-hit p tags filename m))
          (
            λ _. ground arith,
            All-map (λ q. leb_ℤ q.1 p.1 ≡ true) (IsAtLeast filename p.1) tags (λ q h _. h) s.0,
          )
    | inr m ↦
        subst (λ s. All (IsAtLeast filename s) (p ∷ tags)) (sym (quality-miss p tags filename m))
          (λ h. cc, first_quality-IsAtLeast filename tags s.1)
  ]

  -- The score is that of a tag that matches, of which `P` holds, or 0 if none does.
  abbrev IsHit : (String × ℤ → Type 0) → String → List (String × ℤ) → ℤ → Type 0
  IsHit P filename tags s =
      ((p : String × ℤ) × P p × (matches_tag p.0 filename ≡ true) × (s ≡ p.1))
      ⊎ (All (λ p. matches_tag p.0 filename ≡ false) tags × (s ≡ pos 0))

  IsHit-cons :
      (P : String × ℤ → Type 0) (filename : String) (p : String × ℤ) (tags : List (String × ℤ))
      (s : ℤ)
      → matches_tag p.0 filename ≡ false
      → IsHit P filename tags s
      → IsHit P filename (p ∷ tags) s
  IsHit-cons P filename p tags s m (inl hit) = inl hit
  IsHit-cons P filename p tags s m (inr (none_match, e)) = inr ((m, none_match), e)

  first_quality-IsHit :
      (P : String × ℤ → Type 0) (filename : String) (tags : List (String × ℤ))
      → All P tags
      → IsHit P filename tags (quality tags filename)
  unfolding first_quality
  first_quality-IsHit P filename [] h = inr (tt, refl)
  first_quality-IsHit P filename (p ∷ tags) h = elim (Bool-cases (matches_tag p.0 filename)) [
    | inl m ↦ inl (p, h.0, m, quality-hit p tags filename m)
    | inr m ↦ subst (IsHit P filename (p ∷ tags)) (sym (quality-miss p tags filename m)) (
        IsHit-cons P filename p tags (quality tags filename) m
          (first_quality-IsHit P filename tags h.1))
  ]

  better_total : (p q : String × ℤ) → better_score p q ≡ false → better_score q p ≡ true
  better_total p q h = ground arith

  better_trans :
      (p q r : String × ℤ)
      → better_score p q ≡ true
      → better_score q r ≡ true
      → better_score p r ≡ true
  better_trans p q r h k = ground arith

  IsHit-unsorted :
      (P : String × ℤ → Type 0) (filename : String) (scores : List (String × ℤ)) (s : ℤ)
      → IsHit P filename (sort better_score scores) s
      → IsHit P filename scores s
  IsHit-unsorted P filename scores s (inl hit) = inl hit
  IsHit-unsorted P filename scores s (inr (none_match, e)) =
      inr (All-sort_inv better_score (λ p. matches_tag p.0 filename ≡ false) scores none_match, e)

  -- The score is at least that of every tag that a configuration has and the name matches.
  abbrev pub IsBound : Option ResolutionConfig → String → ℤ → Type 0
  IsBound config filename s =
      (tag : String) (v : ℤ)
      → configured config tag ≡ some v
      → matches_tag tag filename ≡ true
      → leb_ℤ v s ≡ true

  -- The score is that of a tag that the configuration has and the name matches, or 0 if there is
  -- none.
  abbrev pub IsScore : Option ResolutionConfig → String → ℤ → Type 0
  IsScore config filename s =
      ((tag : String) × (configured config tag ≡ some s) × (matches_tag tag filename ≡ true))
      ⊎ (((tag : String) (v : ℤ)
            → configured config tag ≡ some v
            → matches_tag tag filename ≡ false)
          × (s ≡ pos 0))

  IsHit-IsScore :
      (config : Option ResolutionConfig) (filename : String) (s : ℤ)
      → IsDistinct (custom_scores config)
      → IsHit (λ p. configured config p.0 ≡ some p.1) filename (init config).quality_scores s
      → IsScore config filename s
  IsHit-IsScore config filename s h (inl (p, e, m, same)) =
      inl (p.0, e ∙ ap (λ v. some v) (sym same), m)
  IsHit-IsScore config filename s h (inr (none_match, e)) = inr (
    λ tag v k.
        lookup-All (λ p. matches_tag p.0 filename ≡ false) tag v (init config).quality_scores
          none_match (lookup-init config tag h ∙ k),
    e,
  )

  -- For a resolver built from any configuration whose scores are a dict, the score of a file name is
  -- the highest score of the tags that match it, where the score of a tag is the configured one, or
  -- the default one if none is configured: it is at least that of every tag that matches, and it is
  -- that of a tag that matches, or 0 if none does.
  pub extract_quality-IsScore :
      (config : Option ResolutionConfig) (filename : String)
      → IsDistinct (custom_scores config)
      → IsBound config filename
          (extract_quality stem search_version matches_tag (init config) filename)
        × IsScore config filename
            (extract_quality stem search_version matches_tag (init config) filename)
  unfolding extract_quality init
  extract_quality-IsScore config filename h =
      let scores = (init config).quality_scores in
      let tags = sort better_score scores in
      let s = quality tags filename in
      let at_least = All-sort_inv better_score (IsAtLeast filename s) scores (
        first_quality-IsAtLeast filename tags
          (sort-IsSorted better_score better_total better_trans scores)) in
      let known = All-configured config h in
      let hit =
        first_quality-IsHit (λ p. configured config p.0 ≡ some p.1) filename tags
          (All-sort better_score _ scores known) in
      (
        λ tag v k.
            lookup-All (IsAtLeast filename s) tag v scores at_least (lookup-init config tag h ∙ k),
        IsHit-IsScore config filename s h (IsHit-unsorted _ filename scores s hit),
      )
