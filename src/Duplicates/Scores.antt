-- ===== src/Duplicates/Scores.antt =====
-- The scores of the tags: the configured ones over the defaults.
use Prim.Native.String.{String}
use text.Mathlib.TextEquality.{eq_iff}
use text.Mathlib.TextPositions.{eq_refl}
use ani_vault.Base.{sym, ◌∙◌, ◌≡◌, refl, Option, none, some, [], ◌∷◌, All, arith}
use ani_vault.Base.Int.{ℤ}
use ani_vault.Dict.{Dict, lookup, insert}
use ani_vault.Dict.Laws.{IsDistinct, insert-IsDistinct, lookup-insert}
use ani_vault.Duplicates.{ResolutionConfig, default_quality_scores, merge, init}
use ani_vault.Sorting.First.{All-map}

-- The scores of the configuration, which replace the defaults tag by tag.
abbrev pub custom_scores : Option ResolutionConfig → Dict ℤ
custom_scores none = []
custom_scores (some config) = config.quality_scores

-- The score that a tag has: the configured one, or else the default one.
abbrev pub configured : Option ResolutionConfig → String → Option ℤ
configured config tag = elim (lookup tag (custom_scores config)) [
  | none ↦ lookup tag default_quality_scores
  | some v ↦ some v
]

lookup-merge :
    (tag : String) (base custom : Dict ℤ)
    → IsDistinct custom
    → lookup tag (merge base custom)
      ≡ elim (lookup tag custom) [ none ↦ lookup tag base | some v ↦ some v ]
unfolding lookup merge IsDistinct
lookup-merge tag base [] h = refl
lookup-merge tag base ((k, v) ∷ custom) (new, h) = ground (
  arith,
  lookup-merge tag (insert k v base) custom h,
  lookup-insert k tag v base,
  new,
  eq_iff k tag,
)

merge-IsDistinct : (base custom : Dict ℤ) → IsDistinct base → IsDistinct (merge base custom)
unfolding merge
merge-IsDistinct base [] h = h
merge-IsDistinct base ((k, v) ∷ custom) h =
    merge-IsDistinct (insert k v base) custom (insert-IsDistinct k v base h)

defaults-IsDistinct : IsDistinct default_quality_scores
unfolding IsDistinct lookup
defaults-IsDistinct = (
  refl,
  (refl, (refl, (refl, (refl, (refl, (refl, (refl, (refl, (refl, (refl, (refl, tt))))))))))),
)

pub lookup-init :
    (config : Option ResolutionConfig) (tag : String)
    → IsDistinct (custom_scores config)
    → lookup tag (init config).quality_scores ≡ configured config tag
unfolding init
lookup-init none tag h = lookup-merge tag default_quality_scores [] h
lookup-init (some config) tag h = lookup-merge tag default_quality_scores config.quality_scores h

init-IsDistinct : (config : Option ResolutionConfig) → IsDistinct (init config).quality_scores
unfolding init
init-IsDistinct none = defaults-IsDistinct
init-IsDistinct (some config) =
    merge-IsDistinct default_quality_scores config.quality_scores defaults-IsDistinct

-- Every pair of a dict is what its key has.
All-lookup : (d : Dict ℤ) → IsDistinct d → All (λ p. lookup p.0 d ≡ some p.1) d
unfolding lookup IsDistinct
All-lookup [] h = tt
All-lookup ((k, v) ∷ d) (new, h) = (
  rw (eq_refl k) refl,
  All-map (λ p. lookup p.0 d ≡ some p.1) (λ p. lookup p.0 ((k, v) ∷ d) ≡ some p.1) d
      (λ p e. ground (arith, e, new, eq_iff k p.0)) (All-lookup d h),
)

pub All-configured :
    (config : Option ResolutionConfig)
    → IsDistinct (custom_scores config)
    → All (λ p. configured config p.0 ≡ some p.1) (init config).quality_scores
unfolding init
All-configured config h =
    All-map (λ p. lookup p.0 (init config).quality_scores ≡ some p.1)
      (λ p. configured config p.0 ≡ some p.1) (init config).quality_scores
      (λ p e. sym (lookup-init config p.0 h) ∙ e)
      (All-lookup (init config).quality_scores (init-IsDistinct config))
