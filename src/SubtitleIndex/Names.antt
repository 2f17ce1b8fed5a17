-- ===== src/SubtitleIndex/Names.antt =====
-- The names of an index: those with a prefix, and the paths under them.
use ani_vault.Base.{
  arith, ◌≡◌, refl, inl, inr, true, false, some, List, [], ◌∷◌, ◌++◌, All, if◌then◌else◌,
  Bool-cases,
}
use ani_vault.Sorting.First.{All-map}
use ani_vault.LinkedHash.Assoc.{lookup}
use ani_vault.SubtitleIndex.{Name, same_name, leb_name, starts_with, keys, or_empty}
use ani_vault.SubtitleIndex.Texts.{same_name_refl, starts_with-leb_name, starts_with_between}

-- The names with a prefix, in their order.
unfoldable pub with_prefix : Name → List Name → List Name
with_prefix prefix [] = []
with_prefix prefix (k ∷ ks) =
    let rest = with_prefix prefix ks in if starts_with k prefix then k ∷ rest else rest

pub none_after :
    (prefix k : Name) (ks : List Name)
    → leb_name prefix k ≡ true
    → starts_with k prefix ≡ false
    → All (λ j. leb_name k j ≡ true) ks
    → with_prefix prefix ks ≡ []
unfolding with_prefix
none_after prefix k [] above without sorted = refl
none_after prefix k (j ∷ ks) above without sorted = ground (
  arith,
  without,
  starts_with_between prefix k j above sorted.0,
  none_after prefix k ks above without sorted.1,
)

pub starts_below : (prefix k : Name) → leb_name prefix k ≡ false → starts_with k prefix ≡ false
starts_below prefix k h = ground (arith, h, starts_with-leb_name k prefix)

module _ {P : Type 0} where
  -- The paths under some names, one name after the other.
  unfoldable pub gathered : List (Name × List P) → List Name → List P
  unfolding or_empty
  gathered d [] = []
  gathered d (k ∷ ks) = or_empty (lookup same_name k d) ++ gathered d ks

  abbrev pub IsKnown : List (Name × List P) → Name → Type 0
  IsKnown d k = (ps : List P) × (lookup same_name k d ≡ some ps)

  later-IsKnown :
      (k : Name) (ps : List P) (d : List (Name × List P)) (j : Name)
      → IsKnown d j
      → IsKnown ((k, ps) ∷ d) j
  unfolding lookup
  later-IsKnown k ps d j (qs, e) = elim (Bool-cases (same_name k j)) [
    | inl here ↦ (ps, rw here refl)
    | inr there ↦ (qs, rw there e)
  ]

  pub keys-IsKnown : (d : List (Name × List P)) → All (IsKnown d) (keys d)
  unfolding keys lookup
  keys-IsKnown [] = tt
  keys-IsKnown ((k, ps) ∷ d) = (
    (ps, rw (same_name_refl k) refl),
    All-map (IsKnown d) (IsKnown ((k, ps) ∷ d)) (keys d) (later-IsKnown k ps d) (keys-IsKnown d),
  )
