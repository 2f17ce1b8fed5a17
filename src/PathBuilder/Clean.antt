-- ===== src/PathBuilder/Clean.antt =====
-- What a sanitized name is, and that each pass keeps it.
use ani_vault.Base.{
  arith, ℕ, ◌≤◌, ◌<◌, ◌≡◌, refl, ◌⊎◌, inl, inr, Bool, true, false, not, ◌&&◌, ◌||◌, List, [], ◌∷◌,
  ◌==◌, Bool-cases, ap, ==_iff,
}
use ani_vault.PathBuilder.{
  invalid_filename_chars, member, space, underscore, translate, replace_underscores, is_stripped,
  strip_left, is_blank, strip_right, collapse_from,
}

unfoldable pub starts_well : List ℕ → Bool
starts_well [] = false
starts_well (c ∷ s) = not (is_stripped c)

unfoldable pub ends_well : List ℕ → Bool
ends_well [] = false
ends_well (c ∷ []) = not (is_stripped c)
ends_well (c ∷ d ∷ s) = ends_well (d ∷ s)

pub strip_left-starts_well :
    (s : List ℕ) → (is_blank (strip_left s) ≡ true) ⊎ (starts_well (strip_left s) ≡ true)
unfolding strip_left starts_well
strip_left-starts_well [] = inl refl
strip_left-starts_well (c ∷ s) = elim (Bool-cases (is_stripped c)) [
  | inl gone ↦ rw gone (strip_left-starts_well s)
  | inr kept ↦ rw kept (inr (rw kept refl))
]

pub strip_right-starts_well :
    (s : List ℕ) → starts_well s ≡ true → starts_well (strip_right s) ≡ true
unfolding strip_right starts_well
strip_right-starts_well [] h = h
strip_right-starts_well (c ∷ s) h = ground (arith, h)

pub strip_right-ends_well :
    (s : List ℕ) → (is_blank (strip_right s) ≡ true) ⊎ (ends_well (strip_right s) ≡ true)
unfolding strip_right ends_well
strip_right-ends_well [] = inl refl
strip_right-ends_well (c ∷ s) = ground (arith, strip_right-ends_well s)

module _ (is_space : ℕ → Bool) where
  -- A code point that a name may have: no separator or other invalid character, no underscore, and
  -- no space but the plain one.
  unfoldable pub is_allowed : ℕ → Bool
  unfolding member
  is_allowed c =
      not (member c invalid_filename_chars)
      && (not (c == underscore) && (not (is_space c) || (c == space)))

  -- Allowed code points, and no two spaces in a row; `after_space` says whether the code point
  -- before was one.
  unfoldable pub is_neat : Bool → List ℕ → Bool
  unfolding is_allowed
  is_neat after_space [] = true
  is_neat after_space (c ∷ s) =
      is_allowed c && (not (after_space && (c == space)) && is_neat (c == space) s)

  pub record IsClean (s : List ℕ) : Type 0 where
    pub neat : is_neat false s ≡ true
    pub first : starts_well s ≡ true
    pub last : ends_well s ≡ true

  -- What the `re` module documents: the plain space matches, and no printable ASCII character does.
  pub record IsSpaceTest : Type 0 where
    pub plain : is_space space ≡ true
    pub printable : (c : ℕ) → 33 ≤ c → c < 127 → is_space c ≡ false

  -- Neither invalid nor an underscore.
  unfoldable pub is_plain : List ℕ → Bool
  is_plain [] = true
  is_plain (c ∷ s) = not (member c invalid_filename_chars) && (not (c == underscore) && is_plain s)

  pub is_plain-replaced : (s : List ℕ) → is_plain (replace_underscores (translate s)) ≡ true
  unfolding is_plain replace_underscores translate
  is_plain-replaced [] = refl
  is_plain-replaced (c ∷ s) = elim (Bool-cases (member c invalid_filename_chars)) [
    | inl bad ↦ rw (bad) (is_plain-replaced s)
    | inr good ↦ elim (Bool-cases (c == underscore)) [
      | inl is_underscore ↦ rw (good, is_underscore) (is_plain-replaced s)
      | inr is_other ↦ rw (good, is_other, good) (ground (arith, is_other, is_plain-replaced s))
    ]
  ]

  module _ (law : IsSpaceTest) where
    space_differs : (c : ℕ) → is_space c ≡ false → (c == space) ≡ false
    space_differs c h = elim (Bool-cases (c == space)) [
      | inl e ↦ ground (arith, h, law.plain, ap is_space ((==_iff c space).0 e))
      | inr e ↦ e
    ]

    pub is_neat-collapse_from :
        (b : Bool) (s : List ℕ) → is_plain s ≡ true → is_neat b (collapse_from is_space b s) ≡ true
    unfolding is_neat collapse_from is_plain is_allowed
    is_neat-collapse_from b [] h = refl
    is_neat-collapse_from b (c ∷ s) h = elim (Bool-cases (is_space c)) [
      | inl blank ↦ elim (Bool-cases b) [
        | inl in_run ↦ rw (blank, in_run) (is_neat-collapse_from true s (ground (arith, h)))
        | inr at_start ↦
            rw (blank, at_start, law.plain) (is_neat-collapse_from true s (ground (arith, h)))
      ]
      | inr printed ↦
          let not_space = space_differs c printed in
          rw (printed, not_space) (ground (arith, h, is_neat-collapse_from false s))
    ]

  -- The passes that strip keep a neat name neat.
  is_neat-weaken : (b : Bool) (s : List ℕ) → is_neat b s ≡ true → is_neat false s ≡ true
  unfolding is_neat
  is_neat-weaken b [] h = refl
  is_neat-weaken b (c ∷ s) h = ground (arith, h)

  pub is_neat-strip_left :
      (b : Bool) (s : List ℕ) → is_neat b s ≡ true → is_neat false (strip_left s) ≡ true
  unfolding is_neat strip_left
  is_neat-strip_left b [] h = refl
  is_neat-strip_left b (c ∷ s) h = elim (Bool-cases (is_stripped c)) [
    | inl gone ↦ rw gone (is_neat-strip_left (c == space) s (ground (arith, h)))
    | inr kept ↦ rw kept (is_neat-weaken b (c ∷ s) h)
  ]

  pub is_neat-strip_right :
      (b : Bool) (s : List ℕ) → is_neat b s ≡ true → is_neat b (strip_right s) ≡ true
  unfolding is_neat strip_right
  is_neat-strip_right b [] h = refl
  is_neat-strip_right b (c ∷ s) h = ground (arith, h, is_neat-strip_right (c == space) s)
