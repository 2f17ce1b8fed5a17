-- ===== src/PathBuilder/Sanitized.antt =====
-- The names that `sanitize_filename` makes, and those that it leaves alone.
use mathlib.Core.Path.{subst}
use ani_vault.Base.{
  ◌↔◌, arith, ℕ, ◌≡◌, refl, ap, inl, inr, Bool, true, false, List, [], ◌∷◌, ◌==◌, if◌then◌else◌,
  Bool-cases, ==_iff,
}
use ani_vault.PathBuilder.{
  member, space, unknown_name, translate, replace_underscores, strip_left, is_blank, strip_right,
  collapse_from, collapse, sanitize_filename,
}
use ani_vault.PathBuilder.Clean.{
  is_allowed, is_neat, starts_well, ends_well, IsClean, IsSpaceTest, is_plain-replaced,
  is_neat-collapse_from, is_neat-strip_left, is_neat-strip_right, strip_left-starts_well,
  strip_right-starts_well, strip_right-ends_well,
}

strip_right-blank : (s : List ℕ) → is_blank s ≡ true → is_blank (strip_right s) ≡ true
unfolding strip_right
strip_right-blank [] h = refl
strip_right-blank (c ∷ s) h = cc

strip_right-cons :
    (c : ℕ) (s : List ℕ) {d : ℕ} {r : List ℕ}
    → strip_right s ≡ d ∷ r
    → strip_right (c ∷ s) ≡ c ∷ d ∷ r
unfolding strip_right
strip_right-cons c s h = rw (strip_right, h) refl

there : (s : List ℕ) → starts_well s ≡ true → (if is_blank s then unknown_name else s) ≡ s
unfolding starts_well
there [] h = cc
there (c ∷ s) h = refl

module _ (is_space : ℕ → Bool) (law : IsSpaceTest is_space) where
  unknown_name-IsClean : IsClean is_space unknown_name
  unfolding is_neat is_allowed member starts_well ends_well
  unknown_name-IsClean = record {
    neat = ground (
      arith,
      law.printable 85 (omega arith) (omega arith),
      law.printable 110 (omega arith) (omega arith),
      law.printable 107 (omega arith) (omega arith),
      law.printable 111 (omega arith) (omega arith),
      law.printable 119 (omega arith) (omega arith),
    );
    first = refl;
    last = refl;
  }

  -- A name that is not empty once it is stripped is clean.
  stripped-IsClean :
      (b : Bool) (s : List ℕ)
      → is_neat is_space b s ≡ true
      → is_blank (strip_right (strip_left s)) ≡ false
      → IsClean is_space (strip_right (strip_left s))
  stripped-IsClean b s neat there = elim (strip_left-starts_well s) [
    | inl gone ↦ ground (arith, there, strip_right-blank (strip_left s) gone)
    | inr first ↦ elim (strip_right-ends_well (strip_left s)) [
      | inl empty ↦ ground (arith, there, empty)
      | inr last ↦ record {
        neat =
            is_neat-strip_right is_space false (strip_left s)
              (is_neat-strip_left is_space b s neat);
        first = strip_right-starts_well (strip_left s) first;
        last = last;
      }
    ]
  ]

  sanitize_filename-IsClean :
      (filename : List ℕ) → IsClean is_space (sanitize_filename is_space filename)
  unfolding sanitize_filename collapse
  sanitize_filename-IsClean filename =
      let collapsed = collapse_from is_space false (replace_underscores (translate filename)) in
      let neat = is_neat-collapse_from is_space law false _ (is_plain-replaced is_space filename) in
      elim (Bool-cases (is_blank (strip_right (strip_left collapsed)))) [
        | inl empty ↦ rw empty unknown_name-IsClean
        | inr there ↦ rw there (stripped-IsClean false collapsed neat there)
      ]

  replace_underscores-translate-kept :
      (b : Bool) (s : List ℕ) → is_neat is_space b s ≡ true → replace_underscores (translate s) ≡ s
  unfolding replace_underscores translate is_neat is_allowed
  replace_underscores-translate-kept b [] h = refl
  replace_underscores-translate-kept b (c ∷ s) h =
      ground (arith, h, replace_underscores-translate-kept (c == space) s)

  collapse_from-kept :
      (b : Bool) (s : List ℕ) → is_neat is_space b s ≡ true → collapse_from is_space b s ≡ s
  unfolding collapse_from is_neat is_allowed
  collapse_from-kept b [] h = refl
  collapse_from-kept b (c ∷ s) h = elim (Bool-cases (is_space c)) [
    | inl blank ↦
        let is_plain_space = (==_iff c space).0 (ground (arith, h, blank)) in
        ground (arith, h, blank, is_plain_space, collapse_from-kept true s)
    | inr printed ↦
        let rest = collapse_from-kept false s (ground (arith, h, printed)) in
        rw printed (ap (λ r. c ∷ r) rest)
  ]

  strip_left-kept : (s : List ℕ) → starts_well s ≡ true → strip_left s ≡ s
  unfolding strip_left starts_well
  strip_left-kept [] h = refl
  strip_left-kept (c ∷ s) h = ground (arith, h)

  strip_right-kept : (s : List ℕ) → ends_well s ≡ true → strip_right s ≡ s
  unfolding strip_right ends_well
  strip_right-kept [] h = refl
  strip_right-kept (c ∷ []) h = ground (arith, h)
  strip_right-kept (c ∷ d ∷ s) h = strip_right-cons c (d ∷ s) (strip_right-kept (d ∷ s) h)

  sanitize_filename-kept : (s : List ℕ) → IsClean is_space s → sanitize_filename is_space s ≡ s
  unfolding sanitize_filename collapse
  sanitize_filename-kept s clean =
      let replaced = replace_underscores-translate-kept false s clean.neat in
      let collapsed = collapse_from-kept false s clean.neat in
      let stripped = strip_left-kept s clean.first in
      let kept = strip_right-kept s clean.last in
      rw (replaced, collapsed, stripped, kept) (there s clean.first)

  -- Whatever the title, its name is clean: not empty, with no separator or other character that is
  -- not allowed and no underscore, with no two spaces in a row and no other space, and neither
  -- beginning nor ending with a space or a dot, so that it is no `..` either. The names that are
  -- left as they are are exactly the clean ones.
  pub sanitize_filename-IsClean_iff :
      (filename : List ℕ)
      → IsClean is_space (sanitize_filename is_space filename)
        × ((sanitize_filename is_space filename ≡ filename) ↔ IsClean is_space filename)
  sanitize_filename-IsClean_iff filename =
      let clean = sanitize_filename-IsClean filename in
      (clean, (λ same. subst (IsClean is_space) same clean, sanitize_filename-kept filename))
