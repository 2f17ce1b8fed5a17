-- ===== src/Titles/Shortened.antt =====
-- The shortened titles differ from one another, whatever their case, and no shortening is lost.
use mathlib.Core.List.{append-nil}
use mathlib.Core.Path.{subst}
use ani_vault.Base.{
  chosen, passed, arith, ℕ, zero, suc, ◌≡◌, ◌≢◌, refl, ap, sym, ◌∙◌, ◌⊎◌, Bool, true, false, List,
  [], ◌∷◌, ◌++◌, map, length, leb, ◌<◌, All, if◌then◌else◌, Bool-cases, inl, inr,
}
use ani_vault.Titles.{
  Title, join, drop_last, same_title, seen_in, split, strip, trim_words, unique_titles,
  generate_shortened_titles,
}

same_title_refl : (t : Title) → same_title t t ≡ true
unfolding same_title
same_title_refl [] = refl
same_title_refl (c ∷ t) = rw (same_title_refl t) (ground arith)

same_title_eq : (s t : Title) → same_title s t ≡ true → s ≡ t
unfolding same_title
same_title_eq [] [] h = refl
same_title_eq [] (d ∷ t) h = cc
same_title_eq (c ∷ s) [] h = cc
same_title_eq (c ∷ s) (d ∷ t) h = ground (arith, same_title_eq s t, h)

map_All :
    {P Q : Title → Type 0} → ((t : Title) → P t → Q t) → (ts : List Title) → All P ts → All Q ts
map_All f [] h = tt
map_All f (t ∷ ts) (h, k) = (f t h, map_All f ts k)

abbrev pub words_of : (ℕ → Bool) → Title → List Title
words_of is_space title = split is_space (strip is_space title)

-- The title without its suffixes, where that changes it, and without its last words.
abbrev candidates : (ℕ → Bool) → (Title → Title) → Title → List Title
candidates is_space strip_suffixes title =
    let words = words_of is_space title in
    let trimmed = trim_words (length words) words in
    let base_title = strip is_space (strip_suffixes title) in
    if same_title base_title (strip is_space title) then trimmed else base_title ∷ trimmed

drop_last-append :
    (ws : List Title) (v : Title) (back : List Title)
    → drop_last (ws ++ v ∷ back) ≡ ws ++ drop_last (v ∷ back)
unfolding drop_last
drop_last-append [] v back = refl
drop_last-append (w ∷ []) v back = refl
drop_last-append (w ∷ u ∷ ws) v back = ap (λ us. w ∷ us) (drop_last-append (u ∷ ws) v back)

length-drop_last : (w : Title) (ws : List Title) → length (drop_last (w ∷ ws)) ≡ length ws
unfolding drop_last
length-drop_last w [] = refl
length-drop_last w (v ∷ ws) = grind (arith, length-drop_last v ws)

length-join_last :
    (ws : List Title) (v : Title) (back : List Title) → length back < length (ws ++ v ∷ back)
length-join_last [] v back = omega arith
length-join_last (w ∷ ws) v back = omega (arith, length-join_last ws v back)

not_lt_zero : (n : ℕ) → ¬ (n < 0)
not_lt_zero n = omega arith

-- One step of the trimming of more than one word.
trim_words-suc :
    (fuel : ℕ) (ws : List Title)
    → 1 < length ws
    → trim_words (suc fuel) ws ≡ join (drop_last ws) ∷ trim_words fuel (drop_last ws)
unfolding trim_words
trim_words-suc fuel ws many =
    let few : leb (length ws) 1 ≡ false = ground (arith, many) in rw few refl

-- With fuel for the words behind it, a title of the first words is met by the trimming.
trim_words-join :
    (P : Title → Type 0) (fuel : ℕ) (w : Title) (front : List Title) (v : Title) (back : List Title)
    → length back < fuel
    → All P (trim_words fuel ((w ∷ front) ++ v ∷ back))
    → P (join (w ∷ front))
unfolding drop_last
trim_words-join P zero w front v back h k = elim (not_lt_zero (length back) h) [ ]
trim_words-join P (suc fuel) w front v [] h k =
    let many : 1 < length ((w ∷ front) ++ v ∷ []) = omega (arith, length-join_last front v []) in
    let left = drop_last-append (w ∷ front) v [] ∙ append-nil (w ∷ front) in
    subst (λ ws. P (join ws)) left (subst (All P) (trim_words-suc fuel _ many) k).0
trim_words-join P (suc fuel) w front v (u ∷ back) h k =
    let many : 1 < length ((w ∷ front) ++ v ∷ u ∷ back) =
      omega (arith, length-join_last front v (u ∷ back)) in
    let left = drop_last-append (w ∷ front) v (u ∷ back) in
    trim_words-join P fuel w front v (drop_last (u ∷ back))
      (omega (arith, length-drop_last u back, h))
      (subst (λ ws. All P (trim_words fuel ws)) left
        (subst (All P) (trim_words-suc fuel _ many) k).1)

module _ (lower : Title → Title) where
  -- No title is another one in lower case.
  abbrev pub AreDistinct : List Title → Type 0
  AreDistinct [] = Unit
  AreDistinct (t ∷ ts) = All (λ s. lower s ≢ lower t) ts × AreDistinct ts

  abbrev pub IsAmong : List Title → Title → Type 0
  IsAmong ts t = seen_in (lower t) (map lower ts) ≡ true

  not_same : (s t : Title) → same_title s t ≡ false → s ≢ t
  not_same s t h e =
      let same : same_title s t ≡ true = ap (same_title s) (sym e) ∙ same_title_refl s in
      ground (arith, same, h)

  new_in :
      (r t : Title) (seen : List Title)
      → seen_in r (t ∷ seen) ≡ false
      → (same_title r t ≡ false) × (seen_in r seen ≡ false)
  unfolding seen_in
  new_in r t seen h = elim (Bool-cases (same_title r t)) [
    | inl e ↦ ground (arith, e, h)
    | inr e ↦ (e, sym (rw e refl) ∙ h)
  ]

  old_in :
      (r t : Title) (seen rest : List Title)
      → (seen_in (lower r) (lower t ∷ seen) ≡ true) ⊎ IsAmong rest r
      → (seen_in (lower r) seen ≡ true) ⊎ IsAmong (t ∷ rest) r
  unfolding seen_in
  old_in r t seen rest h = elim (Bool-cases (same_title (lower r) (lower t))) [
    | inl e ↦ inr (rw e refl)
    | inr e ↦ elim h [ inl k ↦ inl (sym (rw e refl) ∙ k) | inr k ↦ inr (rw e k) ]
  ]

  record IsUnique (seen ts us : List Title) : Type 0 where
    not_seen : All (λ u. seen_in (lower u) seen ≡ false) us
    distinct : AreDistinct us
    kept : All (λ t. (seen_in (lower t) seen ≡ true) ⊎ IsAmong us t) ts

  IsUnique-new :
      (seen : List Title) (t : Title) (ts us : List Title)
      → seen_in (lower t) seen ≡ false
      → IsUnique (lower t ∷ seen) ts us
      → IsUnique seen (t ∷ ts) (t ∷ us)
  unfolding seen_in
  IsUnique-new seen t ts us new h = record {
    not_seen = (new, map_All (λ u k. (new_in (lower u) (lower t) seen k).1) us h.not_seen);
    distinct = (
      map_All (λ u k. not_same (lower u) (lower t) (new_in (lower u) (lower t) seen k).0) us
          h.not_seen,
      h.distinct,
    );
    kept = (
      inr (rw (same_title_refl (lower t)) refl),
      map_All (λ r k. old_in r t seen us k) ts h.kept,
    );
  }

  unique_titles-IsUnique : (seen ts : List Title) → IsUnique seen ts (unique_titles lower seen ts)
  unfolding unique_titles
  unique_titles-IsUnique seen [] = record { not_seen = tt; distinct = tt; kept = tt }
  unique_titles-IsUnique seen (t ∷ ts) = elim (Bool-cases (seen_in (lower t) seen)) [
    | inl e ↦
        let rest = unique_titles-IsUnique seen ts in
        rw e
          (record { not_seen = rest.not_seen; distinct = rest.distinct; kept = (inl e, rest.kept) })
    | inr e ↦ rw e (IsUnique-new seen t ts _ e (unique_titles-IsUnique (lower t ∷ seen) ts))
  ]

  never :
      (us ts : List Title)
      → All (λ t. (seen_in (lower t) [] ≡ true) ⊎ IsAmong us t) ts
      → All (IsAmong us) ts
  unfolding seen_in
  never us ts h = map_All (λ t k. elim k [ inl e ↦ ground (arith, e) | inr e ↦ e ]) ts h

  module _ (is_space : ℕ → Bool) (strip_suffixes : Title → Title) where
    base_of : Title → Title
    base_of title = strip is_space (strip_suffixes title)

    trimmed_among :
        (P : Title → Type 0) (title : Title)
        → All P (candidates is_space strip_suffixes title)
        → All P (trim_words (length (words_of is_space title)) (words_of is_space title))
          × ((base_of title ≡ strip is_space title) ⊎ P (base_of title))
    unfolding base_of
    trimmed_among P title h =
        elim (Bool-cases (same_title (base_of title) (strip is_space title))) [
          | inl same ↦ (
            subst (All P) (chosen _ _ same) h,
            inl (same_title_eq (base_of title) (strip is_space title) same),
          )
          | inr other ↦ let k = subst (All P) (passed _ _ other) h in (k.1, inr k.0)
        ]

    -- For any way to part the words of a title into first words and last words, some of each, no two
    -- shortened titles are the same in lower case, the title of the first words is among them in
    -- lower case, and so is the title without its suffixes, unless that is the title itself.
    pub generate_shortened_titles-AreDistinct :
        (title w : Title) (front : List Title) (v : Title) (back : List Title)
        → words_of is_space title ≡ (w ∷ front) ++ v ∷ back
        → AreDistinct (generate_shortened_titles is_space strip_suffixes lower title)
          × IsAmong
              (generate_shortened_titles is_space strip_suffixes lower title)
              (join (w ∷ front))
          × ((strip is_space (strip_suffixes title) ≡ strip is_space title)
              ⊎ IsAmong
                  (generate_shortened_titles is_space strip_suffixes lower title)
                  (strip is_space (strip_suffixes title)))
    unfolding generate_shortened_titles base_of
    generate_shortened_titles-AreDistinct title w front v back parted =
        let unique = unique_titles-IsUnique [] (candidates is_space strip_suffixes title) in
        let enough = length-join_last front v back in
        let few : leb (length (words_of is_space title)) 1 ≡ false =
          ground (arith, parted, enough) in
        let (trimmed, base) = trimmed_among _ title (never _ _ unique.kept) in
        let met = IsAmong (unique_titles lower [] (candidates is_space strip_suffixes title)) in
        rw few (
          unique.distinct,
          trim_words-join met (length (words_of is_space title)) w front v back
              (ground (arith, parted, enough))
              (subst (λ ws. All met (trim_words (length (words_of is_space title)) ws)) parted
                trimmed),
          base,
        )
