-- ===== src/Titles/Prefixes.antt =====
-- The prefixes of a title are the first word, the first two words, and so on.
use mathlib.Core.List.{append_assoc}
use ani_vault.Base.{
  arith, ℕ, ◌≡◌, refl, ap, sym, ◌∙◌, Bool, true, false, List, [], ◌∷◌, ◌++◌, map, length, leb, All,
  if◌then◌else◌,
}
use ani_vault.Titles.{
  Title, is_blank, space, flush, pieces, split, accumulate, strip, generate_title_prefixes,
}
use ani_vault.Titles.Words.{IsWord, split-words, split-join, All-append}

-- The prefixes of a list that are not empty, from the shortest on.
unfoldable pub inits : {A : Type 0} → List A → List (List A)
inits [] = []
inits (x ∷ xs) = (x ∷ []) ∷ map (λ i. x ∷ i) (inits xs)

-- The words of a title, cut of its suffixes.
abbrev pub base_words : (ℕ → Bool) → (Title → Title) → Title → List Title
base_words is_space strip_suffixes title =
    split is_space (strip is_space (strip_suffixes (strip is_space title)))

module _ (is_space : ℕ → Bool) (blank : is_space space ≡ true) where
  map-map :
      {A B C : Type 0} (f : B → C) (g : A → B) (xs : List A)
      → map f (map g xs) ≡ map (λ x. f (g x)) xs
  map-map f g [] = refl
  map-map f g (x ∷ xs) = ap (λ ys. f (g x) ∷ ys) (map-map f g xs)

  map_ext :
      {A B : Type 0} (f g : A → B) → ((x : A) → f x ≡ g x) → (xs : List A) → map f xs ≡ map g xs
  map_ext f g h [] = refl
  map_ext f g h (x ∷ xs) = rw (h x, map_ext f g h xs) refl

  split-accumulate :
      (acc ws : List Title)
      → All (IsWord is_space) acc
      → All (IsWord is_space) ws
      → map (split is_space) (accumulate acc ws) ≡ map (λ i. acc ++ i) (inits ws)
  unfolding accumulate inits
  split-accumulate acc [] h k = refl
  split-accumulate acc (w ∷ ws) h (k, ks) =
      let words = All-append is_space acc (w ∷ []) h (k, tt) in
      let first = split-join is_space blank (acc ++ w ∷ []) words in
      let same =
        map_ext (λ i. (acc ++ w ∷ []) ++ i) (λ i. acc ++ w ∷ i) (λ i. append_assoc acc (w ∷ []) i)
          (inits ws) in
      let rest =
        split-accumulate (acc ++ w ∷ []) ws words ks
        ∙ same
        ∙ sym (map-map (λ i. acc ++ i) (λ i. w ∷ i) (inits ws)) in
      rw (first, rest) refl

  map_id : (is : List (List Title)) → map (λ i. [] ++ i) is ≡ is
  map_id [] = refl
  map_id (i ∷ is) = ap (λ js. i ∷ js) (map_id is)

  no_words : (base : Title) → is_blank base ≡ true → leb (length (split is_space base)) 1 ≡ true
  unfolding split pieces flush
  no_words [] h = refl
  no_words (c ∷ s) h = ground (arith, h)

  guarded :
      (b few : Bool) (ts : List Title) (is : List (List Title))
      → (b ≡ true → few ≡ true)
      → map (split is_space) ts ≡ is
      → map (split is_space) (if b then [] else if few then [] else ts) ≡ (if few then [] else is)
  guarded false true ts is h e = refl
  guarded false false ts is h e = e
  guarded true true ts is h e = refl
  guarded true false ts is h e = ground (arith, h refl)

  -- Split into words, the prefixes of a title are those of its words without the suffixes, from the
  -- first word on up to all; there are none if it has one word at most. Here the blank that joins
  -- words is a space to `split`.
  pub split-generate_title_prefixes :
      (strip_suffixes : Title → Title) (title : Title)
      → map (split is_space) (generate_title_prefixes is_space strip_suffixes title) ≡ (
          if leb (length (base_words is_space strip_suffixes title)) 1
          then []
          else inits (base_words is_space strip_suffixes title))
  unfolding generate_title_prefixes
  split-generate_title_prefixes strip_suffixes title =
      let base = strip is_space (strip_suffixes (strip is_space title)) in
      let ws = split is_space base in
      let all = split-accumulate [] ws tt (split-words is_space base) ∙ map_id (inits ws) in
      guarded (is_blank base) (leb (length ws) 1) (accumulate [] ws) (inits ws) (no_words base) all
