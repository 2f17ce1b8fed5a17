-- ===== src/Titles.antt =====
-- The shorter titles that `generate_title_prefixes` and `generate_shortened_titles` of
-- src/anivault/infrastructure/tmdb/tmdb_utils.py make for another search.
--
-- A title is a list of code points. What `str.split` takes for a space, what `str.lower` makes of a
-- title and what the regular expressions of `_VERSION_SUFFIX_PATTERNS` leave of it are parameters.
use ani_vault.Base.{
  ℕ, zero, suc, ◌+◌, Bool, true, false, ◌&&◌, List, [], ◌∷◌, ◌++◌, length, leb, ◌==◌, if◌then◌else◌,
}
pub mod Words
pub mod Prefixes
pub mod Shortened
mod Tests

abbrev pub Title : Type 0
Title = List ℕ

abbrev pub space : ℕ
space = 32

abbrev pub is_blank : Title → Bool
is_blank [] = true
is_blank (c ∷ s) = false

-- " ".join
unfoldable pub join : List Title → Title
join [] = []
join (w ∷ []) = w
join (w ∷ v ∷ ws) = w ++ space ∷ join (v ∷ ws)

-- A word that ends, before the words behind it.
unfoldable pub flush : Title → List Title → List Title
flush [] ws = ws
flush (c ∷ w) ws = (c ∷ w) ∷ ws

-- The loop that builds the prefixes, with the words behind it.
unfoldable pub accumulate : List Title → List Title → List Title
unfolding join
accumulate acc [] = []
accumulate acc (w ∷ ws) = let acc' = acc ++ w ∷ [] in join acc' ∷ accumulate acc' ws

-- `current_words.pop()` until one word is left
unfoldable pub drop_last : List Title → List Title
drop_last [] = []
drop_last (w ∷ []) = []
drop_last (w ∷ v ∷ ws) = w ∷ drop_last (v ∷ ws)

unfoldable pub trim_words : ℕ → List Title → List Title
unfolding join drop_last
trim_words zero ws = []
trim_words (suc fuel) ws =
    let left = drop_last ws in
    let rest = trim_words fuel left in if leb (length ws) 1 then [] else join left ∷ rest

unfoldable pub same_title : Title → Title → Bool
same_title [] [] = true
same_title [] (d ∷ t) = false
same_title (c ∷ s) [] = false
same_title (c ∷ s) (d ∷ t) = (c == d) && same_title s t

unfoldable pub seen_in : Title → List Title → Bool
unfolding same_title
seen_in t [] = false
seen_in t (s ∷ seen) = if same_title t s then true else seen_in t seen

module _ (lower : Title → Title) where
  -- The loop that removes duplicates.
  unfoldable pub unique_titles : List Title → List Title → List Title
  unfolding seen_in
  unique_titles seen [] = []
  unique_titles seen (t ∷ ts) =
      let rest = unique_titles seen ts in
      let rest' = unique_titles (lower t ∷ seen) ts in
      if seen_in (lower t) seen then rest else t ∷ rest'

module _ (is_space : ℕ → Bool) where
  -- The word that a title starts with, which may be empty, and the words behind it.
  unfoldable pub pieces : Title → Title × List Title
  unfolding flush
  pieces [] = ([], [])
  pieces (c ∷ s) = let (w, ws) = pieces s in if is_space c then ([], flush w ws) else (c ∷ w, ws)

  -- str.split()
  unfoldable pub split : Title → List Title
  unfolding pieces flush
  split s = flush (pieces s).0 (pieces s).1

  unfoldable pub strip_left : Title → Title
  strip_left [] = []
  strip_left (c ∷ s) = let rest = strip_left s in if is_space c then rest else c ∷ s

  unfoldable pub strip_right : Title → Title
  strip_right [] = []
  strip_right (c ∷ s) =
      let rest = strip_right s in if is_blank rest && is_space c then [] else c ∷ rest

  -- str.strip()
  unfoldable pub strip : Title → Title
  unfolding strip_left strip_right
  strip s = strip_right (strip_left s)

  module _ (strip_suffixes : Title → Title) where
    unfoldable pub generate_title_prefixes : Title → List Title
    unfolding strip split accumulate
    generate_title_prefixes title =
        let base = strip (strip_suffixes (strip title)) in
        let words = split base in
        if is_blank base then [] else if leb (length words) 1 then [] else accumulate [] words

    module _ (lower : Title → Title) where
      unfoldable pub generate_shortened_titles : Title → List Title
      unfolding split strip trim_words unique_titles same_title
      generate_shortened_titles title =
          let words = split (strip title) in
          let base_title = strip (strip_suffixes title) in
          let trimmed = trim_words (length words) words in
          if leb (length words) 1
          then []
          else unique_titles lower []
              (if same_title base_title (strip title) then trimmed else base_title ∷ trimmed)
