-- ===== src/PathBuilder.antt =====
-- The names that `PathBuilder` of src/anivault/core/organizer/path_builder.py makes.
--
-- A text is the list of its code points. `is_space` is what `\s` matches.
use ani_vault.Base.{
  ℕ, zero, suc, ◌+◌, Bool, true, false, ◌&&◌, ◌||◌, Option, none, some, List, [], ◌∷◌, map, ltb,
  leb, ◌==◌, if◌then◌else◌,
}
pub mod Clean
pub mod Sanitized
mod Tests

-- <>:"/\|?*
abbrev pub invalid_filename_chars : List ℕ
invalid_filename_chars = 60 ∷ 62 ∷ 58 ∷ 34 ∷ 47 ∷ 92 ∷ 124 ∷ 63 ∷ 42 ∷ []

unfoldable pub member : ℕ → List ℕ → Bool
member c [] = false
member c (x ∷ xs) = (x == c) || member c xs

abbrev pub space : ℕ
space = 32

abbrev pub dot : ℕ
dot = 46

abbrev pub underscore : ℕ
underscore = 95

-- "Unknown"
abbrev pub unknown_name : List ℕ
unknown_name = 85 ∷ 110 ∷ 107 ∷ 110 ∷ 111 ∷ 119 ∷ 110 ∷ []

-- _INVALID_CHARS_TRANSLATION
unfoldable pub translate : List ℕ → List ℕ
unfolding member
translate [] = []
translate (c ∷ s) = (if member c invalid_filename_chars then underscore else c) ∷ translate s

-- replace("_", " ")
unfoldable pub replace_underscores : List ℕ → List ℕ
replace_underscores [] = []
replace_underscores (c ∷ s) = (if c == underscore then space else c) ∷ replace_underscores s

abbrev pub is_stripped : ℕ → Bool
is_stripped c = (c == space) || (c == dot)

-- strip(" ."), from the left and from the right
unfoldable pub strip_left : List ℕ → List ℕ
strip_left [] = []
strip_left (c ∷ s) = let rest = strip_left s in if is_stripped c then rest else c ∷ s

abbrev pub is_blank : List ℕ → Bool
is_blank [] = true
is_blank (c ∷ s) = false

unfoldable pub strip_right : List ℕ → List ℕ
strip_right [] = []
strip_right (c ∷ s) =
    let rest = strip_right s in if is_blank rest && is_stripped c then [] else c ∷ rest

module _ (is_space : ℕ → Bool) where
  -- re.sub(r"\s+", " ", s), whether or not a run of spaces is being read
  unfoldable pub collapse_from : Bool → List ℕ → List ℕ
  collapse_from in_run [] = []
  collapse_from in_run (c ∷ s) =
      let run = collapse_from true s in
      let rest = collapse_from false s in
      if is_space c then (if in_run then run else space ∷ run) else c ∷ rest

  unfoldable pub collapse : List ℕ → List ℕ
  unfolding collapse_from
  collapse s = collapse_from false s

  unfoldable pub sanitize_filename : List ℕ → List ℕ
  unfolding translate replace_underscores collapse strip_left strip_right
  sanitize_filename filename =
      let sanitized =
        strip_right (strip_left (collapse (replace_underscores (translate filename)))) in
      if is_blank sanitized then unknown_name else sanitized
