-- ===== src/SubtitleIndex/Tests.antt =====
-- An index of three subtitles, one of them missing, and the search by prefix in it.
use Prim.Native.String.{String}
use ani_vault.Base.{ℕ, ◌≡◌, refl, Bool, false, not, Option, some, [], ◌∷◌, ◌==◌}
use ani_vault.Sorting.{sort}
use ani_vault.SubtitleIndex.{
  starts_with, same_name, Name, Index, leb_name, keys, build_index, get_by_name_prefix, is_falsy,
}
use ani_vault.SubtitleIndex.Names.{with_prefix, gathered}
use ani_vault.SubtitleIndex.Prefix.{get_by_name_prefix-build_index}

abbrev blank : Index ℕ
blank = record { hash_index = []; name_index = []; sorted_name_keys = []; path_to_metadata = [] }

-- Paths 1 to 4; 3 is missing, and the files have the same content.
abbrev present : ℕ → Bool
present p = not (p == 3)

abbrev hash : ℕ → Option String
hash p = some "h"

abbrev named : ℕ → Name
named p = p ∷ 7 ∷ []

abbrev built : Index ℕ
built = build_index ◌==◌ present hash named (4 ∷ 2 ∷ 3 ∷ 1 ∷ []) blank

built-sorted_name_keys : built.sorted_name_keys ≡ (1 ∷ 7 ∷ []) ∷ (2 ∷ 7 ∷ []) ∷ (4 ∷ 7 ∷ []) ∷ []
unfolding build_index sort same_name leb_name
built-sorted_name_keys = refl

not_empty : is_falsy {A = ℕ} (2 ∷ []) ≡ false
unfolding is_falsy
not_empty = refl

get_by_name_prefix-build_index_example :
    get_by_name_prefix (2 ∷ []) built
    ≡ some
        (gathered built.name_index (with_prefix (2 ∷ []) (sort leb_name (keys built.name_index))))
get_by_name_prefix-build_index_example =
    get_by_name_prefix-build_index ◌==◌ present hash named (4 ∷ 2 ∷ 3 ∷ 1 ∷ []) blank (2 ∷ [])
      not_empty

-- The same search by evaluation.
finds_two : get_by_name_prefix (2 ∷ []) built ≡ some (2 ∷ [])
unfolding build_index get_by_name_prefix sort same_name leb_name starts_with
finds_two = refl
