-- ===== src/Resolution/Groups.antt =====
-- What the loop over the files leaves in the two tables, title by title.
use Prim.Native.String.{String}
use text.Mathlib.Text.{◌==◌}
use text.Mathlib.TextEquality.{eq_iff}
use ani_vault.Base.{
  arith, ℕ, suc, ◌+◌, ◌≡◌, refl, ap, ◌∙◌, Bool, false, not, ◌&&◌, ◌||◌, Option, none, some, List,
  [], ◌∷◌, if◌then◌else◌,
}
use ani_vault.LinkedHash.Assoc.{lookup, insert, lookup-insert, lookup_with_same}
use ani_vault.LinkedHash.Interface.{OrderedTable, IsDict}
use ani_vault.Resolution.{
  FileResolutionInfo, Resolutions, no_resolutions, or_none, or_zero, put_store, add_resolution,
  note_resolution, count_series_file, group_files,
}

-- A file of the title, one of it with a resolution, and how many are of it.
unfoldable pub mentions : String → List FileResolutionInfo → Bool
mentions t [] = false
mentions t (i ∷ is) = (i.series_title == t) || mentions t is

unfoldable pub has_high : String → List FileResolutionInfo → Bool
has_high t [] = false
has_high t (i ∷ is) = ((i.series_title == t) && i.is_high_res) || has_high t is

unfoldable pub has_low : String → List FileResolutionInfo → Bool
has_low t [] = false
has_low t (i ∷ is) = ((i.series_title == t) && not i.is_high_res) || has_low t is

unfoldable pub files_of : String → List FileResolutionInfo → ℕ
files_of t [] = 0
files_of t (i ∷ is) = let rest = files_of t is in if i.series_title == t then suc rest else rest

-- What becomes of the value of a title.
unfoldable pub noted : String → Option Resolutions → List FileResolutionInfo → Option Resolutions
unfolding add_resolution
noted t o [] = o
noted t o (i ∷ is) =
    noted t (if i.series_title == t then some (add_resolution i.is_high_res (or_none o)) else o) is

unfoldable pub counted : String → Option ℕ → List FileResolutionInfo → Option ℕ
counted t o [] = o
counted t o (i ∷ is) = counted t (if i.series_title == t then some (or_zero o + 1) else o) is

noted-some :
    (t : String) (s : Resolutions) (is : List FileResolutionInfo)
    → noted t (some s) is
      ≡ some (record {
        has_true = s.has_true || has_high t is;
        has_false = s.has_false || has_low t is;
      })
unfolding noted has_high has_low add_resolution
noted-some t s [] = ground arith
noted-some t s (i ∷ is) =
    ground (arith, noted-some t s is, noted-some t (add_resolution i.is_high_res s) is)

pub noted-none :
    (t : String) (is : List FileResolutionInfo)
    → noted t none is ≡ (
        if mentions t is
        then some (record { has_true = has_high t is; has_false = has_low t is })
        else none)
unfolding noted mentions has_high has_low add_resolution
noted-none t [] = refl
noted-none t (i ∷ is) =
    ground (arith, noted-none t is, noted-some t (add_resolution i.is_high_res no_resolutions) is)

counted-some :
    (t : String) (n : ℕ) (is : List FileResolutionInfo)
    → counted t (some n) is ≡ some (n + files_of t is)
unfolding counted files_of
counted-some t n [] = ground arith
counted-some t n (i ∷ is) = ground (arith, counted-some t n is, counted-some t (n + 1) is)

pub counted-none :
    (t : String) (is : List FileResolutionInfo)
    → counted t none is ≡ (if mentions t is then some (files_of t is) else none)
unfolding counted mentions files_of
counted-none t [] = refl
counted-none t (i ∷ is) = ground (arith, counted-none t is, counted-some t 1 is)

-- The dicts that the tables stand for.
unfoldable pub noted_dict :
    List FileResolutionInfo → List (String × Resolutions) → List (String × Resolutions)
unfolding add_resolution lookup insert
noted_dict [] d = d
noted_dict (i ∷ is) d = noted_dict is (
    insert ◌==◌ i.series_title
      (add_resolution i.is_high_res (or_none (lookup ◌==◌ i.series_title d))) d)

unfoldable pub counted_dict : List FileResolutionInfo → List (String × ℕ) → List (String × ℕ)
unfolding lookup insert
counted_dict [] d = d
counted_dict (i ∷ is) d =
    counted_dict is (insert ◌==◌ i.series_title (or_zero (lookup ◌==◌ i.series_title d) + 1) d)

pub lookup-noted_dict :
    (t : String) (is : List FileResolutionInfo) (d : List (String × Resolutions))
    → lookup ◌==◌ t (noted_dict is d) ≡ noted t (lookup ◌==◌ t d) is
unfolding noted noted_dict
lookup-noted_dict t [] d = refl
lookup-noted_dict t (i ∷ is) d =
    lookup-noted_dict t is _
    ∙ ap (λ o. noted t o is)
        (lookup-insert ◌==◌ eq_iff i.series_title t _ d
          ∙ lookup_with_same ◌==◌ eq_iff (λ o. some (add_resolution i.is_high_res (or_none o)))
              (lookup ◌==◌ t d) i.series_title t d)

pub lookup-counted_dict :
    (t : String) (is : List FileResolutionInfo) (d : List (String × ℕ))
    → lookup ◌==◌ t (counted_dict is d) ≡ counted t (lookup ◌==◌ t d) is
unfolding counted counted_dict
lookup-counted_dict t [] d = refl
lookup-counted_dict t (i ∷ is) d =
    lookup-counted_dict t is _
    ∙ ap (λ o. counted t o is)
        (lookup-insert ◌==◌ eq_iff i.series_title t _ d
          ∙ lookup_with_same ◌==◌ eq_iff (λ o. some (or_zero o + 1)) (lookup ◌==◌ t d)
              i.series_title t d)

module _ (sets : OrderedTable String Resolutions) (laws : IsDict ◌==◌ sets) where
  note_resolution-insert :
      (i : FileResolutionInfo) (s : sets.Store) (d : List (String × Resolutions))
      → laws.Stands s d
      → (s' : sets.Store) × (note_resolution sets i s ≡ some s')
        × laws.Stands s' (
            insert ◌==◌ i.series_title
              (add_resolution i.is_high_res (or_none (lookup ◌==◌ i.series_title d)))
              d)
  unfolding note_resolution
  note_resolution-insert i s d h =
      let found = laws.get_stands i.series_title s d h in
      let (s', put, stands) =
        laws.put_stands i.series_title
          (add_resolution i.is_high_res (or_none (lookup ◌==◌ i.series_title d))) s d h in
      (s', rw (found, note_resolution) (ap put_store put), stands)

module _ (counts : OrderedTable String ℕ) (laws : IsDict ◌==◌ counts) where
  count_series_file-insert :
      (i : FileResolutionInfo) (n : counts.Store) (d : List (String × ℕ))
      → laws.Stands n d
      → (n' : counts.Store) × (count_series_file counts i n ≡ some n')
        × laws.Stands n' (insert ◌==◌ i.series_title (or_zero (lookup ◌==◌ i.series_title d) + 1) d)
  unfolding count_series_file
  count_series_file-insert i n d h =
      let found = laws.get_stands i.series_title n d h in
      let (n', put, stands) =
        laws.put_stands i.series_title (or_zero (lookup ◌==◌ i.series_title d) + 1) n d h in
      (n', rw (found, count_series_file) (ap put_store put), stands)

module _ (sets : OrderedTable String Resolutions) (counts : OrderedTable String ℕ)
    (sets_laws : IsDict ◌==◌ sets) (counts_laws : IsDict ◌==◌ counts) where
  group_again :
      (i : FileResolutionInfo) (is : List FileResolutionInfo) (s s' : sets.Store)
      (n n' : counts.Store)
      → note_resolution sets i s ≡ some s'
      → count_series_file counts i n ≡ some n'
      → group_files sets counts (i ∷ is) s n ≡ group_files sets counts is s' n'
  unfolding group_files
  group_again i is s s' n n' e f = rw (e, group_files) (rw f refl)

  -- The loop ends, and leaves tables that stand for the two dicts.
  pub group_files-dicts :
      (is : List FileResolutionInfo) (s : sets.Store) (n : counts.Store)
      (d : List (String × Resolutions)) (e : List (String × ℕ))
      → sets_laws.Stands s d
      → counts_laws.Stands n e
      → (s' : sets.Store) × (n' : counts.Store) × (group_files sets counts is s n ≡ some (s', n'))
        × sets_laws.Stands s' (noted_dict is d)
        × counts_laws.Stands n' (counted_dict is e)
  unfolding group_files noted_dict counted_dict
  group_files-dicts [] s n d e h k = (s, n, refl, h, k)
  group_files-dicts (i ∷ is) s n d e h k =
      let (s', noted_, h') = note_resolution-insert sets sets_laws i s d h in
      let (n', counted_, k') = count_series_file-insert counts counts_laws i n e k in
      let (s'', n'', ran, h'', k'') = group_files-dicts is s' n' _ _ h' k' in
      (s'', n'', group_again i is s s' n n' noted_ counted_ ∙ ran, h'', k'')
