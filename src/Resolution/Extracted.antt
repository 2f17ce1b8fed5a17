-- ===== src/Resolution/Extracted.antt =====
-- The code of the analysis finds of each file what the file says, and so the same of all files.
use Prim.Native.String.{String}
use text.Mathlib.Text.{◌==◌}
use text.Mathlib.TextEquality.{eq_iff}
use ani_vault.Base.{
  chosen, passed, Bool-cases, ap, sym, ◌∙◌, arith, ◌≡◌, ◌≢◌, refl, Bool, true, false, not, ◌&&◌,
  Option, none, some, List, [], ◌∷◌, ◌++◌, map, All, Option-cases, inl, inr,
}
use ani_vault.Resolution.{
  Regexes, ScannedFile, FileResolutionInfo, high_resolution, map_dimensions_to_resolution,
  first_match, if_not_empty, if_truthy, is_any_within, is_high_resolution,
  detect_from_filename_pattern, extract_title_from_filename, filename_resolution,
  extract_file_resolution, extract_all, detect_from_tmdb_metadata,
}
use ani_vault.Resolution.Groups.{mentions, has_high, has_low, files_of}
use ani_vault.Resolution.Found.{
  first_of, is_any, count, dimensions_label, quality_in_name, title_in_name, title_of,
  resolution_of, is_high, has,
}

-- The title of a file's match, if it has one, is not empty.
abbrev pub IsNamed : ScannedFile → Type 0
IsNamed f = f.match_title ≢ some ""

module _ (r : Regexes) where
  open r use {search_all, search_dimensions, search_titles, without_suffixes, is_within}

  first_match-first_of :
      (searches : List (String → Option String)) (name : String) (last : Option String)
      → first_of (map (λ s. s name) searches ++ last ∷ [])
        ≡ elim (first_match searches name) [ none ↦ first_of (last ∷ []) | some s ↦ some s ]
  unfolding first_of first_match
  first_match-first_of [] name last = refl
  first_match-first_of (s ∷ searches) name last = elim (Option-cases (s name)) [
    | inl e ↦ rw e (first_match-first_of searches name last)
    | inr (g, e) ↦ rw e refl
  ]

  is_any_within-is_any :
      (ps : List String) (quality : String)
      → is_any_within r ps quality ≡ is_any (λ p. is_within p quality) ps
  unfolding is_any_within is_any
  is_any_within-is_any [] quality = refl
  is_any_within-is_any (p ∷ ps) quality = ground (arith, is_any_within-is_any ps quality)

  is_high_resolution-is_high : (q : String) → is_high_resolution r q ≡ is_high r q
  unfolding is_high_resolution is_high
  is_high_resolution-is_high q = ground (arith, is_any_within-is_any high_resolution q)

  -- What the detection in a file name finds.
  abbrev marked : Option String → Option (String × Bool)
  marked none = none
  marked (some q) = some (q, is_high r q)

  detect-quality_in_name :
      (name : String) → detect_from_filename_pattern r name ≡ marked (quality_in_name r name)
  unfolding detect_from_filename_pattern quality_in_name first_of
  detect-quality_in_name name =
      let all = first_match-first_of search_all name (dimensions_label (search_dimensions name)) in
      elim (Option-cases (first_match search_all name)) [
        | inr (q, e) ↦ ground (arith, all, e, is_high_resolution-is_high q)
        | inl e ↦ elim (Option-cases (search_dimensions name)) [
          | inl none_found ↦ ground (arith, all, e, none_found)
          | inr ((width, height), found) ↦ ground (
            arith,
            all,
            e,
            found,
            is_high_resolution-is_high (map_dimensions_to_resolution width height),
          )
        ]
      ]

  extract_title-title_in_name :
      (name : String) → if_truthy (extract_title_from_filename r name) ≡ title_in_name r name
  unfolding extract_title_from_filename title_in_name first_of
  extract_title-title_in_name name =
      ground (arith, first_match-first_of search_titles name (if_not_empty (without_suffixes name)))

  -- Title and resolution of a file, if it has both.
  abbrev paired : Option String → Option String → Option (String × Bool)
  paired none o = none
  paired (some t) none = none
  paired (some t) (some q) = some (t, is_high r q)

  abbrev told : Option FileResolutionInfo → Option (String × Bool)
  told none = none
  told (some i) = some (i.series_title, i.is_high_res)

  filename_resolution-paired :
      (name : String)
      → told (filename_resolution r name) ≡ paired (title_in_name r name) (quality_in_name r name)
  unfolding filename_resolution
  filename_resolution-paired name =
      ground (arith, detect-quality_in_name name, extract_title-title_in_name name)

  extract-paired :
      (f : ScannedFile)
      → told (extract_file_resolution r f) ≡ paired (title_of r f) (resolution_of r f)
  unfolding extract_file_resolution detect_from_tmdb_metadata title_of resolution_of first_of
  extract-paired f = elim (Option-cases f.match_title) [
    | inl e ↦ ground (arith, e, filename_resolution-paired f.file_name)
    | inr (t, e) ↦ elim (Option-cases (if_truthy f.quality)) [
      | inr (q, k) ↦ ground (arith, e, k, is_high_resolution-is_high q)
      | inl k ↦
          ground (
            arith,
            e,
            k,
            detect-quality_in_name f.file_name,
            filename_resolution-paired f.file_name,
          )
    ]
  ]

  -- The test of `has`, of what a file is told to be.
  abbrev told_to_be : (Bool → Bool) → String → Option (String × Bool) → Bool
  told_to_be test title none = false
  told_to_be test title (some (t, high)) = (t == title) && test high

  has-told :
      (test : Bool → Bool) (title : String) (f : ScannedFile)
      → has r (λ q. test (is_high r q)) title f
        ≡ told_to_be test title (told (extract_file_resolution r f))
  unfolding has
  has-told test title f =
      let same = extract-paired f in
      elim (Option-cases (title_of r f)) [
        | inl e ↦ rw (e, has) (ground (arith, same, e))
        | inr (t, e) ↦ elim (Option-cases (resolution_of r f)) [
          | inl k ↦ rw (e, has) (rw k (ground (arith, same, e, k)))
          | inr (q, k) ↦ rw (e, has) (rw k (ground (arith, same, e, k)))
        ]
      ]

  pub mentions-extract_all :
      (title : String) (files : List ScannedFile)
      → mentions title (extract_all r files) ≡ is_any (has r (λ q. true) title) files
  unfolding mentions extract_all is_any
  mentions-extract_all title [] = refl
  mentions-extract_all title (f ∷ files) =
      ground (arith, mentions-extract_all title files, has-told (λ h. true) title f)

  pub has_high-extract_all :
      (title : String) (files : List ScannedFile)
      → has_high title (extract_all r files) ≡ is_any (has r (is_high r) title) files
  unfolding has_high extract_all is_any
  has_high-extract_all title [] = refl
  has_high-extract_all title (f ∷ files) =
      ground (arith, has_high-extract_all title files, has-told (λ h. h) title f)

  pub has_low-extract_all :
      (title : String) (files : List ScannedFile)
      → has_low title (extract_all r files) ≡ is_any (has r (λ q. not (is_high r q)) title) files
  unfolding has_low extract_all is_any
  has_low-extract_all title [] = refl
  has_low-extract_all title (f ∷ files) =
      ground (arith, has_low-extract_all title files, has-told not title f)

  pub files_of-extract_all :
      (title : String) (files : List ScannedFile)
      → files_of title (extract_all r files) ≡ count (has r (λ q. true) title) files
  unfolding files_of extract_all count
  files_of-extract_all title [] = refl
  files_of-extract_all title (f ∷ files) =
      ground (arith, files_of-extract_all title files, has-told (λ h. true) title f)

  truthy : (o : Option String) → if_truthy o ≢ some ""
  truthy none = λ e. cc
  truthy (some s) = λ e. elim (Bool-cases (s == "")) [
    | inl empty ↦
        let absurd : Path (Option String) none (some "") = sym (chosen none (some s) empty) ∙ e in
        cc
    | inr other ↦
        let same : some s ≡ some "" = sym (passed _ _ other) ∙ e in
        let equal : s ≡ "" = cc in
        let both : true ≡ false = sym ((eq_iff s "").1 equal) ∙ other in cc
  ]

  first_of_one : (o : Option String) → first_of (o ∷ []) ≡ o
  unfolding first_of
  first_of_one none = refl
  first_of_one (some s) = refl

  title_of-IsNamed : (f : ScannedFile) → IsNamed f → title_of r f ≢ some ""
  unfolding title_of title_in_name first_of
  title_of-IsNamed f h e = elim (Option-cases f.match_title) [
    | inl k ↦ truthy (extract_title_from_filename r f.file_name) (
        extract_title-title_in_name f.file_name
        ∙ sym (first_of_one (title_in_name r f.file_name))
        ∙ sym (ap (λ o. first_of (o ∷ title_in_name r f.file_name ∷ [])) k)
        ∙ e)
    | inr (t, k) ↦ h (k ∙ sym (ap (λ o. first_of (o ∷ title_in_name r f.file_name ∷ [])) k) ∙ e)
  ]

  has_no_empty : (f : ScannedFile) → IsNamed f → has r (λ q. true) "" f ≡ false
  unfolding has
  has_no_empty f h = elim (Option-cases (title_of r f)) [
    | inl e ↦ rw (e, has) refl
    | inr (t, e) ↦ elim (Bool-cases (t == "")) [
      | inl empty ↦ elim (title_of-IsNamed f h (e ∙ ap (λ u. some u) ((eq_iff t "").0 empty))) [ ]
      | inr other ↦ elim (Option-cases (resolution_of r f)) [
        | inl k ↦ rw (e, has) (rw k refl)
        | inr (q, k) ↦ rw (e, has) (rw k (rw other refl))
      ]
    ]
  ]

  pub mentions_no_empty :
      (files : List ScannedFile) → All IsNamed files → mentions "" (extract_all r files) ≡ false
  unfolding mentions extract_all is_any
  mentions_no_empty [] h = refl
  mentions_no_empty (f ∷ files) (h, hs) = ground (
    arith,
    mentions_no_empty files hs,
    has_no_empty f h,
    mentions-extract_all "" files,
    mentions-extract_all "" (f ∷ files),
  )
