-- ===== src/Resolution/Series.antt =====
-- The analysis of a library: one summary for each title.
use Prim.Native.String.{String}
use text.Mathlib.Text.{◌==◌}
use ani_vault.Base.{
  arith, ℕ, ◌≡◌, refl, sym, ◌∙◌, All, inl, inr, true, false, ◌&&◌, Option, none, some, List, [],
  if◌then◌else◌,
}
use ani_vault.LinkedHash.Assoc.{lookup}
use ani_vault.LinkedHash.Interface.{OrderedTable, IsDict}
use ani_vault.Resolution.{
  FileResolutionInfo, Resolutions, ResolutionSummary, Regexes, ScannedFile, or_zero, analyzed,
  summarize, group_files, extract_all, analyze_infos, analyze_series,
}
use ani_vault.Resolution.Groups.{
  mentions, has_high, has_low, files_of, noted-none, counted-none, noted_dict, counted_dict,
  lookup-noted_dict, lookup-counted_dict, group_files-dicts,
}
use ani_vault.Resolution.Found.{summary_of}
use ani_vault.Resolution.Extracted.{
  IsNamed, mentions-extract_all, has_high-extract_all, has_low-extract_all, files_of-extract_all,
  mentions_no_empty,
}
use ani_vault.Resolution.Summaries.{
  summed, lookup-sum_dict, has_empty, has_empty-lookup, summarize-dict,
}

-- The summary that the found titles and resolutions give to a title.
summary_of_infos : List FileResolutionInfo → String → Option ResolutionSummary
unfolding mentions has_high has_low files_of
summary_of_infos infos t =
    if mentions t infos
    then some (record {
      summary_title = t;
      has_mixed_resolutions = has_high t infos && has_low t infos;
      has_high_res = has_high t infos;
      has_low_res = has_low t infos;
      file_count = files_of t infos;
    })
    else none

summed-summary_of_infos :
    (infos : List FileResolutionInfo) (t : String)
    → summed
        (λ k. or_zero (lookup ◌==◌ k (counted_dict infos [])))
        t
        none
        (lookup ◌==◌ t (noted_dict infos []))
      ≡ summary_of_infos infos t
unfolding summed summary_of_infos lookup
summed-summary_of_infos infos t =
    let types = lookup-noted_dict t infos [] ∙ noted-none t infos in
    let files = lookup-counted_dict t infos [] ∙ counted-none t infos in
    ground (arith, types, files)

has_empty-mentions :
    (infos : List FileResolutionInfo) → has_empty (noted_dict infos []) ≡ mentions "" infos
unfolding lookup
has_empty-mentions infos =
    let types = lookup-noted_dict "" infos [] ∙ noted-none "" infos in
    has_empty-lookup (noted_dict infos []) ∙ ground (arith, types)

-- The summary of the titles that the code finds is that of what the files say.
summary_of_infos-extract_all :
    (r : Regexes) (files : List ScannedFile) (t : String)
    → summary_of_infos (extract_all r files) t ≡ summary_of r files t
unfolding summary_of_infos summary_of
summary_of_infos-extract_all r files t =
    rw
      (
        mentions-extract_all r t files,
        has_high-extract_all r t files,
        has_low-extract_all r t files,
        files_of-extract_all r t files,
      )
      refl

module _ (sets : OrderedTable String Resolutions) (counts : OrderedTable String ℕ)
    (sums : OrderedTable String ResolutionSummary) (sets_laws : IsDict ◌==◌ sets)
    (counts_laws : IsDict ◌==◌ counts) (sums_laws : IsDict ◌==◌ sums) where
  analyze_infos-summarize :
      (infos : List FileResolutionInfo) (s : sets.Store) (n : counts.Store)
      (items : List (String × Resolutions))
      → group_files sets counts infos sets.new counts.new ≡ some (s, n)
      → sets.items s ≡ some items
      → analyze_infos sets counts sums infos ≡ summarize counts sums items n sums.new
  unfolding analyze_infos
  analyze_infos-summarize infos s n items grouped listed =
      rw (grouped, analyze_infos) (rw listed refl)

  -- Over tables that behave as dicts, and for files whose matches have no empty title, the analysis
  -- of a library ends without an exception, and the table that it returns stands for a dict that has
  -- exactly the titles of the files that have a title and a resolution, each with the summary of
  -- those files of it: how many there are, which resolutions, and mixed if there are both. The title
  -- of a file is that of its match, or else that in its name; its resolution is the quality of its
  -- match, or else that in its name.
  pub analyze_series-summary_of :
      (r : Regexes) (files : List ScannedFile)
      → All IsNamed files
      → (t : sums.Store) × (d : List (String × ResolutionSummary)) × (analyze_series sets counts
            sums r files
          ≡ analyzed t)
        × sums_laws.Stands t d
        × ((title : String) → lookup ◌==◌ title d ≡ summary_of r files title)
  unfolding analyze_series lookup
  analyze_series-summary_of r files all_named =
      let infos = extract_all r files in
      let (s, n, grouped, stands, counts_stand) =
        group_files-dicts sets counts sets_laws counts_laws infos sets.new counts.new [] []
          sets_laws.new_stands counts_laws.new_stands in
      let items = sets_laws.items_stands s (noted_dict infos []) stands in
      let distinct = sets_laws.distinct_stands s (noted_dict infos []) stands in
      let ran : analyze_series sets counts sums r files
          ≡ summarize counts sums (noted_dict infos []) n sums.new =
        analyze_infos-summarize infos s n (noted_dict infos []) grouped items in
      elim (summarize-dict counts sums counts_laws sums_laws (noted_dict infos []) n sums.new
        (counted_dict infos []) [] counts_stand sums_laws.new_stands) [
          | inl (empty, raises) ↦
              let both : true ≡ false =
                sym empty ∙ has_empty-mentions infos ∙ mentions_no_empty r files all_named in
              cc
          | inr (named, (t, made, stands')) ↦ (
            t,
            _,
            ran ∙ made,
            stands',
            λ title.
                lookup-sum_dict _ title (noted_dict infos []) [] distinct
                ∙ summed-summary_of_infos infos title
                ∙ summary_of_infos-extract_all r files title,
          )
        ]
