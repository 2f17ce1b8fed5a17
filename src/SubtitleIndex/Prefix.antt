-- ===== src/SubtitleIndex/Prefix.antt =====
-- The search by prefix, against a plain filter of the names.
use Prim.Native.String.{String}
use ani_vault.Base.{
  ◌≡◌, refl, inl, inr, Bool, true, false, Option, some, List, [], ◌∷◌, All, if◌then◌else◌,
  Bool-cases,
}
use ani_vault.Sorting.{sort, sort-IsSorted, All-sort, IsSorted}
use ani_vault.Sorting.First.{All-map}
use ani_vault.SubtitleIndex.{
  Name, leb_name, starts_with, Index, keys, from_bisect_left, is_falsy, or_empty, build_index,
  matches_from, get_by_name_prefix,
}
use ani_vault.SubtitleIndex.Texts.{leb_name_total, leb_name_trans}
use ani_vault.SubtitleIndex.Names.{
  with_prefix, none_after, starts_below, gathered, IsKnown, keys-IsKnown,
}

module _ {P : Type 0} where
  matches_from-gathered :
      (prefix : Name) (i : Index P) (ks : List Name)
      → IsSorted leb_name ks
      → All (λ k. leb_name prefix k ≡ true) ks
      → All (IsKnown i.name_index) ks
      → matches_from prefix i ks ≡ some (gathered i.name_index (with_prefix prefix ks))
  unfolding matches_from gathered with_prefix or_empty
  matches_from-gathered prefix i [] sorted above known = refl
  matches_from-gathered prefix i (k ∷ ks) sorted above known =
      elim (Bool-cases (starts_with k prefix)) [
        | inl has ↦
            let (ps, e) = known.0 in
            let rest = matches_from-gathered prefix i ks sorted.1 above.1 known.1 in
            rw (has, e, rest) refl
        | inr has_not ↦ rw (has_not, none_after prefix k ks above.0 has_not sorted.0) refl
      ]

  from_bisect_left-gathered :
      (prefix : Name) (i : Index P) (ks : List Name)
      → IsSorted leb_name ks
      → All (IsKnown i.name_index) ks
      → matches_from prefix i (from_bisect_left prefix ks)
        ≡ some (gathered i.name_index (with_prefix prefix ks))
  unfolding from_bisect_left with_prefix
  from_bisect_left-gathered prefix i [] sorted known = matches_from-gathered prefix i [] tt tt tt
  from_bisect_left-gathered prefix i (k ∷ ks) sorted known = elim (Bool-cases (leb_name prefix k)) [
    | inl above ↦ rw above (
        matches_from-gathered prefix i (k ∷ ks) sorted
          (
            above,
            All-map (λ j. leb_name k j ≡ true) (λ j. leb_name prefix j ≡ true) ks
                (λ j e. leb_name_trans prefix k j above e) sorted.0,
          )
          known)
    | inr below ↦
        let without = starts_below prefix k below in
        rw (below, without) (from_bisect_left-gathered prefix i ks sorted.1 known.1)
  ]

  guarded :
      (prefix : Name) (ks : List Name) (i : Index P)
      → matches_from prefix i (from_bisect_left prefix ks)
        ≡ some (gathered i.name_index (with_prefix prefix ks))
      → (if is_falsy ks then some [] else matches_from prefix i (from_bisect_left prefix ks))
        ≡ some (gathered i.name_index (with_prefix prefix ks))
  unfolding is_falsy from_bisect_left matches_from
  guarded prefix [] i found = found
  guarded prefix (k ∷ ks) i found = found

  searched :
      (prefix : Name) (i : Index P)
      → i.sorted_name_keys ≡ sort leb_name (keys i.name_index)
      → is_falsy prefix ≡ false
      → get_by_name_prefix prefix i
        ≡ some (gathered i.name_index (with_prefix prefix (sort leb_name (keys i.name_index))))
  unfolding get_by_name_prefix
  searched prefix i e h =
      let found =
        from_bisect_left-gathered prefix i (sort leb_name (keys i.name_index))
          (sort-IsSorted leb_name leb_name_total leb_name_trans (keys i.name_index))
          (All-sort leb_name (IsKnown i.name_index) (keys i.name_index)
            (keys-IsKnown i.name_index)) in
      rw (h, e, get_by_name_prefix) (guarded prefix (sort leb_name (keys i.name_index)) i found)

  -- In an index that has just been built, the search by a prefix ends without a `KeyError`, and the
  -- binary search with the stop at the first other name finds what a filter of all the indexed
  -- names finds: the files under each name with the prefix, the names in their order.
  pub get_by_name_prefix-build_index :
      (same_path : P → P → Bool) (exists : P → Bool) (content_hash : P → Option String)
      (normalized_name : P → Name) (subtitle_files : List P) (i : Index P) (prefix : Name)
      → is_falsy prefix ≡ false
      → get_by_name_prefix prefix
          (build_index same_path exists content_hash normalized_name subtitle_files i)
        ≡ some (
            gathered
              (build_index same_path exists content_hash normalized_name subtitle_files
                i).name_index
              (with_prefix prefix (
                sort leb_name (
                  keys
                    (build_index same_path exists content_hash normalized_name subtitle_files
                      i).name_index))))
  unfolding build_index get_by_name_prefix
  get_by_name_prefix-build_index same_path exists content_hash normalized_name subtitle_files i
        prefix h =
      searched prefix (build_index same_path exists content_hash normalized_name subtitle_files i)
        refl h
