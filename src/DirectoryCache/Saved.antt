-- ===== src/DirectoryCache/Saved.antt =====
-- What `load_cache` reads back of a file that `save_cache` has written.
use Prim.Native.String.{String}
use mathlib.Core.Path.{subst}
use mathlib.Core.List.{append_assoc, append-nil}
use ani_vault.Base.{
  arith, ◌≡◌, ◌≢◌, refl, sym, ap, ◌∙◌, ◌↔◌, Bool, true, none, some, List, [], ◌∷◌, ◌++◌,
}
use ani_vault.LinkedHash.Assoc.{lookup, insert, Distinct, insert_absent}
use ani_vault.LinkedHash.Interface.{OrderedTable, IsDict}
use ani_vault.DirectoryCache.{
  DirectoryInfo, Stored, info, CacheFile, decoded, written, Manager, init, filled, load_cache,
  to_dict, save_cache,
}
use ani_vault.DirectoryCache.Loaded.{first_error, read_all, fill-read_all}

-- Every pair of the cache, as the file has it.
pub as_stored : List (String × DirectoryInfo) → List (String × Stored)
as_stored [] = []
as_stored ((k, i) ∷ d) = (k, info i) ∷ as_stored d

as_stored-append :
    (c d : List (String × DirectoryInfo)) → as_stored (c ++ d) ≡ as_stored c ++ as_stored d
unfolding as_stored
as_stored-append [] d = refl
as_stored-append ((k, i) ∷ c) d = ap (λ r. (k, info i) ∷ r) (as_stored-append c d)

module _ (same : String → String → Bool) where
  lookup-as_stored :
      (k : String) (c : List (String × DirectoryInfo))
      → lookup same k c ≡ none
      → lookup same k (as_stored c) ≡ none
  unfolding as_stored lookup
  lookup-as_stored k [] h = refl
  lookup-as_stored k ((j, i) ∷ c) h = ground (arith, h, lookup-as_stored k c)

  module _ (same_iff : (a b : String) → (same a b ≡ true) ↔ (a ≡ b)) where
    lookup_there :
        (k : String) (i : DirectoryInfo) (c d : List (String × DirectoryInfo))
        → lookup same k (c ++ (k, i) ∷ d) ≢ none
    unfolding lookup
    lookup_there k i [] d h = ground (arith, h, same_iff k k)
    lookup_there k i ((j, w) ∷ c) d h = ground (arith, h, lookup_there k i c d)

    Distinct-middle :
        (k : String) (i : DirectoryInfo) (c d : List (String × DirectoryInfo))
        → Distinct same (c ++ (k, i) ∷ d)
        → lookup same k c ≡ none
    unfolding Distinct lookup
    Distinct-middle k i [] d h = refl
    Distinct-middle k i ((j, w) ∷ c) d h =
        ground (arith, same_iff j k, h.0, lookup_there k i c d, Distinct-middle k i c d h.1)

    to_dict-as_stored :
        (c d : List (String × DirectoryInfo))
        → Distinct same (c ++ d)
        → to_dict same d (as_stored c) ≡ as_stored (c ++ d)
    unfolding to_dict as_stored
    to_dict-as_stored c [] h = ap as_stored (sym (append-nil c))
    to_dict-as_stored c ((k, i) ∷ d) h =
        let added : insert same k (info i) (as_stored c) ≡ as_stored (c ++ (k, i) ∷ []) =
          insert_absent same k (info i) (as_stored c)
            (lookup-as_stored k c (Distinct-middle k i c d h))
          ∙ sym (as_stored-append c ((k, i) ∷ [])) in
        ap (to_dict same d) added
        ∙ to_dict-as_stored (c ++ (k, i) ∷ []) d
            (subst (Distinct same) (sym (append_assoc c ((k, i) ∷ []) d)) h)
        ∙ ap as_stored (append_assoc c ((k, i) ∷ []) d)

    read_all-as_stored :
        (c d : List (String × DirectoryInfo))
        → Distinct same (c ++ d)
        → read_all same (as_stored d) c ≡ (c ++ d, true)
    unfolding read_all as_stored
    read_all-as_stored c [] h = ap (λ r. (r, true)) (sym (append-nil c))
    read_all-as_stored c ((k, i) ∷ d) h =
        ap (read_all same (as_stored d)) (insert_absent same k i c (Distinct-middle k i c d h))
        ∙ read_all-as_stored (c ++ (k, i) ∷ []) d
            (subst (Distinct same) (sym (append_assoc c ((k, i) ∷ []) d)) h)
        ∙ ap (λ r. (r, true)) (append_assoc c ((k, i) ∷ []) d)

    module _ (o : OrderedTable String DirectoryInfo) (laws : IsDict same o) where
      open laws use {Stands}

      -- A cache that is saved is read back whole by a new manager: the call of `save_cache` ends
      -- with the file written and no exception, `load_cache` of that file ends with none and marks
      -- the manager as loaded, and its cache stands for the same directories in the same order.
      pub load_cache-save_cache :
          (m : Manager o) (d : List (String × DirectoryInfo)) (before : CacheFile)
          → Stands m.cache d
          → (file : CacheFile) × (save_cache o same written before m ≡ some (file, none))
            × (m' : Manager o) × (load_cache o file (init o) ≡ some (m', none))
            × Stands m'.cache d
            × (m'.loaded ≡ true)
      unfolding save_cache load_cache filled first_error as_stored
      load_cache-save_cache m d before h =
          let there = laws.distinct_stands m.cache d h in
          let (t, e, stands) = fill-read_all same o laws (as_stored d) o.new [] laws.new_stands in
          let all_read = read_all-as_stored [] d there in
          (
            decoded (as_stored d),
            rw (save_cache, laws.items_stands m.cache d h)
                (ap (λ s. some (decoded s, none)) (to_dict-as_stored [] d there)),
            record { cache = t; loaded = true },
            ap (filled o) (e ∙ ap (λ r. some (t, first_error r.1)) all_read),
            subst (λ r. Stands t r.0) all_read stands,
            refl,
          )
