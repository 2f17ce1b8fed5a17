-- ===== src/TmdbSearch.antt =====
-- How `TMDBClient` of src/anivault/infrastructure/tmdb/tmdb_client.py searches titles and fetches
-- details, with the strategies of src/anivault/infrastructure/tmdb/tmdb_strategies.py.
--
-- What the API returns for a title is a parameter, and so is what the conversion to a dataclass makes
-- of one raw result.
use ani_vault.Base.{
  ℕ, zero, suc, Bool, true, false, Option, none, some, List, [], ◌∷◌, ◌++◌, length, if◌then◌else◌,
}
use ani_vault.Titles.{Title, generate_title_prefixes}
use ani_vault.TmdbClient.{
  Response, Failure, infrastructure, unavailable, unexpected, media_not_found, invalid_media_type,
  request_failed, Outcome, done, failed, stuck, Client, Settings, Step, ◌>>=◌, make_request,
}
pub mod Fallback
pub mod Refusals
mod Tests

-- A raw result that is converted, skipped for a `TypeError` or a `KeyError`, or breaks the loop.
pub data Converted (R : Type 0) : Type 0 where
  converted : R → Converted R
  skipped breaks_off : Converted R

pub record SearchResponse (R : Type 0) : Type 0 where
  pub page : ℕ
  pub total_pages : ℕ
  pub total_results : ℕ
  pub results : List R

pub data MediaType : Type 0 where
  tv movie unsupported : MediaType

abbrev pub is_none : {A : Type 0} → List A → Bool
is_none [] = true
is_none (x ∷ xs) = false

abbrev pub results_of : {R : Type 0} → Option (List R) → List R
results_of none = []
results_of (some rs) = rs

-- Every exception of the request or of the conversion that is no `AniVaultError` is reported as one.
unfoldable pub as_reported : {A : Type 0} → Outcome A → Outcome A
as_reported (done a) = done a
as_reported (failed unexpected) = failed (infrastructure request_failed)
as_reported (failed (infrastructure e)) = failed (infrastructure e)
as_reported (failed unavailable) = failed unavailable
as_reported stuck = stuck

-- `_to_details_model`, with the two exceptions that it catches
abbrev pub details_of : {R : Type 0} → Converted R → Outcome (Option R)
details_of (converted r) = done (some r)
details_of skipped = done none
details_of breaks_off = failed unexpected

module _ {Raw R : Type 0} (convert : Raw → Converted R) where
  -- The loop over the raw results, if no exception leaves it.
  unfoldable pub convert_all : List Raw → Option (List R)
  convert_all [] = some []
  convert_all (raw ∷ raws) =
      let rest = convert_all raws in
      elim (convert raw) [
        | converted r ↦ elim rest [ none ↦ none | some rs ↦ some (r ∷ rs) ]
        | skipped ↦ rest
        | breaks_off ↦ none
      ]

  -- The search of a strategy: every exception ends it without results. The request returns none if
  -- the answer is empty or has no results.
  unfoldable pub strategy_search : Step (Option (List Raw)) → Step (List R)
  unfolding convert_all
  strategy_search request c =
      let (o, c') = request c in
      elim o [
        | done none ↦ (done [], c')
        | done (some raws) ↦ (done (results_of (convert_all raws)), c')
        | failed e ↦ (done [], c')
        | stuck ↦ (stuck, c')
      ]

module _ {R : Type 0} where
  -- The loop over the strategies; one that raises is passed over.
  unfoldable pub search_each : List (Title → Step (List R)) → Title → List R → Step (List R)
  search_each [] title all_results c = (done all_results, c)
  search_each (strategy ∷ strategies) title all_results c =
      let (o, c') = strategy title c in
      let found : List R → Step (List R) =
        λ results. search_each strategies title (all_results ++ results) in
      elim o [ done results ↦ found results c' | failed e ↦ found [] c' | stuck ↦ (stuck, c') ]

  unfoldable pub search_with_strategies : List (Title → Step (List R)) → Title → Step (List R)
  unfolding search_each
  search_with_strategies strategies title = search_each strategies title []

  module _ (strategies : List (Title → Step (List R))) where
    -- The loop over the prefixes, with the results of the last one that had some.
    unfoldable pub try_prefixes : List Title → Option (List R) → Step (Option (List R))
    unfolding search_with_strategies ◌>>=◌
    try_prefixes [] last c = (done last, c)
    try_prefixes (query ∷ queries) last c =
        let next : List R → Step (Option (List R)) = λ candidate.
          if is_none candidate
          then (λ c'. (done last, c'))
          else try_prefixes queries (some candidate) in
        (search_with_strategies strategies query >>= next) c

    -- The fallback, if the whole title has no results.
    unfoldable pub fall_back : List Title → List R → Step (List R)
    unfolding try_prefixes ◌>>=◌
    fall_back prefixes [] c =
        (try_prefixes prefixes none >>= λ last. λ c'. (done (results_of last), c')) c
    fall_back prefixes (r ∷ rs) c = (done (r ∷ rs), c)

    unfoldable pub respond_with : List R → Step (SearchResponse R)
    respond_with [] c = (failed (infrastructure media_not_found), c)
    respond_with (r ∷ rs) c = (
      done
          (record { page = 1; total_pages = 1; total_results = length (r ∷ rs); results = r ∷ rs }),
      c,
    )

    module _ (is_space : ℕ → Bool) (strip_suffixes : Title → Title) where
      unfoldable pub search_media : Title → Step (SearchResponse R)
      unfolding search_with_strategies fall_back respond_with ◌>>=◌
      search_media title = do
        results ← search_with_strategies strategies title
        found ← fall_back (generate_title_prefixes is_space strip_suffixes title) results
        respond_with found

module _ (settings : Settings) (clock : ℕ → ℕ) (fuel : ℕ) (slot_comes : Bool) {Raw R : Type 0} where
  -- A strategy of the client: its requests go through `make_request`.
  unfoldable pub client_strategy :
      (Raw → Converted R) → (Title → ℕ → Response (Option (List Raw))) → Title → Step (List R)
  unfolding strategy_search
  client_strategy convert search title =
      strategy_search convert (make_request settings clock (search title) fuel slot_comes)

  unfoldable pub request_details : (Raw → Converted R) → (ℕ → Response Raw) → Step (Option R)
  unfolding as_reported ◌>>=◌
  request_details convert details c =
      let (o, c') =
        (make_request settings clock details fuel slot_comes >>= λ raw c'.
        (details_of (convert raw), c'))
          c in
      (as_reported o, c')

  unfoldable pub get_media_details :
      (MediaType → Raw → Converted R) → (MediaType → ℕ → Response Raw) → MediaType → Step (Option R)
  unfolding request_details
  get_media_details convert details unsupported c = (failed (infrastructure invalid_media_type), c)
  get_media_details convert details tv c = request_details (convert tv) (details tv) c
  get_media_details convert details movie c = request_details (convert movie) (details movie) c
