-- ===== src/TmdbSearch/Refusals.antt =====
-- A search and a fetch of details while the breaker is open.
use ani_vault.Base.{arith, ℕ, ◌≡◌, ◌≢◌, refl, ap, ◌∙◌, Bool, Option, none, some, List, [], ◌∷◌}
use ani_vault.StateMachine.{cache_only}
use ani_vault.Titles.{Title, generate_title_prefixes}
use ani_vault.TmdbClient.{
  Response, Failure, infrastructure, rate_limit_exceeded, media_not_found, done, failed, stuck,
  unexpected, unavailable, Outcome, Client, Settings, Step, make_request,
}
use ani_vault.TmdbClient.Calm.{IsFree}
use ani_vault.TmdbClient.Request.{make_request-cache_only}
use ani_vault.TmdbSearch.{
  Converted, results_of, convert_all, MediaType, tv, movie, unsupported, strategy_search,
  client_strategy, search_media, as_reported, request_details, get_media_details,
}
use ani_vault.TmdbSearch.Fallback.{
  leading, final, found, reported, together, Comes, Answers, no_strategy, answered,
  search_media-found,
}

-- The client, but for the readings of the clock.
pub record IsUntouched (c c' : Client) : Type 0 where
  pub same_limiter : c'.limiter ≡ c.limiter
  pub same_semaphore : c'.semaphore ≡ c.semaphore
  pub same_calls : c'.calls ≡ c.calls
  pub same_slept : c'.slept ≡ c.slept
  pub same_machine : c'.machine ≡ c.machine

untouched-IsFree : (c c' : Client) → IsUntouched c c' → IsFree c → IsFree c'
untouched-IsFree c c' h locks = record {
  free_limiter = ap (λ g. g.locked) h.same_limiter ∙ locks.free_limiter;
  free_machine = ap (λ g. g.locked) h.same_machine ∙ locks.free_machine;
}

strategy_search-failed :
    {Raw R : Type 0} (convert : Raw → Converted R) (request : Step (Option (List Raw)))
    (c c' : Client) (e : Failure)
    → request c ≡ (failed e, c')
    → strategy_search convert request c ≡ (done [], c')
unfolding strategy_search
strategy_search-failed convert request c c' e h =
    ap
      (λ q. elim (q.0) [
        | done none ↦ (done [], q.1)
        | done (some raws) ↦ (done (results_of (convert_all convert raws)), q.1)
        | failed x ↦ (done [], q.1)
        | stuck ↦ (stuck, q.1)
      ])
      h

as_reported-AniVaultError : {A : Type 0} (o : Outcome A) → as_reported o ≢ failed unexpected
unfolding as_reported
as_reported-AniVaultError (done a) = ground arith
as_reported-AniVaultError (failed (infrastructure e)) = ground arith
as_reported-AniVaultError (failed unavailable) = ground arith
as_reported-AniVaultError (failed unexpected) = ground arith
as_reported-AniVaultError stuck = ground arith

nothing_found :
    {R : Type 0} (prefixes : List Title)
    → found {R = R} (together ((λ q. []) ∷ (λ q. []) ∷ [])) prefixes [] ≡ []
unfolding found together leading final
nothing_found [] = refl
nothing_found (q ∷ qs) = refl

module _ (settings : Settings) (clock : ℕ → ℕ) (fuel : ℕ) (slot_comes : Bool) where
  -- A request of an untouched client whose breaker was open.
  request-refused :
      {A : Type 0} (respond : ℕ → Response A) (start c : Client)
      → IsFree start
      → start.machine.object.state ≡ cache_only
      → IsUntouched start c
      → Comes
          (IsUntouched start)
          (make_request settings clock respond fuel slot_comes)
          c
          (failed (infrastructure rate_limit_exceeded))
  request-refused respond start c locks open_ h =
      let still = ap (λ g. g.object.state) h.same_machine ∙ open_ in
      let (c', ran, limiter, semaphore, calls, slept, machine) =
        make_request-cache_only settings clock respond fuel slot_comes c
          (untouched-IsFree start c h locks) still in
      (
        c',
        ran,
        record {
          same_limiter = limiter ∙ h.same_limiter;
          same_semaphore = semaphore ∙ h.same_semaphore;
          same_calls = calls ∙ h.same_calls;
          same_slept = slept ∙ h.same_slept;
          same_machine = machine ∙ h.same_machine;
        },
      )

module _ (settings : Settings) (clock : ℕ → ℕ) (fuel : ℕ) (slot_comes : Bool) {Raw R : Type 0} where
  client_strategy-Answers :
      (convert : Raw → Converted R) (search : Title → ℕ → Response (Option (List Raw)))
      (start : Client)
      → IsFree start
      → start.machine.object.state ≡ cache_only
      → Answers
          (IsUntouched start)
          (client_strategy settings clock fuel slot_comes convert search)
          (λ q. [])
  unfolding client_strategy
  client_strategy-Answers convert search start locks open_ q c h =
      let (c', ran, same) =
        request-refused settings clock fuel slot_comes (search q) start c locks open_ h in
      (
        c',
        strategy_search-failed convert (make_request settings clock (search q) fuel slot_comes) c c'
            _ ran,
        same,
      )

  -- While the breaker is open a search fails, not as rate limited like its requests, but as if no
  -- media were found; it calls nothing and leaves the client as it was.
  pub search_media-cache_only :
      (convert_tv convert_movie : Raw → Converted R)
      (search_tv search_movie : Title → ℕ → Response (Option (List Raw))) (is_space : ℕ → Bool)
      (strip_suffixes : Title → Title) (title : Title) (c : Client)
      → IsFree c
      → c.machine.object.state ≡ cache_only
      → Comes
          (IsUntouched c)
          (search_media
            (client_strategy settings clock fuel slot_comes convert_tv search_tv
              ∷ client_strategy settings clock fuel slot_comes convert_movie search_movie
              ∷ [])
            is_space
            strip_suffixes
            title)
          c
          (failed (infrastructure media_not_found))
  unfolding together reported
  search_media-cache_only convert_tv convert_movie search_tv search_movie is_space strip_suffixes
        title c locks open_ =
      let self : IsUntouched c c = record {
        same_limiter = refl;
        same_semaphore = refl;
        same_calls = refl;
        same_slept = refl;
        same_machine = refl;
      } in
      let (c', ran, same) =
        search_media-found (IsUntouched c) _ ((λ q. []) ∷ (λ q. []) ∷ [])
          (answered (client_strategy-Answers convert_tv search_tv c locks open_) (
            answered (client_strategy-Answers convert_movie search_movie c locks open_)
              no_strategy))
          is_space strip_suffixes title c self in
      (
        c',
        ran
            ∙ ap (λ r. (reported r, c'))
                (nothing_found (generate_title_prefixes is_space strip_suffixes title)),
        same,
      )

  -- A fetch of details fails only with an `AniVaultError`, whatever the request and the conversion
  -- raise.
  pub get_media_details-AniVaultError :
      (convert : MediaType → Raw → Converted R) (details : MediaType → ℕ → Response Raw)
      (t : MediaType) (c : Client)
      → (get_media_details settings clock fuel slot_comes convert details t c).0 ≢ failed unexpected
  unfolding get_media_details request_details
  get_media_details-AniVaultError convert details tv c = as_reported-AniVaultError _
  get_media_details-AniVaultError convert details movie c = as_reported-AniVaultError _
  get_media_details-AniVaultError convert details unsupported c = ground arith
