-- ===== src/TmdbSearch/Tests.antt =====
-- Searches, and their theorems at concrete inputs.
use ani_vault.Base.{
  ℕ, ◌+◌, ◌≡◌, ◌≢◌, refl, Bool, true, Option, some, List, [], ◌∷◌, ◌==◌, if◌then◌else◌,
}
use ani_vault.Sync.{free}
use ani_vault.RateLimiter.{Limiter}
use ani_vault.StateMachine.{Machine, cache_only}
use ani_vault.Titles.{Title, generate_title_prefixes}
use ani_vault.TmdbClient.{
  Response, breaks, answers, infrastructure, media_not_found, unexpected, done, failed, Client,
  Settings, Step,
}
use ani_vault.TmdbSearch.{
  Converted, converted, skipped, tv, client_strategy, search_with_strategies, search_media,
  get_media_details,
}
use ani_vault.TmdbSearch.Fallback.{
  found, reported, together, Comes, AreAnswered, no_strategy, answered, passed_over,
  search_media-found,
}
use ani_vault.TmdbSearch.Refusals.{
  IsUntouched, search_media-cache_only, get_media_details-AniVaultError,
}

abbrev is_space : ℕ → Bool
is_space c = c == 32

abbrev as_it_is : Title → Title
as_it_is t = t

-- "a b c"
abbrev title : Title
title = 97 ∷ 32 ∷ 98 ∷ 32 ∷ 99 ∷ []

abbrev clock : ℕ → ℕ
clock n = 100 + n

abbrev settings : Settings
settings = record { retry_attempts = 3; retry_delay = 5; poll_delay = 1 }

abbrev bucket : Limiter
bucket = record { unit = 5; capacity = 3; refill_rate = 2; tokens = 10; last_refill = 99 }

-- The breaker is open.
abbrev machine : Machine
machine = record {
  second = 10;
  error_threshold = 60;
  time_window = 100;
  max_retry_after = 300;
  state = cache_only;
  error_timestamps = [];
  success_timestamps = [];
  last_429_time = 0;
  retry_after_delay = 0;
}

abbrev tripped : Client
tripped = record {
  limiter = free bucket;
  semaphore = record { second = 10; concurrency_limit = 2; value = 1 };
  machine = free machine;
  readings = 0;
  calls = 0;
  slept = [];
}

-- A strategy that finds one thing for the first prefix, "a", and one that always raises.
abbrev answer : Title → List ℕ
answer [] = []
answer (c ∷ []) = if c == 97 then 1 ∷ [] else []
answer (c ∷ d ∷ t) = []

abbrev finds : Title → Step (List ℕ)
finds t c = (done (answer t), c)

abbrev raises : Title → Step (List ℕ)
raises t c = (failed unexpected, c)

abbrev Anything : Client → Type 0
Anything c = Unit

strategies-AreAnswered : AreAnswered Anything (raises ∷ finds ∷ []) (answer ∷ [])
strategies-AreAnswered =
    passed_over {s = raises} (λ q c h. (unexpected, (c, refl, tt)))
      (answered {s = finds} {f = answer} (λ q c h. (c, refl, tt)) no_strategy)

search_runs :
    (search_media (raises ∷ finds ∷ []) is_space as_it_is title tripped).0
    ≡ done (record { page = 1; total_pages = 1; total_results = 1; results = 1 ∷ [] })
unfolding search_media search_with_strategies generate_title_prefixes
search_runs = refl

search_media-found_example :
    Comes Anything (search_media (raises ∷ finds ∷ []) is_space as_it_is title) tripped (
      reported (
        found
          (together (answer ∷ []))
          (generate_title_prefixes is_space as_it_is title)
          (together (answer ∷ []) title)))
search_media-found_example =
    search_media-found Anything (raises ∷ finds ∷ []) (answer ∷ []) strategies-AreAnswered is_space
      as_it_is title tripped tt

-- An API that would answer, and a conversion of its numbers.
abbrev convert : ℕ → Converted ℕ
convert n = if n == 0 then skipped else converted n

abbrev api : Title → ℕ → Response (Option (List ℕ))
api t n = answers (some (0 ∷ 7 ∷ []))

search_media-cache_only_example :
    Comes
      (IsUntouched tripped)
      (search_media
        (client_strategy settings clock 5 true convert api
          ∷ client_strategy settings clock 5 true convert api
          ∷ [])
        is_space
        as_it_is
        title)
      tripped
      (failed (infrastructure media_not_found))
search_media-cache_only_example =
    search_media-cache_only settings clock 5 true convert convert api api is_space as_it_is title
      tripped (record { free_limiter = refl; free_machine = refl }) refl

details_fail :
    (get_media_details settings clock 5 true (λ t. convert) (λ t n. breaks) tv tripped).0
    ≢ failed unexpected
details_fail =
    get_media_details-AniVaultError settings clock 5 true (λ t. convert) (λ t n. breaks) tv tripped
