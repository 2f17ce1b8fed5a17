-- ===== src/Lib.antt =====
-- AniVault: the state-keeping core of the library, and what it guarantees.
--
-- AniVault scans a library of anime files, matches them with TMDB over the network, and puts them
-- in order. This development models the components that keep state or decide:
--
--   * RateLimiter: `TokenBucketRateLimiter` (src/anivault/infrastructure/rate_limiter.py). The
--     TMDB client takes tokens of it before each request.
--   * StateMachine: `RateLimitStateMachine` (src/anivault/infrastructure/state_machine.py), to
--     which the client reports each response, and which says whether and when to ask again.
--   * Semaphore: `SemaphoreManager` (src/anivault/infrastructure/semaphore_manager.py), which
--     bounds the requests that run at once.
--   * TmdbClient: how `TMDBClient` (src/anivault/infrastructure/tmdb/tmdb_client.py) makes a
--     request: a state monad over the three above that ends, fails or is stuck.
--   * Titles: the shorter titles of src/anivault/infrastructure/tmdb/tmdb_utils.py.
--   * TmdbSearch: the searches of `TMDBClient` and of its strategies
--     (src/anivault/infrastructure/tmdb/tmdb_strategies.py), whose requests are TmdbClient's.
--   * StatsUpdater: `ThreadSafeStatsUpdater` (src/anivault/core/pipeline/utils/synchronization.py).
--   * IndexState: `IndexStateManager` (src/anivault/infrastructure/index_state_manager.py), which
--     compares the files of the library with the state saved last.
--   * SortCache: `SortCache` (src/anivault/core/matching/services/sort_cache.py), which keeps the
--     order of candidate lists and their sort keys.
--   * Duplicates: `DuplicateResolver` (src/anivault/core/file_grouper/duplicate_resolver.py), which
--     picks the best of several copies of an episode.
--   * LinkedHash: `LinkedHashTable` (src/anivault/core/data_structures/linked_hash_table.py), the
--     ordered hash table of the scanner's and the organizer's caches.
--   * DirectoryCache: `DirectoryCacheManager`
--     (src/anivault/core/pipeline/components/directory_cache.py), which tells the scanner what
--     directories have not changed. It uses the linked hash table through an interface
--     (LinkedHash/Interface), which the theorems on the table fill.
--   * Executor: `FileOperationExecutor` (src/anivault/core/organizer/executor.py), which moves and
--     copies the files of the library, over the operations of src/anivault/core/models/file.py.
--   * Resolution: `ResolutionAnalyzer` (src/anivault/core/organizer/resolution.py), which finds the
--     series that have files of high and of low resolution. It uses the same interface.
--     Resolution/Found states what a file says of itself apart from the code, and
--     Resolution/Extracted that the code finds the same.
--   * Matchers: `HashSimilarityMatcher` and `SeasonEpisodeMatcher`
--     (src/anivault/core/file_grouper/matchers), which group files. They use the same interface.
--   * PathBuilder: the names of `PathBuilder` (src/anivault/core/organizer/path_builder.py).
--   * SubtitleIndex: how `SubtitleIndex` (src/anivault/core/subtitle_index.py) is built and
--     searched for the subtitles of a video.
--
-- Base has the shared names, Dict the dicts and sets of Python, Sorting its stable sort, and Sync
-- the objects behind a `threading.Lock`. A method is a function from the guarded object to an
-- outcome: it returns, it raises, or it waits for ever for a lock that its own thread holds. The
-- methods of the other components are functions from the record of their state to the new record.
--
-- Each module of a component holds its definitions, one for each method and for each loop or test
-- that a proof speaks of; its children hold the proofs and, in Tests, runs and instances.
--
-- Most loops run over lists and recur on them. The loops of the linked hash table follow pointers
-- and run on fuel, the number of nodes ever made, which no chain without a repetition exceeds.
-- The wait for a token runs on fuel too, the number of times that one is asked for.
-- Times are natural numbers of clock ticks, and every reading of a clock is an argument. Floats
-- are scaled to integers: tokens and delays are counted in a unit that makes them whole, and
-- rounding is not modelled. What the code calls of the file system, of regular expressions and of
-- SHA-256 is a parameter. Logging has no effect on the state and is left out; so are the handlers
-- of exceptions that only it could raise.
--
-- The exceptions of the executor and of the directory cache are values, which leave the changes made
-- before them. Each stands for the class that the handlers tell apart.
--
-- Not modelled: scanning and parsing, the matching scores, the grouping engine with its strategies
-- and the matcher by similar titles, the choice of titles and years for the target paths, the choice
-- of subtitle candidates, the SQLite cache, the command line and the GUI. Much of these is I/O or
-- calls of other libraries; the engine, its strategies and the scores are left for later.
pub mod Base
pub mod Sync
pub mod Dict
pub mod Sorting
pub mod RateLimiter
pub mod StateMachine
pub mod Semaphore
pub mod StatsUpdater
pub mod IndexState
pub mod SortCache
pub mod Duplicates
pub mod LinkedHash
pub mod Executor
pub mod DirectoryCache
pub mod Matchers
pub mod PathBuilder
pub mod Resolution
pub mod SubtitleIndex
pub mod Titles
pub mod TmdbClient
pub mod TmdbSearch
