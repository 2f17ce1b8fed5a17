-- ===== src/TmdbSearch/Fallback.antt =====
-- A search over strategies that answer by the title: the results are those of the whole title, or
-- else of the last prefix before the first one without results.
use ani_vault.Base.{
  ℕ, ◌≡◌, refl, ap, sym, ◌∙◌, Bool, true, false, Option, none, some, Bool-cases, ◌⊎◌, inl, inr,
  List, [], ◌∷◌, ◌++◌, length, if◌then◌else◌,
}
use mathlib.Core.List.{append_assoc, append-nil}
use ani_vault.Titles.{Title, generate_title_prefixes}
use ani_vault.TmdbClient.{
  Failure, infrastructure, media_not_found, Outcome, done, failed, stuck, Client, Step, ◌>>=◌,
}
use ani_vault.TmdbClient.Calm.{>>=-done}
use ani_vault.TmdbSearch.{
  SearchResponse, is_none, results_of, search_each, search_with_strategies, try_prefixes, fall_back,
  respond_with, search_media,
}

-- The titles before the first one without results, and the last item of a list.
unfoldable pub leading : {R : Type 0} → (Title → List R) → List Title → List Title
leading answer [] = []
leading answer (q ∷ qs) =
    let rest = leading answer qs in if is_none (answer q) then [] else q ∷ rest

unfoldable pub final : {A : Type 0} → List A → Option A
final [] = none
final (x ∷ xs) = elim (final xs) [ none ↦ some x | some y ↦ some y ]

-- A step that comes to an outcome and keeps an invariant.
abbrev pub Comes : {A : Type 0} → (Client → Type 0) → Step A → Client → Outcome A → Type 0
Comes Inv m c o = (c' : Client) × (m c ≡ (o, c')) × Inv c'

Comes->>= :
    {A B : Type 0} (Inv : Client → Type 0) (m : Step A) (f : A → Step B) (c : Client) (a : A)
    (o : Outcome B)
    → Comes Inv m c (done a)
    → ((c' : Client) → Inv c' → Comes Inv (f a) c' o)
    → Comes Inv (m >>= f) c o
Comes->>= Inv m f c a o (c', e, inv) k =
    let (d, e', inv') = k c' inv in (d, >>=-done m f e ∙ e', inv')

module _ {R : Type 0} where
  -- What a search is expected to find.
  unfoldable pub found : (Title → List R) → List Title → List R → List R
  unfolding leading final
  found answer prefixes [] = elim (final (leading answer prefixes)) [
    | none ↦ []
    | some q ↦ answer q
  ]
  found answer prefixes (r ∷ rs) = r ∷ rs

  unfoldable pub reported : List R → Outcome (SearchResponse R)
  reported [] = failed (infrastructure media_not_found)
  reported (r ∷ rs) =
      done (record { page = 1; total_pages = 1; total_results = length (r ∷ rs); results = r ∷ rs })

  -- What the strategies answer together.
  unfoldable pub together : List (Title → List R) → Title → List R
  together [] q = []
  together (f ∷ fs) q = f q ++ together fs q

  module _ (Inv : Client → Type 0) where
    abbrev pub Answers : (Title → Step (List R)) → (Title → List R) → Type 0
    Answers s f = (q : Title) (c : Client) → Inv c → Comes Inv (s q) c (done (f q))

    abbrev pub Fails : (Title → Step (List R)) → Type 0
    Fails s = (q : Title) (c : Client) → Inv c → (e : Failure) × Comes Inv (s q) c (failed e)

    -- Each strategy answers by its function, or always fails.
    pub data AreAnswered : List (Title → Step (List R)) → List (Title → List R) → Type 0 where
      no_strategy : AreAnswered [] []
      answered :
          {s : Title → Step (List R)} {f : Title → List R} {ss : List (Title → Step (List R))}
          {fs : List (Title → List R)}
          → Answers s f
          → AreAnswered ss fs
          → AreAnswered (s ∷ ss) (f ∷ fs)
      passed_over :
          {s : Title → Step (List R)} {ss : List (Title → Step (List R))}
          {fs : List (Title → List R)}
          → Fails s
          → AreAnswered ss fs
          → AreAnswered (s ∷ ss) fs

    after_one :
        List (Title → Step (List R))
        → Title
        → List R
        → Outcome (List R) × Client
        → Outcome (List R) × Client
    after_one ss q all_results (o, c') = elim o [
      | done results ↦ search_each ss q (all_results ++ results) c'
      | failed e ↦ search_each ss q (all_results ++ []) c'
      | stuck ↦ (stuck, c')
    ]

    search_each-Comes :
        (ss : List (Title → Step (List R))) (fs : List (Title → List R))
        → AreAnswered ss fs
        → (q : Title) (all_results : List R) (c : Client) → Inv c
        → Comes Inv (search_each ss q all_results) c (done (all_results ++ together fs q))
    unfolding search_each together after_one
    search_each-Comes [] [] no_strategy q all_results c inv =
        (c, ap (λ r. (done r, c)) (sym (append-nil all_results)), inv)
    search_each-Comes [] (f ∷ fs) h q all_results c inv = elim h [ ]
    search_each-Comes (s ∷ ss) (f ∷ fs) (answered a h) q all_results c inv =
        let (c', e, inv') = a q c inv in
        let (d, e', inv'') = search_each-Comes ss fs h q (all_results ++ f q) c' inv' in
        (
          d,
          ap (after_one ss q all_results) e
              ∙ e'
              ∙ ap (λ r. (done r, d)) (append_assoc all_results (f q) (together fs q)),
          inv'',
        )
    search_each-Comes (s ∷ ss) fs (passed_over a h) q all_results c inv =
        let (x, comes) = a q c inv in
        let (c', e, inv') = comes in
        let (d, e', inv'') = search_each-Comes ss fs h q (all_results ++ []) c' inv' in
        (
          d,
          ap (after_one ss q all_results) e
              ∙ e'
              ∙ ap (λ r. (done (r ++ together fs q), d)) (append-nil all_results),
          inv'',
        )

    next_prefix :
        List (Title → Step (List R))
        → List Title
        → Option (List R)
        → List R
        → Step (Option (List R))
    next_prefix ss qs last candidate =
        if is_none candidate then (λ c'. (done last, c')) else try_prefixes ss qs (some candidate)

    -- The results of the last of the titles, or others if there is none.
    last_found : (Title → List R) → Option (List R) → Option Title → Option (List R)
    last_found answer last none = last
    last_found answer last (some q) = some (answer q)

    last_found-cons :
        (answer : Title → List R) (last : Option (List R)) (q : Title) (o : Option Title)
        → last_found answer (some (answer q)) o
          ≡ last_found answer last (elim o [ none ↦ some q | some y ↦ some y ])
    unfolding last_found
    last_found-cons answer last q none = refl
    last_found-cons answer last q (some y) = refl

    empty_or : (r : List R) → (is_none r ≡ true) ⊎ (is_none r ≡ false)
    empty_or r = Bool-cases (is_none r)

    try_prefixes-Comes :
        (ss : List (Title → Step (List R))) (fs : List (Title → List R))
        → AreAnswered ss fs
        → (qs : List Title) (last : Option (List R)) (c : Client) → Inv c
        → Comes Inv
            (try_prefixes ss qs last)
            c
            (done (last_found (together fs) last (final (leading (together fs) qs))))
    unfolding try_prefixes leading final last_found next_prefix search_with_strategies
    try_prefixes-Comes ss fs h [] last c inv = (c, refl, inv)
    try_prefixes-Comes ss fs h (q ∷ qs) last c inv =
        Comes->>= Inv (search_with_strategies ss q) (next_prefix ss qs last) c (together fs q) _
          (search_each-Comes ss fs h q [] c inv)
          (λ c' inv'. elim (empty_or (together fs q)) [
            | inl e ↦ rw e (c', refl, inv')
            | inr e ↦
                let (d, ran, inv'') =
                  try_prefixes-Comes ss fs h qs (some (together fs q)) c' inv' in
                rw e (
                  d,
                  ran
                      ∙ ap (λ r. (done r, d))
                          (last_found-cons (together fs) last q (final (leading (together fs) qs))),
                  inv'',
                )
          ])

    results_of-last :
        (answer : Title → List R) (o : Option Title)
        → results_of (last_found answer none o) ≡ elim o [ none ↦ [] | some q ↦ answer q ]
    unfolding last_found
    results_of-last answer none = refl
    results_of-last answer (some q) = refl

    respond_with-Comes :
        (ss : List (Title → Step (List R))) (r : List R) (c : Client)
        → Inv c
        → Comes Inv (respond_with ss r) c (reported r)
    unfolding respond_with reported
    respond_with-Comes ss [] c inv = (c, refl, inv)
    respond_with-Comes ss (r ∷ rs) c inv = (c, refl, inv)

    fall_back-Comes :
        (ss : List (Title → Step (List R))) (fs : List (Title → List R))
        → AreAnswered ss fs
        → (prefixes : List Title) (r : List R) (c : Client) → Inv c
        → Comes Inv (fall_back ss prefixes r) c (done (found (together fs) prefixes r))
    unfolding fall_back found last_found
    fall_back-Comes ss fs h prefixes (r ∷ rs) c inv = (c, refl, inv)
    fall_back-Comes ss fs h prefixes [] c inv =
        let (d, ran, inv') = try_prefixes-Comes ss fs h prefixes none c inv in
        (
          d,
          >>=-done (try_prefixes ss prefixes none) (λ last. λ c'. (done (results_of last), c')) ran
              ∙ ap (λ r. (done r, d))
                  (results_of-last (together fs) (final (leading (together fs) prefixes))),
          inv',
        )

    -- If each strategy answers by the title or always fails, a search ends: its results are what the
    -- strategies find together for the whole title, in their order, or else for the last prefix
    -- before the first one for which they find nothing; if there is no such, no media is found.
    pub search_media-found :
        (ss : List (Title → Step (List R))) (fs : List (Title → List R))
        → AreAnswered ss fs
        → (is_space : ℕ → Bool) (strip_suffixes : Title → Title) (title : Title) (c : Client)
        → Inv c
        → Comes Inv (search_media ss is_space strip_suffixes title) c (
            reported (
              found
                (together fs)
                (generate_title_prefixes is_space strip_suffixes title)
                (together fs title)))
    unfolding search_media search_with_strategies
    search_media-found ss fs h is_space strip_suffixes title c inv =
        let prefixes = generate_title_prefixes is_space strip_suffixes title in
        Comes->>= Inv (search_with_strategies ss title)
          (λ results. fall_back ss prefixes results >>= λ found. respond_with ss found) c
          (together fs title) _ (search_each-Comes ss fs h title [] c inv)
          (λ c' inv'.
            Comes->>= Inv (fall_back ss prefixes (together fs title))
              (λ found. respond_with ss found) c' (found (together fs) prefixes (together fs title))
              _ (fall_back-Comes ss fs h prefixes (together fs title) c' inv')
              (λ d inv''. respond_with-Comes ss _ d inv''))
