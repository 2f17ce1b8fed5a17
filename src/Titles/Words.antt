-- ===== src/Titles/Words.antt =====
-- A title that is joined from words is split into them again.
use mathlib.Core.List.{append-nil}
use ani_vault.Base.{
  ℕ, ◌≡◌, refl, ap, sym, ◌∙◌, Bool, true, false, List, [], ◌∷◌, ◌++◌, All, Bool-cases, inl, inr,
}
use ani_vault.Titles.{Title, space, join, flush, pieces, split}

module _ (is_space : ℕ → Bool) where
  abbrev pub IsSolid : Title → Type 0
  IsSolid w = All (λ c. is_space c ≡ false) w

  pub data IsWord : Title → Type 0 where
    word : {c : ℕ} {w : Title} → IsSolid (c ∷ w) → IsWord (c ∷ w)

  flush-words : (w : Title) (ws : List Title) → IsSolid w → All IsWord ws → All IsWord (flush w ws)
  unfolding flush
  flush-words [] ws h k = k
  flush-words (c ∷ w) ws h k = (word h, k)

  pieces-words : (s : Title) → IsSolid (pieces is_space s).0 × All IsWord (pieces is_space s).1
  unfolding pieces
  pieces-words [] = (tt, tt)
  pieces-words (c ∷ s) =
      let (solid, words) = pieces-words s in
      elim (Bool-cases (is_space c)) [
        | inl e ↦ rw e (tt, flush-words _ _ solid words)
        | inr e ↦ rw e ((e, solid), words)
      ]

  pub split-words : (s : Title) → All IsWord (split is_space s)
  unfolding split
  split-words s = flush-words _ _ (pieces-words s).0 (pieces-words s).1

  pieces-append :
      (w s : Title)
      → IsSolid w
      → pieces is_space (w ++ s) ≡ (w ++ (pieces is_space s).0, (pieces is_space s).1)
  unfolding pieces
  pieces-append [] s h = refl
  pieces-append (c ∷ w) s (h, k) = rw (h, pieces-append w s k) refl

  split-append :
      (w s : Title)
      → IsSolid w
      → split is_space (w ++ s) ≡ flush (w ++ (pieces is_space s).0) (pieces is_space s).1
  unfolding split
  split-append w s h = ap (λ q. flush q.0 q.1) (pieces-append w s h)

  pieces-space :
      is_space space ≡ true → (s : Title) → pieces is_space (space ∷ s) ≡ ([], split is_space s)
  unfolding pieces split
  pieces-space blank s = rw blank refl

  split-word : (c : ℕ) (w : Title) → IsSolid (c ∷ w) → split is_space (c ∷ w) ≡ (c ∷ w) ∷ []
  unfolding flush pieces
  split-word c w h =
      ap (split is_space) (sym (append-nil (c ∷ w)))
      ∙ split-append (c ∷ w) [] h
      ∙ ap (λ v. v ∷ []) (append-nil (c ∷ w))

  pub split-join :
      is_space space ≡ true → (ws : List Title) → All IsWord ws → split is_space (join ws) ≡ ws
  unfolding split pieces flush join
  split-join blank [] h = refl
  split-join blank ((c ∷ w) ∷ []) (word h, k) = split-word c w h
  split-join blank ((c ∷ w) ∷ v ∷ ws) (word h, k) =
      split-append (c ∷ w) (space ∷ join (v ∷ ws)) h
      ∙ ap (λ q. flush ((c ∷ w) ++ q.0) q.1) (pieces-space blank (join (v ∷ ws)))
      ∙ ap (λ v'. v' ∷ split is_space (join (v ∷ ws))) (append-nil (c ∷ w))
      ∙ ap (λ ws'. (c ∷ w) ∷ ws') (split-join blank (v ∷ ws) k)
  split-join blank ([] ∷ []) (h, k) = elim h [ ]
  split-join blank ([] ∷ v ∷ ws) (h, k) = elim h [ ]

  pub All-append : (ws vs : List Title) → All IsWord ws → All IsWord vs → All IsWord (ws ++ vs)
  All-append [] vs h k = k
  All-append (w ∷ ws) vs (h, hs) k = (h, All-append ws vs hs k)
