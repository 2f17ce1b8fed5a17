-- ===== src/LinkedHash/Leaving.antt =====
-- The insertion order after `remove`, from its first node on.
use ani_vault.Base.{
  some_injective, ◌≡◌, refl, sym, ap, ◌∙◌, Bool, Option, none, some, List, [], ◌∷◌, arith, ℕ, suc,
  ◌<◌, Bool-cases, inl, inr,
}
use mathlib.Core.Path.{subst}
use ani_vault.LinkedHash.{Node}
use ani_vault.LinkedHash.Assoc.{lookup, remove}
use ani_vault.LinkedHash.Order.{IsOrder, entries, uncons, IsOrder-ends}
use ani_vault.LinkedHash.Unlink.{Unlinked, first_without, last_without}
use ani_vault.LinkedHash.Unorder.{after, deeper, IsOrder-lower}

first_none : (prev next start : Option ℕ) → prev ≡ none → first_without prev next start ≡ next
first_none none next start e = refl
first_none (some a) next start e = ground arith

first_some :
    (prev next start : Option ℕ) (a : ℕ) → prev ≡ some a → first_without prev next start ≡ start
first_some none next start a e = ground arith
first_some (some b) next start a e = refl

module _ {ℓ} {K V : Type ℓ} (cell : ℕ → Option (Node K V)) (hi p : ℕ) (n : Node K V)
    (same : K → K → Bool) (key : K) (w : V) where
  next_above :
      (ns : List (ℕ × Node K V)) (last : Option ℕ) (b : ℕ)
      → IsOrder cell hi (suc p) ns (some p) n.next_in_order last
      → n.next_in_order ≡ some b
      → p < b
  next_above [] last b h e =
      let ends = (IsOrder-ends cell hi (suc p) (some p) n.next_in_order last h).0 in ground arith
  next_above ((q, m) ∷ ns) last b h e =
      let u = uncons cell hi (suc p) q m ns (some p) n.next_in_order last h in
      let above = u.above in let b_is_q : b ≡ q = some_injective (sym e ∙ u.starts) in omega arith

  -- The node that is found, if it is the first.
  at_head :
      (lo q : ℕ) (m : Node K V) (ns : List (ℕ × Node K V)) (prev start last : Option ℕ)
      → cell p ≡ some n
      → IsOrder cell hi lo ((q, m) ∷ ns) prev start last
      → q ≡ p
      → (n.prev_in_order ≡ prev)
        × (n.key ≡ m.key)
        × IsOrder cell hi (suc p) ns (some p) n.next_in_order last
  at_head lo q m ns prev start last here h q_is_p =
      let u = uncons cell hi lo q m ns prev start last h in
      let same_node : m ≡ n = some_injective (sym u.here ∙ (rw q_is_p here)) in
      (
        ap (λ (x : Node K V). x.prev_in_order) (sym same_node) ∙ u.back,
        ap (λ (x : Node K V). x.key) (sym same_node),
        subst (λ (x : Node K V). IsOrder cell hi (suc p) ns (some p) x.next_in_order last) same_node
            (subst (λ x. IsOrder cell hi (suc x) ns (some x) m.next_in_order last) q_is_p u.next),
      )

  neighbours :
      (lo : ℕ) (ns : List (ℕ × Node K V)) (prev start last : Option ℕ)
      → ((a : ℕ) → prev ≡ some a → a < lo)
      → cell p ≡ some n
      → IsOrder cell hi lo ns prev start last
      → lookup same key (entries ns) ≡ some (p, w)
      → ((a : ℕ) → n.prev_in_order ≡ some a → a < p) × ((b : ℕ) → n.next_in_order ≡ some b → p < b)
  unfolding lookup entries
  neighbours lo [] prev start last below here h found = ground arith
  neighbours lo ((q, m) ∷ ns) prev start last below here h found =
      let u = uncons cell hi lo q m ns prev start last h in
      let above = u.above in
      elim (Bool-cases (same m.key key)) [
        | inl e ↦
            let q_is_p : q ≡ p = ground arith in
            let n_lem = at_head lo q m ns prev start last here h q_is_p in
            (
              λ a e'. (let lt = below a (sym n_lem.0 ∙ e') in omega arith),
              λ b e'. next_above ns last b n_lem.2 e',
            )
        | inr e ↦
            neighbours (suc q) ns (some q) m.next_in_order last
              (λ a e'. (let a_is_q : q ≡ a = some_injective e' in omega arith)) here u.next
              (ground arith)
      ]

  -- The order without the entry that is found.
  pub unorder :
      (cell' : ℕ → Option (Node K V)) (ns : List (ℕ × Node K V)) (start last : Option ℕ)
      → Unlinked cell cell' n.prev_in_order n.next_in_order
      → cell p ≡ some n
      → IsOrder cell hi 0 ns none start last
      → lookup same key (entries ns) ≡ some (p, w)
      → (ns' : List (ℕ × Node K V)) × IsOrder cell' hi 0 ns' none
          (first_without n.prev_in_order n.next_in_order start)
          (last_without n.prev_in_order n.next_in_order last)
        × (entries ns' ≡ remove same key (entries ns))
  unfolding lookup entries remove
  unorder cell' [] start last ul here h found = ground arith
  unorder cell' ((q, m) ∷ ns) start last ul here h found =
      let near = neighbours 0 ((q, m) ∷ ns) none start last (λ a e. ground arith) here h found in
      elim (Bool-cases (same m.key key)) [
        | inl e ↦
            let q_is_p : q ≡ p = ground arith in
            let n_lem = at_head 0 q m ns none start last here h q_is_p in
            let rest = after cell cell' hi p n ns last ul near.0 n_lem.2 in
            (
              rest.0,
              subst
                  (λ o.
                    IsOrder cell' hi 0 rest.0 none o
                      (last_without n.prev_in_order n.next_in_order last))
                  (sym (first_none n.prev_in_order n.next_in_order start n_lem.0))
                  (subst
                    (λ o.
                      IsOrder cell' hi 0 rest.0 o n.next_in_order
                        (last_without n.prev_in_order n.next_in_order last))
                    n_lem.0
                    (IsOrder-lower cell cell' hi p n (suc p) 0 rest.0 _ _ _ (omega arith) rest.1)),
              rest.2 ∙ rw e refl,
            )
        | inr e ↦
            let short =
              deeper cell cell' hi p n same key w 0 q m ns none start last
                (record { unlinked = ul; before_below = near.0; after_above = near.1 }) here h e
                (ground arith) in
            (
              short.nodes,
              subst
                  (λ o.
                    IsOrder cell' hi 0 short.nodes none o
                      (last_without n.prev_in_order n.next_in_order last))
                  (sym (
                    first_some n.prev_in_order n.next_in_order start short.before_it
                      short.is_before))
                  short.order,
              short.same_entries,
            )
      ]
