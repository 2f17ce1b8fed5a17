-- ===== src/LinkedHash/Unorder.antt =====
-- The insertion order without the node that `remove` takes out.
use ani_vault.Base.{
  some_injective, ◌≡◌, ◌≢◌, refl, sym, ap, ◌∙◌, Bool, false, Option, some, List, [], ◌∷◌, arith, ℕ,
  suc, ◌≤◌, ◌<◌, Bool-cases, inl, inr,
}
use mathlib.Core.Path.{subst}
use ani_vault.LinkedHash.{Node}
use ani_vault.LinkedHash.Assoc.{lookup, remove}
use ani_vault.LinkedHash.Chains.{Entry}
use ani_vault.LinkedHash.Order.{IsOrder, ended, linked, entries, uncons, IsOrder-ends}
use ani_vault.LinkedHash.Rehash.{seen}
use ani_vault.LinkedHash.Kept.{seen-Agrees, IsOrder-SameOrder}
use ani_vault.LinkedHash.Unlink.{Unlinked, last_without}

module _ {ℓ} {K V : Type ℓ} (cell cell' : ℕ → Option (Node K V)) (hi p : ℕ) (n : Node K V) where
  pub IsOrder-lower :
      (lo lo' : ℕ) (ns : List (ℕ × Node K V)) (prev start last : Option ℕ)
      → lo' ≤ lo
      → IsOrder cell' hi lo ns prev start last
      → IsOrder cell' hi lo' ns prev start last
  IsOrder-lower lo lo' [] prev start last le h =
      let e = IsOrder-ends cell' hi lo prev start last h in rw (e.0, e.1) ended
  IsOrder-lower lo lo' ((q, m) ∷ ns) prev start last le h =
      let u = uncons cell' hi lo q m ns prev start last h in
      let above = u.above in rw (u.starts) (linked (omega arith) u.below u.here u.back u.next)

  pub IsOrder-cons :
      (lo q : ℕ) (m : Node K V) (ns : List (ℕ × Node K V)) (prev start next last : Option ℕ)
      → start ≡ some q
      → lo ≤ q
      → q < hi
      → cell' q ≡ some m
      → m.prev_in_order ≡ prev
      → m.next_in_order ≡ next
      → IsOrder cell' hi (suc q) ns (some q) next last
      → IsOrder cell' hi lo ((q, m) ∷ ns) prev start last
  IsOrder-cons lo q m ns prev start next last starts above below here back forward h =
      rw starts (linked above below here back (rw forward h))

  -- The nodes after one that leaves.
  pub after :
      (ns : List (ℕ × Node K V)) (last : Option ℕ)
      → Unlinked cell cell' n.prev_in_order n.next_in_order
      → ((a : ℕ) → n.prev_in_order ≡ some a → a < p)
      → IsOrder cell hi (suc p) ns (some p) n.next_in_order last
      → (ns' : List (ℕ × Node K V)) × IsOrder cell' hi
          (suc p)
          ns'
          n.prev_in_order
          n.next_in_order
          (last_without n.prev_in_order n.next_in_order last)
        × (entries ns' ≡ entries ns)
  unfolding entries
  after [] last ul before h =
      let e = IsOrder-ends cell hi (suc p) (some p) n.next_in_order last h in
      ([], rw (e.0) ended, refl)
  after ((b, m) ∷ ns) last ul before h =
      let u = uncons cell hi (suc p) b m ns (some p) n.next_in_order last h in
      let above = u.above in
      let starts = u.starts in
      let apart : n.prev_in_order ≢ some b = λ e. (let lt = before b e in absurd (omega arith)) in
      let a =
        seen-Agrees (cell' b) (record m { prev_in_order = n.prev_in_order })
          (ul.back b m starts apart u.here) in
      let rest =
        IsOrder-SameOrder cell cell' hi (suc b) ns (some b) m.next_in_order last
          (λ q le.
            ul.others q (λ e. (let lt = before q e in absurd (omega arith)))
              (λ e. (let b_is_q : b ≡ q = some_injective (sym starts ∙ e) in absurd (omega arith))))
          u.next in
      (
        (b, a.0) ∷ rest.0,
        IsOrder-cons (suc p) b a.0 rest.0 n.prev_in_order n.next_in_order m.next_in_order _ starts
            above u.below a.1.there a.1.same_prev a.1.same_order (rw starts rest.1),
        rw (a.1.same_key, a.1.same_value, rest.2) refl,
      )

  cons_entries :
      (q : ℕ) (m m' : Node K V) (ns : List (ℕ × Node K V)) (es : List (Entry K V))
      → m'.key ≡ m.key
      → m'.value ≡ m.value
      → entries ns ≡ es
      → entries ((q, m') ∷ ns) ≡ (m.key, (q, m.value)) ∷ es
  unfolding entries
  cons_entries q m m' ns es k v e = rw (k, v, e) refl

  -- The order without an entry that is not its first.
  pub record Shortened (lo q : ℕ) (prev start last : Option ℕ) (es : List (Entry K V))
      : Type ℓ where
    pub nodes : List (ℕ × Node K V)
    pub order :
        IsOrder cell' hi lo nodes prev start (last_without n.prev_in_order n.next_in_order last)
    pub same_entries : entries nodes ≡ es
    pub before_it : ℕ
    pub is_before : n.prev_in_order ≡ some before_it
    pub above : q ≤ before_it

  -- What is known of the node that leaves.
  pub record Leaves : Type ℓ where
    pub unlinked : Unlinked cell cell' n.prev_in_order n.next_in_order
    pub before_below : (a : ℕ) → n.prev_in_order ≡ some a → a < p
    pub after_above : (b : ℕ) → n.next_in_order ≡ some b → p < b

  module _ (same : K → K → Bool) (key : K) (w : V) where
    pub deeper :
        (lo q : ℕ) (m : Node K V) (ns : List (ℕ × Node K V)) (prev start last : Option ℕ)
        → Leaves
        → cell p ≡ some n
        → IsOrder cell hi lo ((q, m) ∷ ns) prev start last
        → same m.key key ≡ false
        → lookup same key (entries ns) ≡ some (p, w)
        → Shortened lo q prev start last (remove same key (entries ((q, m) ∷ ns)))
    unfolding lookup remove entries
    deeper lo q m [] prev start last l here h differs found = ground arith
    deeper lo q m ((q', m') ∷ ns) prev start last l here h differs found =
        let u = uncons cell hi lo q m ((q', m') ∷ ns) prev start last h in
        let u' = uncons cell hi (suc q) q' m' ns (some q) m.next_in_order last u.next in
        let above' = u'.above in
        elim (Bool-cases (same m'.key key)) [
          | inl e ↦
              let q'_is_p : q' ≡ p = ground arith in
              let same_node : m' ≡ n = some_injective (sym u'.here ∙ (rw q'_is_p here)) in
              let prev_is_q : n.prev_in_order ≡ some q =
                ap (λ (x : Node K V). x.prev_in_order) (sym same_node) ∙ u'.back in
              let moved : IsOrder cell hi (suc p) ns (some p) n.next_in_order last =
                subst (λ (x : Node K V). IsOrder cell hi (suc p) ns (some p) x.next_in_order last)
                  same_node
                  (subst (λ x. IsOrder cell hi (suc x) ns (some x) m'.next_in_order last) q'_is_p
                    u'.next) in
              let rest = after ns last l.unlinked l.before_below moved in
              let a =
                seen-Agrees (cell' q) (record m { next_in_order = n.next_in_order })
                  (l.unlinked.forward q m prev_is_q
                    (λ e'. (let lt = l.after_above q e' in absurd (omega arith))) u.here) in
              let rest_order : IsOrder cell' hi (suc q) rest.0 (some q) n.next_in_order
                  (last_without n.prev_in_order n.next_in_order last) =
                IsOrder-lower (suc p) (suc q) rest.0 (some q) n.next_in_order _ (omega arith) (
                  subst
                    (λ o.
                      IsOrder cell' hi (suc p) rest.0 o n.next_in_order
                        (last_without n.prev_in_order n.next_in_order last))
                    prev_is_q rest.1) in
              record {
                nodes = (q, a.0) ∷ rest.0;
                order =
                    IsOrder-cons lo q a.0 rest.0 prev start n.next_in_order _ u.starts u.above
                      u.below a.1.there (a.1.same_prev ∙ u.back) a.1.same_order rest_order;
                same_entries =
                    cons_entries q m a.0 rest.0 (entries ns) a.1.same_key a.1.same_value rest.2
                    ∙ rw (differs, e) refl;
                before_it = q;
                is_before = prev_is_q;
                above = omega arith;
              }
          | inr e ↦
              let rest =
                deeper (suc q) q' m' ns (some q) m.next_in_order last l here u.next e
                  (ground arith) in
              let is_before = rest.is_before in
              let above_before = rest.above in
              let before_lt = l.before_below rest.before_it is_before in
              let a = seen-Agrees (cell' q) m (
                ap seen (sym u.here)
                ∙ l.unlinked.others q
                    (λ e'.
                      (let it : rest.before_it ≡ q = some_injective (sym is_before ∙ e') in
                        absurd (omega arith)))
                    (λ e'. (let lt = l.after_above q e' in absurd (omega arith)))) in
              record {
                nodes = (q, a.0) ∷ rest.nodes;
                order =
                    IsOrder-cons lo q a.0 rest.nodes prev start m.next_in_order _ u.starts u.above
                      u.below a.1.there (a.1.same_prev ∙ u.back) a.1.same_order rest.order;
                same_entries =
                    cons_entries q m a.0 rest.nodes _ a.1.same_key a.1.same_value rest.same_entries
                    ∙ rw (differs) refl;
                before_it = rest.before_it;
                is_before = is_before;
                above = omega arith;
              }
        ]
