-- ===== src/LinkedHash/Kept.antt =====
-- The insertion order through a rehashing.
use ani_vault.Base.{ℕ, suc, ◌≤◌, ◌≡◌, refl, sym, ap, ◌∙◌, Option, none, some, List, [], ◌∷◌, arith}
use ani_vault.LinkedHash.{Node, Table, rehash}
use ani_vault.LinkedHash.Order.{IsOrder, ended, linked, entries, pairs, uncons, IsOrder-ends}
use ani_vault.LinkedHash.Append.{IsOrdered, iterate-pairs}
use ani_vault.LinkedHash.Rehash.{seen, rehash-Relinked, Relinked, emptied}

module _ {ℓ} {K V : Type ℓ} where
  -- A node that differs at most in its bucket's chain.
  pub record Agrees (c : Option (Node K V)) (n n' : Node K V) : Type ℓ where
    pub there : c ≡ some n'
    pub same_key : n'.key ≡ n.key
    pub same_value : n'.value ≡ n.value
    pub same_prev : n'.prev_in_order ≡ n.prev_in_order
    pub same_order : n'.next_in_order ≡ n.next_in_order

  pub seen-Agrees :
      (c : Option (Node K V)) (n : Node K V)
      → seen (some n) ≡ seen c
      → (n' : Node K V) × Agrees c n n'
  seen-Agrees none n h = ground arith
  seen-Agrees (some n') n h = (
    n',
    record {
      there = refl;
      same_key = ground arith;
      same_value = ground arith;
      same_prev = ground arith;
      same_order = ground arith;
    },
  )

  -- What an order reads of the nodes from its lowest address on is all that it depends on.
  pub IsOrder-SameOrder :
      (cell cell' : ℕ → Option (Node K V)) (hi lo : ℕ) (ns : List (ℕ × Node K V))
      (prev start last : Option ℕ)
      → ((q : ℕ) → lo ≤ q → seen (cell q) ≡ seen (cell' q))
      → IsOrder cell hi lo ns prev start last
      → (ns' : List (ℕ × Node K V)) × IsOrder cell' hi lo ns' prev start last
        × (entries ns' ≡ entries ns)
  unfolding entries
  IsOrder-SameOrder cell cell' hi lo [] prev start last s h =
      let e = IsOrder-ends cell hi lo prev start last h in ([], rw (e.0, e.1) ended, refl)
  IsOrder-SameOrder cell cell' hi lo ((p, n) ∷ ns) prev start last s h =
      let u = uncons cell hi lo p n ns prev start last h in
      let above = u.above in
      let a = seen-Agrees (cell' p) n (ap seen (sym u.here) ∙ s p above) in
      let rest =
        IsOrder-SameOrder cell cell' hi (suc p) ns (some p) n.next_in_order last
          (λ q le. s q (omega arith)) u.next in
      (
        (p, a.0) ∷ rest.0,
        rw (u.starts) (
            linked u.above u.below a.1.there (a.1.same_prev ∙ u.back) (rw (a.1.same_order) rest.1)),
        rw (a.1.same_key, a.1.same_value, rest.2) refl,
      )

  -- A table that keeps its order can be rehashed, and keeps the order and the entries.
  pub rehash-IsOrdered :
      (hash_index : ℕ → K → ℕ) (t : Table K V) (ns : List (ℕ × Node K V))
      → IsOrdered t ns
      → (t' : Table K V) × (rehash hash_index t ≡ some t')
        × Relinked (emptied t) t'
        × (ns' : List (ℕ × Node K V)) × IsOrdered t' ns'
        × (entries ns' ≡ entries ns)
  unfolding IsOrdered
  rehash-IsOrdered hash_index t ns h =
      let done = rehash-Relinked hash_index t (pairs ns) (iterate-pairs t ns h) in
      let r = done.2 in
      let kept =
        IsOrder-SameOrder t.cell done.0.cell t.next_free 0 ns none t.head t.tail (λ q le. r.order q)
          h in
      (done.0, done.1, r, kept.0, rw (r.same_next, r.same_head, r.same_tail) kept.1, kept.2)

  -- An order depends on the nodes from its lowest address on.
  pub IsOrder-frame :
      (cell cell' : ℕ → Option (Node K V)) (hi lo : ℕ) (ns : List (ℕ × Node K V))
      (prev start last : Option ℕ)
      → ((q : ℕ) → lo ≤ q → cell q ≡ cell' q)
      → IsOrder cell hi lo ns prev start last
      → IsOrder cell' hi lo ns prev start last
  IsOrder-frame cell cell' hi lo [] prev start last s h =
      let e = IsOrder-ends cell hi lo prev start last h in rw (e.0, e.1) ended
  IsOrder-frame cell cell' hi lo ((p, n) ∷ ns) prev start last s h =
      let u = uncons cell hi lo p n ns prev start last h in
      let above = u.above in
      let rest =
        IsOrder-frame cell cell' hi (suc p) ns (some p) n.next_in_order last
          (λ q le. s q (omega arith)) u.next in
      rw (u.starts) (linked above u.below (sym (s p above) ∙ u.here) u.back rest)
