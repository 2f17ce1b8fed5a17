-- ===== src/LinkedHash/Replace.antt =====
-- `put` of a key that the table has.
use ani_vault.Base.{
  ℕ, zero, suc, ◌≡◌, refl, ◌∙◌, Bool, true, false, Option, none, some, List, [], ◌∷◌, arith, ◌==◌,
  if◌then◌else◌, Bool-cases, Option-cases, inl, inr, ==_iff,
}
use ani_vault.LinkedHash.{Node, Table, find, search, put, iterate, update}
use ani_vault.LinkedHash.Order.{IsOrder, ended, linked, pairs, uncons, IsOrder-ends}
use ani_vault.LinkedHash.Append.{IsOrdered, iterate-pairs}

module _ {ℓ} {K V : Type ℓ} where
  -- The nodes with another value in the one at an address.
  unfoldable pub replace : ℕ → V → List (ℕ × Node K V) → List (ℕ × Node K V)
  replace p value [] = []
  replace p value ((q, m) ∷ ns) =
      (q, if p == q then record m { value = value } else m) ∷ replace p value ns

  replaced_node :
      (cell : ℕ → Option (Node K V)) (p q : ℕ) (n m : Node K V) (value : V)
      → cell p ≡ some n
      → cell q ≡ some m
      → update cell p (record n { value = value }) q
        ≡ some (if p == q then record m { value = value } else m)
  replaced_node cell p q n m value e e' = ground (arith, ==_iff p q)

  replaced_links :
      (b : Bool) (m : Node K V) (value : V)
      → ((if b then record m { value = value } else m).prev_in_order ≡ m.prev_in_order)
        × ((if b then record m { value = value } else m).next_in_order ≡ m.next_in_order)
  replaced_links true m value = (refl, refl)
  replaced_links false m value = (refl, refl)

  pub IsOrder-replace :
      (cell : ℕ → Option (Node K V)) (hi p : ℕ) (n : Node K V) (value : V)
      → cell p ≡ some n
      → (lo : ℕ) (ns : List (ℕ × Node K V)) (prev start last : Option ℕ)
      → IsOrder cell hi lo ns prev start last
      → IsOrder
          (update cell p (record n { value = value }))
          hi
          lo
          (replace p value ns)
          prev
          start
          last
  unfolding replace
  IsOrder-replace cell hi p n value e lo [] prev start last h =
      let ends = IsOrder-ends cell hi lo prev start last h in rw (ends.0, ends.1) ended
  IsOrder-replace cell hi p n value e lo ((q, m) ∷ ns) prev start last h =
      let u = uncons cell hi lo q m ns prev start last h in
      let links = replaced_links (p == q) m value in
      let rest =
        IsOrder-replace cell hi p n value e (suc q) ns (some q) m.next_in_order last u.next in
      rw (u.starts) (
        linked u.above u.below (replaced_node cell p q n m value e u.here) (links.0 ∙ u.back)
          (rw (links.1) rest))

module _ {ℓ} {K V : Type ℓ} (same : K → K → Bool) (hash_index : ℕ → K → ℕ) where
  -- What the search finds is in the store and has the key.
  pub search-found :
      (cell : ℕ → Option (Node K V)) (key : K) (fuel : ℕ) (prev start before : Option ℕ) (p : ℕ)
      (n : Node K V)
      → search same hash_index cell key fuel prev start ≡ some (some (before, (p, n)))
      → (cell p ≡ some n) × (same n.key key ≡ true)
  unfolding search
  search-found cell key zero prev none before p n h = ground arith
  search-found cell key (suc fuel) prev none before p n h = ground arith
  search-found cell key zero prev (some q) before p n h = ground arith
  search-found cell key (suc fuel) prev (some q) before p n h = elim (Option-cases (cell q)) [
    | inl e ↦ ground arith
    | inr (m, e) ↦ elim (Bool-cases (same m.key key)) [
      | inl matches ↦ ground arith
      | inr differs ↦ search-found cell key fuel (some q) m.next_in_bucket before p n (ground arith)
    ]
  ]

  -- `put` of a key that the search of its bucket finds, in a table that keeps its order: the node
  -- found has the key, `put` returns the value it had, and iteration yields the pairs of before
  -- with the new value in that node, each in its place. The table still keeps its order.
  pub put-replace :
      (key : K) (value : V) (t : Table K V) (ns : List (ℕ × Node K V)) (before : Option ℕ) (p : ℕ)
      (n : Node K V)
      → IsOrdered t ns
      → find same hash_index key t ≡ some (some (before, (p, n)))
      → (same n.key key ≡ true)
        × (t' : Table K V) × (put same hash_index key value t ≡ some (some n.value, t'))
        × (iterate t' ≡ some (pairs (replace p value ns)))
        × IsOrdered t' (replace p value ns)
  unfolding put find IsOrdered
  put-replace key value t ns before p n h found =
      let here = search-found t.cell key t.next_free none _ before p n found in
      let t' : Table K V = record t { cell = update t.cell p (record n { value = value }) } in
      let order = IsOrder-replace t.cell t.next_free p n value here.0 0 ns none t.head t.tail h in
      (here.1, t', rw (put, found) refl, iterate-pairs t' (replace p value ns) order, order)
