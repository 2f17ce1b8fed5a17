-- ===== src/LinkedHash/Put.antt =====
-- What `put` does to the insertion order.
use ani_vault.Base.{
  ℕ, ◌*◌, ◌≡◌, refl, ◌∙◌, ap, Bool, none, some, List, [], ◌∷◌, ◌++◌, leb, Bool-cases, inl, inr,
}
use ani_vault.LinkedHash.{Node, Table, find, grow, put, iterate, append_node}
use ani_vault.LinkedHash.Order.{pairs, pairs-entries, append_last, pairs-append_last}
use ani_vault.LinkedHash.Append.{IsOrdered, made, append_node-IsOrdered, iterate-pairs}
use ani_vault.LinkedHash.Kept.{rehash-IsOrdered}

module _ {ℓ} {K V : Type ℓ} (same : K → K → Bool) (hash_index : ℕ → K → ℕ) where
  grow-IsOrdered :
      (t : Table K V) (ns : List (ℕ × Node K V))
      → IsOrdered t ns
      → (t' : Table K V) × (grow same hash_index t ≡ some t')
        × (ns' : List (ℕ × Node K V)) × IsOrdered t' ns'
        × (pairs ns' ≡ pairs ns)
  unfolding grow
  grow-IsOrdered t ns h =
      let again = rehash-IsOrdered hash_index t ns h in
      elim (Bool-cases (leb (t.capacity * t.load_factor) (t.size * t.one))) [
        | inl e ↦
            (again.0, rw (grow, e) again.1, again.3, again.4, pairs-entries again.3 ns again.5)
        | inr e ↦ (t, rw (grow, e) refl, ns, h, refl)
      ]

  -- `put` of a key that the search of its bucket does not find, in a table that keeps its order:
  -- it ends, whether the table grows or not, returns `None`, and leaves a table that keeps its
  -- order. Iteration over that table ends and yields the pairs of before in their order, and the
  -- new pair behind them.
  pub put-iterate :
      (key : K) (value : V) (t : Table K V) (ns : List (ℕ × Node K V))
      → IsOrdered t ns
      → find same hash_index key t ≡ some none
      → (t' : Table K V) × (put same hash_index key value t ≡ some (none, t'))
        × (iterate t' ≡ some (pairs ns ++ (key, value) ∷ []))
        × (ns' : List (ℕ × Node K V)) × IsOrdered t' ns'
        × (pairs ns' ≡ pairs ns ++ (key, value) ∷ [])
  unfolding put
  put-iterate key value t ns h absent =
      let i = hash_index t.capacity key in
      let new = made i key value t in
      let grown =
        grow-IsOrdered (append_node i key value t) (append_last t.next_free new ns)
          (append_node-IsOrdered i key value t ns h) in
      let added = grown.4 ∙ pairs-append_last t.next_free new ns in
      (
        grown.0,
        rw (put, absent, grown.1) refl,
        iterate-pairs grown.0 grown.2 grown.3 ∙ ap some added,
        grown.2,
        grown.3,
        added,
      )
