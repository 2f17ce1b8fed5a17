-- ===== src/LinkedHash/Append.antt =====
-- A new node at the end of the insertion order.
use ani_vault.Base.{
  ℕ, suc, ◌≤◌, ◌<◌, ◌≡◌, ◌≢◌, refl, sym, ◌∙◌, Option, none, some, List, [], ◌∷◌, arith,
}
use ani_vault.LinkedHash.{Node, Table, iterate, append_node, bucket}
use ani_vault.LinkedHash.Order.{
  IsOrder, ended, linked, pairs, append_last, uncons, IsOrder-ends, items_from-pairs,
  length-IsOrder,
}

module _ {ℓ} {K V : Type ℓ} where
  -- The last node of an order that has one is not below the order's addresses.
  last_above :
      (cell : ℕ → Option (Node K V)) (hi lo p l : ℕ) (n : Node K V) (ns : List (ℕ × Node K V))
      (prev start : Option ℕ)
      → IsOrder cell hi lo ((p, n) ∷ ns) prev start (some l)
      → (lo ≤ l) × (l < hi)
  last_above cell hi lo p l n [] prev start h =
      let u = uncons cell hi lo p n [] prev start (some l) h in
      let e = IsOrder-ends cell hi (suc p) (some p) n.next_in_order (some l) u.next in
      let above = u.above in let below = u.below in ground (arith, e.1)
  last_above cell hi lo p l n ((q, m) ∷ ns) prev start h =
      let u = uncons cell hi lo p n ((q, m) ∷ ns) prev start (some l) h in
      let above = u.above in
      let rest = last_above cell hi (suc p) q l m ns (some p) n.next_in_order u.next in
      (omega arith, omega arith)

  -- A store with the new node, in which the last node points to it and the others are as before.
  pub record IsAppended (cell cell' : ℕ → Option (Node K V)) (hi l : ℕ) (new : Node K V)
      : Type ℓ where
    pub others : (q : ℕ) → q < hi → q ≢ l → cell' q ≡ cell q
    pub last_node :
        (m : Node K V) → cell l ≡ some m → cell' l ≡ some (record m { next_in_order = some hi })
    pub new_node : cell' hi ≡ some new
    pub new_prev : new.prev_in_order ≡ some l
    pub new_next : new.next_in_order ≡ none

  append_last-IsOrder :
      (cell cell' : ℕ → Option (Node K V)) (hi l : ℕ) (new : Node K V)
      → IsAppended cell cell' hi l new
      → (lo p : ℕ) (n : Node K V) (ns : List (ℕ × Node K V)) (prev start : Option ℕ)
      → IsOrder cell hi lo ((p, n) ∷ ns) prev start (some l)
      → IsOrder cell' (suc hi) lo (append_last hi new ((p, n) ∷ ns)) prev start (some hi)
  unfolding append_last
  append_last-IsOrder cell cell' hi l new a lo p n [] prev start h =
      let u = uncons cell hi lo p n [] prev start (some l) h in
      let e = (IsOrder-ends cell hi (suc p) (some p) n.next_in_order (some l) u.next).1 in
      let here = u.here in
      rw (u.starts) (
        linked u.above (omega (arith, u.below)) (ground (arith, e, a.last_node n)) u.back
          (linked u.below (omega arith) a.new_node (a.new_prev ∙ e) (rw (a.new_next) ended)))
  append_last-IsOrder cell cell' hi l new a lo p n ((q, m) ∷ ns) prev start h =
      let u = uncons cell hi lo p n ((q, m) ∷ ns) prev start (some l) h in
      let rest = last_above cell hi (suc p) q l m ns (some p) n.next_in_order u.next in
      rw (u.starts) (
        linked u.above (omega (arith, u.below)) (a.others p u.below (ground arith) ∙ u.here) u.back
          (append_last-IsOrder cell cell' hi l new a (suc p) q m ns (some p) n.next_in_order
            u.next))

  -- The table keeps its insertion order in these nodes.
  unfoldable pub IsOrdered : Table K V → List (ℕ × Node K V) → Type ℓ
  IsOrdered t ns = IsOrder t.cell t.next_free 0 ns none t.head t.tail

  -- The node that `put` makes.
  abbrev pub made : ℕ → K → V → Table K V → Node K V
  made i key value t = record {
    key = key;
    value = value;
    next_in_bucket = bucket t i;
    prev_in_order = t.tail;
    next_in_order = none;
  }

  has_last :
      (cell : ℕ → Option (Node K V)) (hi lo p : ℕ) (n : Node K V) (ns : List (ℕ × Node K V))
      (prev start last : Option ℕ)
      → IsOrder cell hi lo ((p, n) ∷ ns) prev start last
      → (l : ℕ) × (m : Node K V) × (last ≡ some l) × (cell l ≡ some m) × (l < hi)
  has_last cell hi lo p n [] prev start last h =
      let u = uncons cell hi lo p n [] prev start last h in
      let e = IsOrder-ends cell hi (suc p) (some p) n.next_in_order last u.next in
      (p, n, e.1, u.here, u.below)
  has_last cell hi lo p n ((q, m) ∷ ns) prev start last h =
      let u = uncons cell hi lo p n ((q, m) ∷ ns) prev start last h in
      has_last cell hi (suc p) q m ns (some p) n.next_in_order last u.next

  -- What `append_node` makes of a table with a last node.
  record Appended (i : ℕ) (key : K) (value : V) (t t' : Table K V) (l : ℕ) : Type ℓ where
    to_head : t'.head ≡ t.head
    to_tail : t'.tail ≡ some t.next_free
    to_next : t'.next_free ≡ suc t.next_free
    to_cell : IsAppended t.cell t'.cell t.next_free l (made i key value t)

  append_node-Appended :
      (i : ℕ) (key : K) (value : V) (t : Table K V) (l : ℕ) (m : Node K V)
      → t.tail ≡ some l
      → t.cell l ≡ some m
      → l < t.next_free
      → Appended i key value t (append_node i key value t) l
  unfolding append_node
  append_node-Appended i key value t l m e here below = record {
    to_head = ground arith;
    to_tail = ground arith;
    to_next = ground arith;
    to_cell = record {
      others = λ q bound differs. ground arith;
      last_node = λ m' here'. ground arith;
      new_node = ground arith;
      new_prev = e;
      new_next = refl;
    };
  }

  Appended-IsOrdered :
      (i : ℕ) (key : K) (value : V) (t t' : Table K V) (l p : ℕ) (n : Node K V)
      (ns : List (ℕ × Node K V))
      → Appended i key value t t' l
      → t.tail ≡ some l
      → IsOrdered t ((p, n) ∷ ns)
      → IsOrdered t' (append_last t.next_free (made i key value t) ((p, n) ∷ ns))
  unfolding IsOrdered
  Appended-IsOrdered i key value t t' l p n ns a e h =
      rw (a.to_next, a.to_tail, a.to_head)
        (append_last-IsOrder t.cell t'.cell t.next_free l (made i key value t) a.to_cell 0 p n ns
          none t.head (rw (sym e) h))

  -- What `append_node` makes of a table without a node.
  record First (i : ℕ) (key : K) (value : V) (t t' : Table K V) : Type ℓ where
    first_head : t'.head ≡ some t.next_free
    first_tail : t'.tail ≡ some t.next_free
    first_next : t'.next_free ≡ suc t.next_free
    first_node : t'.cell t.next_free ≡ some (made i key value t)

  append_node-First :
      (i : ℕ) (key : K) (value : V) (t : Table K V)
      → t.tail ≡ none
      → First i key value t (append_node i key value t)
  unfolding append_node
  append_node-First i key value t e = record {
    first_head = ground arith;
    first_tail = ground arith;
    first_next = ground arith;
    first_node = ground arith;
  }

  First-IsOrdered :
      (i : ℕ) (key : K) (value : V) (t t' : Table K V)
      → First i key value t t'
      → t.tail ≡ none
      → IsOrdered t' ((t.next_free, made i key value t) ∷ [])
  unfolding IsOrdered
  First-IsOrdered i key value t t' f e =
      rw (f.first_next, f.first_tail, f.first_head)
        (linked (omega arith) (omega arith) f.first_node e ended)

  pub append_node-IsOrdered :
      (i : ℕ) (key : K) (value : V) (t : Table K V) (ns : List (ℕ × Node K V))
      → IsOrdered t ns
      → IsOrdered (append_node i key value t) (append_last t.next_free (made i key value t) ns)
  unfolding IsOrdered append_last
  append_node-IsOrdered i key value t [] h =
      let e = (IsOrder-ends t.cell t.next_free 0 none t.head t.tail h).1 in
      First-IsOrdered i key value t (append_node i key value t) (append_node-First i key value t e)
        e
  append_node-IsOrdered i key value t ((p, n) ∷ ns) h =
      let l = has_last t.cell t.next_free 0 p n ns none t.head t.tail h in
      Appended-IsOrdered i key value t (append_node i key value t) l.0 p n ns
        (append_node-Appended i key value t l.0 l.1 l.2 l.3 l.4) l.2 h

  -- Iteration over an ordered table ends and yields the pairs of its nodes.
  pub iterate-pairs :
      (t : Table K V) (ns : List (ℕ × Node K V)) → IsOrdered t ns → iterate t ≡ some (pairs ns)
  unfolding IsOrdered iterate
  iterate-pairs t ns h =
      items_from-pairs t.cell t.next_free t.next_free 0 ns none t.head t.tail h
        (omega (arith, length-IsOrder t.cell t.next_free 0 ns none t.head t.tail (omega arith) h))
