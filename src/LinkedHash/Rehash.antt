-- ===== src/LinkedHash/Rehash.antt =====
-- Rehashing ends and keeps the pairs and their order.
use ani_vault.Base.{
  ℕ, zero, suc, ◌*◌, ◌/◌, ◌≡◌, refl, sym, ◌∙◌, Option, none, some, List, arith, replicate,
  Option-cases, set, inl, inr,
}
use ani_vault.LinkedHash.{Node, Table, bucket, update, items_from, iterate, relink, rehash}

module _ {ℓ} {K V : Type ℓ} where
  -- What the insertion order reads of an address.
  abbrev pub seen : Option (Node K V) → Option ((K × V) × (Option ℕ × Option ℕ))
  seen none = none
  seen (some n) = some ((n.key, n.value), (n.prev_in_order, n.next_in_order))

  abbrev pub SameOrder : (ℕ → Option (Node K V)) → (ℕ → Option (Node K V)) → Type ℓ
  SameOrder cell cell' = (q : ℕ) → seen (cell q) ≡ seen (cell' q)

  pub items_from-SameOrder :
      (cell cell' : ℕ → Option (Node K V)) (fuel : ℕ) (start : Option ℕ)
      → SameOrder cell cell'
      → items_from cell fuel start ≡ items_from cell' fuel start
  unfolding items_from
  items_from-SameOrder cell cell' zero none h = refl
  items_from-SameOrder cell cell' (suc fuel) none h = refl
  items_from-SameOrder cell cell' zero (some p) h = refl
  items_from-SameOrder cell cell' (suc fuel) (some p) h = elim (Option-cases (cell p)) [
    | inl e ↦ ground (arith, h p)
    | inr (n, e) ↦ elim (Option-cases (cell' p)) [
      | inl e' ↦ ground (arith, h p)
      | inr (n', e') ↦ ground (arith, h p, items_from-SameOrder cell cell' fuel n.next_in_order h)
    ]
  ]

  pub record Relinked (t t' : Table K V) : Type ℓ where
    pub order : SameOrder t.cell t'.cell
    pub same_head : t'.head ≡ t.head
    pub same_tail : t'.tail ≡ t.tail
    pub same_next : t'.next_free ≡ t.next_free
    pub same_capacity : t'.capacity ≡ t.capacity
    pub same_size : t'.size ≡ t.size

  -- The table after the loop has met a node.
  abbrev pub relinked : (ℕ → K → ℕ) → ℕ → Node K V → Table K V → Table K V
  relinked hash_index p n t =
      let i = hash_index t.capacity n.key in
      record t {
        buckets = set t.buckets i (some p);
        cell = update t.cell p (record n { next_in_bucket = bucket t i });
      }

  relinked-SameOrder :
      (cell : ℕ → Option (Node K V)) (p : ℕ) (n : Node K V) (next : Option ℕ)
      → cell p ≡ some n
      → SameOrder cell (update cell p (record n { next_in_bucket = next }))
  relinked-SameOrder cell p n next e q = ground arith

  pub relink-relinked :
      (hash_index : ℕ → K → ℕ) (fuel p : ℕ) (n : Node K V) (t : Table K V)
      → t.cell p ≡ some n
      → relink hash_index (suc fuel) (some p) t
        ≡ relink hash_index fuel n.next_in_order (relinked hash_index p n t)
  unfolding relink
  relink-relinked hash_index fuel p n t e = rw (relink, e) refl

  items_from-rest :
      (cell : ℕ → Option (Node K V)) (fuel p : ℕ) (n : Node K V) (items : List (K × V))
      → cell p ≡ some n
      → items_from cell (suc fuel) (some p) ≡ some items
      → (rest : List (K × V)) × (items_from cell fuel n.next_in_order ≡ some rest)
  unfolding items_from
  items_from-rest cell fuel p n items e h =
      elim (Option-cases (items_from cell fuel n.next_in_order)) [
        | inl none_left ↦ ground arith
        | inr found ↦ found
      ]

  Relinked-refl : (t : Table K V) → Relinked t t
  Relinked-refl t = record {
    order = λ q. refl;
    same_head = refl;
    same_tail = refl;
    same_next = refl;
    same_capacity = refl;
    same_size = refl;
  }

  Relinked-relinked :
      (hash_index : ℕ → K → ℕ) (p : ℕ) (n : Node K V) (t t' : Table K V)
      → t.cell p ≡ some n
      → Relinked (relinked hash_index p n t) t'
      → Relinked t t'
  Relinked-relinked hash_index p n t t' e r = record {
    order = λ q. relinked-SameOrder t.cell p n _ e q ∙ r.order q;
    same_head = r.same_head;
    same_tail = r.same_tail;
    same_next = r.same_next;
    same_capacity = r.same_capacity;
    same_size = r.same_size;
  }

  relink-Relinked :
      (hash_index : ℕ → K → ℕ) (fuel : ℕ) (start : Option ℕ) (t : Table K V) (items : List (K × V))
      → items_from t.cell fuel start ≡ some items
      → (t' : Table K V) × (relink hash_index fuel start t ≡ some t') × Relinked t t'
  unfolding items_from relink
  relink-Relinked hash_index zero none t items h = (t, refl, Relinked-refl t)
  relink-Relinked hash_index (suc fuel) none t items h = (t, refl, Relinked-refl t)
  relink-Relinked hash_index zero (some p) t items h = ground arith
  relink-Relinked hash_index (suc fuel) (some p) t items h = elim (Option-cases (t.cell p)) [
    | inl e ↦ ground arith
    | inr (n, e) ↦
        let met = relinked hash_index p n t in
        let left = items_from-rest t.cell fuel p n items e h in
        let again =
          items_from-SameOrder met.cell t.cell fuel n.next_in_order
            (λ q. sym (relinked-SameOrder t.cell p n _ e q)) in
        let done = relink-Relinked hash_index fuel n.next_in_order met left.0 (again ∙ left.1) in
        (
          done.0,
          relink-relinked hash_index fuel p n t e ∙ done.1,
          Relinked-relinked hash_index p n t done.0 e done.2,
        )
  ]

  -- The table that the loop of `_rehash` starts from.
  abbrev pub emptied : Table K V → Table K V
  emptied t =
      let capacity = t.capacity * 3 / 2 in
      record t { capacity = capacity; buckets = replicate capacity none }

  pub rehash-Relinked :
      (hash_index : ℕ → K → ℕ) (t : Table K V) (items : List (K × V))
      → iterate t ≡ some items
      → (t' : Table K V) × (rehash hash_index t ≡ some t') × Relinked (emptied t) t'
  unfolding iterate rehash
  rehash-Relinked hash_index t items h =
      relink-Relinked hash_index t.next_free t.head (emptied t) items h

  -- If the pointers of the order end, then rehashing ends, with half as many buckets again, rounded
  -- down, and iteration yields the same pairs in the same order. The size does not change.
  pub rehash-iterate :
      (hash_index : ℕ → K → ℕ) (t : Table K V) (items : List (K × V))
      → iterate t ≡ some items
      → (t' : Table K V) × (rehash hash_index t ≡ some t')
        × (iterate t' ≡ some items)
        × (t'.capacity ≡ t.capacity * 3 / 2)
        × (t'.size ≡ t.size)
  unfolding iterate
  rehash-iterate hash_index t items h =
      let done = rehash-Relinked hash_index t items h in
      let kept = items_from-SameOrder t.cell done.0.cell t.next_free t.head done.2.order in
      (
        done.0,
        done.1,
        rw (done.2.same_next, done.2.same_head) (sym kept ∙ h),
        done.2.same_capacity,
        done.2.same_size,
      )
