-- ===== src/LinkedHash/Unlink.antt =====
-- The links around a node that `remove` takes out of the order.
use ani_vault.Base.{
  some_injective, ◌≡◌, ◌≢◌, refl, sym, ap, ◌∙◌, Option, none, some, arith, ℕ, Option-cases, inl,
  inr,
}
use ani_vault.LinkedHash.{Node, Table, assign, link_forward, link_back, unlink}
use ani_vault.LinkedHash.Assign.{Assigned, assign-Assigned, update_at, update_away}
use ani_vault.LinkedHash.Rehash.{seen}
use ani_vault.LinkedHash.Kept.{Agrees, seen-Agrees}

-- The first and the last node, when one with these neighbours leaves.
abbrev pub first_without : Option ℕ → Option ℕ → Option ℕ → Option ℕ
first_without none next head = next
first_without (some a) next head = head

abbrev pub last_without : Option ℕ → Option ℕ → Option ℕ → Option ℕ
last_without prev none tail = prev
last_without prev (some b) tail = tail

module _ {ℓ} {K V : Type ℓ} where
  pub assign_here :
      (a : ℕ) (f : Node K V → Node K V) (t : Table K V) (m : Node K V)
      → t.cell a ≡ some m
      → (assign (some a) f t).cell a ≡ some (f m)
  assign_here a f t m e = rw (assign, e) (update_at t.cell a (f m))

  pub assign_away :
      (a q : ℕ) (f : Node K V → Node K V) (t : Table K V)
      → a ≢ q
      → (assign (some a) f t).cell q ≡ t.cell q
  assign_away a q f t differs = elim (Option-cases (t.cell a)) [
    | inl e ↦ rw (assign, e) refl
    | inr (n, e) ↦ rw (assign, e) (update_away t.cell a q (f n) differs)
  ]

  pub assign_ends :
      (o : Option ℕ) (f : Node K V → Node K V) (t : Table K V)
      → ((assign o f t).head ≡ t.head) × ((assign o f t).tail ≡ t.tail)
  assign_ends none f t = (refl, refl)
  assign_ends (some a) f t = elim (Option-cases (t.cell a)) [
    | inl e ↦ rw (assign, e) (refl, refl)
    | inr (n, e) ↦ rw (assign, e) (refl, refl)
  ]

  pub assign_rest :
      (o : Option ℕ) (f : Node K V → Node K V) (t : Table K V)
      → ((assign o f t).capacity ≡ t.capacity)
        × ((assign o f t).next_free ≡ t.next_free)
        × ((assign o f t).buckets ≡ t.buckets)
  assign_rest none f t = (refl, refl, refl)
  assign_rest (some a) f t = elim (Option-cases (t.cell a)) [
    | inl e ↦ rw (assign, e) (refl, refl, refl)
    | inr (n, e) ↦ rw (assign, e) (refl, refl, refl)
  ]

  Assigned-trans : (t u w : Table K V) → Assigned t u → Assigned u w → Assigned t w
  Assigned-trans t u w a b = record {
    same_capacity = b.same_capacity ∙ a.same_capacity;
    same_size = b.same_size ∙ a.same_size;
    same_next = b.same_next ∙ a.same_next;
    same_buckets = b.same_buckets ∙ a.same_buckets;
    frame = λ q. a.frame q ∙ b.frame q;
  }

  link_forward-Assigned :
      (prev next : Option ℕ) (t : Table K V) → Assigned t (link_forward prev next t)
  unfolding link_forward
  link_forward-Assigned none next t = record {
    same_capacity = refl;
    same_size = refl;
    same_next = refl;
    same_buckets = refl;
    frame = λ q. refl;
  }
  link_forward-Assigned (some p) next t = assign-Assigned (some p) _ (λ n. refl) t

  link_back-Assigned : (prev next : Option ℕ) (t : Table K V) → Assigned t (link_back prev next t)
  unfolding link_back
  link_back-Assigned prev none t = record {
    same_capacity = refl;
    same_size = refl;
    same_next = refl;
    same_buckets = refl;
    frame = λ q. refl;
  }
  link_back-Assigned prev (some p) t = assign-Assigned (some p) _ (λ n. refl) t

  -- The chains do not see it.
  pub unlink-Assigned : (n : Node K V) (t : Table K V) → Assigned t (unlink n t)
  unfolding unlink
  unlink-Assigned n t =
      Assigned-trans t (link_forward n.prev_in_order n.next_in_order t) _
        (link_forward-Assigned n.prev_in_order n.next_in_order t)
        (link_back-Assigned n.prev_in_order n.next_in_order _)

  -- A store in which the nodes before and after one are linked to each other, read by the order.
  pub record Unlinked (cell cell' : ℕ → Option (Node K V)) (prev next : Option ℕ) : Type ℓ where
    pub others : (q : ℕ) → prev ≢ some q → next ≢ some q → seen (cell q) ≡ seen (cell' q)
    pub forward :
        (a : ℕ) (m : Node K V)
        → prev ≡ some a
        → next ≢ some a
        → cell a ≡ some m
        → seen (some (record m { next_in_order = next })) ≡ seen (cell' a)
    pub back :
        (b : ℕ) (m : Node K V)
        → next ≡ some b
        → prev ≢ some b
        → cell b ≡ some m
        → seen (some (record m { prev_in_order = prev })) ≡ seen (cell' b)

  forward_cell :
      (prev next : Option ℕ) (t : Table K V) (q : ℕ)
      → prev ≢ some q
      → (link_forward prev next t).cell q ≡ t.cell q
  unfolding link_forward
  forward_cell none next t q differs = refl
  forward_cell (some a) next t q differs = assign_away a q _ t (ground arith)

  back_cell :
      (prev next : Option ℕ) (t : Table K V) (q : ℕ)
      → next ≢ some q
      → (link_back prev next t).cell q ≡ t.cell q
  unfolding link_back
  back_cell prev none t q differs = refl
  back_cell prev (some a) t q differs = assign_away a q _ t (ground arith)

  forward_here :
      (prev next : Option ℕ) (t : Table K V) (a : ℕ) (m : Node K V)
      → prev ≡ some a
      → t.cell a ≡ some m
      → (link_forward prev next t).cell a ≡ some (record m { next_in_order = next })
  unfolding link_forward
  forward_here none next t a m e here = ground arith
  forward_here (some b) next t a m e here =
      let e' : b ≡ a = some_injective e in rw e' (assign_here a _ t m here)

  back_here :
      (prev next : Option ℕ) (t : Table K V) (b : ℕ) (m : Node K V)
      → next ≡ some b
      → t.cell b ≡ some m
      → (link_back prev next t).cell b ≡ some (record m { prev_in_order = prev })
  unfolding link_back
  back_here prev none t b m e here = ground arith
  back_here prev (some c) t b m e here =
      let e' : c ≡ b = some_injective e in rw e' (assign_here b _ t m here)

  pub unlink-Unlinked :
      (n : Node K V) (t : Table K V)
      → Unlinked t.cell (unlink n t).cell n.prev_in_order n.next_in_order
  unfolding unlink
  unlink-Unlinked n t =
      let prev = n.prev_in_order in
      let next = n.next_in_order in
      let between = link_forward prev next t in
      record {
        others = λ q p_differs n_differs.
            ap seen (
              sym (back_cell prev next between q n_differs ∙ forward_cell prev next t q p_differs));
        forward = λ a m e differs here.
            ap seen
              (sym (back_cell prev next between a differs ∙ forward_here prev next t a m e here));
        back = λ b m e differs here.
            ap seen
              (sym (back_here prev next between b m e (forward_cell prev next t b differs ∙ here)));
      }

  forward_ends :
      (prev next : Option ℕ) (t : Table K V)
      → ((link_forward prev next t).head ≡ first_without prev next t.head)
        × ((link_forward prev next t).tail ≡ t.tail)
  unfolding link_forward
  forward_ends none next t = (refl, refl)
  forward_ends (some a) next t = assign_ends (some a) _ t

  back_ends :
      (prev next : Option ℕ) (t : Table K V)
      → ((link_back prev next t).head ≡ t.head)
        × ((link_back prev next t).tail ≡ last_without prev next t.tail)
  unfolding link_back
  back_ends prev none t = (refl, refl)
  back_ends prev (some b) t = assign_ends (some b) _ t

  -- The head moves if no node is before, and the tail if none is after.
  pub unlink-ends :
      (n : Node K V) (t : Table K V)
      → ((unlink n t).head ≡ first_without n.prev_in_order n.next_in_order t.head)
        × ((unlink n t).tail ≡ last_without n.prev_in_order n.next_in_order t.tail)
  unfolding unlink
  unlink-ends n t =
      let between = link_forward n.prev_in_order n.next_in_order t in
      let f = forward_ends n.prev_in_order n.next_in_order t in
      let b = back_ends n.prev_in_order n.next_in_order between in
      (b.0 ∙ f.0, b.1 ∙ ap (last_without n.prev_in_order n.next_in_order) f.1)

  seen_next :
      {c : Option (Node K V)} (m m' : Node K V) (next : Option ℕ)
      → Agrees c m m'
      → seen (some (record m { next_in_order = next }))
        ≡ seen (some (record m' { next_in_order = next }))
  seen_next m m' next a = rw (a.same_key, a.same_value, a.same_prev) refl

  seen_prev :
      {c : Option (Node K V)} (m m' : Node K V) (prev : Option ℕ)
      → Agrees c m m'
      → seen (some (record m { prev_in_order = prev }))
        ≡ seen (some (record m' { prev_in_order = prev }))
  seen_prev m m' prev a = rw (a.same_key, a.same_value, a.same_order) refl

  -- An assignment that the order does not see does not matter.
  pub Unlinked-seen :
      (cell between cell' : ℕ → Option (Node K V)) (prev next : Option ℕ)
      → ((q : ℕ) → seen (cell q) ≡ seen (between q))
      → Unlinked between cell' prev next
      → Unlinked cell cell' prev next
  Unlinked-seen cell between cell' prev next s u = record {
    others = λ q p_differs n_differs. s q ∙ u.others q p_differs n_differs;
    forward = λ a m e differs here.
        (let m' = seen-Agrees (between a) m (ap seen (sym here) ∙ s a) in
          seen_next m m'.0 next m'.1 ∙ u.forward a m'.0 e differs m'.1.there);
    back = λ b m e differs here.
        (let m' = seen-Agrees (between b) m (ap seen (sym here) ∙ s b) in
          seen_prev m m'.0 prev m'.1 ∙ u.back b m'.0 e differs m'.1.there);
  }
