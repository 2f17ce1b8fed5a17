-- ===== src/LinkedHash/Assign.antt =====
-- Assignments to fields of one node, as the chains see them.
use ani_vault.Base.{
  ◌≡◌, ◌≢◌, refl, sym, ap, ◌∙◌, Option, none, some, ℕ, ◌==◌, ==_iff, Bool-cases, Option-cases, inl,
  inr,
}
use ani_vault.LinkedHash.{Node, Table, update, assign}
use ani_vault.LinkedHash.Buckets.{chained}

module _ {ℓ} {A : Type ℓ} where
  pub update_at : (cell : ℕ → Option A) (p : ℕ) (a : A) → update cell p a p ≡ some a
  update_at cell p a = rw ((==_iff p p).1 refl) refl

  pub update_away : (cell : ℕ → Option A) (p q : ℕ) (a : A) → p ≢ q → update cell p a q ≡ cell q
  update_away cell p q a differs = elim (Bool-cases (p == q)) [
    | inl e ↦ absurd (differs ((==_iff p q).0 e))
    | inr e ↦ rw e refl
  ]

module _ {ℓ} {K V : Type ℓ} where
  pub update_here :
      (cell : ℕ → Option (Node K V)) (p : ℕ) (n : Node K V)
      → chained (update cell p n p) ≡ chained (some n)
  update_here cell p n = ap chained (update_at cell p n)

  pub update_other :
      (cell : ℕ → Option (Node K V)) (p q : ℕ) (n : Node K V)
      → p ≢ q
      → chained (cell q) ≡ chained (update cell p n q)
  update_other cell p q n differs = ap chained (sym (update_away cell p q n differs))

  -- A table in which only order pointers differ.
  pub record Assigned (t t' : Table K V) : Type ℓ where
    pub same_capacity : t'.capacity ≡ t.capacity
    pub same_size : t'.size ≡ t.size
    pub same_next : t'.next_free ≡ t.next_free
    pub same_buckets : t'.buckets ≡ t.buckets
    pub frame : (q : ℕ) → chained (t.cell q) ≡ chained (t'.cell q)

  pub Assigned-refl : (t : Table K V) → Assigned t t
  Assigned-refl t = record {
    same_capacity = refl;
    same_size = refl;
    same_next = refl;
    same_buckets = refl;
    frame = λ q. refl;
  }

  frame_at :
      (cell : ℕ → Option (Node K V)) (p q : ℕ) (n n' : Node K V)
      → cell p ≡ some n
      → chained (some n') ≡ chained (some n)
      → chained (cell q) ≡ chained (update cell p n' q)
  frame_at cell p q n n' here same = elim (Bool-cases (p == q)) [
    | inl e ↦ rw (e, sym ((==_iff p q).0 e)) (ap chained here ∙ sym same)
    | inr e ↦ rw e refl
  ]

  pub assign-Assigned :
      (o : Option ℕ) (f : Node K V → Node K V)
      → ((n : Node K V) → chained (some (f n)) ≡ chained (some n))
      → (t : Table K V) → Assigned t (assign o f t)
  assign-Assigned none f same t = Assigned-refl t
  assign-Assigned (some p) f same t = elim (Option-cases (t.cell p)) [
    | inl e ↦ rw (assign, e) (Assigned-refl t)
    | inr (n, e) ↦
        rw (assign, e)
          (record {
            same_capacity = refl;
            same_size = refl;
            same_next = refl;
            same_buckets = refl;
            frame = λ q. frame_at t.cell p q n (f n) e (same n);
          })
  ]
