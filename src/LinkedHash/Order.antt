-- ===== src/LinkedHash/Order.antt =====
-- The insertion order: a doubly linked list over the nodes, whose addresses ascend along it.
use ani_vault.Base.{
  ℕ, zero, suc, ◌+◌, ◌≤◌, ◌<◌, ◌≡◌, sym, ◌∙◌, refl, ap, Option, none, some, List, [], ◌∷◌, ◌++◌,
  arith, length,
}
use ani_vault.LinkedHash.Chains.{Entry}
use ani_vault.LinkedHash.{Node, items_from}

-- From the fifth index on, with the node before it as the fourth, the pointers run forwards and
-- backwards through these nodes up to the last. Their addresses ascend from `lo` and are below
-- `hi`.
pub data IsOrder {ℓ} {K V : Type ℓ} (cell : ℕ → Option (Node K V)) (hi : ℕ)
    : ℕ → List (ℕ × Node K V) → Option ℕ → Option ℕ → Option ℕ → Type ℓ where
  ended : {lo : ℕ} {prev : Option ℕ} → IsOrder cell hi lo [] prev none prev
  linked :
      {lo p : ℕ} {n : Node K V} {ns : List (ℕ × Node K V)} {prev last : Option ℕ}
      → lo ≤ p
      → p < hi
      → cell p ≡ some n
      → n.prev_in_order ≡ prev
      → IsOrder cell hi (suc p) ns (some p) n.next_in_order last
      → IsOrder cell hi lo ((p, n) ∷ ns) prev (some p) last

module _ {ℓ} {K V : Type ℓ} where
  unfoldable pub pairs : List (ℕ × Node K V) → List (K × V)
  pairs [] = []
  pairs ((p, n) ∷ ns) = (n.key, n.value) ∷ pairs ns

  unfoldable pub entries : List (ℕ × Node K V) → List (Entry K V)
  entries [] = []
  entries ((p, n) ∷ ns) = (n.key, (p, n.value)) ∷ entries ns

  -- The entries without their addresses.
  unfoldable pub strip : List (Entry K V) → List (K × V)
  strip [] = []
  strip ((k, (p, v)) ∷ es) = (k, v) ∷ strip es

  pub strip-entries : (ns : List (ℕ × Node K V)) → strip (entries ns) ≡ pairs ns
  unfolding strip entries pairs
  strip-entries [] = refl
  strip-entries ((p, n) ∷ ns) = ap (λ rest. (n.key, n.value) ∷ rest) (strip-entries ns)

  pub pairs-entries : (ms ns : List (ℕ × Node K V)) → entries ms ≡ entries ns → pairs ms ≡ pairs ns
  pairs-entries ms ns e = sym (strip-entries ms) ∙ (ap strip e ∙ strip-entries ns)

  pub length-entries : (ns : List (ℕ × Node K V)) → length (entries ns) ≡ length ns
  unfolding entries
  length-entries [] = refl
  length-entries (n ∷ ns) = ap suc (length-entries ns)

  pub length-pairs : (ns : List (ℕ × Node K V)) → length ns ≡ length (pairs ns)
  unfolding pairs
  length-pairs [] = refl
  length-pairs ((p, n) ∷ ns) = ap suc (length-pairs ns)

  -- The nodes after a new one is linked behind the last.
  unfoldable pub append_last : ℕ → Node K V → List (ℕ × Node K V) → List (ℕ × Node K V)
  append_last q new [] = (q, new) ∷ []
  append_last q new ((p, n) ∷ []) = (p, record n { next_in_order = some q }) ∷ (q, new) ∷ []
  append_last q new ((p, n) ∷ (m ∷ ns)) = (p, n) ∷ append_last q new (m ∷ ns)

  pub entries-append_last :
      (q : ℕ) (new : Node K V) (ns : List (ℕ × Node K V))
      → entries (append_last q new ns) ≡ entries ns ++ (new.key, (q, new.value)) ∷ []
  unfolding entries append_last
  entries-append_last q new [] = refl
  entries-append_last q new ((p, n) ∷ []) = refl
  entries-append_last q new ((p, n) ∷ (m ∷ ns)) =
      ap (λ rest. (n.key, (p, n.value)) ∷ rest) (entries-append_last q new (m ∷ ns))

  pub pairs-append_last :
      (q : ℕ) (new : Node K V) (ns : List (ℕ × Node K V))
      → pairs (append_last q new ns) ≡ pairs ns ++ (new.key, new.value) ∷ []
  unfolding pairs append_last
  pairs-append_last q new [] = refl
  pairs-append_last q new ((p, n) ∷ []) = refl
  pairs-append_last q new ((p, n) ∷ (m ∷ ns)) =
      ap (λ rest. (n.key, n.value) ∷ rest) (pairs-append_last q new (m ∷ ns))

  module _ (cell : ℕ → Option (Node K V)) (hi : ℕ) where
    pub record Linked (lo p : ℕ) (n : Node K V) (ns : List (ℕ × Node K V))
        (prev start last : Option ℕ) : Type ℓ where
      pub starts : start ≡ some p
      pub above : lo ≤ p
      pub below : p < hi
      pub here : cell p ≡ some n
      pub back : n.prev_in_order ≡ prev
      pub next : IsOrder cell hi (suc p) ns (some p) n.next_in_order last

    pub uncons :
        (lo p : ℕ) (n : Node K V) (ns : List (ℕ × Node K V)) (prev start last : Option ℕ)
        → IsOrder cell hi lo ((p, n) ∷ ns) prev start last
        → Linked lo p n ns prev start last
    uncons lo p n ns prev (some q) last (linked above below here back rest) = record {
      starts = refl;
      above = above;
      below = below;
      here = here;
      back = back;
      next = rest;
    }
    uncons lo p n ns prev none last h = elim h [ ]

    pub IsOrder-ends :
        (lo : ℕ) (prev start last : Option ℕ)
        → IsOrder cell hi lo [] prev start last
        → (start ≡ none) × (last ≡ prev)
    IsOrder-ends lo prev none last ended = (refl, refl)
    IsOrder-ends lo prev (some q) last h = elim h [ ]

    pub length-IsOrder :
        (lo : ℕ) (ns : List (ℕ × Node K V)) (prev start last : Option ℕ)
        → lo ≤ hi
        → IsOrder cell hi lo ns prev start last
        → lo + length ns ≤ hi
    length-IsOrder lo [] prev start last bound h = omega arith
    length-IsOrder lo ((p, n) ∷ ns) prev start last bound h =
        let l = uncons lo p n ns prev start last h in
        omega (
          arith,
          l.above,
          l.below,
          length-IsOrder (suc p) ns (some p) n.next_in_order last l.below l.next,
        )

    pub items_from-pairs :
        (fuel lo : ℕ) (ns : List (ℕ × Node K V)) (prev start last : Option ℕ)
        → IsOrder cell hi lo ns prev start last
        → length ns ≤ fuel
        → items_from cell fuel start ≡ some (pairs ns)
    unfolding items_from pairs
    items_from-pairs zero lo [] prev start last h bound =
        rw (items_from, (IsOrder-ends lo prev start last h).0) refl
    items_from-pairs (suc fuel) lo [] prev start last h bound =
        rw (items_from, (IsOrder-ends lo prev start last h).0) refl
    items_from-pairs zero lo ((p, n) ∷ ns) prev start last h bound = ground arith
    items_from-pairs (suc fuel) lo ((p, n) ∷ ns) prev start last h bound =
        let l = uncons lo p n ns prev start last h in
        let rest =
          items_from-pairs fuel (suc p) ns (some p) n.next_in_order last l.next (omega arith) in
        rw (l.starts, items_from, l.here, rest) refl
