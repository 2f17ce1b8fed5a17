-- ===== src/LinkedHash/Unchain.antt =====
-- A bucket's chain without the node that `remove` takes out.
use ani_vault.Base.{
  some_injective, ◌≡◌, ◌≢◌, refl, sym, ap, ◌∙◌, ◌⊎◌, Bool, false, Option, none, some, List, [], ◌∷◌,
  ◌++◌, arith, ℕ, ◌≤◌, ◌==◌, ==_iff, All, Bool-cases, inl, inr,
}
use mathlib.Core.Path.{subst}
use ani_vault.LinkedHash.{Node}
use ani_vault.LinkedHash.Assoc.{lookup, remove}
use ani_vault.LinkedHash.Chains.{Entry, chain_of, single}
use ani_vault.LinkedHash.Buckets.{
  Bucket, ended, linked, Bucket-uncons, Bucket-ends, Bucket-frame, chained, chained_node, before,
}

module _ {ℓ} {K V : Type ℓ} (index : K → ℕ) where
  abbrev pub HasIndex : ℕ → List (Entry K V) → Type 0
  HasIndex i es = All (λ (e : Entry K V). index e.0 ≡ i) es

  HasIndex-append :
      (i : ℕ) (ds es : List (Entry K V)) → HasIndex i ds → HasIndex i es → HasIndex i (ds ++ es)
  HasIndex-append i [] es h h' = h'
  HasIndex-append i (d ∷ ds) es h h' = (h.0, HasIndex-append i ds es h.1 h')

  pub chain_of-HasIndex : (i : ℕ) (es : List (Entry K V)) → HasIndex i (chain_of index i es)
  unfolding chain_of single
  chain_of-HasIndex i [] = tt
  chain_of-HasIndex i (e ∷ es) =
      HasIndex-append i (chain_of index i es) (single index i e) (chain_of-HasIndex i es)
        (elim (Bool-cases (index e.0 == i)) [
          | inl h ↦ rw (single, h) ((==_iff (index e.0) i).0 h, tt)
          | inr h ↦ rw (single, h) tt
        ])

  -- A chain does not depend on a node whose key has another index.
  pub Bucket-avoid :
      (cell cell' : ℕ → Option (Node K V)) (i j a : ℕ) (m : Node K V) (hi : ℕ)
      (es : List (Entry K V)) (start : Option ℕ)
      → cell a ≡ some m
      → index m.key ≡ i
      → i ≢ j
      → ((q : ℕ) → a ≢ q → chained (cell q) ≡ chained (cell' q))
      → HasIndex j es
      → Bucket cell hi es start
      → Bucket cell' hi es start
  Bucket-avoid cell cell' i j a m hi [] start here k differs frame h b =
      rw (Bucket-ends cell hi start b) ended
  Bucket-avoid cell cell' i j a m hi ((l, (q, v)) ∷ es) start here k differs frame h b =
      let u = Bucket-uncons cell hi q l v es start b in
      let apart : a ≢ q = λ a_is_q.
        (let same_node : m ≡ u.node = some_injective (sym here ∙ (rw a_is_q u.here)) in
          differs (
            sym k ∙ (ap (λ (x : Node K V). index x.key) same_node ∙ (ap index u.its_key ∙ h.0)))) in
      let c = chained_node u.node (cell' q) (ap chained (sym u.here) ∙ frame q apart) in
      let rest =
        Bucket-avoid cell cell' i j a m q es u.node.next_in_bucket here k differs frame h.1
          u.rest in
      rw (u.starts) (linked c.0 u.below c.1 (c.2 ∙ u.its_key) (c.3 ∙ u.its_value) (rw (c.4) rest))

  module _ (cell : ℕ → Option (Node K V)) (p : ℕ) (n : Node K V) (same : K → K → Bool) (key : K)
      (w : V) (i : ℕ) where
    -- The node before the one that is found: with its pointer moved on, the chain is shorter.
    pub record Cut (top hi : ℕ) (start found_before : Option ℕ) (es : List (Entry K V))
        : Type ℓ where
      pub before_it : ℕ
      pub its_node : Node K V
      pub is_before : found_before ≡ some before_it
      pub bound : before_it ≤ top
      pub stored : cell before_it ≡ some its_node
      pub its_index : index its_node.key ≡ i
      pub cut :
          (cell' : ℕ → Option (Node K V))
          → ((q : ℕ) → before_it ≢ q → chained (cell q) ≡ chained (cell' q))
          → chained (some (record its_node { next_in_bucket = n.next_in_bucket }))
            ≡ chained (cell' before_it)
          → Bucket cell' hi es start

    deeper-Cut :
        (hi q : ℕ) (k : K) (v : V) (es : List (Entry K V)) (start : Option ℕ)
        → cell p ≡ some n
        → Bucket cell hi ((k, (q, v)) ∷ es) start
        → HasIndex i ((k, (q, v)) ∷ es)
        → same k key ≡ false
        → lookup same key es ≡ some (p, w)
        → Cut q hi start (before same key (some q) es) (remove same key ((k, (q, v)) ∷ es))
    unfolding lookup remove before
    deeper-Cut hi q k v [] start here b h differs found = ground arith
    deeper-Cut hi q k v ((k', (q', v')) ∷ es) start here b h differs found =
        let u = Bucket-uncons cell hi q k v ((k', (q', v')) ∷ es) start b in
        let u' = Bucket-uncons cell q q' k' v' es u.node.next_in_bucket u.rest in
        let below = u'.below in
        elim (Bool-cases (same k' key)) [
          | inl e ↦
              let q'_is_p : q' ≡ p = ground arith in
              let same_node : u'.node ≡ n = some_injective (sym u'.here ∙ (rw q'_is_p here)) in
              record {
                before_it = q;
                its_node = u.node;
                is_before = rw e refl;
                bound = omega arith;
                stored = u.here;
                its_index = ap index u.its_key ∙ h.0;
                cut = λ cell' frame at.
                    (let c =
                        chained_node (record (u.node) { next_in_bucket = n.next_in_bucket })
                          (cell' q) at in
                      let rest =
                        Bucket-frame cell cell' q' q es u'.node.next_in_bucket (omega arith)
                          (λ r lt. frame r (omega arith)) u'.rest in
                      rw (differs, e, u.starts)
                        (linked c.0 u.below c.1 (c.2 ∙ u.its_key) (c.3 ∙ u.its_value) (
                          rw (c.4) (
                            subst (λ (x : Node K V). Bucket cell' q es x.next_in_bucket) same_node
                              rest))));
              }
          | inr e ↦
              let rest =
                deeper-Cut q q' k' v' es u.node.next_in_bucket here u.rest h.1 e (ground arith) in
              let near = rest.bound in
              record {
                before_it = rest.before_it;
                its_node = rest.its_node;
                is_before = rw e (rest.is_before);
                bound = omega arith;
                stored = rest.stored;
                its_index = rest.its_index;
                cut = λ cell' frame at.
                    (let c =
                        chained_node u.node (cell' q)
                          (ap chained (sym u.here) ∙ frame q (omega arith)) in
                      let less = rest.cut cell' frame at in
                      rw (differs, u.starts)
                        (linked c.0 u.below c.1 (c.2 ∙ u.its_key) (c.3 ∙ u.its_value)
                          (rw (c.4) less)));
              }
        ]

    -- The node that is found is the first of its chain, or the chain is cut before it.
    pub chain_without :
        (hi : ℕ) (es : List (Entry K V)) (start : Option ℕ)
        → cell p ≡ some n
        → Bucket cell hi es start
        → HasIndex i es
        → lookup same key es ≡ some (p, w)
        → ((before same key none es ≡ none) × Bucket cell hi (remove same key es) n.next_in_bucket)
          ⊎ Cut hi hi start (before same key none es) (remove same key es)
    unfolding lookup remove before
    chain_without hi [] start here b h found = ground arith
    chain_without hi ((k, (q, v)) ∷ es) start here b h found =
        let u = Bucket-uncons cell hi q k v es start b in
        let below = u.below in
        elim (Bool-cases (same k key)) [
          | inl e ↦
              let q_is_p : q ≡ p = ground arith in
              let same_node : u.node ≡ n = some_injective (sym u.here ∙ (rw q_is_p here)) in
              inl (
                rw e refl,
                rw e (
                    Bucket-frame cell cell q hi es n.next_in_bucket (omega arith) (λ r lt. refl)
                      (subst (λ (x : Node K V). Bucket cell q es x.next_in_bucket) same_node
                        u.rest)),
              )
          | inr e ↦
              let c = deeper-Cut hi q k v es start here b h e (ground arith) in
              let near = c.bound in
              inr (record {
                before_it = c.before_it;
                its_node = c.its_node;
                is_before = rw e (c.is_before);
                bound = omega arith;
                stored = c.stored;
                its_index = c.its_index;
                cut = c.cut;
              })
        ]
