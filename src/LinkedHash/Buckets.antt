-- ===== src/LinkedHash/Buckets.antt =====
-- A bucket's chain of nodes in the store, and the search along it.
use ani_vault.Base.{
  ◌≡◌, refl, sym, ap, ◌∙◌, Bool, true, Option, none, some, List, [], ◌∷◌, arith, if◌then◌else◌, ℕ,
  zero, suc, ◌≤◌, ◌<◌, length, Bool-cases, inl, inr,
}
use ani_vault.LinkedHash.{Node, search}
use ani_vault.LinkedHash.Assoc.{lookup}
use ani_vault.LinkedHash.Chains.{Entry}

-- From the third index on, the pointers run through nodes with these keys, addresses and values,
-- and end. The addresses descend and are below the first index.
pub data Bucket {ℓ} {K V : Type ℓ} (cell : ℕ → Option (Node K V))
    : ℕ → List (Entry K V) → Option ℕ → Type ℓ where
  ended : {hi : ℕ} → Bucket cell hi [] none
  linked :
      {hi p : ℕ} {k : K} {v : V} {es : List (Entry K V)} (n : Node K V)
      → p < hi
      → cell p ≡ some n
      → n.key ≡ k
      → n.value ≡ v
      → Bucket cell p es n.next_in_bucket
      → Bucket cell hi ((k, (p, v)) ∷ es) (some p)

module _ {ℓ} {K V : Type ℓ} where
  -- What a chain reads of an address.
  abbrev pub chained : Option (Node K V) → Option ((K × V) × Option ℕ)
  chained none = none
  chained (some n) = some ((n.key, n.value), n.next_in_bucket)

  pub record BucketNode (cell : ℕ → Option (Node K V)) (hi p : ℕ) (k : K) (v : V)
      (es : List (Entry K V)) (start : Option ℕ) : Type ℓ where
    pub node : Node K V
    pub starts : start ≡ some p
    pub below : p < hi
    pub here : cell p ≡ some node
    pub its_key : node.key ≡ k
    pub its_value : node.value ≡ v
    pub rest : Bucket cell p es node.next_in_bucket

  pub Bucket-uncons :
      (cell : ℕ → Option (Node K V)) (hi p : ℕ) (k : K) (v : V) (es : List (Entry K V))
      (start : Option ℕ)
      → Bucket cell hi ((k, (p, v)) ∷ es) start
      → BucketNode cell hi p k v es start
  Bucket-uncons cell hi p k v es none h = elim h [ ]
  Bucket-uncons cell hi p k v es (some q) (linked n below here its_key its_value rest) = record {
    node = n;
    starts = refl;
    below = below;
    here = here;
    its_key = its_key;
    its_value = its_value;
    rest = rest;
  }

  pub Bucket-ends :
      (cell : ℕ → Option (Node K V)) (hi : ℕ) (start : Option ℕ)
      → Bucket cell hi [] start
      → start ≡ none
  Bucket-ends cell hi none h = refl
  Bucket-ends cell hi (some q) h = elim h [ ]

  pub chained_node :
      (n : Node K V) (c : Option (Node K V))
      → chained (some n) ≡ chained c
      → (n' : Node K V) × (c ≡ some n')
        × (n'.key ≡ n.key)
        × (n'.value ≡ n.value)
        × (n'.next_in_bucket ≡ n.next_in_bucket)
  chained_node n none h = ground arith
  chained_node n (some n') h = (n', refl, ground arith, ground arith, ground arith)

  -- A chain depends on its addresses only.
  pub Bucket-frame :
      (cell cell' : ℕ → Option (Node K V)) (hi hi' : ℕ) (es : List (Entry K V)) (start : Option ℕ)
      → hi ≤ hi'
      → ((q : ℕ) → q < hi → chained (cell q) ≡ chained (cell' q))
      → Bucket cell hi es start
      → Bucket cell' hi' es start
  Bucket-frame cell cell' hi hi' [] start le same_below h = rw (Bucket-ends cell hi start h) ended
  Bucket-frame cell cell' hi hi' ((k, (p, v)) ∷ es) start le same_below h =
      let u = Bucket-uncons cell hi p k v es start h in
      let below = u.below in
      let c = chained_node u.node (cell' p) (ap chained (sym u.here) ∙ same_below p below) in
      let rest =
        Bucket-frame cell cell' p p es u.node.next_in_bucket (omega arith)
          (λ q lt. same_below q (omega arith)) u.rest in
      rw (u.starts)
        (linked c.0 (omega arith) c.1 (c.2 ∙ u.its_key) (c.3 ∙ u.its_value) (rw (c.4) rest))

module _ {ℓ} {K V : Type ℓ} (same : K → K → Bool) where
  -- The address before the first entry with the key.
  unfoldable pub before : K → Option ℕ → List (Entry K V) → Option ℕ
  before key prev [] = prev
  before key prev ((k, (p, v)) ∷ es) = if same k key then prev else before key (some p) es

  -- The search meets the entry.
  pub record Met (result : Option (Option (Option ℕ × (ℕ × Node K V))))
      (cell : ℕ → Option (Node K V)) (key : K) (prev : Option ℕ) (p : ℕ) (v : V) : Type ℓ where
    pub met : Node K V
    pub found : result ≡ some (some (prev, (p, met)))
    pub stored : cell p ≡ some met
    pub has_key : same met.key key ≡ true
    pub has_value : met.value ≡ v

  module _ (hash_index : ℕ → K → ℕ) (cell : ℕ → Option (Node K V)) (key : K) where
    search_ends :
        (fuel : ℕ) (prev : Option ℕ) → search same hash_index cell key fuel prev none ≡ some none
    unfolding search
    search_ends zero prev = refl
    search_ends (suc fuel) prev = refl

    search_step :
        (fuel p : ℕ) (n : Node K V) (prev : Option ℕ)
        → cell p ≡ some n
        → search same hash_index cell key (suc fuel) prev (some p) ≡ (
            if same n.key key
            then some (some (prev, (p, n)))
            else search same hash_index cell key fuel (some p) n.next_in_bucket)
    unfolding search
    search_step fuel p n prev e = rw (search, e) refl

    pub search_absent :
        (fuel hi : ℕ) (es : List (Entry K V)) (prev start : Option ℕ)
        → Bucket cell hi es start
        → length es ≤ fuel
        → lookup same key es ≡ none
        → search same hash_index cell key fuel prev start ≡ some none
    unfolding lookup
    search_absent fuel hi [] prev start h bound absent =
        rw (Bucket-ends cell hi start h) (search_ends fuel prev)
    search_absent zero hi ((k, (p, v)) ∷ es) prev start h bound absent = ground arith
    search_absent (suc fuel) hi ((k, (p, v)) ∷ es) prev start h bound absent =
        let u = Bucket-uncons cell hi p k v es start h in
        let rest = search_absent fuel p es (some p) u.node.next_in_bucket u.rest (omega arith) in
        let its_key = u.its_key in
        rw (u.starts) (search_step fuel p u.node prev u.here ∙ ground (arith, rest))

    pub search_present :
        (fuel hi p : ℕ) (v : V) (es : List (Entry K V)) (prev start : Option ℕ)
        → Bucket cell hi es start
        → length es ≤ fuel
        → lookup same key es ≡ some (p, v)
        → Met (search same hash_index cell key fuel prev start) cell key (before key prev es) p v
    unfolding lookup before
    search_present fuel hi p v [] prev start h bound present = ground arith
    search_present zero hi p v (e ∷ es) prev start h bound present = ground arith
    search_present (suc fuel) hi p v ((k, (q, w)) ∷ es) prev start h bound present =
        let u = Bucket-uncons cell hi q k w es start h in
        let step = search_step fuel q u.node prev u.here in
        let its_key = u.its_key in
        let its_value = u.its_value in
        let here = u.here in
        elim (Bool-cases (same k key)) [
          | inl e ↦
              rw (u.starts, e)
                (record {
                  met = u.node;
                  found = step ∙ ground arith;
                  stored = ground arith;
                  has_key = ground arith;
                  has_value = ground arith;
                })
          | inr e ↦
              let m =
                search_present fuel q p v es (some q) u.node.next_in_bucket u.rest (omega arith)
                  (ground arith) in
              rw (u.starts, e)
                (record {
                  met = m.met;
                  found = step ∙ (rw (its_key, e) m.found);
                  stored = m.stored;
                  has_key = m.has_key;
                  has_value = m.has_value;
                })
        ]
