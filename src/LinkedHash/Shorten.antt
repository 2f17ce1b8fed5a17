-- ===== src/LinkedHash/Shorten.antt =====
-- The chains of the other buckets, and the shortened one, when a node leaves.
use ani_vault.Base.{
  ◌≡◌, ◌≢◌, refl, sym, ap, ◌∙◌, ◌↔◌, Bool, true, Option, none, some, List, [], ◌∷◌, arith, ℕ, suc,
  ◌<◌, ◌==◌, ==_iff, length, set, Bool-cases, inl, inr,
}
use ani_vault.LinkedHash.{Node, Table, bucket}
use ani_vault.LinkedHash.Assoc.{lookup, remove, remove_absent}
use ani_vault.LinkedHash.Chains.{Entry, chain_of, chain_of-remove, lookup-chain_of_other}
use ani_vault.LinkedHash.Order.{entries, strip}
use ani_vault.LinkedHash.Buckets.{Bucket, chained, before}
use ani_vault.LinkedHash.Push.{Chained, first_of, first_of-set}
use ani_vault.LinkedHash.Unchain.{chain_of-HasIndex, Bucket-avoid, Cut}
use ani_vault.LinkedHash.Represents.{Represents}

module _ {ℓ} {K V : Type ℓ} (same : K → K → Bool) where
  pub strip-remove :
      (key : K) (es : List (Entry K V)) → strip (remove same key es) ≡ remove same key (strip es)
  unfolding strip remove
  strip-remove key [] = refl
  strip-remove key ((k, (p, v)) ∷ es) = elim (Bool-cases (same k key)) [
    | inl e ↦ rw e refl
    | inr e ↦ rw e (ap (λ rest. (k, v) ∷ rest) (strip-remove key es))
  ]

  pub length-remove :
      (key : K) (p : ℕ) (w : V) (es : List (Entry K V))
      → lookup same key es ≡ some (p, w)
      → suc (length (remove same key es)) ≡ length es
  unfolding lookup remove
  length-remove key p w [] found = ground arith
  length-remove key p w ((k, (q, v)) ∷ es) found = elim (Bool-cases (same k key)) [
    | inl e ↦ rw e refl
    | inr e ↦ rw e (ap suc (length-remove key p w es (ground arith)))
  ]

module _ {ℓ} {K V : Type ℓ} (same : K → K → Bool) (hash_index : ℕ → K → ℕ) where
  module _ (same_iff : (a b : K) → (same a b ≡ true) ↔ (a ≡ b))
      (index_lt : (capacity : ℕ) (key : K) → 0 < capacity → hash_index capacity key < capacity)
      (key : K) (p : ℕ) (w : V) (n : Node K V) (t : Table K V) (ns : List (ℕ × Node K V))
      (r : Represents same hash_index t ns) (here : t.cell p ≡ some n)
      (found : lookup same key (entries ns) ≡ some (p, w)) where
    abbrev pub its_chain : List (Entry K V)
    its_chain = chain_of (hash_index t.capacity) (hash_index t.capacity key) (entries ns)

    others_keep :
        (j : ℕ)
        → hash_index t.capacity key ≢ j
        → chain_of (hash_index t.capacity) j (remove same key (entries ns))
          ≡ chain_of (hash_index t.capacity) j (entries ns)
    others_keep j differs =
        chain_of-remove (hash_index t.capacity) same same_iff j key (entries ns) r.distinct
        ∙ remove_absent same key _
            (lookup-chain_of_other (hash_index t.capacity) same same_iff j key (entries ns) differs)

    -- Without the node that is the first of its chain.
    pub first_leaves :
        Bucket t.cell t.next_free (remove same key its_chain) n.next_in_bucket
        → Chained
            (hash_index t.capacity)
            t.capacity
            t.cell
            t.next_free
            (remove same key (entries ns))
            (set t.buckets (hash_index t.capacity key) n.next_in_bucket)
    first_leaves b j lt =
        let i = hash_index t.capacity key in
        let set_lem =
          first_of-set t.buckets i j n.next_in_bucket
            (omega (arith, r.bucket_count, index_lt t.capacity key r.nonempty)) in
        elim (Bool-cases (i == j)) [
          | inl e ↦
              let i_is_j = (==_iff i j).0 e in
              rw
                (
                  set_lem,
                  e,
                  sym i_is_j,
                  chain_of-remove (hash_index t.capacity) same same_iff i key (entries ns)
                      r.distinct,
                )
                b
          | inr e ↦
              rw (set_lem, e, others_keep j (λ e'. (let is = (==_iff i j).1 e' in cc)))
                (r.chains j lt)
        ]

    -- Without a node behind another one.
    pub Cut-leaves :
        (c : Cut
          (hash_index t.capacity)
          t.cell
          p
          n
          same
          key
          w
          (hash_index t.capacity key)
          t.next_free
          t.next_free
          (bucket t (hash_index t.capacity key))
          (before same key none its_chain)
          (remove same key its_chain))
        (cell' : ℕ → Option (Node K V))
        → ((q : ℕ) → c.before_it ≢ q → chained (t.cell q) ≡ chained (cell' q))
        → chained (some (record (c.its_node) { next_in_bucket = n.next_in_bucket }))
          ≡ chained (cell' c.before_it)
        → Chained
            (hash_index t.capacity)
            t.capacity
            cell'
            t.next_free
            (remove same key (entries ns))
            t.buckets
    Cut-leaves c cell' frame at j lt =
        let i = hash_index t.capacity key in
        elim (Bool-cases (i == j)) [
          | inl e ↦
              let i_is_j = (==_iff i j).0 e in
              rw
                (
                  sym i_is_j,
                  chain_of-remove (hash_index t.capacity) same same_iff i key (entries ns)
                      r.distinct,
                )
                (c.cut cell' frame at)
          | inr e ↦
              let differs : i ≢ j = λ e'. (let is = (==_iff i j).1 e' in cc) in
              rw (others_keep j differs) (
                Bucket-avoid (hash_index t.capacity) t.cell cell' i j c.before_it c.its_node
                  t.next_free (chain_of (hash_index t.capacity) j (entries ns))
                  (first_of t.buckets j) c.stored c.its_index differs frame
                  (chain_of-HasIndex (hash_index t.capacity) j (entries ns)) (r.chains j lt))
        ]
