-- ===== src/LinkedHash/Push.antt =====
-- Nodes put in front of the chains of their buckets: by `put`, and by the loop of `_rehash`.
use ani_vault.Base.{
  some_injective, ◌≡◌, refl, sym, ap, ◌∙◌, Option, none, some, List, [], ◌∷◌, ◌++◌, arith,
  if◌then◌else◌, ℕ, zero, suc, ◌≤◌, ◌<◌, ◌==◌, ==_iff, length, get_elem?, set, Bool-cases, inl, inr,
}
use mathlib.Core.Path.{subst}
use mathlib.Core.List.{append_assoc, append-nil}
use ani_vault.LinkedHash.{Node, Table, bucket, update, relink}
use ani_vault.LinkedHash.Chains.{Entry, chain_of, single, chain_of-append_one}
use ani_vault.LinkedHash.Buckets.{Bucket, linked, chained, Bucket-frame}
use ani_vault.LinkedHash.Order.{IsOrder, entries, uncons, IsOrder-ends}
use ani_vault.LinkedHash.Kept.{IsOrder-frame}
use ani_vault.LinkedHash.Rehash.{relinked, relink-relinked}

get_elem?-set {ℓ} :
    {A : Type ℓ} (xs : List A) (i j : ℕ) (v : A)
    → i < length xs
    → get_elem? (set xs i v) j ≡ (if i == j then some v else get_elem? xs j)
get_elem?-set [] i j v h = ground arith
get_elem?-set (x ∷ xs) zero zero v h = refl
get_elem?-set (x ∷ xs) zero (suc j) v h = ground arith
get_elem?-set (x ∷ xs) (suc i) zero v h = ground arith
get_elem?-set (x ∷ xs) (suc i) (suc j) v h = ground (arith, get_elem?-set xs i j v)

pub length-set {ℓ} : {A : Type ℓ} (xs : List A) (i : ℕ) (v : A) → length (set xs i v) ≡ length xs
length-set [] i v = refl
length-set (x ∷ xs) zero v = refl
length-set (x ∷ xs) (suc i) v = ap suc (length-set xs i v)

-- The first node of a bucket, in a list of them.
abbrev pub first_of : List (Option ℕ) → ℕ → Option ℕ
first_of buckets i = elim (get_elem? buckets i) [ none ↦ none | some start ↦ start ]

pub first_of-set :
    (buckets : List (Option ℕ)) (i j : ℕ) (start : Option ℕ)
    → i < length buckets
    → first_of (set buckets i start) j ≡ (if i == j then start else first_of buckets j)
first_of-set buckets i j start h = ground (arith, get_elem?-set buckets i j start h)

module _ {ℓ} {K V : Type ℓ} where
  -- Each bucket's chain is that of these entries.
  abbrev pub Chained :
      (K → ℕ) → ℕ → (ℕ → Option (Node K V)) → ℕ → List (Entry K V) → List (Option ℕ) → Type ℓ
  Chained index capacity cell hi es buckets =
      (j : ℕ) → j < capacity → Bucket cell hi (chain_of index j es) (first_of buckets j)

  pub push-Chained :
      (index : K → ℕ) (capacity : ℕ) (cell cell' : ℕ → Option (Node K V)) (p : ℕ) (n : Node K V)
      (es : List (Entry K V)) (buckets : List (Option ℕ))
      → Chained index capacity cell p es buckets
      → length buckets ≡ capacity
      → index n.key < capacity
      → ((q : ℕ) → q < p → chained (cell q) ≡ chained (cell' q))
      → (n' : Node K V) → cell' p ≡ some n'
      → n'.key ≡ n.key
      → n'.value ≡ n.value
      → n'.next_in_bucket ≡ first_of buckets (index n.key)
      → Chained index capacity cell'
          (suc p)
          (es ++ (n.key, (p, n.value)) ∷ [])
          (set buckets (index n.key) (some p))
  unfolding single
  push-Chained index capacity cell cell' p n es buckets h len below frame n' here k v next j lt =
      let old =
        Bucket-frame cell cell' p (suc p) (chain_of index j es) (first_of buckets j) (omega arith)
          frame (h j lt) in
      let kept =
        Bucket-frame cell cell' p p (chain_of index j es) (first_of buckets j) (omega arith) frame
          (h j lt) in
      let set_lem = first_of-set buckets (index n.key) j (some p) (omega (arith, len)) in
      let one = chain_of-append_one index j es (n.key, (p, n.value)) in
      elim (Bool-cases (index n.key == j)) [
        | inl e ↦
            let i_is_j = (==_iff (index n.key) j).0 e in
            rw (one, set_lem, e) (linked n' (omega arith) here k v (rw (next, i_is_j) kept))
        | inr e ↦ rw (one, set_lem, e) old
      ]

  relinked_frame :
      (cell : ℕ → Option (Node K V)) (p : ℕ) (n : Node K V) (q : ℕ)
      → q < p
      → chained (cell q) ≡ chained (update cell p n q)
  relinked_frame cell p n q lt = ground arith

  relink_ends :
      (hash_index : ℕ → K → ℕ) (fuel : ℕ) (t : Table K V) → relink hash_index fuel none t ≡ some t
  unfolding relink
  relink_ends hash_index zero t = refl
  relink_ends hash_index (suc fuel) t = refl

  -- The loop of `_rehash` puts the nodes that are left in front of their buckets' chains.
  pub relink-Chained :
      (hash_index : ℕ → K → ℕ) (fuel lo hi : ℕ) (es : List (Entry K V)) (ns : List (ℕ × Node K V))
      (prev start last : Option ℕ) (t t' : Table K V)
      → ((key : K) → hash_index t.capacity key < t.capacity)
      → lo ≤ hi
      → IsOrder t.cell hi lo ns prev start last
      → Chained (hash_index t.capacity) t.capacity t.cell lo es t.buckets
      → length t.buckets ≡ t.capacity
      → relink hash_index fuel start t ≡ some t'
      → Chained (hash_index t'.capacity) t'.capacity t'.cell hi (es ++ entries ns) t'.buckets
        × (length t'.buckets ≡ t'.capacity)
  unfolding entries relink
  relink-Chained hash_index fuel lo hi es [] prev start last t t' below le order h len done =
      let ends = IsOrder-ends t.cell hi lo prev start last order in
      let no_more : relink hash_index fuel start t ≡ some t =
        rw (ends.0) (relink_ends hash_index fuel t) in
      let e : t ≡ t' = some_injective (sym no_more ∙ done) in
      subst
        (λ x.
          Chained (hash_index x.capacity) x.capacity x.cell hi (es ++ []) x.buckets
          × (length x.buckets ≡ x.capacity))
        e
        (
          λ j lt.
              rw (append-nil)
                (Bucket-frame t.cell t.cell lo hi _ _ le (λ q below_lo. refl) (h j lt)),
          len,
        )
  relink-Chained hash_index zero lo hi es ((p, n) ∷ ns) prev start last t t' below le order h len
        done =
      let u = uncons t.cell hi lo p n ns prev start last order in
      let none_left : relink hash_index zero start t ≡ none = rw (u.starts) refl in ground arith
  relink-Chained hash_index (suc fuel) lo hi es ((p, n) ∷ ns) prev start last t t' below le order h
        len done =
      let u = uncons t.cell hi lo p n ns prev start last order in
      let met = relinked hash_index p n t in
      let n' : Node K V = record n { next_in_bucket = bucket t (hash_index t.capacity n.key) } in
      let rest =
        IsOrder-frame t.cell met.cell hi (suc p) ns (some p) n.next_in_order last
          (λ q lt. ground arith) u.next in
      let old : Chained (hash_index t.capacity) t.capacity t.cell p es t.buckets =
        λ j lt. Bucket-frame t.cell t.cell lo p _ _ u.above (λ q below_lo. refl) (h j lt) in
      let pushed =
        push-Chained (hash_index t.capacity) t.capacity t.cell met.cell p n es t.buckets old len
          (below n.key) (relinked_frame t.cell p n') n' (ground arith) refl refl refl in
      let first : Entry K V = (n.key, (p, n.value)) in
      rw (sym (append_assoc es (first ∷ []) (entries ns))) (
        relink-Chained hash_index fuel (suc p) hi (es ++ first ∷ []) ns (some p) n.next_in_order
          last met t' below u.below rest pushed (length-set t.buckets _ _ ∙ len)
          (sym (relink-relinked hash_index fuel p n t u.here) ∙ (rw (sym u.starts) done)))
