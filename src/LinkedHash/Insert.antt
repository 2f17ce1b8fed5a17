-- ===== src/LinkedHash/Insert.antt =====
-- `put` of a new key, as an insertion into the dict.
use ani_vault.Base.{
  ◌≡◌, refl, sym, ap, ◌∙◌, ◌↔◌, Bool, true, none, some, List, [], ◌∷◌, ◌++◌, arith, ℕ, zero, suc,
  ◌*◌, ◌/◌, ◌<◌, leb, length, length-append, length-replicate, replicate, set, Bool-cases, inl, inr,
}
use ani_vault.LinkedHash.{Node, Table, bucket, put, grow, rehash, append_node, update}
use ani_vault.LinkedHash.Assoc.{lookup, insert_absent, Distinct-insert}
use ani_vault.LinkedHash.Chains.{chain_of}
use ani_vault.LinkedHash.Assign.{assign-Assigned, update_here, update_other}
use ani_vault.LinkedHash.Buckets.{ended, chained, chained_node}
use ani_vault.LinkedHash.Order.{entries, length-entries, append_last, entries-append_last}
use ani_vault.LinkedHash.Append.{IsOrdered, made, append_node-IsOrdered}
use ani_vault.LinkedHash.Rehash.{emptied}
use ani_vault.LinkedHash.Kept.{rehash-IsOrdered}
use ani_vault.LinkedHash.Push.{Chained, first_of, push-Chained, relink-Chained, length-set}
use ani_vault.LinkedHash.Represents.{Represents, find_absent}

pub first_of-replicate : (c j : ℕ) → first_of (replicate c none) j ≡ none
first_of-replicate zero j = refl
first_of-replicate (suc c) zero = refl
first_of-replicate (suc c) (suc j) = first_of-replicate c j

module _ {ℓ} {K V : Type ℓ} where
  -- What the chains see of `append_node`.
  record Pushed (i : ℕ) (key : K) (value : V) (t t' : Table K V) : Type ℓ where
    same_capacity : t'.capacity ≡ t.capacity
    one_more : t'.size ≡ suc t.size
    next_address : t'.next_free ≡ suc t.next_free
    in_front : t'.buckets ≡ set t.buckets i (some t.next_free)
    others : (q : ℕ) → q < t.next_free → chained (t.cell q) ≡ chained (t'.cell q)
    new_node : chained (t'.cell t.next_free) ≡ some ((key, value), bucket t i)

  append_node-Pushed :
      (i : ℕ) (key : K) (value : V) (t : Table K V)
      → Pushed i key value t (append_node i key value t)
  unfolding append_node
  append_node-Pushed i key value t =
      let n = made i key value t in
      let p = t.next_free in
      let a =
        assign-Assigned t.tail (λ last. record last { next_in_order = some p }) (λ m. refl)
          (record t {
            size = suc t.size;
            buckets = set t.buckets i (some p);
            head = elim t.tail [ none ↦ some p | some last ↦ t.head ];
            tail = some p;
            next_free = suc p;
            cell = update t.cell p n;
          }) in
      record {
        same_capacity = a.same_capacity;
        one_more = a.same_size;
        next_address = a.same_next;
        in_front = a.same_buckets;
        others = λ q lt. update_other t.cell p q n (omega arith) ∙ a.frame q;
        new_node = sym (a.frame p) ∙ update_here t.cell p n;
      }

module _ {ℓ} {K V : Type ℓ} (same : K → K → Bool) (hash_index : ℕ → K → ℕ) where
  module _ (same_iff : (a b : K) → (same a b ≡ true) ↔ (a ≡ b))
      (index_lt : (capacity : ℕ) (key : K)
        → 0 < capacity
        → hash_index capacity key < capacity) where
    append_node-Represents :
        (key : K) (value : V) (t : Table K V) (ns : List (ℕ × Node K V))
        → Represents same hash_index t ns
        → lookup same key (entries ns) ≡ none
        → Represents same hash_index
            (append_node (hash_index t.capacity key) key value t)
            (append_last t.next_free (made (hash_index t.capacity key) key value t) ns)
    append_node-Represents key value t ns r absent =
        let i = hash_index t.capacity key in
        let f = append_node-Pushed i key value t in
        let new = made i key value t in
        let es = entries-append_last t.next_free new ns in
        let n = chained_node new _ (sym f.new_node) in
        let pushed =
          push-Chained (hash_index t.capacity) t.capacity t.cell (append_node i key value t).cell
            t.next_free new (entries ns) t.buckets r.chains r.bucket_count
            (index_lt t.capacity key r.nonempty) f.others n.0 n.1 n.2 n.3 n.4 in
        record {
          ordered = append_node-IsOrdered i key value t ns r.ordered;
          chains = rw (es, f.same_capacity, f.next_address, f.in_front) pushed;
          bucket_count =
              rw (f.same_capacity, f.in_front)
                (length-set t.buckets i (some t.next_free) ∙ r.bucket_count);
          counted =
              f.one_more
              ∙ omega (
                arith,
                r.counted,
                length-entries ns,
                ap length es,
                length-entries (append_last t.next_free new ns),
                length-append (entries ns) ((key, (t.next_free, value)) ∷ []),
              );
          nonempty = rw (f.same_capacity) r.nonempty;
          distinct =
              rw (es, sym (insert_absent same key (t.next_free, value) (entries ns) absent))
                (Distinct-insert same same_iff key (t.next_free, value) (entries ns) r.distinct);
        }

    rehash-Represents :
        (t : Table K V) (ns : List (ℕ × Node K V))
        → Represents same hash_index t ns
        → (t' : Table K V) × (rehash hash_index t ≡ some t')
          × (ns' : List (ℕ × Node K V)) × Represents same hash_index t' ns'
          × (entries ns' ≡ entries ns)
    unfolding rehash IsOrdered chain_of
    rehash-Represents t ns r =
        let done = rehash-IsOrdered hash_index t ns r.ordered in
        let t' = done.0 in
        let kept = done.2 in
        let c : ℕ = t.capacity * 3 / 2 in
        let positive = r.nonempty in
        let empty : Chained (hash_index c) c t.cell 0 [] (replicate c none) =
          λ j lt. rw (first_of-replicate c j) ended in
        let chains =
          relink-Chained hash_index t.next_free 0 t.next_free [] ns none t.head t.tail (emptied t)
            t' (λ key. index_lt c key (omega arith)) (omega arith) r.ordered empty
            (length-replicate c none) done.1 in
        (
          t',
          done.1,
          done.3,
          record {
            ordered = done.4;
            chains = rw (kept.same_next, done.5) chains.0;
            bucket_count = chains.1;
            counted =
                kept.same_size
                ∙ omega
                    (arith, r.counted, length-entries ns, length-entries done.3, ap length done.5);
            nonempty = rw (kept.same_capacity) (omega arith);
            distinct = rw (done.5) r.distinct;
          },
          done.5,
        )

    grow-Represents :
        (t : Table K V) (ns : List (ℕ × Node K V))
        → Represents same hash_index t ns
        → (t' : Table K V) × (grow same hash_index t ≡ some t')
          × (ns' : List (ℕ × Node K V)) × Represents same hash_index t' ns'
          × (entries ns' ≡ entries ns)
    unfolding grow
    grow-Represents t ns r =
        let again = rehash-Represents t ns r in
        elim (Bool-cases (leb (t.capacity * t.load_factor) (t.size * t.one))) [
          | inl e ↦ (again.0, rw (grow, e) again.1, again.2, again.3, again.4)
          | inr e ↦ (t, rw (grow, e) refl, ns, r, refl)
        ]

    pub put_absent-Represents :
        (key : K) (value : V) (t : Table K V) (ns : List (ℕ × Node K V))
        → Represents same hash_index t ns
        → lookup same key (entries ns) ≡ none
        → (t' : Table K V) × (put same hash_index key value t ≡ some (none, t'))
          × (ns' : List (ℕ × Node K V)) × Represents same hash_index t' ns'
          × (entries ns' ≡ entries ns ++ (key, (t.next_free, value)) ∷ [])
    unfolding put
    put_absent-Represents key value t ns r absent =
        let i = hash_index t.capacity key in
        let new = made i key value t in
        let grown =
          grow-Represents (append_node i key value t) (append_last t.next_free new ns)
            (append_node-Represents key value t ns r absent) in
        let not_found = find_absent same hash_index same_iff index_lt key t ns r absent in
        (
          grown.0,
          rw (put, not_found, grown.1) refl,
          grown.2,
          grown.3,
          grown.4 ∙ entries-append_last t.next_free new ns,
        )
