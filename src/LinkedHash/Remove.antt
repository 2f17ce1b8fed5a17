-- ===== src/LinkedHash/Remove.antt =====
-- `remove` as the removal from the ordered dict.
use ani_vault.Base.{
  ◌≡◌, refl, sym, ap, ◌∙◌, ◌↔◌, Bool, true, Option, none, some, List, arith, ℕ, ◌-◌, ◌<◌, length,
  ◌==◌, ==_iff, Bool-cases, Option-cases, inl, inr,
}
use mathlib.Core.Path.{subst}
use ani_vault.LinkedHash as Hashed
use ani_vault.LinkedHash.{Node, Table, unlink, unchain, bucket, assign}
use ani_vault.LinkedHash.Assoc.{lookup, remove, Distinct-remove, remove_absent}
use ani_vault.LinkedHash.Chains.{Entry, chain_of, lookup-chain_of}
use ani_vault.LinkedHash.Order.{IsOrder, entries, strip, pairs, strip-entries, length-entries}
use ani_vault.LinkedHash.Append.{IsOrdered}
use ani_vault.LinkedHash.Buckets.{Bucket, Bucket-frame, chained, before}
use ani_vault.LinkedHash.Rehash.{seen}
use ani_vault.LinkedHash.Push.{Chained, first_of, length-set}
use ani_vault.LinkedHash.Unlink.{
  unlink-Unlinked, unlink-Assigned, unlink-ends, Unlinked-seen, assign_here, assign_away,
  assign_ends, assign_rest, first_without, last_without,
}
use ani_vault.LinkedHash.Leaving.{unorder}
use ani_vault.LinkedHash.Unchain.{chain_without, chain_of-HasIndex}
use ani_vault.LinkedHash.Shorten.{strip-remove, length-remove, first_leaves, Cut-leaves}
use ani_vault.LinkedHash.Represents.{
  Represents, find_absent, find_present, lookup-strip, strip_found,
}

module _ {ℓ} {K V : Type ℓ} where
  -- A table in which a node is out of its bucket, with these entries in the chains.
  record Unchained (hash_index : ℕ → K → ℕ) (t t' : Table K V) (es : List (Entry K V))
      : Type ℓ where
    same_capacity : t'.capacity ≡ t.capacity
    same_next : t'.next_free ≡ t.next_free
    same_count : length t'.buckets ≡ length t.buckets
    same_head : t'.head ≡ t.head
    same_tail : t'.tail ≡ t.tail
    same_order : (q : ℕ) → seen (t.cell q) ≡ seen (t'.cell q)
    chains : Chained (hash_index t.capacity) t.capacity t'.cell t.next_free es t'.buckets

  seen-assign :
      (a : ℕ) (m : Node K V) (next : Option ℕ) (t : Table K V) (q : ℕ)
      → t.cell a ≡ some m
      → seen (t.cell q)
        ≡ seen ((assign (some a) (λ m. record m { next_in_bucket = next }) t).cell q)
  seen-assign a m next t q here =
      let f : Node K V → Node K V = λ x. record x { next_in_bucket = next } in
      elim (Bool-cases (a == q)) [
        | inl e ↦
            rw (sym ((==_iff a q).0 e)) (ap seen here ∙ sym (ap seen (assign_here a f t m here)))
        | inr e ↦ ap seen (sym (assign_away a q f t (λ e'. (let is = (==_iff a q).1 e' in cc))))
      ]

module _ {ℓ} {K V : Type ℓ} (same : K → K → Bool) (hash_index : ℕ → K → ℕ) where
  module _ (same_iff : (a b : K) → (same a b ≡ true) ↔ (a ≡ b))
      (index_lt : (capacity : ℕ) (key : K)
        → 0 < capacity
        → hash_index capacity key < capacity) where
    unchain-Unchained :
        (key : K) (p : ℕ) (w : V) (n : Node K V) (t : Table K V) (ns : List (ℕ × Node K V))
        (prev : Option ℕ)
        → Represents same hash_index t ns
        → t.cell p ≡ some n
        → lookup same key (entries ns) ≡ some (p, w)
        → prev
          ≡ before same key none
              (chain_of (hash_index t.capacity) (hash_index t.capacity key) (entries ns))
        → Unchained hash_index t
            (unchain same hash_index key prev n t)
            (remove same key (entries ns))
    unfolding unchain
    unchain-Unchained key p w n t ns prev r here found e =
        let i = hash_index t.capacity key in
        let chain = chain_of (hash_index t.capacity) i (entries ns) in
        elim (chain_without (hash_index t.capacity) t.cell p n same key w i t.next_free chain
          (bucket t i) here (r.chains i (index_lt t.capacity key r.nonempty))
          (chain_of-HasIndex (hash_index t.capacity) i (entries ns))
          (lookup-chain_of (hash_index t.capacity) same same_iff key (entries ns) r.distinct
            ∙ found)) [
              | inl (first, b) ↦ rw (e ∙ first) (record {
                same_capacity = refl;
                same_next = refl;
                same_count = length-set t.buckets i n.next_in_bucket;
                same_head = refl;
                same_tail = refl;
                same_order = λ q. refl;
                chains =
                    first_leaves same hash_index same_iff index_lt key p w n t ns r here found b;
              })
              | inr c ↦
                  let a = c.before_it in
                  let f : Node K V → Node K V =
                    λ m. record m { next_in_bucket = n.next_in_bucket } in
                  let rest = assign_rest (some a) f t in
                  rw (e ∙ c.is_before) (record {
                    same_capacity = rest.0;
                    same_next = rest.1;
                    same_count = ap length rest.2;
                    same_head = (assign_ends (some a) f t).0;
                    same_tail = (assign_ends (some a) f t).1;
                    same_order = λ q. seen-assign a c.its_node n.next_in_bucket t q c.stored;
                    chains =
                        subst
                          (Chained (hash_index t.capacity) t.capacity (assign (some a) f t).cell
                            t.next_free (remove same key (entries ns)))
                          (sym rest.2)
                          (Cut-leaves same hash_index same_iff index_lt key p w n t ns r here found
                            c (assign (some a) f t).cell
                            (λ q d. ap chained (sym (assign_away a q f t d)))
                            (ap chained (sym (assign_here a f t c.its_node c.stored))));
                  })
            ]

    Represents-without :
        (key : K) (p : ℕ) (w : V) (t t' : Table K V) (ns ns' : List (ℕ × Node K V))
        → Represents same hash_index t ns
        → lookup same key (entries ns) ≡ some (p, w)
        → t'.capacity ≡ t.capacity
        → t'.next_free ≡ t.next_free
        → length t'.buckets ≡ length t.buckets
        → t'.size ≡ t.size - 1
        → entries ns' ≡ remove same key (entries ns)
        → IsOrder t'.cell t.next_free 0 ns' none t'.head t'.tail
        → Chained
            (hash_index t.capacity)
            t.capacity
            t'.cell
            t.next_free
            (remove same key (entries ns))
            t'.buckets
        → Represents same hash_index t' ns'
    unfolding IsOrdered
    Represents-without key p w t t' ns ns' r found cap next count size es order chains = record {
      ordered = rw next order;
      chains = rw (cap, next, es) chains;
      bucket_count = count ∙ (r.bucket_count ∙ sym cap);
      counted =
          size
          ∙ omega (
            arith,
            r.counted,
            length-entries ns,
            length-entries ns',
            ap length es,
            length-remove same key p w (entries ns) found,
          );
      nonempty = rw cap (r.nonempty);
      distinct = rw es (Distinct-remove same same_iff key (entries ns) r.distinct);
    }

    -- In a table that stands for a dict, `remove` ends, returns the value that the dict has for the
    -- key, and leaves a table that stands for the dict without it.
    pub remove-lookup :
        (key : K) (t : Table K V) (ns : List (ℕ × Node K V))
        → Represents same hash_index t ns
        → (t' : Table K V) × (Hashed.remove same hash_index key t
            ≡ some (lookup same key (pairs ns), t'))
          × (ns' : List (ℕ × Node K V)) × Represents same hash_index t' ns'
          × (pairs ns' ≡ remove same key (pairs ns))
    unfolding Hashed.remove strip_found IsOrdered
    remove-lookup key t ns r =
        let e =
          ap (lookup same key) (sym (strip-entries ns))
          ∙ lookup-strip same hash_index key (entries ns) in
        elim (Option-cases (lookup same key (entries ns))) [
          | inl absent ↦
              let nothing = find_absent same hash_index same_iff index_lt key t ns r absent in
              (
                t,
                rw (Hashed.remove, nothing) (ground (arith, e)),
                ns,
                r,
                sym (remove_absent same key (pairs ns) (ground (arith, e))),
              )
          | inr ((p, w), there) ↦
              let m = find_present same hash_index same_iff index_lt key p w t ns r there in
              let n = m.met in
              let prev =
                before same key none
                  (chain_of (hash_index t.capacity) (hash_index t.capacity key) (entries ns)) in
              let out = unchain same hash_index key prev n t in
              let u = unchain-Unchained key p w n t ns prev r m.stored there refl in
              let t' : Table K V = record (unlink n out) { size = t.size - 1 } in
              let a = unlink-Assigned n out in
              let order =
                unorder t.cell t.next_free p n same key w t'.cell ns t.head t.tail
                  (Unlinked-seen t.cell out.cell t'.cell n.prev_in_order n.next_in_order
                    u.same_order (unlink-Unlinked n out))
                  m.stored r.ordered there in
              let its_value = m.has_value in
              let ends = unlink-ends n out in
              (
                t',
                rw (Hashed.remove, m.found) (ground (arith, e)),
                order.0,
                Represents-without key p w t t' ns order.0 r there
                    (a.same_capacity ∙ u.same_capacity) (a.same_next ∙ u.same_next)
                    (ap length a.same_buckets ∙ u.same_count) refl order.2
                    (subst (λ o. IsOrder t'.cell t.next_free 0 order.0 none o t'.tail)
                      (sym
                        (ends.0 ∙ ap (first_without n.prev_in_order n.next_in_order) u.same_head))
                      (subst
                        (λ o.
                          IsOrder t'.cell t.next_free 0 order.0 none
                            (first_without n.prev_in_order n.next_in_order t.head) o)
                        (sym
                          (ends.1 ∙ ap (last_without n.prev_in_order n.next_in_order) u.same_tail))
                        order.1))
                    (λ j lt.
                      subst
                        (λ bs.
                          Bucket t'.cell t.next_free
                            (chain_of (hash_index t.capacity) j (remove same key (entries ns)))
                            (first_of bs j))
                        (sym a.same_buckets)
                        (Bucket-frame out.cell t'.cell t.next_free t.next_free _ _ (omega arith)
                          (λ q below. a.frame q) (u.chains j lt))),
                sym (strip-entries order.0)
                    ∙ (ap strip order.2
                        ∙ (strip-remove same key (entries ns)
                            ∙ ap (remove same key) (strip-entries ns))),
              )
        ]
