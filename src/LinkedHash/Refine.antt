-- ===== src/LinkedHash/Refine.antt =====
-- `put` as the insertion into the ordered dict.
use ani_vault.Base.{
  ◌≡◌, refl, sym, ap, ◌∙◌, ◌↔◌, Bool, true, none, some, List, [], ◌∷◌, ◌++◌, arith, ℕ, suc, ◌<◌,
  length, Option-cases, inl, inr,
}
use ani_vault.LinkedHash.{Node, Table, put, update}
use ani_vault.LinkedHash.Assoc.{lookup, insert, insert_absent, Distinct-insert}
use ani_vault.LinkedHash.Chains.{Entry, chain_of}
use ani_vault.LinkedHash.Order.{entries, strip, pairs, strip-entries}
use ani_vault.LinkedHash.Append.{IsOrdered}
use ani_vault.LinkedHash.Push.{first_of}
use ani_vault.LinkedHash.Replace.{replace, IsOrder-replace}
use ani_vault.LinkedHash.Revalue.{
  chain_of-revalue, entries-replace, Bucket-revalue, revalue-insert, strip-insert,
}
use ani_vault.LinkedHash.Represents.{Represents, find_present, lookup-strip, strip_found}
use ani_vault.LinkedHash.Insert.{put_absent-Represents}

length-replace {ℓ} :
    {K V : Type ℓ} (p : ℕ) (v : V) (ns : List (ℕ × Node K V)) → length (replace p v ns) ≡ length ns
unfolding replace
length-replace p v [] = refl
length-replace p v ((q, m) ∷ ns) = ap suc (length-replace p v ns)

module _ {ℓ} {K V : Type ℓ} (same : K → K → Bool) (hash_index : ℕ → K → ℕ) where
  module _ (same_iff : (a b : K) → (same a b ≡ true) ↔ (a ≡ b))
      (index_lt : (capacity : ℕ) (key : K)
        → 0 < capacity
        → hash_index capacity key < capacity) where
    replace-Represents :
        (key : K) (value w : V) (p : ℕ) (n : Node K V) (t : Table K V) (ns : List (ℕ × Node K V))
        → Represents same hash_index t ns
        → lookup same key (entries ns) ≡ some (p, w)
        → t.cell p ≡ some n
        → Represents same hash_index
            (record t { cell = update t.cell p (record n { value = value }) })
            (replace p value ns)
    unfolding IsOrdered
    replace-Represents key value w p n t ns r found here =
        let es = entries-replace p value ns in
        let inserted =
          revalue-insert same t.cell t.next_free 0 p value w key ns none t.head t.tail r.ordered
            found in
        record {
          ordered =
              IsOrder-replace t.cell t.next_free p n value here 0 ns none t.head t.tail r.ordered;
          chains = λ j lt.
              rw (es, chain_of-revalue (hash_index t.capacity) j p value (entries ns))
                (Bucket-revalue t.cell p n value here t.next_free
                  (chain_of (hash_index t.capacity) j (entries ns)) (first_of t.buckets j)
                  (r.chains j lt));
          bucket_count = r.bucket_count;
          counted = r.counted ∙ sym (length-replace p value ns);
          nonempty = r.nonempty;
          distinct =
              rw (es, inserted)
                (Distinct-insert same same_iff key (p, value) (entries ns) r.distinct);
        }

    strip_new :
        (key : K) (p : ℕ) (value : V) (es : List (Entry K V))
        → lookup same key es ≡ none
        → strip (es ++ (key, (p, value)) ∷ []) ≡ insert same key value (strip es)
    strip_new key p value es absent =
        ap strip (sym (insert_absent same key (p, value) es absent))
        ∙ strip-insert same key p value es

    -- In a table that stands for a dict, `put` ends, through the rehashing too, returns the value
    -- that the dict has for the key, and leaves a table that stands for the dict with the new
    -- value: in the place of the old one, or behind all others.
    pub put-insert :
        (key : K) (value : V) (t : Table K V) (ns : List (ℕ × Node K V))
        → Represents same hash_index t ns
        → (t' : Table K V) × (put same hash_index key value t
            ≡ some (lookup same key (pairs ns), t'))
          × (ns' : List (ℕ × Node K V)) × Represents same hash_index t' ns'
          × (pairs ns' ≡ insert same key value (pairs ns))
    unfolding put strip_found IsOrdered
    put-insert key value t ns r =
        let e =
          ap (lookup same key) (sym (strip-entries ns))
          ∙ lookup-strip same hash_index key (entries ns) in
        elim (Option-cases (lookup same key (entries ns))) [
          | inl absent ↦
              let done =
                put_absent-Represents same hash_index same_iff index_lt key value t ns r absent in
              (
                done.0,
                done.1 ∙ ground (arith, e),
                done.2,
                done.3,
                sym (strip-entries done.2)
                    ∙ (ap strip done.4
                        ∙ (strip_new key t.next_free value (entries ns) absent
                            ∙ ap (insert same key value) (strip-entries ns))),
              )
          | inr ((p, w), there) ↦
              let m = find_present same hash_index same_iff index_lt key p w t ns r there in
              let its_value = m.has_value in
              let inserted =
                revalue-insert same t.cell t.next_free 0 p value w key ns none t.head t.tail
                  r.ordered there in
              (
                record t { cell = update t.cell p (record (m.met) { value = value }) },
                rw (put, m.found) (ground (arith, e)),
                replace p value ns,
                replace-Represents key value w p m.met t ns r there m.stored,
                sym (strip-entries (replace p value ns))
                    ∙ (ap strip (entries-replace p value ns ∙ inserted)
                        ∙ (strip-insert same key p value (entries ns)
                            ∙ ap (insert same key value) (strip-entries ns))),
              )
        ]
