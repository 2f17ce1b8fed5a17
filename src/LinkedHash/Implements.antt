-- ===== src/LinkedHash/Implements.antt =====
-- The linked hash table as an ordered dict: new tables, `clear`, iteration and the size.
use ani_vault.Base.{
  ◌≡◌, refl, ◌∙◌, Bool, none, some, List, [], arith, ℕ, ◌<◌, length, length-replicate, replicate,
}
use ani_vault.Base.Int.{ℤ, pos, negsuc}
use ani_vault.LinkedHash.{Node, Table, init, clear}
use ani_vault.LinkedHash.Chains.{chain_of}
use ani_vault.LinkedHash.Buckets.{ended}
use ani_vault.LinkedHash.Order as Order
use ani_vault.LinkedHash.Order.{IsOrder, entries, pairs, length-pairs}
use ani_vault.LinkedHash.Assoc.{Distinct}
use ani_vault.LinkedHash.Append.{IsOrdered}
use ani_vault.LinkedHash.Insert.{first_of-replicate}
use ani_vault.LinkedHash.Represents.{Represents}

module _ {ℓ} {K V : Type ℓ} (same : K → K → Bool) (hash_index : ℕ → K → ℕ) where
  -- A table with no node.
  blank-Represents :
      (t : Table K V)
      → t.buckets ≡ replicate t.capacity none
      → t.head ≡ none
      → t.tail ≡ none
      → t.size ≡ 0
      → 0 < t.capacity
      → Represents same hash_index t []
  unfolding IsOrdered chain_of entries Distinct
  blank-Represents t buckets head tail size positive = record {
    ordered = rw (head, tail) Order.ended;
    chains = λ j lt. rw (buckets, first_of-replicate t.capacity j) ended;
    bucket_count = rw buckets (length-replicate t.capacity none);
    counted = size;
    nonempty = positive;
    distinct = tt;
  }

  pub init-Represents :
      (initial_capacity : ℤ) (load_factor one : ℕ) (t : Table K V)
      → init initial_capacity load_factor one ≡ some t
      → Represents same hash_index t []
  unfolding init
  init-Represents (negsuc c) load_factor one t h = ground arith
  init-Represents (pos c) load_factor one t h =
      blank-Represents t (ground arith) (ground arith) (ground arith) (ground arith) (ground arith)

  pub clear-Represents :
      (t : Table K V) (ns : List (ℕ × Node K V))
      → Represents same hash_index t ns
      → Represents same hash_index (clear t) []
  unfolding clear
  clear-Represents t ns r = blank-Represents (clear t) refl refl refl refl r.nonempty

  pub size-Represents :
      (t : Table K V) (ns : List (ℕ × Node K V))
      → Represents same hash_index t ns
      → t.size ≡ length (pairs ns)
  size-Represents t ns r = r.counted ∙ length-pairs ns
