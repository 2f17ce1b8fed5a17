-- ===== src/LinkedHash/Interface.antt =====
-- What the clients of the linked hash table call, and what they rely on: an ordered dict.
use ani_vault.Base.{
  ◌≡◌, refl, ap, ◌∙◌, ◌↔◌, Bool, true, Option, none, some, List, [], ◌∷◌, ℕ, ◌<◌, length, replicate,
}
use ani_vault.LinkedHash as Hashed
use mathlib.Core.Path.{subst}
use ani_vault.Base.Int.{pos}
use ani_vault.LinkedHash.{Node, Table, init, get, put, iterate}
use ani_vault.LinkedHash.Assoc.{lookup, insert, remove, Distinct}
use ani_vault.LinkedHash.Order.{pairs, entries, strip, strip-entries}
use ani_vault.LinkedHash.Append.{iterate-pairs}
use ani_vault.LinkedHash.Represents.{Represents, get-lookup, lookup-strip, strip_found}
use ani_vault.LinkedHash.Chains.{Entry}
use ani_vault.LinkedHash.Refine.{put-insert}
use ani_vault.LinkedHash.Remove.{remove-lookup}
use ani_vault.LinkedHash.Implements.{init-Represents, size-Represents}

-- The methods that the caches call; `none` is a loop that does not end.
pub record OrderedTable (K V : Type 0) : Type 1 where
  pub Store : Type 0
  pub new : Store
  pub put_key : K → V → Store → Option (Option V × Store)
  pub get_key : K → Store → Option (Option V)
  pub remove_key : K → Store → Option (Option V × Store)
  pub items : Store → Option (List (K × V))
  pub count : Store → ℕ

-- Every method ends, and does what an ordered dict does.
pub record IsDict {K V : Type 0} (same : K → K → Bool) (o : OrderedTable K V) : Type 1 where
  pub Stands : o.Store → List (K × V) → Type 0
  pub new_stands : Stands o.new []
  pub put_stands :
      (k : K) (v : V) (t : o.Store) (d : List (K × V))
      → Stands t d
      → (t' : o.Store) × (o.put_key k v t ≡ some (lookup same k d, t'))
        × Stands t' (insert same k v d)
  pub get_stands :
      (k : K) (t : o.Store) (d : List (K × V)) → Stands t d → o.get_key k t ≡ some (lookup same k d)
  pub remove_stands :
      (k : K) (t : o.Store) (d : List (K × V))
      → Stands t d
      → (t' : o.Store) × (o.remove_key k t ≡ some (lookup same k d, t'))
        × Stands t' (remove same k d)
  pub items_stands : (t : o.Store) (d : List (K × V)) → Stands t d → o.items t ≡ some d
  pub count_stands : (t : o.Store) (d : List (K × V)) → Stands t d → o.count t ≡ length d
  pub distinct_stands : (t : o.Store) (d : List (K × V)) → Stands t d → Distinct same d

-- `LinkedHashTable()`
abbrev pub default_table : {K V : Type 0} → Table K V
default_table = record {
  one = 10;
  load_factor = 8;
  capacity = 64;
  size = 0;
  buckets = replicate 64 none;
  head = none;
  tail = none;
  next_free = 0;
  cell = λ p. none;
}

default_table-init : {K V : Type 0} → init {K = K} {V = V} (pos 64) 8 10 ≡ some default_table
unfolding init
default_table-init = refl

module _ {K V : Type 0} (same : K → K → Bool) (hash_index : ℕ → K → ℕ) where
  -- The linked hash table as an ordered table.
  abbrev pub linked : OrderedTable K V
  linked = record {
    Store = Table K V;
    new = default_table;
    put_key = put same hash_index;
    get_key = get same hash_index;
    remove_key = Hashed.remove same hash_index;
    items = iterate;
    count = λ t. t.size;
  }

  Distinct-strip : (es : List (Entry K V)) → Distinct same es → Distinct same (strip es)
  unfolding Distinct strip strip_found
  Distinct-strip [] h = tt
  Distinct-strip ((k, (p, v)) ∷ es) h =
      (lookup-strip same hash_index k es ∙ ap strip_found (h.0), Distinct-strip es h.1)

  -- The table stands for a dict when its nodes, in their order, have the pairs of the dict.
  pub IsTableOf : Table K V → List (K × V) → Type 0
  IsTableOf t d = (ns : List (ℕ × Node K V)) × Represents same hash_index t ns × (pairs ns ≡ d)

  module _ (same_iff : (a b : K) → (same a b ≡ true) ↔ (a ≡ b))
      (index_lt : (capacity : ℕ) (key : K)
        → 0 < capacity
        → hash_index capacity key < capacity) where
    pub linked-IsDict : IsDict same linked
    unfolding IsTableOf pairs
    linked-IsDict = record {
      Stands = IsTableOf;
      new_stands = (
        [],
        init-Represents same hash_index (pos 64) 8 10 default_table default_table-init,
        refl,
      );
      put_stands = λ k v t d h.
          let done = put-insert same hash_index same_iff index_lt k v t h.0 h.1 in
          (
            done.0,
            done.1 ∙ ap (λ e. some (lookup same k e, done.0)) (h.2),
            (done.2, done.3, done.4 ∙ ap (insert same k v) (h.2)),
          );
      get_stands = λ k t d h.
          get-lookup same hash_index same_iff index_lt k t h.0 h.1
          ∙ ap (λ e. some (lookup same k e)) (h.2);
      remove_stands = λ k t d h.
          let done = remove-lookup same hash_index same_iff index_lt k t h.0 h.1 in
          (
            done.0,
            done.1 ∙ ap (λ e. some (lookup same k e, done.0)) (h.2),
            (done.2, done.3, done.4 ∙ ap (remove same k) (h.2)),
          );
      items_stands = λ t d h. iterate-pairs t h.0 h.1.ordered ∙ ap some (h.2);
      count_stands = λ t d h. size-Represents same hash_index t h.0 h.1 ∙ ap length (h.2);
      distinct_stands = λ t d h.
          subst (Distinct same) (strip-entries h.0 ∙ h.2)
            (Distinct-strip (entries h.0) h.1.distinct);
    }
