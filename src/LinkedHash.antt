-- ===== src/LinkedHash.antt =====
-- `HashNode` and `LinkedHashTable` of src/anivault/core/data_structures/linked_hash_table.py.
--
-- A node is an address, and `cell` is the store. `same` is `==` on keys and `hash_index capacity`
-- the index of a key's bucket (`Hash`). The load factor is a number of parts, of which `one` make
-- 1.0. A loop that follows pointers runs on fuel, the number of the nodes ever made; `none` is a
-- loop that has not ended by then, or has met an address with no node.
pub mod Hash
pub mod Assoc
pub mod Chains
pub mod Buckets
pub mod Assign
pub mod Search
pub mod Rehash
pub mod Order
pub mod Append
pub mod Kept
pub mod Push
pub mod Put
pub mod Represents
pub mod Insert
pub mod Revalue
pub mod Refine
pub mod Unlink
pub mod Unorder
pub mod Leaving
pub mod Unchain
pub mod Shorten
pub mod Remove
pub mod Implements
pub mod Run
pub mod Interface
pub mod Replace
mod Tests
mod Examples
use ani_vault.Base.{
  ℕ, zero, suc, ◌+◌, ◌-◌, ◌*◌, ◌/◌, Bool, true, false, not, ◌||◌, Option, none, some, List, [], ◌∷◌,
  ltb, leb, ◌==◌, if◌then◌else◌, get_elem?, set, replicate,
}
use ani_vault.Base.Int.{ℤ, pos, pos_part, leb_ℤ}

pub record Node {ℓ} (K V : Type ℓ) : Type ℓ where
  pub key : K
  pub value : V
  pub next_in_bucket : Option ℕ
  pub prev_in_order : Option ℕ
  pub next_in_order : Option ℕ

pub record Table {ℓ} (K V : Type ℓ) : Type ℓ where
  pub one : ℕ
  pub load_factor : ℕ
  pub capacity : ℕ
  pub size : ℕ
  pub buckets : List (Option ℕ)
  pub head : Option ℕ
  pub tail : Option ℕ
  pub next_free : ℕ
  pub cell : ℕ → Option (Node K V)

-- `none` is a `ValueError`.
unfoldable pub init {ℓ} : {K V : Type ℓ} → ℤ → ℕ → ℕ → Option (Table K V)
init initial_capacity load_factor one =
    if leb_ℤ initial_capacity (pos 0)
    then none
    else if not (ltb 0 load_factor) || ltb one load_factor
    then none
    else some (record {
      one = one;
      load_factor = load_factor;
      capacity = pos_part initial_capacity;
      size = 0;
      buckets = replicate (pos_part initial_capacity) none;
      head = none;
      tail = none;
      next_free = 0;
      cell = λ p. none;
    })

abbrev pub update {ℓ} : {A : Type ℓ} → (ℕ → Option A) → ℕ → A → ℕ → Option A
update cell p a q = if p == q then some a else cell q

module _ {ℓ} {K V : Type ℓ} where
  -- An assignment to fields of the node at an address.
  abbrev pub assign : Option ℕ → (Node K V → Node K V) → Table K V → Table K V
  assign none f t = t
  assign (some p) f t = elim (t.cell p) [
    | none ↦ t
    | some n ↦ record t { cell = update t.cell p (f n) }
  ]

  -- self._buckets[i]
  abbrev pub bucket : Table K V → ℕ → Option ℕ
  bucket t i = elim (get_elem? t.buckets i) [ none ↦ none | some start ↦ start ]

  unfoldable pub set_bucket : ℕ → Option ℕ → Table K V → Table K V
  set_bucket i start t = record t { buckets = set t.buckets i start }

  -- The pairs from a node on.
  unfoldable pub items_from : (ℕ → Option (Node K V)) → ℕ → Option ℕ → Option (List (K × V))
  items_from cell fuel none = some []
  items_from cell zero (some p) = none
  items_from cell (suc fuel) (some p) = elim (cell p) [
    | none ↦ none
    | some n ↦ elim (items_from cell fuel n.next_in_order) [
      | none ↦ none
      | some rest ↦ some ((n.key, n.value) ∷ rest)
    ]
  ]

  -- __iter__, run to its end
  unfoldable pub iterate : Table K V → Option (List (K × V))
  unfolding items_from
  iterate t = items_from t.cell t.next_free t.head

  unfoldable pub clear : Table K V → Table K V
  clear t = record t { buckets = replicate t.capacity none; head = none; tail = none; size = 0 }

  -- The tail of the order is the new node.
  unfoldable pub append_node : ℕ → K → V → Table K V → Table K V
  append_node i key value t =
      let p = t.next_free in
      let n : Node K V = record {
        key = key;
        value = value;
        next_in_bucket = bucket t i;
        prev_in_order = t.tail;
        next_in_order = none;
      } in
      let made : Table K V = record t {
        size = suc t.size;
        buckets = set t.buckets i (some p);
        head = elim t.tail [ none ↦ some p | some last ↦ t.head ];
        tail = some p;
        next_free = suc p;
        cell = update t.cell p n;
      } in
      assign t.tail (λ last. record last { next_in_order = some p }) made

  -- The link from the node before one that leaves the order, or from the head.
  unfoldable pub link_forward : Option ℕ → Option ℕ → Table K V → Table K V
  link_forward none next t = record t { head = next }
  link_forward (some p) next t = assign (some p) (λ m. record m { next_in_order = next }) t

  -- The link from the node after it, or from the tail.
  unfoldable pub link_back : Option ℕ → Option ℕ → Table K V → Table K V
  link_back prev none t = record t { tail = prev }
  link_back prev (some p) t = assign (some p) (λ m. record m { prev_in_order = prev }) t

  unfoldable pub unlink : Node K V → Table K V → Table K V
  unfolding link_forward link_back
  unlink n t =
      link_back n.prev_in_order n.next_in_order (link_forward n.prev_in_order n.next_in_order t)

module _ {ℓ} {K V : Type ℓ} (hash_index : ℕ → K → ℕ) where
  -- The loop of `_rehash`, from a node on.
  unfoldable pub relink : ℕ → Option ℕ → Table K V → Option (Table K V)
  relink fuel none t = some t
  relink zero (some p) t = none
  relink (suc fuel) (some p) t = elim (t.cell p) [
    | none ↦ none
    | some n ↦
        let i = hash_index t.capacity n.key in
        relink fuel n.next_in_order (record t {
          buckets = set t.buckets i (some p);
          cell = update t.cell p (record n { next_in_bucket = bucket t i });
        })
  ]

  -- `int(capacity * 1.5)` buckets
  unfoldable pub rehash : Table K V → Option (Table K V)
  unfolding relink
  rehash t =
      let capacity = t.capacity * 3 / 2 in
      relink t.next_free t.head
        (record t { capacity = capacity; buckets = replicate capacity none })

module _ {ℓ} {K V : Type ℓ} (same : K → K → Bool) (hash_index : ℕ → K → ℕ) where
  -- The loop of `put`, `get` and `remove`: the node with the key and the node before it in its
  -- bucket, if the bucket has the key.
  unfoldable pub search :
      (ℕ → Option (Node K V))
      → K
      → ℕ
      → Option ℕ
      → Option ℕ
      → Option (Option (Option ℕ × (ℕ × Node K V)))
  search cell key fuel prev none = some none
  search cell key zero prev (some p) = none
  search cell key (suc fuel) prev (some p) = elim (cell p) [
    | none ↦ none
    | some n ↦
        let rest = search cell key fuel (some p) n.next_in_bucket in
        if same n.key key then some (some (prev, (p, n))) else rest
  ]

  unfoldable pub find : K → Table K V → Option (Option (Option ℕ × (ℕ × Node K V)))
  unfolding search
  find key t = search t.cell key t.next_free none (bucket t (hash_index t.capacity key))

  unfoldable pub get : K → Table K V → Option (Option V)
  unfolding find
  get key t = elim (find key t) [
    | none ↦ none
    | some none ↦ some none
    | some (some (prev, (p, n))) ↦ some (some n.value)
  ]

  -- The test after a new node, and `_rehash`.
  unfoldable pub grow : Table K V → Option (Table K V)
  unfolding rehash
  grow t = if leb (t.capacity * t.load_factor) (t.size * t.one) then rehash hash_index t else some t

  unfoldable pub put : K → V → Table K V → Option (Option V × Table K V)
  unfolding find grow append_node
  put key value t = elim (find key t) [
    | none ↦ none
    | some none ↦ elim (grow (append_node (hash_index t.capacity key) key value t)) [
      | none ↦ none
      | some t' ↦ some (none, t')
    ]
    | some (some (prev, (p, n))) ↦
        some (some n.value, record t { cell = update t.cell p (record n { value = value }) })
  ]

  -- The bucket without the node that `search` found.
  unfoldable pub unchain : K → Option ℕ → Node K V → Table K V → Table K V
  unfolding set_bucket
  unchain key none n t = set_bucket (hash_index t.capacity key) n.next_in_bucket t
  unchain key (some prev) n t =
      assign (some prev) (λ m. record m { next_in_bucket = n.next_in_bucket }) t

  unfoldable pub remove : K → Table K V → Option (Option V × Table K V)
  unfolding find unchain unlink
  remove key t = elim (find key t) [
    | none ↦ none
    | some none ↦ some (none, t)
    | some (some (prev, (p, n))) ↦
        let unlinked = unlink n (unchain key prev n t) in
        some (some n.value, record unlinked { size = t.size - 1 })
  ]

  -- __contains__
  unfoldable pub contains : (V → Bool) → K → Table K V → Option Bool
  unfolding get
  contains is_none key t = elim (get key t) [
    | none ↦ none
    | some none ↦ some false
    | some (some v) ↦ some (not (is_none v))
  ]
