-- ===== src/LinkedHash/Tests.antt =====
-- Runs of the linked hash table, and instances of its theorems.
use ani_vault.Base.{ℕ, true, ◌%◌, ◌<◌, ◌≡◌, refl, Option, none, some, List, [], ◌∷◌, arith, ◌==◌}
use ani_vault.Base.Int.{pos, negsuc}
use ani_vault.LinkedHash.{Node, Table, init, put, get, remove, iterate, find, rehash}
use ani_vault.LinkedHash.Hash.{
  title_episode, hash_value, hash_index, hash_index-lt, hash_value-polynomial, polynomial, take,
}
use ani_vault.LinkedHash.Order.{pairs, IsOrder}
use ani_vault.LinkedHash.Append.{IsOrdered}
use ani_vault.LinkedHash.Put.{put-iterate}
use ani_vault.LinkedHash.Replace.{replace, put-replace}
use ani_vault.LinkedHash.Search.{IsChain, ended, linked, value_in, get-value_in}
use ani_vault.LinkedHash.Rehash.{rehash-iterate}

abbrev index : ℕ → ℕ → ℕ
index capacity key = key % capacity

abbrev blank : Table ℕ ℕ
blank = record {
  one = 10;
  load_factor = 8;
  capacity = 4;
  size = 0;
  buckets = none ∷ none ∷ none ∷ none ∷ [];
  head = none;
  tail = none;
  next_free = 0;
  cell = λ p. none;
}

abbrev put_all : List (ℕ × ℕ) → Table ℕ ℕ → Option (Table ℕ ℕ)
put_all [] t = some t
put_all ((k, v) ∷ rest) t = elim (put ◌==◌ index k v t) [
  | none ↦ none
  | some (old, t') ↦ put_all rest t'
]

-- 1 and 5 share a bucket of four.
abbrev two_pairs : Table ℕ ℕ
unfolding put
two_pairs = elim (put_all ((1, 10) ∷ (5, 50) ∷ []) blank) [ none ↦ blank | some t ↦ t ]

-- The fourth pair makes six buckets of the four.
abbrev four_pairs : Table ℕ ℕ
unfolding put two_pairs
four_pairs = elim (put_all ((9, 90) ∷ (2, 20) ∷ []) two_pairs) [ none ↦ blank | some t ↦ t ]

init-blank : init {K = ℕ} {V = ℕ} (pos 4) 8 10 ≡ some blank
unfolding init
init-blank = refl

init_zero : init {K = ℕ} {V = ℕ} (pos 0) 8 10 ≡ none
unfolding init
init_zero = refl

iterate-four_pairs : iterate four_pairs ≡ some ((1, 10) ∷ (5, 50) ∷ (9, 90) ∷ (2, 20) ∷ [])
unfolding iterate four_pairs
iterate-four_pairs = refl

capacity_four_pairs : four_pairs.capacity ≡ 6
unfolding four_pairs
capacity_four_pairs = refl

get_found : get ◌==◌ index 9 four_pairs ≡ some (some 90)
unfolding get four_pairs
get_found = refl

abbrev without : ℕ → Table ℕ ℕ
unfolding remove four_pairs
without key = elim (remove ◌==◌ index key four_pairs) [ none ↦ blank | some (v, t) ↦ t ]

remove_middle : iterate (without 5) ≡ some ((1, 10) ∷ (9, 90) ∷ (2, 20) ∷ [])
unfolding iterate without four_pairs
remove_middle = refl

remove_head : iterate (without 1) ≡ some ((5, 50) ∷ (9, 90) ∷ (2, 20) ∷ [])
unfolding iterate without four_pairs
remove_head = refl

remove_tail : (without 2).tail ≡ some 2
unfolding without four_pairs
remove_tail = refl

get_removed : get ◌==◌ index 5 (without 5) ≡ some none
unfolding get without
get_removed = refl

-- "a", episode -100
hash_negative :
    hash_value {A = ℕ} pos (title_episode (some (97 ∷ [])) (some (negsuc 99))) ≡ pos 2907
unfolding hash_value
hash_negative = refl

-- The chain of the bucket of 1 and 5, the newer node first.
abbrev chain : List (ℕ × Node ℕ ℕ)
chain =
    (
      1,
      record {
        key = 5;
        value = 50;
        next_in_bucket = some 0;
        prev_in_order = some 0;
        next_in_order = none;
      },
    )
    ∷ (
      0,
      record {
        key = 1;
        value = 10;
        next_in_bucket = none;
        prev_in_order = none;
        next_in_order = some 1;
      },
    )
    ∷ []

chain-IsChain : IsChain two_pairs.cell chain (some 1)
unfolding two_pairs
chain-IsChain = linked refl (linked refl ended)

lookup_finds : get ◌==◌ index 1 two_pairs ≡ some (some 10)
unfolding two_pairs value_in
lookup_finds = get-value_in ◌==◌ index 1 two_pairs chain chain-IsChain (omega arith)

rehash_keeps :
    (t' : Table ℕ ℕ) × (rehash index four_pairs ≡ some t')
    × (iterate t' ≡ some ((1, 10) ∷ (5, 50) ∷ (9, 90) ∷ (2, 20) ∷ []))
    × (t'.capacity ≡ 9)
    × (t'.size ≡ 4)
unfolding four_pairs
rehash_keeps =
    rehash-iterate index four_pairs ((1, 10) ∷ (5, 50) ∷ (9, 90) ∷ (2, 20) ∷ []) iterate-four_pairs

index_in_bounds : hash_index {A = ℕ} pos 64 (title_episode none (some (negsuc 4))) < 64
index_in_bounds = hash_index-lt pos 64 (title_episode none (some (negsuc 4))) (omega arith)

hash_value-polynomial_example :
    hash_value {A = ℕ} pos (title_episode (some (97 ∷ 98 ∷ [])) (some (pos 7))) ≡ pos 96262
unfolding polynomial take
hash_value-polynomial_example = hash_value-polynomial pos (some (97 ∷ 98 ∷ [])) (some (pos 7))

abbrev three_pairs : Table ℕ ℕ
unfolding put two_pairs
three_pairs = elim (put_all ((9, 90) ∷ []) two_pairs) [ none ↦ blank | some t ↦ t ]

abbrev order : List (ℕ × Node ℕ ℕ)
order =
    (
      0,
      record {
        key = 1;
        value = 10;
        next_in_bucket = none;
        prev_in_order = none;
        next_in_order = some 1;
      },
    )
    ∷ (
      1,
      record {
        key = 5;
        value = 50;
        next_in_bucket = some 0;
        prev_in_order = some 0;
        next_in_order = some 2;
      },
    )
    ∷ (
      2,
      record {
        key = 9;
        value = 90;
        next_in_bucket = some 1;
        prev_in_order = some 1;
        next_in_order = none;
      },
    )
    ∷ []

order-IsOrdered : IsOrdered three_pairs order
unfolding IsOrdered three_pairs
order-IsOrdered = IsOrder.linked (omega arith) (omega arith) refl refl (
    IsOrder.linked (omega arith) (omega arith) refl refl
      (IsOrder.linked (omega arith) (omega arith) refl refl IsOrder.ended))

find_absent : find ◌==◌ index 2 three_pairs ≡ some none
unfolding find three_pairs
find_absent = refl

puts_new_key :
    (t' : Table ℕ ℕ) × (put ◌==◌ index 2 20 three_pairs ≡ some (none, t'))
    × (iterate t' ≡ some ((1, 10) ∷ (5, 50) ∷ (9, 90) ∷ (2, 20) ∷ []))
    × (ns' : List (ℕ × Node ℕ ℕ)) × IsOrdered t' ns'
    × (pairs ns' ≡ (1, 10) ∷ (5, 50) ∷ (9, 90) ∷ (2, 20) ∷ [])
unfolding pairs
puts_new_key = put-iterate ◌==◌ index 2 20 three_pairs order order-IsOrdered find_absent

found_middle :
    find ◌==◌ index 5 three_pairs
    ≡ some (
        some (
          some 2,
          (
            1,
            record {
              key = 5;
              value = 50;
              next_in_bucket = some 0;
              prev_in_order = some 0;
              next_in_order = some 2;
            },
          ),
        ))
unfolding find three_pairs
found_middle = refl

puts_known_key :
    ((5 == 5) ≡ true)
    × (t' : Table ℕ ℕ) × (put ◌==◌ index 5 55 three_pairs ≡ some (some 50, t'))
    × (iterate t' ≡ some ((1, 10) ∷ (5, 55) ∷ (9, 90) ∷ []))
    × IsOrdered t' (replace 1 55 order)
unfolding pairs replace
puts_known_key =
    put-replace ◌==◌ index 5 55 three_pairs order (some 2) 1 _ order-IsOrdered found_middle
