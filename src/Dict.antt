-- ===== src/Dict.antt =====
-- Python's `dict` and `set` with string keys, in the order of insertion. An assignment to a key
-- that is there keeps its place.
pub mod Laws
use Prim.Native.String.{String}
use text.Mathlib.Text.{◌==◌}
use ani_vault.Base.{Bool, true, false, ◌||◌, Option, none, some, List, [], ◌∷◌, if◌then◌else◌}

abbrev pub Dict {ℓ} : Type ℓ → Type ℓ
Dict V = List (String × V)

module _ {ℓ} {V : Type ℓ} where
  -- d.get(k)
  unfoldable pub lookup : String → Dict V → Option V
  lookup k [] = none
  lookup k ((j, v) ∷ d) = if j == k then some v else lookup k d

  -- d[k] = v
  unfoldable pub insert : String → V → Dict V → Dict V
  insert k v [] = (k, v) ∷ []
  insert k v ((j, w) ∷ d) = if j == k then (j, v) ∷ d else (j, w) ∷ insert k v d

  -- d.pop(k, None)
  unfoldable pub remove : String → Dict V → Dict V
  remove k [] = []
  remove k ((j, w) ∷ d) = let rest = remove k d in if j == k then rest else (j, w) ∷ rest

  -- d.keys()
  unfoldable pub keys : Dict V → List String
  keys [] = []
  keys ((k, v) ∷ d) = k ∷ keys d

  -- d.values()
  unfoldable pub values : Dict V → List V
  values [] = []
  values ((k, v) ∷ d) = v ∷ values d

-- k in s
unfoldable pub contains : String → List String → Bool
contains k [] = false
contains k (j ∷ s) = (j == k) || contains k s

-- s.add(k)
unfoldable pub add : String → List String → List String
add k [] = k ∷ []
add k (j ∷ s) = if j == k then j ∷ s else j ∷ add k s

-- s - t
unfoldable pub difference : List String → List String → List String
unfolding contains
difference [] t = []
difference (k ∷ s) t = let rest = difference s t in if contains k t then rest else k ∷ rest

-- s & t
unfoldable pub intersection : List String → List String → List String
unfolding contains
intersection [] t = []
intersection (k ∷ s) t = let rest = intersection s t in if contains k t then k ∷ rest else rest
