-- ===== src/MapTiles/Sets.antt =====
-- `QSet<QString>` as a list of its elements, and `QHash<QString, V>` as an association list.
use aowis_server_map.Prelude.{Bool, false, ◌||◌, List, [], ◌∷◌, ◌++◌, Text, eqb, if◌then◌else◌}

unfoldable pub contains : Text → List Text → Bool
contains k [] = false
contains k (x ∷ xs) = eqb x k || contains k xs

unfoldable pub insert : Text → List Text → List Text
unfolding contains
insert k xs = if contains k xs then xs else xs ++ (k ∷ [])

unfoldable pub remove : Text → List Text → List Text
remove k [] = []
remove k (x ∷ xs) = let rest = remove k xs in if eqb x k then rest else x ∷ rest

module _ {ℓ} {V : Type ℓ} where
  -- `value(key, default)`
  unfoldable pub value_or : Text → V → List (Text × V) → V
  value_or k d [] = d
  value_or k d ((j, v) ∷ rest) = if eqb j k then v else value_or k d rest

  -- `insert(key, value)`
  unfoldable pub put : Text → V → List (Text × V) → List (Text × V)
  put k v [] = (k, v) ∷ []
  put k v ((j, w) ∷ rest) = if eqb j k then (j, v) ∷ rest else (j, w) ∷ put k v rest

  -- `remove(key)`
  unfoldable pub drop_key : Text → List (Text × V) → List (Text × V)
  drop_key k [] = []
  drop_key k ((j, v) ∷ rest) =
      let others = drop_key k rest in if eqb j k then others else (j, v) ∷ others

  -- `values()`
  unfoldable pub values : List (Text × V) → List V
  values [] = []
  values ((k, v) ∷ rest) = v ∷ values rest
