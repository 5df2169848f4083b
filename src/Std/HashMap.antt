-- ===== src/Std/HashMap.antt =====
-- `std::collections::HashMap<String, V>` as an association list. The program never iterates over
-- one, so the order of the entries is not modelled.
use redis_demo.Base.{
  ◌≡◌, refl, Bytes, List, [], ◌∷◌, Option, none, some, ◌is◌, is_iff, if◌then◌else◌, arith,
}

module _ {ℓ} {V : Type ℓ} where
  -- `get`
  unfoldable pub lookup : Bytes → List (Bytes × V) → Option V
  lookup k [] = none
  lookup k ((j, v) ∷ m) = if j is k then some v else lookup k m

  -- `insert`; the value that was there before is `lookup k m`.
  unfoldable pub insert : Bytes → V → List (Bytes × V) → List (Bytes × V)
  insert k v [] = (k, v) ∷ []
  insert k v ((j, w) ∷ m) = if j is k then (k, v) ∷ m else (j, w) ∷ insert k v m

  unfoldable pub remove : Bytes → List (Bytes × V) → List (Bytes × V)
  remove k [] = []
  remove k ((j, w) ∷ m) = if j is k then remove k m else (j, w) ∷ remove k m

  pub lookup-insert :
      (k j : Bytes) (v : V) (m : List (Bytes × V))
      → lookup j (insert k v m) ≡ (if k is j then some v else lookup j m)
  unfolding lookup insert
  lookup-insert k j v [] = refl
  lookup-insert k j v ((i, w) ∷ m) =
      ground (arith, is_iff k j, is_iff i k, is_iff i j, lookup-insert k j v m)

  pub lookup-remove :
      (k j : Bytes) (m : List (Bytes × V))
      → lookup j (remove k m) ≡ (if k is j then none else lookup j m)
  unfolding lookup remove
  lookup-remove k j [] = ground arith
  lookup-remove k j ((i, w) ∷ m) =
      ground (arith, is_iff k j, is_iff i k, is_iff i j, lookup-remove k j m)
