-- ===== src/Base/Map.antt =====
-- `std::map` and `std::unordered_map` as association lists.
use mathlib.Core.Bool.{Bool, true, false}
use mathlib.Core.List.{List, [], ◌∷◌}
use mathlib.Core.Option.{Option, none, some}
use mathlib.Core.Path.{◌≡◌, refl}
use native.Mathlib.Omega.{arith}
use banjax.Base.Text.{Bytes, beq, beq_iff}
use banjax.Base.Tests.{ltb, if◌then◌else◌}

abbrev pub Dict {ℓ} : Type ℓ → Type ℓ
Dict V = List (Bytes × V)

module _ {ℓ} {V : Type ℓ} where
  unfoldable pub lookup : Bytes → Dict V → Option V
  lookup k [] = none
  lookup k ((j, v) ∷ m) = if beq j k then some v else lookup k m

  unfoldable pub insert : Bytes → V → Dict V → Dict V
  insert k v [] = (k, v) ∷ []
  insert k v ((j, w) ∷ m) = if beq j k then (k, v) ∷ m else (j, w) ∷ insert k v m

  unfoldable pub erase : Bytes → Dict V → Dict V
  erase k [] = []
  erase k ((j, w) ∷ m) = let rest = erase k m in if beq j k then rest else (j, w) ∷ rest

  pub lookup-insert :
      (k j : Bytes) (v : V) (m : Dict V)
      → lookup j (insert k v m) ≡ (if beq k j then some v else lookup j m)
  unfolding lookup insert
  lookup-insert k j v [] = refl
  lookup-insert k j v ((i, w) ∷ m) =
      ground (arith, beq_iff k j, beq_iff i k, beq_iff i j, lookup-insert k j v m)

  pub lookup-erase :
      (k j : Bytes) (m : Dict V) → lookup j (erase k m) ≡ (if beq k j then none else lookup j m)
  unfolding lookup erase
  lookup-erase k j [] = ground arith
  lookup-erase k j ((i, w) ∷ m) =
      ground (arith, beq_iff k j, beq_iff i k, beq_iff i j, lookup-erase k j m)

-- `operator<` of strings, which orders the keys of a `std::map`.
unfoldable pub bytes_ltb : Bytes → Bytes → Bool
bytes_ltb [] [] = false
bytes_ltb [] (y ∷ ys) = true
bytes_ltb (x ∷ xs) [] = false
bytes_ltb (x ∷ xs) (y ∷ ys) =
    let rest = bytes_ltb xs ys in if ltb x y then true else if ltb y x then false else rest

bytes_ltb_refl : (a : Bytes) → bytes_ltb a a ≡ false
unfolding bytes_ltb
bytes_ltb_refl [] = refl
bytes_ltb_refl (x ∷ xs) = ground (arith, bytes_ltb_refl xs)

bytes_ltb_total : (a b : Bytes) → bytes_ltb a b ≡ false → bytes_ltb b a ≡ false → a ≡ b
unfolding bytes_ltb
bytes_ltb_total [] [] h h' = refl
bytes_ltb_total [] (y ∷ ys) h h' = cc
bytes_ltb_total (x ∷ xs) [] h h' = cc
bytes_ltb_total (x ∷ xs) (y ∷ ys) h h' = ground (arith, bytes_ltb_total xs ys)

module _ {ℓ} {V : Type ℓ} where
  -- Insertion in the order of the keys, with the new value for a key that is there.
  unfoldable pub insert_sorted : Bytes → V → Dict V → Dict V
  insert_sorted k v [] = (k, v) ∷ []
  insert_sorted k v ((j, w) ∷ m) =
      let rest = insert_sorted k v m in
      if bytes_ltb k j
      then (k, v) ∷ (j, w) ∷ m
      else if bytes_ltb j k
      then (j, w) ∷ rest
      else (k, v) ∷ m

  pub lookup-insert_sorted :
      (k j : Bytes) (v : V) (m : Dict V)
      → lookup j (insert_sorted k v m) ≡ (if beq k j then some v else lookup j m)
  unfolding lookup insert_sorted
  lookup-insert_sorted k j v [] = refl
  lookup-insert_sorted k j v ((i, w) ∷ m) = ground (
    arith,
    beq_iff k j,
    beq_iff i k,
    beq_iff i j,
    bytes_ltb_refl k,
    bytes_ltb_total k i,
    lookup-insert_sorted k j v m,
  )
