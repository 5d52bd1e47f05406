-- ===== src/Block/Merkle.antt =====
-- `merkle_root` of block.rs: the loop over the levels, and its reference form.
use ondris.Prelude.{
  ℕ, zero, suc, ◌+◌, ◌/◌, ◌%◌, ◌≤◌, ◌≡◌, refl, ap, sym, ◌∙◌, List, [], ◌∷◌, ◌++◌, length, arith,
  Option, none, some,
}
use ondris.Primitives.{Blake3, Hash256, zero_hash}

module _ (b : Blake3) where
  -- The body of the `for` loop: each pair of a level hashed together, an odd last one with itself.
  unfoldable pub next_level : List Hash256 → List Hash256
  next_level [] = []
  next_level (x ∷ []) = b.hash (x ++ x) ∷ []
  next_level (x ∷ y ∷ rest) = b.hash (x ++ y) ∷ next_level rest

  -- `while level.len() > 1`, on fuel, and then `level[0]`.
  pub reduce_levels : ℕ → List Hash256 → Option Hash256
  reduce_levels zero level = none
  reduce_levels (suc fuel) [] = none
  reduce_levels (suc fuel) (x ∷ []) = some x
  reduce_levels (suc fuel) (x ∷ y ∷ rest) = reduce_levels fuel (next_level (x ∷ y ∷ rest))

  -- Each round at least halves a level of two or more, so `length` rounds are enough; the other
  -- answer stands for a loop that is never left.
  unfoldable pub merkle_root : List Hash256 → Hash256
  merkle_root [] = zero_hash
  merkle_root (x ∷ xs) = elim (reduce_levels (length (x ∷ xs)) (x ∷ xs)) [
    | none ↦ []
    | some root ↦ root
  ]

  pub length-next_level : (xs : List Hash256) → length (next_level xs) ≡ (length xs + 1) / 2
  unfolding next_level
  length-next_level [] = omega arith
  length-next_level (x ∷ []) = omega arith
  length-next_level (x ∷ y ∷ rest) = omega (arith, length-next_level rest)

  -- The loop ends: on a list that is not empty, as much fuel as elements gives a root, and more
  -- fuel gives the same one.
  reduce_levels_total :
      (fuel : ℕ) (x : Hash256) (xs : List Hash256)
      → length (x ∷ xs) ≤ fuel
      → (root : Hash256) × (reduce_levels fuel (x ∷ xs) ≡ some root)
  unfolding reduce_levels next_level
  reduce_levels_total zero x xs h = absurd (omega arith)
  reduce_levels_total (suc fuel) x [] h = (x, refl)
  reduce_levels_total (suc fuel) x (y ∷ rest) h =
      reduce_levels_total fuel (b.hash (x ++ y)) (next_level rest)
        (omega (arith, length-next_level rest))

  reduce_levels_more :
      (fuel more : ℕ) (x : Hash256) (xs : List Hash256)
      → length (x ∷ xs) ≤ fuel
      → fuel ≤ more
      → reduce_levels more (x ∷ xs) ≡ reduce_levels fuel (x ∷ xs)
  unfolding reduce_levels next_level
  reduce_levels_more zero more x xs h le = absurd (omega arith)
  reduce_levels_more (suc fuel) zero x xs h le = absurd (omega arith)
  reduce_levels_more (suc fuel) (suc more) x [] h le = refl
  reduce_levels_more (suc fuel) (suc more) x (y ∷ rest) h le =
      reduce_levels_more fuel more (b.hash (x ++ y)) (next_level rest)
        (omega (arith, length-next_level rest)) (omega arith)

  -- The loop computes the tree: no hash gives the zero hash, one hash is its own root, and two or
  -- more have the root of their next level, in which each pair is hashed together and an odd last
  -- hash with itself. The fuel never runs out.
  pub merkle_root_levels :
      (x y : Hash256) (rest : List Hash256)
      → (merkle_root [] ≡ zero_hash)
        × (merkle_root (x ∷ []) ≡ x)
        × (merkle_root (x ∷ y ∷ rest) ≡ merkle_root (next_level (x ∷ y ∷ rest)))
        × ((root : Hash256) × (reduce_levels (length (x ∷ rest)) (x ∷ rest) ≡ some root)
            × (merkle_root (x ∷ rest) ≡ root))
  unfolding merkle_root reduce_levels
  merkle_root_levels x y rest = (refl, refl, step, total)
    where
      step : merkle_root (x ∷ y ∷ rest) ≡ merkle_root (next_level (x ∷ y ∷ rest))
      step =
          unfold next_level in
          rw (
            reduce_levels_more (length (b.hash (x ++ y) ∷ next_level rest)) (length (y ∷ rest))
              (b.hash (x ++ y)) (next_level rest) (omega arith)
              (omega (arith, length-next_level rest)))

      total :
          (root : Hash256) × (reduce_levels (length (x ∷ rest)) (x ∷ rest) ≡ some root)
          × (merkle_root (x ∷ rest) ≡ root)
      total =
          let (root, e) = reduce_levels_total (length (x ∷ rest)) x rest (omega arith) in
          (root, e, rw (e, merkle_root))

  next_level-duplicate :
      (xs : List Hash256) (x : Hash256)
      → length xs % 2 ≡ 0
      → next_level (xs ++ x ∷ []) ≡ next_level (xs ++ x ∷ x ∷ [])
  unfolding next_level
  next_level-duplicate [] x h = refl
  next_level-duplicate (y ∷ []) x h = absurd (omega arith)
  next_level-duplicate (y ∷ z ∷ xs) x h =
      ap (◌∷◌ (b.hash (y ++ z))) (next_level-duplicate xs x (omega arith))

  -- The root does not tell an odd list of three or more leaves from the list in which the last
  -- leaf is written twice.
  pub merkle_root-duplicate :
      (y z : Hash256) (xs : List Hash256) (x : Hash256)
      → length xs % 2 ≡ 0
      → merkle_root (y ∷ z ∷ xs ++ x ∷ []) ≡ merkle_root (y ∷ z ∷ xs ++ x ∷ x ∷ [])
  merkle_root-duplicate y z xs x h =
      (merkle_root_levels y z (xs ++ x ∷ [])).2
      ∙ ap merkle_root (next_level-duplicate (y ∷ z ∷ xs) x (omega arith))
      ∙ sym (merkle_root_levels y z (xs ++ x ∷ x ∷ [])).2
