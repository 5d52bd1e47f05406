-- ===== src/Tests/Work.antt =====
-- The theorems on the Merkle tree and the proof of work at concrete inputs.
use ondris.Prelude.{
  ℕ, ◌-◌, ◌/◌, ◌^◌, ◌≤◌, max, ◌≡◌, ◌↔◌, ◌⊎◌, refl, true, List, [], ◌∷◌, replicate, from_be_bytes,
  arith,
}
use ondris.Primitives.{Hash256}
use ondris.Difficulty.{target_for_difficulty}
use ondris.Block.Merkle.{merkle_root, merkle_root-duplicate}
use ondris.Block.Binding.{Collision, merkle_root_binding}
use ondris.Pow.{meets_target}
use ondris.Pow.Threshold.{meets_target-target_for_difficulty}
use ondris.Tests.Crates.{blake3, blake3-Blake3Laws}

abbrev leaf : ℕ → Hash256
leaf n = replicate 32 n

abbrev three_leaves : List Hash256
three_leaves = leaf 1 ∷ leaf 2 ∷ leaf 3 ∷ []

merkle_root_binding_example :
    (three_leaves ≡ three_leaves) ⊎ Collision blake3 three_leaves three_leaves
merkle_root_binding_example =
    merkle_root_binding blake3 blake3-Blake3Laws three_leaves three_leaves refl
      (refl, (refl, (refl, tt))) (refl, (refl, (refl, tt))) refl

merkle_root-duplicate_example :
    merkle_root blake3 three_leaves ≡ merkle_root blake3 (leaf 1 ∷ leaf 2 ∷ leaf 3 ∷ leaf 3 ∷ [])
merkle_root-duplicate_example =
    merkle_root-duplicate blake3 (leaf 1) (leaf 2) [] (leaf 3) (omega arith)

-- A hash with a zero byte in front.
abbrev low_hash : Hash256
low_hash = 0 ∷ replicate 31 200

meets_target-target_for_difficulty_example :
    (meets_target low_hash (target_for_difficulty 100) ≡ true)
    ↔ (from_be_bytes low_hash ≤ (2 ^ 256 - 1) / max 100 1)
meets_target-target_for_difficulty_example =
    meets_target-target_for_difficulty low_hash 100 refl (omega arith) (omega arith)

low_hash_meets : meets_target low_hash (target_for_difficulty 100) ≡ true
low_hash_meets =
    (meets_target-target_for_difficulty low_hash 100 refl (omega arith) (omega arith)).1
      (omega arith)
