-- ===== src/Chain/Fork.antt =====
-- `fork_paths` of chain.rs: from two tips down to their common ancestor. Each `while` loop takes
-- fuel, one more than the height that it starts from (see Fork/Total).
pub mod Paths
pub mod Total
pub mod Heights
use ondris.Prelude.{
  ℕ, zero, suc, ◌+◌, Option, none, some, List, [], ◌∷◌, ◌++◌, reverse, Bool, true, false, ltb,
  bytes_eq, Result, ok, err, Error, ok_or, ◌>>=◌, missing_block, missing_ancestor, out_of_fuel,
}
use ondris.Primitives.{Hash256}
use ondris.Block.{Block}
use ondris.State.{Externals, ChainState, get_block}

-- `BlockChain`
abbrev pub BlockChain : Type 0
BlockChain = List (Hash256 × Block)

module _ {Tree : Type 0} (x : Externals Tree) (s : ChainState Tree) where
  -- `get_block(..)?.ok_or_else(..)?`
  unfoldable pub fetch : Error → Hash256 → Result Block
  fetch e hash = do entry ← get_block x s hash; ok_or entry e

  -- The first and the second loop: down from a block while it is above `floor`. The blocks passed
  -- are pushed in order; the last pair is where the loop stops.
  unfoldable pub climb : ℕ → ℕ → Hash256 → Block → Result (BlockChain × Hash256 × Block)
  climb zero floor hash block = err out_of_fuel
  climb (suc fuel) floor hash block = elim (ltb floor block.header.height) [
    | true ↦ do
      parent ← fetch missing_ancestor block.header.prev_hash
      (passed, end_hash, end_block) ← climb fuel floor block.header.prev_hash parent
      ok ((hash, block) ∷ passed, end_hash, end_block)
    | false ↦ ok ([], hash, block)
  ]

  -- The third loop: both sides down in step while the hashes differ.
  unfoldable pub meet : ℕ → Hash256 → Block → Hash256 → Block → Result (BlockChain × BlockChain)
  meet zero old_hash old_block new_hash new_block = err out_of_fuel
  meet (suc fuel) old_hash old_block new_hash new_block = elim (bytes_eq old_hash new_hash) [
    | true ↦ ok ([], [])
    | false ↦ do
      old_parent ← fetch missing_ancestor old_block.header.prev_hash
      new_parent ← fetch missing_ancestor new_block.header.prev_hash
      (undo, apply) ←
          meet fuel old_block.header.prev_hash old_parent new_block.header.prev_hash new_parent
      ok ((old_hash, old_block) ∷ undo, (new_hash, new_block) ∷ apply)
  ]

  unfoldable pub fork_paths : Hash256 → Hash256 → Result (BlockChain × BlockChain)
  fork_paths old_tip new_tip = do
    old_block ← fetch missing_block old_tip
    new_block ← fetch missing_block new_tip
    (undo₁, old_hash, old_end) ←
        climb (suc old_block.header.height) new_block.header.height old_tip old_block
    (apply₁, new_hash, new_end) ←
        climb (suc new_block.header.height) old_end.header.height new_tip new_block
    (undo₂, apply₂) ← meet (suc old_end.header.height) old_hash old_end new_hash new_end
    ok (undo₁ ++ undo₂, reverse (apply₁ ++ apply₂))
