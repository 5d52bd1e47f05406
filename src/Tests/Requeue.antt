-- ===== src/Tests/Requeue.antt =====
-- The theorem on what a reorganization returns at a concrete fork.
use ondris.Prelude.{◌≡◌, ◌≢◌, ◌↔◌, refl, Among, some, [], ◌∷◌, bytes_eq, replicate, ok, arith}
use ondris.Primitives.{Hash256, to_address}
use ondris.Block.{Block, Transaction}
use ondris.State.{get_account, get_block, store_block, tip}
use ondris.Chain.{Chain, genesis_block, block_reward}
use ondris.Chain.Fork.{BlockChain, fork_paths, fetch, climb, meet}
use ondris.Chain.Fork.Paths.{Down}
use ondris.Chain.Ledger.{
  Overlay, get_acc, lookup, insert, undo_all, undo_block, undo_txs, undo_tx, apply_all, apply_block,
  apply_txs,
}
use ondris.Chain.Reorg.{
  simulate, commit, contains, tx_hashes, branch_hashes, displaced, requeue, reconsider_tip,
}
use ondris.Chain.Reorg.Requeue.{In, id_of, reconsider_tip_returns}
use ondris.Tests.Trees.{Writes}
use ondris.Tests.World.{
  crates, crates-ExternalsLaws, empty_state, genesis_config, chain_of, first_header, empty_block,
  transfer, bob,
}

abbrev root_hash : Hash256
root_hash = replicate 32 9

abbrev left_hash : Hash256
left_hash = replicate 32 1

abbrev right_hash : Hash256
right_hash = replicate 32 2

-- An empty block on genesis, and beside it one with a transfer.
abbrev right_block : Block
right_block = empty_block (first_header root_hash)

abbrev left_block : Block
left_block = record right_block { transactions = transfer ∷ [] }

abbrev forked : Chain Writes
forked = chain_of (
    store_block crates
      (store_block crates (store_block crates empty_state root_hash (genesis_block genesis_config))
        left_hash left_block)
      right_hash right_block)

abbrev undone : BlockChain
undone = (left_hash, left_block) ∷ []

abbrev applied : BlockChain
applied = (right_hash, right_block) ∷ []

paths : fork_paths crates forked.state left_hash right_hash ≡ ok (undone, applied)
unfolding fork_paths fetch climb meet get_block store_block bytes_eq genesis_block
paths = refl

abbrev overlay : Overlay
overlay =
    (bob, record { balance = 50; nonce = 0 })
    ∷ (replicate 20 0, record { balance = 6; nonce = 0 })
    ∷ []

simulated : simulate crates genesis_config forked.state undone applied ≡ ok overlay
unfolding simulate undo_all undo_block undo_txs undo_tx apply_all apply_block apply_txs get_acc
    lookup insert get_account store_block bytes_eq block_reward to_address
simulated = refl

moved : reconsider_tip crates left_hash right_hash 1 forked ≡ (
  ok (transfer ∷ []),
  record forked { state = commit crates overlay undone applied 1 right_hash forked.state },
)
unfolding reconsider_tip requeue branch_hashes tx_hashes displaced contains
moved = ground (arith, paths, simulated)

reconsider_tip_returns_example :
    (tip crates (commit crates overlay undone applied 1 right_hash forked.state)
      ≡ ok (some (1, right_hash)))
    × ((old_branch : BlockChain) × (new_branch : BlockChain) × (common : Hash256) × Down crates
          forked.state left_hash old_branch common
        × Down crates forked.state right_hash new_branch common
        × ((t : Transaction)
            → Among t (transfer ∷ []) ↔ (
                In t old_branch
                × ((u : Transaction) → In u new_branch → id_of crates u ≢ id_of crates t))))
reconsider_tip_returns_example =
    reconsider_tip_returns crates crates-ExternalsLaws left_hash right_hash 1 forked
      (record forked { state = commit crates overlay undone applied 1 right_hash forked.state })
      (transfer ∷ []) moved
