-- ===== src/Chain/Reorg.antt =====
-- `reconsider_tip` of chain.rs: the simulation of a reorganization, and its commit.
pub mod Commit
pub mod Accounts
pub mod Index
pub mod Requeue
pub mod Replay
pub mod Canonical
use ondris.Prelude.{
  ℕ, ◌++◌, Option, none, some, List, [], ◌∷◌, map, Bool, true, false, ◌||◌, bytes_eq, if◌then◌else◌,
  Result, ok, err,
}
use ondris.Prelude
use ondris.Primitives.{Hash256, Address}
use ondris.Block.{Block, Transaction, tx_hash}
use ondris.State.{
  Externals, ChainState, Account, set_account, remove_canonical_height, set_canonical_height,
  set_tip,
}
use ondris.Chain.{Chain, GenesisConfig}
use ondris.Chain.Action.{Action, pure, reads, writes, ◌>>=◌, ◌>>◌}
use ondris.Chain.Ledger.{Overlay, undo_all, apply_all}
use ondris.Chain.Fork.{BlockChain, fork_paths}

unfoldable pub contains : List Hash256 → Hash256 → Bool
contains [] h = false
contains (k ∷ ks) h = bytes_eq k h || contains ks h

module _ {Tree : Type 0} (x : Externals Tree) where
  -- the two loops over the branches, in memory
  unfoldable pub simulate :
      GenesisConfig → ChainState Tree → BlockChain → BlockChain → Result Overlay
  simulate g s undo_list apply_list =
      Prelude.◌>>=◌ (undo_all x g s [] undo_list) (λ o. apply_all x g s o apply_list)

  pub set_accounts : Overlay → ChainState Tree → ChainState Tree
  set_accounts [] s = s
  set_accounts ((addr, acc) ∷ o) s = set_accounts o (set_account x s addr acc)

  pub remove_heights : BlockChain → ChainState Tree → ChainState Tree
  remove_heights [] s = s
  remove_heights ((_, block) ∷ rest) s =
      remove_heights rest (remove_canonical_height x s block.header.height)

  pub set_heights : BlockChain → ChainState Tree → ChainState Tree
  set_heights [] s = s
  set_heights ((hash, block) ∷ rest) s =
      set_heights rest (set_canonical_height x s block.header.height hash)

  -- what is written after the simulation
  pub commit : Overlay → BlockChain → BlockChain → ℕ → Hash256 → ChainState Tree → ChainState Tree
  commit o undo_list apply_list new_height new_tip s =
      set_tip x (set_heights apply_list (remove_heights undo_list (set_accounts o s))) new_height
        new_tip

  unfoldable pub tx_hashes : List Transaction → List Hash256
  tx_hashes txs = map (tx_hash x.blake3 x.tx_json) txs

  unfoldable pub branch_hashes : BlockChain → List Hash256
  branch_hashes [] = []
  branch_hashes ((_, block) ∷ rest) = tx_hashes block.transactions ++ branch_hashes rest

  unfoldable pub displaced : List Hash256 → List Transaction → List Transaction
  displaced applied [] = []
  displaced applied (tx ∷ txs) =
      if contains applied (tx_hash x.blake3 x.tx_json tx)
      then displaced applied txs
      else tx ∷ displaced applied txs

  unfoldable pub requeue : List Hash256 → BlockChain → List Transaction
  requeue applied [] = []
  requeue applied ((_, block) ∷ rest) = displaced applied block.transactions ++ requeue applied rest

  unfoldable pub reconsider_tip : Hash256 → Hash256 → ℕ → Action Tree (List Transaction)
  reconsider_tip old_tip new_tip new_tip_height c =
      (do
        (undo_list, apply_list) ← reads (λ s. fork_paths x s old_tip new_tip)
        overlay ← reads (λ s. simulate c.genesis s undo_list apply_list)
        writes (commit overlay undo_list apply_list new_tip_height new_tip)
        pure (requeue (branch_hashes apply_list) undo_list))
        c
