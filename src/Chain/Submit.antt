-- ===== src/Chain/Submit.antt =====
-- `dataset_for_height`, `work_template` and `submit_block` of chain.rs.
pub mod Outcome
pub mod Whole
pub mod Resubmit
pub mod Known
pub mod Invariant
pub mod Work
pub mod Template
pub mod Replay
pub mod Difficulty
pub mod Extension
use ondris.Prelude.{
  ℕ, ◌+◌, ◌*◌, Option, none, some, List, [], ◌∷◌, map, Bool, true, false, not, ◌&&◌, bytes_eq, ltb,
  ◌==◌, if◌then◌else◌, Result, ok, err, Error, ok_or, second_genesis, bad_tx_root, bad_pow,
  bad_signature, wrong_height, wrong_difficulty, missing_chainwork, missing_tip_work,
  not_initialized, missing_boundary,
}
use ondris.Prelude
use ondris.Primitives.{Hash256, Address}
use ondris.Block.{Block, BlockHeader, Transaction, tx_hash, bytes_for_pow, is_signature_valid}
use ondris.Block.Merkle.{merkle_root}
use ondris.Difficulty.{target_for_difficulty}
use ondris.Pow.{Dataset, epoch_of, epoch_length, epoch_seed, generate, ondris_hash, meets_target}
use ondris.State.{
  Externals, ChainState, get_hash_by_height, has_block, get_block, get_chainwork, store_block,
  set_chainwork, tip,
}
use ondris.Chain.{
  Chain, GenesisConfig, compute_next_difficulty, expected_difficulty_after, block_work, add_u64,
  add_u128,
}
use ondris.Chain.Action.{Action, pure, fail, reads, or_fail, require, writes, ◌>>=◌, ◌>>◌}
use ondris.Chain.Reorg.{reconsider_tip}

pub data SubmitOutcome : Type 0 where
  accepted : Hash256 → ℕ → Bool → List Transaction → SubmitOutcome
  side_branch : Hash256 → ℕ → SubmitOutcome
  already_known : SubmitOutcome
  orphan : Hash256 → SubmitOutcome

-- The cached dataset, if it is the epoch's.
unfoldable pub cached : Option (ℕ × Dataset) → ℕ → Option Dataset
cached none epoch = none
cached (some (cached_epoch, ds)) epoch = if cached_epoch == epoch then some ds else none

module _ {Tree : Type 0} (x : Externals Tree) where
  -- The seed of an epoch, from the canonical index.
  pub seed_of_epoch : ChainState Tree → ℕ → Result Hash256
  seed_of_epoch s epoch =
      if epoch == 0
      then ok (epoch_seed x.blake3 none)
      else Prelude.◌>>=◌ (get_hash_by_height x s (epoch * epoch_length)) λ entry.
        Prelude.◌>>=◌ (ok_or entry missing_boundary)
          λ boundary_hash. ok (epoch_seed x.blake3 (some boundary_hash))

  pub cache_dataset : ℕ → Dataset → Action Tree Dataset
  cache_dataset epoch ds c = (ok ds, record c { dataset_cache = some (epoch, ds) })

  unfoldable pub dataset_for_height : ℕ → Action Tree Dataset
  unfolding cache_dataset
  dataset_for_height height c =
      let epoch = epoch_of height in
      let make = (do
        seed ← reads (λ s. seed_of_epoch s epoch)
        ds ← reads (λ s. generate x.blake3 epoch seed)
        cache_dataset epoch ds) in
      elim (cached c.dataset_cache epoch) [ some ds ↦ (ok ds, c) | none ↦ make c ]

  -- `BlockHeader::id`
  unfoldable pub block_id : BlockHeader → Dataset → Hash256
  block_id h ds = ondris_hash x.blake3 (bytes_for_pow h) h.nonce ds

  -- `Block::compute_tx_root`
  unfoldable pub compute_tx_root : Block → Hash256
  compute_tx_root b = merkle_root x.blake3 (map (tx_hash x.blake3 x.tx_json) b.transactions)

  unfoldable pub all_signed : List Transaction → Bool
  all_signed [] = true
  all_signed (tx ∷ txs) = is_signature_valid x.ed25519 tx && all_signed txs

  -- `work_template` at the time `now`
  unfoldable pub work_template : ℕ → Address → List Transaction → Action Tree (Block × Dataset)
  work_template now miner pending_txs c =
      (do
        entry ← reads (tip x)
        (height, prev_hash) ← or_fail entry not_initialized
        let next_height = add_u64 height 1
        dataset ← dataset_for_height next_height
        difficulty ← reads (λ s. compute_next_difficulty x c.genesis s next_height)
        let tx_root = merkle_root x.blake3 (map (tx_hash x.blake3 x.tx_json) pending_txs)
        let header : BlockHeader = record {
          height = next_height;
          prev_hash = prev_hash;
          tx_root = tx_root;
          timestamp = now;
          difficulty = difficulty;
          miner = miner;
          nonce = 0;
        }
        pure (record { header = header; transactions = pending_txs }, dataset))
        c

  -- The branch of a block that has more work than the tip.
  unfoldable pub adopt : Hash256 → Hash256 → Block → Action Tree SubmitOutcome
  adopt tip_hash hash block = do
    requeue ← reconsider_tip x tip_hash hash block.header.height
    pure
        (accepted hash block.header.height (not (bytes_eq tip_hash block.header.prev_hash)) requeue)

  -- The fork choice, once the block is stored with its work.
  unfoldable pub choose_tip : Hash256 → Block → ℕ → Action Tree SubmitOutcome
  choose_tip hash block this_work = do
    entry ← reads (tip x)
    (_, tip_hash) ← or_fail entry not_initialized
    work ← reads (λ s. get_chainwork x s tip_hash)
    tip_work ← or_fail work missing_tip_work
    if ltb tip_work this_work
        then adopt tip_hash hash block
        else pure (side_branch hash block.header.height)

  -- From the parent on: its checks, and the first writes.
  unfoldable pub submit_child : Hash256 → Block → Block → Action Tree SubmitOutcome
  submit_child hash block parent c =
      (do
        require (add_u64 parent.header.height 1 == block.header.height) wrong_height
        expected ← reads (λ s. expected_difficulty_after x c.genesis s parent)
        require (block.header.difficulty == expected) wrong_difficulty
        work ← reads (λ s. get_chainwork x s block.header.prev_hash)
        parent_work ← or_fail work missing_chainwork
        let this_work = add_u128 parent_work (block_work block.header.difficulty)
        writes (λ s. store_block x s hash block)
        writes (λ s. set_chainwork x s hash this_work)
        choose_tip hash block this_work)
        c

  -- The checks of the block by itself, and the look for its parent.
  pub submit_new : Hash256 → Block → Action Tree SubmitOutcome
  submit_new hash block = do
    require (bytes_eq block.header.tx_root (compute_tx_root block)) bad_tx_root
    require (meets_target hash (target_for_difficulty block.header.difficulty)) bad_pow
    require (all_signed block.transactions) bad_signature
    entry ← reads (λ s. get_block x s block.header.prev_hash)
    elim entry [
      | none ↦ pure (orphan block.header.prev_hash)
      | some parent ↦ submit_child hash block parent
    ]

  pub submit_block : Block → Action Tree SubmitOutcome
  submit_block block = do
    require (ltb 0 block.header.height) second_genesis
    dataset ← dataset_for_height block.header.height
    let hash = block_id block.header dataset
    known ← reads (λ s. ok (has_block x s hash))
    if known then pure already_known else submit_new hash block
