-- ===== src/Tests/Acceptance.antt =====
-- The theorems on templates and their difficulty at concrete inputs.
use ondris.Prelude.{ℕ, ◌≡◌, refl, ◌∙◌, ap, ◌⊎◌, some, false, [], ok, suc, arith}
use ondris.State.{default_account, tip, get_account, get_chainwork}
use ondris.Chain.{Chain, compute_next_difficulty, expected_difficulty_after, add_u64, block_reward}
use ondris.Chain.Ledger.{Overlay, get_acc, lookup, insert, apply_txs, apply_block}
use ondris.Chain.Submit.{all_signed, accepted, already_known, block_id, submit_block}
use ondris.Chain.Submit.Difficulty.{compute_next_difficulty-expected_difficulty_after}
use ondris.Miner.Acceptance.{mine_block-accepted}
use ondris.Miner.Search.Progress.{run-Reachable}
use ondris.Miner.Search.Soundness.{started}
use ondris.Tests.Trees.{Writes}
use ondris.Tests.World.{
  crates, crates-ExternalsLaws, empty_state, genesis_config, bob, small_dataset,
}
use ondris.Tests.Chains.{genesis_hash, genesis_state, genesis-facts, start, first_block}
use ondris.Tests.Ledger.{genesis-accounts, genesis-IsLedger}
use ondris.Tests.Miner.{
  first_template, genesis-height, turns_of, last_state, first_found, first_found_block,
}

compute_next_difficulty-expected_difficulty_after_example :
    (n : ℕ) × (compute_next_difficulty crates genesis_config genesis_state
        (add_u64 genesis-facts.0.tip_height 1)
      ≡ ok n)
    × (expected_difficulty_after crates genesis_config genesis_state genesis-facts.0.tip_block
        ≡ ok n)
compute_next_difficulty-expected_difficulty_after_example =
    compute_next_difficulty-expected_difficulty_after crates crates-ExternalsLaws genesis_config
      genesis_state genesis_state genesis_hash genesis-facts.0 genesis-IsLedger.0
      (omega (arith, genesis-height))

-- The miner of an empty block is paid the first reward.
abbrev first_overlay : Overlay
first_overlay = insert bob (record default_account { balance = block_reward genesis_config 1 }) []

bob_new : get_acc crates genesis_config empty_state [] bob ≡ ok default_account
unfolding get_acc lookup get_account
bob_new = refl

first_applies : apply_block crates genesis_config genesis_state [] first_block ≡ ok first_overlay
unfolding apply_block apply_txs block_reward
first_applies = rw (genesis-accounts bob) (rw bob_new refl)

genesis-work : get_chainwork crates genesis_state genesis-facts.0.tip_hash ≡ ok (some 1)
genesis-work =
    let at_genesis : genesis-facts.0.tip_hash ≡ genesis_hash =
      cc (genesis-facts.0.is_tip, genesis-facts.1) in
    ap (get_chainwork crates genesis_state) at_genesis ∙ genesis-facts.2

mine_block-accepted_example :
    (submit_block crates first_found_block start ≡ (ok already_known, start))
    ⊎ ((c' : Chain Writes) × (submit_block crates first_found_block start ≡ (
      ok (
          accepted
            (block_id crates first_found_block.header small_dataset)
            (suc genesis-facts.0.tip_height)
            false
            []),
      c',
    ))
        × (tip crates c'.state
            ≡ ok (
                some (
                  suc genesis-facts.0.tip_height,
                  block_id crates first_found_block.header small_dataset,
                ))))
unfolding all_signed
mine_block-accepted_example =
    mine_block-accepted crates crates-ExternalsLaws genesis_state genesis_hash start genesis-facts.0
      genesis-IsLedger.0 bob [] 30 first_block small_dataset start 2 last_state first_found_block
      first_overlay 1 first_template (omega (arith, genesis-height)) refl first_applies genesis-work
      (omega arith) (omega arith) (run-Reachable turns_of started) first_found.1
