-- ===== src/Tests/Chains.antt =====
-- The theorems on the chain at concrete inputs.
use ondris.Prelude.{◌≡◌, refl, none, some, [], ◌∷◌, ok, arith}
use ondris.Primitives.{Hash256}
use ondris.Block.{Block}
use ondris.State.{
  ChainState, tip, get_block, get_chainwork, set_chainwork, store_block, set_canonical_height,
  set_tip,
}
use ondris.Chain.{
  Chain, genesis_block, genesis_block_hash, open_chain, init_genesis, premine_parsed, parse_entries,
  credit_all,
}
use ondris.Chain.Genesis.{open_chain-Inv}
use ondris.Chain.Submit.{submit_block}
use ondris.Chain.Submit.Outcome.{TipIs}
use ondris.Chain.Submit.Invariant.{Inv, submit_block-Inv}
use ondris.Chain.Submit.Work.{MovesUp, submit_block_work}
use ondris.Tests.Crates.{blake3, hex}
use ondris.Tests.Trees.{Writes}
use ondris.Tests.World.{
  crates, crates-ExternalsLaws, empty_state, genesis_config, chain_of, first_header, empty_block,
  transfer,
}

abbrev pub genesis_hash : Hash256
genesis_hash = genesis_block_hash blake3 genesis_config

abbrev pub genesis_state : ChainState Writes
genesis_state =
    set_tip crates
      (set_canonical_height crates
        (store_block crates (set_chainwork crates empty_state genesis_hash 1) genesis_hash
          (genesis_block genesis_config))
        0 genesis_hash)
      0 genesis_hash

abbrev pub opened : Chain Writes
opened = record { state = genesis_state; genesis = genesis_config; dataset_cache = none }

pub no_tip : tip crates empty_state ≡ ok none
unfolding tip
no_tip = refl

pub no_block : (k : Hash256) → get_block crates empty_state k ≡ ok none
unfolding get_block
no_block k = refl

pub opens : open_chain crates hex genesis_config empty_state ≡ ok opened
unfolding open_chain init_genesis premine_parsed parse_entries credit_all tip
opens = refl

pub genesis-facts :
    Inv crates genesis_hash genesis_state
    × (tip crates genesis_state ≡ ok (some (0, genesis_hash)))
    × (get_chainwork crates genesis_state genesis_hash ≡ ok (some 1))
genesis-facts =
    open_chain-Inv crates crates-ExternalsLaws hex genesis_config empty_state opened (omega arith)
      no_tip no_block opens

-- The chain at genesis, and an empty block on it.
abbrev pub start : Chain Writes
start = chain_of genesis_state

abbrev pub first_block : Block
first_block = empty_block (first_header genesis_hash)

submit_block-Inv_example : Inv crates genesis_hash (submit_block crates first_block start).1.state
submit_block-Inv_example =
    submit_block-Inv crates genesis_hash crates-ExternalsLaws start first_block genesis-facts.0

genesis-TipIs : TipIs crates start genesis_hash 1
genesis-TipIs = record { height = 0; is_tip = genesis-facts.1; work = genesis-facts.2 }

submit_block_work_example : MovesUp crates (submit_block crates first_block start).1 genesis_hash 1
submit_block_work_example =
    submit_block_work crates crates-ExternalsLaws genesis_hash start first_block genesis_hash 1
      genesis-facts.0 genesis-TipIs

-- The same header over other transactions.
abbrev pub mutated_block : Block
mutated_block = record first_block { transactions = transfer ∷ [] }
