-- ===== src/Tests/History.antt =====
-- The theorems on sequences of submissions at concrete inputs.
use ondris.Prelude.{ℕ, ◌+◌, ◌*◌, ◌≤◌, max, ◌≡◌, refl, sym, subst, [], ◌∷◌, ok, arith}
use ondris.Primitives.{Address}
use ondris.Block.{Block}
use ondris.State.{default_account, get_account}
use ondris.Chain.Fork.{BlockChain}
use ondris.Chain.History.{submit_all, HasRooms, open_chain-submit_all, open_chain-supply}
use ondris.Chain.Genesis.Premine.{premined}
use ondris.Chain.Ledger.Emission.{rewards_bound}
use ondris.Chain.Ledger.Supply.{supply, rewards}
use ondris.Chain.Reorg.Index.{IsStair}
use ondris.Chain.Reorg.Replay.{HasRoom}
use ondris.Chain.Submit.Invariant.{Inv}
use ondris.Chain.Submit.Replay.{IsLedger}
use ondris.Tests.Crates.{hex}
use ondris.Tests.World.{
  crates, crates-ExternalsLaws, empty_state, genesis_config, empty_block, first_header,
}
use ondris.Tests.Chains.{
  opened, opens, no_tip, no_block, genesis_hash, genesis_state, genesis-facts, first_block,
}
use ondris.Tests.Ledger.{no_index, genesis-HasRoom, both, distinct}

stair_empty : (n : ℕ) (branch : BlockChain) → n ≡ 0 → IsStair n branch → branch ≡ []
stair_empty n [] e stair = refl
stair_empty n (p ∷ branch) e (at, positive, stair) = absurd (omega (arith, e, positive))

-- At genesis the branch is empty.
genesis-HasRooms :
    HasRooms crates crates-ExternalsLaws genesis_config genesis_state genesis_hash opened
      (first_block ∷ [])
genesis-HasRooms = (
  λ l.
      let low : l.height ≡ 0 = cc (l.is_tip, genesis-facts.1) in
      subst (HasRoom crates genesis_config genesis_state genesis_hash)
        (sym (stair_empty l.height l.branch low l.indexed.stair)) genesis-HasRoom,
  tt,
)

open_chain-submit_all_example :
    Inv crates genesis_hash (submit_all crates opened (first_block ∷ [])).state
    × IsLedger crates crates-ExternalsLaws genesis_config genesis_state genesis_hash
        (submit_all crates opened (first_block ∷ [])).state
open_chain-submit_all_example =
    open_chain-submit_all crates crates-ExternalsLaws hex genesis_config empty_state opened
      (omega arith) no_tip no_block no_index opens (first_block ∷ []) genesis-HasRooms

no_accounts : (a : Address) → get_account crates empty_state a ≡ ok default_account
unfolding get_account
no_accounts a = refl

open_chain-supply_example :
    supply crates genesis_config (submit_all crates opened (first_block ∷ [])).state both []
    ≤ premined [] + 2 * (50 * max 210000 1)
open_chain-supply_example =
    open_chain-supply crates crates-ExternalsLaws hex genesis_config empty_state opened
      (omega arith) no_tip no_block no_index opens (first_block ∷ []) both genesis-HasRooms
      no_accounts (omega arith) distinct

-- A branch of two blocks.
abbrev second_block : Block
second_block = empty_block (record (first_header genesis_hash) { height = 2 })

rewards_bound_example :
    rewards genesis_config ((genesis_hash, second_block) ∷ (genesis_hash, first_block) ∷ [])
    ≤ 2 * (50 * max 210000 1)
rewards_bound_example =
    rewards_bound genesis_config ((genesis_hash, second_block) ∷ (genesis_hash, first_block) ∷ []) 2
      (refl, omega arith, (refl, omega arith, refl))
