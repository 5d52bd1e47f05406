-- ===== src/Tests/Ledger.antt =====
-- The theorems on the ledger of a chain at concrete inputs.
use ondris.Prelude.{
  ℕ, none, ◌+◌, ◌<◌, ◌≡◌, refl, sym, ◌∙◌, subst, inl, inr, bytes_eq, [], ◌∷◌, List, ok, arith,
}
use ondris.Primitives.{Address, to_address}
use ondris.State.{
  ChainState, Account, default_account, max_u64, get_account, get_hash_by_height, store_block,
  set_chainwork, set_canonical_height,
}
use ondris.State.Frames.{
  accounts-set_tip, accounts-set_canonical_height, get_account_of_accounts, store_block-SameLedger,
  set_chainwork-SameLedger,
}
use ondris.Chain.{genesis_block, block_reward}
use ondris.Chain.Ledger.{get_acc, lookup}
use ondris.Chain.Ledger.Nonces.{Counts, branch_nonces, apply_all-Counts}
use ondris.Chain.Ledger.Supply.{IsDistinct, Covers, supply, rewards, branch_fees, supply-apply_all}
use ondris.Chain.Reorg.Replay.{HasRoom}
use ondris.Chain.Submit.{submit_block}
use ondris.Chain.Submit.Replay.{IsLedger, submit_block-IsLedger}
use ondris.Tests.Trees.{Writes}
use ondris.Tests.World.{crates, crates-ExternalsLaws, empty_state, genesis_config, bob}
use ondris.Tests.Branches.{alice_address, paying_branch, paid_overlay, pays, nothing_yet}
use ondris.Chain.Genesis.Ledger.{open_chain-IsLedger}
use ondris.Tests.Crates.{hex}
use ondris.Tests.Chains.{
  opened, opens, no_tip, no_block, genesis_hash, genesis_state, genesis-facts, start, first_block,
}

no_account : get_acc crates genesis_config empty_state [] alice_address ≡ ok default_account
unfolding get_acc lookup get_account
no_account = refl

apply_all-Counts_example :
    Counts crates genesis_config empty_state alice_address
      (branch_nonces crates genesis_config empty_state alice_address paying_branch)
      0
      paid_overlay
apply_all-Counts_example =
    apply_all-Counts crates genesis_config empty_state [] paid_overlay paying_branch alice_address
      default_account pays no_account (omega arith)

abbrev pub both : List Address
both = alice_address ∷ bob ∷ []

pub distinct : IsDistinct both
unfolding bytes_eq
distinct = ((refl, tt), (tt, tt))

covered : Covers crates genesis_config empty_state both paying_branch
unfolding bytes_eq to_address
covered = ((tt, inl refl), ((((inl refl, inr (refl, inl refl)), tt), inr (refl, inl refl)), tt))

small :
    supply crates genesis_config empty_state both [] + rewards genesis_config paying_branch
    < max_u64
unfolding get_acc lookup get_account block_reward
small = omega arith

supply-apply_all_example :
    supply crates genesis_config empty_state both paid_overlay + branch_fees paying_branch
    ≡ supply crates genesis_config empty_state both [] + rewards genesis_config paying_branch
supply-apply_all_example =
    supply-apply_all crates genesis_config empty_state [] paid_overlay paying_branch both distinct
      covered pays small

-- The state at genesis before its index and its tip are written.
abbrev with_genesis : ChainState Writes
with_genesis =
    store_block crates (set_chainwork crates empty_state genesis_hash 1) genesis_hash
      (genesis_block genesis_config)

pub no_index : (n : ℕ) → get_hash_by_height crates empty_state n ≡ ok none
unfolding get_hash_by_height
no_index n = refl

pub genesis-IsLedger :
    (l : IsLedger crates crates-ExternalsLaws genesis_config genesis_state genesis_hash
      genesis_state)
    × (l.branch ≡ [])
genesis-IsLedger =
    open_chain-IsLedger crates crates-ExternalsLaws genesis_config empty_state hex opened no_tip
      no_block no_index opens

-- The accounts at genesis are those of the empty database.
pub genesis-accounts :
    (a : Address)
    → get_acc crates genesis_config genesis_state [] a
      ≡ get_acc crates genesis_config empty_state [] a
unfolding get_acc lookup
genesis-accounts a =
    let indexed = set_canonical_height crates with_genesis 0 genesis_hash in
    let worked = set_chainwork crates empty_state genesis_hash 1 in
    let same =
      accounts-set_tip crates indexed 0 genesis_hash
      ∙ accounts-set_canonical_height crates with_genesis 0 genesis_hash
      ∙ (store_block-SameLedger crates worked genesis_hash (genesis_block genesis_config)).accounts
      ∙ (set_chainwork-SameLedger crates empty_state genesis_hash 1).accounts in
    get_account_of_accounts crates genesis_state empty_state same a

-- No account is credited at genesis.
untouched :
    (a : Address) (acc : Account)
    → get_acc crates genesis_config genesis_state [] a ≡ ok acc
    → default_account ≡ acc
untouched a acc e = nothing_yet a acc (sym (genesis-accounts a) ∙ e)

pub genesis-HasRoom : HasRoom crates genesis_config genesis_state genesis_hash []
genesis-HasRoom = record {
  balance =
      λ a acc e. subst (λ (v : Account). v.balance + 0 < max_u64) (untouched a acc e) (omega arith);
  nonce =
      λ a acc e. subst (λ (v : Account). v.nonce + 0 < max_u64) (untouched a acc e) (omega arith);
}

submit_block-IsLedger_example :
    IsLedger crates crates-ExternalsLaws genesis_config genesis_state genesis_hash
      (submit_block crates first_block start).1.state
submit_block-IsLedger_example =
    submit_block-IsLedger crates crates-ExternalsLaws genesis_config genesis_state genesis_hash
      start first_block genesis-facts.0 refl genesis-IsLedger.0
      (subst (HasRoom crates genesis_config genesis_state genesis_hash) (sym genesis-IsLedger.1)
        genesis-HasRoom)
