-- ===== src/Tests/Branches.antt =====
-- The theorems on forks and on the ledger at concrete inputs.
use ondris.Prelude.{
  ◌+◌, ◌<◌, ◌≡◌, refl, sym, ◌∙◌, ap, subst, bytes_eq_sound, ◌⊎◌, inl, inr, Bool-cases, bytes_eq,
  some, [], ◌∷◌, reverse, replicate, ok, ok-injective, arith,
}
use ondris.Primitives.{Hash256, Address, to_address}
use ondris.Block.{Block}
use ondris.State.{
  ChainState, Account, default_account, max_u64, get_account, get_block, store_block,
}
use ondris.State.Reads.{get_block-store_block}
use ondris.Chain.{genesis_block, block_reward}
use ondris.Chain.Fork.{BlockChain, fork_paths, fetch, climb, meet}
use ondris.Chain.Fork.Paths.{Meets, fork_paths-Meets}
use ondris.Chain.Fork.Total.{HasParent, IsLinked, fork_paths_total}
use ondris.Chain.Ledger.{
  Overlay, lookup, insert, get_acc, apply_tx, apply_txs, apply_block, apply_all, undo_all,
}
use ondris.Chain.Ledger.Views.{SameView}
use ondris.Chain.Ledger.Rollback.{Headroom}
use ondris.Chain.Ledger.Branches.{credits, transfers, undo_all-apply_all}
use ondris.Chain.Submit.Invariant.{found_or}
use ondris.Tests.Trees.{Writes}
use ondris.Tests.World.{
  crates, crates-ExternalsLaws, empty_state, genesis_config, first_header, empty_block, transfer,
  bob,
}

abbrev root_hash : Hash256
root_hash = replicate 32 9

abbrev left_hash : Hash256
left_hash = replicate 32 1

abbrev right_hash : Hash256
right_hash = replicate 32 2

-- Two blocks on genesis, with the same content.
abbrev child : Block
child = empty_block (first_header root_hash)

abbrev rooted : ChainState Writes
rooted = store_block crates empty_state root_hash (genesis_block genesis_config)

abbrev forked : ChainState Writes
forked = store_block crates (store_block crates rooted left_hash child) right_hash child

genesis_found : get_block crates forked root_hash ≡ ok (some (genesis_block genesis_config))
unfolding get_block store_block bytes_eq genesis_block
genesis_found = refl

left_found : get_block crates forked left_hash ≡ ok (some child)
unfolding get_block store_block bytes_eq
left_found = refl

right_found : get_block crates forked right_hash ≡ ok (some child)
unfolding get_block store_block bytes_eq
right_found = refl

new_or_old :
    (s : ChainState Writes) (k h : Hash256) (d b : Block)
    → get_block crates (store_block crates s k d) h ≡ ok (some b)
    → ((k ≡ h) × (d ≡ b)) ⊎ (get_block crates s h ≡ ok (some b))
new_or_old s k h d b q = elim (Bool-cases (bytes_eq k h)) [
  | inl same ↦
      let now : get_block crates (store_block crates s k d) h ≡ ok (some d) =
        get_block-store_block crates crates-ExternalsLaws s k d h ∙ rw same in
      inl (bytes_eq_sound k h same, ap (found_or b) (sym now ∙ q))
  | inr differ ↦
      let now : get_block crates (store_block crates s k d) h ≡ get_block crates s h =
        get_block-store_block crates crates-ExternalsLaws s k d h ∙ rw differ in
      inr (sym now ∙ q)
]

child-HasParent : (h : Hash256) (b : Block) → child ≡ b → HasParent crates forked root_hash h b
unfolding genesis_block
child-HasParent h b e =
    subst (HasParent crates forked root_hash h) e
      (inr (genesis_block genesis_config, genesis_found, refl))

nothing : (k : Hash256) (d : Block) → get_block crates empty_state k ≡ ok (some d) → ⊥
unfolding get_block
nothing k d e = cc e

at_root :
    (k : Hash256) (d : Block)
    → (root_hash ≡ k) × (genesis_block genesis_config ≡ d)
    → HasParent crates forked root_hash k d
unfolding genesis_block
at_root k d new = inl (sym new.0, ap (λ (e : Block). e.header.height) (sym new.1))

forked-IsLinked : IsLinked crates forked root_hash
forked-IsLinked h b q =
    elim (new_or_old (store_block crates rooted left_hash child) right_hash h child b q) [
      | inl new ↦ child-HasParent h b new.1
      | inr q₁ ↦ elim (new_or_old rooted left_hash h child b q₁) [
        | inl new ↦ child-HasParent h b new.1
        | inr q₂ ↦ elim (new_or_old empty_state root_hash h (genesis_block genesis_config) b q₂) [
          | inl new ↦ at_root h b new
          | inr q₃ ↦ absurd (nothing h b q₃)
        ]
      ]
    ]

fork_paths_total_example :
    (undo : BlockChain) × (apply : BlockChain) × (fork_paths crates forked left_hash right_hash
      ≡ ok (undo, apply))
fork_paths_total_example =
    fork_paths_total crates forked root_hash forked-IsLinked left_hash right_hash child child
      left_found right_found

forked_paths :
    fork_paths crates forked left_hash right_hash
    ≡ ok ((left_hash, child) ∷ [], (right_hash, child) ∷ [])
unfolding fork_paths fetch climb meet get_block store_block bytes_eq genesis_block
forked_paths = refl

fork_paths-Meets_example :
    Meets crates forked left_hash right_hash
      ((left_hash, child) ∷ [], reverse ((right_hash, child) ∷ []))
fork_paths-Meets_example =
    fork_paths-Meets crates forked left_hash right_hash ((left_hash, child) ∷ [])
      ((right_hash, child) ∷ []) forked_paths

-- Alice's address, which is paid for the first block and pays in the second.
abbrev pub alice_address : Address
alice_address = replicate 20 0

abbrev pub paying_branch : BlockChain
paying_branch =
    (left_hash, empty_block (record (first_header root_hash) { miner = alice_address }))
    ∷ (
      right_hash,
      record {
        header = record (first_header left_hash) { height = 2 };
        transactions = transfer ∷ [];
      },
    )
    ∷ []

abbrev pub paid_overlay : Overlay
paid_overlay =
    (alice_address, record { balance = 44; nonce = 1 })
    ∷ (bob, record { balance = 55; nonce = 0 })
    ∷ []

pub pays : apply_all crates genesis_config empty_state [] paying_branch ≡ ok paid_overlay
unfolding apply_all apply_block apply_txs apply_tx get_acc lookup insert get_account bytes_eq
    block_reward to_address
pays = refl

pub nothing_yet :
    (a : Address) (acc : Account)
    → get_acc crates genesis_config empty_state [] a ≡ ok acc
    → default_account ≡ acc
unfolding get_acc lookup get_account
nothing_yet a acc e = ok-injective e

room :
    Headroom crates genesis_config empty_state []
      (credits genesis_config paying_branch)
      (transfers paying_branch)
unfolding block_reward
room = record {
  balance = λ a acc e.
      subst (λ (v : Account). v.balance + 105 < max_u64) (nothing_yet a acc e) (omega arith);
  nonce =
      λ a acc e. subst (λ (v : Account). v.nonce + 1 < max_u64) (nothing_yet a acc e) (omega arith);
}

undo_all-apply_all_example :
    (q : Overlay) × (undo_all crates genesis_config empty_state paid_overlay (reverse paying_branch)
      ≡ ok q)
    × SameView crates genesis_config empty_state q []
undo_all-apply_all_example =
    undo_all-apply_all crates genesis_config empty_state [] paid_overlay paying_branch pays room
