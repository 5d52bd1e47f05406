-- ===== src/Chain/Ledger.antt =====
-- The simulation in `reconsider_tip` of chain.rs: accounts read through an overlay, the undoing of
-- a branch and the application of another.
pub mod Views
pub mod Rollback
pub mod Branches
pub mod Splits
pub mod Across
pub mod Keys
pub mod Nonces
pub mod Emission
pub mod Supply
pub mod Holders
use ondris.Prelude.{
  ℕ, ◌+◌, ◌-◌, ◌%◌, ◌^◌, Option, none, some, List, [], ◌∷◌, reverse, Bool, bytes_eq, leb, ◌==◌,
  if◌then◌else◌, Result, ok, err, Error, ◌>>=◌, ◌>>◌, ensure, bad_nonce, insufficient_balance,
}
use ondris.Primitives.{Hash256, Address, to_address}
use ondris.Block.{Block, Transaction}
use ondris.State.{Externals, ChainState, Account, get_account, saturating_add}
use ondris.Chain.{GenesisConfig, block_reward, add_u64}

-- `HashMap<Address, Account>`
abbrev pub Overlay : Type 0
Overlay = List (Address × Account)

unfoldable pub lookup : Overlay → Address → Option Account
lookup [] a = none
lookup ((k, v) ∷ o) a = if bytes_eq k a then some v else lookup o a

unfoldable pub insert : Address → Account → Overlay → Overlay
insert k v [] = (k, v) ∷ []
insert k v ((j, w) ∷ o) = if bytes_eq j k then (k, v) ∷ o else (j, w) ∷ insert k v o

-- `a - b` of u64, which wraps
abbrev pub sub_u64 : ℕ → ℕ → ℕ
sub_u64 a b = (a + 2 ^ 64 - b) % 2 ^ 64

module _ {Tree : Type 0} (x : Externals Tree) (g : GenesisConfig) (s : ChainState Tree) where
  -- the macro `get_acc!`
  unfoldable pub get_acc : Overlay → Address → Result Account
  get_acc o addr = elim (lookup o addr) [ some a ↦ ok a | none ↦ get_account x s addr ]

  unfoldable pub undo_tx : Overlay → Transaction → Result Overlay
  undo_tx o tx = do
    to_acc ← get_acc o tx.recipient
    let o₁ = insert tx.recipient (record to_acc { balance = to_acc.balance - tx.amount }) o
    let sender = to_address x.blake3 tx.sender
    sender_acc ← get_acc o₁ sender
    ok (
        insert sender
          (record {
            balance = saturating_add sender_acc.balance (add_u64 tx.amount tx.fee);
            nonce = sender_acc.nonce - 1;
          })
          o₁)

  unfoldable pub undo_txs : Overlay → List Transaction → Result Overlay
  undo_txs o [] = ok o
  undo_txs o (tx ∷ txs) = do o' ← undo_tx o tx; undo_txs o' txs

  -- the reward first, then the transactions from the last to the first
  unfoldable pub undo_block : Overlay → Block → Result Overlay
  undo_block o block = do
    miner_acc ← get_acc o block.header.miner
    let reward = block_reward g block.header.height
    let o₁ = insert block.header.miner (record miner_acc { balance = miner_acc.balance - reward }) o
    undo_txs o₁ (reverse block.transactions)

  unfoldable pub undo_all : Overlay → List (Hash256 × Block) → Result Overlay
  undo_all o [] = ok o
  undo_all o ((_, block) ∷ rest) = do o' ← undo_block o block; undo_all o' rest

  unfoldable pub apply_tx : Overlay → Transaction → Result Overlay
  apply_tx o tx = do
    let sender = to_address x.blake3 tx.sender
    sender_acc ← get_acc o sender
    ensure (tx.account_nonce == sender_acc.nonce) bad_nonce
    ensure (leb (saturating_add tx.amount tx.fee) sender_acc.balance) insufficient_balance
    let o₁ =
        insert sender
          (record {
            balance = sub_u64 sender_acc.balance (add_u64 tx.amount tx.fee);
            nonce = add_u64 sender_acc.nonce 1;
          })
          o
    to_acc ← get_acc o₁ tx.recipient
    ok (
        insert tx.recipient (record to_acc { balance = saturating_add to_acc.balance tx.amount })
          o₁)

  unfoldable pub apply_txs : Overlay → List Transaction → Result Overlay
  apply_txs o [] = ok o
  apply_txs o (tx ∷ txs) = do o' ← apply_tx o tx; apply_txs o' txs

  unfoldable pub apply_block : Overlay → Block → Result Overlay
  apply_block o block = do
    o' ← apply_txs o block.transactions
    miner_acc ← get_acc o' block.header.miner
    let reward = block_reward g block.header.height
    ok (
        insert block.header.miner
          (record miner_acc { balance = saturating_add miner_acc.balance reward }) o')

  unfoldable pub apply_all : Overlay → List (Hash256 × Block) → Result Overlay
  apply_all o [] = ok o
  apply_all o ((_, block) ∷ rest) = do o' ← apply_block o block; apply_all o' rest
