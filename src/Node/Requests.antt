-- ===== src/Node/Requests.antt =====
-- The request handlers of crates/ondris-node/src/main.rs, and their responses of rpc_types.rs. A
-- handler's error is its response.
use ondris.Prelude.{
  ℕ, ◌*◌, Option, none, List, Bytes, ◌==◌, if◌then◌else◌, Result, ok, err, ok_or, ◌>>=◌,
  bad_signature, not_initialized, missing_block, already_known_block, unknown_parent,
}
use ondris.Primitives.{Hash256, Address, Hex, address_from_str}
use ondris.Block.{Block, Transaction, tx_hash, is_signature_valid}
use ondris.Difficulty.{target_for_difficulty}
use ondris.Pow.{epoch_of, epoch_length}
use ondris.State.{
  Externals, ChainState, get_account, get_block_by_height, get_hash_by_height, mempool_all,
  mempool_insert, tip,
}
use ondris.Chain.{compute_next_difficulty, add_u64}
use ondris.Chain.Submit.{SubmitOutcome, accepted, side_branch, already_known, orphan, work_template}
use ondris.Network.Messages.{new_transaction, broadcast, peer_count}
use ondris.Node.{AppState, accept_and_broadcast, on_state, on_network}

-- rpc_types.rs
pub record ChainInfo : Type 0 where
  pub network : Bytes
  pub height : ℕ
  pub tip_hash : Hash256
  pub next_difficulty : ℕ
  pub peer_count : ℕ

pub record AccountInfo : Type 0 where
  pub address : Address
  pub balance : ℕ
  pub nonce : ℕ

pub record WorkTemplate : Type 0 where
  pub block : Block
  pub target : Bytes
  pub epoch : ℕ
  pub epoch_boundary_hash : Option Hash256

pub record SubmitBlockResponse : Type 0 where
  pub block_hash : Hash256
  pub height : ℕ

module _ {Tree : Type 0} (x : Externals Tree) where
  pub chain_info : AppState Tree → Result ChainInfo
  chain_info app = do
    entry ← tip x app.chain.state
    (height, tip_hash) ← ok_or entry not_initialized
    next_difficulty ← compute_next_difficulty x app.chain.genesis app.chain.state (add_u64 height 1)
    ok (record {
      network = app.chain.genesis.network_name;
      height = height;
      tip_hash = tip_hash;
      next_difficulty = next_difficulty;
      peer_count = peer_count app.network;
    })

  unfoldable pub account_info : Hex → Bytes → AppState Tree → Result AccountInfo
  account_info h address app = do
    addr ← address_from_str h address
    account ← get_account x app.chain.state addr
    ok (record { address = addr; balance = account.balance; nonce = account.nonce })

  pub block_at_height : ℕ → AppState Tree → Result Block
  block_at_height height app = do
    entry ← get_block_by_height x app.chain.state height
    ok_or entry missing_block

  pub boundary_hash : ℕ → ChainState Tree → Result (Option Hash256)
  boundary_hash epoch s =
      if epoch == 0 then ok none else get_hash_by_height x s (epoch * epoch_length)

  -- `get_work` at the time `now`
  pub get_work : Hex → ℕ → Bytes → AppState Tree → Result WorkTemplate × AppState Tree
  get_work h now miner app =
      let s = app.chain.state in
      let asked : Result (Address × List Transaction) = (do
        address ← address_from_str h miner
        pending ← mempool_all x s
        ok (address, pending)) in
      elim asked [
        | err e ↦ (err e, app)
        | ok (address, pending) ↦
            let (r, c) = work_template x now address pending app.chain in
            let app' : AppState Tree = record app { chain = c } in
            (
              (do
                (block, _) ← r
                let epoch = epoch_of block.header.height
                boundary ← boundary_hash epoch c.state
                ok (record {
                  block = block;
                  target = target_for_difficulty block.header.difficulty;
                  epoch = epoch;
                  epoch_boundary_hash = boundary;
                })),
              app',
            )
      ]

  pub block_response_of : SubmitOutcome → Result SubmitBlockResponse
  block_response_of (accepted hash height reorged requeue) =
      ok (record { block_hash = hash; height = height })
  block_response_of (side_branch hash height) = ok (record { block_hash = hash; height = height })
  block_response_of already_known = err already_known_block
  block_response_of (orphan missing_parent) = err unknown_parent

  pub post_block : Block → AppState Tree → Result SubmitBlockResponse × AppState Tree
  post_block block app =
      let (r, app') = accept_and_broadcast x block app in (r >>= block_response_of, app')

  unfoldable pub post_tx : Transaction → AppState Tree → Result Hash256 × AppState Tree
  post_tx t app =
      if is_signature_valid x.ed25519 t
      then (
        ok (tx_hash x.blake3 x.tx_json t),
        on_network x (broadcast (new_transaction t)) (on_state x (λ s. mempool_insert x s t) app),
      )
      else (err bad_signature, app)
