-- ===== src/Node.antt =====
-- crates/ondris-node/src/main.rs: what the node does with blocks and events of the network.
-- Its log is left out.
pub mod Requests
pub mod Cascade
pub mod Invariant
use ondris.Prelude.{
  ℕ, zero, suc, ◌+◌, ◌*◌, Bool, true, false, Option, none, some, List, [], ◌∷◌, ◌++◌, Bytes, length,
  bytes_eq, ◌==◌, if◌then◌else◌, Result, ok, err, Error, ok_or, ensure, ◌>>=◌, ◌>>◌, bad_signature,
  not_initialized, missing_block, already_known_block, unknown_parent,
}
use ondris.Primitives.{Hash256, Address, Hex, address_from_str}
use ondris.Block.{Block, Transaction, tx_hash, is_signature_valid}
use ondris.Difficulty.{target_for_difficulty}
use ondris.Pow.{Dataset, epoch_of, epoch_length}
use ondris.State.{
  Externals, ChainState, Account, get_account, get_block, get_block_by_height, get_hash_by_height,
  mempool_all, mempool_insert, mempool_remove, tip,
}
use ondris.Chain.{Chain, compute_next_difficulty, add_u64}
use ondris.Chain.Submit.{
  SubmitOutcome, accepted, side_branch, already_known, orphan, submit_block, work_template,
}
use ondris.Network.Messages.{
  Message, Network, NetworkEvent, SocketAddr, new_block, new_transaction, get_block as ask_block,
  block_response, broadcast, send_to, set_height, peer_count, peer_connected, peer_disconnected,
  block_came, transaction_came, block_requested, response_came,
}

-- `HashMap<Hash256, Vec<Block>>`
abbrev pub Orphans : Type 0
Orphans = List (Hash256 × List Block)

pub record AppState (Tree : Type 0) : Type 0 where
  pub chain : Chain Tree
  pub network : Network
  pub orphans : Orphans

-- `entry(h).or_default().push(b)`
pub buffer : Hash256 → Block → Orphans → Orphans
buffer h b [] = (h, b ∷ []) ∷ []
buffer h b ((k, bs) ∷ os) =
    let others = buffer h b os in
    if bytes_eq k h then (k, bs ++ (b ∷ [])) ∷ os else (k, bs) ∷ others

-- `remove(&h)`: what was there, and the rest.
pub take_waiting : Hash256 → Orphans → Option (List Block) × Orphans
take_waiting h [] = (none, [])
take_waiting h ((k, bs) ∷ os) =
    let others = take_waiting h os in
    if bytes_eq k h then (some bs, os) else (others.0, (k, bs) ∷ others.1)

-- All the blocks that wait.
unfoldable pub buffered : Orphans → ℕ
buffered [] = 0
buffered ((_, bs) ∷ os) = length bs + buffered os

module _ {Tree : Type 0} (x : Externals Tree) where
  abbrev pub on_state : (ChainState Tree → ChainState Tree) → AppState Tree → AppState Tree
  on_state f app = record app { chain = record app.chain { state = f app.chain.state } }

  abbrev pub on_network : (Network → Network) → AppState Tree → AppState Tree
  on_network f app = record app { network = f app.network }

  pub remove_mined : List Transaction → ChainState Tree → ChainState Tree
  remove_mined [] s = s
  remove_mined (t ∷ ts) s = remove_mined ts (mempool_remove x s (tx_hash x.blake3 x.tx_json t))

  pub insert_displaced : List Transaction → ChainState Tree → ChainState Tree
  insert_displaced [] s = s
  insert_displaced (t ∷ ts) s = insert_displaced ts (mempool_insert x s t)

  pub handle_outcome : Block → SubmitOutcome → AppState Tree → AppState Tree
  handle_outcome block (accepted hash height reorged requeue) app =
      on_state (λ s. insert_displaced requeue (remove_mined block.transactions s))
        (on_network (λ n. broadcast (new_block block) (set_height height n)) app)
  handle_outcome block (side_branch hash height) app = on_network (broadcast (new_block block)) app
  handle_outcome block already_known app = app
  handle_outcome block (orphan missing_parent) app =
      on_network (broadcast (ask_block missing_parent))
        (record app { orphans = buffer missing_parent block app.orphans })

  -- `chain.submit_block` on the node's chain.
  pub submit : Block → AppState Tree → Result SubmitOutcome × AppState Tree
  submit block app = let (r, c) = submit_block x block app.chain in (r, record app { chain = c })

  abbrev pub accepted_hash : SubmitOutcome → List Hash256
  accepted_hash (accepted hash height reorged requeue) = hash ∷ []
  accepted_hash (side_branch hash height) = []
  accepted_hash already_known = []
  accepted_hash (orphan missing_parent) = []

  -- The `for` loop over the children of one accepted block: the node after it, and the hashes that
  -- it pushes on the queue. A child that is refused is dropped.
  pub submit_children : List Block → AppState Tree → AppState Tree × List Hash256
  submit_children [] app = (app, [])
  submit_children (child ∷ children) app =
      let (r, app₁) = submit child app in
      elim r [
        | err e ↦ submit_children children app₁
        | ok outcome ↦
            let (app₂, hashes) = submit_children children (handle_outcome child outcome app₁) in
            (app₂, accepted_hash outcome ++ hashes)
      ]

  -- The `while` loop over the queue; `none` stands for a loop that is not over.
  pub cascade : ℕ → List Hash256 → AppState Tree → Option (AppState Tree)
  cascade zero queue app = none
  cascade (suc fuel) [] app = some app
  cascade (suc fuel) (h ∷ queue) app =
      let (waiting, rest) = take_waiting h app.orphans in
      elim waiting [
        | none ↦ cascade fuel queue app
        | some children ↦
            let (app', hashes) = submit_children children (record app { orphans = rest }) in
            cascade fuel (queue ++ hashes) app'
      ]

  -- Each round of the loop takes a hash off the queue, and each hash that it adds is that of a
  -- block that is buffered no more; so one round more than the buffered blocks is enough.
  pub unlock : SubmitOutcome → AppState Tree → AppState Tree
  unlock (accepted hash height reorged requeue) app =
      elim (cascade (buffered app.orphans + 2) (hash ∷ []) app) [ none ↦ app | some app' ↦ app' ]
  unlock (side_branch hash height) app = app
  unlock already_known app = app
  unlock (orphan missing_parent) app = app

  pub accept_and_broadcast : Block → AppState Tree → Result SubmitOutcome × AppState Tree
  accept_and_broadcast block app =
      let (r, app₁) = submit block app in
      elim r [
        | err e ↦ (err e, app₁)
        | ok outcome ↦ (ok outcome, unlock outcome (handle_outcome block outcome app₁))
      ]

  -- The loop over the network's events.
  pub handle_event : NetworkEvent → AppState Tree → AppState Tree
  handle_event (block_came block) app = (accept_and_broadcast block app).1
  handle_event (transaction_came t) app =
      if is_signature_valid x.ed25519 t
      then on_network (broadcast (new_transaction t)) (on_state (λ s. mempool_insert x s t) app)
      else app
  handle_event (block_requested peer hash) app =
      let found : Option Block = elim (get_block x app.chain.state hash) [
        | ok b ↦ b
        | err e ↦ none
      ] in
      on_network (send_to peer (block_response found)) app
  handle_event (response_came none) app = app
  handle_event (response_came (some block)) app = (accept_and_broadcast block app).1
  handle_event (peer_connected peer) app = app
  handle_event (peer_disconnected peer) app = app

  abbrev broadcast_all : List Transaction → Network → Network
  broadcast_all [] n = n
  broadcast_all (t ∷ ts) n = broadcast_all ts (broadcast (new_transaction t) n)

  -- One tick of the rebroadcast of the mempool.
  pub rebroadcast : AppState Tree → AppState Tree
  rebroadcast app = elim (mempool_all x app.chain.state) [
    | ok pending ↦ on_network (broadcast_all pending) app
    | err e ↦ app
  ]
