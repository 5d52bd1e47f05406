-- ===== src/Tests/Node.antt =====
-- The theorems on the node at concrete inputs.
use ondris.Prelude.{◌≡◌, some, [], ◌∷◌, arith}
use ondris.Chain.Submit.Invariant.{Inv}
use ondris.Network.Messages.{block_came}
use ondris.Node.{AppState, buffered, cascade, handle_event}
use ondris.Node.Cascade.{cascade_total}
use ondris.Node.Invariant.{handle_event-Inv}
use ondris.Tests.Trees.{Writes}
use ondris.Tests.World.{crates, crates-ExternalsLaws, bob}
use ondris.Tests.Chains.{genesis_hash, genesis-facts, start, first_block}

-- A node at genesis with one peer, and a block that waits for a parent.
abbrev pub node : AppState Writes
node = record {
  chain = start;
  network = record { peers = (1, []) ∷ []; events = []; network_name = []; my_height = 0 };
  orphans = (bob, first_block ∷ []) ∷ [];
}

buffered_one : buffered node.orphans ≡ 1
unfolding buffered
buffered_one = omega arith

cascade_total_example : (after : AppState Writes) × (cascade crates 3 (bob ∷ []) node ≡ some after)
cascade_total_example = cascade_total crates 3 (bob ∷ []) node (omega (arith, buffered_one))

handle_event-Inv_example :
    Inv crates genesis_hash (handle_event crates (block_came first_block) node).chain.state
handle_event-Inv_example =
    handle_event-Inv crates crates-ExternalsLaws genesis_hash (block_came first_block) node
      genesis-facts.0
