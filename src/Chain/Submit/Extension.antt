-- ===== src/Chain/Submit/Extension.antt =====
-- A block that stands on the tip, in `submit_block` of chain.rs.
use ondris.Prelude.{
  suc, ◌+◌, ◌<◌, ◌≡◌, refl, sym, ◌∙◌, ap, some, [], ◌∷◌, true, false, bytes_eq, bytes_eq_refl, ltb,
  Error, lt→ltb, Error, ◌==◌, ok, arith, missing_block, missing_ancestor,
}
use ondris.Primitives.{Hash256, Address}
use ondris.Block.{Block}
use ondris.State.{Externals, ChainState, get_block, get_chainwork, tip}
use ondris.State.Reads.{ExternalsLaws}
use ondris.State.Frames.{get_account-same, set_chainwork-SameLedger, store_block-SameLedger}
use ondris.Chain.{Chain, add_u64}
use ondris.Chain.Ledger.{Overlay, get_acc, lookup, undo_all, apply_block, apply_all}
use ondris.Chain.Ledger.Across.{apply_all-Follows}
use ondris.Chain.Fork.{fork_paths, fetch, climb}
use ondris.Chain.Fork.Paths.{climb_stop, climb_go, meet_stop}
use ondris.Chain.Reorg.{simulate, commit, reconsider_tip, requeue}
use ondris.Chain.Reorg.Commit.{tip-commit}
use ondris.Chain.Submit.{accepted, submit_child, choose_tip, adopt}
use ondris.Chain.Submit.Outcome.{Checked, with_block, work_of}
use ondris.Chain.Submit.Invariant.{Inv, still_stored, still_worked, block_stored, tip-after}

module _ {Tree : Type 0} (x : Externals Tree) where
  fetch_stored :
      (s : ChainState Tree) (e : Error) (h : Hash256) (b : Block)
      → get_block x s h ≡ ok (some b)
      → fetch x s e h ≡ ok b
  unfolding fetch
  fetch_stored s e h b q = rw q

  -- The fork between a block and its parent.
  fork_paths-child :
      (s : ChainState Tree) (hash : Hash256) (parent b : Block)
      → get_block x s b.header.prev_hash ≡ ok (some parent)
      → get_block x s hash ≡ ok (some b)
      → parent.header.height + 1 ≡ b.header.height
      → fork_paths x s b.header.prev_hash hash ≡ ok ([], (hash, b) ∷ [])
  unfolding fork_paths
  fork_paths-child s hash parent b stored stored' up =
      let p = parent.header.height in
      let low = b.header.prev_hash in
      let below : ltb b.header.height p ≡ false = ground (arith, up) in
      let above : ltb p b.header.height ≡ true = ground (arith, up) in
      let level : ltb p p ≡ false = ground arith in
      let fuel : b.header.height ≡ suc p = omega (arith, up) in
      let stays = climb_stop x s p b.header.height low parent below in
      let stops : climb x s b.header.height p low parent ≡ ok ([], low, parent) =
        ap (λ n. climb x s n p low parent) fuel ∙ climb_stop x s p p low parent level in
      let goes : climb x s (suc b.header.height) p hash b ≡ ok ((hash, b) ∷ [], low, parent) =
        climb_go x s b.header.height p hash b above
        ∙ rw (fetch_stored s missing_ancestor low parent stored) (rw stops refl) in
      let met = meet_stop x s p low parent low parent (bytes_eq_refl low) in
      rw (fetch_stored s missing_block low parent stored)
        (rw (fetch_stored s missing_block hash b stored') (rw stays (rw goes (rw met refl))))

  module _ (laws : ExternalsLaws x) (genesis : Hash256) (c : Chain Tree) (hash : Hash256)
      (b : Block) (k : Checked x c hash b) (inv : Inv x genesis c.state)
      (on_tip : b.header.prev_hash ≡ inv.tip_hash) where
    abbrev after : Chain Tree
    after = with_block x c hash b (work_of x k)

    -- The accounts are those before the block was stored.
    simulate-child :
        (o : Overlay)
        → apply_block x c.genesis c.state [] b ≡ ok o
        → (o' : Overlay) × (simulate x c.genesis after.state [] ((hash, b) ∷ []) ≡ ok o')
    unfolding simulate undo_all apply_all get_acc lookup
    simulate-child o e =
        let same : (a : Address)
            → get_acc x c.genesis after.state [] a ≡ get_acc x c.genesis c.state [] a =
          λ a.
            get_account-same x after.state _ (set_chainwork-SameLedger x _ hash (work_of x k)) a
            ∙ get_account-same x _ c.state (store_block-SameLedger x c.state hash b) a in
        let (o', done, _) =
          apply_all-Follows x c.genesis after.state c.state ((hash, b) ∷ []) [] [] o same
            (rw e refl) in
        (o', done)

    reconsider_tip-child :
        (o : Overlay)
        → apply_block x c.genesis c.state [] b ≡ ok o
        → k.parent.header.height + 1 ≡ b.header.height
        → (c' : Chain Tree) × (reconsider_tip x b.header.prev_hash hash b.header.height after
            ≡ (ok [], c'))
          × (tip x c'.state ≡ ok (some (b.header.height, hash)))
    unfolding reconsider_tip requeue
    reconsider_tip-child o e up =
        let stays = still_stored x genesis laws c hash b k in
        let paths =
          fork_paths-child after.state hash k.parent b
            (stays b.header.prev_hash k.parent k.parent_stored)
            (block_stored x genesis laws c hash b k) up in
        let (o', simulated) = simulate-child o e in
        (
          record after { state = commit x o' [] ((hash, b) ∷ []) b.header.height hash after.state },
          ground (arith, paths, simulated),
          tip-commit x laws o' [] ((hash, b) ∷ []) b.header.height hash after.state,
        )

    -- A checked block on the tip that adds work, and whose transactions and reward apply to the
    -- accounts, is accepted without anything to requeue, and is the tip afterwards.
    pub submit_child-accepted :
        (o : Overlay)
        → apply_block x c.genesis c.state [] b ≡ ok o
        → k.parent.header.height + 1 ≡ b.header.height
        → k.parent_work < work_of x k
        → (c' : Chain Tree) × (submit_child x hash b k.parent c
            ≡ (ok (accepted hash b.header.height false []), c'))
          × (tip x c'.state ≡ ok (some (b.header.height, hash)))
    unfolding submit_child choose_tip adopt
    submit_child-accepted o e up more =
        let (c', reorganized, at) = reconsider_tip-child o e up in
        let follows : (add_u64 k.parent.header.height 1 == b.header.height) ≡ true =
          ground (arith, k.follows) in
        let itself : (b.header.difficulty == b.header.difficulty) ≡ true = ground arith in
        let at_tip : tip x after.state ≡ ok (some (inv.tip_height, b.header.prev_hash)) =
          tip-after x genesis laws c hash b k
          ∙ inv.is_tip
          ∙ ap (λ h. ok (some (inv.tip_height, h))) (sym on_tip) in
        let worked : get_chainwork x after.state b.header.prev_hash ≡ ok (some k.parent_work) =
          still_worked x genesis laws c hash b k b.header.prev_hash k.parent k.parent_work
            k.parent_stored k.parent_work_stored in
        let heavier = lt→ltb k.parent_work (work_of x k) more in
        let on : bytes_eq b.header.prev_hash b.header.prev_hash ≡ true =
          bytes_eq_refl b.header.prev_hash in
        let adopts : adopt x b.header.prev_hash hash b after
            ≡ (ok (accepted hash b.header.height false []), c') =
          ground (arith, reorganized, on) in
        let chosen : choose_tip x hash b (work_of x k) after
            ≡ adopt x b.header.prev_hash hash b after =
          ground (arith, at_tip, worked, heavier) in
        let checked : submit_child x hash b k.parent c ≡ choose_tip x hash b (work_of x k) after =
          ground (arith, follows, k.difficulty, itself, k.parent_work_stored) in
        (c', checked ∙ chosen ∙ adopts, at)
