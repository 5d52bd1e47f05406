-- ===== src/Chain/Reorg/Commit.antt =====
-- What `reconsider_tip` of chain.rs writes.
use ondris.Prelude.{
  ℕ, ◌≡◌, refl, ◌⊎◌, inl, inr, List, [], ◌∷◌, ok, err, Error, Result-cases, some, arith,
}
use ondris.Primitives.{Hash256}
use ondris.Block.{Transaction}
use ondris.State.{Externals, ChainState, set_account, tip}
use ondris.State.Reads.{ExternalsLaws, tip-set_tip}
use ondris.State.Frames.{
  SameBlocks, SameBlocks-trans, set_account-SameBlocks, set_canonical_height-SameBlocks,
  remove_canonical_height-SameBlocks, set_tip-SameBlocks,
}
use ondris.Chain.{Chain}
use ondris.Chain.Ledger.{Overlay}
use ondris.Chain.Fork.{BlockChain, fork_paths}
use ondris.Chain.Reorg.{
  simulate, set_accounts, remove_heights, set_heights, commit, requeue, branch_hashes,
  reconsider_tip,
}

module _ {Tree : Type 0} (x : Externals Tree) where
  set_accounts-SameBlocks : (o : Overlay) (s : ChainState Tree) → SameBlocks (set_accounts x o s) s
  unfolding set_accounts
  set_accounts-SameBlocks [] s = record { blocks = refl; chainwork = refl }
  set_accounts-SameBlocks ((a, acc) ∷ o) s =
      SameBlocks-trans (set_accounts-SameBlocks o (set_account x s a acc))
        (set_account-SameBlocks x s a acc)

  remove_heights-SameBlocks :
      (bs : BlockChain) (s : ChainState Tree) → SameBlocks (remove_heights x bs s) s
  unfolding remove_heights
  remove_heights-SameBlocks [] s = record { blocks = refl; chainwork = refl }
  remove_heights-SameBlocks ((_, b) ∷ bs) s =
      SameBlocks-trans (remove_heights-SameBlocks bs _)
        (remove_canonical_height-SameBlocks x s b.header.height)

  set_heights-SameBlocks :
      (bs : BlockChain) (s : ChainState Tree) → SameBlocks (set_heights x bs s) s
  unfolding set_heights
  set_heights-SameBlocks [] s = record { blocks = refl; chainwork = refl }
  set_heights-SameBlocks ((h, b) ∷ bs) s =
      SameBlocks-trans (set_heights-SameBlocks bs _)
        (set_canonical_height-SameBlocks x s b.header.height h)

  pub commit-SameBlocks :
      (o : Overlay) (undo apply : BlockChain) (n : ℕ) (h : Hash256) (s : ChainState Tree)
      → SameBlocks (commit x o undo apply n h s) s
  unfolding commit
  commit-SameBlocks o undo apply n h s = SameBlocks-trans (set_tip-SameBlocks x _ n h) (
      SameBlocks-trans (set_heights-SameBlocks apply _)
        (SameBlocks-trans (remove_heights-SameBlocks undo _) (set_accounts-SameBlocks o s)))

  pub tip-commit :
      ExternalsLaws x
      → (o : Overlay) (undo apply : BlockChain) (n : ℕ) (h : Hash256) (s : ChainState Tree)
      → tip x (commit x o undo apply n h s) ≡ ok (some (n, h))
  unfolding commit
  tip-commit laws o undo apply n h s = tip-set_tip x laws _ n h

  -- What a call of `reconsider_tip` found and wrote, when it succeeded.
  pub record Reorganized (old_tip new_tip : Hash256) (height : ℕ) (c c' : Chain Tree)
      (out : List Transaction) : Type 0 where
    pub undo : BlockChain
    pub apply : BlockChain
    pub overlay : Overlay
    pub paths : fork_paths x c.state old_tip new_tip ≡ ok (undo, apply)
    pub simulated : simulate x c.genesis c.state undo apply ≡ ok overlay
    pub written : c' ≡ record c { state = commit x overlay undo apply height new_tip c.state }
    pub displaced : out ≡ requeue x (branch_hashes x apply) undo

  -- A reorganization is atomic: it fails and leaves the chain, accounts, index and tip included,
  -- as it was, or both branches were found, the whole simulation succeeded, and exactly its
  -- outcome is written; then it returns the transactions of the losing branch that are not on the
  -- winning one.
  pub reconsider_tip_atomic :
      (old_tip new_tip : Hash256) (height : ℕ) (c : Chain Tree)
      → ((e : Error) × (reconsider_tip x old_tip new_tip height c ≡ (err e, c)))
        ⊎ ((out : List Transaction) × (c' : Chain Tree) × (reconsider_tip x old_tip new_tip height c
              ≡ (ok out, c'))
            × Reorganized old_tip new_tip height c c' out)
  unfolding reconsider_tip
  reconsider_tip_atomic old_tip new_tip height c =
      elim (Result-cases (fork_paths x c.state old_tip new_tip)) [
        | inr (e, lost) ↦ inl (e, ground arith)
        | inl ((undo, apply), found) ↦
            elim (Result-cases (simulate x c.genesis c.state undo apply)) [
              | inr (e, bad) ↦ inl (e, ground arith)
              | inl (o, good) ↦ inr (
                requeue x (branch_hashes x apply) undo,
                record c { state = commit x o undo apply height new_tip c.state },
                ground arith,
                record {
                  undo = undo;
                  apply = apply;
                  overlay = o;
                  paths = found;
                  simulated = good;
                  written = refl;
                  displaced = refl;
                },
              )
            ]
      ]
