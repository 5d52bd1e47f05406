-- ===== src/Miner/Submission.antt =====
-- The node's template, mined by the CPU miner and submitted to the node.
use ondris.Prelude.{
  ℕ, suc, ◌≡◌, sym, ap, subst, ◌∙◌, true, inl, inr, List, if◌then◌else◌, ok, err, bad_signature,
  IsU64,
}
use ondris.Primitives.{Blake3, Hash256, Address}
use ondris.Block.{Block, Transaction, bytes_for_pow, with_nonce}
use ondris.Difficulty.{target_for_difficulty}
use ondris.Pow.{Dataset}
use ondris.State.{Externals, has_block}
use ondris.Chain.{Chain}
use ondris.Chain.Submit.{
  already_known, block_id, all_signed, work_template, submit_child, submit_block,
}
use ondris.Chain.Submit.Invariant.{Inv}
use ondris.Chain.Submit.Template.{work_template-IsTemplate, submit_block-template}
use ondris.Miner.Search.{Job, Shared, Outcome, mining, panicked, mined, mine_block, meets}
use ondris.Miner.Search.Soundness.{Reachable, mine_block_sound}

-- The job of a template, with the target that `get_work` gives.
abbrev pub job : Blake3 → Block → Dataset → ℕ → Job
job b block ds threads = record {
  blake3 = b;
  block = block;
  target = target_for_difficulty block.header.difficulty;
  dataset = ds;
  threads = threads;
}

-- What the miner's threads find, in any order of their turns, is the job's block with a nonce that
-- meets its target.
pub mined-nonce :
    (blake3 : Blake3) (block : Block) (ds : Dataset) (threads : ℕ) (s : Shared) (found : Block)
    → Reachable (job blake3 block ds threads) s
    → mine_block (job blake3 block ds threads) s ≡ mined found
    → (nonce : ℕ) × (found ≡ with_nonce block nonce)
      × (meets (job blake3 block ds threads) nonce ≡ true)
mined-nonce blake3 block ds threads s found r e =
    elim (mine_block_sound (job blake3 block ds threads) s r) [
      | inl (busy, still) ↦ absurd (mining_or (sym still ∙ e))
      | inr (all, (nonce, there, met)) ↦ (nonce, ap found_or (sym e ∙ there), met)
    ]
  where
    found_or : Outcome → Block
    found_or mining = block
    found_or panicked = block
    found_or (mined b) = b

    mining_or : mining ≡ mined found → ⊥
    mining_or q = cc q

module _ {Tree : Type 0} (x : Externals Tree) {genesis : Hash256} where
  -- A block that the miner's threads find, in any order of their turns, for a template of a well-
  -- formed chain whose tip is below the last u64 height, is the template's with another nonce; and
  -- the chain that gave the template does not refuse it for its height, dataset, root or work, nor
  -- as an orphan: it is known, or a transaction of the template has a bad signature, or it is
  -- judged as a child of the tip.
  pub mine_block-submit_block :
      (c : Chain Tree) (inv : Inv x genesis c.state) (miner : Address) (pending : List Transaction)
      (now : ℕ) (block : Block) (ds : Dataset) (c₁ : Chain Tree) (threads : ℕ) (s : Shared)
      (found : Block)
      → work_template x now miner pending c ≡ (ok (block, ds), c₁)
      → IsU64 (suc inv.tip_height)
      → Reachable (job x.blake3 block ds threads) s
      → mine_block (job x.blake3 block ds threads) s ≡ mined found
      → (nonce : ℕ) × (found ≡ with_nonce block nonce)
        × (submit_block x found c₁ ≡ (
            if has_block x c₁.state (block_id x found.header ds)
            then (ok already_known, c₁)
            else if all_signed x pending
            then submit_child x (block_id x found.header ds) found inv.tip_block c₁
            else (err bad_signature, c₁)))
  unfolding bytes_for_pow
  mine_block-submit_block c inv miner pending now block ds c₁ threads s found made room r e =
      let (nonce, same, met) = mined-nonce x.blake3 block ds threads s found r e in
      let judged =
        submit_block-template x c inv miner pending block ds c₁ nonce
          (work_template-IsTemplate x c inv miner pending now block ds c₁ made) room
          (unfold block_id meets in met) in
      (nonce, same, subst Judged (sym same) judged)
    where
      Judged : Block → Type 0
      Judged b = submit_block x b c₁ ≡ (
          if has_block x c₁.state (block_id x b.header ds)
          then (ok already_known, c₁)
          else if all_signed x pending
          then submit_child x (block_id x b.header ds) b inv.tip_block c₁
          else (err bad_signature, c₁))
