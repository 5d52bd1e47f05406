-- ===== src/Chain/Submit/Outcome/Endings.antt =====
-- How `submit_block` of chain.rs can end for a block with its hash.
use ondris.Prelude.{
  ℕ, ◌≤◌, ◌<◌, ◌≡◌, ◌≢◌, none, some, List, true, false, not, bytes_eq, Result, ok, err, Error,
  bad_tx_root, bad_pow, bad_signature, wrong_height, wrong_difficulty, missing_chainwork,
  missing_tip_work, not_initialized,
}
use ondris.Primitives.{Hash256}
use ondris.Block.{Block, Transaction}
use ondris.Difficulty.{target_for_difficulty}
use ondris.Pow.{meets_target}
use ondris.State.{Externals, has_block, get_block, get_chainwork, store_block, set_chainwork, tip}
use ondris.Chain.{Chain, expected_difficulty_after, block_work, add_u64, add_u128}
use ondris.Chain.Reorg.{reconsider_tip}
use ondris.Chain.Reorg.Commit.{Reorganized}
use ondris.Chain.Submit.{
  SubmitOutcome, accepted, side_branch, already_known, orphan, compute_tx_root, all_signed,
}

module _ {Tree : Type 0} (x : Externals Tree) where
  -- All that was checked of a block before it is stored.
  pub record Checked (c : Chain Tree) (hash : Hash256) (b : Block) : Type 0 where
    pub fresh : has_block x c.state hash ≡ false
    pub root : bytes_eq b.header.tx_root (compute_tx_root x b) ≡ true
    pub work_done : meets_target hash (target_for_difficulty b.header.difficulty) ≡ true
    pub signed : all_signed x b.transactions ≡ true
    pub parent : Block
    pub parent_stored : get_block x c.state b.header.prev_hash ≡ ok (some parent)
    pub follows : add_u64 parent.header.height 1 ≡ b.header.height
    pub difficulty : expected_difficulty_after x c.genesis c.state parent ≡ ok b.header.difficulty
    pub parent_work : ℕ
    pub parent_work_stored : get_chainwork x c.state b.header.prev_hash ≡ ok (some parent_work)

  -- The work that is stored with the block, and the chain in which it is stored.
  abbrev pub work_of : {c : Chain Tree} {hash : Hash256} {b : Block} → Checked c hash b → ℕ
  work_of {b} k = add_u128 k.parent_work (block_work b.header.difficulty)

  abbrev pub with_block : Chain Tree → Hash256 → Block → ℕ → Chain Tree
  with_block c hash b work = record c {
    state = set_chainwork x (store_block x c.state hash b) hash work;
  }

  -- The tip and its work.
  pub record TipIs (c : Chain Tree) (tip_hash : Hash256) (tip_work : ℕ) : Type 0 where
    pub height : ℕ
    pub is_tip : tip x c.state ≡ ok (some (height, tip_hash))
    pub work : get_chainwork x c.state tip_hash ≡ ok (some tip_work)

  -- A new block that is right by itself: its root, its work and its signatures.
  abbrev pub Sound : Chain Tree → Hash256 → Block → Type 0
  Sound c hash b =
      (has_block x c.state hash ≡ false)
      × (bytes_eq b.header.tx_root (compute_tx_root x b) ≡ true)
      × (meets_target hash (target_for_difficulty b.header.difficulty) ≡ true)
      × (all_signed x b.transactions ≡ true)

  -- A stored block is the parent, one height lower.
  abbrev pub StandsOn : Chain Tree → Block → Block → Type 0
  StandsOn c b parent =
      (get_block x c.state b.header.prev_hash ≡ ok (some parent))
      × (add_u64 parent.header.height 1 ≡ b.header.height)

  -- Why a new block is refused before anything is written: the first check that it fails, or the
  -- first read that does.
  pub data Refusal (c : Chain Tree) (hash : Hash256) (b : Block) : Error → Type 0 where
    other_root :
        bytes_eq b.header.tx_root (compute_tx_root x b) ≡ false → Refusal c hash b bad_tx_root
    too_easy :
        bytes_eq b.header.tx_root (compute_tx_root x b) ≡ true
        → meets_target hash (target_for_difficulty b.header.difficulty) ≡ false
        → Refusal c hash b bad_pow
    forged :
        bytes_eq b.header.tx_root (compute_tx_root x b) ≡ true
        → meets_target hash (target_for_difficulty b.header.difficulty) ≡ true
        → all_signed x b.transactions ≡ false
        → Refusal c hash b bad_signature
    unread_parent :
        {e : Error}
        → Sound c hash b
        → get_block x c.state b.header.prev_hash ≡ err e
        → Refusal c hash b e
    other_height :
        (parent : Block)
        → Sound c hash b
        → get_block x c.state b.header.prev_hash ≡ ok (some parent)
        → add_u64 parent.header.height 1 ≢ b.header.height
        → Refusal c hash b wrong_height
    no_difficulty :
        {e : Error} (parent : Block)
        → Sound c hash b
        → StandsOn c b parent
        → expected_difficulty_after x c.genesis c.state parent ≡ err e
        → Refusal c hash b e
    other_difficulty :
        (parent : Block) (expected : ℕ)
        → Sound c hash b
        → StandsOn c b parent
        → expected_difficulty_after x c.genesis c.state parent ≡ ok expected
        → b.header.difficulty ≢ expected
        → Refusal c hash b wrong_difficulty
    unread_work :
        {e : Error} (parent : Block)
        → Sound c hash b
        → StandsOn c b parent
        → expected_difficulty_after x c.genesis c.state parent ≡ ok b.header.difficulty
        → get_chainwork x c.state b.header.prev_hash ≡ err e
        → Refusal c hash b e
    no_parent_work :
        (parent : Block)
        → Sound c hash b
        → StandsOn c b parent
        → expected_difficulty_after x c.genesis c.state parent ≡ ok b.header.difficulty
        → get_chainwork x c.state b.header.prev_hash ≡ ok none
        → Refusal c hash b missing_chainwork

  -- Why the call fails on the chain in which the block is stored.
  pub data Failure (d : Chain Tree) (hash : Hash256) (b : Block) (work : ℕ) : Error → Type 0 where
    unread_tip : {e : Error} → tip x d.state ≡ err e → Failure d hash b work e
    no_tip : tip x d.state ≡ ok none → Failure d hash b work not_initialized
    unread_tip_work :
        {e : Error} (height : ℕ) (tip_hash : Hash256)
        → tip x d.state ≡ ok (some (height, tip_hash))
        → get_chainwork x d.state tip_hash ≡ err e
        → Failure d hash b work e
    no_tip_work :
        (height : ℕ) (tip_hash : Hash256)
        → tip x d.state ≡ ok (some (height, tip_hash))
        → get_chainwork x d.state tip_hash ≡ ok none
        → Failure d hash b work missing_tip_work
    not_reorganized :
        {e : Error} (tip_hash : Hash256) (tip_work : ℕ)
        → TipIs d tip_hash tip_work
        → tip_work < work
        → reconsider_tip x tip_hash hash b.header.height d ≡ (err e, d)
        → Failure d hash b work e

  -- The outcomes for a block with its hash, on the chain `c`.
  pub data Outcome (c : Chain Tree) (hash : Hash256) (b : Block)
      : Result SubmitOutcome × Chain Tree → Type 0 where
    refused : {e : Error} → Refusal c hash b e → Outcome c hash b (err e, c)
    known : has_block x c.state hash ≡ true → Outcome c hash b (ok already_known, c)
    orphaned :
        Sound c hash b
        → get_block x c.state b.header.prev_hash ≡ ok none
        → Outcome c hash b (ok (orphan b.header.prev_hash), c)
    failed :
        {e : Error} (k : Checked c hash b)
        → Failure (with_block c hash b (work_of k)) hash b (work_of k) e
        → Outcome c hash b (err e, with_block c hash b (work_of k))
    beaten :
        (k : Checked c hash b) (tip_hash : Hash256) (tip_work : ℕ)
        → TipIs (with_block c hash b (work_of k)) tip_hash tip_work
        → work_of k ≤ tip_work
        → Outcome c hash b (ok (side_branch hash b.header.height), with_block c hash b (work_of k))
    adopted :
        (k : Checked c hash b) (tip_hash : Hash256) (tip_work : ℕ)
        → TipIs (with_block c hash b (work_of k)) tip_hash tip_work
        → tip_work < work_of k
        → (requeue : List Transaction) (c' : Chain Tree)
        → Reorganized x tip_hash hash b.header.height (with_block c hash b (work_of k)) c' requeue
        → Outcome c hash b (
          ok (accepted hash b.header.height (not (bytes_eq tip_hash b.header.prev_hash)) requeue),
          c',
        )
