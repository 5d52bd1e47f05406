-- ===== src/Chain/Submit/Difficulty.antt =====
-- The two difficulty rules of chain.rs: `compute_next_difficulty`, along the canonical index, and
-- `expected_difficulty_after`, along the parent's branch.
use ondris.Prelude.{
  ℕ, zero, suc, ◌+◌, ◌-◌, ◌≤◌, max, ◌≡◌, refl, sym, ◌∙◌, ap, subst, inl, inr, some, [], ◌∷◌, true,
  false, leb, ◌==◌, Bool-cases, ok, arith, IsU64,
}
use ondris.Primitives.{Hash256}
use ondris.Block.{Block}
use ondris.State.{Externals, ChainState, get_block, get_hash_by_height, get_block_by_height}
use ondris.State.Reads.{ExternalsLaws}
use ondris.Difficulty.{next_difficulty}
use ondris.Chain.{
  GenesisConfig, add_u64, block_ancestor, compute_next_difficulty, expected_difficulty_after,
}
use ondris.Chain.Fork.{BlockChain}
use ondris.Chain.Fork.Paths.{Down, here, next}
use ondris.Chain.Fork.Total.{IsLinked}
use ondris.Chain.Fork.Heights.{one_block}
use ondris.Chain.Reorg.Index.{level, IsStair}
use ondris.Chain.Submit.Invariant.{Inv}
use ondris.Chain.Submit.Replay.{IsLedger}

module _ {Tree : Type 0} (x : Externals Tree) (s : ChainState Tree) (genesis : Hash256)
    (linked : IsLinked x s genesis) where
  -- The branch has a block's hash at the block's own height.
  level_top :
      (h : Hash256) (b : Block) (bs : BlockChain)
      → Down x s h bs genesis
      → IsStair b.header.height bs
      → level genesis bs b.header.height ≡ some h
  level_top h b bs here stair = rw stair
  level_top h b bs (next {b = c} {rest = rest} stored down) (at, positive, stair) =
      let same : (c.header.height == b.header.height) ≡ true = ground (arith, at) in rw same

  -- The ancestor that is some blocks below is the block that the branch has so much lower.
  block_ancestor-level :
      (depth : ℕ) (h : Hash256) (b : Block) (bs : BlockChain)
      → Down x s h bs genesis
      → get_block x s h ≡ ok (some b)
      → IsStair b.header.height bs
      → depth ≤ b.header.height
      → (d : Block) × (k : Hash256) × (block_ancestor x s b depth ≡ ok (some d))
        × (level genesis bs (b.header.height - depth) ≡ some k)
        × (get_block x s k ≡ ok (some d))
  unfolding block_ancestor
  block_ancestor-level zero h b bs down stored stair low =
      let same : b.header.height - zero ≡ b.header.height = omega arith in
      (b, h, refl, ap (level genesis bs) same ∙ level_top h b bs down stair, stored)
  block_ancestor-level (suc depth) h b [] here stored stair low = absurd (omega (arith, low, stair))
  block_ancestor-level (suc depth) h b ((h', c) ∷ rest) (next stored' down) stored
        (at, positive, stair) low =
      elim (linked h b stored) [
        | inl at_genesis ↦ absurd (omega (arith, at_genesis.1, low))
        | inr (p, found, below) ↦
            let same : c ≡ b = one_block x s h c b stored' stored in
            let step : b.header.height - 1 ≡ p.header.height = omega (arith, below) in
            let (d, k, ancestor, lower, there) =
              block_ancestor-level depth b.header.prev_hash p rest
                (subst (λ (e : Block). Down x s e.header.prev_hash rest genesis) same down) found
                (subst (λ n. IsStair n rest) step stair) (omega (arith, below, low)) in
            let apart : (c.header.height == b.header.height - suc depth) ≡ false =
              ground (arith, at, low) in
            let height : b.header.height - suc depth ≡ p.header.height - depth =
              omega (arith, below) in
            (d, k, rw found ancestor, rw apart (ap (level genesis rest) height ∙ lower), there)
      ]

module _ {Tree : Type 0} (x : Externals Tree) where
  -- The block at a height of the canonical index.
  get_block_by_height_of :
      (s : ChainState Tree) (n : ℕ) (k : Hash256) (d : Block)
      → get_hash_by_height x s n ≡ ok (some k)
      → get_block x s k ≡ ok (some d)
      → get_block_by_height x s n ≡ ok (some d)
  unfolding get_block_by_height
  get_block_by_height_of s n k d listed stored = rw listed stored

  -- Both rules give one difficulty for the next block: on a well-formed chain whose index is the
  -- branch of its tip, and whose tip is below the last u64 height, the difficulty that a template
  -- computes along the canonical index is the one that a submission on the tip expects along the
  -- tip's branch, and neither rule fails.
  pub compute_next_difficulty-expected_difficulty_after :
      (laws : ExternalsLaws x) (g : GenesisConfig) (s₀ s : ChainState Tree) (genesis : Hash256)
      (inv : Inv x genesis s) (l : IsLedger x laws g s₀ genesis s)
      → IsU64 (suc inv.tip_height)
      → (n : ℕ) × (compute_next_difficulty x g s (add_u64 inv.tip_height 1) ≡ ok n)
        × (expected_difficulty_after x g s inv.tip_block ≡ ok n)
  unfolding compute_next_difficulty expected_difficulty_after
  compute_next_difficulty-expected_difficulty_after laws g s₀ s genesis inv l room =
      let window = max g.retarget_window 1 in
      let b = inv.tip_block in
      let t = b.header.height in
      let at_tip : l.tip_hash ≡ inv.tip_hash = cc (l.is_tip, inv.is_tip) in
      let at_height : l.height ≡ inv.tip_height = cc (l.is_tip, inv.is_tip) in
      let next_is : add_u64 inv.tip_height 1 ≡ t + 1 = omega (arith, room, inv.tip_at) in
      let next_is' : add_u64 t 1 ≡ t + 1 = omega (arith, room, inv.tip_at) in
      let stair : IsStair t l.branch =
        subst (λ n. IsStair n l.branch) (at_height ∙ sym inv.tip_at) l.indexed.stair in
      let path : Down x s inv.tip_hash l.branch genesis =
        subst (λ h. Down x s h l.branch genesis) at_tip l.replayed.path in
      rw next_is (
        rw next_is' (elim (Bool-cases (leb (t + 1) window)) [
          | inl early ↦ (g.initial_difficulty, rw early refl, rw early refl)
          | inr late ↦
              let deep : window ≤ t = ground (arith, late) in
              let top = level_top x s genesis inv.linked inv.tip_hash b l.branch path stair in
              let (d, k, ancestor, lower, stored) =
                block_ancestor-level x s genesis inv.linked window inv.tip_hash b l.branch path
                  inv.tip_stored stair deep in
              let tip_listed : get_block_by_height x s (t + 1 - 1) ≡ ok (some b) =
                get_block_by_height_of s (t + 1 - 1) inv.tip_hash b
                  (l.indexed.index (t + 1 - 1) (omega (arith, room, inv.tip_at))
                    ∙ ap ok (ap (level genesis l.branch) (omega arith) ∙ top))
                  inv.tip_stored in
              let start_listed : get_block_by_height x s (t + 1 - 1 - window) ≡ ok (some d) =
                get_block_by_height_of s (t + 1 - 1 - window) k d
                  (l.indexed.index (t + 1 - 1 - window) (omega (arith, room, inv.tip_at))
                    ∙ ap ok (ap (level genesis l.branch) (omega arith) ∙ lower))
                  stored in
              (
                next_difficulty b.header.difficulty (b.header.timestamp - d.header.timestamp)
                    g.target_block_time_secs window,
                rw late (rw tip_listed (rw start_listed refl)),
                rw late (rw ancestor refl),
              )
        ]))
