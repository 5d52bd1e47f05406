-- ===== src/Chain/Reorg/Canonical.antt =====
-- The canonical index after a reorganization against the new branch.
use ondris.Prelude.{
  ℕ, ◌-◌, ◌<◌, ◌≡◌, sym, ◌∙◌, ap, subst, inl, inr, some, List, [], ◌∷◌, ◌++◌, reverse, ok, length,
  All-append, All-split, IsU64, arith,
}
use ondris.Primitives.{Hash256}
use ondris.Block.{Block, Transaction}
use ondris.State.{Externals, ChainState, get_block, get_hash_by_height}
use ondris.State.Reads.{ExternalsLaws}
use ondris.State.Frames.{get_block-same}
use ondris.Chain.{Chain}
use ondris.Chain.Fork.{BlockChain}
use ondris.Chain.Fork.Paths.{Down, here, next}
use ondris.Chain.Fork.Heights.{IsRaised, one_block, fork_paths-IsRaised}
use ondris.Chain.Fork.Total.{IsLinked}
use ondris.Chain.Reorg.{commit}
use ondris.Chain.Reorg.Commit.{Reorganized, commit-SameBlocks}
use ondris.Chain.Reorg.Index.{level, IsStair, IsSizedPath, get_hash-commit}

module _ {Tree : Type 0} (x : Externals Tree) (genesis : Hash256) where
  -- The canonical index is the branch of the tip: at each height of 64 bits it has the hash of the
  -- branch's block there, genesis at 0, and nothing above the tip. Every stored hash has 32 bytes.
  pub record IsIndexed (s : ChainState Tree) (height : ℕ) (branch : BlockChain) : Type 0 where
    pub stair : IsStair height branch
    pub index : (n : ℕ) → IsU64 n → get_hash_by_height x s n ≡ ok (level genesis branch n)
    pub sized : (h : Hash256) (b : Block) → get_block x s h ≡ ok (some b) → length h ≡ 32

  IsStair-IsRaised : (n : ℕ) (bs : BlockChain) → IsStair n bs → IsRaised bs
  IsStair-IsRaised n [] stair = tt
  IsStair-IsRaised n ((h, b) ∷ bs) (at, positive, stair) =
      (omega (arith, at, positive), IsStair-IsRaised (n - 1) bs stair)

  module _ (s : ChainState Tree) (linked : IsLinked x s genesis) (root : Block)
      (rooted : get_block x s genesis ≡ ok (some root)) (at_zero : root.header.height ≡ 0) where
    -- The heights of a linked path fall one by one.
    Down-IsStair :
        (h : Hash256) (b : Block) (bs : BlockChain)
        → Down x s h bs genesis
        → get_block x s h ≡ ok (some b)
        → IsRaised bs
        → IsStair b.header.height bs
    Down-IsStair h b bs here stored raised =
        ap (λ (d : Block). d.header.height) (one_block x s genesis b root stored rooted) ∙ at_zero
    Down-IsStair h b bs (next {b = c} {rest = rest} stored' down) stored raised =
        let same : c.header.height ≡ b.header.height =
          ap (λ (d : Block). d.header.height) (one_block x s h c b stored' stored) in
        elim (linked h c stored') [
          | inl at_genesis ↦ absurd (omega (arith, raised.0, at_genesis.1))
          | inr (p, found, below) ↦
              let step : p.header.height ≡ b.header.height - 1 = omega (arith, below, same) in
              (
                same,
                omega (arith, raised.0, same),
                subst (λ n. IsStair n rest) step
                    (Down-IsStair c.header.prev_hash p rest down found raised.1),
              )
        ]

  Down-IsSizedPath :
      (laws : ExternalsLaws x) (s : ChainState Tree) (h a : Hash256) (bs : BlockChain)
      → ((k : Hash256) (b : Block) → get_block x s k ≡ ok (some b) → IsU64 b.header.height)
      → ((k : Hash256) (b : Block) → get_block x s k ≡ ok (some b) → length k ≡ 32)
      → Down x s h bs a
      → IsSizedPath x laws bs
  Down-IsSizedPath laws s h a bs small sized here = tt
  Down-IsSizedPath laws s h a bs small sized (next {b = b} {rest = rest} stored down) = (
    (small h b stored, sized h b stored),
    Down-IsSizedPath laws s b.header.prev_hash a rest small sized down,
  )

  -- A reorganization to a stored block leaves its branch in the index.
  pub Reorganized-IsIndexed :
      (laws : ExternalsLaws x) (c c' : Chain Tree) (old_tip new_tip : Hash256) (top : ℕ)
      (out : List Transaction) (rest : BlockChain) (b root : Block)
      (re : Reorganized x old_tip new_tip b.header.height c c' out)
      → IsLinked x c.state genesis
      → ((k : Hash256) (d : Block) → get_block x c.state k ≡ ok (some d) → IsU64 d.header.height)
      → get_block x c.state genesis ≡ ok (some root)
      → root.header.height ≡ 0
      → get_block x c.state new_tip ≡ ok (some b)
      → Down x c.state old_tip (re.undo ++ rest) genesis
      → Down x c.state new_tip (reverse re.apply ++ rest) genesis
      → IsIndexed c.state top (re.undo ++ rest)
      → IsIndexed c'.state b.header.height (reverse re.apply ++ rest)
  Reorganized-IsIndexed laws c c' old_tip new_tip top out rest b root re linked small rooted at_zero
        stored down down' i =
      let s' = commit x re.overlay re.undo re.apply b.header.height new_tip c.state in
      let same = commit-SameBlocks x re.overlay re.undo re.apply b.header.height new_tip c.state in
      let raised =
        (fork_paths-IsRaised x c.state genesis linked old_tip new_tip re.undo re.apply
          re.paths).1 in
      let lower =
        (All-split (λ p. 0 < p.1.header.height) re.undo rest
          (IsStair-IsRaised top (re.undo ++ rest) i.stair)).1 in
      let path =
        Down-IsSizedPath laws c.state old_tip genesis (re.undo ++ rest) small i.sized down in
      let path' =
        Down-IsSizedPath laws c.state new_tip genesis (reverse re.apply ++ rest) small i.sized
          down' in
      let now : IsIndexed s' b.header.height (reverse re.apply ++ rest) = record {
        stair =
            Down-IsStair c.state linked root rooted at_zero new_tip b (reverse re.apply ++ rest)
              down' stored
              (All-append (λ p. 0 < p.1.header.height) (reverse re.apply) rest raised lower);
        index = λ n u.
            get_hash-commit x laws genesis re.overlay re.undo re.apply rest top b.header.height
              new_tip c.state n i.stair (All-split _ re.undo rest path).0
              (All-split _ (reverse re.apply) rest path').0 u (i.index n u);
        sized = λ h d q. i.sized h d (sym (get_block-same x s' c.state same h) ∙ q);
      } in
      subst (λ (d : Chain Tree). IsIndexed d.state b.header.height (reverse re.apply ++ rest))
        (sym re.written) now
