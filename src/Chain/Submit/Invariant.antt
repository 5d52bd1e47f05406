-- ===== src/Chain/Submit/Invariant.antt =====
-- The well-formedness of the stored chain, and `submit_block` of chain.rs.
use ondris.Prelude.{
  ℕ, ◌+◌, ◌<◌, ◌≡◌, refl, sym, ◌∙◌, ap, subst, ◌⊎◌, inl, inr, Option, none, some, true, false,
  bytes_eq, bytes_eq_sound, bytes_eq_refl, Bool-cases, if◌then◌else◌, Result, ok, err, arith, IsU64,
}
use ondris.Primitives.{Hash256}
use ondris.Block.{Block}
use ondris.State.{Externals, ChainState, has_block, get_block, get_chainwork, tip}
use ondris.State.Reads.{
  ExternalsLaws, get_block-store_block, get_chainwork-set_chainwork, has_block_of_get_block,
}
use ondris.State.Frames.{
  get_block-set_chainwork, get_chainwork-store_block, store_block-SameLedger,
  set_chainwork-SameLedger, tip-same, get_block-same, get_chainwork-same, SameBlocks,
}
use ondris.Chain.{Chain, add_u64}
use ondris.Chain.Fork.Total.{HasParent, IsLinked}
use ondris.Chain.Reorg.Commit.{commit-SameBlocks, tip-commit}
use ondris.Chain.Submit.{SubmitOutcome, submit_block, block_id}
use ondris.Chain.Submit.Outcome.{
  Outcome, Checked, refused, known, orphaned, failed, beaten, adopted, with_block, work_of,
}
use ondris.Chain.Submit.Whole.{Submission, early, judged, submit_block-Submission}

-- The block of a read, or `b`.
abbrev pub found_or : Block → Result (Option Block) → Block
found_or b (ok (some d)) = d
found_or b (ok none) = b
found_or b (err e) = b

add_u64-IsU64 : (m n : ℕ) → IsU64 (add_u64 m n)
add_u64-IsU64 m n = omega arith

module _ {Tree : Type 0} (x : Externals Tree) (genesis : Hash256) where
  -- Every stored block but genesis stands on a stored parent one lower, every stored block has its
  -- cumulative work, heights fit 64 bits, and the tip is a stored block at its height.
  pub record Inv (s : ChainState Tree) : Type 0 where
    pub linked : IsLinked x s genesis
    pub small : (h : Hash256) (b : Block) → get_block x s h ≡ ok (some b) → IsU64 b.header.height
    pub worked :
        (h : Hash256) (b : Block)
        → get_block x s h ≡ ok (some b)
        → (w : ℕ) × (get_chainwork x s h ≡ ok (some w))
    pub tip_height : ℕ
    pub tip_hash : Hash256
    pub tip_block : Block
    pub is_tip : tip x s ≡ ok (some (tip_height, tip_hash))
    pub tip_stored : get_block x s tip_hash ≡ ok (some tip_block)
    pub tip_at : tip_block.header.height ≡ tip_height

  module _ (laws : ExternalsLaws x) where
    -- The reads of the state with a new block.
    module _ (c : Chain Tree) (hash : Hash256) (b : Block) (k : Checked x c hash b) where
      abbrev pub after : ChainState Tree
      after = (with_block x c hash b (work_of x k)).state

      pub get_block-after :
          (h : Hash256)
          → get_block x after h ≡ (if bytes_eq hash h then ok (some b) else get_block x c.state h)
      get_block-after h =
          get_block-set_chainwork x _ hash _ h ∙ get_block-store_block x laws c.state hash b h

      get_chainwork-after :
          (h : Hash256)
          → get_chainwork x after h
            ≡ (if bytes_eq hash h then ok (some (work_of x k)) else get_chainwork x c.state h)
      get_chainwork-after h =
          get_chainwork-set_chainwork x laws _ hash (work_of x k) h (omega arith)
          ∙ ap (λ r. if bytes_eq hash h then ok (some (work_of x k)) else r)
              (get_chainwork-store_block x c.state hash b h)

      -- What was stored has another hash, and is still there.
      stored_elsewhere :
          (h : Hash256) (p : Block) → get_block x c.state h ≡ ok (some p) → bytes_eq hash h ≡ false
      stored_elsewhere h p q = elim (Bool-cases (bytes_eq hash h)) [
        | inr differ ↦ differ
        | inl same ↦
            let there = has_block_of_get_block x laws c.state h p q in
            let missing = ap (has_block x c.state) (sym (bytes_eq_sound hash h same)) ∙ k.fresh in
            cc (there, missing)
      ]

      pub still_stored :
          (h : Hash256) (p : Block)
          → get_block x c.state h ≡ ok (some p)
          → get_block x after h ≡ ok (some p)
      still_stored h p q = get_block-after h ∙ rw (stored_elsewhere h p q) q

      pub still_worked :
          (h : Hash256) (p : Block) (w : ℕ)
          → get_block x c.state h ≡ ok (some p)
          → get_chainwork x c.state h ≡ ok (some w)
          → get_chainwork x after h ≡ ok (some w)
      still_worked h p w q q' = get_chainwork-after h ∙ rw (stored_elsewhere h p q) q'

      pub tip-after : tip x after ≡ tip x c.state
      tip-after =
          tip-same x _ _ (set_chainwork-SameLedger x _ hash (work_of x k))
          ∙ tip-same x _ _ (store_block-SameLedger x c.state hash b)

      height_after :
          0 < b.header.height
          → IsU64 k.parent.header.height
          → k.parent.header.height + 1 ≡ b.header.height
      height_after positive fits = omega (arith, k.follows)

      pub with_block-Inv : Inv c.state → 0 < b.header.height → Inv after
      with_block-Inv inv positive = record {
        linked = λ h d q. linked_at h d q (Bool-cases (bytes_eq hash h));
        small = λ h d q. small_at h d q (Bool-cases (bytes_eq hash h));
        worked = λ h d q. worked_at h d q (Bool-cases (bytes_eq hash h));
        tip_height = inv.tip_height;
        tip_hash = inv.tip_hash;
        tip_block = inv.tip_block;
        is_tip = tip-after ∙ inv.is_tip;
        tip_stored = still_stored inv.tip_hash inv.tip_block inv.tip_stored;
        tip_at = inv.tip_at;
      }
        where
          risen : k.parent.header.height + 1 ≡ b.header.height
          risen = height_after positive (inv.small b.header.prev_hash k.parent k.parent_stored)

          is_new :
              (h : Hash256) (d : Block)
              → get_block x after h ≡ ok (some d)
              → bytes_eq hash h ≡ true
              → b ≡ d
          is_new h d q same =
              let now : get_block x after h ≡ ok (some b) = get_block-after h ∙ rw same in
              ap (found_or b) (sym now ∙ q)

          was_old :
              (h : Hash256) (d : Block)
              → get_block x after h ≡ ok (some d)
              → bytes_eq hash h ≡ false
              → get_block x c.state h ≡ ok (some d)
          was_old h d q differ =
              let now : get_block x after h ≡ get_block x c.state h =
                get_block-after h ∙ rw differ in
              sym now ∙ q

          linked_at :
              (h : Hash256) (d : Block)
              → get_block x after h ≡ ok (some d)
              → (bytes_eq hash h ≡ true) ⊎ (bytes_eq hash h ≡ false)
              → HasParent x after genesis h d
          linked_at h d q (inl same) =
              subst (HasParent x after genesis h) (is_new h d q same)
                (inr (k.parent, still_stored b.header.prev_hash k.parent k.parent_stored, risen))
          linked_at h d q (inr differ) = elim (inv.linked h d (was_old h d q differ)) [
            | inl at_genesis ↦ inl at_genesis
            | inr (p, stored, below) ↦ inr (p, still_stored d.header.prev_hash p stored, below)
          ]

          small_at :
              (h : Hash256) (d : Block)
              → get_block x after h ≡ ok (some d)
              → (bytes_eq hash h ≡ true) ⊎ (bytes_eq hash h ≡ false)
              → IsU64 d.header.height
          small_at h d q (inl same) =
              subst (λ e. IsU64 e.header.height) (is_new h d q same)
                (subst IsU64 k.follows (add_u64-IsU64 k.parent.header.height 1))
          small_at h d q (inr differ) = inv.small h d (was_old h d q differ)

          worked_at :
              (h : Hash256) (d : Block)
              → get_block x after h ≡ ok (some d)
              → (bytes_eq hash h ≡ true) ⊎ (bytes_eq hash h ≡ false)
              → (w : ℕ) × (get_chainwork x after h ≡ ok (some w))
          worked_at h d q (inl same) = (work_of x k, get_chainwork-after h ∙ rw same)
          worked_at h d q (inr differ) =
              let old = inv.worked h d (was_old h d q differ) in
              (old.0, still_worked h d old.0 (was_old h d q differ) old.1)

      -- The new block is stored, with its work.
      pub block_stored : get_block x after hash ≡ ok (some b)
      block_stored = get_block-after hash ∙ rw (bytes_eq_refl hash)

      pub block_worked : get_chainwork x after hash ≡ ok (some (work_of x k))
      block_worked = get_chainwork-after hash ∙ rw (bytes_eq_refl hash)

    -- A commit leaves the blocks alone and makes a stored block the tip.
    pub commit-Inv :
        {s s' : ChainState Tree} (height : ℕ) (hash : Hash256) (b : Block)
        → Inv s
        → SameBlocks s' s
        → tip x s' ≡ ok (some (height, hash))
        → get_block x s hash ≡ ok (some b)
        → b.header.height ≡ height
        → Inv s'
    commit-Inv {s} {s'} height hash b inv same at stored at_height = record {
      linked = λ h d q. elim (inv.linked h d (was h d q)) [
        | inl at_genesis ↦ inl at_genesis
        | inr (p, found, below) ↦
            inr (p, get_block-same x s' s same d.header.prev_hash ∙ found, below)
      ];
      small = λ h d q. inv.small h d (was h d q);
      worked = λ h d q.
          let old = inv.worked h d (was h d q) in (old.0, get_chainwork-same x s' s same h ∙ old.1);
      tip_height = height;
      tip_hash = hash;
      tip_block = b;
      is_tip = at;
      tip_stored = get_block-same x s' s same hash ∙ stored;
      tip_at = at_height;
    }
      where
        was :
            (h : Hash256) (d : Block)
            → get_block x s' h ≡ ok (some d)
            → get_block x s h ≡ ok (some d)
        was h d q = sym (get_block-same x s' s same h) ∙ q

    Outcome-Inv :
        (c : Chain Tree) (hash : Hash256) (b : Block) {r : Result SubmitOutcome × Chain Tree}
        → 0 < b.header.height
        → Inv c.state
        → Outcome x c hash b r
        → Inv r.1.state
    Outcome-Inv c hash b positive inv (refused e) = inv
    Outcome-Inv c hash b positive inv (known seen) = inv
    Outcome-Inv c hash b positive inv (orphaned fresh lost) = inv
    Outcome-Inv c hash b positive inv (failed k e) = with_block-Inv c hash b k inv positive
    Outcome-Inv c hash b positive inv (beaten k tip_hash tip_work at more) =
        with_block-Inv c hash b k inv positive
    Outcome-Inv c hash b positive inv (adopted k tip_hash tip_work at less out c' re) =
        let d = with_block x c hash b (work_of x k) in
        subst (λ (e : Chain Tree). Inv e.state) (sym re.written)
          (commit-Inv b.header.height hash b (with_block-Inv c hash b k inv positive)
            (commit-SameBlocks x re.overlay re.undo re.apply b.header.height hash d.state)
            (tip-commit x laws re.overlay re.undo re.apply b.header.height hash d.state)
            (block_stored c hash b k) refl)

    -- Whatever block is submitted, and whatever comes of it, the stored chain stays well formed:
    -- every stored block but genesis stands on a stored parent one lower, every stored block has
    -- its cumulative work, heights fit 64 bits, and the tip is a stored block of the tip's height.
    pub submit_block-Inv :
        (c : Chain Tree) (b : Block) → Inv c.state → Inv (submit_block x b c).1.state
    submit_block-Inv c b inv = of_course (submit_block-Submission x c b)
      where
        of_course : {r : Result SubmitOutcome × Chain Tree} → Submission x c b r → Inv r.1.state
        of_course (early e) = inv
        of_course (judged ds c₁ positive ready outcome) =
            Outcome-Inv c₁ (block_id x b.header ds) b positive
              (subst Inv (sym ready.same_state) inv) outcome
