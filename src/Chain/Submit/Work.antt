-- ===== src/Chain/Submit/Work.antt =====
-- The work of the tip along submissions.
use ondris.Prelude.{
  ℕ, ◌<◌, ◌≡◌, refl, sym, ◌∙◌, ap, subst, ◌⊎◌, inl, inr, Option, none, some, Result, ok, err, arith,
}
use ondris.Primitives.{Hash256}
use ondris.Block.{Block}
use ondris.State.{Externals, get_block, get_chainwork, tip}
use ondris.State.Reads.{ExternalsLaws}
use ondris.State.Frames.{get_chainwork-same}
use ondris.Chain.{Chain}
use ondris.Chain.Reorg.{commit}
use ondris.Chain.Reorg.Commit.{commit-SameBlocks, tip-commit}
use ondris.Chain.Submit.{SubmitOutcome, submit_block, block_id}
use ondris.Chain.Submit.Outcome.{
  Outcome, Checked, TipIs, refused, known, orphaned, failed, beaten, adopted, with_block, work_of,
}
use ondris.Chain.Submit.Whole.{Submission, early, judged, submit_block-Submission}
use ondris.Chain.Submit.Invariant.{Inv, tip-after, still_worked, block_worked}

-- The hash of a tip, or `h`.
abbrev hash_or : Hash256 → Result (Option (ℕ × Hash256)) → Hash256
hash_or h (ok (some t)) = t.1
hash_or h (ok none) = h
hash_or h (err e) = h

abbrev number_or : Result (Option ℕ) → ℕ
number_or (ok (some n)) = n
number_or (ok none) = 0
number_or (err e) = 0

module _ {Tree : Type 0} (x : Externals Tree) where
  same_TipIs :
      (c : Chain Tree) (h k : Hash256) (v w : ℕ) → TipIs x c h v → TipIs x c k w → (h ≡ k) × (v ≡ w)
  same_TipIs c h k v w at at' =
      let same : h ≡ k = ap (hash_or h) (sym at.is_tip ∙ at'.is_tip) in
      (same, ap number_or (sym at.work ∙ ap (get_chainwork x c.state) same ∙ at'.work))

  -- The tip that a chain moves to: the same one, or one with more work.
  abbrev pub MovesUp : Chain Tree → Hash256 → ℕ → Type 0
  MovesUp c' h w = (h' : Hash256) × (w' : ℕ) × TipIs x c' h' w' × (((h' ≡ h) × (w' ≡ w)) ⊎ (w < w'))

  module _ (laws : ExternalsLaws x) (genesis : Hash256) where
    TipIs-with_block :
        (c : Chain Tree) (hash : Hash256) (b : Block) (k : Checked x c hash b)
        → Inv x genesis c.state
        → (h : Hash256) (w : ℕ) → TipIs x c h w
        → TipIs x (with_block x c hash b (work_of x k)) h w
    TipIs-with_block c hash b k inv h w at =
        let same : inv.tip_hash ≡ h = ap (hash_or h) (sym inv.is_tip ∙ at.is_tip) in
        let stored : get_block x c.state h ≡ ok (some inv.tip_block) =
          subst (λ j. get_block x c.state j ≡ ok (some inv.tip_block)) same inv.tip_stored in
        record {
          height = at.height;
          is_tip = tip-after x genesis laws c hash b k ∙ at.is_tip;
          work = still_worked x genesis laws c hash b k h inv.tip_block w stored at.work;
        }

    Outcome-moves :
        (c : Chain Tree) (hash : Hash256) (b : Block) {r : Result SubmitOutcome × Chain Tree}
        → Inv x genesis c.state
        → (h : Hash256) (w : ℕ) → TipIs x c h w
        → Outcome x c hash b r
        → MovesUp r.1 h w
    Outcome-moves c hash b inv h w at (refused e) = (h, w, at, inl (refl, refl))
    Outcome-moves c hash b inv h w at (known seen) = (h, w, at, inl (refl, refl))
    Outcome-moves c hash b inv h w at (orphaned fresh lost) = (h, w, at, inl (refl, refl))
    Outcome-moves c hash b inv h w at (failed k e) =
        (h, w, TipIs-with_block c hash b k inv h w at, inl (refl, refl))
    Outcome-moves c hash b inv h w at (beaten k tip_hash tip_work old more) =
        (h, w, TipIs-with_block c hash b k inv h w at, inl (refl, refl))
    Outcome-moves c hash b inv h w at (adopted k tip_hash tip_work old less out c' re) =
        let d = with_block x c hash b (work_of x k) in
        let (_, same) =
          same_TipIs d tip_hash h tip_work w old (TipIs-with_block c hash b k inv h w at) in
        let made : TipIs x
            (record d { state = commit x re.overlay re.undo re.apply b.header.height hash d.state })
            hash (work_of x k) =
          record {
            height = b.header.height;
            is_tip = tip-commit x laws re.overlay re.undo re.apply b.header.height hash d.state;
            work =
                get_chainwork-same x _ _
                  (commit-SameBlocks x re.overlay re.undo re.apply b.header.height hash d.state)
                  hash
                ∙ block_worked x genesis laws c hash b k;
          } in
        (
          hash,
          work_of x k,
          subst (λ e. TipIs x e hash (work_of x k)) (sym re.written) made,
          inr (omega (arith, less, same)),
        )

    -- On a well-formed chain, whatever block is submitted and whatever comes of it, the chain has
    -- a tip with its work afterwards, which is the tip and the work as they were, or a tip with
    -- strictly more work: the work of the tip never falls.
    pub submit_block_work :
        (c : Chain Tree) (b : Block) (h : Hash256) (w : ℕ)
        → Inv x genesis c.state
        → TipIs x c h w
        → MovesUp (submit_block x b c).1 h w
    submit_block_work c b h w inv at = moves (submit_block-Submission x c b)
      where
        moves : {r : Result SubmitOutcome × Chain Tree} → Submission x c b r → MovesUp r.1 h w
        moves (early e) = (h, w, at, inl (refl, refl))
        moves (judged ds c₁ positive ready outcome) =
            let at₁ : TipIs x c₁ h w = record {
              height = at.height;
              is_tip = ap (tip x) ready.same_state ∙ at.is_tip;
              work = ap (λ s. get_chainwork x s h) ready.same_state ∙ at.work;
            } in
            Outcome-moves c₁ (block_id x b.header ds) b
              (subst (Inv x genesis) (sym ready.same_state) inv) h w at₁ outcome
