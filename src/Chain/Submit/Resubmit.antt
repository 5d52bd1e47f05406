-- ===== src/Chain/Submit/Resubmit.antt =====
-- Submissions of one header, one after the other, to `submit_block` of chain.rs.
use ondris.Prelude.{
  ℕ, ◌<◌, ◌≡◌, refl, sym, ◌∙◌, ap, subst, ◌⊎◌, inl, inr, some, true, lt→ltb, bytes_eq_refl, Result,
  ok, arith,
}
use ondris.Primitives.{Hash256}
use ondris.Block.{Block, BlockHeader}
use ondris.Pow.{Dataset, epoch_of}
use ondris.State.{Externals, has_block}
use ondris.State.Reads.{ExternalsLaws, has_block-store_block}
use ondris.State.Frames.{has_block-set_chainwork, has_block-same}
use ondris.Chain.{Chain}
use ondris.Chain.Reorg.Commit.{commit-SameBlocks}
use ondris.Chain.Submit.{
  SubmitOutcome, already_known, cached, dataset_for_height, block_id, submit_block,
}
use ondris.Chain.Submit.Outcome.{
  Outcome, refused, known, orphaned, failed, beaten, adopted, with_block,
}
use ondris.Chain.Submit.Whole.{Submission, early, judged, submit_block-Submission}

module _ {Tree : Type 0} (x : Externals Tree) (laws : ExternalsLaws x) where
  has_block-with_block :
      (c : Chain Tree) (hash : Hash256) (b : Block) (work : ℕ)
      → has_block x (with_block x c hash b work).state hash ≡ true
  has_block-with_block c hash b work =
      has_block-set_chainwork x _ hash work hash
      ∙ has_block-store_block x laws c.state hash b hash
      ∙ rw (bytes_eq_refl hash)

  -- A header whose block is stored under its dataset's hash is known.
  known_header :
      (c : Chain Tree) (b : Block) (ds : Dataset)
      → 0 < b.header.height
      → cached c.dataset_cache (epoch_of b.header.height) ≡ some ds
      → has_block x c.state (block_id x b.header ds) ≡ true
      → submit_block x b c ≡ (ok already_known, c)
  unfolding submit_block dataset_for_height
  known_header c b ds positive hit stored = rw (lt→ltb 0 b.header.height positive) (ground arith)

  -- Either nothing of the state changed, or the hash is stored and the cache is as it was.
  pub leaves_known :
      (c : Chain Tree) (hash : Hash256) (b : Block) {r : Result SubmitOutcome × Chain Tree}
      → Outcome x c hash b r
      → (r.1.state ≡ c.state)
        ⊎ ((has_block x r.1.state hash ≡ true) × (r.1.dataset_cache ≡ c.dataset_cache))
  leaves_known c hash b (refused e) = inl refl
  leaves_known c hash b (known h) = inl refl
  leaves_known c hash b (orphaned h h') = inl refl
  leaves_known c hash b (failed k e) = inr (has_block-with_block c hash b _, refl)
  leaves_known c hash b (beaten k t w at le) = inr (has_block-with_block c hash b _, refl)
  leaves_known c hash b (adopted k t w at lt out c' re) = inr (
    ap (λ d. has_block x d.state hash) re.written
        ∙ has_block-same x _ _
            (commit-SameBlocks x re.overlay re.undo re.apply b.header.height hash _) hash
        ∙ has_block-with_block c hash b _,
    ap (λ d. d.dataset_cache) re.written,
  )

  -- Submitting any block either leaves the state as it was, or a block with the same header that is
  -- submitted right after it, whatever its transactions are, is answered by `AlreadyKnown` and
  -- changes nothing.
  pub submit_block_again :
      (c : Chain Tree) (b b' : Block)
      → b'.header ≡ b.header
      → ((submit_block x b c).1.state ≡ c.state)
        ⊎ (submit_block x b' (submit_block x b c).1 ≡ (ok already_known, (submit_block x b c).1))
  submit_block_again c b b' same = again (submit_block-Submission x c b)
    where
      again :
          {r : Result SubmitOutcome × Chain Tree}
          → Submission x c b r
          → (r.1.state ≡ c.state) ⊎ (submit_block x b' r.1 ≡ (ok already_known, r.1))
      again (early e) = inl refl
      again {r} (judged ds c₁ positive ready outcome) =
          elim (leaves_known c₁ (block_id x b.header ds) b outcome) [
            | inl unchanged ↦ inl (unchanged ∙ ready.same_state)
            | inr (stored, cache) ↦
                let height = ap (λ (h : BlockHeader). h.height) same in
                inr (
                  known_header r.1 b' ds (subst (λ n. 0 < n) (sym height) positive)
                    (ap (λ v. cached v (epoch_of b'.header.height)) cache
                      ∙ ap (λ n. cached c₁.dataset_cache (epoch_of n)) height
                      ∙ ready.in_cache)
                    (ap (λ h. has_block x r.1.state (block_id x h ds)) same ∙ stored))
          ]
