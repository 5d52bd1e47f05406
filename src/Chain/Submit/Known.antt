-- ===== src/Chain/Submit/Known.antt =====
-- Blocks that are stored stay known to `submit_block` of chain.rs.
use ondris.Prelude.{
  ℕ, ◌<◌, ◌≡◌, refl, sym, ◌∙◌, ap, subst, ◌⊎◌, inl, inr, List, [], ◌∷◌, true, lt→ltb, bytes_eq,
  Bool-cases, Result, ok, arith,
}
use ondris.Primitives.{Hash256}
use ondris.Block.{Block, BlockHeader}
use ondris.Pow.{Dataset}
use ondris.State.{Externals, has_block}
use ondris.State.Reads.{ExternalsLaws, has_block-store_block}
use ondris.State.Frames.{has_block-set_chainwork, has_block-same}
use ondris.Chain.{Chain}
use ondris.Chain.History.{submit_all}
use ondris.Chain.Reorg.Commit.{commit-SameBlocks}
use ondris.Chain.Submit.{SubmitOutcome, already_known, dataset_for_height, block_id, submit_block}
use ondris.Chain.Submit.Outcome.{
  Outcome, refused, known, orphaned, failed, beaten, adopted, with_block,
}
use ondris.Chain.Submit.Resubmit.{leaves_known}
use ondris.Chain.Submit.Whole.{
  Submission, early, judged, submit_block-Submission, dataset_for_height-Ready,
}

module _ {Tree : Type 0} (x : Externals Tree) (laws : ExternalsLaws x) where
  module _ (k : Hash256) where
    has_block-kept :
        (c : Chain Tree) (hash : Hash256) (b : Block) (work : ℕ)
        → has_block x c.state k ≡ true
        → has_block x (with_block x c hash b work).state k ≡ true
    has_block-kept c hash b work stored =
        has_block-set_chainwork x _ hash work k
        ∙ has_block-store_block x laws c.state hash b k
        ∙ elim (Bool-cases (bytes_eq hash k)) [
          | inl same ↦ rw same refl
          | inr differ ↦ rw differ stored
        ]

    Outcome-keeps :
        (c : Chain Tree) (hash : Hash256) (b : Block) {r : Result SubmitOutcome × Chain Tree}
        → has_block x c.state k ≡ true
        → Outcome x c hash b r
        → has_block x r.1.state k ≡ true
    Outcome-keeps c hash b stored (refused e) = stored
    Outcome-keeps c hash b stored (known h) = stored
    Outcome-keeps c hash b stored (orphaned h h') = stored
    Outcome-keeps c hash b stored (failed w e) = has_block-kept c hash b _ stored
    Outcome-keeps c hash b stored (beaten w t n at le) = has_block-kept c hash b _ stored
    Outcome-keeps c hash b stored (adopted w t n at lt out c' re) =
        ap (λ d. has_block x d.state k) re.written
        ∙ has_block-same x _ _
            (commit-SameBlocks x re.overlay re.undo re.apply b.header.height hash _) k
        ∙ has_block-kept c hash b _ stored

    submit_block-keeps :
        (c : Chain Tree) (b : Block)
        → has_block x c.state k ≡ true
        → has_block x (submit_block x b c).1.state k ≡ true
    submit_block-keeps c b stored = keeps (submit_block-Submission x c b)
      where
        keeps :
            {r : Result SubmitOutcome × Chain Tree}
            → Submission x c b r
            → has_block x r.1.state k ≡ true
        keeps (early e) = stored
        keeps (judged ds c₁ positive ready outcome) =
            Outcome-keeps c₁ _ b (ap (λ s. has_block x s k) ready.same_state ∙ stored) outcome

    submit_all-keeps :
        (c : Chain Tree) (bs : List Block)
        → has_block x c.state k ≡ true
        → has_block x (submit_all x c bs).state k ≡ true
    unfolding submit_all
    submit_all-keeps c [] stored = stored
    submit_all-keeps c (b ∷ bs) stored =
        submit_all-keeps (submit_block x b c).1 bs (submit_block-keeps c b stored)

  Outcome-cache :
      (c : Chain Tree) (hash : Hash256) (b : Block) {r : Result SubmitOutcome × Chain Tree}
      → Outcome x c hash b r
      → r.1.dataset_cache ≡ c.dataset_cache
  Outcome-cache c hash b (refused e) = refl
  Outcome-cache c hash b (known h) = refl
  Outcome-cache c hash b (orphaned h h') = refl
  Outcome-cache c hash b (failed w e) = refl
  Outcome-cache c hash b (beaten w t n at le) = refl
  Outcome-cache c hash b (adopted w t n at lt out c' re) =
      ap (λ (d : Chain Tree). d.dataset_cache) re.written

  -- A submission that finds its dataset in the cache leaves it there.
  pub submit_block-cache :
      (c : Chain Tree) (b : Block) (ds : Dataset)
      → dataset_for_height x b.header.height c ≡ (ok ds, c)
      → (submit_block x b c).1.dataset_cache ≡ c.dataset_cache
  submit_block-cache c b ds hit = cache (submit_block-Submission x c b)
    where
      cache :
          {r : Result SubmitOutcome × Chain Tree}
          → Submission x c b r
          → r.1.dataset_cache ≡ c.dataset_cache
      cache (early e) = refl
      cache (judged ds' c₁ positive ready outcome) =
          let same : c₁ ≡ c = cc (hit, ready.made) in
          Outcome-cache c₁ _ b outcome ∙ ap (λ (d : Chain Tree). d.dataset_cache) same

  -- A header whose block is stored under its dataset's hash is known.
  answered_known :
      (c c₂ : Chain Tree) (b : Block) (ds : Dataset)
      → 0 < b.header.height
      → dataset_for_height x b.header.height c ≡ (ok ds, c₂)
      → has_block x c₂.state (block_id x b.header ds) ≡ true
      → submit_block x b c ≡ (ok already_known, c₂)
  unfolding submit_block
  answered_known c c₂ b ds positive made stored =
      rw (lt→ltb 0 b.header.height positive) (ground (arith, made, stored))

  dataset_for_height-state :
      (height : ℕ) (c c₂ : Chain Tree) (ds : Dataset)
      → dataset_for_height x height c ≡ (ok ds, c₂)
      → c₂.state ≡ c.state
  dataset_for_height-state height c c₂ ds made = elim (dataset_for_height-Ready x height c) [
    | inl (e, lost) ↦ cc (made, lost)
    | inr (ds', c', again, ready) ↦
        let same : c' ≡ c₂ = cc (made, again) in
        ap (λ (d : Chain Tree). d.state) (sym same) ∙ ready.same_state
  ]

  -- The identity of a block is its header under the dataset of its height. Submitting any block
  -- either leaves the state as it was, or its header is known from then on: after any further
  -- submissions, as long as the dataset of the height comes out as it did for the block, a block
  -- with the same header, whatever its transactions are, is answered by `AlreadyKnown`, and at most
  -- the cached dataset changes. That includes a block that was stored and whose reorganization
  -- failed.
  pub submit_block_known :
      (c c₁ c₂ : Chain Tree) (b b' : Block) (bs : List Block) (ds : Dataset)
      → b'.header ≡ b.header
      → dataset_for_height x b.header.height c ≡ (ok ds, c₁)
      → dataset_for_height x b.header.height (submit_all x (submit_block x b c).1 bs) ≡ (ok ds, c₂)
      → ((submit_block x b c).1.state ≡ c.state)
        ⊎ ((submit_block x b' (submit_all x (submit_block x b c).1 bs) ≡ (ok already_known, c₂))
            × (c₂.state ≡ (submit_all x (submit_block x b c).1 bs).state))
  submit_block_known c c₁ c₂ b b' bs ds same made = later (submit_block-Submission x c b)
    where
      later :
          {r : Result SubmitOutcome × Chain Tree}
          → Submission x c b r
          → dataset_for_height x b.header.height (submit_all x r.1 bs) ≡ (ok ds, c₂)
          → (r.1.state ≡ c.state)
            ⊎ ((submit_block x b' (submit_all x r.1 bs) ≡ (ok already_known, c₂))
                × (c₂.state ≡ (submit_all x r.1 bs).state))
      later (early e) again = inl refl
      later {r} (judged ds' c' positive ready outcome) again =
          elim (leaves_known x laws c' (block_id x b.header ds') b outcome) [
            | inl unchanged ↦ inl (unchanged ∙ ready.same_state)
            | inr (stored, _) ↦
                let d = submit_all x r.1 bs in
                let one : ds' ≡ ds = cc (made, ready.made) in
                let kept = submit_all-keeps (block_id x b.header ds') r.1 bs stored in
                let state = dataset_for_height-state b.header.height d c₂ ds again in
                let height = ap (λ (h : BlockHeader). h.height) same in
                inr (
                  answered_known d c₂ b' ds (subst (λ n. 0 < n) (sym height) positive)
                      (ap (λ n. dataset_for_height x n d) height ∙ again)
                      (ap (λ s. has_block x s (block_id x b'.header ds)) state
                        ∙ ap (λ h. has_block x d.state (block_id x h ds)) same
                        ∙ ap (λ v. has_block x d.state (block_id x b.header v)) (sym one)
                        ∙ kept),
                  state,
                )
          ]
