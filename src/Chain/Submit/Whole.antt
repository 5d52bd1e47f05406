-- ===== src/Chain/Submit/Whole.antt =====
-- The whole call of `submit_block`: its dataset, then the outcome on the chain with that dataset.
use ondris.Prelude.{
  ℕ, ◌<◌, ◌≡◌, refl, subst, ◌⊎◌, inl, inr, some, ltb, ltb→lt, Bool-cases, Option-cases, Result, ok,
  err, Result-cases, Error, arith, second_genesis,
}
use ondris.Block.{Block}
use ondris.Pow.{Dataset, epoch_of, generate}
use ondris.State.{Externals, has_block}
use ondris.Chain.{Chain}
use ondris.Chain.Submit.{
  SubmitOutcome, cached, seed_of_epoch, dataset_for_height, block_id, submit_block,
}
use ondris.Chain.Submit.Outcome.{Outcome, known, submit_new-Outcome}

module _ {Tree : Type 0} (x : Externals Tree) where
  -- The dataset of a height, which the cache then has, and nothing else changed.
  pub record Ready (c : Chain Tree) (height : ℕ) (c₁ : Chain Tree) (ds : Dataset) : Type 0 where
    pub same_state : c₁.state ≡ c.state
    pub same_genesis : c₁.genesis ≡ c.genesis
    pub made : dataset_for_height x height c ≡ (ok ds, c₁)
    pub in_cache : cached c₁.dataset_cache (epoch_of height) ≡ some ds

  cached_self : (epoch : ℕ) (ds : Dataset) → cached (some (epoch, ds)) epoch ≡ some ds
  unfolding cached
  cached_self epoch ds = ground arith

  -- A call that fails to make the dataset changes nothing; one that has it leaves it cached.
  pub dataset_for_height-Ready :
      (height : ℕ) (c : Chain Tree)
      → ((e : Error) × (dataset_for_height x height c ≡ (err e, c)))
        ⊎ ((ds : Dataset) × (c₁ : Chain Tree) × (dataset_for_height x height c ≡ (ok ds, c₁))
            × Ready c height c₁ ds)
  unfolding dataset_for_height
  dataset_for_height-Ready height c =
      let epoch = epoch_of height in
      elim (Option-cases (cached c.dataset_cache epoch)) [
        | inr (ds, hit) ↦ inr (
          ds,
          c,
          ground arith,
          record { same_state = refl; same_genesis = refl; made = ground arith; in_cache = hit },
        )
        | inl miss ↦ elim (Result-cases (seed_of_epoch x c.state epoch)) [
          | inr (e, q) ↦ inl (e, ground arith)
          | inl (seed, q) ↦ elim (Result-cases (generate x.blake3 epoch seed)) [
            | inr (e, q') ↦ inl (e, ground arith)
            | inl (ds, q') ↦ inr (
              ds,
              record c { dataset_cache = some (epoch, ds) },
              ground arith,
              record {
                same_state = refl;
                same_genesis = refl;
                made = ground arith;
                in_cache = cached_self epoch ds;
              },
            )
          ]
        ]
      ]

  -- Why a submission is refused before any check of the block.
  pub data Early (c : Chain Tree) (b : Block) : Error → Type 0 where
    genesis_again : b.header.height ≡ 0 → Early c b second_genesis
    no_dataset :
        {e : Error}
        → 0 < b.header.height
        → dataset_for_height x b.header.height c ≡ (err e, c)
        → Early c b e

  -- The course of a submission.
  pub data Submission (c : Chain Tree) (b : Block)
      : Result SubmitOutcome × Chain Tree → Type 0 where
    early : {e : Error} → Early c b e → Submission c b (err e, c)
    judged :
        {r : Result SubmitOutcome × Chain Tree} (ds : Dataset) (c₁ : Chain Tree)
        → 0 < b.header.height
        → Ready c b.header.height c₁ ds
        → Outcome x c₁ (block_id x b.header ds) b r
        → Submission c b r

  pub submit_block-Submission : (c : Chain Tree) (b : Block) → Submission c b (submit_block x b c)
  unfolding submit_block
  submit_block-Submission c b = elim (Bool-cases (ltb 0 b.header.height)) [
    | inr low ↦ subst (Submission c b) (rw low) (early (genesis_again (ground (arith, low))))
    | inl high ↦ elim (dataset_for_height-Ready b.header.height c) [
      | inl (e, q) ↦
          subst (Submission c b) (rw high (ground arith))
            (early (no_dataset (ltb→lt 0 b.header.height high) q))
      | inr (ds, c₁, q, ready) ↦
          let hash = block_id x b.header ds in
          let positive = ltb→lt 0 b.header.height high in
          elim (Bool-cases (has_block x c₁.state hash)) [
            | inl seen ↦
                subst (Submission c b) (rw high (ground arith))
                  (judged ds c₁ positive ready (known seen))
            | inr fresh ↦
                subst (Submission c b) (rw high (ground arith))
                  (judged ds c₁ positive ready (submit_new-Outcome x c₁ hash b fresh))
          ]
    ]
  ]
