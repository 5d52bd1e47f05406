-- ===== src/Tests/Known.antt =====
-- The theorem on later submissions of a header at concrete inputs.
use ondris.Prelude.{◌≡◌, refl, ◌∙◌, ◌⊎◌, some, [], ◌∷◌, ok}
use ondris.Pow.{epoch_of}
use ondris.Chain.{Chain}
use ondris.Chain.History.{submit_all}
use ondris.Chain.Submit.{already_known, cached, dataset_for_height, submit_block}
use ondris.Chain.Submit.Known.{submit_block-cache, submit_block_known}
use ondris.Tests.Trees.{Writes}
use ondris.Tests.World.{crates, crates-ExternalsLaws, small_dataset}
use ondris.Tests.Chains.{start, first_block, mutated_block}

-- The dataset of height 1 in the cache.
hit :
    (d : Chain Writes)
    → d.dataset_cache ≡ some (0, small_dataset)
    → dataset_for_height crates 1 d ≡ (ok small_dataset, d)
unfolding dataset_for_height cached epoch_of
hit d held = rw held refl

abbrev once : Chain Writes
once = (submit_block crates first_block start).1

abbrev twice : Chain Writes
twice = (submit_block crates mutated_block once).1

once_held : once.dataset_cache ≡ some (0, small_dataset)
once_held =
    submit_block-cache crates crates-ExternalsLaws start first_block small_dataset (hit start refl)

twice_held : twice.dataset_cache ≡ some (0, small_dataset)
twice_held =
    submit_block-cache crates crates-ExternalsLaws once mutated_block small_dataset
      (hit once once_held)
    ∙ once_held

submit_block_known_example :
    (once.state ≡ start.state)
    ⊎ ((submit_block crates mutated_block (submit_all crates once (mutated_block ∷ []))
          ≡ (ok already_known, twice))
        × (twice.state ≡ (submit_all crates once (mutated_block ∷ [])).state))
unfolding submit_all
submit_block_known_example =
    submit_block_known crates crates-ExternalsLaws start start twice first_block mutated_block
      (mutated_block ∷ []) small_dataset refl (hit start refl) (hit twice twice_held)
