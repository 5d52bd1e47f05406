-- ===== src/Miner/Work/Cached.antt =====
-- The miner's cached dataset against a dataset that is generated anew for each work.
use ondris.Prelude.{
  ℕ, ◌≡◌, refl, sym, ap, ◌∙◌, Bool-cases, inl, inr, ◌⊎◌, Option, none, some, List, [], ◌∷◌, ◌==◌,
  Result, ok, err, Error, ◌>>=◌, All, arith,
}
use ondris.Primitives.{Blake3, Hash256}
use ondris.Pow.{Dataset, generate, epoch_seed}
use ondris.Node.Requests.{WorkTemplate}
use ondris.Miner.Work.{Cache, new_dataset, dataset_for_work, datasets}

module _ (b : Blake3) where
  -- The dataset that a work asks for.
  abbrev pub asked : WorkTemplate → Result Dataset
  asked work = generate b work.epoch (epoch_seed b work.epoch_boundary_hash)

  -- Without a cache: one generation for each work.
  unfoldable pub generated : List WorkTemplate → Result (List Dataset)
  generated [] = ok []
  generated (work ∷ works) = do ds ← asked work; rest ← generated works; ok (ds ∷ rest)

  module _ (boundary : ℕ → Option Hash256) where
    -- The cached dataset is the one of its epoch.
    abbrev Held : Cache → Type 0
    Held none = Unit
    Held (some (epoch, ds)) = generate b epoch (epoch_seed b (boundary epoch)) ≡ ok ds

    abbrev Taken : WorkTemplate → Result Dataset → Result (Dataset × Cache) → Type 0
    Taken work r taken =
        ((failure : Error) × (r ≡ err failure) × (taken ≡ err failure))
        ⊎ ((ds : Dataset) × (cache : Cache) × (r ≡ ok ds) × (taken ≡ ok (ds, cache)) × Held cache)

    new_dataset-Taken :
        (work : WorkTemplate)
        → work.epoch_boundary_hash ≡ boundary work.epoch
        → Taken work (asked work) (new_dataset b work)
    unfolding new_dataset
    new_dataset-Taken work same = made (asked work) refl
      where
        made :
            (r : Result Dataset)
            → asked work ≡ r
            → Taken work r (r >>= λ ds. ok (ds, some (work.epoch, ds)))
        made (err failure) e = inl (failure, refl, refl)
        made (ok ds) e = inr (
          ds,
          some (work.epoch, ds),
          refl,
          refl,
          ap (λ h. generate b work.epoch (epoch_seed b h)) (sym same) ∙ e,
        )

    dataset_for_work-Taken :
        (cache : Cache) (work : WorkTemplate)
        → Held cache
        → work.epoch_boundary_hash ≡ boundary work.epoch
        → Taken work (asked work) (dataset_for_work b cache work)
    unfolding dataset_for_work
    dataset_for_work-Taken none work held same = new_dataset-Taken work same
    dataset_for_work-Taken (some (epoch, ds)) work held same =
        elim (Bool-cases (epoch == work.epoch)) [
          | inl hit ↦
              let at : epoch ≡ work.epoch = ground (arith, hit) in
              inr (
                ds,
                some (epoch, ds),
                ap (λ h. generate b work.epoch (epoch_seed b h)) same
                    ∙ ap (λ n. generate b n (epoch_seed b (boundary n))) (sym at)
                    ∙ held,
                rw hit refl,
                held,
              )
          | inr miss ↦ rw miss (new_dataset-Taken work same)
        ]

    datasets-generated :
        (cache : Cache) (works : List WorkTemplate)
        → Held cache
        → All (λ w. w.epoch_boundary_hash ≡ boundary w.epoch) works
        → datasets b cache works ≡ generated works
    unfolding datasets generated
    datasets-generated cache [] held h = refl
    datasets-generated cache (work ∷ works) held h =
        elim (dataset_for_work-Taken cache work held h.0) [
          | inl (failure, r, t) ↦ rw (r, t) refl
          | inr (ds, cache', r, t, held') ↦
              rw (r, t)
                (ap (λ rest. rest >>= λ l. ok (ds ∷ l)) (datasets-generated cache' works held' h.1))
        ]

-- The miner's cache, empty at the start, is transparent as long as all works of one epoch carry the
-- same boundary hash: the datasets of any sequence of works are those that generating each of them
-- anew gives, errors included.
pub datasets_transparent :
    (b : Blake3) (boundary : ℕ → Option Hash256) (works : List WorkTemplate)
    → All (λ w. w.epoch_boundary_hash ≡ boundary w.epoch) works
    → datasets b none works ≡ generated b works
datasets_transparent b boundary works h = datasets-generated b boundary none works tt h
