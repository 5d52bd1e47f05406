-- ===== src/Gpu/Mine/Passes.antt =====
-- The passes of `mine`: the session that is kept is one for the dataset that the CPU checks with.
use ondris.Prelude.{
  ℕ, ◌≡◌, refl, sym, ap, subst, ◌∙◌, Bool-cases, Option-cases, inl, inr, Option, none, some, Result,
  ok, err, ◌>>=◌, ◌==◌, ==→eq, arith,
}
use ondris.Primitives.{Blake3}
use ondris.Pow.{Dataset, generate, epoch_seed}
use ondris.Node.Requests.{WorkTemplate}
use ondris.Miner.Work.{Cache}
use ondris.Gpu.Session.{Device, MiningSession, mining_session}
use ondris.Gpu.Session.Uploads.{IsSession, mining_session-IsSession}
use ondris.Gpu.Mine.{
  Search, Loop, kept, new_dataset, search_with, dataset_for_work, session_for_work, mine_work,
}
use ondris.Gpu.Mine.Recheck.{IsConfirmed, mine_block_gpu-IsConfirmed}

-- The session that is kept is one for the cached dataset, and of its epoch.
abbrev pub IsKept : Cache → Option (ℕ × MiningSession) → Type 0
IsKept cache none = Unit {0}
IsKept none (some held) = ⊥
IsKept (some (epoch, ds)) (some held) = (held.0 ≡ epoch) × IsSession ds.bytes held.1

-- The cache has this dataset for the epoch.
abbrev pub Caches : Cache → ℕ → Dataset → Type 0
Caches none epoch ds = ⊥
Caches (some held) epoch ds = (held.0 ≡ epoch) × (held.1 ≡ ds)

kept-Caches :
    (cache : Cache) (epoch : ℕ) (ds : Dataset) → kept cache epoch ≡ some ds → Caches cache epoch ds
kept-Caches none epoch ds e = absurd (cc e)
kept-Caches (some (cached_epoch, held)) epoch ds e = elim (Bool-cases (cached_epoch == epoch)) [
  | inl same ↦
      let found : kept (some (cached_epoch, held)) epoch ≡ some held = ground (arith, same) in
      (==→eq cached_epoch epoch same, ap (found_or held) (sym found ∙ e))
  | inr other ↦
      let lost : kept (some (cached_epoch, held)) epoch ≡ none = ground (arith, other) in
      absurd (cc (e, lost))
]
  where
    found_or : Dataset → Option Dataset → Dataset
    found_or d none = d
    found_or d (some ds) = ds

module _ (b : Blake3) (d : Device) where
  -- What one pass leaves: a search that found only what the CPU confirmed with the dataset that is
  -- then in the cache for the epoch of the work, and a session for that dataset.
  abbrev pub PassOk : WorkTemplate → Result (Search × Loop) → Type 0
  PassOk work (err e) = Unit {0}
  PassOk work (ok (r, l)) =
      IsKept l.cached_dataset l.session
      × ((ds : Dataset) × Caches l.cached_dataset work.epoch ds
          × IsConfirmed b d work.block work.target ds r)

  -- The dataset is cached, and the session that is left belongs to it.
  abbrev Ready : WorkTemplate → Result (Dataset × Loop) → Type 0
  Ready work (err e) = Unit {0}
  Ready work (ok (ds, l)) =
      Caches l.cached_dataset work.epoch ds × IsKept l.cached_dataset l.session

  new_dataset-Ready : (work : WorkTemplate) → Ready work (new_dataset b d work)
  unfolding new_dataset
  new_dataset-Ready work = made (generate b work.epoch (epoch_seed b work.epoch_boundary_hash))
    where
      made :
          (r : Result Dataset)
          → Ready work (
              r >>= λ ds.
              ok (ds, record { cached_dataset = some (work.epoch, ds); session = none }))
      made (err e) = tt
      made (ok ds) = ((refl, refl), tt)

  dataset_for_work-Ready :
      (l : Loop) (work : WorkTemplate)
      → IsKept l.cached_dataset l.session
      → Ready work (dataset_for_work b d l work)
  unfolding dataset_for_work
  dataset_for_work-Ready l work h = look (kept l.cached_dataset work.epoch) refl
    where
      look :
          (o : Option Dataset)
          → kept l.cached_dataset work.epoch ≡ o
          → Ready work (elim o [ some ds ↦ ok (ds, l) | none ↦ new_dataset b d work ])
      look none e = new_dataset-Ready work
      look (some ds) e = (kept-Caches l.cached_dataset work.epoch ds e, h)

  session_for_work-IsKept :
      (cache : Cache) (held : Option (ℕ × MiningSession)) (work : WorkTemplate) (ds : Dataset)
      → Caches cache work.epoch ds
      → IsKept cache held
      → IsKept cache (session_for_work b d held work ds)
  unfolding session_for_work
  session_for_work-IsKept cache (some held) work ds c h = h
  session_for_work-IsKept none none work ds c h = absurd c
  session_for_work-IsKept (some (epoch, cached)) none work ds c h =
      elim (Option-cases (mining_session d ds.bytes)) [
        | inl e ↦ subst (IsKept (some (epoch, cached))) (sym (none_of e)) tt
        | inr (s, e) ↦ subst (IsKept (some (epoch, cached))) (sym (some_of s e)) (
          sym c.0,
          subst (λ v. IsSession v.bytes s) (sym c.1) (mining_session-IsSession d ds.bytes s e),
        )
      ]
    where
      none_of : mining_session d ds.bytes ≡ none → session_for_work b d none work ds ≡ none
      none_of e = ground (arith, e)

      some_of :
          (s : MiningSession)
          → mining_session d ds.bytes ≡ some s
          → session_for_work b d none work ds ≡ some (work.epoch, s)
      some_of s e = ground (arith, e)

  search_with-PassOk :
      (fuel batch_size : ℕ) (work : WorkTemplate) (ds : Dataset) (l : Loop)
      (held : Option (ℕ × MiningSession))
      → Caches l.cached_dataset work.epoch ds
      → IsKept l.cached_dataset l.session
      → IsKept l.cached_dataset held
      → PassOk work (ok (search_with b d fuel batch_size work ds l held))
  unfolding search_with
  search_with-PassOk fuel batch_size work ds l none c k h = (k, (ds, c, tt))
  search_with-PassOk fuel batch_size work ds l (some (epoch, session)) c k h =
      let is = of_dataset l.cached_dataset c h in
      let (found, left) =
        mine_block_gpu-IsConfirmed b d work.block work.target ds batch_size fuel session 0 is in
      (keep l.cached_dataset _ c h left, (ds, c, found))
    where
      of_dataset :
          (cache : Cache)
          → Caches cache work.epoch ds
          → IsKept cache (some (epoch, session))
          → IsSession ds.bytes session
      of_dataset none c h = absurd c
      of_dataset (some held) c h = subst (λ v. IsSession v.bytes session) c.1 h.1

      keep :
          (cache : Cache) (next : MiningSession)
          → Caches cache work.epoch ds
          → IsKept cache (some (epoch, session))
          → IsSession ds.bytes next
          → IsKept cache (some (epoch, next))
      keep none next c h left = absurd c
      keep (some held) next c h left = (h.0, subst (λ v. IsSession v.bytes next) (sym c.1) left)

  -- From a loop whose session is one for the cached dataset and its epoch, one pass over any work,
  -- with any device: the session is one for the cached dataset again, the cached dataset is of the
  -- work's epoch, and a block that was found is the work's with a nonce that the CPU confirmed on
  -- that dataset.
  pub mine_work-PassOk :
      (fuel batch_size : ℕ) (l : Loop) (work : WorkTemplate)
      → IsKept l.cached_dataset l.session
      → PassOk work (mine_work b d fuel batch_size l work)
  unfolding mine_work
  mine_work-PassOk fuel batch_size l work h =
      go (dataset_for_work b d l work) (dataset_for_work-Ready l work h)
    where
      go :
          (r : Result (Dataset × Loop))
          → Ready work r
          → PassOk work (
              r >>= λ p. ok (
                search_with b d fuel batch_size work p.0 p.1
                  (session_for_work b d p.1.session work p.0)))
      go (err e) ready = tt
      go (ok (ds, l₁)) (c, k) =
          search_with-PassOk fuel batch_size work ds l₁ (session_for_work b d l₁.session work ds) c
            k (session_for_work-IsKept l₁.cached_dataset l₁.session work ds c k)
