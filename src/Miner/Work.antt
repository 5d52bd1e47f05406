-- ===== src/Miner/Work.antt =====
-- crates/ondris-miner/src/main.rs: the dataset that the main loop takes for the work it fetched. The
-- GPU miner's loop has the same lines.
pub mod Cached
use ondris.Prelude.{List, [], ◌∷◌, ℕ, Option, none, some, ◌==◌, if◌then◌else◌, Result, ok, ◌>>=◌}
use ondris.Primitives.{Blake3}
use ondris.Pow.{Dataset, generate, epoch_seed}
use ondris.Node.Requests.{WorkTemplate}
use ondris.Miner.Search.{Job}

-- `cached_dataset`
abbrev pub Cache : Type 0
Cache = Option (ℕ × Dataset)

module _ (b : Blake3) where
  unfoldable pub new_dataset : WorkTemplate → Result (Dataset × Cache)
  new_dataset work = do
    ds ← generate b work.epoch (epoch_seed b work.epoch_boundary_hash)
    ok (ds, some (work.epoch, ds))

  -- The dataset of the cache, if it is of the epoch of the work, or a new one.
  unfoldable pub dataset_for_work : Cache → WorkTemplate → Result (Dataset × Cache)
  dataset_for_work none work = new_dataset work
  dataset_for_work (some (epoch, ds)) work =
      if epoch == work.epoch then ok (ds, some (epoch, ds)) else new_dataset work

  -- The datasets that the main loop mines the works with that it fetches, one after the other.
  unfoldable pub datasets : Cache → List WorkTemplate → Result (List Dataset)
  datasets cached_dataset [] = ok []
  datasets cached_dataset (work ∷ works) = do
    taken ← dataset_for_work cached_dataset work
    rest ← datasets taken.1 works
    ok (taken.0 ∷ rest)

  -- What `mine_block` is called with.
  unfoldable pub job_of : ℕ → WorkTemplate → Dataset → Job
  job_of threads work ds = record {
    blake3 = b;
    block = work.block;
    target = work.target;
    dataset = ds;
    threads = threads;
  }
