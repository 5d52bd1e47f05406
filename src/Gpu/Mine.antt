-- ===== src/Gpu/Mine.antt =====
-- crates/ondris-miner-gpu/src/main.rs: the state that `mine` keeps between blocks, and
-- `mine_block_gpu`.
pub mod Recheck
pub mod Passes
pub mod Reports
pub mod Progress
use ondris.Prelude.{
  ℕ, zero, suc, ◌+◌, ◌%◌, ◌^◌, Bool, true, false, Option, none, some, Bytes, if◌then◌else◌, Result,
  ok, ◌>>=◌, ◌==◌,
}
use ondris.Primitives.{Blake3}
use ondris.Block.{Block, bytes_for_pow, with_nonce}
use ondris.Pow.{Dataset, accesses_per_hash, ondris_hash, meets_target, generate, epoch_seed}
use ondris.Node.Requests.{WorkTemplate}
use ondris.Miner.Work.{Cache}
use ondris.Gpu.Session.{Device, MiningSession, mining_session, try_batch}

-- What a search has come to: still in its loop, an error of the device, or the block.
pub data Search : Type 0 where
  searching : Search
  failed : Search
  mined : Block → Search

-- `cached_dataset` and `session` of `mine`
pub record Loop : Type 0 where
  pub cached_dataset : Cache
  pub session : Option (ℕ × MiningSession)

-- The cached dataset, if it is of the epoch.
abbrev pub kept : Cache → ℕ → Option Dataset
kept none epoch = none
kept (some (cached_epoch, ds)) epoch = if cached_epoch == epoch then some ds else none

module _ (b : Blake3) (d : Device) where
  -- The check on the CPU of a nonce that the device reports.
  unfoldable pub confirmed : Block → Bytes → Dataset → ℕ → Bool
  confirmed block target dataset nonce =
      meets_target (ondris_hash b (bytes_for_pow block.header) nonce dataset) target

  -- What follows from the answer of a batch, where `rest` is the rest of the loop.
  unfoldable pub after_batch :
      Block
      → Bytes
      → Dataset
      → Option (Option ℕ)
      → MiningSession
      → Search × MiningSession
      → Search × MiningSession
  after_batch block target dataset none session rest = (failed, session)
  after_batch block target dataset (some none) session rest = rest
  after_batch block target dataset (some (some nonce)) session rest =
      if confirmed block target dataset nonce
      then (mined (with_nonce block nonce), session)
      else rest

  -- The loop of `mine_block_gpu` from a nonce base on, with rounds for fuel.
  unfoldable pub mine_block_gpu :
      ℕ → MiningSession → Block → Bytes → Dataset → ℕ → ℕ → Search × MiningSession
  mine_block_gpu zero session block target dataset batch_size nonce_base = (searching, session)
  mine_block_gpu (suc fuel) session block target dataset batch_size nonce_base =
      let (answer, session') =
        try_batch d session (bytes_for_pow block.header) nonce_base accesses_per_hash target
          batch_size in
      after_batch block target dataset answer session' (
        mine_block_gpu fuel session' block target dataset batch_size
          ((nonce_base + batch_size) % 2 ^ 64))

  -- A new dataset, which drops the session.
  unfoldable pub new_dataset : WorkTemplate → Result (Dataset × Loop)
  new_dataset work = do
    ds ← generate b work.epoch (epoch_seed b work.epoch_boundary_hash)
    ok (ds, record { cached_dataset = some (work.epoch, ds); session = none })

  unfoldable pub dataset_for_work : Loop → WorkTemplate → Result (Dataset × Loop)
  dataset_for_work l work = elim (kept l.cached_dataset work.epoch) [
    | some ds ↦ ok (ds, l)
    | none ↦ new_dataset work
  ]

  -- The session that is kept, or a new one with the dataset uploaded; `none` is an error.
  unfoldable pub session_for_work :
      Option (ℕ × MiningSession) → WorkTemplate → Dataset → Option (ℕ × MiningSession)
  session_for_work (some held) work ds = some held
  session_for_work none work ds = elim (mining_session d ds.bytes) [
    | none ↦ none
    | some session ↦ some (work.epoch, session)
  ]

  -- The search with the session, which it leaves to the next pass.
  unfoldable pub search_with :
      ℕ → ℕ → WorkTemplate → Dataset → Loop → Option (ℕ × MiningSession) → Search × Loop
  search_with fuel batch_size work ds l none = (failed, l)
  search_with fuel batch_size work ds l (some (epoch, session)) =
      let (r, session') = mine_block_gpu fuel session work.block work.target ds batch_size 0 in
      (r, record l { session = some (epoch, session') })

  -- One pass of the loop of `mine`, from the work on: the search, and what is kept for the next.
  unfoldable pub mine_work : ℕ → ℕ → Loop → WorkTemplate → Result (Search × Loop)
  mine_work fuel batch_size l work = do
    (ds, l₁) ← dataset_for_work l work
    ok (search_with fuel batch_size work ds l₁ (session_for_work l₁.session work ds))
