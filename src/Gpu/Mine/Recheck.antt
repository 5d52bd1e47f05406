-- ===== src/Gpu/Mine/Recheck.antt =====
-- `mine_block_gpu` returns only what the CPU has confirmed.
use ondris.Prelude.{
  ℕ, zero, suc, ◌+◌, ◌%◌, ◌^◌, ◌≡◌, refl, Bool, true, false, Option, none, some, Bytes,
  if◌then◌else◌,
}
use ondris.Primitives.{Blake3}
use ondris.Block.{Block, bytes_for_pow, with_nonce}
use ondris.Pow.{Dataset, accesses_per_hash}
use ondris.Gpu.Session.{Device, MiningSession}
use ondris.Gpu.Session.Buffers.{try_batch-Batch}
use ondris.Gpu.Session.Uploads.{IsSession}
use ondris.Gpu.Mine.{Search, searching, failed, mined, confirmed, after_batch, mine_block_gpu}

-- A search that is over has failed on the device, or has a block that the CPU confirmed.
abbrev pub IsConfirmed : Blake3 → Device → Block → Bytes → Dataset → Search → Type 0
IsConfirmed b d block target ds searching = Unit {0}
IsConfirmed b d block target ds failed = Unit {0}
IsConfirmed b d block target ds (mined found) =
    (nonce : ℕ) × (found ≡ with_nonce block nonce) × (confirmed b d block target ds nonce ≡ true)

module _ (b : Blake3) (d : Device) (block : Block) (target : Bytes) (ds : Dataset)
    (batch_size : ℕ) where
  abbrev Sane : Search × MiningSession → Type 0
  Sane r = IsConfirmed b d block target ds r.0 × IsSession ds.bytes r.1

  after_batch-Sane :
      (answer : Option (Option ℕ)) (session : MiningSession) (rest : Search × MiningSession)
      → IsSession ds.bytes session
      → Sane rest
      → Sane (after_batch b d block target ds answer session rest)
  unfolding after_batch
  after_batch-Sane none session rest is s = (tt, is)
  after_batch-Sane (some none) session rest is s = s
  after_batch-Sane (some (some nonce)) session rest is s =
      go (confirmed b d block target ds nonce) refl
    where
      go :
          (c : Bool)
          → confirmed b d block target ds nonce ≡ c
          → Sane (if c then (mined (with_nonce block nonce), session) else rest)
      go true e = ((nonce, refl, e), is)
      go false e = s

  -- Whatever the device answers, and however long the search is: a block that comes out is the
  -- block it was given with a nonce whose hash, computed on the CPU, meets the target, and a session
  -- for the dataset is one afterwards.
  pub mine_block_gpu-IsConfirmed :
      (fuel : ℕ) (session : MiningSession) (nonce_base : ℕ)
      → IsSession ds.bytes session
      → IsConfirmed b d block target ds
          (mine_block_gpu b d fuel session block target ds batch_size nonce_base).0
        × IsSession ds.bytes
            (mine_block_gpu b d fuel session block target ds batch_size nonce_base).1
  unfolding mine_block_gpu
  mine_block_gpu-IsConfirmed zero session nonce_base is = (tt, is)
  mine_block_gpu-IsConfirmed (suc fuel) session nonce_base is =
      let batch =
        try_batch-Batch d ds.bytes (bytes_for_pow block.header) target nonce_base accesses_per_hash
          batch_size session is in
      after_batch-Sane _ _ _ batch.session
        (mine_block_gpu-IsConfirmed fuel _ ((nonce_base + batch_size) % 2 ^ 64) batch.session)
