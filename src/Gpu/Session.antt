-- ===== src/Gpu/Session.antt =====
-- crates/ondris-miner-gpu/src/gpu.rs: the buffers of a mining session and `try_batch`. A buffer is its
-- contents on the device.
pub mod Uploads
pub mod Buffers
use ondris.Prelude.{
  ℕ, ◌+◌, Bool, true, false, ◌&&◌, not, Option, none, some, [], ◌∷◌, Bytes, length, replicate,
  from_le_bytes, to_le_bytes, bytes_eq, leb, ◌==◌, if◌then◌else◌,
}

-- The arguments that a launch of `ondris_mine` is set, with the result buffers before it.
pub record Launch : Type 0 where
  pub dataset : Bytes
  pub dataset_len : ℕ
  pub header : Bytes
  pub header_len : ℕ
  pub nonce_base : ℕ
  pub accesses : ℕ
  pub target : Bytes
  pub batch_size : ℕ
  pub result_nonce : Bytes
  pub result_found : Bytes

-- OpenCL: whether a buffer is created and written, what a read/write buffer of a length holds at
-- first, and the result buffers `(result_nonce, result_found)` that a launch leaves, or its failure.
pub record Device : Type 0 where
  pub accepts : Bytes → Bool
  pub fresh : ℕ → Option Bytes
  pub launch : Launch → Option (Bytes × Bytes)

pub record MiningSession : Type 0 where
  pub dataset_buf : Bytes
  pub dataset_len : ℕ
  pub result_nonce : Bytes
  pub result_found : Bytes
  pub cached_header : Option (Bytes × Bytes)
  pub cached_target : Option (Bytes × Bytes)

-- The length of the kernel's input buffer, and of the nonce in it.
abbrev pub fits : Bytes → Bool
fits header_bytes = leb (length header_bytes + 8) 144

module _ (d : Device) where
  unfoldable pub buffer_ro : Bytes → Option Bytes
  buffer_ro contents = if d.accepts contents then some contents else none

  -- `Gpu::mining_session`; the kernel's creation is taken with the result buffers.
  unfoldable pub mining_session : Bytes → Option MiningSession
  mining_session dataset = elim (buffer_ro dataset) [
    | none ↦ none
    | some dataset_buf ↦ elim (d.fresh 8) [
      | none ↦ none
      | some result_nonce ↦ elim (d.fresh 4) [
        | none ↦ none
        | some result_found ↦ some (record {
          dataset_buf = dataset_buf;
          dataset_len = length dataset;
          result_nonce = result_nonce;
          result_found = result_found;
          cached_header = none;
          cached_target = none;
        })
      ]
    ]
  ]

  -- The buffer of the cached data, or a new one; the pair that is cached afterwards.
  unfoldable pub upload : Option (Bytes × Bytes) → Bytes → Option (Bytes × Bytes)
  upload none contents = elim (buffer_ro contents) [ none ↦ none | some buf ↦ some (contents, buf) ]
  upload (some (held, buf)) contents =
      if bytes_eq held contents
      then some (held, buf)
      else elim (buffer_ro contents) [ none ↦ none | some new_buf ↦ some (contents, new_buf) ]

  -- The reads of the results of a launch.
  unfoldable pub read_results :
      MiningSession → Option (Bytes × Bytes) → Option (Option ℕ) × MiningSession
  read_results s none = (none, record s { result_found = replicate 4 0 })
  read_results s (some (nonce_bytes, found_bytes)) = (
    some (if from_le_bytes found_bytes == 0 then none else some (from_le_bytes nonce_bytes)),
    record s { result_nonce = nonce_bytes; result_found = found_bytes },
  )

  -- The launch, after zero is written to `result_found`.
  unfoldable pub launch_batch :
      MiningSession → Bytes → Bytes → Bytes → ℕ → ℕ → ℕ → Option (Option ℕ) × MiningSession
  launch_batch s header_bytes header_buf target_buf nonce_base accesses batch_size =
      read_results s (
        d.launch (record {
          dataset = s.dataset_buf;
          dataset_len = s.dataset_len;
          header = header_buf;
          header_len = length header_bytes;
          nonce_base = nonce_base;
          accesses = accesses;
          target = target_buf;
          batch_size = batch_size;
          result_nonce = s.result_nonce;
          result_found = replicate 4 0;
        }))

  -- `MiningSession::try_batch`; `none` is an error.
  unfoldable pub try_batch :
      MiningSession → Bytes → ℕ → ℕ → Bytes → ℕ → Option (Option ℕ) × MiningSession
  try_batch s header_bytes nonce_base accesses target batch_size =
      if fits header_bytes
      then elim (upload s.cached_header header_bytes) [
        | none ↦ (none, s)
        | some (held_header, header_buf) ↦
            let s₁ : MiningSession = record s { cached_header = some (held_header, header_buf) } in
            elim (upload s.cached_target target) [
              | none ↦ (none, s₁)
              | some (held_target, target_buf) ↦
                  launch_batch (record s₁ { cached_target = some (held_target, target_buf) })
                    header_bytes header_buf target_buf nonce_base accesses batch_size
            ]
      ]
      else (none, s)
