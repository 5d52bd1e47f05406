-- ===== src/Gpu/Mine/Reports.antt =====
-- What `mine_block_gpu` needs of a device to find a nonce.
use ondris.Prelude.{
  ℕ, ◌+◌, ◌*◌, ◌%◌, ◌^◌, ◌≤◌, ◌<◌, ◌≡◌, Bool, true, false, ◌⊎◌, some, Bytes, length, from_le_bytes,
}
use ondris.Primitives.{Blake3}
use ondris.Pow.{meets_target}
use ondris.Gpu.Blake3Ref.{hash, xof_from_32_bytes}
use ondris.Gpu.HashRef.{ondris_hash_with_accesses}
use ondris.Gpu.Session.{Launch, Device, fits}
use ondris.Gpu.Session.Buffers.{launch_of}

-- The test that a work-item of a launch makes.
abbrev pub hits : Launch → ℕ → Bool
hits l nonce = meets_target (ondris_hash_with_accesses l.header nonce l.dataset l.accesses) l.target

-- What a launch over a whole dataset leaves: the flag stays down and no nonce of the batch is a
-- hit, or the flag is up and the nonce is one.
abbrev pub Reports : Launch → Bytes → Bytes → Type 0
Reports l nonce_bytes found_bytes =
    ((from_le_bytes found_bytes ≡ 0)
      × ((i : ℕ) → i < l.batch_size → hits l ((l.nonce_base + i) % 2 ^ 64) ≡ false))
    ⊎ ((1 ≤ from_le_bytes found_bytes) × (hits l (from_le_bytes nonce_bytes) ≡ true))

-- A device that takes every buffer and runs the kernel as it is meant.
pub record IsMiner (d : Device) : Type 0 where
  pub takes : (contents : Bytes) → d.accepts contents ≡ true
  pub runs :
      (dataset header_bytes target : Bytes) (nonce_base accesses batch_size k : ℕ)
      (result_nonce : Bytes)
      → 1 ≤ k
      → length dataset ≡ k * 128
      → fits header_bytes ≡ true
      → (nonce_bytes : Bytes) × (found_bytes : Bytes) × (d.launch
            (launch_of dataset header_bytes nonce_base accesses target batch_size result_nonce)
          ≡ some (nonce_bytes, found_bytes))
        × Reports
            (launch_of dataset header_bytes nonce_base accesses target batch_size result_nonce)
            nonce_bytes
            found_bytes

-- This crate's BLAKE3 is the published one, as far as OndrisHash uses it.
pub record Agrees (b : Blake3) : Type 0 where
  pub digest : (m : Bytes) → b.hash m ≡ hash m
  pub output : (seed : Bytes) (n : ℕ) → length seed ≡ 32 → b.xof seed n ≡ xof_from_32_bytes seed n
