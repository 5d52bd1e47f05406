-- ===== src/Gpu/SelfTest.antt =====
-- crates/ondris-miner-gpu/src/gpu.rs: `hash_debug`; main.rs: `self_test`; kernel.cl:
-- `ondris_hash_debug`. The strings of `self_test` are their bytes.
pub mod Passes
use ondris.Prelude.{
  ℕ, ◌+◌, ◌-◌, ◌*◌, ◌^◌, Bool, true, false, Option, none, some, List, [], ◌∷◌, ◌++◌, Bytes, length,
  take, bytes_eq, if◌then◌else◌, Result, ok, err,
}
use ondris.Primitives.{Blake3, Hash256}
use ondris.Pow.{
  Dataset, accesses_per_hash, cache_size, dataset_size, generate_with_sizes,
  ondris_hash_with_accesses,
}
use ondris.Gpu.Session.{Device, buffer_ro, fits}
use ondris.Gpu.Kernel.{ondris_hash_core}

-- The arguments that a launch of `ondris_hash_debug` is set, with its output buffer before it.
pub record DebugLaunch : Type 0 where
  pub dataset : Bytes
  pub dataset_len : ℕ
  pub header : Bytes
  pub header_len : ℕ
  pub nonce : ℕ
  pub accesses : ℕ
  pub digest_out : Bytes

-- The output buffer that a launch leaves, or its failure.
abbrev pub Debug : Type 0
Debug = DebugLaunch → Option Bytes

-- `ondris_hash_debug`, which writes the 32 bytes of the digest; the launch does not fail.
unfoldable pub ondris_hash_debug : Debug
ondris_hash_debug l =
    let final_hash =
      ondris_hash_core l.dataset l.dataset_len l.header l.header_len l.nonce l.accesses in
    some (take 32 final_hash)

-- How `self_test` ends: with a digest that differs, with an error or a panic, or well.
pub data Verdict : Type 0 where
  mismatch failed passed : Verdict

abbrev tiny_label : Bytes
tiny_label =
    b'g' ∷ b'p' ∷ b'u' ∷ b'-' ∷ b's' ∷ b'e' ∷ b'l' ∷ b'f' ∷ b'-' ∷ b't' ∷ b'e' ∷ b's' ∷ b't' ∷ b'-'
    ∷ b's' ∷ b'e' ∷ b'e' ∷ b'd' ∷ []

abbrev full_label : Bytes
full_label =
    b'g' ∷ b'p' ∷ b'u' ∷ b'-' ∷ b's' ∷ b'e' ∷ b'l' ∷ b'f' ∷ b'-' ∷ b't' ∷ b'e' ∷ b's' ∷ b't' ∷ b'-'
    ∷ b'f' ∷ b'u' ∷ b'l' ∷ b'l' ∷ b'-' ∷ b's' ∷ b'i' ∷ b'z' ∷ b'e' ∷ b'-' ∷ b's' ∷ b'e' ∷ b'e'
    ∷ b'd' ∷ []

abbrev header_a : Bytes
header_a = b'h' ∷ b'e' ∷ b'a' ∷ b'd' ∷ b'e' ∷ b'r' ∷ b'-' ∷ b'a' ∷ []

abbrev longer_header : Bytes
longer_header =
    b'a' ∷ 32 ∷ b'd' ∷ b'i' ∷ b'f' ∷ b'f' ∷ b'e' ∷ b'r' ∷ b'e' ∷ b'n' ∷ b't' ∷ 44 ∷ 32 ∷ b'l' ∷ b'o'
    ∷ b'n' ∷ b'g' ∷ b'e' ∷ b'r' ∷ 32 ∷ b'h' ∷ b'e' ∷ b'a' ∷ b'd' ∷ b'e' ∷ b'r' ∷ 32 ∷ b'v' ∷ b'a'
    ∷ b'l' ∷ b'u' ∷ b'e' ∷ []

abbrev realistic_header : Bytes
realistic_header =
    b'a' ∷ 32 ∷ b'r' ∷ b'e' ∷ b'a' ∷ b'l' ∷ b'i' ∷ b's' ∷ b't' ∷ b'i' ∷ b'c' ∷ 32 ∷ b'l' ∷ b'e'
    ∷ b'n' ∷ b'g' ∷ b't' ∷ b'h' ∷ 32 ∷ b'h' ∷ b'e' ∷ b'a' ∷ b'd' ∷ b'e' ∷ b'r' ∷ 32 ∷ b'v' ∷ b'a'
    ∷ b'l' ∷ b'u' ∷ b'e' ∷ 32 ∷ b'f' ∷ b'o' ∷ b'r' ∷ 32 ∷ b't' ∷ b'h' ∷ b'i' ∷ b's' ∷ 32 ∷ b'c'
    ∷ b'h' ∷ b'e' ∷ b'c' ∷ b'k' ∷ []

abbrev another_header : Bytes
another_header =
    b'a' ∷ b'n' ∷ b'o' ∷ b't' ∷ b'h' ∷ b'e' ∷ b'r' ∷ 32 ∷ b'r' ∷ b'e' ∷ b'a' ∷ b'l' ∷ b'i' ∷ b's'
    ∷ b't' ∷ b'i' ∷ b'c' ∷ 32 ∷ b'h' ∷ b'e' ∷ b'a' ∷ b'd' ∷ b'e' ∷ b'r' ∷ 44 ∷ 32 ∷ b'j' ∷ b'u'
    ∷ b's' ∷ b't' ∷ 32 ∷ b'i' ∷ b'n' ∷ 32 ∷ b'c' ∷ b'a' ∷ b's' ∷ b'e' ∷ 32 ∷ b'n' ∷ b'o' ∷ b'n'
    ∷ b'c' ∷ b'e' ∷ 61 ∷ b'0' ∷ 32 ∷ b'i' ∷ b's' ∷ 32 ∷ b's' ∷ b'p' ∷ b'e' ∷ b'c' ∷ b'i' ∷ b'a'
    ∷ b'l' ∷ []

-- The headers and nonces of the check at tiny sizes, in the order of its two loops.
abbrev nonces : Bytes → List (Bytes × ℕ)
nonces header =
    (header, 0) ∷ (header, 1) ∷ (header, 42) ∷ (header, 2 ^ 64 - 1) ∷ (header, 123456789) ∷ []

abbrev pub tiny_cases : List (Bytes × ℕ)
tiny_cases = nonces header_a ++ nonces longer_header

abbrev pub full_cases : List (Bytes × ℕ)
full_cases = (realistic_header, 424242) ∷ (another_header, 0) ∷ []

-- One comparison with the CPU.
unfoldable pub compared : Option Bytes → Hash256 → Verdict → Verdict
compared none expected rest = failed
compared (some got) expected rest = if bytes_eq got expected then rest else mismatch

module _ (d : Device) (debug : Debug) where
  -- `Gpu::hash_debug`; `none` is an error. The kernel's creation is taken with the buffers.
  unfoldable pub hash_debug : Bytes → Bytes → ℕ → ℕ → Option Bytes
  hash_debug dataset header_bytes nonce accesses =
      if fits header_bytes
      then elim (buffer_ro d dataset) [
        | none ↦ none
        | some dataset_buf ↦ elim (buffer_ro d header_bytes) [
          | none ↦ none
          | some header_buf ↦ elim (d.fresh 32) [
            | none ↦ none
            | some digest_buf ↦ debug (record {
              dataset = dataset_buf;
              dataset_len = length dataset;
              header = header_buf;
              header_len = length header_bytes;
              nonce = nonce;
              accesses = accesses;
              digest_out = digest_buf;
            })
          ]
        ]
      ]
      else none

module _ (b : Blake3) (d : Device) (debug : Debug) where
  -- The comparisons one after the other, and then the rest of the test.
  unfoldable pub check_cases : Dataset → ℕ → List (Bytes × ℕ) → Verdict → Verdict
  check_cases ds accesses [] rest = rest
  check_cases ds accesses ((header, nonce) ∷ cases) rest =
      compared (hash_debug d debug ds.bytes header nonce accesses)
        (ondris_hash_with_accesses b header nonce ds accesses) (check_cases ds accesses cases rest)

  -- A dataset and its comparisons.
  unfoldable pub check_dataset : Result Dataset → ℕ → List (Bytes × ℕ) → Verdict → Verdict
  check_dataset (err reason) accesses cases rest = failed
  check_dataset (ok ds) accesses cases rest = check_cases ds accesses cases rest

  -- `self_test` on a device that is there.
  unfoldable pub self_test : Verdict
  self_test = check_dataset (generate_with_sizes b 0 (b.hash tiny_label) 4096 8192) 8 tiny_cases (
      check_dataset (generate_with_sizes b 0 (b.hash full_label) cache_size dataset_size)
        accesses_per_hash full_cases passed)
