-- ===== src/Gpu/SelfTest/Passes.antt =====
-- `self_test` on a device that runs the kernel as it is written.
use ondris.Prelude.{
  ℕ, ◌≡◌, refl, ap, ◌∙◌, true, some, List, [], ◌∷◌, Bytes, All, length, take, take_all,
  bytes_eq_refl, if◌then◌else◌, ◌≤◌, arith,
}
use ondris.Primitives.{Blake3, Blake3Laws, Hash256}
use ondris.Pow
use ondris.Pow.{
  Dataset, item_size, accesses_per_hash, cache_size, dataset_size, generate_with_sizes,
}
use ondris.Pow.Bounds.{IsWhole, generate_with_sizes_total, default_sizes}
use ondris.Gpu.Blake3Ref.Sizes.{length-hash}
use ondris.Gpu.HashRef.{ondris_hash_with_accesses}
use ondris.Gpu.HashRef.Agreement.{ondris_hash_with_accesses-agrees}
use ondris.Gpu.Session.{Device, buffer_ro, fits}
use ondris.Gpu.Mine.Reports.{Agrees}
use ondris.Gpu.Kernel.Agreement.{ondris_hash_core-agrees}
use ondris.Gpu.SelfTest.{
  Verdict, mismatch, passed, ondris_hash_debug, hash_debug, compared, check_cases, check_dataset,
  self_test, tiny_cases, full_cases,
}

-- A device that takes every buffer and gives one of 32 bytes.
pub record IsReady (d : Device) : Type 0 where
  pub takes : (contents : Bytes) → d.accepts contents ≡ true
  pub gives : (digest_buf : Bytes) × (d.fresh 32 ≡ some digest_buf)

module _ (b : Blake3) (d : Device) (agree : Agrees b) (ready : IsReady d) where
  -- On a dataset of whole items and a header that fits, `hash_debug` returns ondris-pow's hash.
  pub hash_debug-agrees :
      (header_bytes : Bytes) (nonce : ℕ) (ds : Dataset) (accesses : ℕ)
      → IsWhole ds
      → fits header_bytes ≡ true
      → hash_debug d ondris_hash_debug ds.bytes header_bytes nonce accesses
        ≡ some (Pow.ondris_hash_with_accesses b header_bytes nonce ds accesses)
  unfolding hash_debug ondris_hash_debug buffer_ro
  hash_debug-agrees header_bytes nonce ds accesses w short =
      let (digest_buf, given) = ready.gives in
      let same =
        ondris_hash_core-agrees ds.bytes header_bytes nonce accesses w.items w.some_item w.whole
          short in
      let cpu =
        ondris_hash_with_accesses-agrees b header_bytes nonce ds accesses agree.digest agree.output
          w in
      let size : length (ondris_hash_with_accesses header_bytes nonce ds.bytes accesses) ≤ 32 =
        unfold ondris_hash_with_accesses in omega (arith, length-hash _) in
      rw short (
        rw (ready.takes ds.bytes) (
          rw (ready.takes header_bytes)
            (rw given (ap (λ h. some (take 32 h)) same ∙ ap some (take_all 32 _ size ∙ cpu)))))

  check_cases_pass :
      (ds : Dataset) (accesses : ℕ) (cases : List (Bytes × ℕ)) (rest : Verdict)
      → IsWhole ds
      → All (λ c. fits c.0 ≡ true) cases
      → check_cases b d ondris_hash_debug ds accesses cases rest ≡ rest
  unfolding check_cases compared
  check_cases_pass ds accesses [] rest w h = refl
  check_cases_pass ds accesses ((header, nonce) ∷ cases) rest w h =
      let expected = Pow.ondris_hash_with_accesses b header nonce ds accesses in
      ap (λ a. compared a expected (check_cases b d ondris_hash_debug ds accesses cases rest))
        (hash_debug-agrees header nonce ds accesses w h.0)
      ∙ ap (λ t. if t then check_cases b d ondris_hash_debug ds accesses cases rest else mismatch)
          (bytes_eq_refl expected)
      ∙ check_cases_pass ds accesses cases rest w h.1

  check_dataset_pass :
      (seed : Hash256) (cache_len dataset_len accesses : ℕ) (cases : List (Bytes × ℕ))
      (rest : Verdict)
      → Blake3Laws b
      → item_size ≤ cache_len
      → item_size ≤ dataset_len
      → All (λ c. fits c.0 ≡ true) cases
      → check_dataset b d ondris_hash_debug
          (generate_with_sizes b 0 seed cache_len dataset_len)
          accesses
          cases
          rest
        ≡ rest
  unfolding check_dataset
  check_dataset_pass seed cache_len dataset_len accesses cases rest laws hc hd h =
      let (ds, made, _, _, _, w) =
        generate_with_sizes_total b laws 0 seed cache_len dataset_len hc hd in
      ap (λ r. check_dataset b d ondris_hash_debug r accesses cases rest) made
      ∙ check_cases_pass ds accesses cases rest w h

-- The self test passes: on a device that takes every buffer and runs `ondris_hash_debug`, with a
-- BLAKE3 that has the documented sizes and agrees with this crate's own, both datasets are generated
-- and the kernel's digest is that of ondris-pow in each of the twelve cases.
pub self_test_passes :
    (b : Blake3) (d : Device)
    → Blake3Laws b
    → Agrees b
    → IsReady d
    → self_test b d ondris_hash_debug ≡ passed
unfolding self_test
self_test_passes b d laws agree ready =
    check_dataset_pass b d agree ready _ 4096 8192 8 tiny_cases _ laws (omega arith) (omega arith)
      (refl, (refl, (refl, (refl, (refl, (refl, (refl, (refl, (refl, (refl, tt))))))))))
    ∙ check_dataset_pass b d agree ready _ cache_size dataset_size accesses_per_hash full_cases
        passed laws default_sizes.0 default_sizes.1 (refl, (refl, tt))
