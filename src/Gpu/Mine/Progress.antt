-- ===== src/Gpu/Mine/Progress.antt =====
-- `mine_block_gpu` finds a nonce that is there, with a kernel that computes this crate's hash.
use native.Mathlib.Nat.{mod-eq_of_lt, mod-lt, div-add-mod}
use ondris.Prelude.{
  ℕ, zero, suc, ◌+◌, ◌-◌, ◌*◌, ◌/◌, ◌%◌, ◌^◌, ◌≤◌, ◌<◌, ◌≡◌, sym, ap, subst, ◌∙◌, true, false,
  Bool-cases, inl, inr, ◌⊎◌, Option, none, some, Bytes, [], replicate, from_le_bytes, leb, leb→le,
  arith,
}
use ondris.Primitives.{Blake3}
use ondris.Block.{Block, bytes_for_pow, with_nonce}
use ondris.Pow
use ondris.Pow.{Dataset, accesses_per_hash, meets_target}
use ondris.Pow.Bounds.{IsWhole}
use ondris.Gpu.HashRef.Agreement.{ondris_hash_with_accesses-agrees}
use ondris.Gpu.Session.{Launch, Device, MiningSession, fits, try_batch}
use ondris.Gpu.Session.Buffers.{
  Batch, too_long, not_uploaded, not_launched, Answered, launch_of, try_batch-Batch,
}
use ondris.Gpu.Session.Uploads.{IsSession}
use ondris.Gpu.Mine.{Search, mined, confirmed, after_batch, mine_block_gpu}
use ondris.Gpu.Mine.Reports.{hits, Reports, IsMiner, Agrees}

module _ (b : Blake3) (d : Device) (agrees : Agrees b) (miner : IsMiner d) where
  module _ (block : Block) (target : Bytes) (ds : Dataset) (batch_size : ℕ) where
    -- A reported hit is confirmed.
    hit-confirmed :
        (nonce : ℕ)
        → IsWhole ds
        → hits
            (launch_of ds.bytes
              (bytes_for_pow block.header)
              0
              accesses_per_hash
              target
              0
              (replicate 0 0))
            nonce
          ≡ confirmed b d block target ds nonce
    unfolding confirmed Pow.ondris_hash
    hit-confirmed nonce w =
        ap (λ h. meets_target h target)
          (ondris_hash_with_accesses-agrees b (bytes_for_pow block.header) nonce ds
            accesses_per_hash agrees.digest agrees.output w)

    -- What the answer of a batch says of the CPU's check.
    abbrev Says : ℕ → Option (Option ℕ) → Type 0
    Says nonce_base answer =
        ((answer ≡ some none)
          × ((i : ℕ)
              → i < batch_size
              → confirmed b d block target ds ((nonce_base + i) % 2 ^ 64) ≡ false))
        ⊎ ((m : ℕ) × (answer ≡ some (some m)) × (confirmed b d block target ds m ≡ true))

    try_batch-Says :
        (session : MiningSession) (nonce_base : ℕ)
        → IsSession ds.bytes session
        → IsWhole ds
        → fits (bytes_for_pow block.header) ≡ true
        → Says nonce_base
            (try_batch d session
              (bytes_for_pow block.header)
              nonce_base
              accesses_per_hash
              target
              batch_size).0
    try_batch-Says session nonce_base is w short = elim batch.ending [
      | inl (e, too_long long) ↦ absurd (cc (short, long))
      | inl (e, not_uploaded contents refused) ↦ absurd (cc (miner.takes contents, refused))
      | inl (e, not_launched before failed) ↦
          let (nb, fb, launched, reports) = run before in absurd (cc (failed, launched))
      | inr (a, e, answered) ↦
          let (nb, fb, launched, reports) = run answered.before in
          let same = ap pair_or (sym launched ∙ answered.launched) in
          told a answered e (subst (λ p. Reports (args answered.before) p.0 p.1) same reports)
    ]
      where
        batch :
            Batch d ds.bytes
              (bytes_for_pow block.header)
              target
              nonce_base
              accesses_per_hash
              batch_size
              (try_batch d session
                (bytes_for_pow block.header)
                nonce_base
                accesses_per_hash
                target
                batch_size)
        batch =
            try_batch-Batch d ds.bytes (bytes_for_pow block.header) target nonce_base
              accesses_per_hash batch_size session is

        args : Bytes → Launch
        args =
            launch_of ds.bytes (bytes_for_pow block.header) nonce_base accesses_per_hash target
              batch_size

        run :
            (before : Bytes)
            → (nb : Bytes) × (fb : Bytes) × (d.launch (args before) ≡ some (nb, fb))
              × Reports (args before) nb fb
        run before =
            miner.runs ds.bytes (bytes_for_pow block.header) target nonce_base accesses_per_hash
              batch_size w.items before w.some_item w.whole short

        pair_or : Option (Bytes × Bytes) → Bytes × Bytes
        pair_or none = ([], [])
        pair_or (some p) = p

        result : Option (Option ℕ)
        result =
            (try_batch d session (bytes_for_pow block.header) nonce_base accesses_per_hash target
              batch_size).0

        told :
            (a : Option ℕ)
            (answered : Answered d ds.bytes
              (bytes_for_pow block.header)
              target
              nonce_base
              accesses_per_hash
              batch_size
              a)
            → result ≡ some a
            → Reports (args answered.before) answered.nonce_bytes answered.found_bytes
            → Says nonce_base result
        told a answered e (inl (down, misses)) =
            let nothing : a ≡ none = answered.read ∙ ground (arith, down) in
            inl (
              e ∙ ap some nothing,
              λ i l. sym (hit-confirmed ((nonce_base + i) % 2 ^ 64) w) ∙ misses i l,
            )
        told a answered e (inr (up, met)) =
            let m = from_le_bytes answered.nonce_bytes in
            let there : a ≡ some m = answered.read ∙ ground (arith, up) in
            inr (m, e ∙ ap some there, sym (hit-confirmed m w) ∙ met)

    abbrev Finds : ℕ → MiningSession → ℕ → Type 0
    Finds fuel session nonce_base =
        (nonce : ℕ) × ((mine_block_gpu b d fuel session block target ds batch_size nonce_base).0
          ≡ mined (with_nonce block nonce))
        × (confirmed b d block target ds nonce ≡ true)

    Finds-from :
        (fuel : ℕ) (session : MiningSession) (nonce_base n : ℕ)
        → IsSession ds.bytes session
        → IsWhole ds
        → fits (bytes_for_pow block.header) ≡ true
        → n < 2 ^ 64
        → confirmed b d block target ds n ≡ true
        → nonce_base ≤ n
        → n < nonce_base + fuel * batch_size
        → Finds fuel session nonce_base
    unfolding mine_block_gpu after_batch
    Finds-from zero session nonce_base n is w short small hit lo hi = absurd (omega arith)
    Finds-from (suc fuel) session nonce_base n is w short small hit lo hi =
        elim (try_batch-Says session nonce_base is w short) [
          | inr (m, e, met) ↦ (
            m,
            ap (λ a. (after_batch b d block target ds a next rest).0) e ∙ ground (arith, met),
            met,
          )
          | inl (e, misses) ↦
              let far : nonce_base + batch_size ≤ n =
                elim (Bool-cases (leb (nonce_base + batch_size) n)) [
                  | inl beyond ↦ leb→le (nonce_base + batch_size) n beyond
                  | inr within ↦ absurd (missed misses within)
                ] in
              let base : (nonce_base + batch_size) % 2 ^ 64 ≡ nonce_base + batch_size =
                mod-eq_of_lt (omega (arith, far, small)) in
              let (m, found, met) =
                Finds-from fuel next ((nonce_base + batch_size) % 2 ^ 64) n
                  (try_batch-Batch d ds.bytes (bytes_for_pow block.header) target nonce_base
                    accesses_per_hash batch_size session is).session
                  w short small hit (omega (arith, base, far)) (omega (arith, base, hi)) in
              (m, ap (λ a. (after_batch b d block target ds a next rest).0) e ∙ found, met)
        ]
      where
        next : MiningSession
        next =
            (try_batch d session (bytes_for_pow block.header) nonce_base accesses_per_hash target
              batch_size).1

        rest : Search × MiningSession
        rest =
            mine_block_gpu b d fuel next block target ds batch_size
              ((nonce_base + batch_size) % 2 ^ 64)

        missed :
            ((i : ℕ)
              → i < batch_size
              → confirmed b d block target ds ((nonce_base + i) % 2 ^ 64) ≡ false)
            → leb (nonce_base + batch_size) n ≡ false
            → ⊥
        missed misses within =
            let inside : n < nonce_base + batch_size = ground (arith, within) in
            let at : nonce_base + (n - nonce_base) ≡ n = omega (arith, lo) in
            let same : (nonce_base + (n - nonce_base)) % 2 ^ 64 ≡ n =
              ap (λ v. v % 2 ^ 64) at ∙ mod-eq_of_lt small in
            let miss = misses (n - nonce_base) (omega (arith, inside, lo)) in
            cc (miss, ap (confirmed b d block target ds) same, hit)

    -- With a device that takes every buffer and whose kernel computes this crate's hash, a BLAKE3
    -- that agrees with this crate's, a dataset of whole items that the session was made for, a
    -- header that fits the kernel's buffer and batches of at least one nonce: if some u64 nonce n
    -- meets the target, the search that starts at nonce 0 returns, within n / batch_size + 1
    -- batches, the block it was given with a nonce that the CPU confirms.
    pub mine_block_gpu-finds :
        (session : MiningSession) (n : ℕ)
        → IsSession ds.bytes session
        → IsWhole ds
        → fits (bytes_for_pow block.header) ≡ true
        → 1 ≤ batch_size
        → n < 2 ^ 64
        → confirmed b d block target ds n ≡ true
        → (nonce : ℕ) × ((mine_block_gpu b d
              (n / batch_size + 1)
              session
              block
              target
              ds
              batch_size
              0).0
            ≡ mined (with_nonce block nonce))
          × (confirmed b d block target ds nonce ≡ true)
    mine_block_gpu-finds session n is w short some_nonce small hit =
        Finds-from (n / batch_size + 1) session 0 n is w short small hit (omega arith)
          (omega (arith, div-add-mod n batch_size, mod-lt n some_nonce))
