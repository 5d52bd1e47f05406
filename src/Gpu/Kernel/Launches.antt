-- ===== src/Gpu/Kernel/Launches.antt =====
-- A launch of `ondris_mine`, in whatever order its work-items write.
use native.Mathlib.Nat.{mod-lt, pow-suc}
use ondris.Prelude.{
  ℕ, zero, suc, ◌+◌, ◌/◌, ◌%◌, ◌^◌, ◌<◌, ◌≡◌, refl, ap, subst, ◌∙◌, Bool, true, false, inl, inr,
  ◌⊎◌, List, [], ◌∷◌, ◌++◌, Bytes, All, replicate, to_le_bytes, from_le_bytes, if◌then◌else◌, arith,
}
use ondris.Pow.{meets_target}
use ondris.Gpu.Session.{Launch}
use ondris.Gpu.Session.Buffers.{launch_of}
use ondris.Gpu.Mine.Reports.{hits, Reports, IsMiner}
use ondris.Gpu.Kernel.{ondris_hash_core, work_item, work_items, kernel_device}
use ondris.Gpu.Kernel.Agreement.{ondris_hash_core-agrees}

-- An order has every work-item of a batch.
pub record IsOrder (order : ℕ → List ℕ) : Type 0 where
  pub has :
      (n i : ℕ) → i < n → (before : List ℕ) × (behind : List ℕ) × (order n ≡ before ++ (i ∷ behind))

from_le_bytes-to_le_bytes : (w n : ℕ) → n < 256 ^ w → from_le_bytes (to_le_bytes w n) ≡ n
from_le_bytes-to_le_bytes zero n h = omega arith
from_le_bytes-to_le_bytes (suc w) n h =
    omega (arith, from_le_bytes-to_le_bytes w (n / 256) (omega (arith, h, pow-suc 256 w)))

All-middle {ℓ κ} :
    {A : Type ℓ} (P : A → Type κ) (xs : List A) (a : A) (ys : List A) → All P (xs ++ (a ∷ ys)) → P a
All-middle P [] a ys h = h.0
All-middle P (x ∷ xs) a ys h = All-middle P xs a ys h.1

module _ (l : Launch)
    (exact : (nonce : ℕ)
      → meets_target
          (ondris_hash_core l.dataset l.dataset_len l.header l.header_len nonce l.accesses)
          l.target
        ≡ hits l nonce) where
  abbrev nonce_of : ℕ → ℕ
  nonce_of i = (l.nonce_base + i) % 2 ^ 64

  -- Without a hit the buffers stay; otherwise some hit is in them.
  abbrev Written : List ℕ → Bytes × Bytes → Bytes × Bytes → Type 0
  Written order before behind =
      ((behind ≡ before) × All (λ i. hits l (nonce_of i) ≡ false) order)
      ⊎ ((i : ℕ) × (hits l (nonce_of i) ≡ true)
          × (behind ≡ (to_le_bytes 8 (nonce_of i), to_le_bytes 4 1)))

  work_items-Written :
      (order : List ℕ) (buffers : Bytes × Bytes)
      → Written order buffers (work_items l order buffers)
  unfolding work_items work_item
  work_items-Written [] buffers = inl (refl, tt)
  work_items-Written (i ∷ order) buffers =
      step (hits l (nonce_of i)) refl (work_items-Written order (work_item l i buffers))
    where
      step :
          (h : Bool)
          → hits l (nonce_of i) ≡ h
          → Written order (work_item l i buffers) (work_items l order (work_item l i buffers))
          → Written (i ∷ order) buffers (work_items l order (work_item l i buffers))
      step true met later =
          let wrote : work_item l i buffers ≡ (to_le_bytes 8 (nonce_of i), to_le_bytes 4 1) =
            ap (λ b. if b then (to_le_bytes 8 (nonce_of i), to_le_bytes 4 1) else buffers)
              (exact (nonce_of i) ∙ met) in
          elim later [ inl (same, misses) ↦ inr (i, met, same ∙ wrote) | inr hit ↦ inr hit ]
      step false miss later =
          let kept : work_item l i buffers ≡ buffers =
            ap (λ b. if b then (to_le_bytes 8 (nonce_of i), to_le_bytes 4 1) else buffers)
              (exact (nonce_of i) ∙ miss) in
          elim later [ inl (same, misses) ↦ inl (same ∙ kept, (miss, misses)) | inr hit ↦ inr hit ]

  work_items-Reports :
      (order : ℕ → List ℕ)
      → IsOrder order
      → l.result_found ≡ replicate 4 0
      → Reports l
          (work_items l (order l.batch_size) (l.result_nonce, l.result_found)).0
          (work_items l (order l.batch_size) (l.result_nonce, l.result_found)).1
  work_items-Reports order all zeros =
      elim (work_items-Written (order l.batch_size) (l.result_nonce, l.result_found)) [
        | inl (same, misses) ↦
            inl
              (ap (λ p. from_le_bytes p.1) same ∙ ap from_le_bytes zeros, λ i h. missed misses i h)
        | inr (i, met, wrote) ↦
            let m : from_le_bytes (to_le_bytes 8 (nonce_of i)) ≡ nonce_of i =
              from_le_bytes-to_le_bytes 8 (nonce_of i) (mod-lt (l.nonce_base + i) (omega arith)) in
            inr (
              omega (arith, ap (λ p. from_le_bytes p.1) wrote),
              ap (hits l) (ap (λ p. from_le_bytes p.0) wrote ∙ m) ∙ met,
            )
      ]
    where
      missed :
          All (λ i. hits l (nonce_of i) ≡ false) (order l.batch_size)
          → (i : ℕ) → i < l.batch_size
          → hits l (nonce_of i) ≡ false
      missed misses i h =
          let (before, behind, split) = all.has l.batch_size i h in
          All-middle (λ j. hits l (nonce_of j) ≡ false) before i behind
            (subst (All (λ j. hits l (nonce_of j) ≡ false)) split misses)

-- The kernel is what `mine_block_gpu` needs of a device, in whatever order its work-items write, on
-- a dataset of whole items and with a header that fits its buffer: if the flag stays down no nonce
-- of the batch meets the target, and if it is up the nonce that is left is one that does.
pub kernel_device-IsMiner : (order : ℕ → List ℕ) → IsOrder order → IsMiner (kernel_device order)
kernel_device-IsMiner order all = record {
  takes = λ contents. refl;
  runs = λ dataset header_bytes target nonce_base accesses batch_size k before pos whole short.
      let l = launch_of dataset header_bytes nonce_base accesses target batch_size before in
      let exact = λ (nonce : ℕ).
        ap (λ h. meets_target h target)
          (ondris_hash_core-agrees dataset header_bytes nonce accesses k pos whole short) in
      let left = work_items l (order batch_size) (before, replicate 4 0) in
      (left.0, left.1, refl, work_items-Reports l exact order all refl);
}
