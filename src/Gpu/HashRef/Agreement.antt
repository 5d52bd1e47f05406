-- ===== src/Gpu/HashRef/Agreement.antt =====
-- ondris_hash_ref.rs against ondris-pow's `ondris_hash_with_accesses`.
use native.Mathlib.Nat.{mod-lt, mod-eq_of_lt}
use ondris.Prelude.{
  ℕ, zero, suc, ◌+◌, ◌*◌, ◌/◌, ◌%◌, ◌≤◌, ◌<◌, max, ◌≡◌, refl, sym, ap, subst, ◌∙◌, ◌++◌, Bytes,
  length, take, drop, replicate, to_le_bytes, arith,
}
use ondris.Primitives.{Blake3, Blake3Laws}
use ondris.Gpu.Blake3Ref.{hash, xof_from_32_bytes}
use ondris.Gpu.Blake3Ref.Sizes.{length-hash, hash-IsByte}
use ondris.Gpu.Blake3Ref.Xof.{length-xof_from_32_bytes, xof_from_32_bytes-IsByte}
use ondris.Gpu.HashRef.{
  fnv, read_u32_le, write_u32_le, mix_item, item_index, mix_dataset, compress_mix,
  ondris_hash_with_accesses, item_size,
}
use ondris.Pow
use ondris.Pow.Bounds.{IsWhole}

-- This crate's BLAKE3 in the place of the published one.
abbrev pub blake3_ref : Blake3
blake3_ref = record { hash = hash; xof = xof_from_32_bytes }

pub blake3_ref-Blake3Laws : Blake3Laws blake3_ref
blake3_ref-Blake3Laws = record {
  length-hash = length-hash;
  hash-IsByte = hash-IsByte;
  length-xof = length-xof_from_32_bytes;
  xof-IsByte = xof_from_32_bytes-IsByte;
}

same_fnv : (a b : ℕ) → fnv a b ≡ Pow.fnv a b
unfolding fnv Pow.fnv
same_fnv a b = refl

same_mix_item :
    (left w : ℕ) (mix item : Bytes) → mix_item left w mix item ≡ Pow.mix_words left w mix item
unfolding fnv Pow.fnv read_u32_le Pow.read_u32_le write_u32_le Pow.write_u32_le mix_item
    Pow.mix_words
same_mix_item zero w mix item = refl
same_mix_item (suc left) w mix item = same_mix_item left (w + 1) _ item

pub same_compress_mix :
    (left i : ℕ) (mix compressed : Bytes)
    → compress_mix left i mix compressed ≡ Pow.compress_words left i mix compressed
unfolding fnv Pow.fnv read_u32_le Pow.read_u32_le write_u32_le Pow.write_u32_le compress_mix
    Pow.compress_words Pow.folded_word
same_compress_mix zero i mix compressed = refl
same_compress_mix (suc left) i mix compressed = same_compress_mix left (i + 1) mix _

same_item_index :
    (seed_word n_items : ℕ) (mix : Bytes) (i : ℕ)
    → item_index seed_word n_items mix i ≡ Pow.access_index seed_word n_items mix i
unfolding fnv Pow.fnv read_u32_le Pow.read_u32_le item_index Pow.access_index
same_item_index seed_word n_items mix i = refl

-- On whole items the index is not reduced a second time.
same_item :
    (d : Pow.Dataset) (seed_word : ℕ) (mix : Bytes) (i : ℕ)
    → IsWhole d
    → take item_size
        (drop (item_index seed_word (max (length d.bytes / item_size) 1) mix i * item_size) d.bytes)
      ≡ Pow.item d (Pow.access_index seed_word (max (length d.bytes / item_size) 1) mix i)
unfolding Pow.item
same_item d seed_word mix i w =
    let n = length d.bytes / item_size in
    let p = item_index seed_word (max n 1) mix i in
    let some : 1 ≤ n = omega (arith, w.whole, w.some_item) in
    let same : max n 1 ≡ n = omega arith in
    let below : p < n =
      subst (λ m. item_index seed_word m mix i < n) (sym same)
        (unfold item_index in mod-lt _ some) in
    ap (λ q. take item_size (drop (q * item_size) d.bytes))
      (sym (mod-eq_of_lt below) ∙ ap (λ q. q % n) (same_item_index seed_word (max n 1) mix i))

same_mix_dataset :
    (left i seed_word : ℕ) (mix : Bytes) (d : Pow.Dataset)
    → IsWhole d
    → mix_dataset left i seed_word mix d.bytes ≡ Pow.mix_accesses left i seed_word mix d
unfolding mix_dataset Pow.mix_accesses
same_mix_dataset zero i seed_word mix d w = refl
same_mix_dataset (suc left) i seed_word mix d w =
    let p = item_index seed_word (max (length d.bytes / item_size) 1) mix i in
    ap (λ m. mix_dataset left (i + 1) seed_word m d.bytes)
      (same_mix_item (item_size / 4) 0 mix (take item_size (drop (p * item_size) d.bytes))
        ∙ ap (Pow.mix_words (item_size / 4) 0 mix) (same_item d seed_word mix i w))
    ∙ same_mix_dataset left (i + 1) seed_word _ d w

-- On a dataset of at least one whole item, with a BLAKE3 that agrees with this crate's `hash` and
-- with its `xof_from_32_bytes` on seeds of 32 bytes: the hash of this file is ondris-pow's, for
-- every header, nonce and number of accesses.
pub ondris_hash_with_accesses-agrees :
    (b : Blake3) (header_bytes : Bytes) (nonce : ℕ) (d : Pow.Dataset) (accesses : ℕ)
    → ((m : Bytes) → b.hash m ≡ hash m)
    → ((seed : Bytes) (n : ℕ) → length seed ≡ 32 → b.xof seed n ≡ xof_from_32_bytes seed n)
    → IsWhole d
    → ondris_hash_with_accesses header_bytes nonce d.bytes accesses
      ≡ Pow.ondris_hash_with_accesses b header_bytes nonce d accesses
unfolding ondris_hash_with_accesses Pow.ondris_hash_with_accesses read_u32_le Pow.read_u32_le
ondris_hash_with_accesses-agrees b header_bytes nonce d accesses digest output w =
    let seed = hash (header_bytes ++ to_le_bytes 8 nonce) in
    let same_seed = digest (header_bytes ++ to_le_bytes 8 nonce) in
    let fill = output seed item_size (length-hash (header_bytes ++ to_le_bytes 8 nonce)) in
    let mixed =
      same_mix_dataset accesses 0 (read_u32_le seed 0) (xof_from_32_bytes seed item_size) d w
      ∙ ap (λ x. Pow.mix_accesses accesses 0 (read_u32_le seed 0) x d) (sym fill) in
    let rest : Bytes → Bytes = λ s.
      s
      ++ Pow.compress_words 8 0
          (Pow.mix_accesses accesses 0 (Pow.read_u32_le s 0) (b.xof s item_size) d)
          (replicate 32 0) in
    ap (λ c. hash (seed ++ c))
      (same_compress_mix 8 0 _ (replicate 32 0)
        ∙ ap (λ m. Pow.compress_words 8 0 m (replicate 32 0)) mixed)
    ∙ ap (λ s. hash (rest s)) (sym same_seed)
    ∙ sym (digest _)
