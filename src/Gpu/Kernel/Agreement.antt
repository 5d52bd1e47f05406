-- ===== src/Gpu/Kernel/Agreement.antt =====
-- kernel.cl against ondris_hash_ref.rs, and what a launch of `ondris_mine` leaves.
use ondris.Prelude.{
  ℕ, zero, suc, ◌+◌, ◌-◌, ◌*◌, ◌/◌, ◌≤◌, min, max, bit_or, ◌≡◌, refl, sym, ap, ◌∙◌, Bool, true,
  false, Bool-cases, inl, inr, [], ◌∷◌, ◌++◌, Bytes, length, length-append, length-take,
  length-drop, take, drop, take_all, drop-add, replicate, to_le_bytes, length-to_le_bytes, ◌==◌,
  if◌then◌else◌, arith, leb, leb→le,
}
use ondris.Gpu.Blake3Ref.{
  Words, iv, chunk_start, chunk_end, root_flag, words_from_le_bytes_padded, chaining_value_of,
  compress, words_to_le_bytes, xof_blocks, xof_from_32_bytes, hash_blocks, hash_chunk, hash,
}
use ondris.Gpu.Blake3Ref.Sizes.{length-hash}
use ondris.Gpu.Blake3Ref.Xof.{hash_small, length-xof_blocks}
use ondris.Gpu.HashRef.{
  item_size, read_u32_le, mix_item, item_index, mix_dataset, compress_mix,
  ondris_hash_with_accesses,
}
use ondris.Gpu.HashRef.Agreement.{same_compress_mix}
use ondris.Pow.Bounds.{length-compress_words}
use ondris.Gpu.Session.{fits}
use ondris.Gpu.Kernel.{
  block_flags, small_blocks, blake3_hash_small, small_xof, access_items, ondris_hash_core,
}

combine :
    (f l : Bool)
    → bit_or
        (bit_or (if f then chunk_start else 0) (if l then chunk_end else 0))
        (if l then root_flag else 0)
      ≡ (if l
          then bit_or (if f then chunk_start else 0) (bit_or chunk_end root_flag)
          else (if f then chunk_start else 0))
combine true true = refl
combine true false = refl
combine false true = refl
combine false false = refl

take-min : (n : ℕ) (bs : Bytes) → take (min n (length bs)) bs ≡ take n bs
take-min n bs = elim (Bool-cases (leb n (length bs))) [
  | inl le ↦ ap (λ k. take k bs) (omega (arith, leb→le n (length bs) le))
  | inr gt ↦
      let short : length bs ≤ n = ground (arith, gt) in
      take_all (min n (length bs)) bs (omega (arith, short)) ∙ sym (take_all n bs short)
]

small_blocks-hash_blocks :
    (left i n : ℕ) (contents : Bytes) (cv : Words)
    → i + left ≡ n
    → hash_blocks left (drop (i * 64) contents) (i == 0) 0 true cv
      ≡ small_blocks left i n contents cv
unfolding hash_blocks small_blocks
small_blocks-hash_blocks zero i n contents cv e = refl
small_blocks-hash_blocks (suc left) i n contents cv e =
    let ch = drop (i * 64) contents in
    let size : length ch ≡ length contents - i * 64 = length-drop (i * 64) contents in
    let len : length (take 64 ch) ≡ min 64 (length contents - i * 64) =
      length-take 64 ch ∙ ap (min 64) size in
    let block : take 64 ch ≡ take (min 64 (length contents - i * 64)) ch =
      sym (take-min 64 ch) ∙ ap (λ k. take (min 64 k) ch) size in
    let last : (left == 0) ≡ (i == n - 1) = last_block left e in
    let flags = combine (i == 0) (left == 0) ∙ ap (flags_if (i == 0)) last in
    let next : drop 64 ch ≡ drop ((i + 1) * 64) contents =
      sym (drop-add (i * 64) 64 contents) ∙ ap (λ k. drop k contents) (omega arith) in
    let not_first : (i + 1 == 0) ≡ false = ground arith in
    let m = min 64 (length contents - i * 64) in
    let value : cv_of (take 64 ch) (length (take 64 ch)) given
        ≡ cv_of (take m ch) m (block_flags i n) =
      ap (λ b. cv_of b (length (take 64 ch)) given) block
      ∙ ap (λ k. cv_of (take m ch) k given) len
      ∙ ap (cv_of (take m ch) m) flags in
    ap (hash_blocks left (drop 64 ch) false 0 true) value
    ∙ ap (λ b. hash_blocks left b false 0 true (cv_of (take m ch) m (block_flags i n))) next
    ∙ ap
        (λ b.
          hash_blocks left (drop ((i + 1) * 64) contents) b 0 true
            (cv_of (take m ch) m (block_flags i n)))
        (sym not_first)
    ∙ small_blocks-hash_blocks left (i + 1) n contents (cv_of (take m ch) m (block_flags i n))
        (omega (arith, e))
  where
    cv_of : Bytes → ℕ → ℕ → Words
    cv_of block len flags = chaining_value_of cv (words_from_le_bytes_padded block) 0 len flags

    given : ℕ
    given =
        bit_or (bit_or (if (i == 0) then chunk_start else 0) (if (left == 0) then chunk_end else 0))
          (if (left == 0) then root_flag else 0)

    flags_if : Bool → Bool → ℕ
    flags_if f l =
        if l
        then bit_or (if f then chunk_start else 0) (bit_or chunk_end root_flag)
        else (if f then chunk_start else 0)

    last_block : (left : ℕ) → i + suc left ≡ n → (left == 0) ≡ (i == n - 1)
    last_block zero e = sym (ground (arith, e))
    last_block (suc k) e = ground (arith, e)

blake3_hash_small-hash : (m : Bytes) → length m ≤ 1024 → blake3_hash_small m ≡ hash m
unfolding blake3_hash_small hash_chunk
blake3_hash_small-hash [] h = sym (hash_small [] h)
blake3_hash_small-hash (c ∷ cs) h =
    let count : (length (c ∷ cs) + 64 - 1) / 64 ≡ (length (c ∷ cs) + 63) / 64 = omega arith in
    ap (λ k. words_to_le_bytes (small_blocks k 0 k (c ∷ cs) iv)) count
    ∙ ap words_to_le_bytes
        (sym (small_blocks-hash_blocks ((length (c ∷ cs) + 63) / 64) 0 _ (c ∷ cs) iv (omega arith)))
    ∙ sym (hash_small (c ∷ cs) h)

small_xof-xof_blocks :
    (left : ℕ) (ws : Words) (counter : ℕ)
    → small_xof left ws counter ≡ xof_blocks left ws 32 counter
unfolding small_xof xof_blocks
small_xof-xof_blocks zero ws counter = refl
small_xof-xof_blocks (suc left) ws counter =
    ap
      (λ t.
        words_to_le_bytes
          (compress iv ws counter 32 (bit_or (bit_or chunk_start chunk_end) root_flag))
        ++ t)
      (small_xof-xof_blocks left ws (counter + 1))

small_xof-xof_from_32_bytes :
    (seed : Bytes)
    → length seed ≡ 32
    → small_xof 2 (words_from_le_bytes_padded seed) 0 ≡ xof_from_32_bytes seed 128
unfolding xof_from_32_bytes
small_xof-xof_from_32_bytes seed h =
    let ws = words_from_le_bytes_padded seed in
    small_xof-xof_blocks 2 ws 0
    ∙ sym (take_all 128 (xof_blocks 2 ws 32 0) (omega (arith, length-xof_blocks 2 ws 32 0)))
    ∙ ap (λ k. take 128 (xof_blocks 2 ws k 0)) (sym h)

access_items-mix_dataset :
    (left i seed_word0 : ℕ) (mix : Bytes) (n_items : ℕ) (dataset : Bytes)
    → n_items ≡ max (length dataset / item_size) 1
    → access_items left i seed_word0 mix n_items dataset ≡ mix_dataset left i seed_word0 mix dataset
unfolding access_items mix_dataset
access_items-mix_dataset zero i seed_word0 mix n_items dataset e = refl
access_items-mix_dataset (suc left) i seed_word0 mix n_items dataset e =
    let step : ℕ → Bytes = λ n.
      mix_item (item_size / 4) 0 mix
        (take item_size (drop (item_index seed_word0 n mix i * item_size) dataset)) in
    access_items-mix_dataset left (i + 1) seed_word0 (step n_items) n_items dataset e
    ∙ ap (λ n. mix_dataset left (i + 1) seed_word0 (step n) dataset) e

-- On a dataset of at least one whole item and a header that fits the kernel's buffer with the nonce,
-- the kernel's hash is that of ondris_hash_ref.rs.
pub ondris_hash_core-agrees :
    (dataset header_bytes : Bytes) (nonce accesses k : ℕ)
    → 1 ≤ k
    → length dataset ≡ k * 128
    → fits header_bytes ≡ true
    → ondris_hash_core dataset (length dataset) header_bytes (length header_bytes) nonce accesses
      ≡ ondris_hash_with_accesses header_bytes nonce dataset accesses
unfolding ondris_hash_core ondris_hash_with_accesses
ondris_hash_core-agrees dataset header_bytes nonce accesses k pos whole short =
    let input = header_bytes ++ to_le_bytes 8 nonce in
    let size : length input ≡ length header_bytes + 8 =
      length-append header_bytes (to_le_bytes 8 nonce)
      ∙ ap (λ v. length header_bytes + v) (length-to_le_bytes 8 nonce) in
    let room : length header_bytes + 8 ≤ 144 = leb→le (length header_bytes + 8) 144 short in
    let seed = hash input in
    let seed_eq : blake3_hash_small (take (length header_bytes) header_bytes ++ to_le_bytes 8 nonce)
        ≡ seed =
      ap (λ h. blake3_hash_small (h ++ to_le_bytes 8 nonce))
        (take_all (length header_bytes) header_bytes (omega arith))
      ∙ blake3_hash_small-hash input (omega (arith, size, room)) in
    let items : length dataset / item_size ≡ max (length dataset / item_size) 1 =
      omega (arith, pos, whole) in
    let mixed : access_items accesses 0 (read_u32_le seed 0)
          (small_xof 2 (words_from_le_bytes_padded seed) 0) (length dataset / item_size) dataset
        ≡ mix_dataset accesses 0 (read_u32_le seed 0) (xof_from_32_bytes seed 128) dataset =
      access_items-mix_dataset accesses 0 (read_u32_le seed 0) _ _ dataset items
      ∙ ap (λ m. mix_dataset accesses 0 (read_u32_le seed 0) m dataset)
          (small_xof-xof_from_32_bytes seed (length-hash input)) in
    let final = mix_dataset accesses 0 (read_u32_le seed 0) (xof_from_32_bytes seed 128) dataset in
    ap
      (λ s. blake3_hash_small (
        s
        ++ compress_mix 8 0
            (access_items accesses 0 (read_u32_le s 0)
              (small_xof 2 (words_from_le_bytes_padded s) 0) (length dataset / item_size) dataset)
            (replicate 32 0)))
      seed_eq
    ∙ ap (λ m. blake3_hash_small (seed ++ compress_mix 8 0 m (replicate 32 0))) mixed
    ∙ blake3_hash_small-hash (seed ++ compress_mix 8 0 final (replicate 32 0)) (
        omega (
          arith,
          length-append seed (compress_mix 8 0 final (replicate 32 0)),
          length-hash input,
          ap length (same_compress_mix 8 0 final (replicate 32 0)),
          length-compress_words 8 0 final (replicate 32 0) (omega arith),
        ))
