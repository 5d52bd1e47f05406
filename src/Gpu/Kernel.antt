-- ===== src/Gpu/Kernel.antt =====
-- crates/ondris-miner-gpu/src/kernel.cl: the kernel's hash and `ondris_mine`. Its `compress`,
-- `words_from_le_bytes_padded` and `chaining_value_of` are line for line those of blake3_ref.rs, and
-- its `fnv`, reads, writes and mixing loops those of ondris_hash_ref.rs, which stand for them here.
pub mod Agreement
pub mod Launches
use ondris.Prelude.{
  ℕ, zero, suc, ◌+◌, ◌-◌, ◌*◌, ◌/◌, ◌%◌, ◌^◌, min, bit_or, Bool, true, false, Option, some, List,
  [], ◌∷◌, ◌++◌, Bytes, length, take, drop, replicate, to_le_bytes, ◌==◌, if◌then◌else◌,
}
use ondris.Pow.{meets_target}
use ondris.Gpu.Blake3Ref.{
  Words, iv, chunk_start, chunk_end, root_flag, block_len, words_from_le_bytes_padded,
  chaining_value_of, compress, words_to_le_bytes,
}
use ondris.Gpu.HashRef.{item_size, read_u32_le, mix_item, item_index, compress_mix}
use ondris.Gpu.Session.{Launch, Device}

-- The flags of block i of n.
abbrev pub block_flags : ℕ → ℕ → ℕ
block_flags i n_blocks =
    let first = if i == 0 then chunk_start else 0 in
    if i == n_blocks - 1 then bit_or first (bit_or chunk_end root_flag) else first

-- The loop over the blocks from i on.
unfoldable pub small_blocks : ℕ → ℕ → ℕ → Bytes → Words → Words
small_blocks zero i n_blocks contents cv = cv
small_blocks (suc left) i n_blocks contents cv =
    let off = i * block_len in
    let this_len = min block_len (length contents - off) in
    let block_words = words_from_le_bytes_padded (take this_len (drop off contents)) in
    small_blocks left (i + 1) n_blocks contents
      (chaining_value_of cv block_words 0 this_len (block_flags i n_blocks))

unfoldable pub blake3_hash_small : Bytes → Bytes
blake3_hash_small [] =
    words_to_le_bytes
      (chaining_value_of iv (replicate 16 0) 0 0 (bit_or (bit_or chunk_start chunk_end) root_flag))
blake3_hash_small (c ∷ cs) =
    let n_blocks = (length (c ∷ cs) + block_len - 1) / block_len in
    words_to_le_bytes (small_blocks n_blocks 0 n_blocks (c ∷ cs) iv)

-- The loop of `xof_from_32_bytes`: 64 bytes a round, 2 rounds.
unfoldable pub small_xof : ℕ → Words → ℕ → Bytes
small_xof zero block_words counter = []
small_xof (suc left) block_words counter =
    words_to_le_bytes
      (compress iv block_words counter 32 (bit_or (bit_or chunk_start chunk_end) root_flag))
    ++ small_xof left block_words (counter + 1)

-- The accesses from i on, to a dataset of n items.
unfoldable pub access_items : ℕ → ℕ → ℕ → Bytes → ℕ → Bytes → Bytes
access_items zero i seed_word0 mix n_items dataset = mix
access_items (suc left) i seed_word0 mix n_items dataset =
    let p = item_index seed_word0 n_items mix i in
    let item = take item_size (drop (p * item_size) dataset) in
    access_items left (i + 1) seed_word0 (mix_item (item_size / 4) 0 mix item) n_items dataset

unfoldable pub ondris_hash_core : Bytes → ℕ → Bytes → ℕ → ℕ → ℕ → Bytes
ondris_hash_core dataset dataset_len header_bytes header_len nonce accesses =
    let seed = blake3_hash_small (take header_len header_bytes ++ to_le_bytes 8 nonce) in
    let mix =
      access_items accesses 0 (read_u32_le seed 0) (small_xof 2 (words_from_le_bytes_padded seed) 0)
        (dataset_len / item_size) dataset in
    blake3_hash_small (seed ++ compress_mix 8 0 mix (replicate 32 0))

-- Work-item i of `ondris_mine`, on the buffers `(result_nonce, result_found)`.
unfoldable pub work_item : Launch → ℕ → Bytes × Bytes → Bytes × Bytes
work_item l i buffers =
    let nonce = (l.nonce_base + i) % 2 ^ 64 in
    let final_hash =
      ondris_hash_core l.dataset l.dataset_len l.header l.header_len nonce l.accesses in
    if meets_target final_hash l.target then (to_le_bytes 8 nonce, to_le_bytes 4 1) else buffers

-- The work-items in the order in which they write; each writes both buffers at once.
unfoldable pub work_items : Launch → List ℕ → Bytes × Bytes → Bytes × Bytes
work_items l [] buffers = buffers
work_items l (i ∷ order) buffers = work_items l order (work_item l i buffers)

-- A device without failures that runs the kernel, its work-items in an order of its choice.
abbrev pub kernel_device : (ℕ → List ℕ) → Device
kernel_device order = record {
  accepts = λ contents. true;
  fresh = λ size. some (replicate size 0);
  launch = λ l. some (work_items l (order l.batch_size) (l.result_nonce, l.result_found));
}
