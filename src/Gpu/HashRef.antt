-- ===== src/Gpu/HashRef.antt =====
-- crates/ondris-miner-gpu/src/ondris_hash_ref.rs: OndrisHash over the crate's own BLAKE3. The
-- dataset is its raw bytes; slices are `take` and `drop`, and loops count down.
pub mod Agreement
use ondris.Prelude.{
  ℕ, zero, suc, ◌+◌, ◌*◌, ◌/◌, ◌%◌, ◌^◌, max, bit_xor, ◌++◌, Bytes, length, take, drop, replicate,
  to_le_bytes, from_le_bytes,
}
use ondris.Gpu.Blake3Ref.{hash, xof_from_32_bytes}

abbrev pub item_size : ℕ
item_size = 128

abbrev pub fnv_prime : ℕ
fnv_prime = 0x01000193

pub fnv : ℕ → ℕ → ℕ
fnv a b = bit_xor (a * fnv_prime % 2 ^ 32) b

pub read_u32_le : Bytes → ℕ → ℕ
read_u32_le bytes offset = from_le_bytes (take 4 (drop offset bytes))

pub write_u32_le : Bytes → ℕ → ℕ → Bytes
write_u32_le bytes offset value =
    take offset bytes ++ (to_le_bytes 4 value ++ drop (offset + 4) bytes)

-- The inner loop over the words w, w + 1, … of the mix.
pub mix_item : ℕ → ℕ → Bytes → Bytes → Bytes
mix_item zero w mix item = mix
mix_item (suc left) w mix item =
    let mixed = fnv (read_u32_le mix (w * 4)) (read_u32_le item (w * 4)) in
    mix_item left (w + 1) (write_u32_le mix (w * 4) mixed) item

-- The item that access i reads.
pub item_index : ℕ → ℕ → Bytes → ℕ → ℕ
item_index seed_word0 n_items mix i =
    fnv (bit_xor seed_word0 (i % 2 ^ 32)) (read_u32_le mix (i % (item_size / 4) * 4)) % n_items

-- The loop over the accesses from i on.
unfoldable pub mix_dataset : ℕ → ℕ → ℕ → Bytes → Bytes → Bytes
mix_dataset zero i seed_word0 mix dataset = mix
mix_dataset (suc left) i seed_word0 mix dataset =
    let p = item_index seed_word0 (max (length dataset / item_size) 1) mix i in
    let item = take item_size (drop (p * item_size) dataset) in
    mix_dataset left (i + 1) seed_word0 (mix_item (item_size / 4) 0 mix item) dataset

-- The loop over the 8 words of the compressed mix.
pub compress_mix : ℕ → ℕ → Bytes → Bytes → Bytes
compress_mix zero i mix compressed = compressed
compress_mix (suc left) i mix compressed =
    let base = i * 16 in
    let w₀ = read_u32_le mix base in
    let w₁ = read_u32_le mix (base + 4) in
    let w₂ = read_u32_le mix (base + 8) in
    let w₃ = read_u32_le mix (base + 12) in
    compress_mix left (i + 1) mix (write_u32_le compressed (i * 4) (fnv (fnv (fnv w₀ w₁) w₂) w₃))

unfoldable pub ondris_hash_with_accesses : Bytes → ℕ → Bytes → ℕ → Bytes
ondris_hash_with_accesses header_bytes nonce dataset accesses =
    let seed = hash (header_bytes ++ to_le_bytes 8 nonce) in
    let mix =
      mix_dataset accesses 0 (read_u32_le seed 0) (xof_from_32_bytes seed item_size) dataset in
    hash (seed ++ compress_mix 8 0 mix (replicate 32 0))
