-- ===== src/Pow.antt =====
-- crates/ondris-pow/src/lib.rs: OndrisHash. Slices are `take` and `drop`; Pow/Bounds is
-- about slices out of range, which panic in the source.
pub mod Words
pub mod Bounds
pub mod Threshold
use ondris.Prelude.{
  ℕ, zero, suc, ◌+◌, ◌-◌, ◌*◌, ◌/◌, ◌%◌, ◌^◌, max, bit_xor, Bool, true, false, ◌&&◌, Option, none,
  some, [], ◌∷◌, ◌++◌, Bytes, length, take, drop, replicate, to_le_bytes, from_le_bytes, ltb, leb,
  ◌==◌, if◌then◌else◌, Result, ok, err, Error, bad_length, ◌>>=◌, ◌>>◌, ensure,
}
use ondris.Primitives.{Blake3, Hash256}

abbrev pub epoch_length : ℕ
epoch_length = 2048

pub cache_size : ℕ
cache_size = 16 * 1024 * 1024

pub dataset_size : ℕ
dataset_size = 64 * 1024 * 1024

abbrev pub item_size : ℕ
item_size = 128

abbrev pub accesses_per_hash : ℕ
accesses_per_hash = 64

abbrev pub fnv_prime : ℕ
fnv_prime = 0x01000193

unfoldable pub fnv : ℕ → ℕ → ℕ
fnv a b = bit_xor (a * fnv_prime % 2 ^ 32) b

unfoldable pub read_u32_le : Bytes → ℕ → ℕ
read_u32_le bytes offset = from_le_bytes (take 4 (drop offset bytes))

unfoldable pub write_u32_le : Bytes → ℕ → ℕ → Bytes
write_u32_le bytes offset value =
    take offset bytes ++ (to_le_bytes 4 value ++ drop (offset + 4) bytes)

unfoldable pub epoch_of : ℕ → ℕ
epoch_of height = height / epoch_length

-- The bytes of "ONDRIS_GENESIS_EPOCH".
abbrev genesis_epoch_label : Bytes
genesis_epoch_label =
    b'O' ∷ b'N' ∷ b'D' ∷ b'R' ∷ b'I' ∷ b'S' ∷ b'_' ∷ b'G' ∷ b'E' ∷ b'N' ∷ b'E' ∷ b'S' ∷ b'I' ∷ b'S'
    ∷ b'_' ∷ b'E' ∷ b'P' ∷ b'O' ∷ b'C' ∷ b'H' ∷ []

pub record Dataset : Type 0 where
  pub epoch : ℕ
  pub bytes : Bytes

-- `Dataset::item`
unfoldable pub item : Dataset → ℕ → Bytes
item d idx = take item_size (drop (idx % (length d.bytes / item_size) * item_size) d.bytes)

-- Where item i starts in the cache.
pub cache_offset : ℕ → ℕ → ℕ
cache_offset cache_len i = i * item_size % max (cache_len - item_size + 1) 1

-- The inner loop over the words w, w + 1, … of the mix, written in place.
unfoldable pub mix_words : ℕ → ℕ → Bytes → Bytes → Bytes
mix_words zero w mix it = mix
mix_words (suc left) w mix it =
    let mixed = fnv (read_u32_le mix (w * 4)) (read_u32_le it (w * 4)) in
    mix_words left (w + 1) (write_u32_le mix (w * 4) mixed) it

-- The item that access i touches.
unfoldable pub access_index : ℕ → ℕ → Bytes → ℕ → ℕ
access_index seed_word n_items mix i =
    fnv (bit_xor seed_word (i % 2 ^ 32)) (read_u32_le mix (i % (item_size / 4) * 4)) % n_items

-- The loop over the accesses from i on.
unfoldable pub mix_accesses : ℕ → ℕ → ℕ → Bytes → Dataset → Bytes
mix_accesses zero i seed_word mix d = mix
mix_accesses (suc left) i seed_word mix d =
    let n_items = max (length d.bytes / item_size) 1 in
    let it = item d (access_index seed_word n_items mix i) in
    mix_accesses left (i + 1) seed_word (mix_words (item_size / 4) 0 mix it) d

-- Words 4 i to 4 i + 3 of the mix folded into one.
unfoldable pub folded_word : Bytes → ℕ → ℕ
folded_word mix i =
    let base = i * 16 in
    fnv (fnv (fnv (read_u32_le mix base) (read_u32_le mix (base + 4))) (read_u32_le mix (base + 8)))
      (read_u32_le mix (base + 12))

unfoldable pub compress_words : ℕ → ℕ → Bytes → Bytes → Bytes
compress_words zero i mix compressed = compressed
compress_words (suc left) i mix compressed =
    compress_words left (i + 1) mix (write_u32_le compressed (i * 4) (folded_word mix i))

module _ (b : Blake3) where
  unfoldable pub epoch_seed : Option Hash256 → Hash256
  epoch_seed none = b.hash genesis_epoch_label
  epoch_seed (some h) = b.hash h

  -- `xof_fill`, which fills a buffer of the given length.
  pub xof_fill : Bytes → ℕ → Bytes
  xof_fill seed len = b.xof seed len

  -- The two rounds of expansion of item i: `update` twice hashes both parts in a row.
  pub expand_item : ℕ → ℕ → Bytes → Bytes
  expand_item zero i it = it
  expand_item (suc rounds) i it = expand_item rounds i (b.xof (it ++ to_le_bytes 8 i) item_size)

  -- Item i of the dataset, from its slice of the cache.
  pub dataset_item : Bytes → ℕ → Bytes
  dataset_item cache i =
      expand_item 2 i (take item_size (drop (cache_offset (length cache) i) cache))

  -- The loop over the items from i on, whose outputs fill the buffer from the left.
  pub dataset_items : ℕ → ℕ → Bytes → Bytes
  dataset_items zero i cache = []
  dataset_items (suc left) i cache = dataset_item cache i ++ dataset_items left (i + 1) cache

  -- The error is the failed assertion on the sizes.
  pub generate_with_sizes : ℕ → Hash256 → ℕ → ℕ → Result Dataset
  unfolding xof_fill
  generate_with_sizes epoch seed cache_len dataset_len = do
    ensure (leb item_size cache_len && leb item_size dataset_len) bad_length
    let cache = xof_fill seed cache_len
    ok (record { epoch = epoch; bytes = dataset_items (dataset_len / item_size) 0 cache })

  pub generate : ℕ → Hash256 → Result Dataset
  generate epoch seed = generate_with_sizes epoch seed cache_size dataset_size

  unfoldable pub ondris_hash_with_accesses : Bytes → ℕ → Dataset → ℕ → Hash256
  ondris_hash_with_accesses header_bytes nonce d accesses =
      let seed = b.hash (header_bytes ++ to_le_bytes 8 nonce) in
      let mix = mix_accesses accesses 0 (read_u32_le seed 0) (b.xof seed item_size) d in
      b.hash (seed ++ compress_words 8 0 mix (replicate 32 0))

  unfoldable pub ondris_hash : Bytes → ℕ → Dataset → Hash256
  ondris_hash header_bytes nonce d =
      ondris_hash_with_accesses header_bytes nonce d accesses_per_hash

-- `<=` of byte arrays: the lexicographic order.
unfoldable pub bytes_le : Bytes → Bytes → Bool
bytes_le [] ys = true
bytes_le (x ∷ xs) [] = false
bytes_le (x ∷ xs) (y ∷ ys) = if ltb x y then true else if x == y then bytes_le xs ys else false

unfoldable pub meets_target : Hash256 → Bytes → Bool
meets_target hash target_be = bytes_le hash target_be
