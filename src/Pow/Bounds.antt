-- ===== src/Pow/Bounds.antt =====
-- The slices of ondris-pow: those of the cache, the dataset's items, and the mix.
use native.Mathlib.Nat.{mod-lt}
use ondris.Prelude.{
  ℕ, zero, suc, ◌+◌, ◌-◌, ◌*◌, ◌/◌, ◌%◌, ◌≤◌, ◌<◌, max, ◌≡◌, refl, ◌∙◌, Bytes, length, drop,
  length-append, length-take, length-drop, arith, ok, All, IsByte, All-append, replicate,
}
use ondris.Primitives.{Blake3, Blake3Laws, Hash256}
use ondris.Pow.{
  Dataset, item, item_size, cache_offset, dataset_item, dataset_items, expand_item,
  generate_with_sizes, access_index, mix_accesses, mix_words, compress_words, write_u32_le,
  folded_word, cache_size, dataset_size,
}
use ondris.Pow.Words.{length-mix_words, length-write_u32_le}

-- The slice of a cache for any item lies within the cache.
pub cache_offset_bound : (len i : ℕ) → item_size ≤ len → cache_offset len i + item_size ≤ len
unfolding cache_offset
cache_offset_bound len i h =
    let room : 0 < max (len - item_size + 1) 1 = omega arith in
    omega (arith, mod-lt (i * item_size) room)

-- A dataset of k whole items, at least one.
pub record IsWhole (d : Dataset) : Type 0 where
  pub items : ℕ
  pub some_item : 1 ≤ items
  pub whole : length d.bytes ≡ items * item_size

-- The item at any index is a full slice of the dataset.
pub length-item : (d : Dataset) (idx : ℕ) → IsWhole d → length (item d idx) ≡ item_size
unfolding item
length-item d idx w =
    let k = w.items in
    let n : length d.bytes / item_size ≡ k = omega (arith, w.whole) in
    let i = idx % k in
    let below : i < k = mod-lt idx w.some_item in
    let at = idx % (length d.bytes / item_size) * item_size in
    let same : at ≡ i * item_size = rw n refl in
    omega
      (arith, same, below, w.whole, length-take item_size (drop at d.bytes), length-drop at d.bytes)

pub default_sizes : (item_size ≤ cache_size) × (item_size ≤ dataset_size)
unfolding cache_size dataset_size
default_sizes = (omega arith, omega arith)

module _ (b : Blake3) (laws : Blake3Laws b) where
  length-dataset_item : (cache : Bytes) (i : ℕ) → length (dataset_item b cache i) ≡ item_size
  unfolding dataset_item expand_item
  length-dataset_item cache i = laws.length-xof _ item_size

  length-dataset_items :
      (n i : ℕ) (cache : Bytes) → length (dataset_items b n i cache) ≡ n * item_size
  unfolding dataset_items
  length-dataset_items zero i cache = omega arith
  length-dataset_items (suc n) i cache = omega (
    arith,
    length-append (dataset_item b cache i) (dataset_items b n (i + 1) cache),
    length-dataset_item cache i,
    length-dataset_items n (i + 1) cache,
  )

  dataset_items-IsByte : (n i : ℕ) (cache : Bytes) → All IsByte (dataset_items b n i cache)
  unfolding dataset_items dataset_item expand_item
  dataset_items-IsByte zero i cache = tt
  dataset_items-IsByte (suc n) i cache =
      All-append IsByte (dataset_item b cache i) _ (laws.xof-IsByte _ item_size)
        (dataset_items-IsByte n (i + 1) cache)

  -- Generation from sizes of at least one item succeeds, for any seed: the dataset is of the
  -- epoch asked for, has dataset_len / 128 items of 128 bytes each and nothing more, and consists
  -- of bytes.
  pub generate_with_sizes_total :
      (epoch : ℕ) (seed : Hash256) (cache_len dataset_len : ℕ)
      → item_size ≤ cache_len
      → item_size ≤ dataset_len
      → (d : Dataset) × (generate_with_sizes b epoch seed cache_len dataset_len ≡ ok d)
        × (d.epoch ≡ epoch)
        × (length d.bytes ≡ dataset_len / item_size * item_size)
        × All IsByte d.bytes
        × IsWhole d
  unfolding generate_with_sizes
  generate_with_sizes_total epoch seed cache_len dataset_len hc hd =
      let cache = b.xof seed cache_len in
      let made : Dataset = record {
        epoch = epoch;
        bytes = dataset_items b (dataset_len / item_size) 0 cache;
      } in
      let size : length made.bytes ≡ dataset_len / item_size * item_size =
        length-dataset_items (dataset_len / item_size) 0 cache in
      (
        made,
        ground arith,
        refl,
        size,
        dataset_items-IsByte (dataset_len / item_size) 0 cache,
        record { items = dataset_len / item_size; some_item = omega arith; whole = size },
      )

length-mix_accesses :
    (left i seed_word : ℕ) (mix : Bytes) (d : Dataset)
    → length mix ≡ item_size
    → length (mix_accesses left i seed_word mix d) ≡ item_size
unfolding mix_accesses
length-mix_accesses zero i seed_word mix d h = h
length-mix_accesses (suc left) i seed_word mix d h =
    let it = item d (access_index seed_word (max (length d.bytes / item_size) 1) mix i) in
    length-mix_accesses left (i + 1) seed_word (mix_words (item_size / 4) 0 mix it) d
      (length-mix_words 32 0 mix it (omega arith) ∙ h)

pub length-compress_words :
    (left i : ℕ) (mix compressed : Bytes)
    → (i + left) * 4 ≤ length compressed
    → length (compress_words left i mix compressed) ≡ length compressed
unfolding compress_words
length-compress_words zero i mix compressed h = refl
length-compress_words (suc left) i mix compressed h =
    let kept = length-write_u32_le compressed (i * 4) (folded_word mix i) (omega arith) in
    length-compress_words left (i + 1) mix (write_u32_le compressed (i * 4) (folded_word mix i))
      (omega (arith, kept))
    ∙ kept

-- On a dataset of at least one whole item, whatever the number of accesses: the mix has 128 bytes
-- before and after every access, the index of each access is that of an item, which is a full
-- slice of the dataset, so that no read or write leaves its buffer; the mix is folded into 32
-- bytes.
pub mix_accesses_bounds :
    (left i seed_word : ℕ) (mix : Bytes) (d : Dataset)
    → IsWhole d
    → length mix ≡ item_size
    → (length (mix_accesses left i seed_word mix d) ≡ item_size)
      × (access_index seed_word (max (length d.bytes / item_size) 1) mix i
          < length d.bytes / item_size)
      × (length (item d (access_index seed_word (max (length d.bytes / item_size) 1) mix i))
          ≡ item_size)
      × (length (compress_words 8 0 (mix_accesses left i seed_word mix d) (replicate 32 0)) ≡ 32)
mix_accesses_bounds left i seed_word mix d w h =
    let n = length d.bytes / item_size in
    let some_item : 1 ≤ n = omega (arith, w.whole, w.some_item) in
    let same : max n 1 ≡ n = omega arith in
    (
      length-mix_accesses left i seed_word mix d h,
      rw same (unfold access_index in mod-lt _ some_item),
      length-item d _ w,
      length-compress_words 8 0 _ (replicate 32 0) (omega arith),
    )
