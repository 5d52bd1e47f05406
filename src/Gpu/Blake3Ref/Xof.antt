-- ===== src/Gpu/Blake3Ref/Xof.antt =====
-- blake3_ref.rs: the extendable output, its size, and how outputs of different lengths agree.
use ondris.Prelude.{
  ℕ, zero, suc, ◌+◌, ◌-◌, ◌*◌, ◌/◌, ◌≤◌, ◌≡◌, refl, sym, ap, ◌∙◌, true, bit_or, List, [], ◌∷◌, ◌++◌,
  append-nil, append_assoc, Bytes, length, length-append, length-take, take, take_all, to_le_bytes,
  IsByte, All, All-append, All-take, arith,
}
use ondris.Gpu.Blake3Ref.{
  Words, iv, chunk_len, chunk_start, chunk_end, root_flag, compress, chaining_value_of,
  words_from_le_bytes_padded, words_to_le_bytes, xof_blocks, xof_from_32_bytes, hash_blocks,
  hash_chunk, try_hash, hash,
}
use ondris.Gpu.Blake3Ref.Sizes.{length-words_to_le_bytes, words_to_le_bytes-IsByte, length-compress}

take_short {ℓ} :
    {A : Type ℓ} (m : ℕ) (xs ys : List A) → m ≤ length xs → take m (xs ++ ys) ≡ take m xs
take_short zero xs ys h = refl
take_short (suc m) [] ys h = absurd (omega arith)
take_short (suc m) (x ∷ xs) ys h = ap (◌∷◌ x) (take_short m xs ys (omega arith))

take-take {ℓ} : {A : Type ℓ} (m n : ℕ) (xs : List A) → m ≤ n → take m (take n xs) ≡ take m xs
take-take zero n xs h = refl
take-take (suc m) zero xs h = absurd (omega arith)
take-take (suc m) (suc n) [] h = refl
take-take (suc m) (suc n) (x ∷ xs) h = ap (◌∷◌ x) (take-take m n xs (omega arith))

pub length-xof_blocks :
    (n : ℕ) (m : Words) (len counter : ℕ) → length (xof_blocks n m len counter) ≡ n * 64
unfolding xof_blocks
length-xof_blocks zero m len counter = refl
length-xof_blocks (suc n) m len counter = omega (
  arith,
  length-append (words_to_le_bytes (compress iv m counter len _))
      (xof_blocks n m len (counter + 1)),
  length-words_to_le_bytes (compress iv m counter len _),
  length-compress iv m counter len _ (omega arith),
  length-xof_blocks n m len (counter + 1),
)

xof_blocks-IsByte : (n : ℕ) (m : Words) (len counter : ℕ) → All IsByte (xof_blocks n m len counter)
unfolding xof_blocks
xof_blocks-IsByte zero m len counter = tt
xof_blocks-IsByte (suc n) m len counter =
    All-append IsByte (words_to_le_bytes (compress iv m counter len _))
      (xof_blocks n m len (counter + 1)) (words_to_le_bytes-IsByte (compress iv m counter len _))
      (xof_blocks-IsByte n m len (counter + 1))

-- More rounds only append.
xof_blocks-add :
    (n k : ℕ) (m : Words) (len counter : ℕ)
    → xof_blocks (n + k) m len counter
      ≡ xof_blocks n m len counter ++ xof_blocks k m len (counter + n)
unfolding xof_blocks
xof_blocks-add zero k m len counter =
    ap (λ j. xof_blocks j m len counter) (omega arith)
    ∙ ap (λ c. xof_blocks k m len c) (omega arith)
xof_blocks-add (suc n) k m len counter =
    let shift : counter + 1 + n ≡ counter + suc n = omega arith in
    let more : suc n + k ≡ suc (n + k) = omega arith in
    let block =
      words_to_le_bytes
        (compress iv m counter len (bit_or (bit_or chunk_start chunk_end) root_flag)) in
    ap (λ j. xof_blocks j m len counter) more
    ∙ ap (λ t. block ++ t)
        (xof_blocks-add n k m len (counter + 1)
          ∙ ap (λ c. xof_blocks n m len (counter + 1) ++ xof_blocks k m len c) shift)
    ∙ sym (append_assoc block _ _)

pub length-xof_from_32_bytes : (seed : Bytes) (n : ℕ) → length (xof_from_32_bytes seed n) ≡ n
unfolding xof_from_32_bytes
length-xof_from_32_bytes seed n = omega (
  arith,
  length-take n (xof_blocks ((n + 63) / 64) (words_from_le_bytes_padded seed) (length seed) 0),
  length-xof_blocks ((n + 63) / 64) (words_from_le_bytes_padded seed) (length seed) 0,
)

pub xof_from_32_bytes-IsByte : (seed : Bytes) (n : ℕ) → All IsByte (xof_from_32_bytes seed n)
unfolding xof_from_32_bytes
xof_from_32_bytes-IsByte seed n =
    All-take IsByte n _ (xof_blocks-IsByte ((n + 63) / 64) _ (length seed) 0)

xof_prefix :
    (seed : Bytes) (m n : ℕ) → m ≤ n → take m (xof_from_32_bytes seed n) ≡ xof_from_32_bytes seed m
unfolding xof_from_32_bytes
xof_prefix seed m n h =
    let a = (m + 63) / 64 in
    let k = (n + 63) / 64 - a in
    let ws = words_from_le_bytes_padded seed in
    let l = length seed in
    let split : (n + 63) / 64 ≡ a + k = omega arith in
    take-take m n (xof_blocks ((n + 63) / 64) ws l 0) h
    ∙ ap (λ j. take m (xof_blocks j ws l 0)) split
    ∙ ap (take m) (xof_blocks-add a k ws l 0)
    ∙ take_short m (xof_blocks a ws l 0) _ (omega (arith, length-xof_blocks a ws l 0))

take-words_to_le_bytes :
    (n : ℕ) (ws : Words) → take (n * 4) (words_to_le_bytes ws) ≡ words_to_le_bytes (take n ws)
unfolding words_to_le_bytes
take-words_to_le_bytes n [] =
    take_all (n * 4) [] (omega arith) ∙ ap words_to_le_bytes (sym (take_all n [] (omega arith)))
take-words_to_le_bytes zero (w ∷ ws) = refl
take-words_to_le_bytes (suc n) (w ∷ ws) =
    let four : suc n * 4 ≡ suc (suc (suc (suc (n * 4)))) = omega arith in
    ap (λ j. take j (to_le_bytes 4 w ++ words_to_le_bytes ws)) four
    ∙ ap (λ t. to_le_bytes 4 w ++ t) (take-words_to_le_bytes n ws)

pub hash_small :
    (payload : Bytes)
    → length payload ≤ chunk_len
    → hash payload ≡ words_to_le_bytes (hash_chunk payload 0 true)
unfolding hash try_hash
hash_small payload h = ground arith

-- The chunk of one block.
one_block :
    (c : ℕ) (seed : Bytes)
    → length (c ∷ seed) ≤ 64
    → hash_chunk (c ∷ seed) 0 true
      ≡ take 8 (
          compress iv
            (words_from_le_bytes_padded (c ∷ seed))
            0
            (length (c ∷ seed))
            (bit_or (bit_or chunk_start chunk_end) root_flag))
unfolding hash_chunk hash_blocks chaining_value_of
one_block c seed h =
    let blocks : (length (c ∷ seed) + 63) / 64 ≡ 1 = omega arith in
    ap (λ j. hash_blocks j (c ∷ seed) true 0 true iv) blocks
    ∙ ap
        (λ block. take 8 (
          compress iv (words_from_le_bytes_padded block) 0 (length block)
            (bit_or (bit_or chunk_start chunk_end) root_flag)))
        (take_all 64 (c ∷ seed) h)

-- For a seed of 1 to 64 bytes: the extendable output has the length asked for, the output of a
-- shorter length is a prefix of it, and its first 32 bytes are the digest that `hash` gives.
pub xof_from_32_bytes-extends :
    (c : ℕ) (seed : Bytes) (m n : ℕ)
    → length (c ∷ seed) ≤ 64
    → m ≤ n
    → 32 ≤ n
    → (length (xof_from_32_bytes (c ∷ seed) n) ≡ n)
      × (take m (xof_from_32_bytes (c ∷ seed) n) ≡ xof_from_32_bytes (c ∷ seed) m)
      × (take 32 (xof_from_32_bytes (c ∷ seed) n) ≡ hash (c ∷ seed))
xof_from_32_bytes-extends c seed m n h shorter enough = (
  length-xof_from_32_bytes (c ∷ seed) n,
  xof_prefix (c ∷ seed) m n shorter,
  xof_prefix (c ∷ seed) 32 n enough
      ∙ first_block
      ∙ sym (ap words_to_le_bytes (one_block c seed h))
      ∙ sym (hash_small (c ∷ seed) (omega (arith, h))),
)
  where
    ws : Words
    ws =
        compress iv (words_from_le_bytes_padded (c ∷ seed)) 0 (length (c ∷ seed))
          (bit_or (bit_or chunk_start chunk_end) root_flag)

    first_block : xof_from_32_bytes (c ∷ seed) 32 ≡ words_to_le_bytes (take 8 ws)
    first_block =
        unfold xof_from_32_bytes xof_blocks in
        ap (take 32) (append-nil (words_to_le_bytes ws)) ∙ take-words_to_le_bytes 8 ws
