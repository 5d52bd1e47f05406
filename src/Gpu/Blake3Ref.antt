-- ===== src/Gpu/Blake3Ref.antt =====
-- crates/ondris-miner-gpu/src/blake3_ref.rs: BLAKE3 of a whole input, and its extendable output of
-- 32 bytes. Arrays of words are lists; the stack of chaining values has its top in front.
pub mod Tree
pub mod Hash
pub mod Unique
pub mod Sizes
pub mod Xof
use ondris.Prelude.{
  ℕ, zero, suc, ◌+◌, ◌-◌, ◌*◌, ◌/◌, ◌%◌, ◌^◌, bit_xor, bit_or, Bool, true, false, Option, none,
  some, List, [], ◌∷◌, ◌++◌, map, Bytes, length, take, drop, replicate, get_or, set, to_le_bytes,
  from_le_bytes, leb, ◌==◌, if◌then◌else◌,
}

abbrev pub Words : Type 0
Words = List ℕ

abbrev pub iv : Words
iv =
    0x6A09E667 ∷ 0xBB67AE85 ∷ 0x3C6EF372 ∷ 0xA54FF53A ∷ 0x510E527F ∷ 0x9B05688C ∷ 0x1F83D9AB
    ∷ 0x5BE0CD19 ∷ []

abbrev pub msg_permutation : List ℕ
msg_permutation = 2 ∷ 6 ∷ 3 ∷ 10 ∷ 7 ∷ 0 ∷ 4 ∷ 13 ∷ 1 ∷ 11 ∷ 12 ∷ 5 ∷ 9 ∷ 14 ∷ 15 ∷ 8 ∷ []

abbrev pub chunk_start : ℕ
chunk_start = 1

abbrev pub chunk_end : ℕ
chunk_end = 2

abbrev pub parent_flag : ℕ
parent_flag = 4

abbrev pub root_flag : ℕ
root_flag = 8

abbrev pub chunk_len : ℕ
chunk_len = 1024

abbrev pub block_len : ℕ
block_len = 64

abbrev pub word : Words → ℕ → ℕ
word ws i = get_or ws i 0

-- `wrapping_add` of u32
abbrev pub wrapping_add : ℕ → ℕ → ℕ
wrapping_add a b = (a + b) % 2 ^ 32

-- `rotate_right` of u32
abbrev pub rotate_right : ℕ → ℕ → ℕ
rotate_right a n = a / 2 ^ n + a % 2 ^ n * 2 ^ (32 - n)

unfoldable pub g : Words → ℕ → ℕ → ℕ → ℕ → ℕ → ℕ → Words
g s₀ a b c d mx my =
    let s₁ = set s₀ a (wrapping_add (wrapping_add (word s₀ a) (word s₀ b)) mx) in
    let s₂ = set s₁ d (rotate_right (bit_xor (word s₁ d) (word s₁ a)) 16) in
    let s₃ = set s₂ c (wrapping_add (word s₂ c) (word s₂ d)) in
    let s₄ = set s₃ b (rotate_right (bit_xor (word s₃ b) (word s₃ c)) 12) in
    let s₅ = set s₄ a (wrapping_add (wrapping_add (word s₄ a) (word s₄ b)) my) in
    let s₆ = set s₅ d (rotate_right (bit_xor (word s₅ d) (word s₅ a)) 8) in
    let s₇ = set s₆ c (wrapping_add (word s₆ c) (word s₆ d)) in
    set s₇ b (rotate_right (bit_xor (word s₇ b) (word s₇ c)) 7)

-- The eight calls of `g` in a round.
unfoldable pub mix_round : Words → Words → Words
mix_round s₀ m =
    let s₁ = g s₀ 0 4 8 12 (word m 0) (word m 1) in
    let s₂ = g s₁ 1 5 9 13 (word m 2) (word m 3) in
    let s₃ = g s₂ 2 6 10 14 (word m 4) (word m 5) in
    let s₄ = g s₃ 3 7 11 15 (word m 6) (word m 7) in
    let s₅ = g s₄ 0 5 10 15 (word m 8) (word m 9) in
    let s₆ = g s₅ 1 6 11 12 (word m 10) (word m 11) in
    let s₇ = g s₆ 2 7 8 13 (word m 12) (word m 13) in g s₇ 3 4 9 14 (word m 14) (word m 15)

unfoldable pub permute : Words → Words
permute m = map (λ i. word m i) msg_permutation

-- The rounds that are left; the words are not permuted after the last.
unfoldable pub rounds : ℕ → Words → Words → Words
rounds zero state m = state
rounds (suc zero) state m = mix_round state m
rounds (suc (suc left)) state m = rounds (suc left) (mix_round state m) (permute m)

-- The closing loop: the words i, i + 1, … of both halves.
unfoldable pub feed_forward : ℕ → ℕ → Words → Words → Words
feed_forward zero i cv state = state
feed_forward (suc left) i cv state =
    let mixed = set state i (bit_xor (word state i) (word state (i + 8))) in
    feed_forward left (i + 1) cv (set mixed (i + 8) (bit_xor (word mixed (i + 8)) (word cv i)))

unfoldable pub start_state : Words → ℕ → ℕ → ℕ → Words
start_state cv counter len flags =
    take 8 cv ++ (take 4 iv ++ (counter % 2 ^ 32 ∷ counter / 2 ^ 32 % 2 ^ 32 ∷ len ∷ flags ∷ []))

unfoldable pub compress : Words → Words → ℕ → ℕ → ℕ → Words
compress cv block_words counter len flags =
    feed_forward 8 0 cv (rounds 7 (start_state cv counter len flags) block_words)

-- The words w, w + 1, … of a padded block.
unfoldable pub block_words_from : ℕ → Bytes → Words
block_words_from zero padded = []
block_words_from (suc left) padded =
    from_le_bytes (take 4 padded) ∷ block_words_from left (drop 4 padded)

unfoldable pub words_from_le_bytes_padded : Bytes → Words
words_from_le_bytes_padded block =
    block_words_from 16 (block ++ replicate (block_len - length block) 0)

unfoldable pub chaining_value_of : Words → Words → ℕ → ℕ → ℕ → Words
chaining_value_of cv block_words counter len flags =
    take 8 (compress cv block_words counter len flags)

unfoldable pub words_to_le_bytes : Words → Bytes
words_to_le_bytes [] = []
words_to_le_bytes (w ∷ ws) = to_le_bytes 4 w ++ words_to_le_bytes ws

-- The loop of `xof_from_32_bytes`, which writes 64 bytes in each round.
unfoldable pub xof_blocks : ℕ → Words → ℕ → ℕ → Bytes
xof_blocks zero block_words len counter = []
xof_blocks (suc left) block_words len counter =
    words_to_le_bytes
      (compress iv block_words counter len (bit_or (bit_or chunk_start chunk_end) root_flag))
    ++ xof_blocks left block_words len (counter + 1)

-- The rounds are those that `while out.len() < out_len` makes.
unfoldable pub xof_from_32_bytes : Bytes → ℕ → Bytes
xof_from_32_bytes seed out_len =
    take out_len
      (xof_blocks ((out_len + 63) / 64) (words_from_le_bytes_padded seed) (length seed) 0)

abbrev flag_if : Bool → ℕ → ℕ
flag_if b flag = if b then flag else 0

-- The loop over the blocks of a chunk, of which `left` are left.
unfoldable pub hash_blocks : ℕ → Bytes → Bool → ℕ → Bool → Words → Words
hash_blocks zero chunk is_first counter root cv = cv
hash_blocks (suc left) chunk is_first counter root cv =
    let is_last = left == 0 in
    let flags =
      bit_or (bit_or (flag_if is_first chunk_start) (flag_if is_last chunk_end))
        (flag_if is_last (flag_if root root_flag)) in
    let block = take block_len chunk in
    hash_blocks left (drop block_len chunk) false counter root
      (chaining_value_of cv (words_from_le_bytes_padded block) counter (length block) flags)

unfoldable pub hash_chunk : Bytes → ℕ → Bool → Words
hash_chunk [] counter root =
    chaining_value_of iv (replicate 16 0) counter 0
      (bit_or (bit_or chunk_start chunk_end) (flag_if root root_flag))
hash_chunk (c ∷ chunk) counter root =
    hash_blocks ((length (c ∷ chunk) + 63) / 64) (c ∷ chunk) true counter root iv

pub parent_cv : Words → Words → Bool → Words
parent_cv left right root =
    chaining_value_of iv (left ++ right) 0 block_len (bit_or parent_flag (flag_if root root_flag))

-- `merge_cv_stack`; `none` is the failed `expect` on an empty stack, and a loop that is not over.
pub merge_cv_stack : ℕ → List Words → Words → ℕ → Option (List Words)
merge_cv_stack zero stack new_cv total_chunks = none
merge_cv_stack (suc fuel) [] new_cv total_chunks =
    if total_chunks % 2 == 0 then none else some (new_cv ∷ [])
merge_cv_stack (suc fuel) (left ∷ stack) new_cv total_chunks =
    let rest = merge_cv_stack fuel stack (parent_cv left new_cv false) (total_chunks / 2) in
    if total_chunks % 2 == 0 then rest else some (new_cv ∷ left ∷ stack)

-- The loop over all chunks but the last: the stack, and the last chunk.
pub stream_chunks : ℕ → Bytes → ℕ → List Words → Option (List Words × Bytes)
stream_chunks zero payload chunk_counter stack = some (stack, payload)
stream_chunks (suc left) payload chunk_counter stack =
    let cv = hash_chunk (take chunk_len payload) chunk_counter false in
    elim (merge_cv_stack (suc chunk_counter) stack cv (suc chunk_counter)) [
      | none ↦ none
      | some merged ↦ stream_chunks left (drop chunk_len payload) (suc chunk_counter) merged
    ]

abbrev pub is_empty : List Words → Bool
is_empty [] = true
is_empty (cv ∷ cvs) = false

-- The loop that folds the stack into the last chunk's chaining value.
pub fold_stack : List Words → Words → Words
fold_stack [] acc = acc
fold_stack (left ∷ stack) acc = fold_stack stack (parent_cv left acc (is_empty stack))

-- `div_ceil` by the length of a chunk
abbrev pub n_chunks : Bytes → ℕ
n_chunks payload = (length payload + 1023) / 1024

unfoldable pub try_hash : Bytes → Option Bytes
try_hash payload =
    if leb (length payload) chunk_len
    then some (words_to_le_bytes (hash_chunk payload 0 true))
    else elim (stream_chunks (n_chunks payload - 1) payload 0 []) [
      | none ↦ none
      | some (stack, last_chunk) ↦ some (
          words_to_le_bytes
            (fold_stack stack (hash_chunk last_chunk (n_chunks payload - 1) (is_empty stack))))
    ]

-- `hash`; the empty string stands for the panic.
unfoldable pub hash : Bytes → Bytes
hash payload = elim (try_hash payload) [ none ↦ [] | some digest ↦ digest ]
