-- ===== src/Gpu/Blake3Ref/Sizes.antt =====
-- blake3_ref.rs: the sizes of its words and of its digest.
use ondris.Prelude.{
  ℕ, zero, suc, ◌+◌, ◌*◌, ◌≤◌, ◌≡◌, refl, sym, ap, subst, ◌∙◌, Bool, true, false, List, [], ◌∷◌,
  Bytes, length, length-append, length-take, length-set, take, to_le_bytes, length-to_le_bytes,
  to_le_bytes-IsByte, IsByte, All, All-append, arith,
}
use ondris.Gpu.Blake3Ref.{
  Words, iv, g, mix_round, permute, rounds, feed_forward, start_state, compress, chaining_value_of,
  words_to_le_bytes, hash_blocks, hash_chunk, parent_cv, hash,
}
use ondris.Gpu.Blake3Ref.Hash.{hash-Tree}
use ondris.Gpu.Blake3Ref.Tree.{Tree, leaf, node}

length-g : (s : Words) (a b c d mx my : ℕ) → length (g s a b c d mx my) ≡ length s
unfolding g
length-g s a b c d mx my =
    length-set _ b _
    ∙ length-set _ c _
    ∙ length-set _ d _
    ∙ length-set _ a _
    ∙ length-set _ b _
    ∙ length-set _ c _
    ∙ length-set _ d _
    ∙ length-set s a _

length-mix_round : (s m : Words) → length (mix_round s m) ≡ length s
unfolding mix_round
length-mix_round s m =
    length-g _ 3 4 9 14 _ _
    ∙ length-g _ 2 7 8 13 _ _
    ∙ length-g _ 1 6 11 12 _ _
    ∙ length-g _ 0 5 10 15 _ _
    ∙ length-g _ 3 7 11 15 _ _
    ∙ length-g _ 2 6 10 14 _ _
    ∙ length-g _ 1 5 9 13 _ _
    ∙ length-g s 0 4 8 12 _ _

length-rounds : (n : ℕ) (s m : Words) → length (rounds n s m) ≡ length s
unfolding rounds
length-rounds zero s m = refl
length-rounds (suc zero) s m = length-mix_round s m
length-rounds (suc (suc n)) s m =
    length-rounds (suc n) (mix_round s m) (permute m) ∙ length-mix_round s m

length-feed_forward : (n i : ℕ) (cv s : Words) → length (feed_forward n i cv s) ≡ length s
unfolding feed_forward
length-feed_forward zero i cv s = refl
length-feed_forward (suc n) i cv s =
    length-feed_forward n (i + 1) cv _ ∙ length-set _ (i + 8) _ ∙ length-set s i _

pub length-compress :
    (cv m : Words) (counter len flags : ℕ)
    → 8 ≤ length cv
    → length (compress cv m counter len flags) ≡ 16
unfolding compress start_state
length-compress cv m counter len flags h =
    length-feed_forward 8 0 cv _
    ∙ length-rounds 7 (start_state cv counter len flags) m
    ∙ omega (arith, length-append (take 8 cv) _, length-take 8 cv)

length-chaining_value_of :
    (cv m : Words) (counter len flags : ℕ)
    → 8 ≤ length cv
    → length (chaining_value_of cv m counter len flags) ≡ 8
unfolding chaining_value_of
length-chaining_value_of cv m counter len flags h = omega (
  arith,
  length-take 8 (compress cv m counter len flags),
  length-compress cv m counter len flags h,
)

length-hash_blocks :
    (n : ℕ) (chunk : Bytes) (first : Bool) (counter : ℕ) (root : Bool) (cv : Words)
    → length cv ≡ 8
    → length (hash_blocks n chunk first counter root cv) ≡ 8
unfolding hash_blocks
length-hash_blocks zero chunk first counter root cv h = h
length-hash_blocks (suc n) chunk first counter root cv h =
    length-hash_blocks n _ false counter root _ (length-chaining_value_of cv _ _ _ _ (omega arith))

length-hash_chunk :
    (chunk : Bytes) (counter : ℕ) (root : Bool) → length (hash_chunk chunk counter root) ≡ 8
unfolding hash_chunk
length-hash_chunk [] counter root = length-chaining_value_of iv _ _ _ _ (omega arith)
length-hash_chunk (c ∷ chunk) counter root =
    length-hash_blocks _ (c ∷ chunk) true counter root iv refl

length-Tree :
    {i : ℕ} {root : Bool} {cs : List Bytes} {cv : Words} → Tree i root cs cv → length cv ≡ 8
unfolding parent_cv
length-Tree (leaf i root chunk) = length-hash_chunk chunk i root
length-Tree (node k power pos fits tl tr) = length-chaining_value_of iv _ _ _ _ (omega arith)

pub length-words_to_le_bytes : (ws : Words) → length (words_to_le_bytes ws) ≡ length ws * 4
unfolding words_to_le_bytes
length-words_to_le_bytes [] = refl
length-words_to_le_bytes (w ∷ ws) = omega (
  arith,
  length-append (to_le_bytes 4 w) (words_to_le_bytes ws),
  length-to_le_bytes 4 w,
  length-words_to_le_bytes ws,
)

pub words_to_le_bytes-IsByte : (ws : Words) → All IsByte (words_to_le_bytes ws)
unfolding words_to_le_bytes
words_to_le_bytes-IsByte [] = tt
words_to_le_bytes-IsByte (w ∷ ws) =
    All-append IsByte (to_le_bytes 4 w) (words_to_le_bytes ws) (to_le_bytes-IsByte 4 w)
      (words_to_le_bytes-IsByte ws)

pub length-hash : (payload : Bytes) → length (hash payload) ≡ 32
length-hash payload =
    let (cv, same, t, _, _) = hash-Tree payload in
    omega (arith, ap length same, length-words_to_le_bytes cv, length-Tree t)

pub hash-IsByte : (payload : Bytes) → All IsByte (hash payload)
hash-IsByte payload =
    let (cv, same, _, _, _) = hash-Tree payload in
    subst (All IsByte) (sym same) (words_to_le_bytes-IsByte cv)
