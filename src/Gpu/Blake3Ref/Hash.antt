-- ===== src/Gpu/Blake3Ref/Hash.antt =====
-- `hash` of blake3_ref.rs as the root of the tree over its input's chunks.
use ondris.Prelude.{
  ℕ, zero, suc, ◌+◌, ◌-◌, ◌*◌, ◌≤◌, ◌<◌, ◌≡◌, refl, sym, ap, subst, ◌∙◌, true, false, some,
  Bool-cases, inl, inr, List, [], ◌∷◌, ◌++◌, append_assoc, append-nil, Bytes, length, length-append,
  length-take, length-drop, take, drop, take-append-drop, leb, leb→le, arith,
}
use ondris.Gpu.Blake3Ref.{
  Words, chunk_len, hash_chunk, stream_chunks, is_empty, fold_stack, n_chunks, try_hash, hash,
  words_to_le_bytes,
}
use ondris.Gpu.Blake3Ref.Tree.{
  Tree, leaf, Stacked, nothing, merge_cv_stack-Stacked, fold_stack-Tree,
}

-- `left` chunks of 1024 bytes and what is behind them.
abbrev chunks_of : ℕ → Bytes → List Bytes
chunks_of zero payload = payload ∷ []
chunks_of (suc left) payload = take chunk_len payload ∷ chunks_of left (drop chunk_len payload)

abbrev pub chunks : Bytes → List Bytes
chunks payload = chunks_of (n_chunks payload - 1) payload

abbrev pub joined : List Bytes → Bytes
joined [] = []
joined (c ∷ cs) = c ++ joined cs

-- Every chunk but the last has 1024 bytes, and the last at most as many.
abbrev pub IsChunked : List Bytes → Type 0
IsChunked [] = Unit {0}
IsChunked (c ∷ []) = length c ≤ chunk_len
IsChunked (c ∷ d ∷ cs) = (length c ≡ chunk_len) × IsChunked (d ∷ cs)

joined-chunks_of : (left : ℕ) (payload : Bytes) → joined (chunks_of left payload) ≡ payload
joined-chunks_of zero payload = append-nil payload
joined-chunks_of (suc left) payload =
    ap (λ v. take chunk_len payload ++ v) (joined-chunks_of left (drop chunk_len payload))
    ∙ take-append-drop chunk_len payload

chunks_of-IsChunked :
    (left : ℕ) (payload : Bytes)
    → left * 1024 ≤ length payload
    → length payload ≤ left * 1024 + 1024
    → IsChunked (chunks_of left payload)
chunks_of-IsChunked zero payload lo hi = omega arith
chunks_of-IsChunked (suc zero) payload lo hi =
    (omega (arith, length-take chunk_len payload), omega (arith, length-drop chunk_len payload))
chunks_of-IsChunked (suc (suc left)) payload lo hi = (
  omega (arith, length-take chunk_len payload),
  chunks_of-IsChunked (suc left) (drop chunk_len payload)
      (omega (arith, length-drop chunk_len payload)) (omega (arith, length-drop chunk_len payload)),
)

stream_chunks-Stacked :
    (left : ℕ) (payload : Bytes) (count : ℕ) (stack : List Words) (before : List Bytes)
    → Stacked 0 count stack before
    → length before ≡ count
    → (stack' : List Words) × (last : Bytes) × (all : List Bytes) × (stream_chunks left payload
          count stack
        ≡ some (stack', last))
      × Stacked 0 (count + left) stack' all
      × (length all ≡ count + left)
      × (all ++ (last ∷ []) ≡ before ++ chunks_of left payload)
unfolding stream_chunks
stream_chunks-Stacked zero payload count stack before s size = (
  stack,
  payload,
  before,
  refl,
  subst (λ n. Stacked 0 n stack before) (omega arith) s,
  omega (arith, size),
  refl,
)
stream_chunks-Stacked (suc left) payload count stack before s size =
    let chunk = take chunk_len payload in
    let cv = hash_chunk chunk count false in
    let (merged, done, s') =
      merge_cv_stack-Stacked (suc count) (chunk ∷ []) cv s
        (subst (λ i. Tree i false (chunk ∷ []) cv) (sym size) (leaf count false chunk)) refl
        (omega arith) in
    let (stack', last, all, rest, s'', size'', same) =
      stream_chunks-Stacked left (drop chunk_len payload) (suc count) merged
        (before ++ (chunk ∷ [])) s' (omega (arith, length-append before (chunk ∷ []), size)) in
    let step : stream_chunks (suc left) payload count stack
        ≡ stream_chunks left (drop chunk_len payload) (suc count) merged =
      ground (arith, done) in
    (
      stack',
      last,
      all,
      step ∙ rest,
      subst (λ n. Stacked 0 n stack' all) (omega arith) s'',
      omega (arith, size''),
      same ∙ append_assoc before (chunk ∷ []) (chunks_of left (drop chunk_len payload)),
    )

-- The hash of any input is the root of the BLAKE3 tree over its chunks: the input cut into pieces
-- of 1024 bytes, the last one with the rest. The stack machine never finds its stack empty.
pub hash-Tree :
    (payload : Bytes)
    → (cv : Words) × (hash payload ≡ words_to_le_bytes cv)
      × Tree 0 true (chunks payload) cv
      × (joined (chunks payload) ≡ payload)
      × IsChunked (chunks payload)
unfolding hash try_hash
hash-Tree payload = elim (Bool-cases (leb (length payload) chunk_len)) [
  | inl small ↦
      let bound = leb→le (length payload) chunk_len small in
      let one : n_chunks payload - 1 ≡ 0 = omega (arith, bound) in
      (
        hash_chunk payload 0 true,
        ground (arith, small),
        subst (λ n. Tree 0 true (chunks_of n payload) (hash_chunk payload 0 true)) (sym one)
            (leaf 0 true payload),
        joined-chunks_of (n_chunks payload - 1) payload,
        subst (λ n. IsChunked (chunks_of n payload)) (sym one) bound,
      )
  | inr big ↦
      let left = n_chunks payload - 1 in
      let long : 1024 < length payload = ground (arith, big) in
      let (stack, last, all, streamed, s, size, same) =
        stream_chunks-Stacked left payload 0 [] [] nothing refl in
      let acc = hash_chunk last left (is_empty stack) in
      (
        fold_stack stack acc,
        ground (arith, big, streamed),
        subst (λ cs. Tree 0 true cs (fold_stack stack acc)) same
            (fold_stack-Tree (last ∷ []) acc s
              (subst (λ i. Tree i (is_empty stack) (last ∷ []) acc) (omega (arith, size))
                (leaf left (is_empty stack) last))
              (omega arith) (omega arith)),
        joined-chunks_of left payload,
        chunks_of-IsChunked left payload (omega (arith, long)) (omega (arith, long)),
      )
]
