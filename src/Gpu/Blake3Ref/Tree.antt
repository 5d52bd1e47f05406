-- ===== src/Gpu/Blake3Ref/Tree.antt =====
-- The stack of chaining values of blake3_ref.rs, and the tree of BLAKE3 over the chunks.
use native.Mathlib.Nat.{pow-suc, one-le-pow}
use ondris.Prelude.{
  ℕ, zero, suc, ◌+◌, ◌*◌, ◌/◌, ◌%◌, ◌^◌, ◌≤◌, ◌≡◌, refl, sym, ap, subst, ◌∙◌, Bool, true, false,
  some, List, [], ◌∷◌, ◌++◌, append_assoc, Bytes, length, length-append, ◌==◌, arith,
}
use ondris.Gpu.Blake3Ref.{Words, hash_chunk, parent_cv, merge_cv_stack, is_empty, fold_stack}

-- The tree of BLAKE3 over chunks from the number `i` on, with its chaining value: a chunk by
-- itself, or a left tree over a power of two of chunks and a right one over at most as many. The
-- root flag stands at the top alone.
pub data Tree : ℕ → Bool → List Bytes → Words → Type 0 where
  leaf : (i : ℕ) (root : Bool) (chunk : Bytes) → Tree i root (chunk ∷ []) (hash_chunk chunk i root)
  node :
      {i : ℕ} {root : Bool} {ls rs : List Bytes} {l r : Words} (k : ℕ)
      → length ls ≡ 2 ^ k
      → 1 ≤ length rs
      → length rs ≤ length ls
      → Tree i false ls l
      → Tree (i + length ls) false rs r
      → Tree i root (ls ++ rs) (parent_cv l r root)

-- A stack over `count` times 2 ^ j chunks: one tree for each bit of `count`, the lowest on top.
pub data Stacked : ℕ → ℕ → List Words → List Bytes → Type 0 where
  nothing : {j : ℕ} → Stacked j zero [] []
  skipped :
      {j count total : ℕ} {stack : List Words} {chunks : List Bytes}
      → total ≡ 2 * count
      → Stacked (suc j) count stack chunks
      → Stacked j total stack chunks
  on_top :
      {j count total : ℕ} {stack : List Words} {chunks top : List Bytes} {cv : Words}
      → total ≡ 2 * count + 1
      → length top ≡ 2 ^ j
      → Tree (length chunks) false top cv
      → Stacked (suc j) count stack chunks
      → Stacked j total (cv ∷ stack) (chunks ++ top)

-- A tree of 2 ^ j chunks joins a stack as a carry joins a binary counter.
pub merge_cv_stack-Stacked :
    {j count : ℕ} {stack : List Words} {chunks : List Bytes} (fuel : ℕ) (top : List Bytes)
    (cv : Words)
    → Stacked j count stack chunks
    → Tree (length chunks) false top cv
    → length top ≡ 2 ^ j
    → suc count ≤ fuel
    → (merged : List Words) × (merge_cv_stack fuel stack cv (suc count) ≡ some merged)
      × Stacked j (suc count) merged (chunks ++ top)
unfolding merge_cv_stack
merge_cv_stack-Stacked zero top cv s t size enough = absurd (omega arith)
merge_cv_stack-Stacked (suc fuel) top cv nothing t size enough =
    (cv ∷ [], refl, on_top refl size t nothing)
merge_cv_stack-Stacked {stack = []} (suc fuel) top cv (skipped {total = total} e s) t size enough =
    let odd : (suc total % 2 == 0) ≡ false = ground (arith, e) in
    (cv ∷ [], rw odd refl, on_top (omega (arith, e)) size t s)
merge_cv_stack-Stacked {stack = left ∷ stack} (suc fuel) top cv (skipped {total = total} e s) t size
      enough =
    let odd : (suc total % 2 == 0) ≡ false = ground (arith, e) in
    (cv ∷ left ∷ stack, rw odd refl, on_top (omega (arith, e)) size t s)
merge_cv_stack-Stacked {j} (suc fuel) top cv
      (on_top {count = count} {total = total} {stack = stack} {chunks = chunks} {top = old}
        {cv = left} e size' t' s)
      t size enough =
    let even : (suc total % 2 == 0) ≡ true = ground (arith, e) in
    let half : suc total / 2 ≡ suc count = omega (arith, e) in
    let joined : Tree (length chunks) false (old ++ top) (parent_cv left cv false) =
      node j size' (omega (arith, size, one-le-pow j)) (omega (arith, size, size')) t'
        (subst (λ i. Tree i false top cv) (length-append chunks old) t) in
    let (merged, done, s') =
      merge_cv_stack-Stacked fuel (old ++ top) (parent_cv left cv false) s joined
        (omega (arith, length-append old top, size, size', pow-suc 2 j)) (omega (arith, e)) in
    (
      merged,
      rw even (ap (merge_cv_stack fuel stack (parent_cv left cv false)) half ∙ done),
      skipped (omega (arith, e))
          (subst (Stacked (suc j) (suc count) merged) (sym (append_assoc chunks old top)) s'),
    )

-- Folding a stack into the tree of the last chunks gives the whole tree.
pub fold_stack-Tree :
    {j count : ℕ} {stack : List Words} {chunks : List Bytes} (last : List Bytes) (acc : Words)
    → Stacked j count stack chunks
    → Tree (length chunks) (is_empty stack) last acc
    → 1 ≤ length last
    → length last ≤ 2 ^ j
    → Tree 0 true (chunks ++ last) (fold_stack stack acc)
unfolding fold_stack
fold_stack-Tree last acc nothing t pos size = t
fold_stack-Tree {j} last acc (skipped e s) t pos size =
    fold_stack-Tree last acc s t pos (omega (arith, pow-suc 2 j))
fold_stack-Tree {j} last acc
      (on_top {stack = stack} {chunks = chunks} {top = top} {cv = cv} e size' t' s) t pos size =
    subst (λ all. Tree 0 true all (fold_stack stack (parent_cv cv acc (is_empty stack))))
      (sym (append_assoc chunks top last))
      (fold_stack-Tree (top ++ last) (parent_cv cv acc (is_empty stack)) s
        (node j size' pos (omega (arith, size')) t'
          (subst (λ i. Tree i false last acc) (length-append chunks top) t))
        (omega (arith, length-append top last))
        (omega (arith, length-append top last, size', pow-suc 2 j)))
