-- ===== src/Gpu/Blake3Ref/Unique.antt =====
-- The tree of BLAKE3 over given chunks is one tree.
use native.Mathlib.Nat.{pow-suc, one-le-pow}
use ondris.Prelude.{
  ℕ, zero, suc, ◌+◌, ◌*◌, ◌^◌, ◌≤◌, ◌<◌, ◌≡◌, refl, sym, ap, subst, ◌∙◌, Bool, true, false, inl,
  inr, ◌⊎◌, List, [], ◌∷◌, ◌++◌, Bytes, length, length-append, append_inj, arith,
}
use ondris.Gpu.Blake3Ref.{Words, hash_chunk, parent_cv, hash, words_to_le_bytes}
use ondris.Gpu.Blake3Ref.Hash.{chunks, hash-Tree}
use ondris.Gpu.Blake3Ref.Tree.{Tree, leaf, node}

-- How a tree over `chunks` comes about.
record Split (i : ℕ) (root : Bool) (chunks : List Bytes) (cv : Words) : Type 0 where
  pub ls : List Bytes
  pub rs : List Bytes
  pub l : Words
  pub r : Words
  pub k : ℕ
  pub whole : chunks ≡ ls ++ rs
  pub value : cv ≡ parent_cv l r root
  pub power : length ls ≡ 2 ^ k
  pub some_right : 1 ≤ length rs
  pub right_fits : length rs ≤ length ls
  pub left_tree : Tree i false ls l
  pub right_tree : Tree (i + length ls) false rs r

inversion :
    {i : ℕ} {root : Bool} {chunks : List Bytes} {cv : Words}
    → Tree i root chunks cv
    → ((c : Bytes) × (chunks ≡ c ∷ []) × (cv ≡ hash_chunk c i root)) ⊎ Split i root chunks cv
inversion (leaf i root chunk) = inl (chunk, refl, refl)
inversion (node {ls = ls} {rs = rs} {l = l} {r = r} k power pos fits tl tr) = inr (record {
  ls = ls;
  rs = rs;
  l = l;
  r = r;
  k = k;
  whole = refl;
  value = refl;
  power = power;
  some_right = pos;
  right_fits = fits;
  left_tree = tl;
  right_tree = tr;
})

pow-lt : (j k : ℕ) → j < k → 2 * 2 ^ j ≤ 2 ^ k
pow-lt j zero h = absurd (omega arith)
pow-lt zero (suc k) h = omega (arith, pow-suc 2 k, one-le-pow k)
pow-lt (suc j) (suc k) h = omega (arith, pow-suc 2 j, pow-suc 2 k, pow-lt j k (omega arith))

-- A number has one power of two below it and at least half of it.
same_power :
    (j k m n : ℕ) → 1 ≤ m → m ≤ 2 ^ j → 1 ≤ n → n ≤ 2 ^ k → 2 ^ j + m ≡ 2 ^ k + n → 2 ^ j ≡ 2 ^ k
same_power j k m n pm hm pn hn e = elim (order j k) [
  | inl same ↦ ap (λ (t : ℕ). 2 ^ t) same
  | inr (inl less) ↦ absurd (omega (arith, pow-lt j k less))
  | inr (inr more) ↦ absurd (omega (arith, pow-lt k j more))
]
  where
    order : (a b : ℕ) → (a ≡ b) ⊎ ((a < b) ⊎ (b < a))
    order zero zero = inl refl
    order zero (suc b) = inr (inl (omega arith))
    order (suc a) zero = inr (inr (omega arith))
    order (suc a) (suc b) = elim (order a b) [
      | inl e' ↦ inl (ap suc e')
      | inr (inl l) ↦ inr (inl (omega (arith, l)))
      | inr (inr l) ↦ inr (inr (omega (arith, l)))
    ]

one_value :
    (fuel i : ℕ) (root : Bool) (chunks : List Bytes) (v w : Words)
    → length chunks ≤ fuel
    → Tree i root chunks v
    → Tree i root chunks w
    → v ≡ w
one_value zero i root chunks v w bound t u = elim (inversion t) [
  | inl (c, one, value) ↦ absurd (omega (arith, ap length one))
  | inr s ↦ absurd (omega (arith, ap length s.whole, length-append s.ls s.rs, s.some_right))
]
one_value (suc fuel) i root chunks v w bound t u = elim (inversion t) [
  | inl (c, one, value) ↦ elim (inversion u) [
    | inl (d, one', value') ↦
        let same : c ≡ d = cc (one, one') in value ∙ ap (λ b. hash_chunk b i root) same ∙ sym value'
    | inr s ↦ absurd (
        omega (
          arith,
          ap length one,
          ap length s.whole,
          length-append s.ls s.rs,
          s.some_right,
          s.power,
          one-le-pow s.k,
        ))
  ]
  | inr s ↦ elim (inversion u) [
    | inl (d, one, value) ↦ absurd (
        omega (
          arith,
          ap length one,
          ap length s.whole,
          length-append s.ls s.rs,
          s.some_right,
          s.power,
          one-le-pow s.k,
        ))
    | inr s' ↦
        let n = ap length s.whole ∙ length-append s.ls s.rs in
        let n' = ap length s'.whole ∙ length-append s'.ls s'.rs in
        let power =
          same_power s.k s'.k (length s.rs) (length s'.rs) s.some_right
            (omega (arith, s.right_fits, s.power)) s'.some_right
            (omega (arith, s'.right_fits, s'.power)) (omega (arith, n, n', s.power, s'.power)) in
        let (lefts, rights) =
          append_inj s.ls s'.ls s.rs s'.rs (omega (arith, power, s.power, s'.power))
            (sym s.whole ∙ s'.whole) in
        let l_same : s.l ≡ s'.l =
          one_value fuel i false s.ls s.l s'.l (omega (arith, n, s.some_right, bound)) s.left_tree
            (subst (λ cs. Tree i false cs s'.l) (sym lefts) s'.left_tree) in
        let r_same : s.r ≡ s'.r =
          one_value fuel (i + length s.ls) false s.rs s.r s'.r
            (omega (arith, n, bound, s.power, one-le-pow s.k)) s.right_tree
            (subst (λ cs. Tree (i + length s.ls) false cs s'.r) (sym rights)
              (subst (λ cs. Tree (i + length cs) false s'.rs s'.r) (sym lefts) s'.right_tree)) in
        s.value
        ∙ ap (λ x. parent_cv x s.r root) l_same
        ∙ ap (λ x. parent_cv s'.l x root) r_same
        ∙ sym s'.value
  ]
]

Tree-unique :
    {i : ℕ} {root : Bool} {chunks : List Bytes} {v w : Words}
    → Tree i root chunks v
    → Tree i root chunks w
    → v ≡ w
Tree-unique {i} {root} {chunks} {v} {w} t u =
    one_value (length chunks) i root chunks v w (omega arith) t u

-- The digest of an input is the root of any tree over its chunks.
pub hash-root :
    (payload : Bytes) (cv : Words)
    → Tree 0 true (chunks payload) cv
    → hash payload ≡ words_to_le_bytes cv
hash-root payload cv t =
    let (root, same, u, _, _) = hash-Tree payload in same ∙ ap words_to_le_bytes (Tree-unique u t)
