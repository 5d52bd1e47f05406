-- ===== src/Block/Binding.antt =====
-- What the root of a block commits to.
use mathlib.Core.Path.{ap₂}
use ondris.Prelude.{
  ℕ, zero, suc, ◌≤◌, ◌≡◌, ◌≢◌, refl, ap, sym, ◌∙◌, List, [], ◌∷◌, ◌++◌, length, arith, inl, inr,
  ◌⊎◌, All, Among, at_head, in_tail, Bytes, Bool-cases, bytes_eq, bytes_eq_sound, bytes_eq_refl,
  append_inj, false,
}
use ondris.Primitives.{Blake3, Blake3Laws, Hash256}
use ondris.Block.Merkle.{next_level, merkle_root, merkle_root_levels, length-next_level}

-- What the hashing of one level puts in: each pair, and an odd last hash with itself.
abbrev pub pairs : List Hash256 → List Bytes
pairs [] = []
pairs (x ∷ []) = (x ++ x) ∷ []
pairs (x ∷ y ∷ rest) = (x ++ y) ∷ pairs rest

-- What is hashed on the way from some leaves to their root, level by level.
pub data Hashes (b : Blake3) : List Hash256 → Bytes → Type 0 where
  at_level :
      {x y : Hash256} {rest : List Hash256} {m : Bytes}
      → Among m (pairs (x ∷ y ∷ rest))
      → Hashes b (x ∷ y ∷ rest) m
  above :
      {x y : Hash256} {rest : List Hash256} {m : Bytes}
      → Hashes b (next_level b (x ∷ y ∷ rest)) m
      → Hashes b (x ∷ y ∷ rest) m

-- Two different inputs with one hash.
abbrev pub Collides : Blake3 → Bytes → Bytes → Type 0
Collides b m m' = (m ≢ m') × (b.hash m ≡ b.hash m')

-- Two such inputs, each hashed on the way to the root of one of two lists.
abbrev pub Collision : Blake3 → List Hash256 → List Hash256 → Type 0
Collision b xs ys = (m : Bytes) × (m' : Bytes) × Hashes b xs m × Hashes b ys m' × Collides b m m'

abbrev pub IsHash : Hash256 → Type 0
IsHash h = length h ≡ 32

module _ (b : Blake3) (laws : Blake3Laws b) where
  -- The same on one level.
  abbrev Clash : List Hash256 → List Hash256 → Type 0
  Clash xs ys =
      (m : Bytes) × (m' : Bytes) × Among m (pairs xs) × Among m' (pairs ys) × Collides b m m'

  same_or_Collides : (m m' : Bytes) → b.hash m ≡ b.hash m' → (m ≡ m') ⊎ Collides b m m'
  same_or_Collides m m' e = elim (Bool-cases (bytes_eq m m')) [
    | inl same ↦ inl (bytes_eq_sound m m' same)
    | inr other ↦ inr ((λ q. differ q other), e)
  ]
    where
      differ : m ≡ m' → bytes_eq m m' ≡ false → ⊥
      differ q other = absurd (ground (arith, bytes_eq_refl m'))

  All-next_level : (xs : List Hash256) → All IsHash (next_level b xs)
  unfolding next_level
  All-next_level [] = tt
  All-next_level (x ∷ []) = (laws.length-hash (x ++ x), tt)
  All-next_level (x ∷ y ∷ rest) = (laws.length-hash (x ++ y), All-next_level rest)

  pair_binding :
      (x x' y y' : Hash256)
      → IsHash x
      → IsHash y
      → b.hash (x ++ x') ≡ b.hash (y ++ y')
      → ((x ≡ y) × (x' ≡ y')) ⊎ Collides b (x ++ x') (y ++ y')
  pair_binding x x' y y' hx hy e = elim (same_or_Collides (x ++ x') (y ++ y') e) [
    | inl same ↦ inl (append_inj x y x' y' (omega arith) same)
    | inr collision ↦ inr collision
  ]

  next_level_binding :
      (xs ys : List Hash256)
      → length xs ≡ length ys
      → All IsHash xs
      → All IsHash ys
      → next_level b xs ≡ next_level b ys
      → (xs ≡ ys) ⊎ Clash xs ys
  unfolding next_level
  next_level_binding [] [] l hx hy e = inl refl
  next_level_binding [] (y ∷ ys) l hx hy e = absurd (omega arith)
  next_level_binding (x ∷ xs) [] l hx hy e = absurd (omega arith)
  next_level_binding (x ∷ []) (y ∷ []) l hx hy e = elim (pair_binding x x y y hx.0 hy.0 (cc)) [
    | inl same ↦ inl (ap (λ h. h ∷ []) same.0)
    | inr collides ↦ inr (x ++ x, y ++ y, at_head refl, at_head refl, collides)
  ]
  next_level_binding (x ∷ []) (y ∷ y' ∷ ys) l hx hy e = absurd (omega arith)
  next_level_binding (x ∷ x' ∷ xs) (y ∷ []) l hx hy e = absurd (omega arith)
  next_level_binding (x ∷ x' ∷ xs) (y ∷ y' ∷ ys) l hx hy e =
      let pairs = pair_binding x x' y y' hx.0 hy.0 (cc) in
      let rests = next_level_binding xs ys (omega arith) hx.1.1 hy.1.1 (cc) in
      elim pairs [
        | inr collides ↦ inr (x ++ x', y ++ y', at_head refl, at_head refl, collides)
        | inl heads ↦ elim rests [
          | inr (m, m', here, here', collides) ↦ inr (m, m', in_tail here, in_tail here', collides)
          | inl tails ↦ inl (ap₂ ◌∷◌ heads.0 (ap₂ ◌∷◌ heads.1 tails))
        ]
      ]

  -- By induction on a bound of the length, level by level.
  binding_levels :
      (fuel : ℕ) (xs ys : List Hash256)
      → length xs ≤ fuel
      → length xs ≡ length ys
      → All IsHash xs
      → All IsHash ys
      → merkle_root b xs ≡ merkle_root b ys
      → (xs ≡ ys) ⊎ Collision b xs ys
  binding_levels fuel [] [] h l hx hy e = inl refl
  binding_levels fuel [] (y ∷ ys) h l hx hy e = absurd (omega arith)
  binding_levels fuel (x ∷ xs) [] h l hx hy e = absurd (omega arith)
  binding_levels zero (x ∷ xs) (y ∷ ys) h l hx hy e = absurd (omega arith)
  binding_levels (suc fuel) (x ∷ []) (y ∷ []) h l hx hy e = inl (
      ap (λ (r : Hash256). r ∷ [])
        (sym (merkle_root_levels b x x []).1 ∙ e ∙ (merkle_root_levels b y y []).1))
  binding_levels (suc fuel) (x ∷ []) (y ∷ y' ∷ ys) h l hx hy e = absurd (omega arith)
  binding_levels (suc fuel) (x ∷ x' ∷ xs) (y ∷ []) h l hx hy e = absurd (omega arith)
  binding_levels (suc fuel) (x ∷ x' ∷ xs) (y ∷ y' ∷ ys) h l hx hy e =
      let us : List Hash256 = x ∷ x' ∷ xs in
      let vs : List Hash256 = y ∷ y' ∷ ys in
      let nx = length-next_level b us in
      let ny = length-next_level b vs in
      elim (binding_levels fuel (next_level b us) (next_level b vs) (omega (arith, nx))
        (omega (arith, nx, ny)) (All-next_level us) (All-next_level vs)
        (sym (merkle_root_levels b x x' xs).2 ∙ e ∙ (merkle_root_levels b y y' ys).2)) [
          | inr (m, m', there, there', collides) ↦ inr (m, m', above there, above there', collides)
          | inl same ↦ elim (next_level_binding us vs (omega arith) hx hy same) [
            | inl one ↦ inl one
            | inr (m, m', here, here', collides) ↦
                inr (m, m', at_level here, at_level here', collides)
          ]
        ]

  -- The root binds the leaves: two lists of equally many 32-byte hashes with one root are the same
  -- list, or the two computations of that root hash two different inputs, one in each, to one hash.
  pub merkle_root_binding :
      (xs ys : List Hash256)
      → length xs ≡ length ys
      → All IsHash xs
      → All IsHash ys
      → merkle_root b xs ≡ merkle_root b ys
      → (xs ≡ ys) ⊎ Collision b xs ys
  merkle_root_binding xs ys = binding_levels (length xs) xs ys (omega arith)
