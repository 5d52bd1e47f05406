-- ===== src/Chain/Ledger/Emission.antt =====
-- The sum of `block_reward` of chain.rs over the branch of a tip.
use native.Mathlib.Nat.{
  div-eq_of_lt-le, le-div_iff_mul-le, div-mul-le_self, mul-le-mul_left, mul-le-mul_right, pow-suc,
  one-le-pow, div-add-mod', mod-lt, div-le_self,
}
use mathlib.Core.List.{reverse-cons}
use ondris.Prelude.{
  ℕ, zero, suc, ◌+◌, ◌*◌, ◌-◌, ◌/◌, ◌%◌, ◌^◌, ◌≤◌, ◌<◌, max, ◌≡◌, refl, ap, inl, inr, [], ◌∷◌, ◌++◌,
  reverse, leb, Bool-cases, arith,
}
use ondris.Chain.{GenesisConfig, block_reward}
use ondris.Chain.Fork.{BlockChain}
use ondris.Chain.Ledger.Supply.{rewards}
use ondris.Chain.Reorg.Index.{IsStair}

module _ (g : GenesisConfig) where
  rewards-append : (bs cs : BlockChain) → rewards g (bs ++ cs) ≡ rewards g bs + rewards g cs
  rewards-append [] cs = omega arith
  rewards-append ((h, b) ∷ bs) cs = omega (arith, rewards-append bs cs)

  pub rewards-reverse : (bs : BlockChain) → rewards g (reverse bs) ≡ rewards g bs
  rewards-reverse [] = refl
  rewards-reverse ((h, b) ∷ bs) = omega (
    arith,
    ap (rewards g) (reverse-cons (h, b) bs),
    rewards-append (reverse bs) ((h, b) ∷ []),
    rewards-reverse bs,
  )

  abbrev interval : ℕ
  interval = max g.halving_interval 1

  -- The reward after some halvings, were their number not cut at 64.
  abbrev halved : ℕ → ℕ
  halved q = g.initial_reward / 2 ^ q

  two_halves : (q : ℕ) → 2 * halved (suc q) ≤ halved q
  two_halves q =
      let whole = div-mul-le_self g.initial_reward (2 ^ suc q) in
      (le-div_iff_mul-le (one-le-pow q 2 (omega arith))).1
        (omega (arith, whole, ap (λ d. halved (suc q) * d) (pow-suc 2 q)))

  block_reward_le : (n q r : ℕ) → n ≡ q * interval + r → r < interval → block_reward g n ≤ halved q
  unfolding block_reward
  block_reward_le n q r at low =
      let era : n / interval ≡ q =
        div-eq_of_lt-le interval (omega (arith, at)) (omega (arith, at, low)) in
      elim (Bool-cases (leb 64 (n / interval))) [
        | inl late ↦ rw late (omega arith)
        | inr early ↦ rw early (rw era (omega arith))
      ]

  -- What an era has still to give covers all later eras.
  rewards_left :
      (bs : BlockChain) (n q r : ℕ)
      → IsStair n bs
      → n ≡ q * interval + r
      → r < interval
      → rewards g bs + 2 * (interval * halved q) ≤ 2 * (g.initial_reward * interval) + r * halved q
  rewards_left [] n q r stair at low =
      let less = mul-le-mul_left interval (div-le_self g.initial_reward (2 ^ q)) in
      omega (arith, less)
  rewards_left ((h, b) ∷ bs) n zero zero (height, positive, stair) at low =
      absurd (omega (arith, at, positive))
  rewards_left ((h, b) ∷ bs) n (suc q) zero (height, positive, stair) at low =
      let last = interval - 1 in
      let rest =
        rewards_left bs (n - 1) q last stair (omega (arith, at, low)) (omega (arith, low)) in
      let given = block_reward_le n (suc q) zero at low in
      let lower = mul-le-mul_left interval (two_halves q) in
      let one_more : last + 1 ≡ interval = omega (arith, low) in
      let whole : (last + 1) * halved q ≡ interval * halved q = ap (λ k. k * halved q) one_more in
      omega (arith, rest, given, lower, two_halves q, whole, ap (block_reward g) height)
  rewards_left ((h, b) ∷ bs) n q (suc r) (height, positive, stair) at low =
      let rest = rewards_left bs (n - 1) q r stair (omega (arith, at)) (omega (arith, low)) in
      let given = block_reward_le n q (suc r) at low in
      omega (arith, rest, given, ap (block_reward g) height)

  -- However long the chain grows, its rewards sum to at most twice the first reward for each block of
  -- an interval: for every branch whose heights go down one by one to 1.
  pub rewards_bound :
      (bs : BlockChain) (n : ℕ)
      → IsStair n bs
      → rewards g bs ≤ 2 * (g.initial_reward * max g.halving_interval 1)
  rewards_bound bs n stair =
      let low : n % interval < interval = mod-lt n (omega arith) in
      let left =
        rewards_left bs n (n / interval) (n % interval) stair
          (omega (arith, div-add-mod' n interval)) low in
      let era : n % interval * halved (n / interval) ≤ interval * halved (n / interval) =
        mul-le-mul_right (halved (n / interval)) (omega (arith, low)) in
      omega (arith, left, era)
