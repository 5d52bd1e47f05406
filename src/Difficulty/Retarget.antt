-- ===== src/Difficulty/Retarget.antt =====
-- What retargeting does to the difficulty: the bounds of the clamp, its direction, and the wrap.
use native.Mathlib.Nat.{
  div-le_of_le-mul, mul-le-mul_left, mul-le-mul_right, div-mul-le_self, le-div_iff_mul-le,
  mul-div_cancel,
}
use ondris.Prelude.{ℕ, ◌*◌, ◌/◌, ◌%◌, ◌^◌, ◌≤◌, ◌<◌, min, max, ◌≡◌, ap, arith, IsU64}
use ondris.Difficulty.{target_timespan, clamped_timespan, next_difficulty}

-- Within the range where `target * 4` does not wrap, the clamped timespan lies between a quarter
-- (rounded down, at least 1) and four times the target.
clamped_timespan_bounds :
    (a t : ℕ)
    → 1 ≤ t
    → t * 4 < 2 ^ 64
    → (t / 4 ≤ clamped_timespan a t) × (1 ≤ clamped_timespan a t) × (clamped_timespan a t ≤ t * 4)
unfolding clamped_timespan
clamped_timespan_bounds a t pos small = omega arith

target_timespan_pos : (b w : ℕ) → 1 ≤ target_timespan b w
unfolding target_timespan
target_timespan_pos b w = omega arith

clamped_timespan_mono : (a a' t : ℕ) → a ≤ a' → clamped_timespan a t ≤ clamped_timespan a' t
unfolding clamped_timespan
clamped_timespan_mono a a' t h = omega arith

pub div_antitone : (n c c' : ℕ) → 1 ≤ c → c ≤ c' → n / c' ≤ n / c
div_antitone n c c' pos h =
    let q = n / c' in
    let below : q * c' ≤ n = omega (arith, div-mul-le_self n c') in
    (le-div_iff_mul-le pos).1 (omega (arith, mul-le-mul_left q h, below))

-- The factor t / a by which a difficulty is scaled.
scaled_le_seven : (p t a : ℕ) → 1 ≤ a → t / 4 ≤ a → p * t / a ≤ 7 * p
scaled_le_seven p t a pos h =
    let t_le : t ≤ 7 * a = omega arith in
    div-le_of_le-mul a (omega (arith, mul-le-mul_left {m = t} {n = 7 * a} p t_le))

scaled_le_four : (p t a : ℕ) → 1 ≤ a → t / 4 ≤ a → t % 4 ≡ 0 → p * t / a ≤ 4 * p
scaled_le_four p t a pos h even =
    let t_le : t ≤ 4 * a = omega arith in
    div-le_of_le-mul a (omega (arith, mul-le-mul_left {m = t} {n = 4 * a} p t_le))

quarter_le_scaled : (p t a : ℕ) → 1 ≤ a → a ≤ t * 4 → p / 4 ≤ p * t / a
quarter_le_scaled p t a pos h =
    let q = p / 4 in
    let q_le : q * 4 ≤ p = omega arith in
    (le-div_iff_mul-le pos).1 (omega (arith, mul-le-mul_left q h, mul-le-mul_right t q_le))

-- One retarget of a difficulty p, where neither `target * 4` nor the result of the scaling leaves
-- 64 bits: the new difficulty is at least 1, and between a quarter of p, rounded down, and 7 p.
pub next_difficulty_bounds :
    (p a b w : ℕ)
    → 1 ≤ p
    → 7 * p < 2 ^ 64
    → target_timespan b w * 4 < 2 ^ 64
    → (p / 4 ≤ next_difficulty p a b w)
      × (1 ≤ next_difficulty p a b w)
      × (next_difficulty p a b w ≤ 7 * p)
unfolding next_difficulty
next_difficulty_bounds p a b w pos room fits =
    let t = target_timespan b w in
    let c = clamped_timespan a t in
    let (lo, one, hi) = clamped_timespan_bounds a t (target_timespan_pos b w) fits in
    let upper : p * t / c ≤ 7 * p = scaled_le_seven p t c one lo in
    let lower : p / 4 ≤ p * t / c = quarter_le_scaled p t c one hi in
    let kept : p * t / c % 2 ^ 64 ≡ p * t / c = omega (arith, upper) in
    (rw kept (omega arith), omega arith, rw kept (omega arith))

-- Where the target timespan is a multiple of 4, and nothing leaves 64 bits, one retarget keeps the
-- difficulty between a quarter of p, rounded down, and 4 p.
pub next_difficulty_clamped :
    (p a b w : ℕ)
    → 1 ≤ p
    → 4 * p < 2 ^ 64
    → target_timespan b w % 4 ≡ 0
    → target_timespan b w * 4 < 2 ^ 64
    → (p / 4 ≤ next_difficulty p a b w) × (next_difficulty p a b w ≤ 4 * p)
unfolding next_difficulty
next_difficulty_clamped p a b w pos room even fits =
    let t = target_timespan b w in
    let c = clamped_timespan a t in
    let (lo, one, hi) = clamped_timespan_bounds a t (target_timespan_pos b w) fits in
    let upper : p * t / c ≤ 4 * p = scaled_le_four p t c one lo even in
    let lower : p / 4 ≤ p * t / c = quarter_le_scaled p t c one hi in
    let kept : p * t / c % 2 ^ 64 ≡ p * t / c = omega (arith, upper) in
    (rw kept (omega arith), rw kept (omega arith))

-- Blocks on schedule leave a difficulty of 64 bits, at least 1, as it is.
pub next_difficulty_on_time :
    (p b w : ℕ)
    → 1 ≤ p
    → IsU64 p
    → target_timespan b w * 4 < 2 ^ 64
    → next_difficulty p (target_timespan b w) b w ≡ p
unfolding next_difficulty clamped_timespan
next_difficulty_on_time p b w pos small fits =
    let t = target_timespan b w in
    let one : 1 ≤ t = target_timespan_pos b w in
    let same : max (min (max t (t / 4)) (t * 4 % 2 ^ 64)) 1 ≡ t = omega arith in
    rw (same, mul-div_cancel p one) (omega arith)

-- The later the window's last block, the lower the next difficulty, within 64 bits.
pub next_difficulty_antitone :
    (p a a' b w : ℕ)
    → a ≤ a'
    → 7 * p < 2 ^ 64
    → target_timespan b w * 4 < 2 ^ 64
    → next_difficulty p a' b w ≤ next_difficulty p a b w
unfolding next_difficulty
next_difficulty_antitone p a a' b w le room fits =
    let t = target_timespan b w in
    let pos = target_timespan_pos b w in
    let c = clamped_timespan a t in
    let c' = clamped_timespan a' t in
    let (lo, one, hi) = clamped_timespan_bounds a t pos fits in
    let (lo', one', hi') = clamped_timespan_bounds a' t pos fits in
    let upper : p * t / c ≤ 7 * p = scaled_le_seven p t c one lo in
    let order : c ≤ c' = clamped_timespan_mono a a' t le in
    let down : p * t / c' ≤ p * t / c = div_antitone (p * t) c c' one order in
    omega (arith, upper, down)

-- The cast to u64 after the scaling wraps: whenever the blocks came at least four times too fast,
-- the target timespan is a multiple of 4, and p is at least 2^62 and below 2^64 / 3, the next
-- difficulty is LOWER than p, where four times p was meant.
pub next_difficulty_wraps :
    (p a b w : ℕ)
    → 2 ^ 62 ≤ p
    → 3 * p < 2 ^ 64
    → a ≤ target_timespan b w / 4
    → target_timespan b w % 4 ≡ 0
    → target_timespan b w * 4 < 2 ^ 64
    → next_difficulty p a b w < p
unfolding next_difficulty clamped_timespan
next_difficulty_wraps p a b w big room fast even fits =
    let t = target_timespan b w in
    let one : 1 ≤ t = target_timespan_pos b w in
    let k = t / 4 in
    let quarter : max (min (max a (t / 4)) (t * 4 % 2 ^ 64)) 1 ≡ k = omega arith in
    let k_pos : 0 < k = omega arith in
    let exact : t ≡ 4 * k = omega arith in
    let whole : p * t ≡ 4 * p * k = omega (arith, ap (λ (x : ℕ). p * x) exact) in
    rw (quarter, whole, mul-div_cancel (4 * p) k_pos) (omega arith)
