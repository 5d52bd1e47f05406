-- ===== src/Difficulty/Target.antt =====
-- The target of difficulty.rs as a number: the byte-wise long division.
use native.Mathlib.Nat.{div-add-mod, div-eq_of_lt-le}
use ondris.Prelude.{
  ℕ, suc, ◌+◌, ◌-◌, ◌*◌, ◌/◌, ◌%◌, ◌^◌, ◌<◌, max, ◌≡◌, refl, Bytes, [], ◌∷◌, arith, length, All,
  IsByte, IsU64, be_value_from, from_be_bytes, sym, ap,
}
use ondris.Difficulty.{divide_loop, divide_be_by_u64, target_for_difficulty, max_target}

length-divide_loop : (d r : ℕ) (num : Bytes) → length (divide_loop d r num) ≡ length num
unfolding divide_loop
length-divide_loop d r [] = refl
length-divide_loop d r (b ∷ num) = ap suc (length-divide_loop d ((r * 256 % 2 ^ 128 + b) % d) num)

divide_loop-IsByte : (d r : ℕ) (num : Bytes) → All IsByte (divide_loop d r num)
unfolding divide_loop
divide_loop-IsByte d r [] = tt
divide_loop-IsByte d r (b ∷ num) =
    (omega arith, divide_loop-IsByte d ((r * 256 % 2 ^ 128 + b) % d) num)

-- One digit of the long division: the quotient digit fits a byte, so no cast loses anything.
digit_exact :
    (d q r b : ℕ)
    → 0 < d
    → d < 2 ^ 64
    → r < d
    → b < 256
    → let cur = r * 256 % 2 ^ 128 + b in
      (cur % d < d) × ((q * 256 + cur / d % 256) * d + cur % d ≡ (q * d + r) * 256 + b)
digit_exact d q r b pos small hr hb =
    let cur = r * 256 % 2 ^ 128 + b in
    let fits : cur < 256 * d = omega arith in
    let digit : cur / d < 256 = grind arith in
    let kept : cur / d % 256 ≡ cur / d = omega (arith, digit) in
    (grind arith, rw kept (omega (arith, ap (λ (t : ℕ). t + 256 * q * d) (div-add-mod cur d))))

divide_loop-value :
    (d q r : ℕ) (num : Bytes)
    → 0 < d
    → d < 2 ^ 64
    → r < d
    → All IsByte num
    → (r' : ℕ) × (r' < d)
      × (be_value_from (q * d + r) num ≡ be_value_from q (divide_loop d r num) * d + r')
unfolding divide_loop
divide_loop-value d q r [] pos small hr hb = (r, hr, refl)
divide_loop-value d q r (b ∷ num) pos small hr hb =
    let cur = r * 256 % 2 ^ 128 + b in
    let (lt, e) = digit_exact d q r b pos small hr hb.0 in
    rw (← e) (divide_loop-value d (q * 256 + cur / d % 256) (cur % d) num pos small lt hb.1)

-- The long division of the source is division: the number of the quotient's bytes, big-endian, is
-- the number of the given bytes divided by a non-zero u64 divisor, and the quotient has as many
-- bytes as the dividend, each below 256.
pub divide_be_by_u64_value :
    (num : Bytes) (d : ℕ)
    → 0 < d
    → IsU64 d
    → All IsByte num
    → (from_be_bytes (divide_be_by_u64 num d) ≡ from_be_bytes num / d)
      × (length (divide_be_by_u64 num d) ≡ length num)
      × All IsByte (divide_be_by_u64 num d)
unfolding divide_be_by_u64
divide_be_by_u64_value num d pos small hb =
    let (r', lt, e) = divide_loop-value d 0 0 num pos small pos hb in
    let q = be_value_from 0 (divide_loop d 0 num) in
    let start : 0 * d + 0 ≡ 0 = omega arith in
    let whole : from_be_bytes num ≡ q * d + r' = rw start at e in
    (
      sym (div-eq_of_lt-le {k = q} d (omega arith) (omega arith)),
      length-divide_loop d 0 num,
      divide_loop-IsByte d 0 num,
    )

max_target-IsByte : All IsByte max_target
unfolding max_target
max_target-IsByte = omega arith

max_target-value : from_be_bytes max_target ≡ 2 ^ 256 - 1
unfolding max_target
max_target-value = refl

-- The target of difficulty d is (2^256 - 1) / max(d, 1), as 32 bytes.
pub target_for_difficulty_value :
    (d : ℕ)
    → IsU64 d
    → (from_be_bytes (target_for_difficulty d) ≡ (2 ^ 256 - 1) / max d 1)
      × (length (target_for_difficulty d) ≡ 32)
      × All IsByte (target_for_difficulty d)
unfolding target_for_difficulty
target_for_difficulty_value d small =
    let (v, l, b) =
      divide_be_by_u64_value max_target (max d 1) (omega arith) (omega arith) max_target-IsByte in
    (rw (← max_target-value) v, l, b)
