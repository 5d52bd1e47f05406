-- ===== src/Pow/Threshold.antt =====
-- `meets_target` of ondris-pow as a comparison of numbers, with difficulty.rs.
use ondris.Prelude.{
  ℕ, ◌+◌, ◌-◌, ◌*◌, ◌/◌, ◌^◌, ◌≤◌, ◌<◌, max, ◌≡◌, ◌↔◌, true, [], ◌∷◌, Bytes, length, All, IsByte,
  IsU64, be_value_from, from_be_bytes, leb, arith,
}
use ondris.Primitives.{Hash256}
use ondris.Difficulty.{target_for_difficulty}
use native.Mathlib.Nat.{le_trans}
use ondris.Difficulty.Retarget.{div_antitone}
use ondris.Difficulty.Target.{target_for_difficulty_value}
use ondris.Pow.{bytes_le, meets_target}

-- A lower prefix stays lower, whatever bytes follow on both sides.
be_value_from-lt :
    (x y : ℕ) (bs cs : Bytes)
    → x < y
    → length bs ≡ length cs
    → All IsByte bs
    → be_value_from x bs < be_value_from y cs
be_value_from-lt x y [] [] h l b = h
be_value_from-lt x y [] (c ∷ cs) h l b = absurd (omega arith)
be_value_from-lt x y (d ∷ bs) [] h l b = absurd (omega arith)
be_value_from-lt x y (d ∷ bs) (c ∷ cs) h l b =
    be_value_from-lt (x * 256 + d) (y * 256 + c) bs cs (omega arith) (omega arith) b.1

bytes_le-value :
    (acc : ℕ) (bs cs : Bytes)
    → length bs ≡ length cs
    → All IsByte bs
    → All IsByte cs
    → bytes_le bs cs ≡ leb (be_value_from acc bs) (be_value_from acc cs)
unfolding bytes_le
bytes_le-value acc [] [] l hb hc = ground arith
bytes_le-value acc [] (c ∷ cs) l hb hc = absurd (omega arith)
bytes_le-value acc (b ∷ bs) [] l hb hc = absurd (omega arith)
bytes_le-value acc (b ∷ bs) (c ∷ cs) l hb hc = ground (
  arith,
  bytes_le-value (acc * 256 + b) bs cs,
  be_value_from-lt (acc * 256 + b) (acc * 256 + c) bs cs,
  be_value_from-lt (acc * 256 + c) (acc * 256 + b) cs bs,
)

-- A 32-byte hash meets the target of a u64 difficulty d exactly when its big-endian number is at
-- most (2^256 - 1) / max(d, 1).
pub meets_target-target_for_difficulty :
    (h : Hash256) (d : ℕ)
    → length h ≡ 32
    → All IsByte h
    → IsU64 d
    → (meets_target h (target_for_difficulty d) ≡ true)
      ↔ (from_be_bytes h ≤ (2 ^ 256 - 1) / max d 1)
unfolding meets_target
meets_target-target_for_difficulty h d len bytes small =
    let (value, size, target_bytes) = target_for_difficulty_value d small in
    let order = bytes_le-value 0 h (target_for_difficulty d) (omega arith) bytes target_bytes in
    (λ met. ground (arith, value, order), λ le. ground (arith, value, order))

-- A hash that meets the target of a difficulty meets the target of every lower one.
pub meets_target_easier :
    (h : Hash256) (d e : ℕ)
    → length h ≡ 32
    → All IsByte h
    → IsU64 d
    → e ≤ d
    → meets_target h (target_for_difficulty d) ≡ true
    → meets_target h (target_for_difficulty e) ≡ true
meets_target_easier h d e len bytes small le met =
    let bound = (meets_target-target_for_difficulty h d len bytes small).0 met in
    (meets_target-target_for_difficulty h e len bytes (omega arith)).1
      (le_trans bound (div_antitone (2 ^ 256 - 1) (max e 1) (max d 1) (omega arith) (omega arith)))
