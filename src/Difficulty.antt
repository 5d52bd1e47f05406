-- ===== src/Difficulty.antt =====
-- crates/ondris-core/src/difficulty.rs: targets and retargeting, on the bytes and words of the
-- source. Release builds are modelled: u64 and u128 arithmetic wraps where it is not saturating.
pub mod Target
pub mod Retarget
use ondris.Prelude.{ℕ, ◌+◌, ◌-◌, ◌*◌, ◌/◌, ◌%◌, ◌^◌, min, max, Bytes, [], ◌∷◌, replicate}

unfoldable pub max_target : Bytes
max_target = replicate 32 0xff

-- The loop over the 32 bytes; `(remainder << 8) | num[i]` is a sum, since the low byte of the
-- shifted remainder is 0.
unfoldable pub divide_loop : ℕ → ℕ → Bytes → Bytes
divide_loop divisor remainder [] = []
divide_loop divisor remainder (b ∷ num) =
    let cur = remainder * 256 % 2 ^ 128 + b in
    (cur / divisor % 256) ∷ divide_loop divisor (cur % divisor) num

unfoldable pub divide_be_by_u64 : Bytes → ℕ → Bytes
unfolding divide_loop
divide_be_by_u64 num divisor = divide_loop divisor 0 num

unfoldable pub target_for_difficulty : ℕ → Bytes
unfolding divide_be_by_u64 max_target
target_for_difficulty difficulty = divide_be_by_u64 max_target (max difficulty 1)

-- `target_block_time_secs.saturating_mul(window).max(1)`
unfoldable pub target_timespan : ℕ → ℕ → ℕ
target_timespan target_block_time_secs window =
    max (min (target_block_time_secs * window) (2 ^ 64 - 1)) 1

-- The clamp of the observed timespan; `target_timespan * 4` wraps.
pub clamped_timespan : ℕ → ℕ → ℕ
clamped_timespan actual target = max (min (max actual (target / 4)) (target * 4 % 2 ^ 64)) 1

unfoldable pub next_difficulty : ℕ → ℕ → ℕ → ℕ → ℕ
unfolding target_timespan clamped_timespan
next_difficulty prev_difficulty actual_timespan_secs target_block_time_secs window =
    let target = target_timespan target_block_time_secs window in
    let actual = clamped_timespan actual_timespan_secs target in
    max (prev_difficulty * target / actual % 2 ^ 64) 1
