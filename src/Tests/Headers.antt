-- ===== src/Tests/Headers.antt =====
-- The theorems on hashes, numbers and bytes at concrete inputs.
use ondris.Prelude.{ℕ, ◌*◌, ◌/◌, ◌^◌, ◌≤◌, ◌<◌, ◌≡◌, refl, some, replicate, arith}
use ondris.Primitives.{Hash256}
use ondris.Difficulty.{target_timespan, next_difficulty}
use ondris.Difficulty.Retarget.{next_difficulty_bounds, next_difficulty_wraps}
use ondris.Block.{Transaction, signing_bytes}
use ondris.Block.Bytes.{IsSized, signing_bytes-injective}
use ondris.Tests.World.{transfer}

abbrev leaf : ℕ → Hash256
leaf n = replicate 32 n

-- "0102" decodes to two bytes.
-- The testnet's 30 seconds and 60 blocks.
on_time : target_timespan 30 60 ≡ 1800
unfolding target_timespan
on_time = omega arith

next_difficulty_bounds_example :
    (1000 / 4 ≤ next_difficulty 1000 450 30 60)
    × (1 ≤ next_difficulty 1000 450 30 60)
    × (next_difficulty 1000 450 30 60 ≤ 7 * 1000)
next_difficulty_bounds_example =
    next_difficulty_bounds 1000 450 30 60 (omega arith) (omega arith) (omega (arith, on_time))

next_difficulty_wraps_example : next_difficulty (2 ^ 62) 450 30 60 < 2 ^ 62
next_difficulty_wraps_example =
    next_difficulty_wraps (2 ^ 62) 450 30 60 (omega arith) (omega arith) (omega (arith, on_time))
      (omega (arith, on_time)) (omega (arith, on_time))

transfer-IsSized : IsSized transfer
transfer-IsSized = record {
  sender = refl;
  recipient = refl;
  amount = omega arith;
  fee = omega arith;
  account_nonce = omega arith;
}

-- The signature is not signed.
abbrev signed_transfer : Transaction
signed_transfer = record transfer { signature = some (leaf 9) }

signed_transfer-IsSized : IsSized signed_transfer
signed_transfer-IsSized = record {
  sender = refl;
  recipient = refl;
  amount = omega arith;
  fee = omega arith;
  account_nonce = omega arith;
}

same_signing_bytes : signing_bytes transfer ≡ signing_bytes signed_transfer
unfolding signing_bytes
same_signing_bytes = refl

signing_bytes-injective_example :
    (transfer.sender ≡ signed_transfer.sender)
    × (transfer.recipient ≡ signed_transfer.recipient)
    × (transfer.amount ≡ signed_transfer.amount)
    × (transfer.fee ≡ signed_transfer.fee)
    × (transfer.account_nonce ≡ signed_transfer.account_nonce)
signing_bytes-injective_example =
    signing_bytes-injective transfer signed_transfer transfer-IsSized signed_transfer-IsSized
      same_signing_bytes
