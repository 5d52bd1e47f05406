-- ===== src/Tests/Crates.antt =====
-- Concrete stand-ins for the hash, signature and hex crates in the test data.
use ondris.Prelude.{
  ℕ, zero, suc, ◌+◌, ◌-◌, ◌*◌, ◌/◌, ◌%◌, ◌<◌, ◌≡◌, refl, true, Option, none, some, [], ◌∷◌, ◌++◌,
  Bytes, bytes_eq, bytes_eq_refl, replicate, length-replicate, All, IsByte, leb, if◌then◌else◌,
  arith,
}
use ondris.Primitives.{Blake3, Blake3Laws, Ed25519, Ed25519Laws, Hex, HexLaws, IsHexDigit}

abbrev checksum : Bytes → ℕ
checksum [] = 7
checksum (b ∷ bs) = (b + checksum bs * 3) % 256

-- A checksum at the end of a row of zeros.
abbrev pub blake3 : Blake3
blake3 = record {
  hash = λ m. replicate 31 0 ++ checksum m ∷ [];
  xof = λ m n. replicate n (checksum m);
}

checksum-IsByte : (m : Bytes) → IsByte (checksum m)
checksum-IsByte [] = omega arith
checksum-IsByte (b ∷ bs) = omega arith

All-replicate : (n v : ℕ) → IsByte v → All IsByte (replicate n v)
All-replicate zero v h = tt
All-replicate (suc n) v h = (h, All-replicate n v h)

pub blake3-Blake3Laws : Blake3Laws blake3
blake3-Blake3Laws = record {
  length-hash = λ m. refl;
  hash-IsByte = λ m. omega (arith, checksum-IsByte m);
  length-xof = λ m n. length-replicate n (checksum m);
  xof-IsByte = λ m n. All-replicate n (checksum m) (checksum-IsByte m);
}

-- The public key is the seed, and a signature is the key and the message.
abbrev pub ed25519 : Ed25519
ed25519 = record {
  valid_key = λ k. true;
  valid_signature = λ s. true;
  verifies = λ k m s. bytes_eq s (k ++ m);
  verifying_key = λ seed. seed;
  sign = λ seed m. seed ++ m;
}

pub ed25519-Ed25519Laws : Ed25519Laws ed25519
ed25519-Ed25519Laws = record {
  valid_key-verifying_key = λ seed. refl;
  valid_signature-sign = λ seed m. refl;
  verifies-sign = λ seed m. bytes_eq_refl (seed ++ m);
}

abbrev digit : ℕ → ℕ
digit n = if leb 10 n then 87 + n else 48 + n

abbrev digit_value : ℕ → ℕ
digit_value c = if leb 97 c then c - 87 else c - 48

abbrev hex_encode : Bytes → Bytes
hex_encode [] = []
hex_encode (b ∷ bs) = digit (b / 16 % 16) ∷ digit (b % 16) ∷ hex_encode bs

abbrev hex_decode : Bytes → Option Bytes
hex_decode [] = some []
hex_decode (c ∷ []) = none
hex_decode (c ∷ d ∷ rest) = elim (hex_decode rest) [
  | none ↦ none
  | some bs ↦ some ((digit_value c * 16 + digit_value d) ∷ bs)
]

abbrev pub hex : Hex
hex = record { encode = hex_encode; decode = hex_decode }

digit_value-digit : (n : ℕ) → n < 16 → digit_value (digit n) ≡ n
digit_value-digit n h = ground arith

digit-IsHexDigit : (n : ℕ) → n < 16 → IsHexDigit (digit n)
digit-IsHexDigit n h = ground arith

decode-encode : (bs : Bytes) → All IsByte bs → hex_decode (hex_encode bs) ≡ some bs
decode-encode [] h = refl
decode-encode (b ∷ bs) h =
    let hi = digit_value-digit (b / 16 % 16) (omega arith) in
    let lo = digit_value-digit (b % 16) (omega arith) in
    let whole : b / 16 % 16 * 16 + b % 16 ≡ b = omega (arith, h.0) in
    rw (decode-encode bs h.1, hi, lo, whole)

encode-IsHexDigit : (bs : Bytes) → All IsHexDigit (hex_encode bs)
encode-IsHexDigit [] = tt
encode-IsHexDigit (b ∷ bs) = (
  digit-IsHexDigit (b / 16 % 16) (omega arith),
  (digit-IsHexDigit (b % 16) (omega arith), encode-IsHexDigit bs),
)

pub hex-HexLaws : HexLaws hex
hex-HexLaws = record { decode-encode = decode-encode; encode-IsHexDigit = encode-IsHexDigit }
