-- ===== src/Primitives.antt =====
-- crates/ondris-primitives/src/lib.rs: hashes, keys, addresses and signatures, which are byte
-- arrays in the source and byte strings here. The crates blake3, ed25519-dalek and hex are the
-- parameters below; text is the string of its UTF-8 bytes.
pub mod Laws
use ondris.Prelude.{
  ℕ, zero, suc, ◌≡◌, refl, Bool, true, false, ◌&&◌, Option, none, some, List, [], ◌∷◌, ◌++◌, Bytes,
  length, take, replicate, All, IsByte, ◌==◌, if◌then◌else◌, Result, ok, err, Error, bad_hex,
  bad_length, ok_or, ◌>>=◌, ◌>>◌, ensure, ◌⊎◌, ◌≤◌,
}

-- blake3: `hash(data)`, and `Hasher::new()`, `update`, `finalize_xof`, `fill` of n bytes.
pub record Blake3 : Type 0 where
  pub hash : Bytes → Bytes
  pub xof : Bytes → ℕ → Bytes

-- Its documented output sizes.
pub record Blake3Laws (b : Blake3) : Type 0 where
  pub length-hash : (m : Bytes) → length (b.hash m) ≡ 32
  pub hash-IsByte : (m : Bytes) → All IsByte (b.hash m)
  pub length-xof : (m : Bytes) (n : ℕ) → length (b.xof m n) ≡ n
  pub xof-IsByte : (m : Bytes) (n : ℕ) → All IsByte (b.xof m n)

-- ed25519-dalek: the checks of `VerifyingKey::from_bytes` and `Signature::from_slice`, `verify`,
-- the public key of a seed, and `sign`.
pub record Ed25519 : Type 0 where
  pub valid_key : Bytes → Bool
  pub valid_signature : Bytes → Bool
  pub verifies : Bytes → Bytes → Bytes → Bool
  pub verifying_key : Bytes → Bytes
  pub sign : Bytes → Bytes → Bytes

-- A signature made with a seed verifies under the seed's public key.
pub record Ed25519Laws (e : Ed25519) : Type 0 where
  pub valid_key-verifying_key : (seed : Bytes) → e.valid_key (e.verifying_key seed) ≡ true
  pub valid_signature-sign : (seed m : Bytes) → e.valid_signature (e.sign seed m) ≡ true
  pub verifies-sign : (seed m : Bytes) → e.verifies (e.verifying_key seed) m (e.sign seed m) ≡ true

-- hex: `encode` and `decode`.
pub record Hex : Type 0 where
  pub encode : Bytes → Bytes
  pub decode : Bytes → Option Bytes

abbrev pub IsHexDigit : ℕ → Type 0
IsHexDigit c = ((b'0' ≤ c) × (c ≤ b'9')) ⊎ ((b'a' ≤ c) × (c ≤ b'f'))

-- `encode` writes digits 0-9 and a-f, which `decode` reads back.
pub record HexLaws (h : Hex) : Type 0 where
  pub decode-encode : (bs : Bytes) → All IsByte bs → h.decode (h.encode bs) ≡ some bs
  pub encode-IsHexDigit : (bs : Bytes) → All IsHexDigit (h.encode bs)

abbrev pub Hash256 : Type 0
Hash256 = Bytes

abbrev pub PublicKey : Type 0
PublicKey = Bytes

abbrev pub Signature : Type 0
Signature = Bytes

abbrev pub Address : Type 0
Address = Bytes

-- `ADDRESS_PREFIX`, "ondr"
abbrev pub address_prefix : Bytes
address_prefix = b'o' ∷ b'n' ∷ b'd' ∷ b'r' ∷ []

-- `Hash256::ZERO`
abbrev pub zero_hash : Hash256
zero_hash = replicate 32 0

-- `str::strip_prefix`
pub strip_prefix : Bytes → Bytes → Option Bytes
strip_prefix [] s = some s
strip_prefix (p ∷ ps) [] = none
strip_prefix (p ∷ ps) (c ∷ s) = if p == c then strip_prefix ps s else none

abbrev or_self : Option Bytes → Bytes → Bytes
or_self none s = s
or_self (some t) s = t

module _ (h : Hex) where
  -- `Hash256::from_hex`: a wrong length leaves the array at zero.
  pub hash_from_hex : Bytes → Result Hash256
  hash_from_hex s = do
    bytes ← ok_or (h.decode s) bad_hex
    ok (if length bytes == 32 then bytes else zero_hash)

  -- `PublicKey::from_hex`
  pub key_from_hex : Bytes → Result PublicKey
  key_from_hex s = do
    bytes ← ok_or (h.decode s) bad_hex
    ensure (length bytes == 32) bad_length
    ok bytes

  -- `Address::from_hex`
  pub address_from_hex : Bytes → Result Address
  address_from_hex s = do
    bytes ← ok_or (h.decode s) bad_hex
    ensure (length bytes == 20) bad_length
    ok bytes

  -- the deserialization of `Signature`
  pub signature_from_hex : Bytes → Result Signature
  signature_from_hex s = do
    bytes ← ok_or (h.decode s) bad_hex
    ensure (length bytes == 64) bad_length
    ok bytes

  -- `to_hex` of every type, the `Display` of `Hash256` and what is serialized
  pub to_hex : Bytes → Bytes
  to_hex bs = h.encode bs

  -- `Display for Address`
  pub address_to_string : Address → Bytes
  unfolding to_hex
  address_to_string a = address_prefix ++ to_hex a

  -- `FromStr for Address`
  pub address_from_str : Bytes → Result Address
  address_from_str s = address_from_hex (or_self (strip_prefix address_prefix s) s)

-- `PublicKey::to_address`
unfoldable pub to_address : Blake3 → PublicKey → Address
to_address b key = take 20 (b.hash key)

-- `PublicKey::verify`
unfoldable pub verify : Ed25519 → PublicKey → Bytes → Signature → Bool
verify e key message signature =
    e.valid_key key && e.valid_signature signature && e.verifies key message signature
