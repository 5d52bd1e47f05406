-- ===== src/Block/Bytes.antt =====
-- The bytes that are signed and those that are mined, of transaction.rs and header.rs.
use native.Mathlib.Nat.{pow-suc}
use ondris.Prelude.{
  ◌⊎◌, ℕ, zero, suc, ◌/◌, ◌^◌, ◌<◌, ◌≡◌, refl, sym, ap, ◌∙◌, true, none, some, ◌++◌, length,
  append_inj, to_le_bytes, from_le_bytes, length-to_le_bytes, IsU64, arith, Bytes, bytes_eq,
  bytes_eq_sound, bytes_eq_of_eq, Bool-cases, inl, inr, ◌≢◌, false, subst,
}
use ondris.Primitives.{Ed25519, Ed25519Laws, verify}
use ondris.Block.{
  Transaction, BlockHeader, signing_bytes, bytes_for_pow, new_unsigned, sign, is_signature_valid,
}

-- The eight bytes of a u64 are read back.
from_le_bytes-to_le_bytes : (w n : ℕ) → n < 256 ^ w → from_le_bytes (to_le_bytes w n) ≡ n
from_le_bytes-to_le_bytes zero n h = omega arith
from_le_bytes-to_le_bytes (suc w) n h =
    let lower : n / 256 < 256 ^ w = omega (arith, pow-suc 256 w) in
    omega (arith, from_le_bytes-to_le_bytes w (n / 256) lower)

word_inj : (m n : ℕ) → IsU64 m → IsU64 n → to_le_bytes 8 m ≡ to_le_bytes 8 n → m ≡ n
word_inj m n hm hn e =
    sym (from_le_bytes-to_le_bytes 8 m hm) ∙ ap from_le_bytes e ∙ from_le_bytes-to_le_bytes 8 n hn

-- A u64 field at the front of a byte string.
word_front :
    (m n : ℕ) (s t : Bytes)
    → IsU64 m
    → IsU64 n
    → to_le_bytes 8 m ++ s ≡ to_le_bytes 8 n ++ t
    → (m ≡ n) × (s ≡ t)
word_front m n s t hm hn e =
    let (word, rest) =
      append_inj (to_le_bytes 8 m) (to_le_bytes 8 n) s t
        (omega (arith, length-to_le_bytes 8 m, length-to_le_bytes 8 n)) e in
    (word_inj m n hm hn word, rest)

-- The sizes that the types of the source give the fields.
pub record IsSized (t : Transaction) : Type 0 where
  pub sender : length t.sender ≡ 32
  pub recipient : length t.recipient ≡ 20
  pub amount : IsU64 t.amount
  pub fee : IsU64 t.fee
  pub account_nonce : IsU64 t.account_nonce

pub record IsSizedHeader (h : BlockHeader) : Type 0 where
  pub height : IsU64 h.height
  pub prev_hash : length h.prev_hash ≡ 32
  pub tx_root : length h.tx_root ≡ 32
  pub timestamp : IsU64 h.timestamp
  pub difficulty : IsU64 h.difficulty
  pub miner : length h.miner ≡ 20

-- Two transactions of the sizes of their types with the same signed bytes agree in every signed
-- field: a signature for one is a signature for no other transfer.
pub signing_bytes-injective :
    (t u : Transaction)
    → IsSized t
    → IsSized u
    → signing_bytes t ≡ signing_bytes u
    → (t.sender ≡ u.sender)
      × (t.recipient ≡ u.recipient)
      × (t.amount ≡ u.amount)
      × (t.fee ≡ u.fee)
      × (t.account_nonce ≡ u.account_nonce)
unfolding signing_bytes
signing_bytes-injective t u ht hu e =
    let (same_sender, e₁) = append_inj t.sender u.sender _ _ (ht.sender ∙ sym hu.sender) e in
    let (same_recipient, e₂) =
      append_inj t.recipient u.recipient _ _ (ht.recipient ∙ sym hu.recipient) e₁ in
    let (same_amount, e₃) = word_front t.amount u.amount _ _ ht.amount hu.amount e₂ in
    let (same_fee, e₄) = word_front t.fee u.fee _ _ ht.fee hu.fee e₃ in
    let same_nonce =
      word_inj t.account_nonce u.account_nonce ht.account_nonce hu.account_nonce e₄ in
    (same_sender, same_recipient, same_amount, same_fee, same_nonce)

-- Two headers of the sizes of their types with the same mined bytes agree in every field but the
-- nonce.
pub bytes_for_pow-injective :
    (g h : BlockHeader)
    → IsSizedHeader g
    → IsSizedHeader h
    → bytes_for_pow g ≡ bytes_for_pow h
    → g ≡ record h { nonce = g.nonce }
unfolding bytes_for_pow
bytes_for_pow-injective g h hg hh e =
    let (same_height, e₁) = word_front g.height h.height _ _ hg.height hh.height e in
    let (same_prev, e₂) =
      append_inj g.prev_hash h.prev_hash _ _ (hg.prev_hash ∙ sym hh.prev_hash) e₁ in
    let (same_root, e₃) = append_inj g.tx_root h.tx_root _ _ (hg.tx_root ∙ sym hh.tx_root) e₂ in
    let (same_time, e₄) = word_front g.timestamp h.timestamp _ _ hg.timestamp hh.timestamp e₃ in
    let (same_difficulty, same_miner) =
      word_front g.difficulty h.difficulty _ _ hg.difficulty hh.difficulty e₄ in
    λ i. record {
      height = same_height i;
      prev_hash = same_prev i;
      tx_root = same_root i;
      timestamp = same_time i;
      difficulty = same_difficulty i;
      miner = same_miner i;
      nonce = g.nonce;
    }

-- Signing a transfer with a seed either succeeds, which it does with the seed of the sender's key,
-- and gives the same transfer with a valid signature, or fails, which it does with every other
-- seed. The unsigned transfer is not valid.
pub sign-is_signature_valid :
    (e : Ed25519) (laws : Ed25519Laws e) (t : Transaction) (seed : Bytes)
    → (((e.verifying_key seed ≡ t.sender)
          × ((u : Transaction) × (sign e t seed ≡ some u)
              × (is_signature_valid e u ≡ true)
              × (signing_bytes u ≡ signing_bytes t)))
        ⊎ ((e.verifying_key seed ≢ t.sender) × (sign e t seed ≡ none)))
      × (is_signature_valid e (new_unsigned t.sender t.recipient t.amount t.fee t.account_nonce)
          ≡ false)
unfolding sign is_signature_valid verify new_unsigned signing_bytes
sign-is_signature_valid e laws t seed = (
  elim (Bool-cases (bytes_eq (e.verifying_key seed) t.sender)) [
    | inl whole ↦ inl (bytes_eq_sound _ _ whole, matching (bytes_eq_sound _ _ whole))
    | inr differ ↦ inr ((λ q. cc (bytes_eq_of_eq q, differ)), rw differ)
  ],
  refl,
)
  where
    matching :
        e.verifying_key seed ≡ t.sender
        → (u : Transaction) × (sign e t seed ≡ some u)
          × (is_signature_valid e u ≡ true)
          × (signing_bytes u ≡ signing_bytes t)
    matching same =
        let whole = bytes_eq_of_eq same in
        let key_ok = subst (λ k. e.valid_key k ≡ true) same (laws.valid_key-verifying_key seed) in
        let sig_ok = laws.valid_signature-sign seed (signing_bytes t) in
        let good =
          subst (λ k. e.verifies k (signing_bytes t) (e.sign seed (signing_bytes t)) ≡ true) same
            (laws.verifies-sign seed (signing_bytes t)) in
        (
          record t { signature = some (e.sign seed (signing_bytes t)) },
          rw whole,
          rw (key_ok, sig_ok) good,
          refl,
        )
