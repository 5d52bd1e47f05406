-- ===== src/Block.antt =====
-- The data of crates/ondris-core/src: header.rs, transaction.rs and block.rs, with the bytes that
-- are signed and hashed. `Json` stands for serde_json at one type.
pub mod Bytes
pub mod Merkle
pub mod Binding
use ondris.Prelude.{
  ℕ, Bool, true, false, Option, none, some, List, [], ◌∷◌, ◌++◌, to_le_bytes, bytes_eq,
  if◌then◌else◌, ◌≡◌,
}
use ondris.Primitives.{Blake3, Ed25519, Hash256, PublicKey, Signature, Address, verify}

-- `serde_json::to_vec` and `from_slice`
pub record Json (A : Type 0) : Type 0 where
  pub to_vec : A → List ℕ
  pub from_slice : List ℕ → Option A

-- What was serialized is read back.
pub record JsonLaws {A : Type 0} (j : Json A) : Type 0 where
  pub from_slice-to_vec : (a : A) → j.from_slice (j.to_vec a) ≡ some a

pub record Transaction : Type 0 where
  pub sender : PublicKey
  pub recipient : Address
  pub amount : ℕ
  pub fee : ℕ
  pub account_nonce : ℕ
  pub signature : Option Signature

pub record BlockHeader : Type 0 where
  pub height : ℕ
  pub prev_hash : Hash256
  pub tx_root : Hash256
  pub timestamp : ℕ
  pub difficulty : ℕ
  pub miner : Address
  pub nonce : ℕ

pub record Block : Type 0 where
  pub header : BlockHeader
  pub transactions : List Transaction

-- The block with another nonce in its header.
abbrev pub with_nonce : Block → ℕ → Block
with_nonce b nonce = record b { header = record b.header { nonce = nonce } }

-- `Transaction::new_unsigned`
unfoldable pub new_unsigned : PublicKey → Address → ℕ → ℕ → ℕ → Transaction
new_unsigned sender recipient amount fee account_nonce = record {
  sender = sender;
  recipient = recipient;
  amount = amount;
  fee = fee;
  account_nonce = account_nonce;
  signature = none;
}

-- `Transaction::signing_bytes`
unfoldable pub signing_bytes : Transaction → List ℕ
signing_bytes t =
    t.sender
    ++ (t.recipient
        ++ (to_le_bytes 8 t.amount ++ (to_le_bytes 8 t.fee ++ to_le_bytes 8 t.account_nonce)))

-- `BlockHeader::bytes_for_pow`
unfoldable pub bytes_for_pow : BlockHeader → List ℕ
bytes_for_pow h =
    to_le_bytes 8 h.height
    ++ (h.prev_hash
        ++ (h.tx_root ++ (to_le_bytes 8 h.timestamp ++ (to_le_bytes 8 h.difficulty ++ h.miner))))

module _ (e : Ed25519) where
  -- `Transaction::sign` with the key pair of a seed; `none` is the failed assertion.
  unfoldable pub sign : Transaction → List ℕ → Option Transaction
  sign t seed =
      if bytes_eq (e.verifying_key seed) t.sender
      then some (record t { signature = some (e.sign seed (signing_bytes t)) })
      else none

  -- `Transaction::is_signature_valid`
  unfoldable pub is_signature_valid : Transaction → Bool
  is_signature_valid t = elim t.signature [
    | some sig ↦ verify e t.sender (signing_bytes t) sig
    | none ↦ false
  ]

-- `Transaction::hash`
unfoldable pub tx_hash : Blake3 → Json Transaction → Transaction → Hash256
tx_hash b j t = b.hash (j.to_vec t)
