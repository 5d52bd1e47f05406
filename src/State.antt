-- ===== src/State.antt =====
-- crates/ondris-core/src/state.rs: the chain state, six trees of a sled database. A tree maps byte
-- strings to byte strings; values are serialized by serde_json or as big-endian numbers. Failures
-- of the disk are not modelled; a value that does not deserialize is an error, as in the source.
pub mod Reads
pub mod Frames
use ondris.Prelude.{
  ℕ, Option, none, some, List, [], ◌∷◌, Bool, true, false, ◌≡◌, ◌+◌, ◌-◌, min, ◌^◌, to_be_bytes,
  from_be_bytes, Result, ok, err, Error, bad_json, bad_length, ok_or, ◌>>=◌, ◌>>◌, ensure, bytes_eq,
  if◌then◌else◌, Bytes, length, ◌==◌, ◌≢◌,
}
use ondris.Primitives.{Hash256, Address, Blake3, Ed25519}
use ondris.Block.{Block, Transaction, Json, tx_hash}

-- `sled::Tree`: `get`, `insert`, `remove`, and the values in the order of the keys.
pub record Sled (Tree : Type 0) : Type 0 where
  pub get : Tree → Bytes → Option Bytes
  pub insert : Tree → Bytes → Bytes → Tree
  pub remove : Tree → Bytes → Tree
  pub values : Tree → List Bytes

-- A tree is a map.
pub record SledLaws {Tree : Type 0} (s : Sled Tree) : Type 0 where
  pub get-insert_self : (t : Tree) (k v : Bytes) → s.get (s.insert t k v) k ≡ some v
  pub get-insert_ne : (t : Tree) (k v j : Bytes) → k ≢ j → s.get (s.insert t k v) j ≡ s.get t j
  pub get-remove_self : (t : Tree) (k : Bytes) → s.get (s.remove t k) k ≡ none
  pub get-remove_ne : (t : Tree) (k j : Bytes) → k ≢ j → s.get (s.remove t k) j ≡ s.get t j

pub record Account : Type 0 where
  pub balance : ℕ
  pub nonce : ℕ

-- `Account::default()`
abbrev pub default_account : Account
default_account = record { balance = 0; nonce = 0 }

pub record Tip : Type 0 where
  pub height : ℕ
  pub hash : Hash256

-- The crates that the core uses, at the types that it serializes.
pub record Externals (Tree : Type 0) : Type 0 where
  pub blake3 : Blake3
  pub ed25519 : Ed25519
  pub sled : Sled Tree
  pub tx_json : Json Transaction
  pub block_json : Json Block
  pub account_json : Json Account
  pub tip_json : Json Tip

pub record ChainState (Tree : Type 0) : Type 0 where
  pub accounts : Tree
  pub blocks : Tree
  pub heights : Tree
  pub chainwork : Tree
  pub meta : Tree
  pub mempool : Tree

-- `TIP_KEY`, "tip"
abbrev pub tip_key : Bytes
tip_key = b't' ∷ b'i' ∷ b'p' ∷ []

abbrev pub max_u64 : ℕ
max_u64 = 2 ^ 64 - 1

abbrev pub saturating_add : ℕ → ℕ → ℕ
saturating_add a b = min (a + b) max_u64

-- Reads what a key holds: `none` on no entry, an error on bytes that do not decode.
abbrev pub decode_entry {ℓ} : {A : Type ℓ} → (Bytes → Option A) → Option Bytes → Result (Option A)
decode_entry decode none = ok none
decode_entry decode (some bytes) = do a ← ok_or (decode bytes) bad_json; ok (some a)

-- `copy_from_slice` into an array of n bytes and the number it holds; another length panics.
abbrev pub sized : ℕ → Bytes → Option Bytes
sized n bytes = if length bytes == n then some bytes else none

module _ {Tree : Type 0} (x : Externals Tree) where
  pub mempool_insert : ChainState Tree → Transaction → ChainState Tree
  mempool_insert s tx = record s {
    mempool = x.sled.insert s.mempool (tx_hash x.blake3 x.tx_json tx) (x.tx_json.to_vec tx);
  }

  pub mempool_remove : ChainState Tree → Hash256 → ChainState Tree
  mempool_remove s hash = record s { mempool = x.sled.remove s.mempool hash }

  pub decode_all : List Bytes → Result (List Transaction)
  decode_all [] = ok []
  decode_all (v ∷ vs) = do
    tx ← ok_or (x.tx_json.from_slice v) bad_json
    rest ← decode_all vs
    ok (tx ∷ rest)

  pub mempool_all : ChainState Tree → Result (List Transaction)
  mempool_all s = decode_all (x.sled.values s.mempool)

  unfoldable pub get_account : ChainState Tree → Address → Result Account
  get_account s addr = do
    entry ← decode_entry x.account_json.from_slice (x.sled.get s.accounts addr)
    ok (elim entry [ none ↦ default_account | some a ↦ a ])

  pub set_account : ChainState Tree → Address → Account → ChainState Tree
  set_account s addr account = record s {
    accounts = x.sled.insert s.accounts addr (x.account_json.to_vec account);
  }

  unfoldable pub credit : ChainState Tree → Address → ℕ → Result (ChainState Tree)
  credit s addr amount = do
    acc ← get_account s addr
    ok (set_account s addr (record acc { balance = saturating_add acc.balance amount }))

  pub debit : ChainState Tree → Address → ℕ → Result (ChainState Tree)
  debit s addr amount = do
    acc ← get_account s addr
    ok (set_account s addr (record acc { balance = acc.balance - amount }))

  unfoldable pub tip : ChainState Tree → Result (Option (ℕ × Hash256))
  tip s = do
    entry ← decode_entry x.tip_json.from_slice (x.sled.get s.meta tip_key)
    ok (elim entry [ none ↦ none | some t ↦ some (t.height, t.hash) ])

  pub set_tip : ChainState Tree → ℕ → Hash256 → ChainState Tree
  set_tip s height hash = record s {
    meta =
        x.sled.insert s.meta tip_key (x.tip_json.to_vec (record { height = height; hash = hash }));
  }

  unfoldable pub store_block : ChainState Tree → Hash256 → Block → ChainState Tree
  store_block s hash block = record s {
    blocks = x.sled.insert s.blocks hash (x.block_json.to_vec block);
  }

  pub has_block : ChainState Tree → Hash256 → Bool
  has_block s hash = elim (x.sled.get s.blocks hash) [ none ↦ false | some _ ↦ true ]

  unfoldable pub get_block : ChainState Tree → Hash256 → Result (Option Block)
  get_block s hash = decode_entry x.block_json.from_slice (x.sled.get s.blocks hash)

  pub get_chainwork : ChainState Tree → Hash256 → Result (Option ℕ)
  get_chainwork s hash = do
    entry ← decode_entry (sized 16) (x.sled.get s.chainwork hash)
    ok (elim entry [ none ↦ none | some bytes ↦ some (from_be_bytes bytes) ])

  pub set_chainwork : ChainState Tree → Hash256 → ℕ → ChainState Tree
  set_chainwork s hash work = record s {
    chainwork = x.sled.insert s.chainwork hash (to_be_bytes 16 work);
  }

  pub set_canonical_height : ChainState Tree → ℕ → Hash256 → ChainState Tree
  set_canonical_height s height hash = record s {
    heights = x.sled.insert s.heights (to_be_bytes 8 height) hash;
  }

  pub remove_canonical_height : ChainState Tree → ℕ → ChainState Tree
  remove_canonical_height s height = record s {
    heights = x.sled.remove s.heights (to_be_bytes 8 height);
  }

  unfoldable pub get_hash_by_height : ChainState Tree → ℕ → Result (Option Hash256)
  get_hash_by_height s height =
      decode_entry (sized 32) (x.sled.get s.heights (to_be_bytes 8 height))

  unfoldable pub get_block_by_height : ChainState Tree → ℕ → Result (Option Block)
  get_block_by_height s height = do
    entry ← get_hash_by_height s height
    elim entry [ none ↦ ok none | some hash ↦ get_block s hash ]
