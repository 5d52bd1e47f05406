-- ===== src/Tests/World.antt =====
-- The core over the concrete crates, with a genesis, two blocks and a transfer.
use ondris.Prelude.{
  ℕ, zero, suc, ◌≤◌, ◌≡◌, refl, true, All, IsByte, length, arith, Option, none, some, List, [], ◌∷◌,
  replicate, Bytes,
}
use ondris.Primitives.{Blake3, Blake3Laws, Hash256}
use ondris.Block.{Block, BlockHeader, Transaction}
use ondris.Pow.{Dataset, bytes_le, meets_target, ondris_hash, ondris_hash_with_accesses}
use ondris.State.{Externals, ChainState, Account, Tip}
use ondris.State.Reads.{ExternalsLaws}
use ondris.Chain.{Chain, GenesisConfig}
use ondris.Tests.Codecs.{Codec, number, string, pair, mapped, optional, listed, json, json-JsonLaws}
use ondris.Tests.Trees.{Writes, sled, sled-SledLaws}
use ondris.Tests.Crates.{blake3, blake3-Blake3Laws, ed25519, ed25519-Ed25519Laws}

abbrev account_codec : Codec Account
account_codec =
    mapped (λ (a : Account). (a.balance, a.nonce))
      (λ (p : ℕ × ℕ). record { balance = p.0; nonce = p.1 }) (λ a. refl) (pair number number)

abbrev tip_codec : Codec Tip
tip_codec =
    mapped (λ (t : Tip). (t.height, t.hash))
      (λ (p : ℕ × Bytes). record { height = p.0; hash = p.1 }) (λ t. refl) (pair number string)

abbrev TransactionFields : Type 0
TransactionFields = (Bytes × Bytes) × ((ℕ × (ℕ × ℕ)) × Option Bytes)

abbrev transaction_of : TransactionFields → Transaction
transaction_of p = record {
  sender = p.0.0;
  recipient = p.0.1;
  amount = p.1.0.0;
  fee = p.1.0.1.0;
  account_nonce = p.1.0.1.1;
  signature = p.1.1;
}

abbrev pub transaction_codec : Codec Transaction
transaction_codec =
    mapped
      (λ (t : Transaction).
        ((t.sender, t.recipient), ((t.amount, (t.fee, t.account_nonce)), t.signature)))
      transaction_of (λ t. refl)
      (pair (pair string string) (pair (pair number (pair number number)) (optional string)))

abbrev HeaderFields : Type 0
HeaderFields = (ℕ × (Bytes × Bytes)) × ((ℕ × ℕ) × (Bytes × ℕ))

abbrev header_of : HeaderFields → BlockHeader
header_of p = record {
  height = p.0.0;
  prev_hash = p.0.1.0;
  tx_root = p.0.1.1;
  timestamp = p.1.0.0;
  difficulty = p.1.0.1;
  miner = p.1.1.0;
  nonce = p.1.1.1;
}

abbrev header_codec : Codec BlockHeader
header_codec =
    mapped
      (λ (h : BlockHeader).
        ((h.height, (h.prev_hash, h.tx_root)), ((h.timestamp, h.difficulty), (h.miner, h.nonce))))
      header_of (λ h. refl)
      (pair (pair number (pair string string)) (pair (pair number number) (pair string number)))

abbrev pub block_codec : Codec Block
block_codec =
    mapped (λ (b : Block). (b.header, b.transactions))
      (λ (p : BlockHeader × List Transaction). record { header = p.0; transactions = p.1 })
      (λ b. refl) (pair header_codec (listed transaction_codec))

abbrev pub crates : Externals Writes
crates = record {
  blake3 = blake3;
  ed25519 = ed25519;
  sled = sled;
  tx_json = json transaction_codec;
  block_json = json block_codec;
  account_json = json account_codec;
  tip_json = json tip_codec;
}

pub crates-ExternalsLaws : ExternalsLaws crates
crates-ExternalsLaws = record {
  blake3 = blake3-Blake3Laws;
  ed25519 = ed25519-Ed25519Laws;
  sled = sled-SledLaws;
  tx_json = json-JsonLaws transaction_codec;
  block_json = json-JsonLaws block_codec;
  account_json = json-JsonLaws account_codec;
  tip_json = json-JsonLaws tip_codec;
}

abbrev pub empty_state : ChainState Writes
empty_state = record {
  accounts = [];
  blocks = [];
  heights = [];
  chainwork = [];
  meta = [];
  mempool = [];
}

-- Difficulty 1, so that every hash is enough work.
abbrev pub genesis_config : GenesisConfig
genesis_config = record {
  network_name = b't' ∷ [];
  timestamp = 0;
  initial_difficulty = 1;
  initial_reward = 50;
  halving_interval = 210_000;
  target_block_time_secs = 30;
  retarget_window = 60;
  premine = [];
}

abbrev pub alice : Bytes
alice = replicate 32 1

abbrev pub bob : Bytes
bob = replicate 20 2

abbrev pub transfer : Transaction
transfer = record {
  sender = alice;
  recipient = bob;
  amount = 5;
  fee = 1;
  account_nonce = 0;
  signature = none;
}

abbrev pub first_header : Hash256 → BlockHeader
first_header prev_hash = record {
  height = 1;
  prev_hash = prev_hash;
  tx_root = replicate 32 0;
  timestamp = 30;
  difficulty = 1;
  miner = bob;
  nonce = 0;
}

abbrev pub empty_block : BlockHeader → Block
empty_block header = record { header = header; transactions = [] }

-- A dataset of one item, for epoch 0.
abbrev pub small_dataset : Dataset
small_dataset = record { epoch = 0; bytes = replicate 128 3 }

abbrev pub chain_of : ChainState Writes → Chain Writes
chain_of s = record { state = s; genesis = genesis_config; dataset_cache = some (0, small_dataset) }

-- The target that every hash meets.
abbrev pub top_target : Bytes
top_target = replicate 32 255

top-meets : (n : ℕ) (h : Bytes) → length h ≤ n → All IsByte h → bytes_le h (replicate n 255) ≡ true
unfolding bytes_le
top-meets n [] l b = refl
top-meets zero (c ∷ h) l b = absurd (omega arith)
top-meets (suc n) (c ∷ h) l b = ground (arith, top-meets n h, b.0)

pub top_target-met :
    (b : Blake3) (laws : Blake3Laws b) (header_bytes : Bytes) (nonce : ℕ) (d : Dataset)
    → meets_target (ondris_hash b header_bytes nonce d) top_target ≡ true
unfolding meets_target ondris_hash ondris_hash_with_accesses
top_target-met b laws header_bytes nonce d =
    top-meets 32 (b.hash _) (omega (arith, laws.length-hash _)) (laws.hash-IsByte _)
