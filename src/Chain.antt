-- ===== src/Chain.antt =====
-- crates/ondris-core/src/chain.rs and genesis.rs: the chain's data, its genesis, its reward and the
-- difficulty that a block must have. Release builds are modelled: `+` and `-` of u64 wrap.
pub mod Action
pub mod Ledger
pub mod Fork
pub mod Reorg
pub mod Submit
pub mod Genesis
pub mod History
use ondris.Prelude.{
  ℕ, zero, suc, ◌+◌, ◌-◌, ◌*◌, ◌/◌, ◌%◌, ◌^◌, max, Option, none, some, List, [], ◌∷◌, ◌++◌, Bool,
  true, false, Bytes, ltb, leb, ◌==◌, if◌then◌else◌, Result, ok, err, Error, ok_or, ◌>>=◌, ◌>>◌,
  replicate, missing_height, missing_window, few_ancestors, not_initialized,
}
use ondris.Primitives.{Hash256, Address, Hex, zero_hash, address_from_str, Blake3}
use ondris.Block.{Block, BlockHeader, Transaction}
use ondris.Difficulty.{next_difficulty}
use ondris.Pow.{Dataset}
use ondris.State.{
  Externals, ChainState, credit, set_chainwork, store_block, set_canonical_height, set_tip,
  get_block, get_block_by_height, tip,
}

pub record PremineEntry : Type 0 where
  pub address : Bytes
  pub amount : ℕ

pub record GenesisConfig : Type 0 where
  pub network_name : Bytes
  pub timestamp : ℕ
  pub initial_difficulty : ℕ
  pub initial_reward : ℕ
  pub halving_interval : ℕ
  pub target_block_time_secs : ℕ
  pub retarget_window : ℕ
  pub premine : List PremineEntry

-- `GenesisConfig::testnet_default()`
pub testnet_default : GenesisConfig
testnet_default = record {
  network_name =
      b'o' ∷ b'n' ∷ b'd' ∷ b'r' ∷ b'i' ∷ b's' ∷ b'-' ∷ b't' ∷ b'e' ∷ b's' ∷ b't' ∷ b'n' ∷ b'e'
      ∷ b't' ∷ [];
  timestamp = 1_753_142_400;
  initial_difficulty = 1000;
  initial_reward = 50 * 100_000_000;
  halving_interval = 210_000;
  target_block_time_secs = 30;
  retarget_window = 60;
  premine = [];
}

-- `premine_parsed`: the first entry that does not parse is the error.
unfoldable pub parse_entries : Hex → List PremineEntry → Result (List (Address × ℕ))
parse_entries h [] = ok []
parse_entries h (e ∷ es) = do
  address ← address_from_str h e.address
  rest ← parse_entries h es
  ok ((address, e.amount) ∷ rest)

unfoldable pub premine_parsed : Hex → GenesisConfig → Result (List (Address × ℕ))
premine_parsed h g = parse_entries h g.premine

-- The digits of `{}` for a number below 10^fuel.
pub decimal : ℕ → ℕ → Bytes
decimal zero n = []
decimal (suc fuel) n =
    let rest = decimal fuel (n / 10) in
    let digit = b'0' + n % 10 in if ltb n 10 then digit ∷ [] else rest ++ (digit ∷ [])

-- The bytes of "ONDRIS_GENESIS".
abbrev genesis_label : Bytes
genesis_label =
    b'O' ∷ b'N' ∷ b'D' ∷ b'R' ∷ b'I' ∷ b'S' ∷ b'_' ∷ b'G' ∷ b'E' ∷ b'N' ∷ b'E' ∷ b'S' ∷ b'I' ∷ b'S'
    ∷ []

pub genesis_block_hash : Blake3 → GenesisConfig → Hash256
genesis_block_hash b g =
    b.hash (genesis_label ++ (b':' ∷ (g.network_name ++ (b':' ∷ decimal 20 g.timestamp))))

-- `block_work`, whose u128 holds every u64.
abbrev pub block_work : ℕ → ℕ
block_work difficulty = difficulty

-- `a + b` of u64 and u128
abbrev pub add_u64 : ℕ → ℕ → ℕ
add_u64 a b = (a + b) % 2 ^ 64

abbrev pub add_u128 : ℕ → ℕ → ℕ
add_u128 a b = (a + b) % 2 ^ 128

-- The lock of the source makes each call below one step; so it is not a field.
pub record Chain (Tree : Type 0) : Type 0 where
  pub state : ChainState Tree
  pub genesis : GenesisConfig
  pub dataset_cache : Option (ℕ × Dataset)

unfoldable pub block_reward : GenesisConfig → ℕ → ℕ
block_reward g height =
    let halvings = height / max g.halving_interval 1 in
    if leb 64 halvings then 0 else g.initial_reward / 2 ^ halvings

unfoldable pub genesis_block : GenesisConfig → Block
genesis_block g = record {
  header = record {
    height = 0;
    prev_hash = zero_hash;
    tx_root = zero_hash;
    timestamp = g.timestamp;
    difficulty = g.initial_difficulty;
    miner = replicate 20 0;
    nonce = 0;
  };
  transactions = [];
}

module _ {Tree : Type 0} (x : Externals Tree) where
  unfoldable pub credit_all : ChainState Tree → List (Address × ℕ) → Result (ChainState Tree)
  credit_all s [] = ok s
  credit_all s ((addr, amount) ∷ rest) = do s' ← credit x s addr amount; credit_all s' rest

  -- `init_genesis`, on the state that it leaves. An error in the premine leaves earlier credits.
  unfoldable pub init_genesis : Hex → GenesisConfig → ChainState Tree → Result (ChainState Tree)
  init_genesis h g s = do
    premine ← premine_parsed h g
    let hash = genesis_block_hash x.blake3 g
    s₁ ← credit_all s premine
    let s₂ = set_chainwork x s₁ hash (block_work g.initial_difficulty)
    let s₃ = store_block x s₂ hash (genesis_block g)
    let s₄ = set_canonical_height x s₃ 0 hash
    ok (set_tip x s₄ 0 hash)

  -- `Chain::open` on an opened database.
  unfoldable pub open_chain : Hex → GenesisConfig → ChainState Tree → Result (Chain Tree)
  open_chain h g s = do
    t ← tip x s
    s' ← elim t [ some _ ↦ ok s | none ↦ init_genesis h g s ]
    ok (record { state = s'; genesis = g; dataset_cache = none })

  -- `compute_next_difficulty`, along the canonical index
  unfoldable pub compute_next_difficulty : GenesisConfig → ChainState Tree → ℕ → Result ℕ
  compute_next_difficulty g s next_height =
      let window = max g.retarget_window 1 in
      if leb next_height window then ok g.initial_difficulty else do
        tip_entry ← get_block_by_height x s (next_height - 1)
        tip_block ← ok_or tip_entry missing_height
        start_entry ← get_block_by_height x s (next_height - 1 - window)
        start_block ← ok_or start_entry missing_window
        ok (
            next_difficulty tip_block.header.difficulty
              (tip_block.header.timestamp - start_block.header.timestamp) g.target_block_time_secs
              window)

  unfoldable pub block_ancestor : ChainState Tree → Block → ℕ → Result (Option Block)
  block_ancestor s current zero = ok (some current)
  block_ancestor s current (suc depth) = do
    entry ← get_block x s current.header.prev_hash
    elim entry [ none ↦ ok none | some b ↦ block_ancestor s b depth ]

  -- `expected_difficulty_after`, along the parent's own branch
  unfoldable pub expected_difficulty_after : GenesisConfig → ChainState Tree → Block → Result ℕ
  expected_difficulty_after g s parent =
      let next_height = add_u64 parent.header.height 1 in
      let window = max g.retarget_window 1 in
      if leb next_height window then ok g.initial_difficulty else do
        entry ← block_ancestor s parent window
        window_start ← ok_or entry few_ancestors
        ok (
            next_difficulty parent.header.difficulty
              (parent.header.timestamp - window_start.header.timestamp) g.target_block_time_secs
              window)
