-- ===== src/Lib.antt =====
-- A model of ondris, a proof-of-work block chain: its core library with the data of the chain, the
-- hash of the proof of work, the state database, and the submission of blocks with fork choice
-- and reorganization; the encrypted transport and the messages of peers; the node that joins
-- them; the CPU miner and the GPU miner with its own hash functions; and the wallet.
--
-- The files and the code they are about:
--   Prelude          shared: native numbers with Boolean tests, lists by native numbers, results
--                    with the errors of the program, byte strings, bit operations.
--   Primitives       crates/ondris-primitives/src/lib.rs: hashes, keys, addresses, signatures.
--   Difficulty       crates/ondris-core/src/difficulty.rs: targets and retargeting.
--   Block            crates/ondris-core/src/{block,header,transaction}.rs. A transaction's `from`
--                    and `to` are its `sender` and `recipient`; Block/Merkle has `merkle_root`.
--   Pow              crates/ondris-pow/src/lib.rs: the dataset and OndrisHash.
--   State            crates/ondris-core/src/state.rs: `ChainState`, a record of six trees.
--   Chain            crates/ondris-core/src/{chain,genesis}.rs: the genesis, the reward and the
--                    difficulty rules; Chain/Submit has `dataset_for_height`, `work_template` and
--                    `submit_block`, Chain/Fork has `fork_paths`, Chain/Ledger the loops that undo
--                    and apply blocks on an overlay of accounts, with the sums of balances and of
--                    rewards, Chain/Reorg `reconsider_tip`; Chain/History is about an opened chain
--                    and any sequence of submissions.
--   Network          crates/ondris-network/src: Network/Noise has the frames, the chunking writer and
--                    the buffering reader of noise.rs, with its identity file and handshakes,
--                    Network/Messages the messages and the connection loop of lib.rs.
--   Node             crates/ondris-node/src/main.rs: `accept_and_broadcast` with the cascade of
--                    orphans, and the events; Node/Requests has the request handlers, with
--                    crates/ondris-core/src/rpc_types.rs.
--   Gpu              crates/ondris-miner-gpu/src: Gpu/Blake3Ref has blake3_ref.rs, Gpu/HashRef
--                    ondris_hash_ref.rs, Gpu/Session the mining session of gpu.rs, Gpu/Mine the
--                    search and the kept state of main.rs, Gpu/Kernel `ondris_mine` of kernel.cl,
--                    Gpu/SelfTest the self test with `ondris_hash_debug`.
--   Miner            crates/ondris-miner/src/main.rs: Miner/Search has `mine_block` with its threads,
--                    Miner/Work the dataset of the main loop, Miner/Submission and Miner/Acceptance a
--                    template that is mined and submitted.
--   Wallet           crates/ondris-wallet/src: keystore.rs, and the commands New and Send of main.rs.
--   Tests            concrete stand-ins for the crates, and theorems at concrete inputs.
--
-- How the code is modelled. A method of `Chain` that changes the state is an `Action`
-- (Chain/Action): a function from a chain to a result and the chain after the call, in which an
-- error keeps the writes made before it. The lock makes each call one step, so a run of the node is
-- a sequence of calls. Errors are the constructors of `Error`, by the kind of failure; the texts of
-- messages are left out, and messages about one kind of failure (bad hex, a wrong length) share one.
-- `submit_block` is cut, in the order of the source, into `submit_block` (height, dataset, known
-- block), `submit_new` (the block by itself, the look for the parent), `submit_child` (the parent's
-- checks and the first writes), `choose_tip` and `adopt` (fork choice).
--
-- Numbers are native; `+` and `-` of u64 and u128 wrap as in release builds, and the saturating
-- operations are written out. Byte arrays are lists of numbers, and theorems that need it assume
-- that they are bytes, or that they have the length of their type.
--
-- The threads of the CPU miner are a list of stages, and a turn is one access of a thread to the flag,
-- the counter or the result; a run is any sequence of turns. The work-items of a kernel launch
-- write in any order, each its two results at once.
--
-- Parameters: blake3, ed25519-dalek, hex, serde_json, sled, snow, OpenCL, and argon2 with aes-gcm
-- are records of operations (`Blake3`, `Ed25519`, `Hex`, `Json`, `Sled`, `Snow`, `Handshakes`,
-- `Device`, `Ciphers`), and what is documented of them is a record of laws next to each. Failures
-- of the disk are not modelled: a database operation that the source may refuse with an I/O error
-- succeeds here.
--
-- Loops: those over lists are recursive on the list, those over a range on the count. The loop of
-- `merkle_root` has the number of leaves as fuel, which its levels halve. The loops of `fork_paths`
-- have the height of the block they start from, plus one, as fuel, and each step goes one block
-- down. The writer's loop over chunks has the length of the plaintext, the reader's loop over frames
-- the length of the connection's bytes plus one, and the cascade of orphans the number of buffered
-- blocks plus two: each round uses up a byte, or a hash of the queue that a buffered block paid for.
-- The merging of BLAKE3's stack has the number of chunks plus one, which each round halves. The GPU's
-- search has a number of batches; n / batch + 1 of them reach the nonce n.
--
-- Not modelled: the opening and flushing of files, the reading of the genesis file, the system
-- clock (`work_template` takes the time as an argument), randomness (what the wallet draws is an
-- argument), command lines, sockets, HTTP and the router; the choice of an OpenCL device and the
-- benchmark; the report of the hash rate.
pub mod Prelude
pub mod Difficulty
pub mod Primitives
pub mod Block
pub mod Pow
pub mod State
pub mod Chain
pub mod Gpu
pub mod Miner
pub mod Network
pub mod Node
pub mod Wallet
pub mod Tests
