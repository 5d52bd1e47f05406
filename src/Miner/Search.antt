-- ===== src/Miner/Search.antt =====
-- `mine_block`: threads that share a flag, a counter and the result. A thread's turn is one access to
-- what they share, and a schedule says whose turn it is.
pub mod Soundness
pub mod Progress
pub mod Joined
use ondris.Prelude.{
  ℕ, zero, suc, ◌+◌, ◌%◌, ◌^◌, max, Bool, true, false, ◌&&◌, Option, none, some, List, [], ◌∷◌,
  Bytes, length, get_or, set, if◌then◌else◌,
}
use ondris.Primitives.{Blake3}
use ondris.Block.{Block, bytes_for_pow, with_nonce}
use ondris.Pow.{Dataset, ondris_hash, meets_target}

-- The arguments of `mine_block`, and the blake3 that it hashes with.
pub record Job : Type 0 where
  pub blake3 : Blake3
  pub block : Block
  pub target : Bytes
  pub dataset : Dataset
  pub threads : ℕ

-- `threads.max(1)`
abbrev pub n_threads : Job → ℕ
n_threads j = max j.threads 1

-- A thread's test of a nonce.
unfoldable pub meets : Job → ℕ → Bool
meets j nonce =
    meets_target (ondris_hash j.blake3 (bytes_for_pow j.block.header) nonce j.dataset) j.target

-- What a thread does at its next turn: read the flag before it hashes the nonce, count the hash and
-- test it, write the nonce that met the target, raise the flag, or nothing more.
pub data Stage : Type 0 where
  looking : ℕ → Stage
  counting : ℕ → Stage
  writing : ℕ → Stage
  raising : Stage
  finished : Stage

pub record Shared : Type 0 where
  pub found : Bool
  pub counter : ℕ
  pub result : Option ℕ
  pub workers : List Stage

-- The threads t, t + 1, … as they are spawned: thread t starts at nonce t.
unfoldable pub spawn : ℕ → ℕ → List Stage
spawn zero t = []
spawn (suc left) t = looking (t % 2 ^ 64) ∷ spawn left (t + 1)

unfoldable pub start : Job → Shared
start j = record { found = false; counter = 0; result = none; workers = spawn (n_threads j) 0 }

-- `nonce.wrapping_add(threads.max(1) as u64)`
abbrev pub next_nonce : Job → ℕ → ℕ
next_nonce j nonce = (nonce + n_threads j) % 2 ^ 64

-- One access of a thread to the shared state.
unfoldable pub access : Job → Stage → Shared → Shared × Stage
access j (looking nonce) s = (s, if s.found then finished else counting nonce)
access j (counting nonce) s = (
  record s { counter = (s.counter + 1) % 2 ^ 64 },
  if meets j nonce then writing nonce else looking (next_nonce j nonce),
)
access j (writing nonce) s = (record s { result = some nonce }, raising)
access j raising s = (record s { found = true }, finished)
access j finished s = (s, finished)

-- The turn of thread t.
unfoldable pub turn : Job → ℕ → Shared → Shared
turn j t s =
    let done = access j (get_or s.workers t finished) s in
    record done.0 { workers = set s.workers t done.1 }

unfoldable pub run : Job → List ℕ → Shared → Shared
run j [] s = s
run j (t ∷ schedule) s = run j schedule (turn j t s)

abbrev is_finished : Stage → Bool
is_finished finished = true
is_finished (looking nonce) = false
is_finished (counting nonce) = false
is_finished (writing nonce) = false
is_finished raising = false

unfoldable pub all_finished : List Stage → Bool
all_finished [] = true
all_finished (w ∷ ws) = is_finished w && all_finished ws

-- What the call has come to: still inside the scope, the failed `expect`, or the block.
pub data Outcome : Type 0 where
  mining : Outcome
  panicked : Outcome
  mined : Block → Outcome

-- `mine_block` after some turns: the scope is left when the flag is up and all threads are joined.
unfoldable pub mine_block : Job → Shared → Outcome
mine_block j s =
    if s.found && all_finished s.workers
    then elim s.result [ none ↦ panicked | some nonce ↦ mined (with_nonce j.block nonce) ]
    else mining
