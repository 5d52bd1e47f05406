-- ===== src/Tests/Miner.antt =====
-- The theorems on the CPU miner at concrete inputs.
use ondris.Prelude.{
  ℕ, zero, suc, ◌≤◌, ◌<◌, ◌≡◌, refl, ◌⊎◌, sym, ap, ◌∙◌, Option, none, some, true, false, List, [],
  ◌∷◌, ◌++◌, if◌then◌else◌, ◌==◌, Result, ok, err, arith, replicate,
}
use ondris.Primitives.{Hash256}
use ondris.Block.{Block, with_nonce}
use ondris.Pow.{epoch_of}
use ondris.Difficulty.{target_for_difficulty}
use ondris.Block.Merkle.{merkle_root}
use ondris.Chain.{compute_next_difficulty}
use ondris.Chain.Submit.{cached, dataset_for_height, work_template}
use ondris.Tests.Chains
use ondris.Tests.Chains.{genesis_hash, genesis-facts, first_block}
use ondris.Miner.Search.{
  Job, Shared, meets, start, turn, run, all_finished, mining, mined, mine_block,
}
use ondris.Miner.Search.Soundness.{started, after, mine_block_sound}
use ondris.Miner.Search.Progress.{turns}
use ondris.Miner.Search.Joined.{mine_block-finds}
use ondris.Miner.Submission.{job}
use ondris.Node.Requests.{WorkTemplate}
use ondris.Miner.Work.{datasets}
use ondris.Miner.Work.Cached.{generated, datasets_transparent}
use ondris.Tests.World.{
  crates, first_header, empty_block, small_dataset, bob, top_target, top_target-met,
}
use ondris.Tests.Crates.{blake3, blake3-Blake3Laws}

-- Two threads, and a target that every hash meets.
abbrev two_threads : Job
two_threads = record {
  blake3 = blake3;
  block = empty_block (first_header (replicate 32 4));
  target = top_target;
  dataset = small_dataset;
  threads = 2;
}

abbrev some_turns : Shared
some_turns = turn two_threads 1 (turn two_threads 0 (turn two_threads 1 (start two_threads)))

mine_block_sound_example :
    ((all_finished some_turns.workers ≡ false) × (mine_block two_threads some_turns ≡ mining))
    ⊎ ((all_finished some_turns.workers ≡ true)
        × ((nonce : ℕ) × (mine_block two_threads some_turns
              ≡ mined (with_nonce two_threads.block nonce))
            × (meets two_threads nonce ≡ true)))
mine_block_sound_example =
    mine_block_sound two_threads some_turns (after 1 (after 0 (after 1 started)))

nonce_three : meets two_threads 3 ≡ true
unfolding meets
nonce_three = top_target-met blake3 blake3-Blake3Laws _ 3 small_dataset

-- Only the second thread searches, and then both end.
abbrev searching : List ℕ
searching = replicate 6 1

abbrev ending : List ℕ
ending = 0 ∷ 1 ∷ 1 ∷ 0 ∷ 0 ∷ 1 ∷ []

ending-fair : (t : ℕ) → t < 2 → 3 ≤ turns t ending
ending-fair zero h = omega arith
ending-fair (suc zero) h = omega arith
ending-fair (suc (suc t)) h = absurd (omega arith)

mine_block-finds_example :
    (nonce : ℕ) × (mine_block two_threads
        (run two_threads (searching ++ ending) (start two_threads))
      ≡ mined (with_nonce two_threads.block nonce))
    × (meets two_threads nonce ≡ true)
mine_block-finds_example =
    mine_block-finds two_threads 3 searching ending (omega arith) nonce_three (omega arith)
      ending-fair

pub first_template :
    work_template crates 30 bob [] Chains.start ≡ (ok (first_block, small_dataset), Chains.start)
unfolding work_template dataset_for_height cached compute_next_difficulty merkle_root epoch_of
first_template = ground (arith, genesis-facts.1)

abbrev first_job : Job
first_job = job blake3 first_block small_dataset 2

first_nonce : meets first_job 3 ≡ true
unfolding meets target_for_difficulty
first_nonce = top_target-met blake3 blake3-Blake3Laws _ 3 small_dataset

abbrev pub turns_of : List ℕ
turns_of = searching ++ ending

abbrev pub last_state : Shared
last_state = run first_job turns_of (start first_job)

height_of : Result (Option (ℕ × Hash256)) → ℕ
height_of (ok (some entry)) = entry.0
height_of (ok none) = 0
height_of (err e) = 0

pub genesis-height : genesis-facts.0.tip_height ≡ 0
unfolding height_of
genesis-height = ap height_of (sym genesis-facts.0.is_tip ∙ genesis-facts.1)

pub first_found :
    (nonce : ℕ) × (mine_block first_job last_state ≡ mined (with_nonce first_block nonce))
    × (meets first_job nonce ≡ true)
first_found =
    mine_block-finds first_job 3 searching ending (omega arith) first_nonce (omega arith)
      ending-fair

abbrev pub first_found_block : Block
first_found_block = with_nonce first_block first_found.0

abbrev work_of_epoch : ℕ → Option Hash256 → WorkTemplate
work_of_epoch epoch boundary_hash = record {
  block = empty_block (first_header (replicate 32 4));
  target = top_target;
  epoch = epoch;
  epoch_boundary_hash = boundary_hash;
}

-- Two works of the first epoch, one of the second, and one of the first again.
abbrev four_works : List WorkTemplate
four_works =
    work_of_epoch 0 none
    ∷ work_of_epoch 0 none
    ∷ work_of_epoch 1 (some (replicate 32 7))
    ∷ work_of_epoch 0 none
    ∷ []

abbrev boundary : ℕ → Option Hash256
boundary epoch = if epoch == 0 then none else some (replicate 32 7)

datasets_transparent_example : datasets blake3 none four_works ≡ generated blake3 four_works
datasets_transparent_example =
    datasets_transparent blake3 boundary four_works (refl, (refl, (refl, (refl, tt))))
