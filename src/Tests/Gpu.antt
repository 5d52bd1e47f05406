-- ===== src/Tests/Gpu.antt =====
-- The theorems on the GPU miner at concrete inputs, and BLAKE3's published test vectors.
use ondris.Prelude.{
  ℕ, zero, suc, ◌+◌, ◌/◌, ◌<◌, ◌≡◌, refl, sym, ap, true, none, some, List, [], ◌∷◌, ◌++◌, Bytes,
  replicate, arith,
}
use native.Mathlib.Decide.{ℕ_discrete}
use ondris.Block.{bytes_for_pow, with_nonce}
use ondris.Pow
use ondris.Pow.{Dataset}
use ondris.Pow.Bounds.{IsWhole}
use ondris.Node.Requests.{WorkTemplate}
use ondris.Gpu.Blake3Ref.{
  Words, g, mix_round, permute, rounds, feed_forward, start_state, compress, block_words_from,
  chaining_value_of, words_to_le_bytes, hash_chunk, try_hash, hash,
}
use ondris.Gpu.Blake3Ref.Tree.{Tree}
use ondris.Gpu.Blake3Ref.Hash.{chunks, joined, IsChunked, hash-Tree}
use ondris.Gpu.HashRef.{ondris_hash_with_accesses}
use ondris.Gpu.HashRef.Agreement.{
  blake3_ref, blake3_ref-Blake3Laws, ondris_hash_with_accesses-agrees,
}
use ondris.Gpu.Session.{MiningSession, try_batch}
use ondris.Gpu.Session.Buffers.{Batch, try_batch-Batch}
use ondris.Gpu.Session.Uploads.{IsSession}
use ondris.Gpu.Mine.{Loop, mined, confirmed, mine_block_gpu, mine_work}
use ondris.Gpu.Mine.Passes.{PassOk, mine_work-PassOk}
use ondris.Gpu.Mine.Progress.{mine_block_gpu-finds}
use ondris.Gpu.Mine.Reports.{IsMiner, Agrees}
use ondris.Gpu.Kernel.{kernel_device}
use ondris.Gpu.Kernel.Launches.{IsOrder, kernel_device-IsMiner}
use ondris.Gpu.SelfTest.{passed, ondris_hash_debug, self_test}
use ondris.Gpu.SelfTest.Passes.{self_test_passes}
use ondris.Tests.World.{first_header, empty_block, top_target, top_target-met}

-- The published digest of the empty input.
hash_empty :
    hash []
    ≡ 175 ∷ 19 ∷ 73 ∷ 185 ∷ 245 ∷ 249 ∷ 161 ∷ 166 ∷ 160 ∷ 64 ∷ 77 ∷ 234 ∷ 54 ∷ 220 ∷ 201 ∷ 73 ∷ 155
      ∷ 203 ∷ 37 ∷ 201 ∷ 173 ∷ 193 ∷ 18 ∷ 183 ∷ 204 ∷ 154 ∷ 147 ∷ 202 ∷ 228 ∷ 31 ∷ 50 ∷ 98 ∷ []
unfolding g mix_round permute rounds feed_forward start_state compress block_words_from
    chaining_value_of words_to_le_bytes hash_chunk try_hash hash
hash_empty = refl

-- Three chunks, the last of one byte.
abbrev three_chunks : Bytes
three_chunks = replicate 2049 7

hash-Tree_example :
    (cv : Words) × (hash three_chunks ≡ words_to_le_bytes cv)
    × Tree 0 true (chunks three_chunks) cv
    × (joined (chunks three_chunks) ≡ three_chunks)
    × IsChunked (chunks three_chunks)
hash-Tree_example = hash-Tree three_chunks

-- A dataset of two items.
abbrev two_items : Dataset
two_items = record { epoch = 0; bytes = replicate 128 3 ++ replicate 128 9 }

abbrev header_bytes : Bytes
header_bytes = replicate 108 5

two_items-IsWhole : IsWhole two_items
two_items-IsWhole = record { items = 2; some_item = omega arith; whole = refl }

ondris_hash_with_accesses-agrees_example :
    ondris_hash_with_accesses header_bytes 7 two_items.bytes 4
    ≡ Pow.ondris_hash_with_accesses blake3_ref header_bytes 7 two_items 4
ondris_hash_with_accesses-agrees_example =
    ondris_hash_with_accesses-agrees blake3_ref header_bytes 7 two_items 4 (λ m. refl)
      (λ seed n h. refl) two_items-IsWhole

-- The work-items from the last to the first.
abbrev downwards : ℕ → List ℕ
downwards zero = []
downwards (suc n) = n ∷ downwards n

downwards-IsOrder : IsOrder downwards
downwards-IsOrder = record { has = has }
  where
    has :
        (n i : ℕ)
        → i < n
        → (before : List ℕ) × (behind : List ℕ) × (downwards n ≡ before ++ (i ∷ behind))
    has zero i h = absurd (omega arith)
    has (suc n) i h = elim (ℕ_discrete i n) [
      | yes same ↦ ([], downwards n, ap (λ k. k ∷ downwards n) (sym same))
      | no other ↦
          let (before, behind, split) = has n i (omega (arith, h, other)) in
          (n ∷ before, behind, ap (◌∷◌ n) split)
    ]

kernel_device-IsMiner_example : IsMiner (kernel_device downwards)
kernel_device-IsMiner_example = kernel_device-IsMiner downwards downwards-IsOrder

-- A session on the device, right after the dataset is uploaded.
abbrev session : MiningSession
session = record {
  dataset_buf = two_items.bytes;
  dataset_len = 256;
  result_nonce = replicate 8 0;
  result_found = replicate 4 0;
  cached_header = none;
  cached_target = none;
}

session-IsSession : IsSession two_items.bytes session
session-IsSession = record { dataset_buf = refl; dataset_len = refl; header = tt; target = tt }

try_batch-Batch_example :
    Batch
      (kernel_device downwards)
      two_items.bytes
      header_bytes
      top_target
      16
      64
      8
      (try_batch (kernel_device downwards) session header_bytes 16 64 top_target 8)
try_batch-Batch_example =
    try_batch-Batch (kernel_device downwards) two_items.bytes header_bytes top_target 16 64 8
      session session-IsSession

abbrev work : WorkTemplate
work = record {
  block = empty_block (first_header (replicate 32 4));
  target = top_target;
  epoch = 0;
  epoch_boundary_hash = none;
}

abbrev idle : Loop
idle = record { cached_dataset = some (0, two_items); session = some (0, session) }

mine_work-PassOk_example :
    PassOk blake3_ref
      (kernel_device downwards)
      work
      (mine_work blake3_ref (kernel_device downwards) 3 8 idle work)
mine_work-PassOk_example =
    mine_work-PassOk blake3_ref (kernel_device downwards) 3 8 idle work (refl, session-IsSession)

blake3_ref-Agrees : Agrees blake3_ref
blake3_ref-Agrees = record { digest = λ m. refl; output = λ seed n h. refl }

first_nonce :
    confirmed blake3_ref (kernel_device downwards) work.block top_target two_items 0 ≡ true
unfolding confirmed
first_nonce = top_target-met blake3_ref blake3_ref-Blake3Laws _ 0 two_items

mine_block_gpu-finds_example :
    (nonce : ℕ) × ((mine_block_gpu blake3_ref
        (kernel_device downwards)
        (0 / 8 + 1)
        session
        work.block
        top_target
        two_items
        8
        0).0
      ≡ mined (with_nonce work.block nonce))
    × (confirmed blake3_ref (kernel_device downwards) work.block top_target two_items nonce ≡ true)
mine_block_gpu-finds_example =
    mine_block_gpu-finds blake3_ref (kernel_device downwards) blake3_ref-Agrees
      (kernel_device-IsMiner downwards downwards-IsOrder) work.block top_target two_items 8 session
      0 session-IsSession two_items-IsWhole (unfold bytes_for_pow in refl) (omega arith)
      (omega arith) first_nonce

self_test_passes_example : self_test blake3_ref (kernel_device downwards) ondris_hash_debug ≡ passed
self_test_passes_example =
    self_test_passes blake3_ref (kernel_device downwards) blake3_ref-Blake3Laws blake3_ref-Agrees
      (record { takes = λ contents. refl; gives = (replicate 32 0, refl) })
