-- ===== src/Miner/Search/Joined.antt =====
-- `mine_block` ends: once the flag is up every thread is soon finished, and the scope is left.
use native.Mathlib.Nat.{mod-lt, mod-eq_of_lt, div-add-mod}
use ondris.Prelude.{
  ℕ, zero, suc, ◌+◌, ◌*◌, ◌/◌, ◌%◌, ◌^◌, ◌≤◌, ◌<◌, ◌≡◌, ◌≢◌, refl, sym, ap, subst, ◌∙◌, Bool, true,
  false, Bool-cases, inl, inr, List, [], ◌∷◌, ◌++◌, length, get_or, ◌==◌, ==→eq, if◌then◌else◌,
  arith,
}
use ondris.Block.{with_nonce}
use ondris.Miner.Search.{
  Job, Shared, Stage, looking, counting, writing, raising, finished, meets, start, spawn, access,
  turn, run, n_threads, next_nonce, all_finished, mined, mine_block,
}
use ondris.Miner.Search.Soundness.{started, length-spawn, mine_block_sound}
use ondris.Miner.Search.Progress.{
  turns, stage_of, stage_of-turn, stage_of-turn_other, length-turn, turn-found, run-Reachable,
  run-append, length-run, Ahead, run-Ahead,
}

-- With the flag up, a thread at this stage is finished after `left` turns of its own.
abbrev Closing : ℕ → Stage → Type 0
Closing left (looking m) = 1 ≤ left
Closing left (counting m) = 3 ≤ left
Closing left (writing m) = 2 ≤ left
Closing left raising = 1 ≤ left
Closing left finished = Unit {0}

three-Closing : (w : Stage) → Closing 3 w
three-Closing (looking m) = omega arith
three-Closing (counting m) = omega arith
three-Closing (writing m) = omega arith
three-Closing raising = omega arith
three-Closing finished = tt

Closing-le : (a b : ℕ) (w : Stage) → a ≤ b → Closing a w → Closing b w
Closing-le a b (looking m) h l = omega (arith, h, l)
Closing-le a b (counting m) h l = omega (arith, h, l)
Closing-le a b (writing m) h l = omega (arith, h, l)
Closing-le a b raising h l = omega (arith, h, l)
Closing-le a b finished h l = tt

Closing-zero : (w : Stage) → Closing 0 w → w ≡ finished
Closing-zero (looking m) h = absurd (omega (arith, h))
Closing-zero (counting m) h = absurd (omega (arith, h))
Closing-zero (writing m) h = absurd (omega (arith, h))
Closing-zero raising h = absurd (omega (arith, h))
Closing-zero finished h = refl

access-Closing :
    (j : Job) (left : ℕ) (w : Stage) (s : Shared)
    → s.found ≡ true
    → Closing (suc left) w
    → Closing left (access j w s).1
unfolding access
access-Closing j left (looking m) s up h = rw up tt
access-Closing j left (counting m) s up h = tested (meets j m)
  where
    tested : (hit : Bool) → Closing left (if hit then writing m else looking (next_nonce j m))
    tested true = omega (arith, h)
    tested false = omega (arith, h)
access-Closing j left (writing m) s up h = omega (arith, h)
access-Closing j left raising s up h = tt
access-Closing j left finished s up h = tt

run-Closing :
    (j : Job) (t : ℕ) (schedule : List ℕ) (s : Shared)
    → s.found ≡ true
    → t < length s.workers
    → Closing (turns t schedule) (stage_of s t)
    → stage_of (run j schedule s) t ≡ finished
unfolding run
run-Closing j t [] s up there h = Closing-zero (stage_of s t) h
run-Closing j t (u ∷ schedule) s up there h = elim (Bool-cases (u == t)) [
  | inl same ↦
      let it : u ≡ t = ==→eq u t same in
      let count : turns t (u ∷ schedule) ≡ suc (turns t schedule) = ground (arith, same) in
      run-Closing j t schedule (turn j u s) (turn-found j s u up)
        (omega (arith, there, length-turn j s u))
        (subst (λ v. Closing (turns t schedule) (stage_of (turn j v s) t)) (sym it)
          (subst (Closing (turns t schedule)) (sym (stage_of-turn j s t there)) (
            access-Closing j (turns t schedule) (stage_of s t) s up
              (subst (λ k. Closing k (stage_of s t)) count h))))
  | inr different ↦
      let count : turns t (u ∷ schedule) ≡ turns t schedule = ground (arith, different) in
      let apart : u ≢ t = λ e. ground (arith, different, e) in
      run-Closing j t schedule (turn j u s) (turn-found j s u up)
        (omega (arith, there, length-turn j s u))
        (subst (Closing (turns t schedule)) (sym (stage_of-turn_other j s t u apart))
          (subst (λ k. Closing k (stage_of s t)) count h))
]

all_finished-intro :
    (ws : List Stage)
    → ((t : ℕ) → t < length ws → get_or ws t finished ≡ finished)
    → all_finished ws ≡ true
unfolding all_finished
all_finished-intro [] h = refl
all_finished-intro (w ∷ ws) h =
    let first : w ≡ finished = h 0 (omega arith) in
    let rest = all_finished-intro ws (λ t l. h (suc t) (omega (arith, l))) in rw first rest

spawn-looking :
    (left t i : ℕ) → i < left → get_or (spawn left t) i finished ≡ looking ((t + i) % 2 ^ 64)
unfolding spawn
spawn-looking zero t i h = absurd (omega arith)
spawn-looking (suc left) t zero h =
    let e : t ≡ t + 0 = omega arith in ap (λ v. looking (v % 2 ^ 64)) e
spawn-looking (suc left) t (suc i) h =
    let e : t + 1 + i ≡ t + suc i = omega arith in
    spawn-looking left (t + 1) i (omega (arith, h)) ∙ ap (λ v. looking (v % 2 ^ 64)) e

-- Whatever the order of the turns: if a u64 nonce n meets the target, and the thread it falls to, n
-- mod T of the T threads, has 2 (n / T) + 4 turns, and then every thread has 3 turns more, the call
-- has returned, and the block is the one it was given with a nonce whose hash meets the target.
pub mine_block-finds :
    (j : Job) (n : ℕ) (trying closing : List ℕ)
    → n < 2 ^ 64
    → meets j n ≡ true
    → 2 * (n / n_threads j) + 4 ≤ turns (n % n_threads j) trying
    → ((t : ℕ) → t < n_threads j → 3 ≤ turns t closing)
    → (nonce : ℕ) × (mine_block j (run j (trying ++ closing) (start j))
        ≡ mined (with_nonce j.block nonce))
      × (meets j nonce ≡ true)
mine_block-finds j n trying closing small met enough fair =
    let end = run j (trying ++ closing) (start j) in
    elim (mine_block_sound j end (run-Reachable (trying ++ closing) started)) [
      | inl (busy, mining) ↦ absurd (cc (busy, joined))
      | inr (all, returned) ↦ returned
    ]
  where
    lane : ℕ
    lane = n % n_threads j

    within : lane < n_threads j
    within = mod-lt n (omega arith)

    workers : length (start j).workers ≡ n_threads j
    workers = unfold start in length-spawn (n_threads j) 0

    mid : Shared
    mid = run j trying (start j)

    whole : n_threads j * (n / n_threads j) + lane ≡ n
    whole = div-add-mod n (n_threads j)

    first : stage_of (start j) lane ≡ looking lane
    first =
        unfold start in
        spawn-looking (n_threads j) 0 lane within
        ∙ ap looking (mod-eq_of_lt (omega (arith, whole, small)) ∙ omega arith)

    ahead : Ahead j n (turns lane trying) (stage_of (start j) lane)
    ahead =
        subst (Ahead j n (turns lane trying)) (sym first)
          (n / n_threads j, omega (arith, whole), enough)

    up : mid.found ≡ true
    up = run-Ahead j n lane trying (start j) small met (omega (arith, within, workers)) (inr ahead)

    ends :
        (t : ℕ) → t < length (run j closing mid).workers → stage_of (run j closing mid) t ≡ finished
    ends t l =
        let there : t < n_threads j =
          omega (arith, l, length-run j closing mid, length-run j trying (start j), workers) in
        run-Closing j t closing mid up
          (omega (arith, there, length-run j trying (start j), workers))
          (Closing-le 3 (turns t closing) (stage_of mid t) (fair t there)
            (three-Closing (stage_of mid t)))

    joined : all_finished (run j (trying ++ closing) (start j)).workers ≡ true
    joined =
        subst (λ s. all_finished s.workers ≡ true) (sym (run-append j trying closing (start j)))
          (all_finished-intro (run j closing mid).workers ends)
