-- ===== src/Miner/Search/Soundness.antt =====
-- `mine_block` under every interleaving of its threads.
use ondris.Prelude.{
  ℕ, zero, suc, ◌+◌, ◌≡◌, ◌≤◌, refl, sym, ap, subst, ◌∙◌, Bool, true, false, Bool-cases, inl, inr,
  ◌⊎◌, Option, none, some, List, [], ◌∷◌, length, length-set, get_or, set, if◌then◌else◌, All,
  arith,
}
use ondris.Block.{with_nonce}
use ondris.Miner.Search.{
  Job, Shared, Stage, looking, counting, writing, raising, finished, meets, start, spawn, access,
  turn, n_threads, next_nonce, all_finished, mining, mined, mine_block,
}

-- The states that the threads can reach, in any order of their turns.
pub data Reachable (j : Job) : Shared → Type 0 where
  started : Reachable j (start j)
  after : {s : Shared} (t : ℕ) → Reachable j s → Reachable j (turn j t s)

-- There is a result, and it meets the target.
abbrev pub HasHit : Job → Option ℕ → Type 0
HasHit j none = ⊥
HasHit j (some nonce) = meets j nonce ≡ true

-- What holds of a thread at a stage.
abbrev pub IsSound : Job → Bool → Option ℕ → Stage → Type 0
IsSound j found result (looking nonce) = Unit {0}
IsSound j found result (counting nonce) = Unit {0}
IsSound j found result (writing nonce) = meets j nonce ≡ true
IsSound j found result raising = HasHit j result
IsSound j found result finished = found ≡ true

-- A raised flag has a result, and every thread is where the shared state allows it.
pub record Inv (j : Job) (s : Shared) : Type 0 where
  pub hit : s.found ≡ true → HasHit j s.result
  pub sound : All (IsSound j s.found s.result) s.workers
  pub some_worker : 1 ≤ length s.workers

-- What one access keeps, and where it leaves the thread.
record Kept (j : Job) (s s' : Shared) (w' : Stage) : Type 0 where
  flag : s.found ≡ true → s'.found ≡ true
  result : HasHit j s.result → HasHit j s'.result
  hit : s'.found ≡ true → HasHit j s'.result
  sound : IsSound j s'.found s'.result w'

access-Kept :
    (j : Job) (w : Stage) (s : Shared)
    → (s.found ≡ true → HasHit j s.result)
    → IsSound j s.found s.result w
    → Kept j s (access j w s).0 (access j w s).1
unfolding access
access-Kept j (looking nonce) s hit h = record {
  flag = λ e. e;
  result = λ r. r;
  hit = hit;
  sound = after_look s.found;
}
  where
    after_look : (b : Bool) → IsSound j b s.result (if b then finished else counting nonce)
    after_look true = refl
    after_look false = tt
access-Kept j (counting nonce) s hit h = record {
  flag = λ e. e;
  result = λ r. r;
  hit = hit;
  sound = after_count (meets j nonce) refl;
}
  where
    after_count :
        (b : Bool)
        → meets j nonce ≡ b
        → IsSound j s.found s.result (if b then writing nonce else looking (next_nonce j nonce))
    after_count true e = e
    after_count false e = tt
access-Kept j (writing nonce) s hit h = record {
  flag = λ e. e;
  result = λ r. h;
  hit = λ e. h;
  sound = h;
}
access-Kept j raising s hit h = record {
  flag = λ e. refl;
  result = λ r. r;
  hit = λ e. h;
  sound = refl;
}
access-Kept j finished s hit h = record { flag = λ e. e; result = λ r. r; hit = hit; sound = h }

Kept-IsSound :
    {j : Job} {s s' : Shared} {v : Stage}
    → Kept j s s' v
    → (w : Stage) → IsSound j s.found s.result w
    → IsSound j s'.found s'.result w
Kept-IsSound k (looking nonce) h = tt
Kept-IsSound k (counting nonce) h = tt
Kept-IsSound k (writing nonce) h = h
Kept-IsSound k raising h = k.result h
Kept-IsSound k finished h = k.flag h

Kept-others :
    {j : Job} {s s' : Shared} {v : Stage}
    → Kept j s s' v
    → (ws : List Stage) → All (IsSound j s.found s.result) ws
    → All (IsSound j s'.found s'.result) ws
Kept-others k [] h = tt
Kept-others k (w ∷ ws) h = (Kept-IsSound k w h.0, Kept-others k ws h.1)

Kept-All :
    {j : Job} {s s' : Shared} {v : Stage}
    → Kept j s s' v
    → (t : ℕ) (ws : List Stage) → All (IsSound j s.found s.result) ws
    → All (IsSound j s'.found s'.result) (set ws t v)
Kept-All k t [] h = tt
Kept-All k zero (w ∷ ws) h = (k.sound, Kept-others k ws h.1)
Kept-All k (suc t) (w ∷ ws) h = (Kept-IsSound k w h.0, Kept-All k t ws h.1)

-- The stage of a thread; a thread that was not spawned changes nothing.
IsSound-at :
    (j : Job) (found : Bool) (result : Option ℕ) (t : ℕ) (ws : List Stage)
    → All (IsSound j found result) ws
    → IsSound j found result (get_or ws t finished)
      ⊎ ((get_or ws t finished ≡ finished) × (set ws t finished ≡ ws))
IsSound-at j found result t [] h = inr (refl, refl)
IsSound-at j found result zero (w ∷ ws) h = inl h.0
IsSound-at j found result (suc t) (w ∷ ws) h = elim (IsSound-at j found result t ws h.1) [
  | inl there ↦ inl there
  | inr (gone, same) ↦ inr (gone, ap (◌∷◌ w) same)
]

turn_outside :
    (j : Job) (t : ℕ) (s : Shared)
    → get_or s.workers t finished ≡ finished
    → set s.workers t finished ≡ s.workers
    → turn j t s ≡ s
unfolding turn access
turn_outside j t s gone same =
    ap (λ w. record (access j w s).0 { workers = set s.workers t (access j w s).1 }) gone
    ∙ ap (λ ws. record s { workers = ws }) same

pub access-workers : (j : Job) (w : Stage) (s : Shared) → (access j w s).0.workers ≡ s.workers
unfolding access
access-workers j (looking nonce) s = refl
access-workers j (counting nonce) s = refl
access-workers j (writing nonce) s = refl
access-workers j raising s = refl
access-workers j finished s = refl

pub turn-Inv : (j : Job) (t : ℕ) (s : Shared) → Inv j s → Inv j (turn j t s)
unfolding turn
turn-Inv j t s inv = elim (IsSound-at j s.found s.result t s.workers inv.sound) [
  | inl h ↦
      let k = access-Kept j (get_or s.workers t finished) s inv.hit h in
      record {
        hit = k.hit;
        sound = Kept-All k t s.workers inv.sound;
        some_worker = omega (arith, inv.some_worker, length-set s.workers t _);
      }
  | inr (gone, same) ↦ subst (Inv j) (sym (turn_outside j t s gone same)) inv
]

spawn-IsSound : (j : Job) (left t : ℕ) → All (IsSound j false none) (spawn left t)
unfolding spawn
spawn-IsSound j zero t = tt
spawn-IsSound j (suc left) t = (tt, spawn-IsSound j left (t + 1))

pub length-spawn : (left t : ℕ) → length (spawn left t) ≡ left
unfolding spawn
length-spawn zero t = refl
length-spawn (suc left) t = ap suc (length-spawn left (t + 1))

pub Reachable-Inv : {j : Job} {s : Shared} → Reachable j s → Inv j s
unfolding start
Reachable-Inv {j} started = record {
  hit = λ e. absurd (cc e);
  sound = spawn-IsSound j (n_threads j) 0;
  some_worker = omega (arith, length-spawn (n_threads j) 0);
}
Reachable-Inv {j} (after {s} t r) = turn-Inv j t s (Reachable-Inv r)

-- When all threads are finished, one of them is, which saw or raised the flag.
finished-found :
    (j : Job) (found : Bool) (result : Option ℕ) (ws : List Stage)
    → 1 ≤ length ws
    → All (IsSound j found result) ws
    → all_finished ws ≡ true
    → found ≡ true
unfolding all_finished
finished-found j found result [] pos h e = absurd (omega arith)
finished-found j found result (finished ∷ ws) pos h e = h.0
finished-found j found result (looking nonce ∷ ws) pos h e = absurd (cc e)
finished-found j found result (counting nonce ∷ ws) pos h e = absurd (cc e)
finished-found j found result (writing nonce ∷ ws) pos h e = absurd (cc e)
finished-found j found result (raising ∷ ws) pos h e = absurd (cc e)

-- In every state that the threads reach, in any order of their turns: the call is not over while a
-- thread is at work, and once all are finished it returns the block it was given with a nonce whose
-- hash meets the target, so that its `expect` never fails.
pub mine_block_sound :
    (j : Job) (s : Shared)
    → Reachable j s
    → ((all_finished s.workers ≡ false) × (mine_block j s ≡ mining))
      ⊎ ((all_finished s.workers ≡ true)
          × ((nonce : ℕ) × (mine_block j s ≡ mined (with_nonce j.block nonce))
              × (meets j nonce ≡ true)))
unfolding mine_block
mine_block_sound j s r = elim (Bool-cases (all_finished s.workers)) [
  | inr busy ↦ inl (busy, ground (arith, busy))
  | inl joined ↦
      let inv = Reachable-Inv r in
      let up = finished-found j s.found s.result s.workers inv.some_worker inv.sound joined in
      let (nonce, same, met) = taken s.result (inv.hit up) in
      inr (joined, (nonce, ground (arith, up, joined, same), met))
]
  where
    taken : (o : Option ℕ) → HasHit j o → (nonce : ℕ) × (o ≡ some nonce) × (meets j nonce ≡ true)
    taken none h = absurd h
    taken (some nonce) h = (nonce, refl, h)
