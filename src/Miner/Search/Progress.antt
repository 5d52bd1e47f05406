-- ===== src/Miner/Search/Progress.antt =====
-- `mine_block` finds a nonce that is there, if every thread keeps getting its turns.
use native.Mathlib.Nat.{mod-eq_of_lt}
use ondris.Prelude.{
  ℕ, zero, suc, ◌+◌, ◌*◌, ◌^◌, ◌≤◌, ◌<◌, ◌≡◌, ◌≢◌, refl, sym, ap, subst, ◌∙◌, Bool, true, false,
  Bool-cases, inl, inr, ◌⊎◌, List, [], ◌∷◌, ◌++◌, length, length-set, get_or, set, ◌==◌, ==→eq,
  if◌then◌else◌, arith,
}
use ondris.Miner.Search.{
  Job, Shared, Stage, looking, counting, writing, raising, finished, meets, access, turn, run,
  n_threads, next_nonce,
}
use ondris.Miner.Search.Soundness.{Reachable, after}

-- How often thread t has its turn.
abbrev pub turns : ℕ → List ℕ → ℕ
turns t [] = 0
turns t (u ∷ schedule) = let rest = turns t schedule in if u == t then suc rest else rest

get_or-set {ℓ} :
    {A : Type ℓ} (xs : List A) (t : ℕ) (v d : A) → t < length xs → get_or (set xs t v) t d ≡ v
get_or-set [] t v d h = absurd (omega arith)
get_or-set (x ∷ xs) zero v d h = refl
get_or-set (x ∷ xs) (suc t) v d h = get_or-set xs t v d (omega arith)

get_or-set_other {ℓ} :
    {A : Type ℓ} (xs : List A) (t u : ℕ) (v d : A) → u ≢ t → get_or (set xs u v) t d ≡ get_or xs t d
get_or-set_other [] t u v d h = refl
get_or-set_other (x ∷ xs) zero zero v d h = absurd (h refl)
get_or-set_other (x ∷ xs) zero (suc u) v d h = refl
get_or-set_other (x ∷ xs) (suc t) zero v d h = refl
get_or-set_other (x ∷ xs) (suc t) (suc u) v d h = get_or-set_other xs t u v d (λ e. h (ap suc e))

access-found : (j : Job) (w : Stage) (s : Shared) → s.found ≡ true → (access j w s).0.found ≡ true
unfolding access
access-found j (looking nonce) s up = up
access-found j (counting nonce) s up = up
access-found j (writing nonce) s up = up
access-found j raising s up = refl
access-found j finished s up = up

-- The stage of thread t.
abbrev pub stage_of : Shared → ℕ → Stage
stage_of s t = get_or s.workers t finished

pub stage_of-turn :
    (j : Job) (s : Shared) (t : ℕ)
    → t < length s.workers
    → stage_of (turn j t s) t ≡ (access j (stage_of s t) s).1
unfolding turn
stage_of-turn j s t h = get_or-set s.workers t _ finished h

pub stage_of-turn_other :
    (j : Job) (s : Shared) (t u : ℕ) → u ≢ t → stage_of (turn j u s) t ≡ stage_of s t
unfolding turn
stage_of-turn_other j s t u h = get_or-set_other s.workers t u _ finished h

pub length-turn : (j : Job) (s : Shared) (u : ℕ) → length (turn j u s).workers ≡ length s.workers
unfolding turn
length-turn j s u = length-set s.workers u _

pub turn-found : (j : Job) (s : Shared) (u : ℕ) → s.found ≡ true → (turn j u s).found ≡ true
unfolding turn
turn-found j s u up = access-found j (stage_of s u) s up

-- After `left` turns of its own a thread at this stage has come to the nonce n, or to another hit,
-- and has raised the flag.
abbrev pub Ahead : Job → ℕ → ℕ → Stage → Type 0
Ahead j n left (looking m) = (i : ℕ) × (m + i * n_threads j ≡ n) × (2 * i + 4 ≤ left)
Ahead j n left (counting m) = (i : ℕ) × (m + i * n_threads j ≡ n) × (2 * i + 3 ≤ left)
Ahead j n left (writing m) = 2 ≤ left
Ahead j n left raising = 1 ≤ left
Ahead j n left finished = ⊥

access-Ahead :
    (j : Job) (n left : ℕ) (w : Stage) (s : Shared)
    → n < 2 ^ 64
    → meets j n ≡ true
    → Ahead j n (suc left) w
    → ((access j w s).0.found ≡ true) ⊎ Ahead j n left (access j w s).1
unfolding access
access-Ahead j n left (looking m) s small met (i, e, b) = looked s.found refl
  where
    looked :
        (f : Bool)
        → s.found ≡ f
        → (s.found ≡ true) ⊎ Ahead j n left (if f then finished else counting m)
    looked true up = inl up
    looked false down = inr (i, e, omega (arith, b))
access-Ahead j n left (counting m) s small met (i, e, b) = tested (meets j m) refl
  where
    tested :
        (hit : Bool)
        → meets j m ≡ hit
        → (s.found ≡ true) ⊎ Ahead j n left (if hit then writing m else looking (next_nonce j m))
    tested true hit = inr (omega (arith, b))
    tested false miss = elim (ahead i e b) [
      | inl here ↦ absurd (cc (ap (meets j) here))
      | inr (i', e', b') ↦
          inr
            (i', ap (λ v. v + i' * n_threads j) (mod-eq_of_lt (omega (arith, e', small))) ∙ e', b')
    ]
      where
        ahead :
            (i : ℕ)
            → m + i * n_threads j ≡ n
            → 2 * i + 3 ≤ suc left
            → (m ≡ n) ⊎ ((i' : ℕ) × (m + n_threads j + i' * n_threads j ≡ n) × (2 * i' + 4 ≤ left))
        ahead zero e b = inl (omega (arith, e))
        ahead (suc i) e b = inr (i, omega (arith, e), omega (arith, b))
access-Ahead j n left (writing m) s small met b = inr (omega (arith, b))
access-Ahead j n left raising s small met b = inl refl
access-Ahead j n left finished s small met b = absurd b

pub run-Reachable :
    {j : Job} (schedule : List ℕ) {s : Shared} → Reachable j s → Reachable j (run j schedule s)
unfolding run
run-Reachable [] r = r
run-Reachable (t ∷ schedule) r = run-Reachable schedule (after t r)

pub run-append :
    (j : Job) (xs ys : List ℕ) (s : Shared) → run j (xs ++ ys) s ≡ run j ys (run j xs s)
unfolding run
run-append j [] ys s = refl
run-append j (t ∷ xs) ys s = run-append j xs ys (turn j t s)

run-found :
    (j : Job) (schedule : List ℕ) (s : Shared) → s.found ≡ true → (run j schedule s).found ≡ true
unfolding run
run-found j [] s up = up
run-found j (t ∷ schedule) s up = run-found j schedule (turn j t s) (turn-found j s t up)

pub length-run :
    (j : Job) (schedule : List ℕ) (s : Shared)
    → length (run j schedule s).workers ≡ length s.workers
unfolding run
length-run j [] s = refl
length-run j (t ∷ schedule) s = length-run j schedule (turn j t s) ∙ length-turn j s t

-- A thread without turns left to take has raised the flag.
Ahead-zero : (j : Job) (n : ℕ) (w : Stage) → Ahead j n 0 w → ⊥
Ahead-zero j n (looking m) (i, e, b) = omega (arith, b)
Ahead-zero j n (counting m) (i, e, b) = omega (arith, b)
Ahead-zero j n (writing m) b = omega (arith, b)
Ahead-zero j n raising b = omega (arith, b)
Ahead-zero j n finished b = b

Ahead-le : (j : Job) (n a b : ℕ) (w : Stage) → a ≤ b → Ahead j n a w → Ahead j n b w
Ahead-le j n a b (looking m) h (i, e, l) = (i, e, omega (arith, h, l))
Ahead-le j n a b (counting m) h (i, e, l) = (i, e, omega (arith, h, l))
Ahead-le j n a b (writing m) h l = omega (arith, h, l)
Ahead-le j n a b raising h l = omega (arith, h, l)
Ahead-le j n a b finished h l = l

-- The flag goes up within the turns that the thread of a hit needs.
pub run-Ahead :
    (j : Job) (n t : ℕ) (schedule : List ℕ) (s : Shared)
    → n < 2 ^ 64
    → meets j n ≡ true
    → t < length s.workers
    → (s.found ≡ true) ⊎ Ahead j n (turns t schedule) (stage_of s t)
    → (run j schedule s).found ≡ true
unfolding run
run-Ahead j n t [] s small met there (inl up) = up
run-Ahead j n t [] s small met there (inr ahead) = absurd (Ahead-zero j n (stage_of s t) ahead)
run-Ahead j n t (u ∷ schedule) s small met there (inl up) =
    run-found j schedule (turn j u s) (turn-found j s u up)
run-Ahead j n t (u ∷ schedule) s small met there (inr ahead) = elim (Bool-cases (u == t)) [
  | inl same ↦
      let it : u ≡ t = ==→eq u t same in
      let count : turns t (u ∷ schedule) ≡ suc (turns t schedule) = ground (arith, same) in
      run-Ahead j n t schedule (turn j u s) small met (omega (arith, there, length-turn j s u)) (
        subst
          (λ v.
            ((turn j v s).found ≡ true) ⊎ Ahead j n (turns t schedule) (stage_of (turn j v s) t))
          (sym it)
          (own (
            access-Ahead j n (turns t schedule) (stage_of s t) s small met
              (subst (λ k. Ahead j n k (stage_of s t)) count ahead))))
  | inr different ↦
      let count : turns t (u ∷ schedule) ≡ turns t schedule = ground (arith, different) in
      let apart : u ≢ t = λ e. ground (arith, different, e) in
      run-Ahead j n t schedule (turn j u s) small met (omega (arith, there, length-turn j s u)) (
        inr (
          subst (Ahead j n (turns t schedule)) (sym (stage_of-turn_other j s t u apart))
            (subst (λ k. Ahead j n k (stage_of s t)) count ahead)))
]
  where
    own :
        ((access j (stage_of s t) s).0.found ≡ true)
          ⊎ Ahead j n (turns t schedule) (access j (stage_of s t) s).1
        → ((turn j t s).found ≡ true) ⊎ Ahead j n (turns t schedule) (stage_of (turn j t s) t)
    own (inl up) = inl (unfold turn in up)
    own (inr a) = inr (subst (Ahead j n (turns t schedule)) (sym (stage_of-turn j s t there)) a)
