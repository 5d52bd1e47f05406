-- ===== src/Node/Cascade.antt =====
-- The loop of `accept_and_broadcast` of main.rs over the orphans that a block unlocks.
use ondris.Prelude.{
  ℕ, zero, suc, ◌+◌, ◌≤◌, ◌<◌, ◌≡◌, refl, sym, ap, subst, ◌∙◌, Bool, Option, none, some, inl, inr,
  List, [], ◌∷◌, ◌++◌, length, length-append, bytes_eq, Bool-cases, Option-cases, Result-cases,
  arith,
}
use ondris.Primitives.{Hash256}
use ondris.Block.{Block, Transaction}
use ondris.State.{Externals}
use ondris.Chain.Submit.{SubmitOutcome, accepted, side_branch, already_known, orphan, submit_block}
use ondris.Node.{
  AppState, Orphans, buffer, take_waiting, buffered, handle_outcome, submit, accepted_hash,
  submit_children, cascade, unlock,
}

buffered-buffer :
    (h : Hash256) (b : Block) (os : Orphans) → buffered (buffer h b os) ≡ suc (buffered os)
unfolding buffered buffer
buffered-buffer h b [] = omega arith
buffered-buffer h b ((k, bs) ∷ os) =
    ground (arith, buffered-buffer h b os, length-append bs (b ∷ []))

-- What waits and what is left are all that was buffered.
waiting_blocks : Option (List Block) → ℕ
unfolding buffered
waiting_blocks none = 0
waiting_blocks (some bs) = length bs

buffered-take_waiting :
    (h : Hash256) (os : Orphans)
    → waiting_blocks (take_waiting h os).0 + buffered (take_waiting h os).1 ≡ buffered os
unfolding buffered take_waiting waiting_blocks
buffered-take_waiting h [] = refl
buffered-take_waiting h ((k, bs) ∷ os) = elim (Bool-cases (bytes_eq k h)) [
  | inl same ↦ rw same refl
  | inr other ↦ rw other (omega (arith, buffered-take_waiting h os))
]

module _ {Tree : Type 0} (x : Externals Tree) where
  -- An outcome buffers one block or pushes one hash, never both.
  handle_outcome_bound :
      (b : Block) (o : SubmitOutcome) (app : AppState Tree)
      → buffered (handle_outcome x b o app).orphans + length (accepted_hash x o)
        ≤ suc (buffered app.orphans)
  unfolding handle_outcome
  handle_outcome_bound b (accepted h n r q) app = omega arith
  handle_outcome_bound b (side_branch h n) app = omega arith
  handle_outcome_bound b already_known app = omega arith
  handle_outcome_bound b (orphan h) app = omega (arith, buffered-buffer h b app.orphans)

  abbrev Bounded : ℕ → AppState Tree × List Hash256 → Type 0
  Bounded n r = buffered r.0.orphans + length r.1 ≤ n

  submit_children_bound :
      (children : List Block) (app : AppState Tree)
      → buffered (submit_children x children app).0.orphans
          + length (submit_children x children app).1
        ≤ buffered app.orphans + length children
  unfolding submit_children submit
  submit_children_bound [] app = omega arith
  submit_children_bound (b ∷ bs) app =
      let c = submit_block x b app.chain in
      let app₁ : AppState Tree = record app { chain = c.1 } in
      elim (Result-cases c.0) [
        | inr (e, q) ↦
            let call : submit_children x (b ∷ bs) app ≡ submit_children x bs app₁ = ground arith in
            let rest = submit_children_bound bs app₁ in
            subst (Bounded (buffered app.orphans + length (b ∷ bs))) (sym call)
              (omega (arith, rest))
        | inl (o, q) ↦
            let app₂ = handle_outcome x b o app₁ in
            let done = submit_children x bs app₂ in
            let call : submit_children x (b ∷ bs) app ≡ (done.0, accepted_hash x o ++ done.1) =
              ground arith in
            let rest = submit_children_bound bs app₂ in
            let one = handle_outcome_bound b o app₁ in
            subst (Bounded (buffered app.orphans + length (b ∷ bs))) (sym call)
              (omega (arith, rest, one, length-append (accepted_hash x o) done.1))
      ]

  -- The loop over the queue ends, whatever the chain answers to each block: more rounds than
  -- hashes on the queue and blocks in the buffer are enough.
  pub cascade_total :
      (fuel : ℕ) (queue : List Hash256) (app : AppState Tree)
      → length queue + buffered app.orphans < fuel
      → (app' : AppState Tree) × (cascade x fuel queue app ≡ some app')
  unfolding cascade
  cascade_total zero queue app h = absurd (omega arith)
  cascade_total (suc fuel) [] app h = (app, refl)
  cascade_total (suc fuel) (k ∷ queue) app h =
      let t = take_waiting k app.orphans in
      let all = buffered-take_waiting k app.orphans in
      elim (Option-cases t.0) [
        | inl q ↦
            let (app', go) = cascade_total fuel queue app (omega arith) in
            let call : cascade x (suc fuel) (k ∷ queue) app ≡ cascade x fuel queue app =
              ground arith in
            (app', call ∙ go)
        | inr (children, q) ↦
            let app₁ : AppState Tree = record app { orphans = t.1 } in
            let app₂ = (submit_children x children app₁).0 in
            let hashes = (submit_children x children app₁).1 in
            let bound = submit_children_bound children app₁ in
            let size : length children + buffered t.1 ≡ buffered app.orphans =
              unfold waiting_blocks in ap (λ w. waiting_blocks w + buffered t.1) (sym q) ∙ all in
            let (app', go) =
              cascade_total fuel (queue ++ hashes) app₂
                (omega (arith, bound, size, length-append queue hashes)) in
            let call : cascade x (suc fuel) (k ∷ queue) app
                ≡ cascade x fuel (queue ++ hashes) app₂ =
              ground arith in
            (app', call ∙ go)
      ]

  -- After a block is accepted, the node runs the cascade to its end: the fuel it is given is enough
  -- for every buffer of orphans.
  pub unlock_total :
      (hash : Hash256) (height : ℕ) (reorged : Bool) (requeue : List Transaction)
      (app : AppState Tree)
      → (app' : AppState Tree) × (cascade x (buffered app.orphans + 2) (hash ∷ []) app ≡ some app')
        × (unlock x (accepted hash height reorged requeue) app ≡ app')
  unfolding unlock
  unlock_total hash height reorged requeue app =
      let (app', go) = cascade_total (buffered app.orphans + 2) (hash ∷ []) app (omega arith) in
      (app', go, ground (arith, go))
