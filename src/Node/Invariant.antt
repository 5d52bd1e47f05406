-- ===== src/Node/Invariant.antt =====
-- The well-formedness of the chain, and the events of main.rs.
use ondris.Prelude.{
  ℕ, zero, suc, ◌+◌, ◌≡◌, sym, subst, ◌∙◌, none, some, inl, inr, List, [], ◌∷◌, ◌++◌, Bool-cases,
  Option-cases, ok, err, Result-cases, arith,
}
use ondris.Primitives.{Hash256}
use ondris.Block.{Block, Transaction, is_signature_valid}
use ondris.State.{Externals, ChainState}
use ondris.State.Reads.{ExternalsLaws}
use ondris.State.Frames.{
  SameBlocks, SameLedger, mempool_insert-SameBlocks, mempool_insert-SameLedger,
  mempool_remove-SameBlocks, mempool_remove-SameLedger, tip-same,
}
use ondris.Chain.Submit.{SubmitOutcome, accepted, side_branch, already_known, orphan, submit_block}
use ondris.Chain.Submit.Invariant.{Inv, commit-Inv, submit_block-Inv}
use ondris.Network.Messages.{
  NetworkEvent, peer_connected, peer_disconnected, block_came, transaction_came, block_requested,
  response_came,
}
use ondris.Node.{
  AppState, take_waiting, buffered, remove_mined, insert_displaced, handle_outcome, submit,
  submit_children, cascade, unlock, accept_and_broadcast, handle_event, accepted_hash,
}

module _ {Tree : Type 0} (x : Externals Tree) (laws : ExternalsLaws x) (genesis : Hash256) where
  abbrev IsSound : AppState Tree → Type 0
  IsSound app = Inv x genesis app.chain.state

  Inv-same :
      {s s' : ChainState Tree}
      → SameBlocks s' s
      → SameLedger s' s
      → Inv x genesis s
      → Inv x genesis s'
  Inv-same {s} {s'} b l inv =
      commit-Inv x genesis laws inv.tip_height inv.tip_hash inv.tip_block inv b
        (tip-same x s' s l ∙ inv.is_tip) inv.tip_stored inv.tip_at

  remove_mined-Inv :
      (ts : List Transaction) (s : ChainState Tree)
      → Inv x genesis s
      → Inv x genesis (remove_mined x ts s)
  unfolding remove_mined
  remove_mined-Inv [] s inv = inv
  remove_mined-Inv (t ∷ ts) s inv =
      remove_mined-Inv ts _
        (Inv-same (mempool_remove-SameBlocks x s _) (mempool_remove-SameLedger x s _) inv)

  insert_displaced-Inv :
      (ts : List Transaction) (s : ChainState Tree)
      → Inv x genesis s
      → Inv x genesis (insert_displaced x ts s)
  unfolding insert_displaced
  insert_displaced-Inv [] s inv = inv
  insert_displaced-Inv (t ∷ ts) s inv =
      insert_displaced-Inv ts _
        (Inv-same (mempool_insert-SameBlocks x s t) (mempool_insert-SameLedger x s t) inv)

  handle_outcome-IsSound :
      (b : Block) (o : SubmitOutcome) (app : AppState Tree)
      → IsSound app
      → IsSound (handle_outcome x b o app)
  unfolding handle_outcome
  handle_outcome-IsSound b (accepted h n r q) app inv =
      insert_displaced-Inv q _ (remove_mined-Inv b.transactions _ inv)
  handle_outcome-IsSound b (side_branch h n) app inv = inv
  handle_outcome-IsSound b already_known app inv = inv
  handle_outcome-IsSound b (orphan h) app inv = inv

  submit_children-IsSound :
      (children : List Block) (app : AppState Tree)
      → IsSound app
      → IsSound (submit_children x children app).0
  unfolding submit_children submit
  submit_children-IsSound [] app inv = inv
  submit_children-IsSound (b ∷ bs) app inv =
      let c = submit_block x b app.chain in
      let app₁ : AppState Tree = record app { chain = c.1 } in
      let inv₁ : IsSound app₁ = submit_block-Inv x genesis laws app.chain b inv in
      elim (Result-cases c.0) [
        | inr (e, q) ↦
            let call : submit_children x (b ∷ bs) app ≡ submit_children x bs app₁ = ground arith in
            subst (λ r. IsSound r.0) (sym call) (submit_children-IsSound bs app₁ inv₁)
        | inl (o, q) ↦
            let app₂ = handle_outcome x b o app₁ in
            let done = submit_children x bs app₂ in
            let call : submit_children x (b ∷ bs) app ≡ (done.0, accepted_hash x o ++ done.1) =
              ground arith in
            subst (λ r. IsSound r.0) (sym call)
              (submit_children-IsSound bs app₂ (handle_outcome-IsSound b o app₁ inv₁))
      ]

  cascade-IsSound :
      (fuel : ℕ) (queue : List Hash256) (app : AppState Tree)
      → IsSound app
      → IsSound (elim (cascade x fuel queue app) [ none ↦ app | some app' ↦ app' ])
  unfolding cascade
  cascade-IsSound fuel queue app inv = elim (Option-cases (cascade x fuel queue app)) [
    | inl q ↦ rw q inv
    | inr (app', q) ↦ rw q (ends fuel queue app app' inv q)
  ]
    where
      ends :
          (f : ℕ) (hs : List Hash256) (a a' : AppState Tree)
          → IsSound a
          → cascade x f hs a ≡ some a'
          → IsSound a'
      ends zero hs a a' i q = cc (q)
      ends (suc f) [] a a' i q = subst IsSound (some_of q) i
        where
          some_of : some a ≡ some a' → a ≡ a'
          some_of e = cc e
      ends (suc f) (k ∷ hs) a a' i q = elim (Option-cases (take_waiting k a.orphans).0) [
        | inl none_waits ↦ ends f hs a a' i (ground arith)
        | inr (children, waits) ↦
            let start : AppState Tree = record a { orphans = (take_waiting k a.orphans).1 } in
            let done = submit_children x children start in
            ends f (hs ++ done.1) done.0 a' (submit_children-IsSound children start i)
              (ground arith)
      ]

  accept_and_broadcast-IsSound :
      (b : Block) (app : AppState Tree) → IsSound app → IsSound (accept_and_broadcast x b app).1
  unfolding accept_and_broadcast submit unlock
  accept_and_broadcast-IsSound b app inv =
      let c = submit_block x b app.chain in
      let app₁ : AppState Tree = record app { chain = c.1 } in
      let inv₁ : IsSound app₁ = submit_block-Inv x genesis laws app.chain b inv in
      elim (Result-cases c.0) [
        | inr (e, q) ↦
            let call : accept_and_broadcast x b app ≡ (err e, app₁) = ground arith in
            subst (λ r. IsSound r.1) (sym call) inv₁
        | inl (o, q) ↦
            let call : accept_and_broadcast x b app
                ≡ (ok o, unlock x o (handle_outcome x b o app₁)) =
              ground arith in
            subst (λ r. IsSound r.1) (sym call)
              (unlocked o (handle_outcome x b o app₁) (handle_outcome-IsSound b o app₁ inv₁))
      ]
    where
      unlocked : (o : SubmitOutcome) (a : AppState Tree) → IsSound a → IsSound (unlock x o a)
      unlocked (accepted h n r q) a i = cascade-IsSound (buffered a.orphans + 2) (h ∷ []) a i
      unlocked (side_branch h n) a i = i
      unlocked already_known a i = i
      unlocked (orphan h) a i = i

  -- Whatever event of the network the node handles, its chain stays well formed: a block with the
  -- whole cascade of orphans that it unlocks, a transaction, a request, or a peer that comes or
  -- goes.
  pub handle_event-Inv :
      (e : NetworkEvent) (app : AppState Tree)
      → Inv x genesis app.chain.state
      → Inv x genesis (handle_event x e app).chain.state
  unfolding handle_event
  handle_event-Inv (block_came b) app inv = accept_and_broadcast-IsSound b app inv
  handle_event-Inv (transaction_came t) app inv =
      elim (Bool-cases (is_signature_valid x.ed25519 t)) [
        | inl good ↦ rw good (
            Inv-same (mempool_insert-SameBlocks x app.chain.state t)
              (mempool_insert-SameLedger x app.chain.state t) inv)
        | inr forged ↦ rw forged inv
      ]
  handle_event-Inv (block_requested peer h) app inv = inv
  handle_event-Inv (response_came none) app inv = inv
  handle_event-Inv (response_came (some b)) app inv = accept_and_broadcast-IsSound b app inv
  handle_event-Inv (peer_connected peer) app inv = inv
  handle_event-Inv (peer_disconnected peer) app inv = inv
