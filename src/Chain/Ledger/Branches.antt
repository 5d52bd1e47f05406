-- ===== src/Chain/Ledger/Branches.antt =====
-- The rollback of whole blocks and branches, in the overlay of `reconsider_tip` of chain.rs.
use mathlib.Core.List.{reverse-cons}
use ondris.Prelude.{
  ℕ, ◌+◌, ◌-◌, ◌<◌, ◌≡◌, refl, sym, ◌∙◌, ap, subst, List, [], ◌∷◌, ◌++◌, reverse, length, Result,
  ok, arith, >>=-eq-ok, ok-injective, >>=-assoc, >>=-cong, ◌>>=◌,
}
use ondris.Primitives.{Address, Hash256}
use ondris.Block.{Block, Transaction}
use ondris.State.{Externals, ChainState, Account, max_u64}
use ondris.Chain.{GenesisConfig, block_reward}
use ondris.Chain.Ledger.{
  Overlay, insert, get_acc, undo_tx, undo_txs, undo_block, undo_all, apply_tx, apply_txs,
  apply_block, apply_all,
}
use ondris.Chain.Ledger.Views.{
  SameView, get_acc-insert_self, insert-SameView, insert-insert, insert_shown,
}
use ondris.Chain.Ledger.Rollback.{
  Headroom, insert-Headroom, apply_tx-Applied, apply_tx-Headroom, undo_tx-apply_tx, paid,
}

-- What a list of transactions, a block and a branch credit to accounts in all.
abbrev pub amounts : List Transaction → ℕ
amounts [] = 0
amounts (t ∷ ts) = amounts ts + t.amount

abbrev pub credits : GenesisConfig → List (Hash256 × Block) → ℕ
credits g [] = 0
credits g ((_, b) ∷ bs) = credits g bs + block_reward g b.header.height + amounts b.transactions

abbrev pub transfers : List (Hash256 × Block) → ℕ
transfers [] = 0
transfers ((_, b) ∷ bs) = transfers bs + length b.transactions

module _ {Tree : Type 0} (x : Externals Tree) (g : GenesisConfig) (s : ChainState Tree) where
  undo_txs-append :
      (o : Overlay) (xs ys : List Transaction)
      → undo_txs x g s o (xs ++ ys) ≡ (undo_txs x g s o xs >>= λ v. undo_txs x g s v ys)
  unfolding undo_txs
  undo_txs-append o [] ys = refl
  undo_txs-append o (t ∷ xs) ys =
      >>=-cong (undo_tx x g s o t) _ _ (λ v. undo_txs-append v xs ys)
      ∙ sym (>>=-assoc (undo_tx x g s o t) (λ v. undo_txs x g s v xs) (λ v. undo_txs x g s v ys))

  -- Undoing from any overlay that shows what `o'` shows gives one that shows what `o` shows.
  abbrev Undoes : (Overlay → Result Overlay) → Overlay → Overlay → Type 0
  Undoes undo o' o =
      (p : Overlay) → SameView x g s p o' → (q : Overlay) × (undo p ≡ ok q) × SameView x g s q o

  apply_txs-rollback :
      (o o' : Overlay) (txs : List Transaction) (n k : ℕ)
      → apply_txs x g s o txs ≡ ok o'
      → Headroom x g s o (n + amounts txs) (k + length txs)
      → Headroom x g s o' n k × Undoes (λ p. undo_txs x g s p (reverse txs)) o' o
  unfolding apply_txs undo_txs
  apply_txs-rollback o o' [] n k e room = (
    subst (λ v. Headroom x g s v n k) (ok-injective e) (weaken room),
    λ p same. (p, refl, λ a. same a ∙ ap (λ v. get_acc x g s v a) (sym (ok-injective e))),
  )
    where
      weaken : Headroom x g s o (n + 0) (k + 0) → Headroom x g s o n k
      weaken h = record {
        balance = λ b acc q. omega (arith, h.balance b acc q);
        nonce = λ b acc q. omega (arith, h.nonce b acc q);
      }
  apply_txs-rollback o o' (t ∷ ts) n k e room =
      let (o₁, first, rest) = >>=-eq-ok (apply_tx x g s o t) _ e in
      let applied = apply_tx-Applied x g s o o₁ t first in
      let room₀ : Headroom x g s o (n + amounts ts + t.amount) (k + length ts + 1) = record {
        balance = λ b acc q. omega (arith, room.balance b acc q);
        nonce = λ b acc q. omega (arith, room.nonce b acc q);
      } in
      let room₁ = apply_tx-Headroom x g s o o₁ t (n + amounts ts) (k + length ts) room₀ applied in
      let (room', undoes) = apply_txs-rollback o₁ o' ts n k rest room₁ in
      (
        room',
        λ p same.
            let (q₁, e₁, same₁) = undoes p same in
            let (q, e₂, same₂) =
              undo_tx-apply_tx x g s o o₁ t (n + amounts ts) (k + length ts) room₀ applied q₁
                same₁ in
            (
              q,
              ap (undo_txs x g s p) (reverse-cons t ts)
                  ∙ undo_txs-append p (reverse ts) (t ∷ [])
                  ∙ rw e₁ (rw e₂),
              same₂,
            ),
      )

  -- Taking back a payment that did not saturate.
  unpay :
      (o p : Overlay) (k : Address) (acc : Account) (amount : ℕ)
      → get_acc x g s o k ≡ ok acc
      → acc.balance + amount < max_u64
      → SameView x g s p (insert k (paid x g s acc amount) o)
      → (get_acc x g s p k ≡ ok (paid x g s acc amount))
        × SameView x g s
            (insert k
              (record (paid x g s acc amount) {
                balance = (paid x g s acc amount).balance - amount;
              })
              p)
            o
  unpay o p k acc amount shown room same = (
    same k ∙ get_acc-insert_self x g s k (paid x g s acc amount) o,
    λ b.
        insert-SameView x g s k unpaid p _ same b
        ∙ insert-insert x g s k (paid x g s acc amount) unpaid o b
        ∙ ap (λ v. get_acc x g s (insert k v o) b) exact
        ∙ insert_shown x g s k acc o shown b,
  )
    where
      unpaid : Account
      unpaid = record (paid x g s acc amount) { balance = (paid x g s acc amount).balance - amount }

      exact : unpaid ≡ acc
      exact =
          let e : unpaid.balance ≡ acc.balance = omega (arith, room) in
          λ i. record { balance = e i; nonce = acc.nonce }

  pub apply_block-rollback :
      (o o' : Overlay) (b : Block) (n k : ℕ)
      → apply_block x g s o b ≡ ok o'
      → Headroom x g s o
          (n + block_reward g b.header.height + amounts b.transactions)
          (k + length b.transactions)
      → Headroom x g s o' n k × Undoes (λ p. undo_block x g s p b) o' o
  unfolding apply_block undo_block
  apply_block-rollback o o' b n k e room =
      let reward = block_reward g b.header.height in
      let miner = b.header.miner in
      let (o₁, txs_ok, e₁) = >>=-eq-ok (apply_txs x g s o b.transactions) _ e in
      let (acc, shown, e₂) = >>=-eq-ok (get_acc x g s o₁ miner) _ e₁ in
      let left = ok-injective e₂ in
      let (room₁, undoes) = apply_txs-rollback o o₁ b.transactions (n + reward) k txs_ok room in
      let fits = room₁.balance miner acc shown in
      let less : Headroom x g s o₁ n k = record {
        balance = λ a v q. omega (arith, room₁.balance a v q);
        nonce = room₁.nonce;
      } in
      (
        subst (λ v. Headroom x g s v n k) left
            (insert-Headroom x g s o₁ n k miner (paid x g s acc reward) less (omega (arith, fits))
              (room₁.nonce miner acc shown)),
        λ p same.
            let (at_miner, same₁) =
              unpay o₁ p miner acc reward shown (omega (arith, fits))
                (λ a. same a ∙ ap (λ v. get_acc x g s v a) (sym left)) in
            let (q, e₃, same₂) = undoes _ same₁ in (q, rw at_miner e₃, same₂),
      )

  undo_all-append :
      (o : Overlay) (bs cs : List (Hash256 × Block))
      → undo_all x g s o (bs ++ cs) ≡ (undo_all x g s o bs >>= λ v. undo_all x g s v cs)
  unfolding undo_all
  undo_all-append o [] cs = refl
  undo_all-append o ((h, b) ∷ bs) cs =
      >>=-cong (undo_block x g s o b) _ _ (λ v. undo_all-append v bs cs)
      ∙ sym (>>=-assoc (undo_block x g s o b) (λ v. undo_all x g s v bs) (λ v. undo_all x g s v cs))

  apply_all-rollback :
      (o o' : Overlay) (bs : List (Hash256 × Block)) (n k : ℕ)
      → apply_all x g s o bs ≡ ok o'
      → Headroom x g s o (n + credits g bs) (k + transfers bs)
      → Undoes (λ p. undo_all x g s p (reverse bs)) o' o
  unfolding apply_all undo_all
  apply_all-rollback o o' [] n k e room p same =
      (p, refl, λ a. same a ∙ ap (λ v. get_acc x g s v a) (sym (ok-injective e)))
  apply_all-rollback o o' ((h, b) ∷ bs) n k e room p same =
      let (o₁, first, rest) = >>=-eq-ok (apply_block x g s o b) _ e in
      let reward = block_reward g b.header.height in
      let room₀ : Headroom x g s o (n + credits g bs + reward + amounts b.transactions)
          (k + transfers bs + length b.transactions) =
        record {
          balance = λ a v q. omega (arith, room.balance a v q);
          nonce = λ a v q. omega (arith, room.nonce a v q);
        } in
      let (room₁, undoes) =
        apply_block-rollback o o₁ b (n + credits g bs) (k + transfers bs) first room₀ in
      let (q₁, e₁, same₁) = apply_all-rollback o₁ o' bs n k rest room₁ p same in
      let (q, e₂, same₂) = undoes q₁ same₁ in
      (
        q,
        ap (undo_all x g s p) (reverse-cons (h, b) bs)
            ∙ undo_all-append p (reverse bs) ((h, b) ∷ [])
            ∙ rw e₁ (rw e₂),
        same₂,
      )

  -- Undoing a branch in a reorganization is the inverse of applying it: where every account has
  -- room for all that the branch credits and for all its transactions, a branch that was applied
  -- can be undone, from its last block to its first, and then every account shows what it showed
  -- before.
  pub undo_all-apply_all :
      (o o' : Overlay) (bs : List (Hash256 × Block))
      → apply_all x g s o bs ≡ ok o'
      → Headroom x g s o (credits g bs) (transfers bs)
      → (q : Overlay) × (undo_all x g s o' (reverse bs) ≡ ok q) × SameView x g s q o
  undo_all-apply_all o o' bs e room =
      let room₀ : Headroom x g s o (0 + credits g bs) (0 + transfers bs) = record {
        balance = λ a v q. omega (arith, room.balance a v q);
        nonce = λ a v q. omega (arith, room.nonce a v q);
      } in
      apply_all-rollback o o' bs 0 0 e room₀ o' (λ a. refl)
