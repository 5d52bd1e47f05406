-- ===== src/Chain/Ledger/Across.antt =====
-- Two overlays over two states that show the same accounts: the undoing and the application of
-- chain.rs take the same course on both.
use ondris.Prelude.{
  ◌-◌, ◌≡◌, refl, ◌∙◌, ap, [], ◌∷◌, List, reverse, leb, ◌==◌, Result, ok, ensure, bad_nonce,
  insufficient_balance, >>=-eq-ok, ok-injective, ◌>>=◌,
}
use ondris.Primitives.{Address, Hash256}
use ondris.Block.{Block, Transaction}
use ondris.State.{Externals, ChainState, Account, saturating_add}
use ondris.Chain.{GenesisConfig, block_reward, add_u64}
use ondris.Chain.Ledger.{
  Overlay, insert, get_acc, undo_tx, undo_txs, undo_block, undo_all, apply_tx, apply_txs,
  apply_block, apply_all,
}
use ondris.Chain.Ledger.Views.{get_acc-insert}
use ondris.Chain.Ledger.Rollback.{charged, paid, sender_of}

module _ {Tree : Type 0} (x : Externals Tree) (g : GenesisConfig) (s t : ChainState Tree) where
  -- The overlay `o` over `s` and the overlay `p` over `t` show the same accounts.
  abbrev pub Shows : Overlay → Overlay → Type 0
  Shows o p = (a : Address) → get_acc x g s o a ≡ get_acc x g t p a

  insert-Shows :
      (k : Address) (v : Account) (o p : Overlay) → Shows o p → Shows (insert k v o) (insert k v p)
  insert-Shows k v o p same a =
      rw (get_acc-insert x g s k v o a, get_acc-insert x g t k v p a, same a)

  -- What succeeds over `t` succeeds over `s`, and both show the same afterwards.
  abbrev pub Follows : (Overlay → Result Overlay) → (Overlay → Result Overlay) → Type 0
  Follows f h =
      (o p p' : Overlay) → Shows o p → h p ≡ ok p' → (o' : Overlay) × (f o ≡ ok o') × Shows o' p'

  ok-Follows : Follows ok ok
  ok-Follows o p p' same e = (o, refl, λ a. same a ∙ ap (λ q. get_acc x g t q a) (ok-injective e))

  -- One after the other.
  >>=-Follows :
      (f f' h h' : Overlay → Result Overlay)
      → Follows f h
      → Follows f' h'
      → Follows (λ o. f o >>= f') (λ p. h p >>= h')
  >>=-Follows f f' h h' one two o p p' same e =
      let (p₁, first, rest) = >>=-eq-ok (h p) h' e in
      let (o₁, e₁, same₁) = one o p p₁ same first in
      let (o', e₂, same₂) = two o₁ p₁ p' same₁ rest in (o', rw e₁ e₂, same₂)

  apply_tx-Follows :
      (tx : Transaction) → Follows (λ o. apply_tx x g s o tx) (λ p. apply_tx x g t p tx)
  unfolding apply_tx
  apply_tx-Follows tx o p p' same e =
      let sender = sender_of x g s tx in
      let (sa, shown, e₁) = >>=-eq-ok (get_acc x g t p sender) _ e in
      let (u, nonce_ok, e₂) = >>=-eq-ok (ensure (tx.account_nonce == sa.nonce) bad_nonce) _ e₁ in
      let (v, covered, e₃) =
        >>=-eq-ok (ensure (leb (saturating_add tx.amount tx.fee) sa.balance) insufficient_balance) _
          e₂ in
      let p₁ = insert sender (charged x g s sa tx) p in
      let (ta, shown', e₄) = >>=-eq-ok (get_acc x g t p₁ tx.recipient) _ e₃ in
      let same₁ = insert-Shows sender (charged x g s sa tx) o p same in
      (
        insert tx.recipient (paid x g s ta tx.amount) (insert sender (charged x g s sa tx) o),
        rw (same sender ∙ shown) (rw nonce_ok (rw covered (rw (same₁ tx.recipient ∙ shown')))),
        λ a.
            insert-Shows tx.recipient (paid x g s ta tx.amount) _ _ same₁ a
            ∙ ap (λ q. get_acc x g t q a) (ok-injective e₄),
      )

  apply_txs-Follows :
      (txs : List Transaction) → Follows (λ o. apply_txs x g s o txs) (λ p. apply_txs x g t p txs)
  unfolding apply_txs
  apply_txs-Follows [] = ok-Follows
  apply_txs-Follows (tx ∷ txs) =
      >>=-Follows (λ o. apply_tx x g s o tx) (λ o. apply_txs x g s o txs) (λ p. apply_tx x g t p tx)
        (λ p. apply_txs x g t p txs) (apply_tx-Follows tx) (apply_txs-Follows txs)

  apply_block-Follows :
      (b : Block) → Follows (λ o. apply_block x g s o b) (λ p. apply_block x g t p b)
  unfolding apply_block
  apply_block-Follows b o p p' same e =
      let (p₁, first, e₁) = >>=-eq-ok (apply_txs x g t p b.transactions) _ e in
      let (o₁, first', same₁) = apply_txs-Follows b.transactions o p p₁ same first in
      let (acc, shown, e₂) = >>=-eq-ok (get_acc x g t p₁ b.header.miner) _ e₁ in
      let v = paid x g s acc (block_reward g b.header.height) in
      (
        insert b.header.miner v o₁,
        rw first' (rw (same₁ b.header.miner ∙ shown)),
        λ a.
            insert-Shows b.header.miner v o₁ p₁ same₁ a
            ∙ ap (λ q. get_acc x g t q a) (ok-injective e₂),
      )

  pub apply_all-Follows :
      (bs : List (Hash256 × Block))
      → Follows (λ o. apply_all x g s o bs) (λ p. apply_all x g t p bs)
  unfolding apply_all
  apply_all-Follows [] = ok-Follows
  apply_all-Follows ((h, b) ∷ bs) =
      >>=-Follows (λ o. apply_block x g s o b) (λ o. apply_all x g s o bs)
        (λ p. apply_block x g t p b) (λ p. apply_all x g t p bs) (apply_block-Follows b)
        (apply_all-Follows bs)

  undo_tx-Follows : (tx : Transaction) → Follows (λ o. undo_tx x g s o tx) (λ p. undo_tx x g t p tx)
  unfolding undo_tx
  undo_tx-Follows tx o p p' same e =
      let (ta, shown, e₁) = >>=-eq-ok (get_acc x g t p tx.recipient) _ e in
      let taken : Account = record ta { balance = ta.balance - tx.amount } in
      let sender = sender_of x g s tx in
      let p₁ = insert tx.recipient taken p in
      let (sa, shown', e₂) = >>=-eq-ok (get_acc x g t p₁ sender) _ e₁ in
      let refunded : Account = record {
        balance = saturating_add sa.balance (add_u64 tx.amount tx.fee);
        nonce = sa.nonce - 1;
      } in
      let same₁ = insert-Shows tx.recipient taken o p same in
      (
        insert sender refunded (insert tx.recipient taken o),
        rw (same tx.recipient ∙ shown) (rw (same₁ sender ∙ shown')),
        λ a.
            insert-Shows sender refunded _ p₁ same₁ a
            ∙ ap (λ q. get_acc x g t q a) (ok-injective e₂),
      )

  undo_txs-Follows :
      (txs : List Transaction) → Follows (λ o. undo_txs x g s o txs) (λ p. undo_txs x g t p txs)
  unfolding undo_txs
  undo_txs-Follows [] = ok-Follows
  undo_txs-Follows (tx ∷ txs) =
      >>=-Follows (λ o. undo_tx x g s o tx) (λ o. undo_txs x g s o txs) (λ p. undo_tx x g t p tx)
        (λ p. undo_txs x g t p txs) (undo_tx-Follows tx) (undo_txs-Follows txs)

  undo_block-Follows : (b : Block) → Follows (λ o. undo_block x g s o b) (λ p. undo_block x g t p b)
  unfolding undo_block
  undo_block-Follows b o p p' same e =
      let (acc, shown, e₁) = >>=-eq-ok (get_acc x g t p b.header.miner) _ e in
      let v : Account = record acc { balance = acc.balance - block_reward g b.header.height } in
      let (o', rest, same') =
        undo_txs-Follows (reverse b.transactions) (insert b.header.miner v o)
          (insert b.header.miner v p) p' (insert-Shows b.header.miner v o p same) e₁ in
      (o', rw (same b.header.miner ∙ shown) rest, same')

  pub undo_all-Follows :
      (bs : List (Hash256 × Block)) → Follows (λ o. undo_all x g s o bs) (λ p. undo_all x g t p bs)
  unfolding undo_all
  undo_all-Follows [] = ok-Follows
  undo_all-Follows ((h, b) ∷ bs) =
      >>=-Follows (λ o. undo_block x g s o b) (λ o. undo_all x g s o bs) (λ p. undo_block x g t p b)
        (λ p. undo_all x g t p bs) (undo_block-Follows b) (undo_all-Follows bs)
