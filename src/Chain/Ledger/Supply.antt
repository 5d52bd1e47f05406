-- ===== src/Chain/Ledger/Supply.antt =====
-- The coins of a branch that `reconsider_tip` of chain.rs applies.
use ondris.Prelude.{
  ℕ, ◌+◌, ◌≤◌, ◌<◌, ◌≡◌, refl, sym, ◌∙◌, ap, subst, ◌⊎◌, inl, inr, List, [], ◌∷◌, bytes_eq,
  bytes_eq_sound, true, false, Result, ok, err, ok-injective, >>=-eq-ok, All, arith,
}
use ondris.Primitives.{Address, Hash256}
use ondris.Block.{Block, Transaction}
use ondris.State.{Externals, ChainState, Account, saturating_add, max_u64}
use ondris.Chain.{GenesisConfig, block_reward}
use ondris.Chain.Ledger.{Overlay, insert, get_acc, apply_tx, apply_txs, apply_block, apply_all}
use ondris.Chain.Ledger.Views.{get_acc-insert}
use ondris.Chain.Ledger.Rollback.{apply_tx-Applied, charged, paid, sender_of}

-- An address is none of a list, and is one of it.
abbrev pub Apart : Address → List Address → Type 0
Apart k l = All (λ a. bytes_eq k a ≡ false) l

abbrev pub Has : Address → List Address → Type 0
Has k [] = ⊥
Has k (a ∷ l) = (bytes_eq k a ≡ true) ⊎ ((bytes_eq k a ≡ false) × Has k l)

abbrev pub IsDistinct : List Address → Type 0
IsDistinct [] = Unit
IsDistinct (a ∷ l) = Apart a l × IsDistinct l

-- The fees and the rewards of a branch.
abbrev pub fees : List Transaction → ℕ
fees [] = 0
fees (t ∷ ts) = t.fee + fees ts

abbrev pub branch_fees : List (Hash256 × Block) → ℕ
branch_fees [] = 0
branch_fees ((_, b) ∷ bs) = fees b.transactions + branch_fees bs

abbrev pub rewards : GenesisConfig → List (Hash256 × Block) → ℕ
rewards g [] = 0
rewards g ((_, b) ∷ bs) = block_reward g b.header.height + rewards g bs

abbrev pub balance : Result Account → ℕ
balance (ok acc) = acc.balance
balance (err e) = 0

module _ {Tree : Type 0} (x : Externals Tree) (g : GenesisConfig) (s : ChainState Tree) where
  -- What the accounts of a list hold in all.
  abbrev pub supply : List Address → Overlay → ℕ
  supply [] o = 0
  supply (a ∷ l) o = balance (get_acc x g s o a) + supply l o

  supply-insert_elsewhere :
      (k : Address) (v : Account) (o : Overlay) (l : List Address)
      → Apart k l
      → supply l (insert k v o) ≡ supply l o
  supply-insert_elsewhere k v o [] h = refl
  supply-insert_elsewhere k v o (a ∷ l) h =
      let here : get_acc x g s (insert k v o) a ≡ get_acc x g s o a =
        get_acc-insert x g s k v o a ∙ rw h.0 in
      omega (arith, ap balance here, supply-insert_elsewhere k v o l h.1)

  supply-insert :
      (k : Address) (v was : Account) (o : Overlay) (l : List Address)
      → IsDistinct l
      → Has k l
      → get_acc x g s o k ≡ ok was
      → supply l (insert k v o) + was.balance ≡ supply l o + v.balance
  supply-insert k v was o [] d has shown = elim has [ ]
  supply-insert k v was o (a ∷ l) d (inl same) shown =
      let one = bytes_eq_sound k a same in
      let now : get_acc x g s (insert k v o) a ≡ ok v = get_acc-insert x g s k v o a ∙ rw same in
      let before : get_acc x g s o a ≡ ok was = ap (get_acc x g s o) (sym one) ∙ shown in
      let others = supply-insert_elsewhere k v o l (subst (λ b. Apart b l) (sym one) d.0) in
      omega (arith, ap balance now, ap balance before, others)
  supply-insert k v was o (a ∷ l) d (inr (differ, has)) shown =
      let here : get_acc x g s (insert k v o) a ≡ get_acc x g s o a =
        get_acc-insert x g s k v o a ∙ rw differ in
      omega (arith, ap balance here, supply-insert k v was o l d.1 has shown)

  balance-supply :
      (k : Address) (was : Account) (o : Overlay) (l : List Address)
      → Has k l
      → get_acc x g s o k ≡ ok was
      → was.balance ≤ supply l o
  balance-supply k was o [] has shown = elim has [ ]
  balance-supply k was o (a ∷ l) (inl same) shown =
      let before = ap (get_acc x g s o) (sym (bytes_eq_sound k a same)) ∙ shown in
      omega (arith, ap balance before)
  balance-supply k was o (a ∷ l) (inr (differ, has)) shown =
      omega (arith, balance-supply k was o l has shown)

  -- Below the last number of 64 bits, a payment is exact.
  supply-paid :
      (k : Address) (was : Account) (amount : ℕ) (o : Overlay) (l : List Address)
      → IsDistinct l
      → Has k l
      → get_acc x g s o k ≡ ok was
      → supply l o + amount < max_u64
      → supply l (insert k (paid x g s was amount) o) ≡ supply l o + amount
  supply-paid k was amount o l d has shown room = omega (
    arith,
    supply-insert k (paid x g s was amount) was o l d has shown,
    balance-supply k was o l has shown,
    room,
  )

  charged_exact :
      (acc : Account) (t : Transaction)
      → saturating_add t.amount t.fee ≤ acc.balance
      → acc.balance < max_u64
      → (charged x g s acc t).balance + t.amount + t.fee ≡ acc.balance
  charged_exact acc t covered small = omega arith

  -- The parties of a transaction and of a branch are in a list.
  abbrev pub Pays : List Address → Transaction → Type 0
  Pays l t = Has (sender_of x g s t) l × Has t.recipient l

  abbrev pub Covers : List Address → List (Hash256 × Block) → Type 0
  Covers l = All λ p. All (Pays l) p.1.transactions × Has p.1.header.miner l

  supply-apply_tx :
      (o o' : Overlay) (t : Transaction) (l : List Address)
      → IsDistinct l
      → Pays l t
      → apply_tx x g s o t ≡ ok o'
      → supply l o < max_u64
      → supply l o' + t.fee ≡ supply l o
  supply-apply_tx o o' t l d (from, to) e small =
      let a = apply_tx-Applied x g s o o' t e in
      let sender = sender_of x g s t in
      let v = charged x g s a.sender t in
      let held = balance-supply sender a.sender o l from a.sender_shown in
      let exact = charged_exact a.sender t a.covered (omega (arith, held, small)) in
      let taken = supply-insert sender v a.sender o l d from a.sender_shown in
      let given =
        supply-paid t.recipient a.recipient t.amount (insert sender v o) l d to a.recipient_shown
          (omega (arith, taken, exact, small)) in
      omega (arith, ap (supply l) a.left, given, taken, exact)

  supply-apply_txs :
      (o o' : Overlay) (ts : List Transaction) (l : List Address)
      → IsDistinct l
      → All (Pays l) ts
      → apply_txs x g s o ts ≡ ok o'
      → supply l o < max_u64
      → supply l o' + fees ts ≡ supply l o
  unfolding apply_txs
  supply-apply_txs o o' [] l d h e small = omega (arith, ap (supply l) (ok-injective e))
  supply-apply_txs o o' (t ∷ ts) l d h e small =
      let (o₁, first, rest) = >>=-eq-ok (apply_tx x g s o t) _ e in
      let one = supply-apply_tx o o₁ t l d h.0 first small in
      omega (arith, one, supply-apply_txs o₁ o' ts l d h.1 rest (omega (arith, one, small)))

  supply-apply_block :
      (o o' : Overlay) (b : Block) (l : List Address)
      → IsDistinct l
      → All (Pays l) b.transactions × Has b.header.miner l
      → apply_block x g s o b ≡ ok o'
      → supply l o + block_reward g b.header.height < max_u64
      → supply l o' + fees b.transactions ≡ supply l o + block_reward g b.header.height
  unfolding apply_block
  supply-apply_block o o' b l d (pays, mines) e small =
      let (o₁, first, e₁) = >>=-eq-ok (apply_txs x g s o b.transactions) _ e in
      let (acc, shown, e₂) = >>=-eq-ok (get_acc x g s o₁ b.header.miner) _ e₁ in
      let kept = supply-apply_txs o o₁ b.transactions l d pays first (omega (arith, small)) in
      let reward = block_reward g b.header.height in
      let given =
        supply-paid b.header.miner acc reward o₁ l d mines shown (omega (arith, kept, small)) in
      omega (arith, kept, given, ap (supply l) (ok-injective e₂))

  -- No coins are made but the rewards, and none are lost but the fees: for any list of distinct
  -- addresses that has all senders, recipients and miners of a branch, as long as what they hold
  -- with the rewards of the branch stays below the last number of 64 bits, applying the branch
  -- leaves them with what they held and its rewards, less its fees.
  pub supply-apply_all :
      (o o' : Overlay) (bs : List (Hash256 × Block)) (l : List Address)
      → IsDistinct l
      → Covers l bs
      → apply_all x g s o bs ≡ ok o'
      → supply l o + rewards g bs < max_u64
      → supply l o' + branch_fees bs ≡ supply l o + rewards g bs
  unfolding apply_all
  supply-apply_all o o' [] l d h e small = omega (arith, ap (supply l) (ok-injective e))
  supply-apply_all o o' ((k, b) ∷ bs) l d h e small =
      let (o₁, first, rest) = >>=-eq-ok (apply_block x g s o b) _ e in
      let one = supply-apply_block o o₁ b l d h.0 first (omega (arith, small)) in
      omega (arith, one, supply-apply_all o₁ o' bs l d h.1 rest (omega (arith, one, small)))
