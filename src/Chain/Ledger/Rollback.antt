-- ===== src/Chain/Ledger/Rollback.antt =====
-- The rollback of transactions, in the overlay of `reconsider_tip` of chain.rs.
use ondris.Prelude.{
  ℕ, ◌+◌, ◌-◌, ◌≤◌, ◌<◌, ◌≡◌, sym, ◌∙◌, ap, subst, bytes_eq, Bool-cases, inl, inr, ok, arith, leb,
  leb→le, ◌==◌, ==→eq, >>=-eq-ok, ensure-eq-ok, ensure, bad_nonce, insufficient_balance,
}
use ondris.Primitives.{Address, to_address}
use ondris.Block.{Transaction}
use ondris.State.{Externals, ChainState, Account, saturating_add, max_u64}
use ondris.Chain.{GenesisConfig, add_u64}
use ondris.Chain.Ledger.{Overlay, insert, get_acc, undo_tx, apply_tx, sub_u64}
use ondris.Chain.Ledger.Views.{
  SameView, get_acc-insert, get_acc-insert_self, insert-SameView, insert-insert, insert_shown,
}

module _ {Tree : Type 0} (x : Externals Tree) (g : GenesisConfig) (s : ChainState Tree) where
  -- Every account has room for `n` more units and `k` more transactions in 64 bits.
  pub record Headroom (o : Overlay) (n k : ℕ) : Type 0 where
    pub balance :
        (a : Address) (acc : Account) → get_acc x g s o a ≡ ok acc → acc.balance + n < max_u64
    pub nonce : (a : Address) (acc : Account) → get_acc x g s o a ≡ ok acc → acc.nonce + k < max_u64

  -- An insertion of an account with room keeps the room.
  pub insert-Headroom :
      (o : Overlay) (n k : ℕ) (a : Address) (v : Account)
      → Headroom o n k
      → v.balance + n < max_u64
      → v.nonce + k < max_u64
      → Headroom (insert a v o) n k
  insert-Headroom o n k a v h hb hn = record {
    balance = λ b acc e. elim (Bool-cases (bytes_eq a b)) [
      | inl same ↦
          let found : ok v ≡ ok acc = sym (get_acc-insert x g s a v o b ∙ rw same) ∙ e in
          ground arith
      | inr differ ↦ h.balance b acc (sym (get_acc-insert x g s a v o b ∙ rw differ) ∙ e)
    ];
    nonce = λ b acc e. elim (Bool-cases (bytes_eq a b)) [
      | inl same ↦
          let found : ok v ≡ ok acc = sym (get_acc-insert x g s a v o b ∙ rw same) ∙ e in
          ground arith
      | inr differ ↦ h.nonce b acc (sym (get_acc-insert x g s a v o b ∙ rw differ) ∙ e)
    ];
  }

  -- The account of the sender after a transaction is applied, and that of the recipient.
  abbrev pub charged : Account → Transaction → Account
  charged acc tx = record {
    balance = sub_u64 acc.balance (add_u64 tx.amount tx.fee);
    nonce = add_u64 acc.nonce 1;
  }

  abbrev pub paid : Account → ℕ → Account
  paid acc amount = record acc { balance = saturating_add acc.balance amount }

  abbrev pub sender_of : Transaction → Address
  sender_of tx = to_address x.blake3 tx.sender

  -- What a transaction that was applied found and left.
  pub record Applied (o : Overlay) (tx : Transaction) (o' : Overlay) : Type 0 where
    pub sender : Account
    pub recipient : Account
    pub sender_shown : get_acc x g s o (sender_of tx) ≡ ok sender
    pub expected_nonce : tx.account_nonce ≡ sender.nonce
    pub covered : saturating_add tx.amount tx.fee ≤ sender.balance
    pub recipient_shown :
        get_acc x g s (insert (sender_of tx) (charged sender tx) o) tx.recipient ≡ ok recipient
    pub left :
        o'
        ≡ insert tx.recipient
            (paid recipient tx.amount)
            (insert (sender_of tx) (charged sender tx) o)

  pub apply_tx-Applied :
      (o o' : Overlay) (tx : Transaction) → apply_tx x g s o tx ≡ ok o' → Applied o tx o'
  unfolding apply_tx
  apply_tx-Applied o o' tx e =
      let (sa, shown, e₁) = >>=-eq-ok (get_acc x g s o (sender_of tx)) _ e in
      let (u, nonce_ok, e₂) = >>=-eq-ok (ensure (tx.account_nonce == sa.nonce) bad_nonce) _ e₁ in
      let (v, covered, e₃) =
        >>=-eq-ok (ensure (leb (saturating_add tx.amount tx.fee) sa.balance) insufficient_balance) _
          e₂ in
      let (ta, shown', e₄) =
        >>=-eq-ok (get_acc x g s (insert (sender_of tx) (charged sa tx) o) tx.recipient) _ e₃ in
      record {
        sender = sa;
        recipient = ta;
        sender_shown = shown;
        expected_nonce = ==→eq tx.account_nonce sa.nonce (ensure-eq-ok _ _ nonce_ok);
        covered = leb→le _ sa.balance (ensure-eq-ok _ _ covered);
        recipient_shown = shown';
        left = cc;
      }

  -- Within the room, the arithmetic of an applied transaction is exact, and undone exactly.
  charged_exact :
      (acc : Account) (tx : Transaction)
      → saturating_add tx.amount tx.fee ≤ acc.balance
      → acc.balance < max_u64
      → acc.nonce + 1 < max_u64
      → ((charged acc tx).balance ≤ acc.balance)
        × ((charged acc tx).nonce ≡ acc.nonce + 1)
        × (saturating_add (charged acc tx).balance (add_u64 tx.amount tx.fee) ≡ acc.balance)
        × ((charged acc tx).nonce - 1 ≡ acc.nonce)
  charged_exact acc tx covered hb hn = omega arith

  module _ (o o' : Overlay) (tx : Transaction) (n k : ℕ) (room : Headroom o (n + tx.amount) (k + 1))
      (a : Applied o tx o') where
    during : Overlay
    during = insert (sender_of tx) (charged a.sender tx) o

    sender_exact :
        ((charged a.sender tx).balance ≤ a.sender.balance)
        × ((charged a.sender tx).nonce ≡ a.sender.nonce + 1)
        × (saturating_add (charged a.sender tx).balance (add_u64 tx.amount tx.fee)
            ≡ a.sender.balance)
        × ((charged a.sender tx).nonce - 1 ≡ a.sender.nonce)
    sender_exact =
        let hb = room.balance (sender_of tx) a.sender a.sender_shown in
        let hn = room.nonce (sender_of tx) a.sender a.sender_shown in
        charged_exact a.sender tx a.covered (omega (arith, hb)) (omega (arith, hn))

    room_during : Headroom during (n + tx.amount) k
    unfolding during
    room_during =
        let hb = room.balance (sender_of tx) a.sender a.sender_shown in
        let hn = room.nonce (sender_of tx) a.sender a.sender_shown in
        let looser : Headroom o (n + tx.amount) k = record {
          balance = room.balance;
          nonce = λ b acc e. omega (arith, room.nonce b acc e);
        } in
        insert-Headroom o (n + tx.amount) k (sender_of tx) (charged a.sender tx) looser
          (omega (arith, sender_exact, hb)) (omega (arith, sender_exact, hn))

    -- The recipient is paid without saturation, and the room that is left is as promised.
    recipient_exact : a.recipient.balance + tx.amount + n < max_u64
    unfolding during
    recipient_exact = omega (arith, room_during.balance tx.recipient a.recipient a.recipient_shown)

    pub apply_tx-Headroom : Headroom o' n k
    unfolding during
    apply_tx-Headroom =
        let less : Headroom during n k = record {
          balance = λ b acc e. omega (arith, room_during.balance b acc e);
          nonce = room_during.nonce;
        } in
        let hn = room_during.nonce tx.recipient a.recipient a.recipient_shown in
        subst (λ v. Headroom v n k) (sym a.left)
          (insert-Headroom during n k tx.recipient (paid a.recipient tx.amount) less
            (omega (arith, recipient_exact)) hn)

    pub undo_tx-apply_tx :
        (p : Overlay)
        → SameView x g s p o'
        → (q : Overlay) × (undo_tx x g s p tx ≡ ok q) × SameView x g s q o
    unfolding undo_tx during
    undo_tx-apply_tx p same =
        (insert (sender_of tx) refunded taken, rw at_recipient (rw at_sender), same_as_before)
      where
        paid_account : Account
        paid_account = paid a.recipient tx.amount

        at_recipient : get_acc x g s p tx.recipient ≡ ok paid_account
        at_recipient =
            same tx.recipient
            ∙ ap (λ v. get_acc x g s v tx.recipient) a.left
            ∙ get_acc-insert_self x g s tx.recipient paid_account during

        unpaid : Account
        unpaid = record paid_account { balance = paid_account.balance - tx.amount }

        unpaid_exact : unpaid ≡ a.recipient
        unpaid_exact =
            let e : unpaid.balance ≡ a.recipient.balance = omega (arith, recipient_exact) in
            λ i. record { balance = e i; nonce = a.recipient.nonce }

        taken : Overlay
        taken = insert tx.recipient unpaid p

        taken_same : SameView x g s taken during
        taken_same b =
            insert-SameView x g s tx.recipient unpaid p o' same b
            ∙ ap (λ v. get_acc x g s (insert tx.recipient unpaid v) b) a.left
            ∙ insert-insert x g s tx.recipient paid_account unpaid during b
            ∙ ap (λ v. get_acc x g s (insert tx.recipient v during) b) unpaid_exact
            ∙ insert_shown x g s tx.recipient a.recipient during a.recipient_shown b

        at_sender : get_acc x g s taken (sender_of tx) ≡ ok (charged a.sender tx)
        at_sender =
            taken_same (sender_of tx)
            ∙ get_acc-insert_self x g s (sender_of tx) (charged a.sender tx) o

        refunded : Account
        refunded = record {
          balance = saturating_add (charged a.sender tx).balance (add_u64 tx.amount tx.fee);
          nonce = (charged a.sender tx).nonce - 1;
        }

        refunded_exact : refunded ≡ a.sender
        refunded_exact = λ i. record { balance = sender_exact.2 i; nonce = sender_exact.3 i }

        same_as_before : SameView x g s (insert (sender_of tx) refunded taken) o
        same_as_before b =
            insert-SameView x g s (sender_of tx) refunded taken during taken_same b
            ∙ insert-insert x g s (sender_of tx) (charged a.sender tx) refunded o b
            ∙ ap (λ v. get_acc x g s (insert (sender_of tx) v o) b) refunded_exact
            ∙ insert_shown x g s (sender_of tx) a.sender o a.sender_shown b
