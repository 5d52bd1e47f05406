-- ===== src/Chain/Ledger/Nonces.antt =====
-- The nonces of a branch that `reconsider_tip` of chain.rs applies.
use ondris.Prelude.{
  ℕ, zero, suc, ◌+◌, ◌≤◌, ◌<◌, ◌^◌, ◌≡◌, refl, sym, ◌∙◌, ap, subst, inl, inr, List, [], ◌∷◌, ◌++◌,
  length, length-append, bytes_eq, bytes_eq_sound, Bool-cases, if◌then◌else◌, ok, ok-injective,
  >>=-eq-ok, arith,
}
use ondris.Primitives.{Address, Hash256}
use ondris.Block.{Block, Transaction}
use ondris.State.{Externals, ChainState, Account}
use ondris.Chain.{GenesisConfig, block_reward}
use ondris.Chain.Ledger.{Overlay, insert, get_acc, apply_tx, apply_txs, apply_block, apply_all}
use ondris.Chain.Ledger.Views.{get_acc-insert}
use ondris.Chain.Ledger.Rollback.{Applied, apply_tx-Applied, charged, paid, sender_of}
use ondris.Chain.Ledger.Branches.{transfers}

-- The numbers n, n + 1, … of a length.
abbrev pub range : ℕ → ℕ → List ℕ
range n zero = []
range n (suc k) = n ∷ range (n + 1) k

range-add : (n j k : ℕ) → range n (j + k) ≡ range n j ++ range (n + j) k
range-add n zero k =
    let e : zero + k ≡ k = omega arith in
    let f : n ≡ n + zero = omega arith in ap (range n) e ∙ ap (λ m. range m k) f
range-add n (suc j) k =
    let e : suc j + k ≡ suc (j + k) = omega arith in
    let f : n + 1 + j ≡ n + suc j = omega arith in
    ap (range n) e
    ∙ ap (λ l. n ∷ l) (range-add (n + 1) j k ∙ ap (λ m. range (n + 1) j ++ range m k) f)

module _ {Tree : Type 0} (x : Externals Tree) (g : GenesisConfig) (s : ChainState Tree) where
  -- The nonces of the transactions that an address sends, in their order.
  abbrev pub nonces_of : Address → List Transaction → List ℕ
  nonces_of a [] = []
  nonces_of a (t ∷ ts) =
      if bytes_eq (sender_of x g s t) a then t.account_nonce ∷ nonces_of a ts else nonces_of a ts

  abbrev pub branch_nonces : Address → List (Hash256 × Block) → List ℕ
  branch_nonces a [] = []
  branch_nonces a ((_, b) ∷ bs) = nonces_of a b.transactions ++ branch_nonces a bs

  -- The nonces count up from what an overlay shows of the account to what another one does.
  abbrev pub Counts : Address → List ℕ → ℕ → Overlay → Type 0
  Counts a nonces n o' =
      (nonces ≡ range n (length nonces))
      × ((acc : Account) × (get_acc x g s o' a ≡ ok acc) × (acc.nonce ≡ n + length nonces))

  -- An account that is paid keeps its nonce, and so does every other.
  after_payment :
      (o : Overlay) (k a : Address) (was acc : Account) (amount : ℕ)
      → get_acc x g s o k ≡ ok was
      → get_acc x g s o a ≡ ok acc
      → (acc' : Account) × (get_acc x g s (insert k (paid x g s was amount) o) a ≡ ok acc')
        × (acc'.nonce ≡ acc.nonce)
  after_payment o k a was acc amount at shown = elim (Bool-cases (bytes_eq k a)) [
    | inl same ↦
        let one : was ≡ acc =
          ok-injective (sym at ∙ ap (get_acc x g s o) (bytes_eq_sound k a same) ∙ shown) in
        (
          paid x g s was amount,
          get_acc-insert x g s k (paid x g s was amount) o a ∙ rw same,
          ap (λ (v : Account). v.nonce) one,
        )
    | inr differ ↦ (acc, get_acc-insert x g s k (paid x g s was amount) o a ∙ rw differ shown, refl)
  ]

  -- The nonce of an account after a transaction.
  after_tx :
      (o o' : Overlay) (t : Transaction) (a : Address) (acc : Account)
      → Applied x g s o t o'
      → get_acc x g s o a ≡ ok acc
      → acc.nonce + 1 < 2 ^ 64
      → (nonces_of a (t ∷ []) ≡ range acc.nonce (length (nonces_of a (t ∷ []))))
        × ((acc' : Account) × (get_acc x g s o' a ≡ ok acc')
            × (acc'.nonce ≡ acc.nonce + length (nonces_of a (t ∷ []))))
  after_tx o o' t a acc d shown room =
      let sender = sender_of x g s t in
      let v = charged x g s d.sender t in
      elim (Bool-cases (bytes_eq sender a)) [
        | inl same ↦
            let one : d.sender ≡ acc =
              ok-injective (
                sym d.sender_shown ∙ ap (get_acc x g s o) (bytes_eq_sound sender a same) ∙ shown) in
            let count = ap (λ (w : Account). w.nonce) one in
            let (acc', there, kept) =
              after_payment (insert sender v o) t.recipient a d.recipient v t.amount
                d.recipient_shown (get_acc-insert x g s sender v o a ∙ rw same) in
            rw same (
              ap (λ n. n ∷ []) (d.expected_nonce ∙ count),
              (acc', ap (λ q. get_acc x g s q a) d.left ∙ there, omega (arith, kept, count, room)),
            )
        | inr differ ↦
            let (acc', there, kept) =
              after_payment (insert sender v o) t.recipient a d.recipient acc t.amount
                d.recipient_shown (get_acc-insert x g s sender v o a ∙ rw differ shown) in
            rw differ
              (refl, (acc', ap (λ q. get_acc x g s q a) d.left ∙ there, omega (arith, kept)))
      ]

  nonces_of-cons :
      (a : Address) (t : Transaction) (ts : List Transaction)
      → nonces_of a (t ∷ ts) ≡ nonces_of a (t ∷ []) ++ nonces_of a ts
  nonces_of-cons a t ts = elim (Bool-cases (bytes_eq (sender_of x g s t) a)) [
    | inl same ↦ rw same
    | inr differ ↦ rw differ
  ]

  length-nonces_of : (a : Address) (ts : List Transaction) → length (nonces_of a ts) ≤ length ts
  length-nonces_of a [] = omega arith
  length-nonces_of a (t ∷ ts) =
      let rest = length-nonces_of a ts in
      elim (Bool-cases (bytes_eq (sender_of x g s t) a)) [
        | inl same ↦ rw same (omega (arith, rest))
        | inr differ ↦ rw differ (omega (arith, rest))
      ]

  -- Two counts in a row.
  Counts-append :
      (a : Address) (ms ns : List ℕ) (n m : ℕ) (o : Overlay)
      → ms ≡ range n (length ms)
      → m ≡ n + length ms
      → Counts a ns m o
      → Counts a (ms ++ ns) n o
  Counts-append a ms ns n m o first at (second, (acc, shown, count)) = (
    ap (λ l. l ++ ns) first
        ∙ ap (λ l. range n (length ms) ++ l) (second ∙ ap (λ k. range k (length ns)) at)
        ∙ sym (range-add n (length ms) (length ns))
        ∙ ap (range n) (sym (length-append ms ns)),
    (acc, shown, omega (arith, count, at, length-append ms ns)),
  )

  nothing_counted :
      (o o' : Overlay) (a : Address) (acc : Account)
      → ok o ≡ ok o'
      → get_acc x g s o a ≡ ok acc
      → Counts a [] acc.nonce o'
  nothing_counted o o' a acc e shown =
      (refl, (acc, ap (λ q. get_acc x g s q a) (sym (ok-injective e)) ∙ shown, omega arith))

  apply_txs-Counts :
      (o o' : Overlay) (ts : List Transaction) (a : Address) (acc : Account)
      → apply_txs x g s o ts ≡ ok o'
      → get_acc x g s o a ≡ ok acc
      → acc.nonce + length ts < 2 ^ 64
      → Counts a (nonces_of a ts) acc.nonce o'
  unfolding apply_txs
  apply_txs-Counts o o' [] a acc e shown room = nothing_counted o o' a acc e shown
  apply_txs-Counts o o' (t ∷ ts) a acc e shown room =
      let (o₁, first, rest) = >>=-eq-ok (apply_tx x g s o t) _ e in
      let (one, (acc₁, shown₁, count₁)) =
        after_tx o o₁ t a acc (apply_tx-Applied x g s o o₁ t first) shown (omega (arith, room)) in
      let most = length-nonces_of a (t ∷ []) in
      let later =
        apply_txs-Counts o₁ o' ts a acc₁ rest shown₁ (omega (arith, count₁, most, room)) in
      subst (λ l. Counts a l acc.nonce o') (sym (nonces_of-cons a t ts))
        (Counts-append a (nonces_of a (t ∷ [])) (nonces_of a ts) acc.nonce acc₁.nonce o' one count₁
          later)

  apply_block-Counts :
      (o o' : Overlay) (b : Block) (a : Address) (acc : Account)
      → apply_block x g s o b ≡ ok o'
      → get_acc x g s o a ≡ ok acc
      → acc.nonce + length b.transactions < 2 ^ 64
      → Counts a (nonces_of a b.transactions) acc.nonce o'
  unfolding apply_block
  apply_block-Counts o o' b a acc e shown room =
      let (o₁, first, e₁) = >>=-eq-ok (apply_txs x g s o b.transactions) _ e in
      let (miner, at, e₂) = >>=-eq-ok (get_acc x g s o₁ b.header.miner) _ e₁ in
      let (one, (acc₁, shown₁, count₁)) =
        apply_txs-Counts o o₁ b.transactions a acc first shown room in
      let (acc', there, kept) =
        after_payment o₁ b.header.miner a miner acc₁ (block_reward g b.header.height) at shown₁ in
      (
        one,
        (
          acc',
          ap (λ q. get_acc x g s q a) (sym (ok-injective e₂)) ∙ there,
          omega (arith, kept, count₁),
        ),
      )

  -- In a branch that is applied, the nonces of the transactions of any account are, in their
  -- order, the numbers that follow one another from the nonce that the account has before the
  -- branch, and the account's nonce afterwards is the next one, as long as the nonces stay below
  -- 2^64. So no transaction is applied twice, and none out of its turn.
  pub apply_all-Counts :
      (o o' : Overlay) (bs : List (Hash256 × Block)) (a : Address) (acc : Account)
      → apply_all x g s o bs ≡ ok o'
      → get_acc x g s o a ≡ ok acc
      → acc.nonce + transfers bs < 2 ^ 64
      → Counts a (branch_nonces a bs) acc.nonce o'
  unfolding apply_all
  apply_all-Counts o o' [] a acc e shown room = nothing_counted o o' a acc e shown
  apply_all-Counts o o' ((h, b) ∷ bs) a acc e shown room =
      let (o₁, first, rest) = >>=-eq-ok (apply_block x g s o b) _ e in
      let (one, (acc₁, shown₁, count₁)) =
        apply_block-Counts o o₁ b a acc first shown (omega (arith, room)) in
      let most = length-nonces_of a b.transactions in
      let later =
        apply_all-Counts o₁ o' bs a acc₁ rest shown₁ (omega (arith, count₁, most, room)) in
      Counts-append a (nonces_of a b.transactions) (branch_nonces a bs) acc.nonce acc₁.nonce o' one
        count₁ later
