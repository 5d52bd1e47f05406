-- ===== src/Chain/Reorg/Requeue.antt =====
-- The transactions that `reconsider_tip` of chain.rs returns.
use mathlib.Core.List.{reverse-cons, reverse-reverse}
use ondris.Prelude.{
  ℕ, ◌≡◌, ◌≢◌, ◌↔◌, refl, sym, ◌∙◌, ap, subst, ◌⊎◌, inl, inr, Among, at_head, in_tail, some, List,
  [], ◌∷◌, ◌++◌, map, reverse, true, false, bytes_eq, bytes_eq_sound, bytes_eq_refl, Bool-cases, ok,
  arith,
}
use ondris.Primitives.{Hash256}
use ondris.Block.{Transaction, tx_hash}
use ondris.State.{Externals, tip}
use ondris.State.Reads.{ExternalsLaws}
use ondris.Chain.{Chain}
use ondris.Chain.Fork.{BlockChain}
use ondris.Chain.Fork.Paths.{Down, fork_paths-Meets}
use ondris.Chain.Reorg.{contains, displaced, requeue, tx_hashes, branch_hashes, reconsider_tip}
use ondris.Chain.Reorg.Commit.{reconsider_tip_atomic, tip-commit}

Among-append {ℓ} :
    {A : Type ℓ} (a : A) (xs ys : List A) → Among a (xs ++ ys) ↔ (Among a xs ⊎ Among a ys)
Among-append {A = A} a xs ys = (split xs, λ e. elim e [ inl h ↦ left xs h | inr h ↦ right xs h ])
  where
    split : (zs : List A) → Among a (zs ++ ys) → Among a zs ⊎ Among a ys
    split [] h = inr h
    split (z ∷ zs) (at_head e) = inl (at_head e)
    split (z ∷ zs) (in_tail h) = elim (split zs h) [ inl q ↦ inl (in_tail q) | inr q ↦ inr q ]

    left : (zs : List A) → Among a zs → Among a (zs ++ ys)
    left [] h = elim h [ ]
    left (z ∷ zs) (at_head e) = at_head e
    left (z ∷ zs) (in_tail h) = in_tail (left zs h)

    right : (zs : List A) → Among a ys → Among a (zs ++ ys)
    right [] h = h
    right (z ∷ zs) h = in_tail (right zs h)

contains-Among : (ks : List Hash256) (k : Hash256) → contains ks k ≡ true → Among k ks
unfolding contains
contains-Among [] k e = cc e
contains-Among (h ∷ ks) k e = elim (Bool-cases (bytes_eq h k)) [
  | inl same ↦ at_head (sym (bytes_eq_sound h k same))
  | inr other ↦ in_tail (contains-Among ks k (ground (arith, e, other)))
]

Among-contains : (ks : List Hash256) (k : Hash256) → Among k ks → contains ks k ≡ true
unfolding contains
Among-contains [] k m = elim m [ ]
Among-contains (h ∷ ks) k (at_head e) =
    let same : bytes_eq h k ≡ true = ap (bytes_eq h) e ∙ bytes_eq_refl h in rw same
Among-contains (h ∷ ks) k (in_tail q) = ground (arith, Among-contains ks k q)

-- A transaction of one of the blocks.
abbrev pub In : Transaction → BlockChain → Type 0
In t [] = ⊥
In t ((_, b) ∷ bs) = Among t b.transactions ⊎ In t bs

In-append : (t : Transaction) (bs cs : BlockChain) → In t (bs ++ cs) ↔ (In t bs ⊎ In t cs)
In-append t bs cs = (split bs, λ e. elim e [ inl h ↦ left bs h | inr h ↦ right bs h ])
  where
    split : (ds : BlockChain) → In t (ds ++ cs) → In t ds ⊎ In t cs
    split [] h = inr h
    split ((k, b) ∷ ds) (inl m) = inl (inl m)
    split ((k, b) ∷ ds) (inr h) = elim (split ds h) [ inl q ↦ inl (inr q) | inr q ↦ inr q ]

    left : (ds : BlockChain) → In t ds → In t (ds ++ cs)
    left [] h = elim h [ ]
    left ((k, b) ∷ ds) (inl m) = inl m
    left ((k, b) ∷ ds) (inr h) = inr (left ds h)

    right : (ds : BlockChain) → In t cs → In t (ds ++ cs)
    right [] h = h
    right ((k, b) ∷ ds) h = inr (right ds h)

reverse-In : (t : Transaction) (bs : BlockChain) → In t bs → In t (reverse bs)
reverse-In t [] h = elim h [ ]
reverse-In t ((k, b) ∷ bs) h = subst (In t) (sym (reverse-cons (k, b) bs)) (
    (In-append t (reverse bs) ((k, b) ∷ [])).1
      (elim h [ inl m ↦ inr (inl m) | inr q ↦ inl (reverse-In t bs q) ]))

In-reverse : (t : Transaction) (bs : BlockChain) → In t (reverse bs) → In t bs
In-reverse t bs h = subst (In t) (reverse-reverse bs) (reverse-In t (reverse bs) h)

module _ {Tree : Type 0} (x : Externals Tree) where
  abbrev pub id_of : Transaction → Hash256
  id_of = tx_hash x.blake3 x.tx_json

  Among-tx_hashes :
      (k : Hash256) (txs : List Transaction)
      → Among k (tx_hashes x txs) ↔ ((t : Transaction) × Among t txs × (id_of t ≡ k))
  unfolding tx_hashes
  Among-tx_hashes k txs = (to txs, from txs)
    where
      to :
          (ts : List Transaction)
          → Among k (map id_of ts)
          → (t : Transaction) × Among t ts × (id_of t ≡ k)
      to [] m = elim m [ ]
      to (t ∷ ts) (at_head e) = (t, at_head refl, sym e)
      to (t ∷ ts) (in_tail h) = let (u, q, e) = to ts h in (u, in_tail q, e)

      from :
          (ts : List Transaction)
          → (t : Transaction) × Among t ts × (id_of t ≡ k)
          → Among k (map id_of ts)
      from [] (t, m, same) = elim m [ ]
      from (u ∷ ts) (t, at_head e, same) = at_head (sym same ∙ ap id_of e)
      from (u ∷ ts) (t, in_tail h, same) = in_tail (from ts (t, h, same))

  Among-branch_hashes :
      (k : Hash256) (bs : BlockChain)
      → Among k (branch_hashes x bs) ↔ ((t : Transaction) × In t bs × (id_of t ≡ k))
  unfolding branch_hashes
  Among-branch_hashes k bs = (to bs, from bs)
    where
      to :
          (cs : BlockChain)
          → Among k (branch_hashes x cs)
          → (t : Transaction) × In t cs × (id_of t ≡ k)
      to [] m = elim m [ ]
      to ((h, b) ∷ cs) m =
          elim ((Among-append k (tx_hashes x b.transactions) (branch_hashes x cs)).0 m) [
            | inl q ↦ let (t, i, e) = (Among-tx_hashes k b.transactions).0 q in (t, inl i, e)
            | inr q ↦ let (t, i, e) = to cs q in (t, inr i, e)
          ]

      from :
          (cs : BlockChain)
          → (t : Transaction) × In t cs × (id_of t ≡ k)
          → Among k (branch_hashes x cs)
      from [] (t, i, e) = elim i [ ]
      from ((h, b) ∷ cs) (t, inl i, e) =
          (Among-append k (tx_hashes x b.transactions) (branch_hashes x cs)).1
            (inl ((Among-tx_hashes k b.transactions).1 (t, i, e)))
      from ((h, b) ∷ cs) (t, inr i, e) =
          (Among-append k (tx_hashes x b.transactions) (branch_hashes x cs)).1
            (inr (from cs (t, i, e)))

  module _ (applied : List Hash256) (t : Transaction) where
    -- Its hash is not one of those.
    abbrev Left : Type 0
    Left = contains applied (id_of t) ≡ false

    kept-Among :
        (u : Transaction) (txs : List Transaction)
        → (Among t (displaced x applied txs) → Among t txs × Left)
        → contains applied (id_of u) ≡ false
        → Among t (u ∷ displaced x applied txs)
        → Among t (u ∷ txs) × Left
    kept-Among u txs rest stays (at_head e) =
        (at_head e, ap (λ v. contains applied (id_of v)) e ∙ stays)
    kept-Among u txs rest stays (in_tail h) = let (q, left) = rest h in (in_tail q, left)

    displaced-Among :
        (txs : List Transaction) → Among t (displaced x applied txs) → Among t txs × Left
    unfolding displaced
    displaced-Among [] m = elim m [ ]
    displaced-Among (u ∷ txs) m = elim (Bool-cases (contains applied (id_of u))) [
      | inl gone ↦
          let (q, left) = displaced-Among txs (subst (Among t) (rw gone refl) m) in
          (in_tail q, left)
      | inr stays ↦ kept-Among u txs (displaced-Among txs) stays (subst (Among t) (rw stays refl) m)
    ]

    Among-displaced :
        (txs : List Transaction) → Among t txs → Left → Among t (displaced x applied txs)
    unfolding displaced
    Among-displaced [] m left = elim m [ ]
    Among-displaced (u ∷ txs) (at_head e) left =
        let stays : contains applied (id_of u) ≡ false =
          ap (λ v. contains applied (id_of v)) (sym e) ∙ left in
        rw stays (at_head e)
    Among-displaced (u ∷ txs) (in_tail h) left = elim (Bool-cases (contains applied (id_of u))) [
      | inl gone ↦ rw gone (Among-displaced txs h left)
      | inr stays ↦ rw stays (in_tail (Among-displaced txs h left))
    ]

    requeue-Among : (bs : BlockChain) → Among t (requeue x applied bs) → In t bs × Left
    unfolding requeue
    requeue-Among [] m = elim m [ ]
    requeue-Among ((h, b) ∷ bs) m =
        elim ((Among-append t (displaced x applied b.transactions) (requeue x applied bs)).0 m) [
          | inl q ↦ let (i, left) = displaced-Among b.transactions q in (inl i, left)
          | inr q ↦ let (i, left) = requeue-Among bs q in (inr i, left)
        ]

    Among-requeue : (bs : BlockChain) → In t bs → Left → Among t (requeue x applied bs)
    unfolding requeue
    Among-requeue [] i left = elim i [ ]
    Among-requeue ((h, b) ∷ bs) (inl i) left =
        (Among-append t (displaced x applied b.transactions) (requeue x applied bs)).1
          (inl (Among-displaced b.transactions i left))
    Among-requeue ((h, b) ∷ bs) (inr i) left =
        (Among-append t (displaced x applied b.transactions) (requeue x applied bs)).1
          (inr (Among-requeue bs i left))

  -- A reorganization that succeeds ends at the new tip, and what it returns is for the mempool: for
  -- two branches down from the old and the new tip to one common block, each of stored blocks that
  -- are linked by `prev_hash`, a transaction is returned exactly if it is on the old one and none on
  -- the new one has its hash.
  pub reconsider_tip_returns :
      ExternalsLaws x
      → (old_tip new_tip : Hash256) (height : ℕ) (c c' : Chain Tree) (out : List Transaction)
      → reconsider_tip x old_tip new_tip height c ≡ (ok out, c')
      → (tip x c'.state ≡ ok (some (height, new_tip)))
        × ((old_branch : BlockChain) × (new_branch : BlockChain) × (common : Hash256) × Down x
              c.state old_tip old_branch common
            × Down x c.state new_tip new_branch common
            × ((t : Transaction)
                → Among t out
                  ↔ (In t old_branch × ((u : Transaction) → In u new_branch → id_of u ≢ id_of t))))
  reconsider_tip_returns laws old_tip new_tip height c c' out e =
      elim (reconsider_tip_atomic x old_tip new_tip height c) [
        | inl (failure, same) ↦ cc (same, e)
        | inr (out', d, done, re) ↦
            let same_out : out' ≡ out = cc (done, e) in
            let same_chain : d ≡ c' = cc (done, e) in
            let (a, down, up) =
              fork_paths-Meets x c.state old_tip new_tip re.undo re.apply re.paths in
            let hashes = branch_hashes x re.apply in
            let returned : out ≡ requeue x hashes re.undo = sym same_out ∙ re.displaced in
            (
              ap (λ (v : Chain Tree). tip x v.state) (sym same_chain ∙ re.written)
                  ∙ tip-commit x laws re.overlay re.undo re.apply height new_tip c.state,
              (
                re.undo,
                reverse re.apply,
                a,
                down,
                up,
                λ t. (
                  λ m.
                      let (i, left) = requeue-Among hashes t re.undo (subst (Among t) returned m) in
                      (
                        i,
                        λ u j q.
                            let known = Among-contains hashes (id_of t) (
                              (Among-branch_hashes (id_of t) re.apply).1
                                (u, In-reverse u re.apply j, q)) in
                            absurd (ground (arith, known, left)),
                      ),
                  λ (i, apart).
                      subst (Among t) (sym returned)
                        (Among-requeue hashes t re.undo i (left_out t re.apply apart)),
                ),
              ),
            )
      ]
    where
      left_out :
          (t : Transaction) (apply : BlockChain)
          → ((u : Transaction) → In u (reverse apply) → id_of u ≢ id_of t)
          → contains (branch_hashes x apply) (id_of t) ≡ false
      left_out t apply apart = elim (Bool-cases (contains (branch_hashes x apply) (id_of t))) [
        | inr left ↦ left
        | inl known ↦
            let (u, i, e) =
              (Among-branch_hashes (id_of t) apply).0
                (contains-Among (branch_hashes x apply) (id_of t) known) in
            absurd (apart u (reverse-In u apply i) e)
      ]
