-- ===== src/Chain/Ledger/Keys.antt =====
-- The keys of an overlay: a map has one entry for each.
use ondris.Prelude.{
  ◌≡◌, refl, sym, ◌∙◌, ap, subst, none, List, [], ◌∷◌, reverse, false, bytes_eq, bytes_eq_sound,
  bytes_eq_of_eq, Bool-cases, inl, inr, Result, ok, ok-injective, >>=-eq-ok, ◌>>=◌,
}
use ondris.Primitives.{Address, Hash256}
use ondris.Block.{Block, Transaction}
use ondris.State.{Externals, ChainState, Account}
use ondris.Chain.{GenesisConfig}
use ondris.Chain.Ledger.{
  Overlay, lookup, insert, get_acc, undo_tx, undo_txs, undo_block, undo_all, apply_tx, apply_txs,
  apply_block, apply_all,
}
use ondris.Chain.Ledger.Views.{lookup-insert}
use ondris.Chain.Ledger.Rollback.{apply_tx-Applied}

abbrev pub IsMap : Overlay → Type 0
IsMap [] = Unit
IsMap ((k, v) ∷ o) = (lookup o k ≡ none) × IsMap o

insert-IsMap : (k : Address) (v : Account) (o : Overlay) → IsMap o → IsMap (insert k v o)
unfolding insert lookup
insert-IsMap k v [] h = (refl, tt)
insert-IsMap k v ((j, w) ∷ o) h = elim (Bool-cases (bytes_eq j k)) [
  | inl same ↦ rw same (ap (lookup o) (sym (bytes_eq_sound j k same)) ∙ h.0, h.1)
  | inr differ ↦ rw differ (lookup-insert k v o j ∙ rw (apart differ) h.0, insert-IsMap k v o h.1)
]
  where
    apart : bytes_eq j k ≡ false → bytes_eq k j ≡ false
    apart differ = elim (Bool-cases (bytes_eq k j)) [
      | inr miss ↦ miss
      | inl hit ↦ cc (bytes_eq_of_eq (sym (bytes_eq_sound k j hit)))
    ]

module _ {Tree : Type 0} (x : Externals Tree) (g : GenesisConfig) (s : ChainState Tree) where
  -- A step of the simulation leaves a map.
  abbrev Keeps : (Overlay → Result Overlay) → Type 0
  Keeps f = (o o' : Overlay) → IsMap o → f o ≡ ok o' → IsMap o'

  ok-Keeps : Keeps ok
  ok-Keeps o o' h e = subst IsMap (ok-injective e) h

  >>=-Keeps : (f f' : Overlay → Result Overlay) → Keeps f → Keeps f' → Keeps (λ o. f o >>= f')
  >>=-Keeps f f' one two o o' h e =
      let (p, first, rest) = >>=-eq-ok (f o) f' e in two p o' (one o p h first) rest

  undo_tx-Keeps : (tx : Transaction) → Keeps (λ o. undo_tx x g s o tx)
  unfolding undo_tx
  undo_tx-Keeps tx o o' h e =
      let (ta, _, e₁) = >>=-eq-ok (get_acc x g s o tx.recipient) _ e in
      let (sa, _, e₂) = >>=-eq-ok (get_acc x g s (insert tx.recipient _ o) _) _ e₁ in
      subst IsMap (ok-injective e₂) (insert-IsMap _ _ _ (insert-IsMap _ _ o h))

  undo_txs-Keeps : (txs : List Transaction) → Keeps (λ o. undo_txs x g s o txs)
  unfolding undo_txs
  undo_txs-Keeps [] = ok-Keeps
  undo_txs-Keeps (tx ∷ txs) =
      >>=-Keeps (λ o. undo_tx x g s o tx) (λ o. undo_txs x g s o txs) (undo_tx-Keeps tx)
        (undo_txs-Keeps txs)

  undo_all-Keeps : (bs : List (Hash256 × Block)) → Keeps (λ o. undo_all x g s o bs)
  unfolding undo_all undo_block
  undo_all-Keeps [] = ok-Keeps
  undo_all-Keeps ((_, b) ∷ bs) =
      >>=-Keeps (λ o. undo_block x g s o b) (λ o. undo_all x g s o bs)
        (λ o o' h e.
          let (acc, _, e₁) = >>=-eq-ok (get_acc x g s o b.header.miner) _ e in
          undo_txs-Keeps (reverse b.transactions) _ o' (insert-IsMap b.header.miner _ o h) e₁)
        (undo_all-Keeps bs)

  apply_txs-Keeps : (txs : List Transaction) → Keeps (λ o. apply_txs x g s o txs)
  unfolding apply_txs
  apply_txs-Keeps [] = ok-Keeps
  apply_txs-Keeps (tx ∷ txs) =
      >>=-Keeps (λ o. apply_tx x g s o tx) (λ o. apply_txs x g s o txs)
        (λ o o' h e.
          subst IsMap (sym (apply_tx-Applied x g s o o' tx e).left)
            (insert-IsMap _ _ _ (insert-IsMap _ _ o h)))
        (apply_txs-Keeps txs)

  apply_all-Keeps : (bs : List (Hash256 × Block)) → Keeps (λ o. apply_all x g s o bs)
  unfolding apply_all apply_block
  apply_all-Keeps [] = ok-Keeps
  apply_all-Keeps ((_, b) ∷ bs) =
      >>=-Keeps (λ o. apply_block x g s o b) (λ o. apply_all x g s o bs)
        (λ o o' h e.
          let (p, first, e₁) = >>=-eq-ok (apply_txs x g s o b.transactions) _ e in
          let (acc, _, e₂) = >>=-eq-ok (get_acc x g s p b.header.miner) _ e₁ in
          subst IsMap (ok-injective e₂)
            (insert-IsMap b.header.miner _ p (apply_txs-Keeps b.transactions o p h first)))
        (apply_all-Keeps bs)

  -- The simulation of a reorganization ends with a map.
  pub simulated-IsMap :
      (undo apply : List (Hash256 × Block)) (o : Overlay)
      → (undo_all x g s [] undo >>= λ p. apply_all x g s p apply) ≡ ok o
      → IsMap o
  simulated-IsMap undo apply o e =
      >>=-Keeps (λ p. undo_all x g s p undo) (λ p. apply_all x g s p apply) (undo_all-Keeps undo)
        (apply_all-Keeps apply) [] o tt e
