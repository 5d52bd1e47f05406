-- ===== src/Chain/Ledger/Holders.antt =====
-- A list of accounts, extended by the parties of the blocks that `reconsider_tip` of chain.rs applies.
use ondris.Prelude.{
  ◌≤◌, ◌⊎◌, inl, inr, List, [], ◌∷◌, ◌++◌, bytes_eq, bytes_eq_refl, Bool-cases, All, All-split,
  arith,
}
use ondris.Primitives.{Address, Hash256}
use ondris.Block.{Block, Transaction}
use ondris.State.{Externals, ChainState}
use ondris.Chain.{GenesisConfig}
use ondris.Chain.Ledger.{Overlay}
use ondris.Chain.Ledger.Rollback.{sender_of}
use ondris.Chain.Ledger.Supply.{Apart, Has, IsDistinct, Pays, Covers, supply}

Has-cases : (k : Address) (l : List Address) → Has k l ⊎ Apart k l
Has-cases k [] = inr tt
Has-cases k (a ∷ l) = elim (Bool-cases (bytes_eq k a)) [
  | inl same ↦ inl (inl same)
  | inr differ ↦ elim (Has-cases k l) [
    | inl has ↦ inl (inr (differ, has))
    | inr apart ↦ inr (differ, apart)
  ]
]

module _ {Tree : Type 0} (x : Externals Tree) (g : GenesisConfig) (s : ChainState Tree) where
  -- A list with all that another has, and with what it holds at least.
  record Extends (l l' : List Address) : Type 0 where
    pub distinct : IsDistinct l'
    pub keeps : (k : Address) → Has k l → Has k l'
    pub holds : (t : ChainState Tree) (o : Overlay) → supply x g t l o ≤ supply x g t l' o

  extend_one :
      (k : Address) (l : List Address)
      → IsDistinct l
      → (l' : List Address) × Extends l l' × Has k l'
  extend_one k l d = elim (Has-cases k l) [
    | inl has ↦ (l, record { distinct = d; keeps = λ q h. h; holds = λ t o. omega arith }, has)
    | inr apart ↦ (
      k ∷ l,
      record {
        distinct = (apart, d);
        keeps = λ q h. elim (Bool-cases (bytes_eq q k)) [
          | inl same ↦ inl same
          | inr differ ↦ inr (differ, h)
        ];
        holds = λ t o. omega arith;
      },
      inl (bytes_eq_refl k),
    )
  ]

  -- Every list of distinct addresses can be extended to have some others.
  extend :
      (ks l : List Address)
      → IsDistinct l
      → (l' : List Address) × Extends l l' × All (λ k. Has k l') ks
  extend [] l d = (l, record { distinct = d; keeps = λ q h. h; holds = λ t o. omega arith }, tt)
  extend (k ∷ ks) l d =
      let (l₁, e₁, has) = extend_one k l d in
      let (l', e', all) = extend ks l₁ e₁.distinct in
      (
        l',
        record {
          distinct = e'.distinct;
          keeps = λ q h. e'.keeps q (e₁.keeps q h);
          holds = λ t o. omega (arith, e₁.holds t o, e'.holds t o);
        },
        (e'.keeps k has, all),
      )

  abbrev tx_parties : List Transaction → List Address
  tx_parties [] = []
  tx_parties (t ∷ ts) = sender_of x g s t ∷ t.recipient ∷ tx_parties ts

  abbrev parties : List (Hash256 × Block) → List Address
  parties [] = []
  parties ((_, b) ∷ bs) = b.header.miner ∷ tx_parties b.transactions ++ parties bs

  Pays-tx_parties :
      (l : List Address) (ts : List Transaction)
      → All (λ k. Has k l) (tx_parties ts)
      → All (Pays x g s l) ts
  Pays-tx_parties l [] h = tt
  Pays-tx_parties l (t ∷ ts) (from, (to, h)) = ((from, to), Pays-tx_parties l ts h)

  Covers-parties :
      (l : List Address) (bs : List (Hash256 × Block))
      → All (λ k. Has k l) (parties bs)
      → Covers x g s l bs
  Covers-parties l [] h = tt
  Covers-parties l ((_, b) ∷ bs) (mines, h) =
      let (paying, rest) = All-split (λ k. Has k l) (tx_parties b.transactions) (parties bs) h in
      ((Pays-tx_parties l b.transactions paying, mines), Covers-parties l bs rest)

  -- Any distinct addresses are among distinct ones that have all parties of a branch and that hold at
  -- least as much, whatever the accounts.
  pub covering :
      (l : List Address) (bs : List (Hash256 × Block))
      → IsDistinct l
      → (l' : List Address) × IsDistinct l'
        × Covers x g s l' bs
        × ((t : ChainState Tree) (o : Overlay) → supply x g t l o ≤ supply x g t l' o)
  covering l bs d =
      let (l', e, all) = extend (parties bs) l d in
      (l', e.distinct, Covers-parties l' bs all, e.holds)
