-- ===== src/Chain/Genesis.antt =====
-- The chain that `Chain::open` makes from an empty database.
pub mod Ledger
pub mod Premine
use ondris.Prelude.{
  ℕ, ◌≡◌, refl, sym, ◌∙◌, ap, subst, inl, inr, none, some, List, [], ◌∷◌, bytes_eq, bytes_eq_sound,
  bytes_eq_refl, Bool-cases, if◌then◌else◌, ok, ok-injective, >>=-eq-ok, ◌>>=◌, arith, IsU64,
}
use ondris.Primitives.{Hash256, Address, Hex}
use ondris.Block.{Block}
use ondris.State.{
  Externals, ChainState, get_block, get_chainwork, credit, set_chainwork, store_block,
  set_canonical_height, set_tip, tip,
}
use ondris.State.Reads.{
  ExternalsLaws, get_block-store_block, get_chainwork-set_chainwork, tip-set_tip,
}
use ondris.State.Frames.{
  SameBlocks, SameBlocks-trans, credit-SameBlocks, set_canonical_height-SameBlocks,
  set_tip-SameBlocks, get_block-set_chainwork, get_chainwork-store_block, get_block-same,
  get_chainwork-same,
}
use ondris.Chain.{
  Chain, GenesisConfig, credit_all, premine_parsed, genesis_block, genesis_block_hash, init_genesis,
  open_chain,
}
use ondris.Chain.Submit.Invariant.{Inv, found_or}

module _ {Tree : Type 0} (x : Externals Tree) where
  credit_all-SameBlocks :
      (s s' : ChainState Tree) (rest : List (Address × ℕ))
      → credit_all x s rest ≡ ok s'
      → SameBlocks s' s
  unfolding credit_all
  credit_all-SameBlocks s s' [] e =
      subst (λ t. SameBlocks t s) (ok-injective e) (record { blocks = refl; chainwork = refl })
  credit_all-SameBlocks s s' ((a, n) ∷ rest) e =
      let (s₁, credited, e₁) = >>=-eq-ok (credit x s a n) _ e in
      SameBlocks-trans (credit_all-SameBlocks s₁ s' rest e₁) (credit-SameBlocks x s s₁ a n credited)

  module _ (laws : ExternalsLaws x) (g : GenesisConfig) (s : ChainState Tree) where
    hash : Hash256
    hash = genesis_block_hash x.blake3 g

    -- The state after the premine is credited.
    written : ChainState Tree → ChainState Tree
    written s₁ =
        set_tip x
          (set_canonical_height x
            (store_block x (set_chainwork x s₁ hash g.initial_difficulty) hash (genesis_block g)) 0
            hash)
          0 hash

    written-SameBlocks :
        (s₁ : ChainState Tree)
        → SameBlocks
            (written s₁)
            (store_block x (set_chainwork x s₁ hash g.initial_difficulty) hash (genesis_block g))
    unfolding written
    written-SameBlocks s₁ =
        SameBlocks-trans (set_tip-SameBlocks x _ 0 hash)
          (set_canonical_height-SameBlocks x _ 0 hash)

    get_block-written :
        (s₁ : ChainState Tree) (h : Hash256)
        → get_block x (written s₁) h
          ≡ (if bytes_eq hash h then ok (some (genesis_block g)) else get_block x s₁ h)
    get_block-written s₁ h =
        get_block-same x _ _ (written-SameBlocks s₁) h
        ∙ get_block-store_block x laws _ hash (genesis_block g) h
        ∙ ap (λ r. if bytes_eq hash h then ok (some (genesis_block g)) else r)
            (get_block-set_chainwork x s₁ hash g.initial_difficulty h)

    get_chainwork-written :
        (s₁ : ChainState Tree)
        → IsU64 g.initial_difficulty
        → get_chainwork x (written s₁) hash ≡ ok (some g.initial_difficulty)
    get_chainwork-written s₁ small =
        get_chainwork-same x _ _ (written-SameBlocks s₁) hash
        ∙ get_chainwork-store_block x _ hash (genesis_block g) hash
        ∙ get_chainwork-set_chainwork x laws s₁ hash g.initial_difficulty hash (omega arith)
        ∙ rw (bytes_eq_refl hash)

    written-Inv :
        (s₁ : ChainState Tree)
        → IsU64 g.initial_difficulty
        → ((h : Hash256) → get_block x s₁ h ≡ ok none)
        → Inv x hash (written s₁)
    unfolding genesis_block
    written-Inv s₁ small empty = record {
      linked = λ h b q. inl (
        sym (is_genesis h b q).0,
        ap (λ (d : Block). d.header.height) (sym (is_genesis h b q).1),
      );
      small =
          λ h b q. subst (λ (d : Block). IsU64 d.header.height) (is_genesis h b q).1 (omega arith);
      worked = λ h b q. (
        g.initial_difficulty,
        subst (λ k. get_chainwork x (written s₁) k ≡ ok (some g.initial_difficulty))
            (is_genesis h b q).0 (get_chainwork-written s₁ small),
      );
      tip_height = 0;
      tip_hash = hash;
      tip_block = genesis_block g;
      is_tip = unfold written in tip-set_tip x laws _ 0 hash;
      tip_stored = get_block-written s₁ hash ∙ rw (bytes_eq_refl hash);
      tip_at = refl;
    }
      where
        is_genesis :
            (h : Hash256) (b : Block)
            → get_block x (written s₁) h ≡ ok (some b)
            → (hash ≡ h) × (genesis_block g ≡ b)
        is_genesis h b q = elim (Bool-cases (bytes_eq hash h)) [
          | inl same ↦
              let now : get_block x (written s₁) h ≡ ok (some (genesis_block g)) =
                get_block-written s₁ h ∙ rw same in
              (bytes_eq_sound hash h same, ap (found_or b) (sym now ∙ q))
          | inr differ ↦
              let now : get_block x (written s₁) h ≡ ok none =
                get_block-written s₁ h ∙ rw differ (empty h) in
              cc (now, q)
        ]

  -- What opening a database without a tip writes.
  open_chain-written :
      (laws : ExternalsLaws x) (h : Hex) (g : GenesisConfig) (s : ChainState Tree) (c : Chain Tree)
      → tip x s ≡ ok none
      → open_chain x h g s ≡ ok c
      → (premine : List (Address × ℕ)) × (s₁ : ChainState Tree) × (credit_all x s premine ≡ ok s₁)
        × (written laws g s s₁ ≡ c.state)
        × (g ≡ c.genesis)
        × (premine_parsed h g ≡ ok premine)
  unfolding open_chain init_genesis hash written
  open_chain-written laws h g s c no_tip e =
      let start : (init_genesis x h g s >>= λ t.
      ok (let d : Chain Tree = record { state = t; genesis = g; dataset_cache = none } in d))
          ≡ ok c =
        subst
          (λ r.
            (r >>= λ t. (elim t [ some _ ↦ ok s | none ↦ init_genesis x h g s ]) >>= λ v.
            ok (let d : Chain Tree = record { state = v; genesis = g; dataset_cache = none } in d))
            ≡ ok c)
          no_tip e in
      let (s', made, e₂) = >>=-eq-ok (init_genesis x h g s) _ start in
      let (premine, parsed, e₃) = >>=-eq-ok (premine_parsed h g) _ made in
      let (s₁, credited, e₄) = >>=-eq-ok (credit_all x s premine) _ e₃ in
      (
        premine,
        s₁,
        credited,
        ok-injective e₄ ∙ ap (λ (d : Chain Tree). d.state) (ok-injective e₂),
        ap (λ (d : Chain Tree). d.genesis) (ok-injective e₂),
        parsed,
      )

  pub open_chain-genesis :
      (laws : ExternalsLaws x) (h : Hex) (g : GenesisConfig) (s : ChainState Tree) (c : Chain Tree)
      → tip x s ≡ ok none
      → open_chain x h g s ≡ ok c
      → c.genesis ≡ g
  open_chain-genesis laws h g s c no_tip e =
      let (premine, s₁, credited, is_c, of_g, _) = open_chain-written laws h g s c no_tip e in
      sym of_g

  -- Opening a database that has no tip and no block, where the genesis difficulty fits 64 bits:
  -- if the premine parses and every account it names decodes, the chain that is opened is well
  -- formed, with the genesis block as its tip; and its difficulty is the tip's work.
  pub open_chain-Inv :
      (laws : ExternalsLaws x) (h : Hex) (g : GenesisConfig) (s : ChainState Tree) (c : Chain Tree)
      → IsU64 g.initial_difficulty
      → tip x s ≡ ok none
      → ((k : Hash256) → get_block x s k ≡ ok none)
      → open_chain x h g s ≡ ok c
      → Inv x (genesis_block_hash x.blake3 g) c.state
        × (tip x c.state ≡ ok (some (0, genesis_block_hash x.blake3 g)))
        × (get_chainwork x c.state (genesis_block_hash x.blake3 g) ≡ ok (some g.initial_difficulty))
  unfolding hash written
  open_chain-Inv laws h g s c small no_tip empty e =
      let (premine, s₁, credited, is_c, _, _) = open_chain-written laws h g s c no_tip e in
      let still : (k : Hash256) → get_block x s₁ k ≡ ok none =
        λ k. get_block-same x s₁ s (credit_all-SameBlocks s s₁ premine credited) k ∙ empty k in
      subst
        (λ t.
          Inv x (genesis_block_hash x.blake3 g) t
          × (tip x t ≡ ok (some (0, genesis_block_hash x.blake3 g)))
          × (get_chainwork x t (genesis_block_hash x.blake3 g) ≡ ok (some g.initial_difficulty)))
        is_c
        (
          written-Inv laws g s s₁ small still,
          tip-set_tip x laws _ 0 (hash laws g s),
          get_chainwork-written laws g s s₁ small,
        )
