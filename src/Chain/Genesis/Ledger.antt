-- ===== src/Chain/Genesis/Ledger.antt =====
-- The ledger of the chain that `Chain::open` makes from an empty database.
use ondris.Prelude.{
  ℕ, ◌≡◌, refl, sym, ◌∙◌, ap, subst, inl, inr, none, List, [], ◌∷◌, bytes_eq, bytes_eq_sound,
  bytes_eq_refl, Bool-cases, ◌==◌, ==→eq, length, ok, ok-injective, >>=-eq-ok, arith, IsU64,
}
use ondris.Primitives.{Hash256, Address, Hex}
use ondris.State.{
  Externals, ChainState, get_block, get_hash_by_height, credit, set_chainwork, store_block,
  set_canonical_height, tip,
}
use ondris.State.Reads.{
  ExternalsLaws, tip-set_tip, get_hash-set_canonical_height, get_hash-set_canonical_height_ne,
}
use ondris.State.Frames.{
  heights-credit, heights-set_tip, get_hash_of_heights, get_hash_by_height-same, get_block-same,
  store_block-SameLedger, set_chainwork-SameLedger,
}
use ondris.Chain.{Chain, GenesisConfig, credit_all, genesis_block, genesis_block_hash, open_chain}
use ondris.Chain.Genesis.{
  hash, written, get_block-written, credit_all-SameBlocks, open_chain-written,
}
use ondris.Chain.Ledger.{apply_all, get_acc, lookup}
use ondris.Chain.Fork.Paths.{here}
use ondris.Chain.Reorg.Index.{level}
use ondris.Chain.Submit.Replay.{IsLedger}

module _ {Tree : Type 0} (x : Externals Tree) (laws : ExternalsLaws x) (g : GenesisConfig)
    (s : ChainState Tree) where
  abbrev genesis : Hash256
  genesis = genesis_block_hash x.blake3 g

  credit_all_heights :
      (t t' : ChainState Tree) (rest : List (Address × ℕ))
      → credit_all x t rest ≡ ok t'
      → t'.heights ≡ t.heights
  unfolding credit_all
  credit_all_heights t t' [] e = ap (λ (u : ChainState Tree). u.heights) (sym (ok-injective e))
  credit_all_heights t t' ((a, n) ∷ rest) e =
      let (t₁, credited, e₁) = >>=-eq-ok (credit x t a n) _ e in
      credit_all_heights t₁ t' rest e₁ ∙ heights-credit x t t₁ a n credited

  length-genesis : length genesis ≡ 32
  unfolding genesis_block_hash
  length-genesis = laws.blake3.length-hash _

  -- The index of the written state has genesis only.
  written_index :
      (s₁ : ChainState Tree)
      → ((n : ℕ) → get_hash_by_height x s₁ n ≡ ok none)
      → (n : ℕ) → IsU64 n
      → get_hash_by_height x (written x laws g s s₁) n ≡ ok (level genesis [] n)
  unfolding written hash
  written_index s₁ empty n small =
      let worked = set_chainwork x s₁ genesis g.initial_difficulty in
      let stored = store_block x worked genesis (genesis_block g) in
      let indexed = set_canonical_height x stored 0 genesis in
      get_hash_of_heights x _ indexed (heights-set_tip x indexed 0 genesis) n
      ∙ elim (Bool-cases (n == 0)) [
        | inl same ↦
            let zero_n = ==→eq n 0 same in
            ap (get_hash_by_height x indexed) zero_n
            ∙ get_hash-set_canonical_height x laws stored 0 genesis length-genesis
            ∙ rw same refl
        | inr differ ↦
            get_hash-set_canonical_height_ne x laws stored 0 n genesis (omega arith) small
              (λ e. ground (arith, e, differ))
            ∙ get_hash_by_height-same x stored worked
                (store_block-SameLedger x worked genesis (genesis_block g)) n
            ∙ get_hash_by_height-same x worked s₁
                (set_chainwork-SameLedger x s₁ genesis g.initial_difficulty) n
            ∙ empty n
            ∙ rw differ refl
      ]

  -- A chain that is opened on a database without tip, blocks and index has the ledger of genesis:
  -- the empty branch over the accounts that the premine leaves.
  pub open_chain-IsLedger :
      (h : Hex) (c : Chain Tree)
      → tip x s ≡ ok none
      → ((k : Hash256) → get_block x s k ≡ ok none)
      → ((n : ℕ) → get_hash_by_height x s n ≡ ok none)
      → open_chain x h g s ≡ ok c
      → (l : IsLedger x laws g c.state genesis c.state) × (l.branch ≡ [])
  unfolding written hash apply_all get_acc lookup genesis_block
  open_chain-IsLedger h c no_tip no_block no_index e =
      let (premine, s₁, credited, is_c, _, _) = open_chain-written x laws h g s c no_tip e in
      let still : (k : Hash256) → get_block x s₁ k ≡ ok none =
        λ k. get_block-same x s₁ s (credit_all-SameBlocks x s s₁ premine credited) k ∙ no_block k in
      let unlisted : (n : ℕ) → get_hash_by_height x s₁ n ≡ ok none =
        λ n. get_hash_of_heights x s₁ s (credit_all_heights s s₁ premine credited) n ∙ no_index n in
      subst (λ t. (l : IsLedger x laws g t genesis t) × (l.branch ≡ [])) is_c
        (
          record {
            height = 0;
            tip_hash = genesis;
            is_tip = tip-set_tip x laws _ 0 genesis;
            branch = [];
            replayed = record {
              overlay = [];
              applied = refl;
              shown = λ a. refl;
              path = here;
              root = genesis_block g;
              rooted = get_block-written x laws g s s₁ genesis ∙ rw (bytes_eq_refl genesis);
              at_zero = refl;
            };
            indexed = record {
              stair = refl;
              index = written_index s₁ unlisted;
              sized = λ k b q. elim (Bool-cases (bytes_eq genesis k)) [
                | inl same ↦ ap length (sym (bytes_eq_sound genesis k same)) ∙ length-genesis
                | inr differ ↦
                    let now : get_block x (written x laws g s s₁) k ≡ ok none =
                      get_block-written x laws g s s₁ k ∙ rw differ (still k) in
                    cc (now, q)
              ];
            };
          },
          refl,
        )
