-- ===== src/Chain/Submit/Template.antt =====
-- `work_template`, and the submission of its block with another nonce.
use ondris.Prelude.{
  ℕ, suc, ◌≡◌, refl, sym, ap, subst, ◌∙◌, inl, inr, true, false, some, List, map, bytes_eq,
  bytes_eq_of_eq, Bool-cases, ltb, lt→ltb, if◌then◌else◌, Result, ok, err, Result-cases,
  bad_signature, IsU64, arith,
}
use ondris.Primitives.{Hash256, Address}
use ondris.Block.{Block, Transaction, tx_hash, with_nonce}
use ondris.Block.Merkle.{merkle_root}
use ondris.Difficulty.{target_for_difficulty}
use ondris.Pow.{Dataset, meets_target}
use ondris.State.{Externals, get_block, has_block}
use ondris.Chain.{Chain, compute_next_difficulty, add_u64}
use ondris.Chain.Submit.{
  already_known, dataset_for_height, block_id, compute_tx_root, all_signed, work_template,
  submit_child, submit_new, submit_block,
}
use ondris.Chain.Submit.Invariant.{Inv}
use ondris.Chain.Submit.Whole.{Ready, dataset_for_height-Ready}

module _ {Tree : Type 0} (x : Externals Tree) {genesis : Hash256} where
  module _ (c : Chain Tree) (inv : Inv x genesis c.state) (miner : Address)
      (pending : List Transaction) where
    -- A template on the tip of a chain, which is left with the dataset in its cache.
    pub record IsTemplate (block : Block) (ds : Dataset) (c₁ : Chain Tree) : Type 0 where
      pub height : block.header.height ≡ add_u64 inv.tip_height 1
      pub prev_hash : block.header.prev_hash ≡ inv.tip_hash
      pub transactions : block.transactions ≡ pending
      pub root : block.header.tx_root ≡ compute_tx_root x block
      pub beneficiary : block.header.miner ≡ miner
      pub difficulty :
          compute_next_difficulty x c.genesis c.state (add_u64 inv.tip_height 1)
          ≡ ok block.header.difficulty
      pub ready : Ready x c block.header.height c₁ ds

    abbrev Gives : Result (Block × Dataset) × Chain Tree → Type 0
    Gives (err e, c₁) = Unit {0}
    Gives (ok (block, ds), c₁) = IsTemplate block ds c₁

    work_template-Gives : (now : ℕ) → Gives (work_template x now miner pending c)
    unfolding work_template compute_tx_root
    work_template-Gives now = elim (dataset_for_height-Ready x next c) [
      | inl (e, q) ↦
          let call : work_template x now miner pending c ≡ (err e, c) =
            ground (arith, inv.is_tip, q) in
          subst Gives (sym call) tt
      | inr (ds, c₁, q, ready) ↦
          elim (Result-cases (compute_next_difficulty x c.genesis c₁.state next)) [
            | inr (e, r) ↦
                let call : work_template x now miner pending c ≡ (err e, c₁) =
                  ground (arith, inv.is_tip, q, r) in
                subst Gives (sym call) tt
            | inl (d, r) ↦
                let call : work_template x now miner pending c ≡ (ok (made d, ds), c₁) =
                  ground (arith, inv.is_tip, q, r) in
                subst Gives (sym call) (record {
                  height = refl;
                  prev_hash = refl;
                  transactions = refl;
                  root = refl;
                  beneficiary = refl;
                  difficulty =
                      subst (λ s. compute_next_difficulty x c.genesis s next ≡ ok d)
                        ready.same_state r;
                  ready = ready;
                })
          ]
    ]
      where
        next : ℕ
        next = add_u64 inv.tip_height 1

        made : ℕ → Block
        made d = record {
          header = record {
            height = next;
            prev_hash = inv.tip_hash;
            tx_root = merkle_root x.blake3 (map (tx_hash x.blake3 x.tx_json) pending);
            timestamp = now;
            difficulty = d;
            miner = miner;
            nonce = 0;
          };
          transactions = pending;
        }

    -- What `work_template` gives is a template.
    pub work_template-IsTemplate :
        (now : ℕ) (block : Block) (ds : Dataset) (c₁ : Chain Tree)
        → work_template x now miner pending c ≡ (ok (block, ds), c₁)
        → IsTemplate block ds c₁
    work_template-IsTemplate now block ds c₁ e = subst Gives e (work_template-Gives now)

    -- The submission of a template's block with a nonce that meets its target.
    pub submit_block-template :
        (block : Block) (ds : Dataset) (c₁ : Chain Tree) (nonce : ℕ)
        → IsTemplate block ds c₁
        → IsU64 (suc inv.tip_height)
        → meets_target
            (block_id x (with_nonce block nonce).header ds)
            (target_for_difficulty block.header.difficulty)
          ≡ true
        → submit_block x (with_nonce block nonce) c₁ ≡ (
            if has_block x c₁.state (block_id x (with_nonce block nonce).header ds)
            then (ok already_known, c₁)
            else if all_signed x pending
            then submit_child x
                (block_id x (with_nonce block nonce).header ds)
                (with_nonce block nonce)
                inv.tip_block
                c₁
            else (err bad_signature, c₁))
    unfolding submit_block submit_new
    submit_block-template block ds c₁ nonce t room met =
        let high : ltb 0 block.header.height ≡ true =
          lt→ltb 0 block.header.height (omega (arith, t.height, room)) in
        let again : dataset_for_height x block.header.height c₁ ≡ (ok ds, c₁) =
          unfold dataset_for_height in ground (arith, t.ready.in_cache) in
        let rooted : bytes_eq block.header.tx_root (compute_tx_root x (with_nonce block nonce))
            ≡ true =
          unfold compute_tx_root in bytes_eq_of_eq t.root in
        let stored : get_block x c₁.state block.header.prev_hash ≡ ok (some inv.tip_block) =
          ap (λ s. get_block x s block.header.prev_hash) t.ready.same_state
          ∙ ap (get_block x c.state) t.prev_hash
          ∙ inv.tip_stored in
        elim (Bool-cases (has_block x c₁.state (block_id x (with_nonce block nonce).header ds))) [
          | inl seen ↦ ground (arith, high, again, seen)
          | inr new ↦ elim (Bool-cases (all_signed x pending)) [
            | inl signed ↦
                let all : all_signed x block.transactions ≡ true =
                  ap (all_signed x) t.transactions ∙ signed in
                ground (arith, high, again, new, rooted, met, all, signed, stored)
            | inr unsigned ↦
                let all : all_signed x block.transactions ≡ false =
                  ap (all_signed x) t.transactions ∙ unsigned in
                ground (arith, high, again, new, rooted, met, all, unsigned)
          ]
        ]
