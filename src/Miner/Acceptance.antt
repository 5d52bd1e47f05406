-- ===== src/Miner/Acceptance.antt =====
-- The node's template, mined by the CPU miner, becomes the tip of the node's chain.
use ondris.Prelude.{
  ℕ, suc, ◌+◌, ◌≤◌, ◌<◌, ◌^◌, ◌≡◌, refl, sym, ap, subst, ◌∙◌, ◌⊎◌, inl, inr, List, [], some, true,
  false, bytes_eq_of_eq, Bool-cases, if◌then◌else◌, ok, ok-injective, err, bad_signature, arith,
  IsU64,
}
use ondris.Primitives.{Hash256, Address}
use ondris.Block.{Block, Transaction, bytes_for_pow, with_nonce}
use ondris.Difficulty.{target_for_difficulty}
use ondris.Pow.{Dataset, meets_target}
use ondris.State.{Externals, ChainState, get_block, get_chainwork, has_block, tip}
use ondris.State.Reads.{ExternalsLaws}
use ondris.Chain.{Chain, expected_difficulty_after, add_u64}
use ondris.Chain.Ledger.{Overlay, apply_block}
use ondris.Chain.Submit.{
  accepted, already_known, block_id, all_signed, compute_tx_root, work_template, submit_child,
  submit_block,
}
use ondris.Chain.Submit.Outcome.{Checked}
use ondris.Chain.Submit.Invariant.{Inv}
use ondris.Chain.Submit.Replay.{IsLedger}
use ondris.Chain.Submit.Difficulty.{compute_next_difficulty-expected_difficulty_after}
use ondris.Chain.Submit.Extension.{submit_child-accepted}
use ondris.Chain.Submit.Template.{IsTemplate, work_template-IsTemplate, submit_block-template}
use ondris.Miner.Search.{Shared, mined, mine_block, meets}
use ondris.Miner.Search.Soundness.{Reachable}
use ondris.Miner.Submission.{job, mined-nonce}

module _ {Tree : Type 0} (x : Externals Tree) (laws : ExternalsLaws x) (s₀ : ChainState Tree)
    (genesis : Hash256) (c : Chain Tree) (inv : Inv x genesis c.state)
    (l : IsLedger x laws c.genesis s₀ genesis c.state) (miner : Address)
    (pending : List Transaction) (block : Block) (ds : Dataset) (c₁ : Chain Tree)
    (t : IsTemplate x c inv miner pending block ds c₁) (room : IsU64 (suc inv.tip_height))
    (signed : all_signed x pending ≡ true) (o : Overlay)
    (applies : apply_block x c.genesis c.state [] block ≡ ok o) (work : ℕ)
    (worked : get_chainwork x c.state inv.tip_hash ≡ ok (some work))
    (positive : 1 ≤ block.header.difficulty)
    (small : work + block.header.difficulty < 2 ^ 128) where
  -- A block with its hash is known already, or becomes the tip.
  abbrev pub Taken : Block → Type 0
  Taken b =
      let hash = block_id x b.header ds in
      (submit_block x b c₁ ≡ (ok already_known, c₁))
      ⊎ ((c' : Chain Tree) × (submit_block x b c₁
            ≡ (ok (accepted hash (suc inv.tip_height) false []), c'))
          × (tip x c'.state ≡ ok (some (suc inv.tip_height, hash))))

  module _ (nonce : ℕ)
      (met : meets_target
          (block_id x (with_nonce block nonce).header ds)
          (target_for_difficulty block.header.difficulty)
        ≡ true) where
    abbrev found : Block
    found = with_nonce block nonce

    abbrev hash : Hash256
    hash = block_id x found.header ds

    found-Checked : has_block x c₁.state hash ≡ false → Checked x c₁ hash found
    unfolding compute_tx_root
    found-Checked fresh =
        let (n, rule, rule') =
          compute_next_difficulty-expected_difficulty_after x laws c.genesis s₀ c.state genesis inv
            l room in
        let same : n ≡ block.header.difficulty = ok-injective (sym rule ∙ t.difficulty) in
        record {
          fresh = fresh;
          root = bytes_eq_of_eq t.root;
          work_done = met;
          signed = ap (all_signed x) t.transactions ∙ signed;
          parent = inv.tip_block;
          parent_stored =
              ap (λ s. get_block x s block.header.prev_hash) t.ready.same_state
              ∙ ap (get_block x c.state) t.prev_hash
              ∙ inv.tip_stored;
          follows = ap (λ n. add_u64 n 1) inv.tip_at ∙ sym t.height;
          difficulty =
              ap (λ s. expected_difficulty_after x c₁.genesis s inv.tip_block) t.ready.same_state
              ∙ ap (λ g. expected_difficulty_after x g c.state inv.tip_block) t.ready.same_genesis
              ∙ rule'
              ∙ ap ok same;
          parent_work = work;
          parent_work_stored =
              ap (λ s. get_chainwork x s block.header.prev_hash) t.ready.same_state
              ∙ ap (get_chainwork x c.state) t.prev_hash
              ∙ worked;
        }

    found-Taken : Taken found
    unfolding apply_block found-Checked
    found-Taken = elim (Bool-cases (has_block x c₁.state hash)) [
      | inl seen ↦ inl (judged ∙ (rw seen refl))
      | inr fresh ↦
          let child : submit_block x found c₁ ≡ submit_child x hash found inv.tip_block c₁ =
            judged ∙ (rw fresh (rw signed refl)) in
          let (inv₁, same_hash) : (i : Inv x genesis c₁.state) × (i.tip_hash ≡ inv.tip_hash) =
            subst (λ s. (i : Inv x genesis s) × (i.tip_hash ≡ inv.tip_hash))
              (sym t.ready.same_state) (inv, refl) in
          let on_tip : block.header.prev_hash ≡ inv₁.tip_hash = t.prev_hash ∙ sym same_hash in
          let applied : apply_block x c₁.genesis c₁.state [] found ≡ ok o =
            ap (λ s. apply_block x c₁.genesis s [] found) t.ready.same_state
            ∙ ap (λ g. apply_block x g c.state [] found) t.ready.same_genesis
            ∙ applies in
          let up : inv.tip_block.header.height + 1 ≡ block.header.height =
            omega (arith, inv.tip_at, t.height, room) in
          let height : block.header.height ≡ suc inv.tip_height = omega (arith, up, inv.tip_at) in
          let (c', accepts, at) =
            submit_child-accepted x laws genesis c₁ hash found (found-Checked fresh) inv₁ on_tip o
              applied up (omega (arith, positive, small)) in
          inr (
            c',
            child ∙ accepts ∙ ap (λ n. (ok (accepted hash n false []), c')) height,
            at ∙ ap (λ n. ok (some (n, hash))) height,
          )
    ]
      where
        judged : submit_block x found c₁ ≡ (
            if has_block x c₁.state hash
            then (ok already_known, c₁)
            else if all_signed x pending
            then submit_child x hash found inv.tip_block c₁
            else (err bad_signature, c₁))
        judged = submit_block-template x c inv miner pending block ds c₁ nonce t room met

  -- What any run of the miner's threads finds is known already, or becomes the tip.
  pub mined-Taken :
      (threads : ℕ) (s : Shared) (b : Block)
      → Reachable (job x.blake3 block ds threads) s
      → mine_block (job x.blake3 block ds threads) s ≡ mined b
      → Taken b
  unfolding bytes_for_pow
  mined-Taken threads s b r e =
      let (nonce, same, met) = mined-nonce x.blake3 block ds threads s b r e in
      subst Taken (sym same) (found-Taken nonce (unfold block_id meets in met))

-- The block that the miner finds for a template is accepted: on a well-formed chain, whose index and
-- accounts are those of its tip's branch, and whose tip is below the last u64 height, take a
-- template of signed transactions that apply to the accounts, with a difficulty of at least 1 that
-- adds to the tip's work below 2 ^ 128. Whatever block the miner's threads find for it, in any order
-- of their turns, the chain that gave the template knows already, or accepts as its tip, one
-- height above the last, with nothing to requeue.
pub mine_block-accepted :
    {Tree : Type 0} (x : Externals Tree) (laws : ExternalsLaws x) (s₀ : ChainState Tree)
    (genesis : Hash256) (c : Chain Tree) (inv : Inv x genesis c.state)
    → IsLedger x laws c.genesis s₀ genesis c.state
    → (miner : Address) (pending : List Transaction) (now : ℕ) (block : Block) (ds : Dataset)
      (c₁ : Chain Tree) (threads : ℕ) (s : Shared) (found : Block) (o : Overlay) (work : ℕ)
    → work_template x now miner pending c ≡ (ok (block, ds), c₁)
    → IsU64 (suc inv.tip_height)
    → all_signed x pending ≡ true
    → apply_block x c.genesis c.state [] block ≡ ok o
    → get_chainwork x c.state inv.tip_hash ≡ ok (some work)
    → 1 ≤ block.header.difficulty
    → work + block.header.difficulty < 2 ^ 128
    → Reachable (job x.blake3 block ds threads) s
    → mine_block (job x.blake3 block ds threads) s ≡ mined found
    → (submit_block x found c₁ ≡ (ok already_known, c₁))
      ⊎ ((c' : Chain Tree) × (submit_block x found c₁
            ≡ (ok (accepted (block_id x found.header ds) (suc inv.tip_height) false []), c'))
          × (tip x c'.state ≡ ok (some (suc inv.tip_height, block_id x found.header ds))))
mine_block-accepted x laws s₀ genesis c inv l miner pending now block ds c₁ threads s found o work
      made room signed applies worked positive small r e =
    mined-Taken x laws s₀ genesis c inv l miner pending block ds c₁
      (work_template-IsTemplate x c inv miner pending now block ds c₁ made) room signed o applies
      work worked positive small threads s found r e
