-- ===== src/Chain/Reorg/Replay.antt =====
-- The accounts after a reorganization against the replay of the new branch from genesis on.
use mathlib.Core.List.{reverse-reverse, reverse-append}
use ondris.Prelude.{
  ℕ, ◌≡◌, sym, ◌∙◌, ap, subst, some, List, [], ◌++◌, reverse, ok, arith, >>=-eq-ok, >>=-ok,
  ok-injective,
}
use ondris.Primitives.{Hash256, Address}
use ondris.Block.{Block, Transaction}
use ondris.State.{Externals, ChainState, get_account, get_block}
use ondris.State.Reads.{ExternalsLaws}
use ondris.State.Frames.{SameBlocks, get_block-same}
use ondris.Chain.{Chain, GenesisConfig}
use ondris.Chain.Ledger.{Overlay, lookup, get_acc, undo_all, apply_all}
use ondris.Chain.Ledger.Rollback.{Headroom}
use ondris.Chain.Ledger.Branches.{credits, transfers, undo_all-apply_all}
use ondris.Chain.Ledger.Splits.{
  credits-append, transfers-append, apply_all-append, apply_all-Headroom,
}
use ondris.Chain.Ledger.Across.{apply_all-Follows, undo_all-Follows}
use ondris.Chain.Fork.{BlockChain}
use ondris.Chain.Fork.Paths.{Down, here, next}
use ondris.Chain.Fork.Heights.{fork_paths-split}
use ondris.Chain.Fork.Total.{IsLinked}
use ondris.Chain.Reorg.{simulate, commit}
use ondris.Chain.Reorg.Commit.{Reorganized, commit-SameBlocks}
use ondris.Chain.Reorg.Accounts.{get_account-commit, simulate-IsMap}

module _ {Tree : Type 0} (x : Externals Tree) (g : GenesisConfig) (s₀ : ChainState Tree)
    (genesis : Hash256) where
  -- The accounts of `s` are those that the replay of a branch, from its lowest block up, gives over
  -- the accounts of `s₀`; the branch leads from the tip down to genesis.
  pub record Replayed (s : ChainState Tree) (tip_hash : Hash256) (branch : BlockChain)
      : Type 0 where
    pub overlay : Overlay
    pub applied : apply_all x g s₀ [] (reverse branch) ≡ ok overlay
    pub shown : (a : Address) → get_account x s a ≡ get_acc x g s₀ overlay a
    pub path : Down x s tip_hash branch genesis
    pub root : Block
    pub rooted : get_block x s genesis ≡ ok (some root)
    pub at_zero : root.header.height ≡ 0

  -- Room for a whole branch in 64 bits.
  abbrev pub HasRoom : BlockChain → Type 0
  HasRoom branch = Headroom x g s₀ [] (credits g (reverse branch)) (transfers (reverse branch))

  pub Down-same :
      {s t : ChainState Tree} {h a : Hash256} {bs : BlockChain}
      → ((k : Hash256) (b : Block) → get_block x s k ≡ ok (some b) → get_block x t k ≡ ok (some b))
      → Down x s h bs a
      → Down x t h bs a
  Down-same moved here = here
  Down-same moved (next {h} {b = b} stored rest) = next (moved h b stored) (Down-same moved rest)

  -- What the simulation shows in the end is the replay of the new branch.
  module _ (s : ChainState Tree) (undo apply rest : BlockChain) (overlay o : Overlay)
      (shown : (a : Address) → get_account x s a ≡ get_acc x g s₀ overlay a)
      (applied : apply_all x g s₀ [] (reverse (undo ++ rest)) ≡ ok overlay)
      (room : HasRoom (undo ++ rest)) (simulated : simulate x g s undo apply ≡ ok o) where
    simulated-replay :
        (o₀ : Overlay) × (apply_all x g s₀ [] (reverse (reverse apply ++ rest)) ≡ ok o₀)
        × ((a : Address) → get_acc x g s o a ≡ get_acc x g s₀ o₀ a)
    unfolding simulate
    simulated-replay =
        let (mid, below, top) =
          >>=-eq-ok (apply_all x g s₀ [] (reverse rest)) (λ v. apply_all x g s₀ v (reverse undo))
            (sym (apply_all-append x g s₀ [] (reverse rest) (reverse undo))
              ∙ ap (apply_all x g s₀ []) (sym (reverse-append undo rest))
              ∙ applied) in
        let (q₀, undone, same) =
          undo_all-apply_all x g s₀ mid overlay (reverse undo) top (room_at mid below) in
        let (q, undone', same') =
          undo_all-Follows x g s s₀ undo [] overlay q₀ over
            (ap (undo_all x g s₀ overlay) (sym (reverse-reverse undo)) ∙ undone) in
        let (q₁, first, second) = >>=-eq-ok (undo_all x g s [] undo) _ simulated in
        let one : q₁ ≡ q = ok-injective (sym first ∙ undone') in
        let (o₀, again, same₀) =
          apply_all-Follows x g s₀ s apply mid q o (λ a. sym (same' a ∙ same a))
            (ap (λ v. apply_all x g s v apply) (sym one) ∙ second) in
        (
          o₀,
          ap (apply_all x g s₀ []) (
                reverse-append (reverse apply) rest
                ∙ ap (λ v. reverse rest ++ v) (reverse-reverse apply))
              ∙ apply_all-append x g s₀ [] (reverse rest) apply
              ∙ >>=-ok (apply_all x g s₀ [] (reverse rest)) (λ v. apply_all x g s₀ v apply) below
                  again,
          λ a. sym (same₀ a),
        )
      where
        over : (a : Address) → get_acc x g s [] a ≡ get_acc x g s₀ overlay a
        over a = unfold get_acc lookup in shown a

        room_at :
            (mid : Overlay)
            → apply_all x g s₀ [] (reverse rest) ≡ ok mid
            → Headroom x g s₀ mid (credits g (reverse undo)) (transfers (reverse undo))
        room_at mid below =
            apply_all-Headroom x g s₀ [] mid (reverse rest) (credits g (reverse undo))
              (transfers (reverse undo)) below
              (record {
                balance = λ a acc e. omega (
                  arith,
                  room.balance a acc e,
                  credits-append g (reverse rest) (reverse undo),
                  ap (credits g) (reverse-append undo rest),
                );
                nonce = λ a acc e. omega (
                  arith,
                  room.nonce a acc e,
                  transfers-append (reverse rest) (reverse undo),
                  ap transfers (reverse-append undo rest),
                );
              })

  -- A reorganization leaves the accounts of the new tip's branch, replayed from genesis on.
  pub Reorganized-Replayed :
      ExternalsLaws x
      → (c c' : Chain Tree) (old_tip new_tip : Hash256) (height : ℕ) (out : List Transaction)
        (branch : BlockChain)
      → c.genesis ≡ g
      → IsLinked x c.state genesis
      → Replayed c.state old_tip branch
      → HasRoom branch
      → (re : Reorganized x old_tip new_tip height c c' out)
      → (rest : BlockChain) × (branch ≡ re.undo ++ rest)
        × Replayed c'.state new_tip (reverse re.apply ++ rest)
  Reorganized-Replayed laws c c' old_tip new_tip height out branch of_g linked r room re =
      let (rest, split, down) =
        fork_paths-split x c.state genesis r.root old_tip new_tip re.undo re.apply branch linked
          r.rooted r.at_zero r.path re.paths in
      let simulated : simulate x g c.state re.undo re.apply ≡ ok re.overlay =
        ap (λ h. simulate x h c.state re.undo re.apply) (sym of_g) ∙ re.simulated in
      let (o₀, applied, shown) =
        simulated-replay c.state re.undo re.apply rest r.overlay re.overlay r.shown
          (ap (λ v. apply_all x g s₀ [] (reverse v)) (sym split) ∙ r.applied)
          (subst HasRoom split room) simulated in
      let s' = commit x re.overlay re.undo re.apply height new_tip c.state in
      let same : SameBlocks s' c.state =
        commit-SameBlocks x re.overlay re.undo re.apply height new_tip c.state in
      let now : Replayed s' new_tip (reverse re.apply ++ rest) = record {
        overlay = o₀;
        applied = applied;
        shown = λ a.
            get_account-commit x laws g re.overlay re.undo re.apply height new_tip c.state
              (simulate-IsMap x laws g c.state re.undo re.apply re.overlay simulated) a
            ∙ shown a;
        path = Down-same (λ k b q. get_block-same x s' c.state same k ∙ q) down;
        root = r.root;
        rooted = get_block-same x s' c.state same genesis ∙ r.rooted;
        at_zero = r.at_zero;
      } in
      (
        rest,
        split,
        subst (λ (d : Chain Tree). Replayed d.state new_tip (reverse re.apply ++ rest))
            (sym re.written) now,
      )
