-- ===== src/Chain/History.antt =====
-- A chain that `Chain::open` makes, and any sequence of calls of `submit_block` of chain.rs.
use ondris.Prelude.{
  ℕ, ◌+◌, ◌*◌, ◌≤◌, ◌<◌, max, ◌≡◌, refl, ◌∙◌, ap, none, List, [], ◌∷◌, reverse, Result, ok, arith,
  IsU64,
}
use ondris.Primitives.{Hash256, Address, Hex}
use ondris.Block.{Block}
use ondris.State.{
  Externals, ChainState, get_block, get_hash_by_height, get_account, default_account, max_u64, tip,
}
use ondris.State.Reads.{ExternalsLaws}
use ondris.Chain.{Chain, GenesisConfig, genesis_block_hash, open_chain}
use ondris.Chain.Genesis.{open_chain-Inv, open_chain-genesis}
use ondris.Chain.Genesis.Ledger.{open_chain-IsLedger}
use ondris.Chain.Genesis.Premine.{premined, open_chain-premined}
use ondris.Chain.Ledger.{Overlay, get_acc, lookup}
use ondris.Chain.Ledger.Emission.{rewards_bound, rewards-reverse}
use ondris.Chain.Ledger.Holders.{covering}
use ondris.Chain.Ledger.Supply.{IsDistinct, supply, balance, supply-apply_all}
use ondris.Chain.Reorg.Replay.{HasRoom}
use ondris.Chain.Submit.{SubmitOutcome, submit_block}
use ondris.Chain.Submit.Outcome.{Outcome, refused, known, orphaned, failed, beaten, adopted}
use ondris.Chain.Submit.Whole.{Submission, early, judged, submit_block-Submission}
use ondris.Chain.Submit.Invariant.{Inv, submit_block-Inv}
use ondris.Chain.Submit.Replay.{IsLedger, submit_block-IsLedger}

module _ {Tree : Type 0} (x : Externals Tree) where
  -- Blocks submitted one after the other, whatever comes of each.
  unfoldable pub submit_all : Chain Tree → List Block → Chain Tree
  submit_all c [] = c
  submit_all c (b ∷ bs) = submit_all (submit_block x b c).1 bs

  Outcome-genesis :
      (c : Chain Tree) (hash : Hash256) (b : Block) {r : Result SubmitOutcome × Chain Tree}
      → Outcome x c hash b r
      → r.1.genesis ≡ c.genesis
  Outcome-genesis c hash b (refused e) = refl
  Outcome-genesis c hash b (known seen) = refl
  Outcome-genesis c hash b (orphaned fresh lost) = refl
  Outcome-genesis c hash b (failed k e) = refl
  Outcome-genesis c hash b (beaten k tip_hash tip_work at more) = refl
  Outcome-genesis c hash b (adopted k tip_hash tip_work at less out c' re) =
      ap (λ (d : Chain Tree). d.genesis) re.written

  submit_block-genesis : (c : Chain Tree) (b : Block) → (submit_block x b c).1.genesis ≡ c.genesis
  submit_block-genesis c b = of_course (submit_block-Submission x c b)
    where
      of_course :
          {r : Result SubmitOutcome × Chain Tree} → Submission x c b r → r.1.genesis ≡ c.genesis
      of_course (early e) = refl
      of_course (judged ds c₁ positive ready outcome) =
          Outcome-genesis c₁ _ b outcome ∙ ready.same_genesis

  module _ (laws : ExternalsLaws x) (g : GenesisConfig) (s₀ : ChainState Tree)
      (genesis : Hash256) where
    -- Before each submission the branch of the tip has room in 64 bits for what it ever credits.
    abbrev pub HasRooms : Chain Tree → List Block → Type 0
    HasRooms c [] = Unit
    HasRooms c (b ∷ bs) =
        ((l : IsLedger x laws g s₀ genesis c.state) → HasRoom x g s₀ genesis l.branch)
        × HasRooms (submit_block x b c).1 bs

    submit_all-IsLedger :
        (c : Chain Tree) (bs : List Block)
        → Inv x genesis c.state
        → c.genesis ≡ g
        → IsLedger x laws g s₀ genesis c.state
        → HasRooms c bs
        → Inv x genesis (submit_all c bs).state
          × IsLedger x laws g s₀ genesis (submit_all c bs).state
    unfolding submit_all
    submit_all-IsLedger c [] inv of_g l rooms = (inv, l)
    submit_all-IsLedger c (b ∷ bs) inv of_g l (room, rooms) =
        submit_all-IsLedger (submit_block x b c).1 bs (submit_block-Inv x genesis laws c b inv)
          (submit_block-genesis c b ∙ of_g)
          (submit_block-IsLedger x laws g s₀ genesis c b inv of_g l (room l)) rooms

    supply_shown :
        (s : ChainState Tree) (overlay : Overlay) (held : List Address)
        → ((a : Address) → get_account x s a ≡ get_acc x g s₀ overlay a)
        → supply x g s held [] ≡ supply x g s₀ held overlay
    unfolding get_acc lookup
    supply_shown s overlay [] shown = refl
    supply_shown s overlay (a ∷ held) shown =
        omega (arith, ap balance (shown a), supply_shown s overlay held shown)

    -- What the accounts hold on the branch of a tip.
    supply-IsLedger :
        (s : ChainState Tree) (premine : ℕ) (held : List Address)
        → IsLedger x laws g s₀ genesis s
        → ((l : List Address) → IsDistinct l → supply x g s₀ l [] ≤ premine)
        → premine + 2 * (g.initial_reward * max g.halving_interval 1) < max_u64
        → IsDistinct held
        → supply x g s held [] ≤ premine + 2 * (g.initial_reward * max g.halving_interval 1)
    supply-IsLedger s premine held l premined small distinct =
        let bs = reverse l.branch in
        let (all, distinct', covers, more) = covering x g s₀ held bs distinct in
        let start = premined all distinct' in
        let minted = rewards_bound g l.branch l.height l.indexed.stair in
        let turned = rewards-reverse g l.branch in
        let kept =
          supply-apply_all x g s₀ [] l.replayed.overlay bs all distinct' covers l.replayed.applied
            (omega (arith, start, minted, turned, small)) in
        let shown = supply_shown s l.replayed.overlay all l.replayed.shown in
        omega (arith, more s [], shown, kept, start, minted, turned)

  module _ (laws : ExternalsLaws x) (h : Hex) (g : GenesisConfig) (s : ChainState Tree)
      (c : Chain Tree) (small : IsU64 g.initial_difficulty) (no_tip : tip x s ≡ ok none)
      (no_block : (k : Hash256) → get_block x s k ≡ ok none)
      (no_index : (n : ℕ) → get_hash_by_height x s n ≡ ok none) (opened : open_chain x h g s ≡ ok c)
      (blocks : List Block) where
    abbrev root : Hash256
    root = genesis_block_hash x.blake3 g

    -- A chain that was opened on a database without tip, blocks and index, with a genesis difficulty
    -- of 64 bits, is well formed after any sequence of submissions, if before each of them the
    -- branch of the tip has room in 64 bits, for every account, for all that it ever credits,
    -- transfers included, and for all its transactions: every stored block stands on a stored parent one
    -- lower, and the accounts and the canonical index are those of the tip's branch, replayed over
    -- the accounts at genesis.
    pub open_chain-submit_all :
        HasRooms laws g c.state root c blocks
        → Inv x root (submit_all c blocks).state
          × IsLedger x laws g c.state root (submit_all c blocks).state
    open_chain-submit_all rooms =
        submit_all-IsLedger laws g c.state root c blocks
          (open_chain-Inv x laws h g s c small no_tip no_block opened).0
          (open_chain-genesis x laws h g s c no_tip opened)
          (open_chain-IsLedger x laws g s h c no_tip no_block no_index opened).0 rooms

    -- The coins have a cap: after any sequence of submissions to a chain that was opened on a database
    -- without accounts, tip, blocks and index, with a genesis difficulty of 64 bits, whatever
    -- addresses are taken, each once, they hold together at most the premine and twice the first
    -- reward for each block of a halving interval, if that cap is below the last number of 64 bits
    -- and if before each submission the branch of the tip has room in 64 bits, for every account,
    -- for all that it ever credits, transfers included, and for all its transactions.
    pub open_chain-supply :
        (held : List Address)
        → HasRooms laws g c.state root c blocks
        → ((a : Address) → get_account x s a ≡ ok default_account)
        → premined g.premine + 2 * (g.initial_reward * max g.halving_interval 1) < max_u64
        → IsDistinct held
        → supply x g (submit_all c blocks).state held []
          ≤ premined g.premine + 2 * (g.initial_reward * max g.halving_interval 1)
    open_chain-supply held rooms empty =
        supply-IsLedger laws g c.state root (submit_all c blocks).state (premined g.premine) held
          (open_chain-submit_all rooms).1
          (λ l d. open_chain-premined x laws g h s c l no_tip empty opened d)
