-- ===== src/Chain/Submit/Replay.antt =====
-- The accounts after `submit_block` of chain.rs: always those of the tip's branch.
use ondris.Prelude.{
  inl, inr, ◌++◌, reverse, length, bytes_eq, bytes_eq_sound, Bool-cases, if◌then◌else◌, ℕ, ◌<◌, ◌≡◌,
  sym, ◌∙◌, ap, subst, some, Result, ok,
}
use ondris.Primitives.{Hash256}
use ondris.Block.{Block, BlockHeader}
use ondris.Pow.{Dataset, ondris_hash, ondris_hash_with_accesses}
use ondris.State.{Externals, ChainState, get_block, tip}
use ondris.State.Reads.{ExternalsLaws}
use ondris.State.Frames.{
  get_block-same, get_hash_by_height-same, get_account-same, set_chainwork-SameLedger,
  store_block-SameLedger,
}
use ondris.Chain.{Chain, GenesisConfig}
use ondris.Chain.Fork.{BlockChain}
use ondris.Chain.Fork.Paths.{Down}
use ondris.Chain.Reorg.Commit.{tip-commit, commit-SameBlocks}
use ondris.Chain.Reorg.Canonical.{IsIndexed, Reorganized-IsIndexed}
use ondris.Chain.Reorg.Replay.{Replayed, HasRoom, Down-same, Reorganized-Replayed}
use ondris.Chain.Submit.{SubmitOutcome, submit_block, block_id}
use ondris.Chain.Submit.Outcome.{
  Outcome, Checked, refused, known, orphaned, failed, beaten, adopted, with_block, work_of,
}
use ondris.Chain.Submit.Whole.{Submission, early, judged, submit_block-Submission}
use ondris.Chain.Submit.Invariant.{
  Inv, get_block-after, block_stored, still_stored, tip-after, with_block-Inv,
}

module _ {Tree : Type 0} (x : Externals Tree) (laws : ExternalsLaws x) (g : GenesisConfig)
    (s₀ : ChainState Tree) (genesis : Hash256) where
  -- The ledger of a state: its tip has a branch down to genesis, every account is what the replay
  -- of that branch over `s₀` makes of it, and the canonical index is that branch.
  pub record IsLedger (s : ChainState Tree) : Type 0 where
    pub height : ℕ
    pub tip_hash : Hash256
    pub is_tip : tip x s ≡ ok (some (height, tip_hash))
    pub branch : BlockChain
    pub replayed : Replayed x g s₀ genesis s tip_hash branch
    pub indexed : IsIndexed x genesis s height branch

  -- A block that is stored changes no account and no branch.
  with_block-Replayed :
      (c : Chain Tree) (hash : Hash256) (b : Block) (k : Checked x c hash b) (h : Hash256)
      (branch : BlockChain)
      → Replayed x g s₀ genesis c.state h branch
      → Replayed x g s₀ genesis (with_block x c hash b (work_of x k)).state h branch
  with_block-Replayed c hash b k h branch r =
      let s' = (with_block x c hash b (work_of x k)).state in
      let stays = still_stored x genesis laws c hash b k in
      record {
        overlay = r.overlay;
        applied = r.applied;
        shown = λ a.
            get_account-same x s' _ (set_chainwork-SameLedger x _ hash (work_of x k)) a
            ∙ get_account-same x _ c.state (store_block-SameLedger x c.state hash b) a
            ∙ r.shown a;
        path = Down-same x g s₀ genesis stays r.path;
        root = r.root;
        rooted = stays genesis r.root r.rooted;
        at_zero = r.at_zero;
      }

  with_block-IsIndexed :
      (c : Chain Tree) (hash : Hash256) (b : Block) (k : Checked x c hash b) (n : ℕ)
      (branch : BlockChain)
      → length hash ≡ 32
      → IsIndexed x genesis c.state n branch
      → IsIndexed x genesis (with_block x c hash b (work_of x k)).state n branch
  with_block-IsIndexed c hash b k n branch size i =
      let s' = (with_block x c hash b (work_of x k)).state in
      record {
        stair = i.stair;
        index = λ m u.
            get_hash_by_height-same x s' _ (set_chainwork-SameLedger x _ hash (work_of x k)) m
            ∙ get_hash_by_height-same x _ c.state (store_block-SameLedger x c.state hash b) m
            ∙ i.index m u;
        sized = λ h d q. elim (Bool-cases (bytes_eq hash h)) [
          | inl same ↦ ap length (sym (bytes_eq_sound hash h same)) ∙ size
          | inr differ ↦ i.sized h d (
              sym (
                get_block-after x genesis laws c hash b k h
                ∙ ap (λ t. if t then ok (some b) else get_block x c.state h) differ)
              ∙ q)
        ];
      }

  with_block-IsLedger :
      (c : Chain Tree) (hash : Hash256) (b : Block) (k : Checked x c hash b)
      → length hash ≡ 32
      → IsLedger c.state
      → IsLedger (with_block x c hash b (work_of x k)).state
  with_block-IsLedger c hash b k size l = record {
    height = l.height;
    tip_hash = l.tip_hash;
    is_tip = tip-after x genesis laws c hash b k ∙ l.is_tip;
    branch = l.branch;
    replayed = with_block-Replayed c hash b k l.tip_hash l.branch l.replayed;
    indexed = with_block-IsIndexed c hash b k l.height l.branch size l.indexed;
  }

  Outcome-IsLedger :
      (c : Chain Tree) (hash : Hash256) (b : Block) {r : Result SubmitOutcome × Chain Tree}
      → 0 < b.header.height
      → length hash ≡ 32
      → Inv x genesis c.state
      → c.genesis ≡ g
      → (l : IsLedger c.state) → HasRoom x g s₀ genesis l.branch
      → Outcome x c hash b r
      → IsLedger r.1.state
  Outcome-IsLedger c hash b positive size inv of_g l room (refused e) = l
  Outcome-IsLedger c hash b positive size inv of_g l room (known seen) = l
  Outcome-IsLedger c hash b positive size inv of_g l room (orphaned fresh lost) = l
  Outcome-IsLedger c hash b positive size inv of_g l room (failed k e) =
      with_block-IsLedger c hash b k size l
  Outcome-IsLedger c hash b positive size inv of_g l room (beaten k tip_hash tip_work at more) =
      with_block-IsLedger c hash b k size l
  Outcome-IsLedger c hash b positive size inv of_g l room
        (adopted k tip_hash tip_work at less out c' re) =
      let d = with_block x c hash b (work_of x k) in
      let was_tip = tip-after x genesis laws c hash b k ∙ l.is_tip in
      let same_tip : l.tip_hash ≡ tip_hash = cc (was_tip, at.is_tip) in
      let inv' = with_block-Inv x genesis laws c hash b k inv positive in
      let before =
        subst (λ h. Replayed x g s₀ genesis d.state h l.branch) same_tip
          (with_block-Replayed c hash b k l.tip_hash l.branch l.replayed) in
      let (rest, split, replayed) =
        Reorganized-Replayed x g s₀ genesis laws d c' tip_hash hash b.header.height out l.branch
          of_g inv'.linked before room re in
      let was = with_block-IsIndexed c hash b k l.height l.branch size l.indexed in
      let path : Down x d.state hash (reverse re.apply ++ rest) genesis =
        Down-same x g s₀ genesis
          (λ h e q.
            sym (
              get_block-same x _ d.state
                (commit-SameBlocks x re.overlay re.undo re.apply b.header.height hash d.state) h)
            ∙ ap (λ (f : Chain Tree). get_block x f.state h) (sym re.written)
            ∙ q)
          replayed.path in
      record {
        height = b.header.height;
        tip_hash = hash;
        is_tip =
            ap (λ (e : Chain Tree). tip x e.state) re.written
            ∙ tip-commit x laws re.overlay re.undo re.apply b.header.height hash d.state;
        branch = reverse re.apply ++ rest;
        replayed = replayed;
        indexed =
            Reorganized-IsIndexed x genesis laws d c' tip_hash hash l.height out rest b before.root
              re inv'.linked inv'.small before.rooted before.at_zero
              (block_stored x genesis laws c hash b k)
              (subst (λ v. Down x d.state tip_hash v genesis) split before.path) path
              (subst (IsIndexed x genesis d.state l.height) split was);
      }

  length-block_id : (h : BlockHeader) (ds : Dataset) → length (block_id x h ds) ≡ 32
  unfolding block_id ondris_hash ondris_hash_with_accesses
  length-block_id h ds = laws.blake3.length-hash _

  -- Whatever block is submitted to a well-formed chain and whatever comes of it, the accounts and
  -- the canonical index stay those of the tip's branch. Before, the branch from genesis to the tip
  -- can be replayed over the accounts at genesis, every account is what that replay makes of it,
  -- the index has at each height of 64 bits the hash of the branch's block there and nothing above
  -- the tip, stored hashes have 32 bytes, and the branch has room in 64 bits for all that it
  -- credits and for all its transactions. Then the same holds afterwards of the branch that leads
  -- to the tip then, but for the room.
  pub submit_block-IsLedger :
      (c : Chain Tree) (b : Block)
      → Inv x genesis c.state
      → c.genesis ≡ g
      → (l : IsLedger c.state) → HasRoom x g s₀ genesis l.branch
      → IsLedger (submit_block x b c).1.state
  submit_block-IsLedger c b inv of_g l room = of_course (submit_block-Submission x c b)
    where
      of_course : {r : Result SubmitOutcome × Chain Tree} → Submission x c b r → IsLedger r.1.state
      of_course (early e) = l
      of_course (judged ds c₁ positive ready outcome) =
          let (l₁, room₁) =
            subst (λ s. (m : IsLedger s) × HasRoom x g s₀ genesis m.branch) (sym ready.same_state)
              (l, room) in
          Outcome-IsLedger c₁ (block_id x b.header ds) b positive (length-block_id b.header ds)
            (subst (Inv x genesis) (sym ready.same_state) inv) (ready.same_genesis ∙ of_g) l₁ room₁
            outcome
