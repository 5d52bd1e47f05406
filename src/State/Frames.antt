-- ===== src/State/Frames.antt =====
-- Which trees each write leaves alone, and the reads that cannot tell.
use ondris.Prelude.{ℕ, ◌≡◌, refl, sym, ◌∙◌, ap, subst, ok, ok-injective, >>=-eq-ok}
use ondris.Primitives.{Hash256, Address}
use ondris.Block.{Block, Transaction}
use ondris.State.{
  mempool_insert, mempool_remove, Externals, ChainState, Account, get_account, set_account, tip,
  set_tip, store_block, has_block, get_block, get_chainwork, set_chainwork, set_canonical_height,
  remove_canonical_height, get_hash_by_height, credit, decode_entry,
}

-- Two states with the same blocks and the same work of each block.
pub record SameBlocks {Tree : Type 0} (s t : ChainState Tree) : Type 0 where
  pub blocks : s.blocks ≡ t.blocks
  pub chainwork : s.chainwork ≡ t.chainwork

-- Two states with the same accounts, canonical index and tip.
pub record SameLedger {Tree : Type 0} (s t : ChainState Tree) : Type 0 where
  pub accounts : s.accounts ≡ t.accounts
  pub heights : s.heights ≡ t.heights
  pub meta : s.meta ≡ t.meta

module _ {Tree : Type 0} where
  pub SameBlocks-trans :
      {s t u : ChainState Tree} → SameBlocks s t → SameBlocks t u → SameBlocks s u
  SameBlocks-trans p q = record {
    blocks = p.blocks ∙ q.blocks;
    chainwork = p.chainwork ∙ q.chainwork;
  }

module _ {Tree : Type 0} (x : Externals Tree) (s : ChainState Tree) where
  pub set_account-SameBlocks : (a : Address) (acc : Account) → SameBlocks (set_account x s a acc) s
  unfolding set_account
  set_account-SameBlocks a acc = record { blocks = refl; chainwork = refl }

  pub credit-SameBlocks :
      (s' : ChainState Tree) (a : Address) (n : ℕ) → credit x s a n ≡ ok s' → SameBlocks s' s
  unfolding credit
  credit-SameBlocks s' a n e =
      let (acc, read, e₁) = >>=-eq-ok (get_account x s a) _ e in
      subst (λ t. SameBlocks t s) (ok-injective e₁) (set_account-SameBlocks a _)

  pub heights-credit :
      (s' : ChainState Tree) (a : Address) (n : ℕ) → credit x s a n ≡ ok s' → s'.heights ≡ s.heights
  unfolding credit set_account
  heights-credit s' a n e =
      let (acc, read, e₁) = >>=-eq-ok (get_account x s a) _ e in
      ap (λ (t : ChainState Tree). t.heights) (sym (ok-injective e₁))

  pub set_canonical_height-SameBlocks :
      (n : ℕ) (h : Hash256) → SameBlocks (set_canonical_height x s n h) s
  unfolding set_canonical_height
  set_canonical_height-SameBlocks n h = record { blocks = refl; chainwork = refl }

  pub remove_canonical_height-SameBlocks : (n : ℕ) → SameBlocks (remove_canonical_height x s n) s
  unfolding remove_canonical_height
  remove_canonical_height-SameBlocks n = record { blocks = refl; chainwork = refl }

  pub heights-set_account :
      (a : Address) (acc : Account) → (set_account x s a acc).heights ≡ s.heights
  unfolding set_account
  heights-set_account a acc = refl

  pub heights-set_tip : (n : ℕ) (h : Hash256) → (set_tip x s n h).heights ≡ s.heights
  unfolding set_tip
  heights-set_tip n h = refl

  pub accounts-set_canonical_height :
      (n : ℕ) (h : Hash256) → (set_canonical_height x s n h).accounts ≡ s.accounts
  unfolding set_canonical_height
  accounts-set_canonical_height n h = refl

  pub accounts-remove_canonical_height :
      (n : ℕ) → (remove_canonical_height x s n).accounts ≡ s.accounts
  unfolding remove_canonical_height
  accounts-remove_canonical_height n = refl

  pub accounts-set_tip : (n : ℕ) (h : Hash256) → (set_tip x s n h).accounts ≡ s.accounts
  unfolding set_tip
  accounts-set_tip n h = refl

  pub set_tip-SameBlocks : (n : ℕ) (h : Hash256) → SameBlocks (set_tip x s n h) s
  unfolding set_tip
  set_tip-SameBlocks n h = record { blocks = refl; chainwork = refl }

  pub store_block-SameLedger : (h : Hash256) (b : Block) → SameLedger (store_block x s h b) s
  unfolding store_block
  store_block-SameLedger h b = record { accounts = refl; heights = refl; meta = refl }

  pub set_chainwork-SameLedger : (h : Hash256) (w : ℕ) → SameLedger (set_chainwork x s h w) s
  unfolding set_chainwork
  set_chainwork-SameLedger h w = record { accounts = refl; heights = refl; meta = refl }

  pub mempool_insert-SameBlocks : (t : Transaction) → SameBlocks (mempool_insert x s t) s
  unfolding mempool_insert
  mempool_insert-SameBlocks t = record { blocks = refl; chainwork = refl }

  pub mempool_insert-SameLedger : (t : Transaction) → SameLedger (mempool_insert x s t) s
  unfolding mempool_insert
  mempool_insert-SameLedger t = record { accounts = refl; heights = refl; meta = refl }

  pub mempool_remove-SameBlocks : (h : Hash256) → SameBlocks (mempool_remove x s h) s
  unfolding mempool_remove
  mempool_remove-SameBlocks h = record { blocks = refl; chainwork = refl }

  pub mempool_remove-SameLedger : (h : Hash256) → SameLedger (mempool_remove x s h) s
  unfolding mempool_remove
  mempool_remove-SameLedger h = record { accounts = refl; heights = refl; meta = refl }

  pub get_block-set_chainwork :
      (h : Hash256) (w : ℕ) (k : Hash256) → get_block x (set_chainwork x s h w) k ≡ get_block x s k
  unfolding get_block set_chainwork
  get_block-set_chainwork h w k = refl

  pub has_block-set_chainwork :
      (h : Hash256) (w : ℕ) (k : Hash256) → has_block x (set_chainwork x s h w) k ≡ has_block x s k
  unfolding has_block set_chainwork
  has_block-set_chainwork h w k = refl

  pub get_chainwork-store_block :
      (h : Hash256) (b : Block) (k : Hash256)
      → get_chainwork x (store_block x s h b) k ≡ get_chainwork x s k
  unfolding get_chainwork store_block
  get_chainwork-store_block h b k = refl

module _ {Tree : Type 0} (x : Externals Tree) (s t : ChainState Tree) where
  pub get_block-same : SameBlocks s t → (h : Hash256) → get_block x s h ≡ get_block x t h
  unfolding get_block
  get_block-same e h = ap (λ b. decode_entry x.block_json.from_slice (x.sled.get b h)) e.blocks

  pub has_block-same : SameBlocks s t → (h : Hash256) → has_block x s h ≡ has_block x t h
  unfolding has_block
  has_block-same e h = rw e.blocks

  pub get_chainwork-same :
      SameBlocks s t → (h : Hash256) → get_chainwork x s h ≡ get_chainwork x t h
  unfolding get_chainwork
  get_chainwork-same e h = rw e.chainwork

  pub get_account_of_accounts :
      s.accounts ≡ t.accounts → (a : Address) → get_account x s a ≡ get_account x t a
  unfolding get_account
  get_account_of_accounts e a = rw e

  pub tip-same : SameLedger s t → tip x s ≡ tip x t
  unfolding tip
  tip-same e = rw e.meta

  pub get_account-same : SameLedger s t → (a : Address) → get_account x s a ≡ get_account x t a
  unfolding get_account
  get_account-same e a = rw e.accounts

  pub get_hash_of_heights :
      s.heights ≡ t.heights → (n : ℕ) → get_hash_by_height x s n ≡ get_hash_by_height x t n
  unfolding get_hash_by_height
  get_hash_of_heights e n = rw e

  pub get_hash_by_height-same :
      SameLedger s t → (n : ℕ) → get_hash_by_height x s n ≡ get_hash_by_height x t n
  get_hash_by_height-same e n = get_hash_of_heights e.heights n
