-- ===== src/State/Reads.antt =====
-- Every read of the chain state after every write: the trees are maps, and the encodings round
-- trip. The chain's proofs use these laws and never look into a tree.
use ondris.Prelude.{
  ℕ, ◌^◌, ◌<◌, ◌≡◌, ◌≢◌, inl, inr, true, false, none, some, Bytes, length, bytes_eq, bytes_eq_sound,
  bytes_eq_of_eq, Bool-cases, to_be_bytes, from_be_bytes-to_be_bytes, to_be_bytes-injective, ok,
  arith, IsU64, if◌then◌else◌,
}
use ondris.Primitives.{Hash256, Address, Blake3Laws, Ed25519Laws}
use ondris.Block.{Block, JsonLaws}
use ondris.State.{
  SledLaws, Account, Externals, ChainState, tip_key, get_account, set_account, tip, set_tip,
  store_block, has_block, get_block, get_chainwork, set_chainwork, set_canonical_height,
  remove_canonical_height, get_hash_by_height,
}

-- The documented behaviour of the crates.
pub record ExternalsLaws {Tree : Type 0} (x : Externals Tree) : Type 0 where
  pub blake3 : Blake3Laws x.blake3
  pub ed25519 : Ed25519Laws x.ed25519
  pub sled : SledLaws x.sled
  pub tx_json : JsonLaws x.tx_json
  pub block_json : JsonLaws x.block_json
  pub account_json : JsonLaws x.account_json
  pub tip_json : JsonLaws x.tip_json

bytes_ne : {a b : Bytes} → bytes_eq a b ≡ false → a ≢ b
bytes_ne h e = cc (bytes_eq_of_eq e)

module _ {Tree : Type 0} (x : Externals Tree) (laws : ExternalsLaws x) where
  tree_get :
      (t : Tree) (k v j : Bytes)
      → x.sled.get (x.sled.insert t k v) j ≡ (if bytes_eq k j then some v else x.sled.get t j)
  tree_get t k v j = elim (Bool-cases (bytes_eq k j)) [
    | inl same ↦ rw same (rw (← bytes_eq_sound k j same) (laws.sled.get-insert_self t k v))
    | inr differ ↦ rw differ (laws.sled.get-insert_ne t k v j (bytes_ne differ))
  ]

  pub get_account-set_account :
      (s : ChainState Tree) (a : Address) (acc : Account) (b : Address)
      → get_account x (set_account x s a acc) b
        ≡ (if bytes_eq a b then ok acc else get_account x s b)
  unfolding get_account set_account
  get_account-set_account s a acc b = elim (Bool-cases (bytes_eq a b)) [
    | inl same ↦
        rw (tree_get s.accounts a (x.account_json.to_vec acc) b, same)
          (rw (laws.account_json.from_slice-to_vec acc))
    | inr differ ↦ rw (tree_get s.accounts a (x.account_json.to_vec acc) b, differ)
  ]

  pub get_block-store_block :
      (s : ChainState Tree) (h : Hash256) (block : Block) (k : Hash256)
      → get_block x (store_block x s h block) k
        ≡ (if bytes_eq h k then ok (some block) else get_block x s k)
  unfolding get_block store_block
  get_block-store_block s h block k = elim (Bool-cases (bytes_eq h k)) [
    | inl same ↦
        rw (tree_get s.blocks h (x.block_json.to_vec block) k, same)
          (rw (laws.block_json.from_slice-to_vec block))
    | inr differ ↦ rw (tree_get s.blocks h (x.block_json.to_vec block) k, differ)
  ]

  pub has_block-store_block :
      (s : ChainState Tree) (h : Hash256) (block : Block) (k : Hash256)
      → has_block x (store_block x s h block) k ≡ (if bytes_eq h k then true else has_block x s k)
  unfolding has_block store_block
  has_block-store_block s h block k =
      ground (arith, tree_get s.blocks h (x.block_json.to_vec block) k)

  -- A block that can be read is there.
  pub has_block_of_get_block :
      (s : ChainState Tree) (h : Hash256) (block : Block)
      → get_block x s h ≡ ok (some block)
      → has_block x s h ≡ true
  unfolding has_block get_block
  has_block_of_get_block s h block e = ground arith

  pub get_chainwork-set_chainwork :
      (s : ChainState Tree) (h : Hash256) (work : ℕ) (k : Hash256)
      → work < 2 ^ 128
      → get_chainwork x (set_chainwork x s h work) k
        ≡ (if bytes_eq h k then ok (some work) else get_chainwork x s k)
  unfolding get_chainwork set_chainwork
  get_chainwork-set_chainwork s h work k small = elim (Bool-cases (bytes_eq h k)) [
    | inl same ↦
        rw (tree_get s.chainwork h (to_be_bytes 16 work) k, same)
          (rw (from_be_bytes-to_be_bytes 16 work (omega arith)))
    | inr differ ↦ rw (tree_get s.chainwork h (to_be_bytes 16 work) k, differ)
  ]

  pub tip-set_tip :
      (s : ChainState Tree) (height : ℕ) (h : Hash256)
      → tip x (set_tip x s height h) ≡ ok (some (height, h))
  unfolding tip set_tip
  tip-set_tip s height h =
      rw
        (laws.sled.get-insert_self s.meta tip_key
          (x.tip_json.to_vec (record { height = height; hash = h })))
        (rw (laws.tip_json.from_slice-to_vec (record { height = height; hash = h })))

  heights_ne : (m n : ℕ) → IsU64 m → IsU64 n → m ≢ n → to_be_bytes 8 m ≢ to_be_bytes 8 n
  heights_ne m n hm hn ne e = ne (to_be_bytes-injective 8 m n hm hn e)

  pub get_hash-set_canonical_height :
      (s : ChainState Tree) (n : ℕ) (h : Hash256)
      → length h ≡ 32
      → get_hash_by_height x (set_canonical_height x s n h) n ≡ ok (some h)
  unfolding get_hash_by_height set_canonical_height
  get_hash-set_canonical_height s n h len =
      rw (laws.sled.get-insert_self s.heights (to_be_bytes 8 n) h) (rw len)

  pub get_hash-set_canonical_height_ne :
      (s : ChainState Tree) (m n : ℕ) (h : Hash256)
      → IsU64 m
      → IsU64 n
      → m ≢ n
      → get_hash_by_height x (set_canonical_height x s m h) n ≡ get_hash_by_height x s n
  unfolding get_hash_by_height set_canonical_height
  get_hash-set_canonical_height_ne s m n h hm hn ne = rw (
      laws.sled.get-insert_ne s.heights (to_be_bytes 8 m) h (to_be_bytes 8 n)
        (heights_ne m n hm hn ne))

  pub get_hash-remove_canonical_height :
      (s : ChainState Tree) (n : ℕ)
      → get_hash_by_height x (remove_canonical_height x s n) n ≡ ok none
  unfolding get_hash_by_height remove_canonical_height
  get_hash-remove_canonical_height s n = rw (laws.sled.get-remove_self s.heights (to_be_bytes 8 n))

  pub get_hash-remove_canonical_height_ne :
      (s : ChainState Tree) (m n : ℕ)
      → IsU64 m
      → IsU64 n
      → m ≢ n
      → get_hash_by_height x (remove_canonical_height x s m) n ≡ get_hash_by_height x s n
  unfolding get_hash_by_height remove_canonical_height
  get_hash-remove_canonical_height_ne s m n hm hn ne = rw (
      laws.sled.get-remove_ne s.heights (to_be_bytes 8 m) (to_be_bytes 8 n)
        (heights_ne m n hm hn ne))
