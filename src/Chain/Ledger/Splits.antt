-- ===== src/Chain/Ledger/Splits.antt =====
-- Branches one after the other, in the overlay of `reconsider_tip` of chain.rs.
use ondris.Prelude.{
  ℕ, ◌+◌, ◌≡◌, refl, sym, ◌∙◌, ap, List, [], ◌∷◌, ◌++◌, length, ok, arith, >>=-eq-ok, ok-injective,
  >>=-assoc, >>=-cong, ◌>>=◌,
}
use ondris.Primitives.{Hash256}
use ondris.Block.{Block}
use ondris.State.{Externals, ChainState}
use ondris.Chain.{GenesisConfig, block_reward}
use ondris.Chain.Ledger.{Overlay, get_acc, apply_block, apply_all}
use ondris.Chain.Ledger.Rollback.{Headroom}
use ondris.Chain.Ledger.Branches.{amounts, credits, transfers, apply_block-rollback}

pub credits-append :
    (g : GenesisConfig) (bs cs : List (Hash256 × Block))
    → credits g (bs ++ cs) ≡ credits g bs + credits g cs
credits-append g [] cs = omega arith
credits-append g ((_, b) ∷ bs) cs = omega (arith, credits-append g bs cs)

pub transfers-append :
    (bs cs : List (Hash256 × Block)) → transfers (bs ++ cs) ≡ transfers bs + transfers cs
transfers-append [] cs = omega arith
transfers-append ((_, b) ∷ bs) cs = omega (arith, transfers-append bs cs)

module _ {Tree : Type 0} (x : Externals Tree) (g : GenesisConfig) (s : ChainState Tree) where
  pub apply_all-append :
      (o : Overlay) (bs cs : List (Hash256 × Block))
      → apply_all x g s o (bs ++ cs) ≡ (apply_all x g s o bs >>= λ v. apply_all x g s v cs)
  unfolding apply_all
  apply_all-append o [] cs = refl
  apply_all-append o ((h, b) ∷ bs) cs =
      >>=-cong (apply_block x g s o b) _ _ (λ v. apply_all-append v bs cs)
      ∙ sym (
          >>=-assoc (apply_block x g s o b) (λ v. apply_all x g s v bs) (λ v. apply_all x g s v cs))

  -- A branch that is applied takes up its own part of the room.
  pub apply_all-Headroom :
      (o o' : Overlay) (bs : List (Hash256 × Block)) (n k : ℕ)
      → apply_all x g s o bs ≡ ok o'
      → Headroom x g s o (n + credits g bs) (k + transfers bs)
      → Headroom x g s o' n k
  unfolding apply_all
  apply_all-Headroom o o' [] n k e room = record {
    balance =
        λ a v q. omega (arith, room.balance a v (ap (λ p. get_acc x g s p a) (ok-injective e) ∙ q));
    nonce =
        λ a v q. omega (arith, room.nonce a v (ap (λ p. get_acc x g s p a) (ok-injective e) ∙ q));
  }
  apply_all-Headroom o o' ((h, b) ∷ bs) n k e room =
      let (o₁, first, rest) = >>=-eq-ok (apply_block x g s o b) _ e in
      let reward = block_reward g b.header.height in
      let room₀ : Headroom x g s o (n + credits g bs + reward + amounts b.transactions)
          (k + transfers bs + length b.transactions) =
        record {
          balance = λ a v q. omega (arith, room.balance a v q);
          nonce = λ a v q. omega (arith, room.nonce a v q);
        } in
      apply_all-Headroom o₁ o' bs n k rest
        (apply_block-rollback x g s o o₁ b (n + credits g bs) (k + transfers bs) first room₀).0
