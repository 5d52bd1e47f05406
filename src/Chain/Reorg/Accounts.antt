-- ===== src/Chain/Reorg/Accounts.antt =====
-- The accounts that a reorganization writes.
use ondris.Prelude.{
  ℕ, ◌≡◌, refl, sym, ◌∙◌, ap, none, [], ◌∷◌, bytes_eq, bytes_eq_sound, Bool-cases, inl, inr, ok,
  arith,
}
use ondris.Primitives.{Hash256, Address}
use ondris.State.{Externals, ChainState, get_account, set_account}
use ondris.State.Frames.{
  accounts-set_canonical_height, accounts-remove_canonical_height, accounts-set_tip,
  get_account_of_accounts,
}
use ondris.State.Reads.{ExternalsLaws, get_account-set_account}
use ondris.Chain.{GenesisConfig}
use ondris.Chain.Ledger.{Overlay, lookup, get_acc}
use ondris.Chain.Ledger.Keys.{IsMap, simulated-IsMap}
use ondris.Chain.Fork.{BlockChain}
use ondris.Chain.Reorg.{simulate, set_accounts, remove_heights, set_heights, commit}

module _ {Tree : Type 0} (x : Externals Tree) where
  remove_heights_accounts :
      (bs : BlockChain) (s : ChainState Tree) → (remove_heights x bs s).accounts ≡ s.accounts
  unfolding remove_heights
  remove_heights_accounts [] s = refl
  remove_heights_accounts ((_, b) ∷ bs) s =
      remove_heights_accounts bs _ ∙ accounts-remove_canonical_height x s b.header.height

  set_heights_accounts :
      (bs : BlockChain) (s : ChainState Tree) → (set_heights x bs s).accounts ≡ s.accounts
  unfolding set_heights
  set_heights_accounts [] s = refl
  set_heights_accounts ((h, b) ∷ bs) s =
      set_heights_accounts bs _ ∙ accounts-set_canonical_height x s b.header.height h

  module _ (laws : ExternalsLaws x) (g : GenesisConfig) where
    -- Each entry of a map is written once, over what was there.
    get_account-set_accounts :
        (o : Overlay) (s : ChainState Tree) (a : Address)
        → IsMap o
        → get_account x (set_accounts x o s) a ≡ get_acc x g s o a
    unfolding set_accounts get_acc lookup
    get_account-set_accounts [] s a h = refl
    get_account-set_accounts ((k, v) ∷ o) s a h =
        let later = get_account-set_accounts o (set_account x s k v) a h.1 in
        let under = get_account-set_account x laws s k v a in
        elim (Bool-cases (bytes_eq k a)) [
          | inl same ↦
              let missing : lookup o a ≡ none =
                ap (lookup o) (sym (bytes_eq_sound k a same)) ∙ h.0 in
              later ∙ ground (arith, missing, under, same)
          | inr differ ↦ later ∙ ground (arith, under, differ)
        ]

    -- After a commit of an overlay every account is what the overlay shows of it.
    pub get_account-commit :
        (o : Overlay) (undo apply : BlockChain) (n : ℕ) (h : Hash256) (s : ChainState Tree)
        → IsMap o
        → (a : Address) → get_account x (commit x o undo apply n h s) a ≡ get_acc x g s o a
    unfolding commit
    get_account-commit o undo apply n h s m a =
        get_account_of_accounts x _ (set_accounts x o s)
          (accounts-set_tip x _ n h
            ∙ set_heights_accounts apply (remove_heights x undo (set_accounts x o s))
            ∙ remove_heights_accounts undo (set_accounts x o s))
          a
        ∙ get_account-set_accounts o s a m

    pub simulate-IsMap :
        (s : ChainState Tree) (undo apply : BlockChain) (o : Overlay)
        → simulate x g s undo apply ≡ ok o
        → IsMap o
    unfolding simulate
    simulate-IsMap s undo apply o e = simulated-IsMap x g s undo apply o e
