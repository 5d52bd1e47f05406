-- ===== src/Chain/Genesis/Premine.antt =====
-- The coins that `init_genesis` of chain.rs credits.
use ondris.Prelude.{
  ℕ, ◌+◌, ◌≤◌, ◌≡◌, refl, sym, ◌∙◌, ap, subst, inl, inr, none, List, [], ◌∷◌, bytes_eq,
  bytes_eq_sound, Bool-cases, ok, ok-injective, >>=-eq-ok, arith,
}
use ondris.Primitives.{Address, Hex, address_from_str}
use ondris.State.{
  Externals, ChainState, Account, default_account, saturating_add, get_account, set_account, credit,
  set_chainwork, store_block, set_canonical_height, tip,
}
use ondris.State.Reads.{ExternalsLaws, get_account-set_account}
use ondris.State.Frames.{
  accounts-set_tip, accounts-set_canonical_height, get_account_of_accounts, store_block-SameLedger,
  set_chainwork-SameLedger,
}
use ondris.Chain.{
  Chain, GenesisConfig, PremineEntry, credit_all, parse_entries, premine_parsed, genesis_block,
  open_chain,
}
use ondris.Chain.Genesis.{hash, written, open_chain-written}
use ondris.Chain.Ledger.{get_acc, lookup}
use ondris.Chain.Ledger.Supply.{Apart, IsDistinct, balance, supply}

-- What the entries of a premine credit in all.
abbrev pub premined : List PremineEntry → ℕ
premined [] = 0
premined (e ∷ es) = e.amount + premined es

abbrev credited : List (Address × ℕ) → ℕ
credited [] = 0
credited ((_, n) ∷ rest) = n + credited rest

credited-parse_entries :
    (h : Hex) (es : List PremineEntry) (rest : List (Address × ℕ))
    → parse_entries h es ≡ ok rest
    → credited rest ≡ premined es
unfolding parse_entries
credited-parse_entries h [] rest e = ap credited (sym (ok-injective e))
credited-parse_entries h (p ∷ es) rest e =
    let (a, parsed, e₁) = >>=-eq-ok (address_from_str h p.address) _ e in
    let (rest', others, e₂) = >>=-eq-ok (parse_entries h es) _ e₁ in
    omega (arith, ap credited (ok-injective e₂), credited-parse_entries h es rest' others)

module _ {Tree : Type 0} (x : Externals Tree) (laws : ExternalsLaws x) (g : GenesisConfig) where
  -- States with the same accounts hold the same.
  supply-same :
      (s t : ChainState Tree) (l : List Address)
      → ((a : Address) → get_account x s a ≡ get_account x t a)
      → supply x g s l [] ≡ supply x g t l []
  unfolding get_acc lookup
  supply-same s t [] same = refl
  supply-same s t (a ∷ l) same = omega (arith, ap balance (same a), supply-same s t l same)

  supply-empty :
      (s : ChainState Tree) (l : List Address)
      → ((a : Address) → get_account x s a ≡ ok default_account)
      → supply x g s l [] ≡ 0
  unfolding get_acc lookup
  supply-empty s [] empty = refl
  supply-empty s (a ∷ l) empty = omega (arith, ap balance (empty a), supply-empty s l empty)

  module _ (s : ChainState Tree) (k : Address) (v : Account) where
    supply-set_account_elsewhere :
        (l : List Address) → Apart k l → supply x g (set_account x s k v) l [] ≡ supply x g s l []
    unfolding get_acc lookup
    supply-set_account_elsewhere [] h = refl
    supply-set_account_elsewhere (a ∷ l) h =
        let here : get_account x (set_account x s k v) a ≡ get_account x s a =
          get_account-set_account x laws s k v a ∙ rw h.0 in
        omega (arith, ap balance here, supply-set_account_elsewhere l h.1)

    supply-set_account :
        (l : List Address) (was : Account) (n : ℕ)
        → IsDistinct l
        → get_account x s k ≡ ok was
        → v.balance ≤ was.balance + n
        → supply x g (set_account x s k v) l [] ≤ supply x g s l [] + n
    unfolding get_acc lookup
    supply-set_account [] was n d shown more = omega arith
    supply-set_account (a ∷ l) was n d shown more =
        let after = get_account-set_account x laws s k v a in
        elim (Bool-cases (bytes_eq k a)) [
          | inl same ↦
              let one = bytes_eq_sound k a same in
              let now : get_account x (set_account x s k v) a ≡ ok v = after ∙ rw same in
              let before : get_account x s a ≡ ok was = ap (get_account x s) (sym one) ∙ shown in
              let others = supply-set_account_elsewhere l (subst (λ b. Apart b l) (sym one) d.0) in
              omega (arith, ap balance now, ap balance before, others, more)
          | inr differ ↦
              let here : get_account x (set_account x s k v) a ≡ get_account x s a =
                after ∙ rw differ in
              omega (arith, ap balance here, supply-set_account l was n d.1 shown more)
        ]

  supply-credit_all :
      (s s' : ChainState Tree) (rest : List (Address × ℕ)) (l : List Address)
      → IsDistinct l
      → credit_all x s rest ≡ ok s'
      → supply x g s' l [] ≤ supply x g s l [] + credited rest
  unfolding credit_all credit
  supply-credit_all s s' [] l d e = omega (arith, ap (λ t. supply x g t l []) (ok-injective e))
  supply-credit_all s s' ((a, n) ∷ rest) l d e =
      let (s₁, first, later) = >>=-eq-ok (credit x s a n) _ e in
      let (was, shown, e₁) = >>=-eq-ok (get_account x s a) _ first in
      let v : Account = record was { balance = saturating_add was.balance n } in
      let one = supply-set_account s a v l was n d shown (omega arith) in
      omega (
        arith,
        one,
        ap (λ t. supply x g t l []) (ok-injective e₁),
        supply-credit_all s₁ s' rest l d later,
      )

  -- On a database without accounts, what any addresses hold together at genesis is at most the
  -- premine.
  pub open_chain-premined :
      (h : Hex) (s : ChainState Tree) (c : Chain Tree) (l : List Address)
      → tip x s ≡ ok none
      → ((a : Address) → get_account x s a ≡ ok default_account)
      → open_chain x h g s ≡ ok c
      → IsDistinct l
      → supply x g c.state l [] ≤ premined g.premine
  unfolding written hash premine_parsed
  open_chain-premined h s c l no_tip empty e d =
      let (premine, s₁, given, is_c, _, parsed) = open_chain-written x laws h g s c no_tip e in
      let k = hash x laws g s in
      let worked = set_chainwork x s₁ k g.initial_difficulty in
      let stored = store_block x worked k (genesis_block g) in
      let indexed = set_canonical_height x stored 0 k in
      let same =
        accounts-set_tip x indexed 0 k
        ∙ accounts-set_canonical_height x stored 0 k
        ∙ (store_block-SameLedger x worked k (genesis_block g)).accounts
        ∙ (set_chainwork-SameLedger x s₁ k g.initial_difficulty).accounts in
      let now : supply x g c.state l [] ≡ supply x g s₁ l [] =
        ap (λ t. supply x g t l []) (sym is_c)
        ∙ supply-same _ s₁ l (get_account_of_accounts x _ s₁ same) in
      omega (
        arith,
        now,
        supply-credit_all s s₁ premine l d given,
        supply-empty s l empty,
        credited-parse_entries h g.premine premine parsed,
      )
