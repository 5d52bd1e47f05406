-- ===== src/Chain/Fork/Heights.antt =====
-- The path that `fork_paths` of chain.rs undoes is the top of the old tip's branch.
use mathlib.Core.List.{reverse-reverse}
use ondris.Prelude.{
  ℕ, zero, suc, ◌<◌, min, ◌≡◌, refl, sym, ◌∙◌, ap, subst, inl, inr, some, ◌∷◌, ◌++◌, reverse, ltb,
  ltb→lt, bytes_eq, bytes_eq_of_eq, Bool-cases, ok, ok-injective, >>=-eq-ok, missing_block,
  missing_ancestor, All, All-append, arith,
}
use ondris.Primitives.{Hash256}
use ondris.Block.{Block}
use ondris.State.{Externals, ChainState, get_block}
use ondris.Chain.Fork.{BlockChain, fetch, climb, meet, fork_paths}
use ondris.Chain.Fork.Paths.{
  Down, here, next, Down-append, fork_paths-Meets, fetch-eq-ok, climb_stop, climb_go, meet_stop,
  meet_go, climb-Ends,
}
use ondris.Chain.Fork.Total.{IsLinked, parent_above, climb_total}

-- None of the blocks is at height 0.
abbrev pub IsRaised : BlockChain → Type 0
IsRaised = All λ p. 0 < p.1.header.height

module _ {Tree : Type 0} (x : Externals Tree) (s : ChainState Tree) where
  -- One block is stored under a hash.
  pub one_block :
      (h : Hash256) (b c : Block)
      → get_block x s h ≡ ok (some b)
      → get_block x s h ≡ ok (some c)
      → b ≡ c
  one_block h b c p q = cc

  climb-IsRaised :
      (fuel floor : ℕ) (h : Hash256) (b : Block) (r : BlockChain × Hash256 × Block)
      → climb x s fuel floor h b ≡ ok r
      → IsRaised r.0
  climb-IsRaised zero floor h b r e = unfold climb in cc e
  climb-IsRaised (suc fuel) floor h b r e = elim (Bool-cases (ltb floor b.header.height)) [
    | inr stop ↦
        subst (λ q. IsRaised q.0) (ok-injective (sym (climb_stop x s fuel floor h b stop) ∙ e)) tt
    | inl go ↦
        let (parent, found, e₁) =
          >>=-eq-ok (fetch x s missing_ancestor b.header.prev_hash) _
            (sym (climb_go x s fuel floor h b go) ∙ e) in
        let (r', climbed, e₂) = >>=-eq-ok (climb x s fuel floor b.header.prev_hash parent) _ e₁ in
        subst (λ q. IsRaised q.0) (ok-injective e₂)
          (
            omega (arith, ltb→lt floor b.header.height go),
            climb-IsRaised fuel floor b.header.prev_hash parent r' climbed,
          )
  ]

  module _ (genesis : Hash256) (linked : IsLinked x s genesis) where
    meet-IsRaised :
        (fuel : ℕ) (h : Hash256) (b : Block) (k : Hash256) (c : Block) (r : BlockChain × BlockChain)
        → get_block x s h ≡ ok (some b)
        → get_block x s k ≡ ok (some c)
        → b.header.height ≡ c.header.height
        → meet x s fuel h b k c ≡ ok r
        → IsRaised r.0 × IsRaised r.1
    meet-IsRaised zero h b k c r hs ks same e = unfold meet in cc e
    meet-IsRaised (suc fuel) h b k c r hs ks same e = elim (Bool-cases (bytes_eq h k)) [
      | inl one ↦
          subst (λ q. IsRaised q.0 × IsRaised q.1)
            (ok-injective (sym (meet_stop x s fuel h b k c one) ∙ e)) (tt, tt)
      | inr differ ↦
          let positive : 0 < b.header.height = elim (linked h b hs) [
            | inr above ↦ omega (arith, above.2)
            | inl at_genesis ↦ elim (linked k c ks) [
              | inl also ↦ cc (bytes_eq_of_eq (at_genesis.0 ∙ sym also.0))
              | inr above ↦ omega (arith, same, above.2)
            ]
          ] in
          let (bp, found, height) = parent_above x s genesis linked h b hs positive in
          let (cp, found', height') =
            parent_above x s genesis linked k c ks (omega (arith, same, positive)) in
          let (bp', got, e₁) =
            >>=-eq-ok (fetch x s missing_ancestor b.header.prev_hash) _
              (sym (meet_go x s fuel h b k c differ) ∙ e) in
          let (cp', got', e₂) = >>=-eq-ok (fetch x s missing_ancestor c.header.prev_hash) _ e₁ in
          let (r', met, e₃) =
            >>=-eq-ok (meet x s fuel b.header.prev_hash bp' c.header.prev_hash cp') _ e₂ in
          let at = fetch-eq-ok x s missing_ancestor b.header.prev_hash bp' got in
          let at' = fetch-eq-ok x s missing_ancestor c.header.prev_hash cp' got' in
          let one : bp'.header.height ≡ bp.header.height =
            ap (λ (d : Block). d.header.height) (one_block b.header.prev_hash bp' bp at found) in
          let one' : cp'.header.height ≡ cp.header.height =
            ap (λ (d : Block). d.header.height) (one_block c.header.prev_hash cp' cp at' found') in
          let (olds, news) =
            meet-IsRaised fuel b.header.prev_hash bp' c.header.prev_hash cp' r' at at'
              (omega (arith, same, height, height', one, one')) met in
          subst (λ q. IsRaised q.0 × IsRaised q.1) (ok-injective e₃)
            ((positive, olds), (omega (arith, same, positive), news))
    ]

    -- None of the blocks to undo or to apply is at height 0.
    pub fork_paths-IsRaised :
        (old_tip new_tip : Hash256) (undo apply : BlockChain)
        → fork_paths x s old_tip new_tip ≡ ok (undo, apply)
        → IsRaised undo × IsRaised (reverse apply)
    unfolding fork_paths
    fork_paths-IsRaised old_tip new_tip undo apply e =
        let (ob, found, e₁) = >>=-eq-ok (fetch x s missing_block old_tip) _ e in
        let (nb, found', e₂) = >>=-eq-ok (fetch x s missing_block new_tip) _ e₁ in
        let stored = fetch-eq-ok x s missing_block old_tip ob found in
        let stored' = fetch-eq-ok x s missing_block new_tip nb found' in
        let (r, climbed, e₃) =
          >>=-eq-ok (climb x s (suc ob.header.height) nb.header.height old_tip ob) _ e₂ in
        let (r', climbed', e₄) =
          >>=-eq-ok (climb x s (suc nb.header.height) r.2.header.height new_tip nb) _ e₃ in
        let (m, met, e₅) = >>=-eq-ok (meet x s (suc r.2.header.height) r.1 r.2 r'.1 r'.2) _ e₄ in
        let end = end_height old_tip ob nb.header.height r stored climbed in
        let end' = end_height new_tip nb r.2.header.height r' stored' climbed' in
        let low =
          climb-Ends x s (suc ob.header.height) nb.header.height old_tip ob r stored climbed in
        let low' =
          climb-Ends x s (suc nb.header.height) r.2.header.height new_tip nb r' stored' climbed' in
        let (olds, news) =
          meet-IsRaised (suc r.2.header.height) r.1 r.2 r'.1 r'.2 m low.1 low'.1
            (omega (arith, end, end')) met in
        let pair : (r.0 ++ m.0, reverse (r'.0 ++ m.1)) ≡ (undo, apply) = ok-injective e₅ in
        (
          subst IsRaised (ap (λ t. t.0) pair) (
              All-append (λ p. 0 < p.1.header.height) r.0 m.0
                (climb-IsRaised (suc ob.header.height) nb.header.height old_tip ob r climbed) olds),
          subst IsRaised (sym (reverse-reverse (r'.0 ++ m.1)) ∙ ap (λ t. reverse t.1) pair) (
              All-append (λ p. 0 < p.1.header.height) r'.0 m.1
                (climb-IsRaised (suc nb.header.height) r.2.header.height new_tip nb r' climbed')
                news),
        )
      where
        end_height :
            (h : Hash256) (b : Block) (floor : ℕ) (r : BlockChain × Hash256 × Block)
            → get_block x s h ≡ ok (some b)
            → climb x s (suc b.header.height) floor h b ≡ ok r
            → r.2.header.height ≡ min floor b.header.height
        end_height h b floor r stored climbed =
            let (q, also, height) =
              climb_total x s genesis linked (suc b.header.height) floor h b stored (omega arith) in
            subst
              (λ (v : BlockChain × Hash256 × Block). v.2.header.height ≡ min floor b.header.height)
              (ok-injective (sym also ∙ climbed)) height

  -- A path without genesis is the top of the path from the same block down to genesis.
  top_of :
      (genesis : Hash256) (root : Block)
      → get_block x s genesis ≡ ok (some root)
      → root.header.height ≡ 0
      → (h a : Hash256) (ps bs : BlockChain) → IsRaised ps
      → Down x s h ps a
      → Down x s h bs genesis
      → (rest : BlockChain) × (bs ≡ ps ++ rest) × Down x s a rest genesis
  top_of genesis root rooted zero_height h a ps bs raised here branch = (bs, refl, branch)
  top_of genesis root rooted zero_height h a ps bs raised (next {b = b} stored down) here = absurd (
      omega (
        arith,
        raised.0,
        zero_height,
        ap (λ (d : Block). d.header.height) (one_block h b root stored rooted),
      ))
  top_of genesis root rooted zero_height h a ps bs raised (next {b = b} {rest = ps'} stored down)
        (next {b = c} {rest = bs'} stored' branch) =
      let same = one_block h c b stored' stored in
      let (rest, split, below) =
        top_of genesis root rooted zero_height b.header.prev_hash a ps' bs' raised.1 down
          (subst (λ (d : Block). Down x s d.header.prev_hash bs' genesis) same branch) in
      (rest, ap (λ d. (h, d) ∷ bs') same ∙ ap (λ t. (h, b) ∷ t) split, below)

  -- The branch of the old tip from genesis on is the blocks to undo over those that both tips
  -- share, and the branch of the new tip is the blocks to apply over them.
  pub fork_paths-split :
      (genesis : Hash256) (root : Block) (old_tip new_tip : Hash256)
      (undo apply branch : BlockChain)
      → IsLinked x s genesis
      → get_block x s genesis ≡ ok (some root)
      → root.header.height ≡ 0
      → Down x s old_tip branch genesis
      → fork_paths x s old_tip new_tip ≡ ok (undo, apply)
      → (rest : BlockChain) × (branch ≡ undo ++ rest)
        × Down x s new_tip (reverse apply ++ rest) genesis
  fork_paths-split genesis root old_tip new_tip undo apply branch linked rooted zero_height down e =
      let (a, to_old, to_new) = fork_paths-Meets x s old_tip new_tip undo apply e in
      let (rest, split, below) =
        top_of genesis root rooted zero_height old_tip a undo branch
          (fork_paths-IsRaised genesis linked old_tip new_tip undo apply e).0 to_old down in
      (rest, split, Down-append x s to_new below)
