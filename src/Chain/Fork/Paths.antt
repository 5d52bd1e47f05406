-- ===== src/Chain/Fork/Paths.antt =====
-- What the two paths of a fork are.
use mathlib.Core.List.{reverse-reverse}
use ondris.Prelude.{
  ℕ, zero, suc, ◌≡◌, sym, ◌∙◌, ap, subst, some, [], ◌∷◌, ◌++◌, reverse, true, false, ltb, bytes_eq,
  bytes_eq_sound, Bool-cases, inl, inr, ok, ◌>>=◌, >>=-eq-ok, ok-injective, ok_or-eq-ok,
  missing_block, missing_ancestor, Error,
}
use ondris.Primitives.{Hash256}
use ondris.Block.{Block}
use ondris.State.{Externals, ChainState, get_block}
use ondris.Chain.Fork.{BlockChain, fetch, climb, meet, fork_paths}

module _ {Tree : Type 0} (x : Externals Tree) (s : ChainState Tree) where
  -- The blocks from a tip down to an ancestor, without it: each is stored under its hash, and the
  -- next is stored under its `prev_hash`.
  pub data Down : Hash256 → BlockChain → Hash256 → Type 0 where
    here : {h : Hash256} → Down h [] h
    next :
        {h end : Hash256} {b : Block} {rest : BlockChain}
        → get_block x s h ≡ ok (some b)
        → Down b.header.prev_hash rest end
        → Down h ((h, b) ∷ rest) end

  pub Down-append :
      {a m e : Hash256} {ps qs : BlockChain} → Down a ps m → Down m qs e → Down a (ps ++ qs) e
  Down-append here d = d
  Down-append (next stored rest) d = next stored (Down-append rest d)

  pub fetch-eq-ok :
      (e : Error) (h : Hash256) (b : Block) → fetch x s e h ≡ ok b → get_block x s h ≡ ok (some b)
  unfolding fetch
  fetch-eq-ok e h b q =
      let (entry, found, rest) = >>=-eq-ok (get_block x s h) _ q in
      found ∙ ap ok (ok_or-eq-ok entry e rest)

  -- A step of each loop.
  pub climb_stop :
      (fuel floor : ℕ) (h : Hash256) (b : Block)
      → ltb floor b.header.height ≡ false
      → climb x s (suc fuel) floor h b ≡ ok ([], h, b)
  unfolding climb
  climb_stop fuel floor h b t = rw (t, climb)

  pub climb_go :
      (fuel floor : ℕ) (h : Hash256) (b : Block)
      → ltb floor b.header.height ≡ true
      → climb x s (suc fuel) floor h b ≡ (
          fetch x s missing_ancestor b.header.prev_hash >>= λ parent.
          climb x s fuel floor b.header.prev_hash parent >>= λ r. ok ((h, b) ∷ r.0, r.1, r.2))
  unfolding climb
  climb_go fuel floor h b t = rw (t, climb)

  pub meet_stop :
      (fuel : ℕ) (h : Hash256) (b : Block) (k : Hash256) (c : Block)
      → bytes_eq h k ≡ true
      → meet x s (suc fuel) h b k c ≡ ok ([], [])
  unfolding meet
  meet_stop fuel h b k c t = rw (t, meet)

  pub meet_go :
      (fuel : ℕ) (h : Hash256) (b : Block) (k : Hash256) (c : Block)
      → bytes_eq h k ≡ false
      → meet x s (suc fuel) h b k c ≡ (
          fetch x s missing_ancestor b.header.prev_hash >>= λ bp.
          fetch x s missing_ancestor c.header.prev_hash >>= λ cp.
          meet x s fuel b.header.prev_hash bp c.header.prev_hash cp >>= λ r.
          ok ((h, b) ∷ r.0, (k, c) ∷ r.1))
  unfolding meet
  meet_go fuel h b k c t = rw (t, meet)

  -- Where a climb ends.
  abbrev pub Ends : Hash256 → BlockChain × Hash256 × Block → Type 0
  Ends h (passed, h', b') = Down h passed h' × (get_block x s h' ≡ ok (some b'))

  pub climb-Ends :
      (fuel floor : ℕ) (h : Hash256) (b : Block) (r : BlockChain × Hash256 × Block)
      → get_block x s h ≡ ok (some b)
      → climb x s fuel floor h b ≡ ok r
      → Ends h r
  climb-Ends zero floor h b r stored e = unfold climb in cc e
  climb-Ends (suc fuel) floor h b r stored e = elim (Bool-cases (ltb floor b.header.height)) [
    | inr stop ↦
        subst (Ends h) (ok-injective (sym (climb_stop fuel floor h b stop) ∙ e)) (here, stored)
    | inl go ↦
        let (parent, found, e₁) =
          >>=-eq-ok (fetch x s missing_ancestor b.header.prev_hash) _
            (sym (climb_go fuel floor h b go) ∙ e) in
        let (r', climbed, e₂) = >>=-eq-ok (climb x s fuel floor b.header.prev_hash parent) _ e₁ in
        let (down, stored') =
          climb-Ends fuel floor b.header.prev_hash parent r'
            (fetch-eq-ok missing_ancestor b.header.prev_hash parent found) climbed in
        subst (Ends h) (ok-injective e₂) (next stored down, stored')
  ]

  -- Two paths to one ancestor.
  abbrev pub Meets : Hash256 → Hash256 → BlockChain × BlockChain → Type 0
  Meets h k (undo, apply) = (a : Hash256) × Down h undo a × Down k apply a

  pub meet-Meets :
      (fuel : ℕ) (h : Hash256) (b : Block) (k : Hash256) (c : Block) (r : BlockChain × BlockChain)
      → get_block x s h ≡ ok (some b)
      → get_block x s k ≡ ok (some c)
      → meet x s fuel h b k c ≡ ok r
      → Meets h k r
  meet-Meets zero h b k c r hs ks e = unfold meet in cc e
  meet-Meets (suc fuel) h b k c r hs ks e = elim (Bool-cases (bytes_eq h k)) [
    | inl same ↦
        subst (Meets h k) (ok-injective (sym (meet_stop fuel h b k c same) ∙ e))
          (h, here, subst (λ a. Down k [] a) (sym (bytes_eq_sound h k same)) here)
    | inr differ ↦
        let (bp, found, e₁) =
          >>=-eq-ok (fetch x s missing_ancestor b.header.prev_hash) _
            (sym (meet_go fuel h b k c differ) ∙ e) in
        let (cp, found', e₂) = >>=-eq-ok (fetch x s missing_ancestor c.header.prev_hash) _ e₁ in
        let (r', met, e₃) =
          >>=-eq-ok (meet x s fuel b.header.prev_hash bp c.header.prev_hash cp) _ e₂ in
        let (a, down, down') =
          meet-Meets fuel b.header.prev_hash bp c.header.prev_hash cp r'
            (fetch-eq-ok missing_ancestor b.header.prev_hash bp found)
            (fetch-eq-ok missing_ancestor c.header.prev_hash cp found') met in
        subst (Meets h k) (ok-injective e₃) (a, next hs down, next ks down')
  ]

  -- The paths that `fork_paths` returns lead to one common ancestor of the two tips: the blocks to
  -- undo go from the old tip down to just above it, the blocks to apply come up from just above it
  -- to the new tip, each stored under its hash and linked to the next by `prev_hash`.
  pub fork_paths-Meets :
      (old_tip new_tip : Hash256) (undo apply : BlockChain)
      → fork_paths x s old_tip new_tip ≡ ok (undo, apply)
      → Meets old_tip new_tip (undo, reverse apply)
  unfolding fork_paths
  fork_paths-Meets old_tip new_tip undo apply e =
      let (ob, found, e₁) = >>=-eq-ok (fetch x s missing_block old_tip) _ e in
      let (nb, found', e₂) = >>=-eq-ok (fetch x s missing_block new_tip) _ e₁ in
      let stored = fetch-eq-ok missing_block old_tip ob found in
      let stored' = fetch-eq-ok missing_block new_tip nb found' in
      let (r, climbed, e₃) =
        >>=-eq-ok (climb x s (suc ob.header.height) nb.header.height old_tip ob) _ e₂ in
      let (down, end) =
        climb-Ends (suc ob.header.height) nb.header.height old_tip ob r stored climbed in
      let (r', climbed', e₄) =
        >>=-eq-ok (climb x s (suc nb.header.height) r.2.header.height new_tip nb) _ e₃ in
      let (down', end') =
        climb-Ends (suc nb.header.height) r.2.header.height new_tip nb r' stored' climbed' in
      let (m, met, e₅) = >>=-eq-ok (meet x s (suc r.2.header.height) r.1 r.2 r'.1 r'.2) _ e₄ in
      let (a, below, below') =
        meet-Meets (suc r.2.header.height) r.1 r.2 r'.1 r'.2 m end end' met in
      let pair = ok-injective e₅ in
      (
        a,
        subst (λ v. Down old_tip v a) (ap (λ t. t.0) pair) (Down-append down below),
        subst (λ v. Down new_tip v a)
            (sym (reverse-reverse (r'.0 ++ m.1)) ∙ ap (λ t. reverse t.1) pair)
            (Down-append down' below'),
      )
