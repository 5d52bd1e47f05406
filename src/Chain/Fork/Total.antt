-- ===== src/Chain/Fork/Total.antt =====
-- When `fork_paths` of chain.rs succeeds.
use ondris.Prelude.{
  ℕ, zero, suc, ◌+◌, ◌<◌, min, ◌≡◌, sym, ◌∙◌, ◌⊎◌, inl, inr, some, [], ◌∷◌, ◌++◌, reverse, ltb,
  ltb→lt, bytes_eq, bytes_eq_of_eq, Bool-cases, ok, missing_block, missing_ancestor, arith, Error,
}
use ondris.Primitives.{Hash256}
use ondris.Block.{Block}
use ondris.State.{Externals, ChainState, get_block}
use ondris.Chain.Fork.{BlockChain, fetch, climb, meet, fork_paths}
use ondris.Chain.Fork.Paths.{climb_stop, climb_go, meet_stop, meet_go, climb-Ends}

module _ {Tree : Type 0} (x : Externals Tree) (s : ChainState Tree) (genesis : Hash256) where
  -- A block is genesis, at height 0, or stands on a stored block one lower.
  abbrev pub HasParent : Hash256 → Block → Type 0
  HasParent h b =
      ((h ≡ genesis) × (b.header.height ≡ 0))
      ⊎ ((p : Block) × (get_block x s b.header.prev_hash ≡ ok (some p))
          × (p.header.height + 1 ≡ b.header.height))

  abbrev pub IsLinked : Type 0
  IsLinked = (h : Hash256) (b : Block) → get_block x s h ≡ ok (some b) → HasParent h b

  fetch_stored :
      (e : Error) (h : Hash256) (b : Block) → get_block x s h ≡ ok (some b) → fetch x s e h ≡ ok b
  unfolding fetch
  fetch_stored e h b q = rw q

  module _ (linked : IsLinked) where
    pub parent_above :
        (h : Hash256) (b : Block)
        → get_block x s h ≡ ok (some b)
        → 0 < b.header.height
        → (p : Block) × (get_block x s b.header.prev_hash ≡ ok (some p))
          × (p.header.height + 1 ≡ b.header.height)
    parent_above h b q pos = elim (linked h b q) [
      | inl at_genesis ↦ absurd (omega (arith, at_genesis.1))
      | inr above ↦ above
    ]

    pub climb_total :
        (fuel floor : ℕ) (h : Hash256) (b : Block)
        → get_block x s h ≡ ok (some b)
        → b.header.height < fuel
        → (r : BlockChain × Hash256 × Block) × (climb x s fuel floor h b ≡ ok r)
          × (r.2.header.height ≡ min floor b.header.height)
    climb_total zero floor h b q lt = absurd (omega arith)
    climb_total (suc fuel) floor h b q lt = elim (Bool-cases (ltb floor b.header.height)) [
      | inr stop ↦ (([], h, b), climb_stop x s fuel floor h b stop, ground arith)
      | inl go ↦
          let above = ltb→lt floor b.header.height go in
          let (p, found, height) = parent_above h b q (omega (arith, above)) in
          let (r, climbed, end) =
            climb_total fuel floor b.header.prev_hash p found (omega (arith, height)) in
          (
            ((h, b) ∷ r.0, r.1, r.2),
            climb_go x s fuel floor h b go
                ∙ rw (fetch_stored missing_ancestor b.header.prev_hash p found) (rw climbed),
            omega (arith, above, height, end),
          )
    ]

    meet_total :
        (fuel : ℕ) (h : Hash256) (b : Block) (k : Hash256) (c : Block)
        → get_block x s h ≡ ok (some b)
        → get_block x s k ≡ ok (some c)
        → b.header.height ≡ c.header.height
        → b.header.height < fuel
        → (r : BlockChain × BlockChain) × (meet x s fuel h b k c ≡ ok r)
    meet_total zero h b k c hs ks same lt = absurd (omega arith)
    meet_total (suc fuel) h b k c hs ks same lt = elim (Bool-cases (bytes_eq h k)) [
      | inl one ↦ (([], []), meet_stop x s fuel h b k c one)
      | inr differ ↦ elim (linked h b hs) [
        | inl at_genesis ↦ elim (linked k c ks) [
          | inl also ↦ cc (bytes_eq_of_eq (at_genesis.0 ∙ sym also.0))
          | inr above ↦ absurd (omega (arith, at_genesis.1, above.2))
        ]
        | inr (bp, found, height) ↦
            let (cp, found', height') = parent_above k c ks (omega (arith, height)) in
            let (r, met) =
              meet_total fuel b.header.prev_hash bp c.header.prev_hash cp found found'
                (omega (arith, height, height')) (omega (arith, height)) in
            (
              ((h, b) ∷ r.0, (k, c) ∷ r.1),
              meet_go x s fuel h b k c differ
                  ∙ rw (fetch_stored missing_ancestor b.header.prev_hash bp found)
                      (rw (fetch_stored missing_ancestor c.header.prev_hash cp found') (rw met)),
            )
      ]
    ]

    -- Between any two stored blocks the search ends with the two paths: no fuel runs out and no
    -- ancestor is missing.
    pub fork_paths_total :
        (old_tip new_tip : Hash256) (ob nb : Block)
        → get_block x s old_tip ≡ ok (some ob)
        → get_block x s new_tip ≡ ok (some nb)
        → (undo : BlockChain) × (apply : BlockChain) × (fork_paths x s old_tip new_tip
            ≡ ok (undo, apply))
    unfolding fork_paths
    fork_paths_total old_tip new_tip ob nb found found' =
        let (r, climbed, end) =
          climb_total (suc ob.header.height) nb.header.height old_tip ob found (omega arith) in
        let (r', climbed', end') =
          climb_total (suc nb.header.height) r.2.header.height new_tip nb found' (omega arith) in
        let stored =
          (climb-Ends x s (suc ob.header.height) nb.header.height old_tip ob r found climbed).1 in
        let stored' =
          (climb-Ends x s (suc nb.header.height) r.2.header.height new_tip nb r' found'
            climbed').1 in
        let (m, met) =
          meet_total (suc r.2.header.height) r.1 r.2 r'.1 r'.2 stored stored'
            (omega (arith, end, end')) (omega arith) in
        (
          r.0 ++ m.0,
          reverse (r'.0 ++ m.1),
          rw (fetch_stored missing_block old_tip ob found) (
              rw (fetch_stored missing_block new_tip nb found')
                (rw climbed (rw climbed' (rw met)))),
        )
