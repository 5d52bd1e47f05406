-- ===== src/Chain/Reorg/Index.antt =====
-- The canonical index that a reorganization writes.
use mathlib.Core.List.{reverse-cons, reverse-reverse}
use ondris.Prelude.{
  ℕ, ◌-◌, ◌≤◌, ◌<◌, ◌≡◌, refl, sym, ◌∙◌, ap, inl, inr, Option, none, some, [], ◌∷◌, ◌++◌, reverse,
  false, ◌==◌, ==→eq, Bool-cases, Option-cases, if◌then◌else◌, Result, ok, length, All, IsU64,
  arith,
}
use ondris.Primitives.{Hash256}
use ondris.State.{
  set_tip, Externals, ChainState, get_hash_by_height, set_canonical_height, remove_canonical_height,
}
use ondris.State.Reads.{
  ExternalsLaws, get_hash-set_canonical_height, get_hash-set_canonical_height_ne,
  get_hash-remove_canonical_height, get_hash-remove_canonical_height_ne,
}
use ondris.State.Frames.{heights-set_account, heights-set_tip, get_hash_of_heights}
use ondris.Chain.Ledger.{Overlay}
use ondris.Chain.Fork.{BlockChain}
use ondris.Chain.Reorg.{set_accounts, remove_heights, set_heights, commit}

-- The hash of the first block of a path that is at a height.
abbrev pub find : BlockChain → ℕ → Option Hash256
find [] m = none
find ((h, b) ∷ bs) m = if b.header.height == m then some h else find bs m

-- The hash at a height of a branch that stands on genesis.
abbrev pub level : Hash256 → BlockChain → ℕ → Option Hash256
level genesis [] m = if m == 0 then some genesis else none
level genesis ((h, b) ∷ bs) m = if b.header.height == m then some h else level genesis bs m

-- The blocks of a branch are at the heights from one down to 1.
abbrev pub IsStair : ℕ → BlockChain → Type 0
IsStair n [] = n ≡ 0
IsStair n ((h, b) ∷ bs) = (b.header.height ≡ n) × (1 ≤ n) × IsStair (n - 1) bs

-- What a path hides of the branch below it.
abbrev over {ℓ} : {A : Type ℓ} → Option Hash256 → A → (Hash256 → A) → A
over none below top = below
over (some h) below top = top h

level-append :
    (genesis : Hash256) (ps bs : BlockChain) (m : ℕ)
    → level genesis (ps ++ bs) m ≡ over (find ps m) (level genesis bs m) some
level-append genesis [] bs m = refl
level-append genesis ((h, b) ∷ ps) bs m = elim (Bool-cases (b.header.height == m)) [
  | inl same ↦ rw same
  | inr differ ↦ rw differ (level-append genesis ps bs m)
]

-- Above a branch there is no level.
level_above :
    (genesis : Hash256) (n : ℕ) (bs : BlockChain) (m : ℕ)
    → IsStair n bs
    → n < m
    → level genesis bs m ≡ none
level_above genesis n [] m stair above =
    let apart : (m == 0) ≡ false = ground (arith, above) in rw apart
level_above genesis n ((h, b) ∷ bs) m (at, positive, stair) above =
    let apart : (b.header.height == m) ≡ false = ground (arith, at, above) in
    rw apart (level_above genesis (n - 1) bs m stair (omega (arith, above)))

-- A height of the upper part of a branch is none of the lower.
level_below :
    (genesis : Hash256) (n : ℕ) (ps bs : BlockChain) (m : ℕ) (k : Hash256)
    → IsStair n (ps ++ bs)
    → find ps m ≡ some k
    → level genesis bs m ≡ none
level_below genesis n [] bs m k stair found = cc
level_below genesis n ((h, b) ∷ ps) bs m k (at, positive, stair) found =
    elim (Bool-cases (b.header.height == m)) [
      | inr differ ↦ level_below genesis (n - 1) ps bs m k stair (sym (rw differ refl) ∙ found)
      | inl same ↦
          let top = ==→eq b.header.height m same in
          let nothing : over (find ps m) (level genesis bs m) some ≡ none =
            sym (level-append genesis ps bs m)
            ∙ level_above genesis (n - 1) (ps ++ bs) m stair (omega (arith, at, top, positive)) in
          elim (Option-cases (find ps m)) [
            | inl hidden ↦ sym (ap (λ f. over f (level genesis bs m) some) hidden) ∙ nothing
            | inr (j, there) ↦ cc (sym (ap (λ f. over f (level genesis bs m) some) there) ∙ nothing)
          ]
    ]

module _ {Tree : Type 0} (x : Externals Tree) (laws : ExternalsLaws x) where
  -- Heights that fit 64 bits, and hashes of 32 bytes.
  abbrev pub IsSizedPath : BlockChain → Type 0
  IsSizedPath = All λ p. IsU64 p.1.header.height × (length p.0 ≡ 32)

  get_hash-remove_heights :
      (bs : BlockChain) (s : ChainState Tree) (m : ℕ)
      → IsSizedPath bs
      → IsU64 m
      → get_hash_by_height x (remove_heights x bs s) m
        ≡ over (find bs m) (get_hash_by_height x s m) (λ h. ok none)
  unfolding remove_heights
  get_hash-remove_heights [] s m h small = refl
  get_hash-remove_heights ((k, b) ∷ bs) s m h small =
      let n = b.header.height in
      let later = get_hash-remove_heights bs (remove_canonical_height x s n) m h.1 small in
      elim (Bool-cases (n == m)) [
        | inl same ↦
            let one = ==→eq n m same in
            let gone : get_hash_by_height x (remove_canonical_height x s n) m ≡ ok none =
              ap (get_hash_by_height x (remove_canonical_height x s n)) (sym one)
              ∙ get_hash-remove_canonical_height x laws s n in
            later ∙ rw same (rw gone (hidden (find bs m)))
        | inr differ ↦
            let kept =
              get_hash-remove_canonical_height_ne x laws s n m h.0.0 small
                (λ e. ground (arith, e, differ)) in
            later ∙ rw differ (rw kept)
      ]
    where
      hidden :
          (f : Option Hash256)
          → over {A = Result (Option Hash256)} f (ok none) (λ h. ok none) ≡ ok none
      hidden none = refl
      hidden (some h) = refl

  set_heights-append :
      (bs cs : BlockChain) (s : ChainState Tree)
      → set_heights x (bs ++ cs) s ≡ set_heights x cs (set_heights x bs s)
  unfolding set_heights
  set_heights-append [] cs s = refl
  set_heights-append ((h, b) ∷ bs) cs s = set_heights-append bs cs _

  -- A path is written from its lowest block up.
  get_hash-set_heights :
      (ps : BlockChain) (s : ChainState Tree) (m : ℕ)
      → IsSizedPath ps
      → IsU64 m
      → get_hash_by_height x (set_heights x (reverse ps) s) m
        ≡ over (find ps m) (get_hash_by_height x s m) (λ h. ok (some h))
  unfolding set_heights
  get_hash-set_heights [] s m h small = refl
  get_hash-set_heights ((k, b) ∷ ps) s m h small =
      let n = b.header.height in
      let t = set_heights x (reverse ps) s in
      let last : set_heights x (reverse ((k, b) ∷ ps)) s ≡ set_canonical_height x t n k =
        ap (λ l. set_heights x l s) (reverse-cons (k, b) ps)
        ∙ set_heights-append (reverse ps) ((k, b) ∷ []) s in
      ap (λ u. get_hash_by_height x u m) last ∙ elim (Bool-cases (n == m)) [
        | inl same ↦
            let one = ==→eq n m same in
            ap (get_hash_by_height x (set_canonical_height x t n k)) (sym one)
            ∙ get_hash-set_canonical_height x laws t n k h.0.1
            ∙ rw same refl
        | inr differ ↦
            get_hash-set_canonical_height_ne x laws t n m k h.0.0 small
              (λ e. ground (arith, e, differ))
            ∙ get_hash-set_heights ps s m h.1 small
            ∙ rw differ refl
      ]

  set_accounts_heights :
      (o : Overlay) (s : ChainState Tree) → (set_accounts x o s).heights ≡ s.heights
  unfolding set_accounts
  set_accounts_heights [] s = refl
  set_accounts_heights ((a, acc) ∷ o) s = set_accounts_heights o _ ∙ heights-set_account x s a acc

  -- A commit replaces the upper part of the branch in the index by the new one.
  pub get_hash-commit :
      (genesis : Hash256) (o : Overlay) (undo apply rest : BlockChain) (top n : ℕ) (h : Hash256)
      (s : ChainState Tree) (m : ℕ)
      → IsStair top (undo ++ rest)
      → IsSizedPath undo
      → IsSizedPath (reverse apply)
      → IsU64 m
      → get_hash_by_height x s m ≡ ok (level genesis (undo ++ rest) m)
      → get_hash_by_height x (commit x o undo apply n h s) m
        ≡ ok (level genesis (reverse apply ++ rest) m)
  unfolding commit
  get_hash-commit genesis o undo apply rest top n h s m stair sized sized' small before =
      let s₁ = set_accounts x o s in
      let s₂ = remove_heights x undo s₁ in
      let s₃ = set_heights x apply s₂ in
      let kept = get_hash_of_heights x s₁ s (set_accounts_heights o s) m ∙ before in
      let removed : get_hash_by_height x s₂ m
          ≡ over (find undo m) (ok (level genesis (undo ++ rest) m)) (λ k. ok none) =
        get_hash-remove_heights undo s₁ m sized small
        ∙ ap (λ r. over (find undo m) r (λ k. ok none)) kept in
      let below : get_hash_by_height x s₂ m ≡ ok (level genesis rest m) =
        removed ∙ elim (Option-cases (find undo m)) [
          | inl hidden ↦ rw hidden (ap ok (level-append genesis undo rest m ∙ rw hidden refl))
          | inr (k, there) ↦
              rw there (ap ok (sym (level_below genesis top undo rest m k stair there)))
        ] in
      get_hash_of_heights x (set_tip x s₃ n h) s₃ (heights-set_tip x s₃ n h) m
      ∙ ap (λ l. get_hash_by_height x (set_heights x l s₂) m) (sym (reverse-reverse apply))
      ∙ get_hash-set_heights (reverse apply) s₂ m sized' small
      ∙ ap (λ r. over (find (reverse apply) m) r (λ k. ok (some k))) below
      ∙ into (find (reverse apply) m)
      ∙ ap ok (sym (level-append genesis (reverse apply) rest m))
    where
      into :
          (f : Option Hash256)
          → over f (ok (level genesis rest m)) (λ k. ok (some k))
            ≡ ok (over f (level genesis rest m) some)
      into none = refl
      into (some k) = refl
