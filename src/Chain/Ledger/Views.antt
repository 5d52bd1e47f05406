-- ===== src/Chain/Ledger/Views.antt =====
-- What an overlay shows of each account, and what an insertion changes.
use ondris.Prelude.{
  ◌≡◌, refl, sym, ◌∙◌, ap, some, [], ◌∷◌, true, false, bytes_eq, bytes_eq_sound, bytes_eq_refl,
  bytes_eq_of_eq, Bool-cases, inl, inr, if◌then◌else◌, ok, arith,
}
use ondris.Primitives.{Address}
use ondris.State.{Externals, ChainState, Account}
use ondris.Chain.{GenesisConfig}
use ondris.Chain.Ledger.{Overlay, lookup, insert, get_acc}

pub lookup-insert :
    (k : Address) (v : Account) (o : Overlay) (a : Address)
    → lookup (insert k v o) a ≡ (if bytes_eq k a then some v else lookup o a)
unfolding lookup insert
lookup-insert k v [] a = refl
lookup-insert k v ((j, w) ∷ o) a = elim (Bool-cases (bytes_eq j k)) [
  | inl same ↦ rw (same, bytes_eq_sound j k same) (ground arith)
  | inr differ ↦ rw differ (elim (Bool-cases (bytes_eq j a)) [
    | inl hit ↦ let apart : bytes_eq k a ≡ false = not_both j k a hit differ in rw (hit, apart)
    | inr miss ↦ rw miss (lookup-insert k v o a)
  ])
]
  where
    not_both : (j k a : Address) → bytes_eq j a ≡ true → bytes_eq j k ≡ false → bytes_eq k a ≡ false
    not_both j k a hit differ = elim (Bool-cases (bytes_eq k a)) [
      | inr miss ↦ miss
      | inl also ↦ cc (bytes_eq_of_eq (bytes_eq_sound j a hit ∙ sym (bytes_eq_sound k a also)))
    ]

module _ {Tree : Type 0} (x : Externals Tree) (g : GenesisConfig) (s : ChainState Tree) where
  -- Two overlays over one state show the same accounts.
  abbrev pub SameView : Overlay → Overlay → Type 0
  SameView o p = (a : Address) → get_acc x g s o a ≡ get_acc x g s p a

  pub get_acc-insert :
      (k : Address) (v : Account) (o : Overlay) (a : Address)
      → get_acc x g s (insert k v o) a ≡ (if bytes_eq k a then ok v else get_acc x g s o a)
  unfolding get_acc
  get_acc-insert k v o a = ground (arith, lookup-insert k v o a)

  pub get_acc-insert_self :
      (k : Address) (v : Account) (o : Overlay) → get_acc x g s (insert k v o) k ≡ ok v
  get_acc-insert_self k v o = rw (get_acc-insert k v o k, bytes_eq_refl k)

  -- An insertion shows the same on top of overlays that show the same.
  pub insert-SameView :
      (k : Address) (v : Account) (o p : Overlay)
      → SameView o p
      → SameView (insert k v o) (insert k v p)
  insert-SameView k v o p same a = rw (get_acc-insert k v o a, get_acc-insert k v p a, same a)

  -- A second insertion at a key hides the first.
  pub insert-insert :
      (k : Address) (v w : Account) (o : Overlay)
      → SameView (insert k w (insert k v o)) (insert k w o)
  insert-insert k v w o a =
      rw (get_acc-insert k w (insert k v o) a, get_acc-insert k w o a, get_acc-insert k v o a)
        (elim (Bool-cases (bytes_eq k a)) [ inl same ↦ rw same | inr differ ↦ rw differ ])

  -- An insertion of what is shown already changes nothing.
  pub insert_shown :
      (k : Address) (v : Account) (o : Overlay)
      → get_acc x g s o k ≡ ok v
      → SameView (insert k v o) o
  insert_shown k v o shown a = rw (get_acc-insert k v o a) (elim (Bool-cases (bytes_eq k a)) [
    | inl same ↦ rw same (sym shown ∙ ap (get_acc x g s o) (bytes_eq_sound k a same))
    | inr differ ↦ rw differ
  ])
