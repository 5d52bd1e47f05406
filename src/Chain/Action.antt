-- ===== src/Chain/Action.antt =====
-- A call on the chain: a result, and the chain that it leaves, after an error too.
use ondris.Prelude.{Bool, true, false, Option, none, some, Result, ok, err, Error}
use ondris.State.{ChainState}
use ondris.Chain.{Chain}

abbrev pub Action : Type 0 → Type 0 → Type 0
Action Tree A = Chain Tree → Result A × Chain Tree

module _ {Tree A : Type 0} where
  abbrev pub pure : A → Action Tree A
  pure a c = (ok a, c)

  abbrev pub fail : Error → Action Tree A
  fail e c = (err e, c)

  -- a read of the state
  abbrev pub reads : (ChainState Tree → Result A) → Action Tree A
  reads f c = (f c.state, c)

  abbrev pub or_fail : Option A → Error → Action Tree A
  or_fail none e = fail e
  or_fail (some a) e = pure a

module _ {Tree : Type 0} where
  abbrev pub require : Bool → Error → Action Tree (Unit {0})
  require true e = pure tt
  require false e = fail e

  abbrev pub writes : (ChainState Tree → ChainState Tree) → Action Tree (Unit {0})
  writes f c = (ok tt, record c { state = f c.state })

infixl 5 ◌>>=◌ ◌>>◌
abbrev pub ◌>>=◌ : {Tree A B : Type 0} → Action Tree A → (A → Action Tree B) → Action Tree B
◌>>=◌ m f c = let (r, c') = m c in elim r [ ok a ↦ f a c' | err e ↦ fail e c' ]

abbrev pub ◌>>◌ : {Tree B : Type 0} → Action Tree (Unit {0}) → Action Tree B → Action Tree B
m >> k = m >>= λ _. k
