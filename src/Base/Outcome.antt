-- ===== src/Base/Outcome.antt =====
-- Code that changes a state and may throw: what it wrote before it threw stays written, unless it
-- ran in a transaction.
pub mod Keeps
pub mod Ensures
use mathlib.Core.Bool.{Bool, true, false}
use mathlib.Core.Option.{Option, none, some}

pub data Result {ℓ} (E A : Type ℓ) : Type ℓ where
  ok : A → Result E A
  err : E → Result E A

-- An action on the state `S` that returns an `A` or throws an `E`.
abbrev pub Action {ℓ} : Type ℓ → Type ℓ → Type ℓ → Type ℓ
Action S E A = S → Result E A × S

module _ {ℓ} {S E A : Type ℓ} where
  unfoldable pub pure : A → Action S E A
  pure a s = (ok a, s)

  unfoldable pub throw : E → Action S E A
  throw e s = (err e, s)

  unfoldable pub gets : (S → A) → Action S E A
  gets f s = (ok (f s), s)

  abbrev pub settle : S → Result E A × S → Result E A × S
  settle before (ok a, s) = (ok a, s)
  settle before (err e, s) = (err e, before)

  unfoldable pub require : Option A → E → Action S E A
  require none e s = (err e, s)
  require (some a) e s = (ok a, s)

module _ {S E : Type 0} where
  -- A statement that cannot fail.
  unfoldable pub modify : (S → S) → Action S E (Unit {0})
  modify f s = (ok tt, f s)

  -- `if (!condition) throw e`
  unfoldable pub guard : Bool → E → Action S E (Unit {0})
  guard true e s = (ok tt, s)
  guard false e s = (err e, s)

module _ {ℓ} {S E A B : Type ℓ} where
  abbrev pub continue : (A → Action S E B) → Result E A × S → Result E B × S
  continue f (ok a, s) = f a s
  continue f (err e, s) = (err e, s)

  infixl 5 ◌>>=◌ ◌>>◌
  -- Opening this opens the other combinators too.
  unfoldable pub ◌>>=◌ : Action S E A → (A → Action S E B) → Action S E B
  unfolding pure throw gets require modify guard
  ◌>>=◌ m f s = continue f (m s)

  abbrev pub ◌>>◌ : Action S E A → Action S E B → Action S E B
  m >> k = m >>= λ _. k

  -- `a ? f(a) : m`
  unfoldable pub when_some : Option A → Action S E B → (A → Action S E B) → Action S E B
  when_some none m f = m
  when_some (some a) m f = f a

module _ {ℓ} {S E A : Type ℓ} where
  -- `BEGIN IMMEDIATE; try { m; COMMIT } catch { ROLLBACK; throw }`
  unfoldable pub transaction : Action S E A → Action S E A
  transaction m s = settle s (m s)

module _ {ℓ} {S E F A : Type ℓ} where
  abbrev pub recover : (E → Action S F A) → Result E A × S → Result F A × S
  recover f (ok a, s) = (ok a, s)
  recover f (err e, s) = f e s

  -- `try { m } catch (e) { f(e) }`
  unfoldable pub attempt : Action S E A → (E → Action S F A) → Action S F A
  attempt m f s = recover f (m s)
