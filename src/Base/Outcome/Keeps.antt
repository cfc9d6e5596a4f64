-- ===== src/Base/Outcome/Keeps.antt =====
-- Invariants of actions, one rule for each way to build an action.
use mathlib.Core.Bool.{Bool, true, false}
use mathlib.Core.Option.{Option, none, some}
use excel_sync.Base.Tests.{if◌then◌else◌}
use excel_sync.Base.Outcome.{
  Result, ok, err, Action, pure, throw, gets, settle, require, modify, guard, continue, ◌>>=◌,
  when_some, transaction, attempt, recover,
}

-- `m` keeps `P`, whether it returns or throws.
pub record Keeps {ℓ} {S E A : Type ℓ} (P : S → Type ℓ) (m : Action S E A) : Type ℓ where
  pub at : (s : S) → P s → P (m s).1

keep_settle {ℓ} :
    {S E A : Type ℓ} (P : S → Type ℓ) (before : S) (r : Result E A × S)
    → P before
    → P r.1
    → P (settle before r).1
keep_settle P before (ok a, s) hb h = h
keep_settle P before (err e, s) hb h = hb

keep_recover {ℓ} :
    {S E F A : Type ℓ} (P : S → Type ℓ) (f : E → Action S F A) (r : Result E A × S)
    → P r.1
    → ((e : E) → Keeps P (f e))
    → P (recover f r).1
keep_recover P f (ok a, s) h k = h
keep_recover P f (err e, s) h k = (k e).at s h

keep_continue {ℓ} :
    {S E A B : Type ℓ} (P : S → Type ℓ) (f : A → Action S E B) (r : Result E A × S)
    → P r.1
    → ((a : A) → Keeps P (f a))
    → P (continue f r).1
keep_continue P f (ok a, s) h k = (k a).at s h
keep_continue P f (err e, s) h k = h

module _ {ℓ} {S E A : Type ℓ} {P : S → Type ℓ} where
  pub Keeps-pure : (a : A) → Keeps {E = E} P (pure a)
  unfolding pure
  Keeps-pure a = record { at = λ s h. h }

  pub Keeps-throw : (e : E) → Keeps {A = A} P (throw e)
  unfolding throw
  Keeps-throw e = record { at = λ s h. h }

  pub Keeps-gets : (f : S → A) → Keeps {E = E} P (gets f)
  unfolding gets
  Keeps-gets f = record { at = λ s h. h }

  pub Keeps-require : (o : Option A) (e : E) → Keeps P (require o e)
  unfolding require
  Keeps-require none e = record { at = λ s h. h }
  Keeps-require (some a) e = record { at = λ s h. h }

  pub Keeps-if :
      (b : Bool) (m n : Action S E A) → Keeps P m → Keeps P n → Keeps P (if b then m else n)
  Keeps-if true m n km kn = km
  Keeps-if false m n km kn = kn

  pub Keeps-transaction : (m : Action S E A) → Keeps P m → Keeps P (transaction m)
  unfolding transaction
  Keeps-transaction m k = record { at = λ s h. keep_settle P s (m s) h (k.at s h) }

module _ {S E : Type 0} {P : S → Type 0} where
  pub Keeps-modify : (f : S → S) → ((s : S) → P s → P (f s)) → Keeps {E = E} P (modify f)
  unfolding modify
  Keeps-modify f k = record { at = k }

  pub Keeps-guard : (b : Bool) (e : E) → Keeps {S = S} P (guard b e)
  unfolding guard
  Keeps-guard true e = record { at = λ s h. h }
  Keeps-guard false e = record { at = λ s h. h }

module _ {ℓ} {S E A B : Type ℓ} {P : S → Type ℓ} where
  pub Keeps-bind :
      (m : Action S E A) (f : A → Action S E B)
      → Keeps P m
      → ((a : A) → Keeps P (f a))
      → Keeps P (m >>= f)
  unfolding ◌>>=◌
  Keeps-bind m f km kf = record { at = λ s h. keep_continue P f (m s) (km.at s h) kf }

  pub Keeps-when_some :
      (o : Option A) (m : Action S E B) (f : A → Action S E B)
      → Keeps P m
      → ((a : A) → Keeps P (f a))
      → Keeps P (when_some o m f)
  unfolding when_some
  Keeps-when_some none m f km kf = km
  Keeps-when_some (some a) m f km kf = kf a

pub Keeps-attempt {ℓ} :
    {S E F A : Type ℓ} {P : S → Type ℓ} (m : Action S E A) (f : E → Action S F A)
    → Keeps P m
    → ((e : E) → Keeps P (f e))
    → Keeps P (attempt m f)
unfolding attempt
Keeps-attempt m f km kf = record { at = λ s h. keep_recover _ f (m s) (km.at s h) kf }

pub ruleset keeps_rules = (
  Keeps-pure, Keeps-throw, Keeps-gets, Keeps-require, Keeps-if, Keeps-transaction, Keeps-guard,
  Keeps-bind, Keeps-when_some,
)
