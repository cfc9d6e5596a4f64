-- ===== src/Base/Outcome/Ensures.antt =====
-- What an action promises when it returns.
use mathlib.Core.Path.{◌≡◌, refl}
use mathlib.Core.Bool.{Bool, true, false}
use mathlib.Core.Option.{Option, none, some}
use excel_sync.Base.Outcome.{
  Result, ok, err, Action, pure, gets, settle, require, guard, continue, ◌>>=◌, transaction,
}
use excel_sync.Base.Outcome.Keeps.{Keeps}

-- Where the outcome is a value, `Q` holds of it and of the state.
abbrev pub Ensures {ℓ κ} : {S E A : Type ℓ} → (A → S → Type κ) → Result E A × S → Type κ
Ensures Q (ok a, s) = Q a s
Ensures Q (err e, s) = Unit

ensure_continue {ℓ κ} :
    {S E A B : Type ℓ} (R : A → S → Type κ) (Q : B → S → Type κ) (f : A → Action S E B)
    (r : Result E A × S)
    → Ensures R r
    → ((a : A) (s : S) → R a s → Ensures Q (f a s))
    → Ensures Q (continue f r)
ensure_continue R Q f (ok a, s) h k = k a s h
ensure_continue R Q f (err e, s) h k = tt

pub Ensures-bind {ℓ κ} :
    {S E A B : Type ℓ} (R : A → S → Type κ) (Q : B → S → Type κ) (m : Action S E A)
    (f : A → Action S E B) (s : S)
    → Ensures R (m s)
    → ((a : A) (s' : S) → R a s' → Ensures Q (f a s'))
    → Ensures Q ((m >>= f) s)
unfolding ◌>>=◌
Ensures-bind R Q m f s h k = ensure_continue R Q f (m s) h k

ensure_kept {ℓ} :
    {S E A : Type ℓ} (P : S → Type ℓ) (r : Result E A × S) → P r.1 → Ensures (λ _ s. P s) r
ensure_kept P (ok a, s) h = h
ensure_kept P (err e, s) h = tt

-- What an action keeps holds where it returns.
pub Ensures-Keeps {ℓ} :
    {S E A : Type ℓ} (P : S → Type ℓ) (m : Action S E A) (s : S)
    → Keeps P m
    → P s
    → Ensures (λ _ s'. P s') (m s)
Ensures-Keeps P m s k h = ensure_kept P (m s) (k.at s h)

ensure_settle {ℓ κ} :
    {S E A : Type ℓ} (Q : A → S → Type κ) (before : S) (r : Result E A × S)
    → Ensures Q r
    → Ensures Q (settle before r)
ensure_settle Q before (ok a, s) h = h
ensure_settle Q before (err e, s) h = tt

pub Ensures-transaction {ℓ κ} :
    {S E A : Type ℓ} (Q : A → S → Type κ) (m : Action S E A) (s : S)
    → Ensures Q (m s)
    → Ensures Q (transaction m s)
unfolding transaction
Ensures-transaction Q m s h = ensure_settle Q s (m s) h

pub Ensures-guard :
    {S E : Type 0} (b : Bool) (e : E) (s : S)
    → Ensures (λ _ s'. (b ≡ true) × (s' ≡ s)) (guard {S = S} b e s)
unfolding guard
Ensures-guard true e s = (refl, refl)
Ensures-guard false e s = tt

pub Ensures-gets :
    {S A : Type 0} (E : Type 0) (f : S → A) (s : S)
    → Ensures {E = E} (λ a s'. (a ≡ f s) × (s' ≡ s)) (gets f s)
unfolding gets
Ensures-gets E f s = (refl, refl)

pub Ensures-pure {ℓ κ} :
    {S A : Type ℓ} (E : Type ℓ) (Q : A → S → Type κ) (a : A) (s : S)
    → Q a s
    → Ensures {E = E} Q (pure a s)
unfolding pure
Ensures-pure E Q a s h = h

pub Ensures-require :
    {S E A : Type 0} (o : Option A) (e : E) (s : S)
    → Ensures (λ a s'. (o ≡ some a) × (s' ≡ s)) (require o e s)
unfolding require
Ensures-require none e s = tt
Ensures-require (some a) e s = (refl, refl)

pub Ensures-imp {ℓ κ} :
    {S E A : Type ℓ} (Q R : A → S → Type κ) (r : Result E A × S)
    → ((a : A) (s : S) → Q a s → R a s)
    → Ensures Q r
    → Ensures R r
Ensures-imp Q R (ok a, s) k h = k a s h
Ensures-imp Q R (err e, s) k h = tt

-- Read off a run that returned.
pub Ensures-returned {ℓ κ} :
    {S E A : Type ℓ} (Q : A → S → Type κ) (r : Result E A × S) {a : A} {s : S}
    → Ensures Q r
    → r ≡ (ok a, s)
    → Q a s
Ensures-returned Q r {a} {s} h e = rw e at h

-- A promise that depends on a hypothesis.
pub Ensures-given {ℓ κ} :
    {S E A : Type ℓ} (X : Type κ) (Q : A → S → Type κ) (r : Result E A × S)
    → (X → Ensures Q r)
    → Ensures (λ a s. X → Q a s) r
Ensures-given X Q (ok a, s) h = h
Ensures-given X Q (err e, s) h = tt

-- A fact that does not depend on the outcome.
pub Ensures-known {ℓ κ} :
    {S E A : Type ℓ} (X : Type κ) (r : Result E A × S) → X → Ensures (λ _ _. X) r
Ensures-known X (ok a, s) x = x
Ensures-known X (err e, s) x = tt

-- A fact that the return of the first action shows.
pub Ensures-first {ℓ κ} :
    {S E A B : Type ℓ} (X : Type κ) (m : Action S E A) (f : A → Action S E B) (s : S)
    → Ensures (λ _ _. X) (m s)
    → Ensures (λ _ _. X) ((m >>= f) s)
Ensures-first X m f s h = Ensures-bind (λ _ _. X) _ m f s h λ a t x. Ensures-known X (f a t) x
