-- ===== src/Base/Rows.antt =====
-- Laws of selection, update and deletion, and of what holds of all rows.
use mathlib.Core.Path.{◌≡◌, refl}
use mathlib.Core.Logic.{inl, inr}
use Prim.Native.Nat.{◌+◌, ◌≤◌}
use mathlib.Core.Bool.{Bool, true, false, ◌||◌, ◌&&◌, not}
use mathlib.Core.Option.{some}
use mathlib.Core.List.{List, [], ◌∷◌, ◌++◌}
use native.Mathlib.Omega.{arith}
use excel_sync.Base.Tests.{Bool-cases}
use excel_sync.Base.Lists.{find, select, remove, update, any, count, length, All}

module _ {ℓ} {A : Type ℓ} where
  pub any-append : (p : A → Bool) (xs ys : List A) → any p (xs ++ ys) ≡ (any p xs || any p ys)
  any-append p [] ys = refl
  any-append p (x ∷ xs) ys = ground (arith, any-append p xs ys)

  pub any-update :
      (p q : A → Bool) (f : A → A) (xs : List A)
      → ((x : A) → p (f x) ≡ p x)
      → any p (update q f xs) ≡ any p xs
  any-update p q f [] h = refl
  any-update p q f (x ∷ xs) h = ground (arith, h x, any-update p q f xs h)

  -- An update leaves a row of some kind where each row of that kind stays of it.
  pub any-update_keeps :
      (p q : A → Bool) (f : A → A) (xs : List A)
      → ((x : A) → q x ≡ true → p x ≡ true → p (f x) ≡ true)
      → any p xs ≡ true
      → any p (update q f xs) ≡ true
  any-update_keeps p q f [] k h = h
  any-update_keeps p q f (x ∷ xs) k h = ground (arith, k x, any-update_keeps p q f xs k)

  pub any-update_makes :
      (p q : A → Bool) (f : A → A) (xs : List A)
      → ((x : A) → q x ≡ true → p (f x) ≡ true)
      → any q xs ≡ true
      → any p (update q f xs) ≡ true
  any-update_makes p q f [] k h = h
  any-update_makes p q f (x ∷ xs) k h = ground (arith, k x, any-update_makes p q f xs k)

  pub any-append_last :
      (p : A → Bool) (xs : List A) (x : A) → p x ≡ true → any p (xs ++ x ∷ []) ≡ true
  any-append_last p [] x h = ground arith
  any-append_last p (y ∷ xs) x h = ground (arith, any-append_last p xs x h)

  pub any-append_keeps : (p : A → Bool) (xs ys : List A) → any p xs ≡ true → any p (xs ++ ys) ≡ true
  any-append_keeps p [] ys h = ground arith
  any-append_keeps p (x ∷ xs) ys h = ground (arith, any-append_keeps p xs ys)

  pub select-remove : (p : A → Bool) (xs : List A) → select p (remove p xs) ≡ []
  select-remove p [] = refl
  select-remove p (x ∷ xs) = ground (arith, select-remove p xs)

  pub count-length-select : (p : A → Bool) (xs : List A) → length (select p xs) ≡ count p xs
  count-length-select p [] = refl
  count-length-select p (x ∷ xs) = ground (arith, count-length-select p xs)

module _ {ℓ κ} {A : Type ℓ} (P : A → Type κ) where
  pub All-append : (xs ys : List A) → All P xs → All P ys → All P (xs ++ ys)
  All-append [] ys h k = k
  All-append (x ∷ xs) ys (p, h) k = (p, All-append xs ys h k)

  pub All-remove : (p : A → Bool) (xs : List A) → All P xs → All P (remove p xs)
  All-remove p [] h = tt
  All-remove p (x ∷ xs) (hx, h) = elim (Bool-cases (p x)) [
    | inl e ↦ rw e (All-remove p xs h)
    | inr e ↦ rw e (hx, All-remove p xs h)
  ]

  pub All-update :
      (p : A → Bool) (f : A → A) (xs : List A)
      → ((x : A) → P x → P (f x))
      → All P xs
      → All P (update p f xs)
  All-update p f [] k h = tt
  All-update p f (x ∷ xs) k (hx, h) = elim (Bool-cases (p x)) [
    | inl e ↦ rw e (k x hx, All-update p f xs k h)
    | inr e ↦ rw e (hx, All-update p f xs k h)
  ]

  pub All-select : (p : A → Bool) (xs : List A) → All P xs → All P (select p xs)
  All-select p [] h = tt
  All-select p (x ∷ xs) (hx, h) = elim (Bool-cases (p x)) [
    | inl e ↦ rw e (hx, All-select p xs h)
    | inr e ↦ rw e (All-select p xs h)
  ]

  pub find-All : (p : A → Bool) (xs : List A) {a : A} → All P xs → find p xs ≡ some a → P a
  find-All p [] h e = cc
  find-All p (x ∷ xs) {a} (hx, h) e = elim (Bool-cases (p x)) [
    | inl t ↦ ground (arith)
    | inr t ↦ find-All p xs h (rw t at e)
  ]

module _ {ℓ κ} {A : Type ℓ} {P Q : A → Type κ} where
  pub All-imp : (xs : List A) → ((x : A) → P x → Q x) → All P xs → All Q xs
  All-imp [] k h = tt
  All-imp (x ∷ xs) k (hx, h) = (k x hx, All-imp xs k h)

pub All-select_self {ℓ} :
    {A : Type ℓ} (p : A → Bool) (xs : List A) → All (λ x. p x ≡ true) (select p xs)
All-select_self p [] = tt
All-select_self p (x ∷ xs) = elim (Bool-cases (p x)) [
  | inl e ↦ rw e (e, All-select_self p xs)
  | inr e ↦ rw e (All-select_self p xs)
]

pub find-holds {ℓ} :
    {A : Type ℓ} (p : A → Bool) (xs : List A) {a : A} → find p xs ≡ some a → p a ≡ true
find-holds p [] e = cc
find-holds p (x ∷ xs) {a} e = ground (arith, find-holds p xs {a = a})

pub any-find-some {ℓ} :
    {A : Type ℓ} (p : A → Bool) (xs : List A) {a : A} → find p xs ≡ some a → any p xs ≡ true
any-find-some p [] h = cc
any-find-some p (x ∷ xs) {a} h = ground (arith, any-find-some p xs {a = a})

pub count-remove {ℓ} :
    {A : Type ℓ} (p q : A → Bool) (xs : List A) → count p (remove q xs) ≤ count p xs
count-remove p q [] = ground arith
count-remove p q (x ∷ xs) = ground (arith, count-remove p q xs)

pub count-remove_self {ℓ} :
    {A : Type ℓ} (p q : A → Bool) (xs : List A)
    → ((x : A) → p x ≡ true → q x ≡ true)
    → count p (remove q xs) ≡ 0
count-remove_self p q [] k = refl
count-remove_self p q (x ∷ xs) k = ground (arith, k x, count-remove_self p q xs k)

pub count-update {ℓ} :
    {A : Type ℓ} (p q : A → Bool) (f : A → A) (xs : List A)
    → ((x : A) → p (f x) ≡ p x)
    → count p (update q f xs) ≡ count p xs
count-update p q f [] k = refl
count-update p q f (x ∷ xs) k = ground (arith, k x, count-update p q f xs k)

pub count-append_last {ℓ} :
    {A : Type ℓ} (p : A → Bool) (xs : List A) (x : A) → count p (xs ++ x ∷ []) ≤ count p xs + 1
count-append_last p [] x = ground arith
count-append_last p (y ∷ xs) x = ground (arith, count-append_last p xs x)

pub count-append_other {ℓ} :
    {A : Type ℓ} (p : A → Bool) (xs : List A) (x : A)
    → p x ≡ false
    → count p (xs ++ x ∷ []) ≡ count p xs
count-append_other p [] x h = ground arith
count-append_other p (y ∷ xs) x h = ground (arith, count-append_other p xs x h)

pub any-count {ℓ} : {A : Type ℓ} (p : A → Bool) (xs : List A) → any p xs ≡ false → count p xs ≡ 0
any-count p [] h = refl
any-count p (x ∷ xs) h = ground (arith, any-count p xs)

pub count-remove_split {ℓ} :
    {A : Type ℓ} (p q : A → Bool) (xs : List A)
    → count p xs ≡ count p (remove q xs) + count (λ x. q x && p x) xs
count-remove_split p q [] = refl
count-remove_split p q (x ∷ xs) = ground (arith, count-remove_split p q xs)

pub count-split {ℓ} :
    {A : Type ℓ} (p q : A → Bool) (xs : List A)
    → count q xs ≡ count (λ x. q x && p x) xs + count (λ x. q x && not (p x)) xs
count-split p q [] = refl
count-split p q (x ∷ xs) = ground (arith, count-split p q xs)

pub find-count {ℓ} :
    {A : Type ℓ} (p q : A → Bool) (xs : List A) {a : A}
    → find p xs ≡ some a
    → q a ≡ true
    → 1 ≤ count q xs
find-count p q [] e h = cc
find-count p q (x ∷ xs) {a} e h = ground (arith, find-count p q xs {a = a})
