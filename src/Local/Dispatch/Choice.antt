-- ===== src/Local/Dispatch/Choice.antt =====
-- Which job is dispatched next.
use excel_sync.Base.{
  ℕ, ◌≤◌, String, ◌≡◌, refl, Bool, true, false, Option, none, some, List, [], ◌∷◌, ltb, select, All,
  All-imp, All-select_self, Bool-cases, Option-cases, ◌≢◌, inl, inr, arith, string_eq,
}
use mathlib.Core.Option.{some-injective}
use mathlib.Core.List.{Memᴰ}
use excel_sync.Local.Schema.{PendingRow, Db}
use excel_sync.Local.Queue.{oldest}
use excel_sync.Local.Dispatch.{is_ready, comes_before, most_urgent, next_ready_pending}

-- `q` does not overtake `p` in the order that is asked for.
abbrev pub NotAfter : Bool → PendingRow → PendingRow → Type 0
NotAfter true p q = p.created_at ≤ q.created_at
NotAfter false p q = comes_before q p ≡ false

most_urgent-All :
    (P : PendingRow → Type 0) (best : PendingRow) (ps : List PendingRow) {p : PendingRow}
    → P best
    → All P ps
    → most_urgent (some best) ps ≡ some p
    → P p
unfolding most_urgent
most_urgent-All P best [] hb h e = ground arith
most_urgent-All P best (q ∷ ps) hb (hq, h) e = elim (Bool-cases (comes_before q best)) [
  | inl t ↦ most_urgent-All P q ps hq h (rw t at e)
  | inr t ↦ most_urgent-All P best ps hb h (rw t at e)
]

comes_before_trans :
    (p q r : PendingRow)
    → comes_before p q ≡ false
    → comes_before q r ≡ false
    → comes_before p r ≡ false
comes_before_trans p q r h k = ground arith

comes_before_asym : (p q : PendingRow) → comes_before p q ≡ true → comes_before q p ≡ false
comes_before_asym p q h = ground arith

comes_before_irrefl : (p : PendingRow) → comes_before p p ≡ false
comes_before_irrefl p = ground arith

most_urgent_least :
    (best : PendingRow) (ps : List PendingRow) {p : PendingRow}
    → most_urgent (some best) ps ≡ some p
    → (comes_before best p ≡ false) × All (NotAfter false p) ps
unfolding most_urgent
most_urgent_least best [] {p} e =
    let same : best ≡ p = some-injective best p e in rw same (comes_before_irrefl p, tt)
most_urgent_least best (q ∷ ps) {p} e = elim (Bool-cases (comes_before q best)) [
  | inl t ↦
      let (first, rest) = most_urgent_least q ps {p = p} (rw t at e) in
      (comes_before_trans best q p (comes_before_asym q best t) first, (first, rest))
  | inr t ↦
      let (first, rest) = most_urgent_least best ps {p = p} (rw t at e) in
      (first, (comes_before_trans q best p t first, rest))
]

oldest-All :
    (P : PendingRow → Type 0) (best : PendingRow) (ps : List PendingRow) {p : PendingRow}
    → P best
    → All P ps
    → oldest (some best) ps ≡ some p
    → P p
unfolding oldest
oldest-All P best [] hb h e = ground arith
oldest-All P best (q ∷ ps) hb (hq, h) e = elim (Bool-cases (ltb q.created_at best.created_at)) [
  | inl t ↦ oldest-All P q ps hq h (rw t at e)
  | inr t ↦ oldest-All P best ps hb h (rw t at e)
]

oldest_least :
    (best : PendingRow) (ps : List PendingRow) {p : PendingRow}
    → oldest (some best) ps ≡ some p
    → (p.created_at ≤ best.created_at) × All (NotAfter true p) ps
unfolding oldest
oldest_least best [] {p} e =
    let same : best ≡ p = some-injective best p e in rw same (omega arith, tt)
oldest_least best (q ∷ ps) {p} e = elim (Bool-cases (ltb q.created_at best.created_at)) [
  | inl t ↦
      let (first, rest) = oldest_least q ps {p = p} (rw t at e) in (ground arith, (first, rest))
  | inr t ↦
      let (first, rest) = oldest_least best ps {p = p} (rw t at e) in (first, (ground arith, rest))
]

select_rest :
    (r : PendingRow → Bool) (P : PendingRow → Type 0) (ps : List PendingRow)
    → All P (select r ps)
    → All (λ q. r q ≡ true → P q) ps
select_rest r P [] h = tt
select_rest r P (q ∷ ps) h = elim (Bool-cases (r q)) [
  | inl t ↦ let (hq, k) = rw t at h in ((λ _. hq), select_rest r P ps k)
  | inr t ↦ ((λ u. cc), select_rest r P ps (rw t at h))
]

select-Mem : (r : PendingRow → Bool) (ps : List PendingRow) → All (λ q. Memᴰ q ps) (select r ps)
select-Mem r [] = tt
select-Mem r (q ∷ ps) = elim (Bool-cases (r q)) [
  | inl t ↦ rw t (Memᴰ.head refl, All-imp (select r ps) (λ x m. Memᴰ.tail m) (select-Mem r ps))
  | inr t ↦ rw t (All-imp (select r ps) (λ x m. Memᴰ.tail m) (select-Mem r ps))
]

select-eq-nil :
    (r : PendingRow → Bool) (ps : List PendingRow) → select r ps ≡ [] → All (λ q. r q ≡ false) ps
select-eq-nil r [] h = tt
select-eq-nil r (q ∷ ps) h = elim (Bool-cases (r q)) [
  | inl t ↦ cc (rw t at h)
  | inr t ↦ (t, select-eq-nil r ps (rw t at h))
]

-- What a dispatcher may rely on when it is given `chosen` for the rows `ps`.
abbrev pub IsChoice : Bool → (PendingRow → Bool) → List PendingRow → Option PendingRow → Type 0
IsChoice prefer_oldest ready ps none = All (λ q. ready q ≡ false) ps
IsChoice prefer_oldest ready ps (some p) =
    Memᴰ p ps × (ready p ≡ true) × All (λ q. ready q ≡ true → NotAfter prefer_oldest p q) ps

most_urgent-ne-none : (best : PendingRow) (ps : List PendingRow) → most_urgent (some best) ps ≢ none
unfolding most_urgent
most_urgent-ne-none best [] e = cc
most_urgent-ne-none best (q ∷ ps) e = elim (Bool-cases (comes_before q best)) [
  | inl t ↦ most_urgent-ne-none q ps (rw t at e)
  | inr t ↦ most_urgent-ne-none best ps (rw t at e)
]

choose_urgent :
    (r : PendingRow → Bool) (ps rows : List PendingRow)
    → select r ps ≡ rows
    → IsChoice false r ps (most_urgent none rows)
unfolding most_urgent
choose_urgent r ps [] e = select-eq-nil r ps e
choose_urgent r ps (q ∷ rows) e = elim (Option-cases (most_urgent (some q) rows)) [
  | inl n ↦ absurd (most_urgent-ne-none q rows n)
  | inr (p, m) ↦
      let (q_mem, mems) = rw e at (select-Mem r ps) in
      let (q_ready, readies) = rw e at (All-select_self r ps) in
      let first : All (NotAfter false p) (q ∷ rows) = most_urgent_least q rows {p = p} m in
      rw m (
        most_urgent-All (λ x. Memᴰ x ps) q rows q_mem mems m,
        most_urgent-All (λ x. r x ≡ true) q rows q_ready readies m,
        select_rest r (NotAfter false p) ps (rw e first),
      )
]

oldest-ne-none : (best : PendingRow) (ps : List PendingRow) → oldest (some best) ps ≢ none
unfolding oldest
oldest-ne-none best [] e = cc
oldest-ne-none best (q ∷ ps) e = elim (Bool-cases (ltb q.created_at best.created_at)) [
  | inl t ↦ oldest-ne-none q ps (rw t at e)
  | inr t ↦ oldest-ne-none best ps (rw t at e)
]

choose_oldest :
    (r : PendingRow → Bool) (ps rows : List PendingRow)
    → select r ps ≡ rows
    → IsChoice true r ps (oldest none rows)
unfolding oldest
choose_oldest r ps [] e = select-eq-nil r ps e
choose_oldest r ps (q ∷ rows) e = elim (Option-cases (oldest (some q) rows)) [
  | inl n ↦ absurd (oldest-ne-none q rows n)
  | inr (p, m) ↦
      let (q_mem, mems) = rw e at (select-Mem r ps) in
      let (q_ready, readies) = rw e at (All-select_self r ps) in
      let first : All (NotAfter true p) (q ∷ rows) = oldest_least q rows {p = p} m in
      rw m (
        oldest-All (λ x. Memᴰ x ps) q rows q_mem mems m,
        oldest-All (λ x. r x ≡ true) q rows q_ready readies m,
        select_rest r (NotAfter true p) ps (rw e first),
      )
]

-- The job that `nextReadyPending` returns is a job of the queue, is ready (waiting to run, or past its
-- retry time, and of no excluded file), and no ready job comes before it: none of a smaller priority
-- number nor an older one of the same, or none older at all if the oldest is preferred. If it
-- returns none, no job is ready.
pub next_ready_pending-IsChoice :
    (now : ℕ) (excluded : List String) (prefer_oldest : Bool) (db : Db)
    → IsChoice prefer_oldest
        (is_ready now excluded)
        db.pendings
        (next_ready_pending now excluded prefer_oldest db)
unfolding next_ready_pending
next_ready_pending-IsChoice now excluded true db =
    choose_oldest (is_ready now excluded) db.pendings _ refl
next_ready_pending-IsChoice now excluded false db =
    choose_urgent (is_ready now excluded) db.pendings _ refl
