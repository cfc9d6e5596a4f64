-- ===== src/Cloud/Like/Under.antt =====
-- worker/src/access.ts, the folder scope of a rule: `relative_path LIKE scope_value || '/%'`.
use Prim.Native.Char.{Char, code}
use Prim.Native.String.{String}
use Prim.Native.String.append
use excel_sync.Base.{
  ℕ, Bool, true, ◌||◌, eqb, ◌≡◌, refl, ap, ◌∙◌, Bool-cases, inl, inr, arith, ◌<>◌,
}
use excel_sync.Cloud.Like.{like, fold_code}

like-any : (s : String) → like "%" s ≡ true
unfolding like
like-any String.[] = refl
like-any (String.◌∷◌ c s) = rw (like-any s) (ground arith)

append-nil : (s : String) → "" <> s ≡ s
append-nil s i = append.nil s i

append-cons : (c : Char) (s t : String) → String.◌∷◌ c s <> t ≡ String.◌∷◌ c (s <> t)
append-cons c s t i = append.cons c s t i

eqb_refl : (n : ℕ) → eqb n n ≡ true
eqb_refl n = ground arith

-- A pattern that starts with `%` may also skip no character.
like-skip :
    (c : Char) (p s : String)
    → eqb (code c) b'%' ≡ true
    → like p s ≡ true
    → like (String.◌∷◌ c p) s ≡ true
unfolding like
like-skip c p String.[] k h = rw (k, h) refl
like-skip c p (String.◌∷◌ d s) k h = rw (k, h) refl

slash-cons : (s : String) → "/" <> s ≡ String.◌∷◌ "/" s
slash-cons s = append-cons "/" "" s ∙ ap (String.◌∷◌ "/") (append-nil s)

or_true : (b : Bool) → (b || true) ≡ true
or_true b = ground arith

pub like-under : (folder rest : String) → like (folder <> "/%") (folder <> "/" <> rest) ≡ true
unfolding like
like-under String.[] rest = rw (append-nil ("/" <> rest), slash-cons rest) (like-any rest)
like-under (String.◌∷◌ c s) rest =
    rw (append-cons c s "/%", append-cons c s ("/" <> rest))
      (elim (Bool-cases (eqb (code c) b'%')) [
        | inl e ↦
            rw (e, like-skip c (s <> "/%") (s <> "/" <> rest) e (like-under s rest))
              (or_true (like (s <> "/%") (String.◌∷◌ c (s <> "/" <> rest))))
        | inr e ↦ rw (e, like-under s rest, eqb_refl (fold_code (code c))) (ground arith)
      ])
