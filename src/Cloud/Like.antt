-- ===== src/Cloud/Like.antt =====
-- SQLite's `text LIKE pattern`: `%` stands for any characters, `_` for one, and ASCII letters match
-- whatever their case. The bound of D1 on the length of a pattern is left out.
pub mod Under
use Prim.Native.Char.{code}
use Prim.Native.String.{String}
use excel_sync.Base.{ℕ, Bool, true, false, ◌&&◌, ◌||◌, eqb, leb, if◌then◌else◌, ◌+◌}

unfoldable pub fold_code : ℕ → ℕ
fold_code c = if leb b'A' c && leb c b'Z' then c + 32 else c

unfoldable pub like : String → String → Bool
unfolding fold_code
like String.[] String.[] = true
like String.[] (String.◌∷◌ c s) = false
like (String.◌∷◌ p ps) String.[] = eqb (code p) b'%' && like ps String.[]
like (String.◌∷◌ p ps) (String.◌∷◌ c s) =
    let here = like ps (String.◌∷◌ c s) in
    let later = like (String.◌∷◌ p ps) s in
    let rest = like ps s in
    if eqb (code p) b'%'
    then here || later
    else if eqb (code p) b'_'
    then rest
    else eqb (fold_code (code p)) (fold_code (code c)) && rest
