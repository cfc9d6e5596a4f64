-- ===== src/Base/Text.antt =====
-- Texts: ASCII case folding (`toLowerCase`, `COLLATE NOCASE`) and decimal numbers.
use Prim.Native.Nat.{ℕ, zero, suc, ◌/◌, ◌%◌}
use Prim.Native.Char.{Char, code}
use Prim.Native.String.{String, ◌++◌}
use excel_sync.Base.Tests.{eqb, ltb, if◌then◌else◌}

-- The character of the second text that stands where `c` stands in the first.
translate_char : String → String → Char → Char
translate_char String.[] _ c = c
translate_char (String.◌∷◌ a as') String.[] c = c
translate_char (String.◌∷◌ a from) (String.◌∷◌ b to) c =
    if eqb (code a) (code c) then b else translate_char from to c

-- Exact for ASCII texts; SQLite's NOCASE folds just these letters.
unfoldable pub to_lower : String → String
unfolding translate_char
to_lower String.[] = String.[]
to_lower (String.◌∷◌ c s) =
    String.◌∷◌ (translate_char "ABCDEFGHIJKLMNOPQRSTUVWXYZ" "abcdefghijklmnopqrstuvwxyz" c)
      (to_lower s)

digit : ℕ → String
digit zero = "0"
digit (suc zero) = "1"
digit (suc (suc zero)) = "2"
digit (suc (suc (suc zero))) = "3"
digit (suc (suc (suc (suc zero)))) = "4"
digit (suc (suc (suc (suc (suc zero))))) = "5"
digit (suc (suc (suc (suc (suc (suc zero)))))) = "6"
digit (suc (suc (suc (suc (suc (suc (suc zero))))))) = "7"
digit (suc (suc (suc (suc (suc (suc (suc (suc zero)))))))) = "8"
digit _ = "9"

digits : ℕ → ℕ → String → String
unfolding digit
digits zero n rest = rest
digits (suc fuel) n rest =
    let more = digits fuel (n / 10) (digit (n % 10) ++ rest) in
    if ltb n 10 then digit n ++ rest else more

-- A number inside a template string. There are at most `n + 1` digits.
unfoldable pub decimal : ℕ → String
unfolding digits
decimal n = digits (suc n) n ""

-- `s.slice(0, n)`, by characters.
unfoldable pub clip : ℕ → String → String
clip zero s = String.[]
clip (suc n) String.[] = String.[]
clip (suc n) (String.◌∷◌ c s) = String.◌∷◌ c (clip n s)
