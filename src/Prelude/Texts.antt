-- ===== src/Prelude/Texts.antt =====
-- Python's `in` and `startswith` on texts, and `str` of a natural number.
use Prim.Native.Nat.{ℕ, zero, suc, ◌+◌, ◌/◌, ◌%◌}
use Prim.Native.String.{String, ◌++◌}
use Prim.Native.Char.{code}
use mathlib.Core.Bool.{Bool, true, false, ◌&&◌, ◌||◌}
use mathlib.Core.List.{List, [], ◌∷◌}
use text.Mathlib.Text.{◌==◌}
use home_compass.Prelude.Tests.{ltb, leb, eqb, if◌then◌else◌}

-- `s in xs`
unfoldable pub is_member : String → List String → Bool
is_member s [] = false
is_member s (x ∷ xs) = s == x || is_member s xs

-- str.startswith
unfoldable pub starts_with : String → String → Bool
starts_with String.[] s = true
starts_with (String.◌∷◌ c p) String.[] = false
starts_with (String.◌∷◌ c p) (String.◌∷◌ d s) =
    (String.◌∷◌ c String.[] == String.◌∷◌ d String.[]) && starts_with p s

-- a text as its code points
abbrev pub code_points : String → List ℕ
code_points String.[] = []
code_points (String.◌∷◌ c s) = code c ∷ code_points s

unfoldable pub same_text : List ℕ → List ℕ → Bool
same_text [] [] = true
same_text (c ∷ s) (d ∷ t) = eqb c d && same_text s t
same_text _ _ = false

-- str.lower on the letters from A to Z
abbrev pub lower_code : ℕ → ℕ
lower_code c = if leb b'A' c && leb c b'Z' then c + 32 else c

nth_text : ℕ → List String → String
nth_text n [] = ""
nth_text zero (s ∷ ss) = s
nth_text (suc n) (s ∷ ss) = nth_text n ss

digit : ℕ → String
unfolding nth_text
digit n = nth_text n ("0" ∷ "1" ∷ "2" ∷ "3" ∷ "4" ∷ "5" ∷ "6" ∷ "7" ∷ "8" ∷ "9" ∷ [])

-- on fuel: a number has no more digits than it has units, and one
decimal_from : ℕ → ℕ → String
unfolding digit
decimal_from zero n = ""
decimal_from (suc fuel) n =
    let higher = decimal_from fuel (n / 10) in
    if ltb n 10 then digit n else higher ++ digit (n % 10)

-- str(n)
unfoldable pub decimal : ℕ → String
unfolding decimal_from
decimal n = decimal_from (n + 1) n
