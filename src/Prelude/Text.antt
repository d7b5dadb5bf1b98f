-- ===== src/Prelude/Text.antt =====
-- Letters and digits of texts.
use Prim.Native.Nat.{ℕ}
use Prim.Native.Char.{Char, code}
use Prim.Native.String.{String}
use mathlib.Core.Path.{◌≡◌, refl}
use mathlib.Core.List.{List, [], ◌∷◌}
use lantern_client.Prelude.Tests.{if◌then◌else◌, eqb}

-- The code points of a text: its bytes, if it is ASCII.
abbrev pub codes : String → List ℕ
codes String.[] = []
codes (String.◌∷◌ c s) = code c ∷ codes s

-- The character of `lower` at the place that `c` has in `upper`; `c` where it has none.
swap_case : Char → String → String → Char
swap_case c String.[] lower = c
swap_case c (String.◌∷◌ u upper) String.[] = c
swap_case c (String.◌∷◌ u upper) (String.◌∷◌ l lower) =
    if eqb (code c) (code u) then l else swap_case c upper lower

lower_char : Char → Char
unfolding swap_case
lower_char c = swap_case c "ABCDEFGHIJKLMNOPQRSTUVWXYZ" "abcdefghijklmnopqrstuvwxyz"

-- `strings.ToLower` on ASCII text.
unfoldable pub to_lower : String → String
unfolding lower_char
to_lower String.[] = String.[]
to_lower (String.◌∷◌ c s) = String.◌∷◌ (lower_char c) (to_lower s)

to_first : Char → List String → List String
to_first c [] = []
to_first c (w ∷ ws) = String.◌∷◌ c w ∷ ws

-- `strings.Split` at a character, given by its code.
unfoldable pub split : ℕ → String → List String
unfolding to_first
split sep String.[] = "" ∷ []
split sep (String.◌∷◌ c s) =
    let rest = split sep s in if eqb (code c) sep then "" ∷ rest else to_first c rest

split_test : split 45 "1y-usd-10" ≡ "1y" ∷ "usd" ∷ "10" ∷ []
unfolding split
split_test = refl

to_lower_test : to_lower "takenSurveys-EN_us" ≡ "takensurveys-en_us"
unfolding to_lower
to_lower_test = refl
