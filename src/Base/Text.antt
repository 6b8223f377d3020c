-- ===== src/Base/Text.antt =====
-- What the program uses of Python's text: `in` on texts and on sets of texts, `strip`, `lower`.
-- `strip` and `lower` are those of ASCII texts: other characters count as neither space nor letter.
use Prim.Native.Char.{Char, code}
use Prim.Native.Nat.{ℕ, zero, suc, ◌-◌}
use Prim.Native.String.{String}
use mathlib.Core.Bool.{Bool, false, ◌&&◌, ◌||◌}
use mathlib.Core.List.{List, [], ◌∷◌}
use text.Mathlib.Text.{◌==◌ as str_eq, starts_with}
use leon_ai_assistant.Base.Tests.{leb, if◌then◌else◌}

-- `needle in text`
unfoldable pub contains : String → String → Bool
contains needle String.[] = str_eq needle String.[]
contains needle (String.◌∷◌ c s) = starts_with (String.◌∷◌ c s) needle || contains needle s

-- `text in {…}`
unfoldable pub one_of : String → List String → Bool
one_of s [] = false
one_of s (x ∷ xs) = str_eq x s || one_of s xs

-- `any(item in text for item in needles)`
unfoldable pub contains_any : String → List String → Bool
unfolding contains
contains_any text [] = false
contains_any text (x ∷ xs) = contains x text || contains_any text xs

-- `xs.intersection(ys)` as a truth value
unfoldable pub intersects : List String → List String → Bool
unfolding one_of
intersects [] ys = false
intersects (x ∷ xs) ys = one_of x ys || intersects xs ys

nth_char : ℕ → String → Char → Char
nth_char i String.[] d = d
nth_char zero (String.◌∷◌ c s) d = c
nth_char (suc i) (String.◌∷◌ c s) d = nth_char i s d

lower_char : Char → Char
unfolding nth_char
lower_char c =
    if leb b'A' (code c) && leb (code c) b'Z'
    then nth_char (code c - b'A') "abcdefghijklmnopqrstuvwxyz" c
    else c

unfoldable pub lower : String → String
unfolding lower_char
lower String.[] = String.[]
lower (String.◌∷◌ c s) = String.◌∷◌ (lower_char c) (lower s)

is_space : Char → Bool
is_space c = leb 9 (code c) && leb (code c) 13 || leb 28 (code c) && leb (code c) 32

lstrip : String → String
unfolding is_space
lstrip String.[] = String.[]
lstrip (String.◌∷◌ c s) = let rest = lstrip s in if is_space c then rest else String.◌∷◌ c s

unfoldable pub rstrip : String → String
unfolding is_space
rstrip String.[] = String.[]
rstrip (String.◌∷◌ c s) =
    let rest = rstrip s in if is_space c && str_eq rest "" then String.[] else String.◌∷◌ c rest

unfoldable pub strip : String → String
unfolding lstrip rstrip
strip s = lstrip (rstrip s)

-- `str(value or "").strip().lower()`
unfoldable pub normalized : String → String
unfolding lower strip
normalized s = lower (strip s)
