-- ===== src/Common/Text.antt =====
-- Texts as the native `String`: joining, searching and splitting at one character, by recursion.
use Prim.Native.Char.{Char, code}
use Prim.Native.String.{String}
use Prim.Native.Nat.{ℕ}
use text.Mathlib.Text.{◌==◌ as str_eq}
use pic_agentic.Common.Tests.{if◌then◌else◌}
use mathlib.Core.Bool.{Bool, true, false, ◌||◌}
use mathlib.Core.List.{List, [], ◌∷◌}
use pic_agentic.Common.Tests.{nat_eq}

-- `s + t`
abbrev pub concat : String → String → String
concat s t = Prim.Native.String.◌++◌ s t

-- `not s`
abbrev pub is_empty : String → Bool
is_empty String.[] = true
is_empty (String.◌∷◌ c s) = false

-- `chr(n) in s`
unfoldable pub contains_char : ℕ → String → Bool
contains_char n String.[] = false
contains_char n (String.◌∷◌ c s) = nat_eq (code c) n || contains_char n s

-- `s.startswith(chr(n))`
unfoldable pub starts_with_char : ℕ → String → Bool
starts_with_char n String.[] = false
starts_with_char n (String.◌∷◌ c s) = nat_eq (code c) n

-- `x in xs` for texts
unfoldable pub elem : String → List String → Bool
elem x [] = false
elem x (y ∷ ys) = str_eq y x || elem x ys

-- `sep.join(xs)`
unfoldable pub join : String → List String → String
join sep [] = ""
join sep (x ∷ []) = x
join sep (x ∷ y ∷ ys) = concat x (concat sep (join sep (y ∷ ys)))

-- The parts of a text between the occurrences of one character: `s.split(chr(n))`.
unfoldable pub push_char : Char → List String → List String
push_char c [] = String.◌∷◌ c String.[] ∷ []
push_char c (x ∷ xs) = String.◌∷◌ c x ∷ xs

unfoldable pub split_char : ℕ → String → List String
unfolding push_char
split_char n String.[] = String.[] ∷ []
split_char n (String.◌∷◌ c s) =
    let rest = split_char n s in if nat_eq (code c) n then String.[] ∷ rest else push_char c rest

-- `s.rsplit("/", maxsplit=1)[-1]`
unfoldable pub last_part : List String → String
last_part [] = ""
last_part (x ∷ []) = x
last_part (x ∷ y ∷ ys) = last_part (y ∷ ys)
