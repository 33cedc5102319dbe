-- ===== src/Common/Order.antt =====
-- Python's order on texts: by code point, a prefix first.
use Prim.Native.String.{String}
use Prim.Native.Char.{code}
use mathlib.Core.Path.{◌≡◌, refl}
use mathlib.Core.Bool.{Bool, true, false}
use native.Mathlib.Omega.{arith}
use pic_agentic.Common.Tests.{ltb, nat_eq, if◌then◌else◌}

-- `a <= b`
unfoldable pub text_le : String → String → Bool
text_le String.[] b = true
text_le (String.◌∷◌ c s) String.[] = false
text_le (String.◌∷◌ c s) (String.◌∷◌ d t) =
    let rest = text_le s t in
    if ltb (code c) (code d) then true else if nat_eq (code c) (code d) then rest else false

pub text_le_refl : (s : String) → text_le s s ≡ true
unfolding text_le
text_le_refl String.[] = refl
text_le_refl (String.◌∷◌ c s) = ground (arith, text_le_refl s)
