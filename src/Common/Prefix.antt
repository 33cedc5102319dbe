-- ===== src/Common/Prefix.antt =====
-- Prefixes of texts: `startswith`, slices counted in characters, and their laws.
use Prim.Native.Char.{code}
use Prim.Native.Nat.{ℕ, zero, suc, ◌≤◌, ◌+◌}
use Prim.Native.String.{String}
use text.Mathlib.TextEquality.{Char-path}
use text.Mathlib.TextLemmas.{cons-append, nil-append}
use mathlib.Core.Path.{◌≡◌, ap₂}
use mathlib.Core.Option.{Option, none, some}
use mathlib.Core.Logic.{inl, inr}
use native.Mathlib.Omega.{arith}
use pic_agentic.Common.Tests.{nat_eq, if◌then◌else◌, Bool-cases}
use pic_agentic.Common.Text.{concat}

-- `s[len(p):]` if `s.startswith(p)`
unfoldable pub strip_prefix : String → String → Option String
strip_prefix String.[] s = some s
strip_prefix (String.◌∷◌ c p) String.[] = none
strip_prefix (String.◌∷◌ c p) (String.◌∷◌ d s) =
    if nat_eq (code c) (code d) then strip_prefix p s else none

-- `len(s)`
unfoldable pub char_count : String → ℕ
char_count String.[] = 0
char_count (String.◌∷◌ c s) = suc (char_count s)

-- `s[n:]`
unfoldable pub drop_chars : ℕ → String → String
drop_chars zero s = s
drop_chars (suc n) String.[] = String.[]
drop_chars (suc n) (String.◌∷◌ c s) = drop_chars n s

-- `s[:n]`
unfoldable pub take_chars : ℕ → String → String
take_chars zero s = String.[]
take_chars (suc n) String.[] = String.[]
take_chars (suc n) (String.◌∷◌ c s) = String.◌∷◌ c (take_chars n s)

pub strip_prefix-concat : (p s : String) → strip_prefix p (concat p s) ≡ some s
unfolding strip_prefix
strip_prefix-concat String.[] s = rw nil-append
strip_prefix-concat (String.◌∷◌ c p) s =
    rw (cons-append c p s) (ground (arith, strip_prefix-concat p s))

pub strip_prefix-eq-some : (p s r : String) → strip_prefix p s ≡ some r → s ≡ concat p r
unfolding strip_prefix
strip_prefix-eq-some String.[] s r h = rw nil-append (cc)
strip_prefix-eq-some (String.◌∷◌ c p) String.[] r h = cc
strip_prefix-eq-some (String.◌∷◌ c p) (String.◌∷◌ d s) r h =
    elim (Bool-cases (nat_eq (code c) (code d))) [
      | inl same ↦
          let e : code d ≡ code c = ground arith in
          rw (cons-append c p r)
            (ap₂ String.◌∷◌ (Char-path d c e) (strip_prefix-eq-some p s r (rw same at h)))
      | inr other ↦ cc (rw other at h)
    ]

pub drop_chars-concat : (p s : String) → drop_chars (char_count p) (concat p s) ≡ s
unfolding drop_chars char_count
drop_chars-concat String.[] s = nil-append s
drop_chars-concat (String.◌∷◌ c p) s = rw (cons-append c p s) (drop_chars-concat p s)

pub char_count-take_chars : (n : ℕ) (s : String) → char_count (take_chars n s) ≤ n
unfolding char_count take_chars
char_count-take_chars zero s = omega arith
char_count-take_chars (suc n) String.[] = omega arith
char_count-take_chars (suc n) (String.◌∷◌ c s) = omega (arith, char_count-take_chars n s)

pub char_count-concat : (s t : String) → char_count (concat s t) ≡ char_count s + char_count t
unfolding char_count
char_count-concat String.[] t = rw nil-append (omega arith)
char_count-concat (String.◌∷◌ c s) t = rw (cons-append c s t) (omega (arith, char_count-concat s t))
