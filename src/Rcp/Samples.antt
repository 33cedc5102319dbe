-- ===== src/Rcp/Samples.antt =====
-- A text for each float, for the concrete messages of the examples.
use pic_agentic.Common.{
  ℕ, zero, suc, ◌+◌, ◌-◌, ◌*◌, ◌/◌, ◌%◌, String, ◌≡◌, refl, ap, ◌∙◌, none, some, arith, nat_eq,
  concat, char_count, char_count-concat, if◌then◌else◌,
}
use pic_agentic.Common.Float.{ℤ, pos, negsuc, Float, nan, inf, neg_inf, fin}
use pic_agentic.Common.Value.{Value, str}
use pic_agentic.Rcp.Envelope.{Platform}
use pic_agentic.Rcp.Wire.{FloatText}

-- A text of `n` strokes.
unfoldable pub strokes : ℕ → String
strokes zero = ""
strokes (suc n) = concat "x" (strokes n)

pub char_count-strokes : (n : ℕ) → char_count (strokes n) ≡ n
unfolding strokes char_count
char_count-strokes zero = refl
char_count-strokes (suc n) = omega (arith, char_count-concat "x" (strokes n), char_count-strokes n)

abbrev pub float_number : Float → ℕ
float_number nan = 0
float_number inf = 1
float_number neg_inf = 2
float_number (fin (pos n)) = 3 + 2 * n
float_number (fin (negsuc n)) = 4 + 2 * n

abbrev pub signed_half : ℕ → ℤ
signed_half m = if nat_eq (m % 2) 0 then pos (m / 2) else negsuc (m / 2)

abbrev pub number_float : ℕ → Float
number_float k =
    if nat_eq k 0
    then nan
    else if nat_eq k 1
    then inf
    else if nat_eq k 2
    then neg_inf
    else fin (signed_half (k - 3))

pub number_float-float_number : (x : Float) → number_float (float_number x) ≡ x
number_float-float_number nan = refl
number_float-float_number inf = refl
number_float-float_number neg_inf = refl
number_float-float_number (fin (pos n)) =
    let half : (3 + 2 * n - 3) / 2 ≡ n = omega arith in
    let even : (3 + 2 * n - 3) % 2 ≡ 0 = omega arith in rw half (ground (arith, even))
number_float-float_number (fin (negsuc n)) =
    let half : (4 + 2 * n - 3) / 2 ≡ n = omega arith in
    let odd : (4 + 2 * n - 3) % 2 ≡ 1 = omega arith in rw half (ground (arith, odd))

abbrev pub stroke_text : FloatText
stroke_text = record {
  repr = λ x. strokes (float_number x);
  parse = λ text. some (number_float (char_count text));
  parse-repr = λ x.
      ap some (ap number_float (char_count-strokes (float_number x)) ∙ number_float-float_number x);
}

-- `str(...)` of a text; the other values have one text here.
abbrev pub plain : Value → String
plain (str s) = s
plain _ = "?"

abbrev pub platform : Platform
platform = record {
  text = stroke_text;
  hexdigest = λ secret v. secret;
  validate = λ v. none;
  to_str = plain;
}
