-- ===== src/Rcp/Wire/Keys.antt =====
-- The escape of mapping keys: `_encode_key` and `_decode_key` of src/pic_agentic/rcp/envelope.py.
use text.Mathlib.TextLemmas.{append_assoc}
use pic_agentic.Common.{
  String, ◌≡◌, ◌≢◌, refl, sym, ap, ◌∙◌, none, some, inl, inr, concat, strip_prefix, char_count,
  strip_prefix-concat, strip_prefix-eq-some, drop_chars-concat, Option-cases,
}
use pic_agentic.Rcp.Wire.{escape_prefix, float_tag, encode_key, decode_key}

encode_key_plain : (k : String) → strip_prefix escape_prefix k ≡ none → encode_key k ≡ k
unfolding encode_key
encode_key_plain k h = rw h

encode_key_escaped :
    (k r : String) → strip_prefix escape_prefix k ≡ some r → encode_key k ≡ concat escape_prefix k
unfolding encode_key
encode_key_escaped k r h = rw h

no_double_prefix :
    (k : String)
    → strip_prefix escape_prefix k ≡ none
    → strip_prefix (concat escape_prefix escape_prefix) k ≡ none
no_double_prefix k h = elim (Option-cases (strip_prefix (concat escape_prefix escape_prefix) k)) [
  | inl absent ↦ absent
  | inr (r, found) ↦
      let e = strip_prefix-eq-some (concat escape_prefix escape_prefix) k r found in
      let again = strip_prefix-concat escape_prefix (concat escape_prefix r) in
      cc
        (h, ap (strip_prefix escape_prefix) (e ∙ append_assoc escape_prefix escape_prefix r), again)
]

decode_key_plain : (k : String) → strip_prefix escape_prefix k ≡ none → decode_key k ≡ k
unfolding decode_key
decode_key_plain k h = rw (no_double_prefix k h)

decode_key_escaped :
    (k r : String) → strip_prefix escape_prefix k ≡ some r → decode_key (concat escape_prefix k) ≡ k
unfolding decode_key char_count
decode_key_escaped k r h =
    let e = strip_prefix-eq-some escape_prefix k r h in
    let whole = ap (concat escape_prefix) e ∙ sym (append_assoc escape_prefix escape_prefix r) in
    let found =
      ap (strip_prefix (concat escape_prefix escape_prefix)) whole
      ∙ strip_prefix-concat (concat escape_prefix escape_prefix) r in
    rw found (drop_chars-concat escape_prefix k)

-- Decoding an encoded key gives the key back, also when it starts with the reserved prefix.
pub decode_key-encode_key : (k : String) → decode_key (encode_key k) ≡ k
decode_key-encode_key k = elim (Option-cases (strip_prefix escape_prefix k)) [
  | inl plain ↦ rw (encode_key_plain k plain) (decode_key_plain k plain)
  | inr (r, found) ↦ rw (encode_key_escaped k r found) (decode_key_escaped k r found)
]

-- Different keys have different encoded forms.
pub encode_key-injective : (j k : String) → encode_key j ≡ encode_key k → j ≡ k
encode_key-injective j k h =
    sym (decode_key-encode_key j) ∙ ap decode_key h ∙ decode_key-encode_key k

strip_tag : strip_prefix escape_prefix float_tag ≡ some "float"
unfolding strip_prefix
strip_tag = refl

strip_float : strip_prefix escape_prefix "float" ≡ none
unfolding strip_prefix
strip_float = refl

-- No encoded key is the tag of a float.
pub encode_key-ne-float_tag : (k : String) → encode_key k ≢ float_tag
encode_key-ne-float_tag k h = elim (Option-cases (strip_prefix escape_prefix k)) [
  | inl plain ↦
      let e = sym (encode_key_plain k plain) ∙ h in
      cc (plain, ap (strip_prefix escape_prefix) e, strip_tag)
  | inr (r, found) ↦
      let e = sym (encode_key_escaped k r found) ∙ h in
      let same =
        sym (strip_prefix-concat escape_prefix k) ∙ ap (strip_prefix escape_prefix) e ∙ strip_tag in
      let plain : k ≡ "float" = cc same in
      cc (found, ap (strip_prefix escape_prefix) plain, strip_float)
]
