-- ===== src/Rcp/Envelope/Body.antt =====
-- src/pic_agentic/rcp/envelope.py: the values in the room line.
use pic_agentic.Common.{
  ◌≤◌, arith, ltb, inl, inr, Bool-cases, char_count, take_chars, char_count-concat,
  char_count-take_chars,
}
use pic_agentic.Common.Value.{Value}
use pic_agentic.Rcp.Envelope.{Platform, body_value}

-- A payload value is echoed with at most 60 characters.
pub body_value-le : (p : Platform) (v : Value) → char_count (body_value p v) ≤ 60
unfolding body_value char_count
body_value-le p v = elim (Bool-cases (ltb 60 (char_count (p.to_str v)))) [
  | inl long ↦ rw long (
      omega (
        arith,
        char_count-concat (take_chars 57 (p.to_str v)) "...",
        char_count-take_chars 57 (p.to_str v),
      ))
  | inr short ↦ rw short (ground arith)
]
