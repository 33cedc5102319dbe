-- ===== src/Rcp/Wire.antt =====
-- src/pic_agentic/rcp/envelope.py, the wire encoding of floats: `_encode_key`, `_decode_key`,
-- `_encode_wire` and `decode_wire`. `repr` and `float(...)` of Python's floats are parameters.
pub mod Keys
pub mod Roundtrip
pub mod Floats
use pic_agentic.Common.{
  ℕ, String, ◌≡◌, Bool, true, false, Option, none, some, ◌&&◌, is_some, str_eq, concat,
  strip_prefix, drop_chars, if◌then◌else◌,
}
use pic_agentic.Common.Float.{Float}
use pic_agentic.Common.Value.{
  Value, null, bool, int, float, str, list, dict, Items, nil, cons, Fields, end, field, get_field,
}

-- `repr(x)` of a float, and `float(text)`: `none` is the `ValueError`.
pub record FloatText : Type 0 where
  pub repr : Float → String
  pub parse : String → Option Float
  pub parse-repr : (x : Float) → parse (repr x) ≡ some x

abbrev pub escape_prefix : String
escape_prefix = "$rcp_"

abbrev pub float_tag : String
float_tag = "$rcp_float"

unfoldable pub encode_key : String → String
encode_key key = if is_some (strip_prefix escape_prefix key) then concat escape_prefix key else key

unfoldable pub decode_key : String → String
decode_key key =
    if is_some (strip_prefix (concat escape_prefix escape_prefix) key)
    then drop_chars 5 key
    else key

-- `del d[key]`
unfoldable pub remove_field : String → Fields → Fields
remove_field key end = end
remove_field key (field k v rest) =
    let others = remove_field key rest in if str_eq k key then others else field k v others

-- An item of a dict comprehension in front of the items that it makes next: where the key comes
-- again the later value wins, in the earlier place.
unfoldable pub put_front : String → Value → Fields → Fields
unfolding get_field remove_field
put_front k v rest = elim (get_field k rest) [
  | none ↦ field k v rest
  | some w ↦ field k w (remove_field k rest)
]

module _ (text : FloatText) where
  unfoldable mutual
    pub encode_wire : Value → Value
    encode_wire (float x) = dict (field float_tag (str (text.repr x)) end)
    encode_wire (dict d) = dict (encode_fields d)
    encode_wire (list xs) = list (encode_items xs)
    encode_wire (null) = null
    encode_wire (bool b) = bool b
    encode_wire (int n) = int n
    encode_wire (str s) = str s

    pub encode_items : Items → Items
    encode_items nil = nil
    encode_items (cons x xs) = cons (encode_wire x) (encode_items xs)

    pub encode_fields : Fields → Fields
    encode_fields end = end
    encode_fields (field k v rest) = put_front (encode_key k) (encode_wire v) (encode_fields rest)

-- The text under the tag, where `set(value) == {FLOAT_TAG}` and it is a `str`.
tag_text : String → Value → Option String
tag_text k (str s) = if str_eq k float_tag then some s else none
tag_text k _ = none

unfoldable pub tagged : Fields → Option String
unfolding tag_text
tagged (field k v end) = tag_text k v
tagged _ = none

abbrev pub and_then {ℓ κ} : {A : Type ℓ} {B : Type κ} → Option A → (A → Option B) → Option B
and_then none f = none
and_then (some a) f = f a

module _ (text : FloatText) where
  -- `float(value[FLOAT_TAG])`
  unfoldable pub parse_float : String → Option Value
  parse_float s = and_then (text.parse s) (λ x. some (float x))

  -- A dict is the float under its tag, or else its items.
  unfoldable pub restore : Option String → Option Value → Option Value
  unfolding parse_float
  restore none items = items
  restore (some s) items = parse_float s

  -- `none` is the `ValueError` of a tagged text that is no float.
  unfoldable mutual
    pub decode_wire : Value → Option Value
    decode_wire (dict d) = restore (tagged d) (and_then (decode_fields d) (λ e. some (dict e)))
    decode_wire (list xs) = and_then (decode_items xs) (λ ys. some (list ys))
    decode_wire (null) = some null
    decode_wire (bool b) = some (bool b)
    decode_wire (int n) = some (int n)
    decode_wire (float x) = some (float x)
    decode_wire (str s) = some (str s)

    pub decode_items : Items → Option Items
    decode_items nil = some nil
    decode_items (cons x xs) =
        and_then (decode_wire x) (λ y. and_then (decode_items xs) (λ ys. some (cons y ys)))

    pub decode_fields : Fields → Option Fields
    decode_fields end = some end
    decode_fields (field k v rest) =
        and_then (decode_wire v)
          (λ w. and_then (decode_fields rest) (λ others. some (put_front (decode_key k) w others)))
