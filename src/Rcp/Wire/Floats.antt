-- ===== src/Rcp/Wire/Floats.antt =====
-- src/pic_agentic/rcp/envelope.py: floats in the encoded form.
use pic_agentic.Common.{String, ◌≡◌, some, inl, inr, str_eq, Option-cases, Bool-cases}
use pic_agentic.Common.Value.{
  Value, null, bool, int, float, str, list, dict, Items, nil, cons, Fields, end, field, get_field,
}
use pic_agentic.Rcp.Wire.{
  FloatText, encode_key, put_front, remove_field, encode_wire, encode_items, encode_fields,
}

abbrev mutual
  pub IsFloatFree : Value → Type 0
  IsFloatFree (float x) = ⊥
  IsFloatFree (list xs) = AreFloatFree xs
  IsFloatFree (dict d) = HasNoFloat d
  IsFloatFree null = Unit
  IsFloatFree (bool b) = Unit
  IsFloatFree (int n) = Unit
  IsFloatFree (str s) = Unit

  pub AreFloatFree : Items → Type 0
  AreFloatFree nil = Unit
  AreFloatFree (cons x xs) = IsFloatFree x × AreFloatFree xs

  pub HasNoFloat : Fields → Type 0
  HasNoFloat end = Unit
  HasNoFloat (field k v rest) = IsFloatFree v × HasNoFloat rest

get_field-IsFloatFree :
    (k : String) (d : Fields) (v : Value) → HasNoFloat d → get_field k d ≡ some v → IsFloatFree v
unfolding get_field
get_field-IsFloatFree k end v h e = absurd (cc)
get_field-IsFloatFree k (field j w rest) v h e = elim (Bool-cases (str_eq j k)) [
  | inl same ↦ let at : some w ≡ some v = rw same at e in let e' : w ≡ v = cc in rw (← e') h.0
  | inr other ↦ get_field-IsFloatFree k rest v h.1 (rw other at e)
]

remove_field-HasNoFloat : (k : String) (d : Fields) → HasNoFloat d → HasNoFloat (remove_field k d)
unfolding remove_field
remove_field-HasNoFloat k end h = tt
remove_field-HasNoFloat k (field j w rest) h = elim (Bool-cases (str_eq j k)) [
  | inl same ↦ rw same (remove_field-HasNoFloat k rest h.1)
  | inr other ↦ rw other (h.0, remove_field-HasNoFloat k rest h.1)
]

put_front-HasNoFloat :
    (k : String) (v : Value) (d : Fields)
    → IsFloatFree v
    → HasNoFloat d
    → HasNoFloat (put_front k v d)
unfolding put_front
put_front-HasNoFloat k v d hv hd = elim (Option-cases (get_field k d)) [
  | inl fresh ↦ rw (fresh, put_front) (hv, hd)
  | inr (w, old) ↦
      rw (old, put_front) (get_field-IsFloatFree k d w hd old, remove_field-HasNoFloat k d hd)
]

module _ (text : FloatText) where
  mutual
    unfolding encode_wire

    float_free : (v : Value) → IsFloatFree (encode_wire text v)
    float_free (float x) = (tt, tt)
    float_free (list xs) = float_free_items xs
    float_free (dict d) = float_free_fields d
    float_free null = tt
    float_free (bool b) = tt
    float_free (int n) = tt
    float_free (str s) = tt

    float_free_items : (xs : Items) → AreFloatFree (encode_items text xs)
    float_free_items nil = tt
    float_free_items (cons x xs) = (float_free x, float_free_items xs)

    float_free_fields : (d : Fields) → HasNoFloat (encode_fields text d)
    float_free_fields end = tt
    float_free_fields (field k v rest) =
        put_front-HasNoFloat (encode_key k) (encode_wire text v) (encode_fields text rest)
          (float_free v) (float_free_fields rest)

-- Whatever the value, its encoded form holds no float at any depth.
pub encode_wire-IsFloatFree : (text : FloatText) (v : Value) → IsFloatFree (encode_wire text v)
encode_wire-IsFloatFree text v = float_free text v
