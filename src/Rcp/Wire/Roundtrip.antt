-- ===== src/Rcp/Wire/Roundtrip.antt =====
-- src/pic_agentic/rcp/envelope.py: decoding of what was encoded.
use pic_agentic.Common.{
  String, ◌≡◌, refl, none, some, inl, inr, arith, str_eq, eq_iff, eq_refl, Bool-cases,
}
use pic_agentic.Common.Value.{
  Value, null, bool, int, float, str, list, dict, Items, nil, cons, Fields, end, field, get_field,
}
use pic_agentic.Rcp.Wire.{
  FloatText, encode_key, float_tag, put_front, encode_wire, encode_items, encode_fields, tagged,
  restore, decode_wire, decode_items, decode_fields,
}
use pic_agentic.Rcp.Wire.Keys.{decode_key-encode_key, encode_key-injective, encode_key-ne-float_tag}

-- The keys of every `dict` are distinct.
abbrev mutual
  pub IsWellFormed : Value → Type 0
  IsWellFormed (list xs) = AreWellFormed xs
  IsWellFormed (dict d) = HasDistinctKeys d
  IsWellFormed null = Unit
  IsWellFormed (bool b) = Unit
  IsWellFormed (int n) = Unit
  IsWellFormed (float x) = Unit
  IsWellFormed (str s) = Unit

  pub AreWellFormed : Items → Type 0
  AreWellFormed nil = Unit
  AreWellFormed (cons x xs) = IsWellFormed x × AreWellFormed xs

  pub HasDistinctKeys : Fields → Type 0
  HasDistinctKeys end = Unit
  HasDistinctKeys (field k v rest) =
      (get_field k rest ≡ none) × IsWellFormed v × HasDistinctKeys rest

-- A new key goes in front.
put_front_new :
    (k : String) (v : Value) (d : Fields) → get_field k d ≡ none → put_front k v d ≡ field k v d
unfolding put_front
put_front_new k v d h = rw (h, put_front)

module _ (text : FloatText) where
  absent-encode :
      (k : String) (d : Fields)
      → HasDistinctKeys d
      → get_field k d ≡ none
      → get_field (encode_key k) (encode_fields text d) ≡ none
  unfolding encode_fields get_field
  absent-encode k end h e = refl
  absent-encode k (field j v rest) (fresh, _, others) e = elim (Bool-cases (str_eq j k)) [
    | inl same ↦ cc (rw same at e)
    | inr other ↦
        rw
          (put_front_new (encode_key j) (encode_wire text v) (encode_fields text rest)
            (absent-encode j rest others fresh))
          (ground (
            arith,
            absent-encode k rest others,
            eq_iff j k,
            eq_iff (encode_key j) (encode_key k),
            encode_key-injective j k,
          ))
  ]

  encode_fields-field :
      (k : String) (v : Value) (d : Fields)
      → HasDistinctKeys (field k v d)
      → encode_fields text (field k v d)
        ≡ field (encode_key k) (encode_wire text v) (encode_fields text d)
  unfolding encode_fields
  encode_fields-field k v d h = rw (
      put_front_new (encode_key k) (encode_wire text v) (encode_fields text d)
        (absent-encode k d h.2 h.0))

  tagged_one :
      (k : String) (v : Value) → tagged (field (encode_key k) (encode_wire text v) end) ≡ none
  unfolding encode_wire tagged
  tagged_one k null = refl
  tagged_one k (bool b) = refl
  tagged_one k (int n) = refl
  tagged_one k (float x) = refl
  tagged_one k (str s) = ground (arith, eq_iff (encode_key k) float_tag, encode_key-ne-float_tag k)
  tagged_one k (list xs) = refl
  tagged_one k (dict d) = refl

  -- An encoded mapping is never taken for an encoded float.
  pub tagged-encode : (d : Fields) → HasDistinctKeys d → tagged (encode_fields text d) ≡ none
  unfolding encode_fields tagged
  tagged-encode end h = refl
  tagged-encode (field k v end) h = rw (encode_fields-field k v end h, tagged_one k v)
  tagged-encode (field k v (field j w rest)) h =
      rw (encode_fields-field k v (field j w rest) h, encode_fields-field j w rest h.2)

module _ (text : FloatText) where
  mutual
    unfolding decode_wire encode_wire restore tagged

    decode-encode : (v : Value) → IsWellFormed v → decode_wire text (encode_wire text v) ≡ some v
    decode-encode null h = refl
    decode-encode (bool b) h = refl
    decode-encode (int n) h = refl
    decode-encode (float x) h = ground (arith, eq_refl float_tag, text.parse-repr x)
    decode-encode (str s) h = refl
    decode-encode (list xs) h = rw (decode-encode_items xs h)
    decode-encode (dict d) h = rw (tagged-encode text d h, decode-encode_fields d h)

    decode-encode_items :
        (xs : Items) → AreWellFormed xs → decode_items text (encode_items text xs) ≡ some xs
    decode-encode_items nil h = refl
    decode-encode_items (cons x xs) h = rw (decode-encode x h.0, decode-encode_items xs h.1)

    decode-encode_fields :
        (d : Fields) → HasDistinctKeys d → decode_fields text (encode_fields text d) ≡ some d
    decode-encode_fields end h = refl
    decode-encode_fields (field k v rest) h = rw (
      encode_fields-field text k v rest h,
      decode-encode v h.1,
      decode-encode_fields rest h.2,
      decode_key-encode_key k,
      put_front_new k v rest h.0,
    )

-- Decoding what was encoded gives the value back, whatever floats and reserved keys it holds, where
-- the keys of every mapping in it are distinct.
pub decode_wire-encode_wire :
    (text : FloatText) (v : Value) → IsWellFormed v → decode_wire text (encode_wire text v) ≡ some v
decode_wire-encode_wire text v h = decode-encode text v h
