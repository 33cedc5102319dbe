-- ===== src/Rcp/Envelope.antt =====
-- src/pic_agentic/rcp/envelope.py: `RcpMessage`, and src/pic_agentic/rcp/crypto.py: `sign` and
-- `verify`. The canonical JSON encoding with its HMAC digest, pydantic's validation of a mapping
-- and `str(...)` are parameters.
pub mod Signing
pub mod Body
use pic_agentic.Common.{
  ℕ, String, Bool, true, false, Option, none, some, List, [], ◌∷◌, ◌++◌, map, is_some, is_empty,
  str_eq, concat, strip_prefix, char_count, take_chars, join, ltb, if◌then◌else◌,
}
use pic_agentic.Common.Float.{ℤ}
use pic_agentic.Common.Value.{
  Value, null, bool, int, float, str, list, dict, Fields, end, field, get_field,
}
use pic_agentic.Rcp.Wire.{FloatText, encode_wire, decode_wire, and_then}

pub data Kind : Type 0 where
  event command ack : Kind

pub data SenderRole : Type 0 where
  simclient mcp_server : SenderRole

-- The values of the two `StrEnum`s.
abbrev pub kind_value : Kind → String
kind_value event = "event"
kind_value command = "command"
kind_value ack = "ack"

abbrev pub role_value : SenderRole → String
role_value simclient = "simclient"
role_value mcp_server = "mcpserver"

pub record RcpMessage : Type 0 where
  pub sim : String
  pub kind : Kind
  pub type : String
  pub seq : ℤ
  pub sender_role : SenderRole
  pub payload : Fields
  pub ts : String
  pub in_reply_to : Option String
  pub version : ℤ
  pub sig : Option String
  pub transport_sender : Option String
  pub transport_event_id : Option String

abbrev pub optional_text : Option String → Value
optional_text none = null
optional_text (some s) = str s

-- `hmac.new(secret, canonical_bytes(obj), sha256).hexdigest()`, `model_validate` and `str(value)`.
pub record Platform : Type 0 where
  pub text : FloatText
  pub hexdigest : String → Value → String
  pub validate : Value → Option RcpMessage
  pub to_str : Value → String

abbrev pub rcp_namespace : String
rcp_namespace = "io.picongpu.rcp"

abbrev pub sig_prefix : String
sig_prefix = "hmac-sha256:"

-- `model_dump(mode="python", include=SIGNED_FIELDS)`
unfoldable pub signed_dump : RcpMessage → Fields → Value
signed_dump m rest = dict (
    field "sim" (str m.sim) (
      field "kind" (str (kind_value m.kind)) (
        field "type" (str m.type) (
          field "seq" (int m.seq) (
            field "sender_role" (str (role_value m.sender_role)) (
              field "payload" (dict m.payload) (
                field "ts" (str m.ts) (
                  field "in_reply_to" (optional_text m.in_reply_to)
                    (field "version" (int m.version) rest)))))))))

-- `model_dump(mode="python")`, without the transport fields, which are excluded
unfoldable pub model_dump : RcpMessage → Value
unfolding signed_dump
model_dump m = signed_dump m (field "sig" (optional_text m.sig) end)

module _ (p : Platform) where
  unfoldable pub sign_object : String → Value → String
  sign_object secret obj = concat sig_prefix (p.hexdigest secret obj)

  unfoldable pub verify_object : String → Value → String → Bool
  unfolding sign_object
  verify_object secret obj signature =
      if is_some (strip_prefix sig_prefix signature)
      then str_eq (sign_object secret obj) signature
      else false

  unfoldable pub signed_payload : RcpMessage → Value
  unfolding signed_dump
  signed_payload m = encode_wire p.text (signed_dump m end)

  unfoldable pub to_dict : RcpMessage → Value
  unfolding model_dump
  to_dict m = encode_wire p.text (model_dump m)

  unfoldable pub sign : String → RcpMessage → RcpMessage
  unfolding sign_object
  sign secret m = record m { sig = some (sign_object secret (signed_payload m)) }

  unfoldable pub verify : String → RcpMessage → Bool
  unfolding verify_object
  verify secret m = elim m.sig [ none ↦ false | some s ↦ verify_object secret (signed_payload m) s ]

  -- One `key=value` word of the room line; values longer than 60 characters are cut.
  unfoldable pub body_value : Value → String
  body_value v =
      let text = p.to_str v in
      if ltb 60 (char_count text) then concat (take_chars 57 text) "..." else text

  abbrev pub is_scalar : Value → Bool
  is_scalar (str s) = true
  is_scalar (int n) = true
  is_scalar (float x) = true
  is_scalar (bool b) = true
  is_scalar _ = false

  abbrev pub body_part : String → Option Value → List String
  body_part key none = []
  body_part key (some v) = if is_scalar v then concat key (concat "=" (body_value v)) ∷ [] else []

  abbrev pub body_keys : List String
  body_keys =
      "cmd_id" ∷ "job_id" ∷ "submit_system" ∷ "state" ∷ "results_linked" ∷ "step" ∷ "percent"
      ∷ "message" ∷ []

  unfoldable pub body_parts : List String → Fields → List String
  body_parts [] payload = []
  body_parts (key ∷ keys) payload = body_part key (get_field key payload) ++ body_parts keys payload

  unfoldable pub body : RcpMessage → String
  unfolding body_parts
  body m = join " " (concat "[rcp] sim=" m.sim ∷ m.type ∷ body_parts body_keys m.payload)

  unfoldable pub content : RcpMessage → Fields
  content m =
      field "msgtype" (str "m.text")
        (field "body" (str (body m)) (field rcp_namespace (to_dict m) end))

  -- `none` is the `ValueError` of an unsigned message without a secret.
  unfoldable pub to_content : Option String → RcpMessage → Option Fields
  unfolding content
  to_content secret m = elim m.sig [
    | some s ↦ some (content m)
    | none ↦ elim secret [ none ↦ none | some key ↦ some (content (sign key m)) ]
  ]

  -- `none` is a `ValueError` of the decoding or of the validation.
  unfoldable pub from_dict : Value → Option RcpMessage
  from_dict v = and_then (decode_wire p.text v) p.validate

  -- The `TypeError` of a content without an envelope is `none` too.
  unfoldable pub open_envelope : Option Value → Option RcpMessage
  unfolding from_dict
  open_envelope (some (dict d)) = from_dict (dict d)
  open_envelope _ = none

  unfoldable pub from_content : Fields → Option RcpMessage
  unfolding open_envelope
  from_content c = open_envelope (get_field rcp_namespace c)

-- The receiver's deduplication key, a tuple of texts; `py_str` is `str` of an integer.
unfoldable pub dedup_key : (ℤ → String) → RcpMessage → List String
dedup_key py_str m = elim m.transport_event_id [
  | some event_id ↦
      if is_empty event_id
      then m.sim ∷ role_value m.sender_role ∷ py_str m.seq ∷ m.type ∷ []
      else event_id ∷ []
  | none ↦ m.sim ∷ role_value m.sender_role ∷ py_str m.seq ∷ m.type ∷ []
]
