-- ===== src/Rcp/Examples.antt =====
-- Concrete messages, floats and sequences of operations for src/pic_agentic/rcp.
use pic_agentic.Common.{
  ◌≤◌, String, ◌≡◌, refl, true, false, Option, none, some, List, [], ◌∷◌, arith, concat,
  strip_prefix, length, str_eq, if◌then◌else◌,
}
use pic_agentic.Common.Float.{pos, negsuc, nan, fin}
use pic_agentic.Common.Value.{
  Value, int, float, str, list, dict, nil, cons, Fields, end, field, get_field,
}
use pic_agentic.Rcp.Wire.{encode_wire, decode_wire}
use pic_agentic.Rcp.Wire.Roundtrip.{IsWellFormed, HasDistinctKeys, decode_wire-encode_wire}
use pic_agentic.Rcp.Envelope.{
  Kind, event, command, ack, SenderRole, simclient, mcp_server, RcpMessage, Platform, kind_value,
  role_value, optional_text, model_dump, signed_dump, signed_payload, sign, verify, to_content,
  content, from_content,
}
use pic_agentic.Rcp.Envelope.Signing.{
  received, SameSigned, from_content-to_content, verify-SameSigned,
}
use pic_agentic.Rcp.Sequence.{SequenceState, empty_sequences, next_seq}
use pic_agentic.Rcp.Sequence.Order.{Op, next, see}
use pic_agentic.Rcp.Dedup.{Key, has_key, empty_store, seen}
use pic_agentic.Rcp.Dedup.Window.{IsConsistent, feed, seen-seen, feed-IsConsistent}
use pic_agentic.Rcp.Samples.{stroke_text}

-- A mapping with a key that looks like the tag of a float, and with floats.
abbrev sample : Value
sample = dict (
    field "$rcp_float" (float nan)
      (field "steps" (list (cons (int (pos 3)) (cons (float (fin (negsuc 4))) nil))) end))

sample-IsWellFormed : IsWellFormed sample
unfolding get_field
sample-IsWellFormed = (refl, tt, (refl, (tt, (tt, tt)), tt))

decode_wire-encode_wire_example :
    decode_wire stroke_text (encode_wire stroke_text sample) ≡ some sample
decode_wire-encode_wire_example = decode_wire-encode_wire stroke_text sample sample-IsWellFormed

-- Reading a dumped message back.
abbrev kind_of : String → Option Kind
kind_of text =
    if str_eq text "event"
    then some event
    else if str_eq text "command"
    then some command
    else if str_eq text "ack"
    then some ack
    else none

abbrev role_of : String → Option SenderRole
role_of text =
    if str_eq text "simclient"
    then some simclient
    else if str_eq text "mcpserver"
    then some mcp_server
    else none

abbrev text_of : Value → Option String
text_of (str s) = some s
text_of _ = none

abbrev build :
    Option Kind
    → Option SenderRole
    → Option String
    → Option String
    → (Kind → SenderRole → Option String → Option String → RcpMessage)
    → Option RcpMessage
build (some k) (some r) reply sig f = some (f k r reply sig)
build _ _ reply sig f = none

abbrev read_message : Value → Option RcpMessage
read_message
      (dict (
        field _ (str sim) (
          field _ (str kind) (
            field _ (str type) (
              field _ (int seq) (
                field _ (str role) (
                  field _ (dict payload) (
                    field _
                      (str ts)
                      (field _ reply (field _ (int version) (field _ sig end))))))))))) =
    build (kind_of kind) (role_of role) (text_of reply) (text_of sig) λ k r in_reply_to signature.
      record {
        sim = sim;
        kind = k;
        type = type;
        seq = seq;
        sender_role = r;
        payload = payload;
        ts = ts;
        in_reply_to = in_reply_to;
        version = version;
        sig = signature;
        transport_sender = none;
        transport_event_id = none;
      }
read_message _ = none

abbrev sample_platform : Platform
sample_platform = record {
  text = stroke_text;
  hexdigest = λ secret v. concat "00ff" secret;
  validate = read_message;
  to_str = λ v. "0123456789012345678901234567890123456789012345678901234567890123456789";
}

optional_text-text_of : (o : Option String) → text_of (optional_text o) ≡ o
optional_text-text_of none = refl
optional_text-text_of (some s) = refl

kind_of-kind_value : (k : Kind) → kind_of (kind_value k) ≡ some k
kind_of-kind_value event = refl
kind_of-kind_value command = refl
kind_of-kind_value ack = refl

role_of-role_value : (r : SenderRole) → role_of (role_value r) ≡ some r
role_of-role_value simclient = refl
role_of-role_value mcp_server = refl

reads_back : (n : RcpMessage) → read_message (model_dump n) ≡ some (received n)
unfolding model_dump signed_dump received
reads_back n = rw (
  kind_of-kind_value n.kind,
  role_of-role_value n.sender_role,
  optional_text-text_of n.in_reply_to,
  optional_text-text_of n.sig,
)

abbrev sample_message : RcpMessage
sample_message = record {
  sim = "run_1";
  kind = event;
  type = "simulation.checkpoint";
  seq = pos 7;
  sender_role = simclient;
  payload = field "step" (int (pos 100)) (field "dt" (float (fin (pos 5))) end);
  ts = "2026-01-01T00:00:00Z";
  in_reply_to = none;
  version = pos 1;
  sig = none;
  transport_sender = none;
  transport_event_id = none;
}

sample_payload-distinct : HasDistinctKeys sample_message.payload
unfolding get_field
sample_payload-distinct = (refl, tt, (refl, tt, tt))

abbrev sample_content : Fields
sample_content = content sample_platform (sign sample_platform "secret" sample_message)

sample_made : to_content sample_platform (some "secret") sample_message ≡ some sample_content
unfolding to_content
sample_made = refl

from_content-to_content_example :
    (from_content sample_platform sample_content
      ≡ some (received (sign sample_platform "secret" sample_message)))
    × (verify sample_platform "secret" (received (sign sample_platform "secret" sample_message))
        ≡ true)
from_content-to_content_example =
    from_content-to_content sample_platform "secret" sample_message sample_content reads_back
      sample_payload-distinct refl sample_made

abbrev signed_message : RcpMessage
signed_message = record sample_message { sig = some "hmac-sha256:00ffsecret" }

abbrev relayed_message : RcpMessage
relayed_message = record signed_message { transport_sender = some "@bot:example.org" }

same_payload :
    sample_platform.hexdigest "secret" (signed_payload sample_platform signed_message)
      ≡ sample_platform.hexdigest "secret" (signed_payload sample_platform relayed_message)
    → signed_payload sample_platform signed_message ≡ signed_payload sample_platform relayed_message
unfolding signed_payload signed_dump
same_payload e = refl

signed_message-verify : verify sample_platform "secret" signed_message ≡ true
unfolding verify signed_payload strip_prefix
signed_message-verify = refl

relayed_message-verify : verify sample_platform "secret" relayed_message ≡ true
unfolding verify signed_payload strip_prefix
relayed_message-verify = refl

verify-SameSigned_example : SameSigned signed_message relayed_message
verify-SameSigned_example =
    verify-SameSigned sample_platform "secret" "hmac-sha256:00ffsecret" signed_message
      relayed_message same_payload sample_payload-distinct sample_payload-distinct refl refl
      signed_message-verify relayed_message-verify

abbrev counters : SequenceState
counters = (next_seq "run_1" simclient empty_sequences).1

abbrev traffic : List Op
traffic = see "run_1" simclient (pos 4) ∷ next "run_1" mcp_server ∷ []

abbrev key_a : Key
key_a = "run_1" ∷ "simclient" ∷ "1" ∷ []

abbrev key_b : Key
key_b = "run_1" ∷ "simclient" ∷ "2" ∷ []

empty-IsConsistent : IsConsistent (empty_store 2)
empty-IsConsistent = record { same = λ k. refl; distinct = tt; bounded = omega arith }

first_seen : (seen key_a (empty_store 2)).0 ≡ true
unfolding seen has_key
first_seen = refl

seen-seen_example : (seen key_a (feed (key_b ∷ []) (seen key_a (empty_store 2)).1)).0 ≡ false
seen-seen_example =
    seen-seen key_a (key_b ∷ []) (empty_store 2) empty-IsConsistent first_seen (omega arith)

feed-IsConsistent_example :
    IsConsistent (feed (key_a ∷ key_b ∷ key_a ∷ []) (empty_store 1))
    × (length (feed (key_a ∷ key_b ∷ key_a ∷ []) (empty_store 1)).order ≤ 1)
feed-IsConsistent_example = feed-IsConsistent (key_a ∷ key_b ∷ key_a ∷ []) 1
