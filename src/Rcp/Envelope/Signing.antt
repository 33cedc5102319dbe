-- ===== src/Rcp/Envelope/Signing.antt =====
-- src/pic_agentic/rcp: signatures, and the way of a message through the room.
use text.Mathlib.TextLemmas.{append_cancel_left}
use pic_agentic.Common.{
  String, ◌≡◌, ◌↔◌, refl, sym, ap, ◌∙◌, true, Option, none, some, arith, eq_iff, eq_refl,
  strip_prefix, strip_prefix-concat,
}
use pic_agentic.Common.Value.{Value, Fields, end, get_field}
use pic_agentic.Rcp.Wire.{encode_wire, decode_wire}
use pic_agentic.Rcp.Wire.Roundtrip.{IsWellFormed, HasDistinctKeys, decode_wire-encode_wire}
use pic_agentic.Rcp.Envelope.{
  Kind, event, command, ack, SenderRole, simclient, mcp_server, kind_value, role_value, RcpMessage,
  optional_text, Platform, sig_prefix, signed_dump, model_dump, sign_object, verify_object,
  signed_payload, to_dict, sign, verify, content, to_content, from_dict, from_content,
}

module _ (p : Platform) where
  -- A signature is accepted exactly when it is the one that `sign` makes of the object.
  pub verify_object_iff :
      (secret : String) (obj : Value) (signature : String)
      → (verify_object p secret obj signature ≡ true) ↔ (signature ≡ sign_object p secret obj)
  unfolding verify_object
  verify_object_iff secret obj signature = (
    (λ h. ground (arith, eq_iff (sign_object p secret obj) signature)),
    (λ e. rw (e, made) (eq_refl (sign_object p secret obj))),
  )
    where
      made : strip_prefix sig_prefix (sign_object p secret obj) ≡ some (p.hexdigest secret obj)
      made = strip_prefix-concat sig_prefix (p.hexdigest secret obj)

  verify_signed :
      (secret : String) (m : RcpMessage) (s : String)
      → m.sig ≡ some s
      → verify p secret m ≡ true
      → s ≡ sign_object p secret (signed_payload p m)
  unfolding verify
  verify_signed secret m s e h =
      (verify_object_iff secret (signed_payload p m) s).0 (rw (e, verify) at h)

-- Setting the signature changes nothing that is signed, so a signed message verifies.
pub verify-sign :
    (p : Platform) (secret : String) (m : RcpMessage) → verify p secret (sign p secret m) ≡ true
unfolding verify sign signed_payload
verify-sign p secret m = (verify_object_iff p secret (signed_payload p m) _).1 refl

optional_text-IsWellFormed : (o : Option String) → IsWellFormed (optional_text o)
optional_text-IsWellFormed none = tt
optional_text-IsWellFormed (some s) = tt

model_dump-IsWellFormed : (m : RcpMessage) → HasDistinctKeys m.payload → IsWellFormed (model_dump m)
unfolding model_dump get_field
model_dump-IsWellFormed m h = (
  refl,
  tt,
  (
    refl,
    tt,
    (
      refl,
      tt,
      (
        refl,
        tt,
        (
          refl,
          tt,
          (
            refl,
            h,
            (
              refl,
              tt,
              (
                refl,
                optional_text-IsWellFormed m.in_reply_to,
                (refl, tt, (refl, optional_text-IsWellFormed m.sig, tt)),
              ),
            ),
          ),
        ),
      ),
    ),
  ),
)

signed_dump-IsWellFormed :
    (m : RcpMessage) → HasDistinctKeys m.payload → IsWellFormed (signed_dump m end)
unfolding signed_dump get_field
signed_dump-IsWellFormed m h = (
  refl,
  tt,
  (
    refl,
    tt,
    (
      refl,
      tt,
      (
        refl,
        tt,
        (
          refl,
          tt,
          (refl, h, (refl, tt, (refl, optional_text-IsWellFormed m.in_reply_to, (refl, tt, tt)))),
        ),
      ),
    ),
  ),
)

-- A message as the receiver holds it before the transport adds its own fields.
unfoldable pub received : RcpMessage → RcpMessage
received m = record m { transport_sender = none; transport_event_id = none }

-- Reading an envelope back: decoding undoes the encoding, and validation reads the dump.
from_dict-to_dict :
    (p : Platform) (m : RcpMessage)
    → ((n : RcpMessage) → p.validate (model_dump n) ≡ some (received n))
    → HasDistinctKeys m.payload
    → from_dict p (to_dict p m) ≡ some (received m)
unfolding from_dict to_dict
from_dict-to_dict p m reads distinct =
    rw (decode_wire-encode_wire p.text (model_dump m) (model_dump-IsWellFormed m distinct))
      (reads m)

from_content-content :
    (p : Platform) (m : RcpMessage)
    → ((n : RcpMessage) → p.validate (model_dump n) ≡ some (received n))
    → HasDistinctKeys m.payload
    → from_content p (content p m) ≡ some (received m)
unfolding from_content content get_field to_dict encode_wire model_dump
from_content-content p m reads distinct = from_dict-to_dict p m reads distinct

to_content_unsigned :
    (p : Platform) (secret : String) (m : RcpMessage)
    → m.sig ≡ none
    → to_content p (some secret) m ≡ some (content p (sign p secret m))
unfolding to_content
to_content_unsigned p secret m h = ground arith

-- The content that `to_content` makes of an unsigned message with a secret is read back by
-- `from_content` as the signed message without its transport fields, and that message verifies, where
-- the keys of every mapping in the payload are distinct and validation reads a dump back.
pub from_content-to_content :
    (p : Platform) (secret : String) (m : RcpMessage) (c : Fields)
    → ((n : RcpMessage) → p.validate (model_dump n) ≡ some (received n))
    → HasDistinctKeys m.payload
    → m.sig ≡ none
    → to_content p (some secret) m ≡ some c
    → (from_content p c ≡ some (received (sign p secret m)))
      × (verify p secret (received (sign p secret m)) ≡ true)
unfolding received sign verify signed_payload
from_content-to_content p secret m c reads distinct unsigned made =
    let e : content p (sign p secret m) ≡ c = cc (to_content_unsigned p secret m unsigned) in
    (rw (← e) (from_content-content p (sign p secret m) reads distinct), verify-sign p secret m)

kind_value-injective : (a b : Kind) → kind_value a ≡ kind_value b → a ≡ b
kind_value-injective event event h = refl
kind_value-injective command command h = refl
kind_value-injective ack ack h = refl
kind_value-injective a b h = ground (arith, eq_iff (kind_value a) (kind_value b))

role_value-injective : (a b : SenderRole) → role_value a ≡ role_value b → a ≡ b
role_value-injective simclient simclient h = refl
role_value-injective mcp_server mcp_server h = refl
role_value-injective a b h = ground (arith, eq_iff (role_value a) (role_value b))

optional_text-injective : (a b : Option String) → optional_text a ≡ optional_text b → a ≡ b
optional_text-injective none none h = refl
optional_text-injective (some s) (some t) h = cc
optional_text-injective _ _ h = cc

-- The fields that a signature covers.
pub record SameSigned (m n : RcpMessage) : Type 0 where
  pub sim : m.sim ≡ n.sim
  pub kind : m.kind ≡ n.kind
  pub type : m.type ≡ n.type
  pub seq : m.seq ≡ n.seq
  pub sender_role : m.sender_role ≡ n.sender_role
  pub payload : m.payload ≡ n.payload
  pub ts : m.ts ≡ n.ts
  pub in_reply_to : m.in_reply_to ≡ n.in_reply_to
  pub version : m.version ≡ n.version

signed_dump-injective : (m n : RcpMessage) → signed_dump m end ≡ signed_dump n end → SameSigned m n
unfolding signed_dump
signed_dump-injective m n h = record {
  sim = cc;
  kind = kind_value-injective m.kind n.kind (cc);
  type = cc;
  seq = cc;
  sender_role = role_value-injective m.sender_role n.sender_role (cc);
  payload = cc;
  ts = cc;
  in_reply_to = optional_text-injective m.in_reply_to n.in_reply_to (cc);
  version = cc;
}

-- Two messages that verify under one secret with one signature agree in every signed field, where
-- their payloads have distinct keys and the digest does not collide at the two signed payloads.
pub verify-SameSigned :
    (p : Platform) (secret s : String) (m n : RcpMessage)
    → (p.hexdigest secret (signed_payload p m) ≡ p.hexdigest secret (signed_payload p n)
        → signed_payload p m ≡ signed_payload p n)
    → HasDistinctKeys m.payload
    → HasDistinctKeys n.payload
    → m.sig ≡ some s
    → n.sig ≡ some s
    → verify p secret m ≡ true
    → verify p secret n ≡ true
    → SameSigned m n
unfolding sign_object signed_payload
verify-SameSigned p secret s m n apart dm dn em en vm vn =
    let same_text = sym (verify_signed p secret m s em vm) ∙ verify_signed p secret n s en vn in
    let wire = apart (append_cancel_left sig_prefix _ _ same_text) in
    let read =
      sym (decode_wire-encode_wire p.text (signed_dump m end) (signed_dump-IsWellFormed m dm))
      ∙ ap (decode_wire p.text) wire
      ∙ decode_wire-encode_wire p.text (signed_dump n end) (signed_dump-IsWellFormed n dn) in
    signed_dump-injective m n (cc read)
