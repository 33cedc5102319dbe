-- ===== src/Simclient/Client.antt =====
-- src/pic_agentic/simclient/client.py: `_accepts`, and the choice of a handler by `handle` and
-- `_dispatch_m2`. A client without a sender to check has the empty text for it; `str` of an integer
-- is a parameter.
pub mod Accepted
use pic_agentic.Common.{
  ℕ, String, Bool, true, false, not, ◌&&◌, ◌||◌, Option, none, some, List, [], ◌∷◌, is_empty,
  str_eq, if◌then◌else◌,
}
use pic_agentic.Common.Float.{ℤ}
use pic_agentic.Rcp.Envelope.{Kind, event, command, ack, RcpMessage, Platform, verify, dedup_key}
use pic_agentic.Rcp.Dedup.{DedupStore, seen}
use pic_agentic.Rcp.Sequence.{SequenceState, observe}
use pic_agentic.Protocol.{
  submit_command, status_command, logs_command, control_command, result_command, type_value,
}

pub record SimClient : Type 0 where
  pub sim : String
  pub secret : String
  pub allowed_sender_user_id : String
  pub has_submit_config : Bool
  pub seen_store : DedupStore
  pub sequences : SequenceState

abbrev pub is_command : Kind → Bool
is_command command = true
is_command event = false
is_command ack = false

-- A configured sender other than the one that the transport names.
abbrev pub is_unexpected : String → Option String → Bool
is_unexpected allowed none = false
is_unexpected allowed (some sender) =
    not (is_empty allowed) && (not (is_empty sender) && not (str_eq sender allowed))

pub data Handler : Type 0 where
  hello submit status control result logs : Handler
  rejected_by_policy unsupported_type : Handler

abbrev pub is_type : String → RcpMessage → Bool
is_type t m = str_eq m.type t

-- `_dispatch_m2`; a type that none of the handlers has is answered as unsupported.
unfoldable pub dispatch_m2 : RcpMessage → Handler
dispatch_m2 m =
    if is_type (type_value submit_command) m
    then submit
    else if is_type (type_value status_command) m
    then status
    else if is_type (type_value control_command) m
    then control
    else if is_type (type_value result_command) m
    then result
    else if is_type (type_value logs_command) m
    then logs
    else unsupported_type

-- `message.type in _M2_COMMANDS`
abbrev pub is_m2 : RcpMessage → Bool
is_m2 m =
    is_type (type_value submit_command) m
    || (is_type (type_value status_command) m
        || (is_type (type_value logs_command) m
            || (is_type (type_value control_command) m || is_type (type_value result_command) m)))

unfoldable pub choose_handler : SimClient → RcpMessage → Handler
unfolding dispatch_m2
choose_handler c m =
    if is_type "rcp.hello" m
    then hello
    else if is_m2 m
    then (if c.has_submit_config then dispatch_m2 m else rejected_by_policy)
    else unsupported_type

module _ (p : Platform) (py_str : ℤ → String) where
  -- The checks of `_accepts` before the deduplication.
  unfoldable pub is_valid : SimClient → RcpMessage → Bool
  is_valid c m =
      str_eq m.sim c.sim
      && (is_command m.kind
          && (verify p c.secret m
              && not (is_unexpected c.allowed_sender_user_id m.transport_sender)))

  unfoldable pub accepts : RcpMessage → SimClient → Bool × SimClient
  accepts m c =
      let (is_new, store) = seen (dedup_key py_str m) c.seen_store in
      if is_valid c m then (is_new, record c { seen_store = store }) else (false, c)

  -- `handle`: the handler that answers, if the message is not ignored.
  unfoldable pub handle : RcpMessage → SimClient → Option Handler × SimClient
  unfolding accepts choose_handler
  handle m c =
      let (accepted, held) = accepts m c in
      if accepted
      then (
        some (choose_handler c m),
        record held { sequences = observe m.sim m.sender_role m.seq held.sequences },
      )
      else (none, held)

  -- One message after the other.
  unfoldable pub handle_all : List RcpMessage → SimClient → SimClient
  unfolding handle
  handle_all [] c = c
  handle_all (m ∷ ms) c = handle_all ms (handle m c).1
