-- ===== src/Server/Service.antt =====
-- src/pic_agentic/server/simulation.py: `SubmitService.on_message` and `ingest_backfill`. A pending
-- future is the message that it was resolved with, if any; the calls of the hook and the wakes of
-- the waiting callers are a list of effects, the newest in front.
pub mod Ingest
use pic_agentic.Common.{
  ℕ, String, Bool, true, false, not, ◌&&◌, ◌||◌, Option, none, some, List, [], ◌∷◌, ◌++◌, elem,
  str_eq, if◌then◌else◌,
}
use pic_agentic.Common.Dict.{Dict, get, put}
use pic_agentic.Rcp.Envelope.{
  Kind, event, command, ack, SenderRole, simclient, mcp_server, RcpMessage, Platform, verify,
}
use pic_agentic.Protocol.{
  submit_ack, status_command, status_ack, logs_command, logs_ack, control_command, control_ack,
  result_command, result_ack, type_value,
}
use pic_agentic.Server.Registry.{SimRecord, Effect, text_of, project_event, project_ack}
use pic_agentic.Server.Events.{is_event, append_event_log}

-- `_PULL_ACK_FOR_REQUEST`
abbrev pub pull_ack_for_request : Dict String
pull_ack_for_request =
    (type_value status_command, type_value status_ack)
    ∷ (type_value logs_command, type_value logs_ack)
    ∷ (type_value control_command, type_value control_ack)
    ∷ (type_value result_command, type_value result_ack)
    ∷ []

abbrev pub pull_acks : List String
pull_acks =
    type_value status_ack
    ∷ type_value logs_ack
    ∷ type_value control_ack
    ∷ type_value result_ack
    ∷ []

pub record SubmitService : Type 0 where
  pub secret : String
  pub sim : String
  pub event_log_max : ℕ
  pub registry : Dict SimRecord
  pub event_log : List RcpMessage
  pub pending : Dict (Option RcpMessage)
  pub pending_pull : Dict (Option RcpMessage)
  pub pending_pull_kind : Dict String
  pub effects : List Effect

-- `if future is not None and not future.done(): future.set_result(message)`
unfoldable pub resolve : String → RcpMessage → Dict (Option RcpMessage) → Dict (Option RcpMessage)
resolve cmd_id m futures = elim (get cmd_id futures) [
  | some none ↦ put cmd_id (some m) futures
  | some (some done) ↦ futures
  | none ↦ futures
]

-- The type that an ack of this command must have.
unfoldable pub expected_ack : String → SubmitService → Option String
expected_ack cmd_id s = elim (get cmd_id s.pending_pull_kind) [
  | none ↦ none
  | some request ↦ get request pull_ack_for_request
]

unfoldable pub resolve_pull : String → RcpMessage → SubmitService → SubmitService
unfolding resolve expected_ack
resolve_pull cmd_id m s = elim (expected_ack cmd_id s) [
  | none ↦ s
  | some expected ↦
      if str_eq m.type expected
      then record s { pending_pull = resolve cmd_id m s.pending_pull }
      else s
]

module _ (p : Platform) where
  abbrev pub from_simclient : RcpMessage → Bool
  from_simclient m = elim m.sender_role [ simclient ↦ true | mcp_server ↦ false ]

  -- Signed, of this simulation's room and from the cluster's side.
  unfoldable pub is_authentic : SubmitService → RcpMessage → Bool
  is_authentic s m = verify p s.secret m && (str_eq m.sim s.sim && from_simclient m)

  unfoldable pub on_event : RcpMessage → SubmitService → SubmitService
  on_event m s =
      let (registry, made) = project_event p.to_str m s.registry in
      record s {
        event_log = append_event_log p.to_str s.event_log_max m s.event_log;
        registry = registry;
        effects = made ++ s.effects;
      }

  unfoldable pub on_submit_ack : RcpMessage → SubmitService → SubmitService
  unfolding resolve text_of
  on_submit_ack m s = record s {
    registry = project_ack p.to_str m s.registry;
    pending = resolve (text_of p.to_str "cmd_id" m.payload) m s.pending;
  }

  unfoldable pub on_ack : RcpMessage → SubmitService → SubmitService
  unfolding resolve_pull on_submit_ack text_of
  on_ack m s =
      if elem m.type pull_acks
      then resolve_pull (text_of p.to_str "cmd_id" m.payload) m s
      else if str_eq m.type (type_value submit_ack)
      then on_submit_ack m s
      else s

  -- A message that is neither an event nor an ack changes nothing.
  unfoldable pub route : RcpMessage → SubmitService → SubmitService
  unfolding on_event on_ack
  route m s =
      if is_event m
      then on_event m s
      else elim m.kind [ ack ↦ on_ack m s | event ↦ s | command ↦ s ]

  unfoldable pub on_message : RcpMessage → SubmitService → SubmitService
  unfolding is_authentic route
  on_message m s = if is_authentic s m then route m s else s

  unfoldable pub ingest_backfill : List RcpMessage → SubmitService → SubmitService
  unfolding on_message
  ingest_backfill [] s = s
  ingest_backfill (m ∷ ms) s = ingest_backfill ms (on_message m s)
