-- ===== src/Server/Registry.antt =====
-- src/pic_agentic/server/simulation.py: `SimRecord`, and the projection of events and acks into the
-- registry. A record is replaced where the source mutates it in the registry. The fields that are
-- copied from payloads are a function of their names, with `null` for `None`.
pub mod Sound
pub mod Replay
pub mod Overrides
pub mod Ended
use pic_agentic.Common.{
  String, Bool, true, false, not, ◌&&◌, ◌||◌, Option, none, some, List, [], ◌∷◌, elem, is_empty,
  is_some, str_eq, strip_prefix, text_le, if◌then◌else◌,
}
use pic_agentic.Common.Dict.{Dict, get, put}
use pic_agentic.Common.Value.{Value, null, bool, int, float, str, list, dict, Fields, get_field}
use pic_agentic.Rcp.Envelope.{RcpMessage}
use pic_agentic.Protocol.{
  SimulationState, job_running, job_finished, job_failed, step_finished, results_ready, failed,
  checkpoint, cancelled, state_value,
}

-- `TERMINAL_STATES`
abbrev pub terminal_states : List String
terminal_states =
    state_value results_ready
    ∷ state_value failed
    ∷ state_value job_failed
    ∷ state_value cancelled
    ∷ []

-- `_RUNNING_OR_LATER_STATES`
abbrev pub running_or_later_states : List String
running_or_later_states =
    state_value job_running
    ∷ state_value step_finished
    ∷ state_value checkpoint
    ∷ state_value job_finished
    ∷ state_value results_ready
    ∷ state_value failed
    ∷ state_value job_failed
    ∷ state_value cancelled
    ∷ []

-- `_RECORD_FIELDS`
abbrev pub record_fields : List String
record_fields =
    "job_id" ∷ "slurm_state" ∷ "slurm_reason" ∷ "step" ∷ "percent" ∷ "walltime" ∷ "avg_per_step"
    ∷ "eta_s" ∷ "exit_code" ∷ "core_hours" ∷ "gpu_hours" ∷ "run_dir" ∷ "error" ∷ "error_code"
    ∷ "failure_summary" ∷ "stage" ∷ "suspect" ∷ []

-- `_FAILURE_FIELDS`
abbrev pub failure_fields : List String
failure_fields = "error" ∷ "error_code" ∷ "failure_summary" ∷ "stage" ∷ []

-- `fields` holds the attributes that `record_fields` names.
pub record SimRecord : Type 0 where
  pub sim_id : String
  pub cmd_id : String
  pub state : String
  pub fields : String → Value
  pub last_event_type : Option String
  pub last_event_ts : Option String
  pub active : Bool

abbrev pub fresh_record : String → String → SimRecord
fresh_record sim_id cmd_id = record {
  sim_id = sim_id;
  cmd_id = cmd_id;
  state = "";
  fields = λ key. null;
  last_event_type = none;
  last_event_ts = none;
  active = true;
}

unfoldable pub is_terminal : String → Bool
is_terminal state = elem state terminal_states

-- `setattr` of a field whose payload value is there and not `None`; else the old value.
abbrev pub carried : Option Value → Value → Value
carried none old = old
carried (some null) old = old
carried (some (bool b)) old = bool b
carried (some (int n)) old = int n
carried (some (float x)) old = float x
carried (some (str s)) old = str s
carried (some (list xs)) old = list xs
carried (some (dict d)) old = dict d

-- One attribute after the loop over the given names.
unfoldable pub project_field : List String → Fields → String → Value → Value
project_field names payload key old =
    if elem key names then carried (get_field key payload) old else old

-- One attribute after an event: the loop over `record_fields`, then the two resets.
unfoldable pub event_field : String → Fields → String → Value → Value
unfolding project_field
event_field state payload key old =
    let projected = project_field record_fields payload key old in
    if str_eq key "suspect" && not (str_eq state (state_value results_ready))
    then null
    else if str_eq key "slurm_reason" && elem state running_or_later_states
    then null
    else projected

-- The wake of the waiting callers of a simulation, and the hook of a run with results.
pub data Effect : Type 0 where
  run_ready : String → Effect
  wake : String → Effect

-- `str(value)`
module _ (to_str : Value → String) where
  -- `str(payload.get(key, ""))`
  unfoldable pub text_of : String → Fields → String
  text_of key payload = elim (get_field key payload) [ none ↦ "" | some v ↦ to_str v ]

  -- `message.ts >= record.last_event_ts`, or no stamp to compare with
  abbrev pub is_recent : String → Option String → Bool
  is_recent ts none = true
  is_recent ts (some last) = text_le last ts

  unfoldable pub starts_run : String → String → SimRecord → Bool
  starts_run cmd_id ts r =
      not (is_empty cmd_id) && (not (str_eq cmd_id r.cmd_id) && is_recent ts r.last_event_ts)

  -- The record of the latest run, which the registry holds afterwards.
  unfoldable pub record_for : String → String → String → Dict SimRecord → SimRecord × Dict SimRecord
  unfolding starts_run
  record_for sim_id cmd_id ts registry = elim (get sim_id registry) [
    | none ↦ (fresh_record sim_id cmd_id, put sim_id (fresh_record sim_id cmd_id) registry)
    | some r ↦
        if starts_run cmd_id ts r
        then (fresh_record sim_id cmd_id, put sim_id (fresh_record sim_id cmd_id) registry)
        else (r, registry)
  ]

  -- The assignments of `_project_event`, past its guards.
  unfoldable pub apply_event : RcpMessage → SimRecord → SimRecord
  unfolding text_of is_terminal
  apply_event m r =
      let state = text_of "state" m.payload in
      record r {
        state = state;
        fields = λ key. event_field state m.payload key (r.fields key);
        last_event_type = if is_empty state then r.last_event_type else some state;
        last_event_ts = some m.ts;
        active = not (is_terminal state);
      }

  -- Whether a message of this command is about another run than the record's.
  abbrev pub is_foreign : String → SimRecord → Bool
  is_foreign cmd_id r = not (is_empty cmd_id) && not (str_eq cmd_id r.cmd_id)

  unfoldable pub event_effects : RcpMessage → List Effect
  event_effects m =
      let woken = wake (text_of "sim_id" m.payload) ∷ [] in
      if str_eq (text_of "state" m.payload) (state_value results_ready)
      then run_ready (text_of "cmd_id" m.payload) ∷ woken
      else woken

  unfoldable pub project_event : RcpMessage → Dict SimRecord → Dict SimRecord × List Effect
  unfolding text_of is_terminal record_for
  project_event m registry =
      let sim_id = text_of "sim_id" m.payload in
      let cmd_id = text_of "cmd_id" m.payload in
      let (r, held) = record_for sim_id cmd_id m.ts registry in
      if is_empty sim_id
      then (registry, [])
      else if is_foreign cmd_id r
      then (held, [])
      else if is_terminal r.state
      then (held, [])
      else (put sim_id (apply_event m r) held, event_effects m)

  -- `isinstance(ack_error, str) and ack_error.startswith(...)`
  abbrev pub starts_with : String → Option Value → Bool
  starts_with prefix (some (str s)) = is_some (strip_prefix prefix s)
  starts_with prefix _ = false

  abbrev pub is_text : String → Option Value → Bool
  is_text t (some (str s)) = str_eq s t
  is_text t _ = false

  unfoldable pub is_outcome_unknown : Fields → Bool
  is_outcome_unknown payload =
      is_text "outcome_unknown" (get_field "error_code" payload)
      || starts_with "already_submitted:outcome_unknown" (get_field "error" payload)

  -- `if record.last_event_ts is None: record.last_event_ts = message.ts`
  abbrev pub stamp : String → SimRecord → SimRecord
  stamp ts r = if is_some r.last_event_ts then r else record r { last_event_ts = some ts }

  -- An ack's state seeds a record that has none.
  abbrev pub seed : String → SimRecord → SimRecord
  seed state r =
      if not (is_empty state) && is_empty r.state
      then record r {
        state = state;
        last_event_type = some state;
        active = not (is_terminal state);
      }
      else r

  abbrev pub set_fields : Fields → SimRecord → SimRecord
  set_fields payload r = record r {
    fields = λ key. project_field ("job_id" ∷ failure_fields) payload key (r.fields key);
  }

  unfoldable pub apply_ack : RcpMessage → SimRecord → SimRecord
  unfolding text_of is_terminal is_outcome_unknown project_field
  apply_ack m r =
      if is_outcome_unknown m.payload
      then stamp m.ts r
      else stamp m.ts (set_fields m.payload (seed (text_of "state" m.payload) r))

  unfoldable pub project_ack : RcpMessage → Dict SimRecord → Dict SimRecord
  unfolding text_of record_for
  project_ack m registry =
      let sim_id = text_of "sim_id" m.payload in
      let cmd_id = text_of "cmd_id" m.payload in
      let (r, held) = record_for sim_id cmd_id m.ts registry in
      if is_empty sim_id
      then registry
      else if is_foreign cmd_id r
      then held
      else put sim_id (apply_ack m r) held

-- `list`: the records in registration order.
unfoldable pub list_records : Bool → Dict SimRecord → List SimRecord
list_records active_only [] = []
list_records active_only ((k, r) ∷ rest) =
    let others = list_records active_only rest in
    if active_only then (if r.active then r ∷ others else others) else r ∷ others
