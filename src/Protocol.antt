-- ===== src/Protocol.antt =====
-- src/pic_agentic/protocol/simulation.py: the types and states of the submission exchange, the
-- phase of a run, signal deaths and the lifecycle event. The platform's table of signals and the
-- text of a number are parameters.
use pic_agentic.Common.{
  ℕ, ◌-◌, ◌/◌, String, Bool, true, false, Option, none, some, [], ◌∷◌, concat, is_empty, ltb, leb,
  if◌then◌else◌,
}
use pic_agentic.Common.Float.{ℤ, pos, negsuc, Float}
use pic_agentic.Common.Dict.{Dict, get}
use pic_agentic.Common.Value.{Value, null, bool, int, float, str, dict, Fields, end, field}
use pic_agentic.Rcp.Envelope.{event, simclient, RcpMessage}

pub data SimulationState : Type 0 where
  accepted submitted workflow_finished job_running job_finished job_failed : SimulationState
  step_finished results_ready failed checkpoint cancelled : SimulationState

abbrev pub state_value : SimulationState → String
state_value accepted = "accepted"
state_value submitted = "simulation.submitted"
state_value workflow_finished = "workflow.finished"
state_value job_running = "simulation.job_running"
state_value job_finished = "simulation.job_finished"
state_value job_failed = "simulation.job_failed"
state_value step_finished = "simulation.step_finished"
state_value results_ready = "results.ready"
state_value failed = "simulation.failed"
state_value checkpoint = "simulation.checkpoint"
state_value cancelled = "simulation.cancelled"

-- The values of `SimulationType`.
pub data SimulationType : Type 0 where
  submit_command submit_ack submit_event : SimulationType
  status_command status_ack logs_command logs_ack : SimulationType
  control_command control_ack result_command result_ack : SimulationType

abbrev pub type_value : SimulationType → String
type_value submit_command = "rcp.simulation_submit"
type_value submit_ack = "rcp.simulation_submit_ack"
type_value submit_event = "rcp.simulation_event"
type_value status_command = "rcp.status_request"
type_value status_ack = "rcp.status_ack"
type_value logs_command = "rcp.logs_request"
type_value logs_ack = "rcp.logs_ack"
type_value control_command = "rcp.control_request"
type_value control_ack = "rcp.control_ack"
type_value result_command = "rcp.result_request"
type_value result_ack = "rcp.result_ack"

pub data SimulationPhase : Type 0 where
  building queued running done phase_failed phase_cancelled : SimulationPhase

abbrev pub phase_value : SimulationPhase → String
phase_value building = "building"
phase_value queued = "queued"
phase_value running = "running"
phase_value done = "done"
phase_value phase_failed = "failed"
phase_value phase_cancelled = "cancelled"

-- `_PHASE_BY_STATE`
abbrev pub phase_by_state : Dict SimulationPhase
phase_by_state =
    (state_value results_ready, done)
    ∷ (state_value job_finished, done)
    ∷ (state_value failed, phase_failed)
    ∷ (state_value job_failed, phase_failed)
    ∷ (state_value cancelled, phase_cancelled)
    ∷ (state_value job_running, running)
    ∷ (state_value step_finished, running)
    ∷ (state_value checkpoint, running)
    ∷ []

-- `value is None`
abbrev pub is_null : Value → Bool
is_null null = true
is_null _ = false

unfoldable pub simulation_phase : String → Value → SimulationPhase
simulation_phase state job_id = elim (get state phase_by_state) [
  | some phase ↦ phase
  | none ↦ if is_null job_id then building else queued
]

-- `signal.Signals(n).name`, absent where the call raises, and `str(n)`.
pub record Signals : Type 0 where
  pub name : ℕ → Option String
  pub number_text : ℕ → String

module _ (signals : Signals) where
  abbrev pub signal_text : ℕ → String
  signal_text n = elim (signals.name n) [
    | some name ↦ name
    | none ↦ concat "signal " (signals.number_text n)
  ]

  -- `exit_code >> 8` of a code above 255 is the quotient by 256.
  abbrev pub exit_status : ℕ → ℕ
  exit_status n = if ltb 255 n then n / 256 else n

  unfoldable pub signal_from_exit_code : Option ℤ → Option String
  signal_from_exit_code none = none
  signal_from_exit_code (some (negsuc n)) = none
  signal_from_exit_code (some (pos n)) =
      if leb n 128
      then none
      else if leb (exit_status n) 128
      then none
      else some (signal_text (exit_status n - 128))

-- The keyword arguments of `build_submit_event`, which default to `None`.
pub record EventFields : Type 0 where
  pub job_id : Option ℤ
  pub stage : Option String
  pub error : Option String
  pub error_code : Option String
  pub failure_summary : Option String
  pub submit_system : Option String
  pub results_linked : Option Bool
  pub step : Option ℤ
  pub percent : Option ℤ
  pub walltime : Option String
  pub avg_per_step : Option String
  pub eta_s : Option ℤ
  pub slurm_state : Option String
  pub slurm_reason : Option String
  pub exit_code : Option ℤ
  pub core_hours : Option Float
  pub gpu_hours : Option Float
  pub manifest : Option Fields
  pub suspect : Option String

abbrev pub no_fields : EventFields
no_fields = record {
  job_id = none;
  stage = none;
  error = none;
  error_code = none;
  failure_summary = none;
  submit_system = none;
  results_linked = none;
  step = none;
  percent = none;
  walltime = none;
  avg_per_step = none;
  eta_s = none;
  slurm_state = none;
  slurm_reason = none;
  exit_code = none;
  core_hours = none;
  gpu_hours = none;
  manifest = none;
  suspect = none;
}

-- A key that is left out where its value is `None`, and where a text is empty (`if error:`).
abbrev pub given {ℓ} : {A : Type ℓ} → (A → Value) → String → Option A → Fields → Fields
given wrap key none rest = rest
given wrap key (some a) rest = field key (wrap a) rest

abbrev pub given_text : String → Option String → Fields → Fields
given_text key none rest = rest
given_text key (some s) rest = if is_empty s then rest else field key (str s) rest

abbrev pub optional_int : Option ℤ → Value
optional_int none = null
optional_int (some n) = int n

unfoldable pub event_payload : Signals → String → String → SimulationState → EventFields → Fields
unfolding signal_from_exit_code
event_payload signals cmd_id sim_id state f = field "cmd_id" (str cmd_id) (
    field "sim_id" (str sim_id) (
      field "state" (str (state_value state)) (
        field "job_id" (optional_int f.job_id) (
          given str "stage" f.stage (
            given str "submit_system" f.submit_system (
              given_text "error" f.error (
                given_text "error_code" f.error_code (
                  given_text "failure_summary" f.failure_summary (
                    given bool "results_linked" f.results_linked (
                      given dict "manifest" f.manifest (
                        given_text "suspect" f.suspect (
                          given int "step" f.step (
                            given int "percent" f.percent (
                              given str "walltime" f.walltime (
                                given str "avg_per_step" f.avg_per_step (
                                  given int "eta_s" f.eta_s (
                                    given str "slurm_state" f.slurm_state (
                                      given str "slurm_reason" f.slurm_reason (
                                        given int "exit_code" f.exit_code (
                                          given float "core_hours" f.core_hours (
                                            given float "gpu_hours" f.gpu_hours (
                                              given str "exit_signal"
                                                (signal_from_exit_code signals f.exit_code)
                                                end))))))))))))))))))))))

-- The unsigned event; its time stamp is read when it is made.
unfoldable pub build_submit_event :
    Signals → String → ℤ → String → String → String → SimulationState → EventFields → RcpMessage
unfolding event_payload
build_submit_event signals sim seq ts cmd_id sim_id state f = record {
  sim = sim;
  kind = event;
  type = type_value submit_event;
  seq = seq;
  sender_role = simclient;
  payload = event_payload signals cmd_id sim_id state f;
  ts = ts;
  in_reply_to = none;
  version = pos 1;
  sig = none;
  transport_sender = none;
  transport_event_id = none;
}
