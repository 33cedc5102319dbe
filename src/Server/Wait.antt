-- ===== src/Server/Wait.antt =====
-- src/pic_agentic/server/simulation.py: `wait_for_state`. Times are counted in milliseconds. The
-- looks of the loop at the registry are numbered; the clock, the registry and the event log at each
-- look are parameters, since other tasks change them while the caller waits. No other task runs
-- between a look and its outcome.
pub mod Returns
use pic_agentic.Common.{
  ℕ, zero, suc, ◌+◌, ◌-◌, String, Bool, true, false, not, ◌&&◌, ◌||◌, Option, none, some, List, [],
  ◌∷◌, ◌++◌, all, elem, concat, is_empty, str_eq, ltb, leb, if◌then◌else◌,
}
use pic_agentic.Common.Dict.{Dict, get}
use pic_agentic.Common.Float.{ℤ, pos, negsuc, Float, nan, inf, neg_inf, fin}
use pic_agentic.Common.Value.{Value, null, bool, int, float, str, list, dict, Fields, end, field}
use pic_agentic.Rcp.Envelope.{RcpMessage, optional_text}
use pic_agentic.Protocol.{
  SimulationState, accepted, submitted, workflow_finished, job_running, job_finished, job_failed,
  step_finished, results_ready, failed, checkpoint, cancelled, state_value, SimulationPhase,
  phase_value, simulation_phase, Signals, signal_from_exit_code, is_null,
}
use pic_agentic.Server.Registry.{SimRecord, terminal_states, is_terminal}
use pic_agentic.Server.Events.{Filter, max_event_page, condense_events}

-- `_KNOWN_WAIT_STATES`
abbrev pub known_wait_states : List String
known_wait_states =
    state_value accepted
    ∷ state_value submitted
    ∷ state_value workflow_finished
    ∷ state_value job_running
    ∷ state_value job_finished
    ∷ state_value job_failed
    ∷ state_value step_finished
    ∷ state_value results_ready
    ∷ state_value failed
    ∷ state_value checkpoint
    ∷ state_value cancelled
    ∷ []

pub data WaitError : Type 0 where
  unknown_target : String → WaitError
  bad_timeout : WaitError
  unknown_simulation : String → WaitError
  exceeds_client_timeout : WaitError

pub data Result (A : Type 0) : Type 0 where
  raised : WaitError → Result A
  returned : A → Result A

abbrev pub add_target : List String → Result (List String) → Result (List String)
add_target names (raised e) = raised e
add_target names (returned rest) = returned (names ++ rest)

-- The loop of `_resolve_wait_targets`; a set is a list.
unfoldable pub expand_targets : List String → Result (List String)
unfolding elem
expand_targets [] = returned []
expand_targets (name ∷ names) =
    let rest = expand_targets names in
    if str_eq name "terminal"
    then add_target terminal_states rest
    else if elem name known_wait_states
    then add_target (name ∷ []) rest
    else raised (unknown_target name)

abbrev pub with_terminal_only : Result (List String) → Result (List String × Bool)
with_terminal_only (raised e) = raised e
with_terminal_only (returned targets) = returned (targets, all is_terminal targets)

unfoldable pub resolve_wait_targets : Option (List String) → Result (List String × Bool)
unfolding expand_targets is_terminal
resolve_wait_targets none = returned (terminal_states, true)
resolve_wait_targets (some []) = returned (terminal_states, true)
resolve_wait_targets (some (name ∷ [])) =
    if str_eq name "terminal"
    then returned (terminal_states, true)
    else with_terminal_only (expand_targets (name ∷ []))
resolve_wait_targets (some (name ∷ next ∷ names)) =
    with_terminal_only (expand_targets (name ∷ next ∷ names))

-- 0.1 s to 3600 s; `nan`, the infinities and negative values fail the comparisons.
unfoldable pub validate_timeout : Float → Result ℕ
validate_timeout (fin (pos n)) =
    if leb 100 n && leb n 3600000 then returned n else raised bad_timeout
validate_timeout (fin (negsuc n)) = raised bad_timeout
validate_timeout nan = raised bad_timeout
validate_timeout inf = raised bad_timeout
validate_timeout neg_inf = raised bad_timeout

-- The wait must end 5 s before the client gives up.
unfoldable pub exceeds_client_budget : ℕ → Option ℕ → Bool
exceeds_client_budget timeout none = false
exceeds_client_budget timeout (some client) = ltb client (timeout + 5000)

-- `PERMANENT_REASONS` of src/pic_agentic/slurm/client.py
unfoldable pub is_permanent_reason : Value → Bool
is_permanent_reason (str s) =
    elem s ("PartitionNodeLimit" ∷ "PartitionTimeLimit" ∷ "PartitionConfig" ∷ "MaxNodes" ∷ [])
is_permanent_reason null = false
is_permanent_reason (bool b) = false
is_permanent_reason (int n) = false
is_permanent_reason (float x) = false
is_permanent_reason (list xs) = false
is_permanent_reason (dict d) = false

abbrev pub slurm_blocked : SimRecord → Bool
slurm_blocked r = is_permanent_reason (r.fields "slurm_reason")

abbrev pub exit_number : Value → Option ℤ
exit_number (int n) = some n
exit_number _ = none

-- The derived phase is never empty, so it is the one that `_record_phase` returns.
unfoldable pub record_status : Signals → SimRecord → Fields
unfolding simulation_phase signal_from_exit_code is_permanent_reason
record_status signals r = field "state" (str r.state) (
    field "job_id" (r.fields "job_id") (
      field "slurm_state" (r.fields "slurm_state") (
        field "slurm_reason" (r.fields "slurm_reason") (
          field "slurm_blocked" (bool (slurm_blocked r)) (
            field "step" (r.fields "step") (
              field "percent" (r.fields "percent") (
                field "eta_s" (r.fields "eta_s") (
                  field "error" (r.fields "error") (
                    field "error_code" (r.fields "error_code") (
                      field "failure_summary" (r.fields "failure_summary") (
                        field "exit_signal"
                          (optional_text
                            (signal_from_exit_code signals (exit_number (r.fields "exit_code"))))
                          (field "active" (bool r.active) (
                            field "phase"
                              (str (phase_value (simulation_phase r.state (r.fields "job_id"))))
                              end)))))))))))))

-- The case of `_wait_note` and `_timeout_wait_note` that holds.
pub data WaitNote : Type 0 where
  no_note other_terminal not_registered still_building permanent_limit : WaitNote
  target_not_reached not_terminal_yet : WaitNote

unfoldable pub wait_note : Option SimRecord → Bool → Bool → Bool → WaitNote
unfolding is_terminal is_permanent_reason
wait_note none matched timed_out terminal_only = if timed_out then not_registered else no_note
wait_note (some r) matched timed_out terminal_only =
    if not timed_out
    then (if not matched && is_terminal r.state then other_terminal else no_note)
    else if is_null (r.fields "job_id")
    then still_building
    else if slurm_blocked r
    then permanent_limit
    else if terminal_only
    then not_terminal_yet
    else target_not_reached

pub record WaitOutcome : Type 0 where
  pub sim_id : String
  pub state : String
  pub matched : Bool
  pub timed_out : Bool
  pub waited : ℕ
  pub target_states : List String
  pub events : List Fields
  pub last_status : Fields
  pub note : WaitNote

pub record Surroundings : Type 0 where
  pub to_str : Value → String
  pub signals : Signals
  pub sorted : List String → List String
  pub now : ℕ → ℕ
  pub registry : ℕ → Dict SimRecord
  pub event_log : ℕ → List RcpMessage

pub record Verdict : Type 0 where
  pub observed : String
  pub matched : Bool
  pub timed_out : Bool

-- One look: a target, then a terminal state, then the deadline; else the caller waits on.
unfoldable pub judge : List String → Option SimRecord → Bool → Option Verdict
judge targets none expired =
    if expired then some (record { observed = ""; matched = false; timed_out = true }) else none
judge targets (some r) expired =
    if elem r.state targets
    then some (record { observed = r.state; matched = true; timed_out = false })
    else if is_terminal r.state
    then some (record { observed = r.state; matched = false; timed_out = false })
    else if expired
    then some (record { observed = r.state; matched = false; timed_out = true })
    else none

module _ (w : Surroundings) where
  abbrev pub status_of : Option SimRecord → Fields
  status_of none = end
  status_of (some r) = record_status w.signals r

  unfoldable pub wait_outcome : String → List String → Bool → ℕ → ℕ → Verdict → WaitOutcome
  unfolding condense_events record_status wait_note
  wait_outcome sim_id targets terminal_only started k v =
      let r = get sim_id (w.registry k) in
      record {
        sim_id = sim_id;
        state = v.observed;
        matched = v.matched;
        timed_out = v.timed_out;
        waited = w.now k - started;
        target_states = w.sorted targets;
        events =
            condense_events w.to_str (record { sim_id = sim_id; since = none; types = [] })
              max_event_page (w.event_log k);
        last_status = status_of r;
        note = wait_note r v.matched v.timed_out terminal_only;
      }

  -- The verdict of the k-th look.
  unfoldable pub look : String → List String → ℕ → ℕ → Option Verdict
  unfolding judge
  look sim_id targets deadline k =
      judge targets (get sim_id (w.registry k)) (leb deadline (w.now k))

  -- The looks from the k-th on: the number of the first with a verdict, and the verdict. Fuel bounds
  -- the number of looks.
  unfoldable pub wait_loop : ℕ → String → List String → ℕ → ℕ → Option (ℕ × Verdict)
  unfolding look
  wait_loop zero sim_id targets deadline k = none
  wait_loop (suc fuel) sim_id targets deadline k =
      let rest = wait_loop fuel sim_id targets deadline (suc k) in
      elim (look sim_id targets deadline k) [ none ↦ rest | some v ↦ some (k, v) ]

  abbrev pub awaited :
      String → List String → Bool → Option (ℕ × Verdict) → Option (Result WaitOutcome)
  awaited sim_id targets terminal_only none = none
  awaited sim_id targets terminal_only (some (k, v)) =
      some (returned (wait_outcome sim_id targets terminal_only (w.now 0) k v))

  -- Past the validation; `none` where the fuel runs out.
  unfoldable pub wait_valid :
      ℕ → String → List String → Bool → ℕ → Option ℕ → Option (Result WaitOutcome)
  unfolding wait_loop wait_outcome
  wait_valid fuel sim_id targets terminal_only timeout client = elim (get sim_id (w.registry 0)) [
    | none ↦ some (raised (unknown_simulation sim_id))
    | some r ↦
        if exceeds_client_budget timeout client
        then some (raised exceeds_client_timeout)
        else awaited sim_id targets terminal_only
            (wait_loop fuel sim_id targets (w.now 0 + timeout) 0)
  ]

  abbrev pub with_timeout :
      ℕ → String → Option ℕ → (List String × Bool) → Result ℕ → Option (Result WaitOutcome)
  with_timeout fuel sim_id client targets (raised e) = some (raised e)
  with_timeout fuel sim_id client targets (returned timeout) =
      wait_valid fuel sim_id targets.0 targets.1 timeout client

  abbrev pub with_targets :
      ℕ → String → Option ℕ → Float → Result (List String × Bool) → Option (Result WaitOutcome)
  with_targets fuel sim_id client timeout_s (raised e) = some (raised e)
  with_targets fuel sim_id client timeout_s (returned targets) =
      with_timeout fuel sim_id client targets (validate_timeout timeout_s)

  unfoldable pub wait_for_state :
      ℕ → String → Option (List String) → Float → Option ℕ → Option (Result WaitOutcome)
  unfolding wait_valid validate_timeout resolve_wait_targets
  wait_for_state fuel sim_id target_states timeout_s client =
      with_targets fuel sim_id client timeout_s (resolve_wait_targets target_states)
