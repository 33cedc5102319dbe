-- ===== src/Simclient/Control.antt =====
-- src/pic_agentic/simclient/client.py: the handler of control requests, with its cache of answers,
-- which holds each under the command, simulation and operation it names. The validation of the
-- request, the scheduler's answer and the control function are parameters. `signalled` lists the
-- calls of the control function and `sent` the messages, both with the newest in front.
pub mod Once
use pic_agentic.Common.{
  ℕ, String, Bool, true, false, not, ◌&&◌, Option, none, some, List, [], ◌∷◌, length, concat,
  is_empty, str_eq, ltb, if◌then◌else◌,
}
use pic_agentic.Common.Dict.{Dict, get}
use pic_agentic.Common.Float.{ℤ}
use pic_agentic.Protocol.{checkpoint, state_value}
use pic_agentic.Simclient.Follower.{SlurmJobState, running, slurm_value, terminal}
use pic_agentic.Simclient.Ledger.{ProcessedCommand, last_items, or_text}

-- `SimulationOp`
pub data SimulationOp : Type 0 where
  save stop save_and_stop cancel : SimulationOp

abbrev pub op_value : SimulationOp → String
op_value save = "checkpoint"
op_value stop = "stop"
op_value save_and_stop = "checkpoint_and_stop"
op_value cancel = "cancel"

abbrev pub control_signal : SimulationOp → Option String
control_signal save = some "USR1"
control_signal stop = some "TERM"
control_signal save_and_stop = some "ALRM"
control_signal cancel = none

abbrev pub requires_running : SimulationOp → Bool
requires_running cancel = false
requires_running _ = true

abbrev pub is_save : SimulationOp → Bool
is_save save = true
is_save _ = false

-- The fields of `TrackedSim` that the handler reads.
pub record Target : Type 0 where
  pub cmd_id : String
  pub sim_id : String
  pub job_id : Option ℤ

-- The optional fields of a control ack.
pub record Answer : Type 0 where
  pub ok : Bool
  pub job_id : Option ℤ
  pub signal : Option String
  pub slurm_reason : Option String
  pub state : Option String
  pub error : Option String
  pub error_code : Option String

pub record ControlAck : Type 0 where
  pub cmd_id : String
  pub sim_id : String
  pub op : SimulationOp
  pub answer : Answer

pub data Message : Type 0 where
  control_reply : ControlAck → Message
  checkpoint_event : Target → Message

pub data Outcome : Type 0 where
  raised : String → Outcome
  returned : Option String → Outcome

pub record World : Type 0 where
  pub live_job_state : Target → Option SlurmJobState
  pub control_fn : SimulationOp → Target → Outcome

-- `limit` is `_MAX_PROCESSED`, 4096.
pub record Controls : Type 0 where
  pub limit : ℕ
  pub has_control_fn : Bool
  pub control_acks : List ControlAck
  pub tracked : Dict Target
  pub processed : Dict ProcessedCommand
  pub signalled : List (SimulationOp × Target)
  pub sent : List Message

abbrev pub failure : Option ℤ → Answer
failure job_id = record {
  ok = false;
  job_id = job_id;
  signal = none;
  slurm_reason = none;
  state = none;
  error = none;
  error_code = none;
}

abbrev pub is_key : String → String → SimulationOp → ControlAck → Bool
is_key cmd_id sim_id op a =
    str_eq a.cmd_id cmd_id && (str_eq a.sim_id sim_id && str_eq (op_value a.op) (op_value op))

-- `self._control_acks.get(cache_key)`
unfoldable pub find_ack : String → String → SimulationOp → List ControlAck → Option ControlAck
find_ack cmd_id sim_id op [] = none
find_ack cmd_id sim_id op (a ∷ acks) =
    if is_key cmd_id sim_id op a then some a else find_ack cmd_id sim_id op acks

-- `self._control_acks[cmd_id, sim_id, params.op.value] = ack`
unfoldable pub put_ack : ControlAck → List ControlAck → List ControlAck
put_ack a [] = a ∷ []
put_ack a (b ∷ acks) = if is_key a.cmd_id a.sim_id a.op b then a ∷ acks else b ∷ put_ack a acks

unfoldable pub trimmed : ℕ → List ControlAck → List ControlAck
trimmed limit acks = if ltb limit (length acks) then last_items limit acks else acks

abbrev pub tell : Message → Controls → Controls
tell m s = record s { sent = m ∷ s.sent }

unfoldable pub send_control_ack : String → String → SimulationOp → Answer → Controls → Controls
send_control_ack cmd_id sim_id op x s =
    let ack : ControlAck = record { cmd_id = cmd_id; sim_id = sim_id; op = op; answer = x } in
    let told = tell (control_reply ack) s in
    if is_empty cmd_id
    then told
    else record told { control_acks = trimmed s.limit (put_ack ack s.control_acks) }

abbrev pub names : String → ProcessedCommand → Bool
names sim_id r = elim r.sim_id [ none ↦ false | some s ↦ str_eq s sim_id ]

-- `next(record for record in reversed(...) if record.sim_id == sim_id)`
unfoldable pub last_record : String → Dict ProcessedCommand → Option ProcessedCommand
last_record sim_id [] = none
last_record sim_id ((k, r) ∷ d) = elim (last_record sim_id d) [
  | some found ↦ some found
  | none ↦ if names sim_id r then some r else none
]

unfoldable pub latest_record_for_sim : String → Dict ProcessedCommand → Option ProcessedCommand
unfolding last_record
latest_record_for_sim sim_id d = if is_empty sim_id then none else last_record sim_id d

abbrev pub no_job_yet : String
no_job_yet =
    concat "the simulation was accepted but never recorded an outcome (the "
      "simclient may have died mid-build); it has no scheduler job to signal yet"

abbrev pub untracked_detail : ProcessedCommand → String
untracked_detail r =
    if r.completed
    then concat "the simulation has no live scheduler job (state="
        (concat (or_text r.state "unknown") ")")
    else no_job_yet

abbrev pub control_untracked : ProcessedCommand → Answer
control_untracked r = record (failure none) {
  error = some (concat "not_signalable: " (untracked_detail r));
  error_code = some "not_signalable";
  state = r.state;
}

pub data Gate : Type 0 where
  answered : Answer → Gate
  passes : Target → Gate

abbrev pub state_text : Option SlurmJobState → Option String
state_text none = none
state_text (some state) = some (slurm_value state)

abbrev pub is_running : Option SlurmJobState → Bool
is_running (some running) = true
is_running _ = false

abbrev pub has_ended : Option SlurmJobState → Bool
has_ended none = false
has_ended (some state) = terminal state

-- The gate of a tracked simulation with a job, by the state of the job.
unfoldable pub job_gate : SimulationOp → Target → Option SlurmJobState → Gate
job_gate op t state =
    let stopped = record (failure t.job_id) { state = state_text state } in
    if requires_running op && not (is_running state)
    then answered (record stopped { error_code = some "not_signalable" })
    else if not (requires_running op) && has_ended state
    then answered (record stopped { error_code = some "not_terminal" })
    else passes t

abbrev pub tracked_gate : World → SimulationOp → Target → Option ℤ → Gate
tracked_gate w op t none =
    answered
      (record (failure none) { error = some "no_job_id"; error_code = some "not_signalable" })
tracked_gate w op t (some j) = job_gate op t (w.live_job_state t)

abbrev pub untracked_gate : Option ProcessedCommand → Gate
untracked_gate (some r) = answered (control_untracked r)
untracked_gate none =
    answered (record (failure none) { error = some "unknown_sim"; error_code = some "no_results" })

unfoldable pub control_gate : World → String → SimulationOp → Controls → Gate
unfolding job_gate latest_record_for_sim get
control_gate w sim_id op s = elim (get sim_id s.tracked) [
  | none ↦ untracked_gate (latest_record_for_sim sim_id s.processed)
  | some t ↦ tracked_gate w op t t.job_id
]

-- The call of the control function, and the answer to its outcome.
unfoldable pub conclude : String → String → SimulationOp → Target → Outcome → Controls → Controls
unfolding send_control_ack
conclude cmd_id sim_id op t (raised e) s =
    send_control_ack cmd_id sim_id op
      (record (failure t.job_id) {
        signal = control_signal op;
        error = some (concat "control_failed:" e);
        error_code = some "run_failed";
      })
      (record s { signalled = (op, t) ∷ s.signalled })
conclude cmd_id sim_id op t (returned reason) s =
    let called = record s { signalled = (op, t) ∷ s.signalled } in
    send_control_ack cmd_id sim_id op
      (record (failure t.job_id) {
        ok = true;
        signal = control_signal op;
        slurm_reason = reason;
        state = if is_save op then some (state_value checkpoint) else none;
      })
      (if is_save op then tell (checkpoint_event t) called else called)

-- `_handle_control` past the gate
unfoldable pub pass_gate : World → String → String → SimulationOp → Gate → Controls → Controls
unfolding conclude send_control_ack
pass_gate w cmd_id sim_id op (answered x) s = send_control_ack cmd_id sim_id op x s
pass_gate w cmd_id sim_id op (passes t) s =
    if s.has_control_fn
    then conclude cmd_id sim_id op t (w.control_fn op t) s
    else tell
        (control_reply (record {
          cmd_id = cmd_id;
          sim_id = sim_id;
          op = op;
          answer = record (failure none) {
            error = some "control_disabled";
            error_code = some "rejected_by_policy";
          };
        }))
        s

-- A request that `_parse_control_or_reject` refuses, with its answer, or its parameters.
pub data Request : Type 0 where
  refused : ControlAck → Request
  requested : String → SimulationOp → Request

unfoldable pub resend_or_pass :
    World → String → String → SimulationOp → Option ControlAck → Controls → Controls
unfolding control_gate pass_gate
resend_or_pass w cmd_id sim_id op (some cached) s = tell (control_reply cached) s
resend_or_pass w cmd_id sim_id op none s =
    pass_gate w cmd_id sim_id op (control_gate w sim_id op s) s

unfoldable pub handle_control : World → String → Request → Controls → Controls
unfolding resend_or_pass find_ack
handle_control w cmd_id (refused a) s = tell (control_reply a) s
handle_control w cmd_id (requested sim_id op) s =
    resend_or_pass w cmd_id sim_id op
      (if is_empty cmd_id then none else find_ack cmd_id sim_id op s.control_acks) s
