-- ===== src/Simclient/Follower.antt =====
-- src/pic_agentic/simclient/follow.py: `TrackedSim` and the poll loop of `JobFollower`. The
-- scheduler's answers, the bytes of the output file, the parser of progress lines, the decoding of
-- bytes, the accounting and the linking of results are parameters, each by the number of the poll.
-- An emitted event is what `emit` is called with. A text of a number is a parameter as well.
mod Job
pub mod Tail
pub mod Once
pub mod Ending
pub mod Progress
use pic_agentic.Common.{
  ℕ, zero, suc, ◌+◌, ◌-◌, ◌*◌, ◌/◌, String, Bool, true, false, not, ◌&&◌, ◌||◌, Option, none, some,
  List, [], ◌∷◌, ◌++◌, length, concat, str_eq, is_some, nat_eq, ltb, leb, if◌then◌else◌,
}
use pic_agentic.Common.Float.{ℤ, pos, negsuc, Float}
use pic_agentic.Common.Value.{Fields}
use pic_agentic.Protocol.{
  SimulationState, submitted, job_running, job_finished, job_failed, step_finished, results_ready,
  cancelled, EventFields, no_fields, Signals, signal_from_exit_code,
}
unfoldable pub use Job.*

-- What the follower asks of the machine at its n-th poll.
pub record Machine : Type 0 where
  pub signals : Signals
  pub job_info : ℕ → Option JobInfo
  pub stdout : ℕ → Option (List ℕ)
  pub splitlines : List ℕ → List String
  pub parse : String → Option ProgressLine
  pub accounting : Option (Float × Float)
  pub linked : Bool
  pub manifest : Option Fields
  pub suspect : Option String
  pub is_stopped_before : ℕ → Bool
  pub is_stopped : ℕ → Bool

abbrev pub percent_complete : ℕ
percent_complete = 100

-- `percent // PROGRESS_EVENT_STEP_PERCENT`
abbrev pub bucket_of : ℕ → ℕ
bucket_of percent = percent / 25

abbrev pub natural : Option ℕ → Option ℤ
natural none = none
natural (some n) = some (pos n)

-- One parsed line: the tracked fields, and the event where a bucket is crossed or all is done.
unfoldable pub observe_line : ProgressLine → TrackedSim → TrackedSim × List Emitted
unfolding eta_seconds
observe_line l t =
    let eta = eta_seconds l.percent l.step l.avg_per_step_ms in
    let seen : TrackedSim = record t {
      last_percent = some l.percent;
      last_step = some l.step;
      last_walltime = some l.elapsed;
      last_avg_per_step = some l.avg_per_step;
      last_eta_s = eta;
    } in
    let made : Emitted = record {
      state = step_finished;
      fields = record no_fields {
        job_id = t.job_id;
        step = some (pos l.step);
        percent = some (pos l.percent);
        walltime = some l.elapsed;
        avg_per_step = some l.avg_per_step;
        eta_s = natural eta;
      };
    } in
    if ltb t.last_emitted_bucket (bucket_of l.percent) || leb percent_complete l.percent
    then (record seen { last_emitted_bucket = bucket_of l.percent }, made ∷ [])
    else (seen, [])

abbrev pub observe_parsed : Option ProgressLine → TrackedSim → TrackedSim × List Emitted
observe_parsed none t = (t, [])
observe_parsed (some l) t = observe_line l t

abbrev pub core_hours : Option (Float × Float) → Option Float
core_hours none = none
core_hours (some hours) = some hours.0

abbrev pub gpu_hours : Option (Float × Float) → Option Float
gpu_hours none = none
gpu_hours (some hours) = some hours.1

abbrev pub is_clean : JobInfo → Bool
is_clean info = elim info.state [
  | completed ↦ elim info.exit_code [
    | none ↦ true
    | some code ↦ elim code [ pos n ↦ nat_eq n 0 | negsuc n ↦ false ]
  ]
  | other ↦ false
]

abbrev pub is_cancelled : SlurmJobState → Bool
is_cancelled slurm_cancelled = true
is_cancelled _ = false

abbrev pub is_running : SlurmJobState → Bool
is_running running = true
is_running _ = false

-- `info.reason is not None and info.reason != self.tracked.last_slurm_reason`
abbrev pub is_news : Option String → Option String → Bool
is_news none last = false
is_news (some reason) none = true
is_news (some reason) (some last) = not (str_eq reason last)

abbrev pub is_waiting : JobInfo → TrackedSim → Bool
is_waiting info t = elim info.state [
  | pending ↦ is_news info.reason t.last_slurm_reason
  | other ↦ false
]

-- The first two branches on a poll: the tracked state, whether the interval is reset, the events.
unfoldable pub observe_state : JobInfo → TrackedSim → TrackedSim × Bool × List Emitted
observe_state info t =
    let fields : EventFields = record no_fields {
      job_id = t.job_id;
      slurm_state = some (slurm_value info.state);
    } in
    if is_running info.state && not t.job_running_emitted
    then (
      record t { job_running_emitted = true },
      true,
      record { state = job_running; fields = fields } ∷ [],
    )
    else if is_waiting info t
    then (
      record t { last_slurm_reason = info.reason },
      false,
      record { state = submitted; fields = record fields { slurm_reason = info.reason } } ∷ [],
    )
    else (t, false, [])

-- The end of one round.
pub data Next : Type 0 where
  ended : TrackedSim → List Emitted → Next
  sleeping : TrackedSim → ℕ → List Emitted → Next

-- `min(current * 2, max_interval_s)`
abbrev pub backed_off : ℕ → ℕ → ℕ
backed_off maximum current = if ltb maximum (current * 2) then maximum else current * 2

pub record Run : Type 0 where
  pub tracked : TrackedSim
  pub emitted : List Emitted
  pub slept : List ℕ
  pub finished : Bool

abbrev pub after_sleep : List Emitted → ℕ → Run → Run
after_sleep made current r = record r { emitted = made ++ r.emitted; slept = current ∷ r.slept }

-- The run from a round on, by what follows its sleep.
abbrev pub next_run : (TrackedSim → ℕ → Run) → Next → Run
next_run resume (ended after made) = record {
  tracked = after;
  emitted = made;
  slept = [];
  finished = true;
}
next_run resume (sleeping after now made) = after_sleep made now (resume after now)

module _ (m : Machine) where
  unfoldable pub observe_lines : List String → TrackedSim → TrackedSim × List Emitted
  unfolding observe_line
  observe_lines [] t = (t, [])
  observe_lines (line ∷ lines) t =
      let (seen, made) = observe_parsed (m.parse line) t in
      let (after, more) = observe_lines lines seen in (after, made ++ more)

  unfoldable pub tail_progress : ℕ → TrackedSim → TrackedSim × List Emitted
  unfolding observe_lines read_new_lines
  tail_progress n t =
      let (offset, bytes) = read_new_lines (m.stdout n) t.stdout_offset in
      observe_lines (m.splitlines bytes) (record t { stdout_offset = offset })

  -- `_scheduler_failure_reason`
  unfoldable pub scheduler_failure_reason : JobInfo → String
  unfolding signal_from_exit_code
  scheduler_failure_reason info =
      let reported = concat "scheduler reported " (slurm_value info.state) in
      let plain : String = elim info.exit_code [
        | none ↦ reported
        | some code ↦ concat reported (concat " (exit code " (concat (number code) ")"))
      ] in
      elim info.state [
        | slurm_cancelled ↦ "the job was cancelled"
        | other ↦ elim (signal_from_exit_code m.signals info.exit_code) [
          | none ↦ plain
          | some signal ↦ concat reported (concat " (" (concat signal ")"))
        ]
      ]
    where
      number : ℤ → String
      number (pos n) = m.signals.number_text n
      number (negsuc n) = concat "-" (m.signals.number_text (n + 1))

  -- The fields that all terminal events carry.
  abbrev pub terminal_fields : JobInfo → TrackedSim → EventFields
  terminal_fields info t = record no_fields {
    job_id = t.job_id;
    slurm_state = some (slurm_value info.state);
    exit_code = info.exit_code;
    core_hours = core_hours m.accounting;
    gpu_hours = gpu_hours m.accounting;
  }

  -- The events of `_emit_terminal` past its guard.
  unfoldable pub terminal_events : JobInfo → TrackedSim → List Emitted
  unfolding scheduler_failure_reason
  terminal_events info t =
      let finished : Emitted = record { state = job_finished; fields = terminal_fields info t } in
      let ready : Emitted = record {
        state = results_ready;
        fields = record no_fields {
          job_id = t.job_id;
          results_linked = some true;
          core_hours = core_hours m.accounting;
          gpu_hours = gpu_hours m.accounting;
          manifest = m.manifest;
          suspect = m.suspect;
        };
      } in
      let unlinked : Emitted = record {
        state = job_finished;
        fields = record (terminal_fields info t) { results_linked = some false };
      } in
      let broken : Emitted = record {
        state = if is_cancelled info.state then cancelled else job_failed;
        fields = record (terminal_fields info t) {
          slurm_reason = info.reason;
          error = some (scheduler_failure_reason info);
          error_code =
              some (if is_cancelled info.state then "scheduler_cancelled" else "scheduler_failed");
        };
      } in
      if is_clean info then finished ∷ (if m.linked then ready else unlinked) ∷ [] else broken ∷ []

  unfoldable pub emit_terminal : JobInfo → TrackedSim → TrackedSim × List Emitted
  unfolding terminal_events
  emit_terminal info t =
      if t.terminal_emitted
      then (t, [])
      else (record t { terminal_emitted = true }, terminal_events info t)

  -- One poll with an answer, up to the `return` of a terminal state.
  unfoldable pub observe_poll : ℕ → JobInfo → TrackedSim → TrackedSim × Bool × List Emitted
  unfolding observe_state tail_progress emit_terminal
  observe_poll n info t =
      let (a, reset, first) = observe_state info t in
      let (b, progress) = tail_progress n a in
      let (c, last) = emit_terminal info b in
      if terminal info.state
      then (c, reset, first ++ progress ++ last)
      else (b, reset, first ++ progress)

  abbrev pub answered : ℕ → ℕ → ℕ → TrackedSim → Option JobInfo → Next
  answered initial n current t none = if m.is_stopped n then ended t [] else sleeping t current []
  answered initial n current t (some info) =
      let (after, reset, made) = observe_poll n info t in
      if terminal info.state || m.is_stopped n
      then ended after made
      else sleeping after (if reset then initial else current) made

  -- One round: it ends when stopped or at a terminal state, and else it sleeps for `current`.
  unfoldable pub round : ℕ → ℕ → ℕ → TrackedSim → Next
  unfolding observe_poll
  round initial n current t =
      if m.is_stopped_before n then ended t [] else answered initial n current t (m.job_info n)

  -- `_run` from the n-th poll on; fuel bounds the number of polls. A follower with no job id ends
  -- before its first poll.
  unfoldable pub follow : ℕ → ℕ → ℕ → ℕ → ℕ → TrackedSim → Run
  unfolding round
  follow zero initial maximum n current t = record {
    tracked = t;
    emitted = [];
    slept = [];
    finished = false;
  }
  follow (suc fuel) initial maximum n current t =
      next_run
        (λ (after : TrackedSim) (now : ℕ).
          follow fuel initial maximum (suc n) (backed_off maximum now) after)
        (round initial n current t)

  unfoldable pub run : ℕ → ℕ → ℕ → TrackedSim → Run
  unfolding follow
  run fuel initial maximum t =
      if is_some t.job_id
      then follow fuel initial maximum 0 initial t
      else record { tracked = t; emitted = []; slept = []; finished = true }
