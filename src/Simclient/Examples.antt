-- ===== src/Simclient/Examples.antt =====
-- Concrete runs of a follower, lives of a ledger and messages for src/pic_agentic/simclient.
use pic_agentic.Common.{
  ◌≤◌, String, ◌≡◌, refl, true, false, none, some, [], ◌∷◌, ◌++◌, arith, length, count_if, is_some,
  nat_eq, if◌then◌else◌,
}
use pic_agentic.Common.Float.{ℤ, pos}
use pic_agentic.Common.Value.{end}
use pic_agentic.Rcp.Envelope.{command, mcp_server, RcpMessage, sign, dedup_key}
use pic_agentic.Rcp.Envelope.Signing.{verify-sign}
use pic_agentic.Rcp.Dedup.{empty_store, seen, has_key}
use pic_agentic.Rcp.Dedup.Window.{IsConsistent}
use pic_agentic.Rcp.Sequence.{empty_sequences}
use pic_agentic.Rcp.Samples.{platform}
use pic_agentic.Simclient.Control.{
  Controls, Target, Request, requested, save, World, returned, handle_control,
}
use pic_agentic.Simclient.Control.Once.{handle_control-again}
use pic_agentic.Simclient.Client.{SimClient, is_valid, accepts, choose_handler, handle, handle_all}
use pic_agentic.Simclient.Client.Accepted.{handle-handled}
use pic_agentic.Simclient.Follower.{
  SlurmJobState, pending, running, completed, JobInfo, TrackedSim, Machine, Run, run,
  read_new_lines,
}
use pic_agentic.Simclient.Follower.Once.{is_running_event, is_final_event, count-run}
use pic_agentic.Simclient.Follower.Ending.{IsUndisturbed, Within, run-count_final, run-Within}
use pic_agentic.Simclient.Follower.Progress.{is_partial_event, partial-run}
use pic_agentic.Simclient.Follower.Tail.{read_new_lines-append}
use pic_agentic.Simclient.Ledger.{
  Ledger, Submission, rejected, prepared, handle_submit, load_processed,
}
use pic_agentic.Simclient.Ledger.Steps.{works, empty_ledger}
use pic_agentic.Simclient.Ledger.Forgotten.{handle_submit-forgets}

abbrev job : SlurmJobState → JobInfo
job state = record { job_id = pos 7; state = state; exit_code = none; reason = some "Resources" }

-- A job that waits, runs and ends, with a quarter of the way reported while it runs.
abbrev machine : Machine
machine = record {
  signals = record { name = λ n. none; number_text = λ n. "7" };
  job_info =
      λ n. some (job (if nat_eq n 0 then pending else if nat_eq n 1 then running else completed));
  stdout = λ n. if nat_eq n 0 then none else some (65 ∷ 10 ∷ []);
  splitlines = λ bytes. if nat_eq (length bytes) 0 then [] else "line" ∷ [];
  parse = λ line. some (record {
    percent = 30;
    step = 300;
    elapsed = "1sec";
    avg_per_step = "3msec";
    avg_per_step_ms = some 3;
  });
  accounting = none;
  linked = true;
  manifest = none;
  suspect = none;
  is_stopped_before = λ n. false;
  is_stopped = λ n. false;
}

abbrev tracked : TrackedSim
tracked = record {
  job_id = some (pos 7);
  last_percent = none;
  last_step = none;
  last_walltime = none;
  last_avg_per_step = none;
  last_eta_s = none;
  stdout_offset = 0;
  job_running_emitted = false;
  terminal_emitted = false;
  last_slurm_reason = none;
  last_emitted_bucket = 0;
}

abbrev followed : Run
followed = run machine 3 30 300 tracked

undisturbed : IsUndisturbed machine
undisturbed = record { before = λ n. refl; after = λ n. refl }

run-count_final_example :
    (followed.finished ≡ true) × (count_if is_final_event followed.emitted ≡ 1)
run-count_final_example =
    run-count_final machine undisturbed 3 30 300 2 tracked (job completed) refl refl refl refl
      (omega arith)

count-run_example :
    (count_if is_running_event followed.emitted
      ≡ (if followed.tracked.job_running_emitted then 1 else 0))
    × (count_if is_final_event followed.emitted
        ≡ (if followed.tracked.terminal_emitted then 1 else 0))
count-run_example = count-run machine 3 30 300 tracked refl refl

run-Within_example : Within 30 300 followed.slept
run-Within_example = run-Within machine 30 300 (omega arith) 3 tracked

partial-run_example : count_if is_partial_event followed.emitted ≤ 3
partial-run_example = partial-run machine 3 30 300 tracked

-- A half-written line is read when it is whole.
read_new_lines-append_example :
    ((read_new_lines
        (some (65 ∷ 10 ∷ 66 ∷ [] ++ 10 ∷ []))
        (read_new_lines (some (65 ∷ 10 ∷ 66 ∷ [])) 0).0).0
      ≡ (read_new_lines (some (65 ∷ 10 ∷ 66 ∷ [] ++ 10 ∷ [])) 0).0)
    × ((read_new_lines (some (65 ∷ 10 ∷ 66 ∷ [])) 0).1
          ++ (read_new_lines
              (some (65 ∷ 10 ∷ 66 ∷ [] ++ 10 ∷ []))
              (read_new_lines (some (65 ∷ 10 ∷ 66 ∷ [])) 0).0).1
        ≡ (read_new_lines (some (65 ∷ 10 ∷ 66 ∷ [] ++ 10 ∷ [])) 0).1)
read_new_lines-append_example = read_new_lines-append (65 ∷ 10 ∷ 66 ∷ []) (10 ∷ []) 0 (omega arith)

abbrev submission : Submission
submission = record { cmd_id = "cmd_1"; payload_hash = "h1"; sim_id = "run_1" }

abbrev first_life : Ledger
first_life = handle_submit works works (prepared "run_1") submission (empty_ledger 4096)

-- The same command before and after a restart.
abbrev second_life : Ledger
second_life = load_processed first_life

handle_submit-forgets_example :
    (handle_submit works works (prepared "run_1") submission (
      handle_submit works works
        (rejected "no hash" "rejected_by_policy")
        (record submission { payload_hash = "" })
        (empty_ledger 4096))).executed
    ≡ ("cmd_1", "h1") ∷ []
handle_submit-forgets_example =
    handle_submit-forgets (empty_ledger 4096) submission "no hash" "rejected_by_policy" "run_1"
      (omega arith) refl

abbrev client : SimClient
client = record {
  sim = "room";
  secret = "key";
  allowed_sender_user_id = "";
  has_submit_config = false;
  seen_store = empty_store 2;
  sequences = empty_sequences;
}

abbrev unsigned : RcpMessage
unsigned = record {
  sim = "room";
  kind = command;
  type = "rcp.hello";
  seq = pos 1;
  sender_role = mcp_server;
  payload = end;
  ts = "2026-01-01";
  in_reply_to = none;
  version = pos 1;
  sig = none;
  transport_sender = none;
  transport_event_id = some "event_1";
}

abbrev greeting : RcpMessage
greeting = sign platform "key" unsigned

empty-IsConsistent : IsConsistent (empty_store 2)
empty-IsConsistent = record { same = λ k. refl; distinct = tt; bounded = omega arith }

abbrev number : ℤ → String
number n = "1"

answered : is_some (handle platform number greeting client).0 ≡ true
unfolding handle accepts is_valid sign seen dedup_key choose_handler has_key
answered = rw (verify-sign platform "key" unsigned) refl

handle-handled_example :
    is_some
      (handle platform number greeting (
        handle_all platform number
          (record greeting { transport_event_id = some "event_2" } ∷ [])
          (handle platform number greeting client).1)).0
    ≡ false
handle-handled_example =
    handle-handled platform number greeting
      (record greeting { transport_event_id = some "event_2" } ∷ []) client empty-IsConsistent
      answered (omega arith)

-- A running simulation, and a request for a checkpoint of it.
abbrev controls : Controls
controls = record {
  limit = 4096;
  has_control_fn = true;
  control_acks = [];
  tracked = ("sim", record { cmd_id = "submitted"; sim_id = "sim"; job_id = some (pos 7) }) ∷ [];
  processed = [];
  signalled = [];
  sent = [];
}

abbrev running_job : World
running_job = record {
  live_job_state = λ (t : Target). some running;
  control_fn = λ op t. returned none;
}

abbrev save_request : Request
save_request = requested "sim" save

signals_once : length (handle_control running_job "cmd" save_request controls).signalled ≡ 1
unfolding handle_control
signals_once = refl

announces : length (handle_control running_job "cmd" save_request controls).sent ≡ 2
unfolding handle_control
announces = refl

handle_control-again_example :
    (handle_control running_job "cmd" save_request
      (handle_control running_job "cmd" save_request controls)).signalled
    ≡ (handle_control running_job "cmd" save_request controls).signalled
handle_control-again_example =
    handle_control-again running_job running_job "cmd" save_request controls refl (omega arith)
