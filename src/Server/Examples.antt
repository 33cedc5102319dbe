-- ===== src/Server/Examples.antt =====
-- Concrete events, registries and waits for src/pic_agentic/server/simulation.py.
use pic_agentic.Common.{
  ◌-◌, ◌*◌, ◌≤◌, String, ◌≡◌, refl, true, false, Option, none, some, List, [], ◌∷◌, ◌++◌, arith,
  length, elem, str_eq, if◌then◌else◌,
}
use pic_agentic.Common.Dict.{Dict, get, AllItems}
use pic_agentic.Common.Float.{pos}
use pic_agentic.Common.Value.{get_field}
use pic_agentic.Rcp.Envelope.{RcpMessage, sign}
use pic_agentic.Rcp.Envelope.Signing.{verify-sign}
use pic_agentic.Rcp.Samples.{plain, platform}
use pic_agentic.Protocol.{
  SimulationState, job_running, results_ready, no_fields, Signals, event_payload,
  build_submit_event,
}
use pic_agentic.Server.Registry.{
  SimRecord, fresh_record, is_terminal, terminal_states, text_of, project_event,
}
use pic_agentic.Server.Registry.Sound.{IsSound}
use pic_agentic.Server.Registry.Replay.{IsOpenTo}
use pic_agentic.Server.Registry.Ended.{IsOld, same_run, project_event-ended_run}
use pic_agentic.Server.Events.{Filter, append_event_log, condense_events, max_event_page}
use pic_agentic.Server.Events.Log.{history, drop, history-append_event_log}
use pic_agentic.Server.Events.Condensed.{Alternates, condense_events-Alternates}
use pic_agentic.Server.Service.{SubmitService, is_authentic, ingest_backfill}
use pic_agentic.Server.Service.Ingest.{IsEventOf, ingest_backfill-twice, ingest_backfill-IsSound}
use pic_agentic.Server.Wait.{Surroundings, wait_valid, exceeds_client_budget}
use pic_agentic.Server.Wait.Returns.{Tells, wait_valid-Tells}

abbrev signals : Signals
signals = record { name = λ n. none; number_text = λ n. "7" }

abbrev lifecycle : SimulationState → String → RcpMessage
lifecycle state ts = build_submit_event signals "room" (pos 1) ts "cmd_1" "run_1" state no_fields

abbrev begun : RcpMessage
begun = sign platform "key" (lifecycle job_running "2026-01-01")

abbrev ready : RcpMessage
ready = sign platform "key" (lifecycle results_ready "2026-01-02")

abbrev server : SubmitService
server = record {
  secret = "key";
  sim = "room";
  event_log_max = 10;
  registry = [];
  event_log = [];
  pending = [];
  pending_pull = [];
  pending_pull_kind = [];
  effects = [];
}

begun-IsEventOf : IsEventOf platform server "run_1" "cmd_1" begun
unfolding is_authentic build_submit_event event_payload get_field text_of sign
begun-IsEventOf = record {
  authentic = rw (verify-sign platform "key" (lifecycle job_running "2026-01-01")) refl;
  lifecycle = refl;
  of_run = record { of_sim = refl; of_cmd = refl };
}

ready-IsEventOf : IsEventOf platform server "run_1" "cmd_1" ready
unfolding is_authentic build_submit_event event_payload get_field text_of sign
ready-IsEventOf = record {
  authentic = rw (verify-sign platform "key" (lifecycle results_ready "2026-01-02")) refl;
  lifecycle = refl;
  of_run = record { of_sim = refl; of_cmd = refl };
}

unregistered : IsOpenTo plain "run_1" "cmd_1" []
unfolding get
unregistered r h = let bad : ◌≡◌ {A = Option SimRecord} none (some r) = h in cc

abbrev events : List RcpMessage
events = begun ∷ ready ∷ []

ingest_backfill-twice_example :
    (ingest_backfill platform events (ingest_backfill platform events server)).registry
    ≡ (ingest_backfill platform events server).registry
ingest_backfill-twice_example =
    ingest_backfill-twice platform events "run_1" "cmd_1" server
      (begun-IsEventOf, (ready-IsEventOf, tt)) refl unregistered

ingest_backfill-IsSound_example : AllItems IsSound (ingest_backfill platform events server).registry
ingest_backfill-IsSound_example = ingest_backfill-IsSound platform events server tt

abbrev ended_record : SimRecord
ended_record = record (fresh_record "run_1" "cmd_1") {
  state = "results.ready";
  last_event_type = some "results.ready";
  last_event_ts = some "2026-01-02";
  active = false;
}

abbrev registry : Dict SimRecord
registry = ("run_1", ended_record) ∷ []

found : get (text_of plain "sim_id" begun.payload) registry ≡ some ended_record
unfolding get text_of build_submit_event event_payload get_field sign
found = refl

over : is_terminal ended_record.state ≡ true
unfolding is_terminal elem
over = refl

begun-IsOld : IsOld plain begun ended_record
unfolding text_of build_submit_event event_payload get_field sign
begun-IsOld = same_run refl

project_event-ended_run_example : (project_event plain begun registry).0 ≡ registry
project_event-ended_run_example =
    project_event-ended_run plain begun registry ended_record found over begun-IsOld

history-append_event_log_example :
    let appended = history plain "run_2" (ready ∷ []) ++ begun ∷ [] in
    (history plain "run_2" (append_event_log plain 1 begun (ready ∷ [])) ≡ (
      if str_eq (text_of plain "sim_id" begun.payload) "run_2"
      then drop (length appended - 1) appended
      else history plain "run_2" (ready ∷ [])))
    × (length (
          history plain
            (text_of plain "sim_id" begun.payload)
            (append_event_log plain 1 begun (ready ∷ [])))
        ≤ 1)
history-append_event_log_example = history-append_event_log plain 1 begun (ready ∷ []) "run_2"

abbrev filter : Filter
filter = record { sim_id = "run_1"; since = none; types = [] }

condense_events-Alternates_example :
    Alternates (condense_events plain filter 50 events)
    × (length (condense_events plain filter 50 events) ≤ 50)
    × (length (condense_events plain filter 50 events) ≤ max_event_page)
condense_events-Alternates_example = condense_events-Alternates plain (λ s. refl) filter 50 events

-- A registry that does not change, looked at once in a second.
abbrev quiet : Surroundings
quiet = record {
  to_str = plain;
  signals = signals;
  sorted = λ names. names;
  now = λ k. k * 1000;
  registry = λ k. ("run_1", fresh_record "run_1" "cmd_1") ∷ [];
  event_log = λ k. events;
}

waited : get "run_1" (quiet.registry 0) ≡ some (fresh_record "run_1" "cmd_1")
unfolding get
waited = refl

no_budget : exceeds_client_budget 3000 none ≡ false
unfolding exceeds_client_budget
no_budget = refl

wait_valid-Tells_example :
    Tells quiet "run_1" terminal_states true 3000 3
      (wait_valid quiet 4 "run_1" terminal_states true 3000 none)
wait_valid-Tells_example =
    wait_valid-Tells quiet "run_1" terminal_states true 3000 none 4 3 (fresh_record "run_1" "cmd_1")
      waited no_budget (omega arith) (omega arith)
