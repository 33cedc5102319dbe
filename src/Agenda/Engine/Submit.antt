-- ===== src/Agenda/Engine/Submit.antt =====
-- src/pic_agentic/agenda/engine.py: the submission of one leaf, `_do_submit`, `_record_deferral` and
-- `_submit_one`.
pub mod Deferral
pub mod Lifecycle
use pic_agentic.Common.{
  ℕ, ◌+◌, ◌-◌, String, Bool, true, false, not, Option, none, some, List, [], ◌∷◌, ◌++◌, ◌&&◌,
  is_empty, ltb, if◌then◌else◌,
}
use pic_agentic.Common.Float.{zero_f}
use pic_agentic.Agenda.Model.{Status, planned, submitted, failed, AgendaSim, AgendaGroup}
use pic_agentic.Agenda.Budget.{BudgetUsage, ResourceRequest}
use pic_agentic.Agenda.Planner.{PlanStep, account, resource_request_from_spec, and_then}
use pic_agentic.Agenda.Addressing.{leaf_at, set_leaf}
use pic_agentic.Agenda.Campaign.{Callback, failed_callback, Campaign, truthy}
use pic_agentic.Agenda.Engine.{Engine, EnginePolicy, Outcome, acknowledged, transient, rejected}
use pic_agentic.Agenda.Engine.Hashing.{idempotency_key, duplicate_spec}
use pic_agentic.Agenda.Engine.Observe.{new_callback}

-- How an attempt ends: the new campaign; a lost acknowledgement; another exception. `sent` is the key
-- under which `submit` was called, if it was.
pub data Attempt : Type 0 where
  accepted : Campaign → Attempt
  lost : (message : String) (error_code sim_id : Option String) (now : ℕ) → Attempt
  refused : (message : String) (error_code stage : Option String) → Attempt

-- What `_submit_one` returns.
pub record Submission : Type 0 where
  pub campaign : Campaign
  pub failure : Option Callback
  pub is_deferred : Bool

-- The fields of a leaf whose submission was acknowledged.
abbrev pub submitted_leaf : String → String → ResourceRequest → AgendaSim → AgendaSim
submitted_leaf sim_id key r s = record s {
  sim_id = some sim_id;
  run_id = some key;
  status = submitted;
  deferred_attempts = 0;
  deferred_since = none;
  error = none;
  error_code = none;
  stage = none;
  estimated_core_hours = r.est_core_hours;
  estimated_gpu_hours = r.est_gpu_hours;
  is_gpu = r.is_gpu;
}

abbrev pub accept : Campaign → String → String → String → ResourceRequest → Campaign
accept c path sim_id key r =
    let accounted = account c.usage r.est_core_hours r.est_gpu_hours r.is_gpu in
    record c {
      agenda = set_leaf c.agenda path (submitted_leaf sim_id key r);
      usage = record accounted { jobs_running = accounted.jobs_running + 1 };
    }

-- `_elapsed_seconds`, in microseconds: an unreadable start counts as now.
unfoldable pub elapsed : (String → Option ℕ) → Option String → ℕ → ℕ
elapsed parse none now = 0
elapsed parse (some since) now =
    if is_empty since then 0 else elim (parse since) [ none ↦ 0 | some started ↦ now - started ]

abbrev pub or_default : Option String → String → String
or_default none default = default
or_default (some s) default = if is_empty s then default else s

abbrev pub since_or : Option String → String → String
since_or none now = now
since_or (some since) now = since

module _ (e : Engine) where
  abbrev pub finish : Campaign → String → String → PlanStep → Outcome → Attempt
  finish c path key step (acknowledged sim_id) =
      elim (resource_request_from_spec e.pydantic step.spec) [
        | none ↦ refused e.validation_message none none
        | some r ↦ accepted (accept c path sim_id key r)
      ]
  finish c path key step (transient message code sim_id now) = lost message code sim_id now
  finish c path key step (rejected message code stage) = refused message code stage

  -- `_do_submit`
  unfoldable pub do_submit : Campaign → String → PlanStep → Attempt
  do_submit c path step =
      let key = idempotency_key e c path step.spec in
      elim (duplicate_spec e c path step.spec) [
        | some other ↦ refused (e.duplicate_message path other) none none
        | none ↦ finish c path key step (e.submit step.spec key)
      ]

  -- The leaf after one more lost acknowledgement: the count, the id and the start of the deferral.
  unfoldable pub deferred_leaf : Option String → ℕ → AgendaSim → AgendaSim
  deferred_leaf sim_id now s = record s {
    deferred_attempts = s.deferred_attempts + 1;
    sim_id = if truthy sim_id && not (truthy s.sim_id) then sim_id else s.sim_id;
    deferred_since = some (since_or s.deferred_since (e.format_ts now));
  }

  -- Whether the window of deferral is over for the leaf.
  unfoldable pub is_expired : ℕ → AgendaSim → Bool
  unfolding elapsed
  is_expired now s =
      not (ltb (elapsed e.parse_ts s.deferred_since now) e.policy.deferred_outcome_timeout)

  abbrev pub timeout_text : String → String → ℕ → AgendaSim → String
  timeout_text message code now s =
      e.timeout_message (elapsed e.parse_ts s.deferred_since now) s.deferred_attempts code message

  abbrev pub retry_later : Campaign → String → String → String → Option String → ℕ → Campaign
  retry_later c path message code sim_id now = record c {
    agenda =
        set_leaf c.agenda path (λ s. record (deferred_leaf sim_id now s) {
          error = some message;
          error_code = some code;
        });
  }

  abbrev pub give_up :
      Campaign → String → String → String → Option String → ℕ → AgendaSim → Submission
  give_up c path message code sim_id now leaf =
      let deferred = deferred_leaf sim_id now leaf in
      let text = timeout_text message code now deferred in
      let callback = record (new_callback e.utc_now_iso path failed_callback deferred.sim_id) {
        error = some text;
        error_code = some code;
      } in
      record {
        campaign = record c {
          agenda = set_leaf c.agenda path (λ s. record (deferred_leaf sim_id now s) {
            status = failed;
            error = some text;
            error_code = some code;
          });
          callbacks = c.callbacks ++ callback ∷ [];
        };
        failure = some callback;
        is_deferred = true;
      }

  abbrev pub defer_leaf :
      Campaign → String → String → String → Option String → ℕ → Option AgendaSim → Submission
  defer_leaf c path message code sim_id now none = record {
    campaign = c;
    failure = none;
    is_deferred = true;
  }
  defer_leaf c path message code sim_id now (some leaf) =
      if is_expired now (deferred_leaf sim_id now leaf)
      then give_up c path message code sim_id now leaf
      else record {
        campaign = retry_later c path message code sim_id now;
        failure = none;
        is_deferred = true;
      }

  -- `_record_deferral`, and the `True` that `_submit_one` returns with it.
  unfoldable pub record_deferral :
      Campaign → String → String → Option String → Option String → ℕ → Submission
  unfolding is_expired deferred_leaf
  record_deferral c path message error_code sim_id now =
      defer_leaf c path message (or_default error_code "outcome_unknown") sim_id now
        (leaf_at c.agenda path)

  abbrev pub fail_submission :
      Campaign → String → String → Option String → Option String → Option AgendaSim → Submission
  fail_submission c path message code stage none = record {
    campaign = c;
    failure = none;
    is_deferred = false;
  }
  fail_submission c path message code stage (some leaf) =
      let callback = record (new_callback e.utc_now_iso path failed_callback leaf.sim_id) {
        error = some message;
        error_code = code;
        stage = stage;
      } in
      record {
        campaign = record c {
          agenda = set_leaf c.agenda path (λ s. record s {
            status = failed;
            error = some message;
            error_code = code;
            stage = stage;
          });
          callbacks = c.callbacks ++ callback ∷ [];
        };
        failure = some callback;
        is_deferred = false;
      }

  abbrev pub conclude : Campaign → String → Attempt → Submission
  conclude c path (accepted c') = record { campaign = c'; failure = none; is_deferred = false }
  conclude c path (lost message code sim_id now) = record_deferral c path message code sim_id now
  conclude c path (refused message code stage) =
      fail_submission c path message code stage (leaf_at c.agenda path)

  -- `_submit_one`
  unfoldable pub submit_one : Campaign → String → PlanStep → Submission
  submit_one c path step = conclude c path (do_submit c path step)
