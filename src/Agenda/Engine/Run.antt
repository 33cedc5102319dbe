-- ===== src/Agenda/Engine/Run.antt =====
-- src/pic_agentic/agenda/engine.py: `_run_steps`, the loop over the steps of a plan, and `tick`. The
-- saved campaigns are the calls of `store.save`, in order.
pub mod Limits
pub mod Ticks
use pic_agentic.Common.{
  ℕ, ◌+◌, String, Bool, true, false, not, Option, none, some, List, [], ◌∷◌, ◌++◌, map, all,
  if◌then◌else◌,
}
use pic_agentic.Common.Dict.{Dict}
use pic_agentic.Agenda.Model.{
  Status, planned, submitted, running, done, failed, AgendaSim, AgendaGroup, Leaf, simulations,
}
use pic_agentic.Agenda.Budget.{Budget}
use pic_agentic.Agenda.Planner.{PlanStep, PlanAction, submit, wait, mark_done, mark_failed}
use pic_agentic.Agenda.Campaign.{
  TickState, lifecycle, complete, Callback, Campaign, with_created_ts,
}
use pic_agentic.Agenda.Engine.{Engine, TickResult, looked_up}
use pic_agentic.Agenda.Engine.Hashing.{duplicate_specs}
use pic_agentic.Agenda.Engine.Gates.{Bucket, held, waiting, pending_approval, submission_block}
use pic_agentic.Agenda.Engine.Observe.{
  statuses, Fault, duplicate, validation, Planned, Offer, Emitted, emit_callbacks, is_terminal,
  plan, persist_terminal, record_reuse,
}
use pic_agentic.Agenda.Engine.Submit.{Submission, submit_one}
use pic_agentic.Agenda.Engine.Report.{compact_failures}

-- The variables of the loop, and what it has saved.
pub record Loop : Type 0 where
  pub campaign : Campaign
  pub result : TickResult
  pub in_flight : ℕ
  pub saved : List Campaign

-- `_bucket`
unfoldable pub bucket : TickResult → String → PlanAction → TickResult
bucket r path wait = record r { waiting = r.waiting ++ path ∷ [] }
bucket r path mark_done = record r { done = r.done ++ path ∷ [] }
bucket r path mark_failed = record r { failed = r.failed ++ path ∷ [] }
bucket r path submit = r

unfoldable pub hold : TickResult → String → Bucket → TickResult
hold r path held = record r { held = r.held ++ path ∷ [] }
hold r path waiting = record r { waiting = r.waiting ++ path ∷ [] }
hold r path pending_approval = record r { pending_approval = r.pending_approval ++ path ∷ [] }

-- `result.callbacks.append(...)`, where there is a callback
unfoldable pub report : TickResult → Option Callback → TickResult
report r none = r
report r (some c) = record r { callbacks = r.callbacks ++ c ∷ [] }

-- `result.failed.append(path)` and the callback, where the submission has failed
unfoldable pub report_failure : TickResult → String → Option Callback → TickResult
report_failure r path none = r
report_failure r path (some c) = record r {
  failed = r.failed ++ path ∷ [];
  callbacks = r.callbacks ++ c ∷ [];
}

-- The result and the count of jobs in flight after a submission.
unfoldable pub tally : TickResult → ℕ → String → Bool → Option Callback → TickResult × ℕ
tally r n path true failure =
    (report_failure (record r { deferred = r.deferred ++ path ∷ [] }) path failure, n)
tally r n path false (some c) = (report_failure r path (some c), n)
tally r n path false none = (record r { submitted = r.submitted ++ path ∷ [] }, n + 1)

-- `_is_complete`
unfoldable pub is_complete : AgendaGroup → Bool
is_complete agenda = all (λ (leaf : Leaf). is_terminal leaf.1.status) (simulations agenda)

-- The paths of the steps that submit.
unfoldable pub submit_paths : List PlanStep → List String
submit_paths [] = []
submit_paths (step ∷ steps) = elim step.action [
  | submit ↦ step.path ∷ submit_paths steps
  | _ ↦ submit_paths steps
]

-- What a tick that does not raise leaves behind.
pub record Ticked : Type 0 where
  pub result : TickResult
  pub saved : List Campaign
  pub offered : List Offer

pub data Tick : Type 0 where
  raised : Fault → Tick
  ticked : Ticked → Tick

module _ (e : Engine) where
  unfoldable pub submit_step : PlanStep → Loop → Loop
  unfolding tally report_failure
  submit_step step l =
      let s = submit_one e l.campaign step.path step in
      let (result, n) = tally l.result l.in_flight step.path s.is_deferred s.failure in
      record {
        campaign = s.campaign;
        result = result;
        in_flight = n;
        saved = l.saved ++ s.campaign ∷ [];
      }

  -- The body of the loop, by the action of the step.
  unfoldable pub run_step : Option ℕ → PlanStep → Loop → PlanAction → Loop
  unfolding hold report bucket
  run_step cap step l submit =
      elim (submission_block e l.campaign step.path step l.result l.in_flight cap) [
        | some block ↦ record l { result = hold l.result step.path block }
        | none ↦ submit_step step l
      ]
  run_step cap step l action =
      let (campaign, terminal) = persist_terminal e l.campaign step.path action step.reason in
      record l { campaign = campaign; result = bucket (report l.result terminal) step.path action }

  unfoldable pub run_steps : Option ℕ → List PlanStep → Loop → Loop
  run_steps cap [] l = l
  run_steps cap (step ∷ steps) l = run_steps cap steps (run_step cap step l step.action)

  abbrev pub start : Campaign → Emitted → List String → TickResult
  start c out reused = record {
    submitted = [];
    pending_approval = [];
    waiting = [];
    deferred = [];
    done = [];
    failed = [];
    reused = reused;
    complete = false;
    usage = c.usage;
    callbacks = out.callbacks;
    failure_groups = [];
    failure_summary = none;
    suspects = out.suspects;
    state = lifecycle c.state;
    lifecycle = c.state;
    held = [];
  }

  -- `tick` after its loop.
  abbrev pub finish_tick : Dict Status → Loop → Ticked
  finish_tick before l =
      let is_done = is_complete l.campaign.agenda in
      let state = if is_done then complete else l.result.state in
      let result = record l.result {
        complete = is_done;
        state = state;
        usage = l.campaign.usage;
      } in
      record {
        result = compact_failures e.decimal result;
        saved = l.saved ++ l.campaign ∷ [];
        offered = record_reuse e l.campaign before;
      }

  -- `tick` after its plan.
  abbrev pub run_plan : Dict Status → Budget → Planned → Ticked
  run_plan before budget p =
      let (c, out) =
        emit_callbacks e p.campaign before (looked_up e.failures) (looked_up e.suspects) in
      finish_tick before (
        run_steps budget.max_concurrent_jobs p.steps (record {
          campaign = c;
          result = start c out p.reused;
          in_flight = c.usage.jobs_running;
          saved = c ∷ [];
        }))

  abbrev pub checked_plan : Dict Status → Budget → Option Planned → Tick
  checked_plan before budget none = raised validation
  checked_plan before budget (some p) = elim (duplicate_specs e p.campaign (submit_paths p.steps)) [
    | some (path, other) ↦ raised (duplicate path other)
    | none ↦ ticked (run_plan before budget p)
  ]

  -- `tick`, on the campaign that `store.load` returns.
  unfoldable pub tick : Campaign → Tick
  unfolding with_created_ts statuses
  tick loaded =
      let c = with_created_ts e.utc_now_iso loaded in
      let budget : Budget = elim e.budget_override [ none ↦ c.budget | some b ↦ b ] in
      let before = statuses (simulations c.agenda) [] in
      checked_plan before budget (plan e c budget)
