-- ===== src/Agenda/Engine/Gates.antt =====
-- src/pic_agentic/agenda/engine.py: the gates in front of a submission.
pub mod Approval
pub mod Open
pub mod Answers
use pic_agentic.Common.{
  ℕ, String, Bool, true, false, not, Option, none, some, List, ◌&&◌, ◌||◌, leb, length,
  if◌then◌else◌,
}
use pic_agentic.Common.Float.{Float, le_float}
use pic_agentic.Agenda.Model.{AgendaSim}
use pic_agentic.Agenda.Planner.{PlanStep, and_then, resource_request_from_spec}
use pic_agentic.Agenda.Campaign.{CampaignState, active, Campaign}
use pic_agentic.Agenda.Addressing.{leaf_at}
use pic_agentic.Agenda.Engine.{Engine, TickResult}

pub data Bucket : Type 0 where
  held waiting pending_approval : Bucket

abbrev pub is_active : CampaignState → Bool
is_active active = true
is_active _ = false

abbrev pub reached : Option ℕ → ℕ → Bool
reached none n = false
reached (some cap) n = leb cap n

module _ (e : Engine) where
  abbrev pub is_preapproved : String → Option AgendaSim → Bool
  is_preapproved path leaf =
      let by_leaf : Bool = elim leaf [ none ↦ false | some s ↦ s.approved ] in
      elim e.approve [ none ↦ by_leaf | some approve ↦ approve path || by_leaf ]

  abbrev pub needs_approval : Option AgendaSim → Bool
  needs_approval none = e.policy.require_approval
  needs_approval (some s) = s.requires_approval || e.policy.require_approval

  -- `threshold is None or request.est_core_hours <= threshold`; the request of a step that was planned
  -- for submission is well formed, so its `ValidationError` has no case here.
  abbrev pub is_cheap : PlanStep → Bool
  is_cheap step = elim e.policy.approve_over_est_core_hours [
    | none ↦ true
    | some threshold ↦ elim (resource_request_from_spec e.pydantic step.spec) [
      | none ↦ false
      | some r ↦ le_float r.est_core_hours threshold
    ]
  ]

  -- `_may_submit`
  unfoldable pub may_submit : Option AgendaSim → PlanStep → Bool
  may_submit leaf step =
      if is_preapproved step.path leaf
      then true
      else if needs_approval leaf
      then false
      else is_cheap step

  -- `_submission_block`
  unfoldable pub submission_block :
      Campaign → String → PlanStep → TickResult → ℕ → Option ℕ → Option Bucket
  submission_block c path step result in_flight cap =
      if not (is_active c.state)
      then some held
      else if leb e.policy.max_submits_per_tick (length result.submitted)
      then some waiting
      else if reached cap in_flight
      then some waiting
      else if not (may_submit (leaf_at c.agenda path) step)
      then some pending_approval
      else none
