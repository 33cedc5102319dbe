-- ===== src/Agenda/Engine/Submit/Lifecycle.antt =====
-- src/pic_agentic/agenda/engine.py: the lifecycle state of the campaign under `_submit_one`.
use pic_agentic.Common.{
  ℕ, String, ◌≡◌, refl, Option, none, some, inl, inr, Bool-cases, Option-cases,
}
use pic_agentic.Agenda.Model.{AgendaSim}
use pic_agentic.Agenda.Budget.{ResourceRequest}
use pic_agentic.Agenda.Planner.{PlanStep, resource_request_from_spec}
use pic_agentic.Agenda.Addressing.{leaf_at}
use pic_agentic.Agenda.Campaign.{Campaign}
use pic_agentic.Agenda.Engine.{Engine, Outcome, acknowledged, transient, rejected}
use pic_agentic.Agenda.Engine.Hashing.{idempotency_key, duplicate_spec}
use pic_agentic.Agenda.Engine.Submit.{
  submit_one, Attempt, accepted, lost, refused, conclude, do_submit, record_deferral, defer_leaf,
  is_expired, deferred_leaf, fail_submission, or_default, finish,
}

-- The lifecycle state after an attempt.
abbrev KeepsState : Campaign → Attempt → Type 0
KeepsState c (accepted c') = c'.state ≡ c.state
KeepsState c (lost message code sim_id now) = Unit
KeepsState c (refused message code stage) = Unit

module _ (e : Engine) where
  give_up_state :
      (c : Campaign) (path message code : String) (sim_id : Option String) (now : ℕ)
      (leaf : Option AgendaSim)
      → (defer_leaf e c path message code sim_id now leaf).campaign.state ≡ c.state
  give_up_state c path message code sim_id now none = refl
  give_up_state c path message code sim_id now (some leaf) =
      elim (Bool-cases (is_expired e now (deferred_leaf e sim_id now leaf))) [
        | inl h ↦ rw (h)
        | inr h ↦ rw (h)
      ]

  fail_state :
      (c : Campaign) (path message : String) (code stage : Option String) (leaf : Option AgendaSim)
      → (fail_submission e c path message code stage leaf).campaign.state ≡ c.state
  fail_state c path message code stage none = refl
  fail_state c path message code stage (some leaf) = refl

  conclude-state :
      (c : Campaign) (path : String) (a : Attempt)
      → KeepsState c a
      → (conclude e c path a).campaign.state ≡ c.state
  unfolding record_deferral
  conclude-state c path (accepted c') h = h
  conclude-state c path (lost message code sim_id now) h =
      give_up_state c path message (or_default code "outcome_unknown") sim_id now
        (leaf_at c.agenda path)
  conclude-state c path (refused message code stage) h =
      fail_state c path message code stage (leaf_at c.agenda path)

  finish-KeepsState :
      (c : Campaign) (path key : String) (step : PlanStep) (o : Outcome)
      (r : Option ResourceRequest)
      → resource_request_from_spec e.pydantic step.spec ≡ r
      → KeepsState c (finish e c path key step o)
  finish-KeepsState c path key step (acknowledged id) none h = rw (h, KeepsState) tt
  finish-KeepsState c path key step (acknowledged id) (some r) h = rw (h, KeepsState) refl
  finish-KeepsState c path key step (transient m code id now) r h = tt
  finish-KeepsState c path key step (rejected m code stage) r h = tt

  do_submit-KeepsState :
      (c : Campaign) (path : String) (step : PlanStep) → KeepsState c (do_submit e c path step)
  unfolding do_submit
  do_submit-KeepsState c path step =
      let key = idempotency_key e c path step.spec in
      elim (Option-cases (duplicate_spec e c path step.spec)) [
        | inl h ↦
            rw (h, KeepsState) (finish-KeepsState c path key step (e.submit step.spec key) _ refl)
        | inr (other, h) ↦ rw (h, KeepsState) tt
      ]

  pub submit_one-state :
      (c : Campaign) (path : String) (step : PlanStep)
      → (submit_one e c path step).campaign.state ≡ c.state
  unfolding submit_one
  submit_one-state c path step =
      conclude-state c path (do_submit e c path step) (do_submit-KeepsState c path step)
