-- ===== src/Agenda/Planner/Caps.antt =====
-- src/pic_agentic/agenda/planner.py: a plan as a whole and the caps on jobs.
use mathlib.Core.Path.{subst₂}
use pic_agentic.Common.{
  ℕ, ◌+◌, ◌-◌, ◌≤◌, String, ◌≡◌, refl, Bool, true, false, Option, none, some, List, [], ◌∷◌, arith,
  inl, inr, ◌⊎◌, count_if,
}
use pic_agentic.Common.Dict
use pic_agentic.Common.Dict.{Dict}
use pic_agentic.Agenda.Model.{AgendaSim, AgendaGroup, Leaf, simulations}
use pic_agentic.Agenda.Budget.{Budget, BudgetUsage, ResourceRequest}
use pic_agentic.Agenda.Budget.Admission.{IsWithin, IsAdmissible}
use pic_agentic.Agenda.Planner.{
  Pydantic, PlanStep, PlanAction, submit, wait, mark_done, mark_failed, resource_request_from_spec,
  Index, plan_leaves, account, accrue, accrue_request, index_of, jobs_in_flight, apply_states,
  next_actions, and_then-eq-some,
}
use pic_agentic.Agenda.Planner.Dependencies.{submit-IsReady}
use pic_agentic.Agenda.Planner.Steps.{Split, plan_leaves-Split, plan_leaf-IsFor}

abbrev pub is_submit : PlanStep → Bool
is_submit step = elim step.action [ submit ↦ true | _ ↦ false ]

-- The submissions of a plan.
abbrev pub submits : List PlanStep → ℕ
submits steps = count_if is_submit steps

-- `n` more jobs on top of `used` keep the cap; none where it is already reached.
abbrev pub HasRoom : Option ℕ → ℕ → ℕ → Type 0
HasRoom none used n = Unit
HasRoom (some cap) used n = n ≤ cap - used

PlanAction-cases : (a : PlanAction) → (a ≡ submit) ⊎ ((a ≡ submit) → ⊥)
PlanAction-cases submit = inl refl
PlanAction-cases wait = inr (λ e. cc)
PlanAction-cases mark_done = inr (λ e. cc)
PlanAction-cases mark_failed = inr (λ e. cc)

module _ (p : Pydantic) where
  -- What one step adds to the running usage: nothing, or an admissible request.
  pub data Accrues (budget : Budget) (usage usage' : BudgetUsage) (step : PlanStep) : Type 0 where
    idle : is_submit step ≡ false → usage' ≡ usage → Accrues budget usage usage' step
    admits :
        is_submit step ≡ true
        → (r : ResourceRequest) → resource_request_from_spec p step.spec ≡ some r
        → IsAdmissible budget usage r
        → usage' ≡ accrue_request p usage r
        → Accrues budget usage usage' step

  accrue-idle :
      (usage usage' : BudgetUsage) (step : PlanStep) (a : PlanAction)
      → ((a ≡ submit) → ⊥)
      → accrue p usage step a ≡ some usage'
      → usage' ≡ usage
  unfolding accrue
  accrue-idle usage usage' step submit other h = absurd (other refl)
  accrue-idle usage usage' step wait other h = cc
  accrue-idle usage usage' step mark_done other h = cc
  accrue-idle usage usage' step mark_failed other h = cc

  not_submit :
      (a : PlanAction) → ((a ≡ submit) → ⊥) → Path Bool (elim a [ submit ↦ true | _ ↦ false ]) false
  not_submit submit other = absurd (other refl)
  not_submit wait other = refl
  not_submit mark_done other = refl
  not_submit mark_failed other = refl

  accrue-submit :
      (usage usage' : BudgetUsage) (step : PlanStep) (a : PlanAction) (r : ResourceRequest)
      → a ≡ submit
      → resource_request_from_spec p step.spec ≡ some r
      → accrue p usage step a ≡ some usage'
      → usage' ≡ accrue_request p usage r
  unfolding accrue
  accrue-submit usage usage' step submit r e read h = let made = rw read at h in cc made
  accrue-submit usage usage' step wait r e read h = cc
  accrue-submit usage usage' step mark_done r e read h = cc
  accrue-submit usage usage' step mark_failed r e read h = cc

  pub Split-Accrues :
      (index : Index) (budget : Budget) (path : String) (s : AgendaSim) (leaves : List Leaf)
      (usage : BudgetUsage) (steps : List PlanStep) (final : BudgetUsage)
      (split : Split p index budget path s leaves usage steps final)
      → Accrues budget usage split.usage' split.step
  Split-Accrues index budget path s leaves usage steps final split =
      elim (PlanAction-cases split.step.action) [
        | inl sends ↦
            let (_, _, (r, read, fits)) =
              submit-IsReady p s path (Dict.get path index.parents) index.paths budget usage
                split.step split.planned_ sends in
            let own : resource_request_from_spec p split.step.spec ≡ some r =
              rw
                (plan_leaf-IsFor p s path (Dict.get path index.parents) index.paths budget usage
                  split.step split.planned_).1
                read in
            admits (rw sends refl) r own fits (
              accrue-submit usage split.usage' split.step split.step.action r sends own
                split.accrued)
        | inr other ↦
            idle (not_submit split.step.action other)
              (accrue-idle usage split.usage' split.step split.step.action other split.accrued)
      ]

  -- Induction over a plan: a property of the usage before, the steps and the usage behind them.
  pub record Rule (budget : Budget) (P : BudgetUsage → List PlanStep → BudgetUsage → Type 0)
      : Type 1 where
    pub stop : (u : BudgetUsage) → P u [] u
    pub skip :
        (u final : BudgetUsage) (step : PlanStep) (rest : List PlanStep)
        → is_submit step ≡ false
        → P u rest final
        → P u (step ∷ rest) final
    pub send :
        (u final : BudgetUsage) (step : PlanStep) (rest : List PlanStep) (r : ResourceRequest)
        → is_submit step ≡ true
        → resource_request_from_spec p step.spec ≡ some r
        → IsAdmissible budget u r
        → P (accrue_request p u r) rest final
        → P u (step ∷ rest) final

  module _ (index : Index) (budget : Budget)
      (P : BudgetUsage → List PlanStep → BudgetUsage → Type 0) (rule : Rule budget P) where
    pub plan_leaves-Rule :
        (leaves : List Leaf) (u : BudgetUsage) (steps : List PlanStep) (final : BudgetUsage)
        → plan_leaves p index budget leaves u ≡ some (steps, final)
        → P u steps final
    unfolding plan_leaves
    plan_leaves-Rule [] u steps final h =
        let e : [] ≡ steps = cc in let e' : u ≡ final = cc in subst₂ (P u) e e' (rule.stop u)
    plan_leaves-Rule ((path, s) ∷ leaves) u steps final h =
        let split = plan_leaves-Split p index budget path s leaves u steps final h in
        let ih = plan_leaves-Rule leaves split.usage' split.rest final split.others in
        rw split.whole (elim (Split-Accrues index budget path s leaves u steps final split) [
          | idle quiet same ↦ rule.skip u final split.step split.rest quiet (rw same at ih)
          | admits sends r read fits made ↦
              rule.send u final split.step split.rest r sends read fits (rw made at ih)
        ])

  abbrev Rooms : Budget → BudgetUsage → List PlanStep → BudgetUsage → Type 0
  Rooms budget u steps final =
      HasRoom budget.max_total_jobs u.jobs_submitted (submits steps)
      × HasRoom budget.max_concurrent_jobs u.jobs_running (submits steps)

  one_more :
      (cap : Option ℕ) (used n : ℕ)
      → IsWithin cap (used + 1)
      → HasRoom cap (used + 1) n
      → HasRoom cap used (1 + n)
  one_more none used n fits h = tt
  one_more (some cap) used n fits h = omega arith

  none_more : (cap : Option ℕ) (used n : ℕ) → HasRoom cap used n → HasRoom cap used (0 + n)
  none_more none used n h = tt
  none_more (some cap) used n h = omega arith

  no_more : (cap : Option ℕ) (used : ℕ) → HasRoom cap used 0
  no_more none used = tt
  no_more (some cap) used = omega arith

  rooms : (budget : Budget) → Rule budget (Rooms budget)
  unfolding account
  rooms budget = record {
    stop = λ u. (
      no_more budget.max_total_jobs u.jobs_submitted,
      no_more budget.max_concurrent_jobs u.jobs_running,
    );
    skip = λ u final step rest quiet h. rw quiet (
      none_more budget.max_total_jobs u.jobs_submitted (submits rest) h.0,
      none_more budget.max_concurrent_jobs u.jobs_running (submits rest) h.1,
    );
    send = λ u final step rest r sends read fits h. rw sends (
      one_more budget.max_total_jobs u.jobs_submitted (submits rest) fits.total h.0,
      one_more budget.max_concurrent_jobs u.jobs_running (submits rest) fits.concurrent h.1,
    );
  }

-- A plan never submits more jobs than the caps on all jobs and on jobs in flight leave room for; where a
-- cap is already reached or passed it submits none.
pub next_actions-HasRoom :
    (p : Pydantic) (agenda : AgendaGroup) (states : Dict String) (budget : Budget)
    (usage : BudgetUsage) (steps : List PlanStep)
    → next_actions p agenda states budget usage ≡ some steps
    → HasRoom budget.max_total_jobs usage.jobs_submitted (submits steps)
      × HasRoom budget.max_concurrent_jobs
          (jobs_in_flight (apply_states agenda states))
          (submits steps)
unfolding next_actions
next_actions-HasRoom p agenda states budget usage steps h =
    let effective = apply_states agenda states in
    let running = record usage { jobs_running = jobs_in_flight effective } in
    let ((steps', final), e, same) =
      and_then-eq-some (plan_leaves p (index_of effective) budget (simulations effective) running) _
        h in
    let e' : steps' ≡ steps = cc in
    rw (← e') (
      plan_leaves-Rule p (index_of effective) budget (Rooms p budget) (rooms p budget)
        (simulations effective) running steps' final e)
