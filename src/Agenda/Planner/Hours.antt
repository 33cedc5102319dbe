-- ===== src/Agenda/Planner/Hours.antt =====
-- src/pic_agentic/agenda/planner.py: a plan as a whole and the caps on hours.
use pic_agentic.Common.{
  String, ◌≡◌, refl, Bool, true, false, Option, none, some, List, [], ◌∷◌, inl, inr, if◌then◌else◌,
  Bool-cases,
}
use pic_agentic.Common.Dict.{Dict}
use pic_agentic.Common.Float.{Float, zero_f, add, add-zero_f}
use pic_agentic.Agenda.Model.{AgendaGroup, simulations}
use pic_agentic.Agenda.Budget.{Budget, BudgetUsage, ResourceRequest}
use pic_agentic.Agenda.Budget.Admission.{IsCovered}
use pic_agentic.Agenda.Planner.{
  Pydantic, PlanStep, resource_request_from_spec, plan_leaves, account, accrue_request, index_of,
  jobs_in_flight, apply_states, next_actions, and_then-eq-some,
}
use pic_agentic.Agenda.Planner.Caps.{is_submit, Rule, plan_leaves-Rule}

-- What a submission costs: core hours, and GPU hours where it is a GPU job.
abbrev pub core_charge : ResourceRequest → Float → Float
core_charge r used = add used r.est_core_hours

abbrev pub gpu_charge : ResourceRequest → Float → Float
gpu_charge r used = if r.is_gpu then add used r.est_gpu_hours else used

abbrev pub charged : (ResourceRequest → Float → Float) → Option ResourceRequest → Float → Float
charged charge none used = used
charged charge (some r) used = charge r used

gpu_charged :
    (used : Float) (r : ResourceRequest)
    → add used (if r.is_gpu then r.est_gpu_hours else zero_f) ≡ gpu_charge r used
gpu_charged used r = elim (Bool-cases r.is_gpu) [
  | inl gpu ↦ rw gpu refl
  | inr cpu ↦ rw cpu (add-zero_f used)
]

gpu_within_cap :
    (cap : Option Float) (used needed : Float) (is_gpu : Bool)
    → IsCovered cap used
    → (is_gpu ≡ true → IsCovered cap (add used needed))
    → IsCovered cap (add used (if is_gpu then needed else zero_f))
gpu_within_cap cap used needed true h fits = fits refl
gpu_within_cap cap used needed false h fits = rw (add-zero_f used) h

module _ (p : Pydantic) where
  -- Hours with the submissions of a plan added, one after the other.
  abbrev pub spent : (ResourceRequest → Float → Float) → List PlanStep → Float → Float
  spent charge [] used = used
  spent charge (step ∷ steps) used = spent charge steps (
      if is_submit step then charged charge (resource_request_from_spec p step.spec) used else used)

  abbrev Affords : Budget → BudgetUsage → List PlanStep → Type 0
  Affords budget u steps =
      IsCovered budget.max_core_hours (spent core_charge steps u.core_hours)
      × IsCovered budget.max_gpu_hours (spent gpu_charge steps u.gpu_hours)

  abbrev Keeps : Budget → BudgetUsage → List PlanStep → BudgetUsage → Type 0
  Keeps budget u steps final = Affords budget u [] → Affords budget u steps

  send-Affords :
      (budget : Budget) (u : BudgetUsage) (step : PlanStep) (rest : List PlanStep)
      (r : ResourceRequest)
      → is_submit step ≡ true
      → resource_request_from_spec p step.spec ≡ some r
      → Affords budget (accrue_request p u r) rest
      → Affords budget u (step ∷ rest)
  unfolding account
  send-Affords budget u step rest r sends read h = rw (sends, read, ← (gpu_charged u.gpu_hours r)) h

  keeps : (budget : Budget) → Rule p budget (Keeps budget)
  unfolding account
  keeps budget = record {
    stop = λ u h. h;
    skip = λ u final step rest quiet k h. rw quiet (k h);
    send = λ u final step rest r sends read fits k h. send-Affords budget u step rest r sends read (
        k (
          fits.core,
          gpu_within_cap budget.max_gpu_hours u.gpu_hours r.est_gpu_hours r.is_gpu h.1 fits.gpu,
        ));
  }

-- Where the core and GPU hours used so far are at most their caps, they are so with the estimates of
-- every submission of the plan added; GPU hours count for GPU jobs only. Hours or a cap that are nan
-- count as covered, before and after.
pub next_actions-IsCovered :
    (p : Pydantic) (agenda : AgendaGroup) (states : Dict String) (budget : Budget)
    (usage : BudgetUsage) (steps : List PlanStep)
    → IsCovered budget.max_core_hours usage.core_hours
    → IsCovered budget.max_gpu_hours usage.gpu_hours
    → next_actions p agenda states budget usage ≡ some steps
    → IsCovered budget.max_core_hours (spent p core_charge steps usage.core_hours)
      × IsCovered budget.max_gpu_hours (spent p gpu_charge steps usage.gpu_hours)
unfolding next_actions
next_actions-IsCovered p agenda states budget usage steps core gpu h =
    let effective = apply_states agenda states in
    let running = record usage { jobs_running = jobs_in_flight effective } in
    let ((steps', final), e, same) =
      and_then-eq-some (plan_leaves p (index_of effective) budget (simulations effective) running) _
        h in
    let e' : steps' ≡ steps = cc in
    rw (← e') (
      plan_leaves-Rule p (index_of effective) budget (Keeps p budget) (keeps p budget)
        (simulations effective) running steps' final e (core, gpu))
