-- ===== src/Agenda/Planner/Steps.antt =====
-- src/pic_agentic/agenda/planner.py: the steps of a plan and the leaves of the agenda.
use pic_agentic.Common.{
  String, ◌≡◌, refl, ◌∙◌, ap, ap₂, Option, some, List, [], ◌∷◌, arith, map, inl, inr, Option-cases,
}
use pic_agentic.Common.Dict
use pic_agentic.Common.Dict.{Dict}
use pic_agentic.Agenda.Model.{
  Status, planned, submitted, running, done, failed, AgendaSim, Entry, Entries, AgendaGroup, Leaf,
  simulations,
}
use pic_agentic.Agenda.Model.Leaves.{visit_list, simulations-for_leaves}
use pic_agentic.Agenda.Budget.{Budget, BudgetUsage, check_admission}
use pic_agentic.Agenda.Planner.{
  Pydantic, PlanStep, resource_request_from_spec, Index, base_step, plan_ready, plan_planned,
  plan_status, plan_leaf, plan_leaves, accrue, index_of, jobs_in_flight, apply_state, apply_states,
  next_actions, and_then-eq-some,
}

abbrev pub step_paths : List PlanStep → List String
step_paths steps = map (λ (step : PlanStep). step.path) steps

abbrev pub leaf_paths : List Leaf → List String
leaf_paths leaves = map (λ (leaf : Leaf). leaf.0) leaves

-- The path and the spec of a step are those of its leaf.
abbrev pub IsFor : PlanStep → PlanStep → Type 0
IsFor step base = (step.path ≡ base.path) × (step.spec ≡ base.spec)

module _ (p : Pydantic) (budget : Budget) (usage : BudgetUsage) (base : PlanStep) where
  plan_ready-IsFor :
      (step : PlanStep) → plan_ready p budget usage base ≡ some step → IsFor step base
  unfolding plan_ready
  plan_ready-IsFor step h =
      let (r, read, e) = and_then-eq-some (resource_request_from_spec p base.spec) _ h in
      elim (Option-cases (check_admission budget usage r)) [
        | inl admitted ↦ (ground (arith, admitted), ground (arith, admitted))
        | inr (breach, refused) ↦ (ground (arith, refused), ground (arith, refused))
      ]

  plan_planned-IsFor :
      (step : PlanStep) (bs us : List String)
      → plan_planned p budget usage base bs us ≡ some step
      → IsFor step base
  unfolding plan_planned
  plan_planned-IsFor step (b ∷ bs) us h = (cc, cc)
  plan_planned-IsFor step [] (u ∷ us) h = (cc, cc)
  plan_planned-IsFor step [] [] h = plan_ready-IsFor step h

  pub plan_status-IsFor :
      (step : PlanStep) (bs us : List String) (status : Status)
      → plan_status p budget usage base bs us status ≡ some step
      → IsFor step base
  plan_status-IsFor step bs us planned h = plan_planned-IsFor step bs us h
  plan_status-IsFor step bs us submitted h = (cc, cc)
  plan_status-IsFor step bs us running h = (cc, cc)
  plan_status-IsFor step bs us done h = (cc, cc)
  plan_status-IsFor step bs us failed h = (cc, cc)

module _ (p : Pydantic) where
  pub plan_leaf-IsFor :
      (s : AgendaSim) (path : String) (parent : Option Entries) (paths : Dict Entry)
      (budget : Budget) (usage : BudgetUsage) (step : PlanStep)
      → plan_leaf p s path parent paths budget usage ≡ some step
      → IsFor step (base_step s path)
  unfolding plan_leaf
  plan_leaf-IsFor s path parent paths budget usage step h =
      plan_status-IsFor p budget usage (base_step s path) step _ _ s.status h

  -- What a successful pass over one leaf and the rest is made of.
  pub record Split (index : Index) (budget : Budget) (path : String) (s : AgendaSim)
      (leaves : List Leaf) (usage : BudgetUsage) (steps : List PlanStep) (final : BudgetUsage)
      : Type 0 where
    pub step : PlanStep
    pub usage' : BudgetUsage
    pub rest : List PlanStep
    pub planned_ :
        plan_leaf p s path (Dict.get path index.parents) index.paths budget usage ≡ some step
    pub accrued : accrue p usage step step.action ≡ some usage'
    pub others : plan_leaves p index budget leaves usage' ≡ some (rest, final)
    pub whole : steps ≡ step ∷ rest

  pub plan_leaves-Split :
      (index : Index) (budget : Budget) (path : String) (s : AgendaSim) (leaves : List Leaf)
      (usage : BudgetUsage) (steps : List PlanStep) (final : BudgetUsage)
      → plan_leaves p index budget ((path, s) ∷ leaves) usage ≡ some (steps, final)
      → Split index budget path s leaves usage steps final
  unfolding plan_leaves
  plan_leaves-Split index budget path s leaves usage steps final h =
      let (step, a, h₁) =
        and_then-eq-some (plan_leaf p s path (Dict.get path index.parents) index.paths budget usage)
          _ h in
      let (usage', b, h₂) = and_then-eq-some (accrue p usage step step.action) _ h₁ in
      let (rest, c, h₃) = and_then-eq-some (plan_leaves p index budget leaves usage') _ h₂ in
      record {
        step = step;
        usage' = usage';
        rest = rest.0;
        planned_ = a;
        accrued = b;
        others = cc;
        whole = cc;
      }

  plan_leaves-paths :
      (index : Index) (budget : Budget) (leaves : List Leaf) (usage : BudgetUsage)
      (steps : List PlanStep) (final : BudgetUsage)
      → plan_leaves p index budget leaves usage ≡ some (steps, final)
      → step_paths steps ≡ leaf_paths leaves
  unfolding plan_leaves
  plan_leaves-paths index budget [] usage steps final h = let e : steps ≡ [] = cc in rw e
  plan_leaves-paths index budget ((path, s) ∷ leaves) usage steps final h =
      let split = plan_leaves-Split index budget path s leaves usage steps final h in
      rw split.whole (
        ap₂ ◌∷◌
          (plan_leaf-IsFor s path (Dict.get path index.parents) index.paths budget usage split.step
            split.planned_).0
          (plan_leaves-paths index budget leaves split.usage' split.rest final split.others))

visit_paths :
    (states : Dict String) (leaves : List Leaf) (st : Unit {0})
    → leaf_paths (visit_list (apply_state states) leaves st).0 ≡ leaf_paths leaves
visit_paths states [] st = refl
visit_paths states ((path, s) ∷ leaves) st =
    ap (λ l. path ∷ l) (visit_paths states leaves (apply_state states path s st).1)

pub leaf_paths-apply_states :
    (agenda : AgendaGroup) (states : Dict String)
    → leaf_paths (simulations (apply_states agenda states)) ≡ leaf_paths (simulations agenda)
unfolding apply_states
leaf_paths-apply_states agenda states =
    ap leaf_paths (simulations-for_leaves (apply_state states) agenda tt).0
    ∙ visit_paths states (simulations agenda) tt

-- A plan has exactly one step for each leaf, in the order of the leaves.
pub next_actions-paths :
    (p : Pydantic) (agenda : AgendaGroup) (states : Dict String) (budget : Budget)
    (usage : BudgetUsage) (steps : List PlanStep)
    → next_actions p agenda states budget usage ≡ some steps
    → step_paths steps ≡ leaf_paths (simulations agenda)
unfolding next_actions
next_actions-paths p agenda states budget usage steps h =
    let ((steps', final), e, same) =
      and_then-eq-some
        (plan_leaves p (index_of (apply_states agenda states)) budget
          (simulations (apply_states agenda states))
          (record usage { jobs_running = jobs_in_flight (apply_states agenda states) }))
        _ h in
    let e' : steps' ≡ steps = cc in
    rw (← e')
      (plan_leaves-paths p _ budget _ _ steps' final e ∙ leaf_paths-apply_states agenda states)
