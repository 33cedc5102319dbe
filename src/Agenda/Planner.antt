-- ===== src/Agenda/Planner.antt =====
-- src/pic_agentic/agenda/planner.py: the next action of every leaf. Pydantic's coercion of numbers and
-- booleans and the text of a budget error are parameters; `none` stands for the `ValidationError` of
-- a malformed resource request.
pub mod Dependencies
pub mod Caps
pub mod Hours
pub mod Steps
use pic_agentic.Common.{
  ℕ, ◌+◌, String, ◌≡◌, refl, Bool, true, false, not, Option, none, some, List, [], ◌∷◌, ◌++◌, ◌&&◌,
  ◌||◌, str_eq, concat, join, count_if, split_char, last_part, if◌then◌else◌,
}
use pic_agentic.Common.Dict
use pic_agentic.Common.Dict.{Dict}
use pic_agentic.Common.Float.{Float, zero_f, add, sub, clamp}
use pic_agentic.Common.Value.{Value, null, str, dict, Fields, get_field}
use pic_agentic.Agenda.Model.{
  Status, planned, submitted, running, done, failed, AgendaSim, Entry, sim, group, Entries,
  no_entries, entry, AgendaGroup, Leaf, get_entry, join_path, simulations, for_leaves,
}
use pic_agentic.Agenda.Budget.{Budget, BudgetUsage, ResourceRequest, Breach, check_admission}

pub record Pydantic : Type 0 where
  pub float_of : Value → Option Float
  pub bool_of : Value → Option Bool
  pub message : Breach → String

abbrev pub and_then {ℓ κ} : {A : Type ℓ} {B : Type κ} → Option A → (A → Option B) → Option B
and_then none f = none
and_then (some a) f = f a

-- A chain that succeeds has succeeded at its first link.
pub and_then-eq-some {ℓ κ} :
    {A : Type ℓ} {B : Type κ} (o : Option A) (f : A → Option B) {b : B}
    → and_then o f ≡ some b
    → (a : A) × (o ≡ some a) × (f a ≡ some b)
and_then-eq-some none f h = cc
and_then-eq-some (some a) f h = (a, refl, h)

-- `SIMULATION_STATE_STATUS.get(state)`
unfoldable pub state_status : String → Option Status
state_status state =
    if str_eq state "accepted" || str_eq state "simulation.submitted"
    then some submitted
    else if str_eq state "simulation.job_running"
        || str_eq state "simulation.step_finished"
        || str_eq state "workflow.finished"
        || str_eq state "simulation.checkpoint"
    then some running
    else if str_eq state "results.ready" || str_eq state "simulation.job_finished"
    then some done
    else if str_eq state "simulation.job_failed"
        || str_eq state "simulation.failed"
        || str_eq state "simulation.cancelled"
    then some failed
    else none

pub data PlanAction : Type 0 where
  submit wait mark_done mark_failed : PlanAction

pub record PlanStep : Type 0 where
  pub name : String
  pub path : String
  pub spec : Fields
  pub point : Option Fields
  pub action : PlanAction
  pub reason : Option String

-- The value of one resource key: under `resources` first, then at the top level.
abbrev nested_value : String → Fields → Option Value → Option Value
nested_value key spec (some (dict nested)) = elim (get_field key nested) [
  | some v ↦ some v
  | none ↦ get_field key spec
]
nested_value key spec _ = get_field key spec

unfoldable pub resource_value : String → Fields → Option Value
resource_value key spec = nested_value key spec (get_field "resources" spec)

abbrev partition_of : Option Value → Option (Option String)
partition_of none = some none
partition_of (some null) = some none
partition_of (some (str s)) = some (some s)
partition_of _ = none

-- A field that is absent has its default.
abbrev field_or {ℓ} : {A : Type ℓ} → (Value → Option A) → A → Option Value → Option A
field_or read default none = some default
field_or read default (some v) = read v

unfoldable pub resource_request_from_spec : Pydantic → Fields → Option ResourceRequest
resource_request_from_spec p spec =
    and_then (field_or p.float_of zero_f (resource_value "est_core_hours" spec)) λ core.
      and_then (field_or p.float_of zero_f (resource_value "est_gpu_hours" spec)) λ gpu.
        and_then (partition_of (resource_value "partition" spec)) λ partition.
          and_then (field_or p.bool_of false (resource_value "is_gpu" spec)) λ is_gpu.
            some (record {
              est_core_hours = core;
              est_gpu_hours = gpu;
              partition = partition;
              is_gpu = is_gpu;
            })

pub record Index : Type 0 where
  pub paths : Dict Entry
  pub parents : Dict Entries

-- `_index_entries`: every entry by its path, and the entries of the group that holds it.
unfoldable mutual
  pub index_entry : String → Entry → Index → Index
  index_entry path (sim s) index = index
  index_entry path (group info es) index = index_entries es path es index

  pub index_entries : Entries → String → Entries → Index → Index
  index_entries parent prefix no_entries index = index
  index_entries parent prefix (entry name e rest) index =
      let path = join_path prefix name in
      let here : Index = record {
        paths = Dict.put path e index.paths;
        parents = Dict.put path parent index.parents;
      } in
      index_entries parent prefix rest (index_entry path e here)

abbrev pub index_of : AgendaGroup → Index
index_of agenda =
    index_entries agenda.entries "" agenda.entries (record { paths = []; parents = [] })

abbrev pub is_done : Status → Bool
is_done done = true
is_done _ = false

abbrev pub is_failed : Status → Bool
is_failed failed = true
is_failed _ = false

abbrev pub in_flight : Status → Bool
in_flight submitted = true
in_flight running = true
in_flight _ = false

unfoldable mutual
  pub subtree_done : Entry → Bool
  subtree_done (sim s) = is_done s.status
  subtree_done (group info es) = subtrees_done es

  pub subtrees_done : Entries → Bool
  subtrees_done no_entries = true
  subtrees_done (entry name e rest) = subtree_done e && subtrees_done rest

unfoldable mutual
  pub subtree_failed : Entry → Bool
  subtree_failed (sim s) = is_failed s.status
  subtree_failed (group info es) = any_failed es

  pub any_failed : Entries → Bool
  any_failed no_entries = false
  any_failed (entry name e rest) = subtree_failed e || any_failed rest

abbrev sibling : String → Option Entries → Option Entry
sibling name none = none
sibling name (some parent) = get_entry name parent

abbrev or_else {ℓ} : {A : Type ℓ} → Option A → Option A → Option A
or_else (some a) b = some a
or_else none b = b

-- A sibling first, then a full path, then a sibling named like the last segment.
unfoldable pub resolve_dependency : String → Option Entries → Dict Entry → Option Entry
resolve_dependency dep parent paths =
    or_else (sibling dep parent)
      (or_else (Dict.get dep paths) (sibling (last_part (split_char b'/' dep)) parent))

abbrev pub fold_status : Dict String → String → AgendaSim → Option Status → AgendaSim
fold_status states path s none = s
fold_status states path s (some status) = record s { status = status }

-- `states.get(path, "")`
abbrev pub state_at : String → Dict String → String
state_at path states = elim (Dict.get path states) [ none ↦ "" | some state ↦ state ]

unfoldable pub apply_state : Dict String → String → AgendaSim → Unit {0} → AgendaSim × Unit {0}
apply_state states path s _ = (fold_status states path s (state_status (state_at path states)), tt)

unfoldable pub apply_states : AgendaGroup → Dict String → AgendaGroup
apply_states agenda states = (for_leaves (apply_state states) agenda tt).0

-- What a dependency means for its successor: none that is failed, none that is unmet.
pub data Dependency : Type 0 where
  met unmet blocked : Dependency

unfoldable pub judge : Option Entry → Dependency
judge none = unmet
judge (some e) = if subtree_failed e then blocked else if subtree_done e then met else unmet

unfoldable pub dependency : Option Entries → Dict Entry → String → Dependency
dependency parent paths dep = judge (resolve_dependency dep parent paths)

abbrev pub is_unmet : Dependency → Bool
is_unmet unmet = true
is_unmet _ = false

abbrev pub is_blocked : Dependency → Bool
is_blocked blocked = true
is_blocked _ = false

-- The lists `unmet` and `blocked`.
unfoldable pub select : (String → Bool) → List String → List String
select test [] = []
select test (d ∷ ds) = let rest = select test ds in if test d then d ∷ rest else rest

abbrev pub base_step : AgendaSim → String → PlanStep
base_step s path = record {
  name = s.name;
  path = path;
  spec = s.spec;
  point = s.point;
  action = wait;
  reason = none;
}

abbrev pub waiting : PlanStep → String → PlanStep
waiting step reason = record step { reason = some reason }

module _ (p : Pydantic) where
  -- The gate of a leaf whose dependencies are met: a breach makes it wait with the message.
  abbrev pub admit : PlanStep → Option Breach → PlanStep
  admit base none = record base { action = submit }
  admit base (some breach) = waiting base (p.message breach)

  unfoldable pub plan_ready : Budget → BudgetUsage → PlanStep → Option PlanStep
  plan_ready budget usage base =
      and_then (resource_request_from_spec p base.spec)
        (λ request. some (admit base (check_admission budget usage request)))

  -- A planned leaf, by the names of its blocked and of its unmet dependencies.
  unfoldable pub plan_planned :
      Budget → BudgetUsage → PlanStep → List String → List String → Option PlanStep
  plan_planned budget usage base (b ∷ bs) unmet_names = some (record base {
    action = mark_failed;
    reason = some (concat "dependency failed: " (join ", " (b ∷ bs)));
  })
  plan_planned budget usage base [] (u ∷ us) =
      some (waiting base (concat "dependency not done: " (join ", " (u ∷ us))))
  plan_planned budget usage base [] [] = plan_ready budget usage base

  abbrev pub plan_status :
      Budget → BudgetUsage → PlanStep → List String → List String → Status → Option PlanStep
  plan_status budget usage base blocked_names unmet_names done =
      some (record base { action = mark_done })
  plan_status budget usage base blocked_names unmet_names failed =
      some (record base { action = mark_failed })
  plan_status budget usage base blocked_names unmet_names submitted =
      some (waiting base "already submitted")
  plan_status budget usage base blocked_names unmet_names running =
      some (waiting base "already running")
  plan_status budget usage base blocked_names unmet_names planned =
      plan_planned budget usage base blocked_names unmet_names

  -- `_plan_leaf`
  unfoldable pub plan_leaf :
      AgendaSim → String → Option Entries → Dict Entry → Budget → BudgetUsage → Option PlanStep
  plan_leaf s path parent paths budget usage =
      plan_status budget usage (base_step s path)
        (select (λ d. is_blocked (dependency parent paths d)) s.depends_on)
        (select (λ d. is_unmet (dependency parent paths d)) s.depends_on) s.status

-- `account`: the cost of one submission.
unfoldable pub account : BudgetUsage → Float → Float → Bool → BudgetUsage
account usage core_hours gpu_hours is_gpu = record usage {
  core_hours = add usage.core_hours core_hours;
  gpu_hours = add usage.gpu_hours (if is_gpu then gpu_hours else zero_f);
  jobs_submitted = usage.jobs_submitted + 1;
}

-- `used + actual - estimated`, in the order of the augmented assignment
abbrev pub corrected : Float → Float → Option Float → Float
corrected used estimated none = used
corrected used estimated (some actual) = add used (sub actual estimated)

-- `reconcile`: an estimate is replaced by the actual cost, clamped at zero.
unfoldable pub reconcile :
    BudgetUsage → Float → Option Float → Float → Option Float → Bool → BudgetUsage
reconcile usage estimated_core actual_core estimated_gpu actual_gpu is_gpu = record usage {
  core_hours = clamp (corrected usage.core_hours estimated_core actual_core);
  gpu_hours =
      clamp
        (if is_gpu then corrected usage.gpu_hours estimated_gpu actual_gpu else usage.gpu_hours);
}

-- `sum(1 for _, sim in agenda.simulations() if sim.status in {"submitted", "running"})`
unfoldable pub jobs_in_flight : AgendaGroup → ℕ
jobs_in_flight agenda = count_if (λ (leaf : Leaf). in_flight leaf.1.status) (simulations agenda)

module _ (p : Pydantic) where
  abbrev pub accrue_request : BudgetUsage → ResourceRequest → BudgetUsage
  accrue_request usage request =
      let accounted = account usage request.est_core_hours request.est_gpu_hours request.is_gpu in
      record accounted { jobs_running = accounted.jobs_running + 1 }

  -- The running usage behind one step.
  unfoldable pub accrue : BudgetUsage → PlanStep → PlanAction → Option BudgetUsage
  accrue usage step submit =
      and_then (resource_request_from_spec p step.spec) (λ r. some (accrue_request usage r))
  accrue usage step _ = some usage

  -- The body of the loop of `next_actions`: the steps, and the running usage behind them.
  unfoldable pub plan_leaves :
      Index → Budget → List Leaf → BudgetUsage → Option (List PlanStep × BudgetUsage)
  plan_leaves index budget [] usage = some ([], usage)
  plan_leaves index budget ((path, s) ∷ leaves) usage =
      and_then (plan_leaf p s path (Dict.get path index.parents) index.paths budget usage) λ step.
        and_then (accrue usage step step.action) λ usage'.
          and_then (plan_leaves index budget leaves usage') λ rest. some (step ∷ rest.0, rest.1)

  unfoldable pub next_actions :
      AgendaGroup → Dict String → Budget → BudgetUsage → Option (List PlanStep)
  next_actions agenda states budget usage =
      let effective = apply_states agenda states in
      let running = record usage { jobs_running = jobs_in_flight effective } in
      and_then (plan_leaves (index_of effective) budget (simulations effective) running)
        (λ r. some r.0)
