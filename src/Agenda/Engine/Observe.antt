-- ===== src/Agenda/Engine/Observe.antt =====
-- src/pic_agentic/agenda/engine.py: how a tick folds what it observes into the campaign, before it
-- submits anything.
pub mod Reusing
pub mod Callbacks
use pic_agentic.Common.{
  ℕ, String, Bool, true, false, not, Option, none, some, List, [], ◌∷◌, ◌++◌, map, ◌&&◌, ◌||◌,
  str_eq, is_empty, if◌then◌else◌,
}
use pic_agentic.Common.Dict
use pic_agentic.Common.Dict.{Dict}
use pic_agentic.Common.Float.{Float}
use pic_agentic.Agenda.Model.{
  Status, planned, submitted, running, done, failed, AgendaSim, AgendaGroup, Leaf, simulations,
  for_leaves,
}
use pic_agentic.Agenda.Budget.{Budget, BudgetUsage}
use pic_agentic.Agenda.Planner.{
  PlanStep, PlanAction, mark_done, mark_failed, and_then, reconcile, apply_states, next_actions,
  jobs_in_flight,
}
use pic_agentic.Agenda.Addressing.{leaf_at, set_leaf}
use pic_agentic.Agenda.Campaign.{
  Callback, CallbackKind, done_callback, failed_callback, Campaign, truthy,
}
use pic_agentic.Agenda.Engine.{ActualUsage, FailureInfo, SuspectInfo, Reusable, Engine, looked_up}
use pic_agentic.Agenda.Engine.Hashing.{key_of, idempotency_key}

abbrev pub get_id {ℓ} : {V : Type ℓ} → Option String → Dict V → Option V
get_id none d = none
get_id (some k) d = Dict.get k d

abbrev pub is_terminal : Status → Bool
is_terminal done = true
is_terminal failed = true
is_terminal _ = false

abbrev pub is_planned : Status → Bool
is_planned planned = true
is_planned _ = false

-- `{sim.sim_id: path for path, sim in leaves if sim.sim_id}`
unfoldable pub by_sim : List Leaf → Dict String → Dict String
by_sim [] d = d
by_sim ((path, s) ∷ leaves) d =
    by_sim leaves
      (elim s.sim_id [ none ↦ d | some id ↦ if is_empty id then d else Dict.put id path d ])

-- `{by_sim[sim_id]: state for sim_id, state in observed.items() if sim_id in by_sim}`
unfoldable pub path_states : Dict String → Dict String → Dict String → Dict String
path_states paths [] d = d
path_states paths ((id, state) ∷ observed) d =
    path_states paths observed
      (elim (Dict.get id paths) [ none ↦ d | some path ↦ Dict.put path state d ])

-- One leaf of `_apply_reuse`.
abbrev pub reuse_record : AgendaSim → Reusable → AgendaSim
reuse_record s r = record s {
  sim_id = some r.sim_id;
  run_id = r.run_id;
  status = done;
  reused = true;
}

unfoldable pub reuse_leaf :
    (AgendaSim → Option Reusable) → String → AgendaSim → List String → AgendaSim × List String
reuse_leaf find path s reused =
    let found : AgendaSim × List String = elim (find s) [
      | none ↦ (s, reused)
      | some r ↦ (reuse_record s r, reused ++ path ∷ [])
    ] in
    if is_planned s.status then found else (s, reused)

-- One leaf of `_reconcile_actuals`.
unfoldable pub reconcile_leaf :
    Dict ActualUsage → String → AgendaSim → BudgetUsage → AgendaSim × BudgetUsage
reconcile_leaf actuals path s usage =
    let known : AgendaSim × BudgetUsage = elim (get_id s.sim_id actuals) [
      | none ↦ (s, usage)
      | some actual ↦ (
        record s {
          actual_core_hours = some actual.core_hours;
          actual_gpu_hours = some actual.gpu_hours;
        },
        reconcile usage s.estimated_core_hours (some actual.core_hours) s.estimated_gpu_hours
            (some actual.gpu_hours) s.is_gpu,
      )
    ] in
    let unknown : Bool = elim s.actual_core_hours [ none ↦ true | some hours ↦ false ] in
    if not s.reused && is_terminal s.status && unknown && truthy s.sim_id then known else (s, usage)

abbrev pub new_callback : String → String → CallbackKind → Option String → Callback
new_callback ts path kind sim_id = record {
  path = path;
  kind = kind;
  sim_id = sim_id;
  ts = some ts;
  error = none;
  error_code = none;
  stage = none;
  suspect = none;
}

-- What `_emit_callbacks` has gathered.
pub record Emitted : Type 0 where
  pub callbacks : List Callback
  pub suspects : Dict String

abbrev pub warning_of : Option SuspectInfo → Option String
warning_of none = none
warning_of (some info) = some info.warning

abbrev pub same_status : Option Status → Status → Bool
same_status (some planned) planned = true
same_status (some submitted) submitted = true
same_status (some running) running = true
same_status (some done) done = true
same_status (some failed) failed = true
same_status _ _ = false

-- The leaf with a warning about an empty success, and the warning by path.
abbrev pub warn_leaf : String → AgendaSim → Option String → Emitted → AgendaSim × Emitted
warn_leaf path s none out = (s, out)
warn_leaf path s (some warning) out = (
  record s { suspect = some warning },
  record out { suspects = Dict.put path warning out.suspects },
)

-- The leaf and the callback of a new failure, with its reason if one is known.
abbrev pub fail_leaf : String → String → AgendaSim → Option FailureInfo → AgendaSim × Callback
fail_leaf ts path s none = (s, new_callback ts path failed_callback s.sim_id)
fail_leaf ts path s (some info) = (
  record s { error = info.error; error_code = info.error_code; stage = info.stage },
  record (new_callback ts path failed_callback s.sim_id) {
    error = info.error;
    error_code = info.error_code;
    stage = info.stage;
  },
)

-- `failures.get(sim.sim_id) if sim.sim_id else None`
abbrev pub failure_of : Dict FailureInfo → AgendaSim → Option FailureInfo
failure_of failures s = if truthy s.sim_id then get_id s.sim_id failures else none

abbrev pub with_callback : Emitted → Callback → Emitted
with_callback out c = record out { callbacks = out.callbacks ++ c ∷ [] }

-- One leaf of `_emit_callbacks`, by the leaf's status.
unfoldable pub emit_status :
    String
    → Bool
    → Dict FailureInfo
    → Option String
    → String
    → AgendaSim
    → Emitted
    → Status
    → AgendaSim × Emitted
emit_status ts seen failures warning path s out done =
    let (s', out') = warn_leaf path s warning out in
    let callback = record (new_callback ts path done_callback s.sim_id) { suspect = warning } in
    if seen then (s', out') else (s', with_callback out' callback)
emit_status ts seen failures warning path s out failed =
    let (s', callback) = fail_leaf ts path s (failure_of failures s) in
    if seen then (s, out) else (s', with_callback out callback)
emit_status ts seen failures warning path s out _ = (s, out)

unfoldable pub emit_leaf :
    String
    → Dict Status
    → Dict FailureInfo
    → Dict SuspectInfo
    → String
    → AgendaSim
    → Emitted
    → AgendaSim × Emitted
emit_leaf ts before failures suspects path s out =
    emit_status ts (same_status (Dict.get path before) s.status) failures
      (warning_of (get_id s.sim_id suspects)) path s out s.status

-- `{path: sim.status for path, sim in campaign.agenda.simulations()}`
unfoldable pub statuses : List Leaf → Dict Status → Dict Status
statuses [] d = d
statuses ((path, s) ∷ leaves) d = statuses leaves (Dict.put path s.status d)

-- A tick that raises: a `DuplicateSpecError` between two paths, or a `ValidationError`.
pub data Fault : Type 0 where
  duplicate : String → String → Fault
  validation : Fault

-- What `_plan` returns.
pub record Planned : Type 0 where
  pub campaign : Campaign
  pub steps : List PlanStep
  pub reused : List String

module _ (e : Engine) where
  -- `_apply_reuse`
  unfoldable pub apply_reuse : AgendaGroup → AgendaGroup × List String
  apply_reuse agenda = elim e.reuse_lookup [
    | none ↦ (agenda, [])
    | some find ↦ for_leaves (reuse_leaf (λ s. find (key_of e s.spec s.point))) agenda []
  ]

  -- `_reconcile_actuals`
  unfoldable pub reconcile_actuals : AgendaGroup → BudgetUsage → AgendaGroup × BudgetUsage
  reconcile_actuals agenda usage = elim e.actuals [
    | some (some actuals) ↦ for_leaves (reconcile_leaf actuals) agenda usage
    | _ ↦ (agenda, usage)
  ]

  -- `_emit_callbacks`
  unfoldable pub emit_callbacks :
      Campaign → Dict Status → Dict FailureInfo → Dict SuspectInfo → Campaign × Emitted
  emit_callbacks c before failures suspects =
      let (agenda, out) =
        for_leaves (emit_leaf e.utc_now_iso before failures suspects) c.agenda
          (record { callbacks = []; suspects = [] }) in
      (record c { agenda = agenda; callbacks = c.callbacks ++ out.callbacks }, out)

  -- `_plan`: `none` is the `ValidationError` of a resource request.
  unfoldable pub plan : Campaign → Budget → Option Planned
  plan c budget =
      let paths = by_sim (simulations c.agenda) [] in
      let folded = apply_states c.agenda (path_states paths e.observed []) in
      let (linked, reused) = apply_reuse folded in
      let counted = record c.usage { jobs_running = jobs_in_flight linked } in
      let (agenda, usage) = reconcile_actuals linked counted in
      and_then (next_actions e.pydantic agenda [] budget usage) λ steps. some (record {
        campaign = record c { agenda = agenda; usage = usage };
        steps = steps;
        reused = reused;
      })

  -- The leaf and its callback, where the planner decided that the leaf is finished.
  abbrev pub settle :
      Campaign
      → String
      → Status
      → CallbackKind
      → Option String
      → AgendaSim
      → Campaign × Option Callback
  settle c path status kind reason leaf =
      let callback = record (new_callback e.utc_now_iso path kind leaf.sim_id) { error = reason } in
      let stamp = λ (s : AgendaSim). record s {
        status = status;
        error = elim reason [ none ↦ s.error | some r ↦ some r ];
      } in
      (
        record c {
          agenda = set_leaf c.agenda path stamp;
          callbacks = c.callbacks ++ callback ∷ [];
        },
        some callback,
      )

  -- `action == "failed" and reason`: an empty reason counts as none
  abbrev pub reason_of : Option String → Option String
  reason_of reason = if truthy reason then reason else none

  abbrev pub settle_at :
      Campaign
      → String
      → Status
      → CallbackKind
      → Option String
      → Option AgendaSim
      → Campaign × Option Callback
  settle_at c path status kind reason none = (c, none)
  settle_at c path status kind reason (some leaf) =
      if is_terminal leaf.status then (c, none) else settle c path status kind reason leaf

  -- `_persist_terminal`
  unfoldable pub persist_terminal :
      Campaign → String → PlanAction → Option String → Campaign × Option Callback
  persist_terminal c path mark_failed reason =
      settle_at c path failed failed_callback (reason_of reason) (leaf_at c.agenda path)
  persist_terminal c path mark_done reason =
      settle_at c path done done_callback none (leaf_at c.agenda path)
  persist_terminal c path _ reason = (c, none)

-- `sim.sim_id == id`, for an id that is not empty
abbrev pub has_id : String → Option String → Bool
has_id id none = false
has_id id (some other) = not (is_empty other) && str_eq other id

-- What `_record_reuse` offers to the registry: key, simulation id and run id.
pub record Offer : Type 0 where
  pub key : String
  pub sim_id : String
  pub run_id : String

-- `by_sim[sim_id]`: the last leaf with that id.
unfoldable pub leaf_by_sim : String → List Leaf → Option Leaf
leaf_by_sim id [] = none
leaf_by_sim id ((path, s) ∷ leaves) = elim (leaf_by_sim id leaves) [
  | some later ↦ some later
  | none ↦ if has_id id s.sim_id then some (path, s) else none
]

module _ (e : Engine) where
  abbrev pub offer_leaf : Campaign → Dict Status → String → Option Leaf → List Offer
  offer_leaf c before id none = []
  offer_leaf c before id (some (path, s)) =
      if s.reused || same_status (Dict.get path before) done
      then []
      else record {
        key = key_of e s.spec s.point;
        sim_id = id;
        run_id = idempotency_key e c path s.spec;
      }
        ∷ []

  abbrev pub offer_state : Campaign → Dict Status → String × String → List Offer
  offer_state c before (id, state) =
      if str_eq state "results.ready"
      then offer_leaf c before id (leaf_by_sim id (simulations c.agenda))
      else []

  unfoldable pub offers : Campaign → Dict Status → Dict String → List Offer
  offers c before [] = []
  offers c before (item ∷ observed) = offer_state c before item ++ offers c before observed

  -- `_record_reuse`: the records that are offered; a registry that fails is ignored.
  unfoldable pub record_reuse : Campaign → Dict Status → List Offer
  record_reuse c before = if e.records_reuse then offers c before e.observed else []
