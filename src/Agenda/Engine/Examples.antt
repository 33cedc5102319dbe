-- ===== src/Agenda/Engine/Examples.antt =====
-- A small campaign for src/pic_agentic/agenda/engine.py.
use pic_agentic.Common.{
  ℕ, ◌+◌, ◌-◌, ◌≤◌, ◌<◌, String, ◌≡◌, ◌≢◌, refl, ◌↔◌, ◌⊎◌, Bool, true, false, not, Option, none,
  some, List, [], ◌∷◌, ◌++◌, map, arith, All, all, length, str_eq, elem, is_empty, concat,
  contains_char, char_count, count_if,
}
use pic_agentic.Common.Dict
use pic_agentic.Common.Dict.{Dict}
use pic_agentic.Common.Float.{ℤ, pos, Float, fin, zero_f}
use pic_agentic.Common.Value.{Value, str, int, dict, Fields, end, field}
use pic_agentic.Agenda.Model.{
  Status, planned, done, failed, AgendaSim, GroupInfo, Entry, sim, group, Entries, no_entries,
  entry, AgendaGroup, Leaf, simulations, walk_leaves, validate_entry_name,
}
use pic_agentic.Agenda.Model.Expand.{new_sim}
use pic_agentic.Agenda.Addressing.{leaf_at}
use pic_agentic.Agenda.Addressing.Names.{IsTidy}
use pic_agentic.Agenda.Budget.{Budget, BudgetUsage}
use pic_agentic.Agenda.Planner.{Pydantic, PlanStep, submit, mark_failed}
use pic_agentic.Agenda.Campaign.{
  CampaignState, active, paused, lifecycle, Campaign, Callback, failed_callback,
}
use pic_agentic.Agenda.Engine.{
  Engine, EnginePolicy, Outcome, acknowledged, transient, ActualUsage, Reusable, FailureInfo,
  SuspectInfo, TickResult,
}
use pic_agentic.Agenda.Engine.Hashing.{duplicate_specs, pending_leaves, with_sim_id}
use pic_agentic.Agenda.Engine.Hashing.CommandIds.{idempotency_key-injective}
use pic_agentic.Agenda.Engine.Hashing.Duplicates.{Apart, Pairwise, duplicate_specs-none_iff}
use pic_agentic.Agenda.Engine.Gates.{waiting, submission_block}
use pic_agentic.Agenda.Engine.Gates.Answers.{Answers, submission_block-Answers}
use pic_agentic.Agenda.Engine.Observe.{
  new_callback, Planned, plan, statuses, emit_callbacks, apply_reuse, reconcile_actuals,
}
use pic_agentic.Agenda.Engine.Observe.Callbacks.{
  brief, transitions, without_notes, emit_callbacks-transitions,
}
use pic_agentic.Agenda.Engine.Observe.Reusing.{
  apply_reuse-apply_reuse, reconcile_actuals-reconcile_actuals,
}
use pic_agentic.Agenda.Engine.Submit.{record_deferral}
use pic_agentic.Agenda.Engine.Submit.Deferral.{
  status_of, fail_at, record_deferral-retry, record_deferral-give_up,
}
use pic_agentic.Agenda.Engine.Run.{Loop, Ticked, run_steps, run_plan, submit_paths}
use pic_agentic.Agenda.Engine.Run.Limits.{run_steps-limit, run_steps-cap}
use pic_agentic.Agenda.Engine.Run.Ticks.{tick-limit, tick-held, tick-run_plan, created, budget_of}

abbrev pydantic : Pydantic
pydantic = record {
  float_of = λ v. some (fin (pos 5));
  bool_of = λ v. some false;
  message = λ b. "over budget";
}

abbrev spec_text : Fields → String
spec_text (field k (str s) rest) = concat k (concat "=" s)
spec_text _ = "spec"

abbrev engine : Engine
engine = record {
  pydantic = pydantic;
  budget_override = none;
  policy = record {
    max_submits_per_tick = 1;
    require_approval = false;
    approve_over_est_core_hours = none;
    deferred_outcome_timeout = 600;
  };
  approve = none;
  submit = λ spec key. acknowledged "s2";
  observed = ("s1", "simulation.failed") ∷ [];
  failures = none;
  suspects = none;
  actuals =
      some (
        some
          (("s1", record { core_hours = fin (pos 3); gpu_hours = zero_f; is_gpu = false }) ∷ []));
  reuse_lookup = some (λ key. some (record { sim_id = "s9"; run_id = none }));
  records_reuse = false;
  reuse_key = none;
  spec_hash = spec_text;
  digest = λ text. text;
  utc_now_iso = "2026-01-01T00:00:00Z";
  format_ts = λ now. "2026-01-01T00:00:00Z";
  parse_ts = λ text. some 1000;
  duplicate_message = λ path other. "duplicate payload";
  validation_message = "invalid request";
  decimal = λ n. "1";
  timeout_message = λ elapsed attempts code message. message;
}

abbrev broken : AgendaSim
broken = record (new_sim "broken" (field "sim" (str "a0=1") end) none none) {
  sim_id = some "s1";
  status = failed;
}

abbrev fresh : AgendaSim
fresh = new_sim "fresh" (field "sim" (str "a0=2") end) none none

abbrev lost_leaf : AgendaSim
lost_leaf = record fresh {
  name = "lost";
  sim_id = some "s3";
  deferred_attempts = 1;
  deferred_since = some "2026-01-01T00:00:00Z";
}

abbrev agenda : AgendaGroup
agenda = record {
  info = record { name = "scan"; sweep = none; depends_on = [] };
  entries =
      entry "broken" (sim broken)
        (entry "fresh" (sim fresh) (entry "lost" (sim lost_leaf) no_entries));
}

abbrev usage : BudgetUsage
usage = record {
  core_hours = fin (pos 7);
  gpu_hours = zero_f;
  jobs_submitted = 1;
  jobs_running = 0;
}

abbrev campaign : Campaign
campaign = record {
  name = "scan";
  agenda = agenda;
  budget = record {
    max_core_hours = none;
    max_gpu_hours = none;
    max_concurrent_jobs = some 2;
    max_total_jobs = none;
    allowed_partitions = none;
  };
  usage = usage;
  created_ts = none;
  callbacks = [];
  state = active;
  analyses = end;
  conclusion = none;
}

agenda-IsTidy : IsTidy agenda
unfolding validate_entry_name pic_agentic.Common.contains_char pic_agentic.Common.starts_with_char
    pic_agentic.Agenda.Model.get_entry
agenda-IsTidy = (refl, refl, tt, (refl, refl, tt, (refl, refl, tt, tt)))

abbrev paths : List String
paths = "fresh" ∷ "lost" ∷ []

duplicate_specs-none_iff_example : (duplicate_specs engine campaign paths ≡ none) ↔ (
    All
      (λ m. All (Apart engine m) (with_sim_id engine (simulations agenda)))
      (pending_leaves engine (simulations agenda) paths)
    × Pairwise (Apart engine) (pending_leaves engine (simulations agenda) paths))
duplicate_specs-none_iff_example = duplicate_specs-none_iff engine campaign paths

abbrev step_at : String → AgendaSim → PlanStep
step_at path s = record {
  name = s.name;
  path = path;
  spec = s.spec;
  point = s.point;
  action = submit;
  reason = none;
}

abbrev steps : List PlanStep
steps = step_at "fresh" fresh ∷ step_at "lost" lost_leaf ∷ []

abbrev result : TickResult
result = record {
  submitted = [];
  pending_approval = [];
  waiting = [];
  deferred = [];
  done = [];
  failed = [];
  reused = [];
  complete = false;
  usage = usage;
  callbacks = new_callback "2026-01-01T00:00:00Z" "broken" failed_callback (some "s1") ∷ [];
  failure_groups = [];
  failure_summary = none;
  suspects = [];
  state = lifecycle active;
  lifecycle = active;
  held = [];
}

abbrev loop : Loop
loop = record { campaign = campaign; result = result; in_flight = 0; saved = [] }

submission_block-Answers_example :
    Answers engine campaign
      (step_at "fresh" fresh)
      0
      2
      (some 2)
      (submission_block engine campaign "fresh" (step_at "fresh" fresh) result 2 (some 2))
submission_block-Answers_example =
    submission_block-Answers engine campaign (step_at "fresh" fresh) result 2 (some 2)

full_waits :
    submission_block engine campaign "fresh" (step_at "fresh" fresh) result 2 (some 2)
    ≡ some waiting
unfolding submission_block
full_waits = refl

-- An engine that loses every acknowledgement submits both leaves in one tick, although one is the limit.
abbrev losing_engine : Engine
losing_engine = record engine { submit = λ spec key. transient "no ack" none none 2000 }

abbrev other_leaf : AgendaSim
other_leaf = new_sim "other" (field "sim" (str "a0=3") end) none none

abbrev pair_loop : Loop
pair_loop = record loop {
  campaign = record campaign {
    agenda = record agenda {
      entries = entry "fresh" (sim fresh) (entry "other" (sim other_leaf) no_entries);
    };
  };
}

abbrev pair_steps : List PlanStep
pair_steps = step_at "fresh" fresh ∷ step_at "other" other_leaf ∷ []

deferred_beyond_limit :
    (run_steps losing_engine (some 2) pair_steps pair_loop).result.deferred ≡ "fresh" ∷ "other" ∷ []
unfolding run_steps pic_agentic.Agenda.Engine.Run.run_step submission_block
    pic_agentic.Agenda.Engine.Run.submit_step pic_agentic.Agenda.Engine.Submit.submit_one
    pic_agentic.Agenda.Engine.Gates.may_submit leaf_at pic_agentic.Common.split_char
    pic_agentic.Agenda.Model.get_entry pic_agentic.Agenda.Engine.Submit.do_submit
    pic_agentic.Agenda.Engine.Hashing.duplicate_spec pic_agentic.Agenda.Engine.Hashing.collision
    with_sim_id simulations walk_leaves pic_agentic.Agenda.Model.join_path
    pic_agentic.Agenda.Engine.Hashing.wire_hash pic_agentic.Agenda.Addressing.set_leaf
    pic_agentic.Agenda.Addressing.update_entries record_deferral
deferred_beyond_limit = refl

run_steps-limit_example :
    (length (run_steps engine (some 2) steps loop).result.submitted ≤ 1)
    × ((run_steps engine (some 2) steps loop).in_flight + 0
        ≡ 0 + length (run_steps engine (some 2) steps loop).result.submitted)
    × ((run_steps engine (some 2) steps loop).campaign.state ≡ active)
run_steps-limit_example = run_steps-limit engine (some 2) steps loop (omega arith)

run_steps-cap_example : length (run_steps engine (some 2) steps loop).result.submitted ≤ 0 + (2 - 0)
run_steps-cap_example = run_steps-cap engine 2 steps loop

emit_callbacks-transitions_example :
    (map brief (emit_callbacks engine campaign [] [] []).1.callbacks
      ≡ transitions [] (simulations agenda))
    × ((emit_callbacks engine campaign [] [] []).0.callbacks
        ≡ [] ++ (emit_callbacks engine campaign [] [] []).1.callbacks)
    × (map without_notes (simulations (emit_callbacks engine campaign [] [] []).0.agenda)
        ≡ map without_notes (simulations agenda))
emit_callbacks-transitions_example = emit_callbacks-transitions engine campaign [] [] []

lost_found : leaf_at agenda "lost" ≡ some lost_leaf
unfolding leaf_at pic_agentic.Common.split_char pic_agentic.Common.push_char
    pic_agentic.Agenda.Model.get_entry
lost_found = refl

abbrev deferral : ℕ → Campaign
deferral now = (record_deferral engine campaign "lost" "timed out" none none now).campaign

record_deferral-retry_example :
    (map status_of (simulations (deferral 1500).agenda) ≡ map status_of (simulations agenda))
    × ((record_deferral engine campaign "lost" "timed out" none none 1500).failure ≡ none)
    × ((deferral 1500).callbacks ≡ [])
record_deferral-retry_example =
    record_deferral-retry engine campaign "lost" "timed out" none none 1500 lost_leaf
      "2026-01-01T00:00:00Z" 1000 agenda-IsTidy lost_found refl refl refl (omega arith)

record_deferral-give_up_example :
    (map status_of (simulations (deferral 1600).agenda)
      ≡ map (fail_at "lost") (map status_of (simulations agenda)))
    × (b : Callback) × ((record_deferral engine campaign "lost" "timed out" none none 1600).failure
        ≡ some b)
    × ((deferral 1600).callbacks ≡ [] ++ b ∷ [])
    × (b.path ≡ "lost")
    × (b.kind ≡ failed_callback)
record_deferral-give_up_example =
    record_deferral-give_up engine campaign "lost" "timed out" none none 1600 lost_leaf
      "2026-01-01T00:00:00Z" 1000 agenda-IsTidy lost_found refl refl refl (omega arith)

apply_reuse-apply_reuse_example :
    (simulations (apply_reuse engine (apply_reuse engine agenda).0).0
      ≡ simulations (apply_reuse engine agenda).0)
    × ((apply_reuse engine (apply_reuse engine agenda).0).1 ≡ [])
apply_reuse-apply_reuse_example = apply_reuse-apply_reuse engine agenda

abbrev reconciled : AgendaGroup
reconciled = (reconcile_actuals engine agenda usage).0

reconcile_actuals-reconcile_actuals_example :
    (simulations (reconcile_actuals engine reconciled usage).0 ≡ simulations reconciled)
    × ((reconcile_actuals engine reconciled usage).1 ≡ usage)
reconcile_actuals-reconcile_actuals_example =
    reconcile_actuals-reconcile_actuals engine agenda usage usage

abbrev quiet_engine : Engine
quiet_engine = record engine { observed = []; actuals = none; reuse_lookup = none }

abbrev small : Campaign
small = record campaign {
  agenda = record {
    info = record { name = "scan"; sweep = none; depends_on = [] };
    entries = entry "fresh" (sim fresh) no_entries;
  };
}

abbrev paused_small : Campaign
paused_small = record small { state = paused }

abbrev plan_of : Campaign → Option Planned → Planned
plan_of c none = record { campaign = c; steps = []; reused = [] }
plan_of c (some p) = p

abbrev planned_run : Campaign → Planned
planned_run c =
    plan_of c
      (plan quiet_engine (created quiet_engine c) (budget_of quiet_engine (created quiet_engine c)))

abbrev outcome : Campaign → Ticked
outcome c =
    run_plan quiet_engine (statuses (simulations (created quiet_engine c).agenda) [])
      (budget_of quiet_engine (created quiet_engine c)) (planned_run c)

small-plan :
    plan quiet_engine
      (created quiet_engine small)
      (budget_of quiet_engine (created quiet_engine small))
    ≡ some (planned_run small)
unfolding plan pic_agentic.Agenda.Planner.next_actions pic_agentic.Agenda.Planner.plan_leaves
    simulations walk_leaves pic_agentic.Agenda.Planner.apply_states
    pic_agentic.Agenda.Model.for_leaves pic_agentic.Agenda.Model.visit_leaves reconcile_actuals
    apply_reuse pic_agentic.Agenda.Campaign.with_created_ts pic_agentic.Agenda.Planner.plan_leaf
    pic_agentic.Agenda.Planner.apply_state pic_agentic.Agenda.Planner.state_status Dict.get
    pic_agentic.Agenda.Engine.Observe.path_states pic_agentic.Agenda.Planner.plan_planned
    pic_agentic.Agenda.Planner.select pic_agentic.Agenda.Budget.check_admission
    pic_agentic.Agenda.Engine.Hashing.put_field pic_agentic.Agenda.Engine.Observe.by_sim
    pic_agentic.Agenda.Model.join_path pic_agentic.Agenda.Planner.account
    pic_agentic.Agenda.Planner.accrue pic_agentic.Agenda.Planner.index_entries
    pic_agentic.Agenda.Planner.jobs_in_flight pic_agentic.Agenda.Planner.plan_ready
    pic_agentic.Agenda.Planner.resource_request_from_spec pic_agentic.Agenda.Planner.resource_value
    Dict.put pic_agentic.Common.Float.add pic_agentic.Common.Float.gtb pic_agentic.Common.Float.◌+ℤ◌
    pic_agentic.Common.Value.get_field
small-plan = refl

paused_small-plan :
    plan quiet_engine
      (created quiet_engine paused_small)
      (budget_of quiet_engine (created quiet_engine paused_small))
    ≡ some (planned_run paused_small)
unfolding plan pic_agentic.Agenda.Planner.next_actions pic_agentic.Agenda.Planner.plan_leaves
    simulations walk_leaves pic_agentic.Agenda.Planner.apply_states
    pic_agentic.Agenda.Model.for_leaves pic_agentic.Agenda.Model.visit_leaves reconcile_actuals
    apply_reuse pic_agentic.Agenda.Campaign.with_created_ts pic_agentic.Agenda.Planner.plan_leaf
    pic_agentic.Agenda.Planner.apply_state pic_agentic.Agenda.Planner.state_status Dict.get
    pic_agentic.Agenda.Engine.Observe.path_states pic_agentic.Agenda.Planner.plan_planned
    pic_agentic.Agenda.Planner.select pic_agentic.Agenda.Budget.check_admission
    pic_agentic.Agenda.Engine.Hashing.put_field pic_agentic.Agenda.Engine.Observe.by_sim
    pic_agentic.Agenda.Model.join_path pic_agentic.Agenda.Planner.account
    pic_agentic.Agenda.Planner.accrue pic_agentic.Agenda.Planner.index_entries
    pic_agentic.Agenda.Planner.jobs_in_flight pic_agentic.Agenda.Planner.plan_ready
    pic_agentic.Agenda.Planner.resource_request_from_spec pic_agentic.Agenda.Planner.resource_value
    Dict.put pic_agentic.Common.Float.add pic_agentic.Common.Float.gtb pic_agentic.Common.Float.◌+ℤ◌
    pic_agentic.Common.Value.get_field
paused_small-plan = refl

small-distinct :
    duplicate_specs quiet_engine
      (planned_run small).campaign
      (submit_paths (planned_run small).steps)
    ≡ none
unfolding duplicate_specs pic_agentic.Agenda.Engine.Hashing.first_collision pending_leaves
    submit_paths pic_agentic.Agenda.Engine.Hashing.leaf_by_path
    pic_agentic.Agenda.Engine.Hashing.collision with_sim_id plan
    pic_agentic.Agenda.Planner.next_actions pic_agentic.Agenda.Planner.plan_leaves simulations
    walk_leaves pic_agentic.Agenda.Planner.apply_states pic_agentic.Agenda.Model.for_leaves
    pic_agentic.Agenda.Model.visit_leaves reconcile_actuals apply_reuse
    pic_agentic.Agenda.Campaign.with_created_ts pic_agentic.Agenda.Planner.plan_leaf
    pic_agentic.Agenda.Planner.apply_state pic_agentic.Agenda.Planner.state_status Dict.get
    pic_agentic.Agenda.Engine.Observe.path_states pic_agentic.Agenda.Planner.plan_planned
    pic_agentic.Agenda.Planner.select pic_agentic.Agenda.Budget.check_admission
    pic_agentic.Agenda.Engine.Hashing.put_field pic_agentic.Agenda.Engine.Observe.by_sim
    pic_agentic.Agenda.Model.join_path pic_agentic.Agenda.Planner.account
    pic_agentic.Agenda.Planner.accrue pic_agentic.Agenda.Planner.index_entries
    pic_agentic.Agenda.Planner.jobs_in_flight pic_agentic.Agenda.Planner.plan_ready
    pic_agentic.Agenda.Planner.resource_request_from_spec pic_agentic.Agenda.Planner.resource_value
    Dict.put pic_agentic.Common.Float.add pic_agentic.Common.Float.gtb pic_agentic.Common.Float.◌+ℤ◌
    pic_agentic.Common.Value.get_field
small-distinct = refl

paused_small-distinct :
    duplicate_specs quiet_engine
      (planned_run paused_small).campaign
      (submit_paths (planned_run paused_small).steps)
    ≡ none
unfolding duplicate_specs pic_agentic.Agenda.Engine.Hashing.first_collision pending_leaves
    submit_paths pic_agentic.Agenda.Engine.Hashing.leaf_by_path
    pic_agentic.Agenda.Engine.Hashing.collision with_sim_id plan
    pic_agentic.Agenda.Planner.next_actions pic_agentic.Agenda.Planner.plan_leaves simulations
    walk_leaves pic_agentic.Agenda.Planner.apply_states pic_agentic.Agenda.Model.for_leaves
    pic_agentic.Agenda.Model.visit_leaves reconcile_actuals apply_reuse
    pic_agentic.Agenda.Campaign.with_created_ts pic_agentic.Agenda.Planner.plan_leaf
    pic_agentic.Agenda.Planner.apply_state pic_agentic.Agenda.Planner.state_status Dict.get
    pic_agentic.Agenda.Engine.Observe.path_states pic_agentic.Agenda.Planner.plan_planned
    pic_agentic.Agenda.Planner.select pic_agentic.Agenda.Budget.check_admission
    pic_agentic.Agenda.Engine.Hashing.put_field pic_agentic.Agenda.Engine.Observe.by_sim
    pic_agentic.Agenda.Model.join_path pic_agentic.Agenda.Planner.account
    pic_agentic.Agenda.Planner.accrue pic_agentic.Agenda.Planner.index_entries
    pic_agentic.Agenda.Planner.jobs_in_flight pic_agentic.Agenda.Planner.plan_ready
    pic_agentic.Agenda.Planner.resource_request_from_spec pic_agentic.Agenda.Planner.resource_value
    Dict.put pic_agentic.Common.Float.add pic_agentic.Common.Float.gtb pic_agentic.Common.Float.◌+ℤ◌
    pic_agentic.Common.Value.get_field
paused_small-distinct = refl

tick-limit_example : length (outcome small).result.submitted ≤ 1
tick-limit_example =
    tick-limit quiet_engine small (outcome small)
      (tick-run_plan quiet_engine small (planned_run small) small-plan small-distinct)

tick-held_example : length (outcome paused_small).result.submitted ≡ 0
tick-held_example =
    tick-held quiet_engine paused_small (outcome paused_small) (λ e. cc)
      (tick-run_plan quiet_engine paused_small (planned_run paused_small) paused_small-plan
        paused_small-distinct)

fresh_hash : contains_char b'\0' (spec_text fresh.spec) ≡ false
unfolding contains_char
fresh_hash = refl

idempotency_key-injective_example :
    Path String "fresh" "fresh" × (spec_text fresh.spec ≡ spec_text fresh.spec)
idempotency_key-injective_example =
    idempotency_key-injective engine campaign "fresh" "fresh" fresh.spec fresh.spec fresh_hash
      fresh_hash (λ e. e) refl
