-- ===== src/Agenda/Examples.antt =====
-- A small agenda for src/pic_agentic/agenda: two simulations, of which one depends on the other.
use pic_agentic.Common.{
  ℕ, ◌+◌, ◌≤◌, ◌<◌, String, ◌≡◌, refl, ◌↔◌, Bool, true, false, not, Option, none, some, List, [],
  ◌∷◌, ◌++◌, map, inl, arith, All, all, length, str_eq, elem, is_empty, contains_char,
  starts_with_char, split_char, texts_eq,
}
use pic_agentic.Common.Dict
use pic_agentic.Common.Dict.{Dict}
use pic_agentic.Common.Float.{ℤ, pos, Float, fin, zero_f}
use pic_agentic.Common.Value.{int, str, end, field, get_field}
use pic_agentic.Agenda.Model.{
  planned, done, AgendaSweep, AgendaSim, Entry, sim, group, no_entries, entry, AgendaGroup,
  simulations, walk_leaves, join_path, for_leaves, visit_leaves, get_entry, validate_entry_name,
}
use pic_agentic.Agenda.Model.Expand.{Result, ok, err, new_sim, add, Synthesis, expand}
use pic_agentic.Agenda.Addressing.{set_leaf}
use pic_agentic.Agenda.Addressing.Names.{IsTidy}
use pic_agentic.Agenda.Addressing.Update.{at, simulations-set_leaf}
use pic_agentic.Agenda.Budget.{
  Budget, BudgetUsage, ResourceRequest, core_hours_exhausted, check_admission,
}
use pic_agentic.Agenda.Budget.Admission.{IsAdmissible, IsCovered}
use pic_agentic.Agenda.Budget.Verdict.{Verdict, check_admission-Verdict}
use pic_agentic.Agenda.Planner.{
  Pydantic, PlanStep, submit, resource_request_from_spec, Index, index_of, index_entries,
  index_entry, is_done, plan_leaf, plan_leaves, next_actions, apply_state, apply_states,
  jobs_in_flight, dependency, met, judge, resolve_dependency, subtree_done,
}
use pic_agentic.Agenda.Planner.Dependencies.{IsFinished, plan_leaf-submit_iff}
use pic_agentic.Agenda.Planner.Caps.{HasRoom, submits, next_actions-HasRoom}
use pic_agentic.Agenda.Planner.Hours.{spent, core_charge, gpu_charge, next_actions-IsCovered}
use pic_agentic.Agenda.Reuse.{ReuseRecord, ReuseRegistry, lookup}
use pic_agentic.Agenda.Reuse.Kept.{IsKeyed, Op, direct, ready, run, lookup-run}

abbrev laser : AgendaSim
laser = record (new_sim "laser" (field "sim" (str "a0=1") end) none none) {
  status = done;
  sim_id = some "s1";
}

abbrev probe : AgendaSim
probe = record (new_sim "probe" (field "sim" (str "a0=2") end) none none) {
  depends_on = "laser" ∷ [];
}

abbrev scan : AgendaGroup
scan = record {
  info = record { name = "scan"; sweep = none; depends_on = [] };
  entries = entry "laser" (sim laser) (
      entry "late"
        (group (record { name = "late"; sweep = none; depends_on = [] })
          (entry "probe" (sim probe) no_entries))
        no_entries);
}

scan-IsTidy : IsTidy scan
unfolding validate_entry_name contains_char starts_with_char get_entry
scan-IsTidy = (refl, refl, tt, (refl, refl, (refl, refl, tt, tt), tt))

abbrev finish : AgendaSim → AgendaSim
finish s = record s { status = done }

simulations-set_leaf_example :
    simulations (set_leaf scan "late/probe" finish)
    ≡ map (at "late/probe" finish) (simulations scan)
simulations-set_leaf_example = simulations-set_leaf scan "late/probe" finish scan-IsTidy

abbrev count_leaf : String → AgendaSim → ℕ → AgendaSim × ℕ
count_leaf path s n = (finish s, n + 1)

abbrev synthesis : Synthesis
synthesis = record {
  repr = λ v. "x";
  synthesized = λ point. point;
  readable_label = λ parameter. none;
}

abbrev sweep : AgendaSweep
sweep = record { parameter = "a0"; values = int (pos 1) ∷ []; unit = none }

abbrev the_group : Result AgendaGroup → AgendaGroup
the_group (ok g) = g
the_group (err e) = scan

abbrev expanded : AgendaGroup
expanded = the_group (expand synthesis sweep none scan)

expanded_ok : expand synthesis sweep none scan ≡ ok expanded
unfolding expand validate_entry_name starts_with_char contains_char get_entry
expanded_ok = refl

abbrev extended : AgendaGroup
extended = the_group (add "check" (sim probe) scan)

extended_ok : add "check" (sim probe) scan ≡ ok extended
unfolding add validate_entry_name starts_with_char contains_char get_entry
extended_ok = refl

abbrev pydantic : Pydantic
pydantic = record {
  float_of = λ v. some (fin (pos 5));
  bool_of = λ v. some false;
  message = λ b. "over budget";
}

abbrev budget : Budget
budget = record {
  max_core_hours = some (fin (pos 100));
  max_gpu_hours = none;
  max_concurrent_jobs = some 2;
  max_total_jobs = some 4;
  allowed_partitions = none;
}

abbrev usage : BudgetUsage
usage = record {
  core_hours = fin (pos 7);
  gpu_hours = zero_f;
  jobs_submitted = 1;
  jobs_running = 0;
}

abbrev request : ResourceRequest
request = record {
  est_core_hours = fin (pos 5);
  est_gpu_hours = zero_f;
  partition = none;
  is_gpu = false;
}

-- A request that the core hours left do not cover.
abbrev large : ResourceRequest
large = record request { est_core_hours = fin (pos 95) }

large_refused :
    check_admission budget usage large
    ≡ some (core_hours_exhausted (fin (pos 7)) (fin (pos 95)) (fin (pos 100)))
unfolding check_admission pic_agentic.Common.Float.add pic_agentic.Common.Float.gtb
    pic_agentic.Common.Float.◌+ℤ◌
large_refused = refl

check_admission-Verdict_example : Verdict budget usage large (check_admission budget usage large)
check_admission-Verdict_example = check_admission-Verdict budget usage large

abbrev scan_paths : Dict Entry
scan_paths = (index_of scan).paths

plan_leaf-submit_iff_example :
    ((step : PlanStep) × (plan_leaf pydantic probe "late/probe"
          (some (entry "probe" (sim probe) no_entries))
          scan_paths
          budget
          usage
        ≡ some step)
      × (step.action ≡ submit))
    ↔ ((probe.status ≡ planned)
        × All (IsFinished (some (entry "probe" (sim probe) no_entries)) scan_paths) ("laser" ∷ [])
        × (r : ResourceRequest) × (resource_request_from_spec pydantic probe.spec ≡ some r)
        × IsAdmissible budget usage r)
plan_leaf-submit_iff_example =
    plan_leaf-submit_iff pydantic probe "late/probe" (some (entry "probe" (sim probe) no_entries))
      scan_paths budget usage

abbrev steps_of : Option (List PlanStep) → List PlanStep
steps_of none = []
steps_of (some steps) = steps

abbrev scan_steps : List PlanStep
scan_steps = steps_of (next_actions pydantic scan [] budget usage)

scan_planned : next_actions pydantic scan [] budget usage ≡ some scan_steps
unfolding next_actions apply_states for_leaves visit_leaves apply_state
    pic_agentic.Agenda.Planner.state_status jobs_in_flight plan_leaves simulations walk_leaves
    plan_leaf pic_agentic.Agenda.Planner.accrue pic_agentic.Agenda.Planner.plan_planned
    pic_agentic.Agenda.Planner.select dependency judge resolve_dependency Dict.get index_entries
    Dict.put join_path get_entry pic_agentic.Agenda.Planner.subtree_failed subtree_done
    pic_agentic.Agenda.Planner.plan_ready check_admission pic_agentic.Agenda.Planner.account
    pic_agentic.Agenda.Planner.resource_request_from_spec pic_agentic.Agenda.Planner.resource_value
    pic_agentic.Common.Float.add pic_agentic.Common.Float.gtb pic_agentic.Common.Float.◌+ℤ◌ elem
    pic_agentic.Common.join pic_agentic.Common.last_part pic_agentic.Common.push_char split_char
    get_field
scan_planned = refl

next_actions-HasRoom_example :
    HasRoom (some 4) 1 (submits scan_steps)
    × HasRoom (some 2) (jobs_in_flight (apply_states scan [])) (submits scan_steps)
next_actions-HasRoom_example =
    next_actions-HasRoom pydantic scan [] budget usage scan_steps scan_planned

usage-IsCovered : IsCovered (some (fin (pos 100))) (fin (pos 7))
unfolding pic_agentic.Common.Float.IsAtMost
usage-IsCovered = inl (omega arith)

next_actions-IsCovered_example :
    IsCovered (some (fin (pos 100))) (spent pydantic core_charge scan_steps (fin (pos 7)))
    × IsCovered none (spent pydantic gpu_charge scan_steps zero_f)
next_actions-IsCovered_example =
    next_actions-IsCovered pydantic scan [] budget usage scan_steps usage-IsCovered tt scan_planned

abbrev finished_run : ReuseRecord
finished_run = record {
  wire_hash = "h1";
  sim_id = "s1";
  state = "done";
  run_dir = none;
  ts = none;
  run_id = some "c1";
  pending_run_ids = [];
}

abbrev accepted_run : ReuseRecord
accepted_run = record finished_run { state = "pending"; run_id = some "c2" }

abbrev registry : ReuseRegistry
registry = ("h1", finished_run) ∷ []

registry-IsKeyed : IsKeyed registry
unfolding Dict.get
registry-IsKeyed = (refl, refl, tt)

registry_found : lookup "h1" registry ≡ some finished_run
unfolding lookup Dict.get
registry_found = refl

abbrev events : List Op
events = direct accepted_run ∷ ready "c2" "done" ∷ []

lookup-run_example :
    (lookup "h1" (run events registry) ≡ some finished_run) × IsKeyed (run events registry)
lookup-run_example = lookup-run events registry "h1" finished_run registry-IsKeyed registry_found
