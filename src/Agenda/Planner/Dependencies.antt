-- ===== src/Agenda/Planner/Dependencies.antt =====
-- src/pic_agentic/agenda/planner.py: dependencies and the step of one leaf.
use pic_agentic.Common.{
  String, ◌≡◌, ◌↔◌, refl, sym, ◌∙◌, Bool, true, false, Option, none, some, List, [], ◌∷◌, ◌++◌,
  ◌&&◌, arith, All, All-map, all, inl, inr, Bool-cases, Option-cases,
}
use pic_agentic.Common.Dict.{Dict}
use pic_agentic.Agenda.Model.{
  Status, planned, submitted, running, done, failed, AgendaSim, Entry, sim, group, Entries,
  no_entries, entry, Leaf, join_path, walk_entry, walk_leaves,
}
use pic_agentic.Agenda.Budget.{Budget, BudgetUsage, ResourceRequest, check_admission}
use pic_agentic.Agenda.Budget.Admission.{IsAdmissible, check_admission_iff}
use pic_agentic.Agenda.Planner.{
  Pydantic, PlanStep, submit, resource_request_from_spec, is_done, subtree_done, subtrees_done,
  subtree_failed, any_failed, resolve_dependency, met, judge, dependency, is_unmet, is_blocked,
  select, base_step, plan_ready, plan_planned, plan_status, plan_leaf, and_then-eq-some,
}

all-append {ℓ} :
    {A : Type ℓ} (q : A → Bool) (xs ys : List A) → all q (xs ++ ys) ≡ (all q xs && all q ys)
all-append q [] ys = refl
all-append q (x ∷ xs) ys = ground (arith, all-append q xs ys)

mutual
  unfolding subtree_done walk_leaves

  done_below :
      (path : String) (e : Entry)
      → subtree_done e ≡ all (λ (leaf : Leaf). is_done leaf.1.status) (walk_entry path e)
  done_below path (sim s) = ground arith
  done_below path (group info es) = done_below_entries path es

  done_below_entries :
      (prefix : String) (es : Entries)
      → subtrees_done es ≡ all (λ (leaf : Leaf). is_done leaf.1.status) (walk_leaves prefix es)
  done_below_entries prefix no_entries = refl
  done_below_entries prefix (entry name e rest) =
      let path = join_path prefix name in
      rw
        (all-append (λ (leaf : Leaf). is_done leaf.1.status) (walk_entry path e)
          (walk_leaves prefix rest))
        (cc (done_below path e, done_below_entries prefix rest))

mutual
  unfolding subtree_done subtree_failed

  done_not_failed : (e : Entry) → subtree_done e ≡ true → subtree_failed e ≡ false
  done_not_failed (sim s) h = ground arith
  done_not_failed (group info es) h = done_not_failed_entries es h

  done_not_failed_entries : (es : Entries) → subtrees_done es ≡ true → any_failed es ≡ false
  done_not_failed_entries no_entries h = refl
  done_not_failed_entries (entry name e rest) h =
      ground (arith, done_not_failed e, done_not_failed_entries rest)

select-nil :
    (test : String → Bool) (ds : List String) → select test ds ≡ [] → All (λ d. test d ≡ false) ds
unfolding select
select-nil test [] h = tt
select-nil test (d ∷ ds) h = elim (Bool-cases (test d)) [
  | inl yes' ↦ cc (rw yes' at h)
  | inr no' ↦ (no', select-nil test ds (rw no' at h))
]

nil-select :
    (test : String → Bool) (ds : List String) → All (λ d. test d ≡ false) ds → select test ds ≡ []
unfolding select
nil-select test [] h = refl
nil-select test (d ∷ ds) h = rw h.0 (nil-select test ds h.1)

module _ (p : Pydantic) (s : AgendaSim) (path : String) (parent : Option Entries)
    (paths : Dict Entry) (budget : Budget) (usage : BudgetUsage) where
  -- Every dependency resolves to a subtree whose leaves are all done.
  abbrev pub AllMet : Type 0
  AllMet = All (λ d. dependency parent paths d ≡ met) s.depends_on

  abbrev pub IsReady : Type 0
  IsReady =
      (s.status ≡ planned)
      × AllMet
      × ((r : ResourceRequest) × (resource_request_from_spec p s.spec ≡ some r)
          × IsAdmissible budget usage r)

  submitted_step : PlanStep
  submitted_step = record (base_step s path) { action = submit }

  met_of :
      (ds : List String)
      → All (λ d. is_blocked (dependency parent paths d) ≡ false) ds
      → All (λ d. is_unmet (dependency parent paths d) ≡ false) ds
      → All (λ d. dependency parent paths d ≡ met) ds
  met_of [] b u = tt
  met_of (d ∷ ds) b u = (ground (arith, b.0, u.0), met_of ds b.1 u.1)

  plan_ready-submit :
      (step : PlanStep)
      → plan_ready p budget usage (base_step s path) ≡ some step
      → step.action ≡ submit
      → (r : ResourceRequest) × (resource_request_from_spec p s.spec ≡ some r)
        × IsAdmissible budget usage r
  unfolding plan_ready
  plan_ready-submit step h e =
      let (r, read, planned_) = and_then-eq-some (resource_request_from_spec p s.spec) _ h in
      elim (Option-cases (check_admission budget usage r)) [
        | inl admitted ↦ (r, read, (check_admission_iff budget usage r).0 admitted)
        | inr (breach, refused) ↦ ground (arith, refused)
      ]

  plan_planned-submit :
      (step : PlanStep) (bs us : List String)
      → plan_planned p budget usage (base_step s path) bs us ≡ some step
      → step.action ≡ submit
      → (bs ≡ []) × (us ≡ []) × (plan_ready p budget usage (base_step s path) ≡ some step)
  unfolding plan_planned
  plan_planned-submit step (b ∷ bs) us h e = ground arith
  plan_planned-submit step [] (u ∷ us) h e = ground arith
  plan_planned-submit step [] [] h e = (refl, refl, h)

  plan_status-submit :
      (step : PlanStep) (bs us : List String) (status : Status)
      → plan_status p budget usage (base_step s path) bs us status ≡ some step
      → step.action ≡ submit
      → (status ≡ planned) × (plan_planned p budget usage (base_step s path) bs us ≡ some step)
  plan_status-submit step bs us planned h e = (refl, h)
  plan_status-submit step bs us submitted h e = absurd (ground arith)
  plan_status-submit step bs us running h e = absurd (ground arith)
  plan_status-submit step bs us done h e = absurd (ground arith)
  plan_status-submit step bs us failed h e = absurd (ground arith)

  -- A submission is planned only where the leaf is ready.
  pub submit-IsReady :
      (step : PlanStep)
      → plan_leaf p s path parent paths budget usage ≡ some step
      → step.action ≡ submit
      → IsReady
  unfolding plan_leaf
  submit-IsReady step h e =
      let (st, planned_) = plan_status-submit step _ _ s.status h e in
      let (no_blocked, no_unmet, ready) = plan_planned-submit step _ _ planned_ e in
      (
        st,
        met_of s.depends_on (select-nil _ s.depends_on no_blocked)
            (select-nil _ s.depends_on no_unmet),
        plan_ready-submit step ready e,
      )

  not_blocked :
      (ds : List String)
      → All (λ d. dependency parent paths d ≡ met) ds
      → All (λ d. is_blocked (dependency parent paths d) ≡ false) ds
  not_blocked [] h = tt
  not_blocked (d ∷ ds) h = (ground (arith, h.0), not_blocked ds h.1)

  not_unmet :
      (ds : List String)
      → All (λ d. dependency parent paths d ≡ met) ds
      → All (λ d. is_unmet (dependency parent paths d) ≡ false) ds
  not_unmet [] h = tt
  not_unmet (d ∷ ds) h = (ground (arith, h.0), not_unmet ds h.1)

  IsReady-submit :
      IsReady
      → plan_leaf p s path parent paths budget usage
        ≡ some (record (base_step s path) { action = submit })
  unfolding plan_leaf plan_planned plan_ready
  IsReady-submit (st, deps, (r, read, fits)) = rw (
    st,
    nil-select _ s.depends_on (not_blocked s.depends_on deps),
    nil-select _ s.depends_on (not_unmet s.depends_on deps),
    read,
    (check_admission_iff budget usage r).1 fits,
  )

judge-met :
    (o : Option Entry) → judge o ≡ met → (e : Entry) × (o ≡ some e) × (subtree_done e ≡ true)
unfolding judge
judge-met none h = cc
judge-met (some e) h = (e, refl, ground arith)

met-judge : (e : Entry) → subtree_done e ≡ true → judge (some e) ≡ met
unfolding judge
met-judge e h = rw (done_not_failed e h, h) refl

-- A dependency that resolves to an entry under which every leaf is done.
abbrev pub IsFinished : Option Entries → Dict Entry → String → Type 0
IsFinished parent paths dep =
    (e : Entry) × (resolve_dependency dep parent paths ≡ some e)
    × (all (λ (leaf : Leaf). is_done leaf.1.status) (walk_entry dep e) ≡ true)

-- A dependency is met exactly when it resolves to an entry under which every leaf is done.
pub dependency-met_iff :
    (parent : Option Entries) (paths : Dict Entry) (dep : String)
    → (dependency parent paths dep ≡ met) ↔ IsFinished parent paths dep
unfolding dependency
dependency-met_iff parent paths dep = (
  (λ h.
      let (e, found, finished) = judge-met (resolve_dependency dep parent paths) h in
      (e, found, sym (done_below dep e) ∙ finished)),
  (λ (e, found, finished). rw found (met-judge e (done_below dep e ∙ finished))),
)

-- The planner submits a leaf exactly when it is still planned, each of its dependencies resolves to an
-- entry under which every leaf is done, and its resource request is well formed and keeps every cap of
-- the budget (hours or a cap that are nan count as kept).
pub plan_leaf-submit_iff :
    (p : Pydantic) (s : AgendaSim) (path : String) (parent : Option Entries) (paths : Dict Entry)
    (budget : Budget) (usage : BudgetUsage)
    → ((step : PlanStep) × (plan_leaf p s path parent paths budget usage ≡ some step)
        × (step.action ≡ submit))
      ↔ ((s.status ≡ planned)
          × All (IsFinished parent paths) s.depends_on
          × (r : ResourceRequest) × (resource_request_from_spec p s.spec ≡ some r)
          × IsAdmissible budget usage r)
plan_leaf-submit_iff p s path parent paths budget usage = (
  (λ (step, h, e).
      let (fresh, deps, request) = submit-IsReady p s path parent paths budget usage step h e in
      (
        fresh,
        All-map (λ d. (dependency-met_iff parent paths d).0) s.depends_on deps,
        request.0,
        request.1,
        request.2,
      )),
  (λ (fresh, deps, r, read, fits).
      let ready = All-map (λ d. (dependency-met_iff parent paths d).1) s.depends_on deps in
      (
        record (base_step s path) { action = submit },
        IsReady-submit p s path parent paths budget usage (fresh, ready, (r, read, fits)),
        refl,
      )),
)
