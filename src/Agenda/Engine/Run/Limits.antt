-- ===== src/Agenda/Engine/Run/Limits.antt =====
-- src/pic_agentic/agenda/engine.py: `_run_steps` and the limits on submissions.
use mathlib.Core.Path.{subst}
use pic_agentic.Common.{
  ℕ, ◌+◌, ◌-◌, ◌≤◌, ◌<◌, String, ◌≡◌, refl, sym, ◌∙◌, ap, Bool, true, false, Option, none, some,
  List, [], ◌∷◌, ◌⊎◌, inl, inr, arith, length, length-append, Bool-cases,
}
use pic_agentic.Agenda.Model.{Status, done, failed, AgendaSim}
use pic_agentic.Agenda.Planner.{PlanStep, PlanAction, submit, wait, mark_done, mark_failed}
use pic_agentic.Agenda.Addressing.{leaf_at}
use pic_agentic.Agenda.Campaign.{active, Callback, Campaign}
use pic_agentic.Agenda.Engine.{Engine, TickResult}
use pic_agentic.Agenda.Engine.Gates.{Bucket, held, waiting, pending_approval, submission_block}
use pic_agentic.Agenda.Engine.Observe.{persist_terminal, settle_at, is_terminal, reason_of}
use pic_agentic.Agenda.Engine.Submit.{submit_one}
use pic_agentic.Agenda.Engine.Submit.Lifecycle.{submit_one-state}
use pic_agentic.Agenda.Campaign.{CallbackKind, done_callback, failed_callback}
use pic_agentic.Agenda.Engine.Run.{
  Loop, hold, report, report_failure, bucket, tally, submit_step, run_step, run_steps,
}
use pic_agentic.Agenda.Engine.Gates.Open.{HasRoomFor, IsOpen, submission_block-none_iff}

-- How one step moves the number of leaves submitted in this tick and of jobs in flight: not at all,
-- or both by one, with every gate open.
pub data Advances (e : Engine) (cap : Option ℕ) (l : Loop) (n s : ℕ) : Type 0 where
  stays : s ≡ length l.result.submitted → n ≡ l.in_flight → Advances e cap l n s
  submits :
      l.campaign.state ≡ active
      → length l.result.submitted < e.policy.max_submits_per_tick
      → HasRoomFor cap l.in_flight
      → s ≡ length l.result.submitted + 1
      → n ≡ l.in_flight + 1
      → Advances e cap l n s

report-submitted : (r : TickResult) (c : Option Callback) → (report r c).submitted ≡ r.submitted
unfolding report
report-submitted r none = refl
report-submitted r (some c) = refl

hold-submitted :
    (r : TickResult) (path : String) (b : Bucket) → (hold r path b).submitted ≡ r.submitted
unfolding hold
hold-submitted r path held = refl
hold-submitted r path waiting = refl
hold-submitted r path pending_approval = refl

module _ (e : Engine) (cap : Option ℕ) where
  settle_at-state :
      (c : Campaign) (path : String) (status : Status) (kind : CallbackKind)
      (reason : Option String) (leaf : Option AgendaSim)
      → (settle_at e c path status kind reason leaf).0.state ≡ c.state
  settle_at-state c path status kind reason none = refl
  settle_at-state c path status kind reason (some leaf) =
      elim (Bool-cases (is_terminal leaf.status)) [ inl h ↦ rw (h) | inr h ↦ rw (h) ]

  persist_terminal-state :
      (c : Campaign) (path : String) (a : PlanAction) (reason : Option String)
      → (persist_terminal e c path a reason).0.state ≡ c.state
  unfolding persist_terminal
  persist_terminal-state c path mark_failed reason =
      settle_at-state c path failed failed_callback (reason_of e reason) (leaf_at c.agenda path)
  persist_terminal-state c path mark_done reason =
      settle_at-state c path done done_callback none (leaf_at c.agenda path)
  persist_terminal-state c path wait reason = refl
  persist_terminal-state c path submit reason = refl

  tally-Advances :
      (l : Loop) (step : PlanStep) (deferred : Bool) (failure : Option Callback)
      → IsOpen e l.campaign step (length l.result.submitted) l.in_flight cap
      → Advances e cap l
          (tally l.result l.in_flight step.path deferred failure).1
          (length (tally l.result l.in_flight step.path deferred failure).0.submitted)
  unfolding tally report_failure
  tally-Advances l step true none o = stays refl refl
  tally-Advances l step true (some c) o = stays refl refl
  tally-Advances l step false (some c) o = stays refl refl
  tally-Advances l step false none o =
      submits o.is_running o.in_tick o.has_room (length-append l.result.submitted (step.path ∷ []))
        refl

  abbrev Moves : Loop → Loop → Type 0
  Moves l l' =
      Advances e cap l l'.in_flight (length l'.result.submitted)
      × (l'.campaign.state ≡ l.campaign.state)

  submit_step-Moves :
      (step : PlanStep) (l : Loop) (b : Option Bucket)
      → submission_block e l.campaign step.path step l.result l.in_flight cap ≡ b
      → Moves l (elim b [
        | some block ↦ record l { result = hold l.result step.path block }
        | none ↦ submit_step e step l
      ])
  unfolding submit_step
  submit_step-Moves step l (some b) h =
      (stays (ap length (hold-submitted l.result step.path b)) refl, refl)
  submit_step-Moves step l none h =
      let s = submit_one e l.campaign step.path step in
      let o = (submission_block-none_iff e l.campaign step l.result l.in_flight cap).0 h in
      (
        tally-Advances l step s.is_deferred s.failure o,
        submit_one-state e l.campaign step.path step,
      )

  persist-Moves :
      (step : PlanStep) (l : Loop) (a : PlanAction)
      → ((r : TickResult) → (bucket r step.path a).submitted ≡ r.submitted)
      → let (c, terminal) = persist_terminal e l.campaign step.path a step.reason in
        Moves l (record l { campaign = c; result = bucket (report l.result terminal) step.path a })
  persist-Moves step l a same =
      let terminal = (persist_terminal e l.campaign step.path a step.reason).1 in
      (
        stays (ap length (same (report l.result terminal) ∙ report-submitted l.result terminal))
            refl,
        persist_terminal-state l.campaign step.path a step.reason,
      )

  run_step-Moves : (step : PlanStep) (l : Loop) (a : PlanAction) → Moves l (run_step e cap step l a)
  unfolding run_step bucket
  run_step-Moves step l submit = submit_step-Moves step l _ refl
  run_step-Moves step l wait = persist-Moves step l wait (λ r. refl)
  run_step-Moves step l mark_done = persist-Moves step l mark_done (λ r. refl)
  run_step-Moves step l mark_failed = persist-Moves step l mark_failed (λ r. refl)

  -- What a number of steps may do to the two counts and to the lifecycle state.
  pub record Keeps (l l' : Loop) : Type 0 where
    pub same_state : l'.campaign.state ≡ l.campaign.state
    pub in_step :
        l'.in_flight + length l.result.submitted ≡ l.in_flight + length l'.result.submitted
    pub in_tick :
        length l.result.submitted ≤ e.policy.max_submits_per_tick
        → length l'.result.submitted ≤ e.policy.max_submits_per_tick
    pub in_cap : (c : ℕ) → cap ≡ some c → (l'.in_flight ≤ c) ⊎ (l'.in_flight ≡ l.in_flight)
    pub only_running :
        (l.campaign.state ≡ active → ⊥) → length l'.result.submitted ≡ length l.result.submitted

  unchanged : (l : Loop) → Keeps l l
  unchanged l = record {
    same_state = refl;
    in_step = refl;
    in_tick = λ h. h;
    in_cap = λ c h. inr refl;
    only_running = λ h. refl;
  }

  room : (c n n' : ℕ) → cap ≡ some c → HasRoomFor cap n → n' ≡ n + 1 → n' ≤ c
  room c n n' h free e1 =
      let below : n < c = subst (λ (o : Option ℕ). HasRoomFor o n) h free in omega arith

  Moves-Keeps : (l l' : Loop) → Moves l l' → Keeps l l'
  Moves-Keeps l l' (stays s n, k) = record {
    same_state = k;
    in_step = omega (arith, s, n);
    in_tick = λ h. omega (arith, s, h);
    in_cap = λ c h. inr n;
    only_running = λ h. s;
  }
  Moves-Keeps l l' (submits run early free s n, k) = record {
    same_state = k;
    in_step = omega (arith, s, n);
    in_tick = λ h. omega (arith, s, early);
    in_cap = λ c h. inl (room c l.in_flight l'.in_flight h free n);
    only_running = λ h. absurd (h run);
  }

  Keeps-trans : (l m r : Loop) → Keeps l m → Keeps m r → Keeps l r
  Keeps-trans l m r f g = record {
    same_state = g.same_state ∙ f.same_state;
    in_step = omega (arith, f.in_step, g.in_step);
    in_tick = λ h. g.in_tick (f.in_tick h);
    in_cap = λ c h. elim (g.in_cap c h) [
      | inl le ↦ inl le
      | inr same ↦ elim (f.in_cap c h) [
        | inl le ↦ inl (omega (arith, same, le))
        | inr before ↦ inr (same ∙ before)
      ]
    ];
    only_running = λ h. g.only_running (λ k. h (sym f.same_state ∙ k)) ∙ f.only_running h;
  }

  pub run_steps-Keeps : (steps : List PlanStep) (l : Loop) → Keeps l (run_steps e cap steps l)
  unfolding run_steps
  run_steps-Keeps [] l = unchanged l
  run_steps-Keeps (step ∷ steps) l =
      let next = run_step e cap step l step.action in
      Keeps-trans l next (run_steps e cap steps next)
        (Moves-Keeps l next (run_step-Moves step l step.action)) (run_steps-Keeps steps next)

  -- The steps of a plan, however many, leave the lifecycle state as it was; jobs in flight and submitted
  -- leaves grow by the same number; and where at most `max_submits_per_tick` leaves are submitted
  -- before them, that many at most are after them.
  pub run_steps-limit :
      (steps : List PlanStep) (l : Loop)
      → length l.result.submitted ≤ e.policy.max_submits_per_tick
      → let l' = run_steps e cap steps l in
        (length l'.result.submitted ≤ e.policy.max_submits_per_tick)
        × (l'.in_flight + length l.result.submitted ≡ l.in_flight + length l'.result.submitted)
        × (l'.campaign.state ≡ l.campaign.state)
  run_steps-limit steps l h =
      let k = run_steps-Keeps steps l in (k.in_tick h, k.in_step, k.same_state)

-- Under a cap on concurrent jobs, the steps of a plan add at most as many leaves to the list of submitted
-- ones as the jobs in flight before them leave below the cap, and none where it is reached or passed.
pub run_steps-cap :
    (e : Engine) (cap : ℕ) (steps : List PlanStep) (l : Loop)
    → length (run_steps e (some cap) steps l).result.submitted
      ≤ length l.result.submitted + (cap - l.in_flight)
run_steps-cap e cap steps l =
    let k = run_steps-Keeps e (some cap) steps l in
    elim (k.in_cap cap refl) [
      | inl within ↦ omega (arith, within, k.in_step)
      | inr same ↦ omega (arith, same, k.in_step)
    ]
