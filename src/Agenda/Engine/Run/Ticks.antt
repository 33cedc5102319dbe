-- ===== src/Agenda/Engine/Run/Ticks.antt =====
-- src/pic_agentic/agenda/engine.py: `tick` and the limits on submissions.
use mathlib.Core.Path.{subst}
use pic_agentic.Common.{
  ◌≤◌, String, ◌≡◌, ◌≢◌, refl, sym, ◌∙◌, ap, Option, none, some, [], ◌∷◌, inl, inr, arith, length,
  Bool-cases,
}
use pic_agentic.Common.Dict.{Dict}
use pic_agentic.Agenda.Model.{Status, simulations}
use pic_agentic.Agenda.Budget.{Budget}
use pic_agentic.Agenda.Planner.{next_actions, and_then-eq-some}
use pic_agentic.Agenda.Campaign.{CampaignState, active, Campaign, with_created_ts, truthy}
use pic_agentic.Agenda.Engine.{Engine, looked_up, FailureInfo, SuspectInfo}
use pic_agentic.Agenda.Engine.Hashing.{duplicate_specs}
use pic_agentic.Agenda.Engine.Observe.{Planned, plan, duplicate, statuses, emit_callbacks}
use pic_agentic.Agenda.Engine.Report.{compact_failures}
use pic_agentic.Agenda.Engine.Run.{
  Loop, Ticked, raised, ticked, tick, checked_plan, run_plan, submit_paths, start,
}
use pic_agentic.Agenda.Engine.Run.Limits.{run_steps-Keeps}

module _ (e : Engine) where
  plan-state :
      (c : Campaign) (budget : Budget) (p : Planned)
      → plan e c budget ≡ some p
      → p.campaign.state ≡ c.state
  unfolding plan
  plan-state c budget p h =
      let (steps, found, same) = and_then-eq-some (next_actions _ _ _ _ _) _ h in
      ap (λ (o : Option Planned). elim o [ none ↦ c.state | some q ↦ q.campaign.state ]) (sym same)

  created-state : (now : String) (c : Campaign) → (with_created_ts now c).state ≡ c.state
  unfolding with_created_ts
  created-state now c = elim (Bool-cases (truthy c.created_ts)) [ inl h ↦ rw (h) | inr h ↦ rw (h) ]

  emit-state :
      (c : Campaign) (before : Dict Status) (failures : Dict FailureInfo)
      (suspects : Dict SuspectInfo)
      → (emit_callbacks e c before failures suspects).0.state ≡ c.state
  unfolding emit_callbacks
  emit-state c before failures suspects = refl

  -- What a tick that starts from this lifecycle state may submit.
  abbrev pub IsLimited : CampaignState → Ticked → Type 0
  IsLimited state t =
      (length t.result.submitted ≤ e.policy.max_submits_per_tick)
      × ((state ≡ active → ⊥) → length t.result.submitted ≡ 0)

  passed :
      (d : Option (String × String)) (x t : Ticked)
      → elim d [ some (path, other) ↦ raised (duplicate path other) | none ↦ ticked x ] ≡ ticked t
      → x ≡ t
  passed none x t h = cc
  passed (some (path, other)) x t h = cc

  run_plan-IsLimited :
      (before : Dict Status) (budget : Budget) (p : Planned)
      → IsLimited p.campaign.state (run_plan e before budget p)
  unfolding compact_failures
  run_plan-IsLimited before budget p =
      let failures = looked_up e.failures in
      let suspects = looked_up e.suspects in
      let emitted = emit_callbacks e p.campaign before failures suspects in
      let l : Loop = record {
        campaign = emitted.0;
        result = start e emitted.0 emitted.1 p.reused;
        in_flight = emitted.0.usage.jobs_running;
        saved = emitted.0 ∷ [];
      } in
      let k = run_steps-Keeps e budget.max_concurrent_jobs p.steps l in
      (
        k.in_tick (omega arith),
        λ other.
            k.only_running (λ h. other (sym (emit-state p.campaign before failures suspects) ∙ h)),
      )

  checked_plan-IsLimited :
      (before : Dict Status) (budget : Budget) (state : CampaignState) (o : Option Planned)
      (t : Ticked)
      → ((p : Planned) → o ≡ some p → p.campaign.state ≡ state)
      → checked_plan e before budget o ≡ ticked t
      → IsLimited state t
  checked_plan-IsLimited before budget state none t same h = cc
  checked_plan-IsLimited before budget state (some p) t same h =
      subst (IsLimited state)
        (passed (duplicate_specs e p.campaign (submit_paths p.steps)) (run_plan e before budget p) t
          h)
        (subst (λ (s : CampaignState). IsLimited s (run_plan e before budget p)) (same p refl)
          (run_plan-IsLimited before budget p))

  tick-IsLimited : (c : Campaign) (t : Ticked) → tick e c ≡ ticked t → IsLimited c.state t
  unfolding tick
  tick-IsLimited loaded t h =
      let c = with_created_ts e.utc_now_iso loaded in
      let budget : Budget = elim e.budget_override [ none ↦ c.budget | some b ↦ b ] in
      checked_plan-IsLimited (statuses (simulations c.agenda) []) budget loaded.state
        (plan e c budget) t
        (λ p found. plan-state c budget p found ∙ created-state e.utc_now_iso loaded) h

  -- In the result of a tick that does not raise, at most `max_submits_per_tick` leaves are listed as
  -- submitted, which are those whose submission was acknowledged. Submissions that failed, or whose
  -- acknowledgement was lost, are listed elsewhere and are not bounded by it.
  pub tick-limit :
      (c : Campaign) (t : Ticked)
      → tick e c ≡ ticked t
      → length t.result.submitted ≤ e.policy.max_submits_per_tick
  tick-limit c t h = (tick-IsLimited c t h).0

  -- A tick of a campaign that is paused or stopped, and that does not raise, submits no leaf.
  pub tick-held :
      (c : Campaign) (t : Ticked)
      → c.state ≢ active
      → tick e c ≡ ticked t
      → length t.result.submitted ≡ 0
  tick-held c t other h = (tick-IsLimited c t h).1 other

  abbrev pub budget_of : Campaign → Budget
  budget_of c = elim e.budget_override [ none ↦ c.budget | some b ↦ b ]

  abbrev pub created : Campaign → Campaign
  created c = with_created_ts e.utc_now_iso c

  -- A tick that can plan, and finds no duplicate, runs its plan.
  pub tick-run_plan :
      (c : Campaign) (p : Planned)
      → plan e (created c) (budget_of (created c)) ≡ some p
      → duplicate_specs e p.campaign (submit_paths p.steps) ≡ none
      → tick e c
        ≡ ticked
            (run_plan e (statuses (simulations (created c).agenda) []) (budget_of (created c)) p)
  unfolding tick
  tick-run_plan c p h k =
      let before = statuses (simulations (created c).agenda) [] in
      let budget = budget_of (created c) in
      ap (checked_plan e before budget) h
      ∙ ap
          (λ (d : Option (String × String)). elim d [
            | some (path, other) ↦ raised (duplicate path other)
            | none ↦ ticked (run_plan e before budget p)
          ])
          k
