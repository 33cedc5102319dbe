-- ===== src/Agenda/Engine/Gates/Answers.antt =====
-- src/pic_agentic/agenda/engine.py: what each answer of `_submission_block` tells.
use pic_agentic.Common.{
  ℕ, ◌<◌, ◌≤◌, ◌⊎◌, inl, inr, Bool-cases, leb→le, ◌≡◌, refl, ap, Bool, true, false, Option, none,
  some, arith, leb, length,
}
use pic_agentic.Agenda.Planner.{PlanStep}
use pic_agentic.Agenda.Addressing.{leaf_at}
use pic_agentic.Agenda.Campaign.{CampaignState, active, Campaign}
use pic_agentic.Agenda.Engine.{Engine, TickResult}
use pic_agentic.Agenda.Engine.Gates.{
  Bucket, held, waiting, pending_approval, submission_block, may_submit, is_active, reached,
}
use pic_agentic.Agenda.Engine.Gates.Approval.{IsApproved, may_submit_iff}
use pic_agentic.Agenda.Engine.Gates.Open.{
  HasRoomFor, IsOpen, gates, is_active→≡, reached→room, room→reached, submission_block-none_iff,
}

gates-held :
    (running : Bool) (limit count : ℕ) (full approved : Bool)
    → gates running limit count full approved ≡ some held
    → running ≡ false
gates-held false limit count full approved h = refl
gates-held true limit count full approved h = ground (arith, h)

gates-waiting :
    (running : Bool) (limit count : ℕ) (full approved : Bool)
    → gates running limit count full approved ≡ some waiting
    → (running ≡ true) × ((limit ≤ count) ⊎ (full ≡ true))
gates-waiting running limit count full approved h = elim (Bool-cases (leb limit count)) [
  | inl late ↦ (ground (arith, h), inl (leb→le limit count late))
  | inr early ↦ (ground (arith, h), inr (ground (arith, h, early)))
]

gates-pending :
    (running : Bool) (limit count : ℕ) (full approved : Bool)
    → gates running limit count full approved ≡ some pending_approval
    → (running ≡ true) × (count < limit) × (full ≡ false) × (approved ≡ false)
gates-pending running limit count full approved h =
    (ground arith, ground arith, ground arith, ground arith)

-- What each answer of the gates tells.
abbrev pub Answers : Engine → Campaign → PlanStep → ℕ → ℕ → Option ℕ → Option Bucket → Type 0
Answers e c step count in_flight cap none = IsOpen e c step count in_flight cap
Answers e c step count in_flight cap (some held) = ¬ (c.state ≡ active)
Answers e c step count in_flight cap (some waiting) =
    (c.state ≡ active) × ((e.policy.max_submits_per_tick ≤ count) ⊎ (¬ HasRoomFor cap in_flight))
Answers e c step count in_flight cap (some pending_approval) =
    (c.state ≡ active)
    × (count < e.policy.max_submits_per_tick)
    × HasRoomFor cap in_flight
    × ¬ IsApproved e (leaf_at c.agenda step.path) step

inactive : (s : CampaignState) → is_active s ≡ false → ¬ (s ≡ active)
inactive s h same = let runs : is_active s ≡ true = ap is_active same in cc

module _ (e : Engine) (c : Campaign) (step : PlanStep) (r : TickResult) (in_flight : ℕ)
    (cap : Option ℕ) where
  answered :
      (o : Option Bucket)
      → submission_block e c step.path step r in_flight cap ≡ o
      → Answers e c step (length r.submitted) in_flight cap o
  unfolding submission_block
  answered none h = (submission_block-none_iff e c step r in_flight cap).0 h
  answered (some held) h = inactive c.state (
      gates-held (is_active c.state) e.policy.max_submits_per_tick (length r.submitted)
        (reached cap in_flight) (may_submit e (leaf_at c.agenda step.path) step) h)
  answered (some waiting) h =
      let (running, full) =
        gates-waiting (is_active c.state) e.policy.max_submits_per_tick (length r.submitted)
          (reached cap in_flight) (may_submit e (leaf_at c.agenda step.path) step) h in
      (
        is_active→≡ c.state running,
        elim full [
          | inl late ↦ inl late
          | inr at_cap ↦ inr (λ free. let open_ = room→reached cap in_flight free in cc)
        ],
      )
  answered (some pending_approval) h =
      let (running, early, room, other) =
        gates-pending (is_active c.state) e.policy.max_submits_per_tick (length r.submitted)
          (reached cap in_flight) (may_submit e (leaf_at c.agenda step.path) step) h in
      (
        is_active→≡ c.state running,
        early,
        reached→room cap in_flight room,
        λ ok. let accepted = (may_submit_iff e (leaf_at c.agenda step.path) step).1 ok in cc,
      )

  -- The answer of `_submission_block` is true, whichever it is: a step is held where the campaign is not
  -- running; it waits where the tick has submitted its number of leaves or the jobs in flight leave no
  -- room below the cap; it is pending where neither is so and the leaf is not approved; and it passes
  -- where the campaign is running, there is room under both limits, and the leaf is approved, by the
  -- injected predicate, by its flag, or because nothing asks for an approval and the estimated core hours
  -- are at most the threshold.
  pub submission_block-Answers :
      Answers e c step
        (length r.submitted)
        in_flight
        cap
        (submission_block e c step.path step r in_flight cap)
  submission_block-Answers = answered (submission_block e c step.path step r in_flight cap) refl
