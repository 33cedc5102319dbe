-- ===== src/Agenda/Engine/Gates/Open.antt =====
-- src/pic_agentic/agenda/engine.py: when `_submission_block` lets a submission through.
use pic_agentic.Common.{
  ℕ, ◌<◌, ◌≡◌, refl, ap, Bool, true, false, not, Option, none, some, ◌↔◌, arith, leb, length,
  if◌then◌else◌,
}
use pic_agentic.Agenda.Planner.{PlanStep}
use pic_agentic.Agenda.Addressing.{leaf_at}
use pic_agentic.Agenda.Campaign.{CampaignState, active, paused, stopped, Campaign}
use pic_agentic.Agenda.Engine.{Engine, TickResult}
use pic_agentic.Agenda.Engine.Gates.Approval.{IsApproved, may_submit_iff}
use pic_agentic.Agenda.Engine.Gates.{
  Bucket, held, waiting, pending_approval, submission_block, may_submit, is_active, reached,
}

-- Jobs in flight that leave room for one more under the cap, if there is one.
abbrev pub HasRoomFor : Option ℕ → ℕ → Type 0
HasRoomFor none in_flight = Unit
HasRoomFor (some cap) in_flight = in_flight < cap

-- Every gate is open.
pub record IsOpen (e : Engine) (c : Campaign) (step : PlanStep) (count in_flight : ℕ)
    (cap : Option ℕ) : Type 0 where
  pub is_running : c.state ≡ active
  pub in_tick : count < e.policy.max_submits_per_tick
  pub has_room : HasRoomFor cap in_flight
  pub is_approved : IsApproved e (leaf_at c.agenda step.path) step

pub reached→room : (cap : Option ℕ) (n : ℕ) → reached cap n ≡ false → HasRoomFor cap n
reached→room none n h = tt
reached→room (some cap) n h = ground arith

pub room→reached : (cap : Option ℕ) (n : ℕ) → HasRoomFor cap n → reached cap n ≡ false
room→reached none n h = refl
room→reached (some cap) n h = ground arith

pub is_active→≡ : (s : CampaignState) → is_active s ≡ true → s ≡ active
is_active→≡ active h = refl
is_active→≡ paused h = cc
is_active→≡ stopped h = cc

-- The tests of `_submission_block`, by what they answer.
abbrev pub gates : Bool → ℕ → ℕ → Bool → Bool → Option Bucket
gates running limit count full approved =
    if not running
    then some held
    else if leb limit count
    then some waiting
    else if full
    then some waiting
    else if not approved
    then some pending_approval
    else none

gates_open :
    (running : Bool) (limit count : ℕ) (full approved : Bool)
    → gates running limit count full approved ≡ none
    → (running ≡ true) × (count < limit) × (full ≡ false) × (approved ≡ true)
gates_open running limit count full approved h =
    (ground arith, ground arith, ground arith, ground arith)

gates_pass :
    (running : Bool) (limit count : ℕ) (full approved : Bool)
    → running ≡ true
    → count < limit
    → full ≡ false
    → approved ≡ true
    → gates running limit count full approved ≡ none
gates_pass running limit count full approved h0 h1 h2 h3 = ground arith

-- A step passes `_submission_block` exactly when the campaign is running, fewer than
-- `max_submits_per_tick` leaves were submitted in this tick, the jobs in flight have not reached the
-- cap on concurrent jobs, and `_may_submit` accepts the leaf.
pub submission_block-none_iff :
    (e : Engine) (c : Campaign) (step : PlanStep) (r : TickResult) (in_flight : ℕ) (cap : Option ℕ)
    → (submission_block e c step.path step r in_flight cap ≡ none)
      ↔ IsOpen e c step (length r.submitted) in_flight cap
unfolding submission_block
submission_block-none_iff e c step r n cap =
    let limit = e.policy.max_submits_per_tick in
    let count = length r.submitted in
    let approved = may_submit e (leaf_at c.agenda step.path) step in
    (
      λ h.
          let (running, early, room, ok) =
            gates_open (is_active c.state) limit count (reached cap n) approved h in
          record {
            is_running = is_active→≡ c.state running;
            in_tick = early;
            has_room = reached→room cap n room;
            is_approved = (may_submit_iff e (leaf_at c.agenda step.path) step).0 ok;
          },
      λ o.
          gates_pass (is_active c.state) limit count (reached cap n) approved
            (ap is_active o.is_running) o.in_tick (room→reached cap n o.has_room)
            ((may_submit_iff e (leaf_at c.agenda step.path) step).1 o.is_approved),
    )
