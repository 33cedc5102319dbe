-- ===== src/Agenda/Engine.antt =====
-- src/pic_agentic/agenda/engine.py: what the engine is given, its policy and the outcome of a tick.
pub mod Hashing
pub mod Gates
pub mod Observe
pub mod Submit
pub mod Report
pub mod Run
mod Examples
use pic_agentic.Common.{ℕ, String, Bool, true, false, Option, none, some, List, [], ◌∷◌, ◌++◌}
use pic_agentic.Common.Dict.{Dict}
use pic_agentic.Common.Float.{Float}
use pic_agentic.Common.Value.{Fields}
use pic_agentic.Agenda.Budget.{Budget, BudgetUsage}
use pic_agentic.Agenda.Planner.{Pydantic}
use pic_agentic.Agenda.Campaign.{CampaignState, TickState, Callback, Campaign}

pub record ActualUsage : Type 0 where
  pub core_hours : Float
  pub gpu_hours : Float
  pub is_gpu : Bool

pub record FailureInfo : Type 0 where
  pub error : Option String
  pub error_code : Option String
  pub stage : Option String

pub record SuspectInfo : Type 0 where
  pub warning : String

-- What the engine reads of a `ReuseRecord` of src/pic_agentic/agenda/reuse.py.
pub record Reusable : Type 0 where
  pub sim_id : String
  pub run_id : Option String

-- How the call of `submit` ends: the acknowledged simulation id; a `TransientSubmitError`, with the
-- time at which it is handled; or any other exception.
pub data Outcome : Type 0 where
  acknowledged : String → Outcome
  transient : (message : String) (error_code sim_id : Option String) (now : ℕ) → Outcome
  rejected : (message : String) (error_code stage : Option String) → Outcome

-- Times are in microseconds, and so is the window of deferral.
pub record EnginePolicy : Type 0 where
  pub max_submits_per_tick : ℕ
  pub require_approval : Bool
  pub approve_over_est_core_hours : Option Float
  pub deferred_outcome_timeout : ℕ

-- A lookup that was injected or not, and that returns or raises.
abbrev pub Lookup : Type 0 → Type 0
Lookup A = Option (Option (Dict A))

-- `self.lookup()` where nothing, and an exception, count as an empty mapping
abbrev pub looked_up : {A : Type 0} → Lookup A → Dict A
looked_up none = []
looked_up (some none) = []
looked_up (some (some d)) = d

-- What the engine holds, and what its injected callables answer during one tick. The hash of a
-- canonical JSON text, the digest of a key, the clock's texts and the messages are parameters.
pub record Engine : Type 0 where
  pub pydantic : Pydantic
  pub budget_override : Option Budget
  pub policy : EnginePolicy
  pub approve : Option (String → Bool)
  pub submit : Fields → String → Outcome
  pub observed : Dict String
  pub failures : Lookup FailureInfo
  pub suspects : Lookup SuspectInfo
  pub actuals : Lookup ActualUsage
  pub reuse_lookup : Option (String → Option Reusable)
  pub records_reuse : Bool
  pub reuse_key : Option (Fields → Option Fields → String)
  pub spec_hash : Fields → String
  pub digest : String → String
  pub utc_now_iso : String
  pub format_ts : ℕ → String
  pub parse_ts : String → Option ℕ
  pub duplicate_message : String → String → String
  pub validation_message : String
  pub decimal : ℕ → String
  pub timeout_message : ℕ → ℕ → String → String → String

pub record FailureGroup : Type 0 where
  pub error_code : Option String
  pub stage : Option String
  pub message : String
  pub paths : List String

pub record TickResult : Type 0 where
  pub submitted : List String
  pub pending_approval : List String
  pub waiting : List String
  pub deferred : List String
  pub done : List String
  pub failed : List String
  pub reused : List String
  pub complete : Bool
  pub usage : BudgetUsage
  pub callbacks : List Callback
  pub failure_groups : List FailureGroup
  pub failure_summary : Option String
  pub suspects : Dict String
  pub state : TickState
  pub lifecycle : CampaignState
  pub held : List String
