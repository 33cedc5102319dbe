-- ===== src/Agenda/Campaign.antt =====
-- src/pic_agentic/agenda/campaign.py: the persisted campaign and its callbacks.
use pic_agentic.Common.{
  String, Bool, true, false, Option, none, some, List, is_empty, if◌then◌else◌,
}
use pic_agentic.Common.Value.{Fields}
use pic_agentic.Agenda.Model.{AgendaGroup}
use pic_agentic.Agenda.Budget.{Budget, BudgetUsage}

pub data CampaignState : Type 0 where
  active paused stopped : CampaignState

-- A tick reports the lifecycle state, or that all work is finished.
pub data TickState : Type 0 where
  lifecycle : CampaignState → TickState
  complete : TickState

pub data CallbackKind : Type 0 where
  done_callback failed_callback : CallbackKind

pub record Callback : Type 0 where
  pub path : String
  pub kind : CallbackKind
  pub sim_id : Option String
  pub ts : Option String
  pub error : Option String
  pub error_code : Option String
  pub stage : Option String
  pub suspect : Option String

pub record Campaign : Type 0 where
  pub name : String
  pub agenda : AgendaGroup
  pub budget : Budget
  pub usage : BudgetUsage
  pub created_ts : Option String
  pub callbacks : List Callback
  pub state : CampaignState
  pub analyses : Fields
  pub conclusion : Option String

-- `if text` of an optional text: neither `None` nor empty
abbrev pub truthy : Option String → Bool
truthy none = false
truthy (some s) = if is_empty s then false else true

-- `with_created_ts`
unfoldable pub with_created_ts : String → Campaign → Campaign
with_created_ts now c = if truthy c.created_ts then c else record c { created_ts = some now }
