-- ===== src/Server/Events.antt =====
-- src/pic_agentic/server/simulation.py: `_append_event_log` and `condense_events`.
pub mod Log
pub mod Condensed
use pic_agentic.Common.{
  ℕ, zero, suc, ◌-◌, String, Bool, true, false, not, ◌&&◌, ◌||◌, Option, none, some, List, [], ◌∷◌,
  ◌++◌, elem, is_empty, is_some, str_eq, text_le, leb, count_if, if◌then◌else◌,
}
use pic_agentic.Common.Value.{
  Value, null, bool, int, float, str, list, dict, Fields, end, field, get_field,
}
use pic_agentic.Rcp.Wire.{remove_field}
use pic_agentic.Rcp.Envelope.{Kind, event, command, ack, RcpMessage}
use pic_agentic.Protocol.{submit_event, type_value}
use pic_agentic.Server.Registry.{text_of}

abbrev pub is_event : RcpMessage → Bool
is_event m = elim m.kind [
  | event ↦ str_eq m.type (type_value submit_event)
  | command ↦ false
  | ack ↦ false
]

-- The filters of `condense_events`; `types` that are absent or none keep every state.
pub record Filter : Type 0 where
  pub sim_id : String
  pub since : Option String
  pub types : List String

abbrev pub is_since : Option String → String → Bool
is_since none ts = true
is_since (some since) ts = text_le since ts

abbrev pub is_wanted : List String → String → Bool
is_wanted [] state = true
is_wanted (t ∷ ts) state = elem state (t ∷ ts)

-- `condensed[-1].get("state") == state`
abbrev pub is_state : String → Option Value → Bool
is_state state (some (str s)) = str_eq s state
is_state state _ = false

abbrev pub max_event_page : ℕ
max_event_page = 200

abbrev pub capped : ℕ → ℕ
capped limit = if leb limit max_event_page then limit else max_event_page

-- The first rows of the newest-first list, put oldest first: `condensed[-capped:]`.
unfoldable pub last_rows : ℕ → List Fields → List Fields
last_rows zero rows = []
last_rows (suc n) [] = []
last_rows (suc n) (row ∷ rows) = last_rows n rows ++ row ∷ []

-- `{"ts": ts, **payload}`
unfoldable pub entry : RcpMessage → Fields
entry m = elim (get_field "ts" m.payload) [
  | none ↦ field "ts" (str m.ts) m.payload
  | some ts ↦ field "ts" ts (remove_field "ts" m.payload)
]

module _ (to_str : Value → String) where
  -- `str(entry.payload.get("sim_id", "")) == sim_id`
  unfoldable pub is_about : String → RcpMessage → Bool
  unfolding text_of
  is_about sim_id m = str_eq (text_of to_str "sim_id" m.payload) sim_id

  -- `del event_log[index]` for the first `n` indices of the entries of a simulation
  unfoldable pub drop_matching : ℕ → String → List RcpMessage → List RcpMessage
  drop_matching n sim_id [] = []
  drop_matching zero sim_id (m ∷ ms) = m ∷ ms
  drop_matching (suc n) sim_id (m ∷ ms) =
      let rest = drop_matching (if is_about sim_id m then n else suc n) sim_id ms in
      if is_about sim_id m then rest else m ∷ rest

  unfoldable pub append_event_log : ℕ → RcpMessage → List RcpMessage → List RcpMessage
  unfolding drop_matching
  append_event_log event_log_max m event_log =
      let appended = event_log ++ m ∷ [] in
      let sim_id = text_of to_str "sim_id" m.payload in
      drop_matching (count_if (is_about sim_id) appended - event_log_max) sim_id appended

  unfoldable pub selects : Filter → RcpMessage → Bool
  unfolding is_about
  selects f m =
      is_event m
      && (is_about f.sim_id m
          && (is_since f.since m.ts && is_wanted f.types (text_of to_str "state" m.payload)))

  -- The rows so far, the newest in front.
  unfoldable pub push_row : RcpMessage → List Fields → List Fields
  unfolding entry text_of
  push_row m [] = entry m ∷ []
  push_row m (row ∷ rows) =
      if is_state (text_of to_str "state" m.payload) (get_field "state" row)
      then entry m ∷ rows
      else entry m ∷ row ∷ rows

  unfoldable pub condense : Filter → List RcpMessage → List Fields → List Fields
  unfolding selects push_row
  condense f [] rows = rows
  condense f (m ∷ ms) rows = condense f ms (if selects f m then push_row m rows else rows)

  -- A negative `limit` is 0 here.
  unfoldable pub condense_events : Filter → ℕ → List RcpMessage → List Fields
  unfolding condense last_rows
  condense_events f limit event_log = last_rows (capped limit) (condense f event_log [])
