-- ===== src/Fleet.antt =====
-- src/pic_agentic/fleet.py: the counts and the alerts over the records of the registry. The parsing
-- of time stamps and the clock are a parameter; the text of an alert is the data that it shows.
pub mod Totals
mod Examples
use pic_agentic.Common.{
  ℕ, suc, ◌+◌, String, Bool, true, false, not, ◌&&◌, ◌||◌, Option, none, some, List, [], ◌∷◌, ◌++◌,
  elem, is_empty, str_eq, text_le, nat_eq, if◌then◌else◌,
}
use pic_agentic.Common.Dict.{Dict, get, put}
use pic_agentic.Common.Float.{ℤ, pos, negsuc, ◌+ℤ◌, Float, nan, inf, neg_inf, fin, gtb}
use pic_agentic.Common.Value.{
  Value, null, bool, int, float, str, list, dict, Items, nil, cons, Fields, end, field,
}
use pic_agentic.Protocol.{SimulationPhase, running, phase_value, simulation_phase}
use pic_agentic.Server.Registry.{SimRecord}
use pic_agentic.Server.Wait.{is_permanent_reason}

abbrev pub done_states : List String
done_states = "results.ready" ∷ "simulation.job_finished" ∷ []

abbrev pub failed_states : List String
failed_states = "simulation.failed" ∷ "simulation.job_failed" ∷ []

pub record FleetSummary : Type 0 where
  pub total : ℕ
  pub active : ℕ
  pub terminal : ℕ
  pub running : ℕ
  pub done : ℕ
  pub failed : ℕ
  pub suspect : ℕ
  pub by_state : Dict ℕ
  pub by_phase : Dict ℕ
  -- the sum and the number of the percentages, whose quotient is the mean
  pub percent_sum : ℤ
  pub percent_count : ℕ

abbrev pub empty_summary : FleetSummary
empty_summary = record {
  total = 0;
  active = 0;
  terminal = 0;
  running = 0;
  done = 0;
  failed = 0;
  suspect = 0;
  by_state = [];
  by_phase = [];
  percent_sum = pos 0;
  percent_count = 0;
}

-- Python's truth of a value.
abbrev pub is_true : Value → Bool
is_true null = false
is_true (bool b) = b
is_true (int (pos n)) = not (nat_eq n 0)
is_true (int (negsuc n)) = true
is_true (float (fin (pos n))) = not (nat_eq n 0)
is_true (float x) = true
is_true (str s) = not (is_empty s)
is_true (list nil) = false
is_true (list (cons x xs)) = true
is_true (dict end) = false
is_true (dict (field k v rest)) = true

-- `isinstance(value, int)`, with the value; a Boolean is an `int`.
abbrev pub as_int : Value → Option ℤ
as_int (int n) = some n
as_int (bool true) = some (pos 1)
as_int (bool false) = some (pos 0)
as_int _ = none

-- `counts[key] = counts.get(key, 0) + 1`
abbrev pub counted : String → Dict ℕ → Dict ℕ
counted key counts = put key (elim (get key counts) [ none ↦ 1 | some n ↦ n + 1 ]) counts

abbrev pub one_if : Bool → ℕ → ℕ
one_if b n = if b then n + 1 else n

unfoldable pub is_done : SimRecord → Bool
is_done r = elem r.state done_states

unfoldable pub is_failed : SimRecord → Bool
is_failed r = elem r.state failed_states

unfoldable pub is_cancelled : SimRecord → Bool
is_cancelled r = str_eq "simulation.cancelled" r.state

-- `isinstance(exit_code, int) and exit_code != 0`
abbrev pub nonzero : Option ℤ → Option ℤ
nonzero none = none
nonzero (some (pos n)) = if nat_eq n 0 then none else some (pos n)
nonzero (some (negsuc n)) = some (negsuc n)

-- One round of the loop of `fleet_summary`.
unfoldable pub add_record : SimRecord → FleetSummary → FleetSummary
unfolding is_done is_failed is_cancelled simulation_phase
add_record r s =
    let percent = as_int (r.fields "percent") in
    record {
      total = s.total + 1;
      active = one_if r.active s.active;
      terminal = one_if (not r.active) s.terminal;
      done = one_if (is_done r) s.done;
      suspect = one_if (is_done r && is_true (r.fields "suspect")) s.suspect;
      failed = one_if (not (is_done r) && (is_failed r || is_cancelled r)) s.failed;
      running = one_if (r.active && (not (is_done r) && not (is_failed r))) s.running;
      by_state = counted r.state s.by_state;
      by_phase = counted (phase_value (simulation_phase r.state (r.fields "job_id"))) s.by_phase;
      percent_sum = elim percent [ none ↦ s.percent_sum | some n ↦ s.percent_sum +ℤ n ];
      percent_count = elim percent [ none ↦ s.percent_count | some n ↦ s.percent_count + 1 ];
    }

-- The loop; the final sorting of the two counts by key is left out.
unfoldable pub add_records : List SimRecord → FleetSummary → FleetSummary
unfolding add_record
add_records [] s = s
add_records (r ∷ rs) s = add_records rs (add_record r s)

unfoldable pub fleet_summary : List SimRecord → FleetSummary
unfolding add_records
fleet_summary records = add_records records empty_summary

pub data AlertKind : Type 0 where
  failed cancelled : String → AlertKind
  nonzero_exit : ℤ → AlertKind
  suspect : Value → AlertKind
  blocked : Value → AlertKind
  stalled : Float → AlertKind

pub record FleetAlert : Type 0 where
  pub sim_id : String
  pub kind : AlertKind
  pub last_event_ts : Option String

-- `sorted(records, key=...)`, by insertion behind the equal keys.
unfoldable pub insert_record : SimRecord → List SimRecord → List SimRecord
insert_record r [] = r ∷ []
insert_record r (q ∷ rest) =
    let later = insert_record r rest in
    if text_le q.sim_id r.sim_id then q ∷ later else r ∷ q ∷ rest

unfoldable pub sort_records : List SimRecord → List SimRecord → List SimRecord
unfolding insert_record
sort_records [] sorted = sorted
sort_records (r ∷ rs) sorted = sort_records rs (insert_record r sorted)

-- The seconds since a time stamp; `none` is one that does not parse.
module _ (idle_since : String → Option Float) (stall_after : Float) where
  abbrev pub past_limit : Option Float → Option Float
  past_limit none = none
  past_limit (some idle) = if gtb idle stall_after then some idle else none

  abbrev pub is_running_phase : SimulationPhase → Bool
  is_running_phase running = true
  is_running_phase _ = false

  abbrev pub idle_of : Option String → Option Float
  idle_of none = none
  idle_of (some ts) = if is_empty ts then none else past_limit (idle_since ts)

  -- `_is_stalled`
  unfoldable pub is_stalled : SimRecord → Option Float
  unfolding simulation_phase
  is_stalled r =
      if r.active && is_running_phase (simulation_phase r.state (r.fields "job_id"))
      then idle_of r.last_event_ts
      else none

  abbrev pub alert : SimRecord → AlertKind → Option FleetAlert
  alert r kind = some (record { sim_id = r.sim_id; kind = kind; last_event_ts = r.last_event_ts })

  -- The alert of a record that is neither failed nor cancelled.
  unfoldable pub quiet_alert : SimRecord → Option FleetAlert
  unfolding is_done is_permanent_reason is_stalled
  quiet_alert r =
      if is_done r && is_true (r.fields "suspect")
      then alert r (suspect (r.fields "suspect"))
      else if r.active && is_permanent_reason (r.fields "slurm_reason")
      then alert r (blocked (r.fields "slurm_reason"))
      else elim (is_stalled r) [ none ↦ none | some idle ↦ alert r (stalled idle) ]

  abbrev pub exit_alert : SimRecord → Option FleetAlert
  exit_alert r = elim (nonzero (as_int (r.fields "exit_code"))) [
    | none ↦ quiet_alert r
    | some code ↦ if r.active then quiet_alert r else alert r (nonzero_exit code)
  ]

  -- One round of the loop of `detect_alerts`.
  unfoldable pub alert_of : SimRecord → Option FleetAlert
  unfolding is_failed is_cancelled quiet_alert
  alert_of r =
      if is_failed r
      then alert r (failed r.state)
      else if is_cancelled r
      then alert r (cancelled r.state)
      else exit_alert r

  unfoldable pub collect_alerts : List SimRecord → List FleetAlert
  unfolding alert_of
  collect_alerts [] = []
  collect_alerts (r ∷ rs) =
      let rest = collect_alerts rs in elim (alert_of r) [ none ↦ rest | some a ↦ a ∷ rest ]

  unfoldable pub detect_alerts : List SimRecord → List FleetAlert
  unfolding sort_records collect_alerts
  detect_alerts records = collect_alerts (sort_records records [])
