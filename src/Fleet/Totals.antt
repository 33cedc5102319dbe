-- ===== src/Fleet/Totals.antt =====
-- src/pic_agentic/fleet.py: the counts against each other, the registry and the alerts.
use mathlib.Core.Path.{subst}
use pic_agentic.Common.{
  ℕ, suc, ◌+◌, ◌≤◌, String, ◌≡◌, refl, sym, ap, ◌∙◌, Bool, true, false, not, ◌&&◌, ◌||◌, Option,
  none, some, List, [], ◌∷◌, inl, inr, ◌⊎◌, arith, eq_iff, elem, length, count_if, Bool-cases,
  Option-cases, if◌then◌else◌, text_le,
}
use pic_agentic.Common.Dict.{Dict, AllItems}
use pic_agentic.Common.Float.{ℤ, Float}
use pic_agentic.Server.Registry.{SimRecord, is_terminal, list_records}
use pic_agentic.Server.Registry.Sound.{IsSound}
use pic_agentic.Server.Wait.{is_permanent_reason}
use pic_agentic.Fleet.{
  done_states, FleetSummary, empty_summary, one_if, is_true, as_int, nonzero, is_done, is_failed,
  is_cancelled, add_record, add_records, fleet_summary, failed, cancelled, nonzero_exit, suspect,
  blocked, stalled, FleetAlert, is_stalled, alert, quiet_alert, exit_alert, alert_of, insert_record,
  sort_records, collect_alerts, detect_alerts,
}

-- Each record is counted once as active or terminal, and once as running, done or failed.
pub record IsPartition (s : FleetSummary) : Type 0 where
  pub by_activity : s.active + s.terminal ≡ s.total
  pub by_outcome : s.running + (s.done + s.failed) ≡ s.total
  pub suspects : s.suspect ≤ s.done

one_if-add : (b : Bool) (n : ℕ) → one_if b n ≡ n + (if b then 1 else 0)
one_if-add true n = refl
one_if-add false n = omega arith

-- What the loop adds for a record of the registry.
outcome_once :
    (key : String) (r : SimRecord)
    → IsSound key r
    → (if r.active && (not (is_done r) && not (is_failed r)) then 1 else 0)
        + ((if is_done r then 1 else 0)
            + (if not (is_done r) && (is_failed r || is_cancelled r) then 1 else 0))
      ≡ 1
unfolding is_done is_failed is_cancelled is_terminal elem
outcome_once key r h = ground (arith, h.activity)

suspect_le : (a b : Bool) (n m : ℕ) → n ≤ m → one_if (a && b) n ≤ one_if a m
suspect_le a b n m h = ground (arith, h)

add_record-IsPartition :
    (key : String) (r : SimRecord) (s : FleetSummary)
    → IsSound key r
    → IsPartition s
    → IsPartition (add_record r s)
unfolding add_record
add_record-IsPartition key r s sound h = record {
  by_activity = activity_once r.active s.active s.terminal s.total h.by_activity;
  by_outcome = omega (
    arith,
    outcome_once key r sound,
    h.by_outcome,
    one_if-add (r.active && (not (is_done r) && not (is_failed r))) s.running,
    one_if-add (is_done r) s.done,
    one_if-add (not (is_done r) && (is_failed r || is_cancelled r)) s.failed,
  );
  suspects = suspect_le (is_done r) (is_true (r.fields "suspect")) s.suspect s.done h.suspects;
}
  where
    activity_once : (b : Bool) (x y z : ℕ) → x + y ≡ z → one_if b x + one_if (not b) y ≡ z + 1
    activity_once true x y z h = omega (arith, h)
    activity_once false x y z h = omega (arith, h)

add_records-IsPartition :
    (d : Dict SimRecord) (s : FleetSummary)
    → AllItems IsSound d
    → IsPartition s
    → IsPartition (add_records (list_records false d) s)
unfolding add_records list_records
add_records-IsPartition [] s sound h = h
add_records-IsPartition ((key, r) ∷ d) s sound h =
    add_records-IsPartition d (add_record r s) sound.1 (add_record-IsPartition key r s sound.0 h)

add_records-total :
    (rs : List SimRecord) (s : FleetSummary) → (add_records rs s).total ≡ s.total + length rs
unfolding add_records add_record
add_records-total [] s = omega arith
add_records-total (r ∷ rs) s = omega (arith, add_records-total rs (add_record r s))

length-list_records : (d : Dict SimRecord) → length (list_records false d) ≡ length d
unfolding list_records
length-list_records [] = refl
length-list_records (x ∷ d) = ap (λ (n : ℕ). suc n) (length-list_records d)

-- Over a registry of sound records, each is counted once as active or terminal, and once as running,
-- done or failed; the suspects are among the done, and the total is the number of records.
pub fleet_summary-IsPartition :
    (registry : Dict SimRecord)
    → AllItems IsSound registry
    → let s = fleet_summary (list_records false registry) in
      IsPartition s × (s.total ≡ length registry)
unfolding fleet_summary
fleet_summary-IsPartition registry sound = (
  add_records-IsPartition registry empty_summary sound
      (record { by_activity = refl; by_outcome = refl; suspects = omega arith }),
  omega (
    arith,
    add_records-total (list_records false registry) empty_summary,
    length-list_records registry,
  ),
)

-- A record that the summary counts as failed.
abbrev pub is_failure : SimRecord → Bool
is_failure r = not (is_done r) && (is_failed r || is_cancelled r)

unfoldable pub is_failure_alert : FleetAlert → Bool
is_failure_alert a = elim a.kind [
  | failed state ↦ true
  | cancelled state ↦ true
  | nonzero_exit code ↦ false
  | suspect text ↦ false
  | blocked reason ↦ false
  | stalled idle ↦ false
]

add_records-failed :
    (rs : List SimRecord) (s : FleetSummary)
    → (add_records rs s).failed ≡ s.failed + count_if is_failure rs
unfolding add_records add_record
add_records-failed [] s = omega arith
add_records-failed (r ∷ rs) s =
    omega (arith, add_records-failed rs (add_record r s), one_if-add (is_failure r) s.failed)

count_if-insert_record :
    (p : SimRecord → Bool) (r : SimRecord) (rs : List SimRecord)
    → count_if p (insert_record r rs) ≡ count_if p (r ∷ rs)
unfolding insert_record
count_if-insert_record p r [] = refl
count_if-insert_record p r (q ∷ rs) = elim (Bool-cases (text_le q.sim_id r.sim_id)) [
  | inl later ↦ rw later (omega (arith, count_if-insert_record p r rs))
  | inr first ↦ rw first refl
]

count_if-sort_records :
    (p : SimRecord → Bool) (rs sorted : List SimRecord)
    → count_if p (sort_records rs sorted) ≡ count_if p rs + count_if p sorted
unfolding sort_records
count_if-sort_records p [] sorted = omega arith
count_if-sort_records p (r ∷ rs) sorted =
    omega (
      arith,
      count_if-sort_records p rs (insert_record r sorted),
      count_if-insert_record p r sorted,
    )

one_of_two : (x a b : String) → elem x (a ∷ b ∷ []) ≡ true → (a ≡ x) ⊎ (b ≡ x)
unfolding elem
one_of_two x a b h = ground (arith, eq_iff a x, eq_iff b x)

failed_apart : (r : SimRecord) → is_failed r ≡ true → is_done r ≡ false
unfolding is_failed is_done elem
failed_apart r h = elim (one_of_two r.state "simulation.failed" "simulation.job_failed" h) [
  | inl e ↦ subst (λ (state : String). elem state done_states ≡ false) e refl
  | inr e ↦ subst (λ (state : String). elem state done_states ≡ false) e refl
]

cancelled_apart : (r : SimRecord) → is_cancelled r ≡ true → is_done r ≡ false
unfolding is_cancelled is_done elem
cancelled_apart r h =
    subst (λ (state : String). elem state done_states ≡ false)
      ((eq_iff "simulation.cancelled" r.state).0 h) refl

module _ (idle_since : String → Option Float) (stall_after : Float) where
  abbrev alerts_failure : Option FleetAlert → Bool
  alerts_failure none = false
  alerts_failure (some a) = is_failure_alert a

  quiet_alert-failure :
      (r : SimRecord) → alerts_failure (quiet_alert idle_since stall_after r) ≡ false
  unfolding quiet_alert is_failure_alert
  quiet_alert-failure r = elim (Bool-cases (is_done r && is_true (r.fields "suspect"))) [
    | inl empty ↦ rw empty refl
    | inr sound ↦ elim (Bool-cases (r.active && is_permanent_reason (r.fields "slurm_reason"))) [
      | inl stuck ↦ rw (sound, stuck) refl
      | inr waits ↦ elim (Option-cases (is_stalled idle_since stall_after r)) [
        | inl lively ↦ rw (sound, waits, lively) refl
        | inr (idle, late) ↦ rw (sound, waits, late) refl
      ]
    ]
  ]

  exit_alert-failure :
      (r : SimRecord) → alerts_failure (exit_alert idle_since stall_after r) ≡ false
  unfolding is_failure_alert
  exit_alert-failure r = elim (Option-cases (nonzero (as_int (r.fields "exit_code")))) [
    | inl clean ↦ rw (alerts_failure, exit_alert, clean) (quiet_alert-failure r)
    | inr (code, bad) ↦ rw (alerts_failure, exit_alert, bad) (ended code r.active)
  ]
    where
      ended :
          (code : ℤ) (b : Bool)
          → alerts_failure (
              if b
              then quiet_alert idle_since stall_after r
              else alert idle_since stall_after r (nonzero_exit code))
            ≡ false
      ended code true = quiet_alert-failure r
      ended code false = refl

  alert_of-failure :
      (r : SimRecord) → alerts_failure (alert_of idle_since stall_after r) ≡ is_failure r
  unfolding alert_of is_failure_alert
  alert_of-failure r = elim (Bool-cases (is_failed r)) [
    | inl broken ↦ rw (broken, failed_apart r broken) refl
    | inr whole ↦ elim (Bool-cases (is_cancelled r)) [
      | inl stopped ↦ rw (whole, stopped, cancelled_apart r stopped) refl
      | inr going ↦
          rw (whole, going)
            (exit_alert-failure r ∙ elim (Bool-cases (is_done r)) [
              | inl done ↦ rw done refl
              | inr undone ↦ rw undone refl
            ])
    ]
  ]

  count_if-collect_alerts :
      (rs : List SimRecord)
      → count_if is_failure_alert (collect_alerts idle_since stall_after rs)
        ≡ count_if is_failure rs
  unfolding collect_alerts
  count_if-collect_alerts [] = refl
  count_if-collect_alerts (r ∷ rs) = elim (Option-cases (alert_of idle_since stall_after r)) [
    | inl quiet ↦
        let plain : is_failure r ≡ false = sym (alert_of-failure r) ∙ ap alerts_failure quiet in
        rw (collect_alerts, quiet, plain) (omega (arith, count_if-collect_alerts rs))
    | inr (a, loud) ↦
        let same : is_failure_alert a ≡ is_failure r =
          sym (ap alerts_failure loud) ∙ alert_of-failure r in
        rw (collect_alerts, loud, same) (omega (arith, count_if-collect_alerts rs))
  ]

  -- The number of failures and cancels among the alerts is the number of failed records in the
  -- summary.
  pub count_if-detect_alerts :
      (records : List SimRecord)
      → count_if is_failure_alert (detect_alerts idle_since stall_after records)
        ≡ (fleet_summary records).failed
  unfolding detect_alerts fleet_summary
  count_if-detect_alerts records = omega (
    arith,
    count_if-collect_alerts (sort_records records []),
    count_if-sort_records is_failure records [],
    add_records-failed records empty_summary,
  )
