-- ===== src/Fleet/Examples.antt =====
-- A concrete registry for src/pic_agentic/fleet.py.
use pic_agentic.Common.{◌≡◌, refl, false, none, some, [], ◌∷◌, inl, inr, length, count_if, elem}
use pic_agentic.Common.Dict.{Dict}
use pic_agentic.Common.Float.{pos, fin}
use pic_agentic.Server.Registry.{SimRecord, fresh_record, is_terminal, list_records}
use pic_agentic.Server.Registry.Sound.{IsSound}
use pic_agentic.Fleet.{fleet_summary, detect_alerts}
use pic_agentic.Fleet.Totals.{
  IsPartition, is_failure_alert, fleet_summary-IsPartition, count_if-detect_alerts,
}

abbrev lost : SimRecord
lost = record (fresh_record "run_2" "cmd_2") {
  state = "simulation.job_failed";
  last_event_type = some "simulation.job_failed";
  active = false;
}

abbrev registry : Dict SimRecord
registry = ("run_1", fresh_record "run_1" "cmd_1") ∷ ("run_2", lost) ∷ []

fresh-IsSound : IsSound "run_1" (fresh_record "run_1" "cmd_1")
unfolding is_terminal elem
fresh-IsSound = record { own = refl; activity = refl; suspicion = inr refl; typed = inl refl }

lost-IsSound : IsSound "run_2" lost
unfolding is_terminal elem
lost-IsSound = record { own = refl; activity = refl; suspicion = inr refl; typed = inr refl }

fleet_summary-IsPartition_example :
    IsPartition (fleet_summary (list_records false registry))
    × ((fleet_summary (list_records false registry)).total ≡ length registry)
fleet_summary-IsPartition_example =
    fleet_summary-IsPartition registry (fresh-IsSound, (lost-IsSound, tt))

count_if-detect_alerts_example :
    count_if is_failure_alert
      (detect_alerts (λ ts. none) (fin (pos 600)) (lost ∷ fresh_record "run_1" "cmd_1" ∷ []))
    ≡ (fleet_summary (lost ∷ fresh_record "run_1" "cmd_1" ∷ [])).failed
count_if-detect_alerts_example =
    count_if-detect_alerts (λ ts. none) (fin (pos 600)) (lost ∷ fresh_record "run_1" "cmd_1" ∷ [])

-- One record fails and one builds.
summary_test : (fleet_summary (list_records false registry)).failed ≡ 1
unfolding fleet_summary list_records elem
summary_test = refl
