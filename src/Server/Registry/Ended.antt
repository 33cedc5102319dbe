-- ===== src/Server/Registry/Ended.antt =====
-- src/pic_agentic/server/simulation.py: the events that a finished run ignores.
use pic_agentic.Common.{
  text_le, String, ◌≡◌, refl, true, false, some, inl, inr, arith, eq_iff, is_empty, str_eq,
  Bool-cases,
}
use pic_agentic.Common.Dict.{Dict, get}
use pic_agentic.Common.Value.{Value}
use pic_agentic.Rcp.Envelope.{RcpMessage}
use pic_agentic.Server.Registry.{
  SimRecord, is_terminal, text_of, starts_run, record_for, is_foreign, project_event,
}

-- An event that does not start a run beside the record's: it names no command or the record's, or it
-- is older than the record's last event.
pub data IsOld (to_str : Value → String) (m : RcpMessage) (r : SimRecord) : Type 0 where
  unnamed : text_of to_str "cmd_id" m.payload ≡ "" → IsOld to_str m r
  same_run : text_of to_str "cmd_id" m.payload ≡ r.cmd_id → IsOld to_str m r
  older :
      (last : String) → r.last_event_ts ≡ some last → text_le last m.ts ≡ false → IsOld to_str m r

module _ (to_str : Value → String) where
  starts_run-IsOld :
      (m : RcpMessage) (r : SimRecord)
      → IsOld to_str m r
      → starts_run to_str (text_of to_str "cmd_id" m.payload) m.ts r ≡ false
  unfolding starts_run
  starts_run-IsOld m r (unnamed e) = rw e refl
  starts_run-IsOld m r (same_run e) =
      let same : str_eq (text_of to_str "cmd_id" m.payload) r.cmd_id ≡ true =
        (eq_iff (text_of to_str "cmd_id" m.payload) r.cmd_id).1 e in
      ground arith
  starts_run-IsOld m r (older last e late) = rw (e, late) (ground arith)

  -- Once the record of a simulation is terminal, an event of that simulation changes nothing in the
  -- registry, if it names no command or the record's, or is older than the record's last event.
  pub project_event-ended_run :
      (m : RcpMessage) (d : Dict SimRecord) (r : SimRecord)
      → get (text_of to_str "sim_id" m.payload) d ≡ some r
      → is_terminal r.state ≡ true
      → IsOld to_str m r
      → (project_event to_str m d).0 ≡ d
  unfolding project_event
  project_event-ended_run m d r here over is_old =
      let c : String = text_of to_str "cmd_id" m.payload in
      let old : starts_run to_str c m.ts r ≡ false = starts_run-IsOld m r is_old in
      elim (Bool-cases (is_empty (text_of to_str "sim_id" m.payload))) [
        | inl nameless ↦ rw nameless refl
        | inr named ↦ elim (Bool-cases (is_foreign to_str c r)) [
          | inl foreign ↦ rw (named, here, old, foreign, record_for) refl
          | inr own ↦ rw (named, here, old, own, over, record_for) refl
        ]
      ]
