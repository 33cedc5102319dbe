-- ===== src/Server/Registry/Replay.antt =====
-- src/pic_agentic/server/simulation.py: `ingest_backfill`, the replay of the events of one run.
use mathlib.Core.Path.{subst₂}
use pic_agentic.Common.{
  String, ◌≡◌, refl, sym, ap, ◌∙◌, Bool, true, false, not, Option, none, some, List, [], ◌∷◌, inl,
  inr, arith, eq_iff, eq_refl, elem, any, All, is_empty, str_eq, Bool-cases, Option-cases,
  if◌then◌else◌,
}
use pic_agentic.Common.Dict.{Dict, get, put, get-put_self, put-put, put-get_same}
use pic_agentic.Common.Value.{Value}
use pic_agentic.Rcp.Envelope.{RcpMessage}
use pic_agentic.Server.Registry.{
  SimRecord, fresh_record, is_terminal, event_field, text_of, starts_run, record_for, apply_event,
  is_foreign, project_event,
}
use pic_agentic.Server.Registry.Overrides.{
  Overrides, event_field-Overrides, fold_all, fold_all-twice,
}

module _ (to_str : Value → String) where
  -- Events one after the other.
  unfoldable pub replay : List RcpMessage → Dict SimRecord → Dict SimRecord
  replay [] d = d
  replay (m ∷ ms) d = replay ms (project_event to_str m d).0

  -- An event that names this simulation and this command.
  pub record IsOfRun (s c : String) (m : RcpMessage) : Type 0 where
    pub of_sim : text_of to_str "sim_id" m.payload ≡ s
    pub of_cmd : text_of to_str "cmd_id" m.payload ≡ c

  -- What an event of its own run does to a record.
  advance : RcpMessage → SimRecord → SimRecord
  advance m r = if is_terminal r.state then r else apply_event to_str m r

  project_event-advance :
      (m : RcpMessage) (s c : String) (d : Dict SimRecord) (r : SimRecord)
      → IsOfRun s c m
      → is_empty s ≡ false
      → get s d ≡ some r
      → r.cmd_id ≡ c
      → (project_event to_str m d).0 ≡ put s (advance m r) d
  unfolding project_event record_for starts_run advance
  project_event-advance m s c d r run named here own =
      let cmd : String = text_of to_str "cmd_id" m.payload in
      let same : str_eq cmd r.cmd_id ≡ true = (eq_iff cmd r.cmd_id).1 (run.of_cmd ∙ sym own) in
      let home : is_foreign to_str cmd r ≡ false = ground arith in
      let old : starts_run to_str cmd m.ts r ≡ false = ground arith in
      elim (Bool-cases (is_terminal r.state)) [
        | inl over ↦
            rw (run.of_sim, named, here, old, home, over, record_for)
              (sym (put-get_same s r d here))
        | inr live ↦ rw (run.of_sim, named, here, old, home, live, record_for) refl
      ]

  advance_all : List RcpMessage → SimRecord → SimRecord
  advance_all [] r = r
  advance_all (m ∷ ms) r = advance_all ms (advance m r)

  advance-cmd_id : (m : RcpMessage) (r : SimRecord) → (advance m r).cmd_id ≡ r.cmd_id
  unfolding advance apply_event
  advance-cmd_id m r = ground arith

  advance_all-cmd_id : (ms : List RcpMessage) (r : SimRecord) → (advance_all ms r).cmd_id ≡ r.cmd_id
  unfolding advance_all
  advance_all-cmd_id [] r = refl
  advance_all-cmd_id (m ∷ ms) r = advance_all-cmd_id ms (advance m r) ∙ advance-cmd_id m r

  replay-advance_all :
      (ms : List RcpMessage) (s c : String) (d : Dict SimRecord) (r : SimRecord)
      → All (IsOfRun s c) ms
      → is_empty s ≡ false
      → get s d ≡ some r
      → r.cmd_id ≡ c
      → replay ms d ≡ put s (advance_all ms r) d
  unfolding replay advance_all
  replay-advance_all [] s c d r runs named here own = sym (put-get_same s r d here)
  replay-advance_all (m ∷ ms) s c d r runs named here own =
      let next : Dict SimRecord = put s (advance m r) d in
      rw (project_event-advance m s c d r runs.0 named here own) (
        replay-advance_all ms s c next (advance m r) runs.1 named (get-put_self s (advance m r) d)
          (advance-cmd_id m r ∙ own)
        ∙ put-put s (advance m r) (advance_all ms (advance m r)) d)

  advance_all-ended :
      (ms : List RcpMessage) (r : SimRecord) → is_terminal r.state ≡ true → advance_all ms r ≡ r
  unfolding advance_all advance
  advance_all-ended [] r over = refl
  advance_all-ended (m ∷ ms) r over = rw over (advance_all-ended ms r over)

  ends : RcpMessage → Bool
  ends m = is_terminal (text_of to_str "state" m.payload)

  advance-live :
      (m : RcpMessage) (r : SimRecord)
      → is_terminal r.state ≡ false
      → advance m r ≡ apply_event to_str m r
  unfolding advance
  advance-live m r live = rw live refl

  advance_all-ends :
      (ms : List RcpMessage) (r : SimRecord)
      → is_terminal r.state ≡ false
      → any ends ms ≡ true
      → is_terminal (advance_all ms r).state ≡ true
  unfolding advance_all advance ends apply_event
  advance_all-ends [] r live h = cc
  advance_all-ends (m ∷ ms) r live h =
      ap (λ (x : SimRecord). is_terminal (advance_all ms x).state) (advance-live m r live)
      ∙ elim (Bool-cases (ends m)) [
        | inl last ↦
            ap (λ (x : SimRecord). is_terminal x.state)
              (advance_all-ended ms (apply_event to_str m r) last)
            ∙ last
        | inr more ↦ advance_all-ends ms (apply_event to_str m r) more (rw more at h)
      ]

  apply_all : List RcpMessage → SimRecord → SimRecord
  apply_all [] r = r
  apply_all (m ∷ ms) r = apply_all ms (apply_event to_str m r)

  advance_all-apply_all :
      (ms : List RcpMessage) (r : SimRecord)
      → is_terminal r.state ≡ false
      → any ends ms ≡ false
      → advance_all ms r ≡ apply_all ms r
  unfolding advance_all advance ends apply_all apply_event
  advance_all-apply_all [] r live h = refl
  advance_all-apply_all (m ∷ ms) r live h =
      let more : ends m ≡ false = ground arith in
      rw live (advance_all-apply_all ms (apply_event to_str m r) more (rw more at h))

  state_step : RcpMessage → String → String
  state_step m old = text_of to_str "state" m.payload

  field_step : String → RcpMessage → Value → Value
  field_step key m old = event_field (text_of to_str "state" m.payload) m.payload key old

  type_step : RcpMessage → Option String → Option String
  type_step m old =
      let state = text_of to_str "state" m.payload in if is_empty state then old else some state

  ts_step : RcpMessage → Option String → Option String
  ts_step m old = some m.ts

  active_step : RcpMessage → Bool → Bool
  active_step m old = not (is_terminal (text_of to_str "state" m.payload))

  type_step-Overrides : (m : RcpMessage) → Overrides (type_step m)
  unfolding type_step
  type_step-Overrides m = elim (Bool-cases (is_empty (text_of to_str "state" m.payload))) [
    | inl empty ↦ inl (λ v. rw empty refl)
    | inr full ↦ inr (λ v w. rw full refl)
  ]

  abbrev folded : List RcpMessage → SimRecord → SimRecord
  folded ms r = record r {
    state = fold_all state_step ms r.state;
    fields = λ key. fold_all (field_step key) ms (r.fields key);
    last_event_type = fold_all type_step ms r.last_event_type;
    last_event_ts = fold_all ts_step ms r.last_event_ts;
    active = fold_all active_step ms r.active;
  }

  apply_all-folded : (ms : List RcpMessage) (r : SimRecord) → apply_all ms r ≡ folded ms r
  unfolding apply_all fold_all apply_event state_step field_step type_step ts_step active_step
  apply_all-folded [] r = refl
  apply_all-folded (m ∷ ms) r = apply_all-folded ms (apply_event to_str m r)

  folded-twice : (ms : List RcpMessage) (r : SimRecord) → folded ms (folded ms r) ≡ folded ms r
  unfolding state_step field_step ts_step active_step
  folded-twice ms r i = record r {
    state = fold_all-twice state_step (λ m. inr (λ v w. refl)) ms r.state i;
    fields = λ key.
        fold_all-twice (field_step key)
          (λ m. event_field-Overrides (text_of to_str "state" m.payload) m.payload key) ms
          (r.fields key) i;
    last_event_type = fold_all-twice type_step type_step-Overrides ms r.last_event_type i;
    last_event_ts = fold_all-twice ts_step (λ m. inr (λ v w. refl)) ms r.last_event_ts i;
    active = fold_all-twice active_step (λ m. inr (λ v w. refl)) ms r.active i;
  }

  advance_all-twice :
      (ms : List RcpMessage) (r : SimRecord) → advance_all ms (advance_all ms r) ≡ advance_all ms r
  advance_all-twice ms r = elim (Bool-cases (is_terminal r.state)) [
    | inl over ↦ ap (advance_all ms) (advance_all-ended ms r over)
    | inr live ↦ elim (Bool-cases (any ends ms)) [
      | inl last ↦ advance_all-ended ms (advance_all ms r) (advance_all-ends ms r live last)
      | inr more ↦ twice_live ms r live more
    ]
  ]
    where
      twice_live :
          (ms : List RcpMessage) (r : SimRecord)
          → is_terminal r.state ≡ false
          → any ends ms ≡ false
          → advance_all ms (advance_all ms r) ≡ advance_all ms r
      twice_live ms r live more =
          let once : advance_all ms r ≡ folded ms r =
            advance_all-apply_all ms r live more ∙ apply_all-folded ms r in
          elim (Bool-cases (is_terminal (advance_all ms r).state)) [
            | inl over ↦ advance_all-ended ms (advance_all ms r) over
            | inr still ↦
                advance_all-apply_all ms (advance_all ms r) still more
                ∙ apply_all-folded ms (advance_all ms r)
                ∙ ap (folded ms) once
                ∙ folded-twice ms r
                ∙ sym once
          ]

  replay-twice_known :
      (ms : List RcpMessage) (s c : String) (d : Dict SimRecord) (r : SimRecord)
      → All (IsOfRun s c) ms
      → is_empty s ≡ false
      → get s d ≡ some r
      → r.cmd_id ≡ c
      → replay ms (replay ms d) ≡ replay ms d
  replay-twice_known ms s c d r runs named here own =
      let once : replay ms d ≡ put s (advance_all ms r) d =
        replay-advance_all ms s c d r runs named here own in
      ap (replay ms) once
      ∙ replay-advance_all ms s c (put s (advance_all ms r) d) (advance_all ms r) runs named
          (get-put_self s (advance_all ms r) d) (advance_all-cmd_id ms r ∙ own)
      ∙ put-put s (advance_all ms r) (advance_all ms (advance_all ms r)) d
      ∙ ap (λ (x : SimRecord). put s x d) (advance_all-twice ms r)
      ∙ sym once

  -- No record of another run of this simulation.
  abbrev pub IsOpenTo : String → String → Dict SimRecord → Type 0
  IsOpenTo s c d = (r : SimRecord) → get s d ≡ some r → r.cmd_id ≡ c

  replay-fresh :
      (m : RcpMessage) (d : Dict SimRecord)
      → let s = text_of to_str "sim_id" m.payload in
        let r = fresh_record s (text_of to_str "cmd_id" m.payload) in
        is_empty s ≡ false
        → get s d ≡ none
        → (project_event to_str m d).0 ≡ put s (apply_event to_str m r) (put s r d)
  unfolding project_event is_terminal elem
  replay-fresh m d named absent =
      let cmd : String = text_of to_str "cmd_id" m.payload in
      let r : SimRecord = fresh_record (text_of to_str "sim_id" m.payload) cmd in
      let same : str_eq cmd cmd ≡ true = eq_refl cmd in
      let home : is_foreign to_str cmd r ≡ false = ground arith in
      rw (named, absent, home, record_for) refl

  project_event-fresh :
      (m : RcpMessage) (s c : String) (d : Dict SimRecord)
      → IsOfRun s c m
      → is_empty s ≡ false
      → get s d ≡ none
      → (project_event to_str m d).0 ≡ (project_event to_str m (put s (fresh_record s c) d)).0
  unfolding advance is_terminal elem
  project_event-fresh m s c d run named absent =
      let r : SimRecord = fresh_record s c in
      subst₂
        (λ (a b : String).
          (project_event to_str m d).0
          ≡ put a (apply_event to_str m (fresh_record a b)) (put a (fresh_record a b) d))
        run.of_sim run.of_cmd (replay-fresh m d (rw run.of_sim named) (rw run.of_sim absent))
      ∙ sym (project_event-advance m s c (put s r d) r run named (get-put_self s r d) refl)

  pub replay-twice :
      (ms : List RcpMessage) (s c : String) (d : Dict SimRecord)
      → All (IsOfRun s c) ms
      → is_empty s ≡ false
      → IsOpenTo s c d
      → replay ms (replay ms d) ≡ replay ms d
  unfolding replay
  replay-twice [] s c d runs named free = refl
  replay-twice (m ∷ ms) s c d runs named free = elim (Option-cases (get s d)) [
    | inr (r, here) ↦ replay-twice_known (m ∷ ms) s c d r runs named here (free r here)
    | inl absent ↦
        let made : Dict SimRecord = put s (fresh_record s c) d in
        let same : replay (m ∷ ms) d ≡ replay (m ∷ ms) made =
          ap (replay ms) (project_event-fresh m s c d runs.0 named absent) in
        ap (replay (m ∷ ms)) same
        ∙ replay-twice_known (m ∷ ms) s c made (fresh_record s c) runs named
            (get-put_self s (fresh_record s c) d) refl
        ∙ sym same
  ]
