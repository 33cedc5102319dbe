-- ===== src/Server/Registry/Sound.antt =====
-- src/pic_agentic/server/simulation.py: what every record of the registry satisfies, and what a
-- finished run ignores.
use pic_agentic.Common.{
  String, ◌≡◌, refl, sym, ap, ◌∙◌, true, false, not, ◌&&◌, some, inl, inr, ◌⊎◌, arith, eq_iff, elem,
  is_empty, is_some, str_eq, Bool-cases, Option-cases,
}
use pic_agentic.Common.Dict.{Dict, get, AllItems, AllItems-put, AllItems-get}
use pic_agentic.Common.Value.{Value, null, Fields}
use pic_agentic.Rcp.Envelope.{RcpMessage}
use pic_agentic.Protocol.{results_ready, state_value}
use pic_agentic.Server.Registry.{
  SimRecord, fresh_record, is_terminal, event_field, project_field, text_of, starts_run, record_for,
  apply_event, is_foreign, project_event, apply_ack, project_ack, stamp, seed, set_fields,
  is_outcome_unknown,
}

-- A record stands under its own id; it is active unless its state is terminal; only a run with
-- results is marked suspect; a state is also the type of the last event.
pub record IsSound (key : String) (r : SimRecord) : Type 0 where
  pub own : r.sim_id ≡ key
  pub activity : r.active ≡ not (is_terminal r.state)
  pub suspicion : (r.state ≡ state_value results_ready) ⊎ (r.fields "suspect" ≡ null)
  pub typed : (is_empty r.state ≡ true) ⊎ (r.last_event_type ≡ some r.state)

fresh-IsSound : (key cmd_id : String) → IsSound key (fresh_record key cmd_id)
unfolding is_terminal elem
fresh-IsSound key cmd_id = record {
  own = refl;
  activity = refl;
  suspicion = inr refl;
  typed = inl refl;
}

module _ (to_str : Value → String) where
  record_for-IsSound :
      (s c ts : String) (d : Dict SimRecord)
      → AllItems IsSound d
      → IsSound s (record_for to_str s c ts d).0 × AllItems IsSound (record_for to_str s c ts d).1
  unfolding record_for
  record_for-IsSound s c ts d h = elim (Option-cases (get s d)) [
    | inl absent ↦
        rw (absent, record_for)
          (fresh-IsSound s c, AllItems-put IsSound s _ d h (fresh-IsSound s c))
    | inr (r, here) ↦ elim (Bool-cases (starts_run to_str c ts r)) [
      | inl new ↦
          rw (here, new, record_for)
            (fresh-IsSound s c, AllItems-put IsSound s _ d h (fresh-IsSound s c))
      | inr old ↦ rw (here, old, record_for) (AllItems-get IsSound s r d h here, h)
    ]
  ]

  apply_event-IsSound :
      (m : RcpMessage) (s : String) (r : SimRecord)
      → IsSound s r
      → IsSound s (apply_event to_str m r)
  unfolding apply_event event_field
  apply_event-IsSound m s r h =
      let state : String = text_of to_str "state" m.payload in
      record {
        own = h.own;
        activity = refl;
        suspicion = elim (Bool-cases (str_eq state (state_value results_ready))) [
          | inl ready ↦ inl ((eq_iff state (state_value results_ready)).0 ready)
          | inr other ↦ inr (rw other refl)
        ];
        typed = elim (Bool-cases (is_empty state)) [
          | inl empty ↦ inl empty
          | inr full ↦ inr (rw full refl)
        ];
      }

  stamp-IsSound : (ts s : String) (r : SimRecord) → IsSound s r → IsSound s (stamp to_str ts r)
  stamp-IsSound ts s r h = elim (Bool-cases (is_some r.last_event_ts)) [
    | inl old ↦ rw old h
    | inr new ↦
        rw new
          (record { own = h.own; activity = h.activity; suspicion = h.suspicion; typed = h.typed })
  ]

  set_fields-IsSound :
      (payload : Fields) (s : String) (r : SimRecord)
      → IsSound s r
      → IsSound s (set_fields to_str payload r)
  unfolding project_field elem
  set_fields-IsSound payload s r h = record {
    own = h.own;
    activity = h.activity;
    suspicion = h.suspicion;
    typed = h.typed;
  }

  unseeded : {A : Type 0} (t : String) → is_empty t ≡ true → t ≡ state_value results_ready → A
  unseeded t empty e = let bad : false ≡ true = sym (ap is_empty e) ∙ empty in cc

  seed-IsSound : (state s : String) (r : SimRecord) → IsSound s r → IsSound s (seed to_str state r)
  seed-IsSound state s r h =
      let empty : not (is_empty state) && is_empty r.state ≡ true → is_empty r.state ≡ true =
        λ h. ground arith in
      elim (Bool-cases (not (is_empty state) && is_empty r.state)) [
        | inr kept ↦ rw kept h
        | inl seeded ↦ rw seeded (record {
          own = h.own;
          activity = refl;
          suspicion = elim h.suspicion [
            | inl e ↦ unseeded r.state (empty seeded) e
            | inr e ↦ inr e
          ];
          typed = inr refl;
        })
      ]

  apply_ack-IsSound :
      (m : RcpMessage) (s : String) (r : SimRecord) → IsSound s r → IsSound s (apply_ack to_str m r)
  unfolding apply_ack
  apply_ack-IsSound m s r h =
      let state : String = text_of to_str "state" m.payload in
      elim (Bool-cases (is_outcome_unknown to_str m.payload)) [
        | inl unknown ↦ rw unknown (stamp-IsSound m.ts s r h)
        | inr outcome ↦
            rw outcome
              (stamp-IsSound m.ts s _ (set_fields-IsSound m.payload s _ (seed-IsSound state s r h)))
      ]

  pub project_event-IsSound :
      (m : RcpMessage) (d : Dict SimRecord)
      → AllItems IsSound d
      → AllItems IsSound (project_event to_str m d).0
  unfolding project_event
  project_event-IsSound m d h =
      let s : String = text_of to_str "sim_id" m.payload in
      let c : String = text_of to_str "cmd_id" m.payload in
      let found : SimRecord × Dict SimRecord = record_for to_str s c m.ts d in
      let sound = record_for-IsSound s c m.ts d h in
      elim (Bool-cases (is_empty s)) [
        | inl nameless ↦ rw nameless h
        | inr named ↦ elim (Bool-cases (is_foreign to_str c found.0)) [
          | inl foreign ↦ rw (named, foreign) sound.1
          | inr own ↦ elim (Bool-cases (is_terminal found.0.state)) [
            | inl over ↦ rw (named, own, over) sound.1
            | inr live ↦
                rw (named, own, live)
                  (AllItems-put IsSound s _ found.1 sound.1
                    (apply_event-IsSound m s found.0 sound.0))
          ]
        ]
      ]

  pub project_ack-IsSound :
      (m : RcpMessage) (d : Dict SimRecord)
      → AllItems IsSound d
      → AllItems IsSound (project_ack to_str m d)
  unfolding project_ack
  project_ack-IsSound m d h =
      let s : String = text_of to_str "sim_id" m.payload in
      let c : String = text_of to_str "cmd_id" m.payload in
      let found : SimRecord × Dict SimRecord = record_for to_str s c m.ts d in
      let sound = record_for-IsSound s c m.ts d h in
      elim (Bool-cases (is_empty s)) [
        | inl nameless ↦ rw nameless h
        | inr named ↦ elim (Bool-cases (is_foreign to_str c found.0)) [
          | inl foreign ↦ rw (named, foreign) sound.1
          | inr own ↦
              rw (named, own)
                (AllItems-put IsSound s _ found.1 sound.1 (apply_ack-IsSound m s found.0 sound.0))
        ]
      ]
