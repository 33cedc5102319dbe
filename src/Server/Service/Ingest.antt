-- ===== src/Server/Service/Ingest.antt =====
-- src/pic_agentic/server/simulation.py: streams of messages through `on_message`.
use pic_agentic.Common.{
  String, ◌≡◌, refl, sym, ap, ◌∙◌, true, false, List, [], ◌∷◌, inl, inr, All, All-map, is_empty,
  elem, str_eq, Bool-cases, Option-cases,
}
use pic_agentic.Common.Dict.{AllItems}
use pic_agentic.Rcp.Envelope.{Kind, event, command, ack, RcpMessage, Platform}
use pic_agentic.Protocol.{submit_ack, type_value}
use pic_agentic.Server.Registry.{text_of}
use pic_agentic.Server.Registry.Sound.{IsSound, project_event-IsSound, project_ack-IsSound}
use pic_agentic.Server.Registry.Replay.{replay, IsOfRun, IsOpenTo, replay-twice}
use pic_agentic.Server.Events.{is_event}
use pic_agentic.Server.Service.{
  SubmitService, pull_acks, resolve_pull, expected_ack, is_authentic, on_event, on_ack, route,
  on_message, ingest_backfill,
}

resolve_pull-registry :
    (cmd_id : String) (m : RcpMessage) (s : SubmitService)
    → (resolve_pull cmd_id m s).registry ≡ s.registry
unfolding resolve_pull
resolve_pull-registry cmd_id m s = elim (Option-cases (expected_ack cmd_id s)) [
  | inl none_expected ↦ rw (resolve_pull, none_expected) refl
  | inr (t, e) ↦ elim (Bool-cases (str_eq m.type t)) [
    | inl same ↦ rw (resolve_pull, e, same) refl
    | inr other ↦ rw (resolve_pull, e, other) refl
  ]
]

module _ (p : Platform) where
  Sound : SubmitService → Type 0
  Sound s = AllItems IsSound s.registry

  on_ack-Sound : (m : RcpMessage) (s : SubmitService) → Sound s → Sound (on_ack p m s)
  unfolding on_ack Sound
  on_ack-Sound m s h = elim (Bool-cases (elem m.type pull_acks)) [
    | inl pull ↦ rw (pull, resolve_pull-registry (text_of p.to_str "cmd_id" m.payload) m s) h
    | inr other ↦ elim (Bool-cases (str_eq m.type (type_value submit_ack))) [
      | inl submit ↦ rw (other, submit) (project_ack-IsSound p.to_str m s.registry h)
      | inr unknown ↦ rw (other, unknown) h
    ]
  ]

  by_kind :
      (k : Kind) (a s : SubmitService)
      → Sound a
      → Sound s
      → Sound (elim k [ ack ↦ a | event ↦ s | command ↦ s ])
  by_kind ack a s h g = h
  by_kind event a s h g = g
  by_kind command a s h g = g

  on_message-Sound : (m : RcpMessage) (s : SubmitService) → Sound s → Sound (on_message p m s)
  unfolding on_message route on_event Sound
  on_message-Sound m s h = elim (Bool-cases (is_authentic p s m)) [
    | inr forged ↦ rw forged h
    | inl authentic ↦ elim (Bool-cases (is_event m)) [
      | inl lifecycle ↦ rw (authentic, lifecycle) (project_event-IsSound p.to_str m s.registry h)
      | inr other ↦ rw (authentic, other) (by_kind m.kind (on_ack p m s) s (on_ack-Sound m s h) h)
    ]
  ]

  -- From a registry in which every record is sound, any stream of messages, authentic or not, leads to
  -- one in which every record is: it stands under its own simulation id, it is active exactly when its
  -- state is not terminal, it is marked suspect only with results ready, and a state that is not empty is
  -- the type of its last event.
  pub ingest_backfill-IsSound :
      (ms : List RcpMessage) (s : SubmitService)
      → AllItems IsSound s.registry
      → AllItems IsSound (ingest_backfill p ms s).registry
  unfolding ingest_backfill Sound
  ingest_backfill-IsSound [] s h = h
  ingest_backfill-IsSound (m ∷ ms) s h =
      ingest_backfill-IsSound ms (on_message p m s) (on_message-Sound m s h)

  -- An accepted lifecycle event of one run.
  pub record IsEventOf (service : SubmitService) (s c : String) (m : RcpMessage) : Type 0 where
    pub authentic : is_authentic p service m ≡ true
    pub lifecycle : is_event m ≡ true
    pub of_run : IsOfRun p.to_str s c m

  on_message-event :
      (m : RcpMessage) (service : SubmitService)
      → is_authentic p service m ≡ true
      → is_event m ≡ true
      → on_message p m service ≡ on_event p m service
  unfolding on_message route
  on_message-event m service authentic lifecycle = rw (authentic, lifecycle) refl

  ingest_backfill-replay :
      (ms : List RcpMessage) (s c : String) (a b : SubmitService)
      → a.secret ≡ b.secret
      → a.sim ≡ b.sim
      → All (IsEventOf a s c) ms
      → (ingest_backfill p ms b).registry ≡ replay p.to_str ms b.registry
  unfolding ingest_backfill replay on_event is_authentic
  ingest_backfill-replay [] s c a b key room h = refl
  ingest_backfill-replay (m ∷ ms) s c a b key room h =
      let accepted : is_authentic p b m ≡ true = rw (sym key, sym room) (h.0.authentic) in
      ap (λ (x : SubmitService). (ingest_backfill p ms x).registry)
        (on_message-event m b accepted h.0.lifecycle)
      ∙ ingest_backfill-replay ms s c a (on_event p m b) key room h.1

  ingest_backfill-identity :
      (ms : List RcpMessage) (s c : String) (a b : SubmitService)
      → a.secret ≡ b.secret
      → a.sim ≡ b.sim
      → All (IsEventOf a s c) ms
      → ((ingest_backfill p ms b).secret ≡ b.secret) × ((ingest_backfill p ms b).sim ≡ b.sim)
  unfolding ingest_backfill on_event is_authentic
  ingest_backfill-identity [] s c a b key room h = (refl, refl)
  ingest_backfill-identity (m ∷ ms) s c a b key room h =
      let accepted : is_authentic p b m ≡ true = rw (sym key, sym room) (h.0.authentic) in
      rw (ingest_backfill, on_message-event m b accepted h.0.lifecycle)
        (ingest_backfill-identity ms s c a (on_event p m b) key room h.1)

  -- A stream of authentic lifecycle events of one run, replayed after itself, leaves the registry as the
  -- first pass did, if the registry held no record of another run of the simulation before, and the
  -- simulation's id is not empty. The order and the repetition of the events within the stream are
  -- arbitrary.
  pub ingest_backfill-twice :
      (ms : List RcpMessage) (s c : String) (service : SubmitService)
      → All (IsEventOf service s c) ms
      → is_empty s ≡ false
      → IsOpenTo p.to_str s c service.registry
      → (ingest_backfill p ms (ingest_backfill p ms service)).registry
        ≡ (ingest_backfill p ms service).registry
  ingest_backfill-twice ms s c service h named free =
      let after : SubmitService = ingest_backfill p ms service in
      let same = ingest_backfill-identity ms s c service service refl refl h in
      let once : after.registry ≡ replay p.to_str ms service.registry =
        ingest_backfill-replay ms s c service service refl refl h in
      ingest_backfill-replay ms s c service after (sym same.0) (sym same.1) h
      ∙ ap (replay p.to_str ms) once
      ∙ replay-twice p.to_str ms s c service.registry
          (All-map (λ (m : RcpMessage) (e : IsEventOf service s c m). e.of_run) ms h) named free
      ∙ sym once
