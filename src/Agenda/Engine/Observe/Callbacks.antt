-- ===== src/Agenda/Engine/Observe/Callbacks.antt =====
-- src/pic_agentic/agenda/engine.py: the callbacks of `_emit_callbacks`.
use pic_agentic.Common.{
  String, ◌≡◌, refl, ◌∙◌, ap, ap₂, Bool, true, false, Option, none, some, List, [], ◌∷◌, ◌++◌, map,
}
use pic_agentic.Common.Dict
use pic_agentic.Common.Dict.{Dict}
use pic_agentic.Agenda.Model.{
  Status, planned, submitted, running, done, failed, AgendaSim, Leaf, simulations,
}
use pic_agentic.Agenda.Model.Leaves.{visit_list, simulations-for_leaves}
use pic_agentic.Agenda.Campaign.{Callback, CallbackKind, done_callback, failed_callback, Campaign}
use pic_agentic.Agenda.Engine.{Engine, FailureInfo, SuspectInfo}
use pic_agentic.Agenda.Engine.Observe.{
  Emitted, emit_status, emit_leaf, emit_callbacks, same_status, warning_of, get_id, failure_of,
  fail_leaf,
}

-- What a callback says of its leaf.
abbrev pub Brief : Type 0
Brief = String × CallbackKind × Option String

abbrev pub brief : Callback → Brief
brief c = (c.path, c.kind, c.sim_id)

-- The report of a leaf with this status, unless it had it before.
abbrev pub transition : Bool → String → AgendaSim → Status → List Brief
transition false path s done = (path, done_callback, s.sim_id) ∷ []
transition false path s failed = (path, failed_callback, s.sim_id) ∷ []
transition _ path s _ = []

abbrev pub transitions : Dict Status → List Leaf → List Brief
transitions before [] = []
transitions before ((path, s) ∷ leaves) =
    transition (same_status (Dict.get path before) s.status) path s s.status
    ++ transitions before leaves

-- A leaf apart from the notes on its failure and its health.
abbrev pub without_notes : Leaf → Leaf
without_notes (path, s) =
    (path, record s { error = none; error_code = none; stage = none; suspect = none })

map-append {ℓ κ} :
    {A : Type ℓ} {B : Type κ} (f : A → B) (xs ys : List A) → map f (xs ++ ys) ≡ map f xs ++ map f ys
map-append f [] ys = refl
map-append f (x ∷ xs) ys = ap (◌∷◌ (f x)) (map-append f xs ys)

append_assoc {ℓ} : {A : Type ℓ} (xs ys zs : List A) → (xs ++ ys) ++ zs ≡ xs ++ (ys ++ zs)
append_assoc [] ys zs = refl
append_assoc (x ∷ xs) ys zs = ap (◌∷◌ x) (append_assoc xs ys zs)

append_nil {ℓ} : {A : Type ℓ} (xs : List A) → xs ≡ xs ++ []
append_nil [] = refl
append_nil (x ∷ xs) = ap (◌∷◌ x) (append_nil xs)

abbrev briefs : Emitted → List Brief
briefs out = map brief out.callbacks

module _ (ts : String) (failures : Dict FailureInfo) where
  fail_leaf_notes :
      (path : String) (s : AgendaSim) (info : Option FailureInfo)
      → (without_notes (path, (fail_leaf ts path s info).0) ≡ without_notes (path, s))
        × (brief (fail_leaf ts path s info).1 ≡ (path, failed_callback, s.sim_id))
  fail_leaf_notes path s none = (refl, refl)
  fail_leaf_notes path s (some info) = (refl, refl)

  emit_status_lem :
      (seen : Bool) (warning : Option String) (path : String) (s : AgendaSim) (out : Emitted)
      (status : Status)
      → let (s', out') = emit_status ts seen failures warning path s out status in
        (without_notes (path, s') ≡ without_notes (path, s))
        × (briefs out' ≡ briefs out ++ transition seen path s status)
  unfolding emit_status
  emit_status_lem true none path s out done = (refl, append_nil (briefs out))
  emit_status_lem true (some w) path s out done = (refl, append_nil (briefs out))
  emit_status_lem false none path s out done = (refl, map-append brief out.callbacks _)
  emit_status_lem false (some w) path s out done = (refl, map-append brief out.callbacks _)
  emit_status_lem true w path s out failed = (refl, append_nil (briefs out))
  emit_status_lem false w path s out failed =
      let (notes, same) = fail_leaf_notes path s (failure_of failures s) in
      (notes, map-append brief out.callbacks _ ∙ ap (λ (b : Brief). briefs out ++ b ∷ []) same)
  emit_status_lem true w path s out planned = (refl, append_nil (briefs out))
  emit_status_lem true w path s out submitted = (refl, append_nil (briefs out))
  emit_status_lem true w path s out running = (refl, append_nil (briefs out))
  emit_status_lem false w path s out planned = (refl, append_nil (briefs out))
  emit_status_lem false w path s out submitted = (refl, append_nil (briefs out))
  emit_status_lem false w path s out running = (refl, append_nil (briefs out))

  emit_list :
      (before : Dict Status) (suspects : Dict SuspectInfo) (leaves : List Leaf) (out : Emitted)
      → let (leaves', out') = visit_list (emit_leaf ts before failures suspects) leaves out in
        (map without_notes leaves' ≡ map without_notes leaves)
        × (briefs out' ≡ briefs out ++ transitions before leaves)
  unfolding emit_leaf
  emit_list before suspects [] out = (refl, append_nil (briefs out))
  emit_list before suspects ((path, s) ∷ leaves) out =
      let seen = same_status (Dict.get path before) s.status in
      let warning = warning_of (get_id s.sim_id suspects) in
      let (notes, here) = emit_status_lem seen warning path s out s.status in
      let (rest, there) =
        emit_list before suspects leaves (emit_leaf ts before failures suspects path s out).1 in
      (
        ap₂ ◌∷◌ notes rest,
        there
            ∙ ap (λ (l : List Brief). l ++ transitions before leaves) here
            ∙ append_assoc (briefs out) (transition seen path s s.status)
                (transitions before leaves),
      )

-- The callbacks that a tick emits for what it observed are those of the leaves, in their order, that
-- are done or failed and did not have that status before it, one for each, with the leaf's simulation
-- id; they are put after the callbacks of the campaign; and the leaves stay as they were but for the
-- notes on failure and health.
pub emit_callbacks-transitions :
    (e : Engine) (c : Campaign) (before : Dict Status) (failures : Dict FailureInfo)
    (suspects : Dict SuspectInfo)
    → let (c', out) = emit_callbacks e c before failures suspects in
      (map brief out.callbacks ≡ transitions before (simulations c.agenda))
      × (c'.callbacks ≡ c.callbacks ++ out.callbacks)
      × (map without_notes (simulations c'.agenda) ≡ map without_notes (simulations c.agenda))
unfolding emit_callbacks
emit_callbacks-transitions e c before failures suspects =
    let none_yet : Emitted = record { callbacks = []; suspects = [] } in
    let f = emit_leaf e.utc_now_iso before failures suspects in
    let (leaves, out) = simulations-for_leaves f c.agenda none_yet in
    let (notes, briefed) =
      emit_list e.utc_now_iso failures before suspects (simulations c.agenda) none_yet in
    (ap briefs out ∙ briefed, refl, ap (map without_notes) leaves ∙ notes)
