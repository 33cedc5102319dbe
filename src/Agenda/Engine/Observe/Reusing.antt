-- ===== src/Agenda/Engine/Observe/Reusing.antt =====
-- src/pic_agentic/agenda/engine.py: `_apply_reuse` and `_reconcile_actuals`, run again.
use pic_agentic.Common.{
  String, ◌≡◌, refl, sym, ◌∙◌, ap, Bool, true, false, not, Option, none, some, List, [], ◌∷◌, ◌&&◌,
  Bool-cases, Option-cases, inl, inr,
}
use pic_agentic.Common.Dict.{Dict}
use pic_agentic.Agenda.Model.{AgendaSim, AgendaGroup, Leaf, simulations, for_leaves}
use pic_agentic.Agenda.Model.Leaves.{visit_list, simulations-for_leaves}
use pic_agentic.Agenda.Budget.{BudgetUsage}
use pic_agentic.Agenda.Campaign.{truthy}
use pic_agentic.Agenda.Engine.{Engine, ActualUsage, Reusable}
use pic_agentic.Agenda.Engine.Observe.{
  reuse_leaf, reconcile_leaf, reconcile_actuals, apply_reuse, reuse_record, is_planned, is_terminal,
  get_id,
}

module _ {S : Type 0} (f : String → AgendaSim → S → AgendaSim × S) where
  -- The visit leaves the leaf alone, or makes one of it that later visits leave alone.
  data Visit (path : String) (s : AgendaSim) : Type 0 where
    untouched : ((st : S) → f path s st ≡ (s, st)) → Visit path s
    replaced :
        (t : AgendaSim)
        → ((st : S) → (f path s st).0 ≡ t)
        → ((st : S) → f path t st ≡ (t, st))
        → Visit path s

  abbrev Settles : Type 0
  Settles = (path : String) (s : AgendaSim) → Visit path s

  revisit_leaf :
      (path : String) (s : AgendaSim) (st st' : S)
      → Visit path s
      → f path (f path s st).0 st' ≡ ((f path s st).0, st')
  revisit_leaf path s st st' (untouched u) =
      ap (λ (p : AgendaSim × S). f path p.0 st') (u st)
      ∙ u st'
      ∙ ap (λ (p : AgendaSim × S). (p.0, st')) (sym (u st))
  revisit_leaf path s st st' (replaced t same still) =
      ap (λ (x : AgendaSim). f path x st') (same st)
      ∙ still st'
      ∙ ap (λ (x : AgendaSim). (x, st')) (sym (same st))

  revisit_list :
      Settles
      → (leaves : List Leaf) (st st' : S)
      → visit_list f (visit_list f leaves st).0 st' ≡ ((visit_list f leaves st).0, st')
  revisit_list h [] st st' = refl
  revisit_list h ((path, s) ∷ leaves) st st' =
      let ih = revisit_list h leaves (f path s st).1 st' in
      rw (revisit_leaf path s st st' (h path s), ih)

  revisit :
      Settles
      → (agenda : AgendaGroup) (st st' : S)
      → let once = for_leaves f agenda st in
        let twice = for_leaves f once.0 st' in
        (simulations twice.0 ≡ simulations once.0) × (twice.1 ≡ st')
  revisit h agenda st st' =
      let once = simulations-for_leaves f agenda st in
      let twice = simulations-for_leaves f (for_leaves f agenda st).0 st' in
      let same = revisit_list h (simulations agenda) st st' in
      (
        twice.0 ∙ rw (once.0) (ap (λ (p : List Leaf × S). p.0) same),
        twice.1 ∙ rw (once.0) (ap (λ (p : List Leaf × S). p.1) same),
      )

reuse_leaf-Settles : (find : AgendaSim → Option Reusable) → Settles (reuse_leaf find)
unfolding reuse_leaf
reuse_leaf-Settles find path s = elim (Bool-cases (is_planned s.status)) [
  | inr other ↦ untouched (λ st. rw (other))
  | inl fresh ↦ elim (Option-cases (find s)) [
    | inl missing ↦ untouched (λ st. rw (fresh, missing))
    | inr (r, found) ↦ replaced (reuse_record s r) (λ st. rw (fresh, found)) (λ st. refl)
  ]
]

never : (a b d : Bool) → a && b && false && d ≡ false
never true true d = refl
never true false d = refl
never false b d = refl

stamped_leaf : AgendaSim → ActualUsage → AgendaSim
stamped_leaf s actual = record s {
  actual_core_hours = some actual.core_hours;
  actual_gpu_hours = some actual.gpu_hours;
}

reconcile_leaf-Settles : (actuals : Dict ActualUsage) → Settles (reconcile_leaf actuals)
unfolding reconcile_leaf stamped_leaf
reconcile_leaf-Settles actuals path s =
    let unknown : Bool = elim s.actual_core_hours [ none ↦ true | some hours ↦ false ] in
    let due = not s.reused && is_terminal s.status && unknown && truthy s.sim_id in
    elim (Bool-cases due) [
      | inr other ↦ untouched (λ st. rw (other))
      | inl now ↦ elim (Option-cases (get_id s.sim_id actuals)) [
        | inl missing ↦ untouched (λ st. rw (now, missing))
        | inr (actual, known) ↦
            replaced (stamped_leaf s actual) (λ st. rw (now, known))
              (λ st. rw (never (not s.reused) (is_terminal s.status) (truthy s.sim_id)))
      ]
    ]

-- Linking the planned leaves to earlier runs a second time, with the same registry, links none, and
-- leaves the leaves as they are after the first time.
pub apply_reuse-apply_reuse :
    (e : Engine) (agenda : AgendaGroup)
    → let once = apply_reuse e agenda in
      let twice = apply_reuse e once.0 in
      (simulations twice.0 ≡ simulations once.0) × (twice.1 ≡ [])
unfolding apply_reuse
apply_reuse-apply_reuse e agenda = elim (Option-cases e.reuse_lookup) [
  | inl off ↦ rw (off) (refl, refl)
  | inr (find, on) ↦ rw (on) (revisit (reuse_leaf _) (reuse_leaf-Settles _) agenda [] [])
]

-- Correcting the estimates of the finished leaves a second time, with the same costs, leaves the usage
-- as it is and the leaves as they are after the first time, whatever the usage was before each.
pub reconcile_actuals-reconcile_actuals :
    (e : Engine) (agenda : AgendaGroup) (usage usage' : BudgetUsage)
    → let once = reconcile_actuals e agenda usage in
      let twice = reconcile_actuals e once.0 usage' in
      (simulations twice.0 ≡ simulations once.0) × (twice.1 ≡ usage')
unfolding reconcile_actuals
reconcile_actuals-reconcile_actuals e agenda usage usage' = elim (Option-cases e.actuals) [
  | inl off ↦ rw (off) (refl, refl)
  | inr (found, on) ↦ elim (Option-cases found) [
    | inl broken ↦ rw (on, broken) (refl, refl)
    | inr (actuals, known) ↦
        rw (on, known)
          (revisit (reconcile_leaf actuals) (reconcile_leaf-Settles actuals) agenda usage usage')
  ]
]
