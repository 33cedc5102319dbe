-- ===== src/Agenda/Engine/Gates/Approval.antt =====
-- src/pic_agentic/agenda/engine.py: when `_may_submit` accepts a leaf.
use pic_agentic.Common.{
  ◌||◌, ◌⊎◌, inl, inr, Bool-cases, some-injective, String, ◌≡◌, refl, Bool, true, false, Option,
  none, some, ◌↔◌, arith,
}
use pic_agentic.Common.Float.{Float, IsAtMost, le_float, le_float→IsAtMost, IsAtMost→le_float}
use pic_agentic.Agenda.Model.{AgendaSim}
use pic_agentic.Agenda.Budget.{ResourceRequest}
use pic_agentic.Agenda.Planner.{PlanStep, resource_request_from_spec}
use pic_agentic.Agenda.Engine.{Engine}
use pic_agentic.Agenda.Engine.Gates.{may_submit, is_preapproved, needs_approval, is_cheap}

abbrev approved_of : Option AgendaSim → Bool
approved_of leaf = elim leaf [ none ↦ false | some s ↦ s.approved ]

approved_of_lem :
    (leaf : Option AgendaSim)
    → approved_of leaf ≡ true
    → (s : AgendaSim) × (leaf ≡ some s) × (s.approved ≡ true)
approved_of_lem none h = cc
approved_of_lem (some s) h = (s, refl, h)

preapproval :
    (o : Option (String → Bool)) (path : String) (leaf : Option AgendaSim)
    → elim o [ none ↦ approved_of leaf | some approve ↦ approve path || approved_of leaf ] ≡ true
    → ((approve : String → Bool) × (o ≡ some approve) × (approve path ≡ true))
      ⊎ ((s : AgendaSim) × (leaf ≡ some s) × (s.approved ≡ true))
preapproval none path leaf h = inr (approved_of_lem leaf h)
preapproval (some approve) path leaf h = elim (Bool-cases (approve path)) [
  | inl agrees ↦ inl (approve, refl, agrees)
  | inr other ↦ inr (approved_of_lem leaf (rw other at h))
]

approved_leaf :
    (o : Option (String → Bool)) (path : String) (leaf : Option AgendaSim) (s : AgendaSim)
    → leaf ≡ some s
    → s.approved ≡ true
    → elim o [ none ↦ approved_of leaf | some approve ↦ approve path || approved_of leaf ] ≡ true
approved_leaf none path leaf s own approved = rw (own, approved) refl
approved_leaf (some approve) path leaf s own approved =
    let by_leaf : approved_of leaf ≡ true = rw own approved in ground (arith, by_leaf)

cheapness :
    (o : Option Float) (request : Option ResourceRequest)
    → elim o [
      | none ↦ true
      | some threshold ↦ elim request [
        | none ↦ false
        | some r ↦ le_float r.est_core_hours threshold
      ]
    ]
      ≡ true
    → (o ≡ none)
      ⊎ ((threshold : Float) × (r : ResourceRequest) × (o ≡ some threshold)
          × (request ≡ some r)
          × IsAtMost r.est_core_hours threshold)
cheapness none request h = inl refl
cheapness (some threshold) none h = cc
cheapness (some threshold) (some r) h =
    inr (threshold, r, refl, refl, le_float→IsAtMost r.est_core_hours threshold h)

cheap_estimate :
    (o : Option Float) (request : Option ResourceRequest) (threshold : Float) (r : ResourceRequest)
    → o ≡ some threshold
    → request ≡ some r
    → IsAtMost r.est_core_hours threshold
    → elim o [
      | none ↦ true
      | some threshold ↦ elim request [
        | none ↦ false
        | some r ↦ le_float r.est_core_hours threshold
      ]
    ]
      ≡ true
cheap_estimate o request threshold r set read low =
    rw (set, read) (IsAtMost→le_float r.est_core_hours threshold low)

module _ (e : Engine) where
  -- An approval by the injected predicate, or by the flag of the leaf.
  abbrev pub IsPreapproved : Option AgendaSim → PlanStep → Type 0
  IsPreapproved leaf step =
      ((approve : String → Bool) × (e.approve ≡ some approve) × (approve step.path ≡ true))
      ⊎ ((s : AgendaSim) × (leaf ≡ some s) × (s.approved ≡ true))

  -- Neither the policy nor the leaf asks for an approval.
  abbrev pub IsUngated : Option AgendaSim → Type 0
  IsUngated leaf =
      (e.policy.require_approval ≡ false)
      × ((s : AgendaSim) → leaf ≡ some s → s.requires_approval ≡ false)

  -- No threshold on core hours, or an estimate that is at most the threshold.
  abbrev pub IsCheap : PlanStep → Type 0
  IsCheap step =
      (e.policy.approve_over_est_core_hours ≡ none)
      ⊎ ((threshold : Float) × (r : ResourceRequest) × (e.policy.approve_over_est_core_hours
            ≡ some threshold)
          × (resource_request_from_spec e.pydantic step.spec ≡ some r)
          × IsAtMost r.est_core_hours threshold)

  abbrev pub IsApproved : Option AgendaSim → PlanStep → Type 0
  IsApproved leaf step = IsPreapproved leaf step ⊎ (IsUngated leaf × IsCheap step)

  is_preapproved_iff :
      (leaf : Option AgendaSim) (step : PlanStep)
      → (is_preapproved e step.path leaf ≡ true) ↔ IsPreapproved leaf step
  is_preapproved_iff leaf step = (
    preapproval e.approve step.path leaf,
    (λ ok. elim ok [
      | inl (approve, set, agrees) ↦ rw (set, agrees) refl
      | inr (s, own, approved) ↦ approved_leaf e.approve step.path leaf s own approved
    ]),
  )

  needs_approval_iff : (leaf : Option AgendaSim) → (needs_approval e leaf ≡ false) ↔ IsUngated leaf
  needs_approval_iff none = ((λ h. (h, λ s e. cc)), (λ u. u.0))
  needs_approval_iff (some s) = (
    (λ h. (ground (arith, h), λ t e. rw (← (some-injective e)) (ground (arith, h)))),
    (λ u. rw (u.0, u.1 s refl) refl),
  )

  is_cheap_iff : (step : PlanStep) → (is_cheap e step ≡ true) ↔ IsCheap step
  is_cheap_iff step = (
    cheapness e.policy.approve_over_est_core_hours
        (resource_request_from_spec e.pydantic step.spec),
    (λ ok. elim ok [
      | inl free ↦ rw free refl
      | inr (threshold, r, set, read, low) ↦
          cheap_estimate e.policy.approve_over_est_core_hours
            (resource_request_from_spec e.pydantic step.spec) threshold r set read low
    ]),
  )

  pub may_submit_iff :
      (leaf : Option AgendaSim) (step : PlanStep)
      → (may_submit e leaf step ≡ true) ↔ IsApproved leaf step
  unfolding may_submit
  may_submit_iff leaf step = (
    (λ h. elim (Bool-cases (is_preapproved e step.path leaf)) [
      | inl pre ↦ inl ((is_preapproved_iff leaf step).0 pre)
      | inr other ↦ inr (
        (needs_approval_iff leaf).0 (ground (arith, h, other)),
        (is_cheap_iff step).0 (ground (arith, h, other)),
      )
    ]),
    (λ ok. elim ok [
      | inl pre ↦ rw ((is_preapproved_iff leaf step).1 pre) refl
      | inr (free, low) ↦
          let ungated = (needs_approval_iff leaf).1 free in
          let cheap = (is_cheap_iff step).1 low in ground (arith, ungated, cheap)
    ]),
  )
