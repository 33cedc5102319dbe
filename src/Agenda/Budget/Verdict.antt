-- ===== src/Agenda/Budget/Verdict.antt =====
-- src/pic_agentic/agenda/budget.py: the errors of the gate.
use pic_agentic.Common.{
  ℕ, ◌+◌, ◌≤◌, ◌<◌, String, ◌≡◌, true, ◌&&◌, Option, none, some, List, [], arith, inl, inr, refl,
  sym, ap₂, some-injective, if◌then◌else◌, Bool-cases,
}
use mathlib.Core.Path.{subst, subst₂}
use pic_agentic.Common.Float.{Float, add, IsAtMost→gtb}
use pic_agentic.Agenda.Budget.{
  Budget, BudgetUsage, ResourceRequest, Breach, job_budget_exhausted, concurrency_cap_reached,
  core_hours_exhausted, gpu_hours_exhausted, partition_not_allowed, cap_or, over_count, over_hours,
  is_forbidden, check_admission,
}
use pic_agentic.Agenda.Budget.Admission.{
  IsWithin, IsCovered, IsPermitted, IsAdmissible, IsPermitted→forbidden, check_admission_iff,
}

-- What an error says: the cap that the budget sets, the usage and the request, and that the cap does
-- not hold with the request added.
abbrev pub IsBroken : Budget → BudgetUsage → ResourceRequest → Breach → Type 0
IsBroken budget usage request (job_budget_exhausted used cap) =
    (used ≡ usage.jobs_submitted) × (budget.max_total_jobs ≡ some cap) × (cap < used + 1)
IsBroken budget usage request (concurrency_cap_reached used cap) =
    (used ≡ usage.jobs_running) × (budget.max_concurrent_jobs ≡ some cap) × (cap < used + 1)
IsBroken budget usage request (core_hours_exhausted used needed cap) =
    (used ≡ usage.core_hours)
    × (needed ≡ request.est_core_hours)
    × (budget.max_core_hours ≡ some cap)
    × ¬ IsCovered (some cap) (add used needed)
IsBroken budget usage request (gpu_hours_exhausted used needed cap) =
    (used ≡ usage.gpu_hours)
    × (needed ≡ request.est_gpu_hours)
    × (request.is_gpu ≡ true)
    × (budget.max_gpu_hours ≡ some cap)
    × ¬ IsCovered (some cap) (add used needed)
IsBroken budget usage request (partition_not_allowed partition allowed) =
    (partition ≡ request.partition)
    × (budget.allowed_partitions ≡ some allowed)
    × ¬ IsPermitted (some allowed) partition

over_count→IsOver :
    (cap : Option ℕ) (n : ℕ)
    → over_count cap n ≡ true
    → (cap ≡ some (cap_or cap 0)) × (cap_or cap 0 < n + 1)
over_count→IsOver none n h = cc
over_count→IsOver (some cap) n h = (refl, ground arith)

over_hours→IsOver :
    (cap : Option Float) (used needed : Float)
    → over_hours cap used needed ≡ true
    → (cap ≡ some (cap_or cap used)) × ¬ IsCovered (some (cap_or cap used)) (add used needed)
over_hours→IsOver none used needed h = cc
over_hours→IsOver (some cap) used needed h =
    (refl, λ fits. let clear = IsAtMost→gtb (add used needed) cap fits in cc)

forbidden→IsBarred :
    (allowed : Option (List String)) (partition : Option String)
    → is_forbidden allowed partition ≡ true
    → (allowed ≡ some (cap_or allowed [])) × ¬ IsPermitted (some (cap_or allowed [])) partition
forbidden→IsBarred none partition h = cc
forbidden→IsBarred (some allowed) partition h =
    (refl, λ fits. let clear = IsPermitted→forbidden (some allowed) partition fits in cc)

-- What the gate answers: an admissible request, or an error that is true of it.
abbrev pub Verdict : Budget → BudgetUsage → ResourceRequest → Option Breach → Type 0
Verdict budget usage request none = IsAdmissible budget usage request
Verdict budget usage request (some breach) =
    IsBroken budget usage request breach × ¬ IsAdmissible budget usage request

IsBroken-excludes :
    (budget : Budget) (usage : BudgetUsage) (request : ResourceRequest) (breach : Breach)
    → IsBroken budget usage request breach
    → ¬ IsAdmissible budget usage request
IsBroken-excludes budget usage request (job_budget_exhausted used cap) (e, set, over) h =
    let fits : used + 1 ≤ cap =
      subst₂ (λ (c : Option ℕ) (n : ℕ). IsWithin c (n + 1)) set (sym e) (h.total) in
    omega arith
IsBroken-excludes budget usage request (concurrency_cap_reached used cap) (e, set, over) h =
    let fits : used + 1 ≤ cap =
      subst₂ (λ (c : Option ℕ) (n : ℕ). IsWithin c (n + 1)) set (sym e) (h.concurrent) in
    omega arith
IsBroken-excludes budget usage request (core_hours_exhausted used needed cap) (e, k, set, over) h =
    over (subst₂ IsCovered set (sym (ap₂ add e k)) (h.core))
IsBroken-excludes budget usage request (gpu_hours_exhausted used needed cap) (e, k, g, set, over)
      h =
    over (subst₂ IsCovered set (sym (ap₂ add e k)) (h.gpu g))
IsBroken-excludes budget usage request (partition_not_allowed partition allowed) (e, set, over) h =
    over (subst₂ IsPermitted set (sym e) (h.partition))

module _ (budget : Budget) (usage : BudgetUsage) (request : ResourceRequest) where
  told :
      (b breach : Breach)
      → IsBroken budget usage request b
      → some b ≡ some breach
      → IsBroken budget usage request breach
  told b breach true_of e = subst (IsBroken budget usage request) (some-injective e) true_of

  -- The same behind the caps on jobs.
  hours_or_partition :
      (breach : Breach)
      → (if over_hours budget.max_core_hours usage.core_hours request.est_core_hours
          then some (
              core_hours_exhausted usage.core_hours request.est_core_hours
                (cap_or budget.max_core_hours usage.core_hours))
          else if request.is_gpu
              && over_hours budget.max_gpu_hours usage.gpu_hours request.est_gpu_hours
          then some (
              gpu_hours_exhausted usage.gpu_hours request.est_gpu_hours
                (cap_or budget.max_gpu_hours usage.gpu_hours))
          else if is_forbidden budget.allowed_partitions request.partition
          then some (partition_not_allowed request.partition (cap_or budget.allowed_partitions []))
          else none)
        ≡ some breach
      → IsBroken budget usage request breach
  hours_or_partition breach h =
      elim (Bool-cases (over_hours budget.max_core_hours usage.core_hours request.est_core_hours)) [
        | inl c ↦
            let (set, over) =
              over_hours→IsOver budget.max_core_hours usage.core_hours request.est_core_hours c in
            told _ breach (refl, refl, set, over) (rw c at h)
        | inr c ↦
            elim (Bool-cases (
              request.is_gpu
              && over_hours budget.max_gpu_hours usage.gpu_hours request.est_gpu_hours)) [
                | inl g ↦
                    let (set, over) =
                      over_hours→IsOver budget.max_gpu_hours usage.gpu_hours request.est_gpu_hours
                        (ground (arith, g)) in
                    told _ breach (refl, refl, ground (arith, g), set, over) (rw (c, g) at h)
                | inr g ↦
                    elim (Bool-cases (is_forbidden budget.allowed_partitions request.partition)) [
                      | inl f ↦
                          let (set, over) =
                            forbidden→IsBarred budget.allowed_partitions request.partition f in
                          told _ breach (refl, set, over) (rw (c, g, f) at h)
                      | inr f ↦ let never = rw (c, g, f) at h in cc
                    ]
              ]
      ]

  -- The error of a gate that refuses is true.
  refused-IsBroken :
      (breach : Breach)
      → check_admission budget usage request ≡ some breach
      → IsBroken budget usage request breach
  unfolding check_admission
  refused-IsBroken breach h =
      elim (Bool-cases (over_count budget.max_total_jobs usage.jobs_submitted)) [
        | inl t ↦
            let (set, over) = over_count→IsOver budget.max_total_jobs usage.jobs_submitted t in
            told _ breach (refl, set, over) (rw t at h)
        | inr t ↦ elim (Bool-cases (over_count budget.max_concurrent_jobs usage.jobs_running)) [
          | inl c ↦
              let (set, over) = over_count→IsOver budget.max_concurrent_jobs usage.jobs_running c in
              told _ breach (refl, set, over) (rw (t, c) at h)
          | inr c ↦ hours_or_partition breach (rw (t, c) at h)
        ]
      ]

  given :
      (o : Option Breach)
      → check_admission budget usage request ≡ o
      → Verdict budget usage request o
  given none h = (check_admission_iff budget usage request).0 h
  given (some breach) h =
      let broken = refused-IsBroken breach h in
      (broken, IsBroken-excludes budget usage request breach broken)

  -- The gate admits a request only where the job counts keep their caps with it added, the hours do too
  -- (or the sum or the cap is nan), and the partition is in the list, if there is one; GPU hours count
  -- for GPU jobs only. A request that it refuses fails one of these, and the error names one that it
  -- fails, with the budget, the usage and the request as they are.
  pub check_admission-Verdict : Verdict budget usage request (check_admission budget usage request)
  check_admission-Verdict = given (check_admission budget usage request) refl
