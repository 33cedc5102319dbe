-- ===== src/Agenda/Budget/Admission.antt =====
-- src/pic_agentic/agenda/budget.py: the gate against the caps of a budget.
use pic_agentic.Common.{
  ℕ, ◌+◌, ◌≤◌, String, ◌≡◌, ◌↔◌, ◌⊎◌, true, false, ◌&&◌, Option, none, some, List, [], ◌∷◌, arith,
  inl, inr, refl, Bool-cases, elem, str_eq, eq_iff, eq_refl,
}
use mathlib.Core.List.{Memᴰ}
use mathlib.Core.List.Memᴰ.{head, tail, not-nil}
use pic_agentic.Common.Float.{Float, nan, add, IsAtMost, gtb→IsAtMost, IsAtMost→gtb}
use pic_agentic.Agenda.Budget.{
  Budget, BudgetUsage, ResourceRequest, over_count, over_hours, is_forbidden, check_admission,
}

-- A count that keeps its cap, if there is one.
abbrev pub IsWithin : Option ℕ → ℕ → Type 0
IsWithin none count = Unit
IsWithin (some cap) count = count ≤ cap

-- Hours that are at most their cap, if there is one. An excess is seen only between two numbers, so
-- `nan` passes on either side.
abbrev pub IsCovered : Option Float → Float → Type 0
IsCovered none hours = Unit
IsCovered (some cap) hours = IsAtMost hours cap ⊎ ((hours ≡ nan) ⊎ (cap ≡ nan))

-- A partition that the list names, if there is a list. No partition at all is none of them.
abbrev pub IsPermitted : Option (List String) → Option String → Type 0
IsPermitted none partition = Unit
IsPermitted (some allowed) none = ⊥
IsPermitted (some allowed) (some partition) = Memᴰ partition allowed

-- What admission is to guarantee: every cap holds with the request added. Caps are inclusive.
pub record IsAdmissible (budget : Budget) (usage : BudgetUsage) (request : ResourceRequest)
    : Type 0 where
  pub total : IsWithin budget.max_total_jobs (usage.jobs_submitted + 1)
  pub concurrent : IsWithin budget.max_concurrent_jobs (usage.jobs_running + 1)
  pub core : IsCovered budget.max_core_hours (add usage.core_hours request.est_core_hours)
  pub gpu :
      request.is_gpu ≡ true
      → IsCovered budget.max_gpu_hours (add usage.gpu_hours request.est_gpu_hours)
  pub partition : IsPermitted budget.allowed_partitions request.partition

over_count→IsWithin : (cap : Option ℕ) (n : ℕ) → over_count cap n ≡ false → IsWithin cap (n + 1)
over_count→IsWithin none n h = tt
over_count→IsWithin (some cap) n h = ground arith

IsWithin→over_count : (cap : Option ℕ) (n : ℕ) → IsWithin cap (n + 1) → over_count cap n ≡ false
IsWithin→over_count none n h = ground arith
IsWithin→over_count (some cap) n h = ground arith

over_hours→IsCovered :
    (cap : Option Float) (a b : Float) → over_hours cap a b ≡ false → IsCovered cap (add a b)
over_hours→IsCovered none a b h = tt
over_hours→IsCovered (some cap) a b h = gtb→IsAtMost (add a b) cap h

IsCovered→over_hours :
    (cap : Option Float) (a b : Float) → IsCovered cap (add a b) → over_hours cap a b ≡ false
IsCovered→over_hours none a b h = refl
IsCovered→over_hours (some cap) a b h = IsAtMost→gtb (add a b) cap h

elem→Memᴰ : (x : String) (xs : List String) → elem x xs ≡ true → Memᴰ x xs
unfolding elem
elem→Memᴰ x [] h = cc
elem→Memᴰ x (y ∷ ys) h = elim (Bool-cases (str_eq y x)) [
  | inl same ↦ rw ((eq_iff y x).0 same) (head refl)
  | inr other ↦ tail (elem→Memᴰ x ys (rw other at h))
]

Memᴰ→elem : (x : String) (xs : List String) → Memᴰ x xs → elem x xs ≡ true
unfolding elem
Memᴰ→elem x [] h = absurd (not-nil h)
Memᴰ→elem x (y ∷ ys) (head e) = rw (← e, eq_refl x) refl
Memᴰ→elem x (y ∷ ys) (tail h) = ground (arith, Memᴰ→elem x ys h)

forbidden→IsPermitted :
    (allowed : Option (List String)) (partition : Option String)
    → is_forbidden allowed partition ≡ false
    → IsPermitted allowed partition
forbidden→IsPermitted none partition h = tt
forbidden→IsPermitted (some allowed) none h = cc
forbidden→IsPermitted (some allowed) (some partition) h = elem→Memᴰ partition allowed (ground arith)

pub IsPermitted→forbidden :
    (allowed : Option (List String)) (partition : Option String)
    → IsPermitted allowed partition
    → is_forbidden allowed partition ≡ false
IsPermitted→forbidden none partition h = refl
IsPermitted→forbidden (some allowed) none h = absurd h
IsPermitted→forbidden (some allowed) (some partition) h = rw (Memᴰ→elem partition allowed h) refl

module _ (budget : Budget) (usage : BudgetUsage) (request : ResourceRequest) where
  -- The five tests of the gate.
  abbrev Passes : Type 0
  Passes =
      (over_count budget.max_total_jobs usage.jobs_submitted ≡ false)
      × (over_count budget.max_concurrent_jobs usage.jobs_running ≡ false)
      × (over_hours budget.max_core_hours usage.core_hours request.est_core_hours ≡ false)
      × ((request.is_gpu && over_hours budget.max_gpu_hours usage.gpu_hours request.est_gpu_hours)
          ≡ false)
      × (is_forbidden budget.allowed_partitions request.partition ≡ false)

  admitted-Passes : check_admission budget usage request ≡ none → Passes
  unfolding check_admission
  admitted-Passes h = (ground arith, ground arith, ground arith, ground arith, ground arith)

  Passes-admitted : Passes → check_admission budget usage request ≡ none
  unfolding check_admission
  Passes-admitted (a, b, c, d, e) = rw (a, b, c, d, e)

  Passes-IsAdmissible : Passes → IsAdmissible budget usage request
  Passes-IsAdmissible (a, b, c, d, e) = record {
    total = over_count→IsWithin budget.max_total_jobs usage.jobs_submitted a;
    concurrent = over_count→IsWithin budget.max_concurrent_jobs usage.jobs_running b;
    core = over_hours→IsCovered budget.max_core_hours usage.core_hours request.est_core_hours c;
    gpu = λ g.
        over_hours→IsCovered budget.max_gpu_hours usage.gpu_hours request.est_gpu_hours (rw g at d);
    partition = forbidden→IsPermitted budget.allowed_partitions request.partition e;
  }

  IsAdmissible-Passes : IsAdmissible budget usage request → Passes
  IsAdmissible-Passes h = (
    IsWithin→over_count budget.max_total_jobs usage.jobs_submitted h.total,
    IsWithin→over_count budget.max_concurrent_jobs usage.jobs_running h.concurrent,
    IsCovered→over_hours budget.max_core_hours usage.core_hours request.est_core_hours h.core,
    elim (Bool-cases request.is_gpu) [
      | inl g ↦ rw g (
          IsCovered→over_hours budget.max_gpu_hours usage.gpu_hours request.est_gpu_hours (h.gpu g))
      | inr g ↦ rw g refl
    ],
    IsPermitted→forbidden budget.allowed_partitions request.partition h.partition,
  )

-- A request is admitted exactly when every cap holds with it added.
pub check_admission_iff :
    (budget : Budget) (usage : BudgetUsage) (request : ResourceRequest)
    → (check_admission budget usage request ≡ none) ↔ IsAdmissible budget usage request
check_admission_iff budget usage request = (
  (λ h. Passes-IsAdmissible budget usage request (admitted-Passes budget usage request h)),
  (λ h. Passes-admitted budget usage request (IsAdmissible-Passes budget usage request h)),
)
