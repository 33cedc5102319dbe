-- ===== src/Agenda/Budget.antt =====
-- src/pic_agentic/agenda/budget.py: the caps of an agenda and the gate before each submission. Hours
-- are Python floats; job counts are natural numbers, and a negative cap is the cap 0.
pub mod Admission
pub mod Verdict
use pic_agentic.Common.{
  ℕ, ◌+◌, String, Bool, true, false, not, Option, none, some, List, [], ◌∷◌, ◌&&◌, elem, ltb,
  if◌then◌else◌,
}
use pic_agentic.Common.Float.{Float, add, gtb}

pub record Budget : Type 0 where
  pub max_core_hours : Option Float
  pub max_gpu_hours : Option Float
  pub max_concurrent_jobs : Option ℕ
  pub max_total_jobs : Option ℕ
  pub allowed_partitions : Option (List String)

pub record BudgetUsage : Type 0 where
  pub core_hours : Float
  pub gpu_hours : Float
  pub jobs_submitted : ℕ
  pub jobs_running : ℕ

pub record ResourceRequest : Type 0 where
  pub est_core_hours : Float
  pub est_gpu_hours : Float
  pub partition : Option String
  pub is_gpu : Bool

-- The `BudgetExceededError`s, with what their messages show.
pub data Breach : Type 0 where
  job_budget_exhausted : (submitted cap : ℕ) → Breach
  concurrency_cap_reached : (running cap : ℕ) → Breach
  core_hours_exhausted : (used needed cap : Float) → Breach
  gpu_hours_exhausted : (used needed cap : Float) → Breach
  partition_not_allowed : Option String → List String → Breach

-- `cap is not None and count + 1 > cap`
abbrev pub over_count : Option ℕ → ℕ → Bool
over_count none count = false
over_count (some cap) count = ltb cap (count + 1)

-- `cap is not None and used + needed > cap`
abbrev pub over_hours : Option Float → Float → Float → Bool
over_hours none used needed = false
over_hours (some cap) used needed = gtb (add used needed) cap

-- `allowed is not None and partition not in allowed`
abbrev pub is_forbidden : Option (List String) → Option String → Bool
is_forbidden none partition = false
is_forbidden (some allowed) none = true
is_forbidden (some allowed) (some partition) = not (elem partition allowed)

abbrev pub cap_or {ℓ} : {A : Type ℓ} → Option A → A → A
cap_or none a = a
cap_or (some b) a = b

-- `none` where the request is admitted; the error otherwise.
unfoldable pub check_admission : Budget → BudgetUsage → ResourceRequest → Option Breach
check_admission budget usage request =
    if over_count budget.max_total_jobs usage.jobs_submitted
    then some (job_budget_exhausted usage.jobs_submitted (cap_or budget.max_total_jobs 0))
    else if over_count budget.max_concurrent_jobs usage.jobs_running
    then some (concurrency_cap_reached usage.jobs_running (cap_or budget.max_concurrent_jobs 0))
    else if over_hours budget.max_core_hours usage.core_hours request.est_core_hours
    then some (
        core_hours_exhausted usage.core_hours request.est_core_hours
          (cap_or budget.max_core_hours usage.core_hours))
    else if request.is_gpu && over_hours budget.max_gpu_hours usage.gpu_hours request.est_gpu_hours
    then some (
        gpu_hours_exhausted usage.gpu_hours request.est_gpu_hours
          (cap_or budget.max_gpu_hours usage.gpu_hours))
    else if is_forbidden budget.allowed_partitions request.partition
    then some (partition_not_allowed request.partition (cap_or budget.allowed_partitions []))
    else none
