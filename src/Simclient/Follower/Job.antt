-- ===== src/Simclient/Follower/Job.antt =====
-- src/pic_agentic/simclient/follow.py: the tracked state of a job, its answers, and the reading of
-- whole lines from its output.
use pic_agentic.Common.{
  ℕ, zero, suc, ◌+◌, ◌-◌, ◌*◌, ◌/◌, String, Bool, true, false, ◌||◌, Option, none, some, List, [],
  ◌∷◌, length, nat_eq, ltb, if◌then◌else◌,
}
use pic_agentic.Common.Float.{ℤ}
use pic_agentic.Protocol.{SimulationState, EventFields}

-- src/pic_agentic/slurm/client.py
pub data SlurmJobState : Type 0 where
  pending running completing completed failed slurm_cancelled timeout unknown : SlurmJobState

abbrev pub slurm_value : SlurmJobState → String
slurm_value pending = "PENDING"
slurm_value running = "RUNNING"
slurm_value completing = "COMPLETING"
slurm_value completed = "COMPLETED"
slurm_value failed = "FAILED"
slurm_value slurm_cancelled = "CANCELLED"
slurm_value timeout = "TIMEOUT"
slurm_value unknown = "UNKNOWN"

-- `SlurmJobState.terminal`
abbrev pub terminal : SlurmJobState → Bool
terminal pending = false
terminal running = false
terminal completing = false
terminal completed = true
terminal failed = true
terminal slurm_cancelled = true
terminal timeout = true
terminal unknown = false

pub record JobInfo : Type 0 where
  pub job_id : ℤ
  pub state : SlurmJobState
  pub exit_code : Option ℤ
  pub reason : Option String

-- The pattern admits digits only, so that the numbers are natural.
pub record ProgressLine : Type 0 where
  pub percent : ℕ
  pub step : ℕ
  pub elapsed : String
  pub avg_per_step : String
  pub avg_per_step_ms : Option ℕ

-- The follower's `_last_emitted_bucket` stands with the tracked state. `last_percent` is absent
-- where the source has -1.
pub record TrackedSim : Type 0 where
  pub job_id : Option ℤ
  pub last_percent : Option ℕ
  pub last_step : Option ℕ
  pub last_walltime : Option String
  pub last_avg_per_step : Option String
  pub last_eta_s : Option ℕ
  pub stdout_offset : ℕ
  pub job_running_emitted : Bool
  pub terminal_emitted : Bool
  pub last_slurm_reason : Option String
  pub last_emitted_bucket : ℕ

pub record Emitted : Type 0 where
  pub state : SimulationState
  pub fields : EventFields

-- `round(a / b)` of natural numbers, to the even neighbour at a tie.
unfoldable pub round_div : ℕ → ℕ → ℕ
round_div a b =
    let q = a / b in
    let twice = 2 * (a - q * b) in
    if ltb twice b
    then q
    else if ltb b twice
    then q + 1
    else if nat_eq (2 * (q / 2)) q
    then q
    else q + 1

-- `_eta_seconds`; a product and a quotient of floats is taken to be exact.
unfoldable pub eta_seconds : ℕ → ℕ → Option ℕ → Option ℕ
unfolding round_div
eta_seconds percent step none = none
eta_seconds percent step (some avg) =
    if nat_eq avg 0 || (nat_eq percent 0 || nat_eq step 0)
    then none
    else some (avg * (round_div (step * 100) percent - step) / 1000)

-- `data.rfind(b"\n") + 1`: the number of bytes up to the last newline.
unfoldable pub whole_lines : List ℕ → ℕ
whole_lines [] = 0
whole_lines (b ∷ bs) =
    let rest = whole_lines bs in if ltb 0 rest then suc rest else if nat_eq b b'\n' then 1 else 0

-- `xs[:n]` and `xs[n:]`
abbrev pub take : ℕ → List ℕ → List ℕ
take n [] = []
take zero (x ∷ xs) = []
take (suc n) (x ∷ xs) = x ∷ take n xs

abbrev pub drop : ℕ → List ℕ → List ℕ
drop n [] = []
drop zero (x ∷ xs) = x ∷ xs
drop (suc n) (x ∷ xs) = drop n xs

-- `_read_from`: a shrunk file is read from the start.
unfoldable pub read_from : List ℕ → ℕ → ℕ × List ℕ
read_from file offset =
    let start = if ltb (length file) offset then 0 else offset in (start, drop start file)

-- `_read_new_lines` before the decoding: the new offset and the bytes of the whole lines. `none`
-- is a file that is not found or not read.
unfoldable pub read_new_lines : Option (List ℕ) → ℕ → ℕ × List ℕ
unfolding read_from whole_lines
read_new_lines none offset = (offset, [])
read_new_lines (some file) offset =
    let (start, bytes) = read_from file offset in
    (start + whole_lines bytes, take (whole_lines bytes) bytes)
