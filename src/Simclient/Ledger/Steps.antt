-- ===== src/Simclient/Ledger/Steps.antt =====
-- src/pic_agentic/simclient/client.py: the life of the ledger, over commands, ends of executions and
-- restarts, with a disk that works and room for every record.
use pic_agentic.Common.{ℕ, ◌<◌, String, ◌≡◌, true, false, List, [], ◌∷◌, length, is_empty}
use pic_agentic.Simclient.Ledger.{
  HelloResult, Ledger, Disk, load_processed, handle_hello, Submission, Prepared, handle_submit,
  Execution, finish_submit,
}

abbrev pub works : Disk
works = record { appended = true; compacted = true }

abbrev pub empty_ledger : ℕ → Ledger
empty_ledger limit = record {
  limit = limit;
  processed = [];
  file = [];
  executed = [];
  greeted = [];
  sent = [];
}

-- `(c, h)` is among the executions.
pub data IsIn (c h : String) : List (String × String) → Type 0 where
  here : (l : List (String × String)) → IsIn c h ((c, h) ∷ l)
  there : (x : String × String) (l : List (String × String)) → IsIn c h l → IsIn c h (x ∷ l)

-- One event in the life of the client. Submissions name a command and a payload hash; an execution
-- that ends was started.
pub data Step (s : Ledger) : Ledger → Type 0 where
  greets :
      (result : HelloResult) (cmd_id : String)
      → length s.processed < s.limit
      → Step s (handle_hello works works result cmd_id s)
  submits :
      (p : Prepared) (m : Submission)
      → length s.processed < s.limit
      → is_empty m.cmd_id ≡ false
      → is_empty m.payload_hash ≡ false
      → Step s (handle_submit works works p m s)
  finishes :
      (e : Execution) (m : Submission)
      → length s.processed < s.limit
      → IsIn m.cmd_id m.payload_hash s.executed
      → Step s (finish_submit works e m s)
  restarts : Step s (load_processed s)

pub data Reachable (limit : ℕ) : Ledger → Type 0 where
  starts : Reachable limit (empty_ledger limit)
  steps : (s t : Ledger) → Reachable limit s → Step s t → Reachable limit t
