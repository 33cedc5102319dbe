-- ===== src/Simclient/Ledger.antt =====
-- src/pic_agentic/simclient/client.py: the durable record of processed commands, and the handlers of
-- hello and submit commands. Whether a write to disk succeeds, the preparation of a submission and
-- the outcome of an execution are parameters. The file is the list of its lines, without those that
-- do not parse, which the loading skips.
pub mod Steps
pub mod Records
pub mod Exactly
pub mod Forgotten
use pic_agentic.Common.{
  ℕ, zero, suc, ◌-◌, String, Bool, true, false, not, ◌&&◌, ◌||◌, Option, none, some, List, [], ◌∷◌,
  ◌++◌, length, is_empty, str_eq, ltb, if◌then◌else◌,
}
use pic_agentic.Common.Dict.{Dict, get, put}
use pic_agentic.Common.Float.{ℤ}
use pic_agentic.Protocol.{SimulationState, accepted, failed, workflow_finished, state_value}

pub record ProcessedCommand : Type 0 where
  pub cmd_id : String
  pub completed : Bool
  pub job_id : Option ℤ
  pub cluster_output : Option String
  pub error : Option String
  pub payload_hash : Option String
  pub sim_id : Option String
  pub state : Option String
  pub error_code : Option String

abbrev pub new_record : String → ProcessedCommand
new_record cmd_id = record {
  cmd_id = cmd_id;
  completed = false;
  job_id = none;
  cluster_output = none;
  error = none;
  payload_hash = none;
  sim_id = none;
  state = none;
  error_code = none;
}

pub record HelloResult : Type 0 where
  pub job_id : Option ℤ
  pub cluster_output : Option String
  pub error : Option String
  pub error_code : Option String

-- `to_result`
unfoldable pub to_result : ProcessedCommand → HelloResult
to_result r =
    if r.completed
    then record {
      job_id = r.job_id;
      cluster_output = r.cluster_output;
      error = r.error;
      error_code = r.error_code;
    }
    else record {
      job_id = r.job_id;
      cluster_output = none;
      error = some "already_submitted:outcome_unknown";
      error_code = some "outcome_unknown";
    }

pub record SubmitAck : Type 0 where
  pub cmd_id : String
  pub sim_id : String
  pub state : String
  pub job_id : Option ℤ
  pub error : Option String
  pub error_code : Option String

pub data Reply : Type 0 where
  hello_reply : String → HelloResult → Reply
  submit_reply : SubmitAck → Reply

-- `executed` lists the commands whose execution was started, with their payload hashes, and `sent`
-- the acks, both with the newest in front. `limit` is `_MAX_PROCESSED`, 4096.
pub record Ledger : Type 0 where
  pub limit : ℕ
  pub processed : Dict ProcessedCommand
  pub file : List ProcessedCommand
  pub executed : List (String × String)
  pub greeted : List String
  pub sent : List Reply

-- `xs[-n:]`
abbrev pub drop {ℓ} : {A : Type ℓ} → ℕ → List A → List A
drop n [] = []
drop zero (x ∷ xs) = x ∷ xs
drop (suc n) (x ∷ xs) = drop n xs

abbrev pub last_items {ℓ} : {A : Type ℓ} → ℕ → List A → List A
last_items n xs = drop (length xs - n) xs

abbrev pub records_of : Dict ProcessedCommand → List ProcessedCommand
records_of [] = []
records_of ((k, r) ∷ d) = r ∷ records_of d

-- `{record.cmd_id: record for record in recent}` and the loop of `_load_processed`
unfoldable pub index : List ProcessedCommand → Dict ProcessedCommand → Dict ProcessedCommand
index [] d = d
index (r ∷ rs) d = index rs (put r.cmd_id r d)

-- The disk's answers to one append and to the compaction that may follow.
pub record Disk : Type 0 where
  pub appended : Bool
  pub compacted : Bool

unfoldable pub rewrite_processed : Bool → Ledger → Ledger
unfolding index
rewrite_processed compacted s =
    let recent = last_items s.limit (records_of s.processed) in
    record s { processed = index recent []; file = if compacted then recent else s.file }

unfoldable pub persist_processed : Disk → ProcessedCommand → Ledger → Ledger
unfolding rewrite_processed
persist_processed disk r s =
    let held : Ledger = record s {
      processed = put r.cmd_id r s.processed;
      file = s.file ++ r ∷ [];
    } in
    if disk.appended
    then (if ltb s.limit (length held.processed)
        then rewrite_processed disk.compacted held
        else held)
    else s

-- A new process: memory is read back from the file.
unfoldable pub load_processed : Ledger → Ledger
unfolding index
load_processed s = record s { processed = index s.file [] }

abbrev pub reply : Reply → Ledger → Ledger
reply a s = record s { sent = a ∷ s.sent }

-- `_handle_hello`, with the disk's answers to the two records and the result of the execution.
unfoldable pub handle_hello : Disk → Disk → HelloResult → String → Ledger → Ledger
unfolding persist_processed to_result
handle_hello before after result cmd_id s =
    let begun = persist_processed before (new_record cmd_id) s in
    let run = record begun { greeted = cmd_id ∷ begun.greeted } in
    let ended =
      persist_processed after
        (record (new_record cmd_id) {
          completed = true;
          job_id = result.job_id;
          cluster_output = result.cluster_output;
          error = result.error;
        })
        run in
    if is_empty cmd_id
    then reply (hello_reply cmd_id result) (record s { greeted = cmd_id ∷ s.greeted })
    else elim (get cmd_id s.processed) [
      | some r ↦ reply (hello_reply cmd_id (to_result r)) s
      | none ↦ reply (hello_reply cmd_id result) ended
    ]

-- The command id, and the header's payload hash and simulation id.
pub record Submission : Type 0 where
  pub cmd_id : String
  pub payload_hash : String
  pub sim_id : String

-- `prepare_submit`: the prepared simulation's id, or an error with its code. A payload that is no
-- text is rejected before.
pub data Prepared : Type 0 where
  payload_missing : Prepared
  rejected : String → String → Prepared
  prepared : String → Prepared

abbrev pub ack_of : Submission → String → SubmitAck
ack_of m state = record {
  cmd_id = m.cmd_id;
  sim_id = m.sim_id;
  state = state;
  job_id = none;
  error = none;
  error_code = none;
}

-- `x or y` of texts
abbrev pub or_text : Option String → String → String
or_text none other = other
or_text (some s) other = if is_empty s then other else s

-- `_submit_replay_ack`
unfoldable pub submit_replay_ack : Submission → ProcessedCommand → Option SubmitAck
submit_replay_ack m r =
    let hash = or_text r.payload_hash "" in
    let stored = record (ack_of m (or_text r.state (state_value failed))) {
      sim_id = or_text r.sim_id m.sim_id;
      job_id = r.job_id;
      error = r.error;
      error_code = r.error_code;
    } in
    let unknown = record (ack_of m (state_value failed)) {
      sim_id = or_text r.sim_id m.sim_id;
      job_id = r.job_id;
      error = some "already_submitted:outcome_unknown";
      error_code = some "outcome_unknown";
    } in
    let conflict = record (ack_of m (state_value failed)) {
      error = some "cmd_id_conflict: a different payload was already submitted under this cmd_id";
      error_code = some "rejected_by_policy";
    } in
    if is_empty hash || is_empty m.payload_hash
    then none
    else if str_eq hash m.payload_hash
    then some (if r.completed then stored else unknown)
    else some conflict

-- `if cmd_id: self._persist_processed(...)`
abbrev pub persist_named : Disk → ProcessedCommand → Ledger → Ledger
persist_named disk r s = if is_empty r.cmd_id then s else persist_processed disk r s

abbrev pub submit_record : Submission → ProcessedCommand
submit_record m = record (new_record m.cmd_id) {
  payload_hash = some m.payload_hash;
  sim_id = some m.sim_id;
}

abbrev pub failure_record : Submission → String → String → ProcessedCommand
failure_record m error code = record (submit_record m) {
  completed = true;
  state = some (state_value failed);
  error = some error;
  error_code = some code;
}

-- `_prepare_or_reject`, and past it the first ack and the start of the execution.
unfoldable pub prepare_or_reject : Disk → Prepared → Submission → Ledger → Ledger
unfolding persist_processed
prepare_or_reject disk payload_missing m s =
    reply
      (submit_reply (record (ack_of m (state_value failed)) {
        error = some "payload_missing";
        error_code = some "rejected_by_policy";
      }))
      s
prepare_or_reject disk (rejected error code) m s =
    reply
      (submit_reply
        (record (ack_of m (state_value failed)) { error = some error; error_code = some code }))
      (persist_named disk (failure_record m error code) s)
prepare_or_reject disk (prepared sim_id) m s =
    record (reply (submit_reply (record (ack_of m (state_value accepted)) { sim_id = sim_id })) s) {
      executed = (m.cmd_id, m.payload_hash) ∷ s.executed;
    }

-- A command that is taken for new.
unfoldable pub submit_new : Disk → Disk → Prepared → Submission → Ledger → Ledger
unfolding persist_processed prepare_or_reject
submit_new before after p m s =
    prepare_or_reject after p m (persist_named before (submit_record m) s)

unfoldable pub replay_or_new : Ledger → Submission → Ledger → Option SubmitAck → Ledger
replay_or_new fresh m s none = fresh
replay_or_new fresh m s (some ack) = reply (submit_reply ack) s

abbrev pub replay_of : Submission → Option ProcessedCommand → Option SubmitAck
replay_of m none = none
replay_of m (some r) = submit_replay_ack m r

-- `self._processed.get(cmd_id) if cmd_id else None`
abbrev pub existing_of : String → Ledger → Option ProcessedCommand
existing_of cmd_id s = if is_empty cmd_id then none else get cmd_id s.processed

unfoldable pub handle_submit : Disk → Disk → Prepared → Submission → Ledger → Ledger
unfolding submit_new replay_or_new submit_replay_ack
handle_submit before after p m s =
    replay_or_new (submit_new before after p m s) m s (replay_of m (existing_of m.cmd_id s))

-- How `execute_submit` ended.
pub data Execution : Type 0 where
  crashed : String → String → Execution
  completed_with : Option ℤ → String → String → Execution

abbrev pub outcome_record : Submission → Execution → ProcessedCommand
outcome_record m (crashed error code) = failure_record m error code
outcome_record m (completed_with job_id sim_id state) = record (submit_record m) {
  completed = true;
  job_id = job_id;
  sim_id = some sim_id;
  state = some state;
}

-- The last write of `_execute_accepted_submit`.
unfoldable pub finish_submit : Disk → Execution → Submission → Ledger → Ledger
unfolding persist_processed
finish_submit disk e m s = persist_named disk (outcome_record m e) s
