-- ===== src/Simclient/Ledger/Forgotten.antt =====
-- src/pic_agentic/simclient/client.py: `_submit_replay_ack` on a submission without a payload hash.
use pic_agentic.Common.{
  ◌<◌, String, ◌≡◌, refl, ap, ◌∙◌, true, false, Option, none, some, List, ◌∷◌, inl, inr, length,
  is_empty, ltb, Bool-cases,
}
use pic_agentic.Common.Dict.{get, put, get-put_self}
use pic_agentic.Simclient.Ledger.{
  ProcessedCommand, Ledger, rewrite_processed, persist_processed, persist_named, Submission,
  Prepared, rejected, prepared, submit_record, failure_record, prepare_or_reject, submit_new,
  replay_or_new, replay_of, existing_of, or_text, submit_replay_ack, handle_submit,
}
use pic_agentic.Simclient.Ledger.Steps.{works}
use pic_agentic.Simclient.Ledger.Records.{written, persist-written, room_for, room_again}

persist-executed :
    (r : ProcessedCommand) (s : Ledger) → (persist_processed works r s).executed ≡ s.executed
unfolding persist_processed rewrite_processed
persist-executed r s = elim (Bool-cases (ltb s.limit (length (put r.cmd_id r s.processed)))) [
  | inl over ↦ rw over refl
  | inr fits ↦ rw fits refl
]

named-executed :
    (r : ProcessedCommand) (s : Ledger) → (persist_named works r s).executed ≡ s.executed
named-executed r s = elim (Bool-cases (is_empty r.cmd_id)) [
  | inl nameless ↦ rw nameless refl
  | inr named ↦ rw named (persist-executed r s)
]

blank-none :
    (m : Submission) (o : Option ProcessedCommand)
    → is_empty m.payload_hash ≡ true
    → replay_of m o ≡ none
unfolding submit_replay_ack
blank-none m none empty = refl
blank-none m (some r) empty = elim (Bool-cases (is_empty (or_text r.payload_hash ""))) [
  | inl erased ↦ rw (empty, erased) refl
  | inr kept ↦ rw (empty, kept) refl
]

erased-none :
    (m : Submission) (r : ProcessedCommand)
    → r.payload_hash ≡ some ""
    → submit_replay_ack m r ≡ none
unfolding submit_replay_ack
erased-none m r e = rw e refl

-- A submission of no payload hash that is rejected: the record that it leaves.
rejected-record :
    (m : Submission) (error code : String) (s : Ledger)
    → length s.processed < s.limit
    → is_empty m.cmd_id ≡ false
    → get m.cmd_id (submit_new works works (rejected error code) m s).processed
      ≡ some (failure_record m error code)
unfolding submit_new prepare_or_reject
rejected-record m error code s room named =
    let first : ProcessedCommand = submit_record m in
    let second : ProcessedCommand = failure_record m error code in
    rw
      (
        named,
        persist-written first s (room_for first s room),
        persist-written second (written first s) (room_again m.cmd_id first second s room),
      )
      (get-put_self m.cmd_id second (put m.cmd_id first s.processed))

rejected-executed :
    (m : Submission) (error code : String) (s : Ledger)
    → (submit_new works works (rejected error code) m s).executed ≡ s.executed
unfolding submit_new prepare_or_reject
rejected-executed m error code s =
    named-executed (failure_record m error code) (persist_named works (submit_record m) s)
    ∙ named-executed (submit_record m) s

prepared-executed :
    (m : Submission) (sim_id : String) (s : Ledger)
    → (submit_new works works (prepared sim_id) m s).executed
      ≡ (m.cmd_id, m.payload_hash) ∷ s.executed
unfolding submit_new prepare_or_reject
prepared-executed m sim_id s =
    ap (λ (l : List (String × String)). (m.cmd_id, m.payload_hash) ∷ l)
      (named-executed (submit_record m) s)

submit-new :
    (s : Ledger) (m : Submission) (p : Prepared)
    → replay_of m (existing_of m.cmd_id s) ≡ none
    → handle_submit works works p m s ≡ submit_new works works p m s
unfolding handle_submit replay_or_new
submit-new s m p fresh = rw fresh refl

erased-executed :
    (t : Ledger) (m : Submission) (q : ProcessedCommand) (sim_id : String)
    → is_empty m.cmd_id ≡ false
    → get m.cmd_id t.processed ≡ some q
    → q.payload_hash ≡ some ""
    → (handle_submit works works (prepared sim_id) m t).executed
      ≡ (m.cmd_id, m.payload_hash) ∷ t.executed
erased-executed t m q sim_id named known erased =
    let fresh : replay_of m (existing_of m.cmd_id t) ≡ none =
      rw (named, known) (erased-none m q erased) in
    ap (λ (x : Ledger). x.executed) (submit-new t m (prepared sim_id) fresh)
    ∙ prepared-executed m sim_id t

-- In any ledger with room, after a submission without a payload hash that is rejected under some
-- command id, the submission of that id with its payload hash is executed, whether or not it was
-- executed before.
pub handle_submit-forgets :
    (s : Ledger) (m : Submission) (error code sim_id : String)
    → length s.processed < s.limit
    → is_empty m.cmd_id ≡ false
    → let blank = record m { payload_hash = "" } in
      let forgotten = handle_submit works works (rejected error code) blank s in
      (handle_submit works works (prepared sim_id) m forgotten).executed
      ≡ (m.cmd_id, m.payload_hash) ∷ s.executed
handle_submit-forgets s m error code sim_id room named =
    let blank : Submission = record m { payload_hash = "" } in
    let after : Ledger = submit_new works works (rejected error code) blank s in
    ap (λ (t : Ledger). (handle_submit works works (prepared sim_id) m t).executed)
      (submit-new s blank (rejected error code) (blank-none blank (existing_of m.cmd_id s) refl))
    ∙ erased-executed after m (failure_record blank error code) sim_id named
        (rejected-record blank error code s room named) refl
    ∙ ap (λ (l : List (String × String)). (m.cmd_id, m.payload_hash) ∷ l)
        (rejected-executed blank error code s)
