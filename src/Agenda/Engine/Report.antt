-- ===== src/Agenda/Engine/Report.antt =====
-- src/pic_agentic/agenda/engine.py: the compact report of the failures of one tick.
pub mod Totals
use pic_agentic.Common.{
  ℕ, ◌+◌, String, Bool, true, false, Option, none, some, List, [], ◌∷◌, ◌++◌, map, ◌&&◌, str_eq,
  concat, join, leb, nat_eq, length, char_count, take_chars, if◌then◌else◌,
}
use pic_agentic.Agenda.Campaign.{CallbackKind, done_callback, failed_callback, Callback, truthy}
use pic_agentic.Agenda.Engine.{FailureGroup, TickResult}

abbrev pub failure_message_max_chars : ℕ
failure_message_max_chars = 500

-- `_truncate`
unfoldable pub truncate : ℕ → String → String
truncate limit text =
    if leb (char_count text) limit then text else concat (take_chars limit text) "...(truncated)"

-- `_failure_reason`
unfoldable pub failure_reason : Callback → String
failure_reason c =
    let by_code : String = elim c.error_code [
      | none ↦ "the failure reason was not reported"
      | some code ↦
          if truthy (some code)
          then concat "the failure reason was not reported (error_code=" (concat code ")")
          else "the failure reason was not reported"
    ] in
    elim c.error [ none ↦ by_code | some error ↦ if truthy (some error) then error else by_code ]

-- `callback.error_code, callback.stage, reason`
abbrev pub FailureKey : Type 0
FailureKey = Option String × Option String × String

abbrev pub same_text : Option String → Option String → Bool
same_text none none = true
same_text (some a) (some b) = str_eq a b
same_text _ _ = false

abbrev pub same_key : FailureKey → FailureKey → Bool
same_key (code, stage, reason) (code', stage', reason') =
    same_text code code' && same_text stage stage' && str_eq reason reason'

abbrev pub failure_key : Callback → FailureKey
failure_key c = (c.error_code, c.stage, failure_reason c)

abbrev pub is_failed : Callback → Bool
is_failed c = elim c.kind [ done_callback ↦ false | failed_callback ↦ true ]

abbrev pub Groups : Type 0
Groups = List (FailureKey × FailureGroup)

abbrev pub new_group : FailureKey → String → FailureGroup
new_group (code, stage, reason) path = record {
  error_code = code;
  stage = stage;
  message = truncate failure_message_max_chars reason;
  paths = path ∷ [];
}

-- A path under its key, in the order in which the keys came.
unfoldable pub put_failure : FailureKey → String → Groups → Groups
unfolding truncate
put_failure key path [] = (key, new_group key path) ∷ []
put_failure key path ((k, g) ∷ groups) =
    let rest = put_failure key path groups in
    if same_key k key
    then (k, record g { paths = g.paths ++ path ∷ [] }) ∷ groups
    else (k, g) ∷ rest

unfoldable pub group_failures : List Callback → Groups → Groups
unfolding failure_reason
group_failures [] groups = groups
group_failures (c ∷ callbacks) groups =
    group_failures callbacks
      (if is_failed c then put_failure (failure_key c) c.path groups else groups)

unfoldable pub truncate_error : Callback → Callback
unfolding truncate
truncate_error c =
    let error : Option String = elim c.error [
      | none ↦ none
      | some e ↦ some (truncate failure_message_max_chars e)
    ] in
    if is_failed c then record c { error = error } else c

abbrev pub affected : List FailureGroup → ℕ
affected [] = 0
affected (g ∷ groups) = length g.paths + affected groups

abbrev pub clause : FailureGroup → String
clause g = elim g.error_code [
  | none ↦ g.message
  | some code ↦ if truthy (some code) then concat code (concat ": " g.message) else g.message
]

-- `_failure_summary`
unfoldable pub failure_summary : (ℕ → String) → List FailureGroup → Option String
failure_summary decimal [] = none
failure_summary decimal (g ∷ groups) =
    let total = affected (g ∷ groups) in
    let noun = if nat_eq total 1 then "leaf" else "leaves" in
    some (
      concat (decimal total)
        (concat " " (concat noun (concat " failed: " (join ", " (map clause (g ∷ groups)))))))

-- `_compact_failures`
unfoldable pub compact_failures : (ℕ → String) → TickResult → TickResult
unfolding group_failures truncate_error failure_summary
compact_failures decimal r =
    let groups =
      map (λ (entry : FailureKey × FailureGroup). entry.1) (group_failures r.callbacks []) in
    record r {
      callbacks = map truncate_error r.callbacks;
      failure_groups = groups;
      failure_summary = failure_summary decimal groups;
    }
