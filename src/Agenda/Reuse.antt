-- ===== src/Agenda/Reuse.antt =====
-- src/pic_agentic/agenda/reuse.py: the registry of reusable runs.
pub mod Kept
use pic_agentic.Common.{
  String, Bool, true, false, not, Option, none, some, List, [], ◌∷◌, ◌++◌, ◌&&◌, ◌||◌, str_eq, elem,
  is_empty, if◌then◌else◌,
}
use pic_agentic.Common.Dict
use pic_agentic.Common.Dict.{Dict}

pub record ReuseRecord : Type 0 where
  pub wire_hash : String
  pub sim_id : String
  pub state : String
  pub run_dir : Option String
  pub ts : Option String
  pub run_id : Option String
  pub pending_run_ids : List String

abbrev pub ReuseRegistry : Type 0
ReuseRegistry = Dict ReuseRecord

-- `state in REUSABLE_STATES`
abbrev pub is_reusable : ReuseRecord → Bool
is_reusable r = str_eq r.state "done"

unfoldable pub lookup : String → ReuseRegistry → Option ReuseRecord
lookup wire_hash records = elim (Dict.get wire_hash records) [
  | none ↦ none
  | some r ↦ if is_reusable r then some r else none
]

abbrev pub remember : ReuseRecord → ReuseRegistry → ReuseRegistry
remember r records = Dict.put r.wire_hash r records

-- One step of `for run_id in (existing.run_id, record.run_id)`.
unfoldable pub await : Option String → List String → List String
await none ids = ids
await (some id) ids = if not (is_empty id) && not (elem id ids) then ids ++ id ∷ [] else ids

abbrev pub same_texts : List String → List String → Bool
same_texts [] [] = true
same_texts (a ∷ as') (b ∷ bs) = str_eq a b && same_texts as' bs
same_texts _ _ = false

-- `record_direct` over a record that is there.
unfoldable pub merge : ReuseRecord → ReuseRecord → ReuseRegistry → ReuseRegistry
unfolding await
merge old r records =
    let ids = await r.run_id (await old.run_id old.pending_run_ids) in
    if is_reusable old
    then records
    else if is_reusable r
    then remember (record old { state = r.state; run_id = r.run_id; pending_run_ids = [] }) records
    else if same_texts ids old.pending_run_ids
    then records
    else remember (record old { pending_run_ids = ids }) records

unfoldable pub record_direct : ReuseRecord → ReuseRegistry → ReuseRegistry
unfolding merge
record_direct r records = elim (Dict.get r.wire_hash records) [
  | none ↦ remember r records
  | some old ↦ merge old r records
]

-- `run_id in {record.run_id, *record.pending_run_ids}`
abbrev pub is_run : String → Option String → Bool
is_run id none = false
is_run id (some other) = str_eq other id

abbrev pub is_candidate : String → ReuseRecord → Bool
is_candidate id r = str_eq r.state "pending" && (is_run id r.run_id || elem id r.pending_run_ids)

-- The first pending record that waits for the run.
unfoldable pub find_pending : String → ReuseRegistry → Option (String × ReuseRecord)
find_pending id [] = none
find_pending id ((k, r) ∷ records) =
    let rest = find_pending id records in if is_candidate id r then some (k, r) else rest

abbrev pub promoted : String → String → ReuseRecord → ReuseRecord
promoted id state r = record r { state = state; run_id = some id; pending_run_ids = [] }

unfoldable pub promote : String → String → ReuseRegistry → ReuseRegistry
unfolding find_pending
promote id state records = if is_empty id then records else elim (find_pending id records) [
  | none ↦ records
  | some (k, r) ↦ Dict.put k (promoted id state r) records
]
