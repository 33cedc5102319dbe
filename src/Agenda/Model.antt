-- ===== src/Agenda/Model.antt =====
-- src/pic_agentic/agenda/model.py: the agenda tree, its names and its leaves. A mapping that `add`
-- would validate as an entry, and the display label of a sweep, are not modelled.
pub mod Leaves
pub mod Expand
use pic_agentic.Common.{
  ℕ, String, Bool, true, false, Option, none, some, List, [], ◌∷◌, ◌++◌, ◌&&◌, ◌||◌, str_eq,
  is_empty, concat, contains_char, starts_with_char, elem, is_some, if◌then◌else◌,
}
use pic_agentic.Common.Float.{Float}
use pic_agentic.Common.Value.{Value, Fields}

pub data Status : Type 0 where
  planned submitted running done failed : Status

pub record AgendaSweep : Type 0 where
  pub parameter : String
  pub values : List Value
  pub unit : Option String

pub record AgendaSim : Type 0 where
  pub name : String
  pub spec : Fields
  pub point : Option Fields
  pub sweep_parameter : Option String
  pub status : Status
  pub depends_on : List String
  pub sim_id : Option String
  pub deferred_attempts : ℕ
  pub deferred_since : Option String
  pub run_id : Option String
  pub requires_approval : Bool
  pub approved : Bool
  pub estimated_core_hours : Float
  pub estimated_gpu_hours : Float
  pub actual_core_hours : Option Float
  pub actual_gpu_hours : Option Float
  pub is_gpu : Bool
  pub reused : Bool
  pub error : Option String
  pub error_code : Option String
  pub stage : Option String
  pub suspect : Option String

-- The fields of an `AgendaGroup` beside its entries.
pub record GroupInfo : Type 0 where
  pub name : String
  pub sweep : Option AgendaSweep
  pub depends_on : List String

-- `entries` in insertion order: each key with a leaf or a nested group.
mutual
  pub data Entry : Type 0 where
    sim : AgendaSim → Entry
    group : GroupInfo → Entries → Entry

  pub data Entries : Type 0 where
    no_entries : Entries
    entry : String → Entry → Entries → Entries

pub record AgendaGroup : Type 0 where
  pub info : GroupInfo
  pub entries : Entries

-- `entries.get(name)`
unfoldable pub get_entry : String → Entries → Option Entry
get_entry name no_entries = none
get_entry name (entry k e rest) = if str_eq k name then some e else get_entry name rest

-- `entries[name] = e` for a name that is not there
unfoldable pub append_entry : String → Entry → Entries → Entries
append_entry name e no_entries = entry name e no_entries
append_entry name e (entry k x rest) = entry k x (append_entry name e rest)

pub data NameError : Type 0 where
  empty_name leading_dot illegal_character duplicate_name existing_entry : NameError

-- `validate_entry_name`: `none` where the name is legal.
unfoldable pub validate_entry_name : String → Option NameError
validate_entry_name name =
    if is_empty name
    then some empty_name
    else if starts_with_char b'.' name
    then some leading_dot
    else if contains_char b'/' name
    then some illegal_character
    else none

-- `len(set(deps)) != len(deps)`
unfoldable pub has_duplicate : List String → Bool
has_duplicate [] = false
has_duplicate (d ∷ ds) = elem d ds || has_duplicate ds

unfoldable pub validate_each : List String → Option NameError
validate_each [] = none
validate_each (d ∷ ds) = elim (validate_entry_name d) [ some e ↦ some e | none ↦ validate_each ds ]

-- `_validate_dependencies`
unfoldable pub validate_dependencies : List String → Option NameError
unfolding validate_each has_duplicate
validate_dependencies deps = if has_duplicate deps then some duplicate_name else validate_each deps

-- `f"{prefix}/{name}" if prefix else name`
unfoldable pub join_path : String → String → String
join_path prefix name = if is_empty prefix then name else concat prefix (concat "/" name)

abbrev pub Leaf : Type 0
Leaf = String × AgendaSim

-- `_walk_leaves`
unfoldable mutual
  pub walk_entry : String → Entry → List Leaf
  walk_entry path (sim s) = (path, s) ∷ []
  walk_entry path (group info es) = walk_leaves path es

  pub walk_leaves : String → Entries → List Leaf
  walk_leaves prefix no_entries = []
  walk_leaves prefix (entry name e rest) =
      walk_entry (join_path prefix name) e ++ walk_leaves prefix rest

unfoldable pub simulations : AgendaGroup → List Leaf
simulations agenda = walk_leaves "" agenda.entries

-- A `for path, sim in agenda.simulations()` loop over a deep copy that assigns to the leaves: it
-- carries a state `S` from leaf to leaf.
unfoldable mutual
  pub visit_entry :
      {S : Type 0} → (String → AgendaSim → S → AgendaSim × S) → String → Entry → S → Entry × S
  visit_entry f path (sim s) st = let (s', st') = f path s st in (sim s', st')
  visit_entry f path (group info es) st =
      let (es', st') = visit_leaves f path es st in (group info es', st')

  pub visit_leaves :
      {S : Type 0} → (String → AgendaSim → S → AgendaSim × S) → String → Entries → S → Entries × S
  visit_leaves f prefix no_entries st = (no_entries, st)
  visit_leaves f prefix (entry name e rest) st =
      let (e', st') = visit_entry f (join_path prefix name) e st in
      let (rest', st'') = visit_leaves f prefix rest st' in (entry name e' rest', st'')

unfoldable pub for_leaves :
    {S : Type 0} → (String → AgendaSim → S → AgendaSim × S) → AgendaGroup → S → AgendaGroup × S
for_leaves f agenda st =
    let (es, st') = visit_leaves f "" agenda.entries st in
    (record { info = agenda.info; entries = es }, st')
