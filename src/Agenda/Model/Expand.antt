-- ===== src/Agenda/Model/Expand.antt =====
-- src/pic_agentic/agenda/model.py: `AgendaGroup.add` of one entry, and `AgendaGroup.expand` over a
-- sweep. Python's `repr`, the caller's `synthesized` and `readable_label` are parameters.
pub mod Laws
use Prim.Native.Char.{Char, code}
use pic_agentic.Common.{
  ℕ, String, Bool, true, false, Option, none, some, List, [], ◌∷◌, is_some, concat, nat_eq,
  is_empty, if◌then◌else◌,
}
use pic_agentic.Common.Float.{zero_f}
use pic_agentic.Common.Value.{Value, Fields, end, field}
use pic_agentic.Agenda.Model.{
  Status, planned, AgendaSweep, AgendaSim, GroupInfo, Entry, sim, group, Entries, AgendaGroup,
  get_entry, append_entry, NameError, existing_entry, validate_entry_name,
}

pub data Result (A : Type 0) : Type 0 where
  ok : A → Result A
  err : NameError → Result A

-- `_coerce_entry` of a leaf or a group: the copy carries the key as its name.
unfoldable pub rename : String → Entry → Entry
rename name (sim s) = sim (record s { name = name })
rename name (group info es) = group (record info { name = name }) es

-- `group.add(name=entry)`
unfoldable pub add : String → Entry → AgendaGroup → Result AgendaGroup
unfolding rename
add name e agenda = elim (validate_entry_name name) [
  | some problem ↦ err problem
  | none ↦
      if is_some (get_entry name agenda.entries)
      then err existing_entry
      else ok (record agenda { entries = append_entry name (rename name e) agenda.entries })
]

-- `text.replace("/", "_")`
unfoldable pub replace_slash : String → String
replace_slash String.[] = String.[]
replace_slash (String.◌∷◌ c s) =
    concat (if nat_eq (code c) b'/' then "_" else String.◌∷◌ c String.[]) (replace_slash s)

pub record Synthesis : Type 0 where
  pub repr : Value → String
  pub synthesized : Fields → Fields
  pub readable_label : String → Option String

-- A leaf as the constructor makes it, with its defaults.
abbrev pub new_sim : String → Fields → Option Fields → Option String → AgendaSim
new_sim name spec point label = record {
  name = name;
  spec = spec;
  point = point;
  sweep_parameter = label;
  status = planned;
  depends_on = [];
  sim_id = none;
  deferred_attempts = 0;
  deferred_since = none;
  run_id = none;
  requires_approval = false;
  approved = false;
  estimated_core_hours = zero_f;
  estimated_gpu_hours = zero_f;
  actual_core_hours = none;
  actual_gpu_hours = none;
  is_gpu = false;
  reused = false;
  error = none;
  error_code = none;
  stage = none;
  suspect = none;
}

abbrev pub with_entries : AgendaGroup → Result Entries → Result AgendaGroup
with_entries agenda (ok es) = ok (record agenda { entries = es })
with_entries agenda (err problem) = err problem

-- `base_name or self.name`
abbrev pub base_of : Option String → AgendaGroup → String
base_of none agenda = agenda.info.name
base_of (some base) agenda = if is_empty base then agenda.info.name else base

module _ (y : Synthesis) where
  unfoldable pub label : AgendaSweep → Value → String
  unfolding replace_slash
  label sweep value = concat sweep.parameter (concat "=" (replace_slash (y.repr value)))

  abbrev pub assignment : AgendaSweep → Value → Fields
  assignment sweep value = field sweep.parameter value end

  unfoldable pub leaf_name : String → AgendaSweep → Value → String
  unfolding label
  leaf_name base sweep value = concat base (concat "__" (label sweep value))

  unfoldable pub swept_leaf : String → AgendaSweep → Value → AgendaSim
  unfolding leaf_name
  swept_leaf base sweep value =
      let point = assignment sweep value in
      new_sim (leaf_name base sweep value) (y.synthesized point) (some point)
        (y.readable_label sweep.parameter)

  -- the body of the `for value in sweep.values` loop
  unfoldable pub expand_values : String → AgendaSweep → List Value → Entries → Result Entries
  unfolding swept_leaf
  expand_values base sweep [] es = ok es
  expand_values base sweep (v ∷ vs) es =
      let name = leaf_name base sweep v in
      let rest =
        expand_values base sweep vs (append_entry name (sim (swept_leaf base sweep v)) es) in
      elim (validate_entry_name name) [
        | some problem ↦ err problem
        | none ↦ if is_some (get_entry name es) then err existing_entry else rest
      ]

  unfoldable pub expand : AgendaSweep → Option String → AgendaGroup → Result AgendaGroup
  unfolding expand_values
  expand sweep base_name agenda =
      let base = base_of base_name agenda in
      let expanded = with_entries agenda (expand_values base sweep sweep.values agenda.entries) in
      elim (validate_entry_name base) [ some problem ↦ err problem | none ↦ expanded ]
