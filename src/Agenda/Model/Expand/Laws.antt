-- ===== src/Agenda/Model/Expand/Laws.antt =====
-- What `add` and `expand` of src/pic_agentic/agenda/model.py do to the leaves of an agenda.
use pic_agentic.Common.{String, ◌≡◌, refl, sym, ◌∙◌, Option, none, List, [], ◌∷◌, ◌++◌, map, arith}
use mathlib.Core.List.{append-nil, append_assoc}
use pic_agentic.Common.Value.{Value}
use pic_agentic.Agenda.Model.{
  AgendaSweep, Entry, sim, Entries, no_entries, entry, AgendaGroup, Leaf, join_path, walk_entry,
  walk_leaves, simulations, get_entry, append_entry, validate_entry_name,
}
use pic_agentic.Agenda.Model.Expand.{
  ok, Synthesis, add, rename, leaf_name, swept_leaf, expand_values, base_of, expand,
}

walk-append_entry :
    (prefix name : String) (e : Entry) (es : Entries)
    → walk_leaves prefix (append_entry name e es)
      ≡ walk_leaves prefix es ++ walk_entry (join_path prefix name) e
unfolding walk_leaves append_entry
walk-append_entry prefix name e no_entries = append-nil _
walk-append_entry prefix name e (entry k x rest) =
    rw (walk-append_entry prefix name e rest, append_assoc)

module _ (y : Synthesis) where
  -- The leaves that a sweep adds, in the order of its values.
  pub swept : String → AgendaSweep → List Value → List Leaf
  swept base sweep vs = map (λ v. (leaf_name y base sweep v, swept_leaf y base sweep v)) vs

  expand_values-step :
      (base : String) (sweep : AgendaSweep) (v : Value) (vs : List Value) (es es' : Entries)
      → expand_values y base sweep (v ∷ vs) es ≡ ok es'
      → expand_values y base sweep vs
          (append_entry (leaf_name y base sweep v) (sim (swept_leaf y base sweep v)) es)
        ≡ ok es'
  unfolding expand_values
  expand_values-step base sweep v vs es es' h = ground arith

  expand_values-leaves :
      (base : String) (sweep : AgendaSweep) (vs : List Value) (es es' : Entries)
      → expand_values y base sweep vs es ≡ ok es'
      → walk_leaves "" es' ≡ walk_leaves "" es ++ swept base sweep vs
  unfolding expand_values swept walk_leaves join_path
  expand_values-leaves base sweep [] es es' h =
      let e : es ≡ es' = cc in rw (← e) (sym (append-nil _))
  expand_values-leaves base sweep (v ∷ vs) es es' h =
      let name = leaf_name y base sweep v in
      let leaf = sim (swept_leaf y base sweep v) in
      expand_values-leaves base sweep vs (append_entry name leaf es) es'
        (expand_values-step base sweep v vs es es' h)
      ∙ rw (walk-append_entry "" name leaf es) (append_assoc (walk_leaves "" es) _ _)

  expand-values :
      (sweep : AgendaSweep) (base : Option String) (agenda agenda' : AgendaGroup)
      → expand y sweep base agenda ≡ ok agenda'
      → expand_values y (base_of base agenda) sweep sweep.values agenda.entries ≡ ok agenda'.entries
  unfolding expand
  expand-values sweep base agenda agenda' h = ground arith

-- An expansion that succeeds keeps every leaf, with its state, and adds one planned leaf for each value
-- of the sweep behind them, in the order of the values.
pub simulations-expand :
    (y : Synthesis) (sweep : AgendaSweep) (base : Option String) (agenda agenda' : AgendaGroup)
    → expand y sweep base agenda ≡ ok agenda'
    → simulations agenda' ≡ simulations agenda ++ swept y (base_of base agenda) sweep sweep.values
unfolding simulations
simulations-expand y sweep base agenda agenda' h =
    expand_values-leaves y (base_of base agenda) sweep sweep.values agenda.entries agenda'.entries
      (expand-values y sweep base agenda agenda' h)

add_cases :
    (name : String) (e : Entry) (agenda agenda' : AgendaGroup)
    → add name e agenda ≡ ok agenda'
    → (validate_entry_name name ≡ none)
      × (get_entry name agenda.entries ≡ none)
      × (agenda'.entries ≡ append_entry name (rename name e) agenda.entries)
unfolding add
add_cases name e agenda agenda' h = (ground arith, ground arith, ground arith)

-- An addition that succeeds had a legal and new name, and adds the leaves of its entry behind the others.
pub simulations-add :
    (name : String) (e : Entry) (agenda agenda' : AgendaGroup)
    → add name e agenda ≡ ok agenda'
    → (validate_entry_name name ≡ none)
      × (get_entry name agenda.entries ≡ none)
      × (simulations agenda' ≡ simulations agenda ++ walk_entry name (rename name e))
unfolding simulations
simulations-add name e agenda agenda' h =
    let (legal, fresh, made) = add_cases name e agenda agenda' h in
    (
      legal,
      fresh,
      rw (made, walk-append_entry "" name (rename name e) agenda.entries)
          (unfold join_path in refl),
    )
