-- ===== src/Agenda/Addressing.antt =====
-- src/pic_agentic/agenda/engine.py, `leaf_at`: the leaf at a path, and an assignment to its fields.
pub mod Names
pub mod Lookup
pub mod Update
use pic_agentic.Common.{
  String, Option, none, some, List, [], ◌∷◌, str_eq, split_char, if◌then◌else◌,
}
use pic_agentic.Agenda.Model.{
  AgendaSim, Entry, sim, group, Entries, no_entries, entry, AgendaGroup, get_entry,
}

abbrev pub leaf_of : Option Entry → Option AgendaSim
leaf_of (some (sim s)) = some s
leaf_of _ = none

abbrev pub group_of : Option Entry → Entries
group_of (some (group info es)) = es
group_of _ = no_entries

-- From group to group by the names of the path; no group, or no such entry, has no leaf.
unfoldable pub find_leaf : List String → Entries → Option AgendaSim
find_leaf [] es = none
find_leaf (name ∷ []) es = leaf_of (get_entry name es)
find_leaf (name ∷ next ∷ names) es = find_leaf (next ∷ names) (group_of (get_entry name es))

unfoldable pub leaf_at : AgendaGroup → String → Option AgendaSim
unfolding find_leaf
leaf_at agenda path = find_leaf (split_char b'/' path) agenda.entries

-- The same walk, with an assignment to the fields of the leaf that it ends at.
unfoldable mutual
  pub update_entry : List String → (AgendaSim → AgendaSim) → Entry → Entry
  update_entry [] f (sim s) = sim (f s)
  update_entry (name ∷ names) f (sim s) = sim s
  update_entry names f (group info es) = group info (update_entries names f es)

  pub update_entries : List String → (AgendaSim → AgendaSim) → Entries → Entries
  update_entries names f no_entries = no_entries
  update_entries [] f (entry k e rest) = entry k e rest
  update_entries (name ∷ names) f (entry k e rest) =
      let here = entry k (update_entry names f e) rest in
      let there = entry k e (update_entries (name ∷ names) f rest) in
      if str_eq k name then here else there

-- `leaf = leaf_at(agenda, path)`, and, if there is one, `leaf.field = ...` on the deep copy.
unfoldable pub set_leaf : AgendaGroup → String → (AgendaSim → AgendaSim) → AgendaGroup
set_leaf agenda path f = record {
  info = agenda.info;
  entries = update_entries (split_char b'/' path) f agenda.entries;
}
