-- ===== src/Agenda/Model/Leaves.antt =====
-- src/pic_agentic/agenda/model.py: loops over `simulations`, and loops over the list of leaves.
use pic_agentic.Common.{String, ◌≡◌, refl, ap, List, [], ◌∷◌, ◌++◌}
use pic_agentic.Agenda.Model.{
  AgendaSim, Entry, sim, group, Entries, no_entries, entry, AgendaGroup, Leaf, join_path,
  walk_entry, walk_leaves, simulations, visit_entry, visit_leaves, for_leaves,
}

module _ {S : Type 0} (f : String → AgendaSim → S → AgendaSim × S) where
  -- The same loop over a list of leaves.
  abbrev pub visit_list : List Leaf → S → List Leaf × S
  visit_list [] st = ([], st)
  visit_list ((path, s) ∷ leaves) st =
      let (s', st') = f path s st in
      let (rest, st'') = visit_list leaves st' in ((path, s') ∷ rest, st'')

  pub visit_list-append :
      (xs ys : List Leaf) (st : S)
      → ((visit_list (xs ++ ys) st).0
          ≡ (visit_list xs st).0 ++ (visit_list ys (visit_list xs st).1).0)
        × ((visit_list (xs ++ ys) st).1 ≡ (visit_list ys (visit_list xs st).1).1)
  visit_list-append [] ys st = (refl, refl)
  visit_list-append ((path, s) ∷ xs) ys st =
      let ih = visit_list-append xs ys (f path s st).1 in
      (ap (λ l. (path, (f path s st).0) ∷ l) ih.0, ih.1)

  mutual
    unfolding visit_leaves walk_leaves

    leaves_of_entry :
        (path : String) (e : Entry) (st : S)
        → (walk_entry path (visit_entry f path e st).0 ≡ (visit_list (walk_entry path e) st).0)
          × ((visit_entry f path e st).1 ≡ (visit_list (walk_entry path e) st).1)
    leaves_of_entry path (sim s) st = (refl, refl)
    leaves_of_entry path (group info es) st = leaves_of_entries path es st

    leaves_of_entries :
        (prefix : String) (es : Entries) (st : S)
        → (walk_leaves prefix (visit_leaves f prefix es st).0
            ≡ (visit_list (walk_leaves prefix es) st).0)
          × ((visit_leaves f prefix es st).1 ≡ (visit_list (walk_leaves prefix es) st).1)
    leaves_of_entries prefix no_entries st = (refl, refl)
    leaves_of_entries prefix (entry name e rest) st =
        let path = join_path prefix name in
        let here = leaves_of_entry path e st in
        let there = leaves_of_entries prefix rest (visit_entry f path e st).1 in
        let both = visit_list-append (walk_entry path e) (walk_leaves prefix rest) st in
        (rw (here.0, there.0, here.1, both.0), rw (there.1, here.1, both.1))

-- After a loop over the leaves of an agenda its leaves, and the state that the loop carried, are those
-- of the loop over their list: no leaf is lost, moved or visited twice.
pub simulations-for_leaves :
    {S : Type 0} (f : String → AgendaSim → S → AgendaSim × S) (agenda : AgendaGroup) (st : S)
    → (simulations (for_leaves f agenda st).0 ≡ (visit_list f (simulations agenda) st).0)
      × ((for_leaves f agenda st).1 ≡ (visit_list f (simulations agenda) st).1)
unfolding simulations for_leaves
simulations-for_leaves f agenda st = leaves_of_entries f "" agenda.entries st
