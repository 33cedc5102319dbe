-- ===== src/Agenda/Addressing/Lookup.antt =====
-- src/pic_agentic/agenda/engine.py: `leaf_at` at the paths that `simulations` lists.
use pic_agentic.Common.{
  String, ◌≡◌, refl, ap, Option, none, some, List, [], ◌∷◌, map, arith, All, All-append, All-map,
  inl, inr, str_eq, eq_iff, eq_refl, Bool-cases,
}
use pic_agentic.Agenda.Model.{
  AgendaSim, GroupInfo, Entry, sim, group, Entries, no_entries, entry, AgendaGroup, Leaf, get_entry,
  simulations,
}
use pic_agentic.Agenda.Addressing.{leaf_of, group_of, find_leaf, leaf_at}
use pic_agentic.Agenda.Addressing.Names.{
  Named, below, named_entry, named_leaves, addressed, walk_named, IsTidyEntry, AreTidy, IsTidy,
  IsPlace, NotRoot, not_root, split-IsPlace, leaves-IsPlace, All-below,
}

abbrev Finds : Entries → Named → Type 0
Finds es nm = find_leaf nm.0 es ≡ some nm.1

get_skip :
    (k n : String) (e : Entry) (rest : Entries) {x : Entry}
    → get_entry k rest ≡ none
    → get_entry n rest ≡ some x
    → get_entry n (entry k e rest) ≡ get_entry n rest
unfolding get_entry
get_skip k n e rest fresh found = elim (Bool-cases (str_eq k n)) [
  | inl same ↦
      let same' : k ≡ n = (eq_iff k n).0 same in cc (fresh, found, ap (λ m. get_entry m rest) same')
  | inr other ↦ rw other
]

found_entry : (o : Option Entry) (s : AgendaSim) → leaf_of o ≡ some s → (x : Entry) × (o ≡ some x)
found_entry none s h = cc
found_entry (some x) s h = (x, refl)

find_nowhere : (names : List String) → find_leaf names no_entries ≡ none
unfolding find_leaf get_entry
find_nowhere [] = refl
find_nowhere (n ∷ []) = refl
find_nowhere (n ∷ m ∷ names) = find_nowhere (m ∷ names)

found_group :
    (o : Option Entry) (names : List String) (s : AgendaSim)
    → find_leaf names (group_of o) ≡ some s
    → (x : Entry) × (o ≡ some x)
found_group none names s h = absurd (ground (arith, find_nowhere names))
found_group (some x) names s h = (x, refl)

find_skip :
    (k : String) (e : Entry) (rest : Entries) (names : List String) (s : AgendaSim)
    → get_entry k rest ≡ none
    → find_leaf names rest ≡ some s
    → find_leaf names (entry k e rest) ≡ some s
unfolding find_leaf
find_skip k e rest [] s fresh h = cc
find_skip k e rest (n ∷ []) s fresh h =
    let (x, found) = found_entry (get_entry n rest) s h in rw (get_skip k n e rest fresh found) h
find_skip k e rest (n ∷ m ∷ names) s fresh h =
    let (x, found) = found_group (get_entry n rest) (m ∷ names) s h in
    rw (get_skip k n e rest fresh found) h

get_here : (k : String) (e : Entry) (rest : Entries) → get_entry k (entry k e rest) ≡ some e
unfolding get_entry
get_here k e rest = rw (eq_refl k)

find_in_group :
    (k : String) (info : GroupInfo) (es rest : Entries) (l : List Named)
    → All (Finds es) l
    → All NotRoot l
    → All (λ (nm : Named). find_leaf (k ∷ nm.0) (entry k (group info es) rest) ≡ some nm.1) l
unfolding find_leaf
find_in_group k info es rest [] a b = tt
find_in_group k info es rest ((names, s) ∷ l) (found, a) ((first, others, e), b) =
    (rw (e, get_here k (group info es) rest) (rw e at found), find_in_group k info es rest l a b)

mutual
  unfolding named_leaves find_leaf

  find_below :
      (k : String) (e : Entry) (rest : Entries)
      → IsTidyEntry e
      → All (λ (nm : Named). find_leaf (k ∷ nm.0) (entry k e rest) ≡ some nm.1) (named_entry e)
  find_below k (sim s) rest h = (rw (get_here k (sim s) rest) refl, tt)
  find_below k (group info es) rest h =
      find_in_group k info es rest (named_leaves es) (find_named es h) (not_root es)

  pub find_named : (es : Entries) → AreTidy es → All (Finds es) (named_leaves es)
  find_named no_entries h = tt
  find_named (entry k e rest) h =
      All-append (Finds (entry k e rest)) (map (below k) (named_entry e)) (named_leaves rest)
        (All-below (Finds (entry k e rest)) k (named_entry e) (find_below k e rest h.2))
        (All-map (λ nm found. find_skip k e rest nm.0 nm.1 h.1 found) (named_leaves rest)
          (find_named rest h.3))

at_path :
    (agenda : AgendaGroup) (l : List Named)
    → All (Finds agenda.entries) l
    → All (λ (nm : Named). IsPlace nm.0) l
    → All (λ (leaf : Leaf). leaf_at agenda leaf.0 ≡ some leaf.1) (map (addressed "") l)
unfolding leaf_at
at_path agenda [] a b = tt
at_path agenda ((names, s) ∷ l) (found, a) (place, b) =
    (rw (split-IsPlace names place) found, at_path agenda l a b)

-- In an agenda whose names are legal and distinct within each group, every leaf that `simulations`
-- lists is the leaf at its path.
pub leaf_at-simulations :
    (agenda : AgendaGroup)
    → IsTidy agenda
    → All (λ (leaf : Leaf). leaf_at agenda leaf.0 ≡ some leaf.1) (simulations agenda)
unfolding simulations
leaf_at-simulations agenda h = rw (walk_named "" agenda.entries) (
    at_path agenda (named_leaves agenda.entries) (find_named agenda.entries h)
      (leaves-IsPlace agenda.entries h))
