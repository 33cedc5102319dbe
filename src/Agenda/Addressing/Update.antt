-- ===== src/Agenda/Addressing/Update.antt =====
-- src/pic_agentic/agenda/engine.py: the leaves after an assignment to the leaf at a path.
use mathlib.Core.List.{map-append}
use pic_agentic.Common.{
  String, ◌≡◌, refl, sym, ◌∙◌, ap, ap₂, Bool, false, none, List, [], ◌∷◌, map, arith, All, inl, inr,
  str_eq, eq_iff, texts_eq, texts_eq_iff, split_char, split_char-injective, Bool-cases,
  if◌then◌else◌,
}
use pic_agentic.Agenda.Model.{
  AgendaSim, Entry, sim, group, Entries, no_entries, entry, AgendaGroup, Leaf, get_entry,
  simulations,
}
use pic_agentic.Agenda.Addressing.{update_entry, update_entries, set_leaf}
use pic_agentic.Agenda.Addressing.Names.{
  Named, below, named_entry, named_leaves, path_from, addressed, walk_named, IsTidyEntry, AreTidy,
  IsTidy, IsPlace, split-IsPlace, leaves-IsPlace,
}

abbrev mark : List String → (AgendaSim → AgendaSim) → Named → Named
mark names f (place, s) = (place, if texts_eq place names then f s else s)

-- The leaves with `f` applied to the one at the path.
abbrev pub at : String → (AgendaSim → AgendaSim) → Leaf → Leaf
at path f (q, s) = (q, if str_eq q path then f s else s)

mark-below_same :
    (n : String) (t : List String) (f : AgendaSim → AgendaSim) (l : List Named)
    → map (mark (n ∷ t) f) (map (below n) l) ≡ map (below n) (map (mark t f) l)
unfolding texts_eq
mark-below_same n t f [] = refl
mark-below_same n t f ((p, s) ∷ l) = ap₂ ◌∷◌ (ground (arith, eq_iff n n)) (mark-below_same n t f l)

mark-below_other :
    (n k : String) (t : List String) (f : AgendaSim → AgendaSim) (l : List Named)
    → str_eq k n ≡ false
    → map (mark (n ∷ t) f) (map (below k) l) ≡ map (below k) l
unfolding texts_eq
mark-below_other n k t f [] h = refl
mark-below_other n k t f ((p, s) ∷ l) h = ap₂ ◌∷◌ (ground arith) (mark-below_other n k t f l h)

mark_absent :
    (n : String) (t : List String) (f : AgendaSim → AgendaSim) (es : Entries)
    → get_entry n es ≡ none
    → map (mark (n ∷ t) f) (named_leaves es) ≡ named_leaves es
unfolding named_leaves get_entry
mark_absent n t f no_entries h = refl
mark_absent n t f (entry k e rest) h = elim (Bool-cases (str_eq k n)) [
  | inl same ↦ absurd (cc (rw same at h))
  | inr other ↦ rw (
    map-append,
    mark-below_other n k t f (named_entry e) other,
    mark_absent n t f rest (rw other at h),
  )
]

root_below :
    (f : AgendaSim → AgendaSim) (k : String) (l : List Named)
    → map (mark [] f) (map (below k) l) ≡ map (below k) l
unfolding texts_eq
root_below f k [] = refl
root_below f k ((p, s) ∷ l) = ap (λ r. (k ∷ p, s) ∷ r) (root_below f k l)

mark_root :
    (f : AgendaSim → AgendaSim) (es : Entries) → map (mark [] f) (named_leaves es) ≡ named_leaves es
unfolding named_leaves
mark_root f no_entries = refl
mark_root f (entry k e rest) = rw (map-append, mark_root f rest, root_below f k (named_entry e))

mutual
  unfolding update_entries named_leaves texts_eq

  named-update_entry :
      (names : List String) (f : AgendaSim → AgendaSim) (e : Entry)
      → IsTidyEntry e
      → named_entry (update_entry names f e) ≡ map (mark names f) (named_entry e)
  named-update_entry [] f (sim s) h = refl
  named-update_entry (n ∷ t) f (sim s) h = refl
  named-update_entry [] f (group info es) h = named-update_entries [] f es h
  named-update_entry (n ∷ t) f (group info es) h = named-update_entries (n ∷ t) f es h

  named-update_entries :
      (names : List String) (f : AgendaSim → AgendaSim) (es : Entries)
      → AreTidy es
      → named_leaves (update_entries names f es) ≡ map (mark names f) (named_leaves es)
  named-update_entries [] f no_entries h = refl
  named-update_entries (n ∷ t) f no_entries h = refl
  named-update_entries [] f (entry k e rest) h = sym (mark_root f (entry k e rest))
  named-update_entries (n ∷ t) f (entry k e rest) h = elim (Bool-cases (str_eq k n)) [
    | inl same ↦
        let e' : k ≡ n = (eq_iff k n).0 same in
        rw same (
          rw (sym e') (
            rw (
              map-append,
              mark-below_same k t f (named_entry e),
              mark_absent k t f rest h.1,
              named-update_entry t f e h.2,
            )))
    | inr other ↦ rw (
      other,
      map-append,
      mark-below_other n k t f (named_entry e) other,
      named-update_entries (n ∷ t) f rest h.3,
    )
  ]

same_place :
    (path : String) (names : List String)
    → IsPlace names
    → texts_eq names (split_char b'/' path) ≡ str_eq (path_from "" names) path
same_place path names h =
    let there = path_from "" names in
    let back : split_char b'/' there ≡ names = split-IsPlace names h in
    elim (Bool-cases (str_eq there path)) [
      | inl same ↦
          let e = ap (split_char b'/') ((eq_iff there path).0 same) in
          (texts_eq_iff names (split_char b'/' path)).1 (sym back ∙ e) ∙ sym same
      | inr other ↦ elim (Bool-cases (texts_eq names (split_char b'/' path))) [
        | inl same ↦
            let e = back ∙ (texts_eq_iff names (split_char b'/' path)).0 same in
            cc ((eq_iff there path).1 (split_char-injective "/" there path e))
        | inr apart ↦ apart ∙ sym other
      ]
    ]

mark-at :
    (path : String) (f : AgendaSim → AgendaSim) (l : List Named)
    → All (λ (nm : Named). IsPlace nm.0) l
    → map (addressed "") (map (mark (split_char b'/' path) f) l)
      ≡ map (at path f) (map (addressed "") l)
mark-at path f [] h = refl
mark-at path f ((names, s) ∷ l) h =
    ap₂ ◌∷◌
      (ap (λ (b : Bool). (path_from "" names, if b then f s else s)) (same_place path names h.0))
      (mark-at path f l h.1)

-- In an agenda whose names are legal and distinct within each group, an assignment to the leaf at a
-- path changes the leaf that `simulations` lists under that path, and no other.
pub simulations-set_leaf :
    (agenda : AgendaGroup) (path : String) (f : AgendaSim → AgendaSim)
    → IsTidy agenda
    → simulations (set_leaf agenda path f) ≡ map (at path f) (simulations agenda)
unfolding simulations set_leaf
simulations-set_leaf agenda path f h =
    rw
      (
        walk_named "" (update_entries (split_char b'/' path) f agenda.entries),
        walk_named "" agenda.entries,
        named-update_entries (split_char b'/' path) f agenda.entries h,
      )
      (mark-at path f (named_leaves agenda.entries) (leaves-IsPlace agenda.entries h))
